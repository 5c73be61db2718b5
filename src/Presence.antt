-- ===== src/Presence.antt =====
-- Presence, c/src/presence.c: the dispatcher.
pub mod Available
pub mod Subscribing
pub mod Full
pub mod States
pub mod Entry
pub mod Frame
pub mod Pushed
pub mod LookUp
pub mod Rosters
pub mod Met
pub mod Asked
pub mod Handshake
pub mod Revoked
mod Tests
use jabber.Base.{ℕ, Text, codes, str_eq, length, ◌==◌, if◌then◌else◌}
use jabber.Xml.{Node}
use jabber.World.{Env, M, pure}
use jabber.Register.{or_empty}
use Available.{presence_handle_available, presence_handle_unavailable}
use Subscribing.{
  presence_handle_subscribe, presence_handle_subscribed, presence_handle_unsubscribe,
  presence_handle_unsubscribed,
}

module _ (e : Env) where
  unfoldable pub dispatch_presence : ℕ → Node → Text → Text → M (Unit {0})
  dispatch_presence p stanza type to =
      if length type == 0
      then presence_handle_available e p stanza
      else if str_eq type (codes "unavailable")
      then presence_handle_unavailable e p
      else if str_eq type (codes "subscribe")
      then presence_handle_subscribe e p to
      else if str_eq type (codes "subscribed")
      then presence_handle_subscribed e p to
      else if str_eq type (codes "unsubscribe")
      then presence_handle_unsubscribe e p to
      else if str_eq type (codes "unsubscribed")
      then presence_handle_unsubscribed e p to
      else pure tt

  unfoldable pub handle_presence : ℕ → Node → M (Unit {0})
  unfolding or_empty
  handle_presence p stanza =
      dispatch_presence p stanza (or_empty (e.xml.get_prop stanza (codes "type")))
        (or_empty (e.xml.get_prop stanza (codes "to")))
