-- ===== src/Presence/Subscribing.antt =====
-- The four subscription handlers, c/src/presence.c.
use jabber.Base.{ℕ, Bool, true, false, not, Option, none, some, Text, codes, if◌then◌else◌}
use jabber.Jid.{jid_parse, jid_bare}
use jabber.World.{RosterItem, Roster, Env, M, ◌>>=◌, ◌>>◌, pure, load, modify, when}
use jabber.Output.{stanza_send, session_find_by_jid, bare_jid_of}
use jabber.Roster.{roster_find_item, edit_item, roster_add_item}
use jabber.Subscription.{
  none_text, from_text, grant_from, grant_to, revoke_to, revoke_from, set_subscription, clear_ask,
}
use jabber.Disk.{roster_load_for_user, roster_save_for_user, roster_save}
use jabber.Teardown.{jid_buffers, parse_bare, ensure_roster, unavailable_stanza}
use jabber.RosterIq.{set_roster, roster_push_at}
use jabber.Presence.Available.{send_if_online, send_presence_of, presence_notice}

unfoldable pub set_ask : Bool → RosterItem → RosterItem
set_ask b i = record i { ask_subscribe = b }

-- The entry of `bare`: edited where it is, else added; a full roster takes no more.
unfoldable pub edit_or_add : Roster → Text → (RosterItem → RosterItem) → Text → Bool → Roster
unfolding roster_find_item edit_item roster_add_item
edit_or_add r bare f subscription ask = elim (roster_find_item r bare) [
  | some i ↦ edit_item r i f
  | none ↦ (roster_add_item r bare none (some subscription) ask).0
]

-- The entry of `bare`, edited where it is.
unfoldable pub edit_if_found : Roster → Text → (RosterItem → RosterItem) → Roster
unfolding roster_find_item edit_item
edit_if_found r bare f = elim (roster_find_item r bare) [ some i ↦ edit_item r i f | none ↦ r ]

unfoldable pub is_some_index : Option ℕ → Bool
is_some_index none = false
is_some_index (some i) = true

module _ (e : Env) where
  unfoldable pub save_and_push : ℕ → Text → M (Unit {0})
  save_and_push p bare = do
    _ ← roster_save e p
    s ← load p
    roster_push_at e p (roster_find_item s.roster bare)

  unfoldable pub presence_handle_subscribe : ℕ → Text → M (Unit {0})
  presence_handle_subscribe p to = do
    bare ← parse_bare to
    ensure_roster e p
    s ← load p
    modify p (set_roster (edit_or_add s.roster bare (set_ask true) none_text true))
    save_and_push p bare
    target ← session_find_by_jid bare
    send_if_online e (presence_notice e (codes "subscribe") (bare_jid_of s) bare) target

  -- The target's item, in the roster of its session or in the file: changed, saved and pushed.
  unfoldable pub edit_online : ℕ → Text → (RosterItem → RosterItem) → M (Unit {0})
  edit_online target bare f = do
    t ← load target
    modify target (set_roster (edit_if_found t.roster bare f))

  unfoldable pub push_if_found : ℕ → Text → M (Unit {0})
  push_if_found p bare = do
    s ← load p
    when (is_some_index (roster_find_item s.roster bare))
        (roster_push_at e p (roster_find_item s.roster bare))

  unfoldable pub approve_online : ℕ → Text → M (Unit {0})
  approve_online target sender_bare = do
    edit_online target sender_bare (λ i. clear_ask (set_subscription grant_to i))
    _ ← roster_save e target
    push_if_found target sender_bare

  unfoldable pub approve_on_disk : Text → Text → M (Unit {0})
  approve_on_disk user sender_bare = do
    r ← roster_load_for_user e user
    _ ←
        roster_save_for_user e user
          (edit_if_found r sender_bare (λ i. clear_ask (set_subscription grant_to i)))
    pure tt

  unfoldable pub approve_target : Option ℕ → Text → Text → M (Unit {0})
  approve_target none user sender_bare = approve_on_disk user sender_bare
  approve_target (some target) user sender_bare = do
    t ← load target
    if t.roster.loaded then approve_online target sender_bare else approve_on_disk user sender_bare

  unfoldable pub announce_approval : ℕ → Option ℕ → Text → Text → M (Unit {0})
  announce_approval p none sender_bare target_bare = pure tt
  announce_approval p (some target) sender_bare target_bare = do
    s ← load p
    send_presence_of e target s
    stanza_send e target (presence_notice e (codes "subscribed") sender_bare target_bare)

  unfoldable pub presence_handle_subscribed : ℕ → Text → M (Unit {0})
  presence_handle_subscribed p to = do
    parts ← jid_buffers (jid_parse to 256 256 256)
    let target_bare = jid_bare parts.local parts.domain 512
    ensure_roster e p
    s ← load p
    modify p (
        set_roster (edit_or_add s.roster target_bare (set_subscription grant_from) from_text false))
    save_and_push p target_bare
    target ← session_find_by_jid target_bare
    approve_target target parts.local (bare_jid_of s)
    announce_approval p target (bare_jid_of s) target_bare

  -- `if (item) { …; roster_save(s); roster_push(s, item); }`
  unfoldable pub revoke_online : ℕ → Text → (RosterItem → RosterItem) → M (Unit {0})
  revoke_online p bare f = do
    s ← load p
    when (is_some_index (roster_find_item s.roster bare))
        do edit_online p bare f; save_and_push p bare

  unfoldable pub revoke_on_disk : Text → Text → (RosterItem → RosterItem) → M (Unit {0})
  revoke_on_disk user bare f = do
    r ← roster_load_for_user e user
    when (is_some_index (roster_find_item r bare))
        do _ ← roster_save_for_user e user (edit_if_found r bare f); pure tt

  unfoldable pub send_unavailable : ℕ → ℕ → M (Unit {0})
  send_unavailable p target = do
    s ← load p
    when s.available (stanza_send e target (unavailable_stanza e s))

  unfoldable pub revoke_target :
      ℕ → Option ℕ → Text → Text → Text → Text → (RosterItem → RosterItem) → M (Unit {0})
  revoke_target p none user type sender_bare target_bare f = revoke_on_disk user sender_bare f
  revoke_target p (some target) user type sender_bare target_bare f = do
    t ← load target
    if not t.roster.loaded then revoke_on_disk user sender_bare f else do
      revoke_online target sender_bare f
      stanza_send e target (presence_notice e type sender_bare target_bare)
      send_unavailable p target

  -- unsubscribe and unsubscribed differ in what they do to the two items, and in the notice.
  unfoldable pub revoke :
      ℕ → Text → Text → (RosterItem → RosterItem) → (RosterItem → RosterItem) → M (Unit {0})
  revoke p to type f g = do
    parts ← jid_buffers (jid_parse to 256 256 256)
    let target_bare = jid_bare parts.local parts.domain 512
    s ← load p
    ensure_roster e p
    revoke_online p target_bare f
    target ← session_find_by_jid target_bare
    revoke_target p target parts.local type (bare_jid_of s) target_bare g

  unfoldable pub presence_handle_unsubscribe : ℕ → Text → M (Unit {0})
  presence_handle_unsubscribe p to =
      revoke p to (codes "unsubscribe") (λ i. clear_ask (set_subscription revoke_to i))
        (set_subscription revoke_from)

  unfoldable pub presence_handle_unsubscribed : ℕ → Text → M (Unit {0})
  presence_handle_unsubscribed p to =
      revoke p to (codes "unsubscribed") (set_subscription revoke_from)
        (λ i. clear_ask (set_subscription revoke_to i))
