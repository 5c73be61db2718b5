-- ===== src/Presence/Tests.antt =====
-- A request from a session whose roster is full, and what a session does with a contact who has none.
use jabber.Base.{
  ap, sym, ℕ, zero, suc, ◌≡◌, refl, true, false, none, some, List, [], ◌∷◌, codes, str_eq, ◌==◌,
  if◌then◌else◌, arith, inl,
}
use jabber.Jid.{JidParts, jid_parse, jid_bare}
use jabber.Output.{session_find_by_jid, find_from, try_slot, jid_matches, bare_jid_of}
use jabber.Roster.Items.{lookup_item}
use jabber.World.Keeps.{Ends}
use jabber.Presence.Rosters.{Approved, presence_handle_subscribed-Approved}
use jabber.Presence.Met.{Met, presence_handle_subscribed-Met}
use jabber.Presence.Handshake.{Subscribed, handshake-Subscribed}
use jabber.RosterIq.{subscription_or_none}
use jabber.Subscription.{none_text}
use jabber.Subscription.Bits.{sub_text}
use jabber.Presence.Revoked.{Revoked, withdrawals-Revoked}
use jabber.Presence.States.{loses_to, loses_from}
use jabber.World.{RosterItem, Session, World, pure, gets, load, ◌>>=◌, ◌>>◌}
use jabber.Server.{new_session}
use jabber.Sample.{sample_env, client, one_client}
use jabber.Roster.{find_in, roster_find_item}
use jabber.Teardown.{jid_buffers, parse_bare}
use jabber.Presence.Subscribing.{
  presence_handle_subscribe, presence_handle_subscribed, presence_handle_unsubscribe,
  presence_handle_unsubscribed,
}
use jabber.Presence.Full.{presence_handle_subscribe-full}

abbrev contact : RosterItem
contact = record {
  jid = codes "bob@localhost";
  name = [];
  subscription = codes "none";
  ask_subscribe = false;
}

abbrev contacts : ℕ → List RosterItem
contacts zero = []
contacts (suc n) = contact ∷ contacts n

abbrev busy : Session
busy = record client { roster = record { items = contacts 128; loaded = true } }

abbrev busy_world : World
busy_world = record one_client { heap = λ p. if p == 1 then some busy else none }

presence_handle_subscribe-full_example :
    presence_handle_subscribe sample_env 1 (codes "eve@localhost") busy_world ≡ none
unfolding roster_find_item find_in str_eq parse_bare jid_buffers jid_parse jid_bare pure ◌>>=◌
presence_handle_subscribe-full_example =
    presence_handle_subscribe-full sample_env 1 busy busy_world refl (codes "eve@localhost") refl
      (omega arith) (codes "eve@localhost") refl refl

-- Bob, who has no session, is in the roster of the session.
abbrev waiting : Session
waiting = record client {
  jid_local = codes "alice";
  jid_domain = codes "localhost";
  roster = record { items = contact ∷ []; loaded = true };
}

abbrev waiting_world : World
waiting_world = record one_client { heap = λ p. if p == 1 then some waiting else none }

abbrev bob : JidParts
bob = record { local = codes "bob"; domain = codes "localhost"; resource = [] }

presence_handle_subscribed_example :
    Ends
      (Approved sample_env 1 waiting waiting_world bob)
      (presence_handle_subscribed sample_env 1 (codes "bob@localhost") waiting_world)
unfolding lookup_item str_eq jid_parse jid_bare session_find_by_jid find_from try_slot jid_matches
    bare_jid_of gets load pure ◌>>=◌ new_session
presence_handle_subscribed_example =
    presence_handle_subscribed-Approved sample_env 1 waiting waiting_world bob refl
      (inl (contact, refl)) (codes "bob@localhost") refl refl refl

withdrawals_example :
    Ends
      (Revoked sample_env 1 waiting waiting_world bob loses_to loses_from)
      (presence_handle_unsubscribe sample_env 1 (codes "bob@localhost") waiting_world)
    × Ends
        (Revoked sample_env 1 waiting waiting_world bob loses_from loses_to)
        (presence_handle_unsubscribed sample_env 1 (codes "bob@localhost") waiting_world)
unfolding str_eq jid_parse jid_bare session_find_by_jid find_from try_slot jid_matches bare_jid_of
    gets load pure ◌>>=◌ new_session
withdrawals_example =
    withdrawals-Revoked sample_env 1 waiting waiting_world bob (codes "bob@localhost") refl refl
      refl refl

-- Bob's session, which has Alice in its roster, stands in the slot behind hers.
abbrev asking : Session
asking = record (new_session 8 2) {
  jid_local = codes "bob";
  jid_domain = codes "localhost";
  roster = record {
    items = record contact { jid = codes "alice@localhost"; ask_subscribe = true } ∷ [];
    loaded = true;
  };
}

abbrev both_there : World
both_there = record one_client {
  heap = λ p. if p == 1 then some waiting else if p == 2 then some asking else none;
  sessions = λ i. if i == 1 then some 1 else if i == 2 then some 2 else none;
  nfds = 3;
}

presence_handle_subscribed-Met_example :
    Ends
      (Met sample_env 1 2 waiting asking both_there bob)
      (presence_handle_subscribed sample_env 1 (codes "bob@localhost") both_there)
unfolding lookup_item str_eq jid_parse jid_bare session_find_by_jid find_from try_slot jid_matches
    bare_jid_of gets load pure ◌>>=◌ new_session
presence_handle_subscribed-Met_example =
    presence_handle_subscribed-Met sample_env 1 2 waiting asking both_there bob refl refl
      (λ same. absurd (omega (arith, same))) (inl (contact, refl)) refl (codes "bob@localhost") refl
      refl refl

abbrev alice : JidParts
alice = record { local = codes "alice"; domain = codes "localhost"; resource = [] }

handshake_example : Ends (Subscribed sample_env 1 2 waiting asking both_there alice bob) (
    (presence_handle_subscribe sample_env 1 (codes "bob@localhost")
        >> presence_handle_subscribed sample_env 2 (codes "alice@localhost"))
      both_there)
unfolding lookup_item str_eq jid_parse jid_bare session_find_by_jid find_from try_slot jid_matches
    bare_jid_of gets load pure ◌>>=◌ new_session subscription_or_none sub_text none_text
handshake_example =
    handshake-Subscribed sample_env 1 2 waiting asking both_there alice bob
      (λ same. absurd (omega (arith, same))) refl refl
      (λ i h. (false, false, ap subscription_or_none (sym h)))
      (λ i h. (false, false, ap subscription_or_none (sym h))) (codes "bob@localhost")
      (codes "alice@localhost") refl refl refl refl (inl (_, refl)) (inl (_, refl)) refl refl refl
      refl
