-- ===== src/Presence/Asked.antt =====
-- A request for a subscription to a contact whose session is there, c/src/presence.c.
use jabber.Base.{arith, ℕ, ◌≡◌, ◌≢◌, refl, sym, ◌∙◌, true, some, Text, codes, str_eq_refl}
use jabber.Jid.{JidParts, parsed, jid_parse}
use jabber.World.{Roster, Session, World, Env, ◌>>=◌, pure, load, modify}
use jabber.World.Keeps.{Ends}
use jabber.World.Steps.{Runs-bind, Runs-load, Ends-bind, Ends-weaken}
use jabber.Output.{bare_jid_of, session_find_by_jid}
use jabber.Subscription.{none_text}
use jabber.Roster.Items.{lookup_item}
use jabber.Teardown.{jid_buffers, parse_bare, ensure_roster}
use jabber.RosterIq.{set_roster}
use jabber.Presence.Available.{send_if_online, presence_notice}
use jabber.Presence.Subscribing.{edit_or_add, set_ask, save_and_push, presence_handle_subscribe}
use jabber.Presence.Full.{ensured}
use jabber.Presence.Entry.{
  HasPlace, edited_or_new, lookup-edit_or_add, found-lookup, loaded-edit_or_add,
}
use jabber.Presence.Frame.{Files, stored, Edited, refl-Edited, set_roster-Edited}
use jabber.Presence.Pushed.{stanza_send-Edited, save_and_push-Edited}
use jabber.Presence.LookUp.{Edited-SameJids, session_find_by_jid-Finds}
use jabber.Presence.Rosters.{contact_jid, contact_jid-fits}

module _ (e : Env) (p c : ℕ) (s t : Session) (w : World) (parts : JidParts) where
  abbrev contact : Text
  contact = contact_jid parts

  abbrev asking : Roster
  asking = edit_or_add s.roster contact (set_ask true) none_text true

  abbrev saved : Files
  saved = stored e s.jid_local asking w.files

  -- The session has the request in its roster, which is saved; the contact's session got a stanza.
  pub record Asked (v : World) : Type 0 where
    pub mine : Roster
    pub halfway : World
    pub first : Edited p s w mine (stored e s.jid_local mine w.files) halfway
    pub second : Edited c t halfway t.roster halfway.files v
    pub loaded_still : mine.loaded ≡ s.roster.loaded
    pub entry :
        lookup_item mine.items contact
        ≡ some (
            edited_or_new contact
              (set_ask true)
              none_text
              true
              (lookup_item s.roster.items contact))

  asking-loaded : asking.loaded ≡ s.roster.loaded
  asking-loaded = loaded-edit_or_add s.roster contact (set_ask true) none_text true

  module _ (live : w.heap p ≡ some s) (there : w.heap c ≡ some t) (two : p ≢ c)
      (place : HasPlace s.roster contact)
      (met : session_find_by_jid contact w ≡ some (some c, w)) where
    entry_now :
        lookup_item asking.items contact
        ≡ some (
            edited_or_new contact
              (set_ask true)
              none_text
              true
              (lookup_item s.roster.items contact))
    unfolding set_ask none_text
    entry_now = rw (str_eq_refl contact) at (
        lookup-edit_or_add s.roster contact (set_ask true) none_text true (λ x. refl)
          (contact_jid-fits parts) (omega arith) contact place)

    rest-Asked :
        (v : World)
        → Edited p s w asking saved v
        → Ends Asked (
            (do
              target ← session_find_by_jid contact
              send_if_online e
                  (presence_notice e (codes "subscribe") (bare_jid_of s) contact)
                  target)
              v)
    unfolding send_if_online
    rest-Asked v h =
        let still : v.heap c ≡ some t = h.others c (λ same. two (sym same)) ∙ there in
        rw
          (Runs-bind (session_find_by_jid contact) _ v v (some c) (
            session_find_by_jid-Finds contact w v (Edited-SameJids p s w asking saved v live h)
              (some c) met))
          (Ends-weaken (Edited c t v t.roster v.files) Asked _
            (stanza_send-Edited c t v t.roster v.files e _ v (refl-Edited c t v still))
            (λ u k. record {
              mine = asking;
              halfway = v;
              first = h;
              second = k;
              loaded_still = asking-loaded;
              entry = entry_now;
            }))

    parse_bare-contact :
        (to : Text) → jid_parse to 256 256 256 ≡ parsed parts → parse_bare to w ≡ some (contact, w)
    unfolding parse_bare jid_buffers pure ◌>>=◌
    parse_bare-contact to parse = rw parse refl

    -- The request is in the roster, saved, and goes to the session of the contact.
    pub presence_handle_subscribe-Asked :
        (to : Text)
        → s.roster.loaded ≡ true
        → jid_parse to 256 256 256 ≡ parsed parts
        → Ends Asked (presence_handle_subscribe e p to w)
    unfolding presence_handle_subscribe
    presence_handle_subscribe-Asked to loaded parse =
        rw
          (
            Runs-bind (parse_bare to) _ w w contact (parse_bare-contact to parse),
            Runs-bind (ensure_roster e p) _ w w tt (ensured e p s w live loaded),
            Runs-bind (load p) _ w w s (Runs-load p s w live),
          )
          (Ends-bind _ Asked (modify p (set_roster asking)) _ w
            (set_roster-Edited p s w s.roster asking w.files w (refl-Edited p s w live))
            (λ a v h.
              Ends-bind _ Asked (save_and_push e p contact) _ v
                (save_and_push-Edited e p s w asking w.files contact _ v
                  (found-lookup asking contact _ entry_now) h)
                (λ b u i. rest-Asked u i)))
