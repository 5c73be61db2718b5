-- ===== src/Presence/Rosters.antt =====
-- An approval for a contact who has no session, c/src/presence.c: both rosters afterwards.
use jabber.Base.{
  ◌∙◌, ℕ, ◌<◌, ◌≡◌, refl, ap, ◌++◌, true, false, none, some, Text, codes, str_eq, str_eq_refl,
  length, length-take, snprintf_s, if◌then◌else◌, arith,
}
use jabber.Jid.{JidParts, parsed, jid_parse, jid_bare}
use jabber.World.{Roster, Session, World, Env, M, ◌>>=◌, ◌>>◌, pure, gets, load, modify}
use jabber.World.Keeps.{Ends}
use jabber.World.Steps.{Runs-bind, Runs-load, Ends-bind}
use jabber.Output.{bare_jid_of, session_find_by_jid}
use jabber.Subscription.{from_text, set_subscription, clear_ask}
use jabber.Roster.Items.{lookup_item, map_some}
use jabber.Disk.{
  user_path, roster_of_file, roster_load_from_path, roster_load_for_user, roster_save_for_user,
}
use jabber.Teardown.{jid_buffers, ensure_roster}
use jabber.RosterIq.{set_roster}
use jabber.Presence.Subscribing.{
  edit_or_add, edit_if_found, save_and_push, approve_on_disk, approve_target, announce_approval,
  presence_handle_subscribed,
}
use jabber.Presence.Full.{ensured}
use jabber.Presence.States.{
  gains_from, gains_to, approving, approved, approving-gains, approved-gains,
}
use jabber.Presence.Entry.{
  HasPlace, edited_or_new, lookup-edit_or_add, lookup-edit_if_found, found-lookup,
}
use jabber.Presence.Frame.{Files, stored, Edited, refl-Edited, set_roster-Edited}
use jabber.Presence.Pushed.{roster_save_for_user-Edited, save_and_push-Edited}
use jabber.Presence.LookUp.{Edited-SameJids, session_find_by_jid-Finds}

-- The contact's JID, and its roster in a file.
abbrev pub contact_jid : JidParts → Text
contact_jid parts = jid_bare parts.local parts.domain 512

abbrev pub contact_roster : Env → JidParts → Files → Roster
contact_roster e parts fs =
    roster_of_file e (fs (user_path e 1280 parts.local (codes "roster.xml")))

pub contact_jid-fits : (parts : JidParts) → length (contact_jid parts) < 512
unfolding jid_bare snprintf_s
contact_jid-fits parts =
    rw (length-take 511 (parts.local ++ (codes "@" ++ parts.domain))) (omega arith)

module _ (e : Env) (p : ℕ) (s : Session) (w : World) (parts : JidParts) where
  abbrev contact : Text
  contact = contact_jid parts

  abbrev own : Text
  own = bare_jid_of s

  abbrev roster_in : Files → Roster
  roster_in fs = contact_roster e parts fs

  -- Each of the two rosters is changed at one entry, both are saved, and nothing else changed but
  -- what the session is sent.
  pub record Approved (v : World) : Type 0 where
    pub mine : Roster
    pub theirs : Roster
    pub after_mine : Files
    pub edited : Edited p s w mine (stored e parts.local theirs after_mine) v
    pub saved : after_mine ≡ stored e s.jid_local mine w.files
    pub my_entries :
        (k : Text)
        → lookup_item mine.items k ≡ (
            if str_eq contact k
            then some (
                edited_or_new contact gains_from from_text false
                  (lookup_item s.roster.items contact))
            else lookup_item s.roster.items k)
    pub their_entries :
        (k : Text)
        → lookup_item theirs.items k ≡ (
            if str_eq own k
            then map_some gains_to (lookup_item (roster_in after_mine).items own)
            else lookup_item (roster_in after_mine).items k)

  abbrev pub mine_now : Roster
  mine_now = edit_or_add s.roster contact approving from_text false

  abbrev pub files_now : Files
  files_now = stored e s.jid_local mine_now w.files

  abbrev theirs_now : Roster
  theirs_now = edit_if_found (roster_in files_now) own approved

  approve_on_disk-Edited :
      (v : World)
      → Edited p s w mine_now files_now v
      → Ends
          (Edited p s w mine_now (stored e parts.local theirs_now files_now))
          (approve_on_disk e parts.local own v)
  unfolding approve_on_disk roster_load_for_user roster_load_from_path gets pure
  approve_on_disk-Edited v h =
      rw
        (Runs-bind (roster_load_for_user e parts.local) _ v v (roster_in files_now)
          (ap (λ fs. some (roster_in fs, v)) h.files))
        (Ends-bind _ _ (roster_save_for_user e parts.local theirs_now) _ v
          (roster_save_for_user-Edited p s w mine_now files_now e parts.local theirs_now v h)
          (λ b u k. k))

  -- What follows once the roster is saved and pushed.
  abbrev pub rest : M (Unit {0})
  rest = do
    target ← session_find_by_jid contact
    approve_target e target parts.local own
    announce_approval e p target own contact

  module _ (live : w.heap p ≡ some s) (place : HasPlace s.roster contact) where
    -- The first half: the contact's entry in the session's own roster.
    pub own_half :
        (P : World → Type 0) (to : Text)
        → s.roster.loaded ≡ true
        → jid_parse to 256 256 256 ≡ parsed parts
        → ((v : World) → Edited p s w mine_now files_now v → Ends P (rest v))
        → Ends P (presence_handle_subscribed e p to w)
    unfolding presence_handle_subscribed jid_buffers set_subscription pure from_text
    own_half P to loaded parse k =
        let entry =
          lookup-edit_or_add s.roster contact approving from_text false (λ x. refl)
            (contact_jid-fits parts) (omega arith) contact place in
        rw parse (
          rw
            (
              Runs-bind (jid_buffers (parsed parts)) _ w w parts refl,
              Runs-bind (ensure_roster e p) _ w w tt (ensured e p s w live loaded),
              Runs-bind (load p) _ w w s (Runs-load p s w live),
            )
            (Ends-bind _ P (modify p (set_roster mine_now)) _ w
              (set_roster-Edited p s w s.roster mine_now w.files w (refl-Edited p s w live))
              (λ a v h.
                Ends-bind _ P (save_and_push e p contact) _ v
                  (save_and_push-Edited e p s w mine_now w.files contact _ v
                    (found-lookup mine_now contact _ (rw (str_eq_refl contact) at entry)) h)
                  (λ b u i. k u i))))

    pub my_entries_now :
        (k : Text)
        → lookup_item mine_now.items k ≡ (
            if str_eq contact k
            then some (
                edited_or_new contact gains_from from_text false
                  (lookup_item s.roster.items contact))
            else lookup_item s.roster.items k)
    unfolding set_subscription from_text
    my_entries_now k =
        lookup-edit_or_add s.roster contact approving from_text false (λ x. refl)
          (contact_jid-fits parts) (omega arith) k place
        ∙ ap
            (λ f.
              if str_eq contact k
              then some
                  (edited_or_new contact f from_text false (lookup_item s.roster.items contact))
              else lookup_item s.roster.items k)
            approving-gains

    Edited-Approved :
        (v : World)
        → Edited p s w mine_now (stored e parts.local theirs_now files_now) v
        → Approved v
    unfolding set_subscription clear_ask
    Edited-Approved v h = record {
      mine = mine_now;
      theirs = theirs_now;
      after_mine = files_now;
      edited = h;
      saved = refl;
      my_entries = my_entries_now;
      their_entries = λ k.
          lookup-edit_if_found (roster_in files_now) own approved k (λ x. refl)
          ∙ ap
              (λ f.
                if str_eq own k
                then map_some f (lookup_item (roster_in files_now).items own)
                else lookup_item (roster_in files_now).items k)
              approved-gains;
    }

    rest-Approved :
        (v : World)
        → session_find_by_jid contact w ≡ some (none, w)
        → Edited p s w mine_now files_now v
        → Ends Approved (rest v)
    unfolding approve_target announce_approval pure
    rest-Approved v absent h =
        rw
          (Runs-bind (session_find_by_jid contact) _ v v none (
            session_find_by_jid-Finds contact w v
              (Edited-SameJids p s w mine_now files_now v live h) none absent))
          (Ends-bind _ Approved (approve_on_disk e parts.local own) _ v (approve_on_disk-Edited v h)
            (λ b u k. Edited-Approved u k))

    -- Where the session's roster is loaded and has the contact or room for one more, the contact's
    -- JID parses and no session has it, the handling of an approval ends. In the roster of the
    -- session, the contact's entry then has the state that it had with "from" added, or is a new
    -- entry with "from", and no other entry changed; the roster is saved where the system lets it
    -- be. In the contact's roster as the files have it then, the entry of the one who approves, if
    -- there is one, has "to" added and no request pending, no other entry changed, and this roster
    -- is saved too. Nothing else changed in the sessions' table, in the other sessions and in the
    -- files.
    pub presence_handle_subscribed-Approved :
        (to : Text)
        → s.roster.loaded ≡ true
        → jid_parse to 256 256 256 ≡ parsed parts
        → session_find_by_jid contact w ≡ some (none, w)
        → Ends Approved (presence_handle_subscribed e p to w)
    presence_handle_subscribed-Approved to loaded parse absent =
        own_half Approved to loaded parse (λ v h. rest-Approved v absent h)
