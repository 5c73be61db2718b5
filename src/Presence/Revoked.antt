-- ===== src/Presence/Revoked.antt =====
-- The end of a subscription with a contact who has no session, c/src/presence.c: both rosters
-- afterwards.
use jabber.Base.{
  ℕ, ◌≡◌, refl, ap, true, Option, none, some, Text, codes, str_eq, if◌then◌else◌, Option-cases, inl,
  inr, str_eq_refl,
}
use jabber.Jid.{JidParts, parsed, jid_parse}
use jabber.World.{RosterItem, Roster, Session, World, Env, pure, gets, load, when}
use jabber.World.Keeps.{Ends}
use jabber.World.Steps.{Runs-bind, Runs-load, Ends-bind, Ends-weaken}
use jabber.Output.{bare_jid_of, session_find_by_jid}
use jabber.Subscription.{set_subscription, clear_ask}
use jabber.Roster.{roster_find_item, find_in}
use jabber.Roster.Items.{lookup_item, lookup-find_in-none, map_some}
use jabber.Roster.AsMap.{find_in-some}
use jabber.Disk.{roster_load_from_path, roster_load_for_user, roster_save_for_user}
use jabber.Teardown.{jid_buffers, ensure_roster}
use jabber.Presence.Subscribing.{
  edit_if_found, is_some_index, edit_online, revoke_online, revoke_on_disk, revoke_target, revoke,
  presence_handle_unsubscribe, presence_handle_unsubscribed,
}
use jabber.Presence.Full.{ensured}
use mathlib.Core.Path.{subst₂}
use jabber.Presence.States.{no_to, no_from, loses_to, loses_from, no_to-loses, no_from-loses}
use jabber.Presence.Entry.{lookup-edit_if_found, found-lookup}
use jabber.Presence.Frame.{Files, stored, Edited, refl-Edited, set_roster-Edited}
use jabber.Presence.Pushed.{roster_save_for_user-Edited, save_and_push-Edited}
use jabber.Presence.LookUp.{Edited-SameJids, session_find_by_jid-Finds}
use jabber.Presence.Rosters.{contact_jid, contact_roster}

-- What is the case only if the entry is there.
abbrev pub if_entry : Option RosterItem → Files → Files → Files
if_entry none there gone = gone
if_entry (some i) there gone = there

-- A change of an entry that keeps its JID.
abbrev Renames : (RosterItem → RosterItem) → Type 0
Renames f = (x : RosterItem) → (f x).jid ≡ x.jid

edit_if_found-none :
    (r : Roster) (bare : Text) (f : RosterItem → RosterItem)
    → find_in r.items bare ≡ none
    → edit_if_found r bare f ≡ r
unfolding edit_if_found roster_find_item
edit_if_found-none r bare f e = rw (e, edit_if_found) refl

module _ (e : Env) (p : ℕ) (s : Session) (w : World) (parts : JidParts)
    (f g : RosterItem → RosterItem) where
  abbrev contact : Text
  contact = contact_jid parts

  abbrev own : Text
  own = bare_jid_of s

  abbrev roster_in : Files → Roster
  roster_in fs = contact_roster e parts fs

  -- Each of the two rosters is changed at the one entry, if it has it, and then saved; nothing else
  -- changed but what the session is sent.
  pub record Revoked (v : World) : Type 0 where
    pub mine : Roster
    pub theirs : Roster
    pub after_mine : Files
    pub edited :
        Edited p s w mine
          (if_entry
            (lookup_item (roster_in after_mine).items own)
            (stored e parts.local theirs after_mine)
            after_mine)
          v
    pub saved :
        after_mine
        ≡ if_entry (lookup_item s.roster.items contact) (stored e s.jid_local mine w.files) w.files
    pub my_entries :
        (k : Text)
        → lookup_item mine.items k ≡ (
            if str_eq contact k
            then map_some f (lookup_item s.roster.items contact)
            else lookup_item s.roster.items k)
    pub their_entries :
        (k : Text)
        → lookup_item theirs.items k ≡ (
            if str_eq own k
            then map_some g (lookup_item (roster_in after_mine).items own)
            else lookup_item (roster_in after_mine).items k)

  abbrev mine_now : Roster
  mine_now = edit_if_found s.roster contact f

  abbrev files_now : Files
  files_now =
      if_entry (lookup_item s.roster.items contact) (stored e s.jid_local mine_now w.files) w.files

  abbrev theirs_now : Roster
  theirs_now = edit_if_found (roster_in files_now) own g

  abbrev files_then : Files
  files_then =
      if_entry (lookup_item (roster_in files_now).items own)
        (stored e parts.local theirs_now files_now) files_now

  Edited-Revoked :
      (v : World) → Renames f → Renames g → Edited p s w mine_now files_then v → Revoked v
  Edited-Revoked v keeps_f keeps_g h = record {
    mine = mine_now;
    theirs = theirs_now;
    after_mine = files_now;
    edited = h;
    saved = refl;
    my_entries = λ k. lookup-edit_if_found s.roster contact f k keeps_f;
    their_entries = λ k. lookup-edit_if_found (roster_in files_now) own g k keeps_g;
  }

  revoke_on_disk-Edited :
      (v : World)
      → Edited p s w mine_now files_now v
      → Ends (Edited p s w mine_now files_then) (revoke_on_disk e parts.local own g v)
  unfolding revoke_on_disk roster_load_for_user roster_load_from_path gets pure when is_some_index
      roster_find_item
  revoke_on_disk-Edited v h =
      rw
        (Runs-bind (roster_load_for_user e parts.local) _ v v (roster_in files_now)
          (ap (λ fs. some (roster_in fs, v)) h.files))
        (elim (Option-cases (find_in (roster_in files_now).items own)) [
          | inl none' ↦ rw (none', lookup-find_in-none (roster_in files_now).items own none') h
          | inr (i, found) ↦
              let (x, there) = find_in-some (roster_in files_now).items own i found in
              rw (found, there)
                (Ends-bind _ _ (roster_save_for_user e parts.local theirs_now) _ v
                  (roster_save_for_user-Edited p s w mine_now files_now e parts.local theirs_now v
                    h)
                  (λ b u k. k))
        ])

  edit_online-Edited :
      w.heap p ≡ some s → Ends (Edited p s w mine_now w.files) (edit_online e p contact f w)
  unfolding edit_online
  edit_online-Edited live =
      rw (Runs-bind (load p) _ w w s (Runs-load p s w live))
        (set_roster-Edited p s w s.roster mine_now w.files w (refl-Edited p s w live))

  revoke_online-Edited :
      w.heap p ≡ some s
      → Renames f
      → Ends (Edited p s w mine_now files_now) (revoke_online e p contact f w)
  unfolding revoke_online when pure is_some_index roster_find_item
  revoke_online-Edited live keeps =
      rw (Runs-bind (load p) _ w w s (Runs-load p s w live))
        (elim (Option-cases (find_in s.roster.items contact)) [
          | inl none' ↦
              rw
                (
                  none',
                  lookup-find_in-none s.roster.items contact none',
                  edit_if_found-none s.roster contact f none',
                )
                (refl-Edited p s w live)
          | inr (i, found) ↦
              let (x, there) = find_in-some s.roster.items contact i found in
              let entry = lookup-edit_if_found s.roster contact f contact keeps in
              rw (found, there)
                (Ends-bind _ _ (edit_online e p contact f) _ w (edit_online-Edited live) (λ a v k.
                  save_and_push-Edited e p s w mine_now w.files contact (f x) v
                    (found-lookup mine_now contact (f x) (rw (str_eq_refl contact, there) at entry))
                    k))
        ])

  pub revoke-Revoked :
      (to type : Text)
      → w.heap p ≡ some s
      → s.roster.loaded ≡ true
      → jid_parse to 256 256 256 ≡ parsed parts
      → session_find_by_jid contact w ≡ some (none, w)
      → Renames f
      → Renames g
      → Ends Revoked (revoke e p to type f g w)
  unfolding revoke revoke_target jid_buffers pure
  revoke-Revoked to type live loaded parse absent keeps_f keeps_g = rw parse (
      rw
        (
          Runs-bind (jid_buffers (parsed parts)) _ w w parts refl,
          Runs-bind (load p) _ w w s (Runs-load p s w live),
          Runs-bind (ensure_roster e p) _ w w tt (ensured e p s w live loaded),
        )
        (Ends-bind _ Revoked (revoke_online e p contact f) _ w (revoke_online-Edited live keeps_f)
          (λ a v h.
            rw
              (Runs-bind (session_find_by_jid contact) _ v v none (
                session_find_by_jid-Finds contact w v
                  (Edited-SameJids p s w mine_now files_now v live h) none absent))
              (Ends-weaken _ Revoked (revoke_on_disk e parts.local own g v)
                (revoke_on_disk-Edited v h) (λ u k. Edited-Revoked u keeps_f keeps_g k)))))

-- Where the session's roster is loaded, the contact's JID parses and no session has it, the
-- handlers of unsubscribe and unsubscribed end. Where the session's roster has the contact's
-- entry, that loses "to" and its pending request, or "from" for unsubscribed, and the roster is
-- saved if the system lets it be; where the contact's roster, as the files have it then, has the
-- session's entry, that entry loses the other direction, "to" with its pending request, and this
-- roster is saved. A roster without the entry is not saved, and nothing else changed in the
-- rosters, the table, the other sessions and the files.
pub withdrawals-Revoked :
    (e : Env) (p : ℕ) (s : Session) (w : World) (parts : JidParts) (to : Text)
    → w.heap p ≡ some s
    → s.roster.loaded ≡ true
    → jid_parse to 256 256 256 ≡ parsed parts
    → session_find_by_jid (contact_jid parts) w ≡ some (none, w)
    → Ends (Revoked e p s w parts loses_to loses_from) (presence_handle_unsubscribe e p to w)
      × Ends (Revoked e p s w parts loses_from loses_to) (presence_handle_unsubscribed e p to w)
unfolding presence_handle_unsubscribe presence_handle_unsubscribed set_subscription clear_ask
withdrawals-Revoked e p s w parts to live loaded parse absent = (
  subst₂ (λ f g. Ends (Revoked e p s w parts f g) (presence_handle_unsubscribe e p to w))
      no_to-loses no_from-loses
      (revoke-Revoked e p s w parts no_to no_from to (codes "unsubscribe") live loaded parse absent
        (λ x. refl) (λ x. refl)),
  subst₂ (λ f g. Ends (Revoked e p s w parts f g) (presence_handle_unsubscribed e p to w))
      no_from-loses no_to-loses
      (revoke-Revoked e p s w parts no_from no_to to (codes "unsubscribed") live loaded parse absent
        (λ x. refl) (λ x. refl)),
)
