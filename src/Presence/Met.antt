-- ===== src/Presence/Met.antt =====
-- An approval for a contact whose session is there, c/src/presence.c: both rosters afterwards.
use jabber.Base.{
  ℕ, ◌≡◌, ◌≢◌, refl, sym, ◌∙◌, ap, subst, true, false, some, Text, codes, str_eq, if◌then◌else◌,
  Option-cases, Bool-cases, inl, inr,
}
use jabber.Jid.{JidParts, parsed, jid_parse}
use jabber.World.{Roster, Session, World, Env, pure, load, when}
use jabber.World.Keeps.{Ends}
use jabber.World.Steps.{Runs-bind, Runs-load, Ends-bind, Ends-weaken}
use jabber.Output.{bare_jid_of, session_find_by_jid}
use jabber.Subscription.{from_text, set_subscription, clear_ask}
use jabber.Roster.{roster_find_item, find_in}
use jabber.Roster.Items.{lookup_item, map_some}
use jabber.Roster.AsMap.{find_in-some}
use jabber.Disk.{roster_save}
use jabber.Presence.Available.{send_presence_of, presence_notice}
use jabber.Presence.Subscribing.{
  edit_if_found, is_some_index, edit_online, push_if_found, approve_online, approve_on_disk,
  approve_target, announce_approval, presence_handle_subscribed,
}
use jabber.Presence.States.{gains_from, gains_to, approved, approved-gains}
use jabber.Presence.Entry.{HasPlace, edited_or_new, lookup-edit_if_found, found-lookup}
use jabber.Presence.Frame.{Files, stored, Edited, refl-Edited, set_roster-Edited}
use jabber.Presence.Pushed.{stanza_send-Edited, roster_save-Edited, roster_push_at-Edited}
use jabber.Presence.LookUp.{Edited-SameJids, session_find_by_jid-Finds}
use jabber.Presence.Rosters.{contact_jid, mine_now, files_now, rest, own_half, my_entries_now}

-- The half of the contact, whose session at `c` is `t` in the state `w`.
module _ (e : Env) (c : ℕ) (t : Session) (w : World) (own : Text) where
  abbrev theirs_now : Roster
  theirs_now = edit_if_found t.roster own approved

  abbrev then_files : Files
  then_files = stored e t.jid_local theirs_now w.files

  abbrev Changed : Files → World → Type 0
  Changed fs = Edited c t w theirs_now fs

  push_if_found-Changed :
      (v : World) → Changed then_files v → Ends (Changed then_files) (push_if_found e c own v)
  unfolding push_if_found when pure is_some_index roster_find_item
  push_if_found-Changed v h =
      rw (Runs-bind (load c) _ v v h.now (Runs-load c h.now v h.at), h.roster)
        (elim (Option-cases (find_in theirs_now.items own)) [
          | inl none' ↦ rw none' h
          | inr (i, found) ↦
              let (x, there) = find_in-some theirs_now.items own i found in
              rw found (
                rw found at (
                  roster_push_at-Edited c t w theirs_now then_files e own x v
                    (found-lookup theirs_now own x there) h))
        ])

  approve_online-Changed : w.heap c ≡ some t → Ends (Changed then_files) (approve_online e c own w)
  unfolding approve_online edit_online
  approve_online-Changed live =
      Ends-bind (Changed w.files) (Changed then_files) (edit_online e c own approved) _ w
        (rw (Runs-bind (load c) _ w w t (Runs-load c t w live))
          (set_roster-Edited c t w t.roster theirs_now w.files w (refl-Edited c t w live)))
        (λ a v h.
          Ends-bind (Changed then_files) (Changed then_files) (roster_save e c) _ v
            (roster_save-Edited c t w theirs_now w.files e v h)
            (λ b u k. push_if_found-Changed u k))

  approve_target-Changed :
      (user : Text)
      → w.heap c ≡ some t
      → t.roster.loaded ≡ true
      → Ends (Changed then_files) (approve_target e (some c) user own w)
  unfolding approve_target
  approve_target-Changed user live loaded =
      let online : approve_target e (some c) user own w ≡ approve_online e c own w =
        Runs-bind (load c) _ w w t (Runs-load c t w live)
        ∙ ap (λ b. (if b then approve_online e c own else approve_on_disk e user own) w) loaded in
      subst (Ends (Changed then_files)) (sym online) (approve_online-Changed live)

  send_presence_of-Changed :
      (fs : Files) (s : Session) (v : World)
      → Changed fs v
      → Ends (Changed fs) (send_presence_of e c s v)
  unfolding send_presence_of when pure
  send_presence_of-Changed fs s v h = elim (Option-cases s.presence_stanza) [
    | inl none' ↦ rw (none', send_presence_of) h
    | inr (node, there) ↦ elim (Bool-cases s.available) [
      | inl yes' ↦
          rw (there, yes', send_presence_of) (stanza_send-Edited c t w theirs_now fs e node v h)
      | inr no' ↦ rw (there, no', send_presence_of) h
    ]
  ]

  announce_approval-Changed :
      (p : ℕ) (s : Session) (fs : Files) (contact : Text) (v : World)
      → p ≢ c
      → w.heap p ≡ some s
      → Changed fs v
      → Ends (Changed fs) (announce_approval e p (some c) own contact v)
  unfolding announce_approval
  announce_approval-Changed p s fs contact v ne live h =
      rw (Runs-bind (load p) _ v v s (Runs-load p s v (h.others p ne ∙ live))) (
        Ends-bind (Changed fs) (Changed fs) (send_presence_of e c s) _ v
          (send_presence_of-Changed fs s v h)
          (λ a u k.
            stanza_send-Edited c t w theirs_now fs e
              (presence_notice e (codes "subscribed") own contact) u k))

module _ (e : Env) (p c : ℕ) (s t : Session) (w : World) (parts : JidParts) where
  abbrev contact : Text
  contact = contact_jid parts

  abbrev own : Text
  own = bare_jid_of s

  -- Each of the two sessions has its roster changed at one entry, one after the other, and both
  -- rosters are saved; the rest is as before.
  pub record Met (v : World) : Type 0 where
    pub mine : Roster
    pub theirs : Roster
    pub halfway : World
    pub first : Edited p s w mine (stored e s.jid_local mine w.files) halfway
    pub second : Edited c t halfway theirs (stored e t.jid_local theirs halfway.files) v
    pub my_entries :
        (k : Text)
        → lookup_item mine.items k ≡ (
            if str_eq contact k
            then some (
                edited_or_new contact gains_from from_text false
                  (lookup_item s.roster.items contact))
            else lookup_item s.roster.items k)
    pub their_entries :
        (k : Text)
        → lookup_item theirs.items k ≡ (
            if str_eq own k
            then map_some gains_to (lookup_item t.roster.items own)
            else lookup_item t.roster.items k)

  module _ (live : w.heap p ≡ some s) (there : w.heap c ≡ some t) (two : p ≢ c)
      (place : HasPlace s.roster contact)
      (met : session_find_by_jid contact w ≡ some (some c, w)) where
    abbrev mine : Roster
    mine = mine_now e p s w parts

    abbrev theirs : Roster
    theirs = edit_if_found t.roster own approved

    abbrev saved : Files
    saved = files_now e p s w parts

    rest-Met :
        (v : World)
        → t.roster.loaded ≡ true
        → Edited p s w mine saved v
        → Ends Met (rest e p s w parts v)
    unfolding set_subscription clear_ask
    rest-Met v loaded h =
        let still : v.heap c ≡ some t = h.others c (λ same. two (sym same)) ∙ there in
        let kept : Files = stored e t.jid_local theirs v.files in
        rw
          (Runs-bind (session_find_by_jid contact) _ v v (some c) (
            session_find_by_jid-Finds contact w v (Edited-SameJids p s w mine saved v live h)
              (some c) met))
          (Ends-bind (Edited c t v theirs kept) Met (approve_target e (some c) parts.local own) _ v
            (approve_target-Changed e c t v own parts.local still loaded)
            (λ a u k.
              Ends-weaken (Edited c t v theirs kept) Met
                (announce_approval e p (some c) own contact u)
                (announce_approval-Changed e c t v own p h.now kept contact u two h.at k)
                (λ x m. record {
                  mine = mine;
                  theirs = theirs;
                  halfway = v;
                  first = h;
                  second = m;
                  my_entries = my_entries_now e p s w parts live place;
                  their_entries = λ j.
                      lookup-edit_if_found t.roster own approved j (λ y. refl)
                      ∙ ap
                          (λ f.
                            if str_eq own j
                            then map_some f (lookup_item t.roster.items own)
                            else lookup_item t.roster.items j)
                          approved-gains;
                })))

    -- Where the rosters of both sessions are loaded, that of the session has the contact or room
    -- for one more, and the contact's JID parses and is that of another session, the handling of
    -- an approval ends. In the roster of the session that approves, the contact's entry then has
    -- the state that it had with "from" added, or is a new entry with "from"; in the contact's
    -- roster the entry of the one who approves, if there is one, has "to" added and no request
    -- pending. No other entry of the two rosters changed, each is saved for its user where the
    -- system lets it be, and nothing else changed in the other sessions, the table and the files.
    pub presence_handle_subscribed-Met :
        (to : Text)
        → s.roster.loaded ≡ true
        → t.roster.loaded ≡ true
        → jid_parse to 256 256 256 ≡ parsed parts
        → Ends Met (presence_handle_subscribed e p to w)
    presence_handle_subscribed-Met to loaded_s loaded_t parse =
        own_half e p s w parts live place Met to loaded_s parse (λ v h. rest-Met v loaded_t h)
