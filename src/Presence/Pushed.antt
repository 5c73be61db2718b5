-- ===== src/Presence/Pushed.antt =====
-- Saving a roster and pushing one of its items, c/src/presence.c: what it changes.
use jabber.Base.{
  ℕ, suc, ◌≡◌, refl, Bool, true, Option, none, some, List, [], ◌∷◌, Text, codes, ltb, Bool-cases,
  inl, inr,
}
use jabber.Xml.{Node}
use jabber.World.{
  RosterItem, Roster, Session, World, Env, M, ◌>>=◌, pure, load, change, when, next_call,
  update_text,
}
use jabber.World.Keeps.{Ends}
use jabber.World.Steps.{put, Runs-bind, Runs-load, Runs-Ends, Ends-bind}
use jabber.Output.{
  set_pollout, append_out, session_write, stanza_serialize, stanza_send, max_clients,
}
use jabber.Output.Stream.{session_write-some}
use jabber.Roster.{roster_find_item}
use jabber.Disk.{user_path, roster_save_to_path, roster_save_for_user, roster_save}
use jabber.Stream.{generate_id}
use jabber.RosterIq.{found_item, push_stanza, roster_push, roster_push_at}
use jabber.Presence.Subscribing.{save_and_push}
use jabber.Presence.Frame.{Files, stored, Edited, again-Edited, put-Edited}

module _ (p : ℕ) (s : Session) (w : World) where
  module _ (r : Roster) (fs : Files) where
    pollout-Edited :
        (i : ℕ) (b : Bool) (v : World) → Edited p s w r fs v → Edited p s w r fs (set_pollout i b v)
    unfolding set_pollout
    pollout-Edited i b v h = elim (Bool-cases (ltb i max_clients)) [
      | inl x ↦ rw x (again-Edited p s w r fs fs v _ h refl refl refl h.files)
      | inr x ↦ rw x h
    ]

    session_write-Edited :
        (bytes : List ℕ) (v : World)
        → Edited p s w r fs v
        → Ends (Edited p s w r fs) (session_write p bytes v)
    unfolding session_write when pure append_out
    session_write-Edited [] v h = h
    session_write-Edited (b ∷ bytes) v h =
        let t : Session = append_out (b ∷ bytes) h.now in
        Runs-Ends (Edited p s w r fs) (session_write p (b ∷ bytes)) v tt
          (set_pollout h.now.poll_index true (put p t v))
          (session_write-some p h.now b bytes v h.at)
          (pollout-Edited h.now.poll_index true (put p t v)
            (put-Edited p s w r r fs t v h refl refl h.roster))

    generate_id-Edited :
        (e : Env) (v : World) → Edited p s w r fs v → Ends (Edited p s w r fs) (generate_id e 8 v)
    unfolding generate_id next_call pure ◌>>=◌
    generate_id-Edited e v h =
        again-Edited p s w r fs fs v (record v { calls = suc v.calls }) h refl refl refl h.files

    dumped-Edited :
        (o : Option Text) (v : World)
        → Edited p s w r fs v
        → Ends (Edited p s w r fs) (
            (elim o as (λ x. M (Unit {0})) [ none ↦ pure tt | some bytes ↦ session_write p bytes ])
              v)
    unfolding pure
    dumped-Edited none v h = h
    dumped-Edited (some bytes) v h = session_write-Edited bytes v h

    pub stanza_send-Edited :
        (e : Env) (n : Node) (v : World)
        → Edited p s w r fs v
        → Ends (Edited p s w r fs) (stanza_send e p n v)
    unfolding stanza_send stanza_serialize
    stanza_send-Edited e n v h = dumped-Edited (e.xml.dump n) v h

    roster_push-Edited :
        (e : Env) (i : RosterItem) (v : World)
        → Edited p s w r fs v
        → Ends (Edited p s w r fs) (roster_push e p i v)
    unfolding roster_push
    roster_push-Edited e i v h =
        Ends-bind (Edited p s w r fs) (Edited p s w r fs) (generate_id e 8) _ v
          (generate_id-Edited e v h)
          (λ id u k.
            rw
              (Runs-bind (load p) (λ t. stanza_send e p (push_stanza e t id i)) u u k.now
                (Runs-load p k.now u k.at))
              (stanza_send-Edited e (push_stanza e k.now id i) u k))

    pub roster_push_at-Edited :
        (e : Env) (bare : Text) (i : RosterItem) (v : World)
        → found_item r (roster_find_item r bare) ≡ some i
        → Edited p s w r fs v
        → Ends (Edited p s w r fs) (roster_push_at e p (roster_find_item r bare) v)
    unfolding roster_push_at
    roster_push_at-Edited e bare i v found h =
        rw (Runs-bind (load p) _ v v h.now (Runs-load p h.now v h.at), h.roster, found)
          (roster_push-Edited e i v h)

    -- A roster, this one or another, is saved for a user.
    pub roster_save_for_user-Edited :
        (e : Env) (user : Text) (other : Roster) (v : World)
        → Edited p s w r fs v
        → Ends (Edited p s w r (stored e user other fs)) (roster_save_for_user e user other v)
    unfolding roster_save_for_user roster_save_to_path stored change pure update_text ◌>>=◌
    roster_save_for_user-Edited e user other v h =
        elim (Bool-cases (e.writable (user_path e 1280 user (codes "roster.xml")))) [
          | inl ok ↦ rw ok (again-Edited p s w r fs _ v _ h refl refl refl (rw h.files refl))
          | inr no' ↦ rw no' h
        ]

    pub roster_save-Edited :
        (e : Env) (v : World)
        → Edited p s w r fs v
        → Ends (Edited p s w r (stored e s.jid_local r fs)) (roster_save e p v)
    unfolding roster_save
    roster_save-Edited e v h =
        rw (Runs-bind (load p) _ v v h.now (Runs-load p h.now v h.at), h.roster, h.same_local)
          (roster_save_for_user-Edited e s.jid_local r v h)

-- The roster is in the file of the session's user, if that can be written, and nothing else changed.
pub save_and_push-Edited :
    (e : Env) (p : ℕ) (s : Session) (w : World) (r : Roster) (fs : Files) (bare : Text)
    (i : RosterItem) (v : World)
    → found_item r (roster_find_item r bare) ≡ some i
    → Edited p s w r fs v
    → Ends (Edited p s w r (stored e s.jid_local r fs)) (save_and_push e p bare v)
unfolding save_and_push
save_and_push-Edited e p s w r fs bare i v found h =
    let saved : Files = stored e s.jid_local r fs in
    Ends-bind (Edited p s w r saved) (Edited p s w r saved) (roster_save e p) _ v
      (roster_save-Edited p s w r fs e v h)
      (λ b u k.
        rw
          (
            Runs-bind (load p) (λ t. roster_push_at e p (roster_find_item t.roster bare)) u u k.now
                (Runs-load p k.now u k.at),
            k.roster,
          )
          (roster_push_at-Edited p s w r saved e bare i u found k))
