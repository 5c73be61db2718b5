-- ===== src/Presence/LookUp.antt =====
-- A look-up by JID, c/src/session.c, finds after a roster was saved and pushed whom it found before.
use jabber.Base.{
  ℕ, zero, suc, ◌+◌, ◌-◌, ◌≡◌, refl, ap, sym, ◌∙◌, Option, none, some, Text, if◌then◌else◌, arith,
  Bool-cases, Option-cases, inl, inr, ◌==◌,
}
use jabber.World.{Roster, Session, World, M, ◌>>=◌, pure, gets, load}
use jabber.World.Steps.{Runs-bind, Runs-load, load-stuck}
use jabber.Presence.Frame.{Files, Edited}
use jabber.Output.{bare_jid_of, jid_matches, try_slot, find_from, session_find_by_jid}

-- The sessions of one state are those of another, under the same JIDs.
pub record SameJids (w v : World) : Type 0 where
  pub live :
      (q : ℕ) (u : Session)
      → w.heap q ≡ some u
      → (t : Session) × (v.heap q ≡ some t)
        × ((bare : Text) → jid_matches bare t ≡ jid_matches bare u)
  pub sessions : v.sessions ≡ w.sessions
  pub nfds : v.nfds ≡ w.nfds

module _ (bare : Text) (w v : World) (h : SameJids w v) (r : Option ℕ) where
  abbrev Finds : World → M (Option ℕ) → Type 0
  Finds u m = m u ≡ some (r, u)

  slot-Finds :
      (o : Option ℕ) (rest : M (Option ℕ))
      → (Finds w rest → Finds v rest)
      → Finds w (try_slot bare o rest)
      → Finds v (try_slot bare o rest)
  unfolding try_slot pure
  slot-Finds none rest k m = k m
  slot-Finds (some q) rest k m =
      let go : Session → M (Option ℕ) = λ s. if jid_matches bare s then pure (some q) else rest in
      elim (Option-cases (w.heap q)) [
        | inl gone ↦
            let stuck : Path (Option (Option ℕ × World)) none (some (r, w)) =
              sym (load-stuck q go w gone) ∙ m in
            absurd (ground arith)
        | inr (u, there) ↦
            let (t, still, same) = h.live q u there in
            let was : go u w ≡ some (r, w) =
              sym (Runs-bind (load q) go w w u (Runs-load q u w there)) ∙ m in
            Runs-bind (load q) go v v t (Runs-load q t v still)
            ∙ (elim (Bool-cases (jid_matches bare u)) [
              | inl hit ↦
                  let same_answer : some q ≡ r = ground arith in
                  rw (same bare, hit) (ap (λ o. some (o, v)) same_answer)
              | inr miss ↦ rw (same bare, miss) (k (rw miss at was))
            ])
      ]

  find_from-Finds : (n i : ℕ) → Finds w (find_from bare n i) → Finds v (find_from bare n i)
  unfolding find_from gets pure ◌>>=◌
  find_from-Finds zero i m = let is_none : none ≡ r = ground arith in ap (λ o. some (o, v)) is_none
  find_from-Finds (suc n) i m =
      ap (λ f. try_slot bare (f i) (find_from bare n (i + 1)) v) h.sessions
      ∙ slot-Finds (w.sessions i) (find_from bare n (i + 1)) (find_from-Finds n (i + 1)) m

  -- The answer in the one is the answer in the other.
  pub session_find_by_jid-Finds :
      session_find_by_jid bare w ≡ some (r, w) → session_find_by_jid bare v ≡ some (r, v)
  unfolding session_find_by_jid gets ◌>>=◌
  session_find_by_jid-Finds m =
      ap (λ n. find_from bare (n - 1) 1 v) h.nfds ∙ find_from-Finds (w.nfds - 1) 1 m

pub Edited-SameJids :
    (p : ℕ) (s : Session) (w : World) (r : Roster) (fs : Files) (v : World)
    → w.heap p ≡ some s
    → Edited p s w r fs v
    → SameJids w v
unfolding jid_matches bare_jid_of
Edited-SameJids p s w r fs v at h = record {
  live = λ q u there. elim (Bool-cases (q == p)) [
    | inl same ↦
        let e : q ≡ p = ground arith in
        let is : u ≡ s = ground (arith, e, at, there) in
        (h.now, ap v.heap e ∙ h.at, λ bare. rw (is, h.same_local, h.same_domain) refl)
    | inr other ↦ (u, h.others q (ground arith) ∙ there, λ bare. refl)
  ];
  sessions = h.sessions;
  nfds = h.nfds;
}
