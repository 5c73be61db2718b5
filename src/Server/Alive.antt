-- ===== src/Server/Alive.antt =====
-- No session in the table is disconnected, and the table does not grow while events are handled:
-- what the loop over the clients in c/src/server.c rests on.
use jabber.Base.{
  ℕ, refl, ◌-◌, ◌≤◌, ◌≡◌, Option, none, some, ◌==◌, arith, subst, Option-cases, Bool-cases, inl,
  inr,
}
use jabber.World.{Session, World, ◌>>◌, load, modify, change, next_call, update}
use jabber.World.Keeps.{Keeps, Post, Keeps-pure, Keeps-when, Keeps-bind, Keeps-gets, Keeps-load}
use jabber.World.Steps.{
  Runs-bind, Runs-load, load-stuck, Yields, Yields-bind, Post-Yields, Yields-Post,
}
use jabber.Teardown.{
  set_index, move_slot, clear_slot, compact, server_remove_session, free_session, session_destroy,
}
use jabber.Server.Table.{IsTable, modify-IsTable}
use jabber.Server.Removal.{IsTable-IsStable, removal-nfds}
use jabber.Stable.{IsStable, IsAlive, end_session}

-- All sessions but those of the addresses `Dying` are alive.
abbrev pub AliveBut : (ℕ → Type 0) → World → Type 0
AliveBut Dying w = (q : ℕ) (s : Session) → w.heap q ≡ some s → (Dying q → ⊥) → IsAlive s.state

module _ (Dying : ℕ → Type 0) where
  pub modify-AliveBut :
      (p : ℕ) (f : Session → Session)
      → ((Dying p → ⊥) → (s : Session) → IsAlive s.state → IsAlive (f s).state)
      → Keeps (AliveBut Dying) (modify p f)
  unfolding modify update
  modify-AliveBut p f h = record {
    at = λ w t. elim (Option-cases (w.heap p)) [
      | inl e ↦ rw (e, modify) tt
      | inr (s, e) ↦
          rw (e, modify)
            (λ q u at alive. elim (Bool-cases (p == q)) [
              | inl same ↦
                  let there : p ≡ q = ground arith in
                  let now : f s ≡ u = ground arith in
                  let spared : Dying p → ⊥ = λ d. alive (subst Dying there d) in
                  subst (λ x. IsAlive x.state) now (h spared s (t p s e spared))
              | inr other ↦ t q u (ground arith) alive
            ])
    ];
  }

  io-AliveBut :
      (g : World → World) → ((w : World) → (g w).heap ≡ w.heap) → Keeps (AliveBut Dying) (change g)
  unfolding change
  io-AliveBut g h = record { at = λ w t q s at alive. t q s (rw (h w) at at) alive }

  set_index-AliveBut : (o : Option ℕ) (i : ℕ) → Keeps (AliveBut Dying) (set_index o i)
  unfolding set_index
  set_index-AliveBut none i = Keeps-pure tt
  set_index-AliveBut (some q) i = modify-AliveBut q _ (λ d s a. a)

  compact-AliveBut : (last idx : ℕ) → Keeps (AliveBut Dying) (compact last idx)
  unfolding compact move_slot
  compact-AliveBut last idx =
      Keeps-bind _ _ (io-AliveBut (move_slot last idx) (λ w. refl))
        (λ _. Keeps-bind _ _ (Keeps-gets _) (λ moved. set_index-AliveBut moved idx))

  remove-AliveBut : (p : ℕ) → Keeps (AliveBut Dying) (server_remove_session p)
  unfolding server_remove_session clear_slot
  remove-AliveBut p = Keeps-bind _ _ (Keeps-load p) (λ s. Keeps-bind _ _ (Keeps-gets _) (λ n.
      Keeps-when _ _ (
        Keeps-bind _ _ (Keeps-when _ _ (compact-AliveBut (n - 1) s.poll_index))
          (λ _. io-AliveBut (clear_slot (n - 1)) (λ w. refl)))))

abbrev pub Alive : World → Type 0
Alive w = AliveBut (λ q. ⊥) w

-- A session that is freed need not be alive.
destroy-Alive : (p : ℕ) (w : World) → AliveBut (λ q. q ≡ p) w → Post Alive (session_destroy p w)
unfolding session_destroy change free_session update
destroy-Alive p w t = elim (Option-cases (w.heap p)) [
  | inl e ↦ rw (load-stuck p (λ s. change (free_session p s)) w e) tt
  | inr (s, e) ↦
      rw (Runs-bind (load p) _ w w s (Runs-load p s w e))
        (λ q u at alive. t q u (ground arith) (λ same. ground arith))
]

end-Alive : (p : ℕ) → Keeps Alive (end_session p)
end-Alive p = record {
  at = λ w t. Yields-Post Alive (end_session p w) (
      Yields-bind (λ a. AliveBut (λ q. q ≡ p)) (λ a. Alive) _ _ w
        (Post-Yields (AliveBut (λ q. q ≡ p)) _ (
          (modify-AliveBut (λ q. q ≡ p) p _ (λ spared s a. absurd (spared refl))).at w
            (λ q s at spared. t q s at (λ d. d))))
        (λ a v h.
          Yields-bind (λ b. AliveBut (λ q. q ≡ p)) (λ b. Alive) (server_remove_session p) _ v
            (Post-Yields (AliveBut (λ q. q ≡ p)) _ ((remove-AliveBut (λ q. q ≡ p) p).at v h))
            (λ b u k. Post-Yields Alive _ (destroy-Alive p u k))));
}

call-Alive : Keeps Alive next_call
unfolding next_call
call-Alive = record { at = λ w t. t }

Alive-IsStable : IsStable Alive
Alive-IsStable = record {
  keeps_modify = λ p f h. modify-AliveBut (λ q. ⊥) p f (λ d s. (h s).alive);
  keeps_io = λ g h. io-AliveBut (λ q. ⊥) g (λ w. (h w).heap);
  keeps_call = call-Alive;
  keeps_end = end-Alive;
}

-- The table is well formed, its sessions are alive, and it has at most `n` slots in use.
pub record Running (n : ℕ) (w : World) : Type 0 where
  pub table : IsTable w
  pub alive : Alive w
  pub few : w.nfds ≤ n

pub Post-Running :
    {A : Type 0} (n : ℕ) (r : Option (A × World))
    → Post IsTable r
    → Post Alive r
    → Post (λ v. v.nfds ≤ n) r
    → Post (Running n) r
Post-Running n none t a f = tt
Post-Running n (some (x, w)) t a f = record { table = t; alive = a; few = f }

pub modify-few :
    (n p : ℕ) (f : Session → Session) (w : World)
    → w.nfds ≤ n
    → Post (λ v. v.nfds ≤ n) (modify p f w)
unfolding modify
modify-few n p f w h = elim (Option-cases (w.heap p)) [
  | inl e ↦ rw (e, modify) tt
  | inr (s, e) ↦ rw (e, modify) h
]

-- The end of a session frees a slot.
pub end-fewer :
    (n p : ℕ) (w : World) → IsTable w → w.nfds ≤ n → Post (λ v. v.nfds ≤ n - 1) (end_session p w)
end-fewer n p w t h =
    Yields-Post (λ v. v.nfds ≤ n - 1) (end_session p w)
      (Yields-bind (λ a v. IsTable v × (v.nfds ≤ n)) (λ a v. v.nfds ≤ n - 1) _ _ w
        (modified (modify p _ w) ((modify-IsTable p _ (λ s. refl)).at w t) (modify-few n p _ w h))
        (λ a v k.
          fewer v ((server_remove_session p >> session_destroy p) v) k (removal-nfds v p k.0)))
  where
    modified :
        (r : Option (Unit {0} × World))
        → Post IsTable r
        → Post (λ v. v.nfds ≤ n) r
        → Yields (λ a v. IsTable v × (v.nfds ≤ n)) r
    modified none a b = tt
    modified (some (x, v)) a b = (a, b)

    fewer :
        (v : World) (r : Option (Unit {0} × World))
        → IsTable v × (v.nfds ≤ n)
        → Post (λ u. u.nfds ≡ v.nfds - 1) r
        → Yields (λ a u. u.nfds ≤ n - 1) r
    fewer v none k e = tt
    fewer v (some (x, u)) k e = omega arith

Post-weaken :
    {A : Type 0} (P Q : World → Type 0) (r : Option (A × World))
    → Post P r
    → ((w : World) → P w → Q w)
    → Post Q r
Post-weaken P Q none h k = tt
Post-weaken P Q (some (a, w)) h k = k w h

pub Running-IsStable : (n : ℕ) → IsStable (Running n)
unfolding next_call change
Running-IsStable n = record {
  keeps_modify = λ p f h. record {
    at = λ w t.
        Post-Running n (modify p f w) ((IsTable-IsStable.keeps_modify p f h).at w t.table)
          ((Alive-IsStable.keeps_modify p f h).at w t.alive) (modify-few n p f w t.few);
  };
  keeps_io = λ g h. record {
    at = λ w t. record {
      table = (IsTable-IsStable.keeps_io g h).at w t.table;
      alive = (Alive-IsStable.keeps_io g h).at w t.alive;
      few = rw (h w).nfds t.few;
    };
  };
  keeps_call = record { at = λ w t. record { table = t.table; alive = t.alive; few = t.few } };
  keeps_end = λ p. record {
    at = λ w t.
        Post-Running n (end_session p w) ((IsTable-IsStable.keeps_end p).at w t.table)
          ((Alive-IsStable.keeps_end p).at w t.alive)
          (Post-weaken (λ v. v.nfds ≤ n - 1) (λ v. v.nfds ≤ n) (end_session p w)
            (end-fewer n p w t.table t.few) (λ v k. omega arith));
  };
}
