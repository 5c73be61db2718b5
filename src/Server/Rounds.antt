-- ===== src/Server/Rounds.antt =====
-- The rounds of the event loop, c/src/server.c: they end by themselves, and keep the sessions in the
-- table alive.
use jabber.Base.{
  ℕ, zero, suc, refl, subst, ◌+◌, ◌-◌, ◌≤◌, ◌≡◌, inl, inr, Bool, true, false, Option, none, some,
  leb, ◌==◌, if◌then◌else◌, arith, Option-cases, Bool-cases,
}
use jabber.World.{World, Env, M, ◌>>=◌, pure, gets, change, update}
use jabber.World.Keeps.{Keeps, Post, Keeps-pure, Keeps-when, Keeps-bind, Keeps-gets, Keeps-if}
use jabber.World.Steps.{Runs-bind, bind-none, Yields}
use jabber.Output.{max_clients}
use jabber.Server.{
  new_session, add_client, close_fd, server_accept, client_events, process_clients, server_round,
}
use jabber.Server.Table.{IsTable}
use jabber.Server.Alive.{Running, Alive, Running-IsStable}
use jabber.Server.Removal.{accept-IsTable}
use jabber.Server.Loop.{process_clients-Keeps}
use jabber.Server.Progress.{login-Running, Advances, client_events-Advances}
use jabber.Stable.{IsAlive}

module _ (e : Env) (m n : ℕ) where
  -- Both numbers of rounds do the same from slot `i` on, where `n` reaches the end of the table.
  abbrev Agree : Type 0
  Agree =
      (i limit : ℕ) (w : World)
      → 1 ≤ i
      → Running limit w
      → limit ≤ i + n
      → process_clients e m i w ≡ process_clients e n i w

  next_round :
      (i limit : ℕ)
      → Agree
      → 1 ≤ i
      → limit ≤ i + suc n
      → (again : Bool) (w : World) → Advances limit i again w
      → process_clients e m (if again then i else i + 1) w
        ≡ process_clients e n (if again then i else i + 1) w
  next_round i limit ih one h false w k = ih (i + 1) limit w (omega arith) k.0 (omega arith)
  next_round i limit ih one h true w k = elim (k.1 refl) [
    | inl fewer ↦
        ih i (limit - 1) w one (record { table = k.0.table; alive = k.0.alive; few = fewer })
          (omega arith)
    | inr behind ↦
        ih i i w one (record { table = k.0.table; alive = k.0.alive; few = behind }) (omega arith)
  ]

  rounds_after :
      (i limit : ℕ)
      → Agree
      → 1 ≤ i
      → limit ≤ i + suc n
      → (r : M Bool) (w : World) → Yields (Advances limit i) (r w)
      → (r >>= λ again. process_clients e m (if again then i else i + 1)) w
        ≡ (r >>= λ again. process_clients e n (if again then i else i + 1)) w
  rounds_after i limit ih one h r w k =
      let f : Bool → M (Unit {0}) = λ again. process_clients e m (if again then i else i + 1) in
      let g : Bool → M (Unit {0}) = λ again. process_clients e n (if again then i else i + 1) in
      elim (Option-cases (r w)) [
        | inl x ↦ rw (bind-none r f w x, bind-none r g w x) refl
        | inr ((again, v), x) ↦
            rw (Runs-bind r f w v again x, Runs-bind r g w v again x)
              (next_round i limit ih one h again v (rw x at k))
      ]

enough : (e : Env) (m n : ℕ) → n ≤ m → Agree e m n
unfolding process_clients gets ◌>>=◌ pure
enough e zero zero le i limit w one t h = refl
enough e (suc m) zero le i limit w one t h =
    let behind : leb w.nfds i ≡ true = ground (arith, t.few) in rw behind refl
enough e zero (suc n) le i limit w one t h = absurd (omega arith)
enough e (suc m) (suc n) le i limit w one t h = elim (Bool-cases (leb w.nfds i)) [
  | inl behind ↦ rw behind refl
  | inr inside ↦ rw inside (
      rounds_after e m n i limit (enough e m n (omega arith)) one h
        (client_events e i (w.sessions i)) w
        (client_events-Advances e limit i one (w.sessions i) w t))
]

-- The loop over the clients ends within as many rounds as the table has slots in use: with any
-- greater number it does the same. The table is well formed and its sessions are alive.
pub process_clients-enough :
    (e : Env) (w : World) (rounds : ℕ)
    → Running w.nfds w
    → w.nfds ≤ rounds
    → process_clients e rounds 1 w ≡ process_clients e w.nfds 1 w
process_clients-enough e w rounds t h =
    enough e rounds w.nfds h 1 w.nfds w (omega arith) t (omega arith)

accepted-Alive : (fd : ℕ) (w : World) → Alive w → Alive (add_client fd w)
unfolding add_client new_session update
accepted-Alive fd w t q s at spared = elim (Bool-cases (w.next_address == q)) [
  | inl e ↦
      let new : new_session fd w.nfds ≡ s = ground arith in subst (λ x. IsAlive x.state) new tt
  | inr e ↦ t q s (ground arith) spared
]

accept-Alive : (o : Option ℕ) → Keeps Alive (server_accept o)
unfolding server_accept close_fd change
accept-Alive none = Keeps-pure tt
accept-Alive (some fd) =
    Keeps-bind _ _ (Keeps-gets _)
      (λ n. Keeps-if (leb max_clients n) _ _ (same_heap (close_fd fd) (λ w. refl)) added)
  where
    same_heap : (g : World → World) → ((w : World) → (g w).heap ≡ w.heap) → Keeps Alive (change g)
    same_heap g h = record { at = λ w t q s at alive. t q s (rw (h w) at at) alive }

    added : Keeps Alive (change (add_client fd))
    added = record { at = λ w t. accepted-Alive fd w t }

-- A round of the event loop that runs without undefined behaviour keeps the table of sessions,
-- whatever connections, bytes and errors arrive: the slots below the count, which is at most 16, are
-- the sessions that there are, each under the index that it keeps, the other slots are free, and no
-- session in the table is disconnected.
pub server_round-Running :
    (e : Env) (listener : Bool) (accepted : Option ℕ) (w : World)
    → Running max_clients w
    → Post (Running max_clients) (server_round e listener accepted w)
unfolding server_round
server_round-Running e listener accepted w t = Keeps-Running.at w t
  where
    within :
        (r : Option (Unit {0} × World))
        → Post IsTable r
        → Post Alive r
        → Post (Running max_clients) r
    within none x y = tt
    within (some (u, v)) x y = record { table = x; alive = y; few = x.bounded }

    accept-few : (o : Option ℕ) → Keeps (Running max_clients) (server_accept o)
    accept-few o = record {
      at = λ v k.
          within (server_accept o v) ((accept-IsTable o).at v k.table)
            ((accept-Alive o).at v k.alive);
    }

    Keeps-Running : Keeps (Running max_clients) (server_round e listener accepted)
    Keeps-Running = Keeps-bind _ _ (Keeps-when listener _ (accept-few accepted)) (λ _.
        Keeps-bind _ _ (Keeps-gets _) (λ n.
          process_clients-Keeps (Running max_clients) (Running-IsStable max_clients) e
            (login-Running e max_clients) n 1))
