-- ===== src/Server/Removal.antt =====
-- Ending a session and admitting a client keep the table of sessions.
use jabber.Base.{
  refl, ℕ, ◌-◌, ◌<◌, ◌≡◌, ◌≢◌, sym, inl, inr, false, Option, none, some, [], ◌∷◌, ◌++◌, leb, ◌==◌,
  arith, Option-cases, Bool-cases, ℕ_discrete,
}
use jabber.World.{
  Session, World, ◌>>=◌, ◌>>◌, pure, gets, load, modify, change, next_call, when, update,
}
use jabber.World.Keeps.{Keeps-bind, Keeps, Post}
use jabber.Output.{max_clients}
use jabber.Teardown.{
  set_index, move_slot, clear_slot, compact, server_remove_session, free_session, session_destroy,
  free_pollfd,
}
use jabber.Stable.{IsStable}
use jabber.Server.{new_session, add_client, close_fd, server_accept}
use jabber.Server.Table.{
  Occupied, IsTable, shrink-TableOf, swap-TableOf, apart, modify-IsTable, io-IsTable,
}

module _ (w : World) (p : ℕ) (s : Session) (live : w.heap p ≡ some s) (t : IsTable w) where
  -- The state after the end of the session in the last slot.
  abbrev shrunk : World
  shrunk = record w {
    heap = update w.heap p none;
    sessions = update w.sessions (w.nfds - 1) none;
    pollfds = update w.pollfds (w.nfds - 1) free_pollfd;
    nfds = w.nfds - 1;
    closed = w.closed ++ s.fd ∷ [];
  }

  removal_last :
      s.poll_index ≡ w.nfds - 1
      → (server_remove_session p >> session_destroy p) w ≡ some (tt, shrunk)
  unfolding server_remove_session session_destroy compact clear_slot free_session ◌>>=◌ load gets
      change when
  removal_last h = ground (arith, t.indexed p s live)

  module _ (q : ℕ) (u : Session) (last : w.sessions (w.nfds - 1) ≡ some q)
      (moved : w.heap q ≡ some u) (other : s.poll_index ≢ w.nfds - 1) where
    abbrev compacted : World
    compacted = record w {
      heap = update (update w.heap q (some (record u { poll_index = s.poll_index }))) p none;
      sessions = update (update w.sessions s.poll_index (some q)) (w.nfds - 1) none;
      pollfds =
          update (update w.pollfds s.poll_index (w.pollfds (w.nfds - 1))) (w.nfds - 1) free_pollfd;
      nfds = w.nfds - 1;
      closed = w.closed ++ s.fd ∷ [];
    }

    removal_swap :
        (p == q) ≡ false → (server_remove_session p >> session_destroy p) w ≡ some (tt, compacted)
    unfolding server_remove_session session_destroy compact clear_slot free_session ◌>>=◌ load gets
        change when move_slot set_index modify update
    removal_swap h = ground (arith, t.indexed p s live)

  removal_other :
      s.poll_index ≢ w.nfds - 1
      → Occupied w.heap w.sessions (w.nfds - 1)
      → Post IsTable ((server_remove_session p >> session_destroy p) w)
  removal_other other (q, u, last, moved, at) =
      rw
        (removal_swap q u last moved other
          (apart t p s live (w.nfds - 1) q u moved at (λ h. other (sym h))))
        (swap-TableOf t p s live q u last moved other)

  -- The end of a session that is in the table leaves a table.
  removal-Post : Post IsTable ((server_remove_session p >> session_destroy p) w)
  removal-Post = elim (ℕ_discrete s.poll_index (w.nfds - 1)) [
    | yes h ↦ rw (removal_last h) (shrink-TableOf t p s live h)
    | no h ↦ removal_other h (
        t.occupied (w.nfds - 1) (omega (arith, t.indexed p s live))
          (omega (arith, t.indexed p s live)))
  ]

removal_none :
    (w : World) (p : ℕ) → w.heap p ≡ none → (server_remove_session p >> session_destroy p) w ≡ none
unfolding server_remove_session ◌>>=◌ load
removal_none w p e = ground arith

-- The removal frees one slot.
pub removal-nfds :
    (w : World) (p : ℕ)
    → IsTable w
    → Post (λ v. v.nfds ≡ w.nfds - 1) ((server_remove_session p >> session_destroy p) w)
removal-nfds w p t = elim (Option-cases (w.heap p)) [
  | inl e ↦ rw (removal_none w p e) tt
  | inr (s, e) ↦ elim (ℕ_discrete s.poll_index (w.nfds - 1)) [
    | yes h ↦ rw (removal_last w p s e t h) refl
    | no h ↦
        let last : Occupied w.heap w.sessions (w.nfds - 1) =
          t.occupied (w.nfds - 1) (omega (arith, t.indexed p s e))
            (omega (arith, t.indexed p s e)) in
        let (q, u, a, moved, at) = last in
        rw
          (removal_swap w p s e t q u a moved h
            (apart t p s e (w.nfds - 1) q u moved at (λ k. h (sym k))))
          refl
  ]
]

removal_missing :
    (w : World) (p : ℕ)
    → w.heap p ≡ none
    → Post IsTable ((server_remove_session p >> session_destroy p) w)
unfolding server_remove_session ◌>>=◌ load
removal_missing w p e = ground arith

removal-IsTable : (p : ℕ) → Keeps IsTable (server_remove_session p >> session_destroy p)
removal-IsTable p = record {
  at = λ w t. elim (Option-cases (w.heap p)) [
    | inl e ↦ removal_missing w p e
    | inr (s, e) ↦ removal-Post w p s e t
  ];
}

call-IsTable : Keeps IsTable next_call
unfolding next_call
call-IsTable = record { at = λ w t. t }

pub IsTable-IsStable : IsStable IsTable
IsTable-IsStable = record {
  keeps_modify = λ p f h. modify-IsTable p f (λ s. (h s).poll_index);
  keeps_io = io-IsTable;
  keeps_call = call-IsTable;
  keeps_end = λ p. Keeps-bind _ _ (modify-IsTable p _ (λ s. refl)) (λ _. removal-IsTable p);
}

module _ (w : World) (t : IsTable w) (fd : ℕ) (room : w.nfds < max_clients) where
  add-Occupied :
      (i : ℕ)
      → Occupied w.heap w.sessions i
      → i < w.nfds
      → Occupied (add_client fd w).heap (add_client fd w).sessions i
  unfolding add_client update new_session
  add-Occupied i (p, s, x, y, z) b = (p, s, ground arith, ground (arith, t.fresh w.next_address), z)

  add-new : (i : ℕ) → i ≡ w.nfds → Occupied (add_client fd w).heap (add_client fd w).sessions i
  unfolding add_client update new_session
  add-new i b = (w.next_address, new_session fd w.nfds, ground arith, ground arith, ground arith)

  add_client-IsTable : IsTable (add_client fd w)
  unfolding add_client update new_session
  add_client-IsTable = record {
    some_fd = omega arith;
    bounded = omega arith;
    occupied = λ i a b. elim (ℕ_discrete i w.nfds) [
      | yes h ↦ add-new i h
      | no h ↦ add-Occupied i (t.occupied i a (omega arith)) (omega arith)
    ];
    vacant = λ i a. ground (arith, t.vacant i);
    indexed = λ p s e. ground (arith, t.indexed p s, t.fresh p);
    fresh = λ p a. ground (arith, t.fresh p);
  }

accept-Post : (w : World) → IsTable w → (fd : ℕ) → Post IsTable (server_accept (some fd) w)
unfolding server_accept ◌>>=◌ gets change close_fd
accept-Post w t fd = elim (Bool-cases (leb max_clients w.nfds)) [
  | inl full ↦ rw full t
  | inr room ↦ rw room (add_client-IsTable w t fd (ground arith))
]

-- A connection that is accepted gets the next slot, or is closed where none is left.
pub accept-IsTable : (fd : Option ℕ) → Keeps IsTable (server_accept fd)
unfolding server_accept pure
accept-IsTable none = record { at = λ w t. t }
accept-IsTable (some fd) = record { at = λ w t. accept-Post w t fd }
