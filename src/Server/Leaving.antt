-- ===== src/Server/Leaving.antt =====
-- A session leaves at the shutdown of the server, c/src/server.c: what becomes of it, and of the slots
-- behind its own.
use jabber.Base.{
  ℕ, zero, suc, ◌+◌, ◌≤◌, ◌<◌, ◌≡◌, ◌≢◌, refl, ap, ◌∙◌, sym, Option, none, some, List, [], ◌∷◌,
  ◌++◌, codes, ◌==◌, arith, Bool-cases, inl, inr,
}
use jabber.World.{Session, World, Env, load, change, update}
use jabber.World.Keeps.{Ends}
use jabber.World.Steps.{Runs-Ends, Runs-bind, Runs-load, Ends-bind, Ends-weaken}
use jabber.Output.{session_write_str, session_flush}
use jabber.Teardown.{free_session, session_destroy, stream_error_text}
use jabber.Server.{shutdown_session}
use jabber.Server.Table.{Occupied}
use jabber.Server.Touched.{Touched, session_write-Touched, session_flush-Touched, trans-Touched}

-- The socket of the session in a slot, and those of some slots in order.
abbrev fd_of : Option Session → List ℕ
fd_of none = []
fd_of (some s) = s.fd ∷ []

unfoldable pub fd_at : World → ℕ → List ℕ
fd_at w i = elim (w.sessions i) [ none ↦ [] | some p ↦ fd_of (w.heap p) ]

unfoldable pub fds_from : World → ℕ → ℕ → List ℕ
fds_from w zero i = []
fds_from w (suc n) i = fd_at w i ++ fds_from w n (i + 1)

-- The slots from `i` on hold the sessions that are left, each under its index.
pub record Left (n i : ℕ) (w : World) : Type 0 where
  pub occupied : (j : ℕ) → i ≤ j → j < n → Occupied w.heap w.sessions j
  pub indexed :
      (p : ℕ) (s : Session)
      → w.heap p ≡ some s
      → (i ≤ s.poll_index) × (s.poll_index < n) × (w.sessions s.poll_index ≡ some p)

-- The session `p` is gone and its socket closed; the rest is as before.
pub record Ended (p : ℕ) (s : Session) (w v : World) : Type 0 where
  pub at : v.heap p ≡ none
  pub others : (q : ℕ) → q ≢ p → v.heap q ≡ w.heap q
  pub sessions : v.sessions ≡ w.sessions
  pub nfds : v.nfds ≡ w.nfds
  pub closed : v.closed ≡ w.closed ++ s.fd ∷ []

destroy-Ended :
    (p : ℕ) (s : Session) (w v : World) → Touched p s w v → Ends (Ended p s w) (session_destroy p v)
unfolding session_destroy change free_session update
destroy-Ended p s w v t =
    Runs-Ends (Ended p s w) (session_destroy p) v tt (free_session p t.now v)
      (Runs-bind (load p) _ v v t.now (Runs-load p t.now v t.at))
      (record {
        at = ground arith;
        others = λ q ne. ground (arith, t.others q ne);
        sessions = t.sessions;
        nfds = t.nfds;
        closed = rw (t.closed, t.same_fd) refl;
      })

pub shutdown_session-Ended :
    (e : Env) (p : ℕ) (s : Session) (w : World)
    → w.heap p ≡ some s
    → Ends (Ended p s w) (shutdown_session e p w)
unfolding shutdown_session session_write_str
shutdown_session-Ended e p s w live =
    Ends-bind (Touched p s w) (Ended p s w)
      (session_write_str p (stream_error_text (codes "system-shutdown"))) _ w
      (session_write-Touched p s (stream_error_text (codes "system-shutdown")) w live)
      (λ a v t.
        Ends-bind (Touched p s w) (Ended p s w) (session_flush e p) _ v
          (Ends-weaken (Touched p t.now v) (Touched p s w) (session_flush e p v)
            (session_flush-Touched e p t.now v t.at) (λ u k. trans-Touched p s w v u t k))
          (λ b u k. destroy-Ended p s w u k))

pub fd_at-there :
    (w : World) (j q : ℕ) (u : Session)
    → w.sessions j ≡ some q
    → w.heap q ≡ some u
    → fd_at w j ≡ u.fd ∷ []
unfolding fd_at
fd_at-there w j q u at there = rw (at, there, fd_at) refl

pub suc-plus : (i : ℕ) → suc i ≡ i + 1
suc-plus i = omega arith

abbrev pub cleared : ℕ → World → World
cleared i w = record w { sessions = update w.sessions i none }

module _ (n i p : ℕ) (s : Session) (w v : World) (left : Left n i w) (here : w.sessions i ≡ some p)
    (live : w.heap p ≡ some s) (idx : s.poll_index ≡ i) (t : Ended p s w v) where
  -- A session behind slot `i` is another one.
  elsewhere : (q : ℕ) (u : Session) → w.heap q ≡ some u → suc i ≤ u.poll_index → q ≢ p
  elsewhere q u at behind same =
      let twice : some u ≡ some s = sym at ∙ ap w.heap same ∙ live in ground (arith, twice)

  behind-Occupied :
      (j : ℕ) → suc i ≤ j → Occupied w.heap w.sessions j → Occupied v.heap (cleared i v).sessions j
  unfolding update
  behind-Occupied j behind (q, u, at, there, slot) =
      let ne : q ≢ p = elsewhere q u there (omega arith) in
      (q, u, ground (arith, t.sessions), t.others q ne ∙ there, slot)

  indexed-behind :
      (q : ℕ) (u : Session)
      → v.heap q ≡ some u
      → (suc i ≤ u.poll_index) × (u.poll_index < n) × ((cleared i v).sessions u.poll_index ≡ some q)
  unfolding update
  indexed-behind q u at = elim (Bool-cases (q == p)) [
    | inl same ↦ absurd (ground (arith, t.at))
    | inr other ↦
        let ne : q ≢ p = ground arith in
        let (from, below, slot) = left.indexed q u (sym (t.others q ne) ∙ at) in
        let not_here : u.poll_index ≢ i = λ e. ground (arith, slot, here, e) in
        (omega arith, below, ground (arith, t.sessions, slot))
  ]

  pub Left-behind : Left n (suc i) (cleared i v)
  Left-behind = record {
    occupied = λ j behind below. behind-Occupied j behind (left.occupied j (omega arith) below);
    indexed = indexed-behind;
  }

  fd_at-behind : (j : ℕ) → suc i ≤ j → j < n → fd_at (cleared i v) j ≡ fd_at w j
  unfolding fd_at update
  fd_at-behind j behind below =
      let (q, u, at, there, slot) = left.occupied j (omega arith) below in
      let ne : q ≢ p = elsewhere q u there (omega arith) in
      let slot_now : (cleared i v).sessions j ≡ some q = ground (arith, t.sessions) in
      fd_at-there (cleared i v) j q u slot_now (t.others q ne ∙ there)
      ∙ sym (fd_at-there w j q u at there)

  pub fds_from-behind :
      (k j : ℕ) → suc i ≤ j → j + k ≤ n → fds_from (cleared i v) k j ≡ fds_from w k j
  unfolding fds_from
  fds_from-behind zero j behind below = refl
  fds_from-behind (suc k) j behind below =
      rw
        (fd_at-behind j behind (omega arith), fds_from-behind k (j + 1) (omega arith) (omega arith))
        refl
