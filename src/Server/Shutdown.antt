-- ===== src/Server/Shutdown.antt =====
-- `server_shutdown`, c/src/server.c, ends every session and closes its socket once.
use jabber.Base.{
  ℕ, zero, suc, ◌+◌, ◌-◌, ◌≤◌, ◌≡◌, refl, ◌∙◌, sym, subst, none, some, [], ◌∷◌, ◌++◌, arith,
  Option-cases, inl, inr,
}
use mathlib.Core.List.{append_assoc, append-nil}
use jabber.World.{Session, World, Env, ◌>>=◌, pure, gets, change}
use jabber.World.Keeps.{Ends}
use jabber.World.Steps.{Ends-bind, Ends-weaken}
use jabber.Server.{on_slot, shutdown_session, shutdown_slots, server_shutdown}
use jabber.Server.Table.{IsTable}
use jabber.Server.Leaving.{
  fd_at, fds_from, Left, Ended, shutdown_session-Ended, fd_at-there, suc-plus, cleared, Left-behind,
  fds_from-behind,
}

-- No session is left, and the sockets of the slots are closed.
record Shut (n i k : ℕ) (w v : World) : Type 0 where
  left : Left n n v
  closed : v.closed ≡ w.closed ++ fds_from w k i

module _ (e : Env) (n : ℕ) where
  -- The loop of the slots that are left does what it should.
  abbrev Shuts : ℕ → ℕ → Type 0
  Shuts k i = (w : World) → Left n i w → i + k ≡ n → Ends (Shut n i k w) (shutdown_slots e k i w)

  next_slot :
      (k i p : ℕ) (s : Session) (w v : World)
      → Shuts k (i + 1)
      → i + suc k ≡ n
      → Left n i w
      → w.sessions i ≡ some p
      → w.heap p ≡ some s
      → s.poll_index ≡ i
      → Ended p s w v
      → Ends (Shut n i (suc k) w) (shutdown_slots e k (i + 1) (cleared i v))
  unfolding fds_from fd_at
  next_slot k i p s w v ih size left here live idx t =
      Ends-weaken (Shut n (i + 1) k (cleared i v)) (Shut n i (suc k) w)
        (shutdown_slots e k (i + 1) (cleared i v))
        (ih (cleared i v)
          (subst (λ j. Left n j (cleared i v)) (suc-plus i)
            (Left-behind n i p s w v left here live idx t))
          (omega arith))
        (λ u shut. record {
          left = shut.left;
          closed =
              shut.closed
              ∙ rw
                  (
                    t.closed,
                    fds_from-behind n i p s w v left here live idx t k (i + 1) (omega arith)
                        (omega arith),
                    fd_at-there w i p s here live,
                  )
                  (append_assoc w.closed (s.fd ∷ []) (fds_from w k (i + 1)));
        })

  slots-Shut : (k i : ℕ) → 1 ≤ i → Shuts k i
  unfolding shutdown_slots fds_from pure gets change on_slot ◌>>=◌
  slots-Shut zero i one w left size = record {
    left = subst (λ j. Left n j w) (omega arith) left;
    closed = sym (append-nil w.closed);
  }
  slots-Shut (suc k) i one w left size =
      let (p, s, here, live, idx) = left.occupied i (omega arith) (omega arith) in
      rw here (
        Ends-bind (Ended p s w) (Shut n i (suc k) w) (shutdown_session e p) _ w
          (shutdown_session-Ended e p s w live)
          (λ a v t.
            next_slot k i p s w v (slots-Shut k (i + 1) (omega arith)) size left here live idx t))

IsTable-Left : (w : World) → IsTable w → Left w.nfds 1 w
IsTable-Left w t = record { occupied = t.occupied; indexed = t.indexed }

abbrev pub NoSession : World → Type 0
NoSession w = (p : ℕ) → w.heap p ≡ none

-- The server is shut down: no session is left, the table is empty, and the socket of each session
-- is closed once, in the order of the slots.
pub record ShutDown (w v : World) : Type 0 where
  pub no_session : NoSession v
  pub empty : v.nfds ≡ 1
  pub closed : v.closed ≡ w.closed ++ fds_from w (w.nfds - 1) 1

Left-NoSession : (n : ℕ) (w : World) → Left n n w → NoSession w
Left-NoSession n w left p = elim (Option-cases (w.heap p)) [
  | inl e ↦ e
  | inr (s, e) ↦ let (from, below, slot) = left.indexed p s e in absurd (omega arith)
]

-- The shutdown always ends, without undefined behaviour, from a table of sessions that is well
-- formed: then no session is left, the table is empty, and the socket of each session was closed
-- exactly once, in the order of the slots.
pub server_shutdown-ShutDown :
    (e : Env) (w : World) → IsTable w → Ends (ShutDown w) (server_shutdown e w)
unfolding server_shutdown gets change ◌>>=◌
server_shutdown-ShutDown e w t =
    Ends-bind (Shut w.nfds 1 (w.nfds - 1) w) (ShutDown w) (shutdown_slots e (w.nfds - 1) 1) _ w
      (slots-Shut e w.nfds (w.nfds - 1) 1 (omega arith) w (IsTable-Left w t)
        (omega (arith, t.some_fd)))
      (λ a v shut. record {
        no_session = Left-NoSession w.nfds v shut.left;
        empty = refl;
        closed = shut.closed;
      })
