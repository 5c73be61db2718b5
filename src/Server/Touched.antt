-- ===== src/Server/Touched.antt =====
-- What writing to a session and flushing it, c/src/session.c, leave alone.
use jabber.Base.{
  ℕ, suc, ◌≢◌, ◌≡◌, refl, ◌∙◌, Bool, true, false, some, List, [], ◌∷◌, length, ltb, ◌==◌, drop,
  Bool-cases, inl, inr,
}
use jabber.World.{
  Session, World, Env, WriteResult, wrote, again, failed, ◌>>=◌, pure, load, next_call, when,
}
use jabber.World.Keeps.{Ends}
use jabber.World.Steps.{put, put_self, put_other, Runs-Ends, Runs-bind, Runs-load, Ends-weaken}
use jabber.Output.{max_clients, set_pollout, append_out, session_write, finish_write, session_flush}
use jabber.Output.Stream.{session_write-some}
use jabber.Output.Flush.{rest, flushed, settled, finish_write-wrote}

-- The session at `p` is still there, with its socket and its slot; the other sessions, the table and
-- the closed sockets are as before.
pub record Touched (p : ℕ) (s : Session) (w v : World) : Type 0 where
  pub now : Session
  pub at : v.heap p ≡ some now
  pub same_fd : now.fd ≡ s.fd
  pub same_index : now.poll_index ≡ s.poll_index
  pub others : (q : ℕ) → q ≢ p → v.heap q ≡ w.heap q
  pub sessions : v.sessions ≡ w.sessions
  pub nfds : v.nfds ≡ w.nfds
  pub closed : v.closed ≡ w.closed

pub refl-Touched : (p : ℕ) (s : Session) (w : World) → w.heap p ≡ some s → Touched p s w w
refl-Touched p s w live = record {
  now = s;
  at = live;
  same_fd = refl;
  same_index = refl;
  others = λ q ne. refl;
  sessions = refl;
  nfds = refl;
  closed = refl;
}

-- The same for a state that has all of this from `u`.
pub again-Touched :
    (p : ℕ) (s : Session) (w u v : World)
    → Touched p s w u
    → v.heap ≡ u.heap
    → v.sessions ≡ u.sessions
    → v.nfds ≡ u.nfds
    → v.closed ≡ u.closed
    → Touched p s w v
again-Touched p s w u v t heap sessions nfds closed = record {
  now = t.now;
  at = rw heap t.at;
  same_fd = t.same_fd;
  same_index = t.same_index;
  others = λ q ne. rw heap (t.others q ne);
  sessions = sessions ∙ t.sessions;
  nfds = nfds ∙ t.nfds;
  closed = closed ∙ t.closed;
}

pollout-Touched :
    (p : ℕ) (s : Session) (w v : World) (i : ℕ) (b : Bool)
    → Touched p s w v
    → Touched p s w (set_pollout i b v)
unfolding set_pollout
pollout-Touched p s w v i b t = elim (Bool-cases (ltb i max_clients)) [
  | inl x ↦ rw x (again-Touched p s w v _ t refl refl refl refl)
  | inr x ↦ rw x t
]

put-Touched :
    (p : ℕ) (s t : Session) (w : World)
    → t.fd ≡ s.fd
    → t.poll_index ≡ s.poll_index
    → Touched p s w (put p t w)
unfolding put
put-Touched p s t w fd idx = record {
  now = t;
  at = put_self p t w;
  same_fd = fd;
  same_index = idx;
  others = λ q ne. put_other p q t w ne;
  sessions = refl;
  nfds = refl;
  closed = refl;
}

pub session_write-Touched :
    (p : ℕ) (s : Session) (bytes : List ℕ) (w : World)
    → w.heap p ≡ some s
    → Ends (Touched p s w) (session_write p bytes w)
unfolding session_write when pure append_out
session_write-Touched p s [] w live = refl-Touched p s w live
session_write-Touched p s (b ∷ bytes) w live =
    Runs-Ends (Touched p s w) (session_write p (b ∷ bytes)) w tt
      (set_pollout s.poll_index true (put p (append_out (b ∷ bytes) s) w))
      (session_write-some p s b bytes w live)
      (pollout-Touched p s w _ s.poll_index true
        (put-Touched p s (append_out (b ∷ bytes) s) w refl refl))

module _ (e : Env) (p : ℕ) (s : Session) (w : World) (live : w.heap p ≡ some s) where
  settled-Touched : (n : ℕ) → Touched p s w (settled e p s w live n)
  unfolding put
  settled-Touched n =
      let gone_out : Touched p s w (flushed e p s w live n) =
        again-Touched p s w (put p (rest e p s w live n) w) _ (put-Touched p s _ w refl refl) refl
          refl refl refl in
      elim (Bool-cases (length (drop n s.write_buf) == 0)) [
        | inl x ↦ rw x (pollout-Touched p s w _ s.poll_index false gone_out)
        | inr x ↦ rw x gone_out
      ]

  finish_write-Touched : (r : WriteResult) → Ends (Touched p s w) (finish_write p s r w)
  unfolding finish_write pure
  finish_write-Touched again = refl-Touched p s w live
  finish_write-Touched failed = refl-Touched p s w live
  finish_write-Touched (wrote n) =
      Runs-Ends (Touched p s w) (finish_write p s (wrote n)) w true (settled e p s w live n)
        (finish_write-wrote e p s w live n) (settled-Touched n)

pub session_flush-Touched :
    (e : Env) (p : ℕ) (s : Session) (w : World)
    → w.heap p ≡ some s
    → Ends (Touched p s w) (session_flush e p w)
unfolding session_flush next_call pure ◌>>=◌
session_flush-Touched e p s w live =
    let called : World = record w { calls = suc w.calls } in
    rw (Runs-bind (load p) _ w w s (Runs-load p s w live))
      (elim (Bool-cases (length s.write_buf == 0)) [
        | inl h ↦ rw h (refl-Touched p s w live)
        | inr h ↦ rw h (
            Ends-weaken (Touched p s called) (Touched p s w)
              (finish_write p s (e.write_result w.calls) called)
              (finish_write-Touched e p s called live (e.write_result w.calls))
              (λ v t. record {
                now = t.now;
                at = t.at;
                same_fd = t.same_fd;
                same_index = t.same_index;
                others = t.others;
                sessions = t.sessions;
                nfds = t.nfds;
                closed = t.closed;
              }))
      ])

pub trans-Touched :
    (p : ℕ) (s : Session) (w u v : World) (t : Touched p s w u)
    → Touched p t.now u v
    → Touched p s w v
trans-Touched p s w u v t k = record {
  now = k.now;
  at = k.at;
  same_fd = k.same_fd ∙ t.same_fd;
  same_index = k.same_index ∙ t.same_index;
  others = λ q ne. k.others q ne ∙ t.others q ne;
  sessions = k.sessions ∙ t.sessions;
  nfds = k.nfds ∙ t.nfds;
  closed = k.closed ∙ t.closed;
}
