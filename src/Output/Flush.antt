-- ===== src/Output/Flush.antt =====
-- `session_flush`, c/src/session.c, puts the bytes of a session on the wire.
use jabber.Base.{
  ◌≤◌, ℕ, zero, suc, ◌≡◌, refl, ◌∙◌, ap, true, false, some, List, [], ◌∷◌, ◌++◌, length,
  length-drop, take, drop, ◌==◌, if◌then◌else◌, arith, Bool-cases, inl, inr,
}
use mathlib.Core.List.{append_assoc}
use jabber.World.{
  Session, World, Env, WriteResult, wrote, again, failed, ◌>>=◌, pure, load, modify, change,
  next_call, when,
}
use jabber.World.Keeps.{Ends}
use jabber.World.Steps.{
  put, put_self, Runs, Runs-Ends, Runs-bind, Runs-load, Runs-modify, Runs-when,
}
use jabber.Output.{set_pollout, finish_write, session_flush}
use jabber.Output.Stream.{sent_on, stream_of, HasSent, SameBut, sent_on-append, set_pollout-same}

take-drop : {A : Type 0} (n : ℕ) (xs : List A) → take n xs ++ drop n xs ≡ xs
take-drop zero xs = refl
take-drop (suc n) [] = refl
take-drop (suc n) (x ∷ xs) = ap (◌∷◌ x) (take-drop n xs)

module _ (e : Env) (p : ℕ) (s : Session) (w : World) (live : w.heap p ≡ some s) where
  module _ (n : ℕ) where
    abbrev pub rest : Session
    rest = record s { write_buf = drop n s.write_buf }

    abbrev pub flushed : World
    flushed = put p rest (record w { wire = w.wire ++ (s.fd, take n s.write_buf) ∷ [] })

    abbrev pub settled : World
    settled =
        if length (drop n s.write_buf) == 0 then set_pollout s.poll_index false flushed else flushed

    abbrev out : World → World
    out v = record v { wire = v.wire ++ (s.fd, take n s.write_buf) ∷ [] }

    abbrev keep : Session → Session
    keep t = record t { write_buf = drop n s.write_buf }

    pure-settled : Runs (pure true) settled true settled
    unfolding pure
    pure-settled = refl

    pub finish_write-wrote : Runs (finish_write p s (wrote n)) w true settled
    unfolding finish_write change
    finish_write-wrote =
        Runs-bind (change out) _ w (out w) tt refl
        ∙ Runs-bind (modify p keep) _ (out w) flushed tt (Runs-modify p s keep (out w) live)
        ∙ Runs-bind
            (when (length (drop n s.write_buf) == 0) (change (set_pollout s.poll_index false))) _
            flushed settled tt
            (Runs-when (length (drop n s.write_buf) == 0) (set_pollout s.poll_index false) flushed)
        ∙ pure-settled

    pub settled-same : SameBut flushed settled
    settled-same = elim (Bool-cases (length (drop n s.write_buf) == 0)) [
      | inl h ↦ rw h (set_pollout-same s.poll_index false flushed)
      | inr h ↦ rw h (record { heap = refl; wire = refl; files = refl; dirs = refl })
    ]

    settled-stream : stream_of settled rest ≡ stream_of w s
    unfolding put
    settled-stream = rw settled-same.wire (
        ap (λ o. o ++ drop n s.write_buf) (sent_on-append s.fd w.wire (take n s.write_buf))
        ∙ append_assoc (sent_on s.fd w.wire) (take n s.write_buf) (drop n s.write_buf)
        ∙ ap (λ b. sent_on s.fd w.wire ++ b) (take-drop n s.write_buf))

  finish_write-HasSent :
      length s.write_buf ≤ s.write_cap
      → (r : WriteResult) → Ends (HasSent p s (stream_of w s)) (finish_write p s r w)
  unfolding finish_write pure
  finish_write-HasSent room again = record {
    now = s;
    at = live;
    same_fd = refl;
    stream = refl;
    room = room;
  }
  finish_write-HasSent room failed = record {
    now = s;
    at = live;
    same_fd = refl;
    stream = refl;
    room = room;
  }
  finish_write-HasSent room (wrote n) =
      Runs-Ends (HasSent p s (stream_of w s)) (finish_write p s (wrote n)) w true (settled n)
        (finish_write-wrote n)
        (record {
          now = rest n;
          at = rw (settled-same n).heap (put_self p (rest n) _);
          same_fd = refl;
          stream = settled-stream n;
          room = omega (arith, length-drop n s.write_buf);
        })

-- A flush neither loses, repeats nor reorders a byte, however much the socket takes, and a buffer that
-- held what was in it still does.
pub session_flush-HasSent :
    (e : Env) (p : ℕ) (s : Session) (w : World)
    → w.heap p ≡ some s
    → length s.write_buf ≤ s.write_cap
    → Ends (HasSent p s (stream_of w s)) (session_flush e p w)
unfolding session_flush next_call pure ◌>>=◌
session_flush-HasSent e p s w live room =
    rw (Runs-bind (load p) _ w w s (Runs-load p s w live))
      (elim (Bool-cases (length s.write_buf == 0)) [
        | inl h ↦ rw h (record { now = s; at = live; same_fd = refl; stream = refl; room = room })
        | inr h ↦ rw h (
            finish_write-HasSent e p s (record w { calls = suc w.calls }) live room
              (e.write_result w.calls))
      ])
