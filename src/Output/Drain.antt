-- ===== src/Output/Drain.antt =====
-- Flushing a session, c/src/session.c, again and again sends all that it has to send.
use jabber.Base.{
  ℕ, zero, suc, ◌-◌, ◌≤◌, ◌≡◌, refl, sym, ap, subst, ◌∙◌, true, some, List, [], ◌∷◌, ◌++◌, length,
  length-drop, drop, ◌==◌, arith, Bool-cases, inl, inr,
}
use mathlib.Core.List.{append-nil}
use jabber.World.{Session, World, Env, wrote, M, ◌>>=◌, pure, load, next_call}
use jabber.World.Keeps.{Ends}
use jabber.World.Steps.{
  put_self, Runs-Ends, Runs-bind, Runs-load, Ends-bind, Ends-both, Ends-weaken,
}
use jabber.Output.{finish_write, session_flush}
use jabber.Output.Stream.{sent_on, stream_of, HasSent}
use jabber.Output.Flush.{rest, settled, settled-same, finish_write-wrote, session_flush-HasSent}

-- So many flushes, one after the other, as poll reports the socket writable.
unfoldable pub flush_times : Env → ℕ → ℕ → M (Unit {0})
unfolding pure
flush_times e p zero = pure tt
flush_times e p (suc n) = session_flush e p >>= λ done. flush_times e p n

-- Each write takes one byte at least.
abbrev pub Takes : Env → Type 0
Takes e = (n : ℕ) → (k : ℕ) × (e.write_result n ≡ wrote (suc k))

-- What the session still has to send is less.
abbrev Shorter : ℕ → ℕ → World → Type 0
Shorter p n w = (t : Session) → w.heap p ≡ some t → length t.write_buf ≤ n - 1

module _ (e : Env) (p : ℕ) (s : Session) (w : World) (live : w.heap p ≡ some s) where
  settled-Shorter : (k : ℕ) → Shorter p (length s.write_buf) (settled e p s w live (suc k))
  settled-Shorter k t at =
      let there : (settled e p s w live (suc k)).heap p ≡ some (rest e p s w live (suc k)) =
        ap (λ h. h p) (settled-same e p s w live (suc k)).heap
        ∙ put_self p (rest e p s w live (suc k)) _ in
      let now : some (rest e p s w live (suc k)) ≡ some t = sym there ∙ at in
      let same : drop (suc k) s.write_buf ≡ t.write_buf = ground (arith, now) in
      omega (arith, ap length same, length-drop (suc k) s.write_buf)

  finish_write-Shorter :
      (k : ℕ) → Ends (Shorter p (length s.write_buf)) (finish_write p s (wrote (suc k)) w)
  finish_write-Shorter k =
      Runs-Ends (Shorter p (length s.write_buf)) (finish_write p s (wrote (suc k))) w true
        (settled e p s w live (suc k)) (finish_write-wrote e p s w live (suc k)) (settled-Shorter k)

session_flush-Shorter :
    (e : Env) (p : ℕ) (s : Session) (w : World)
    → w.heap p ≡ some s
    → Takes e
    → Ends (Shorter p (length s.write_buf)) (session_flush e p w)
unfolding session_flush next_call pure ◌>>=◌
session_flush-Shorter e p s w live takes =
    rw (Runs-bind (load p) _ w w s (Runs-load p s w live))
      (elim (Bool-cases (length s.write_buf == 0)) [
        | inl h ↦ rw h (λ t at. ground (arith, at))
        | inr h ↦
            let (k, some_bytes) = takes w.calls in
            rw (h, some_bytes)
              (finish_write-Shorter e p s (record w { calls = suc w.calls }) live k)
      ])

-- Nothing is left to send, and all of `bytes` went out on the socket.
pub record Drained (p fd : ℕ) (bytes : List ℕ) (w : World) : Type 0 where
  pub now : Session
  pub at : w.heap p ≡ some now
  pub same_fd : now.fd ≡ fd
  pub empty : now.write_buf ≡ []
  pub sent : sent_on fd w.wire ≡ bytes

length-zero : (xs : List ℕ) → length xs ≤ 0 → xs ≡ []
length-zero [] h = refl
length-zero (x ∷ xs) h = absurd (omega arith)

-- Where every write takes one byte at least, as many flushes as there are bytes in the buffer of a
-- session empty it and put all that the session has sent on the wire, in order. The buffer held what
-- was in it.
pub flush_times-Drained :
    (e : Env) (p n : ℕ) (s : Session) (w : World)
    → w.heap p ≡ some s
    → length s.write_buf ≤ s.write_cap
    → Takes e
    → length s.write_buf ≤ n
    → Ends (Drained p s.fd (stream_of w s)) (flush_times e p n w)
unfolding flush_times pure
flush_times-Drained e p zero s w live room takes few =
    let none_left : s.write_buf ≡ [] = length-zero s.write_buf few in
    record {
      now = s;
      at = live;
      same_fd = refl;
      empty = none_left;
      sent = sym (append-nil _) ∙ ap (λ b. sent_on s.fd w.wire ++ b) (sym none_left);
    }
flush_times-Drained e p (suc n) s w live room takes few =
    Ends-bind (λ v. HasSent p s (stream_of w s) v × Shorter p (length s.write_buf) v)
      (Drained p s.fd (stream_of w s)) (session_flush e p) _ w
      (Ends-both _ _ _ (session_flush-HasSent e p s w live room)
        (session_flush-Shorter e p s w live takes))
      (λ a v (sent, shorter).
        Ends-weaken (Drained p sent.now.fd (stream_of v sent.now)) (Drained p s.fd (stream_of w s))
          (flush_times e p n v)
          (flush_times-Drained e p n sent.now v sent.at sent.room takes
            (omega (arith, shorter sent.now sent.at)))
          (λ u k. record {
            now = k.now;
            at = k.at;
            same_fd = k.same_fd ∙ sent.same_fd;
            empty = k.empty;
            sent =
                subst (λ fd. sent_on fd u.wire ≡ stream_of w s) sent.same_fd (k.sent ∙ sent.stream);
          }))
