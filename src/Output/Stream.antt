-- ===== src/Output/Stream.antt =====
-- The bytes that a session sends, c/src/session.c: `session_write`.
use jabber.Base.{
  ℕ, suc, ◌+◌, ◌≤◌, ◌≡◌, refl, sym, ◌∙◌, Bool, true, some, List, [], ◌∷◌, ◌++◌, length,
  length-append, ltb, ◌==◌, if◌then◌else◌, arith, Bool-cases, inl, inr, lt→ltb,
}
use mathlib.Core.List.{append_assoc, append-nil}
use jabber.World.{Session, World, pure, load, modify, change, when}
use jabber.World.Keeps.{Ends}
use jabber.World.Steps.{
  put, put_self, put_other, OnlyChanged, Runs, Runs-Ends, Runs-bind, Runs-load, Runs-modify,
}
use jabber.Output.{max_clients, set_pollout, grown, append_out, session_write}

-- What went out on a socket, in order.
unfoldable pub sent_on : ℕ → List (ℕ × List ℕ) → List ℕ
sent_on fd [] = []
sent_on fd ((g, bytes) ∷ rest) = if g == fd then bytes ++ sent_on fd rest else sent_on fd rest

-- All that a session has sent: on the wire already, then in its buffer.
abbrev pub stream_of : World → Session → List ℕ
stream_of w s = sent_on s.fd w.wire ++ s.write_buf

-- The session at `p` has sent `bytes`, and has room for what it still holds.
pub record HasSent (p : ℕ) (s : Session) (bytes : List ℕ) (w : World) : Type 0 where
  pub now : Session
  pub at : w.heap p ≡ some now
  pub same_fd : now.fd ≡ s.fd
  pub stream : stream_of w now ≡ bytes
  pub room : length now.write_buf ≤ now.write_cap

pub sent_on-append :
    (fd : ℕ) (wire : List (ℕ × List ℕ)) (bytes : List ℕ)
    → sent_on fd (wire ++ (fd, bytes) ∷ []) ≡ sent_on fd wire ++ bytes
unfolding sent_on
sent_on-append fd [] bytes = ground (arith, append-nil bytes)
sent_on-append fd ((g, b) ∷ wire) bytes =
    ground (arith, sent_on-append fd wire bytes, append_assoc b (sent_on fd wire) bytes)

pub record SameBut (w v : World) : Type 0 where
  pub heap : v.heap ≡ w.heap
  pub wire : v.wire ≡ w.wire
  pub files : v.files ≡ w.files
  pub dirs : v.dirs ≡ w.dirs

pub set_pollout-same : (i : ℕ) (b : Bool) (w : World) → SameBut w (set_pollout i b w)
unfolding set_pollout
set_pollout-same i b w = elim (Bool-cases (ltb i max_clients)) [
  | inl e ↦ rw e (record { heap = refl; wire = refl; files = refl; dirs = refl })
  | inr e ↦ rw e (record { heap = refl; wire = refl; files = refl; dirs = refl })
]

-- Writing some bytes.
pub session_write-some :
    (p : ℕ) (s : Session) (b : ℕ) (bs : List ℕ) (w : World)
    → w.heap p ≡ some s
    → Runs
        (session_write p (b ∷ bs))
        w
        tt
        (set_pollout s.poll_index true (put p (append_out (b ∷ bs) s) w))
unfolding session_write when change append_out
session_write-some p s b bs w live =
    let written : World = put p (append_out (b ∷ bs) s) w in
    rw (lt→ltb 0 (suc (length bs)) (omega arith)) (
      Runs-bind (modify p (append_out (b ∷ bs))) _ w written tt (Runs-modify p s _ w live)
      ∙ Runs-bind (load p) (λ t. change (set_pollout t.poll_index true)) written written
          (append_out (b ∷ bs) s) (Runs-load p _ written (put_self p _ w)))

-- What a write changes: the buffer of the one session.
pub session_write-OnlyChanged :
    (p : ℕ) (s : Session) (b : ℕ) (bs : List ℕ) (w v : World)
    → OnlyChanged p s w v
    → Ends (OnlyChanged p (append_out (b ∷ bs) s) w) (session_write p (b ∷ bs) v)
unfolding put
session_write-OnlyChanged p s b bs w v h =
    let same = set_pollout-same s.poll_index true (put p (append_out (b ∷ bs) s) v) in
    Runs-Ends (OnlyChanged p (append_out (b ∷ bs) s) w) (session_write p (b ∷ bs)) v tt
      (set_pollout s.poll_index true (put p (append_out (b ∷ bs) s) v))
      (session_write-some p s b bs v h.at)
      (record {
        at = rw same.heap (put_self p (append_out (b ∷ bs) s) v);
        others = λ q ne. rw same.heap (put_other p q (append_out (b ∷ bs) s) v ne ∙ h.others q ne);
        wire = same.wire ∙ h.wire;
        files = same.files ∙ h.files;
        dirs = same.dirs ∙ h.dirs;
      })

length-grown : (cap need : ℕ) → need ≤ grown cap need
unfolding grown
length-grown cap need = ground arith

-- Bytes that are written are behind all that the session sent before, and the buffer, where it held
-- what was in it, holds them too.
pub session_write-HasSent :
    (p : ℕ) (s : Session) (bytes : List ℕ) (w : World)
    → w.heap p ≡ some s
    → length s.write_buf ≤ s.write_cap
    → Ends (HasSent p s (stream_of w s ++ bytes)) (session_write p bytes w)
unfolding session_write when pure append_out put
session_write-HasSent p s [] w live room = record {
  now = s;
  at = live;
  same_fd = refl;
  stream = sym (append-nil _);
  room = room;
}
session_write-HasSent p s (b ∷ bytes) w live room =
    let same = set_pollout-same s.poll_index true (put p (append_out (b ∷ bytes) s) w) in
    Runs-Ends (HasSent p s (stream_of w s ++ b ∷ bytes)) (session_write p (b ∷ bytes)) w tt
      (set_pollout s.poll_index true (put p (append_out (b ∷ bytes) s) w))
      (session_write-some p s b bytes w live)
      (record {
        now = append_out (b ∷ bytes) s;
        at = rw same.heap (put_self p (append_out (b ∷ bytes) s) w);
        same_fd = refl;
        stream = rw same.wire (sym (append_assoc (sent_on s.fd w.wire) s.write_buf (b ∷ bytes)));
        room = omega (
          arith,
          length-append s.write_buf (b ∷ bytes),
          length-grown s.write_cap (length s.write_buf + length (b ∷ bytes)),
        );
      })
