-- ===== src/Message/Reading.antt =====
-- A stored message that is read goes out, c/src/message.c: what that changes.
use jabber.Base.{ℕ, ◌≡◌, refl, ap, ◌∙◌, Option, none, some, List, [], ◌∷◌, ◌++◌, Text}
use mathlib.Core.List.{append-nil}
use jabber.Xml.{Node}
use jabber.World.{Session, World, Env, M, pure, when}
use jabber.World.Keeps.{Ends}
use jabber.World.Steps.{Ends-both, Ends-weaken, refl-OnlyChanged, OnlyChanged}
use jabber.Output.{append_out, session_write, stanza_serialize, stanza_send}
use jabber.Output.Stream.{stream_of, HasSent, session_write-HasSent, session_write-OnlyChanged}
use jabber.Message.{send_read}

session_write-files :
    (p : ℕ) (s : Session) (bytes : List ℕ) (w : World)
    → w.heap p ≡ some s
    → Ends (λ v. v.files ≡ w.files) (session_write p bytes w)
unfolding session_write when pure
session_write-files p s [] w live = refl
session_write-files p s (b ∷ bytes) w live =
    Ends-weaken (OnlyChanged p (append_out (b ∷ bytes) s) w) (λ v. v.files ≡ w.files)
      (session_write p (b ∷ bytes) w)
      (session_write-OnlyChanged p s b bytes w w (refl-OnlyChanged p s w live)) (λ v h. h.files)

-- What goes out for a node as it is serialised.
abbrev pub text_out : Option Text → List ℕ
text_out none = []
text_out (some bytes) = bytes

module _ (e : Env) where
  -- What goes out for a message that was read.
  unfoldable pub bytes_of : Option Node → List ℕ
  bytes_of none = []
  bytes_of (some root) = text_out (e.xml.dump root)

  module _ (p : ℕ) (s : Session) where
    -- More bytes were sent, and no file changed.
    abbrev pub SentMore : List ℕ → World → World → Type 0
    SentMore bytes w v = HasSent p s bytes v × (v.files ≡ w.files)

    write-SentMore :
        (before bytes : List ℕ) (w : World)
        → HasSent p s before w
        → Ends (SentMore (before ++ bytes) w) (session_write p bytes w)
    write-SentMore before bytes w h =
        Ends-both (HasSent p s (before ++ bytes)) (λ v. v.files ≡ w.files) (session_write p bytes w)
          (Ends-weaken (HasSent p h.now (stream_of w h.now ++ bytes))
            (HasSent p s (before ++ bytes)) (session_write p bytes w)
            (session_write-HasSent p h.now bytes w h.at h.room)
            (λ v k. record {
              now = k.now;
              at = k.at;
              same_fd = k.same_fd ∙ h.same_fd;
              stream = k.stream ∙ ap (λ b. b ++ bytes) h.stream;
              room = k.room;
            }))
          (session_write-files p h.now bytes w h.at)

    dumped-SentMore :
        (before : List ℕ) (o : Option Text) (w : World)
        → HasSent p s before w
        → Ends (SentMore (before ++ text_out o) w) (
            (elim o as (λ x. M (Unit {0})) [ none ↦ pure tt | some bytes ↦ session_write p bytes ])
              w)
    unfolding pure
    dumped-SentMore before none w h = rw (append-nil before) (h, refl)
    dumped-SentMore before (some bytes) w h = write-SentMore before bytes w h

    pub send_read-SentMore :
        (before : List ℕ) (root : Option Node) (w : World)
        → HasSent p s before w
        → Ends (SentMore (before ++ bytes_of root) w) (send_read e p root w)
    unfolding send_read stanza_send stanza_serialize bytes_of pure
    send_read-SentMore before none w h = rw (append-nil before) (h, refl)
    send_read-SentMore before (some root) w h = dumped-SentMore before (e.xml.dump root) w h
