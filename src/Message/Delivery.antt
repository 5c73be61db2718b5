-- ===== src/Message/Delivery.antt =====
-- `message_deliver_offline`, c/src/message.c, sends what is stored and deletes it.
use jabber.Base.{
  ℕ, ◌≤◌, ◌≡◌, refl, ap, subst, ◌∙◌, false, none, some, List, [], ◌∷◌, ◌++◌, Text, str_eq,
  str_eq_refl, str_eq_iff, length, All, arith,
}
use mathlib.Core.List.{append_assoc, append-nil}
use jabber.World.{Session, World, Env, ◌>>=◌, pure, gets, load, change, for_each, update_text}
use jabber.World.Keeps.{Ends}
use jabber.World.Steps.{Runs-bind, Runs-load, Ends-bind, Ends-weaken}
use jabber.Output.Stream.{stream_of, HasSent}
use jabber.User.{in_dir, unlink_file, names_in}
use jabber.Message.{
  offline_dir, offline_names, send_read, read_at, deliver_file, message_deliver_offline,
}
use jabber.Message.Order.{sort_names}
use jabber.Message.Reading.{bytes_of, SentMore, send_read-SentMore}

str_eq-turn : (a b : Text) → str_eq a b ≡ false → str_eq b a ≡ false
str_eq-turn a b h = ground (arith, str_eq_iff a b, str_eq_iff b a)

module _ (e : Env) where
  -- What goes out for the files of some names in a directory.
  unfoldable pub stored_bytes : World → Text → List Text → List ℕ
  unfolding bytes_of
  stored_bytes w dir [] = []
  stored_bytes w dir (n ∷ ns) =
      bytes_of e (read_at e (in_dir e 1536 dir n) w) ++ stored_bytes w dir ns

  module _ (p : ℕ) (s : Session) where
    -- The path of a name, and paths that are not among those of some names.
    abbrev path : Text → Text → Text
    path dir name = in_dir e 1536 dir name

    abbrev pub Apart : Text → List Text → Text → Type 0
    Apart dir ns q = All (λ m. str_eq (path dir m) q ≡ false) ns

    abbrev pub Distinct : Text → List Text → Type 0
    Distinct dir [] = Unit
    Distinct dir (n ∷ ns) = Apart dir ns (path dir n) × Distinct dir ns

    -- The messages of the names went out in order, their files are gone, and the others are there.
    pub record Delivered (before : List ℕ) (dir : Text) (ns : List Text) (w v : World)
        : Type 0 where
      pub sent : HasSent p s (before ++ stored_bytes w dir ns) v
      pub gone : All (λ m. v.files (path dir m) ≡ none) ns
      pub others : (q : Text) → Apart dir ns q → v.files q ≡ w.files q

    read-same : (w v : World) (q : Text) → v.files q ≡ w.files q → read_at e q v ≡ read_at e q w
    unfolding read_at
    read-same w v q same = rw (same, read_at) refl

    stored-same :
        (dir : Text) (ns : List Text) (w v : World)
        → All (λ m. v.files (path dir m) ≡ w.files (path dir m)) ns
        → stored_bytes v dir ns ≡ stored_bytes w dir ns
    unfolding stored_bytes
    stored-same dir [] w v h = refl
    stored-same dir (n ∷ ns) w v h =
        rw (read-same w v (path dir n) h.0, stored-same dir ns w v h.1) refl

    -- One message went out, and its file is gone.
    record OneSent (before : List ℕ) (q : Text) (w v : World) : Type 0 where
      sent : HasSent p s (before ++ bytes_of e (read_at e q w)) v
      files : v.files ≡ update_text w.files q none

    deliver_file-OneSent :
        (dir n : Text) (before : List ℕ) (w : World)
        → HasSent p s before w
        → Ends (OneSent before (path dir n) w) (deliver_file e p dir n w)
    unfolding deliver_file gets change unlink_file ◌>>=◌
    deliver_file-OneSent dir n before w h =
        Ends-bind (SentMore e p s (before ++ bytes_of e (read_at e (path dir n) w)) w)
          (OneSent before (path dir n) w) (send_read e p (read_at e (path dir n) w)) _ w
          (send_read-SentMore e p s before (read_at e (path dir n) w) w h)
          (λ a v k. record {
            sent = record {
              now = k.0.now;
              at = k.0.at;
              same_fd = k.0.same_fd;
              stream = k.0.stream;
              room = k.0.room;
            };
            files = ap (λ f. update_text f (path dir n) none) k.1;
          })

    gone_now : (before : List ℕ) (q : Text) (w v : World) → OneSent before q w v → v.files q ≡ none
    unfolding update_text
    gone_now before q w v k = rw (k.files, str_eq_refl q) refl

    others_now :
        (before : List ℕ) (q r : Text) (w v : World)
        → OneSent before q w v
        → str_eq q r ≡ false
        → v.files r ≡ w.files r
    unfolding update_text
    others_now before q r w v k apart = rw (k.files, apart) refl

    Apart-OneSent :
        (before : List ℕ) (q dir : Text) (ns : List Text) (w v : World)
        → OneSent before q w v
        → Apart dir ns q
        → All (λ m. v.files (path dir m) ≡ w.files (path dir m)) ns
    Apart-OneSent before q dir [] w v k apart = tt
    Apart-OneSent before q dir (m ∷ ns) w v k apart = (
      others_now before q (path dir m) w v k (str_eq-turn (path dir m) q apart.0),
      Apart-OneSent before q dir ns w v k apart.1,
    )

    deliver_all-Delivered :
        (dir : Text) (ns : List Text) (before : List ℕ) (w : World)
        → HasSent p s before w
        → Distinct dir ns
        → Ends (Delivered before dir ns w) (for_each (deliver_file e p dir) ns w)
    unfolding for_each pure stored_bytes
    deliver_all-Delivered dir [] before w h apart = record {
      sent = rw (append-nil before) h;
      gone = tt;
      others = λ q a. refl;
    }
    deliver_all-Delivered dir (n ∷ ns) before w h apart =
        let out : List ℕ = bytes_of e (read_at e (path dir n) w) in
        Ends-bind (OneSent before (path dir n) w) (Delivered before dir (n ∷ ns) w)
          (deliver_file e p dir n) _ w (deliver_file-OneSent dir n before w h)
          (λ a v k.
            Ends-weaken (Delivered (before ++ out) dir ns v) (Delivered before dir (n ∷ ns) w)
              (for_each (deliver_file e p dir) ns v)
              (deliver_all-Delivered dir ns (before ++ out) v k.sent apart.1)
              (λ u d. record {
                sent =
                    subst (λ b. HasSent p s b u)
                      (rw
                        (stored-same dir ns w v
                          (Apart-OneSent before (path dir n) dir ns w v k apart.0))
                        (append_assoc before out (stored_bytes w dir ns)))
                      d.sent;
                gone = (d.others (path dir n) apart.0 ∙ gone_now before (path dir n) w v k, d.gone);
                others = λ q a. d.others q a.1 ∙ others_now before (path dir n) q w v k a.0;
              }))

    -- The names of the messages, as they are collected and sorted.
    abbrev pub names_of : World → List Text
    names_of w = sort_names (offline_names 256 (names_in (w.dirs (offline_dir e s.jid_local))))

    -- The same for the names that the delivery collects.
    pub message_deliver_offline-Delivered :
        (w : World)
        → w.heap p ≡ some s
        → length s.write_buf ≤ s.write_cap
        → Distinct (offline_dir e s.jid_local) (names_of w)
        → Ends
            (Delivered (stream_of w s) (offline_dir e s.jid_local) (names_of w) w)
            (message_deliver_offline e p w)
    unfolding message_deliver_offline gets ◌>>=◌
    message_deliver_offline-Delivered w live room apart =
        rw (Runs-bind (load p) _ w w s (Runs-load p s w live)) (
          deliver_all-Delivered (offline_dir e s.jid_local) (names_of w) (stream_of w s) w
            (record { now = s; at = live; same_fd = refl; stream = refl; room = room }) apart)
