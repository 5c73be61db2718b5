-- ===== src/Message/Inbox.antt =====
-- What `message_deliver_offline`, c/src/message.c, leaves of a user's stored messages.
use jabber.Base.{
  ℕ, ◌≤◌, ◌<◌, ◌≡◌, ◌≢◌, ◌⊎◌, refl, sym, ap, subst, ◌∙◌, true, false, Option, none, some, List, [],
  ◌∷◌, ◌++◌, Text, All, codes, str_eq, str_eq_iff, str_eq_refl, snprintf_s, take, take-all, length,
  length-append, arith, Option-cases, Bool-cases, inl, inr,
}
use mathlib.Core.List.{append_cancel_left}
use jabber.World.{Session, World, Env}
use jabber.World.Keeps.{Ends}
use jabber.World.Steps.{Ends-weaken}
use jabber.Output.Stream.{stream_of, HasSent}
use jabber.User.{in_dir, joined, names_in}
use jabber.Message.{offline_dir, read_at, message_deliver_offline}
use jabber.Message.Order.{count}
use jabber.Message.Sorted.{Sorted, occurrences, sort_names-Sorted}
use jabber.Message.Reading.{bytes_of}
use jabber.Message.Collected.{IsMessage, Collected, offline_names-Collected, sort_names-Collected}
use jabber.Message.Delivery.{
  stored_bytes, Apart, Distinct, Delivered, names_of, message_deliver_offline-Delivered,
}

-- The directory of the stored messages, and a file in it.
abbrev pub inbox : Env → Session → Text
inbox e s = e.datadir ++ (codes "/" ++ (s.jid_local ++ codes "/offline"))

abbrev pub file_of : Env → Session → Text → Text
file_of e s n = inbox e s ++ (codes "/" ++ n)

-- What is sent for a file: its document as it is serialised, or nothing where it has none.
abbrev pub text_of_file : Env → Option (List ℕ) → List ℕ
text_of_file e none = []
text_of_file e (some content) = bytes_of e (e.xml.read_root content)

abbrev pub texts_of : Env → Session → World → List Text → List ℕ
texts_of e s w [] = []
texts_of e s w (n ∷ ns) = text_of_file e (w.files (file_of e s n)) ++ texts_of e s w ns

read_at-text :
    (e : Env) (q : Text) (w : World) → bytes_of e (read_at e q w) ≡ text_of_file e (w.files q)
unfolding read_at bytes_of
read_at-text e q w = elim (Option-cases (w.files q)) [
  | inl x ↦ rw (x, read_at) refl
  | inr (content, x) ↦ rw (x, read_at) refl
]

module _ (e : Env) (p : ℕ) (s : Session) (small : length (inbox e s) < 1280) where
  abbrev listed_in : World → List Text
  listed_in w = names_in (w.dirs (inbox e s))

  -- The names of messages, in order, all of them or 256: their documents went out behind `before`,
  -- and their files are gone.
  pub record Emptied (before : List ℕ) (w v : World) : Type 0 where
    pub names : List Text
    pub sorted : Sorted names
    pub messages : All IsMessage names
    pub listed : (x : Text) → occurrences x names ≤ occurrences x (listed_in w)
    pub all_or_full :
        ((x : Text) → IsMessage x → occurrences x names ≡ occurrences x (listed_in w))
        ⊎ (count names ≡ 256)
    pub sent : HasSent p s (before ++ texts_of e s w names) v
    pub gone : All (λ n. v.files (file_of e s n) ≡ none) names
    pub others : (q : Text) → All (λ n. file_of e s n ≢ q) names → v.files q ≡ w.files q

  dir-inbox : offline_dir e s.jid_local ≡ inbox e s
  unfolding offline_dir snprintf_s
  dir-inbox = take-all 1279 (inbox e s) (omega (arith, small))

  path-file :
      (n : Text) → length n < 64 → in_dir e 1536 (offline_dir e s.jid_local) n ≡ file_of e s n
  unfolding in_dir snprintf_s joined
  path-file n short =
      ap (λ d. take 1535 (d ++ (codes "/" ++ n))) dir-inbox
      ∙ take-all 1535 (file_of e s n)
          (omega (arith, small, short, length-append (inbox e s) (codes "/" ++ n)))

  file_of-apart : (n m : Text) → n ≢ m → file_of e s n ≢ file_of e s m
  file_of-apart n m ne same = ne (
      append_cancel_left (codes "/") n m
        (append_cancel_left (inbox e s) (codes "/" ++ n) (codes "/" ++ m) same))

  abbrev dir : Text
  dir = offline_dir e s.jid_local

  abbrev Short : List Text → Type 0
  Short = All (λ n. length n < 64)

  -- No name is listed twice.
  abbrev pub Once : List Text → Type 0
  Once ns = (x : Text) → occurrences x ns ≤ 1

  path-apart :
      (n m : Text)
      → length n < 64
      → length m < 64
      → n ≢ m
      → str_eq (in_dir e 1536 dir m) (in_dir e 1536 dir n) ≡ false
  path-apart n m short_n short_m ne =
      elim (Bool-cases (str_eq (in_dir e 1536 dir m) (in_dir e 1536 dir n))) [
        | inr no' ↦ no'
        | inl same ↦
            let e' = (str_eq_iff (in_dir e 1536 dir m) (in_dir e 1536 dir n)).0 same in
            absurd (file_of-apart n m ne (sym (path-file n short_n) ∙ sym e' ∙ path-file m short_m))
      ]

  Apart-absent :
      (n : Text) (ns : List Text)
      → length n < 64
      → Short ns
      → occurrences n ns ≡ 0
      → Apart e p s dir ns (in_dir e 1536 dir n)
  unfolding occurrences
  Apart-absent n [] short shorts h = tt
  Apart-absent n (m ∷ ns) short shorts h =
      let differ : str_eq n m ≡ false = ground arith in
      (
        path-apart n m short shorts.0 (λ same. ground (arith, (str_eq_iff n m).1 same)),
        Apart-absent n ns short shorts.1 (omega (arith, h)),
      )

  Distinct-Once : (ns : List Text) → Short ns → Once ns → Distinct e p s dir ns
  unfolding occurrences
  Distinct-Once [] shorts once = tt
  Distinct-Once (n ∷ ns) shorts once =
      let here : str_eq n n ≡ true = str_eq_refl n in
      let absent : occurrences n ns ≡ 0 = ground (arith, once n) in
      (
        Apart-absent n ns shorts.0 shorts.1 absent,
        Distinct-Once ns shorts.1 (λ x. omega (arith, once x)),
      )

  stored_bytes-texts :
      (w : World) (ns : List Text) → Short ns → stored_bytes e w dir ns ≡ texts_of e s w ns
  unfolding stored_bytes
  stored_bytes-texts w [] shorts = refl
  stored_bytes-texts w (n ∷ ns) shorts =
      rw
        (
          read_at-text e (in_dir e 1536 dir n) w,
          path-file n shorts.0,
          stored_bytes-texts w ns shorts.1,
        )
        refl

  gone-files :
      (v : World) (ns : List Text)
      → Short ns
      → All (λ n. v.files (in_dir e 1536 dir n) ≡ none) ns
      → All (λ n. v.files (file_of e s n) ≡ none) ns
  gone-files v [] shorts h = tt
  gone-files v (n ∷ ns) shorts h =
      (sym (ap v.files (path-file n shorts.0)) ∙ h.0, gone-files v ns shorts.1 h.1)

  Apart-files :
      (q : Text) (ns : List Text)
      → Short ns
      → All (λ n. file_of e s n ≢ q) ns
      → Apart e p s dir ns q
  Apart-files q [] shorts h = tt
  Apart-files q (n ∷ ns) shorts h = (
    elim (Bool-cases (str_eq (in_dir e 1536 dir n) q)) [
      | inr no' ↦ no'
      | inl same ↦
          absurd (h.0 (sym (path-file n shorts.0) ∙ (str_eq_iff (in_dir e 1536 dir n) q).0 same))
    ],
    Apart-files q ns shorts.1 h.1,
  )

  collected : (w : World) → Short (listed_in w) → Collected 256 (listed_in w) (names_of e p s w)
  collected w shorts =
      rw (dir-inbox) (
        sort_names-Collected 256 (listed_in w) _ (offline_names-Collected 256 (listed_in w) shorts))

  -- Where the names in the directory of offline messages are shorter than 64 bytes and stand there
  -- once, and its path is shorter than 1280, a delivery ends. It takes the names that do not begin
  -- with a dot and end in ".xml" behind something else, all of them or 256 where there are more,
  -- in the order of strcmp. Their documents went out in that order, behind all that the session
  -- sent before, as far as the files can be read; their files are gone, and every other file is as
  -- before.
  pub message_deliver_offline-Emptied :
      (w : World)
      → w.heap p ≡ some s
      → length s.write_buf ≤ s.write_cap
      → Short (listed_in w)
      → Once (listed_in w)
      → Ends (Emptied (stream_of w s) w) (message_deliver_offline e p w)
  message_deliver_offline-Emptied w live room shorts once =
      let names = names_of e p s w in
      let h = collected w shorts in
      Ends-weaken (Delivered e p s (stream_of w s) dir names w) (Emptied (stream_of w s) w)
        (message_deliver_offline e p w)
        (message_deliver_offline-Delivered e p s w live room
          (Distinct-Once names h.short (λ x. omega (arith, h.listed x, once x))))
        (λ v d. record {
          names = names;
          sorted = (sort_names-Sorted _).0;
          messages = h.messages;
          listed = h.listed;
          all_or_full = h.all_or_full;
          sent =
              subst (λ t. HasSent p s (stream_of w s ++ t) v) (stored_bytes-texts w names h.short)
                d.sent;
          gone = gone-files v names h.short d.gone;
          others = λ q a. d.others q (Apart-files q names h.short a);
        })
