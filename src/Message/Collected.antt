-- ===== src/Message/Collected.antt =====
-- Which names `message_deliver_offline`, c/src/message.c, collects from a directory.
use jabber.Base.{
  ℕ, zero, suc, ◌+◌, ◌-◌, ◌≤◌, ◌<◌, ◌≡◌, ◌≢◌, ◌⊎◌, refl, sym, ap, ◌∙◌, Bool, true, false, not, ◌||◌,
  List, [], ◌∷◌, ◌++◌, Text, All, codes, str_eq, str_eq_iff, snprintf_s, length, length-append,
  take, drop, take-all, drop-append_length, ◌==◌, arith, Bool-cases, inl, inr,
}
use mathlib.Core.Path.{subst₂}
use jabber.User.{is_hidden}
use jabber.Message.{is_xml_name, offline_names}
use jabber.Message.Order.{count, sort_names}
use jabber.Message.Sorted.{occurrences, sort_names-Sorted, sort_rounds-All, sort_rounds-count}

-- The name of a message: it ends in ".xml", something stands before that, and it does not begin
-- with a dot.
abbrev pub IsMessage : Text → Type 0
IsMessage n = (c : ℕ) × (stem : Text) × (n ≡ c ∷ (stem ++ codes ".xml")) × (c ≢ b'.')

abbrev passed_over : Text → Bool
passed_over n = is_hidden n || not (is_xml_name n)

take-drop : (k : ℕ) (xs : Text) → take k xs ++ drop k xs ≡ xs
take-drop zero xs = refl
take-drop (suc k) [] = refl
take-drop (suc k) (x ∷ xs) = ap (◌∷◌ x) (take-drop k xs)

pub collected-IsMessage : (n : Text) → passed_over n ≡ false → IsMessage n
unfolding is_hidden is_xml_name
collected-IsMessage [] h = absurd (ground arith)
collected-IsMessage (c ∷ cs) h =
    let long : 4 ≤ length cs = ground arith in
    let cut : (suc (length cs) - 4) ≡ suc (length cs - 4) = omega arith in
    let ends : drop (suc (length cs) - 4) (c ∷ cs) ≡ codes ".xml" =
      (str_eq_iff (drop (suc (length cs) - 4) (c ∷ cs)) (codes ".xml")).0 (ground arith) in
    let end : drop (length cs - 4) cs ≡ codes ".xml" = sym (ap (λ k. drop k (c ∷ cs)) cut) ∙ ends in
    (
      c,
      take (length cs - 4) cs,
      ap (◌∷◌ c) (sym (take-drop (length cs - 4) cs) ∙ ap (λ t. take (length cs - 4) cs ++ t) end),
      ground arith,
    )

message_shape : (c : ℕ) (stem : Text) → c ≢ b'.' → passed_over (c ∷ (stem ++ codes ".xml")) ≡ false
unfolding is_hidden is_xml_name
message_shape c stem no_dot =
    let long : length (stem ++ codes ".xml") ≡ length stem + 4 =
      length-append stem (codes ".xml") in
    let cut : suc (length (stem ++ codes ".xml")) - 4 ≡ suc (length stem) = omega (arith, long) in
    let ends : drop (suc (length (stem ++ codes ".xml")) - 4) (c ∷ (stem ++ codes ".xml"))
        ≡ codes ".xml" =
      ap (λ k. drop k (c ∷ (stem ++ codes ".xml"))) cut ∙ drop-append_length stem (codes ".xml") in
    ground (
      arith,
      long,
      (str_eq_iff (drop (suc (length (stem ++ codes ".xml")) - 4) (c ∷ (stem ++ codes ".xml")))
            (codes ".xml")).1
          ends,
    )

IsMessage-collected : (n : Text) → IsMessage n → passed_over n ≡ false
IsMessage-collected n (c, stem, e, no_dot) = ap passed_over e ∙ message_shape c stem no_dot

-- The names are those of messages; either all that are listed, each as often, or as many as there
-- is room for.
pub record Collected (room : ℕ) (names ns : List Text) : Type 0 where
  pub messages : All IsMessage ns
  pub short : All (λ n. length n < 64) ns
  pub listed : (x : Text) → occurrences x ns ≤ occurrences x names
  pub all_or_full :
      ((x : Text) → IsMessage x → occurrences x ns ≡ occurrences x names) ⊎ (count ns ≡ room)

skip_one :
    (room : ℕ) (n : Text) (names ns : List Text)
    → passed_over n ≡ true
    → Collected room names ns
    → Collected room (n ∷ names) ns
unfolding occurrences
skip_one room n names ns over h = record {
  messages = h.messages;
  short = h.short;
  listed = λ x. omega (arith, h.listed x);
  all_or_full = elim h.all_or_full [
    | inr full ↦ inr full
    | inl same ↦ inl (λ x m. elim (Bool-cases (str_eq x n)) [
      | inl is ↦
          let e : x ≡ n = (str_eq_iff x n).0 is in
          absurd (ground (arith, ap passed_over e, IsMessage-collected x m))
      | inr no' ↦ rw no' (omega (arith, same x m))
    ])
  ];
}

take_one :
    (room : ℕ) (n : Text) (names ns : List Text)
    → passed_over n ≡ false
    → length n < 64
    → Collected room names ns
    → Collected (room + 1) (n ∷ names) (n ∷ ns)
unfolding occurrences
take_one room n names ns found short h = record {
  messages = (collected-IsMessage n found, h.messages);
  short = (short, h.short);
  listed = λ x. omega (arith, h.listed x);
  all_or_full = elim h.all_or_full [
    | inr full ↦ inr (omega arith)
    | inl same ↦ inl (λ x m. omega (arith, same x m))
  ];
}

pub offline_names-Collected :
    (room : ℕ) (names : List Text)
    → All (λ n. length n < 64) names
    → Collected room names (offline_names room names)
unfolding offline_names snprintf_s occurrences
offline_names-Collected room [] short = record {
  messages = tt;
  short = tt;
  listed = λ x. omega arith;
  all_or_full = inl (λ x m. refl);
}
offline_names-Collected room (n ∷ names) short = elim (Bool-cases (room == 0)) [
  | inl none' ↦
      rw (none', offline_names)
        (record {
          messages = tt;
          short = tt;
          listed = λ x. omega arith;
          all_or_full = inr (ground arith);
        })
  | inr some' ↦ elim (Bool-cases (passed_over n)) [
    | inl over ↦
        rw (some', over, offline_names)
          (skip_one room n names _ over (offline_names-Collected room names short.1))
    | inr found ↦
        let room_left : room - 1 + 1 ≡ room = ground arith in
        let whole : n ≡ take 63 n = sym (take-all 63 n (omega (arith, short.0))) in
        rw (some', found, offline_names)
          (subst₂ (λ r m. Collected r (n ∷ names) (m ∷ offline_names (room - 1) names)) room_left
            whole
            (take_one (room - 1) n names _ found short.0
              (offline_names-Collected (room - 1) names short.1)))
  ]
]

-- The sort keeps what was collected.
pub sort_names-Collected :
    (room : ℕ) (names ns : List Text)
    → Collected room names ns
    → Collected room names (sort_names ns)
unfolding sort_names
sort_names-Collected room names ns h =
    let same : (x : Text) → occurrences x (sort_names ns) ≡ occurrences x ns =
      (sort_names-Sorted ns).1 in
    record {
      messages = sort_rounds-All IsMessage (count ns) ns h.messages;
      short = sort_rounds-All (λ n. length n < 64) (count ns) ns h.short;
      listed = λ x. omega (arith, same x, h.listed x);
      all_or_full = elim h.all_or_full [
        | inr full ↦ inr (sort_rounds-count (count ns) ns ∙ full)
        | inl all' ↦ inl (λ x m. same x ∙ all' x m)
      ];
    }
