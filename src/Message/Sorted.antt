-- ===== src/Message/Sorted.antt =====
-- The exchange sort of `message_deliver_offline`, c/src/message.c, sorts.
use jabber.Base.{
  ℕ, zero, suc, ◌+◌, ◌≤◌, ◌≡◌, refl, true, false, List, [], ◌∷◌, Text, All, str_eq, if◌then◌else◌,
  arith, Bool-cases, inl, inr, if_both,
}
use jabber.Message.Order.{str_gt, exchange, sort_rounds, count, sort_names}

abbrev pub Le : Text → Text → Type 0
Le a b = str_gt a b ≡ false

Le-refl : (a : Text) → Le a a
unfolding str_gt
Le-refl [] = refl
Le-refl (x ∷ a) = ground (arith, Le-refl a)

Le-trans : (a b c : Text) → Le a b → Le b c → Le a c
unfolding str_gt
Le-trans [] b c h k = refl
Le-trans (x ∷ a) [] c h k = ground arith
Le-trans (x ∷ a) (y ∷ b) [] h k = ground arith
Le-trans (x ∷ a) (y ∷ b) (z ∷ c) h k = ground (arith, Le-trans a b c)

Le-total : (a b : Text) → str_gt a b ≡ true → Le b a
unfolding str_gt
Le-total [] b h = ground arith
Le-total (x ∷ a) [] h = refl
Le-total (x ∷ a) (y ∷ b) h = ground (arith, Le-total a b)

-- The names are in order.
abbrev pub Sorted : List Text → Type 0
Sorted [] = Unit
Sorted (n ∷ ns) = All (Le n) ns × Sorted ns

-- How often a name stands in a list.
unfoldable pub occurrences : Text → List Text → ℕ
occurrences x [] = 0
occurrences x (n ∷ ns) = (if str_eq x n then 1 else 0) + occurrences x ns

abbrev smaller : Text → Text → Text
smaller held n = if str_gt held n then n else held

abbrev larger : Text → Text → Text
larger held n = if str_gt held n then held else n

smaller-Le : (held n : Text) → Le (smaller held n) held × Le (smaller held n) (larger held n)
smaller-Le held n = elim (Bool-cases (str_gt held n)) [
  | inl gt ↦ rw gt (Le-total held n gt, Le-total held n gt)
  | inr le ↦ rw le (Le-refl held, le)
]

smaller-either :
    (P : Text → Type 0) (held n : Text) → P held → P n → P (smaller held n) × P (larger held n)
smaller-either P held n h k =
    (if_both P (str_gt held n) n held k h, if_both P (str_gt held n) held n h k)

exchange-Le :
    (held : Text) (ns : List Text)
    → Le (exchange held ns).0 held × All (Le (exchange held ns).0) (exchange held ns).1
unfolding exchange
exchange-Le held [] = (Le-refl held, tt)
exchange-Le held (n ∷ ns) =
    let ih = exchange-Le (smaller held n) ns in
    (
      Le-trans _ (smaller held n) held ih.0 (smaller-Le held n).0,
      (Le-trans _ (smaller held n) (larger held n) ih.0 (smaller-Le held n).1, ih.1),
    )

exchange-All :
    (P : Text → Type 0) (held : Text) (ns : List Text)
    → P held
    → All P ns
    → P (exchange held ns).0 × All P (exchange held ns).1
unfolding exchange
exchange-All P held [] h k = (h, tt)
exchange-All P held (n ∷ ns) h k =
    let either = smaller-either P held n h k.0 in
    let ih = exchange-All P (smaller held n) ns either.0 k.1 in (ih.0, (either.1, ih.1))

smaller-occurrences :
    (x held n : Text) (ns : List Text)
    → occurrences x (smaller held n ∷ larger held n ∷ ns) ≡ occurrences x (held ∷ n ∷ ns)
unfolding occurrences
smaller-occurrences x held n ns = elim (Bool-cases (str_gt held n)) [
  | inl gt ↦ rw gt (omega arith)
  | inr le ↦ rw le refl
]

exchange-occurrences :
    (x held : Text) (ns : List Text)
    → occurrences x ((exchange held ns).0 ∷ (exchange held ns).1) ≡ occurrences x (held ∷ ns)
unfolding exchange occurrences
exchange-occurrences x held [] = refl
exchange-occurrences x held (n ∷ ns) =
    omega (arith, exchange-occurrences x (smaller held n) ns, smaller-occurrences x held n ns)

pub sort_rounds-All :
    (P : Text → Type 0) (k : ℕ) (ns : List Text) → All P ns → All P (sort_rounds k ns)
unfolding sort_rounds
sort_rounds-All P zero ns h = h
sort_rounds-All P (suc k) [] h = tt
sort_rounds-All P (suc k) (n ∷ ns) h =
    let e = exchange-All P n ns h.0 h.1 in (e.0, sort_rounds-All P k _ e.1)

sort_rounds-occurrences :
    (x : Text) (k : ℕ) (ns : List Text) → occurrences x (sort_rounds k ns) ≡ occurrences x ns
unfolding sort_rounds occurrences
sort_rounds-occurrences x zero ns = refl
sort_rounds-occurrences x (suc k) [] = refl
sort_rounds-occurrences x (suc k) (n ∷ ns) =
    omega (arith, exchange-occurrences x n ns, sort_rounds-occurrences x k (exchange n ns).1)

count-exchange : (held : Text) (ns : List Text) → count (exchange held ns).1 ≡ count ns
unfolding exchange
count-exchange held [] = refl
count-exchange held (n ∷ ns) = omega (arith, count-exchange (if str_gt held n then n else held) ns)

pub sort_rounds-count : (k : ℕ) (ns : List Text) → count (sort_rounds k ns) ≡ count ns
unfolding sort_rounds
sort_rounds-count zero ns = refl
sort_rounds-count (suc k) [] = refl
sort_rounds-count (suc k) (n ∷ ns) =
    omega (arith, count-exchange n ns, sort_rounds-count k (exchange n ns).1)

sort_rounds-Sorted : (k : ℕ) (ns : List Text) → count ns ≤ k → Sorted (sort_rounds k ns)
unfolding sort_rounds
sort_rounds-Sorted zero [] h = tt
sort_rounds-Sorted zero (n ∷ ns) h = absurd (omega arith)
sort_rounds-Sorted (suc k) [] h = tt
sort_rounds-Sorted (suc k) (n ∷ ns) h = (
  sort_rounds-All (Le (exchange n ns).0) k (exchange n ns).1 (exchange-Le n ns).1,
  sort_rounds-Sorted k (exchange n ns).1 (omega (arith, count-exchange n ns)),
)

-- The sort of the names of offline messages puts them in the order of strcmp, and keeps every
-- name as often as it stands in the directory's list.
pub sort_names-Sorted :
    (ns : List Text)
    → Sorted (sort_names ns) × ((x : Text) → occurrences x (sort_names ns) ≡ occurrences x ns)
unfolding sort_names
sort_names-Sorted ns =
    (sort_rounds-Sorted (count ns) ns (omega arith), λ x. sort_rounds-occurrences x (count ns) ns)
