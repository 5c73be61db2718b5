-- ===== src/Base64/Alphabet.antt =====
-- The alphabet of RFC 4648, written out, and the test of c/src/util.c for its bytes.
use jabber.Base.{
  ℕ, zero, suc, ◌<◌, ◌≤◌, ◌≡◌, refl, ◌∙◌, sym, Bool, true, false, ◌&&◌, List, [], ◌∷◌, Text, codes,
  All, ltb, ◌==◌, if◌then◌else◌, arith, Bool-cases, inl, inr,
}
use jabber.Base64.{b64_valid}

-- The 64 characters and the padding.
abbrev pub alphabet : Text
alphabet = codes "ABCDEFGHIJKLMNOPQRSTUVWXYZabcdefghijklmnopqrstuvwxyz0123456789+/="

unfoldable pub stands_in : ℕ → Text → Bool
stands_in c [] = false
stands_in c (a ∷ as') = if a == c then true else stands_in c as'

-- The bytes of a text that stand in the alphabet, in order.
unfoldable pub alphabet_bytes : List ℕ → List ℕ
unfolding stands_in
alphabet_bytes [] = []
alphabet_bytes (c ∷ cs) = if stands_in c alphabet then c ∷ alphabet_bytes cs else alphabet_bytes cs

-- Two tests that agree on all numbers below a bound.
unfoldable agree_below : (ℕ → Bool) → (ℕ → Bool) → ℕ → Bool
agree_below f g zero = true
agree_below f g (suc n) = elim (f n) [
  | true ↦ g n && agree_below f g n
  | false ↦ elim (g n) [ true ↦ false | false ↦ agree_below f g n ]
]

agree_below-lt : (f g : ℕ → Bool) (n c : ℕ) → agree_below f g n ≡ true → c < n → f c ≡ g c
unfolding agree_below
agree_below-lt f g zero c h lt = absurd (omega arith)
agree_below-lt f g (suc n) c h lt = elim (Bool-cases (c == n)) [
  | inl same ↦ let e : c ≡ n = ground arith in rw e (ground arith)
  | inr other ↦ agree_below-lt f g n c (ground arith) (ground arith)
]

above-stands_in : (c : ℕ) (s : Text) → All (λ a. a < 123) s → 123 ≤ c → stands_in c s ≡ false
unfolding stands_in
above-stands_in c [] small big = refl
above-stands_in c (a ∷ as') small big = ground (arith, above-stands_in c as' small.1 big, small.0)

above-b64_valid : (c : ℕ) → 123 ≤ c → b64_valid c ≡ false
unfolding b64_valid
above-b64_valid c big = ground arith

tested : agree_below b64_valid (λ c. stands_in c alphabet) 123 ≡ true
unfolding agree_below b64_valid stands_in
tested = refl

small_alphabet : All (λ a. a < 123) alphabet
small_alphabet = ground arith

-- The test is for the alphabet.
pub b64_valid-stands_in : (c : ℕ) → b64_valid c ≡ stands_in c alphabet
b64_valid-stands_in c = elim (Bool-cases (ltb c 123)) [
  | inl small ↦ agree_below-lt b64_valid (λ d. stands_in d alphabet) 123 c tested (ground arith)
  | inr big ↦
      above-b64_valid c (ground arith)
      ∙ sym (above-stands_in c alphabet small_alphabet (ground arith))
]
