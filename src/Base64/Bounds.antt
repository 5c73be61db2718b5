-- ===== src/Base64/Bounds.antt =====
-- When decoding fails, and how long its result is.
use jabber.Base.{
  ℕ, ◌+◌, ◌*◌, ◌%◌, ◌≤◌, ◌<◌, ◌≡◌, ◌≢◌, ◌↔◌, ◌⊎◌, refl, sym, ◌∙◌, Bool-cases, inl, inr, none, some,
  List, [], ◌∷◌, length, leb, if◌then◌else◌, arith,
}
use jabber.Base64.Alphabet.{alphabet, stands_in, alphabet_bytes, b64_valid-stands_in}
use jabber.Base64.{b64_valid, clean_size, strip, triple, emit, quads, decode_clean, base64_decode}

-- The bytes of the alphabet, in order.
unfoldable pub valid_bytes : List ℕ → List ℕ
valid_bytes [] = []
valid_bytes (c ∷ cs) = if b64_valid c then c ∷ valid_bytes cs else valid_bytes cs

strip_lem :
    (clen : ℕ) (cs : List ℕ)
    → clen ≤ clean_size
    → strip clen cs
      ≡ (if leb (clen + length (valid_bytes cs)) clean_size then some (valid_bytes cs) else none)
unfolding strip valid_bytes
strip_lem clen [] h = ground arith
strip_lem clen (c ∷ cs) h = ground (arith, strip_lem clen cs, strip_lem (clen + 1) cs)

pub decode-valid_bytes :
    (cs : List ℕ)
    → base64_decode cs
      ≡ (if leb (length (valid_bytes cs)) clean_size then decode_clean (valid_bytes cs) else none)
unfolding base64_decode
decode-valid_bytes cs = ground (arith, strip_lem 0 cs)

valid_bytes-alphabet : (cs : List ℕ) → valid_bytes cs ≡ alphabet_bytes cs
unfolding valid_bytes alphabet_bytes
valid_bytes-alphabet [] = refl
valid_bytes-alphabet (c ∷ cs) = rw (b64_valid-stands_in c, valid_bytes-alphabet cs) refl

alphabet_bytes-again : (cs : List ℕ) → alphabet_bytes (alphabet_bytes cs) ≡ alphabet_bytes cs
unfolding alphabet_bytes
alphabet_bytes-again [] = refl
alphabet_bytes-again (c ∷ cs) = elim (Bool-cases (stands_in c alphabet)) [
  | inl yes' ↦ rw (yes', alphabet_bytes) (rw (yes', alphabet_bytes-again cs) refl)
  | inr no' ↦ rw no' (alphabet_bytes-again cs)
]

decode-alphabet_bytes :
    (cs : List ℕ)
    → base64_decode cs ≡ (
        if leb (length (alphabet_bytes cs)) clean_size
        then decode_clean (alphabet_bytes cs)
        else none)
decode-alphabet_bytes cs = rw (valid_bytes-alphabet cs) at (decode-valid_bytes cs)

-- Decoding fails exactly when more than 4096 bytes of the text stand in the alphabet of RFC 4648,
-- its padding included, or their number is no multiple of four. The other bytes are skipped,
-- wherever they stand: the text without them is decoded alike.
pub base64_decode_lem :
    (cs : List ℕ)
    → ((base64_decode cs ≡ none)
        ↔ ((4096 < length (alphabet_bytes cs)) ⊎ (length (alphabet_bytes cs) % 4 ≢ 0)))
      × (base64_decode cs ≡ base64_decode (alphabet_bytes cs))
unfolding decode_clean
base64_decode_lem cs = (
  ground (arith, decode-alphabet_bytes cs),
  decode-alphabet_bytes cs
      ∙ sym (rw (alphabet_bytes-again cs) at (decode-alphabet_bytes (alphabet_bytes cs))),
)

length-emit : (t y z : ℕ) (rest : List ℕ) → length (emit t y z rest) ≤ length rest + 3
unfolding emit
length-emit t y z rest = ground arith

length-quads : (cs : List ℕ) → length (quads cs) * 4 ≤ length cs * 3
unfolding quads
length-quads (w ∷ x ∷ y ∷ z ∷ cs) =
    omega (arith, length-quads cs, length-emit (triple w x y z) y z (quads cs))
length-quads _ = omega arith

-- What the decoder gives, if it does not fail, has at most 3072 bytes.
pub length-base64_decode :
    (cs : List ℕ) {out : List ℕ} → base64_decode cs ≡ some out → length out ≤ 3072
unfolding decode_clean
length-base64_decode cs h = ground (arith, decode-valid_bytes cs, length-quads (valid_bytes cs))
