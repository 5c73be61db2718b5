-- ===== src/Base64/RoundTrip.antt =====
-- Decoding what the reference encoder wrote.
use jabber.Base.{
  ℕ, ◌+◌, ◌*◌, ◌/◌, ◌%◌, ◌^◌, ◌≤◌, ◌<◌, ◌≡◌, refl, ap, ◌∙◌, true, some, List, [], ◌∷◌, All, length,
  arith,
}
use jabber.Base64.{b64_valid, triple, emit, quads, decode_clean, base64_decode}
use jabber.Base64.Encode.{
  b64_char, encode, b64_char_table, b64_char_valid, b64_char_pad, length-encode,
}
use jabber.Base64.Bounds.{valid_bytes, decode-valid_bytes}

abbrev pub IsByte : ℕ → Type 0
IsByte x = x < 256

pad_valid : b64_valid b'=' ≡ true
unfolding b64_valid
pad_valid = refl

valid_bytes-encode : (xs : List ℕ) → All IsByte xs → valid_bytes (encode xs) ≡ encode xs
unfolding encode valid_bytes
valid_bytes-encode [] h = refl
valid_bytes-encode (x ∷ []) h =
    ground (arith, b64_char_valid (x / 4), b64_char_valid (x % 4 * 16), pad_valid)
valid_bytes-encode (x ∷ y ∷ []) h = ground (
  arith,
  b64_char_valid (x / 4),
  b64_char_valid (x % 4 * 16 + y / 16),
  b64_char_valid (y % 16 * 4),
  pad_valid,
)
valid_bytes-encode (x ∷ y ∷ z ∷ xs) h = ground (
  arith,
  b64_char_valid (x / 4),
  b64_char_valid (x % 4 * 16 + y / 16),
  b64_char_valid (y % 16 * 4 + z / 64),
  b64_char_valid (z % 64),
  valid_bytes-encode xs,
)

-- The value of a group of four characters, and of the two that are padded.
module _ (a b c d : ℕ) (ha : a < 64) (hb : b < 64) (hc : c < 64) (hd : d < 64) where
  triple_full :
      triple (b64_char a) (b64_char b) (b64_char c) (b64_char d)
      ≡ a * 2 ^ 18 + b * 2 ^ 12 + c * 2 ^ 6 + d
  unfolding triple
  triple_full = rw (
    b64_char_pad c hc,
    b64_char_pad d hd,
    b64_char_table a ha,
    b64_char_table b hb,
    b64_char_table c hc,
    b64_char_table d hd,
  )

  triple_two :
      triple (b64_char a) (b64_char b) (b64_char c) b'=' ≡ a * 2 ^ 18 + b * 2 ^ 12 + c * 2 ^ 6 + 0
  unfolding triple
  triple_two = rw (b64_char_pad c hc, b64_char_table a ha, b64_char_table b hb, b64_char_table c hc)

  triple_one : triple (b64_char a) (b64_char b) b'=' b'=' ≡ a * 2 ^ 18 + b * 2 ^ 12 + 0 * 2 ^ 6 + 0
  unfolding triple
  triple_one = rw (b64_char_table a ha, b64_char_table b hb)

-- The three bytes of a 24-bit number.
abbrev FieldsOf : ℕ → ℕ → ℕ → ℕ → Type 0
FieldsOf x y z t = (t / 2 ^ 16 % 256 ≡ x) × (t / 2 ^ 8 % 256 ≡ y) × (t % 256 ≡ z)

bytes_of_three :
    (x y z t : ℕ)
    → x < 256
    → y < 256
    → z < 256
    → t ≡ x / 4 * 2 ^ 18 + (x % 4 * 16 + y / 16) * 2 ^ 12 + (y % 16 * 4 + z / 64) * 2 ^ 6 + z % 64
    → FieldsOf x y z t
bytes_of_three x y z t hx hy hz e =
    let whole : t ≡ x * 65536 + y * 256 + z = omega arith in
    (omega (arith, whole), omega (arith, whole), omega (arith, whole))

module _ (x y z : ℕ) (hx : x < 256) (hy : y < 256) (hz : z < 256) where
  group_three :
      (rest : List ℕ)
      → emit
          (triple
            (b64_char (x / 4))
            (b64_char (x % 4 * 16 + y / 16))
            (b64_char (y % 16 * 4 + z / 64))
            (b64_char (z % 64)))
          (b64_char (y % 16 * 4 + z / 64))
          (b64_char (z % 64))
          rest
        ≡ x ∷ y ∷ z ∷ rest
  unfolding emit
  group_three rest =
      rw
        (
          b64_char_pad (y % 16 * 4 + z / 64) (omega arith),
          b64_char_pad (z % 64) (omega arith),
          triple_full (x / 4) (x % 4 * 16 + y / 16) (y % 16 * 4 + z / 64) (z % 64) (omega arith)
              (omega arith) (omega arith) (omega arith),
        )
        (let b : FieldsOf x y z _ = bytes_of_three x y z _ hx hy hz refl in cc (b.0, b.1, b.2))

  group_two :
      emit
        (triple (b64_char (x / 4)) (b64_char (x % 4 * 16 + y / 16)) (b64_char (y % 16 * 4)) b'=')
        (b64_char (y % 16 * 4))
        b'='
        []
      ≡ x ∷ y ∷ []
  unfolding emit
  group_two =
      rw
        (
          b64_char_pad (y % 16 * 4) (omega arith),
          triple_two (x / 4) (x % 4 * 16 + y / 16) (y % 16 * 4) 0 (omega arith) (omega arith)
              (omega arith) (omega arith),
        )
        (ground arith)

  group_one :
      emit (triple (b64_char (x / 4)) (b64_char (x % 4 * 16)) b'=' b'=') b'=' b'=' [] ≡ x ∷ []
  unfolding emit
  group_one =
      rw
        (triple_one (x / 4) (x % 4 * 16) 0 0 (omega arith) (omega arith) (omega arith)
          (omega arith))
        (ground arith)

quads-encode : (xs : List ℕ) → All IsByte xs → quads (encode xs) ≡ xs
unfolding quads encode
quads-encode [] h = refl
quads-encode (x ∷ []) h = group_one x 0 0 h.0 (omega arith) (omega arith)
quads-encode (x ∷ y ∷ []) h = group_two x y 0 h.0 h.1.0 (omega arith)
quads-encode (x ∷ y ∷ z ∷ xs) h =
    group_three x y z h.0 h.1.0 h.1.1.0 (quads (encode xs))
    ∙ ap (λ r. x ∷ y ∷ z ∷ r) (quads-encode xs h.1.1.1)

-- The decoder gives back any bytes, up to 3072 of them, from their RFC 4648 encoding.
pub base64_decode-encode :
    (xs : List ℕ) → All IsByte xs → length xs ≤ 3072 → base64_decode (encode xs) ≡ some xs
unfolding decode_clean
base64_decode-encode xs h k =
    rw (decode-valid_bytes (encode xs), valid_bytes-encode xs h)
      (ground (arith, length-encode xs, quads-encode xs))
