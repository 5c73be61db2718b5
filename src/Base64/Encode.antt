-- ===== src/Base64/Encode.antt =====
-- The encoder of RFC 4648, which the clients run: the reference for the decoder.
use jabber.Base.{
  ℕ, ◌+◌, ◌-◌, ◌*◌, ◌/◌, ◌%◌, ◌<◌, ◌≡◌, true, false, List, [], ◌∷◌, ltb, ◌==◌, if◌then◌else◌, arith,
  refl, length,
}
use jabber.Base64.{b64_table, b64_valid}

-- The 64 characters.
unfoldable pub b64_char : ℕ → ℕ
b64_char n =
    if ltb n 26
    then b'A' + n
    else if ltb n 52
    then b'a' + (n - 26)
    else if ltb n 62
    then b'0' + (n - 52)
    else if n == 62
    then b'+'
    else b'/'

unfoldable pub encode : List ℕ → List ℕ
encode [] = []
encode (x ∷ []) = b64_char (x / 4) ∷ b64_char (x % 4 * 16) ∷ b'=' ∷ b'=' ∷ []
encode (x ∷ y ∷ []) =
    b64_char (x / 4) ∷ b64_char (x % 4 * 16 + y / 16) ∷ b64_char (y % 16 * 4) ∷ b'=' ∷ []
encode (x ∷ y ∷ z ∷ xs) =
    b64_char (x / 4)
    ∷ b64_char (x % 4 * 16 + y / 16)
    ∷ b64_char (y % 16 * 4 + z / 64)
    ∷ b64_char (z % 64)
    ∷ encode xs

-- The decoder's table inverts the characters, which are valid and not the padding.
pub b64_char_table : (n : ℕ) → n < 64 → b64_table (b64_char n) ≡ n
unfolding b64_char b64_table
b64_char_table n h = ground arith

pub b64_char_valid : (n : ℕ) → n < 64 → b64_valid (b64_char n) ≡ true
unfolding b64_char b64_valid
b64_char_valid n h = ground arith

pub b64_char_pad : (n : ℕ) → n < 64 → (b64_char n == b'=') ≡ false
unfolding b64_char
b64_char_pad n h = ground arith

pub length-encode : (xs : List ℕ) → length (encode xs) ≡ (length xs + 2) / 3 * 4
unfolding encode
length-encode [] = refl
length-encode (x ∷ []) = refl
length-encode (x ∷ y ∷ []) = refl
length-encode (x ∷ y ∷ z ∷ xs) = omega (arith, length-encode xs)
