-- ===== src/Base64.antt =====
-- Base64 decoding, c/src/util.c: `b64_table`, `b64_valid` and `base64_decode`.
pub mod Alphabet
pub mod Encode
pub mod Bounds
pub mod RoundTrip
mod Tests
use jabber.Base.{
  ℕ, ◌+◌, ◌-◌, ◌*◌, ◌/◌, ◌%◌, Bool, ◌&&◌, ◌||◌, Option, none, some, List, [], ◌∷◌, length, leb,
  ◌==◌, if◌then◌else◌, ◌^◌, true, false,
}
use mathlib.Core.Option

abbrev between : ℕ → ℕ → ℕ → Bool
between lo hi c = leb lo c && leb c hi

-- Bytes that the table does not name are 0, '=' among them.
unfoldable pub b64_table : ℕ → ℕ
b64_table c =
    if between b'A' b'Z' c
    then c - b'A'
    else if between b'a' b'z' c
    then c - b'a' + 26
    else if between b'0' b'9' c
    then c - b'0' + 52
    else if c == b'+'
    then 62
    else if c == b'/'
    then 63
    else 0

unfoldable pub b64_valid : ℕ → Bool
b64_valid c =
    between b'A' b'Z' c
    || between b'a' b'z' c
    || between b'0' b'9' c
    || c == b'+'
    || c == b'/'
    || c == b'='

abbrev pub clean_size : ℕ
clean_size = 4096

-- The first loop: `clen` bytes are in `clean`.
unfoldable pub strip : ℕ → List ℕ → Option (List ℕ)
strip clen [] = some []
strip clen (c ∷ cs) = elim (b64_valid c) [
  | true ↦ elim (leb clean_size clen) [
    | true ↦ none
    | false ↦ Option.map (◌∷◌ c) (strip (clen + 1) cs)
  ]
  | false ↦ strip clen cs
]

-- The fields of `triple` do not overlap, each table entry being below 64, so that `|` is a sum.
unfoldable pub triple : ℕ → ℕ → ℕ → ℕ → ℕ
triple w x y z =
    b64_table w * 2 ^ 18
    + b64_table x * 2 ^ 12
    + (if y == b'=' then 0 else b64_table y) * 2 ^ 6
    + (if z == b'=' then 0 else b64_table z)

unfoldable pub emit : ℕ → ℕ → ℕ → List ℕ → List ℕ
emit t y z rest =
    (t / 2 ^ 16 % 256)
    ∷ (if y == b'='
        then (if z == b'=' then rest else (t % 256) ∷ rest)
        else (t / 2 ^ 8 % 256) ∷ (if z == b'=' then rest else (t % 256) ∷ rest))

-- The second loop: four bytes at a time.
unfoldable pub quads : List ℕ → List ℕ
quads (w ∷ x ∷ y ∷ z ∷ cs) = emit (triple w x y z) y z (quads cs)
quads _ = []

unfoldable pub decode_clean : List ℕ → Option (List ℕ)
decode_clean clean = if length clean % 4 == 0 then some (quads clean) else none

-- `none` is -1.
unfoldable pub base64_decode : List ℕ → Option (List ℕ)
base64_decode cs = elim (strip 0 cs) [ none ↦ none | some clean ↦ decode_clean clean ]
