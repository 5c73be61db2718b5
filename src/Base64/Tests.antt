-- ===== src/Base64/Tests.antt =====
-- Runs of the decoder.
use jabber.Base.{
  ◌≡◌, ◌≢◌, ◌↔◌, ◌⊎◌, ◌<◌, ◌%◌, ◌≤◌, refl, codes, length, some, none, List, ℕ, [], ◌∷◌, arith,
}
use jabber.Base64.Alphabet.{alphabet_bytes}
use jabber.Base64.Encode.{encode}
use jabber.Base64.Bounds.{base64_decode_lem, length-base64_decode}
use jabber.Base64.RoundTrip.{base64_decode-encode}
use jabber.Base64.{base64_decode, strip, b64_valid, decode_clean, quads, triple, emit, b64_table}

padded :
    base64_decode (codes "AGJvYgBiYXI=")
    ≡ some (0 ∷ b'b' ∷ b'o' ∷ b'b' ∷ 0 ∷ b'b' ∷ b'a' ∷ b'r' ∷ [])
unfolding base64_decode strip b64_valid decode_clean quads triple emit b64_table
padded = refl

odd_length : base64_decode (codes "abc") ≡ none
unfolding base64_decode strip b64_valid decode_clean quads triple emit b64_table
odd_length = refl

abbrev bytes : List ℕ
bytes = 0 ∷ 255 ∷ 7 ∷ 200 ∷ []

base64_decode-encode_example : base64_decode (encode bytes) ≡ some bytes
base64_decode-encode_example = base64_decode-encode bytes (ground arith) (omega arith)

base64_decode_example :
    ((base64_decode (codes "Y Q = =") ≡ none) ↔ (
      (4096 < length (alphabet_bytes (codes "Y Q = =")))
      ⊎ (length (alphabet_bytes (codes "Y Q = =")) % 4 ≢ 0)))
    × (base64_decode (codes "Y Q = =") ≡ base64_decode (alphabet_bytes (codes "Y Q = =")))
base64_decode_example = base64_decode_lem (codes "Y Q = =")

length-base64_decode_example : length (codes "a") ≤ 3072
unfolding base64_decode strip b64_valid decode_clean quads triple emit b64_table
length-base64_decode_example = length-base64_decode (codes "YQ==") refl
