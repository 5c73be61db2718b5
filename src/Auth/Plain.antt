-- ===== src/Auth/Plain.antt =====
-- The fields of a SASL PLAIN message, c/src/auth.c: [authzid] NUL authcid NUL passwd.
use jabber.Base.{
  ℕ, ◌≡◌, ◌≢◌, refl, Option, none, some, List, [], ◌∷◌, ◌++◌, Text, c_string, All, ◌==◌,
  if◌then◌else◌, arith,
}

-- `while (i < decoded_len && decoded[i] != '\0') i++; i++;`: what is left from `i` on.
unfoldable pub behind_nul : List ℕ → List ℕ
behind_nul [] = []
behind_nul (x ∷ xs) = if x == 0 then xs else behind_nul xs

-- The password starts at `rest`: nothing is left if `i >= decoded_len`.
unfoldable pub passwd_field : Text → List ℕ → Option (Text × Text)
passwd_field authcid [] = none
passwd_field authcid (x ∷ xs) = some (authcid, c_string (x ∷ xs))

unfoldable pub authcid_field : List ℕ → Option (Text × Text)
authcid_field [] = none
authcid_field (x ∷ xs) = passwd_field (c_string (x ∷ xs)) (behind_nul (x ∷ xs))

-- `decoded` has a NUL behind its last byte.
unfoldable pub plain_fields : List ℕ → Option (Text × Text)
plain_fields decoded = authcid_field (behind_nul decoded)

-- A C string's bytes.
abbrev pub NoNul : Text → Type 0
NoNul s = All (λ x. x ≢ 0) s

behind_nul-append : (s rest : Text) → NoNul s → behind_nul (s ++ 0 ∷ rest) ≡ rest
unfolding behind_nul
behind_nul-append [] rest h = refl
behind_nul-append (x ∷ s) rest h = ground (arith, behind_nul-append s rest h.1)

c_string-append : (s rest : Text) → NoNul s → c_string (s ++ 0 ∷ rest) ≡ s
unfolding c_string
c_string-append [] rest h = refl
c_string-append (x ∷ s) rest h = ground (arith, c_string-append s rest h.1)

pub c_string-NoNul : (s : Text) → NoNul s → c_string s ≡ s
unfolding c_string
c_string-NoNul [] h = refl
c_string-NoNul (x ∷ s) h = ground (arith, c_string-NoNul s h.1)

-- The message that a client builds: an authorisation identity, which may be empty, the name and
-- the password.
abbrev pub plain_message : Text → Text → Text → List ℕ
plain_message authzid authcid passwd = authzid ++ 0 ∷ (authcid ++ 0 ∷ passwd)

passwd_field_lem : (a p : Text) → NoNul p → p ≢ [] → passwd_field a p ≡ some (a, p)
unfolding passwd_field
passwd_field_lem a [] h k = absurd (k refl)
passwd_field_lem a (x ∷ p) h k = rw (c_string-NoNul (x ∷ p) h)

authcid_field_lem :
    (a p : Text) → NoNul a → NoNul p → p ≢ [] → authcid_field (a ++ 0 ∷ p) ≡ some (a, p)
unfolding authcid_field c_string behind_nul
authcid_field_lem [] p ha hp h = passwd_field_lem [] p hp h
authcid_field_lem (x ∷ a) p ha hp h =
    rw (c_string-append (x ∷ a) p ha, behind_nul-append (x ∷ a) p ha)
      (passwd_field_lem (x ∷ a) p hp h)

-- The name and the password of a message are read back and its authorisation identity is passed over,
-- where the three have no NUL and the password is not empty.
pub plain_fields_lem :
    (authzid authcid passwd : Text)
    → NoNul authzid
    → NoNul authcid
    → NoNul passwd
    → passwd ≢ []
    → plain_fields (plain_message authzid authcid passwd) ≡ some (authcid, passwd)
unfolding plain_fields
plain_fields_lem z a p hz ha hp h =
    rw (behind_nul-append z (a ++ 0 ∷ p) hz) (authcid_field_lem a p ha hp h)
