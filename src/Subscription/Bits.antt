-- ===== src/Subscription/Bits.antt =====
-- A subscription state is two bits: presence is received ("to"), and presence is sent ("from").
use jabber.Base.{◌≡◌, refl, Bool, true, false, Text, str_eq, str_eq_iff, if◌then◌else◌, arith}
use jabber.Subscription.{
  transition, none_text, to_text, from_text, both_text, sub_has_to, sub_has_from, grant_from,
  grant_to, revoke_to, revoke_from,
}

-- The text of a state.
unfoldable pub sub_text : Bool → Bool → Text
sub_text to from =
    if to then (if from then both_text else to_text) else (if from then from_text else none_text)

pub sub_has_to-sub_text : (to from : Bool) → sub_has_to (sub_text to from) ≡ to
unfolding sub_has_to sub_text none_text to_text from_text both_text str_eq
sub_has_to-sub_text true true = refl
sub_has_to-sub_text true false = refl
sub_has_to-sub_text false true = refl
sub_has_to-sub_text false false = refl

pub sub_has_from-sub_text : (to from : Bool) → sub_has_from (sub_text to from) ≡ from
unfolding sub_has_from sub_text none_text to_text from_text both_text str_eq
sub_has_from-sub_text true true = refl
sub_has_from-sub_text true false = refl
sub_has_from-sub_text false true = refl
sub_has_from-sub_text false false = refl

-- A text that is one of the four states.
abbrev pub IsSub : Text → Type 0
IsSub s = (to : Bool) × (from : Bool) × (s ≡ sub_text to from)

-- The four transitions set or clear one bit of the state and leave the other.
pub transitions_lem :
    (to from : Bool)
    → (grant_to (sub_text to from) ≡ sub_text true from)
      × (grant_from (sub_text to from) ≡ sub_text to true)
      × (revoke_to (sub_text to from) ≡ sub_text false from)
      × (revoke_from (sub_text to from) ≡ sub_text to false)
unfolding grant_to grant_from revoke_to revoke_from sub_text none_text to_text from_text both_text
    str_eq
transitions_lem true true = (refl, refl, refl, refl)
transitions_lem true false = (refl, refl, refl, refl)
transitions_lem false true = (refl, refl, refl, refl)
transitions_lem false false = (refl, refl, refl, refl)

-- Each transition sets or clears the one bit that it is about, for every text that is one of the
-- four states, and the other bit keeps its value.
pub grant_revoke_bits :
    (s : Text)
    → IsSub s
    → (sub_has_to (grant_to s) ≡ true)
      × (sub_has_from (grant_to s) ≡ sub_has_from s)
      × (sub_has_from (grant_from s) ≡ true)
      × (sub_has_to (grant_from s) ≡ sub_has_to s)
      × (sub_has_to (revoke_to s) ≡ false)
      × (sub_has_from (revoke_to s) ≡ sub_has_from s)
      × (sub_has_from (revoke_from s) ≡ false)
      × (sub_has_to (revoke_from s) ≡ sub_has_to s)
grant_revoke_bits s (to, from, e) = ground (
  arith,
  transitions_lem to from,
  sub_has_to-sub_text to from,
  sub_has_from-sub_text to from,
  sub_has_to-sub_text true from,
  sub_has_from-sub_text true from,
  sub_has_to-sub_text to true,
  sub_has_from-sub_text to true,
  sub_has_to-sub_text false from,
  sub_has_from-sub_text false from,
  sub_has_to-sub_text to false,
  sub_has_from-sub_text to false,
)

-- What becomes of a text by a change of its two bits, where it is one of the four states.
unfoldable pub with_bits : (Bool → Bool → Text) → Text → Text
with_bits f s =
    if str_eq s none_text
    then f false false
    else if str_eq s to_text
    then f true false
    else if str_eq s from_text
    then f false true
    else if str_eq s both_text
    then f true true
    else s

-- The four texts differ.
apart :
    (str_eq none_text to_text ≡ false)
    × (str_eq none_text from_text ≡ false)
    × (str_eq none_text both_text ≡ false)
    × (str_eq to_text from_text ≡ false)
    × (str_eq to_text both_text ≡ false)
    × (str_eq from_text both_text ≡ false)
unfolding str_eq none_text to_text from_text both_text
apart = (refl, refl, refl, refl, refl, refl)

module _ (s : Text) where
  pub grant_to-with_bits : grant_to s ≡ with_bits (λ to from. sub_text true from) s
  unfolding grant_to with_bits transition sub_text
  grant_to-with_bits = ground (
    arith,
    apart,
    str_eq_iff s none_text,
    str_eq_iff s to_text,
    str_eq_iff s from_text,
    str_eq_iff s both_text,
  )

  pub grant_from-with_bits : grant_from s ≡ with_bits (λ to from. sub_text to true) s
  unfolding grant_from with_bits transition sub_text
  grant_from-with_bits = ground (
    arith,
    apart,
    str_eq_iff s none_text,
    str_eq_iff s to_text,
    str_eq_iff s from_text,
    str_eq_iff s both_text,
  )

  pub revoke_to-with_bits : revoke_to s ≡ with_bits (λ to from. sub_text false from) s
  unfolding revoke_to with_bits transition sub_text
  revoke_to-with_bits = ground (
    arith,
    apart,
    str_eq_iff s none_text,
    str_eq_iff s to_text,
    str_eq_iff s from_text,
    str_eq_iff s both_text,
  )

  pub revoke_from-with_bits : revoke_from s ≡ with_bits (λ to from. sub_text to false) s
  unfolding revoke_from with_bits transition sub_text
  revoke_from-with_bits = ground (
    arith,
    apart,
    str_eq_iff s none_text,
    str_eq_iff s to_text,
    str_eq_iff s from_text,
    str_eq_iff s both_text,
  )

-- What the changed bits are, for one of the four states.
pub with_bits-sub_text :
    (f : Bool → Bool → Text) (to from : Bool) → with_bits f (sub_text to from) ≡ f to from
unfolding with_bits sub_text none_text to_text from_text both_text str_eq
with_bits-sub_text f true true = refl
with_bits-sub_text f true false = refl
with_bits-sub_text f false true = refl
with_bits-sub_text f false false = refl
