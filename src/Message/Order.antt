-- ===== src/Message/Order.antt =====
-- The names of offline messages, c/src/message.c: their numbers, and the exchange sort of
-- `message_deliver_offline`.
use mathlib.Core.Option
use jabber.User.Conf.{skip_spaces}
use jabber.Base.{
  Option, some, none, ℕ, zero, suc, ◌+◌, ◌-◌, ◌*◌, ◌/◌, ◌%◌, Bool, true, false, ◌&&◌, List, [], ◌∷◌,
  Text, ltb, leb, ◌==◌, if◌then◌else◌,
}

-- strcmp(a, b) > 0, on bytes
unfoldable pub str_gt : Text → Text → Bool
str_gt [] bs = false
str_gt (a ∷ as') [] = true
str_gt (a ∷ as') (b ∷ bs) = if a == b then str_gt as' bs else ltb b a

-- The number that the leading digits give.
unfoldable pub atoi_from : ℕ → Text → ℕ
atoi_from n [] = n
atoi_from n (c ∷ cs) = elim (leb b'0' c && leb c b'9') [
  | true ↦ atoi_from (n * 10 + (c - b'0')) cs
  | false ↦ n
]

abbrev pub int_max : ℕ
int_max = 2147483647

unfoldable pub in_int : ℕ → ℕ → Option ℕ
in_int most n = if leb n most then some n else none

-- A sign, then digits: 0 for a negative number, which no maximum is below, and `none` for one that
-- an int does not hold, where C leaves what atoi returns open.
unfoldable pub signed_seq : Text → Option ℕ
unfolding in_int atoi_from
signed_seq [] = some 0
signed_seq (c ∷ cs) =
    if c == b'-'
    then Option.map (λ n. 0) (in_int (int_max + 1) (atoi_from 0 cs))
    else if c == b'+'
    then in_int int_max (atoi_from 0 cs)
    else in_int int_max (atoi_from 0 (c ∷ cs))

-- atoi on a name
unfoldable pub atoi : Text → Option ℕ
unfolding signed_seq skip_spaces
atoi s = signed_seq (skip_spaces s)

-- "%04d": the decimal digits, at least `width` of them; a number below 2 ^ 31 has ten at most.
unfoldable pub digits_of : ℕ → ℕ → ℕ → Text → Text
digits_of zero width n out = out
digits_of (suc fuel) width n out = elim (n == 0 && width == 0) [
  | true ↦ out
  | false ↦ digits_of fuel (width - 1) (n / 10) ((b'0' + n % 10) ∷ out)
]

unfoldable pub decimal : ℕ → ℕ → Text
unfolding digits_of
decimal width n = digits_of 10 width n []

-- The inner loop for `i`: the name at `i` is exchanged with each later one that is smaller.
unfoldable pub exchange : Text → List Text → Text × List Text
unfolding str_gt
exchange held [] = (held, [])
exchange held (n ∷ ns) =
    let (least, rest) = exchange (if str_gt held n then n else held) ns in
    (least, (if str_gt held n then held else n) ∷ rest)

-- The outer loop, for the number of names that are left.
unfoldable pub sort_rounds : ℕ → List Text → List Text
unfolding exchange
sort_rounds zero ns = ns
sort_rounds (suc k) [] = []
sort_rounds (suc k) (n ∷ ns) = let (least, rest) = exchange n ns in least ∷ sort_rounds k rest

abbrev pub count : List Text → ℕ
count [] = 0
count (n ∷ ns) = suc (count ns)

unfoldable pub sort_names : List Text → List Text
unfolding sort_rounds
sort_names ns = sort_rounds (count ns) ns
