-- ===== src/Base/Strings.antt =====
-- C strings: strcmp, strchr, and snprintf("%s") into a buffer of a given size.
use Prim.Native.Char.{code}
use Prim.Native.String.{String}
use Prim.Native.Nat.{ℕ, zero, suc, ◌-◌, ◌<◌}
use mathlib.Core.Path.{◌≡◌, refl}
use mathlib.Core.Logic.{◌↔◌}
use mathlib.Core.Bool.{Bool, true, false, ◌&&◌}
use mathlib.Core.Option.{Option, none, some}
use mathlib.Core.Option
use mathlib.Core.List.{List, [], ◌∷◌}
use native.Mathlib.Omega.{arith}
use jabber.Base.Tests.{◌==◌, if◌then◌else◌}
use jabber.Base.Lists.{take, length}

-- The bytes before the terminator.
abbrev pub Text : Type 0
Text = List ℕ

-- The bytes of an ASCII literal.
abbrev pub codes : String → Text
codes String.[] = []
codes (String.◌∷◌ c s) = code c ∷ codes s

-- strcmp(a, b) == 0
unfoldable pub str_eq : Text → Text → Bool
str_eq [] [] = true
str_eq [] (b ∷ bs) = false
str_eq (a ∷ as') [] = false
str_eq (a ∷ as') (b ∷ bs) = (a == b) && str_eq as' bs

-- strchr(s, c) - s
unfoldable pub index_of : ℕ → Text → Option ℕ
index_of c [] = none
index_of c (x ∷ xs) = if x == c then some 0 else Option.map suc (index_of c xs)

-- snprintf(buf, size, "%s", s): what the buffer holds afterwards.
unfoldable pub snprintf_s : ℕ → Text → Text
snprintf_s size s = take (size - 1) s

-- The C string that starts a block of bytes: up to the first NUL.
unfoldable pub c_string : List ℕ → Text
c_string [] = []
c_string (x ∷ xs) = if x == 0 then [] else x ∷ c_string xs

pub str_eq_refl : (a : Text) → str_eq a a ≡ true
unfolding str_eq
str_eq_refl [] = refl
str_eq_refl (x ∷ xs) = ground (arith, str_eq_refl xs)

str_eq_sound : (a b : Text) → str_eq a b ≡ true → a ≡ b
unfolding str_eq
str_eq_sound [] [] h = refl
str_eq_sound [] (b ∷ bs) h = cc
str_eq_sound (a ∷ as') [] h = cc
str_eq_sound (a ∷ as') (b ∷ bs) h = ground (arith, str_eq_sound as' bs)

pub str_eq_iff : (a b : Text) → (str_eq a b ≡ true) ↔ (a ≡ b)
str_eq_iff a b = (str_eq_sound a b, λ e. rw e (str_eq_refl b))

-- What strchr finds lies in the string.
pub index_of-lt : (c : ℕ) (s : Text) (i : ℕ) → index_of c s ≡ some i → i < length s
unfolding index_of
index_of-lt c [] i h = cc
index_of-lt c (x ∷ xs) zero h = omega arith
index_of-lt c (x ∷ xs) (suc i) h = ground (arith, index_of-lt c xs i)
