-- ===== src/User/Password.antt =====
-- The password that user.conf is given is the one that it accepts, c/src/user.c.
use jabber.Base.{
  ℕ, ◌-◌, ◌≤◌, ◌<◌, ◌≡◌, ◌≢◌, refl, ap, ◌∙◌, true, false, ◌||◌, some, List, [], ◌∷◌, ◌++◌, Text,
  codes, All, All-append, length, length-append, str_eq, str_eq_refl, index_of, ◌==◌, arith,
}
use mathlib.Core.List.{append_assoc}
use jabber.World.{World, Env, ◌>>=◌, pure, gets, change, update_text}
use jabber.World.Steps.{Runs-bind}
use jabber.Auth.Plain.{NoNul, c_string-NoNul}
use jabber.User.{
  password_line, user_change_password, user_check_password, write_file, put_file, conf_path, joined,
}
use jabber.User.Conf.{
  is_space, next_lines, until_newline, skip_spaces, drop_last_spaces, trim_end, split_setting,
  setting, line_says, scan_lines, conf_matches,
}

-- A byte that neither ends a C string nor a line.
abbrev pub IsInLine : ℕ → Type 0
IsInLine c = (c ≢ 0) × (c ≢ 10) × (c ≢ 13)

abbrev pub StartsPlain : Text → Type 0
StartsPlain [] = Unit
StartsPlain (c ∷ cs) = is_space c ≡ false

abbrev pub EndsPlain : Text → Type 0
EndsPlain [] = Unit
EndsPlain (c ∷ []) = is_space c ≡ false
EndsPlain (c ∷ d ∷ ds) = EndsPlain (d ∷ ds)

-- A password that fits its line and has no space at its start or end.
pub record IsPassword (pw : Text) : Type 0 where
  pub in_line : All IsInLine pw
  pub starts : StartsPlain pw
  pub ends : EndsPlain pw
  pub short : length pw ≤ 1000

next_lines-one :
    (room : ℕ) (line cs : Text)
    → All IsInLine cs
    → length cs < room
    → next_lines room line (cs ++ 10 ∷ []) ≡ (line ++ (cs ++ 10 ∷ [])) ∷ []
unfolding next_lines
next_lines-one room line [] h k = refl
next_lines-one room line (c ∷ cs) h k =
    let on : (c == 10 || room == 1) ≡ false = ground (arith, h.0) in
    rw (on, next_lines)
      (next_lines-one (room - 1) (line ++ c ∷ []) cs h.1 (omega arith)
        ∙ ap (λ l. l ∷ []) (append_assoc line (c ∷ []) (cs ++ 10 ∷ [])))

until_newline-line : (cs : Text) → All IsInLine cs → until_newline (cs ++ 10 ∷ []) ≡ cs
unfolding until_newline
until_newline-line [] h = refl
until_newline-line (c ∷ cs) h = ground (arith, until_newline-line cs h.1)

pub skip_spaces-plain : (cs : Text) → StartsPlain cs → skip_spaces cs ≡ cs
unfolding skip_spaces
skip_spaces-plain [] h = refl
skip_spaces-plain (c ∷ cs) h = rw h refl

drop_last-plain : (cs : Text) → EndsPlain cs → drop_last_spaces cs ≡ cs
unfolding drop_last_spaces
drop_last-plain [] h = refl
drop_last-plain (c ∷ []) h = rw h refl
drop_last-plain (c ∷ d ∷ ds) h = rw (drop_last-plain (d ∷ ds) h) refl

pub trim_end-plain : (cs : Text) → EndsPlain cs → trim_end cs ≡ cs
unfolding trim_end
trim_end-plain [] h = refl
trim_end-plain (c ∷ []) h = refl
trim_end-plain (c ∷ d ∷ ds) h = ap (◌∷◌ c) (drop_last-plain (d ∷ ds) h)

prefix-IsInLine : All IsInLine (codes "password = ")
prefix-IsInLine = ground arith

abbrev line_of : Text → Text
line_of pw = codes "password = " ++ pw

NoNul-IsInLine : (s : Text) → All IsInLine s → NoNul s
NoNul-IsInLine [] h = tt
NoNul-IsInLine (c ∷ cs) h = (h.0.0, NoNul-IsInLine cs h.1)

NoNul-ended : (s : Text) → All IsInLine s → NoNul (s ++ 10 ∷ [])
NoNul-ended s h = All-append _ s (10 ∷ []) (NoNul-IsInLine s h) (ground arith)

line_says-own : (pw : Text) → IsPassword pw → line_says (line_of pw ++ 10 ∷ []) pw ≡ some true
unfolding line_says setting split_setting index_of skip_spaces is_space trim_end drop_last_spaces
    str_eq
line_says-own pw h =
    rw
      (
        c_string-NoNul (pw ++ 10 ∷ []) (NoNul-ended pw h.in_line),
        until_newline-line pw h.in_line,
        skip_spaces-plain pw h.starts,
        trim_end-plain pw h.ends,
        str_eq_refl pw,
      )
      refl

scan-one :
    (line : List ℕ) (pw : Text) → line_says line pw ≡ some true → scan_lines (line ∷ []) pw ≡ true
unfolding scan_lines
scan-one line pw h = rw (h, scan_lines) refl

-- user.conf accepts the password that it was written with.
pub conf_matches-own : (pw : Text) → IsPassword pw → conf_matches (password_line pw) pw ≡ true
unfolding conf_matches password_line
conf_matches-own pw h =
    ap (λ ls. scan_lines ls pw)
      (next_lines-one 1023 [] (line_of pw)
        (All-append _ (codes "password = ") pw prefix-IsInLine h.in_line)
        (omega (arith, length-append (codes "password = ") pw, h.short)))
    ∙ scan-one (line_of pw ++ 10 ∷ []) pw (line_says-own pw h)

module _ (e : Env) (user pw : Text) (h : IsPassword pw) where
  abbrev changed : World → World
  changed w =
      put_file (conf_path e user) (joined e.datadir user) (codes "user.conf") (password_line pw) w

  change_password-writes :
      (w : World)
      → e.writable (conf_path e user) ≡ true
      → user_change_password e user pw w ≡ some (true, changed w)
  unfolding user_change_password write_file conf_path change pure ◌>>=◌
  change_password-writes w ok = rw ok refl

  check_password-own :
      (w : World) → user_check_password e user pw (changed w) ≡ some (true, changed w)
  unfolding user_check_password gets put_file update_text
  check_password-own w =
      rw (str_eq_refl (conf_path e user), conf_matches-own pw h, user_check_password) refl

  -- After a change of the password that the system lets be written, the new password is accepted,
  -- if it has no NUL, no line end and no space at its start or end, and at most 1000 bytes. Of
  -- other passwords nothing is said.
  pub change-check_password :
      (w : World)
      → e.writable (conf_path e user) ≡ true
      → (v : World) × ((user_change_password e user pw >>= λ done. user_check_password e user pw) w
          ≡ some (true, v))
  change-check_password w ok = (
    changed w,
    Runs-bind (user_change_password e user pw) _ w (changed w) true (change_password-writes w ok)
        ∙ check_password-own w,
  )
