-- ===== src/User/Conf.antt =====
-- The scan of user.conf in `user_check_password`, c/src/user.c.
use jabber.Base.{
  ℕ, ◌+◌, ◌-◌, Bool, true, false, ◌&&◌, ◌||◌, Option, none, some, List, [], ◌∷◌, ◌++◌, Text, codes,
  str_eq, index_of, c_string, take, drop, leb, ◌==◌, if◌then◌else◌,
}

-- isspace
unfoldable pub is_space : ℕ → Bool
is_space c = leb 9 c && leb c 13 || c == 32

-- fgets(line, 1024, fp) until the end: a line ends behind its newline or after 1023 bytes; `line`
-- is what it holds so far, and `room` how many bytes it still takes.
unfoldable pub next_lines : ℕ → List ℕ → List ℕ → List (List ℕ)
next_lines room [] [] = []
next_lines room (b ∷ bs) [] = (b ∷ bs) ∷ []
next_lines room line (c ∷ cs) = elim (c == 10 || room == 1) [
  | true ↦ (line ++ c ∷ []) ∷ next_lines 1023 [] cs
  | false ↦ next_lines (room - 1) (line ++ c ∷ []) cs
]

-- line[strcspn(line, "\n\r")] = '\0'
unfoldable pub until_newline : Text → Text
until_newline [] = []
until_newline (c ∷ cs) = if c == 10 || c == 13 then [] else c ∷ until_newline cs

unfoldable pub skip_spaces : Text → Text
unfolding is_space
skip_spaces [] = []
skip_spaces (c ∷ cs) = if is_space c then skip_spaces cs else c ∷ cs

unfoldable pub drop_last_spaces : Text → Text
drop_last_spaces [] = []
drop_last_spaces (c ∷ cs) = elim (drop_last_spaces cs) [
  | [] ↦ if is_space c then [] else c ∷ []
  | d ∷ ds ↦ c ∷ d ∷ ds
]

-- The loop from the end stops at the first byte, which stays.
unfoldable pub trim_end : Text → Text
unfolding drop_last_spaces is_space
trim_end [] = []
trim_end (c ∷ cs) = c ∷ drop_last_spaces cs

-- What one line says: nothing, or whether the password is the one that was given.
unfoldable pub split_setting : Text → Option ℕ → Text → Option Bool
unfolding trim_end skip_spaces
split_setting s none password = none
split_setting s (some at) password =
    if str_eq (trim_end (take at s)) (codes "password")
    then some (str_eq (trim_end (skip_spaces (drop (at + 1) s))) password)
    else none

unfoldable pub setting : Text → Text → Option Bool
unfolding split_setting
setting [] password = none
setting (c ∷ cs) password =
    if c == b'#' then none else split_setting (c ∷ cs) (index_of b'=' (c ∷ cs)) password

unfoldable pub line_says : List ℕ → Text → Option Bool
unfolding setting skip_spaces until_newline c_string
line_says line password = setting (skip_spaces (until_newline (c_string line))) password

unfoldable pub scan_lines : List (List ℕ) → Text → Bool
scan_lines [] password = false
scan_lines (l ∷ ls) password = elim (line_says l password) [
  | some found ↦ found
  | none ↦ scan_lines ls password
]

unfoldable pub conf_matches : List ℕ → Text → Bool
unfolding scan_lines next_lines
conf_matches content password = scan_lines (next_lines 1023 [] content) password
