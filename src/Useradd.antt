-- ===== src/Useradd.antt =====
-- The tool that adds an account, c/tools/useradd.c, on the files of the server's accounts; the
-- options are those that getopt_long gives. What it prints is left out.
pub mod Equivalent
pub mod Login
mod Tests
use jabber.Base.{
  ℕ, Bool, true, false, ◌||◌, not, Option, none, some, [], ◌∷◌, Text, codes, snprintf_s, ◌==◌,
  if◌then◌else◌,
}
use jabber.World.{Env, M, ◌>>=◌, pure, gets}
use jabber.Config.{Options}
use jabber.User.{
  between, is_some, joined, in_dir, write_file, make_dir, password_line, empty_roster_file,
}

-- isalnum, or one of `.`, `-` and `_`
unfoldable pub is_name_byte : ℕ → Bool
is_name_byte c =
    (between b'0' b'9' c || between b'A' b'Z' c || between b'a' b'z' c)
    || (c == b'.' || c == b'-' || c == b'_')

unfoldable pub name_loop : Text → Bool
unfolding is_name_byte
name_loop [] = true
name_loop (c ∷ cs) = if not (is_name_byte c) then false else name_loop cs

unfoldable pub valid_name : Text → Bool
unfolding name_loop
valid_name [] = false
valid_name (c ∷ cs) = name_loop (c ∷ cs)

-- The variables of main.
pub record Arguments : Type 0 where
  pub datadir : Option Text
  pub username : Option Text
  pub password : Option Text
  pub domain : Text

abbrev pub no_arguments : Arguments
no_arguments = record {
  datadir = none;
  username = none;
  password = none;
  domain = codes "localhost";
}

unfoldable pub read_option : ℕ → Text → Arguments → Arguments
read_option opt optarg a =
    if opt == b'd'
    then record a { datadir = some optarg }
    else if opt == b'u'
    then record a { username = some optarg }
    else if opt == b'p'
    then record a { password = some optarg }
    else if opt == b'D'
    then record a { domain = optarg }
    else a

unfoldable pub takes_argument : ℕ → Bool
takes_argument opt = opt == b'd' || opt == b'u' || opt == b'p' || opt == b'D'

-- The loop ends with the variables, or the program with an exit code.
pub data Reading : Type 0 where
  arguments : Arguments → Reading
  exit_code : ℕ → Reading

unfoldable pub read_options : Options → Arguments → Reading
unfolding read_option takes_argument
read_options [] a = arguments a
read_options ((opt, optarg) ∷ opts) a =
    let rest = read_options opts (read_option opt optarg a) in
    if takes_argument opt then rest else exit_code (if opt == b'h' then 0 else 1)

module _ (e : Env) where
  -- stat(path, &st) == 0
  unfoldable pub is_there : Text → M Bool
  is_there path = gets (λ w. is_some (w.dirs path) || is_some (w.files path))

  unfoldable pub create_account : Text → Text → Text → Text → M ℕ
  unfolding password_line
  create_account datadir username userdir password = do
    made ← make_dir e userdir datadir username
    if not made then pure 1 else do
      conf ← write_file e 1536 userdir (codes "user.conf") (password_line password)
      if not conf then pure 1 else do
        roster ← write_file e 1536 userdir (codes "roster.xml") empty_roster_file
        if not roster then pure 1 else do
          offline ← make_dir e (in_dir e 1536 userdir (codes "offline")) userdir (codes "offline")
          if not offline then pure 1 else pure 0

  unfoldable pub add_user : Text → Text → Text → M ℕ
  unfolding snprintf_s joined
  add_user datadir username password = if not (valid_name username) then pure 1 else (do
    there ← is_there (snprintf_s 1280 (joined datadir username))
    if there
        then pure 1
        else create_account datadir username (snprintf_s 1280 (joined datadir username)) password)

  unfoldable pub run_arguments : Option Text → Option Text → Option Text → M ℕ
  run_arguments (some datadir) (some username) (some password) = add_user datadir username password
  run_arguments _ _ _ = pure 1

  unfoldable pub run_reading : Reading → M ℕ
  run_reading (exit_code n) = pure n
  run_reading (arguments a) = run_arguments a.datadir a.username a.password

  unfoldable pub useradd_main : Options → M ℕ
  unfolding read_options
  useradd_main opts = run_reading (read_options opts no_arguments)
