-- ===== src/User.antt =====
-- Accounts on disk, c/src/user.c. A directory has the list of its names; the system lets a path be
-- made or not by `Env.writable`.
pub mod Conf
pub mod Password
pub mod Creation
mod Tests
use jabber.Base.{
  ℕ, ◌+◌, ◌-◌, Bool, true, false, ◌&&◌, ◌||◌, not, Option, none, some, List, [], ◌∷◌, ◌++◌, Text,
  codes, str_eq, snprintf_s, leb, ◌==◌, if◌then◌else◌,
}
use jabber.World.{World, Env, M, ◌>>=◌, ◌>>◌, pure, gets, change, when, for_each, update_text}
use Conf.{conf_matches}

unfoldable pub is_some {ℓ} : {A : Type ℓ} → Option A → Bool
is_some none = false
is_some (some a) = true

abbrev pub between : ℕ → ℕ → ℕ → Bool
between lo hi c = leb lo c && leb c hi

-- isalnum, or one of `.`, `-` and `_`
unfoldable pub username_char : ℕ → Bool
username_char c =
    between b'0' b'9' c
    || between b'A' b'Z' c
    || between b'a' b'z' c
    || c == b'.'
    || c == b'-'
    || c == b'_'

unfoldable pub all_username : Text → Bool
all_username [] = true
all_username (c ∷ cs) = username_char c && all_username cs

unfoldable pub valid_username : Text → Bool
unfolding all_username
valid_username [] = false
valid_username (c ∷ cs) = all_username (c ∷ cs)

-- What `user_create` answers: 0, -1, -2 and -3.
pub data Created : Type 0 where
  created conflict invalid_username io_error : Created

-- The names of a directory without one.
unfoldable pub without : Text → List Text → List Text
without name [] = []
without name (n ∷ ns) = if str_eq n name then without name ns else n ∷ without name ns

unfoldable pub with_name : Text → List Text → List Text
unfolding without
with_name name ns = without name ns ++ name ∷ []

unfoldable pub relist : (List Text → List Text) → Option (List Text) → Option (List Text)
relist f none = none
relist f (some ns) = some (f ns)

unfoldable pub joined : Text → Text → Text
joined dir name = dir ++ (codes "/" ++ name)

unfoldable pub put_file : Text → Text → Text → List ℕ → World → World
unfolding update_text relist with_name
put_file path dir name content w = record w {
  files = update_text w.files path (some content);
  dirs = update_text w.dirs dir (relist (with_name name) (w.dirs dir));
}

unfoldable pub unlink_file : Text → Text → Text → World → World
unfolding update_text relist without
unlink_file path dir name w = record w {
  files = update_text w.files path none;
  dirs = update_text w.dirs dir (relist (without name) (w.dirs dir));
}

unfoldable pub is_empty_dir : Option (List Text) → Bool
is_empty_dir (some []) = true
is_empty_dir _ = false

-- rmdir: only an empty directory goes.
unfoldable pub remove_dir : Text → Text → Text → World → World
unfolding is_empty_dir update_text relist without
remove_dir path dir name w =
    if is_empty_dir (w.dirs path)
    then record w {
      dirs = update_text (update_text w.dirs path none) dir (relist (without name) (w.dirs dir));
    }
    else w

-- mkdir
unfoldable pub add_dir : Text → Text → Text → World → World
unfolding update_text relist with_name
add_dir path dir name w = record w {
  dirs = update_text (update_text w.dirs path (some [])) dir (relist (with_name name) (w.dirs dir));
}

unfoldable pub names_in : Option (List Text) → List Text
names_in none = []
names_in (some ns) = ns

unfoldable pub is_hidden : Text → Bool
is_hidden [] = false
is_hidden (c ∷ cs) = c == b'.'

unfoldable pub password_line : Text → List ℕ
password_line password = codes "password = " ++ (password ++ (10 ∷ []))

abbrev pub empty_roster_file : List ℕ
empty_roster_file = codes "<?xml version=\"1.0\"?>\n<roster/>\n"

module _ (e : Env) where
  unfoldable pub user_get_datapath : Text → ℕ → Text
  unfolding snprintf_s joined
  user_get_datapath user size = snprintf_s size (joined e.datadir user)

  -- snprintf(path, sizeof(path), "%s/user.conf", userdir), and so for the other names
  unfoldable pub in_dir : ℕ → Text → Text → Text
  unfolding snprintf_s joined
  in_dir size dir name = snprintf_s size (joined dir name)

  unfoldable pub conf_path : Text → Text
  conf_path user = in_dir 1280 (joined e.datadir user) (codes "user.conf")

  unfoldable pub user_exists : Text → M Bool
  user_exists user =
      gets (λ w. is_some (w.dirs (conf_path user)) || is_some (w.files (conf_path user)))

  -- `fopen(path, "w")`, the writes and `fclose`
  unfoldable pub write_file : ℕ → Text → Text → List ℕ → M Bool
  write_file size dir name content =
      if e.writable (in_dir size dir name)
      then change (put_file (in_dir size dir name) dir name content) >> pure true
      else pure false

  -- The directory `path`, `name` in `dir`.
  unfoldable pub make_dir : Text → Text → Text → M Bool
  unfolding add_dir
  make_dir path dir name = do
    there ← gets (λ w. is_some (w.dirs path) || is_some (w.files path))
    if e.writable path && not there then change (add_dir path dir name) >> pure true else pure false

  unfoldable pub make_user : Text → Text → Text → M Created
  unfolding password_line
  make_user user userdir password = do
    made ← make_dir userdir e.datadir user
    if not made then pure io_error else do
      conf ← write_file 1536 userdir (codes "user.conf") (password_line password)
      if not conf then pure io_error else do
        roster ← write_file 1536 userdir (codes "roster.xml") empty_roster_file
        if not roster then pure io_error else do
          offline ← make_dir (in_dir 1536 userdir (codes "offline")) userdir (codes "offline")
          if not offline then pure io_error else pure created

  unfoldable pub user_create : Text → Text → M Created
  user_create user password = if not (valid_username user) then pure invalid_username else (do
    there ← user_exists user
    if there then pure conflict else make_user user (user_get_datapath user 1280) password)

  -- `true` is 0, `false` is -1.
  unfoldable pub user_change_password : Text → Text → M Bool
  unfolding password_line
  user_change_password user password =
      write_file 1280 (joined e.datadir user) (codes "user.conf") (password_line password)

  unfoldable pub unlink_listed : Text → Text → M (Unit {0})
  unlink_listed dir name =
      when (not (is_hidden name)) (change (unlink_file (in_dir 1792 dir name) dir name))

  unfoldable pub delete_below : Text → Text → Text → M (Unit {0})
  delete_below user userdir offlinedir = do
    names ← gets (λ w. names_in (w.dirs offlinedir))
    for_each (unlink_listed offlinedir) names
    change (remove_dir offlinedir userdir (codes "offline"))
    change (unlink_file (in_dir 1536 userdir (codes "user.conf")) userdir (codes "user.conf"))
    change (unlink_file (in_dir 1536 userdir (codes "roster.xml")) userdir (codes "roster.xml"))
    change (remove_dir userdir e.datadir user)

  unfoldable pub user_delete : Text → M (Unit {0})
  user_delete user =
      delete_below user (user_get_datapath user 1280)
        (in_dir 1536 (user_get_datapath user 1280) (codes "offline"))

  unfoldable pub user_check_password : Text → Text → M Bool
  user_check_password user password = gets (λ w. elim (w.files (conf_path user)) [
    | none ↦ false
    | some content ↦ conf_matches content password
  ])
