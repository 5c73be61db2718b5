-- ===== src/User/Creation.antt =====
-- An account that `user_create`, c/src/user.c, made lets its user in.
use jabber.Base.{
  ℕ, ◌-◌, ◌≤◌, ◌<◌, ◌≡◌, refl, ◌∙◌, true, false, none, some, List, [], ◌∷◌, ◌++◌, Text, codes,
  length, length-append, take-all, str_eq, str_eq_refl, snprintf_s, arith,
}
use mathlib.Core.List.{append_assoc}
use jabber.World.{World, Env, ◌>>=◌, pure, gets, change, update_text}
use jabber.World.Steps.{Runs, Runs-bind}
use jabber.User.{
  created, is_some, joined, put_file, password_line, empty_roster_file, valid_username,
  user_get_datapath, in_dir, conf_path, user_exists, write_file, add_dir, make_dir, make_user,
  user_create, user_check_password,
}
use jabber.User.Password.{IsPassword, conf_matches-own}

str_eq-longer : (s : Text) (c : ℕ) (rest : Text) → str_eq s (s ++ c ∷ rest) ≡ false
unfolding str_eq
str_eq-longer [] c rest = refl
str_eq-longer (x ∷ s) c rest = ground (arith, str_eq-longer s c rest)

str_eq-joined : (s a b : Text) → str_eq (joined s a) (joined s b) ≡ str_eq a b
unfolding str_eq joined
str_eq-joined [] a b = refl
str_eq-joined (x ∷ s) a b = ground (arith, str_eq-joined s a b)

uncut : (size : ℕ) (s : Text) → length s < size → snprintf_s size s ≡ s
unfolding snprintf_s
uncut size s h = take-all (size - 1) s (omega arith)

module _ (e : Env) where
  -- The path of a user's directory, and what the system makes of the paths below it.
  abbrev pub home_of : Text → Text
  home_of user = joined e.datadir user

  -- There is no such account, the system lets its files be made, and their paths are not cut.
  pub record IsFree (user : Text) (w : World) : Type 0 where
    pub short : length (home_of user) ≤ 1260
    pub no_conf : w.files (joined (home_of user) (codes "user.conf")) ≡ none
    pub no_conf_dir : w.dirs (joined (home_of user) (codes "user.conf")) ≡ none
    pub no_home_file : w.files (home_of user) ≡ none
    pub no_offline_file : w.files (joined (home_of user) (codes "offline")) ≡ none
    pub no_home : w.dirs (home_of user) ≡ none
    pub no_offline : w.dirs (joined (home_of user) (codes "offline")) ≡ none
    pub home_writable : e.writable (home_of user) ≡ true
    pub conf_writable : e.writable (joined (home_of user) (codes "user.conf")) ≡ true
    pub roster_writable : e.writable (joined (home_of user) (codes "roster.xml")) ≡ true
    pub offline_writable : e.writable (joined (home_of user) (codes "offline")) ≡ true

  make_dir-new :
      (path dir name : Text) (w : World)
      → e.writable path ≡ true
      → w.dirs path ≡ none
      → w.files path ≡ none
      → Runs (make_dir e path dir name) w true (add_dir path dir name w)
  unfolding make_dir gets change pure is_some ◌>>=◌
  make_dir-new path dir name w ok new no_file = rw (new, no_file, ok) refl

  write_file-writable :
      (size : ℕ) (dir name : Text) (content : List ℕ) (w : World)
      → length (joined dir name) < size
      → e.writable (joined dir name) ≡ true
      → Runs
          (write_file e size dir name content)
          w
          true
          (put_file (joined dir name) dir name content w)
  unfolding write_file in_dir change pure ◌>>=◌
  write_file-writable size dir name content w fits ok =
      rw (uncut size (joined dir name) fits, ok) refl

module _ (e : Env) (user pw : Text) (w : World) (h : IsFree e user w) where
  abbrev home : Text
  home = home_of e user

  abbrev conf : Text
  conf = joined home (codes "user.conf")

  abbrev roster : Text
  roster = joined home (codes "roster.xml")

  abbrev offline : Text
  offline = joined home (codes "offline")

  abbrev with_home : World
  with_home = add_dir home e.datadir user w

  abbrev with_conf : World
  with_conf = put_file conf home (codes "user.conf") (password_line pw) with_home

  abbrev with_roster : World
  with_roster = put_file roster home (codes "roster.xml") empty_roster_file with_conf

  abbrev with_offline : World
  with_offline = add_dir offline home (codes "offline") with_roster

  short_name : (name : Text) → length name ≤ 11 → length (joined home name) < 1280
  unfolding joined
  short_name name k =
      omega (arith, length-append home (codes "/" ++ name), length-append (codes "/") name, h.short)

  pub home-uncut : user_get_datapath e user 1280 ≡ home
  unfolding user_get_datapath
  home-uncut = uncut 1280 home (omega (arith, h.short))

  pub conf-uncut : conf_path e user ≡ conf
  unfolding conf_path in_dir
  conf-uncut = uncut 1280 conf (short_name (codes "user.conf") (omega arith))

  offline-uncut : in_dir e 1536 home (codes "offline") ≡ offline
  unfolding in_dir
  offline-uncut = uncut 1536 offline (omega (arith, short_name (codes "offline") (omega arith)))

  root_apart : str_eq e.datadir offline ≡ false
  unfolding joined
  root_apart =
      rw (append_assoc e.datadir (codes "/" ++ user) (codes "/offline"))
        (str_eq-longer e.datadir b'/' (user ++ codes "/offline"))

  offline_free : with_roster.dirs offline ≡ none
  unfolding put_file add_dir update_text joined
  offline_free = rw (str_eq-longer home b'/' (codes "offline"), root_apart) h.no_offline

  offline_no_file : with_roster.files offline ≡ none
  unfolding put_file add_dir update_text str_eq
  offline_no_file =
      rw
        (
          str_eq-joined home (codes "roster.xml") (codes "offline"),
          str_eq-joined home (codes "user.conf") (codes "offline"),
        )
        h.no_offline_file

  make_user-free : Runs (make_user e user home pw) w created with_offline
  unfolding make_user pure
  make_user-free =
      Runs-bind (make_dir e home e.datadir user) _ w with_home true
        (make_dir-new e home e.datadir user w h.home_writable h.no_home h.no_home_file)
      ∙ Runs-bind (write_file e 1536 home (codes "user.conf") (password_line pw)) _ with_home
          with_conf true
          (write_file-writable e 1536 home (codes "user.conf") (password_line pw) with_home
            (omega (arith, short_name (codes "user.conf") (omega arith))) h.conf_writable)
      ∙ Runs-bind (write_file e 1536 home (codes "roster.xml") empty_roster_file) _ with_conf
          with_roster true
          (write_file-writable e 1536 home (codes "roster.xml") empty_roster_file with_conf
            (omega (arith, short_name (codes "roster.xml") (omega arith))) h.roster_writable)
      ∙ Runs-bind (make_dir e (in_dir e 1536 home (codes "offline")) home (codes "offline")) _
          with_roster with_offline true
          (rw offline-uncut (
            make_dir-new e offline home (codes "offline") with_roster h.offline_writable
              offline_free offline_no_file))

  user_create-free :
      valid_username user ≡ true → Runs (user_create e user pw) w created with_offline
  unfolding user_create user_exists gets is_some ◌>>=◌
  user_create-free v = rw (v, conf-uncut, h.no_conf, h.no_conf_dir, home-uncut) make_user-free

  conf_there : with_offline.files conf ≡ some (password_line pw)
  unfolding put_file add_dir update_text str_eq
  conf_there =
      rw (str_eq-joined home (codes "roster.xml") (codes "user.conf"), str_eq_refl conf) refl

  check_password-created :
      IsPassword pw → Runs (user_check_password e user pw) with_offline true with_offline
  unfolding user_check_password gets
  check_password-created own =
      rw (conf-uncut, conf_there, conf_matches-own pw own, user_check_password) refl

  -- A new account with a valid name is made, and its password is accepted: one without NUL, line
  -- ends or a space at its start or end, of at most 1000 bytes. There is no account or directory of
  -- the name, the system lets its files be made, and their paths fit the buffers.
  pub user_create-check_password :
      valid_username user ≡ true
      → IsPassword pw
      → (v : World) × (Runs (user_create e user pw) w created v)
        × (Runs (user_check_password e user pw) v true v)
  user_create-check_password v own = (with_offline, user_create-free v, check_password-created own)
