-- ===== src/Useradd/Equivalent.antt =====
-- The tool, c/tools/useradd.c, does what `user_create` of c/src/user.c does.
use jabber.Base.{
  ℕ, ◌≡◌, refl, ◌∙◌, Bool, true, false, ◌||◌, not, Option, none, some, [], ◌∷◌, Text, codes,
  if◌then◌else◌, arith, Bool-cases, inl, inr,
}
use jabber.World.{World, Env, M, ◌>>=◌, pure, gets}
use jabber.World.Steps.{Runs-bind}
use jabber.User.{
  Created, created, invalid_username, io_error, is_some, in_dir, write_file, make_dir,
  password_line, empty_roster_file, username_char, all_username, valid_username, user_get_datapath,
  conf_path, user_exists, make_user, user_create,
}
use jabber.Useradd.{
  is_name_byte, name_loop, valid_name, is_there, run_reading, run_arguments, create_account,
  add_user, useradd_main,
}

-- The exit code for what user_create answers.
abbrev pub exit_of : Created → ℕ
exit_of created = 0
exit_of _ = 1

abbrev pub with_exit : Option (Created × World) → Option (ℕ × World)
with_exit none = none
with_exit (some (c, w)) = some (exit_of c, w)

same_bytes : (c : ℕ) → username_char c ≡ is_name_byte c
unfolding username_char is_name_byte
same_bytes c = ground arith

same_loops : (s : Text) → all_username s ≡ name_loop s
unfolding all_username name_loop
same_loops [] = refl
same_loops (c ∷ cs) = ground (arith, same_bytes c, same_loops cs)

same_names : (s : Text) → valid_username s ≡ valid_name s
unfolding valid_username valid_name
same_names [] = refl
same_names (c ∷ cs) = same_loops (c ∷ cs)

with_exit-continue :
    {A : Type 0} (r : Option (A × World)) (f : A → M Created) (g : A → M ℕ)
    → ((a : A) (w : World) → g a w ≡ with_exit (f a w))
    → elim r [ none ↦ none | some (a, v) ↦ g a v ]
      ≡ with_exit (elim r [ none ↦ none | some (a, v) ↦ f a v ])
with_exit-continue none f g h = refl
with_exit-continue (some (a, v)) f g h = h a v

with_exit-bind :
    {A : Type 0} (m : M A) (f : A → M Created) (g : A → M ℕ) (w : World)
    → ((a : A) (w : World) → g a w ≡ with_exit (f a w))
    → (m >>= g) w ≡ with_exit ((m >>= f) w)
unfolding ◌>>=◌
with_exit-bind m f g w h = with_exit-continue (m w) f g h

-- A step that ends both programs where it fails.
guarded :
    (m : M Bool) (f : M Created) (g : M ℕ) (w : World)
    → ((v : World) → g v ≡ with_exit (f v))
    → (m >>= λ done. if not done then pure 1 else g) w
      ≡ with_exit ((m >>= λ done. if not done then pure io_error else f) w)
unfolding pure
guarded m f g w h = with_exit-bind m _ _ w step
  where
    step :
        (done : Bool) (v : World)
        → (if not done then pure 1 else g) v ≡ with_exit ((if not done then pure io_error else f) v)
    step true v = h v
    step false v = refl

module _ (e : Env) (user pw userdir : Text) where
  create_account-make_user :
      (w : World)
      → create_account e e.datadir user userdir pw w ≡ with_exit (make_user e user userdir pw w)
  unfolding create_account make_user pure
  create_account-make_user w = guarded (make_dir e userdir e.datadir user) _ _ w (λ v.
      guarded (write_file e 1536 userdir (codes "user.conf") (password_line pw)) _ _ v (λ v.
        guarded (write_file e 1536 userdir (codes "roster.xml") empty_roster_file) _ _ v (λ v.
          guarded (make_dir e (in_dir e 1536 userdir (codes "offline")) userdir (codes "offline")) _
            _ v (λ v. refl))))

  make_dir-there :
      (w : World)
      → (is_some (w.dirs userdir) || is_some (w.files userdir)) ≡ true
      → make_dir e userdir e.datadir user w ≡ some (false, w)
  unfolding make_dir gets pure ◌>>=◌
  make_dir-there w h = elim (Bool-cases (e.writable userdir)) [
    | inl x ↦ rw (h, x) refl
    | inr x ↦ rw x refl
  ]

  make_user-there :
      (w : World)
      → (is_some (w.dirs userdir) || is_some (w.files userdir)) ≡ true
      → make_user e user userdir pw w ≡ some (io_error, w)
  unfolding make_user pure
  make_user-there w h =
      Runs-bind (make_dir e userdir e.datadir user) _ w w false (make_dir-there w h)

module _ (e : Env) (user pw : Text) (w : World) where
  abbrev home : Text
  home = user_get_datapath e user 1280

  -- The name is valid, and the directory is or is not there.
  create-there :
      valid_username user ≡ true
      → (is_some (w.dirs home) || is_some (w.files home)) ≡ true
      → some (1, w) ≡ with_exit (user_create e user pw w)
  unfolding user_create user_exists gets pure ◌>>=◌
  create-there v there =
      elim (Bool-cases
        (is_some (w.dirs (conf_path e user)) || is_some (w.files (conf_path e user)))) [
          | inl x ↦ rw (v, x) refl
          | inr x ↦ rw (v, x, make_user-there e user pw home w there) refl
        ]

  create-new :
      valid_username user ≡ true
      → (is_some (w.dirs (conf_path e user)) || is_some (w.files (conf_path e user))) ≡ false
      → create_account e e.datadir user home pw w ≡ with_exit (user_create e user pw w)
  unfolding user_create user_exists gets pure ◌>>=◌
  create-new v x = rw (v, x) (create_account-make_user e user pw home w)

  main-add_user :
      useradd_main e ((b'd', e.datadir) ∷ (b'u', user) ∷ (b'p', pw) ∷ []) w
      ≡ add_user e e.datadir user pw w
  unfolding useradd_main run_reading run_arguments
  main-add_user = refl

  add-invalid : valid_name user ≡ false → add_user e e.datadir user pw w ≡ some (1, w)
  unfolding add_user pure
  add-invalid v = rw v refl

  add-valid :
      (there : Bool)
      → valid_name user ≡ true
      → (is_some (w.dirs home) || is_some (w.files home)) ≡ there
      → add_user e e.datadir user pw w
        ≡ (if there then pure 1 else create_account e e.datadir user home pw) w
  unfolding add_user user_get_datapath is_there gets ◌>>=◌
  add-valid there v h = rw (v, h) refl

  create-invalid :
      valid_username user ≡ false → user_create e user pw w ≡ some (invalid_username, w)
  unfolding user_create pure
  create-invalid v = rw v refl

-- With `-d`, `-u` and `-p` the tool answers and leaves the files as the server's own creation of an
-- account does in that directory, on every branch: 0 where the account was made, and 1 where the
-- name is not valid, the user is there, or the system refuses a file. There is a
-- user.conf only in a directory that is there.
pub useradd_main-user_create :
    (e : Env) (user pw : Text) (w : World)
    → ((is_some (w.dirs (conf_path e user)) || is_some (w.files (conf_path e user))) ≡ true
        → is_some (w.dirs (user_get_datapath e user 1280)) ≡ true)
    → useradd_main e ((b'd', e.datadir) ∷ (b'u', user) ∷ (b'p', pw) ∷ []) w
      ≡ with_exit (user_create e user pw w)
unfolding pure is_some
useradd_main-user_create e user pw w well =
    main-add_user e user pw w ∙ elim (Bool-cases (valid_username user)) [
      | inr v ↦
          rw (add-invalid e user pw w (rw (same_names user) at v), create-invalid e user pw w v)
            refl
      | inl v ↦
          let named : valid_name user ≡ true = rw (same_names user) at v in
          elim (Bool-cases (
            is_some (w.dirs (user_get_datapath e user 1280))
            || is_some (w.files (user_get_datapath e user 1280)))) [
              | inl there ↦
                  rw (add-valid e user pw w true named there) (create-there e user pw w v there)
              | inr absent ↦
                  rw (add-valid e user pw w false named absent)
                    (create-new e user pw w v (ground arith))
            ]
    ]
