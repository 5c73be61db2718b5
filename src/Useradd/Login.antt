-- ===== src/Useradd/Login.antt =====
-- The server, c/src/user.c, lets in the user whom the tool, c/tools/useradd.c, added.
use jabber.Base.{◌||◌, ◌≡◌, ◌∙◌, refl, ap, true, false, [], ◌∷◌, Text, arith}
use jabber.World.{World, Env}
use jabber.World.Steps.{Runs}
use jabber.User.{is_some, valid_username, user_check_password, conf_path}
use jabber.User.Password.{IsPassword}
use jabber.User.Creation.{IsFree, conf-uncut, user_create-check_password}
use jabber.Useradd.{useradd_main}
use jabber.Useradd.Equivalent.{with_exit, useradd_main-user_create}

-- Where there is no account, directory or file of the name, the name is valid, the system lets the
-- files be made and their paths fit the buffers, the tool ends with 0, and `user_check_password`
-- of the server then accepts the password, if it has no NUL, no line end and no space at its start
-- or end, and at most 1000 bytes. Of other passwords nothing is said.
pub useradd_main-check_password :
    (e : Env) (user pw : Text) (w : World)
    → IsFree e user w
    → valid_username user ≡ true
    → IsPassword pw
    → (v : World) × Runs (useradd_main e ((b'd', e.datadir) ∷ (b'u', user) ∷ (b'p', pw) ∷ [])) w 0 v
      × Runs (user_check_password e user pw) v true v
unfolding is_some
useradd_main-check_password e user pw w free valid own =
    let (v, made, let_in) = user_create-check_password e user pw w free valid own in
    let no_conf : (is_some (w.dirs (conf_path e user)) || is_some (w.files (conf_path e user)))
        ≡ false =
      rw (conf-uncut e user pw w free, free.no_conf, free.no_conf_dir) refl in
    (
      v,
      useradd_main-user_create e user pw w (λ there. absurd (ground (arith, no_conf)))
          ∙ ap with_exit made,
      let_in,
    )
