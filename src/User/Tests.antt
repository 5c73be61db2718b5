-- ===== src/User/Tests.antt =====
-- Bob changes his password.
use jabber.Base.{◌≡◌, refl, true, some, codes, arith}
use jabber.World.{World, ◌>>=◌}
use jabber.Sample.{sample_env, one_client}
use jabber.User.{user_change_password, user_check_password}
use jabber.User.Conf.{is_space}
use jabber.User.Password.{IsPassword, change-check_password}

hunter-IsPassword : IsPassword (codes "hunter 2")
unfolding is_space
hunter-IsPassword = record {
  in_line = ground arith;
  starts = refl;
  ends = refl;
  short = omega arith;
}

change-check_password_example :
    (v : World) × ((user_change_password sample_env (codes "bob") (codes "hunter 2") >>= λ done.
    user_check_password sample_env (codes "bob") (codes "hunter 2"))
        one_client
      ≡ some (true, v))
change-check_password_example =
    change-check_password sample_env (codes "bob") (codes "hunter 2") hunter-IsPassword one_client
      refl
