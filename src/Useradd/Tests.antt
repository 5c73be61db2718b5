-- ===== src/Useradd/Tests.antt =====
-- The tool adds alice.
use jabber.Base.{◌||◌, ◌≡◌, refl, true, false, [], ◌∷◌, codes, str_eq, arith}
use jabber.World.{World}
use jabber.World.Steps.{Runs}
use jabber.Config.{Options}
use jabber.User.{
  is_some, in_dir, joined, username_char, user_get_datapath, valid_username, user_create,
  user_check_password, conf_path,
}
use jabber.User.Conf.{is_space}
use jabber.User.Password.{IsPassword}
use jabber.User.Creation.{IsFree}
use jabber.Sample.{sample_env, one_client}
use jabber.Useradd.{useradd_main}
use jabber.Useradd.Equivalent.{with_exit, useradd_main-user_create}
use jabber.Useradd.Login.{useradd_main-check_password}

abbrev alice_options : Options
alice_options = (b'd', codes "/d") ∷ (b'u', codes "alice") ∷ (b'p', codes "secret") ∷ []

alice-IsFree : IsFree sample_env (codes "alice") one_client
unfolding joined str_eq
alice-IsFree = record {
  short = omega arith;
  no_conf = refl;
  no_conf_dir = refl;
  no_home_file = refl;
  no_offline_file = refl;
  no_home = refl;
  no_offline = refl;
  home_writable = refl;
  conf_writable = refl;
  roster_writable = refl;
  offline_writable = refl;
}

secret-IsPassword : IsPassword (codes "secret")
unfolding is_space
secret-IsPassword = record {
  in_line = ground arith;
  starts = refl;
  ends = refl;
  short = omega arith;
}

no_conf :
    (is_some (one_client.dirs (conf_path sample_env (codes "alice")))
      || is_some (one_client.files (conf_path sample_env (codes "alice"))))
    ≡ false
unfolding conf_path in_dir str_eq is_some
no_conf = refl

useradd_main-user_create_example :
    useradd_main sample_env alice_options one_client
    ≡ with_exit (user_create sample_env (codes "alice") (codes "secret") one_client)
unfolding user_get_datapath str_eq
useradd_main-user_create_example =
    useradd_main-user_create sample_env (codes "alice") (codes "secret") one_client
      (λ there. absurd (ground (arith, no_conf)))

useradd_main-check_password_example :
    (v : World) × Runs (useradd_main sample_env alice_options) one_client 0 v
    × Runs (user_check_password sample_env (codes "alice") (codes "secret")) v true v
unfolding joined str_eq valid_username username_char
useradd_main-check_password_example =
    useradd_main-check_password sample_env (codes "alice") (codes "secret") one_client alice-IsFree
      refl secret-IsPassword
