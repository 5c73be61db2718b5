-- ===== src/Stable/Registration.antt =====
-- Accounts, c/src/user.c, and registration, c/src/register.c, keep what a session does not break by
-- changing itself and files.
use jabber.Base.{ℕ, Bool, List, Text, refl, if_both}
use jabber.Xml.{Node, Nodes}
use jabber.World.{World, Env}
use jabber.World.Keeps.{Keeps, keeps_rules}
use jabber.User.{
  Created, created, conflict, invalid_username, io_error, put_file, unlink_file, remove_dir,
  is_empty_dir, add_dir, user_exists, write_file, make_dir, make_user, user_create,
  user_change_password, unlink_listed, delete_below, user_delete, user_check_password,
}
use jabber.Auth.{sasl_failure}
use jabber.Register.{
  send_result_iq, register_get, register_remove, answer_created, change_own_password,
  register_fields, register_set, register_handle_iq,
}
use jabber.Stable.{IsIo, SameTable}
use jabber.Stable.Own.{IsOwn, own_write_str-Keeps, own_send-Keeps, own_send_error-Keeps}

put_file-IsIo : (path dir name : Text) (content : List ℕ) → IsIo (put_file path dir name content)
unfolding put_file
put_file-IsIo path dir name content w = record {
  heap = refl;
  next_address = refl;
  sessions = refl;
  nfds = refl;
}

pub unlink_file-IsIo : (path dir name : Text) → IsIo (unlink_file path dir name)
unfolding unlink_file
unlink_file-IsIo path dir name w = record {
  heap = refl;
  next_address = refl;
  sessions = refl;
  nfds = refl;
}

remove_dir-IsIo : (path dir name : Text) → IsIo (remove_dir path dir name)
unfolding remove_dir
remove_dir-IsIo path dir name w =
    if_both (λ v. SameTable v w) (is_empty_dir (w.dirs path)) _ _
      (record { heap = refl; next_address = refl; sessions = refl; nfds = refl })
      (record { heap = refl; next_address = refl; sessions = refl; nfds = refl })

add_dir-IsIo : (path dir name : Text) → IsIo (add_dir path dir name)
unfolding add_dir
add_dir-IsIo path dir name w = record {
  heap = refl;
  next_address = refl;
  sessions = refl;
  nfds = refl;
}

module _ (P : World → Type 0) (p : ℕ) (S : IsOwn p P) (e : Env) where
  open S use {keeps_own, keeps_files}

  pub own_exists-Keeps : (u : Text) → Keeps P (user_exists e u)
  unfolding user_exists
  own_exists-Keeps u = search keeps_rules

  pub own_write_file-Keeps :
      (size : ℕ) (dir name : Text) (content : List ℕ) → Keeps P (write_file e size dir name content)
  unfolding write_file
  own_write_file-Keeps size dir name content = search (keeps_rules, keeps_files, put_file-IsIo)

  pub own_make_dir-Keeps : (path dir name : Text) → Keeps P (make_dir e path dir name)
  unfolding make_dir
  own_make_dir-Keeps path dir name = search (keeps_rules, keeps_files, add_dir-IsIo)

  make_user-Keeps : (user dir pw : Text) → Keeps P (make_user e user dir pw)
  unfolding make_user
  make_user-Keeps user dir pw =
      search (keeps_rules, own_write_file-Keeps, own_make_dir-Keeps) depth 12

  user_create-Keeps : (u pw : Text) → Keeps P (user_create e u pw)
  unfolding user_create
  user_create-Keeps u pw = search (keeps_rules, own_exists-Keeps, make_user-Keeps)

  user_change_password-Keeps : (u pw : Text) → Keeps P (user_change_password e u pw)
  unfolding user_change_password
  user_change_password-Keeps u pw = search (own_write_file-Keeps)

  unlink_listed-Keeps : (dir name : Text) → Keeps P (unlink_listed e dir name)
  unfolding unlink_listed
  unlink_listed-Keeps dir name = search (keeps_rules, keeps_files, unlink_file-IsIo)

  user_delete-Keeps : (u : Text) → Keeps P (user_delete e u)
  unfolding user_delete delete_below
  user_delete-Keeps u =
      search (keeps_rules, keeps_files, unlink_file-IsIo, remove_dir-IsIo, unlink_listed-Keeps)
        depth 9

  pub own_check_password-Keeps : (u pw : Text) → Keeps P (user_check_password e u pw)
  unfolding user_check_password
  own_check_password-Keeps u pw = search keeps_rules

  pub own_sasl_failure-Keeps : (c : Text) → Keeps P (sasl_failure p c)
  unfolding sasl_failure
  own_sasl_failure-Keeps c = own_write_str-Keeps P p S _

  send_result_iq-Keeps : (id : Text) (b : Bool) → Keeps P (send_result_iq e p id b)
  unfolding send_result_iq
  send_result_iq-Keeps id b = search (keeps_rules, own_send-Keeps)

  register_get-Keeps : (id : Text) → Keeps P (register_get e p id)
  unfolding register_get
  register_get-Keeps id = search (keeps_rules, own_send-Keeps)

  register_remove-Keeps : (n : Node) (id : Text) → Keeps P (register_remove e p n id)
  unfolding register_remove
  register_remove-Keeps n id =
      search (keeps_rules, keeps_own, own_send_error-Keeps, send_result_iq-Keeps, user_delete-Keeps)
        depth 7

  answer_created-Keeps : (n : Node) (id : Text) (c : Created) → Keeps P (answer_created e p n id c)
  unfolding answer_created
  answer_created-Keeps n id created = search (send_result_iq-Keeps)
  answer_created-Keeps n id conflict = search (own_send_error-Keeps)
  answer_created-Keeps n id invalid_username = search (own_send_error-Keeps)
  answer_created-Keeps n id io_error = search (own_send_error-Keeps)

  change_own_password-Keeps :
      (n : Node) (id u pw : Text) → Keeps P (change_own_password e p n id u pw)
  unfolding change_own_password
  change_own_password-Keeps n id u pw =
      search (keeps_rules, own_send_error-Keeps, user_change_password-Keeps, send_result_iq-Keeps)
        depth 7

  register_fields-Keeps : (n : Node) (id u pw : Text) → Keeps P (register_fields e p n id u pw)
  unfolding register_fields
  register_fields-Keeps n id u pw =
      search
        (
          keeps_rules, own_send_error-Keeps, change_own_password-Keeps, user_create-Keeps,
          answer_created-Keeps,
        )
        depth 7

  register_set-Keeps : (n : Node) (id : Text) (kids : Nodes) → Keeps P (register_set e p n id kids)
  unfolding register_set
  register_set-Keeps n id kids = search (keeps_rules, register_remove-Keeps, register_fields-Keeps)

  pub own_register-Keeps : (n : Node) → Keeps P (register_handle_iq e p n)
  unfolding register_handle_iq
  own_register-Keeps n =
      search (keeps_rules, register_get-Keeps, register_set-Keeps, own_send_error-Keeps)
