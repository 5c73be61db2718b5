-- ===== src/Stable/Accounts.antt =====
-- Streams, accounts, binding and disco keep every stable predicate.
use jabber.Base.{ℕ, Option, none, some, List, Text}
use jabber.Xml.{Node}
use jabber.World.{World, Env}
use jabber.World.Keeps.{Keeps, Keeps-pure, keeps_rules}
use jabber.Stream.{generate_id, stream_handle_open}
use jabber.User.{user_exists, write_file, make_dir, user_check_password}
use jabber.Auth.{sasl_failure}
use jabber.Bind.{
  chosen_resource, end_conflict, bind_session, session_handle_bind, session_handle_session_iq,
  disco_handle_info, disco_handle_items,
}
use jabber.Register.{register_handle_iq}
use jabber.Stable.{IsStable, next_call-Keeps}
use jabber.Stable.Own.{stable-IsOwn}
use jabber.Stable.Registration.{
  own_exists-Keeps, own_write_file-Keeps, own_make_dir-Keeps, own_check_password-Keeps,
  own_sasl_failure-Keeps, own_register-Keeps,
}
use jabber.Stable.Sending.{
  session_find_by_jid-Keeps, session_write_str-Keeps, stanza_send-Keeps, stanza_send_error-Keeps,
  stream_send_error-Keeps,
}

module _ (P : World → Type 0) (S : IsStable P) (e : Env) where
  open S use {keeps_modify, keeps_io}

  pub generate_id-Keeps : (len : ℕ) → Keeps P (generate_id e len)
  unfolding generate_id
  generate_id-Keeps len = search (keeps_rules, next_call-Keeps)

  pub stream_handle_open-Keeps : (p : ℕ) (to : Text) → Keeps P (stream_handle_open e p to)
  unfolding stream_handle_open
  stream_handle_open-Keeps p to =
      search
        (
          keeps_rules, keeps_modify, generate_id-Keeps, session_write_str-Keeps,
          stream_send_error-Keeps,
        )
        depth 9

  pub user_exists-Keeps : (u : Text) → Keeps P (user_exists e u)
  user_exists-Keeps u = own_exists-Keeps P 0 (stable-IsOwn P S 0) e u

  pub write_file-Keeps :
      (size : ℕ) (dir name : Text) (content : List ℕ) → Keeps P (write_file e size dir name content)
  write_file-Keeps size dir name content =
      own_write_file-Keeps P 0 (stable-IsOwn P S 0) e size dir name content

  pub make_dir-Keeps : (path dir name : Text) → Keeps P (make_dir e path dir name)
  make_dir-Keeps path dir name = own_make_dir-Keeps P 0 (stable-IsOwn P S 0) e path dir name

  pub user_check_password-Keeps : (u pw : Text) → Keeps P (user_check_password e u pw)
  user_check_password-Keeps u pw = own_check_password-Keeps P 0 (stable-IsOwn P S 0) e u pw

  pub sasl_failure-Keeps : (p : ℕ) (c : Text) → Keeps P (sasl_failure p c)
  sasl_failure-Keeps p c = own_sasl_failure-Keeps P p (stable-IsOwn P S p) e c

  pub register_handle_iq-Keeps : (p : ℕ) (n : Node) → Keeps P (register_handle_iq e p n)
  register_handle_iq-Keeps p n = own_register-Keeps P p (stable-IsOwn P S p) e n

  chosen_resource-Keeps : (o : Option Text) → Keeps P (chosen_resource e o)
  unfolding chosen_resource
  chosen_resource-Keeps none = generate_id-Keeps 8
  chosen_resource-Keeps (some c) = Keeps-pure _

  end_conflict-Keeps : (p : ℕ) (o : Option ℕ) → Keeps P (end_conflict e p o)
  unfolding end_conflict
  end_conflict-Keeps p none = Keeps-pure tt
  end_conflict-Keeps p (some c) = search (keeps_rules, stream_send_error-Keeps)

  bind_session-Keeps : (p : ℕ) (n : Node) → Keeps P (bind_session e p n)
  unfolding bind_session
  bind_session-Keeps p n =
      search
        (
          keeps_rules, keeps_modify, chosen_resource-Keeps, session_find_by_jid-Keeps,
          end_conflict-Keeps, stanza_send-Keeps,
        )
        depth 9

  pub session_handle_bind-Keeps : (p : ℕ) (n : Node) → Keeps P (session_handle_bind e p n)
  unfolding session_handle_bind
  session_handle_bind-Keeps p n = search (keeps_rules, bind_session-Keeps, stanza_send_error-Keeps)

  pub session_handle_session_iq-Keeps :
      (p : ℕ) (n : Node) → Keeps P (session_handle_session_iq e p n)
  unfolding session_handle_session_iq
  session_handle_session_iq-Keeps p n = search (keeps_rules, keeps_modify, stanza_send-Keeps)

  pub disco_handle_info-Keeps : (p : ℕ) (n : Node) → Keeps P (disco_handle_info e p n)
  unfolding disco_handle_info
  disco_handle_info-Keeps p n = search (keeps_rules, stanza_send-Keeps)

  pub disco_handle_items-Keeps : (p : ℕ) (n : Node) → Keeps P (disco_handle_items e p n)
  unfolding disco_handle_items
  disco_handle_items-Keeps p n = search (keeps_rules, stanza_send-Keeps)
