-- ===== src/Stable/Rosters.antt =====
-- Rosters and messages keep every stable predicate.
use jabber.Base.{ℕ, Option, none, some, Text}
use jabber.Jid.{JidResult, JidParts, unwritten, malformed, parsed, overread}
use jabber.Xml.{Node}
use jabber.World.{RosterItem, Roster, World, Env, fault, modify}
use jabber.World.Keeps.{
  Keeps, Keeps-option, Keeps-pure, Keeps-fault, Keeps-fault, Keeps-bind, Keeps-load, keeps_rules,
}
use jabber.RosterIq.{
  set_roster, found_item, roster_push, roster_push_at, roster_get, roster_remove, push_found,
  roster_upsert, roster_set_item, roster_set, roster_handle_iq,
}
use jabber.Message.{
  store_bytes, store_behind, message_store_offline, deliver_or_store, route_message, check_target,
  handle_parsed, handle_message, send_read, deliver_file, message_deliver_offline,
}
use jabber.Stable.{IsStable, next_call-Keeps}
use jabber.Stable.Sending.{
  session_find_by_jid-Keeps, stanza_send-Keeps, stanza_send_error-Keeps, roster_save-Keeps,
  ensure_roster-Keeps,
}
use jabber.Stable.Registration.{unlink_file-IsIo}
use jabber.Stable.Accounts.{generate_id-Keeps, user_exists-Keeps, write_file-Keeps, make_dir-Keeps}

module _ (P : World → Type 0) (S : IsStable P) (e : Env) where
  open S use {keeps_modify, keeps_io}

  pub set_roster-Keeps : (p : ℕ) (r : Roster) → Keeps P (modify p (set_roster r))
  unfolding set_roster
  set_roster-Keeps p r = search keeps_modify

  pub roster_push-Keeps : (p : ℕ) (i : RosterItem) → Keeps P (roster_push e p i)
  unfolding roster_push
  roster_push-Keeps p i = search (keeps_rules, generate_id-Keeps, stanza_send-Keeps)

  pub roster_push_at-Keeps : (p : ℕ) (o : Option ℕ) → Keeps P (roster_push_at e p o)
  unfolding roster_push_at
  roster_push_at-Keeps p o = Keeps-bind _ _ (Keeps-load p) (λ s.
      Keeps-option (found_item s.roster o) fault _ (Keeps-fault _) (λ i. roster_push-Keeps p i))

  roster_get-Keeps : (p : ℕ) (n : Node) → Keeps P (roster_get e p n)
  unfolding roster_get
  roster_get-Keeps p n = search (keeps_rules, stanza_send-Keeps)

  roster_remove-Keeps : (p : ℕ) (n : Node) (jid : Text) → Keeps P (roster_remove e p n jid)
  unfolding roster_remove
  roster_remove-Keeps p n jid =
      search
        (keeps_rules, set_roster-Keeps, roster_save-Keeps, stanza_send-Keeps, roster_push-Keeps)
        depth 9

  push_found-Keeps : (p : ℕ) (o : Option RosterItem) → Keeps P (push_found e p o)
  unfolding push_found
  push_found-Keeps p none = Keeps-pure tt
  push_found-Keeps p (some i) = roster_push-Keeps p i

  roster_upsert-Keeps :
      (p : ℕ) (n : Node) (jid : Text) (name : Option Text) → Keeps P (roster_upsert e p n jid name)
  unfolding roster_upsert
  roster_upsert-Keeps p n jid name =
      search (keeps_rules, set_roster-Keeps, roster_save-Keeps, stanza_send-Keeps, push_found-Keeps)
        depth 9

  roster_set_item-Keeps :
      (p : ℕ) (n i : Node) (o : Option Text) → Keeps P (roster_set_item e p n i o)
  unfolding roster_set_item
  roster_set_item-Keeps p n i none = search (stanza_send_error-Keeps)
  roster_set_item-Keeps p n i (some jid) =
      search (keeps_rules, roster_remove-Keeps, roster_upsert-Keeps)

  roster_set-Keeps : (p : ℕ) (n : Node) (o : Option Node) → Keeps P (roster_set e p n o)
  unfolding roster_set
  roster_set-Keeps p n none = search (stanza_send_error-Keeps)
  roster_set-Keeps p n (some i) = search (roster_set_item-Keeps)

  pub roster_handle_iq-Keeps : (p : ℕ) (n : Node) → Keeps P (roster_handle_iq e p n)
  unfolding roster_handle_iq
  roster_handle_iq-Keeps p n = search (
    keeps_rules, ensure_roster-Keeps, roster_get-Keeps, roster_set-Keeps, stanza_send_error-Keeps,
  )

  store_bytes-Keeps : (dir : Text) (seq : ℕ) (o : Option Text) → Keeps P (store_bytes e dir seq o)
  unfolding store_bytes
  store_bytes-Keeps dir seq none = Keeps-pure tt
  store_bytes-Keeps dir seq (some b) = search (keeps_rules, write_file-Keeps)

  store_behind-Keeps : (dir : Text) (o : Option ℕ) (n : Node) → Keeps P (store_behind e dir o n)
  unfolding store_behind
  store_behind-Keeps dir none n = Keeps-fault (Unit {0})
  store_behind-Keeps dir (some seq) n = search (keeps_rules, next_call-Keeps, store_bytes-Keeps)

  message_store_offline-Keeps : (u : Text) (n : Node) → Keeps P (message_store_offline e u n)
  unfolding message_store_offline
  message_store_offline-Keeps u n = search (keeps_rules, make_dir-Keeps, store_behind-Keeps) depth 9

  deliver_or_store-Keeps :
      (o : Option ℕ) (t u : Text) (n : Node) → Keeps P (deliver_or_store e o t u n)
  unfolding deliver_or_store
  deliver_or_store-Keeps (some target) t u n = stanza_send-Keeps P S e target n
  deliver_or_store-Keeps none t u n = search (keeps_rules, message_store_offline-Keeps)

  route_message-Keeps : (p : ℕ) (n : Node) (to : JidParts) → Keeps P (route_message e p n to)
  unfolding route_message
  route_message-Keeps p n to =
      search (keeps_rules, session_find_by_jid-Keeps, deliver_or_store-Keeps)

  check_target-Keeps : (p : ℕ) (n : Node) (to : JidParts) → Keeps P (check_target e p n to)
  unfolding check_target
  check_target-Keeps p n to =
      search (keeps_rules, stanza_send_error-Keeps, user_exists-Keeps, route_message-Keeps) depth 7

  handle_parsed-Keeps : (p : ℕ) (n : Node) (r : JidResult) → Keeps P (handle_parsed e p n r)
  unfolding handle_parsed
  handle_parsed-Keeps p n unwritten = search (stanza_send_error-Keeps)
  handle_parsed-Keeps p n (malformed to) = search (stanza_send_error-Keeps)
  handle_parsed-Keeps p n overread = Keeps-fault _
  handle_parsed-Keeps p n (parsed to) = check_target-Keeps p n to

  pub handle_message-Keeps : (p : ℕ) (n : Node) → Keeps P (handle_message e p n)
  unfolding handle_message
  handle_message-Keeps p n = handle_parsed-Keeps p n _

  send_read-Keeps : (p : ℕ) (o : Option Node) → Keeps P (send_read e p o)
  unfolding send_read
  send_read-Keeps p none = Keeps-pure tt
  send_read-Keeps p (some n) = stanza_send-Keeps P S e p n

  deliver_file-Keeps : (p : ℕ) (dir name : Text) → Keeps P (deliver_file e p dir name)
  unfolding deliver_file
  deliver_file-Keeps p dir name = search (keeps_rules, keeps_io, unlink_file-IsIo, send_read-Keeps)

  pub message_deliver_offline-Keeps : (p : ℕ) → Keeps P (message_deliver_offline e p)
  unfolding message_deliver_offline
  message_deliver_offline-Keeps p = search (keeps_rules, deliver_file-Keeps)
