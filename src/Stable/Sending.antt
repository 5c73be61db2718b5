-- ===== src/Stable/Sending.antt =====
-- Output, rosters on disk and the end of a session keep every stable predicate.
use jabber.Base.{ℕ, zero, suc, Option, none, some, Text, ◌+◌}
use jabber.Jid.{JidResult, unwritten, malformed, parsed, overread}
use jabber.Xml.{Node}
use jabber.World.{RosterItem, Roster, World, Env, M}
use jabber.World.Keeps.{Keeps, Keeps-pure, Keeps-fault, Keeps-bind, Keeps-gets, keeps_rules}
use jabber.Output.{
  session_write_str, try_slot, find_from, session_find_by_jid, session_flush, stanza_send,
  stanza_send_error,
}
use jabber.Disk.{
  roster_load_from_path, roster_save_to_path, roster_load_for_user, roster_save_for_user,
  roster_load, roster_save,
}
use jabber.Teardown.{
  jid_buffers, parse_bare, ensure_roster, send_to_other, notify_unavailable,
  presence_broadcast_unavailable, session_teardown, teardown_or_defer, stream_send_error,
  stream_handle_close,
}
use jabber.Stable.{IsStable}
use jabber.Stable.Own.{
  stable-IsOwn, own_write_str-Keeps, own_flush-Keeps, own_send-Keeps, own_send_error-Keeps,
}

pub jid_buffers-Keeps : (P : World → Type 0) (r : JidResult) → Keeps P (jid_buffers r)
unfolding jid_buffers
jid_buffers-Keeps P unwritten = Keeps-fault _
jid_buffers-Keeps P (malformed parts) = Keeps-pure parts
jid_buffers-Keeps P (parsed parts) = Keeps-pure parts
jid_buffers-Keeps P overread = Keeps-fault _

pub parse_bare-Keeps : (P : World → Type 0) (jid : Text) → Keeps P (parse_bare jid)
unfolding parse_bare
parse_bare-Keeps P jid = search (keeps_rules, jid_buffers-Keeps)

module _ (P : World → Type 0) where
  try_slot-Keeps :
      (bare : Text) (slot : Option ℕ) (rest : M (Option ℕ))
      → Keeps P rest
      → Keeps P (try_slot bare slot rest)
  unfolding try_slot
  try_slot-Keeps bare none rest h = h
  try_slot-Keeps bare (some p) rest h = search keeps_rules

  find_from-Keeps : (bare : Text) (n i : ℕ) → Keeps P (find_from bare n i)
  unfolding find_from
  find_from-Keeps bare zero i = Keeps-pure none
  find_from-Keeps bare (suc n) i =
      Keeps-bind _ _ (Keeps-gets (λ w. w.sessions i))
        (λ slot. try_slot-Keeps bare slot _ (find_from-Keeps bare n (i + 1)))

  pub session_find_by_jid-Keeps : (bare : Text) → Keeps P (session_find_by_jid bare)
  unfolding session_find_by_jid
  session_find_by_jid-Keeps bare = search (keeps_rules, find_from-Keeps)

module _ (P : World → Type 0) (S : IsStable P) where
  open S use {keeps_modify, keeps_io, keeps_call, keeps_end}

  pub session_write_str-Keeps : (p : ℕ) (str : Text) → Keeps P (session_write_str p str)
  session_write_str-Keeps p str = own_write_str-Keeps P p (stable-IsOwn P S p) str

  module _ (e : Env) where
    pub session_flush-Keeps : (p : ℕ) → Keeps P (session_flush e p)
    session_flush-Keeps p = own_flush-Keeps P p (stable-IsOwn P S p) e

    pub stanza_send-Keeps : (p : ℕ) (node : Node) → Keeps P (stanza_send e p node)
    stanza_send-Keeps p node = own_send-Keeps P p (stable-IsOwn P S p) e node

    pub stanza_send_error-Keeps :
        (p : ℕ) (n : Node) (t c : Text) → Keeps P (stanza_send_error e p n t c)
    stanza_send_error-Keeps p n t c = own_send_error-Keeps P p (stable-IsOwn P S p) e n t c

    pub roster_load_for_user-Keeps : (user : Text) → Keeps P (roster_load_for_user e user)
    unfolding roster_load_for_user roster_load_from_path
    roster_load_for_user-Keeps user = search keeps_rules

    pub roster_save_for_user-Keeps :
        (user : Text) (r : Roster) → Keeps P (roster_save_for_user e user r)
    unfolding roster_save_for_user roster_save_to_path
    roster_save_for_user-Keeps user r = search (keeps_rules, keeps_io)

    roster_load-Keeps : (p : ℕ) → Keeps P (roster_load e p)
    unfolding roster_load
    roster_load-Keeps p = search (keeps_rules, keeps_modify, roster_load_for_user-Keeps)

    pub roster_save-Keeps : (p : ℕ) → Keeps P (roster_save e p)
    unfolding roster_save
    roster_save-Keeps p = search (keeps_rules, roster_save_for_user-Keeps)

    pub ensure_roster-Keeps : (p : ℕ) → Keeps P (ensure_roster e p)
    unfolding ensure_roster
    ensure_roster-Keeps p = search (keeps_rules, roster_load-Keeps)

    send_to_other-Keeps : (p : ℕ) (n : Node) (o : Option ℕ) → Keeps P (send_to_other e p n o)
    unfolding send_to_other
    send_to_other-Keeps p n none = Keeps-pure tt
    send_to_other-Keeps p n (some c) = search (keeps_rules, stanza_send-Keeps)

    notify_unavailable-Keeps :
        (p : ℕ) (n : Node) (i : RosterItem) → Keeps P (notify_unavailable e p n i)
    unfolding notify_unavailable
    notify_unavailable-Keeps p n i =
        search (keeps_rules, parse_bare-Keeps, session_find_by_jid-Keeps, send_to_other-Keeps)

    pub presence_broadcast_unavailable-Keeps :
        (p : ℕ) → Keeps P (presence_broadcast_unavailable e p)
    unfolding presence_broadcast_unavailable
    presence_broadcast_unavailable-Keeps p =
        search (keeps_rules, keeps_modify, ensure_roster-Keeps, notify_unavailable-Keeps) depth 9

    pub session_teardown-Keeps : (p : ℕ) → Keeps P (session_teardown e p)
    unfolding session_teardown
    session_teardown-Keeps p =
        search (keeps_rules, keeps_end, presence_broadcast_unavailable-Keeps) depth 9

    pub teardown_or_defer-Keeps : (p : ℕ) → Keeps P (teardown_or_defer e p)
    unfolding teardown_or_defer
    teardown_or_defer-Keeps p = search (keeps_rules, keeps_modify, session_teardown-Keeps)

    pub stream_send_error-Keeps : (p : ℕ) (c : Text) → Keeps P (stream_send_error e p c)
    unfolding stream_send_error
    stream_send_error-Keeps p c =
        search (keeps_rules, session_write_str-Keeps, session_flush-Keeps, teardown_or_defer-Keeps)

    pub stream_handle_close-Keeps : (p : ℕ) → Keeps P (stream_handle_close e p)
    unfolding stream_handle_close
    stream_handle_close-Keeps p =
        search (keeps_rules, session_write_str-Keeps, teardown_or_defer-Keeps)
