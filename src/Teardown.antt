-- ===== src/Teardown.antt =====
-- The end of a session: `presence_broadcast_unavailable` of c/src/presence.c,
-- `server_remove_session` of c/src/server.c, `session_destroy` and `session_teardown` of
-- c/src/session.c, and the stream errors of c/src/stream.c that lead there.
use jabber.Base.{
  ℕ, ◌-◌, Bool, true, false, ◌&&◌, ◌||◌, not, Option, none, some, [], ◌∷◌, ◌++◌, Text, codes,
  snprintf_s, ltb, leb, ◌==◌, if◌then◌else◌,
}
use jabber.Jid.{JidParts, JidResult, unwritten, malformed, parsed, overread, jid_parse, jid_bare}
use jabber.Xml.{Node}
use jabber.World.{
  RosterItem, Session, State, disconnected, World, Env, PollFd, M, ◌>>=◌, ◌>>◌, pure, fault, gets,
  load, modify, change, when, for_each, update,
}
use jabber.Output.{session_write_str, session_flush, session_find_by_jid, stanza_send, full_jid_of}
use jabber.Subscription.{sub_has_from}
use jabber.Disk.{roster_load}

-- The buffers behind a call whose result is not looked at: they are read also when nothing was
-- written to them.
unfoldable pub jid_buffers : JidResult → M JidParts
jid_buffers unwritten = fault
jid_buffers (malformed parts) = pure parts
jid_buffers (parsed parts) = pure parts
jid_buffers overread = fault

-- jid_parse and jid_bare, the result of the first ignored.
unfoldable pub parse_bare : Text → M Text
unfolding jid_bare
parse_bare jid = do
  parts ← jid_buffers (jid_parse jid 256 256 256)
  pure (jid_bare parts.local parts.domain 512)

unfoldable pub is_disconnected : State → Bool
is_disconnected disconnected = true
is_disconnected _ = false

unfoldable pub set_index : Option ℕ → ℕ → M (Unit {0})
set_index none idx = pure tt
set_index (some p) idx = modify p (λ s. record s { poll_index = idx })

abbrev pub free_pollfd : PollFd
free_pollfd = record {
  fd = none;
  pollin = false;
  pollout = false;
  broken = false;
  readable = false;
  can_write = false;
}

unfoldable pub move_slot : ℕ → ℕ → World → World
unfolding update
move_slot last idx w = record w {
  pollfds = update w.pollfds idx (w.pollfds last);
  sessions = update w.sessions idx (w.sessions last);
}

unfoldable pub clear_slot : ℕ → World → World
unfolding update
clear_slot last w = record w {
  pollfds = update w.pollfds last free_pollfd;
  sessions = update w.sessions last none;
  nfds = w.nfds - 1;
}

unfoldable pub compact : ℕ → ℕ → M (Unit {0})
compact last idx = do
  change (move_slot last idx)
  moved ← gets (λ w. w.sessions idx)
  set_index moved idx

unfoldable pub server_remove_session : ℕ → M (Unit {0})
server_remove_session p = do
  s ← load p
  n ← gets (λ w. w.nfds)
  when (leb 1 s.poll_index && ltb s.poll_index n) do
    when (not (s.poll_index == n - 1)) (compact (n - 1) s.poll_index)
    change (clear_slot (n - 1))

unfoldable pub free_session : ℕ → Session → World → World
unfolding update
free_session p s w = record w { heap = update w.heap p none; closed = w.closed ++ s.fd ∷ [] }

unfoldable pub session_destroy : ℕ → M (Unit {0})
session_destroy p = do s ← load p; change (free_session p s)

unfoldable pub stream_error_text : Text → Text
unfolding snprintf_s
stream_error_text condition = snprintf_s 512 (
    codes "<stream:error><"
    ++ (condition
        ++ codes " xmlns='urn:ietf:params:xml:ns:xmpp-streams'/></stream:error></stream:stream>"))

module _ (e : Env) where
  unfoldable pub ensure_roster : ℕ → M (Unit {0})
  ensure_roster p = do s ← load p; when (not s.roster.loaded) (roster_load e p)

  unfoldable pub unavailable_stanza : Session → Node
  unavailable_stanza s =
      let x = e.xml in
      x.new_prop (x.new_prop (x.new_node (codes "presence")) (codes "type") (codes "unavailable"))
        (codes "from") (full_jid_of s)

  -- `if (contact && contact != s) stanza_send(contact, pres)`
  unfoldable pub send_to_other : ℕ → Node → Option ℕ → M (Unit {0})
  send_to_other p pres none = pure tt
  send_to_other p pres (some contact) = when (not (contact == p)) (stanza_send e contact pres)

  unfoldable pub notify_unavailable : ℕ → Node → RosterItem → M (Unit {0})
  notify_unavailable p pres i =
      when (sub_has_from i.subscription)
        do bare ← parse_bare i.jid; contact ← session_find_by_jid bare; send_to_other p pres contact

  unfoldable pub presence_broadcast_unavailable : ℕ → M (Unit {0})
  presence_broadcast_unavailable p = do
    s ← load p
    when (s.available || s.initial_presence_sent) do
      ensure_roster p
      t ← load p
      for_each (notify_unavailable p (unavailable_stanza s)) t.roster.items
      modify p (λ u. record u { available = false })

  unfoldable pub session_teardown : ℕ → M (Unit {0})
  session_teardown p = do
    s ← load p
    when (not (is_disconnected s.state)) do
      when (s.available || s.initial_presence_sent) (presence_broadcast_unavailable p)
      modify p (λ t. record t { state = disconnected })
      server_remove_session p
      session_destroy p

  unfoldable pub teardown_or_defer : ℕ → M (Unit {0})
  teardown_or_defer p = do
    s ← load p
    if s.in_xml_parse
        then modify p (λ t. record t { teardown_pending = true })
        else session_teardown p

  unfoldable pub stream_send_error : ℕ → Text → M (Unit {0})
  stream_send_error p condition = do
    session_write_str p (stream_error_text condition)
    _ ← session_flush e p
    teardown_or_defer p

  unfoldable pub stream_handle_close : ℕ → M (Unit {0})
  stream_handle_close p = do session_write_str p (codes "</stream:stream>"); teardown_or_defer p
