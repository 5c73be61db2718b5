-- ===== src/Server.antt =====
-- The event loop, c/src/server.c: `server_accept`, the body of `server_run` after poll, and
-- `server_shutdown`; `session_create`, `session_on_readable` and `session_on_writable` of
-- c/src/session.c.
pub mod Table
pub mod Removal
pub mod Loop
pub mod Logins
pub mod Find
pub mod Alive
pub mod Progress
pub mod Rounds
pub mod Touched
pub mod Leaving
pub mod Shutdown
mod Tests
use jabber.Base.{
  ℕ, zero, suc, ◌+◌, ◌-◌, Bool, true, false, not, Option, none, some, [], ◌∷◌, ◌++◌, codes, length,
  leb, if◌then◌else◌,
}
use jabber.World.{
  Session, connected, World, PollFd, ReadResult, got, at_end, read_failed, Env, M, ◌>>=◌, ◌>>◌,
  pure, gets, load, modify, change, next_call, when, update,
}
use jabber.Output.{max_clients, session_write_str, session_flush}
use jabber.Teardown.{is_disconnected, session_destroy, session_teardown, stream_error_text}
use jabber.Sax.{parse_events, xml_parser_reset}

abbrev pub read_buf_size : ℕ
read_buf_size = 8192

abbrev pub write_buf_init : ℕ
write_buf_init = 8192

-- session_create, and the poll index that server_accept gives it.
unfoldable pub new_session : ℕ → ℕ → Session
new_session fd idx = record {
  fd = fd;
  state = connected;
  poll_index = idx;
  write_buf = [];
  write_cap = write_buf_init;
  jid_local = [];
  jid_domain = [];
  jid_resource = [];
  open_nodes = [];
  stanza_depth = 0;
  authenticated = false;
  parser_reset_pending = false;
  teardown_pending = false;
  in_xml_parse = false;
  available = false;
  initial_presence_sent = false;
  presence_stanza = none;
  roster = record { items = []; loaded = false };
}

abbrev pub client_pollfd : ℕ → PollFd
client_pollfd fd = record {
  fd = some fd;
  pollin = true;
  pollout = false;
  broken = false;
  readable = false;
  can_write = false;
}

unfoldable pub add_client : ℕ → World → World
unfolding update new_session
add_client fd w = record w {
  heap = update w.heap w.next_address (some (new_session fd w.nfds));
  next_address = suc w.next_address;
  sessions = update w.sessions w.nfds (some w.next_address);
  pollfds = update w.pollfds w.nfds (client_pollfd fd);
  nfds = suc w.nfds;
}

unfoldable pub close_fd : ℕ → World → World
close_fd fd w = record w { closed = w.closed ++ fd ∷ [] }

-- `none` is a failed accept(2).
unfoldable pub server_accept : Option ℕ → M (Unit {0})
server_accept none = pure tt
server_accept (some fd) = do
  n ← gets (λ w. w.nfds)
  if leb max_clients n then change (close_fd fd) else change (add_client fd)

module _ (e : Env) where
  unfoldable pub finish_parse : ℕ → M (Unit {0})
  finish_parse p = do
    s ← load p
    when s.parser_reset_pending
        do modify p (λ t. record t { parser_reset_pending = false }); xml_parser_reset p
    u ← load p
    when u.teardown_pending do _ ← session_flush e p; session_teardown e p

  unfoldable pub handle_read : ℕ → ReadResult → M (Unit {0})
  handle_read p at_end = session_teardown e p
  handle_read p read_failed = session_teardown e p
  handle_read p (got bytes) = if leb read_buf_size (length bytes) then session_teardown e p else do
    modify p (λ s. record s { in_xml_parse = true })
    n ← next_call
    parse_events e p (e.parse_chunk n bytes)
    modify p (λ s. record s { in_xml_parse = false })
    finish_parse p

  unfoldable pub session_on_readable : ℕ → M (Unit {0})
  session_on_readable p = do n ← next_call; handle_read p (e.read_result n)

  unfoldable pub session_on_writable : ℕ → M (Unit {0})
  session_on_writable p = do flushed ← session_flush e p; when (not flushed) (session_teardown e p)

  -- `!sessions[i] || sessions[i]->state == STATE_DISCONNECTED`
  unfoldable pub gone : Option ℕ → M Bool
  unfolding is_disconnected
  gone none = pure true
  gone (some p) = do s ← load p; pure (is_disconnected s.state)

  unfoldable pub on_slot : (ℕ → M (Unit {0})) → Option ℕ → M (Unit {0})
  on_slot f none = pure tt
  on_slot f (some p) = f p

  -- The handler of an event at slot `i`: `true` if the session that is there now is to be looked at
  -- again.
  unfoldable pub run_handler : (ℕ → M (Unit {0})) → ℕ → M Bool
  run_handler f i = do
    slot ← gets (λ w. w.sessions i)
    on_slot f slot
    after ← gets (λ w. w.sessions i)
    gone after

  unfoldable pub writable_part : ℕ → M Bool
  writable_part i = do
    pfd ← gets (λ w. w.pollfds i)
    if pfd.can_write then run_handler session_on_writable i else pure false

  unfoldable pub session_events : ℕ → ℕ → PollFd → M Bool
  session_events i p pfd =
      if pfd.broken
      then session_teardown e p >> pure true
      else if pfd.readable
      then (do
        again ← run_handler session_on_readable i
        if again then pure true else writable_part i)
      else writable_part i

  unfoldable pub client_events : ℕ → Option ℕ → M Bool
  client_events i none = pure false
  client_events i (some p) = do pfd ← gets (λ w. w.pollfds i); session_events i p pfd

  -- The loop over the clients from slot `i`. A session that ended leaves the slot to the last one,
  -- so the index stays; the number of rounds is bounded by the clients at the start.
  unfoldable pub process_clients : ℕ → ℕ → M (Unit {0})
  process_clients zero i = pure tt
  process_clients (suc rounds) i = do
    n ← gets (λ w. w.nfds)
    if leb n i then pure tt else do
      slot ← gets (λ w. w.sessions i)
      again ← client_events i slot
      process_clients rounds (if again then i else i + 1)

  -- One round of `server_run`: what poll reported stands in `pollfds`.
  unfoldable pub server_round : Bool → Option ℕ → M (Unit {0})
  server_round listener accepted = do
    when listener (server_accept accepted)
    n ← gets (λ w. w.nfds)
    process_clients n 1

  unfoldable pub shutdown_session : ℕ → M (Unit {0})
  shutdown_session p = do
    session_write_str p (stream_error_text (codes "system-shutdown"))
    _ ← session_flush e p
    session_destroy p

  unfoldable pub shutdown_slots : ℕ → ℕ → M (Unit {0})
  unfolding update
  shutdown_slots zero i = pure tt
  shutdown_slots (suc n) i = do
    slot ← gets (λ w. w.sessions i)
    on_slot shutdown_session slot
    change (λ w. record w { sessions = update w.sessions i none })
    shutdown_slots n (i + 1)

  unfoldable pub server_shutdown : M (Unit {0})
  server_shutdown = do
    n ← gets (λ w. w.nfds)
    shutdown_slots (n - 1) 1
    change (λ w. record w { nfds = 1 })
