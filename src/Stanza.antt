-- ===== src/Stanza.antt =====
-- Routing of stanzas, c/src/stanza.c: `stanza_route` and `handle_iq`.
pub mod Gate
pub mod Isolation
mod Tests
use jabber.Base.{
  ℕ, Bool, true, false, not, ◌&&◌, ◌||◌, Option, none, some, Text, codes, str_eq, length, ◌==◌,
  if◌then◌else◌,
}
use jabber.Xml.{Node, node_name, node_ns, child_ns}
use jabber.World.{State, stream_opened, bound, session_active, Env, M, ◌>>=◌, ◌>>◌, pure, load}
use jabber.Output.{stanza_send, stanza_send_error, session_find_by_jid, full_jid_of}
use jabber.Teardown.{parse_bare, stream_send_error}
use jabber.Register.{or_empty, register_handle_iq}
use jabber.Auth.{auth_handle_sasl}
use jabber.Bind.{
  session_handle_bind, session_handle_session_iq, disco_handle_info, disco_handle_items,
}
use jabber.RosterIq.{roster_handle_iq}
use jabber.Message.{handle_message}
use jabber.Presence.{handle_presence}

unfoldable pub is_opened : State → Bool
is_opened stream_opened = true
is_opened _ = false

-- state == STATE_SESSION_ACTIVE || state == STATE_BOUND
unfoldable pub is_active : State → Bool
is_active session_active = true
is_active bound = true
is_active _ = false

module _ (e : Env) where
  unfoldable pub is_server_jid : Text → Bool
  is_server_jid to = length to == 0 || str_eq to e.domain

  unfoldable pub send_from : ℕ → ℕ → Node → M (Unit {0})
  send_from p target stanza = do
    s ← load p
    stanza_send e target (e.xml.set_prop stanza (codes "from") (full_jid_of s))

  unfoldable pub send_reply_to : ℕ → Node → Option ℕ → M (Unit {0})
  send_reply_to p stanza none = pure tt
  send_reply_to p stanza (some target) = send_from p target stanza

  unfoldable pub send_request_to : ℕ → Node → Option ℕ → M (Unit {0})
  send_request_to p stanza none =
      stanza_send_error e p stanza (codes "cancel") (codes "service-unavailable")
  send_request_to p stanza (some target) = send_from p target stanza

  -- An IQ of type result or error.
  unfoldable pub route_reply : ℕ → Node → Text → M (Unit {0})
  route_reply p stanza to =
      if not (length to == 0) && not (is_server_jid to)
      then (do
        bare ← parse_bare to
        target ← session_find_by_jid bare
        send_reply_to p stanza target)
      else pure tt

  -- An IQ in a namespace that the server does not handle.
  unfoldable pub route_request : ℕ → Node → Text → M (Unit {0})
  route_request p stanza to = do
    s ← load p
    if not (length to == 0) && not (is_server_jid to) && is_active s.state
        then (do
          bare ← parse_bare to
          target ← session_find_by_jid bare
          send_request_to p stanza target)
        else stanza_send_error e p stanza (codes "cancel") (codes "service-unavailable")

  unfoldable pub if_active : ℕ → Node → M (Unit {0}) → M (Unit {0})
  if_active p stanza handler = do
    s ← load p
    if is_active s.state
        then handler
        else stanza_send_error e p stanza (codes "cancel") (codes "not-allowed")

  unfoldable pub dispatch_iq : ℕ → Node → Text → Text → M (Unit {0})
  dispatch_iq p stanza ns to =
      if str_eq ns (codes "urn:ietf:params:xml:ns:xmpp-bind")
      then session_handle_bind e p stanza
      else if str_eq ns (codes "urn:ietf:params:xml:ns:xmpp-session")
      then session_handle_session_iq e p stanza
      else if str_eq ns (codes "jabber:iq:roster")
      then if_active p stanza (roster_handle_iq e p stanza)
      else if str_eq ns (codes "http://jabber.org/protocol/disco#info")
      then if_active p stanza (disco_handle_info e p stanza)
      else if str_eq ns (codes "http://jabber.org/protocol/disco#items")
      then if_active p stanza (disco_handle_items e p stanza)
      else if str_eq ns (codes "jabber:iq:register")
      then register_handle_iq e p stanza
      else route_request p stanza to

  unfoldable pub handle_iq : ℕ → Node → M (Unit {0})
  unfolding child_ns or_empty
  handle_iq p stanza =
      let type : Text = or_empty (e.xml.get_prop stanza (codes "type")) in
      let to : Text = or_empty (e.xml.get_prop stanza (codes "to")) in
      if str_eq type (codes "result") || str_eq type (codes "error")
      then route_reply p stanza to
      else dispatch_iq p stanza (child_ns stanza) to

  -- Before authentication: SASL and registration only.
  unfoldable pub route_unauthenticated : ℕ → Node → M (Unit {0})
  unfolding node_name node_ns child_ns
  route_unauthenticated p stanza =
      if str_eq (node_name stanza) (codes "auth")
        && str_eq (node_ns stanza) (codes "urn:ietf:params:xml:ns:xmpp-sasl")
      then auth_handle_sasl e p stanza
      else if str_eq (node_name stanza) (codes "iq")
      then (if str_eq (child_ns stanza) (codes "jabber:iq:register")
          then register_handle_iq e p stanza
          else stanza_send_error e p stanza (codes "cancel") (codes "not-allowed"))
      else stream_send_error e p (codes "not-authorized")

  unfoldable pub route_authenticated : ℕ → Node → State → M (Unit {0})
  unfolding node_name is_active
  route_authenticated p stanza state =
      if str_eq (node_name stanza) (codes "iq")
      then handle_iq p stanza
      else if str_eq (node_name stanza) (codes "message")
      then (if is_active state
          then handle_message e p stanza
          else stream_send_error e p (codes "not-authorized"))
      else if str_eq (node_name stanza) (codes "presence")
      then (if is_active state
          then handle_presence e p stanza
          else stream_send_error e p (codes "not-authorized"))
      else stream_send_error e p (codes "unsupported-stanza-type")

  unfoldable pub stanza_route : ℕ → Node → M (Unit {0})
  unfolding is_opened
  stanza_route p stanza = do
    s ← load p
    if is_opened s.state && not s.authenticated
        then route_unauthenticated p stanza
        else route_authenticated p stanza s.state
