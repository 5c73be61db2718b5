-- ===== src/Stable/Routing.antt =====
-- Routing, the parser's callbacks and a session's events keep every stable predicate that a login
-- keeps.
use jabber.Base.{ℕ, false, Option, none, some, List, [], ◌∷◌, Text, codes, str_eq, ◌≡◌}
use jabber.Xml.{Node, node_name, child_ns}
use jabber.World.{
  State, World, Env, ReadResult, got, at_end, read_failed, SaxEvent, SaxAttribute, start_element,
  end_element, characters, parse_warning, parse_error, M, modify,
}
use jabber.World.Keeps.{Keeps, Keeps-pure, Keeps-bind, Keeps-load, Keeps-if, keeps_rules}
use jabber.Auth.{logged_in, check_credentials, check_payload, auth_handle_sasl}
use jabber.Stanza.{
  send_from, send_reply_to, send_request_to, route_reply, route_request, if_active, dispatch_iq,
  handle_iq, route_unauthenticated, route_authenticated, stanza_route,
}
use jabber.Sax.{
  reset_parser, xml_parser_create, xml_parser_reset, on_start_element_ns, route_open,
  on_end_element_ns, on_characters, on_event, parse_events,
}
use jabber.Server.{finish_parse, handle_read, session_on_readable, session_on_writable}
use jabber.Stable.{IsStable, next_call-Keeps}
use jabber.Stable.Sending.{
  parse_bare-Keeps, session_find_by_jid-Keeps, session_write_str-Keeps, session_flush-Keeps,
  stanza_send-Keeps, stanza_send_error-Keeps, session_teardown-Keeps, teardown_or_defer-Keeps,
  stream_send_error-Keeps, stream_handle_close-Keeps,
}
use jabber.Stable.Accounts.{
  stream_handle_open-Keeps, user_check_password-Keeps, sasl_failure-Keeps,
  session_handle_bind-Keeps, session_handle_session_iq-Keeps, disco_handle_info-Keeps,
  disco_handle_items-Keeps, register_handle_iq-Keeps,
}
use jabber.Stable.Rosters.{roster_handle_iq-Keeps, handle_message-Keeps}
use jabber.Stable.Subscriptions.{handle_presence-Keeps}

module _ (P : World → Type 0) (S : IsStable P) (e : Env) where
  open S use {keeps_modify, keeps_io}

  send_from-Keeps : (p t : ℕ) (n : Node) → Keeps P (send_from e p t n)
  unfolding send_from
  send_from-Keeps p t n = search (keeps_rules, stanza_send-Keeps)

  send_reply_to-Keeps : (p : ℕ) (n : Node) (o : Option ℕ) → Keeps P (send_reply_to e p n o)
  unfolding send_reply_to
  send_reply_to-Keeps p n none = Keeps-pure tt
  send_reply_to-Keeps p n (some t) = send_from-Keeps p t n

  send_request_to-Keeps : (p : ℕ) (n : Node) (o : Option ℕ) → Keeps P (send_request_to e p n o)
  unfolding send_request_to
  send_request_to-Keeps p n none = search (stanza_send_error-Keeps)
  send_request_to-Keeps p n (some t) = send_from-Keeps p t n

  route_reply-Keeps : (p : ℕ) (n : Node) (to : Text) → Keeps P (route_reply e p n to)
  unfolding route_reply
  route_reply-Keeps p n to =
      search (keeps_rules, parse_bare-Keeps, session_find_by_jid-Keeps, send_reply_to-Keeps)

  route_request-Keeps : (p : ℕ) (n : Node) (to : Text) → Keeps P (route_request e p n to)
  unfolding route_request
  route_request-Keeps p n to =
      search
        (
          keeps_rules, parse_bare-Keeps, session_find_by_jid-Keeps, send_request_to-Keeps,
          stanza_send_error-Keeps,
        )
        depth 7

  if_active-Keeps : (p : ℕ) (n : Node) (m : M (Unit {0})) → Keeps P m → Keeps P (if_active e p n m)
  unfolding if_active
  if_active-Keeps p n m h = search (keeps_rules, stanza_send_error-Keeps)

  dispatch_iq-Keeps : (p : ℕ) (n : Node) (ns to : Text) → Keeps P (dispatch_iq e p n ns to)
  unfolding dispatch_iq
  dispatch_iq-Keeps p n ns to =
      search
        (
          keeps_rules, session_handle_bind-Keeps, session_handle_session_iq-Keeps, if_active-Keeps,
          roster_handle_iq-Keeps, disco_handle_info-Keeps, disco_handle_items-Keeps,
          register_handle_iq-Keeps, route_request-Keeps,
        )
        depth 12

  handle_iq-Keeps : (p : ℕ) (n : Node) → Keeps P (handle_iq e p n)
  unfolding handle_iq
  handle_iq-Keeps p n = search (keeps_rules, route_reply-Keeps, dispatch_iq-Keeps)

  pub route_authenticated-Keeps :
      (p : ℕ) (n : Node) (s : State) → Keeps P (route_authenticated e p n s)
  unfolding route_authenticated
  route_authenticated-Keeps p n s =
      search
        (
          keeps_rules, handle_iq-Keeps, handle_message-Keeps, handle_presence-Keeps,
          stream_send_error-Keeps,
        )
        depth 7

  -- Of the stanzas before authentication only <auth/> may log in.
  other_unauthenticated-Keeps :
      (p : ℕ) (n : Node)
      → str_eq (node_name n) (codes "auth") ≡ false
      → Keeps P (route_unauthenticated e p n)
  unfolding route_unauthenticated
  other_unauthenticated-Keeps p n h = rw h (
      Keeps-if (str_eq (node_name n) (codes "iq")) _ _
        (Keeps-if (str_eq (child_ns n) (codes "jabber:iq:register")) _ _
          (register_handle_iq-Keeps P S e p n) (stanza_send_error-Keeps P S e p n _ _))
        (stream_send_error-Keeps P S e p _))

  pub other_stanza-Keeps :
      (p : ℕ) (n : Node)
      → str_eq (node_name n) (codes "auth") ≡ false
      → Keeps P (stanza_route e p n)
  unfolding stanza_route
  other_stanza-Keeps p n h = Keeps-bind _ _ (Keeps-load p) (λ s.
      Keeps-if _ _ _ (other_unauthenticated-Keeps p n h) (route_authenticated-Keeps p n s.state))

  module _ (p : ℕ) (login : (a : Text) → Keeps P (modify p (logged_in e a))) where
    check_credentials-Keeps : (o : Option (Text × Text)) → Keeps P (check_credentials e p o)
    unfolding check_credentials
    check_credentials-Keeps none = sasl_failure-Keeps P S e p _
    check_credentials-Keeps (some (a, pw)) =
        search
          (
            keeps_rules, keeps_modify, user_check_password-Keeps, sasl_failure-Keeps, login,
            session_write_str-Keeps,
          )
          depth 9

    check_payload-Keeps : (o : Option Text) → Keeps P (check_payload e p o)
    unfolding check_payload
    check_payload-Keeps none = sasl_failure-Keeps P S e p _
    check_payload-Keeps (some b) = check_credentials-Keeps _

    auth_handle_sasl-Keeps : (n : Node) → Keeps P (auth_handle_sasl e p n)
    unfolding auth_handle_sasl
    auth_handle_sasl-Keeps n = search (keeps_rules, check_payload-Keeps, sasl_failure-Keeps)

    route_unauthenticated-Keeps : (n : Node) → Keeps P (route_unauthenticated e p n)
    unfolding route_unauthenticated
    route_unauthenticated-Keeps n =
        search
          (
            keeps_rules, auth_handle_sasl-Keeps, register_handle_iq-Keeps, stanza_send_error-Keeps,
            stream_send_error-Keeps,
          )
          depth 7

    pub stanza_route-Keeps : (n : Node) → Keeps P (stanza_route e p n)
    unfolding stanza_route
    stanza_route-Keeps n =
        search (keeps_rules, route_unauthenticated-Keeps, route_authenticated-Keeps)

    on_start-Keeps :
        (n : Text) (x u : Option Text) (d : List (Option Text × Text)) (a : List SaxAttribute)
        → Keeps P (on_start_element_ns e p n x u d a)
    unfolding on_start_element_ns
    on_start-Keeps n x u d a = search (keeps_rules, keeps_modify, stream_handle_open-Keeps) depth 7

    route_open-Keeps : (ns : List Node) → Keeps P (route_open e p ns)
    unfolding route_open
    route_open-Keeps [] = Keeps-pure tt
    route_open-Keeps (n ∷ ns) = search (keeps_rules, keeps_modify, stanza_route-Keeps)

    on_end-Keeps : Keeps P (on_end_element_ns e p)
    unfolding on_end_element_ns
    on_end-Keeps =
        search (keeps_rules, keeps_modify, stream_handle_close-Keeps, route_open-Keeps) depth 7

    on_event-Keeps : (ev : SaxEvent) → Keeps P (on_event e p ev)
    unfolding on_event on_characters
    on_event-Keeps (start_element n x u d a) = on_start-Keeps n x u d a
    on_event-Keeps end_element = on_end-Keeps
    on_event-Keeps (characters t) = search keeps_modify
    on_event-Keeps parse_warning = Keeps-pure tt
    on_event-Keeps parse_error = teardown_or_defer-Keeps P S e p

    finish_parse-Keeps : Keeps P (finish_parse e p)
    unfolding finish_parse xml_parser_reset xml_parser_create reset_parser
    finish_parse-Keeps =
        search (keeps_rules, keeps_modify, session_flush-Keeps, session_teardown-Keeps) depth 9

    handle_read-Keeps : (r : ReadResult) → Keeps P (handle_read e p r)
    unfolding handle_read parse_events
    handle_read-Keeps at_end = session_teardown-Keeps P S e p
    handle_read-Keeps read_failed = session_teardown-Keeps P S e p
    handle_read-Keeps (got b) =
        search
          (keeps_rules, keeps_modify, on_event-Keeps, finish_parse-Keeps, session_teardown-Keeps)
          depth 9

    pub session_on_readable-Keeps : Keeps P (session_on_readable e p)
    unfolding session_on_readable
    session_on_readable-Keeps = search (keeps_rules, next_call-Keeps, handle_read-Keeps)

  pub session_on_writable-Keeps : (p : ℕ) → Keeps P (session_on_writable e p)
  unfolding session_on_writable
  session_on_writable-Keeps p = search (keeps_rules, session_flush-Keeps, session_teardown-Keeps)
