-- ===== src/Bind.antt =====
-- Resource binding and session establishment, c/src/session.c: `session_handle_bind` and
-- `session_handle_session_iq`; and the two disco answers, c/src/disco.c.
use jabber.Base.{
  ℕ, Bool, true, false, Option, none, some, List, [], ◌∷◌, Text, codes, snprintf_s, ◌==◌,
  if◌then◌else◌,
}
use jabber.Xml.{Node, xml_find_child}
use jabber.World.{
  Session, State, stream_opened, authenticated_state, bound, session_active, Env, M, ◌>>=◌, ◌>>◌,
  pure, load, modify,
}
use jabber.Output.{
  stanza_send, stanza_send_error, session_find_by_jid, with_id, full_jid_of, bare_jid_of,
}
use jabber.Stream.{generate_id}
use jabber.Teardown.{stream_send_error}

unfoldable pub may_bind : State → Bool
may_bind authenticated_state = true
may_bind stream_opened = true
may_bind _ = false

unfoldable pub features_list : List Text
features_list =
    codes "http://jabber.org/protocol/disco#info"
    ∷ codes "http://jabber.org/protocol/disco#items"
    ∷ codes "jabber:iq:roster"
    ∷ codes "jabber:iq:register"
    ∷ codes "urn:xmpp:delay"
    ∷ []

-- xml_find_child on a pointer that may be null.
unfoldable pub child_of : Option Node → Text → Option Node
unfolding xml_find_child
child_of none name = none
child_of (some n) name = xml_find_child n name

module _ (e : Env) where
  unfoldable pub iq_result : Node → Node
  unfolding with_id
  iq_result stanza =
      with_id e.xml (e.xml.new_prop (e.xml.new_node (codes "iq")) (codes "type") (codes "result"))
        (e.xml.get_prop stanza (codes "id"))

  unfoldable pub content_of : Option Node → Option Text
  content_of none = none
  content_of (some n) = e.xml.get_content n

  unfoldable pub chosen_resource : Option Text → M Text
  unfolding snprintf_s
  chosen_resource none = generate_id e 8
  chosen_resource (some content) = pure (snprintf_s 256 content)

  -- The old session of the same bare JID is told of the conflict.
  unfoldable pub end_conflict : ℕ → Option ℕ → M (Unit {0})
  end_conflict p none = pure tt
  end_conflict p (some existing) =
      if existing == p then pure tt else stream_send_error e existing (codes "conflict")

  unfoldable pub bind_result : Session → Node → Node
  unfolding iq_result full_jid_of
  bind_result s stanza =
      let x = e.xml in
      let ns : Text = codes "urn:ietf:params:xml:ns:xmpp-bind" in
      let jid = x.with_content (x.under_ns (x.new_node (codes "jid")) ns) (full_jid_of s) in
      x.new_child (iq_result stanza) (x.new_child (x.set_ns (x.new_node (codes "bind")) ns) jid)

  unfoldable pub bind_session : ℕ → Node → M (Unit {0})
  bind_session p stanza = do
    resource ←
        chosen_resource
          (content_of (child_of (xml_find_child stanza (codes "bind")) (codes "resource")))
    s ← load p
    existing ← session_find_by_jid (bare_jid_of s)
    end_conflict p existing
    modify p (λ t. record t { jid_resource = snprintf_s 256 resource; state = bound })
    u ← load p
    stanza_send e p (bind_result u stanza)

  unfoldable pub session_handle_bind : ℕ → Node → M (Unit {0})
  session_handle_bind p stanza = do
    s ← load p
    if may_bind s.state
        then bind_session p stanza
        else stanza_send_error e p stanza (codes "cancel") (codes "not-allowed")

  unfoldable pub session_handle_session_iq : ℕ → Node → M (Unit {0})
  session_handle_session_iq p stanza = do
    modify p (λ s. record s { state = session_active })
    stanza_send e p (iq_result stanza)

  unfoldable pub disco_result : Session → Node → Node → Node
  unfolding with_id full_jid_of
  disco_result s stanza query =
      let x = e.xml in
      let result = x.new_prop (x.new_node (codes "iq")) (codes "type") (codes "result") in
      let addressed =
        x.new_prop (x.new_prop result (codes "from") e.domain) (codes "to") (full_jid_of s) in
      x.new_child (with_id x addressed (x.get_prop stanza (codes "id"))) query

  unfoldable pub add_features : Node → Text → List Text → Node
  add_features query ns [] = query
  add_features query ns (f ∷ fs) =
      let x = e.xml in
      add_features
        (x.new_child query
          (x.new_prop (x.under_ns (x.new_node (codes "feature")) ns) (codes "var") f))
        ns fs

  unfoldable pub info_query : Node
  unfolding add_features features_list
  info_query =
      let x = e.xml in
      let ns : Text = codes "http://jabber.org/protocol/disco#info" in
      let named = x.under_ns (x.new_node (codes "identity")) ns in
      let identity =
        x.new_prop
          (x.new_prop (x.new_prop named (codes "category") (codes "server")) (codes "type")
            (codes "im"))
          (codes "name") (codes "xmppd") in
      add_features (x.new_child (x.set_ns (x.new_node (codes "query")) ns) identity) ns
        features_list

  unfoldable pub disco_handle_info : ℕ → Node → M (Unit {0})
  disco_handle_info p stanza = do s ← load p; stanza_send e p (disco_result s stanza info_query)

  unfoldable pub disco_handle_items : ℕ → Node → M (Unit {0})
  disco_handle_items p stanza = do
    s ← load p
    stanza_send e p (
        disco_result s stanza (
          e.xml.set_ns (e.xml.new_node (codes "query"))
            (codes "http://jabber.org/protocol/disco#items")))
