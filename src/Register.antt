-- ===== src/Register.antt =====
-- In-band registration, c/src/register.c.
use jabber.Base.{
  ℕ, Bool, true, false, not, ◌||◌, Option, none, some, [], ◌∷◌, Text, codes, str_eq, snprintf_s,
  length, ◌==◌, if◌then◌else◌,
}
use jabber.Xml.{Node, Nodes, element, other, nil, cons, LibXml, children, first_element, find_named}
use jabber.World.{Session, Env, M, ◌>>=◌, ◌>>◌, load, modify}
use jabber.Output.{stanza_send, stanza_send_error, full_jid_of}
use jabber.User.{
  Created, created, conflict, invalid_username, io_error, is_some, user_create,
  user_change_password, user_delete,
}

-- `attr ? attr : ""`
unfoldable pub or_empty : Option Text → Text
or_empty none = []
or_empty (some t) = t

-- `id[0]` guards the attribute.
unfoldable pub with_some_id : LibXml → Node → Text → Node
with_some_id x node [] = node
with_some_id x node (c ∷ cs) = x.new_prop node (codes "id") (c ∷ cs)

unfoldable pub kids_of : Option Node → Nodes
unfolding children
kids_of none = nil
kids_of (some n) = children n

module _ (e : Env) where
  unfoldable pub result_from : Session → Text → Bool → Node
  unfolding with_some_id full_jid_of
  result_from s id include_to =
      let x = e.xml in
      let result = x.new_prop (x.new_node (codes "iq")) (codes "type") (codes "result") in
      let sent = x.new_prop (with_some_id x result id) (codes "from") e.domain in
      if include_to then x.new_prop sent (codes "to") (full_jid_of s) else sent

  unfoldable pub send_result_iq : ℕ → Text → Bool → M (Unit {0})
  send_result_iq p id include_to = do s ← load p; stanza_send e p (result_from s id include_to)

  unfoldable pub register_form : Node
  register_form =
      let x = e.xml in
      let ns : Text = codes "jabber:iq:register" in
      let text =
        x.with_content (x.under_ns (x.new_node (codes "instructions")) ns)
          (codes "Choose a username and password.") in
      x.new_child
        (x.new_child (x.new_child (x.set_ns (x.new_node (codes "query")) ns) text)
          (x.under_ns (x.new_node (codes "username")) ns))
        (x.under_ns (x.new_node (codes "password")) ns)

  -- The content of the last child of a name, and what an earlier one left.
  unfoldable pub last_content : Text → Option Text → Nodes → Option Text
  last_content name found nil = found
  last_content name found (cons (other t) rest) = last_content name found rest
  last_content name found (cons (element n ns attrs kids) rest) =
      last_content name
        (if str_eq n name then e.xml.get_content (element n ns attrs kids) else found) rest

  unfoldable pub register_get : ℕ → Text → M (Unit {0})
  register_get p id = do
    s ← load p
    stanza_send e p (e.xml.new_child (result_from s id s.authenticated) register_form)

  unfoldable pub register_remove : ℕ → Node → Text → M (Unit {0})
  unfolding snprintf_s
  register_remove p stanza id = do
    s ← load p
    if not s.authenticated
        then stanza_send_error e p stanza (codes "cancel") (codes "not-allowed")
        else do
          send_result_iq p id true
          user_delete e (snprintf_s 256 s.jid_local)
          modify p (λ t. record t { teardown_pending = true })

  unfoldable pub answer_created : ℕ → Node → Text → Created → M (Unit {0})
  answer_created p stanza id created = send_result_iq p id false
  answer_created p stanza id conflict =
      stanza_send_error e p stanza (codes "cancel") (codes "conflict")
  answer_created p stanza id invalid_username =
      stanza_send_error e p stanza (codes "modify") (codes "not-acceptable")
  answer_created p stanza id io_error =
      stanza_send_error e p stanza (codes "wait") (codes "internal-server-error")

  unfoldable pub change_own_password : ℕ → Node → Text → Text → Text → M (Unit {0})
  change_own_password p stanza id uname pw = do
    s ← load p
    if not (str_eq uname s.jid_local)
        then stanza_send_error e p stanza (codes "cancel") (codes "not-allowed")
        else do
          done ← user_change_password e uname pw
          if done
              then send_result_iq p id true
              else stanza_send_error e p stanza (codes "wait") (codes "internal-server-error")

  unfoldable pub register_fields : ℕ → Node → Text → Text → Text → M (Unit {0})
  register_fields p stanza id uname pw =
      if length uname == 0 || length pw == 0
      then stanza_send_error e p stanza (codes "modify") (codes "bad-request")
      else do
        s ← load p
        if s.authenticated
            then change_own_password p stanza id uname pw
            else do rc ← user_create e uname pw; answer_created p stanza id rc

  unfoldable pub register_set : ℕ → Node → Text → Nodes → M (Unit {0})
  unfolding or_empty find_named
  register_set p stanza id kids =
      if is_some (find_named (codes "remove") kids)
      then register_remove p stanza id
      else register_fields p stanza id (or_empty (last_content (codes "username") none kids))
          (or_empty (last_content (codes "password") none kids))

  unfoldable pub register_handle_iq : ℕ → Node → M (Unit {0})
  register_handle_iq p stanza =
      let type : Text = or_empty (e.xml.get_prop stanza (codes "type")) in
      let id : Text = or_empty (e.xml.get_prop stanza (codes "id")) in
      if str_eq type (codes "get")
      then register_get p id
      else if str_eq type (codes "set")
      then register_set p stanza id (kids_of (first_element (children stanza)))
      else stanza_send_error e p stanza (codes "cancel") (codes "bad-request")
