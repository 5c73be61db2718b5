-- ===== src/Message.antt =====
-- Messages, c/src/message.c: routing, the offline store and its delivery.
pub mod Order
pub mod Sorted
pub mod Reading
pub mod Delivery
pub mod Collected
pub mod Inbox
mod Tests
use jabber.Base.{
  ℕ, ◌+◌, ◌-◌, Bool, true, false, not, ◌&&◌, ◌||◌, Option, none, some, List, [], ◌∷◌, ◌++◌, Text,
  codes, str_eq, snprintf_s, length, drop, ltb, leb, ◌==◌, if◌then◌else◌,
}
use jabber.Jid.{JidParts, JidResult, unwritten, malformed, parsed, overread, jid_parse, jid_bare}
use jabber.Xml.{Node}
use jabber.World.{
  World, Env, M, ◌>>=◌, ◌>>◌, pure, fault, gets, load, change, next_call, when, for_each,
}
use jabber.Output.{
  stanza_serialize, stanza_send, stanza_send_error, session_find_by_jid, full_jid_of,
}
use jabber.User.{
  joined, is_hidden, names_in, in_dir, unlink_file, write_file, user_exists, make_dir,
}
use jabber.Register.{or_empty}
use Order.{sort_names, decimal, int_max, atoi}

unfoldable pub type_or_normal : Option Text → Text
type_or_normal none = codes "normal"
type_or_normal (some t) = t

unfoldable pub max_seq : ℕ → List Text → Option ℕ
unfolding is_hidden atoi
max_seq m [] = some m
max_seq m (n ∷ ns) = elim (is_hidden n) [
  | true ↦ max_seq m ns
  | false ↦ elim (atoi n) [ none ↦ none | some k ↦ max_seq (if ltb m k then k else m) ns ]
]

-- snprintf("%04d.xml", n)
unfoldable pub offline_name : ℕ → Text
unfolding decimal
offline_name n = decimal 4 n ++ codes ".xml"

-- At least five bytes that end in ".xml".
unfoldable pub is_xml_name : Text → Bool
is_xml_name n = leb 5 (length n) && str_eq (drop (length n - 4) n) (codes ".xml")

-- The names that the first loop collects, at most `room` of them, in 64 bytes each.
unfoldable pub offline_names : ℕ → List Text → List Text
unfolding is_hidden is_xml_name snprintf_s
offline_names room [] = []
offline_names room (n ∷ ns) = elim (room == 0) [
  | true ↦ []
  | false ↦ elim (is_hidden n || not (is_xml_name n)) [
    | true ↦ offline_names room ns
    | false ↦ snprintf_s 64 n ∷ offline_names (room - 1) ns
  ]
]

module _ (e : Env) where
  unfoldable pub offline_dir : Text → Text
  unfolding snprintf_s
  offline_dir user = snprintf_s 1280 (e.datadir ++ (codes "/" ++ (user ++ codes "/offline")))

  unfoldable pub with_delay : Text → Node → Node
  with_delay stamp stanza =
      let x = e.xml in
      let delay = x.set_ns (x.new_node (codes "delay")) (codes "urn:xmpp:delay") in
      x.new_child stanza
        (x.new_prop (x.new_prop delay (codes "from") e.domain) (codes "stamp") stamp)

  -- The file behind the greatest number; that number plus 1 has to fit an int.
  unfoldable pub store_bytes : Text → ℕ → Option Text → M (Unit {0})
  store_bytes dir greatest none = pure tt
  store_bytes dir greatest (some bytes) =
      if leb int_max greatest
      then fault
      else do _ ← write_file e 1536 dir (offline_name (greatest + 1)) bytes; pure tt

  unfoldable pub store_behind : Text → Option ℕ → Node → M (Unit {0})
  store_behind dir none stanza = fault
  store_behind dir (some greatest) stanza = do
    n ← next_call
    store_bytes dir greatest (stanza_serialize e (with_delay (e.stamp n) stanza))

  unfoldable pub message_store_offline : Text → Node → M (Unit {0})
  message_store_offline user stanza = do
    let dir = offline_dir user
    _ ← make_dir e dir (joined e.datadir user) (codes "offline")
    names ← gets (λ w. names_in (w.dirs dir))
    store_behind dir (max_seq 0 names) stanza

  unfoldable pub deliver_or_store : Option ℕ → Text → Text → Node → M (Unit {0})
  deliver_or_store (some target) type user stanza = stanza_send e target stanza
  deliver_or_store none type user stanza =
      when (not (str_eq type (codes "error"))) (message_store_offline user stanza)

  unfoldable pub route_message : ℕ → Node → JidParts → M (Unit {0})
  unfolding jid_bare full_jid_of
  route_message p stanza to = do
    s ← load p
    target ← session_find_by_jid (jid_bare to.local to.domain 512)
    deliver_or_store target (type_or_normal (e.xml.get_prop stanza (codes "type"))) to.local
        (e.xml.set_prop stanza (codes "from") (full_jid_of s))

  unfoldable pub check_target : ℕ → Node → JidParts → M (Unit {0})
  check_target p stanza to =
      if length to.local == 0
      then stanza_send_error e p stanza (codes "modify") (codes "jid-malformed")
      else if not (str_eq to.domain e.domain)
      then stanza_send_error e p stanza (codes "cancel") (codes "item-not-found")
      else do
        there ← user_exists e to.local
        if there
            then route_message p stanza to
            else stanza_send_error e p stanza (codes "cancel") (codes "item-not-found")

  unfoldable pub handle_parsed : ℕ → Node → JidResult → M (Unit {0})
  handle_parsed p stanza unwritten =
      stanza_send_error e p stanza (codes "modify") (codes "jid-malformed")
  handle_parsed p stanza (malformed to) =
      stanza_send_error e p stanza (codes "modify") (codes "jid-malformed")
  handle_parsed p stanza overread = fault
  handle_parsed p stanza (parsed to) = check_target p stanza to

  unfoldable pub handle_message : ℕ → Node → M (Unit {0})
  unfolding jid_parse or_empty
  handle_message p stanza =
      handle_parsed p stanza (jid_parse (or_empty (e.xml.get_prop stanza (codes "to"))) 256 256 256)

  unfoldable pub send_read : ℕ → Option Node → M (Unit {0})
  send_read p none = pure tt
  send_read p (some root) = stanza_send e p root

  unfoldable pub read_at : Text → World → Option Node
  read_at path w = elim (w.files path) [ none ↦ none | some content ↦ e.xml.read_root content ]

  unfoldable pub deliver_file : ℕ → Text → Text → M (Unit {0})
  deliver_file p dir name = do
    root ← gets (read_at (in_dir e 1536 dir name))
    send_read p root
    change (unlink_file (in_dir e 1536 dir name) dir name)

  unfoldable pub message_deliver_offline : ℕ → M (Unit {0})
  message_deliver_offline p = do
    s ← load p
    let dir = offline_dir s.jid_local
    names ← gets (λ w. names_in (w.dirs dir))
    for_each (deliver_file p dir) (sort_names (offline_names 256 names))
