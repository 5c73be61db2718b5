-- ===== src/RosterIq.antt =====
-- Roster stanzas, c/src/roster.c: `roster_push` and `roster_handle_iq`.
use jabber.Base.{
  ℕ, Bool, false, Option, none, some, List, [], ◌∷◌, Text, codes, str_eq, snprintf_s, if◌then◌else◌,
}
use jabber.Xml.{Node, xml_find_child}
use jabber.World.{RosterItem, Roster, Session, Env, M, ◌>>=◌, ◌>>◌, pure, fault, load, modify}
use jabber.Output.{stanza_send, stanza_send_error, full_jid_of}
use jabber.Roster.{
  roster_find_item, item_at, edit_item, roster_add_item, roster_remove_item, or_keep,
}
use jabber.Disk.{item_props, roster_save, has_value}
use jabber.Teardown.{ensure_roster}
use jabber.Stream.{generate_id}
use jabber.Bind.{iq_result, child_of}
use jabber.Register.{or_empty}

unfoldable pub set_roster : Roster → Session → Session
set_roster r s = record s { roster = r }

unfoldable pub subscription_or_none : Option RosterItem → Text
subscription_or_none none = codes "none"
subscription_or_none (some i) = i.subscription

unfoldable pub ask_or_not : Option RosterItem → Bool
ask_or_not none = false
ask_or_not (some i) = i.ask_subscribe

unfoldable pub found_item : Roster → Option ℕ → Option RosterItem
unfolding item_at
found_item r none = none
found_item r (some i) = item_at r.items i

-- `if (name && existing) snprintf(existing->name, …)`
unfoldable pub rename : Option ℕ → Option Text → Roster → Roster
unfolding edit_item or_keep
rename none name r = r
rename (some i) name r = edit_item r i (λ it. record it { name = or_keep 256 name it.name })

-- The roster of a contact that is added or updated: its subscription and ask are kept. The call
-- hands roster_add_item the item's own buffer, whose text it copies onto itself.
unfoldable pub upsert : Roster → Text → Option Text → Roster
unfolding roster_find_item found_item rename roster_add_item
upsert r jid name =
    let existing = roster_find_item r jid in
    let old = found_item r existing in
    rename existing name
      (roster_add_item r jid name (some (subscription_or_none old)) (ask_or_not old)).0

unfoldable pub removed_item : Text → RosterItem
unfolding snprintf_s
removed_item jid = record {
  jid = snprintf_s 512 jid;
  name = [];
  subscription = codes "remove";
  ask_subscribe = false;
}

module _ (e : Env) where
  unfoldable pub push_stanza : Session → Text → RosterItem → Node
  unfolding item_props full_jid_of
  push_stanza s id i =
      let x = e.xml in
      let ns : Text = codes "jabber:iq:roster" in
      let set = x.new_prop (x.new_node (codes "iq")) (codes "type") (codes "set") in
      let iq = x.new_prop (x.new_prop set (codes "id") id) (codes "to") (full_jid_of s) in
      x.new_child iq (
        x.new_child (x.set_ns (x.new_node (codes "query")) ns)
          (item_props e (x.under_ns (x.new_node (codes "item")) ns) i))

  unfoldable pub roster_push : ℕ → RosterItem → M (Unit {0})
  roster_push p i = do id ← generate_id e 8; s ← load p; stanza_send e p (push_stanza s id i)

  -- The push of an item by a pointer into the session's roster, which may be null.
  unfoldable pub roster_push_at : ℕ → Option ℕ → M (Unit {0})
  roster_push_at p item = do
    s ← load p
    elim (found_item s.roster item) [ none ↦ fault | some i ↦ roster_push p i ]

  unfoldable pub add_items : Node → List RosterItem → Node
  unfolding item_props
  add_items query [] = query
  add_items query (i ∷ is) =
      let x = e.xml in
      add_items
        (x.new_child query
          (item_props e (x.under_ns (x.new_node (codes "item")) (codes "jabber:iq:roster")) i))
        is

  unfoldable pub roster_result : Session → Node → Node
  unfolding iq_result full_jid_of add_items
  roster_result s stanza =
      let x = e.xml in
      x.new_child (x.new_prop (iq_result e stanza) (codes "to") (full_jid_of s)) (
        add_items (x.set_ns (x.new_node (codes "query")) (codes "jabber:iq:roster")) s.roster.items)

  unfoldable pub roster_get : ℕ → Node → M (Unit {0})
  roster_get p stanza = do s ← load p; stanza_send e p (roster_result s stanza)

  unfoldable pub roster_remove : ℕ → Node → Text → M (Unit {0})
  roster_remove p stanza jid = do
    s ← load p
    modify p (set_roster (roster_remove_item s.roster jid).0)
    _ ← roster_save e p
    stanza_send e p (iq_result e stanza)
    roster_push p (removed_item jid)

  -- `if (item) roster_push(s, item)`
  unfoldable pub push_found : ℕ → Option RosterItem → M (Unit {0})
  push_found p none = pure tt
  push_found p (some i) = roster_push p i

  unfoldable pub roster_upsert : ℕ → Node → Text → Option Text → M (Unit {0})
  roster_upsert p stanza jid name = do
    s ← load p
    modify p (set_roster (upsert s.roster jid name))
    _ ← roster_save e p
    stanza_send e p (iq_result e stanza)
    t ← load p
    push_found p (found_item t.roster (roster_find_item t.roster jid))

  unfoldable pub roster_set_item : ℕ → Node → Node → Option Text → M (Unit {0})
  roster_set_item p stanza item none =
      stanza_send_error e p stanza (codes "modify") (codes "bad-request")
  roster_set_item p stanza item (some jid) =
      if has_value (e.xml.get_prop item (codes "subscription")) (codes "remove")
      then roster_remove p stanza jid
      else roster_upsert p stanza jid (e.xml.get_prop item (codes "name"))

  unfoldable pub roster_set : ℕ → Node → Option Node → M (Unit {0})
  roster_set p stanza none = stanza_send_error e p stanza (codes "modify") (codes "bad-request")
  roster_set p stanza (some item) =
      roster_set_item p stanza item (e.xml.get_prop item (codes "jid"))

  unfoldable pub roster_handle_iq : ℕ → Node → M (Unit {0})
  roster_handle_iq p stanza = do
    ensure_roster e p
    let type = or_empty (e.xml.get_prop stanza (codes "type"))
    if str_eq type (codes "get")
        then roster_get p stanza
        else if str_eq type (codes "set")
        then roster_set p stanza (child_of (xml_find_child stanza (codes "query")) (codes "item"))
        else stanza_send_error e p stanza (codes "cancel") (codes "feature-not-implemented")
