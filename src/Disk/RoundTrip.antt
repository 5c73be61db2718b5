-- ===== src/Disk/RoundTrip.antt =====
-- A roster that is saved is the one that is loaded again, c/src/roster.c.
use jabber.Base.{
  ℕ, suc, ◌-◌, ◌≤◌, ◌<◌, ◌≡◌, refl, ◌∙◌, Bool, true, false, none, some, List, [], ◌∷◌, ◌++◌, Text,
  codes, str_eq, str_eq_refl, str_eq_iff, snprintf_s, take-all, length, All, ◌==◌, if◌then◌else◌,
  arith,
}
use mathlib.Core.List.{append_assoc, append-nil}
use jabber.Xml.{Node, Nodes, element, other, nil, cons, LibXml, node_name, children}
use jabber.World.{RosterItem, Roster, World, Env, ◌>>=◌, pure, gets, change, update_text}
use jabber.World.Steps.{Runs}
use jabber.Roster.{max_roster_items, or_keep}
use jabber.Disk.{
  has_value, user_path, item_of_node, items_of_nodes, roster_of_root, roster_of_file, item_props,
  roster_document, roster_load_from_path, roster_save_to_path, roster_load_for_user,
  roster_save_for_user,
}
use jabber.Disk.Documents.{is_element, elements, BuildsTrees, Says, optional, item_props-Says}

-- The texts of an item end within their buffers.
pub record IsStored (i : RosterItem) : Type 0 where
  pub jid : length i.jid < 512
  pub name : length i.name < 256
  pub subscription : length i.subscription < 16

-- Two nodes that say the same by their names and attributes.
abbrev pub Alike : LibXml → List Node → List Node → Type 0
Alike x [] [] = Unit
Alike x [] (b ∷ bs) = ⊥
Alike x (a ∷ as') [] = ⊥
Alike x (a ∷ as') (b ∷ bs) =
    (node_name a ≡ node_name b)
    × (is_element a ≡ is_element b)
    × ((k : Text) → x.get_prop a k ≡ x.get_prop b k)
    × Alike x as' bs

-- xmlSaveFormatFile, then xmlReadFile: the document, but for blanks between its elements.
pub record ReadsBack (x : LibXml) (doc : Node) : Type 0 where
  pub back : Node
  pub read : x.read_root (x.save_root doc) ≡ some back
  pub named : node_name back ≡ node_name doc
  pub inside : Alike x (elements (children back)) (elements (children doc))

module _ (e : Env) where
  abbrev AllSay : List Node → List RosterItem → Type 0
  AllSay [] [] = Unit
  AllSay [] (i ∷ is) = ⊥
  AllSay (n ∷ ns) [] = ⊥
  AllSay (n ∷ ns) (i ∷ is) = Says e.xml n i × AllSay ns is

  or_keep-stored : (size : ℕ) (t old : Text) → length t < size → or_keep size (some t) old ≡ t
  unfolding or_keep snprintf_s
  or_keep-stored size t old fits = take-all (size - 1) t (omega arith)

  name-stored : (t : Text) → length t < 256 → or_keep 256 (optional (length t == 0) t) [] ≡ t
  unfolding or_keep
  name-stored [] fits = refl
  name-stored (c ∷ cs) fits =
      let some_name : (suc (length cs) == 0) ≡ false = ground arith in
      rw some_name (or_keep-stored 256 (c ∷ cs) [] fits)

  ask-stored :
      (b : Bool) → has_value (if b then some (codes "subscribe") else none) (codes "subscribe") ≡ b
  unfolding has_value str_eq
  ask-stored true = refl
  ask-stored false = refl

  item_of_node-Says :
      (n : Node) (i : RosterItem) → Says e.xml n i → IsStored i → item_of_node e n ≡ i
  unfolding item_of_node
  item_of_node-Says n i says fits =
      rw
        (
          says.jid_is,
          says.name_is,
          says.subscription_is,
          says.ask_is,
          or_keep-stored 512 i.jid [] fits.jid,
          name-stored i.name fits.name,
          or_keep-stored 16 i.subscription (codes "none") fits.subscription,
          ask-stored i.ask_subscribe,
        )
        refl

  items_of_nodes-AllSay :
      (room : ℕ) (ns : Nodes) (is : List RosterItem)
      → AllSay (elements ns) is
      → All IsStored is
      → length is ≤ room
      → items_of_nodes e room ns ≡ is
  unfolding items_of_nodes elements node_name
  items_of_nodes-AllSay room nil [] says fits few = refl
  items_of_nodes-AllSay room nil (i ∷ is) says fits few = absurd says
  items_of_nodes-AllSay room (cons (other t) rest) is says fits few =
      items_of_nodes-AllSay room rest is says fits few
  items_of_nodes-AllSay room (cons (element name ns attrs kids) rest) [] says fits few = absurd says
  items_of_nodes-AllSay room (cons (element name ns attrs kids) rest) (i ∷ is) says fits few =
      let an_item : str_eq name (codes "item") ≡ true =
        (str_eq_iff name (codes "item")).1 says.0.named in
      let some_room : (room == 0) ≡ false = ground arith in
      rw (an_item, some_room, items_of_nodes)
        (rw
          (
            item_of_node-Says (element name ns attrs kids) i says.0 fits.0,
            items_of_nodes-AllSay (room - 1) rest is says.1 fits.1 (omega arith),
          )
          refl)

  AllSay-append :
      (ns : List Node) (is : List RosterItem) (n : Node) (i : RosterItem)
      → AllSay ns is
      → Says e.xml n i
      → AllSay (ns ++ n ∷ []) (is ++ i ∷ [])
  AllSay-append [] [] n i h says = (says, tt)
  AllSay-append [] (j ∷ is) n i h says = absurd h
  AllSay-append (m ∷ ns) [] n i h says = absurd h
  AllSay-append (m ∷ ns) (j ∷ is) n i h says = (h.0, AllSay-append ns is n i h.1 says)

  -- What is read back says the same items.
  Alike-AllSay :
      (as' bs : List Node) (is : List RosterItem)
      → Alike e.xml as' bs
      → AllSay bs is
      → AllSay as' is
  Alike-AllSay [] [] [] alike says = tt
  Alike-AllSay [] [] (i ∷ is) alike says = absurd says
  Alike-AllSay [] (b ∷ bs) is alike says = absurd alike
  Alike-AllSay (a ∷ as') [] is alike says = absurd alike
  Alike-AllSay (a ∷ as') (b ∷ bs) [] alike says = absurd says
  Alike-AllSay (a ∷ as') (b ∷ bs) (i ∷ is) alike says =
      let (named, is_one, props, rest) = alike in
      (
        record {
          named = named ∙ says.0.named;
          is_one = is_one ∙ says.0.is_one;
          jid_is = props (codes "jid") ∙ says.0.jid_is;
          name_is = props (codes "name") ∙ says.0.name_is;
          subscription_is = props (codes "subscription") ∙ says.0.subscription_is;
          ask_is = props (codes "ask") ∙ says.0.ask_is;
        },
        Alike-AllSay as' bs is rest says.1,
      )

module _ (e : Env) (b : BuildsTrees e.xml) where
  abbrev item_node : RosterItem → Node
  item_node i = item_props e (e.xml.new_node (codes "item")) i

  abbrev one_more : Node → RosterItem → Node
  one_more root i = e.xml.new_child root (item_node i)

  document-named :
      (root : Node) (is : List RosterItem) → node_name (roster_document e root is) ≡ node_name root
  unfolding roster_document
  document-named root [] = refl
  document-named root (i ∷ is) =
      document-named (one_more root i) is ∙ (b.child_kept root (item_node i)).0

  document-AllSay :
      (root : Node) (before is : List RosterItem)
      → is_element root ≡ true
      → AllSay e (elements (children root)) before
      → AllSay e (elements (children (roster_document e root is))) (before ++ is)
  unfolding roster_document
  document-AllSay root before [] one says = rw (append-nil before) says
  document-AllSay root before (i ∷ is) one says =
      let item : Says e.xml (item_node i) i = item_props-Says e b i in
      let more : AllSay e (elements (children (one_more root i))) (before ++ i ∷ []) =
        rw (b.child_last root (item_node i) one item.is_one)
          (AllSay-append e _ before (item_node i) i says item) in
      rw (append_assoc before (i ∷ []) is) at (
        document-AllSay (one_more root i) (before ++ i ∷ []) is
          ((b.child_kept root (item_node i)).1 ∙ one) more)

  abbrev pub document : List RosterItem → Node
  document is = roster_document e (e.xml.new_node (codes "roster")) is

  roster_of_root-back :
      (is : List RosterItem) (r : ReadsBack e.xml (document is))
      → All IsStored is
      → length is ≤ max_roster_items
      → roster_of_root e (some r.back) ≡ record { items = is; loaded = true }
  unfolding roster_of_root
  roster_of_root-back is r fits few =
      let root : Node = e.xml.new_node (codes "roster") in
      let named : node_name r.back ≡ codes "roster" =
        r.named ∙ document-named root is ∙ (b.node (codes "roster")).0 in
      let says : AllSay e (elements (children (document is))) is =
        document-AllSay root [] is (b.node (codes "roster")).1
          (rw (b.no_child (codes "roster")) tt) in
      let read : items_of_nodes e max_roster_items (children r.back) ≡ is =
        items_of_nodes-AllSay e max_roster_items (children r.back) is
          (Alike-AllSay e _ _ is r.inside says) fits few in
      rw ((str_eq_iff (node_name r.back) (codes "roster")).1 named, read) refl

  -- A roster that the system lets be saved is loaded again as it was, in the order of its items,
  -- where each text fits its buffer and there are at most 128 items. libxml2 builds trees as it
  -- documents, and reads the file back as the document that it wrote but for blanks.
  pub roster_save-load :
      (user : Text) (r : Roster) (w : World)
      → e.writable (user_path e 1280 user (codes "roster.xml")) ≡ true
      → All IsStored r.items
      → length r.items ≤ max_roster_items
      → ReadsBack e.xml (document r.items)
      → (v : World) × Runs (roster_save_for_user e user r) w true v
        × Runs (roster_load_for_user e user) v (record { items = r.items; loaded = true }) v
  unfolding roster_save_for_user roster_load_for_user roster_save_to_path roster_load_from_path
      roster_of_file change gets update_text pure ◌>>=◌
  roster_save-load user r w ok fits few reads =
      let path : Text = user_path e 1280 user (codes "roster.xml") in
      let content : List ℕ = e.xml.save_root (document r.items) in
      let v : World = record w { files = update_text w.files path (some content) } in
      (
        v,
        rw ok refl,
        rw (str_eq_refl path, reads.read, roster_of_root-back r.items reads fits few) refl,
      )
