-- ===== src/Disk/Documents.antt =====
-- What c/src/roster.c relies on in libxml2: attributes and children that are added are found again,
-- and what <item/> then says of an item of a roster.
use jabber.Base.{
  ◌≡◌, refl, ◌∙◌, Bool, true, false, Option, none, some, List, [], ◌∷◌, ◌++◌, Text, codes, str_eq,
  length, ◌==◌, if◌then◌else◌, Bool-cases, inl, inr,
}
use jabber.Xml.{Node, Nodes, element, other, nil, cons, LibXml, node_name, children}
use jabber.World.{RosterItem, Env}
use jabber.Disk.{item_props}

unfoldable pub is_element : Node → Bool
is_element (element name ns attrs kids) = true
is_element (other t) = false

unfoldable pub elements : Nodes → List Node
elements nil = []
elements (cons (element name ns attrs kids) rest) = element name ns attrs kids ∷ elements rest
elements (cons (other t) rest) = elements rest

-- Building trees: xmlNewNode, xmlNewProp, xmlGetProp and xmlAddChild, as libxml2 documents them.
pub record BuildsTrees (x : LibXml) : Type 0 where
  pub node : (t : Text) → (node_name (x.new_node t) ≡ t) × (is_element (x.new_node t) ≡ true)
  pub no_prop : (t k : Text) → x.get_prop (x.new_node t) k ≡ none
  pub no_child : (t : Text) → elements (children (x.new_node t)) ≡ []
  pub prop_found :
      (n : Node) (k v : Text)
      → is_element n ≡ true
      → x.get_prop n k ≡ none
      → x.get_prop (x.new_prop n k v) k ≡ some v
  pub prop_other :
      (n : Node) (k j v : Text)
      → str_eq k j ≡ false
      → x.get_prop (x.new_prop n k v) j ≡ x.get_prop n j
  pub prop_kept :
      (n : Node) (k v : Text)
      → (node_name (x.new_prop n k v) ≡ node_name n)
        × (is_element (x.new_prop n k v) ≡ is_element n)
  pub child_kept :
      (n c : Node)
      → (node_name (x.new_child n c) ≡ node_name n) × (is_element (x.new_child n c) ≡ is_element n)
  pub child_last :
      (n c : Node)
      → is_element n ≡ true
      → is_element c ≡ true
      → elements (children (x.new_child n c)) ≡ elements (children n) ++ c ∷ []

-- An <item/> with these attributes.
pub record IsItem (x : LibXml) (n : Node) (jid name subscription ask : Option Text) : Type 0 where
  pub named : node_name n ≡ codes "item"
  pub is_one : is_element n ≡ true
  pub jid_is : x.get_prop n (codes "jid") ≡ jid
  pub name_is : x.get_prop n (codes "name") ≡ name
  pub subscription_is : x.get_prop n (codes "subscription") ≡ subscription
  pub ask_is : x.get_prop n (codes "ask") ≡ ask

abbrev pub optional : Bool → Text → Option Text
optional b t = if b then none else some t

-- What an item's <item/> says.
abbrev pub Says : LibXml → Node → RosterItem → Type 0
Says x n i =
    IsItem x n (some i.jid) (optional (length i.name == 0) i.name) (some i.subscription)
      (if i.ask_subscribe then some (codes "subscribe") else none)

module _ (x : LibXml) (b : BuildsTrees x) (d : Node) (v : Text) where
  jid-IsItem :
      (n s a : Option Text)
      → IsItem x d none n s a
      → IsItem x (x.new_prop d (codes "jid") v) (some v) n s a
  unfolding str_eq
  jid-IsItem n s a h = record {
    named = (b.prop_kept d (codes "jid") v).0 ∙ h.named;
    is_one = (b.prop_kept d (codes "jid") v).1 ∙ h.is_one;
    jid_is = b.prop_found d (codes "jid") v h.is_one h.jid_is;
    name_is = b.prop_other d (codes "jid") (codes "name") v refl ∙ h.name_is;
    subscription_is =
        b.prop_other d (codes "jid") (codes "subscription") v refl ∙ h.subscription_is;
    ask_is = b.prop_other d (codes "jid") (codes "ask") v refl ∙ h.ask_is;
  }

  name-IsItem :
      (j s a : Option Text)
      → IsItem x d j none s a
      → IsItem x (x.new_prop d (codes "name") v) j (some v) s a
  unfolding str_eq
  name-IsItem j s a h = record {
    named = (b.prop_kept d (codes "name") v).0 ∙ h.named;
    is_one = (b.prop_kept d (codes "name") v).1 ∙ h.is_one;
    jid_is = b.prop_other d (codes "name") (codes "jid") v refl ∙ h.jid_is;
    name_is = b.prop_found d (codes "name") v h.is_one h.name_is;
    subscription_is =
        b.prop_other d (codes "name") (codes "subscription") v refl ∙ h.subscription_is;
    ask_is = b.prop_other d (codes "name") (codes "ask") v refl ∙ h.ask_is;
  }

  subscription-IsItem :
      (j n a : Option Text)
      → IsItem x d j n none a
      → IsItem x (x.new_prop d (codes "subscription") v) j n (some v) a
  unfolding str_eq
  subscription-IsItem j n a h = record {
    named = (b.prop_kept d (codes "subscription") v).0 ∙ h.named;
    is_one = (b.prop_kept d (codes "subscription") v).1 ∙ h.is_one;
    jid_is = b.prop_other d (codes "subscription") (codes "jid") v refl ∙ h.jid_is;
    name_is = b.prop_other d (codes "subscription") (codes "name") v refl ∙ h.name_is;
    subscription_is = b.prop_found d (codes "subscription") v h.is_one h.subscription_is;
    ask_is = b.prop_other d (codes "subscription") (codes "ask") v refl ∙ h.ask_is;
  }

  ask-IsItem :
      (j n s : Option Text)
      → IsItem x d j n s none
      → IsItem x (x.new_prop d (codes "ask") v) j n s (some v)
  unfolding str_eq
  ask-IsItem j n s h = record {
    named = (b.prop_kept d (codes "ask") v).0 ∙ h.named;
    is_one = (b.prop_kept d (codes "ask") v).1 ∙ h.is_one;
    jid_is = b.prop_other d (codes "ask") (codes "jid") v refl ∙ h.jid_is;
    name_is = b.prop_other d (codes "ask") (codes "name") v refl ∙ h.name_is;
    subscription_is =
        b.prop_other d (codes "ask") (codes "subscription") v refl ∙ h.subscription_is;
    ask_is = b.prop_found d (codes "ask") v h.is_one h.ask_is;
  }

module _ (x : LibXml) (b : BuildsTrees x) (n : Node) (v : Text) (j s a : Option Text)
    (h : IsItem x n j none s a) where
  -- A name is written only if there is one.
  optional-IsItem :
      (empty : Bool)
      → IsItem x (if empty then n else x.new_prop n (codes "name") v) j (optional empty v) s a
  optional-IsItem true = h
  optional-IsItem false = name-IsItem x b n v j s a h

module _ (e : Env) (b : BuildsTrees e.xml) where
  blank-IsItem : IsItem e.xml (e.xml.new_node (codes "item")) none none none none
  blank-IsItem = record {
    named = (b.node (codes "item")).0;
    is_one = (b.node (codes "item")).1;
    jid_is = b.no_prop (codes "item") (codes "jid");
    name_is = b.no_prop (codes "item") (codes "name");
    subscription_is = b.no_prop (codes "item") (codes "subscription");
    ask_is = b.no_prop (codes "item") (codes "ask");
  }

  -- What `roster_save` writes for an item says it.
  pub item_props-Says :
      (i : RosterItem) → Says e.xml (item_props e (e.xml.new_node (codes "item")) i) i
  unfolding item_props
  item_props-Says i =
      let named =
        optional-IsItem e.xml b _ i.name (some i.jid) none none
          (jid-IsItem e.xml b _ i.jid none none none blank-IsItem) (length i.name == 0) in
      let subscribed =
        subscription-IsItem e.xml b _ i.subscription (some i.jid)
          (optional (length i.name == 0) i.name) none named in
      elim (Bool-cases i.ask_subscribe) [
        | inl asked ↦ rw asked (ask-IsItem e.xml b _ (codes "subscribe") _ _ _ subscribed)
        | inr not_asked ↦ rw not_asked subscribed
      ]
