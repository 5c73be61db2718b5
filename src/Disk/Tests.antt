-- ===== src/Disk/Tests.antt =====
-- The roster of one contact, on a document library that indents what it saves.
use jabber.Base.{
  ◌≡◌, refl, true, false, none, some, [], ◌∷◌, ◌++◌, Text, codes, str_eq, str_eq_refl, arith,
}
use jabber.Xml.{Node, Nodes, element, other, nil, cons, LibXml, node_name, children}
use jabber.World.{RosterItem, Roster, World, Env}
use jabber.World.Steps.{Runs}
use jabber.Sample.{
  simple_xml, sample_env, one_client, snoc, lookup_prop, with_prop, prop_of, with_child,
}
use jabber.Disk.{roster_save_for_user, roster_load_for_user, item_props, roster_document}
use jabber.Disk.Documents.{is_element, elements, BuildsTrees}
use jabber.Disk.RoundTrip.{ReadsBack, document, roster_save-load}

abbrev bob : RosterItem
bob = record {
  jid = codes "bob@localhost";
  name = codes "Bob";
  subscription = codes "both";
  ask_subscribe = false;
}

abbrev bob_roster : Roster
bob_roster = record { items = bob ∷ []; loaded = true }

abbrev bob_node : Node
bob_node =
    element (codes "item") none
      ((codes "subscription", codes "both")
        ∷ (codes "name", codes "Bob")
        ∷ (codes "jid", codes "bob@localhost")
        ∷ [])
      nil

-- The document as it is read back, with a line of its own for the contact.
abbrev indented : Node
indented =
    element (codes "roster") none []
      (cons (other (codes "\n  ")) (cons bob_node (cons (other (codes "\n")) nil)))

abbrev file_xml : LibXml
file_xml = record simple_xml { read_root = λ b. some indented; save_root = λ n. codes "<roster>" }

abbrev file_env : Env
file_env = record sample_env { xml = file_xml }

elements-snoc :
    (ns : Nodes) (c : Node) → is_element c ≡ true → elements (snoc ns c) ≡ elements ns ++ c ∷ []
unfolding elements is_element
elements-snoc nil (element name ns attrs kids) h = refl
elements-snoc nil (other t) h = cc
elements-snoc (cons (element name ns attrs kids) rest) c h = ground (arith, elements-snoc rest c h)
elements-snoc (cons (other t) rest) c h = elements-snoc rest c h

prop_found_lem :
    (n : Node) (k v : Text) → is_element n ≡ true → prop_of (with_prop n k v) k ≡ some v
unfolding is_element lookup_prop
prop_found_lem (element name ns attrs kids) k v h = rw (str_eq_refl k) refl
prop_found_lem (other t) k v h = cc

prop_other_lem :
    (n : Node) (k j v : Text) → str_eq k j ≡ false → prop_of (with_prop n k v) j ≡ prop_of n j
unfolding lookup_prop
prop_other_lem (element name ns attrs kids) k j v h = rw h refl
prop_other_lem (other t) k j v h = refl

prop_kept_lem :
    (n : Node) (k v : Text)
    → (node_name (with_prop n k v) ≡ node_name n) × (is_element (with_prop n k v) ≡ is_element n)
unfolding node_name is_element
prop_kept_lem (element name ns attrs kids) k v = (refl, refl)
prop_kept_lem (other t) k v = (refl, refl)

child_kept_lem :
    (n c : Node)
    → (node_name (with_child n c) ≡ node_name n) × (is_element (with_child n c) ≡ is_element n)
unfolding node_name is_element
child_kept_lem (element name ns attrs kids) c = (refl, refl)
child_kept_lem (other t) c = (refl, refl)

child_last_lem :
    (n c : Node)
    → is_element n ≡ true
    → is_element c ≡ true
    → elements (children (with_child n c)) ≡ elements (children n) ++ c ∷ []
unfolding children is_element
child_last_lem (element name ns attrs kids) c h k = elements-snoc kids c k
child_last_lem (other t) c h k = cc

file_xml-BuildsTrees : BuildsTrees file_xml
unfolding node_name is_element elements children lookup_prop
file_xml-BuildsTrees = record {
  node = λ t. (refl, refl);
  no_prop = λ t k. refl;
  no_child = λ t. refl;
  prop_found = λ n k v h absent. prop_found_lem n k v h;
  prop_other = prop_other_lem;
  prop_kept = prop_kept_lem;
  child_kept = child_kept_lem;
  child_last = child_last_lem;
}

bob-ReadsBack : ReadsBack file_xml (document file_env file_xml-BuildsTrees (bob ∷ []))
unfolding node_name is_element elements children roster_document item_props
bob-ReadsBack = record {
  back = indented;
  read = refl;
  named = refl;
  inside = (refl, refl, λ k. refl, tt);
}

roster_save-load_example :
    (v : World) × Runs (roster_save_for_user file_env (codes "al") bob_roster) one_client true v
    × Runs (roster_load_for_user file_env (codes "al")) v bob_roster v
roster_save-load_example =
    roster_save-load file_env file_xml-BuildsTrees (codes "al") bob_roster one_client refl
      (record { jid = omega arith; name = omega arith; subscription = omega arith }, tt)
      (omega arith) bob-ReadsBack
