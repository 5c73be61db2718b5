-- ===== src/Xml.antt =====
-- The document tree of libxml2 as c/ uses it, and the look-ups of c/src/xml.c.
-- The calls of libxml2 are the record `LibXml`, a parameter.
use jabber.Base.{ℕ, Bool, true, false, ◌&&◌, Option, none, some, List, Text, str_eq, if◌then◌else◌}

-- xmlNode: an element with its name, the URI of its namespace, its attributes and its children, or
-- a node of another type with its text.
mutual
  pub data Node : Type 0 where
    element : Text → Option Text → List (Text × Text) → Nodes → Node
    other : Text → Node

  pub data Nodes : Type 0 where
    nil : Nodes
    cons : Node → Nodes → Nodes

pub record LibXml : Type 0 where
  -- xmlNewNode(NULL, name)
  pub new_node : Text → Node
  -- xmlNewProp, xmlSetProp, xmlGetProp
  pub new_prop : Node → Text → Text → Node
  pub set_prop : Node → Text → Text → Node
  pub get_prop : Node → Text → Option Text
  -- xmlNewNs(node, uri, NULL) and xmlSetNs(node, ns)
  pub set_ns : Node → Text → Node
  -- the ns argument of xmlNewChild: the declaration of the parent
  pub under_ns : Node → Text → Node
  -- xmlNewNs(node, uri, prefix), which adds to node->nsDef; whether nsDef has a URI
  pub declare_ns : Node → Option Text → Text → Node
  pub declares : Node → Text → Bool
  -- xmlSetNs(node, ns), with the declaration of a prefix and a URI, or with the first one of a URI
  pub use_ns : Node → Option Text → Text → Node
  pub use_first_ns : Node → Text → Node
  -- xmlNewNsProp(node, ns, name, value), with the first declaration of a URI
  pub new_ns_prop : Node → Text → Text → Text → Node
  -- xmlNewChild and xmlAddChild: the child behind the others of its parent
  pub new_child : Node → Node → Node
  -- the content argument of xmlNewChild
  pub with_content : Node → Text → Node
  -- xmlNodeAddContentLen
  pub add_content : Node → Text → Node
  -- xmlNodeGetContent
  pub get_content : Node → Option Text
  -- xmlNodeDump: `none` where it answers a negative length
  pub dump : Node → Option Text
  -- xmlReadFile and xmlDocGetRootElement on a file's content; xmlSaveFormatFile's content
  pub read_root : List ℕ → Option Node
  pub save_root : Node → List ℕ

unfoldable pub node_name : Node → Text
node_name (element name ns attrs kids) = name
node_name (other t) = t

-- `node->ns`
unfoldable pub has_ns : Node → Bool
has_ns (element name (some ns) attrs kids) = true
has_ns _ = false

-- node->ns ? node->ns->href : ""
unfoldable pub node_ns : Node → Text
node_ns (element name (some ns) attrs kids) = ns
node_ns (element name none attrs kids) = List.[]
node_ns (other t) = List.[]

unfoldable pub children : Node → Nodes
children (element name ns attrs kids) = kids
children (other t) = nil

-- `while (child && child->type != XML_ELEMENT_NODE) child = child->next;`
unfoldable pub first_element : Nodes → Option Node
first_element nil = none
first_element (cons (element name ns attrs kids) rest) = some (element name ns attrs kids)
first_element (cons (other t) rest) = first_element rest

unfoldable pub find_named : Text → Nodes → Option Node
find_named name nil = none
find_named name (cons (element n ns attrs kids) rest) =
    if str_eq n name then some (element n ns attrs kids) else find_named name rest
find_named name (cons (other t) rest) = find_named name rest

unfoldable pub xml_find_child : Node → Text → Option Node
unfolding find_named children
xml_find_child node name = find_named name (children node)

-- child->ns && xmlStrcmp(child->ns->href, ns) == 0
unfoldable pub in_ns : Option Text → Text → Bool
in_ns none uri = false
in_ns (some href) uri = str_eq href uri

unfoldable pub find_named_ns : Text → Text → Nodes → Option Node
unfolding in_ns
find_named_ns name uri nil = none
find_named_ns name uri (cons (element n ns attrs kids) rest) =
    if str_eq n name && in_ns ns uri
    then some (element n ns attrs kids)
    else find_named_ns name uri rest
find_named_ns name uri (cons (other t) rest) = find_named_ns name uri rest

unfoldable pub xml_find_child_ns : Node → Text → Text → Option Node
unfolding find_named_ns children
xml_find_child_ns node name uri = find_named_ns name uri (children node)

-- The namespace of the first child element, "" without one.
unfoldable pub child_ns : Node → Text
unfolding first_element children node_ns
child_ns node = elim (first_element (children node)) [ none ↦ List.[] | some child ↦ node_ns child ]
