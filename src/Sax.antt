-- ===== src/Sax.antt =====
-- The callbacks of the push parser, c/src/xml.c, and the life of the parser.
-- The parser context is always made; a node's tree is kept as the path of its open elements.
use jabber.Base.{
  ℕ, ◌+◌, ◌-◌, Bool, true, false, ◌&&◌, Option, none, some, List, [], ◌∷◌, Text, codes, str_eq,
  length, ltb, leb, ◌==◌, if◌then◌else◌,
}
use jabber.Xml.{Node, has_ns}
use jabber.World.{
  Session, SaxAttribute, SaxEvent, start_element, end_element, characters, parse_warning,
  parse_error, Env, M, ◌>>=◌, ◌>>◌, pure, load, modify, next_call, when, for_each,
}
use jabber.Register.{or_empty}
use jabber.Stream.{stream_handle_open}
use jabber.Teardown.{stream_handle_close, teardown_or_defer}
use jabber.Stanza.{stanza_route}

unfoldable pub sax_get_attribute : List SaxAttribute → Text → Option Text
sax_get_attribute [] name = none
sax_get_attribute (a ∷ as') name =
    if str_eq a.localname name then some a.value else sax_get_attribute as' name

-- `URI && xmlStrEqual(ns_uri, URI)`
unfoldable pub same_uri : Option Text → Text → Bool
same_uri none ns_uri = false
same_uri (some uri) ns_uri = str_eq ns_uri uri

-- Both prefixes are null, or both are there and equal.
unfoldable pub same_prefix : Option Text → Option Text → Bool
same_prefix none none = true
same_prefix (some p) (some q) = str_eq p q
same_prefix _ _ = false

unfoldable pub open_node : Node → Session → Session
open_node node s = record s { open_nodes = node ∷ s.open_nodes }

unfoldable pub reset_parser : Session → Session
reset_parser s = record s { open_nodes = []; stanza_depth = 0 }

-- The new context refuses the network, and no stanza is open in it.
unfoldable pub xml_parser_create : ℕ → M (Unit {0})
unfolding reset_parser
xml_parser_create p = modify p reset_parser

unfoldable pub xml_parser_reset : ℕ → M (Unit {0})
xml_parser_reset p = modify p reset_parser >> xml_parser_create p

unfoldable pub xml_parser_destroy : ℕ → M (Unit {0})
unfolding reset_parser
xml_parser_destroy p = modify p reset_parser

module _ (e : Env) where
  -- One declaration, which becomes the element's own if both its URI and its prefix are.
  unfoldable pub declare_one : Node → Option Text → Option Text → Option Text × Text → Node
  unfolding same_uri same_prefix
  declare_one node prefix uri (ns_prefix, ns_uri) =
      let declared = e.xml.declare_ns node ns_prefix ns_uri in
      if same_uri uri ns_uri && same_prefix prefix ns_prefix
      then e.xml.use_ns declared ns_prefix ns_uri
      else declared

  unfoldable pub declare_all : Node → Option Text → Option Text → List (Option Text × Text) → Node
  unfolding declare_one
  declare_all node prefix uri [] = node
  declare_all node prefix uri (d ∷ ds) = declare_all (declare_one node prefix uri d) prefix uri ds

  -- `if (!node->ns && URI)`
  unfoldable pub in_namespace : Node → Option Text → Option Text → Node
  unfolding has_ns
  in_namespace node prefix none = node
  in_namespace node prefix (some uri) =
      if has_ns node
      then node
      else if e.xml.declares node uri
      then e.xml.use_first_ns node uri
      else e.xml.use_ns (e.xml.declare_ns node prefix uri) prefix uri

  -- `attr_uri && attr_uri[0]`
  unfoldable pub copy_attribute : Node → SaxAttribute → Option Text → Node
  copy_attribute node a (some (c ∷ uri)) =
      let declared =
        if e.xml.declares node (c ∷ uri) then node else e.xml.declare_ns node a.prefix (c ∷ uri) in
      e.xml.new_ns_prop declared (c ∷ uri) a.localname a.value
  copy_attribute node a (some []) = e.xml.new_prop node a.localname a.value
  copy_attribute node a none = e.xml.new_prop node a.localname a.value

  unfoldable pub copy_attributes : Node → List SaxAttribute → Node
  unfolding copy_attribute
  copy_attributes node [] = node
  copy_attributes node (a ∷ as') = copy_attributes (copy_attribute node a a.uri) as'

  unfoldable pub built_node :
      Text → Option Text → Option Text → List (Option Text × Text) → List SaxAttribute → Node
  unfolding declare_all in_namespace copy_attributes
  built_node name prefix uri namespaces attributes =
      copy_attributes
        (in_namespace (declare_all (e.xml.new_node name) prefix uri namespaces) prefix uri)
        attributes

  unfoldable pub on_start_element_ns :
      ℕ
      → Text
      → Option Text
      → Option Text
      → List (Option Text × Text)
      → List SaxAttribute
      → M (Unit {0})
  unfolding built_node open_node sax_get_attribute or_empty
  on_start_element_ns p name prefix uri namespaces attributes = do
    modify p (λ s. record s { stanza_depth = s.stanza_depth + 1 })
    s ← load p
    if s.stanza_depth == 1
        then stream_handle_open e p (or_empty (sax_get_attribute attributes (codes "to")))
        else modify p (open_node (built_node name prefix uri namespaces attributes))

  -- The innermost open element is a finished child of the next one.
  unfoldable pub close_nodes : List Node → List Node
  close_nodes [] = []
  close_nodes (child ∷ []) = child ∷ []
  close_nodes (child ∷ parent ∷ outer) = e.xml.new_child parent child ∷ outer

  unfoldable pub route_open : ℕ → List Node → M (Unit {0})
  route_open p [] = pure tt
  route_open p (stanza ∷ outer) = do
    stanza_route e p stanza
    modify p (λ s. record s { open_nodes = [] })

  unfoldable pub on_end_element_ns : ℕ → M (Unit {0})
  unfolding close_nodes
  on_end_element_ns p = do
    modify p (λ s. record s { stanza_depth = s.stanza_depth - 1 })
    s ← load p
    if s.stanza_depth == 0
        then stream_handle_close e p
        else (if s.stanza_depth == 1
            then route_open p s.open_nodes
            else modify p (λ t. record t { open_nodes = close_nodes t.open_nodes }))

  unfoldable pub add_text : Text → List Node → List Node
  add_text text [] = []
  add_text text (node ∷ outer) = e.xml.add_content node text ∷ outer

  unfoldable pub on_characters : ℕ → Text → M (Unit {0})
  unfolding add_text
  on_characters p text = modify p (λ s. record s {
    open_nodes = if leb 2 s.stanza_depth then add_text text s.open_nodes else s.open_nodes;
  })

  unfoldable pub on_event : ℕ → SaxEvent → M (Unit {0})
  on_event p (start_element name prefix uri namespaces attributes) =
      on_start_element_ns p name prefix uri namespaces attributes
  on_event p end_element = on_end_element_ns p
  on_event p (characters text) = on_characters p text
  on_event p parse_warning = pure tt
  on_event p parse_error = teardown_or_defer e p

  unfoldable pub parse_events : ℕ → List SaxEvent → M (Unit {0})
  parse_events p events = for_each (on_event p) events

  unfoldable pub xml_feed : ℕ → List ℕ → M (Unit {0})
  xml_feed p bytes =
      when (ltb 0 (length bytes)) do n ← next_call; parse_events p (e.parse_chunk n bytes)
