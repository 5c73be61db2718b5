-- ===== src/Sample.antt =====
-- A small server for the tests: a document library that keeps its trees, a configuration, and one
-- client in the table.
use jabber.Base.{
  true, false, Option, none, some, List, [], ◌∷◌, ◌++◌, Text, codes, str_eq, ◌==◌, if◌then◌else◌,
}
use jabber.Xml.{Node, Nodes, element, other, nil, cons, LibXml}
use jabber.World.{Session, World, Env, SaxEvent, wrote, got}
use jabber.Server.{new_session, client_pollfd}

unfoldable pub lookup_prop : List (Text × Text) → Text → Option Text
unfolding str_eq
lookup_prop [] k = none
lookup_prop ((j, v) ∷ ps) k = if str_eq j k then some v else lookup_prop ps k

abbrev pub with_prop : Node → Text → Text → Node
with_prop (element name ns attrs kids) k v = element name ns ((k, v) ∷ attrs) kids
with_prop (other t) k v = other t

abbrev pub prop_of : Node → Text → Option Text
prop_of (element name ns attrs kids) k = lookup_prop attrs k
prop_of (other t) k = none

abbrev pub with_ns : Node → Text → Node
with_ns (element name ns attrs kids) uri = element name (some uri) attrs kids
with_ns (other t) uri = other t

abbrev pub snoc : Nodes → Node → Nodes
snoc nil n = cons n nil
snoc (cons m ms) n = cons m (snoc ms n)

abbrev pub with_child : Node → Node → Node
with_child (element name ns attrs kids) n = element name ns attrs (snoc kids n)
with_child (other t) n = other t

abbrev pub text_of : Node → Option Text
text_of (element name ns attrs (cons (other t) kids)) = some t
text_of _ = none

abbrev pub tag_of : Node → Option Text
tag_of (element name ns attrs kids) = some (codes "<" ++ (name ++ codes "/>"))
tag_of (other t) = none

abbrev pub simple_xml : LibXml
simple_xml = record {
  new_node = λ t. element t none [] nil;
  new_prop = with_prop;
  set_prop = with_prop;
  get_prop = prop_of;
  set_ns = with_ns;
  under_ns = with_ns;
  declare_ns = λ n prefix uri. n;
  declares = λ n uri. false;
  use_ns = λ n prefix uri. with_ns n uri;
  use_first_ns = with_ns;
  new_ns_prop = λ n uri k v. with_prop n k v;
  new_child = with_child;
  with_content = λ n t. with_child n (other t);
  add_content = λ n t. with_child n (other t);
  get_content = text_of;
  dump = tag_of;
  read_root = λ b. none;
  save_root = λ n. [];
}

-- The socket takes three bytes at a time, and each read brings one byte.
abbrev pub sample_env : Env
sample_env = record {
  xml = simple_xml;
  domain = codes "localhost";
  datadir = codes "/d";
  random = λ n i. i;
  write_result = λ n. wrote 3;
  read_result = λ n. got (b' ' ∷ []);
  parse_chunk = λ n b. SaxEvent.end_element ∷ [];
  writable = λ p. true;
  stamp = λ n. codes "now";
}

abbrev pub client : Session
client = record (new_session 7 1) { write_buf = codes "hello" }

-- One client, at address 1.
abbrev pub one_client : World
one_client = record {
  heap = λ p. if p == 1 then some client else none;
  next_address = 2;
  sessions = λ i. if i == 1 then some 1 else none;
  pollfds = λ i. record (client_pollfd 7) { readable = true };
  nfds = 2;
  files =
      λ p. if str_eq p (codes "/d/bob/user.conf") then some (codes "password = secret\n") else none;
  dirs = λ p. none;
  wire = [];
  closed = [];
  calls = 0;
}
