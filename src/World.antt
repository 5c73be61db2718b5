-- ===== src/World.antt =====
-- The state of the server: c/include/session.h (session_t, roster_t), the arrays of
-- c/src/server.c, the files below the data directory and what went out on the sockets.
-- A session is reached by its address in `heap`, as by a `session_t *`; an action that follows a
-- pointer to no session, or a null pointer, ends in `none`.
pub mod Keeps
pub mod Steps
use jabber.Base.{
  ℕ, suc, Bool, true, false, Option, none, some, List, [], ◌∷◌, Text, str_eq, ◌==◌, if◌then◌else◌,
}
use jabber.Xml.{Node, LibXml}

pub data State : Type 0 where
  connected stream_opened authenticated_state bound session_active disconnected : State

-- roster_item_t; the buffers hold 512, 256 and 16 bytes.
pub record RosterItem : Type 0 where
  pub jid : Text
  pub name : Text
  pub subscription : Text
  pub ask_subscribe : Bool

-- roster_t: `count` is the length of `items`.
pub record Roster : Type 0 where
  pub items : List RosterItem
  pub loaded : Bool

-- session_t without the read buffer, whose bytes are read and handed to the parser in one call.
-- `open_nodes` is current_stanza with the path down to current_node, innermost first; `write_len`
-- is the length of `write_buf`.
pub record Session : Type 0 where
  pub fd : ℕ
  pub state : State
  pub poll_index : ℕ
  pub write_buf : List ℕ
  pub write_cap : ℕ
  pub jid_local : Text
  pub jid_domain : Text
  pub jid_resource : Text
  pub open_nodes : List Node
  pub stanza_depth : ℕ
  pub authenticated : Bool
  pub parser_reset_pending : Bool
  pub teardown_pending : Bool
  pub in_xml_parse : Bool
  pub available : Bool
  pub initial_presence_sent : Bool
  pub presence_stanza : Option Node
  pub roster : Roster

-- struct pollfd: `fd` is `none` for -1; POLLIN and POLLOUT of `events`, and of `revents` POLLERR or
-- POLLHUP, POLLIN and POLLOUT.
pub record PollFd : Type 0 where
  pub fd : Option ℕ
  pub pollin : Bool
  pub pollout : Bool
  pub broken : Bool
  pub readable : Bool
  pub can_write : Bool

pub record World : Type 0 where
  pub heap : ℕ → Option Session
  pub next_address : ℕ
  pub sessions : ℕ → Option ℕ
  pub pollfds : ℕ → PollFd
  pub nfds : ℕ
  pub files : Text → Option (List ℕ)
  pub dirs : Text → Option (List Text)
  pub wire : List (ℕ × List ℕ)
  pub closed : List ℕ
  pub calls : ℕ

-- write(2): how many bytes went out, EAGAIN, or another error.
pub data WriteResult : Type 0 where
  wrote : ℕ → WriteResult
  again failed : WriteResult

-- read(2) into the whole buffer: the bytes, the end of the connection, or an error.
pub data ReadResult : Type 0 where
  got : List ℕ → ReadResult
  at_end read_failed : ReadResult

-- A callback of the push parser. An element has its name, prefix and URI, its namespace
-- declarations, by prefix and URI, and its attributes; an error is a warning or worse.
pub record SaxAttribute : Type 0 where
  pub localname : Text
  pub prefix : Option Text
  pub uri : Option Text
  pub value : Text

pub data SaxEvent : Type 0 where
  start_element :
      Text → Option Text → Option Text → List (Option Text × Text) → List SaxAttribute → SaxEvent
  end_element : SaxEvent
  characters : Text → SaxEvent
  parse_warning parse_error : SaxEvent

-- The configuration, libxml2 and the answers of the system, by the number of the call.
pub record Env : Type 0 where
  pub xml : LibXml
  pub domain : Text
  pub datadir : Text
  -- arc4random_buf
  pub random : ℕ → ℕ → ℕ
  pub write_result : ℕ → WriteResult
  pub read_result : ℕ → ReadResult
  -- xmlParseChunk: the callbacks that it makes
  pub parse_chunk : ℕ → List ℕ → List SaxEvent
  -- fopen for writing, mkdir: whether the system lets the path be made
  pub writable : Text → Bool
  -- the time of the call, by strftime
  pub stamp : ℕ → Text

abbrev pub M : Type 0 → Type 0
M A = World → Option (A × World)

infixl 5 ◌>>=◌ ◌>>◌
unfoldable pub ◌>>=◌ : {A B : Type 0} → M A → (A → M B) → M B
◌>>=◌ m f w = elim (m w) [ none ↦ none | some (a, w') ↦ f a w' ]

abbrev pub ◌>>◌ : {A B : Type 0} → M A → M B → M B
m >> n = m >>= λ _. n

unfoldable pub pure : {A : Type 0} → A → M A
pure a w = some (a, w)

-- Undefined behaviour: a null or dangling pointer, memory that was not written.
unfoldable pub fault : {A : Type 0} → M A
fault w = none

unfoldable pub gets : {A : Type 0} → (World → A) → M A
gets f w = some (f w, w)

unfoldable pub update {ℓ} : {A : Type ℓ} → (ℕ → A) → ℕ → A → ℕ → A
update f k v j = if k == j then v else f j

unfoldable pub update_text {ℓ} : {A : Type ℓ} → (Text → A) → Text → A → Text → A
update_text f k v j = if str_eq k j then v else f j

-- *s
unfoldable pub load : ℕ → M Session
load p w = elim (w.heap p) [ none ↦ none | some s ↦ some (s, w) ]

-- A write to some fields of *s.
unfoldable pub modify : ℕ → (Session → Session) → M (Unit {0})
unfolding update
modify p f w = elim (w.heap p) [
  | none ↦ none
  | some s ↦ some (tt, record w { heap = update w.heap p (some (f s)) })
]

unfoldable pub change : (World → World) → M (Unit {0})
change f w = some (tt, f w)

-- The number of a call of the system, by which `Env` answers it.
unfoldable pub next_call : M ℕ
next_call w = some (w.calls, record w { calls = suc w.calls })

unfoldable pub when : Bool → M (Unit {0}) → M (Unit {0})
unfolding pure
when true m = m
when false m = pure tt

unfoldable pub for_each : {A : Type 0} → (A → M (Unit {0})) → List A → M (Unit {0})
unfolding pure
for_each f [] = pure tt
for_each f (a ∷ as') = f a >> for_each f as'
