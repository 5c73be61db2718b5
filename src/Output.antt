-- ===== src/Output.antt =====
-- Output: `session_write`, `session_flush` and `session_find_by_jid` of c/src/session.c,
-- `server_get_pollfd` of c/src/server.c, and `stanza_serialize`, `stanza_send` and
-- `stanza_send_error` of c/src/stanza.c. Memory does not run out.
pub mod Stream
pub mod Flush
pub mod Drain
mod Tests
use jabber.Base.{
  ℕ, zero, suc, ◌+◌, ◌-◌, ◌*◌, Bool, true, false, ◌&&◌, not, Option, none, some, [], ◌∷◌, ◌++◌,
  List, Text, codes, str_eq, length, take, drop, ltb, ◌==◌, if◌then◌else◌,
}
use jabber.Jid.{jid_bare, jid_full}
use jabber.Xml.{Node, LibXml, node_name}
use jabber.World.{
  Session, World, Env, WriteResult, wrote, again, failed, M, ◌>>=◌, ◌>>◌, pure, gets, load, modify,
  change, next_call, when, update,
}

abbrev pub max_clients : ℕ
max_clients = 16

-- pollfds[index].events, where server_get_pollfd gives an entry.
unfoldable pub set_pollout : ℕ → Bool → World → World
unfolding update
set_pollout i b w =
    if ltb i max_clients
    then record w { pollfds = update w.pollfds i (record (w.pollfds i) { pollout = b }) }
    else w

-- The doubled capacity, or what is needed.
unfoldable pub grown : ℕ → ℕ → ℕ
grown cap need = if ltb cap need then (if ltb (cap * 2) need then need else cap * 2) else cap

unfoldable pub append_out : List ℕ → Session → Session
unfolding grown
append_out bytes s = record s {
  write_buf = s.write_buf ++ bytes;
  write_cap = grown s.write_cap (length s.write_buf + length bytes);
}

unfoldable pub session_write : ℕ → List ℕ → M (Unit {0})
session_write p bytes =
    when (ltb 0 (length bytes))
      do modify p (append_out bytes); s ← load p; change (set_pollout s.poll_index true)

unfoldable pub session_write_str : ℕ → Text → M (Unit {0})
session_write_str p str = session_write p str

unfoldable pub finish_write : ℕ → Session → WriteResult → M Bool
finish_write p s (wrote n) = do
  change (λ w. record w { wire = w.wire ++ (s.fd, take n s.write_buf) ∷ [] })
  modify p (λ t. record t { write_buf = drop n s.write_buf })
  when (length (drop n s.write_buf) == 0) (change (set_pollout s.poll_index false))
  pure true
finish_write p s again = pure true
finish_write p s failed = pure false

unfoldable pub full_jid_of : Session → Text
unfolding jid_full
full_jid_of s = jid_full s.jid_local s.jid_domain s.jid_resource 768

unfoldable pub bare_jid_of : Session → Text
unfolding jid_bare
bare_jid_of s = jid_bare s.jid_local s.jid_domain 512

unfoldable pub jid_matches : Text → Session → Bool
unfolding bare_jid_of str_eq
jid_matches bare s = not (length s.jid_local == 0) && str_eq (bare_jid_of s) bare

unfoldable pub try_slot : Text → Option ℕ → M (Option ℕ) → M (Option ℕ)
try_slot bare none rest = rest
try_slot bare (some p) rest = do s ← load p; if jid_matches bare s then pure (some p) else rest

-- The loop from slot `i`, with the rounds that are left.
unfoldable pub find_from : Text → ℕ → ℕ → M (Option ℕ)
find_from bare zero i = pure none
find_from bare (suc n) i = do
  slot ← gets (λ w. w.sessions i)
  try_slot bare slot (find_from bare n (i + 1))

unfoldable pub session_find_by_jid : Text → M (Option ℕ)
session_find_by_jid bare = do n ← gets (λ w. w.nfds); find_from bare (n - 1) 1

unfoldable pub with_id : LibXml → Node → Option Text → Node
with_id x node none = node
with_id x node (some id) = x.new_prop node (codes "id") id

module _ (e : Env) where
  -- `true` is 0, `false` is -1.
  unfoldable pub session_flush : ℕ → M Bool
  session_flush p = do
    s ← load p
    if length s.write_buf == 0
        then pure true
        else do n ← next_call; finish_write p s (e.write_result n)

  unfoldable pub stanza_serialize : Node → Option Text
  stanza_serialize node = e.xml.dump node

  unfoldable pub stanza_send : ℕ → Node → M (Unit {0})
  stanza_send p node = elim (stanza_serialize node) [
    | none ↦ pure tt
    | some bytes ↦ session_write p bytes
  ]

  unfoldable pub error_stanza : Session → Node → Text → Text → Node
  unfolding node_name with_id full_jid_of
  error_stanza s original error_type condition =
      let x = e.xml in
      let err =
        with_id x (x.new_prop (x.new_node (node_name original)) (codes "type") (codes "error"))
          (x.get_prop original (codes "id")) in
      let addressed =
        x.new_prop (x.new_prop err (codes "from") e.domain) (codes "to") (full_jid_of s) in
      let cond = x.set_ns (x.new_node condition) (codes "urn:ietf:params:xml:ns:xmpp-stanzas") in
      x.new_child addressed
        (x.new_child (x.new_prop (x.new_node (codes "error")) (codes "type") error_type) cond)

  unfoldable pub stanza_send_error : ℕ → Node → Text → Text → M (Unit {0})
  stanza_send_error p original error_type condition = do
    s ← load p
    stanza_send p (error_stanza s original error_type condition)
