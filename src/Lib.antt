-- ===== src/Lib.antt =====
-- The C server of this repository, an XMPP server on one thread around poll(2), as a model in which
-- every handler is an action on the state of the server.
--
-- Parts and how they interact. The event loop (c/src/server.c) accepts connections into a table of
-- at most 15 sessions and hands the events of poll to the sessions (c/src/session.c). A session that
-- is readable gives its bytes to libxml2, whose callbacks (c/src/xml.c) open the stream
-- (c/src/stream.c) and build stanzas; a stanza that is complete is routed (c/src/stanza.c) to SASL
-- (c/src/auth.c), registration (c/src/register.c), rosters (c/src/roster.c), presence
-- (c/src/presence.c), messages (c/src/message.c) or service discovery (c/src/disco.c). Handlers
-- answer by writing to the buffers of sessions, and read and write the files of the accounts
-- (c/src/user.c). JIDs, base64 and ids are in c/src/util.c. The program (c/src/main.c) reads its
-- configuration (c/src/config.c), opens the log (c/src/log.c), runs the loop and shuts it down; the
-- tool c/tools/useradd.c makes accounts from outside.
--
-- The model. World: the state, as the record `World` with the sessions by address, the table, the
-- poll entries, the files and what went out; `Env` holds the configuration and the answers of the
-- system and of libxml2; an action is a function from a state to a result and a state, and `none`
-- where the C code runs into undefined behaviour. World.Keeps has the rules by which actions keep a
-- predicate, World.Steps the equations of their steps. Base: strings, lists, tests.
--   Jid, Base64     `jid_parse`, `jid_bare`, `jid_full`, `base64_decode` of c/src/util.c
--   Xml             the tree and the calls of libxml2, `xml_find_child` of c/src/xml.c
--   Output          `session_write`, `session_flush`, `session_find_by_jid`, `stanza_send`,
--                   `stanza_send_error` of c/src/session.c and c/src/stanza.c
--   Roster, Disk, RosterIq      c/src/roster.c: in memory, on disk, the IQs and pushes
--   Subscription, Presence      c/src/presence.c: transitions, handlers
--   Teardown        `session_teardown`, `session_destroy`, `server_remove_session`, stream errors
--   Stream, Auth, Bind, Register, User, Message, Stanza     the files of these names (Bind:
--                   `session_handle_bind` and `session_handle_session_iq` of c/src/session.c, and
--                   c/src/disco.c)
--   Config          c/src/config.c: the defaults, the file, the command line
--   Useradd         c/tools/useradd.c
--   Sax             the callbacks of c/src/xml.c
--   Server          the rounds of c/src/server.c, and reading and writing in c/src/session.c
--   Program         `server_init` and the loop of `server_run` in c/src/server.c, c/src/main.c
--   Log             c/src/log.c
-- Stable is an interface: a predicate that output, file changes and most changes to a session leave
-- alone. Its children go through every handler once, against that interface; Server.Table,
-- Server.Alive and Server.Logins have its instances. Sample is a small server for the tests.
--
-- Bounds and fuel. Buffer sizes, the table's 16 slots and a roster's 128 items are those of the
-- source; a size_t wraps at 2 ^ 64 where the source subtracts pointers. The loops over the slots
-- take the number of slots at their start as fuel. In most the number of slots stays; that of the
-- loop over the clients only falls, and each of its rounds goes to the next slot or ends a session,
-- so that it is enough (Server.Rounds). The loop of a decimal number takes ten digits, enough for an
-- int.
--
-- The program is run on a list of what the tests of its flag, poll and accept give; where the list
-- ends it goes on, so that a theorem about every list is one about every moment of a run. The options
-- of a command line are the list that getopt_long gives.
--
-- Not modelled. What the handlers log, which nothing reads back, and what the programs print; the
-- flags of the sockets; the Go server. Allocation does not fail. The parser libxml2 and the system
-- are parameters: `Env`, `LibXml` and `System` give their answers.
pub mod Base
pub mod Jid
pub mod Base64
pub mod Xml
pub mod World
pub mod Output
pub mod Roster
pub mod Config
pub mod Log
pub mod Disk
pub mod Subscription
pub mod Teardown
pub mod Stream
pub mod User
pub mod Useradd
pub mod Auth
pub mod Bind
pub mod Register
pub mod RosterIq
pub mod Message
pub mod Presence
pub mod Stanza
pub mod Sax
pub mod Server
pub mod Program
pub mod Stable
pub mod Sample
