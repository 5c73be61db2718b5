-- ===== src/Server/Tests.antt =====
-- Rounds of the event loop on the sample server.
use jabber.Base.{
  subst, ℕ, ◌≤◌, ◌<◌, ◌≡◌, refl, true, none, some, [], codes, str_eq, arith, Bool-cases, inl, inr,
  ◌==◌,
}
use jabber.Xml.{Node, element, nil, node_name}
use jabber.World.{Session}
use jabber.World.Keeps.{Post, Ends}
use jabber.Sample.{sample_env, client, one_client}
use jabber.Stanza.{stanza_route}
use jabber.Server.{process_clients, server_shutdown, new_session, server_round, session_on_readable}
use jabber.Output.{max_clients}
use jabber.Stable.{IsAlive}
use jabber.Server.Alive.{Running}
use jabber.Server.Rounds.{process_clients-enough, server_round-Running}
use jabber.Server.Table.{IsTable}
use jabber.Server.Shutdown.{ShutDown, server_shutdown-ShutDown}
use jabber.Server.Logins.{LoginsFrom, stanza_route-logins, session_on_readable-logins}

one_client-indexed :
    (p : ℕ) (s : Session)
    → one_client.heap p ≡ some s
    → (1 ≤ s.poll_index) × (s.poll_index < 2) × (one_client.sessions s.poll_index ≡ some p)
unfolding new_session
one_client-indexed p s h = elim (Bool-cases (p == 1)) [
  | inl e ↦ let same : client ≡ s = ground arith in (ground arith, ground arith, ground arith)
  | inr e ↦ absurd (ground arith)
]

one_client-IsTable : IsTable one_client
unfolding new_session
one_client-IsTable = record {
  some_fd = omega arith;
  bounded = omega arith;
  occupied = λ i a b. (1, client, ground arith, refl, omega arith);
  vacant = λ i a. ground arith;
  indexed = λ p s h. one_client-indexed p s h;
  fresh = λ p h. ground arith;
}

abbrev greeting : Node
greeting = element (codes "presence") none [] nil

stanza_route_example :
    Post (LoginsFrom (λ q. ⊥) one_client) (stanza_route sample_env 1 greeting one_client)
unfolding str_eq node_name
stanza_route_example = stanza_route-logins sample_env 1 greeting one_client refl

session_on_readable_example :
    Post (LoginsFrom (λ q. q ≡ 1) one_client) (session_on_readable sample_env 1 one_client)
session_on_readable_example = session_on_readable-logins sample_env 1 one_client

one_client-IsAlive : (q : ℕ) (s : Session) → one_client.heap q ≡ some s → IsAlive s.state
unfolding new_session
one_client-IsAlive q s h = elim (Bool-cases (q == 1)) [
  | inl e ↦ let same : client ≡ s = ground arith in subst (λ x. IsAlive x.state) same tt
  | inr e ↦ absurd (ground arith)
]

one_client-Running : Running 2 one_client
unfolding new_session
one_client-Running = record {
  table = one_client-IsTable;
  alive = λ q s h spared. one_client-IsAlive q s h;
  few = omega arith;
}

process_clients-enough_example :
    process_clients sample_env 5 1 one_client ≡ process_clients sample_env 2 1 one_client
process_clients-enough_example =
    process_clients-enough sample_env one_client 5 one_client-Running (omega arith)

server_round-Running_example :
    Post (Running max_clients) (server_round sample_env true (some 8) one_client)
server_round-Running_example = server_round-Running sample_env true (some 8) one_client (record {
  table = one_client-Running.table;
  alive = one_client-Running.alive;
  few = omega arith;
})

server_shutdown_example : Ends (ShutDown one_client) (server_shutdown sample_env one_client)
server_shutdown_example = server_shutdown-ShutDown sample_env one_client one_client-IsTable
