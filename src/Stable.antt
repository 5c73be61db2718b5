-- ===== src/Stable.antt =====
-- Predicates on the state that output, files and changes to most fields of a session cannot break.
-- A proof that a handler keeps them is made once, against this interface.
pub mod Own
pub mod Registration
pub mod Sending
pub mod Accounts
pub mod Rosters
pub mod Subscriptions
pub mod Routing
use jabber.Base.{ℕ, ◌≡◌, refl}
use jabber.World.{Session, State, disconnected, World, M, ◌>>=◌, ◌>>◌, modify, change, next_call}
use jabber.World.Keeps.{Keeps}
use jabber.Teardown.{server_remove_session, session_destroy}

abbrev pub IsAlive : State → Type 0
IsAlive disconnected = ⊥
IsAlive _ = Unit

-- session_teardown behind its tests.
abbrev pub end_session : ℕ → M (Unit {0})
end_session p = modify p (λ t. record t { state = disconnected }) >>= λ _.
    (server_remove_session p >> session_destroy p)

-- The change leaves a session its place in the table and who it is.
pub record SameOwner (s t : Session) : Type 0 where
  pub fd : s.fd ≡ t.fd
  pub poll_index : s.poll_index ≡ t.poll_index
  pub authenticated : s.authenticated ≡ t.authenticated
  pub jid_local : s.jid_local ≡ t.jid_local
  pub jid_domain : s.jid_domain ≡ t.jid_domain
  pub alive : IsAlive t.state → IsAlive s.state

pub same_owner : (s : Session) → SameOwner s s
same_owner s = record {
  fd = refl;
  poll_index = refl;
  authenticated = refl;
  jid_local = refl;
  jid_domain = refl;
  alive = λ h. h;
}

abbrev pub IsHarmless : (Session → Session) → Type 0
IsHarmless f = (s : Session) → SameOwner (f s) s

-- The change leaves the sessions and their table alone.
pub record SameTable (w v : World) : Type 0 where
  pub heap : w.heap ≡ v.heap
  pub next_address : w.next_address ≡ v.next_address
  pub sessions : w.sessions ≡ v.sessions
  pub nfds : w.nfds ≡ v.nfds

abbrev pub IsIo : (World → World) → Type 0
IsIo g = (w : World) → SameTable (g w) w

pub record IsStable (P : World → Type 0) : Type 0 where
  pub keeps_modify : (p : ℕ) (f : Session → Session) → IsHarmless f → Keeps P (modify p f)
  pub keeps_io : (g : World → World) → IsIo g → Keeps P (change g)
  pub keeps_call : Keeps P next_call
  pub keeps_end : (p : ℕ) → Keeps P (end_session p)

pub next_call-Keeps : (P : World → Type 0) → IsStable P → Keeps P next_call
next_call-Keeps P s = s.keeps_call
