-- ===== src/Stanza/Gate.antt =====
-- What stands between a client and the handlers, c/src/stanza.c and c/src/session.c: the test of
-- `stanza_route` is made only where a stream is open.
use jabber.Base.{ℕ, ◌≡◌, refl, false, Option, none, some, List, [], ◌∷◌, Text, codes, str_eq}
use jabber.Xml.{Node, node_name, child_ns}
use jabber.World.{Session, State, session_active, World, Env, M, pure, load, when}
use jabber.World.Keeps.{Ends}
use jabber.World.Steps.{
  OnlyChanged, Ends-weaken, Ends-bind, modify-OnlyChanged, Runs-bind, Runs-load, refl-OnlyChanged,
}
use jabber.Output.{append_out, session_write, stanza_send, stanza_serialize}
use jabber.Output.Stream.{session_write-OnlyChanged}
use jabber.Register.{or_empty}
use jabber.Bind.{iq_result, session_handle_session_iq}
use jabber.Stanza.{is_opened, dispatch_iq, handle_iq, route_authenticated, stanza_route}

-- A session at `p` that is active, and logged in or not as `s` is.
pub record IsActivated (p : ℕ) (s : Session) (w : World) : Type 0 where
  pub now : Session
  pub at : w.heap p ≡ some now
  pub active : now.state ≡ session_active
  pub authenticated : now.authenticated ≡ s.authenticated

abbrev pub session_ns : Text
session_ns = codes "urn:ietf:params:xml:ns:xmpp-session"

module _ (e : Env) (p : ℕ) (s : Session) (w : World) (live : w.heap p ≡ some s) where
  abbrev activated : Session
  activated = record s { state = session_active }

  appended-IsActivated :
      (bytes : List ℕ) (u : World)
      → OnlyChanged p (append_out bytes activated) w u
      → IsActivated p s u
  unfolding append_out
  appended-IsActivated bytes u k = record {
    now = append_out bytes activated;
    at = k.at;
    active = refl;
    authenticated = refl;
  }

  write-IsActivated :
      (bytes : List ℕ) (v : World)
      → OnlyChanged p activated w v
      → Ends (IsActivated p s) (session_write p bytes v)
  unfolding session_write when pure
  write-IsActivated [] v h = record {
    now = activated;
    at = h.at;
    active = refl;
    authenticated = refl;
  }
  write-IsActivated (b ∷ bs) v h =
      Ends-weaken (OnlyChanged p (append_out (b ∷ bs) activated) w) (IsActivated p s)
        (session_write p (b ∷ bs) v) (session_write-OnlyChanged p activated b bs w v h)
        (λ u k. appended-IsActivated (b ∷ bs) u k)

  serialized-IsActivated :
      (o : Option Text) (v : World)
      → OnlyChanged p activated w v
      → Ends
          (IsActivated p s)
          ((elim o as (λ x. M (Unit {0})) [ none ↦ pure tt | some b ↦ session_write p b ]) v)
  unfolding pure
  serialized-IsActivated none v h = record {
    now = activated;
    at = h.at;
    active = refl;
    authenticated = refl;
  }
  serialized-IsActivated (some b) v h = write-IsActivated b v h

  send-IsActivated :
      (n : Node) (v : World)
      → OnlyChanged p activated w v
      → Ends (IsActivated p s) (stanza_send e p n v)
  unfolding stanza_send
  send-IsActivated n v h = serialized-IsActivated (stanza_serialize e n) v h

  session_iq-IsActivated : (n : Node) → Ends (IsActivated p s) (session_handle_session_iq e p n w)
  unfolding session_handle_session_iq
  session_iq-IsActivated n =
      Ends-bind (OnlyChanged p activated w) (IsActivated p s) _ _ w
        (modify-OnlyChanged p activated s _ w w (refl-OnlyChanged p s w live) refl)
        (λ _ v h. send-IsActivated (iq_result e n) v h)

routed_authenticated :
    (e : Env) (p : ℕ) (s : Session) (w : World) (n : Node)
    → w.heap p ≡ some s
    → is_opened s.state ≡ false
    → stanza_route e p n w ≡ route_authenticated e p n s.state w
unfolding stanza_route
routed_authenticated e p s w n live closed =
    rw (Runs-bind (load p) _ w w s (Runs-load p s w live), closed) refl

routed_iq :
    (e : Env) (p : ℕ) (n : Node) (state : State)
    → node_name n ≡ codes "iq"
    → route_authenticated e p n state ≡ handle_iq e p n
unfolding route_authenticated str_eq
routed_iq e p n state iq = rw iq refl

dispatched_session :
    (e : Env) (p : ℕ) (n : Node)
    → e.xml.get_prop n (codes "type") ≡ some (codes "set")
    → child_ns n ≡ session_ns
    → handle_iq e p n ≡ session_handle_session_iq e p n
unfolding handle_iq dispatch_iq or_empty str_eq
dispatched_session e p n set ns = rw (set, ns) refl

-- An IQ of type set in the namespace of session establishment makes the session that sent it active
-- where its stream is not open, and leaves it as authenticated or unauthenticated as it was.
pub stanza_route-bypass :
    (e : Env) (p : ℕ) (s : Session) (w : World) (n : Node)
    → w.heap p ≡ some s
    → is_opened s.state ≡ false
    → node_name n ≡ codes "iq"
    → e.xml.get_prop n (codes "type") ≡ some (codes "set")
    → child_ns n ≡ session_ns
    → Ends (IsActivated p s) (stanza_route e p n w)
stanza_route-bypass e p s w n live closed iq set ns =
    rw
      (
        routed_authenticated e p s w n live closed,
        routed_iq e p n s.state iq,
        dispatched_session e p n set ns,
      )
      (session_iq-IsActivated e p s w live n)
