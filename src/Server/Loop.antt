-- ===== src/Server/Loop.antt =====
-- The loop over the clients, c/src/server.c, keeps every stable predicate that a login keeps.
use jabber.Base.{ℕ, zero, suc, ◌+◌, true, false, Option, none, some, Text, if◌then◌else◌, leb}
use jabber.World.{World, Env, PollFd, M, modify}
use jabber.World.Keeps.{Keeps, Keeps-pure, Keeps-bind, Keeps-gets, Keeps-if, keeps_rules}
use jabber.Auth.{logged_in}
use jabber.Server.{
  gone, on_slot, run_handler, writable_part, session_events, client_events, process_clients,
  session_on_readable, session_on_writable,
}
use jabber.Stable.{IsStable}
use jabber.Stable.Sending.{session_teardown-Keeps}
use jabber.Stable.Routing.{session_on_readable-Keeps, session_on_writable-Keeps}

module _ (P : World → Type 0) (S : IsStable P) (e : Env)
    (login : (p : ℕ) (a : Text) → Keeps P (modify p (logged_in e a))) where
  gone-Keeps : (o : Option ℕ) → Keeps P (gone e o)
  unfolding gone
  gone-Keeps none = Keeps-pure true
  gone-Keeps (some p) = search keeps_rules

  on_slot-Keeps :
      (f : ℕ → M (Unit {0})) (o : Option ℕ) → ((p : ℕ) → Keeps P (f p)) → Keeps P (on_slot e f o)
  unfolding on_slot
  on_slot-Keeps f none h = Keeps-pure tt
  on_slot-Keeps f (some p) h = h p

  run_handler-Keeps :
      (f : ℕ → M (Unit {0})) (i : ℕ) → ((p : ℕ) → Keeps P (f p)) → Keeps P (run_handler e f i)
  unfolding run_handler
  run_handler-Keeps f i h = Keeps-bind _ _ (Keeps-gets _) (λ slot.
      Keeps-bind _ _ (on_slot-Keeps f slot h)
        (λ _. Keeps-bind _ _ (Keeps-gets _) (λ after. gone-Keeps after)))

  writable_part-Keeps : (i : ℕ) → Keeps P (writable_part e i)
  unfolding writable_part
  writable_part-Keeps i = Keeps-bind _ _ (Keeps-gets _) (λ pfd.
      Keeps-if pfd.can_write _ _
        (run_handler-Keeps (session_on_writable e) i (session_on_writable-Keeps P S e))
        (Keeps-pure false))

  session_events-Keeps : (i p : ℕ) (pfd : PollFd) → Keeps P (session_events e i p pfd)
  unfolding session_events
  session_events-Keeps i p pfd =
      Keeps-if pfd.broken _ _
        (Keeps-bind _ _ (session_teardown-Keeps P S e p) (λ _. Keeps-pure true))
        (Keeps-if pfd.readable _ _
          (Keeps-bind _ _
            (run_handler-Keeps (session_on_readable e) i
              (λ q. session_on_readable-Keeps P S e q (login q)))
            (λ again. Keeps-if again _ _ (Keeps-pure true) (writable_part-Keeps i)))
          (writable_part-Keeps i))

  client_events-Keeps : (i : ℕ) (o : Option ℕ) → Keeps P (client_events e i o)
  unfolding client_events
  client_events-Keeps i none = Keeps-pure false
  client_events-Keeps i (some p) = search (keeps_rules, session_events-Keeps)

  pub process_clients-Keeps : (n i : ℕ) → Keeps P (process_clients e n i)
  unfolding process_clients
  process_clients-Keeps zero i = Keeps-pure tt
  process_clients-Keeps (suc n) i = Keeps-bind _ _ (Keeps-gets _) (λ k.
      Keeps-if (leb k i) _ _ (Keeps-pure tt) (
        Keeps-bind _ _ (Keeps-gets _) (λ slot.
          Keeps-bind _ _ (client_events-Keeps i slot)
            (λ again. process_clients-Keeps n (if again then i else i + 1)))))
