-- ===== src/Server/Progress.antt =====
-- Each round of the loop over the clients, c/src/server.c, goes to the next slot or ends a session,
-- so that the loop ends by itself.
use jabber.Base.{
  ℕ, refl, ◌-◌, ◌≤◌, ◌≡◌, ◌⊎◌, inl, inr, Bool, true, false, not, ◌||◌, Option, none, some, Text,
  leb, if◌then◌else◌, arith, Option-cases, Bool-cases,
}
use jabber.World.{
  Session, State, connected, stream_opened, authenticated_state, bound, session_active,
  disconnected, World, Env, PollFd, M, ◌>>=◌, ◌>>◌, pure, gets, load, modify, when,
}
use jabber.World.Keeps.{Keeps, Post, Keeps-pure, Keeps-when}
use jabber.World.Steps.{Runs-bind, Runs-load, load-stuck, Yields, Yields-bind, Post-Yields}
use jabber.Auth.{logged_in}
use jabber.Teardown.{is_disconnected, session_teardown, presence_broadcast_unavailable}
use jabber.Server.{
  gone, on_slot, run_handler, writable_part, session_events, client_events, session_on_readable,
  session_on_writable,
}
use jabber.Server.Table.{modify-IsTable}
use jabber.Server.Alive.{
  Running, modify-AliveBut, modify-few, Post-Running, end-fewer, Running-IsStable,
}
use jabber.Stable.{IsAlive, end_session}
use jabber.Stable.Sending.{presence_broadcast_unavailable-Keeps}
use jabber.Stable.Routing.{session_on_readable-Keeps, session_on_writable-Keeps}

pub login-Running : (e : Env) (n p : ℕ) (a : Text) → Keeps (Running n) (modify p (logged_in e a))
unfolding logged_in
login-Running e n p a = record {
  at = λ w t.
      Post-Running n (modify p (logged_in e a) w)
        ((modify-IsTable p (logged_in e a) (λ s. refl)).at w t.table)
        ((modify-AliveBut (λ q. ⊥) p (logged_in e a) (λ d s h. tt)).at w t.alive)
        (modify-few n p (logged_in e a) w t.few);
}

-- The loop goes on with the same slot only after a slot became free, or behind the last one.
abbrev pub Advances : ℕ → ℕ → Bool → World → Type 0
Advances n i again w = Running n w × (again ≡ true → (w.nfds ≤ n - 1) ⊎ (w.nfds ≤ i))

alive_not_disconnected : (s : State) → IsAlive s → is_disconnected s ≡ false
unfolding is_disconnected
alive_not_disconnected connected h = refl
alive_not_disconnected stream_opened h = refl
alive_not_disconnected authenticated_state h = refl
alive_not_disconnected bound h = refl
alive_not_disconnected session_active h = refl
alive_not_disconnected disconnected h = absurd h

vacant-behind : (n i : ℕ) (w : World) → Running n w → 1 ≤ i → w.sessions i ≡ none → w.nfds ≤ i
vacant-behind n i w t one h = elim (Bool-cases (leb w.nfds i)) [
  | inl behind ↦ ground arith
  | inr inside ↦
      let (q, u, at, live, idx) = t.table.occupied i one (ground arith) in absurd (ground arith)
]

module _ (e : Env) (n i : ℕ) (one : 1 ≤ i) where
  gone-Advances :
      (o : Option ℕ) (w : World)
      → Running n w
      → w.sessions i ≡ o
      → Yields (Advances n i) (gone e o w)
  unfolding gone pure
  gone-Advances none w t h = (t, λ again. inr (vacant-behind n i w t one h))
  gone-Advances (some p) w t h = elim (Option-cases (w.heap p)) [
    | inl x ↦ rw (load-stuck p (λ s. pure (is_disconnected s.state)) w x) tt
    | inr (s, x) ↦
        let alive : is_disconnected s.state ≡ false =
          alive_not_disconnected s.state (t.alive p s x (λ d. d)) in
        rw (Runs-bind (load p) (λ s. pure (is_disconnected s.state)) w w s (Runs-load p s w x))
          (t, λ again. absurd (ground arith))
  ]

  on_slot-Running :
      (f : ℕ → M (Unit {0})) (o : Option ℕ)
      → ((p : ℕ) → Keeps (Running n) (f p))
      → Keeps (Running n) (on_slot e f o)
  unfolding on_slot
  on_slot-Running f none h = Keeps-pure tt
  on_slot-Running f (some p) h = h p

  run_handler-Advances :
      (f : ℕ → M (Unit {0})) (w : World)
      → ((p : ℕ) → Keeps (Running n) (f p))
      → Running n w
      → Yields (Advances n i) (run_handler e f i w)
  unfolding run_handler gets
  run_handler-Advances f w h t =
      Yields-bind (λ o v. Running n v) (Advances n i) (gets (λ v. v.sessions i)) _ w t
        (λ o v k.
          Yields-bind (λ a u. Running n u) (Advances n i) (on_slot e f o) _ v
            (Post-Yields (Running n) _ ((on_slot-Running f o h).at v k))
            (λ a u m.
              Yields-bind (λ b x. Running n x × (x.sessions i ≡ b)) (Advances n i)
                (gets (λ v. v.sessions i)) _ u (m, refl) (λ b x g. gone-Advances b x g.0 g.1)))

  stay : (w : World) → Running n w → Yields (Advances n i) (pure false w)
  unfolding pure
  stay w t = (t, λ again. absurd (ground arith))

  Yields-if :
      (b : Bool) (m k : M Bool) (w : World)
      → Yields (Advances n i) (m w)
      → Yields (Advances n i) (k w)
      → Yields (Advances n i) ((if b then m else k) w)
  Yields-if true m k w x y = x
  Yields-if false m k w x y = y

  writable-Advances : (w : World) → Running n w → Yields (Advances n i) (writable_part e i w)
  unfolding writable_part gets
  writable-Advances w t =
      Yields-bind (λ o v. Running n v) (Advances n i) (gets (λ v. v.pollfds i)) _ w t
        (λ pfd v k.
          Yields-if pfd.can_write _ _ v
            (run_handler-Advances (session_on_writable e) v
              (session_on_writable-Keeps (Running n) (Running-IsStable n) e) k)
            (stay v k))

  abbrev Fewer : World → Type 0
  Fewer w = Running n w × (w.nfds ≤ n - 1)

  pair_up :
      {A : Type 0} (r : Option (A × World))
      → Post (Running n) r
      → Post (λ v. v.nfds ≤ n - 1) r
      → Yields (λ a v. Fewer v) r
  pair_up none a b = tt
  pair_up (some (x, v)) a b = (a, b)

  closed-Fewer :
      (p : ℕ) (b : Bool) (w : World)
      → Running n w
      → Yields
          (λ a v. Fewer v)
          ((when b (presence_broadcast_unavailable e p) >>= λ _. end_session p) w)
  closed-Fewer p b w t =
      Yields-bind (λ a v. Running n v) (λ a v. Fewer v)
        (when b (presence_broadcast_unavailable e p)) _ w
        (Post-Yields (Running n) _ (
          (Keeps-when b _
              (presence_broadcast_unavailable-Keeps (Running n) (Running-IsStable n) e p)).at
            w t))
        (λ a v k.
          pair_up (end_session p v) (((Running-IsStable n).keeps_end p).at v k)
            (end-fewer n p v k.table k.few))

  abbrev closing : ℕ → Session → M (Unit {0})
  closing p s = when (not (is_disconnected s.state)) (
      when (s.available || s.initial_presence_sent) (presence_broadcast_unavailable e p) >>= λ _.
      end_session p)

  -- The teardown of a session that is alive frees its slot.
  teardown-Advances :
      (p : ℕ) (w : World)
      → Running n w
      → Yields (Advances n i) ((session_teardown e p >> pure true) w)
  unfolding session_teardown when pure
  teardown-Advances p w t =
      Yields-bind (λ a v. Fewer v) (Advances n i) (session_teardown e p) _ w
        (elim (Option-cases (w.heap p)) [
          | inl x ↦ rw (load-stuck p (closing p) w x) tt
          | inr (s, x) ↦
              let alive : is_disconnected s.state ≡ false =
                alive_not_disconnected s.state (t.alive p s x (λ d. d)) in
              rw (Runs-bind (load p) (closing p) w w s (Runs-load p s w x), alive)
                (closed-Fewer p (s.available || s.initial_presence_sent) w t)
        ])
        (λ a v k. (k.0, λ again. inl k.1))

  after_read :
      (again : Bool) (w : World)
      → Advances n i again w
      → Yields (Advances n i) ((if again then pure true else writable_part e i) w)
  unfolding pure
  after_read true w t = t
  after_read false w t = writable-Advances w t.0

  session_events-Advances :
      (p : ℕ) (pfd : PollFd) (w : World)
      → Running n w
      → Yields (Advances n i) (session_events e i p pfd w)
  unfolding session_events
  session_events-Advances p pfd w t = Yields-if pfd.broken _ _ w (teardown-Advances p w t) (
      Yields-if pfd.readable _ _ w
        (Yields-bind (Advances n i) (Advances n i) (run_handler e (session_on_readable e) i) _ w
          (run_handler-Advances (session_on_readable e) w
            (λ q.
              session_on_readable-Keeps (Running n) (Running-IsStable n) e q (login-Running e n q))
            t)
          after_read)
        (writable-Advances w t))

  pub client_events-Advances :
      (o : Option ℕ) (w : World) → Running n w → Yields (Advances n i) (client_events e i o w)
  unfolding client_events gets
  client_events-Advances none w t = stay w t
  client_events-Advances (some p) w t =
      Yields-bind (λ x v. Running n v) (Advances n i) (gets (λ v. v.pollfds i)) _ w t
        (λ pfd v k. session_events-Advances p pfd v k)
