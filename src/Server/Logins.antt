-- ===== src/Server/Logins.antt =====
-- Who is logged in: only the SASL handler logs a session in, and only the session that sent the
-- stanza.
use jabber.Base.{
  ℕ, subst, ◌-◌, ◌≡◌, refl, ◌⊎◌, inl, inr, true, false, Option, none, some, Text, codes, str_eq,
  ◌==◌, arith, Option-cases, Bool-cases,
}
use jabber.Xml.{Node, node_name}
use jabber.World.{Session, World, Env, modify, change, next_call, update}
use jabber.World.Keeps.{
  Keeps, Post, Keeps-pure, Keeps-when, Keeps-bind, Keeps-gets, Keeps-load, keeps_rules,
}
use jabber.Auth.{logged_in}
use jabber.Teardown.{
  set_index, move_slot, clear_slot, compact, server_remove_session, free_session, session_destroy,
}
use jabber.Stanza.{stanza_route}
use jabber.Server.{session_on_readable}
use jabber.Stable.{IsStable}
use jabber.Stable.Routing.{session_on_readable-Keeps, other_stanza-Keeps}

-- Every login of `w` is one of `old`, under the same name, or one of an address that may log in.
abbrev pub LoginsFrom : (ℕ → Type 0) → World → World → Type 0
LoginsFrom Allowed old w =
    (q : ℕ) (s : Session)
    → w.heap q ≡ some s
    → s.authenticated ≡ true
    → Allowed q
      ⊎ ((o : Session) × (old.heap q ≡ some o)
          × (o.authenticated ≡ true)
          × (o.jid_local ≡ s.jid_local))

abbrev From : (ℕ → Type 0) → World → ℕ → Text → Type 0
From Allowed old q name =
    Allowed q
    ⊎ ((o : Session) × (old.heap q ≡ some o) × (o.authenticated ≡ true) × (o.jid_local ≡ name))

module _ (Allowed : ℕ → Type 0) (old : World) where
  abbrev P : World → Type 0
  P = LoginsFrom Allowed old

  update-LoginsFrom :
      (w : World) (p : ℕ) (s s' : Session)
      → P w
      → w.heap p ≡ some s
      → s'.authenticated ≡ s.authenticated
      → s'.jid_local ≡ s.jid_local
      → P (record w { heap = update w.heap p (some s') })
  unfolding update
  update-LoginsFrom w p s s' h live a b q u e l = elim (Bool-cases (p == q)) [
    | inl same ↦ subst (From Allowed old q) (ground arith) (h q s (ground arith) (ground arith))
    | inr other ↦ h q u (ground arith) l
  ]

  modify-LoginsFrom :
      (p : ℕ) (f : Session → Session)
      → ((s : Session) → (f s).authenticated ≡ s.authenticated)
      → ((s : Session) → (f s).jid_local ≡ s.jid_local)
      → Keeps P (modify p f)
  unfolding modify
  modify-LoginsFrom p f ha hj = record {
    at = λ w t. elim (Option-cases (w.heap p)) [
      | inl e ↦ rw (e, modify) tt
      | inr (s, e) ↦ rw (e, modify) (update-LoginsFrom w p s (f s) t e (ha s) (hj s))
    ];
  }

  io-LoginsFrom : (g : World → World) → ((w : World) → (g w).heap ≡ w.heap) → Keeps P (change g)
  unfolding change
  io-LoginsFrom g h = record { at = λ w t q s e l. t q s (rw (h w) at e) l }

  set_index-LoginsFrom : (o : Option ℕ) (i : ℕ) → Keeps P (set_index o i)
  unfolding set_index
  set_index-LoginsFrom none i = Keeps-pure tt
  set_index-LoginsFrom (some q) i = modify-LoginsFrom q _ (λ s. refl) (λ s. refl)

  compact-LoginsFrom : (last idx : ℕ) → Keeps P (compact last idx)
  unfolding compact move_slot
  compact-LoginsFrom last idx =
      Keeps-bind _ _ (io-LoginsFrom (move_slot last idx) (λ w. refl))
        (λ _. Keeps-bind _ _ (Keeps-gets _) (λ moved. set_index-LoginsFrom moved idx))

  remove-LoginsFrom : (p : ℕ) → Keeps P (server_remove_session p)
  unfolding server_remove_session clear_slot
  remove-LoginsFrom p = Keeps-bind _ _ (Keeps-load p) (λ s. Keeps-bind _ _ (Keeps-gets _) (λ n.
      Keeps-when _ _ (
        Keeps-bind _ _ (Keeps-when _ _ (compact-LoginsFrom (n - 1) s.poll_index))
          (λ _. io-LoginsFrom (clear_slot (n - 1)) (λ w. refl)))))

  free-LoginsFrom : (p : ℕ) (s : Session) → Keeps P (change (free_session p s))
  unfolding change free_session update
  free-LoginsFrom p s = record { at = λ w t q u e l. t q u (ground arith) l }

  destroy-LoginsFrom : (p : ℕ) → Keeps P (session_destroy p)
  unfolding session_destroy
  destroy-LoginsFrom p = search (keeps_rules, free-LoginsFrom)

  call-LoginsFrom : Keeps P next_call
  unfolding next_call
  call-LoginsFrom = record { at = λ w t. t }

  LoginsFrom-IsStable : IsStable P
  LoginsFrom-IsStable = record {
    keeps_modify = λ p f h. modify-LoginsFrom p f (λ s. (h s).authenticated) (λ s. (h s).jid_local);
    keeps_io = λ g h. io-LoginsFrom g (λ w. (h w).heap);
    keeps_call = call-LoginsFrom;
    keeps_end = λ p.
        Keeps-bind _ _ (modify-LoginsFrom p _ (λ s. refl) (λ s. refl))
          (λ _. Keeps-bind _ _ (remove-LoginsFrom p) (λ _. destroy-LoginsFrom p));
  }

refl-LoginsFrom : (Allowed : ℕ → Type 0) (w : World) → LoginsFrom Allowed w w
refl-LoginsFrom Allowed w q s e l = inr (s, e, l, refl)

login-LoginsFrom :
    (e : Env) (p : ℕ) (old : World) (a : Text)
    → Keeps (LoginsFrom (λ r. r ≡ p) old) (modify p (logged_in e a))
unfolding modify update
login-LoginsFrom e p old a = record {
  at = λ w t. elim (Option-cases (w.heap p)) [
    | inl h ↦ rw (h, modify) tt
    | inr (s, h) ↦
        rw (h, modify)
          (λ q u at l. elim (Bool-cases (p == q)) [
            | inl same ↦ inl (ground arith)
            | inr other ↦ t q u (ground arith) l
          ])
  ];
}

-- A stanza that is not <auth/> logs no session in and changes the name of none that is logged in, in
-- whatever state the session is that sent it.
pub stanza_route-logins :
    (e : Env) (p : ℕ) (n : Node) (w : World)
    → str_eq (node_name n) (codes "auth") ≡ false
    → Post (LoginsFrom (λ q. ⊥) w) (stanza_route e p n w)
stanza_route-logins e p n w h =
    (other_stanza-Keeps (LoginsFrom (λ q. ⊥) w) (LoginsFrom-IsStable (λ q. ⊥) w) e p n h).at w
      (refl-LoginsFrom (λ q. ⊥) w)

-- Reading from a session logs no other session in and changes the name of no other session that is
-- logged in, whatever arrives.
pub session_on_readable-logins :
    (e : Env) (p : ℕ) (w : World) → Post (LoginsFrom (λ q. q ≡ p) w) (session_on_readable e p w)
session_on_readable-logins e p w =
    (session_on_readable-Keeps (LoginsFrom (λ q. q ≡ p) w) (LoginsFrom-IsStable (λ q. q ≡ p) w) e p
        (login-LoginsFrom e p w)).at
      w (refl-LoginsFrom (λ q. q ≡ p) w)
