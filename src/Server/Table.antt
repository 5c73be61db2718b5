-- ===== src/Server/Table.antt =====
-- The table of sessions: every slot below `nfds` holds a live session that knows its slot, every
-- live session has a slot, and nothing else is in the table.
use jabber.Base.{
  ℕ, ◌-◌, ◌≤◌, ◌<◌, ◌≡◌, ◌≢◌, inl, inr, false, Option, none, some, ◌==◌, arith, Option-cases,
  Bool-cases,
}
use jabber.World.{Session, World, modify, change, update}
use jabber.World.Keeps.{Keeps}
use jabber.Output.{max_clients}
use jabber.Stable.{IsIo, SameTable}

abbrev pub Heap : Type 0
Heap = ℕ → Option Session

abbrev pub Occupied : Heap → (ℕ → Option ℕ) → ℕ → Type 0
Occupied heap sessions i =
    (p : ℕ) × (s : Session) × (sessions i ≡ some p) × (heap p ≡ some s) × (s.poll_index ≡ i)

pub record TableOf (heap : Heap) (next : ℕ) (sessions : ℕ → Option ℕ) (nfds : ℕ) : Type 0 where
  pub some_fd : 1 ≤ nfds
  pub bounded : nfds ≤ max_clients
  pub occupied : (i : ℕ) → 1 ≤ i → i < nfds → Occupied heap sessions i
  pub vacant : (i : ℕ) → nfds ≤ i → sessions i ≡ none
  pub indexed :
      (p : ℕ) (s : Session)
      → heap p ≡ some s
      → (1 ≤ s.poll_index) × (s.poll_index < nfds) × (sessions s.poll_index ≡ some p)
  pub fresh : (p : ℕ) → next ≤ p → heap p ≡ none

abbrev pub IsTable : World → Type 0
IsTable w = TableOf w.heap w.next_address w.sessions w.nfds

module _ {heap : Heap} {next : ℕ} {sessions : ℕ → Option ℕ} {nfds : ℕ}
    (t : TableOf heap next sessions nfds) (p : ℕ) (s : Session) (live : heap p ≡ some s) where
  module _ (s' : Session) (same : s'.poll_index ≡ s.poll_index) where
    replaced-Occupied :
        (i : ℕ) → Occupied heap sessions i → Occupied (update heap p (some s')) sessions i
    unfolding update
    replaced-Occupied i (q, u, a, b, c) = elim (Bool-cases (p == q)) [
      | inl e ↦ (q, s', a, ground arith, ground arith)
      | inr e ↦ (q, u, a, ground arith, c)
    ]

    replace-TableOf : TableOf (update heap p (some s')) next sessions nfds
    unfolding update
    replace-TableOf = record {
      some_fd = t.some_fd;
      bounded = t.bounded;
      occupied = λ i a b. replaced-Occupied i (t.occupied i a b);
      vacant = t.vacant;
      indexed = λ q u e. ground (arith, t.indexed q u, t.indexed p s live);
      fresh = λ q h. ground (arith, t.fresh q h);
    }

  inside : (1 ≤ s.poll_index) × (s.poll_index < nfds) × (sessions s.poll_index ≡ some p)
  inside = t.indexed p s live

  -- A session in another slot is another session.
  pub apart :
      (i q : ℕ) (u : Session)
      → heap q ≡ some u
      → u.poll_index ≡ i
      → i ≢ s.poll_index
      → (p == q) ≡ false
  apart i q u b c h = elim (Bool-cases (p == q)) [ inr e ↦ e | inl e ↦ absurd (ground arith) ]

  -- The last slot is freed.
  shrink-Occupied :
      s.poll_index ≡ nfds - 1
      → (i : ℕ) → i < nfds - 1
      → Occupied heap sessions i
      → Occupied (update heap p none) (update sessions (nfds - 1) none) i
  unfolding update
  shrink-Occupied h i b (q, u, x, y, z) = (q, u, ground arith, ground (arith, apart i q u y z), z)

  pub shrink-TableOf :
      s.poll_index ≡ nfds - 1
      → TableOf (update heap p none) next (update sessions (nfds - 1) none) (nfds - 1)
  unfolding update
  shrink-TableOf h = record {
    some_fd = omega (arith, inside.0, inside.1);
    bounded = omega (arith, t.bounded);
    occupied = λ i a b. shrink-Occupied h i b (t.occupied i a (omega arith));
    vacant = λ i a. ground (arith, t.vacant i);
    indexed = λ q u e. ground (arith, t.indexed q u, t.indexed p s live);
    fresh = λ q a. ground (arith, t.fresh q a);
  }

  -- The last session moves into the slot that is freed.
  module _ (q : ℕ) (u : Session) (last : sessions (nfds - 1) ≡ some q) (moved : heap q ≡ some u)
      (other : s.poll_index ≢ nfds - 1) where
    abbrev swapped : Heap
    swapped = update (update heap q (some (record u { poll_index = s.poll_index }))) p none

    abbrev swapped_slots : ℕ → Option ℕ
    swapped_slots = update (update sessions s.poll_index (some q)) (nfds - 1) none

    at_last_of : Occupied heap sessions (nfds - 1) → u.poll_index ≡ nfds - 1
    at_last_of (r, v, x, y, z) = ground arith

    pub at_last : u.poll_index ≡ nfds - 1
    at_last = at_last_of (t.occupied (nfds - 1) (omega (arith, inside)) (omega (arith, inside)))

    swap-Occupied :
        (i : ℕ) → i < nfds - 1 → Occupied heap sessions i → Occupied swapped swapped_slots i
    unfolding update
    swap-Occupied i b (r, v, x, y, z) = elim (Bool-cases (s.poll_index == i)) [
      | inl e ↦ (
        q,
        record u { poll_index = s.poll_index },
        ground arith,
        ground (arith, apart (nfds - 1) q u moved at_last),
        ground arith,
      )
      | inr e ↦ (r, v, ground arith, ground (arith, apart i r v y z, at_last, moved), z)
    ]

    moved-indexed :
        (r : ℕ) (v : Session)
        → swapped r ≡ some v
        → (1 ≤ v.poll_index) × (v.poll_index < nfds - 1) × (swapped_slots v.poll_index ≡ some r)
    unfolding update
    moved-indexed r v e = elim (Bool-cases (q == r)) [
      | inl is_q ↦ ground (arith, inside, is_q)
      | inr is_other ↦ ground (arith, inside, is_other, t.indexed r v)
    ]

    pub swap-TableOf : TableOf swapped next swapped_slots (nfds - 1)
    unfolding update
    swap-TableOf = record {
      some_fd = omega (arith, inside.0, inside.1);
      bounded = omega (arith, t.bounded);
      occupied = λ i a b. swap-Occupied i b (t.occupied i a (omega arith));
      vacant = λ i a. ground (arith, t.vacant i, inside.1);
      indexed = λ r v e. moved-indexed r v e;
      fresh = λ r a. ground (arith, t.fresh r a);
    }

pub modify-IsTable :
    (p : ℕ) (f : Session → Session)
    → ((s : Session) → (f s).poll_index ≡ s.poll_index)
    → Keeps IsTable (modify p f)
unfolding modify
modify-IsTable p f h = record {
  at = λ w t. elim (Option-cases (w.heap p)) [
    | inl e ↦ rw (e, modify) tt
    | inr (s, e) ↦ rw (e, modify) (replace-TableOf t p s e (f s) (h s))
  ];
}

pub io-IsTable : (g : World → World) → IsIo g → Keeps IsTable (change g)
unfolding change
io-IsTable g h = record {
  at = λ w t. let q : SameTable (g w) w = h w in rw (q.heap, q.next_address, q.sessions, q.nfds) t;
}
