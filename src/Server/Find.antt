-- ===== src/Server/Find.antt =====
-- What `session_find_by_jid` of c/src/session.c finds in the table.
use jabber.Base.{ℕ, ◌+◌, ◌≤◌, ◌<◌, ◌≡◌, Bool, true, false, Option, none, some, Text}
use jabber.World.{World, M}
use jabber.Output.{jid_matches}
use jabber.Server.Table.{IsTable}

-- The session in a slot has this bare JID.
abbrev pub matches : Text → World → ℕ → Bool
matches bare w j = elim (w.sessions j) [
  | none ↦ false
  | some p ↦ elim (w.heap p) [ none ↦ false | some s ↦ jid_matches bare s ]
]

-- The session in the first of the slots from `i` to below `i + n` that match, or none.
abbrev pub IsFirst : Text → World → ℕ → ℕ → Option ℕ → Type 0
IsFirst bare w i n none = (j : ℕ) → i ≤ j → j < i + n → matches bare w j ≡ false
IsFirst bare w i n (some p) =
    (j : ℕ) × (i ≤ j)
    × (j < i + n)
    × (w.sessions j ≡ some p)
    × (matches bare w j ≡ true)
    × ((k : ℕ) → i ≤ k → k < j → matches bare w k ≡ false)

module _ (bare : Text) (w : World) (t : IsTable w) where
  abbrev Finds : ℕ → ℕ → M (Option ℕ) → Type 0
  Finds i n m = (r : Option ℕ) × (m w ≡ some (r, w)) × IsFirst bare w i n r
