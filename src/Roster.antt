-- ===== src/Roster.antt =====
-- Rosters in memory, c/src/roster.c: `roster_find_item`, `roster_add_item`, `roster_remove_item`.
-- A `roster_item_t *` into a roster is the index of the item.
pub mod Items
pub mod AsMap
pub mod Unique
pub mod Contacts
pub mod Refines
mod Tests
use jabber.Base.{
  ℕ, zero, suc, ◌+◌, Bool, true, false, Option, none, some, List, [], ◌∷◌, ◌++◌, Text, codes,
  str_eq, snprintf_s, length, leb, if◌then◌else◌,
}
use mathlib.Core.Option
use jabber.World.{RosterItem, Roster}

abbrev pub max_roster_items : ℕ
max_roster_items = 128

unfoldable pub find_in : List RosterItem → Text → Option ℕ
find_in [] jid = none
find_in (i ∷ is) jid = if str_eq i.jid jid then some 0 else Option.map suc (find_in is jid)

unfoldable pub roster_find_item : Roster → Text → Option ℕ
roster_find_item r jid = find_in r.items jid

-- items[i], and a write to items[i].
unfoldable pub item_at : List RosterItem → ℕ → Option RosterItem
item_at [] i = none
item_at (x ∷ xs) zero = some x
item_at (x ∷ xs) (suc i) = item_at xs i

unfoldable pub edit_at : List RosterItem → ℕ → (RosterItem → RosterItem) → List RosterItem
edit_at [] i f = []
edit_at (x ∷ xs) zero f = f x ∷ xs
edit_at (x ∷ xs) (suc i) f = x ∷ edit_at xs i f

unfoldable pub edit_item : Roster → ℕ → (RosterItem → RosterItem) → Roster
edit_item r i f = record r { items = edit_at r.items i f }

-- `if (text) snprintf(field, size, "%s", text)`
unfoldable pub or_keep : ℕ → Option Text → Text → Text
unfolding snprintf_s
or_keep size none old = old
or_keep size (some t) old = snprintf_s size t

unfoldable pub refresh : Option Text → Option Text → Bool → RosterItem → RosterItem
unfolding or_keep
refresh name subscription ask i = record i {
  name = or_keep 256 name i.name;
  subscription = or_keep 16 subscription i.subscription;
  ask_subscribe = ask;
}

unfoldable pub new_item : Text → Option Text → Option Text → Bool → RosterItem
unfolding or_keep snprintf_s
new_item jid name subscription ask = record {
  jid = snprintf_s 512 jid;
  name = or_keep 256 name [];
  subscription = or_keep 16 subscription (codes "none");
  ask_subscribe = ask;
}

unfoldable pub append_item : Roster → RosterItem → Roster
append_item r i = record r { items = r.items ++ i ∷ [] }

-- `true` is 0, `false` is -1.
unfoldable pub roster_add_item : Roster → Text → Option Text → Option Text → Bool → Roster × Bool
roster_add_item r jid name subscription ask = elim (roster_find_item r jid) [
  | some i ↦ (edit_item r i (refresh name subscription ask), true)
  | none ↦
      if leb max_roster_items (length r.items)
      then (r, false)
      else (append_item r (new_item jid name subscription ask), true)
]

unfoldable pub remove_in : List RosterItem → Text → Option (List RosterItem)
remove_in [] jid = none
remove_in (i ∷ is) jid = if str_eq i.jid jid then some is else Option.map (◌∷◌ i) (remove_in is jid)

unfoldable pub roster_remove_item : Roster → Text → Roster × Bool
roster_remove_item r jid = elim (remove_in r.items jid) [
  | some items ↦ (record r { items = items }, true)
  | none ↦ (r, false)
]
