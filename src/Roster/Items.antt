-- ===== src/Roster/Items.antt =====
-- The roster seen as a map from JIDs to items: what adding and removing do to it.
use jabber.Base.{
  ℕ, zero, suc, ◌≡◌, refl, Option, none, some, List, [], ◌∷◌, ◌++◌, Text, str_eq, str_eq_iff,
  if◌then◌else◌, arith,
}
use jabber.World.{RosterItem}
use jabber.Roster.{find_in, item_at, edit_at}

-- The first item of a JID.
unfoldable pub lookup_item : List RosterItem → Text → Option RosterItem
lookup_item [] jid = none
lookup_item (i ∷ is) jid = if str_eq i.jid jid then some i else lookup_item is jid

-- Finding and reading is looking up.
pub item_at-find_in :
    (is : List RosterItem) (jid : Text) (i : ℕ)
    → find_in is jid ≡ some i
    → item_at is i ≡ lookup_item is jid
unfolding find_in item_at lookup_item
item_at-find_in [] jid i h = cc
item_at-find_in (x ∷ xs) jid zero h = ground arith
item_at-find_in (x ∷ xs) jid (suc i) h = ground (arith, item_at-find_in xs jid i)

pub lookup-find_in-none :
    (is : List RosterItem) (jid : Text) → find_in is jid ≡ none → lookup_item is jid ≡ none
unfolding find_in lookup_item
lookup-find_in-none [] jid h = refl
lookup-find_in-none (x ∷ xs) jid h = ground (arith, lookup-find_in-none xs jid)

pub lookup_item-jid :
    (is : List RosterItem) (jid : Text) (i : RosterItem) → lookup_item is jid ≡ some i → i.jid ≡ jid
unfolding lookup_item
lookup_item-jid [] jid i h = cc
lookup_item-jid (x ∷ xs) jid i h = ground (arith, str_eq_iff x.jid jid, lookup_item-jid xs jid i)

abbrev pub map_some : (RosterItem → RosterItem) → Option RosterItem → Option RosterItem
map_some f none = none
map_some f (some i) = some (f i)

-- An edit that keeps the JID, at the place where the JID was found.
pub lookup-edit_at :
    (is : List RosterItem) (jid k : Text) (i : ℕ) (f : RosterItem → RosterItem)
    → ((x : RosterItem) → (f x).jid ≡ x.jid)
    → find_in is jid ≡ some i
    → lookup_item (edit_at is i f) k
      ≡ (if str_eq jid k then map_some f (lookup_item is jid) else lookup_item is k)
unfolding find_in edit_at lookup_item
lookup-edit_at [] jid k i f hf h = cc
lookup-edit_at (x ∷ xs) jid k zero f hf h =
    ground (arith, hf x, str_eq_iff x.jid jid, str_eq_iff x.jid k, str_eq_iff jid k)
lookup-edit_at (x ∷ xs) jid k (suc i) f hf h = ground (
  arith,
  lookup-edit_at xs jid k i f hf,
  str_eq_iff x.jid jid,
  str_eq_iff x.jid k,
  str_eq_iff jid k,
)

pub lookup-append :
    (is : List RosterItem) (x : RosterItem) (k : Text)
    → lookup_item (is ++ x ∷ []) k ≡ (elim (lookup_item is k) [
      | some i ↦ some i
      | none ↦ if str_eq x.jid k then some x else none
    ])
unfolding lookup_item
lookup-append [] x k = refl
lookup-append (y ∷ ys) x k = ground (arith, lookup-append ys x k)
