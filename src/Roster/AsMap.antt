-- ===== src/Roster/AsMap.antt =====
-- The operations on a roster refine those on a map from JIDs to items, and keep it within its
-- bounds with one item to a JID.
use jabber.Base.{
  ◌⊎◌, refl, ℕ, zero, suc, ◌≤◌, ◌<◌, ◌≡◌, ◌↔◌, refl, inl, inr, Bool, true, false, Option, none,
  some, List, [], ◌∷◌, Text, str_eq, str_eq_iff, snprintf_s, length, take-all, if◌then◌else◌, arith,
  Option-cases, Bool-cases,
}
use jabber.World.{RosterItem, Roster}
use jabber.Roster.{
  max_roster_items, find_in, roster_find_item, edit_item, refresh, new_item, append_item,
  roster_add_item,
}
use jabber.Roster.Items.{lookup_item, lookup-find_in-none, lookup-edit_at, lookup-append}

-- What an addition makes of the item that was there.
unfoldable pub added : Text → Option Text → Option Text → Bool → Option RosterItem → RosterItem
added jid name subscription ask none = new_item jid name subscription ask
added jid name subscription ask (some i) = refresh name subscription ask i

pub new_item-jid :
    (jid : Text) (name subscription : Option Text) (ask : Bool)
    → length jid < 512
    → (new_item jid name subscription ask).jid ≡ jid
unfolding new_item snprintf_s
new_item-jid jid name subscription ask h = take-all 511 jid (omega arith)

pub refresh-jid :
    (name subscription : Option Text) (ask : Bool) (i : RosterItem)
    → (refresh name subscription ask i).jid ≡ i.jid
unfolding refresh
refresh-jid name subscription ask i = refl

pub find_in-some :
    (is : List RosterItem) (jid : Text) (i : ℕ)
    → find_in is jid ≡ some i
    → (x : RosterItem) × (lookup_item is jid ≡ some x)
unfolding find_in lookup_item
find_in-some [] jid i h = cc
find_in-some (x ∷ xs) jid zero h = elim (Bool-cases (str_eq x.jid jid)) [
  | inl e ↦ (x, rw e)
  | inr e ↦ absurd (ground arith)
]
find_in-some (x ∷ xs) jid (suc i) h = elim (Bool-cases (str_eq x.jid jid)) [
  | inl e ↦ (x, rw e)
  | inr e ↦ rw e (find_in-some xs jid i (ground arith))
]

module _ (r : Roster) (jid : Text) (name subscription : Option Text) (ask : Bool) where
  -- An addition that succeeds puts the new or refreshed item under its JID, and leaves what is
  -- found under every other JID. The JID fits its buffer.
  pub lookup-roster_add_item :
      (k : Text)
      → length jid < 512
      → (roster_add_item r jid name subscription ask).1 ≡ true
      → lookup_item (roster_add_item r jid name subscription ask).0.items k ≡ (
          if str_eq jid k
          then some (added jid name subscription ask (lookup_item r.items jid))
          else lookup_item r.items k)
  unfolding roster_add_item roster_find_item edit_item append_item added
  lookup-roster_add_item k fits h = elim (Option-cases (find_in r.items jid)) [
    | inl e ↦ ground (
      arith,
      lookup-find_in-none r.items jid e,
      lookup-append r.items (new_item jid name subscription ask) k,
      new_item-jid jid name subscription ask fits,
      str_eq_iff jid k,
    )
    | inr (i, e) ↦
        let there : (x : RosterItem) × (lookup_item r.items jid ≡ some x) =
          find_in-some r.items jid i e in
        ground (
          arith,
          e,
          there.1,
          lookup-edit_at r.items jid k i (refresh name subscription ask)
              (refresh-jid name subscription ask) e,
        )
  ]

  unchanged :
      (roster_add_item r jid name subscription ask).1 ≡ false
      → (roster_add_item r jid name subscription ask).0 ≡ r
  unfolding roster_add_item roster_find_item
  unchanged h = ground arith

  done_or_unchanged :
      ((roster_add_item r jid name subscription ask).1 ≡ true)
      ⊎ ((roster_add_item r jid name subscription ask).0 ≡ r)
  done_or_unchanged = elim (Bool-cases (roster_add_item r jid name subscription ask).1) [
    | inl done ↦ inl done
    | inr failed ↦ inr (unchanged failed)
  ]

  -- An addition fails exactly where the JID is new and the roster has its 128 items, and a failure
  -- changes nothing.
  pub roster_add_item_full :
      (((roster_add_item r jid name subscription ask).1 ≡ false)
        ↔ ((lookup_item r.items jid ≡ none) × (max_roster_items ≤ length r.items)))
      × (((roster_add_item r jid name subscription ask).1 ≡ true)
          ⊎ ((roster_add_item r jid name subscription ask).0 ≡ r))
  unfolding roster_add_item roster_find_item
  roster_add_item_full = (
    elim (Option-cases (find_in r.items jid)) [
      | inl e ↦ (λ h. (lookup-find_in-none r.items jid e, ground arith), λ h. ground arith)
      | inr (i, e) ↦
          let there : (x : RosterItem) × (lookup_item r.items jid ≡ some x) =
            find_in-some r.items jid i e in
          (λ h. absurd (ground arith), λ h. absurd (ground (arith, there.1)))
    ],
    done_or_unchanged,
  )
