-- ===== src/Roster/Unique.antt =====
-- One item to a JID and 128 items at most, through every addition and removal.
use jabber.Base.{
  ℕ, zero, suc, ◌≤◌, ◌<◌, ◌≡◌, refl, ap, inl, inr, Bool, Option, none, some, List, [], ◌∷◌, ◌++◌,
  Text, str_eq, str_eq_iff, length, length-append, leb, if◌then◌else◌, arith, Option-cases,
  Bool-cases, if_both,
}
use jabber.World.{RosterItem, Roster}
use jabber.Roster.{
  max_roster_items, find_in, roster_find_item, edit_at, edit_item, refresh, new_item, append_item,
  roster_add_item, remove_in, roster_remove_item,
}
use jabber.Roster.Items.{lookup_item, lookup-find_in-none, lookup-append}
use jabber.Roster.AsMap.{new_item-jid, refresh-jid}

abbrev pub Unique : List RosterItem → Type 0
Unique [] = Unit
Unique (x ∷ xs) = (lookup_item xs x.jid ≡ none) × Unique xs

pub record IsRoster (r : Roster) : Type 0 where
  pub unique : Unique r.items
  pub bounded : length r.items ≤ max_roster_items

pub length-edit_at :
    (is : List RosterItem) (i : ℕ) (f : RosterItem → RosterItem)
    → length (edit_at is i f) ≡ length is
unfolding edit_at
length-edit_at [] i f = refl
length-edit_at (x ∷ xs) zero f = refl
length-edit_at (x ∷ xs) (suc i) f = ap suc (length-edit_at xs i f)

lookup-edit_at-none :
    (is : List RosterItem) (k : Text) (i : ℕ) (f : RosterItem → RosterItem)
    → ((x : RosterItem) → (f x).jid ≡ x.jid)
    → lookup_item is k ≡ none
    → lookup_item (edit_at is i f) k ≡ none
unfolding edit_at lookup_item
lookup-edit_at-none [] k i f hf h = refl
lookup-edit_at-none (x ∷ xs) k zero f hf h = ground (arith, hf x)
lookup-edit_at-none (x ∷ xs) k (suc i) f hf h = ground (arith, lookup-edit_at-none xs k i f hf)

edit_at-Unique :
    (is : List RosterItem) (i : ℕ) (f : RosterItem → RosterItem)
    → ((x : RosterItem) → (f x).jid ≡ x.jid)
    → Unique is
    → Unique (edit_at is i f)
unfolding edit_at
edit_at-Unique [] i f hf h = tt
edit_at-Unique (x ∷ xs) zero f hf h = (rw (hf x) h.0, h.1)
edit_at-Unique (x ∷ xs) (suc i) f hf h =
    (lookup-edit_at-none xs x.jid i f hf h.0, edit_at-Unique xs i f hf h.1)

append-Unique :
    (is : List RosterItem) (x : RosterItem)
    → lookup_item is x.jid ≡ none
    → Unique is
    → Unique (is ++ x ∷ [])
unfolding lookup_item
append-Unique [] x n h = (refl, tt)
append-Unique (y ∷ ys) x n h = (
  ground (arith, lookup-append ys x y.jid, h.0, str_eq_iff x.jid y.jid, str_eq_iff y.jid x.jid),
  append-Unique ys x (ground (arith)) h.1,
)

-- An addition keeps a roster within its 128 items and with one item to a JID, for a JID that fits
-- its buffer.
pub roster_add_item-IsRoster :
    (r : Roster) (jid : Text) (name subscription : Option Text) (ask : Bool)
    → length jid < 512
    → IsRoster r
    → IsRoster (roster_add_item r jid name subscription ask).0
unfolding roster_add_item roster_find_item edit_item append_item
roster_add_item-IsRoster r jid name subscription ask fits v =
    elim (Option-cases (find_in r.items jid)) [
      | inr (i, e) ↦
          let edited : Unique (edit_at r.items i (refresh name subscription ask)) =
            edit_at-Unique r.items i _ (refresh-jid name subscription ask) v.unique in
          rw (e, roster_add_item)
            (record {
              unique = edited;
              bounded = rw (length-edit_at r.items i (refresh name subscription ask)) v.bounded;
            })
      | inl e ↦
          let absent : lookup_item r.items (new_item jid name subscription ask).jid ≡ none =
            rw (new_item-jid jid name subscription ask fits) (lookup-find_in-none r.items jid e) in
          let longer : Unique (r.items ++ new_item jid name subscription ask ∷ []) =
            append-Unique r.items (new_item jid name subscription ask) absent v.unique in
          elim (Bool-cases (leb max_roster_items (length r.items))) [
            | inl full ↦ rw (e, roster_add_item) (rw full v)
            | inr room ↦
                rw (e, roster_add_item)
                  (rw room (record {
                    unique = longer;
                    bounded =
                        ground
                          (arith, length-append r.items (new_item jid name subscription ask ∷ []));
                  }))
          ]
    ]

-- The items without the first one of a JID.
unfoldable pub without_item : List RosterItem → Text → List RosterItem
without_item [] jid = []
without_item (x ∷ xs) jid = if str_eq x.jid jid then xs else x ∷ without_item xs jid

abbrev else_same : List RosterItem → Option (List RosterItem) → List RosterItem
else_same is none = is
else_same is (some is') = is'

remove_in-without :
    (is : List RosterItem) (jid : Text) → else_same is (remove_in is jid) ≡ without_item is jid
unfolding remove_in without_item
remove_in-without [] jid = refl
remove_in-without (x ∷ xs) jid = ground (arith, remove_in-without xs jid)

remove-without :
    (r : Roster) (jid : Text) → (roster_remove_item r jid).0.items ≡ without_item r.items jid
unfolding roster_remove_item
remove-without r jid = ground (arith, remove_in-without r.items jid)

lookup-without :
    (is : List RosterItem) (jid k : Text)
    → Unique is
    → lookup_item (without_item is jid) k ≡ (if str_eq jid k then none else lookup_item is k)
unfolding without_item lookup_item
lookup-without [] jid k u = ground arith
lookup-without (x ∷ xs) jid k u = ground (
  arith,
  lookup-without xs jid k u.1,
  u.0,
  str_eq_iff x.jid jid,
  str_eq_iff x.jid k,
  str_eq_iff jid k,
)

without-Unique : (is : List RosterItem) (jid : Text) → Unique is → Unique (without_item is jid)
unfolding without_item
without-Unique [] jid u = tt
without-Unique (x ∷ xs) jid u =
    if_both Unique (str_eq x.jid jid) xs (x ∷ without_item xs jid) u.1
      (ground (arith, lookup-without xs jid x.jid u.1), without-Unique xs jid u.1)

length-without : (is : List RosterItem) (jid : Text) → length (without_item is jid) ≤ length is
unfolding without_item
length-without [] jid = omega arith
length-without (x ∷ xs) jid = ground (arith, length-without xs jid)

module _ (r : Roster) (jid : Text) (v : IsRoster r) where
  -- A removal keeps a roster well formed.
  pub roster_remove_item-IsRoster : IsRoster (roster_remove_item r jid).0
  roster_remove_item-IsRoster = record {
    unique = rw (remove-without r jid) (without-Unique r.items jid v.unique);
    bounded = omega (arith, ap length (remove-without r jid), length-without r.items jid);
  }

  -- After a removal the JID is not found, and every other JID is found as before.
  pub lookup-roster_remove_item :
      (k : Text)
      → lookup_item (roster_remove_item r jid).0.items k
        ≡ (if str_eq jid k then none else lookup_item r.items k)
  lookup-roster_remove_item k = rw (remove-without r jid) (lookup-without r.items jid k v.unique)
