-- ===== src/Roster/Refines.antt =====
-- A roster, c/src/roster.c, refines a map from JIDs to items with a bound on its size: whatever is
-- done with both, they give the same answers.
use jabber.Base.{
  ℕ, suc, ◌-◌, ◌<◌, ◌≡◌, refl, ap, ◌∙◌, Bool, true, false, Option, none, some, List, [], ◌∷◌, Text,
  str_eq, length, length-append, leb, if◌then◌else◌, arith, Option-cases, Bool-cases, inl, inr, All,
}
use jabber.World.{RosterItem, Roster}
use jabber.Roster.{
  max_roster_items, find_in, remove_in, append_item, new_item, refresh, edit_item, roster_find_item,
  roster_add_item, roster_remove_item,
}
use jabber.Roster.Items.{lookup_item, item_at-find_in, lookup-find_in-none}
use jabber.Roster.AsMap.{find_in-some, added, lookup-roster_add_item}
use jabber.Roster.Unique.{
  IsRoster, length-edit_at, roster_add_item-IsRoster, lookup-roster_remove_item,
  roster_remove_item-IsRoster,
}
use jabber.Roster.Contacts.{
  Contacts, Request, find, add, remove, Answer, item_is, done, item_of, ask_roster, put_item,
  ask_contacts, roster_answers, contacts_answers,
}

-- The roster stands for the map.
record Represents (r : Roster) (c : Contacts) : Type 0 where
  items : (k : Text) → lookup_item r.items k ≡ c.item k
  size : length r.items ≡ c.size
  roster : IsRoster r

-- A JID that is added fits its buffer.
abbrev pub Fitting : Request → Type 0
Fitting (find jid) = Unit
Fitting (add jid name subscription ask) = length jid < 512
Fitting (remove jid) = Unit

-- The step of both: the same answer, and the roster stands for the map again.
abbrev Agree : Roster × Answer → Contacts × Answer → Type 0
Agree (r, a) (c, b) = Represents r c × (a ≡ b)

find_in-absent :
    (is : List RosterItem) (jid : Text) → lookup_item is jid ≡ none → find_in is jid ≡ none
find_in-absent is jid h = elim (Option-cases (find_in is jid)) [
  | inl e ↦ e
  | inr (i, e) ↦ let (x, there) = find_in-some is jid i e in absurd (ground (arith, there))
]

find_in-present :
    (is : List RosterItem) (jid : Text) (x : RosterItem)
    → lookup_item is jid ≡ some x
    → (i : ℕ) × (find_in is jid ≡ some i)
find_in-present is jid x h = elim (Option-cases (find_in is jid)) [
  | inl e ↦ absurd (ground (arith, lookup-find_in-none is jid e))
  | inr (i, e) ↦ (i, e)
]

remove_in-absent :
    (is : List RosterItem) (jid : Text) → lookup_item is jid ≡ none → remove_in is jid ≡ none
unfolding lookup_item remove_in
remove_in-absent [] jid h = refl
remove_in-absent (y ∷ ys) jid h = ground (arith, remove_in-absent ys jid)

remove_in-present :
    (is : List RosterItem) (jid : Text) (x : RosterItem)
    → lookup_item is jid ≡ some x
    → (rest : List RosterItem) × (remove_in is jid ≡ some rest) × (suc (length rest) ≡ length is)
unfolding lookup_item remove_in
remove_in-present [] jid x h = cc
remove_in-present (y ∷ ys) jid x h = elim (Bool-cases (str_eq y.jid jid)) [
  | inl e ↦ (ys, rw e refl, refl)
  | inr e ↦
      let (rest, removed, size) = remove_in-present ys jid x (ground arith) in
      (y ∷ rest, rw (e, removed) refl, ap suc size)
]

module _ (r : Roster) (c : Contacts) (h : Represents r c) (jid : Text) where
  find-answer : item_of r (roster_find_item r jid) ≡ lookup_item r.items jid
  unfolding roster_find_item
  find-answer = elim (Option-cases (find_in r.items jid)) [
    | inl e ↦ rw (e, lookup-find_in-none r.items jid e) refl
    | inr (i, e) ↦ rw e (item_at-find_in r.items jid i e)
  ]

  find-Agree : Agree (ask_roster (find jid) r) (ask_contacts (find jid) c)
  unfolding ask_roster ask_contacts
  find-Agree = (h, ap item_is (find-answer ∙ h.items jid))

  remove_item-absent : lookup_item r.items jid ≡ none → roster_remove_item r jid ≡ (r, false)
  unfolding roster_remove_item
  remove_item-absent e = rw (remove_in-absent r.items jid e, roster_remove_item) refl

  remove_item-present :
      (x : RosterItem)
      → lookup_item r.items jid ≡ some x
      → ((roster_remove_item r jid).1 ≡ true)
        × (length (roster_remove_item r jid).0.items ≡ c.size - 1)
  unfolding roster_remove_item
  remove_item-present x e =
      let (rest, removed, size) = remove_in-present r.items jid x e in
      rw (removed, roster_remove_item) (refl, omega (arith, size, h.size))

  remove-Agree : Agree (ask_roster (remove jid) r) (ask_contacts (remove jid) c)
  unfolding ask_roster ask_contacts put_item
  remove-Agree = elim (Option-cases (c.item jid)) [
    | inl e ↦ rw (e, remove_item-absent (h.items jid ∙ e)) (h, refl)
    | inr (x, e) ↦
        let (succeeds, size) = remove_item-present x (h.items jid ∙ e) in
        rw e (
          record {
            items = λ k.
                lookup-roster_remove_item r jid h.roster k
                ∙ ap (λ o. if str_eq jid k then none else o) (h.items k);
            size = size;
            roster = roster_remove_item-IsRoster r jid h.roster;
          },
          ap done succeeds,
        )
  ]

module _ (r : Roster) (c : Contacts) (h : Represents r c) (jid : Text)
    (name subscription : Option Text) (ask : Bool) (fits : length jid < 512) where
  abbrev result : Roster × Bool
  result = roster_add_item r jid name subscription ask

  add-full :
      lookup_item r.items jid ≡ none
      → leb max_roster_items (length r.items) ≡ true
      → result ≡ (r, false)
  unfolding roster_add_item roster_find_item
  add-full e full = rw (find_in-absent r.items jid e, full, roster_add_item) refl

  add-new :
      lookup_item r.items jid ≡ none
      → leb max_roster_items (length r.items) ≡ false
      → (result.1 ≡ true) × (length result.0.items ≡ suc (length r.items))
  unfolding roster_add_item roster_find_item append_item
  add-new e room =
      rw (find_in-absent r.items jid e, room, roster_add_item)
        (refl, omega (arith, length-append r.items (new_item jid name subscription ask ∷ [])))

  add-known :
      (x : RosterItem)
      → lookup_item r.items jid ≡ some x
      → (result.1 ≡ true) × (length result.0.items ≡ length r.items)
  unfolding roster_add_item roster_find_item edit_item
  add-known x e =
      let (i, at) = find_in-present r.items jid x e in
      rw (at, roster_add_item) (refl, length-edit_at r.items i (refresh name subscription ask))

  abbrev new_map : Option RosterItem → Text → Option RosterItem
  new_map old = put_item jid (some (added jid name subscription ask old)) c.item

  succeeded-Represents :
      (old : Option RosterItem) (size : ℕ)
      → c.item jid ≡ old
      → (result.1 ≡ true) × (length result.0.items ≡ size)
      → Represents result.0 (record { item = new_map old; size = size })
  unfolding put_item
  succeeded-Represents old size e (succeeds, n) = record {
    items = λ k.
        lookup-roster_add_item r jid name subscription ask k fits succeeds
        ∙ rw (h.items jid, e, h.items k) refl;
    size = n;
    roster = roster_add_item-IsRoster r jid name subscription ask fits h.roster;
  }

  add-Agree :
      Agree
        (ask_roster (add jid name subscription ask) r)
        (ask_contacts (add jid name subscription ask) c)
  unfolding ask_roster ask_contacts
  add-Agree = elim (Option-cases (c.item jid)) [
    | inl e ↦ elim (Bool-cases (leb max_roster_items c.size)) [
      | inl full ↦ rw (e, full, add-full (h.items jid ∙ e) (rw h.size full)) (h, refl)
      | inr room ↦
          let both = add-new (h.items jid ∙ e) (rw h.size room) in
          rw (e, room)
            (
              succeeded-Represents none (suc c.size) e (both.0, both.1 ∙ ap suc h.size),
              ap done both.0,
            )
    ]
    | inr (x, e) ↦
        let both = add-known x (h.items jid ∙ e) in
        rw e (succeeded-Represents (some x) c.size e (both.0, both.1 ∙ h.size), ap done both.0)
  ]

ask-Agree :
    (q : Request) (r : Roster) (c : Contacts)
    → Represents r c
    → Fitting q
    → Agree (ask_roster q r) (ask_contacts q c)
ask-Agree (find jid) r c h fits = find-Agree r c h jid
ask-Agree (add jid name subscription ask) r c h fits =
    add-Agree r c h jid name subscription ask fits
ask-Agree (remove jid) r c h fits = remove-Agree r c h jid

answers-same :
    (qs : List Request) (r : Roster) (c : Contacts)
    → Represents r c
    → All Fitting qs
    → roster_answers qs r ≡ contacts_answers qs c
unfolding roster_answers contacts_answers
answers-same [] r c h fits = refl
answers-same (q ∷ qs) r c h fits =
    let (again, same) = ask-Agree q r c h fits.0 in
    rw (same, answers-same qs (ask_roster q r).0 (ask_contacts q c).0 again fits.1) refl

-- The map that a roster stands for.
abbrev pub contacts_of : Roster → Contacts
contacts_of r = record { item = lookup_item r.items; size = length r.items }

-- A roster refines a map from JIDs to items with a bound of 128 on its size: to any sequence of
-- searches, additions and removals the roster gives the answers that the map gives, items included.
-- The roster is well formed, and the JIDs that are added fit their buffer.
pub roster_answers-contacts_answers :
    (qs : List Request) (r : Roster)
    → IsRoster r
    → All Fitting qs
    → roster_answers qs r ≡ contacts_answers qs (contacts_of r)
roster_answers-contacts_answers qs r v fits =
    answers-same qs r (contacts_of r) (record { items = λ k. refl; size = refl; roster = v }) fits
