-- ===== src/Presence/Entry.antt =====
-- The entry of a contact after a subscription handler, c/src/presence.c, has edited or added it.
use jabber.Base.{
  ◌≡◌, refl, ◌∙◌, Option, none, some, Text, str_eq, str_eq_iff, length, snprintf_s, take-all, [],
  arith, Option-cases, inl, inr, ◌<◌, ◌⊎◌, Bool, if◌then◌else◌,
}
use jabber.World.{RosterItem, Roster}
use jabber.Roster.{
  or_keep, max_roster_items, find_in, roster_find_item, edit_item, new_item, append_item,
  roster_add_item,
}
use jabber.Roster.Items.{
  lookup_item, item_at-find_in, lookup-find_in-none, lookup-edit_at, lookup-append, map_some,
}
use jabber.Roster.AsMap.{new_item-jid, find_in-some}
use jabber.RosterIq.{found_item}
use jabber.Presence.Subscribing.{edit_or_add, edit_if_found}

-- The contact is in the roster, or one more fits.
abbrev pub HasPlace : Roster → Text → Type 0
HasPlace r bare =
    ((x : RosterItem) × (lookup_item r.items bare ≡ some x)) ⊎ (length r.items < max_roster_items)

-- The item that was there, edited, or a new one.
unfoldable pub edited_or_new :
    Text → (RosterItem → RosterItem) → Text → Bool → Option RosterItem → RosterItem
edited_or_new bare f subscription ask none = record {
  jid = bare;
  name = [];
  subscription = subscription;
  ask_subscribe = ask;
}
edited_or_new bare f subscription ask (some i) = f i

new_item-plain :
    (bare subscription : Text) (ask : Bool)
    → length bare < 512
    → length subscription < 16
    → new_item bare none (some subscription) ask
      ≡ record { jid = bare; name = []; subscription = subscription; ask_subscribe = ask }
unfolding new_item or_keep snprintf_s
new_item-plain bare subscription ask fits short =
    rw (take-all 511 bare (omega arith), take-all 15 subscription (omega arith)) refl

module _ (r : Roster) (bare : Text) (f : RosterItem → RosterItem) (subscription : Text) (ask : Bool)
    (same : (x : RosterItem) → (f x).jid ≡ x.jid) (fits : length bare < 512)
    (short : length subscription < 16) where
  pub lookup-edit_or_add :
      (k : Text)
      → HasPlace r bare
      → lookup_item (edit_or_add r bare f subscription ask).items k ≡ (
          if str_eq bare k
          then some (edited_or_new bare f subscription ask (lookup_item r.items bare))
          else lookup_item r.items k)
  unfolding edit_or_add roster_find_item edit_item roster_add_item append_item edited_or_new
  lookup-edit_or_add k place = elim (Option-cases (find_in r.items bare)) [
    | inl e ↦ elim place [
      | inl (x, h) ↦ absurd (ground (arith, lookup-find_in-none r.items bare e))
      | inr few ↦ ground (
        arith,
        lookup-find_in-none r.items bare e,
        lookup-append r.items (new_item bare none (some subscription) ask) k,
        new_item-jid bare none (some subscription) ask fits,
        new_item-plain bare subscription ask fits short,
        str_eq_iff bare k,
      )
    ]
    | inr (i, e) ↦
        let (x, there) = find_in-some r.items bare i e in
        ground (arith, lookup-edit_at r.items bare k i f same e)
  ]

pub loaded-edit_or_add :
    (r : Roster) (bare : Text) (f : RosterItem → RosterItem) (subscription : Text) (ask : Bool)
    → (edit_or_add r bare f subscription ask).loaded ≡ r.loaded
unfolding edit_or_add roster_find_item edit_item roster_add_item append_item
loaded-edit_or_add r bare f subscription ask = elim (Option-cases (find_in r.items bare)) [
  | inl e ↦ ground arith
  | inr (i, e) ↦ ground arith
]

-- The entry of a contact that is edited only where it is there.
pub lookup-edit_if_found :
    (r : Roster) (bare : Text) (f : RosterItem → RosterItem) (k : Text)
    → ((x : RosterItem) → (f x).jid ≡ x.jid)
    → lookup_item (edit_if_found r bare f).items k
      ≡ (if str_eq bare k then map_some f (lookup_item r.items bare) else lookup_item r.items k)
unfolding edit_if_found roster_find_item edit_item
lookup-edit_if_found r bare f k same = elim (Option-cases (find_in r.items bare)) [
  | inl e ↦ ground (arith, lookup-find_in-none r.items bare e, str_eq_iff bare k)
  | inr (i, e) ↦ ground (arith, lookup-edit_at r.items bare k i f same e)
]

-- What is looked up is found, and read where it was found.
pub found-lookup :
    (r : Roster) (bare : Text) (x : RosterItem)
    → lookup_item r.items bare ≡ some x
    → found_item r (roster_find_item r bare) ≡ some x
unfolding found_item roster_find_item
found-lookup r bare x h = elim (Option-cases (find_in r.items bare)) [
  | inl e ↦ absurd (ground (arith, lookup-find_in-none r.items bare e))
  | inr (i, e) ↦ rw e (item_at-find_in r.items bare i e ∙ h)
]
