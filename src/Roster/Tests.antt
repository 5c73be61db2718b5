-- ===== src/Roster/Tests.antt =====
-- Rosters of two items.
use jabber.Base.{◌⊎◌, ◌≤◌, ◌≡◌, ◌↔◌, refl, true, false, none, List, [], ◌∷◌, codes, str_eq, arith}
use jabber.World.{RosterItem, Roster}
use jabber.Roster.{max_roster_items, roster_add_item}
use jabber.Roster.Items.{lookup_item}
use jabber.Roster.Contacts.{Request, find, add, remove, roster_answers, contacts_answers}
use jabber.Roster.Refines.{contacts_of, roster_answers-contacts_answers}
use jabber.Roster.AsMap.{roster_add_item_full}
use jabber.Roster.Unique.{IsRoster}

abbrev bob : RosterItem
bob = record {
  jid = codes "bob@localhost";
  name = codes "Bob";
  subscription = codes "both";
  ask_subscribe = false;
}

abbrev two : Roster
two = record { items = bob ∷ record bob { jid = codes "eve@localhost" } ∷ []; loaded = true }

two-IsRoster : IsRoster two
unfolding lookup_item str_eq
two-IsRoster = record { unique = (refl, (refl, tt)); bounded = omega arith }

roster_add_item_full_example :
    (((roster_add_item two (codes "al@localhost") none none true).1 ≡ false)
      ↔ ((lookup_item two.items (codes "al@localhost") ≡ none) × (max_roster_items ≤ 2)))
    × (((roster_add_item two (codes "al@localhost") none none true).1 ≡ true)
        ⊎ ((roster_add_item two (codes "al@localhost") none none true).0 ≡ two))
roster_add_item_full_example = roster_add_item_full two (codes "al@localhost") none none true

abbrev three_requests : List Request
three_requests =
    find (codes "bob@localhost")
    ∷ add (codes "al@localhost") none none true
    ∷ remove (codes "bob@localhost")
    ∷ []

roster_answers-contacts_answers_example :
    roster_answers three_requests two ≡ contacts_answers three_requests (contacts_of two)
roster_answers-contacts_answers_example =
    roster_answers-contacts_answers three_requests two two-IsRoster (tt, (omega arith, (tt, tt)))
