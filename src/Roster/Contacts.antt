-- ===== src/Roster/Contacts.antt =====
-- What a roster, c/src/roster.c, is asked, and the answers of a map from JIDs to items.
use jabber.Base.{
  ℕ, suc, ◌-◌, Bool, true, false, Option, none, some, List, [], ◌∷◌, Text, str_eq, leb,
  if◌then◌else◌,
}
use jabber.World.{RosterItem, Roster}
use jabber.Roster.{max_roster_items, item_at, roster_find_item, roster_add_item, roster_remove_item}
use jabber.Roster.AsMap.{added}

-- The map, and how many JIDs are in it.
pub record Contacts : Type 0 where
  pub item : Text → Option RosterItem
  pub size : ℕ

-- What is asked of a roster: the item of a JID, an addition and a removal.
pub data Request : Type 0 where
  find : Text → Request
  add : Text → Option Text → Option Text → Bool → Request
  remove : Text → Request

pub data Answer : Type 0 where
  item_is : Option RosterItem → Answer
  done : Bool → Answer

abbrev pub item_of : Roster → Option ℕ → Option RosterItem
item_of r none = none
item_of r (some i) = item_at r.items i

-- One request to a roster, and to a map.
unfoldable pub ask_roster : Request → Roster → Roster × Answer
ask_roster (find jid) r = (r, item_is (item_of r (roster_find_item r jid)))
ask_roster (add jid name subscription ask) r =
    let (r', ok) = roster_add_item r jid name subscription ask in (r', done ok)
ask_roster (remove jid) r = let (r', ok) = roster_remove_item r jid in (r', done ok)

unfoldable pub put_item :
    Text → Option RosterItem → (Text → Option RosterItem) → Text → Option RosterItem
put_item jid i m k = if str_eq jid k then i else m k

unfoldable pub add_contact :
    Text → Option Text → Option Text → Bool → Contacts → Option RosterItem → Contacts × Answer
add_contact jid name subscription ask c (some i) = (
  record c { item = put_item jid (some (added jid name subscription ask (some i))) c.item },
  done true,
)
add_contact jid name subscription ask c none =
    if leb max_roster_items c.size then (c, done false) else (
      record {
        item = put_item jid (some (added jid name subscription ask none)) c.item;
        size = suc c.size;
      },
      done true,
    )

unfoldable pub remove_contact : Text → Contacts → Option RosterItem → Contacts × Answer
remove_contact jid c none = (c, done false)
remove_contact jid c (some i) =
    (record { item = put_item jid none c.item; size = c.size - 1 }, done true)

unfoldable pub ask_contacts : Request → Contacts → Contacts × Answer
unfolding add_contact remove_contact
ask_contacts (find jid) c = (c, item_is (c.item jid))
ask_contacts (add jid name subscription ask) c =
    add_contact jid name subscription ask c (c.item jid)
ask_contacts (remove jid) c = remove_contact jid c (c.item jid)

-- The answers to a list of requests.
unfoldable pub roster_answers : List Request → Roster → List Answer
roster_answers [] r = []
roster_answers (q ∷ qs) r = let (r', a) = ask_roster q r in a ∷ roster_answers qs r'

unfoldable pub contacts_answers : List Request → Contacts → List Answer
contacts_answers [] c = []
contacts_answers (q ∷ qs) c = let (c', a) = ask_contacts q c in a ∷ contacts_answers qs c'
