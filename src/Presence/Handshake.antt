-- ===== src/Presence/Handshake.antt =====
-- A request for a subscription and its approval, c/src/presence.c, from the one session to the other
-- and back.
use jabber.Base.{
  ℕ, ◌≡◌, ◌≢◌, refl, sym, ◌∙◌, ap, subst, true, false, Option, none, some, Text, str_eq,
  str_eq_refl,
}
use jabber.Jid.{JidParts, parsed, jid_parse}
use jabber.World.{RosterItem, Roster, Session, World, Env, M, ◌>>◌}
use jabber.World.Keeps.{Ends}
use jabber.World.Steps.{Ends-bind, Ends-weaken}
use jabber.Output.{bare_jid_of, session_find_by_jid}
use jabber.Subscription.{none_text, from_text, to_text, both_text, sub_has_to, sub_has_from}
use jabber.Subscription.Bits.{
  with_bits, with_bits-sub_text, sub_has_to-sub_text, sub_has_from-sub_text, sub_text, IsSub,
}
use jabber.Roster.Items.{lookup_item, map_some}
use jabber.Presence.Subscribing.{set_ask, presence_handle_subscribe, presence_handle_subscribed}
use jabber.Presence.Entry.{HasPlace, edited_or_new}
use jabber.Presence.Frame.{Files, Edited}
use jabber.Presence.LookUp.{Edited-SameJids, session_find_by_jid-Finds}
use jabber.Presence.Rosters.{contact_jid}
use jabber.Presence.States.{gains_from, gains_to}
use jabber.Presence.Asked.{Asked, presence_handle_subscribe-Asked}
use jabber.Presence.Met.{Met, presence_handle_subscribed-Met}

-- The entry of a JID, if there is one, has one of the four subscription states.
abbrev pub HasState : Roster → Text → Type 0
HasState r bare = (i : RosterItem) → lookup_item r.items bare ≡ some i → IsSub i.subscription

-- The entry has the request granted, and none pending.
record Granted (i : RosterItem) : Type 0 where
  receives : sub_has_to i.subscription ≡ true
  answered : i.ask_subscribe ≡ false

asked_then_approved :
    (bare : Text) (o : Option RosterItem)
    → ((i : RosterItem) → o ≡ some i → IsSub i.subscription)
    → Granted (gains_to (edited_or_new bare (set_ask true) none_text true o))
unfolding set_ask edited_or_new sub_has_to none_text to_text from_text both_text str_eq with_bits
    sub_text
asked_then_approved bare none h = record { receives = refl; answered = refl }
asked_then_approved bare (some i) h =
    let (to, from, e) = h i refl in
    record {
      receives =
          ap (λ t. sub_has_to (with_bits (λ a b. sub_text true b) t)) e
          ∙ ap sub_has_to (with_bits-sub_text (λ a b. sub_text true b) to from)
          ∙ sub_has_to-sub_text true from;
      answered = refl;
    }

gains_from-sends :
    (bare : Text) (o : Option RosterItem)
    → ((i : RosterItem) → o ≡ some i → IsSub i.subscription)
    → sub_has_from (edited_or_new bare gains_from from_text false o).subscription ≡ true
unfolding edited_or_new sub_has_from from_text both_text str_eq
gains_from-sends bare none h = refl
gains_from-sends bare (some i) h =
    let (to, from, e) = h i refl in
    ap (λ t. sub_has_from (with_bits (λ a b. sub_text a true) t)) e
    ∙ ap sub_has_from (with_bits-sub_text (λ a b. sub_text a true) to from)
    ∙ sub_has_from-sub_text to true

bare_jid-Edited :
    (p : ℕ) (s : Session) (w : World) (r : Roster) (fs : Files) (v : World)
    (h : Edited p s w r fs v)
    → bare_jid_of h.now ≡ bare_jid_of s
unfolding bare_jid_of
bare_jid-Edited p s w r fs v h = rw (h.same_local, h.same_domain) refl

module _ (e : Env) (p c : ℕ) (s t : Session) (w : World) (mine theirs : JidParts) where
  -- Who asked receives the presence of the one who approved, and who approved sends it.
  pub record Subscribed (v : World) : Type 0 where
    pub asker : Session
    pub giver : Session
    pub asker_at : v.heap p ≡ some asker
    pub giver_at : v.heap c ≡ some giver
    pub to_entry : RosterItem
    pub from_entry : RosterItem
    pub to_found : lookup_item asker.roster.items (contact_jid theirs) ≡ some to_entry
    pub from_found : lookup_item giver.roster.items (contact_jid mine) ≡ some from_entry
    pub receives : sub_has_to to_entry.subscription ≡ true
    pub answered : to_entry.ask_subscribe ≡ false
    pub sends : sub_has_from from_entry.subscription ≡ true

  abbrev handshake : Text → Text → M (Unit {0})
  handshake to back = presence_handle_subscribe e p to >> presence_handle_subscribed e c back

  module _ (two : p ≢ c) (own_s : bare_jid_of s ≡ contact_jid mine)
      (own_t : bare_jid_of t ≡ contact_jid theirs)
      (states_s : HasState s.roster (contact_jid theirs))
      (states_t : HasState t.roster (contact_jid mine)) where
    back_again : c ≢ p
    back_again same = two (sym same)

    -- The entries after both steps.
    Met-Subscribed :
        (v u : World) (k : Asked e p c s t w theirs v)
        → Met e c p k.second.now k.first.now v mine u
        → Subscribed u
    Met-Subscribed v u k m =
        let own_now : bare_jid_of k.second.now ≡ contact_jid theirs =
          bare_jid-Edited c t _ _ _ v k.second ∙ own_t in
        let their_entry =
          rw (str_eq_refl (bare_jid_of k.second.now)) at
            (m.their_entries (bare_jid_of k.second.now)) in
        let my_entry = rw (str_eq_refl (contact_jid mine)) at (m.my_entries (contact_jid mine)) in
        record {
          asker = m.second.now;
          giver = m.first.now;
          asker_at = m.second.at;
          giver_at = m.second.others c back_again ∙ m.first.at;
          to_entry = _;
          from_entry = _;
          to_found =
              ap (λ r. lookup_item r.items (contact_jid theirs)) m.second.roster
              ∙ subst
                  (λ j.
                    lookup_item m.theirs.items j
                    ≡ map_some gains_to (lookup_item k.first.now.roster.items j))
                  own_now their_entry
              ∙ ap (λ r. map_some gains_to (lookup_item r.items (contact_jid theirs)))
                  k.first.roster
              ∙ ap (map_some gains_to) k.entry;
          from_found =
              ap (λ r. lookup_item r.items (contact_jid mine)) m.first.roster
              ∙ my_entry
              ∙ ap
                  (λ r. some (
                    edited_or_new (contact_jid mine) gains_from from_text false
                      (lookup_item r.items (contact_jid mine))))
                  k.second.roster;
          receives =
              (asked_then_approved (contact_jid theirs)
                (lookup_item s.roster.items (contact_jid theirs)) states_s).receives;
          answered =
              (asked_then_approved (contact_jid theirs)
                (lookup_item s.roster.items (contact_jid theirs)) states_s).answered;
          sends =
              gains_from-sends (contact_jid mine) (lookup_item t.roster.items (contact_jid mine))
                states_t;
        }

    -- Where the rosters of two sessions are loaded, have the entry of the other or room for one
    -- more, an entry that is there has one of the four states, and each JID parses and finds the
    -- session of its owner, a request for a subscription and the other's approval both end, and
    -- the one who asked then receives the contact's presence: the contact's entry in the one
    -- roster has "to" and no request pending, and the entry of the one who asked has "from" in the
    -- contact's roster.
    pub handshake-Subscribed :
        (to back : Text)
        → w.heap p ≡ some s
        → w.heap c ≡ some t
        → s.roster.loaded ≡ true
        → t.roster.loaded ≡ true
        → HasPlace s.roster (contact_jid theirs)
        → HasPlace t.roster (contact_jid mine)
        → jid_parse to 256 256 256 ≡ parsed theirs
        → jid_parse back 256 256 256 ≡ parsed mine
        → session_find_by_jid (contact_jid theirs) w ≡ some (some c, w)
        → session_find_by_jid (contact_jid mine) w ≡ some (some p, w)
        → Ends Subscribed (handshake to back w)
    handshake-Subscribed to back live there loaded_s loaded_t place_s place_t parse_to parse_back
          finds_t finds_s =
        Ends-bind (Asked e p c s t w theirs) Subscribed (presence_handle_subscribe e p to) _ w
          (presence_handle_subscribe-Asked e p c s t w theirs live there two place_s finds_t to
            loaded_s parse_to)
          (λ a v k.
            let h = k.first in
            let g = k.second in
            let still : k.halfway.heap c ≡ some t = h.others c back_again ∙ there in
            let finds_half =
              session_find_by_jid-Finds (contact_jid mine) w k.halfway
                (Edited-SameJids p s w _ _ k.halfway live h) (some p) finds_s in
            let finds_now =
              session_find_by_jid-Finds (contact_jid mine) k.halfway v
                (Edited-SameJids c t k.halfway _ _ v still g) (some p) finds_half in
            Ends-weaken (Met e c p g.now h.now v mine) Subscribed _
              (presence_handle_subscribed-Met e c p g.now h.now v mine g.at (g.others p two ∙ h.at)
                back_again (subst (λ r. HasPlace r (contact_jid mine)) (sym g.roster) place_t)
                finds_now back (ap (λ r. r.loaded) g.roster ∙ loaded_t)
                (ap (λ r. r.loaded) h.roster ∙ k.loaded_still ∙ loaded_s) parse_back)
              (λ u m. Met-Subscribed v u k m))
