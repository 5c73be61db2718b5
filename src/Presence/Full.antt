-- ===== src/Presence/Full.antt =====
-- A subscription request from a session whose roster is full, c/src/presence.c.
use jabber.Base.{
  ℕ, ◌≤◌, ◌≡◌, refl, ◌∙◌, Bool, true, false, none, some, Text, length, arith, Bool-cases, inl, inr,
}
use jabber.World.{
  RosterItem, Roster, Session, World, Env, M, ◌>>=◌, pure, fault, load, modify, change, when,
}
use jabber.World.Steps.{put, put_self, Runs, Runs-bind, Runs-load, Runs-modify, bind-none}
use jabber.Roster.{max_roster_items, roster_find_item, roster_add_item}
use jabber.Disk.{roster_save_to_path, roster_save_for_user, roster_save}
use jabber.Teardown.{parse_bare, ensure_roster}
use jabber.Subscription.{none_text}
use jabber.RosterIq.{set_roster, found_item, roster_push_at}
use jabber.Presence.Subscribing.{edit_or_add, set_ask, save_and_push, presence_handle_subscribe}

-- A full roster takes no new JID.
edit_or_add-full :
    (r : Roster) (bare : Text) (f : RosterItem → RosterItem) (subscription : Text) (ask : Bool)
    → roster_find_item r bare ≡ none
    → max_roster_items ≤ length r.items
    → edit_or_add r bare f subscription ask ≡ r
unfolding edit_or_add roster_add_item roster_find_item
edit_or_add-full r bare f subscription ask new full = ground arith

module _ (e : Env) (p : ℕ) (s : Session) where
  abbrev Saved : M Bool → World → Type 0
  Saved m w = (b : Bool) × (v : World) × (v.heap p ≡ some s) × (m w ≡ some (b, v))

  roster_save_to_path-Saved :
      (path : Text) (r : Roster) (w : World)
      → w.heap p ≡ some s
      → Saved (roster_save_to_path e path r) w
  unfolding roster_save_to_path change pure ◌>>=◌
  roster_save_to_path-Saved path r w live = elim (Bool-cases (e.writable path)) [
    | inl yes' ↦ rw yes' (true, _, live, refl)
    | inr no' ↦ rw no' (false, w, live, refl)
  ]

  -- The state after roster.xml is written, or not.
  roster_save-Saved : (w : World) → w.heap p ≡ some s → Saved (roster_save e p) w
  unfolding roster_save roster_save_for_user
  roster_save-Saved w live =
      let (b, v, there, run) = roster_save_to_path-Saved _ s.roster w live in
      (b, v, there, Runs-bind (load p) _ w w s (Runs-load p s w live) ∙ run)

  push-null :
      (bare : Text) (w : World)
      → w.heap p ≡ some s
      → roster_find_item s.roster bare ≡ none
      → roster_push_at e p (roster_find_item s.roster bare) w ≡ none
  unfolding roster_push_at found_item fault
  push-null bare w live new = rw (Runs-bind (load p) _ w w s (Runs-load p s w live), new) refl

  save_and_push-null :
      (bare : Text) (w : World)
      → w.heap p ≡ some s
      → roster_find_item s.roster bare ≡ none
      → save_and_push e p bare w ≡ none
  unfolding save_and_push
  save_and_push-null bare w live new =
      let (b, v, there, run) = roster_save-Saved w live in
      Runs-bind (roster_save e p) _ w v b run
      ∙ Runs-bind (load p) (λ t. roster_push_at e p (roster_find_item t.roster bare)) v v s
          (Runs-load p s v there)
      ∙ push-null bare v there new

module _ (e : Env) (p : ℕ) (s : Session) (w : World) (live : w.heap p ≡ some s) where
  pub ensured : s.roster.loaded ≡ true → Runs (ensure_roster e p) w tt w
  unfolding ensure_roster when pure
  ensured loaded = rw (Runs-bind (load p) _ w w s (Runs-load p s w live), loaded) refl

  module _ (bare : Text) (new : roster_find_item s.roster bare ≡ none)
      (full : max_roster_items ≤ length s.roster.items) where
    abbrev added : Session
    added = set_roster (edit_or_add s.roster bare (set_ask true) none_text true) s

    still_new : roster_find_item added.roster bare ≡ none
    unfolding set_roster
    still_new = rw (edit_or_add-full s.roster bare (set_ask true) none_text true new full) new

    -- A subscription request whose JID parses and is not in the roster, from a session whose
    -- roster is loaded and full, ends in the use of a null pointer.
    pub presence_handle_subscribe-full :
        (to : Text)
        → s.roster.loaded ≡ true
        → parse_bare to w ≡ some (bare, w)
        → presence_handle_subscribe e p to w ≡ none
    unfolding presence_handle_subscribe
    presence_handle_subscribe-full to loaded parse =
        Runs-bind (parse_bare to) _ w w bare parse
        ∙ Runs-bind (ensure_roster e p) _ w w tt (ensured loaded)
        ∙ Runs-bind (load p) _ w w s (Runs-load p s w live)
        ∙ Runs-bind
            (modify p (set_roster (edit_or_add s.roster bare (set_ask true) none_text true))) _ w
            (put p added w) tt
            (Runs-modify p s (set_roster (edit_or_add s.roster bare (set_ask true) none_text true))
              w live)
        ∙ bind-none (save_and_push e p bare) _ (put p added w)
            (save_and_push-null e p added bare (put p added w) (put_self p added w) still_new)
