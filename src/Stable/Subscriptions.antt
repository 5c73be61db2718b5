-- ===== src/Stable/Subscriptions.antt =====
-- Presence keeps every stable predicate.
use jabber.Base.{ℕ, zero, suc, ◌+◌, Option, none, some, Text}
use jabber.Xml.{Node}
use jabber.World.{RosterItem, Session, World, Env, pure}
use jabber.World.Keeps.{
  Keeps, Keeps-option, Keeps-pure, Keeps-bind, Keeps-gets, Keeps-when, keeps_rules,
}
use jabber.Presence.Available.{
  send_if_online, broadcast_to, send_presence_of, receive_contact, receive_from, redeliver_item,
  redeliver_from, redeliver_slots, presence_redeliver_pending_subscribes, presence_handle_available,
  presence_handle_unavailable,
}
use jabber.Presence.Subscribing.{
  save_and_push, presence_handle_subscribe, edit_online, push_if_found, approve_online,
  approve_on_disk, approve_target, announce_approval, presence_handle_subscribed, revoke_online,
  revoke_on_disk, send_unavailable, revoke_target, revoke, presence_handle_unsubscribe,
  presence_handle_unsubscribed,
}
use jabber.Presence.{dispatch_presence, handle_presence}
use jabber.Stable.{IsStable}
use jabber.Stable.Sending.{
  jid_buffers-Keeps, parse_bare-Keeps, session_find_by_jid-Keeps, stanza_send-Keeps,
  roster_load_for_user-Keeps, roster_save_for_user-Keeps, roster_save-Keeps, ensure_roster-Keeps,
  presence_broadcast_unavailable-Keeps,
}
use jabber.Stable.Rosters.{set_roster-Keeps, roster_push_at-Keeps, message_deliver_offline-Keeps}

module _ (P : World → Type 0) (S : IsStable P) (e : Env) where
  open S use {keeps_modify, keeps_io}

  send_if_online-Keeps : (n : Node) (o : Option ℕ) → Keeps P (send_if_online e n o)
  unfolding send_if_online
  send_if_online-Keeps n none = Keeps-pure tt
  send_if_online-Keeps n (some c) = stanza_send-Keeps P S e c n

  broadcast_to-Keeps : (n : Node) (i : RosterItem) → Keeps P (broadcast_to e n i)
  unfolding broadcast_to
  broadcast_to-Keeps n i =
      search (keeps_rules, parse_bare-Keeps, session_find_by_jid-Keeps, send_if_online-Keeps)

  send_presence_of-Keeps : (p : ℕ) (c : Session) → Keeps P (send_presence_of e p c)
  unfolding send_presence_of
  send_presence_of-Keeps p c =
      Keeps-option c.presence_stanza (pure tt) _ (Keeps-pure tt)
        (λ n. Keeps-when c.available _ (stanza_send-Keeps P S e p n))

  receive_contact-Keeps : (p : ℕ) (o : Option ℕ) → Keeps P (receive_contact e p o)
  unfolding receive_contact
  receive_contact-Keeps p none = Keeps-pure tt
  receive_contact-Keeps p (some c) = search (keeps_rules, send_presence_of-Keeps)

  receive_from-Keeps : (p : ℕ) (i : RosterItem) → Keeps P (receive_from e p i)
  unfolding receive_from
  receive_from-Keeps p i =
      search (keeps_rules, parse_bare-Keeps, session_find_by_jid-Keeps, receive_contact-Keeps)

  redeliver_item-Keeps : (p : ℕ) (a b : Text) (i : RosterItem) → Keeps P (redeliver_item e p a b i)
  unfolding redeliver_item
  redeliver_item-Keeps p a b i = search (keeps_rules, stanza_send-Keeps)

  redeliver_from-Keeps : (p : ℕ) (a : Text) (o : Option ℕ) → Keeps P (redeliver_from e p a o)
  unfolding redeliver_from
  redeliver_from-Keeps p a none = Keeps-pure tt
  redeliver_from-Keeps p a (some c) = search (keeps_rules, redeliver_item-Keeps) depth 7

  redeliver_slots-Keeps : (p : ℕ) (a : Text) (n i : ℕ) → Keeps P (redeliver_slots e p a n i)
  unfolding redeliver_slots
  redeliver_slots-Keeps p a zero i = Keeps-pure tt
  redeliver_slots-Keeps p a (suc n) i = Keeps-bind _ _ (Keeps-gets (λ w. w.sessions i)) (λ slot.
      Keeps-bind _ _ (redeliver_from-Keeps p a slot) (λ _. redeliver_slots-Keeps p a n (i + 1)))

  redeliver-Keeps : (p : ℕ) → Keeps P (presence_redeliver_pending_subscribes e p)
  unfolding presence_redeliver_pending_subscribes
  redeliver-Keeps p = search (keeps_rules, redeliver_slots-Keeps)

  presence_handle_available-Keeps : (p : ℕ) (n : Node) → Keeps P (presence_handle_available e p n)
  unfolding presence_handle_available
  presence_handle_available-Keeps p n =
      search
        (
          keeps_rules, keeps_modify, ensure_roster-Keeps, broadcast_to-Keeps, receive_from-Keeps,
          message_deliver_offline-Keeps, redeliver-Keeps,
        )
        depth 12

  presence_handle_unavailable-Keeps : (p : ℕ) → Keeps P (presence_handle_unavailable e p)
  unfolding presence_handle_unavailable
  presence_handle_unavailable-Keeps p =
      search (keeps_rules, keeps_modify, presence_broadcast_unavailable-Keeps)

  save_and_push-Keeps : (p : ℕ) (b : Text) → Keeps P (save_and_push e p b)
  unfolding save_and_push
  save_and_push-Keeps p b = search (keeps_rules, roster_save-Keeps, roster_push_at-Keeps)

  presence_handle_subscribe-Keeps : (p : ℕ) (to : Text) → Keeps P (presence_handle_subscribe e p to)
  unfolding presence_handle_subscribe
  presence_handle_subscribe-Keeps p to =
      search
        (
          keeps_rules, parse_bare-Keeps, ensure_roster-Keeps, set_roster-Keeps, save_and_push-Keeps,
          session_find_by_jid-Keeps, send_if_online-Keeps,
        )
        depth 12

  edit_online-Keeps :
      (p : ℕ) (b : Text) (f : RosterItem → RosterItem) → Keeps P (edit_online e p b f)
  unfolding edit_online
  edit_online-Keeps p b f = search (keeps_rules, set_roster-Keeps)

  push_if_found-Keeps : (p : ℕ) (b : Text) → Keeps P (push_if_found e p b)
  unfolding push_if_found
  push_if_found-Keeps p b = search (keeps_rules, roster_push_at-Keeps)

  approve_online-Keeps : (p : ℕ) (b : Text) → Keeps P (approve_online e p b)
  unfolding approve_online
  approve_online-Keeps p b =
      search (keeps_rules, edit_online-Keeps, roster_save-Keeps, push_if_found-Keeps)

  approve_on_disk-Keeps : (u b : Text) → Keeps P (approve_on_disk e u b)
  unfolding approve_on_disk
  approve_on_disk-Keeps u b =
      search (keeps_rules, roster_load_for_user-Keeps, roster_save_for_user-Keeps)

  approve_target-Keeps : (o : Option ℕ) (u b : Text) → Keeps P (approve_target e o u b)
  unfolding approve_target
  approve_target-Keeps none u b = approve_on_disk-Keeps u b
  approve_target-Keeps (some t) u b =
      search (keeps_rules, approve_online-Keeps, approve_on_disk-Keeps)

  announce_approval-Keeps :
      (p : ℕ) (o : Option ℕ) (a b : Text) → Keeps P (announce_approval e p o a b)
  unfolding announce_approval
  announce_approval-Keeps p none a b = Keeps-pure tt
  announce_approval-Keeps p (some t) a b =
      search (keeps_rules, send_presence_of-Keeps, stanza_send-Keeps)

  presence_handle_subscribed-Keeps :
      (p : ℕ) (to : Text) → Keeps P (presence_handle_subscribed e p to)
  unfolding presence_handle_subscribed
  presence_handle_subscribed-Keeps p to =
      search
        (
          keeps_rules, jid_buffers-Keeps, ensure_roster-Keeps, set_roster-Keeps,
          save_and_push-Keeps, session_find_by_jid-Keeps, approve_target-Keeps,
          announce_approval-Keeps,
        )
        depth 12

  revoke_online-Keeps :
      (p : ℕ) (b : Text) (f : RosterItem → RosterItem) → Keeps P (revoke_online e p b f)
  unfolding revoke_online
  revoke_online-Keeps p b f = search (keeps_rules, edit_online-Keeps, save_and_push-Keeps)

  revoke_on_disk-Keeps :
      (u b : Text) (f : RosterItem → RosterItem) → Keeps P (revoke_on_disk e u b f)
  unfolding revoke_on_disk
  revoke_on_disk-Keeps u b f =
      search (keeps_rules, roster_load_for_user-Keeps, roster_save_for_user-Keeps)

  send_unavailable-Keeps : (p t : ℕ) → Keeps P (send_unavailable e p t)
  unfolding send_unavailable
  send_unavailable-Keeps p t = search (keeps_rules, stanza_send-Keeps)

  revoke_target-Keeps :
      (p : ℕ) (o : Option ℕ) (u t a b : Text) (f : RosterItem → RosterItem)
      → Keeps P (revoke_target e p o u t a b f)
  unfolding revoke_target
  revoke_target-Keeps p none u t a b f = revoke_on_disk-Keeps u a f
  revoke_target-Keeps p (some c) u t a b f =
      search
        (
          keeps_rules, revoke_on_disk-Keeps, revoke_online-Keeps, stanza_send-Keeps,
          send_unavailable-Keeps,
        )
        depth 7

  revoke-Keeps :
      (p : ℕ) (to t : Text) (f g : RosterItem → RosterItem) → Keeps P (revoke e p to t f g)
  unfolding revoke
  revoke-Keeps p to t f g =
      search
        (
          keeps_rules, jid_buffers-Keeps, ensure_roster-Keeps, revoke_online-Keeps,
          session_find_by_jid-Keeps, revoke_target-Keeps,
        )
        depth 9

  dispatch_presence-Keeps :
      (p : ℕ) (n : Node) (t to : Text) → Keeps P (dispatch_presence e p n t to)
  unfolding dispatch_presence presence_handle_unsubscribe presence_handle_unsubscribed
  dispatch_presence-Keeps p n t to =
      search
        (
          keeps_rules, presence_handle_available-Keeps, presence_handle_unavailable-Keeps,
          presence_handle_subscribe-Keeps, presence_handle_subscribed-Keeps, revoke-Keeps,
        )
        depth 9

  pub handle_presence-Keeps : (p : ℕ) (n : Node) → Keeps P (handle_presence e p n)
  unfolding handle_presence
  handle_presence-Keeps p n = dispatch_presence-Keeps p n _ _
