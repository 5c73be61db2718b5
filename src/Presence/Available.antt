-- ===== src/Presence/Available.antt =====
-- Available and unavailable presence, and the pending requests that a session is sent when it becomes
-- available, c/src/presence.c.
use jabber.Base.{
  ℕ, zero, suc, ◌+◌, ◌-◌, true, false, not, ◌&&◌, Option, none, some, Text, codes, str_eq, length,
  ◌==◌,
}
use jabber.Xml.{Node}
use jabber.World.{
  RosterItem, Session, Env, M, ◌>>=◌, ◌>>◌, pure, gets, load, modify, when, for_each,
}
use jabber.Output.{stanza_send, session_find_by_jid, full_jid_of, bare_jid_of}
use jabber.Subscription.{sub_has_to, sub_has_from}
use jabber.Teardown.{parse_bare, ensure_roster, presence_broadcast_unavailable}
use jabber.Message.{message_deliver_offline}

module _ (e : Env) where
  unfoldable pub stored_presence : Session → Node → Node
  unfolding full_jid_of
  stored_presence s stanza = e.xml.set_prop stanza (codes "from") (full_jid_of s)

  -- `if (contact) stanza_send(contact, node)`
  unfoldable pub send_if_online : Node → Option ℕ → M (Unit {0})
  send_if_online node none = pure tt
  send_if_online node (some contact) = stanza_send e contact node

  unfoldable pub broadcast_to : Node → RosterItem → M (Unit {0})
  broadcast_to node i =
      when (sub_has_from i.subscription)
        do bare ← parse_bare i.jid; contact ← session_find_by_jid bare; send_if_online node contact

  unfoldable pub send_presence_of : ℕ → Session → M (Unit {0})
  send_presence_of p c = elim c.presence_stanza [
    | none ↦ pure tt
    | some node ↦ when c.available (stanza_send e p node)
  ]

  unfoldable pub receive_contact : ℕ → Option ℕ → M (Unit {0})
  receive_contact p none = pure tt
  receive_contact p (some contact) = do c ← load contact; send_presence_of p c

  unfoldable pub receive_from : ℕ → RosterItem → M (Unit {0})
  receive_from p i =
      when (sub_has_to i.subscription)
        do bare ← parse_bare i.jid; contact ← session_find_by_jid bare; receive_contact p contact

  unfoldable pub presence_notice : Text → Text → Text → Node
  presence_notice type from to =
      let x = e.xml in
      x.new_prop
        (x.new_prop (x.new_prop (x.new_node (codes "presence")) (codes "type") type) (codes "from")
          from)
        (codes "to") to

  unfoldable pub redeliver_item : ℕ → Text → Text → RosterItem → M (Unit {0})
  redeliver_item p our_bare from_bare i =
      when (i.ask_subscribe && str_eq i.jid our_bare)
        (stanza_send e p (presence_notice (codes "subscribe") from_bare our_bare))

  unfoldable pub redeliver_from : ℕ → Text → Option ℕ → M (Unit {0})
  redeliver_from p our_bare none = pure tt
  redeliver_from p our_bare (some other) = when (not (other == p)) do
    o ← load other
    when (not (length o.jid_local == 0) && o.roster.loaded)
        (for_each (redeliver_item p our_bare (bare_jid_of o)) o.roster.items)

  unfoldable pub redeliver_slots : ℕ → Text → ℕ → ℕ → M (Unit {0})
  redeliver_slots p our_bare zero i = pure tt
  redeliver_slots p our_bare (suc n) i = do
    slot ← gets (λ w. w.sessions i)
    redeliver_from p our_bare slot
    redeliver_slots p our_bare n (i + 1)

  unfoldable pub presence_redeliver_pending_subscribes : ℕ → M (Unit {0})
  presence_redeliver_pending_subscribes p = do
    s ← load p
    n ← gets (λ w. w.nfds)
    redeliver_slots p (bare_jid_of s) (n - 1) 1

  unfoldable pub presence_handle_available : ℕ → Node → M (Unit {0})
  presence_handle_available p stanza = do
    s ← load p
    let node = stored_presence s stanza
    modify p (λ t. record t { available = true; presence_stanza = some node })
    ensure_roster e p
    u ← load p
    for_each (broadcast_to node) u.roster.items
    for_each (receive_from p) u.roster.items
    when (not s.available) do
      modify p (λ t. record t { initial_presence_sent = true })
      message_deliver_offline e p
      presence_redeliver_pending_subscribes p

  unfoldable pub presence_handle_unavailable : ℕ → M (Unit {0})
  presence_handle_unavailable p = do
    presence_broadcast_unavailable e p
    modify p (λ t. record t { available = false })
