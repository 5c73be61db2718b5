-- ===== src/Presence/States.antt =====
-- What the subscription handlers, c/src/presence.c, are to make of an entry: one of the two bits of
-- its state is set or cleared.
use jabber.Base.{◌≡◌, ap, false, true}
use mathlib.Core.Path.{fun_ext}
use jabber.World.{RosterItem}
use jabber.Subscription.{grant_from, grant_to, revoke_to, revoke_from, set_subscription, clear_ask}
use jabber.Subscription.Bits.{
  sub_text, with_bits, grant_to-with_bits, grant_from-with_bits, revoke_to-with_bits,
  revoke_from-with_bits,
}

abbrev pub gains_from : RosterItem → RosterItem
gains_from i = record i { subscription = with_bits (λ to from. sub_text to true) i.subscription }

-- The request, if there is one, is answered.
abbrev pub gains_to : RosterItem → RosterItem
gains_to i = record i {
  subscription = with_bits (λ to from. sub_text true from) i.subscription;
  ask_subscribe = false;
}

abbrev pub loses_from : RosterItem → RosterItem
loses_from i = record i { subscription = with_bits (λ to from. sub_text to false) i.subscription }

-- No request is left.
abbrev pub loses_to : RosterItem → RosterItem
loses_to i = record i {
  subscription = with_bits (λ to from. sub_text false from) i.subscription;
  ask_subscribe = false;
}

-- The edits of the handlers.
abbrev pub approving : RosterItem → RosterItem
approving = set_subscription grant_from

abbrev pub approved : RosterItem → RosterItem
approved i = clear_ask (set_subscription grant_to i)

abbrev pub no_to : RosterItem → RosterItem
no_to i = clear_ask (set_subscription revoke_to i)

abbrev pub no_from : RosterItem → RosterItem
no_from = set_subscription revoke_from

pub approving-gains : approving ≡ gains_from
unfolding set_subscription
approving-gains =
    fun_ext λ i. ap (λ t. record i { subscription = t }) (grant_from-with_bits i.subscription)

pub approved-gains : approved ≡ gains_to
unfolding set_subscription clear_ask
approved-gains = fun_ext λ i.
    ap (λ t. record i { subscription = t; ask_subscribe = false })
      (grant_to-with_bits i.subscription)

pub no_from-loses : no_from ≡ loses_from
unfolding set_subscription
no_from-loses =
    fun_ext λ i. ap (λ t. record i { subscription = t }) (revoke_from-with_bits i.subscription)

pub no_to-loses : no_to ≡ loses_to
unfolding set_subscription clear_ask
no_to-loses = fun_ext λ i.
    ap (λ t. record i { subscription = t; ask_subscribe = false })
      (revoke_to-with_bits i.subscription)
