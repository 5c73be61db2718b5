-- ===== src/Subscription/Tests.antt =====
-- The transitions on one state.
use jabber.Base.{◌≡◌, refl, true, false}
use jabber.Subscription.{
  both_text, sub_has_to, sub_has_from, grant_to, grant_from, revoke_to, revoke_from,
}
use jabber.Subscription.Bits.{sub_text, grant_revoke_bits}

grant_revoke_bits_example :
    (sub_has_to (grant_to both_text) ≡ true)
    × (sub_has_from (grant_to both_text) ≡ sub_has_from both_text)
    × (sub_has_from (grant_from both_text) ≡ true)
    × (sub_has_to (grant_from both_text) ≡ sub_has_to both_text)
    × (sub_has_to (revoke_to both_text) ≡ false)
    × (sub_has_from (revoke_to both_text) ≡ sub_has_from both_text)
    × (sub_has_from (revoke_from both_text) ≡ false)
    × (sub_has_to (revoke_from both_text) ≡ sub_has_to both_text)
unfolding sub_text
grant_revoke_bits_example = grant_revoke_bits both_text (true, true, refl)
