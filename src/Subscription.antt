-- ===== src/Subscription.antt =====
-- Subscription states, c/src/presence.c: `sub_has_to`, `sub_has_from` and the transitions that the
-- four subscription handlers write out on the sender's and on the target's roster item.
pub mod Bits
mod Tests
use jabber.Base.{Bool, false, ◌||◌, Text, codes, str_eq, if◌then◌else◌}
use jabber.World.{RosterItem}

unfoldable pub none_text : Text
none_text = codes "none"

unfoldable pub to_text : Text
to_text = codes "to"

unfoldable pub from_text : Text
from_text = codes "from"

unfoldable pub both_text : Text
both_text = codes "both"

unfoldable pub sub_has_to : Text → Bool
sub_has_to sub = str_eq sub to_text || str_eq sub both_text

unfoldable pub sub_has_from : Text → Bool
sub_has_from sub = str_eq sub from_text || str_eq sub both_text

-- `if (strcmp(sub, a) == 0) sub = b; else if (strcmp(sub, c) == 0) sub = d;`
unfoldable pub transition : Text → Text → Text → Text → Text → Text
transition a b c d sub = if str_eq sub a then b else if str_eq sub c then d else sub

-- subscribed: none->from, to->both at the sender; none->to, from->both at the target.
unfoldable pub grant_from : Text → Text
unfolding transition
grant_from = transition none_text from_text to_text both_text

unfoldable pub grant_to : Text → Text
unfolding transition
grant_to = transition none_text to_text from_text both_text

-- unsubscribe: to->none, both->from at the sender; from->none, both->to at the target.
-- unsubscribed: the other way round.
unfoldable pub revoke_to : Text → Text
unfolding transition
revoke_to = transition to_text none_text both_text from_text

unfoldable pub revoke_from : Text → Text
unfolding transition
revoke_from = transition from_text none_text both_text to_text

unfoldable pub set_subscription : (Text → Text) → RosterItem → RosterItem
set_subscription f i = record i { subscription = f i.subscription }

unfoldable pub clear_ask : RosterItem → RosterItem
clear_ask i = record i { ask_subscribe = false }
