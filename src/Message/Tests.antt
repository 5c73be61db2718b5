-- ===== src/Message/Tests.antt =====
-- The order of some names, and two messages that wait for a user.
use jabber.Base.{
  false, ◌≤◌, str_eq_iff, ◌≡◌, refl, List, [], ◌∷◌, Text, codes, some, none, Option, str_eq,
  if◌then◌else◌, ◌==◌, arith,
}
use jabber.Xml.{element, nil}
use jabber.World.{Session, World, Env}
use jabber.World.Keeps.{Ends}
use jabber.Output.Stream.{stream_of}
use jabber.Sample.{sample_env, simple_xml, client, one_client}
use jabber.Server.{new_session}
use jabber.User.{names_in}
use jabber.Message.{max_seq, message_deliver_offline}
use jabber.Message.Inbox.{Emptied, message_deliver_offline-Emptied}
use jabber.Message.Order.{sort_names}
use jabber.Message.Sorted.{Sorted, occurrences, sort_names-Sorted}

abbrev names : List Text
names = codes "0010.xml" ∷ codes "0002.xml" ∷ codes "0010.xml" ∷ []

sort_names_example :
    Sorted (sort_names names)
    × ((x : Text) → occurrences x (sort_names names) ≡ occurrences x names)
sort_names_example = sort_names-Sorted names

-- A library that reads every file as the same message.
abbrev read_env : Env
read_env = record sample_env {
  xml = record simple_xml { read_root = λ b. some (element (codes "message") none [] nil) };
}

abbrev waiting : Session
waiting = record client { jid_local = codes "bob" }

unfoldable waiting_dirs : Text → Option (List Text)
unfolding str_eq
waiting_dirs path =
    if str_eq path (codes "/d/bob/offline")
    then some (codes "0002.xml" ∷ codes "0001.xml" ∷ [])
    else none

abbrev waiting_world : World
waiting_world = record one_client {
  heap = λ p. if p == 1 then some waiting else none;
  dirs = waiting_dirs;
}

abbrev first_name : Text
first_name = codes "0001.xml"

abbrev second_name : Text
second_name = codes "0002.xml"

two_differ : str_eq second_name first_name ≡ false
unfolding str_eq
two_differ = refl

two-Once : (x : Text) → occurrences x (second_name ∷ first_name ∷ []) ≤ 1
unfolding occurrences
two-Once x = ground (arith, str_eq_iff x second_name, str_eq_iff x first_name, two_differ)

message_deliver_offline_example :
    Ends
      (Emptied read_env 1 waiting (omega arith) (stream_of waiting_world waiting) waiting_world)
      (message_deliver_offline read_env 1 waiting_world)
unfolding new_session waiting_dirs str_eq names_in
message_deliver_offline_example =
    message_deliver_offline-Emptied read_env 1 waiting (omega arith) waiting_world refl
      (omega arith) (omega arith, (omega arith, tt)) two-Once

-- A name with spaces and a sign before its digits, and one that begins with no digit.
greatest :
    max_seq 0 (codes "0007.xml" ∷ codes " +12.xml" ∷ codes "new.xml" ∷ codes "-3" ∷ []) ≡ some 12
unfolding max_seq
greatest = refl

too_wide : max_seq 0 (codes "2147483648.xml" ∷ []) ≡ none
unfolding max_seq
too_wide = refl
