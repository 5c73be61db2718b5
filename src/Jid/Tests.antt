-- ===== src/Jid/Tests.antt =====
-- Runs of the JID functions.
use jabber.Base.{◌≡◌, ◌↔◌, refl, codes, arith}
use jabber.Jid.{JidParts, parsed, overread, unwritten, jid_parse, jid_full}
use jabber.Jid.RoundTrip.{Fits, jid_parse-jid_full}
use jabber.Jid.Overread.{SlashFirst, jid_parse-overread_iff}
use jabber.Jid.Bounds.{Written, jid_parse-Written}

full :
    jid_parse (codes "alice@localhost/phone") 256 256 256
    ≡ parsed
        (record { local = codes "alice"; domain = codes "localhost"; resource = codes "phone" })
unfolding jid_parse
full = refl

slash_first : jid_parse (codes "localhost/foo@bar") 256 256 256 ≡ overread
unfolding jid_parse
slash_first = refl

nothing : jid_parse (codes "") 256 256 256 ≡ unwritten
unfolding jid_parse
nothing = refl

abbrev alice : JidParts
alice = record { local = codes "alice"; domain = codes "localhost"; resource = codes "phone" }

alice-Fits : Fits alice 256 256 256
alice-Fits = record {
  local_some = omega arith;
  local_fits = omega arith;
  domain_some = omega arith;
  domain_fits = omega arith;
  domain_small = omega arith;
  resource_fits = omega arith;
  local_at = ground arith;
  local_slash = ground arith;
  domain_slash = ground arith;
}

jid_parse-jid_full_example :
    jid_parse (jid_full (codes "alice") (codes "localhost") (codes "phone") 768) 256 256 256
    ≡ parsed alice
jid_parse-jid_full_example = jid_parse-jid_full alice alice-Fits 768 (omega arith)

jid_parse-overread_example :
    (jid_parse (codes "localhost/foo@bar") 256 256 256 ≡ overread)
    ↔ SlashFirst (codes "localhost/foo@bar") 256
jid_parse-overread_example =
    jid_parse-overread_iff 256 256 256 (codes "localhost/foo@bar") (omega arith) (omega arith)

jid_parse-Written_example : Written (jid_parse (codes "alice@localhost") 8 4 2) 8 4 2
jid_parse-Written_example =
    jid_parse-Written 8 4 2 (omega arith) (omega arith) (omega arith) (codes "alice@localhost")
