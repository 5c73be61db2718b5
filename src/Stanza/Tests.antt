-- ===== src/Stanza/Tests.antt =====
-- An IQ on the sample server, whose client has opened no stream.
use jabber.Base.{if◌then◌else◌, ◌==◌, true, refl, some, none, [], ◌∷◌, codes, str_eq}
use jabber.Xml.{Node, element, nil, cons, node_name, child_ns}
use jabber.World.{Session, World, stream_opened}
use jabber.World.Keeps.{Ends, Post}
use jabber.Sample.{lookup_prop, sample_env, client, one_client}
use jabber.Server.{new_session}
use jabber.Stanza.{is_opened, stanza_route}
use jabber.Stanza.Isolation.{Alone, stanza_route-Alone}
use jabber.Stanza.Gate.{IsActivated, session_ns, stanza_route-bypass}

abbrev session_iq : Node
session_iq =
    element (codes "iq") none ((codes "type", codes "set") ∷ [])
      (cons (element (codes "session") (some session_ns) [] nil) nil)

stanza_route-bypass_example :
    Ends (IsActivated 1 client) (stanza_route sample_env 1 session_iq one_client)
unfolding lookup_prop str_eq node_name child_ns new_session is_opened
stanza_route-bypass_example =
    stanza_route-bypass sample_env 1 client one_client session_iq refl refl refl refl refl

-- The client opened a stream, and the parser has a stanza of it.
abbrev newcomer : Session
newcomer = record client { state = stream_opened; in_xml_parse = true }

abbrev with_newcomer : World
with_newcomer = record one_client { heap = λ p. if p == 1 then some newcomer else none }

stanza_route-Alone_example :
    Post (Alone 1 with_newcomer) (stanza_route sample_env 1 session_iq with_newcomer)
unfolding new_session
stanza_route-Alone_example =
    stanza_route-Alone sample_env 1 session_iq newcomer with_newcomer refl refl refl refl
