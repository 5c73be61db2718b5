-- ===== src/Auth/Tests.antt =====
-- Bob logs in on the sample server.
use jabber.Base.{◌≡◌, some, [], ◌∷◌, codes, arith}
use jabber.Base64.Encode.{encode}
use jabber.Xml.{Node, element, other, nil, cons}
use jabber.Auth.Plain.{plain_fields, plain_message, plain_fields_lem}

plain_fields_example :
    plain_fields (plain_message [] (codes "bob") (codes "secret"))
    ≡ some (codes "bob", codes "secret")
plain_fields_example =
    plain_fields_lem [] (codes "bob") (codes "secret") tt (ground arith) (ground arith)
      (λ e. ground arith)

abbrev bob_auth : Node
bob_auth =
    element (codes "auth") (some (codes "urn:ietf:params:xml:ns:xmpp-sasl"))
      ((codes "mechanism", codes "PLAIN") ∷ [])
      (cons (other (encode (plain_message [] (codes "bob") (codes "secret")))) nil)
