-- ===== src/Auth.antt =====
-- SASL PLAIN, c/src/auth.c.
pub mod Plain
pub mod Login
mod Tests
use jabber.Base.{
  ℕ, ◌+◌, true, not, Option, none, some, [], ◌∷◌, ◌++◌, Text, codes, snprintf_s, length, ltb,
  if◌then◌else◌,
}
use jabber.Base64.{base64_decode}
use jabber.Xml.{Node}
use jabber.World.{Session, authenticated_state, Env, M, ◌>>=◌, ◌>>◌, modify}
use jabber.Output.{session_write_str}
use jabber.User.{user_check_password}
use jabber.Disk.{has_value}
use Plain.{plain_fields}

unfoldable pub failure_text : Text → Text
failure_text condition =
    codes "<failure xmlns='urn:ietf:params:xml:ns:xmpp-sasl'><"
    ++ (condition ++ codes "/></failure>")

unfoldable pub success_text : Text
success_text = codes "<success xmlns='urn:ietf:params:xml:ns:xmpp-sasl'/>"

unfoldable pub sasl_failure : ℕ → Text → M (Unit {0})
sasl_failure p condition = session_write_str p (failure_text condition)

-- The payload that the node has: an empty one counts as none.
unfoldable pub payload : Option Text → Option Text
payload none = none
payload (some []) = none
payload (some (c ∷ cs)) = some (c ∷ cs)

-- Both names, where the payload decodes to at least three bytes of the right form.
unfoldable pub credentials : Text → Option (Text × Text)
credentials b64 = elim (base64_decode b64) [
  | none ↦ none
  | some decoded ↦ if ltb (length decoded) 3 then none else plain_fields decoded
]

module _ (e : Env) where
  unfoldable pub logged_in : Text → Session → Session
  unfolding snprintf_s
  logged_in authcid s = record s {
    jid_local = snprintf_s 256 authcid;
    jid_domain = snprintf_s 256 e.domain;
    authenticated = true;
    state = authenticated_state;
  }

  unfoldable pub check_credentials : ℕ → Option (Text × Text) → M (Unit {0})
  check_credentials p none = sasl_failure p (codes "not-authorized")
  check_credentials p (some (authcid, passwd)) = do
    right ← user_check_password e authcid passwd
    if not right then sasl_failure p (codes "not-authorized") else do
      modify p (logged_in authcid)
      session_write_str p success_text
      modify p (λ s. record s { parser_reset_pending = true })

  unfoldable pub check_payload : ℕ → Option Text → M (Unit {0})
  check_payload p none = sasl_failure p (codes "not-authorized")
  check_payload p (some b64) = check_credentials p (credentials b64)

  unfoldable pub auth_handle_sasl : ℕ → Node → M (Unit {0})
  auth_handle_sasl p stanza =
      if has_value (e.xml.get_prop stanza (codes "mechanism")) (codes "PLAIN")
      then check_payload p (payload (e.xml.get_content stanza))
      else sasl_failure p (codes "invalid-mechanism")
