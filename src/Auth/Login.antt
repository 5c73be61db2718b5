-- ===== src/Auth/Login.antt =====
-- What the SASL handler of c/src/auth.c does with the message of a client.
use jabber.Base.{
  ℕ, ◌≤◌, ◌≡◌, ◌≢◌, refl, ◌∙◌, Bool, true, false, none, some, [], ◌∷◌, ◌++◌, Text, codes, length,
  length-append, All, arith,
}
use jabber.Base64.{base64_decode}
use jabber.Base64.Encode.{encode}
use jabber.Base64.RoundTrip.{IsByte, base64_decode-encode}
use jabber.World.{Session, World, Env}
use jabber.World.Steps.{OnlyChanged, refl-OnlyChanged}
use jabber.Output.{append_out}
use jabber.User.{conf_path}
use jabber.User.Conf.{conf_matches}
use jabber.Auth.{credentials, failure_text, success_text, logged_in}
use jabber.Auth.Plain.{NoNul, plain_fields, plain_message, plain_fields_lem}

length-plain_message : (z a p : Text) → p ≢ [] → a ≢ [] → 3 ≤ length (plain_message z a p)
length-plain_message z [] p hp ha = absurd (ha refl)
length-plain_message z a [] hp ha = absurd (hp refl)
length-plain_message z (x ∷ a) (y ∷ p) hp ha =
    omega (arith, length-append z (0 ∷ ((x ∷ a) ++ 0 ∷ (y ∷ p))), length-append a (0 ∷ (y ∷ p)))

-- What a client may put into its message.
pub record IsLogin (z a p : Text) : Type 0 where
  pub z_text : NoNul z
  pub a_text : NoNul a
  pub p_text : NoNul p
  pub a_some : a ≢ []
  pub p_some : p ≢ []
  pub bytes : All IsByte (plain_message z a p)
  pub short : length (plain_message z a p) ≤ 3072

credentials-decoded :
    (b d : Text) → base64_decode b ≡ some d → 3 ≤ length d → credentials b ≡ plain_fields d
unfolding credentials
credentials-decoded b d e h = ground arith

-- The name and the password that a client sends in base64 are the ones that are read.
pub credentials-encode :
    (z a p : Text) → IsLogin z a p → credentials (encode (plain_message z a p)) ≡ some (a, p)
credentials-encode z a p h =
    credentials-decoded (encode (plain_message z a p)) (plain_message z a p)
      (base64_decode-encode (plain_message z a p) h.bytes h.short)
      (length-plain_message z a p h.p_some h.a_some)
    ∙ plain_fields_lem z a p h.z_text h.a_text h.p_text h.p_some

-- Whether user.conf of `a` has the password.
abbrev pub accepts : Env → Text → Text → World → Bool
accepts e a p w = elim (w.files (conf_path e a)) [
  | none ↦ false
  | some content ↦ conf_matches content p
]

-- What a login leaves of the session `s`.
unfoldable pub login_outcome : Env → Text → Bool → Session → Session
unfolding logged_in append_out
login_outcome e a true s = record (append_out success_text (logged_in e a s)) {
  parser_reset_pending = true;
}
login_outcome e a false s = append_out (failure_text (codes "not-authorized")) s

module _ (e : Env) (p : ℕ) (s : Session) (w : World) (live : w.heap p ≡ some s) where
  start : OnlyChanged p s w w
  start = refl-OnlyChanged p s w live
