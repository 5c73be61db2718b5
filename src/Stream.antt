-- ===== src/Stream.antt =====
-- Opening a stream, c/src/stream.c, and `generate_id` of c/src/util.c.
use jabber.Base.{
  ℕ, zero, suc, ◌+◌, ◌%◌, Bool, [], ◌∷◌, ◌++◌, Text, codes, str_eq, snprintf_s, if◌then◌else◌,
}
use jabber.World.{stream_opened, Env, M, ◌>>=◌, ◌>>◌, pure, load, modify, next_call}
use jabber.Output.{session_write_str}
use jabber.Teardown.{stream_send_error}

abbrev charset : Text
charset = codes "abcdefghijklmnopqrstuvwxyzABCDEFGHIJKLMNOPQRSTUVWXYZ0123456789"

unfoldable pub char_at : Text → ℕ → ℕ
char_at [] i = 0
char_at (c ∷ cs) zero = c
char_at (c ∷ cs) (suc i) = char_at cs i

-- buf[i] = charset[buf[i] % 62] for `len` random bytes from the `i`th on.
unfoldable pub id_chars : (ℕ → ℕ) → ℕ → ℕ → Text
unfolding char_at
id_chars bytes zero i = []
id_chars bytes (suc len) i = char_at charset (bytes i % 256 % 62) ∷ id_chars bytes len (i + 1)

unfoldable pub features : Bool → Text
features authenticated =
    if authenticated
    then codes
        "<stream:features><bind xmlns='urn:ietf:params:xml:ns:xmpp-bind'/><session xmlns='urn:ietf:params:xml:ns:xmpp-session'><optional/></session></stream:features>"
    else codes
        "<stream:features><mechanisms xmlns='urn:ietf:params:xml:ns:xmpp-sasl'><mechanism>PLAIN</mechanism></mechanisms><register xmlns='http://jabber.org/features/iq-register'/></stream:features>"

module _ (e : Env) where
  unfoldable pub generate_id : ℕ → M Text
  unfolding id_chars
  generate_id len = do n ← next_call; pure (id_chars (e.random n) len 0)

  unfoldable pub stream_header : Text → Text
  unfolding snprintf_s
  stream_header id = snprintf_s 1024 (
      codes "<?xml version='1.0'?><stream:stream from='"
      ++ (e.domain
          ++ (codes "' id='"
              ++ (id
                  ++ codes
                      "' xmlns='jabber:client' xmlns:stream='http://etherx.jabber.org/streams' version='1.0'>"))))

  unfoldable pub stream_handle_open : ℕ → Text → M (Unit {0})
  stream_handle_open p to =
      if str_eq to e.domain
      then (do
        id ← generate_id 16
        session_write_str p (stream_header id)
        s ← load p
        session_write_str p (features s.authenticated)
        modify p (λ t. record t { state = stream_opened }))
      else stream_send_error e p (codes "host-unknown")
