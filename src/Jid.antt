-- ===== src/Jid.antt =====
-- JIDs, c/src/util.c: `jid_parse`, `jid_bare`, `jid_full`. Every caller passes three buffers, so
-- the tests for null buffers are not modelled.
pub mod RoundTrip
pub mod Bounds
pub mod Overread
mod Tests
use jabber.Base.{
  ℕ, ◌+◌, ◌-◌, ◌^◌, ◌%◌, Option, none, some, [], ◌++◌, Text, codes, take, drop, length, index_of,
  snprintf_s, leb, ◌==◌, if◌then◌else◌,
}

-- The output buffers, as C strings.
pub record JidParts : Type 0 where
  pub local : Text
  pub domain : Text
  pub resource : Text

-- What a call does: -1 before anything is written, -1 with the buffers as they are then, 0, or a
-- memcpy that reads past the end of the input.
pub data JidResult : Type 0 where
  unwritten : JidResult
  malformed : JidParts → JidResult
  parsed : JidParts → JidResult
  overread : JidResult

abbrev pub size_mod : ℕ
size_mod = 2 ^ 64

-- memcpy(buf, s, n) and a terminator, n cut to the buffer: the bytes of `s` reach to its NUL.
unfoldable pub copy_out : ℕ → Text → ℕ → Option Text
copy_out size s n =
    let m = if leb size n then size - 1 else n in
    if leb m (length s + 1) then some (take m s) else none

unfoldable pub finish_domain : Text → Option Text → Text → JidResult
finish_domain local none resource = overread
finish_domain local (some domain) resource =
    parsed (record { local = local; domain = domain; resource = resource })

abbrev pub local_only : Text → JidParts
local_only local = record { local = local; domain = []; resource = [] }

-- Behind the local part: `s` has moved to the offset `start`. The difference of two pointers is
-- cast to a size_t.
unfoldable pub parse_domain : ℕ → ℕ → Text → ℕ → Text → Option ℕ → JidResult
unfolding copy_out finish_domain snprintf_s
parse_domain domain_sz resource_sz s start local (some slash) =
    let dlen = (slash + size_mod - start) % size_mod in
    if dlen == 0
    then malformed (local_only local)
    else finish_domain local (copy_out domain_sz (drop start s) dlen)
        (snprintf_s resource_sz (drop (slash + 1) s))
parse_domain domain_sz resource_sz s start local none =
    let dlen = length (drop start s) in
    if dlen == 0
    then malformed (local_only local)
    else finish_domain local (copy_out domain_sz (drop start s) dlen) []

unfoldable pub parse_local : ℕ → ℕ → ℕ → Text → Option ℕ → JidResult
unfolding parse_domain snprintf_s
parse_local local_sz domain_sz resource_sz s none =
    parse_domain domain_sz resource_sz s 0 [] (index_of b'/' s)
parse_local local_sz domain_sz resource_sz s (some at) =
    if at == 0
    then malformed (local_only [])
    else parse_domain domain_sz resource_sz s (at + 1) (snprintf_s local_sz (take at s))
        (index_of b'/' s)

unfoldable pub jid_parse : Text → ℕ → ℕ → ℕ → JidResult
unfolding parse_local index_of
jid_parse s local_sz domain_sz resource_sz =
    if length s == 0
    then unwritten
    else parse_local local_sz domain_sz resource_sz s (index_of b'@' s)

unfoldable pub jid_bare : Text → Text → ℕ → Text
unfolding snprintf_s
jid_bare local domain out_sz = snprintf_s out_sz (local ++ (codes "@" ++ domain))

unfoldable pub jid_full : Text → Text → Text → ℕ → Text
unfolding snprintf_s
jid_full local domain resource out_sz =
    snprintf_s out_sz (local ++ (codes "@" ++ (domain ++ (codes "/" ++ resource))))
