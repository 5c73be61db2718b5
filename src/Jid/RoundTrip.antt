-- ===== src/Jid/RoundTrip.antt =====
-- `jid_parse` undoes `jid_full` and `jid_bare`.
use jabber.Base.{
  ℕ, suc, ◌+◌, ◌-◌, ◌<◌, ◌≤◌, ◌%◌, ◌≡◌, ◌≢◌, refl, sym, none, some, [], ◌∷◌, ◌++◌, Text, index_of,
  snprintf_s, length, length-append, drop, take-all, take-append_length, All, All-append, arith,
}
use mathlib.Core.List.{append_assoc, append-nil}
use jabber.Jid.{
  JidParts, parsed, size_mod, copy_out, parse_domain, parse_local, jid_parse, jid_bare, jid_full,
}

-- No byte of `s` is `c`.
abbrev pub Lacks : ℕ → Text → Type 0
Lacks c s = All (λ x. x ≢ c) s

pub index_of-append_self :
    (c : ℕ) (s rest : Text) → Lacks c s → index_of c (s ++ c ∷ rest) ≡ some (length s)
unfolding index_of
index_of-append_self c [] rest h = ground arith
index_of-append_self c (x ∷ s) rest h = ground (arith, index_of-append_self c s rest h.1)

pub index_of-Lacks : (c : ℕ) (s : Text) → Lacks c s → index_of c s ≡ none
unfolding index_of
index_of-Lacks c [] h = refl
index_of-Lacks c (x ∷ s) h = ground (arith, index_of-Lacks c s h.1)

copy_out-prefix :
    (size : ℕ) (d rest : Text) → length d < size → copy_out size (d ++ rest) (length d) ≡ some d
unfolding copy_out
copy_out-prefix size d rest h = ground (arith, length-append d rest, take-append_length d rest)

snprintf_s-fits : (size : ℕ) (s : Text) → length s < size → snprintf_s size s ≡ s
unfolding snprintf_s
snprintf_s-fits size s h = take-all (size - 1) s (omega arith)

pointer_difference : (a n : ℕ) → n < size_mod → (a + n + size_mod - a) % size_mod ≡ n
pointer_difference a n h = omega arith

-- A JID that fits its buffers: a local part and a domain that are not empty and hold no separator
-- that would be found too early.
pub record Fits (p : JidParts) (local_sz domain_sz resource_sz : ℕ) : Type 0 where
  pub local_some : 0 < length p.local
  pub local_fits : length p.local < local_sz
  pub domain_some : 0 < length p.domain
  pub domain_fits : length p.domain < domain_sz
  pub domain_small : domain_sz ≤ size_mod
  pub resource_fits : length p.resource < resource_sz
  pub local_at : Lacks b'@' p.local
  pub local_slash : Lacks b'/' p.local
  pub domain_slash : Lacks b'/' p.domain

drop-past : (a rest : Text) (c : ℕ) → drop (length a + 1) (a ++ c ∷ rest) ≡ rest
drop-past [] rest c = refl
drop-past (x ∷ a) rest c =
    let e : suc (length a) + 1 ≡ suc (length a + 1) = omega arith in rw e (drop-past a rest c)

module _ (p : JidParts) {local_sz domain_sz resource_sz : ℕ}
    (f : Fits p local_sz domain_sz resource_sz) where
  open p use {local, domain, resource}

  abbrev whole : Text
  whole = local ++ b'@' ∷ (domain ++ b'/' ∷ resource)

  regroup : whole ≡ (local ++ b'@' ∷ domain) ++ b'/' ∷ resource
  regroup = sym (append_assoc local (b'@' ∷ domain) (b'/' ∷ resource))

  length_before : length (local ++ b'@' ∷ domain) ≡ length local + 1 + length domain
  length_before = omega (arith, length-append local (b'@' ∷ domain))

  slash_at : index_of b'/' whole ≡ some (length local + 1 + length domain)
  slash_at =
      rw (regroup, ← length_before)
        (index_of-append_self b'/' (local ++ b'@' ∷ domain) resource
          (All-append _ local (b'@' ∷ domain) f.local_slash (omega arith, f.domain_slash)))

  resource_at : drop (length local + 1 + length domain + 1) whole ≡ resource
  resource_at = rw (regroup, ← length_before) (drop-past (local ++ b'@' ∷ domain) resource b'/')

  domain_at :
      (rest : Text)
      → copy_out domain_sz
          (drop (length local + 1) (local ++ b'@' ∷ (domain ++ rest)))
          (length domain)
        ≡ some domain
  domain_at rest =
      rw (drop-past local (domain ++ rest) b'@')
        (copy_out-prefix domain_sz domain rest f.domain_fits)

  parse_domain-whole :
      parse_domain domain_sz resource_sz whole
        (length local + 1)
        local
        (some (length local + 1 + length domain))
      ≡ parsed p
  unfolding parse_domain
  parse_domain-whole = ground (
    arith,
    pointer_difference (length local + 1) (length domain),
    domain_at (b'/' ∷ resource),
    resource_at,
    snprintf_s-fits resource_sz resource,
  )

  parse_local-whole :
      parse_local local_sz domain_sz resource_sz whole (some (length local)) ≡ parsed p
  unfolding parse_local
  parse_local-whole = ground (
    arith,
    take-append_length local (b'@' ∷ (domain ++ b'/' ∷ resource)),
    snprintf_s-fits local_sz local,
    slash_at,
    parse_domain-whole,
  )

  length-whole : length whole ≡ length local + length domain + length resource + 2
  length-whole = omega (
    arith,
    length-append local (b'@' ∷ (domain ++ b'/' ∷ resource)),
    length-append domain (b'/' ∷ resource),
  )

  jid_full-whole :
      (out_sz : ℕ)
      → length local + length domain + length resource + 2 < out_sz
      → jid_full local domain resource out_sz ≡ whole
  unfolding jid_full
  jid_full-whole out_sz h = snprintf_s-fits out_sz whole (omega (arith, length-whole))

  jid_parse-whole : jid_parse whole local_sz domain_sz resource_sz ≡ parsed p
  unfolding jid_parse
  jid_parse-whole = ground (
    arith,
    length-whole,
    f.local_some,
    index_of-append_self b'@' local (domain ++ b'/' ∷ resource) f.local_at,
    parse_local-whole,
  )

  -- Parsing the text that `jid_full` writes, in a buffer that holds it, gives its three parts
  -- back, for a JID whose parts fit the three buffers, whose local part and domain are not empty,
  -- and with no at sign or slash in the local part and no slash in the domain.
  pub jid_parse-jid_full :
      (out_sz : ℕ)
      → length local + length domain + length resource + 2 < out_sz
      → jid_parse (jid_full local domain resource out_sz) local_sz domain_sz resource_sz ≡ parsed p
  jid_parse-jid_full out_sz h = rw (jid_full-whole out_sz h) jid_parse-whole

  abbrev bare : Text
  bare = local ++ b'@' ∷ domain

  bare_slash : index_of b'/' bare ≡ none
  bare_slash =
      index_of-Lacks b'/' bare
        (All-append _ local (b'@' ∷ domain) f.local_slash (omega arith, f.domain_slash))

  bare_domain : drop (length local + 1) bare ≡ domain
  bare_domain = drop-past local domain b'@'

  copy_out-whole : copy_out domain_sz domain (length domain) ≡ some domain
  copy_out-whole = rw append-nil at (copy_out-prefix domain_sz domain [] f.domain_fits)

  parse_domain-bare :
      parse_domain domain_sz resource_sz bare (length local + 1) local none
      ≡ parsed (record p { resource = [] })
  unfolding parse_domain
  parse_domain-bare = ground (arith, bare_domain, f.domain_some, copy_out-whole)

  parse_local-bare :
      parse_local local_sz domain_sz resource_sz bare (some (length local))
      ≡ parsed (record p { resource = [] })
  unfolding parse_local
  parse_local-bare = ground (
    arith,
    f.local_some,
    take-append_length local (b'@' ∷ domain),
    snprintf_s-fits local_sz local,
    bare_slash,
    parse_domain-bare,
  )

  jid_parse-bare :
      jid_parse bare local_sz domain_sz resource_sz ≡ parsed (record p { resource = [] })
  unfolding jid_parse
  jid_parse-bare = ground (
    arith,
    length-append local (b'@' ∷ domain),
    f.local_some,
    index_of-append_self b'@' local domain f.local_at,
    parse_local-bare,
  )

  -- The text that `jid_bare` writes parses to the same local part and domain, with no resource.
  jid_parse-jid_bare :
      (out_sz : ℕ)
      → length local + length domain + 1 < out_sz
      → jid_parse (jid_bare local domain out_sz) local_sz domain_sz resource_sz
        ≡ parsed (record p { resource = [] })
  unfolding jid_bare
  jid_parse-jid_bare out_sz h =
      rw (snprintf_s-fits out_sz bare (omega (arith, length-append local (b'@' ∷ domain))))
        jid_parse-bare
