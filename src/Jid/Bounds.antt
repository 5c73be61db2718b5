-- ===== src/Jid/Bounds.antt =====
-- What `jid_parse` leaves in its buffers, and when it reads out of bounds.
use jabber.Base.{
  ℕ, ◌+◌, ◌-◌, ◌<◌, ◌≡◌, refl, Option, none, some, [], Text, index_of, length, length-take, take,
  drop, arith, snprintf_s, if_both, ◌==◌, ◌%◌,
}
use jabber.Jid.{
  JidParts, JidResult, unwritten, malformed, parsed, overread, size_mod, copy_out, finish_domain,
  parse_domain, parse_local, jid_parse, local_only,
}

-- Each buffer holds its text and a terminator.
pub record IsTerminated (p : JidParts) (local_sz domain_sz resource_sz : ℕ) : Type 0 where
  pub local_lt : length p.local < local_sz
  pub domain_lt : length p.domain < domain_sz
  pub resource_lt : length p.resource < resource_sz

-- Buffers that the call has written are terminated within their sizes.
abbrev pub Written : JidResult → ℕ → ℕ → ℕ → Type 0
Written unwritten l d r = Unit
Written (malformed p) l d r = IsTerminated p l d r
Written (parsed p) l d r = IsTerminated p l d r
Written overread l d r = Unit

snprintf_s-lt : (size : ℕ) (s : Text) → 0 < size → length (snprintf_s size s) < size
unfolding snprintf_s
snprintf_s-lt size s h = omega (arith, length-take (size - 1) s)

copy_out-lt :
    (size : ℕ) (s : Text) (n : ℕ) {t : Text}
    → 0 < size
    → copy_out size s n ≡ some t
    → length t < size
unfolding copy_out
copy_out-lt size s n h e = ground (arith, length-take n s, length-take (size - 1) s)

module _ (local_sz domain_sz resource_sz : ℕ) (l : 0 < local_sz) (d : 0 < domain_sz)
    (r : 0 < resource_sz) where
  abbrev P : JidResult → Type 0
  P x = Written x local_sz domain_sz resource_sz

  stopped : (local : Text) → length local < local_sz → P (malformed (local_only local))
  stopped local h = record { local_lt = h; domain_lt = d; resource_lt = r }

  finish_domain-Written :
      (local : Text) (o : Option Text) (resource : Text)
      → length local < local_sz
      → ((t : Text) → o ≡ some t → length t < domain_sz)
      → length resource < resource_sz
      → Written (finish_domain local o resource) local_sz domain_sz resource_sz
  unfolding finish_domain
  finish_domain-Written local none resource hl hd hr = tt
  finish_domain-Written local (some t) resource hl hd hr = record {
    local_lt = hl;
    domain_lt = hd t refl;
    resource_lt = hr;
  }

  parse_domain-Written :
      (s : Text) (start : ℕ) (local : Text) (slash : Option ℕ)
      → length local < local_sz
      → Written
          (parse_domain domain_sz resource_sz s start local slash)
          local_sz
          domain_sz
          resource_sz
  unfolding parse_domain
  parse_domain-Written s start local (some slash) h =
      if_both P ((slash + size_mod - start) % size_mod == 0) _ _ (stopped local h) (
        finish_domain-Written local _ _ h (λ t e. copy_out-lt domain_sz _ _ d e)
          (snprintf_s-lt resource_sz _ r))
  parse_domain-Written s start local none h =
      if_both P (length (drop start s) == 0) _ _ (stopped local h)
        (finish_domain-Written local _ _ h (λ t e. copy_out-lt domain_sz _ _ d e) r)

  parse_local-Written :
      (s : Text) (at : Option ℕ)
      → Written (parse_local local_sz domain_sz resource_sz s at) local_sz domain_sz resource_sz
  unfolding parse_local
  parse_local-Written s none = parse_domain-Written s 0 [] (index_of b'/' s) l
  parse_local-Written s (some at) =
      if_both P (at == 0) _ _ (stopped [] l)
        (parse_domain-Written s (at + 1) _ (index_of b'/' s) (snprintf_s-lt local_sz (take at s) l))

  -- Whatever the input, what a call leaves in buffers of some size, none of them 0, ends within
  -- them. Of a call that reads past the end of its input nothing is said.
  pub jid_parse-Written :
      (s : Text)
      → Written (jid_parse s local_sz domain_sz resource_sz) local_sz domain_sz resource_sz
  unfolding jid_parse
  jid_parse-Written s = if_both P (length s == 0) _ _ tt (parse_local-Written s (index_of b'@' s))
