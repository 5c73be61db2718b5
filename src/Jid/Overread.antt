-- ===== src/Jid/Overread.antt =====
-- When `jid_parse` copies from behind the end of its input: the first '/' stands before the first
-- '@', and the difference of the two pointers wraps to a large size.
use jabber.Base.{
  ℕ, zero, suc, ◌+◌, ◌-◌, ◌≤◌, ◌<◌, ◌≡◌, ◌≢◌, refl, Option, none, some, [], ◌∷◌, Text, index_of,
  index_of-lt, length, length-drop, take, drop, arith, snprintf_s, ◌%◌, ◌↔◌,
}
use jabber.Jid.{overread, size_mod, copy_out, finish_domain, parse_domain, parse_local, jid_parse}

-- The bytes behind the '@' and the terminator are fewer than the buffer takes.
pub record SlashFirst (s : Text) (domain_sz : ℕ) : Type 0 where
  pub at : ℕ
  pub slash : ℕ
  pub at_is : index_of b'@' s ≡ some at
  pub slash_is : index_of b'/' s ≡ some slash
  pub slash_lt : slash < at
  pub short : length s + 1 < at + domain_sz

copy_out-none :
    (size : ℕ) (s : Text) (n : ℕ)
    → copy_out size s n ≡ none
    → (length s + 1 < n) × (length s + 1 < size - 1)
unfolding copy_out
copy_out-none size s n h = (ground arith, ground arith)

copy_out-short :
    (size : ℕ) (s : Text) (n : ℕ) → size ≤ n → length s + 1 < size - 1 → copy_out size s n ≡ none
unfolding copy_out
copy_out-short size s n h k = ground arith

finish_domain-overread :
    (local : Text) (o : Option Text) (resource : Text)
    → finish_domain local o resource ≡ overread
    → o ≡ none
unfolding finish_domain
finish_domain-overread local none resource h = refl
finish_domain-overread local (some t) resource h = cc

parse_domain-none :
    (domain_sz resource_sz : ℕ) (s : Text) (start : ℕ) (local : Text)
    → parse_domain domain_sz resource_sz s start local none ≢ overread
unfolding parse_domain
parse_domain-none domain_sz resource_sz s start local h = ground (
  arith,
  copy_out-none domain_sz (drop start s) (length (drop start s)),
  finish_domain-overread local (copy_out domain_sz (drop start s) (length (drop start s))) [],
)

wrapped : (a n : ℕ) → a ≤ n → n < size_mod → (n + size_mod - a) % size_mod ≡ n - a
wrapped a n h k = omega arith

-- A domain that starts before the slash is inside the string.
parse_domain-overread :
    (domain_sz resource_sz : ℕ) (s : Text) (start : ℕ) (local : Text) (slash : ℕ)
    → start ≤ length s
    → slash < length s
    → length s < size_mod
    → parse_domain domain_sz resource_sz s start local (some slash) ≡ overread
    → (slash < start) × (length s + 2 < start + domain_sz)
unfolding parse_domain
parse_domain-overread domain_sz resource_sz s start local slash hs hl hm h =
    let dlen : ℕ = (slash + size_mod - start) % size_mod in
    let beyond : (length (drop start s) + 1 < dlen) × (length (drop start s) + 1 < domain_sz - 1) =
      ground (
        arith,
        finish_domain-overread local (copy_out domain_sz (drop start s) dlen)
            (snprintf_s resource_sz (drop (slash + 1) s)),
        copy_out-none domain_sz (drop start s) dlen,
      ) in
    (
      omega (arith, beyond.0, length-drop start s, wrapped start slash),
      omega (arith, beyond.1, length-drop start s),
    )

before_none :
    (domain_sz resource_sz : ℕ) (s : Text) (o : Option ℕ)
    → index_of b'/' s ≡ o
    → length s < size_mod
    → parse_domain domain_sz resource_sz s 0 [] o ≢ overread
before_none domain_sz resource_sz s none e hm h = parse_domain-none domain_sz resource_sz s 0 [] h
before_none domain_sz resource_sz s (some slash) e hm h = omega (
  arith,
  (parse_domain-overread domain_sz resource_sz s 0 [] slash (omega arith)
      (index_of-lt b'/' s slash e) hm h).0,
)

-- One place holds one byte.
index_of_apart :
    (c d : ℕ) (s : Text) (i j : ℕ) → c ≢ d → index_of c s ≡ some i → index_of d s ≡ some j → i ≢ j
unfolding index_of
index_of_apart c d [] i j h p q e = cc
index_of_apart c d (x ∷ s) zero j h p q e = ground arith
index_of_apart c d (x ∷ s) (suc i) zero h p q e = ground arith
index_of_apart c d (x ∷ s) (suc i) (suc j) h p q e = ground (arith, index_of_apart c d s i j h)

module _ (local_sz domain_sz resource_sz : ℕ) (s : Text) (small : length s < size_mod) where
  with_slash :
      (at : ℕ) (local : Text) (o : Option ℕ)
      → index_of b'@' s ≡ some at
      → index_of b'/' s ≡ o
      → parse_domain domain_sz resource_sz s (at + 1) local o ≡ overread
      → SlashFirst s domain_sz
  with_slash at local none p q h =
      absurd (parse_domain-none domain_sz resource_sz s (at + 1) local h)
  with_slash at local (some slash) p q h =
      let r : (slash < at + 1) × (length s + 2 < at + 1 + domain_sz) =
        parse_domain-overread domain_sz resource_sz s (at + 1) local slash
          (omega (arith, index_of-lt b'@' s at p)) (index_of-lt b'/' s slash q) small h in
      let apart : at ≢ slash = index_of_apart b'@' b'/' s at slash (omega arith) p q in
      record {
        at = at;
        slash = slash;
        at_is = p;
        slash_is = q;
        slash_lt = omega (arith, r.0);
        short = omega (arith, r.1);
      }

  parse_local-SlashFirst :
      (o : Option ℕ)
      → index_of b'@' s ≡ o
      → parse_local local_sz domain_sz resource_sz s o ≡ overread
      → SlashFirst s domain_sz
  unfolding parse_local
  parse_local-SlashFirst none p h =
      absurd (before_none domain_sz resource_sz s (index_of b'/' s) refl small h)
  parse_local-SlashFirst (some at) p h =
      with_slash at (snprintf_s local_sz (take at s)) (index_of b'/' s) p refl (ground arith)

  SlashFirst-overread :
      domain_sz + length s ≤ size_mod
      → SlashFirst s domain_sz
      → jid_parse s local_sz domain_sz resource_sz ≡ overread
  unfolding jid_parse parse_local parse_domain finish_domain
  SlashFirst-overread h f =
      let bound : f.at < length s = index_of-lt b'@' s f.at f.at_is in
      let dlen : ℕ = (f.slash + size_mod - (f.at + 1)) % size_mod in
      let huge : dlen ≡ f.slash + size_mod - (f.at + 1) = omega (arith, f.slash_lt) in
      let rest : length (drop (f.at + 1) s) ≡ length s - (f.at + 1) = length-drop (f.at + 1) s in
      let stuck : copy_out domain_sz (drop (f.at + 1) s) dlen ≡ none =
        copy_out-short domain_sz (drop (f.at + 1) s) dlen (omega (arith, f.slash_lt))
          (omega (arith, f.short)) in
      ground (arith, f.at_is, f.slash_is, f.slash_lt, f.short)

  -- `jid_parse` reads past the end of its input exactly when the first '/' stands before the first
  -- '@' and the bytes behind the '@' do not fill the domain buffer, for an input that fits the
  -- address space beside that buffer.
  pub jid_parse-overread_iff :
      domain_sz + length s ≤ size_mod
      → (jid_parse s local_sz domain_sz resource_sz ≡ overread) ↔ SlashFirst s domain_sz
  unfolding jid_parse
  jid_parse-overread_iff h =
      (λ e. parse_local-SlashFirst (index_of b'@' s) refl (ground arith), SlashFirst-overread h)
