-- ===== src/Address/Ports.antt =====
-- Addresses split and joined (internal/tunnel/runner.go).
use backhaul_recovered.Prelude.{
  ◌≡◌, ◌≢◌, refl, ap, ◌∙◌, ℕ, zero, suc, true, false, none, some, [], ◌∷◌, ◌++◌, ◌==◌, arith,
  if◌then◌else◌, Bool-cases, inl, inr,
}
use backhaul_recovered.Prelude.Text.{Str}
use backhaul_recovered.Strings.{contains_byte, has_prefix, cut}
use backhaul_recovered.Strings.Laws.{cut-append, contains_byte-append}
use backhaul_recovered.Address.{
  join_host_port, no_brackets, is_port, plain_parts, behind_bracket, split_plain, split_bracket,
  split_host_port, count, default_port, with_default_port, suc,
}

pub bracketed :
    (host port : Str)
    → no_brackets host ≡ true
    → is_port port ≡ true
    → split_host_port (b'[' ∷ (host ++ (b']' ∷ (b':' ∷ port)))) ≡ some (host, port)
unfolding split_host_port split_bracket behind_bracket no_brackets
bracketed host port h p =
    ground (arith, h, p, cut-append b']' host (b':' ∷ port) (ground (arith, h)))

-- Without brackets the first colon decides.
split_plainly : (s : Str) → no_brackets s ≡ true → split_host_port s ≡ split_plain (cut b':' s)
unfolding split_host_port split_plain no_brackets contains_byte cut
split_plainly [] h = refl
split_plainly (c ∷ s) h = ground (arith, h)

no_brackets-append :
    (s t : Str) → no_brackets s ≡ true → no_brackets t ≡ true → no_brackets (s ++ t) ≡ true
unfolding no_brackets
no_brackets-append s t h k =
    ground (arith, h, k, contains_byte-append b'[' s t, contains_byte-append b']' s t)

colon_port : (port : Str) → is_port port ≡ true → no_brackets (b':' ∷ port) ≡ true
unfolding is_port no_brackets contains_byte
colon_port port p = ground (arith, p)

pub plain :
    (host port : Str)
    → no_brackets host ≡ true
    → is_port port ≡ true
    → contains_byte b':' host ≡ false
    → split_host_port (host ++ (b':' ∷ port)) ≡ some (host, port)
unfolding split_plain plain_parts
plain host port h p n =
    split_plainly (host ++ (b':' ∷ port))
      (no_brackets-append host (b':' ∷ port) h (colon_port port p))
    ∙ ap split_plain (cut-append b':' host port n)
    ∙ ground (arith, h, p)

-- A host and a port joined are split again.
pub split-join_host_port :
    (host port : Str)
    → no_brackets host ≡ true
    → is_port port ≡ true
    → split_host_port (join_host_port host port) ≡ some (host, port)
unfolding join_host_port
split-join_host_port host port h p = elim (Bool-cases (contains_byte b':' host)) [
  | inl e ↦ rw e (bracketed host port h p)
  | inr n ↦ rw n (plain host port h p n)
]

count_zero : (b : ℕ) (s : Str) → count b s ≡ 0 → contains_byte b s ≡ false
unfolding count contains_byte
count_zero b [] e = refl
count_zero b (c ∷ s) e = ground (arith, e, count_zero b s)

count_more : (b n : ℕ) (s : Str) → count b s ≡ suc n → contains_byte b s ≡ true
unfolding count contains_byte
count_more b n [] e = cc
count_more b n (c ∷ s) e = ground (arith, e, count_more b n s)

cut-none : (b : ℕ) (s : Str) → contains_byte b s ≡ false → cut b s ≡ none
unfolding cut contains_byte
cut-none b [] e = refl
cut-none b (c ∷ s) e = ground (arith, e, cut-none b s)

cut_twice :
    (b n : ℕ) (s : Str)
    → count b s ≡ suc (suc n)
    → (l : Str) × (r : Str) × (cut b s ≡ some (l, r)) × (contains_byte b r ≡ true)
unfolding cut count
cut_twice b n [] e = absurd (omega arith)
cut_twice b n (c ∷ s) e = elim (Bool-cases (c == b)) [
  | inl same ↦ ([], s, ground arith, count_more b n s (ground (arith, e)))
  | inr other ↦
      let (l, r, f, g) = cut_twice b n s (ground (arith, e)) in (c ∷ l, r, ground (arith, f), g)
]

-- A host alone, with no colon or with many, is no host and port.
pub no_split :
    (s : Str) (n : ℕ) → no_brackets s ≡ true → count b':' s ≡ n → n ≢ 1 → split_host_port s ≡ none
unfolding split_plain plain_parts is_port
no_split s zero h e d = split_plainly s h ∙ ap split_plain (cut-none b':' s (count_zero b':' s e))
no_split s (suc zero) h e d = absurd (d refl)
no_split s (suc (suc n)) h e d =
    let (l, r, f, g) = cut_twice b':' n s e in
    split_plainly s h ∙ ap split_plain f ∙ ground (arith, g)

no_bracket_first : (host : Str) → no_brackets host ≡ true → has_prefix (b'[' ∷ []) host ≡ false
unfolding no_brackets has_prefix contains_byte
no_bracket_first [] h = refl
no_bracket_first (c ∷ s) h = ground (arith, h)

-- What withDefaultPort builds where it does not find a port.
bare :
    (host port : Str) (n : ℕ)
    → no_brackets host ≡ true
    → is_port port ≡ true
    → count b':' host ≡ n
    → n ≢ 1
    → has_prefix (b':' ∷ []) host ≡ false
    → split_host_port (default_port host port none) ≡ some (host, port)
unfolding default_port
bare host port zero h p e d f =
    let joined : default_port host port none ≡ host ++ (b':' ∷ port) = ground (arith, e, f) in
    ap split_host_port joined ∙ plain host port h p (count_zero b':' host e)
bare host port (suc zero) h p e d f = absurd (d refl)
bare host port (suc (suc n)) h p e d f =
    let joined : default_port host port none ≡ b'[' ∷ (host ++ (b']' ∷ (b':' ∷ port))) =
      ground (arith, e, f, no_bracket_first host h) in
    ap split_host_port joined ∙ bracketed host port h p

without_port :
    (host port : Str)
    → no_brackets host ≡ true
    → is_port port ≡ true
    → count b':' host ≢ 1
    → split_host_port (default_port host port none)
      ≡ (if has_prefix (b':' ∷ []) host then none else some (host, port))
unfolding default_port
without_port host port h p d = elim (Bool-cases (has_prefix (b':' ∷ []) host)) [
  | inl e ↦ rw e (no_split host (count b':' host) h refl d)
  | inr e ↦ bare host port (count b':' host) h p refl d e ∙ rw e refl
]

-- For a host without brackets that has no colon or several, and a port, withDefaultPort gives an
-- address that net.SplitHostPort splits into the two; but an IPv6 address that begins with a colon
-- is given back without the port, and is no address.
pub split-with_default_port :
    (host port : Str)
    → no_brackets host ≡ true
    → is_port port ≡ true
    → count b':' host ≢ 1
    → split_host_port (with_default_port host port)
      ≡ (if has_prefix (b':' ∷ []) host then none else some (host, port))
unfolding with_default_port contains_byte has_prefix
split-with_default_port [] port h p d = plain [] port h p refl
split-with_default_port (c ∷ s) port h p d =
    ap (λ z. split_host_port (default_port (c ∷ s) port z))
      (no_split (c ∷ s) (count b':' (c ∷ s)) h refl d)
    ∙ without_port (c ∷ s) port h p d
