-- ===== src/Address/Targets.antt =====
-- Targets as the server of the TCP protocol sends them and as its client reads them
-- (internal/tunnel/original_protocol.go).
use backhaul_recovered.Prelude.{
  ◌≡◌, refl, sym, ap, ◌∙◌, ℕ, ◌≤◌, true, false, some, [], ◌∷◌, ◌++◌, arith, if◌then◌else◌,
  Bool-cases, inl, inr, All, All-append,
}
use backhaul_recovered.Prelude.Text.{Str, str_eq, codes}
use backhaul_recovered.Prelude.Result.{ok}
use backhaul_recovered.Strings.{
  contains_byte, has_prefix, trim_space, is_space, unsigned_value, digits_value, itoa,
}
use backhaul_recovered.Strings.Laws.{trim-All, contains_byte-append}
use backhaul_recovered.Strings.Numbers.{
  contains_byte-itoa, itoa_digits, digits_value-itoa, IsDigit, itoa-IsDigit,
}
use backhaul_recovered.Address.{
  join_host_port, no_brackets, is_port, split_host_port, validate_original_port, port_value,
  loopback, normalize_trimmed, normalize_original_target, is_local, wire_parts,
  original_wire_target, whole_target,
}
use backhaul_recovered.Address.Ports.{split-join_host_port}

abbrev pub NoBlank : Str → Type 0
NoBlank = All (λ c. is_space c ≡ false)

digit_no_blank : (c : ℕ) → IsDigit c → is_space c ≡ false
unfolding is_space
digit_no_blank c h = ground (arith, h)

digits_NoBlank : (s : Str) → All IsDigit s → NoBlank s
digits_NoBlank [] h = tt
digits_NoBlank (c ∷ s) h = (digit_no_blank c h.0, digits_NoBlank s h.1)

trim_space-NoBlank : (s : Str) → NoBlank s → trim_space s ≡ s
unfolding trim_space
trim_space-NoBlank s h = trim-All is_space s h

itoa-is_port : (p : ℕ) → is_port (itoa p) ≡ true
unfolding is_port no_brackets
itoa-is_port p = ground (
  arith,
  contains_byte-itoa b':' p (λ d. omega arith),
  contains_byte-itoa b'[' p (λ d. omega arith),
  contains_byte-itoa b']' p (λ d. omega arith),
)

join_host_port-NoBlank :
    (host port : Str) → NoBlank host → NoBlank port → NoBlank (join_host_port host port)
unfolding join_host_port is_space
join_host_port-NoBlank host port h p =
    elim (contains_byte b':' host)
      as (λ b.
        NoBlank (if b then b'[' ∷ (host ++ (b']' ∷ (b':' ∷ port))) else host ++ (b':' ∷ port))) [
          | true ↦ (
            refl,
            All-append (λ c. is_space c ≡ false) host (b']' ∷ (b':' ∷ port)) (refl, (refl, p)) h,
          )
          | false ↦ All-append (λ c. is_space c ≡ false) host (b':' ∷ port) (refl, p) h
        ]

unsigned_value-itoa : (p : ℕ) → unsigned_value (itoa p) ≡ some p
unfolding unsigned_value
unsigned_value-itoa p =
    let (c, s, e, a) = itoa_digits p in
    ap unsigned_value e ∙ ap (digits_value 0) (sym e) ∙ digits_value-itoa p

validate-itoa : (p : ℕ) → 1 ≤ p → p ≤ 65535 → validate_original_port (itoa p) ≡ ok tt
unfolding validate_original_port port_value
validate-itoa p l u = ap port_value (unsigned_value-itoa p) ∙ ground (arith, l, u)

digits_start :
    (c : ℕ) (s : Str)
    → IsDigit c
    → contains_byte b':' (c ∷ s) ≡ false
    → normalize_trimmed (c ∷ s) ≡ loopback (c ∷ s)
unfolding normalize_trimmed has_prefix
digits_start c s d n = ground (arith, d, n)

-- A bare port stands for a port of the loopback.
normalize_port :
    (p : ℕ)
    → 1 ≤ p
    → p ≤ 65535
    → normalize_original_target (itoa p) ≡ ok (join_host_port (codes "127.0.0.1") (itoa p))
unfolding normalize_original_target loopback
normalize_port p l u =
    let (c, s, e, a) = itoa_digits p in
    let colon : contains_byte b':' (c ∷ s) ≡ false =
      ap (contains_byte b':') (sym e) ∙ contains_byte-itoa b':' p (λ d. omega arith) in
    ap normalize_trimmed (trim_space-NoBlank (itoa p) (digits_NoBlank (itoa p) (itoa-IsDigit p)))
    ∙ ap normalize_trimmed e
    ∙ digits_start c s a.0 colon
    ∙ ap loopback (sym e)
    ∙ rw (validate-itoa p l u) refl

-- A joined address of a host begins with no colon, and holds one.
joined_start :
    (host port : Str)
    → is_local host ≡ false
    → has_prefix (codes ":") (join_host_port host port) ≡ false
unfolding join_host_port is_local has_prefix contains_byte
joined_start [] port n = cc
joined_start (c ∷ s) port n = ground arith

joined_colon : (host port : Str) → contains_byte b':' (join_host_port host port) ≡ true
unfolding join_host_port contains_byte
joined_colon host port = ground (
  arith,
  contains_byte-append b':' host (b':' ∷ port),
  contains_byte-append b':' host (b']' ∷ (b':' ∷ port)),
)

joined_not_empty : (host port : Str) → str_eq (join_host_port host port) [] ≡ false
unfolding join_host_port contains_byte
joined_not_empty [] port = refl
joined_not_empty (c ∷ s) port = ground arith

normalize_joined :
    (host port : Str)
    → is_local host ≡ false
    → NoBlank host
    → NoBlank port
    → no_brackets host ≡ true
    → is_port port ≡ true
    → normalize_original_target (join_host_port host port) ≡ ok (join_host_port host port)
unfolding normalize_original_target normalize_trimmed whole_target
normalize_joined host port n w v b p =
    ap normalize_trimmed
      (trim_space-NoBlank (join_host_port host port) (join_host_port-NoBlank host port w v))
    ∙ ground (
      arith,
      joined_start host port n,
      joined_colon host port,
      joined_not_empty host port,
      split-join_host_port host port b p,
    )

wire :
    (host port : Str)
    → NoBlank host
    → NoBlank port
    → no_brackets host ≡ true
    → is_port port ≡ true
    → original_wire_target (join_host_port host port)
      ≡ (if is_local host then port else join_host_port host port)
unfolding original_wire_target wire_parts
wire host port w v b p =
    let target : Str = join_host_port host port in
    ap (λ z. wire_parts target (split_host_port z))
      (trim_space-NoBlank target (join_host_port-NoBlank host port w v))
    ∙ ap (wire_parts target) (split-join_host_port host port b p)

-- A target whose host has no blank and no bracket and whose port is between 1 and 65535, made short
-- by the server's originalWireTarget and read by the client's normalizeOriginalTarget, is the
-- target again, but for an empty host, localhost and ::1, which become 127.0.0.1.
pub normalize-original_wire_target :
    (host : Str) (p : ℕ)
    → NoBlank host
    → no_brackets host ≡ true
    → 1 ≤ p
    → p ≤ 65535
    → normalize_original_target (original_wire_target (join_host_port host (itoa p)))
      ≡ ok (join_host_port (if is_local host then codes "127.0.0.1" else host) (itoa p))
normalize-original_wire_target host p w b l u =
    let port : Str = itoa p in
    let v : NoBlank port = digits_NoBlank port (itoa-IsDigit p) in
    let k = itoa-is_port p in
    ap normalize_original_target (wire host port w v b k) ∙ elim (Bool-cases (is_local host)) [
      | inl e ↦ rw e (normalize_port p l u)
      | inr e ↦ rw e (normalize_joined host port e w v b k)
    ]
