-- ===== src/Mapping/Ranges.antt =====
-- The entry `first-last` of the mapping list, printed and parsed.
use backhaul_recovered.Prelude.{
  if◌then◌else◌, zero, not, get_elem?, Option, none, ltb, ℕ, suc, ◌+◌, ◌-◌, ◌≤◌, ◌≡◌, refl, sym, ap,
  ◌∙◌, true, false, some, [], ◌∷◌, ◌++◌, map, ◌==◌, arith, All, subst, append-nil, get_elem?, ltb,
}
use backhaul_recovered.Prelude.Text.{Str}
use backhaul_recovered.Prelude.Result.{ok, ◌>>=◌}
use backhaul_recovered.Strings.{is_space, trim_space, contains_byte, cut, atoi, itoa}
use backhaul_recovered.Strings.Laws.{trim-All, contains_byte-append, cut-append}
use backhaul_recovered.Strings.Numbers.{
  IsDigit, itoa-IsDigit, itoa_digits, contains_byte-itoa, atoi-itoa,
}
use backhaul_recovered.Mapping.{
  range_of, parse_range, loopback, ports_from, each_port, some_entries, parse_trimmed, parse_entry,
  parse_entries, parse_mappings, listen_on, Result, PortMapping, Error, List, Option, err, none,
  codes, not,
}

-- The text of a range.
abbrev pub range_text : ℕ → ℕ → Str
range_text a b = itoa a ++ b'-' ∷ itoa b

digits_no_space : (s : Str) → All IsDigit s → All (λ c. is_space c ≡ false) s
unfolding is_space
digits_no_space [] h = tt
digits_no_space (c ∷ s) ((l, u), hs) = (ground arith, digits_no_space s hs)

join_no_space :
    (s t : Str)
    → All (λ c. is_space c ≡ false) s
    → All (λ c. is_space c ≡ false) t
    → All (λ c. is_space c ≡ false) (s ++ b'-' ∷ t)
unfolding is_space
join_no_space [] t h k = (refl, k)
join_no_space (c ∷ s) t (h, hs) k = (h, join_no_space s t hs k)

no_space : (n : ℕ) → All (λ c. is_space c ≡ false) (itoa n)
no_space n = digits_no_space (itoa n) (itoa-IsDigit n)

trim_space-itoa : (n : ℕ) → trim_space (itoa n) ≡ itoa n
unfolding trim_space
trim_space-itoa n = trim-All is_space (itoa n) (no_space n)

trim_space-range_text : (a b : ℕ) → trim_space (range_text a b) ≡ range_text a b
unfolding trim_space
trim_space-range_text a b =
    trim-All is_space (range_text a b) (join_no_space (itoa a) (itoa b) (no_space a) (no_space b))

holds_no :
    (x a b : ℕ) → ¬ IsDigit x → (b'-' == x) ≡ false → contains_byte x (range_text a b) ≡ false
unfolding contains_byte
holds_no x a b h n =
    contains_byte-append x (itoa a) (b'-' ∷ itoa b)
    ∙ ground (arith, n, contains_byte-itoa x a h, contains_byte-itoa x b h)

holds_dash : (a b : ℕ) → contains_byte b'-' (range_text a b) ≡ true
unfolding contains_byte
holds_dash a b = contains_byte-append b'-' (itoa a) (b'-' ∷ itoa b) ∙ ground (arith)

range_of-itoa :
    (s : Str) (a b : ℕ) → 1 ≤ a → a ≤ b → b ≤ 65535 → range_of s (some (itoa a, itoa b)) ≡ ok (a, b)
unfolding range_of
range_of-itoa s a b l m h = ground (
  arith,
  ap atoi (trim_space-itoa a) ∙ atoi-itoa a (omega arith),
  ap atoi (trim_space-itoa b) ∙ atoi-itoa b (omega arith),
)

parse_range-range_text :
    (a b : ℕ) → 1 ≤ a → a ≤ b → b ≤ 65535 → parse_range (range_text a b) ≡ ok (a, b)
unfolding parse_range
parse_range-range_text a b l m h =
    ap (λ z. range_of (range_text a b) (cut b'-' z)) (trim_space-range_text a b)
    ∙ ap (range_of (range_text a b))
        (cut-append b'-' (itoa a) (itoa b) (contains_byte-itoa b'-' a (λ d. omega arith)))
    ∙ range_of-itoa (range_text a b) a b l m h

parse_entry-range_text :
    (a b : ℕ)
    → 1 ≤ a
    → a ≤ b
    → b ≤ 65535
    → parse_entry (range_text a b) ≡ ok (each_port a b loopback)
unfolding parse_entry
parse_entry-range_text a b l m h = rw (
  holds_no b':' a b (λ d. omega arith) refl,
  holds_no b'=' a b (λ d. omega arith) refl,
  holds_dash a b,
  parse_range-range_text a b l m h,
)

starts_with_digit : (a b : ℕ) → (c : ℕ) × (s : Str) × (range_text a b ≡ c ∷ s)
starts_with_digit a b =
    let (c, s, e, d) = itoa_digits a in (c, s ++ b'-' ∷ itoa b, ap (λ z. z ++ b'-' ∷ itoa b) e)

parse_trimmed-eq : (t : Str) (c : ℕ) (s : Str) → t ≡ c ∷ s → parse_trimmed t ≡ parse_entry t
parse_trimmed-eq t c s e = rw e

some_ports :
    (a n : ℕ)
    → some_entries (
        map
          (λ p. record { listen_addr = listen_on p; target_addr = loopback p })
          (ports_from a (suc n)))
      ≡ ok (
          map
            (λ p. record { listen_addr = listen_on p; target_addr = loopback p })
            (ports_from a (suc n)))
unfolding ports_from
some_ports a n = refl

some_each_port :
    (a b : ℕ) → a ≤ b → some_entries (each_port a b loopback) ≡ ok (each_port a b loopback)
unfolding each_port
some_each_port a b m =
    let e : b + 1 - a ≡ suc (b - a) = omega arith in
    subst
      (λ n.
        some_entries (
          map (λ p. record { listen_addr = listen_on p; target_addr = loopback p })
            (ports_from a n))
        ≡ ok (
            map (λ p. record { listen_addr = listen_on p; target_addr = loopback p })
              (ports_from a n)))
      (sym e) (some_ports a (b - a))

parse_range_text :
    (a b : ℕ)
    → 1 ≤ a
    → a ≤ b
    → b ≤ 65535
    → parse_mappings (range_text a b ∷ []) ≡ ok (each_port a b loopback)
unfolding parse_mappings parse_entries
parse_range_text a b l m h =
    let (c, s, e) = starts_with_digit a b in
    let entry : parse_trimmed (trim_space (range_text a b)) ≡ ok (each_port a b loopback) =
      ap parse_trimmed (trim_space-range_text a b)
      ∙ parse_trimmed-eq (range_text a b) c s e
      ∙ parse_entry-range_text a b l m h in
    ap (λ r. (r >>= λ first. parse_entries [] >>= λ rest. ok (first ++ rest)) >>= some_entries)
      entry
    ∙ ap some_entries (append-nil (each_port a b loopback))
    ∙ some_each_port a b m

-- The mapping at a place of a list that was parsed.
abbrev pub mapping_at : Result Error (List PortMapping) → ℕ → Option PortMapping
mapping_at (ok ms) i = get_elem? ms i
mapping_at (err e) i = none

get_elem?-map_ports :
    (f : ℕ → PortMapping) (n start i : ℕ)
    → get_elem? (map f (ports_from start n)) i ≡ (if ltb i n then some (f (start + i)) else none)
unfolding ports_from
get_elem?-map_ports f zero start i = ground arith
get_elem?-map_ports f (suc n) start zero =
    let e : start ≡ start + 0 = omega arith in
    let inside : ltb 0 (suc n) ≡ true = ground arith in rw inside (ap (λ p. some (f p)) e)
get_elem?-map_ports f (suc n) start (suc i) =
    let e : start + 1 + i ≡ start + suc i = omega arith in
    let shifted : ltb (suc i) (suc n) ≡ ltb i n = ground arith in
    rw shifted
      (get_elem?-map_ports f n (start + 1) i ∙ ap (λ p. if ltb i n then some (f p) else none) e)

-- The mapping entry that is the decimal numbers `a` and `b` of two ports with a dash between them,
-- 1 ≤ a ≤ b ≤ 65535, gives b - a + 1 mappings and no more; the one at place `i`, from 0, listens on
-- 0.0.0.0 at port `a + i` and goes to the same port on 127.0.0.1.
pub parse_mappings-range_text :
    (a b i : ℕ)
    → 1 ≤ a
    → a ≤ b
    → b ≤ 65535
    → mapping_at (parse_mappings (range_text a b ∷ [])) i ≡ (
        if ltb (b - a) i
        then none
        else some (record {
          listen_addr = codes "0.0.0.0:" ++ itoa (a + i);
          target_addr = codes "127.0.0.1:" ++ itoa (a + i);
        }))
unfolding each_port listen_on loopback
parse_mappings-range_text a b i l m h =
    let f : ℕ → PortMapping = λ p. record { listen_addr = listen_on p; target_addr = loopback p } in
    let turned : ltb i (b + 1 - a) ≡ not (ltb (b - a) i) = ground arith in
    ap (λ r. mapping_at r i) (parse_range_text a b l m h)
    ∙ get_elem?-map_ports f (b + 1 - a) a i
    ∙ rw turned (ground arith)
