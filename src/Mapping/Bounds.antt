-- ===== src/Mapping/Bounds.antt =====
-- The numbers and the addresses that internal/tunnel/mapping.go hands out.
use backhaul_recovered.Prelude.{
  ℕ, zero, suc, ◌+◌, ◌-◌, ◌≤◌, ◌≡◌, refl, true, false, ◌&&◌, not, Option, none, some, List, [], ◌∷◌,
  map, if◌then◌else◌, arith, All, All-append, ◌≢◌,
}
use backhaul_recovered.Prelude.Text.{Str}
use backhaul_recovered.Prelude.Int.{ℤ}
use backhaul_recovered.Prelude.Result.{Result, ok, ◌>>=◌, OnOk, OnOk-bind, OnOk-intro, OnOk-apply}
use backhaul_recovered.Strings.{trim_space, contains_byte, cut, after_last, atoi}
use backhaul_recovered.Mapping.{
  PortMapping, Error, range_of, parse_range, port_of, parse_port_maybe_with_host, listen_on,
  loopback, normalize_target, ports_from, each_port, range_to_target, listen_to_target, parse_entry,
  parse_entries, parse_mappings, parse_trimmed, some_entries,
}

abbrev pub IsUsable : ℕ → Type 0
IsUsable p = (1 ≤ p) × (p ≤ 65535)

range_of_bounds :
    (s : Str) (o : Option (Str × Str)) (a b : ℕ)
    → range_of s o ≡ ok (a, b)
    → (1 ≤ a) × (a ≤ b) × (b ≤ 65535)
unfolding range_of
range_of_bounds s none a b e = cc
range_of_bounds s (some (first, last)) a b e = ground arith

-- A range that parseRange accepts lies within the ports and is not empty.
pub parse_range_bounds :
    (s : Str) (a b : ℕ) → parse_range s ≡ ok (a, b) → (1 ≤ a) × (a ≤ b) × (b ≤ 65535)
unfolding parse_range
parse_range_bounds s a b e = range_of_bounds s (cut b'-' (trim_space s)) a b e

port_of-IsUsable : (s : Str) (o : Option ℤ) (p : ℕ) → port_of s o ≡ ok p → IsUsable p
unfolding port_of
port_of-IsUsable s none p e = cc
port_of-IsUsable s (some n) p e = ground arith

pub parse_port-IsUsable : (s : Str) (p : ℕ) → parse_port_maybe_with_host s ≡ ok p → IsUsable p
unfolding parse_port_maybe_with_host
parse_port-IsUsable s p e =
    port_of-IsUsable (after_last b':' (trim_space s)) (atoi (after_last b':' (trim_space s))) p e

-- A mapping that listens on a TCP port of every interface.
abbrev pub IsListening : PortMapping → Type 0
IsListening m = (p : ℕ) × IsUsable p × (m.listen_addr ≡ listen_on p)

ports-IsListening :
    (target : ℕ → Str) (a n : ℕ)
    → 1 ≤ a
    → a + n ≤ 65536
    → All IsListening
        (map (λ p. record { listen_addr = listen_on p; target_addr = target p }) (ports_from a n))
unfolding ports_from
ports-IsListening target a zero l h = tt
ports-IsListening target a (suc n) l h =
    ((a, (l, omega arith), refl), ports-IsListening target (a + 1) n (omega arith) (omega arith))

each_port-IsListening :
    (a b : ℕ) (target : ℕ → Str)
    → 1 ≤ a
    → a ≤ b
    → b ≤ 65535
    → All IsListening (each_port a b target)
unfolding each_port
each_port-IsListening a b target l m h = ports-IsListening target a (b + 1 - a) l (omega arith)

parse_range-OnOk : (s : Str) → OnOk (λ r. (1 ≤ r.0) × (r.0 ≤ r.1) × (r.1 ≤ 65535)) (parse_range s)
parse_range-OnOk s =
    OnOk-intro (λ (r : ℕ × ℕ). (1 ≤ r.0) × (r.0 ≤ r.1) × (r.1 ≤ 65535)) (parse_range s)
      (λ r e. parse_range_bounds s r.0 r.1 e)

parse_port-OnOk : (s : Str) → OnOk IsUsable (parse_port_maybe_with_host s)
parse_port-OnOk s =
    OnOk-intro IsUsable (parse_port_maybe_with_host s) (λ p e. parse_port-IsUsable s p e)

any-OnOk : {A : Type 0} (m : Result Error A) → OnOk (λ (a : A). Unit {0}) m
any-OnOk {A} m = OnOk-intro (λ (a : A). Unit {0}) m (λ a e. tt)

range_to_target-Listen : (o : Option (Str × Str)) → OnOk (All IsListening) (range_to_target o)
unfolding range_to_target
range_to_target-Listen none = tt
range_to_target-Listen (some (ports, target)) =
    OnOk-bind (λ (r : ℕ × ℕ). (1 ≤ r.0) × (r.0 ≤ r.1) × (r.1 ≤ 65535)) (All IsListening)
      (parse_range (trim_space ports)) _ (parse_range-OnOk (trim_space ports))
      λ r h.
        OnOk-bind (λ (a : Str). Unit {0}) (All IsListening) (normalize_target (trim_space target)) _
          (any-OnOk (normalize_target (trim_space target)))
          λ addr _. each_port-IsListening r.0 r.1 (λ _. addr) h.0 h.1 h.2

listen_to_target-Listen : (o : Option (Str × Str)) → OnOk (All IsListening) (listen_to_target o)
unfolding listen_to_target
listen_to_target-Listen none = tt
listen_to_target-Listen (some (l, t)) =
    elim (contains_byte b'-' (trim_space l))
      as (λ b. OnOk (All IsListening) (if b then ranged else single)) [
        | true ↦
            OnOk-bind (λ (r : ℕ × ℕ). (1 ≤ r.0) × (r.0 ≤ r.1) × (r.1 ≤ 65535)) (All IsListening)
              (parse_range (trim_space l)) _ (parse_range-OnOk (trim_space l))
              λ r h.
                OnOk-bind IsUsable (All IsListening) (parse_port_maybe_with_host (trim_space t)) _
                  (parse_port-OnOk (trim_space t))
                  λ port _. each_port-IsListening r.0 r.1 (λ _. loopback port) h.0 h.1 h.2
        | false ↦
            OnOk-bind IsUsable (All IsListening) (parse_port_maybe_with_host (trim_space l)) _
              (parse_port-OnOk (trim_space l))
              λ port h.
                OnOk-bind (λ (a : Str). Unit {0}) (All IsListening)
                  (normalize_target (trim_space t)) _ (any-OnOk (normalize_target (trim_space t)))
                  λ addr _. ((port, h, refl), tt)
      ]
  where
    ranged : Result Error (List PortMapping)
    ranged = parse_range (trim_space l) >>= λ r.
        parse_port_maybe_with_host (trim_space t) >>= λ port.
        ok (each_port r.0 r.1 (λ _. loopback port))

    single : Result Error (List PortMapping)
    single = parse_port_maybe_with_host (trim_space l) >>= λ port.
        normalize_target (trim_space t) >>= λ addr.
        ok (record { listen_addr = listen_on port; target_addr = addr } ∷ [])

parse_entry-Listen : (raw : Str) → OnOk (All IsListening) (parse_entry raw)
unfolding parse_entry
parse_entry-Listen raw =
    elim (contains_byte b':' raw && (contains_byte b'-' raw && not (contains_byte b'=' raw)))
      as (λ b. OnOk (All IsListening) (if b then range_to_target (cut b':' raw) else others)) [
        | true ↦ range_to_target-Listen (cut b':' raw)
        | false ↦
            elim (contains_byte b'=' raw)
              as (λ b.
                OnOk (All IsListening) (if b then listen_to_target (cut b'=' raw) else plain)) [
                  | true ↦ listen_to_target-Listen (cut b'=' raw)
                  | false ↦
                      elim (contains_byte b'-' raw)
                        as (λ b. OnOk (All IsListening) (if b then ranged else single)) [
                          | true ↦
                              OnOk-bind (λ (r : ℕ × ℕ). (1 ≤ r.0) × (r.0 ≤ r.1) × (r.1 ≤ 65535))
                                (All IsListening) (parse_range raw) _ (parse_range-OnOk raw)
                                λ r h. each_port-IsListening r.0 r.1 loopback h.0 h.1 h.2
                          | false ↦
                              OnOk-bind IsUsable (All IsListening) (parse_port_maybe_with_host raw)
                                _ (parse_port-OnOk raw) λ port h. ((port, h, refl), tt)
                        ]
                ]
      ]
  where
    ranged : Result Error (List PortMapping)
    ranged = parse_range raw >>= λ r. ok (each_port r.0 r.1 loopback)

    single : Result Error (List PortMapping)
    single = parse_port_maybe_with_host raw >>= λ p.
        ok (record { listen_addr = listen_on p; target_addr = loopback p } ∷ [])

    plain : Result Error (List PortMapping)
    plain = if contains_byte b'-' raw then ranged else single

    others : Result Error (List PortMapping)
    others = if contains_byte b'=' raw then listen_to_target (cut b'=' raw) else plain

parse_trimmed-Listen : (raw : Str) → OnOk (All IsListening) (parse_trimmed raw)
parse_trimmed-Listen [] = tt
parse_trimmed-Listen (c ∷ raw) = parse_entry-Listen (c ∷ raw)

parse_entries-Listen : (items : List Str) → OnOk (All IsListening) (parse_entries items)
unfolding parse_entries
parse_entries-Listen [] = tt
parse_entries-Listen (raw ∷ items) =
    OnOk-bind (All IsListening) (All IsListening) (parse_trimmed (trim_space raw)) _
      (parse_trimmed-Listen (trim_space raw))
      λ first p.
        OnOk-bind (All IsListening) (All IsListening) (parse_entries items) _
          (parse_entries-Listen items) λ rest q. All-append IsListening first rest q p

abbrev pub SomeListening : List PortMapping → Type 0
SomeListening ms = All IsListening ms × (ms ≢ [])

some_entries-Listen :
    (ms : List PortMapping) → All IsListening ms → OnOk SomeListening (some_entries ms)
some_entries-Listen [] p = tt
some_entries-Listen (m ∷ ms) p = (p, λ e. cc)

-- The mappings that ParseMappings returns without an error are not empty, and each listens on
-- 0.0.0.0 and a port of 1 to 65535.
pub parse_mappings_bounds :
    (items : List Str) (ms : List PortMapping)
    → parse_mappings items ≡ ok ms
    → All IsListening ms × (ms ≢ [])
unfolding parse_mappings
parse_mappings_bounds items ms e =
    OnOk-apply SomeListening (parse_mappings items) ms
      (OnOk-bind (All IsListening) SomeListening (parse_entries items) some_entries
        (parse_entries-Listen items) some_entries-Listen)
      e
