-- ===== src/Mapping.antt =====
-- internal/tunnel/mapping.go: the entries of [ports].mapping.
mod Tests
pub mod Bounds
pub mod Ranges
use backhaul_recovered.Prelude.{
  ℕ, zero, suc, ◌+◌, ◌-◌, Bool, true, false, ◌&&◌, ◌||◌, not, Option, none, some, List, [], ◌∷◌,
  ◌++◌, map, if◌then◌else◌,
}
use backhaul_recovered.Prelude.Text.{Str, codes}
use backhaul_recovered.Prelude.Int.{ℤ, pos, negsuc, ltb_ℤ, pos_part}
use backhaul_recovered.Prelude.Result.{Result, ok, err, ◌>>=◌}
use backhaul_recovered.Strings.{trim_space, contains_byte, cut, after_last, atoi, itoa}

pub record PortMapping : Type 0 where
  pub listen_addr : Str
  pub target_addr : Str

pub data Error : Type 0 where
  no_entries : Error
  invalid_range invalid_range_start invalid_range_end range_out_of_bounds invalid_port : Str → Error

abbrev number_or : Option ℤ → Error → Result Error ℤ
number_or none e = err e
number_or (some n) e = ok n

-- `start < 1 || end > 65535 || start > end`
abbrev out_of_bounds : ℤ → ℤ → Bool
out_of_bounds start end = ltb_ℤ start (pos 1) || (ltb_ℤ (pos 65535) end || ltb_ℤ end start)

range_of : Str → Option (Str × Str) → Result Error (ℕ × ℕ)
range_of s none = err (invalid_range s)
range_of s (some (first, last)) = do
  start ← number_or (atoi (trim_space first)) (invalid_range_start s)
  end ← number_or (atoi (trim_space last)) (invalid_range_end s)
  if out_of_bounds start end then err (range_out_of_bounds s) else ok (pos_part start, pos_part end)

-- parseRange
pub parse_range : Str → Result Error (ℕ × ℕ)
unfolding range_of
parse_range s = range_of s (cut b'-' (trim_space s))

port_of : Str → Option ℤ → Result Error ℕ
port_of s none = err (invalid_port s)
port_of s (some p) =
    if ltb_ℤ p (pos 1) || ltb_ℤ (pos 65535) p then err (invalid_port s) else ok (pos_part p)

-- parsePortMaybeWithHost
pub parse_port_maybe_with_host : Str → Result Error ℕ
unfolding port_of
parse_port_maybe_with_host s = let port = after_last b':' (trim_space s) in port_of port (atoi port)

abbrev pub listen_on : ℕ → Str
listen_on p = codes "0.0.0.0:" ++ itoa p

abbrev pub loopback : ℕ → Str
loopback p = codes "127.0.0.1:" ++ itoa p

-- normalizeTarget
pub normalize_target : Str → Result Error Str
normalize_target s =
    let t = trim_space s in
    if contains_byte b':' t
    then (parse_port_maybe_with_host t >>= λ _. ok t)
    else (parse_port_maybe_with_host t >>= λ p. ok (loopback p))

-- `for p := start; p <= end; p++`, over the number of rounds.
pub ports_from : ℕ → ℕ → List ℕ
ports_from start zero = []
ports_from start (suc n) = start ∷ ports_from (start + 1) n

pub each_port : ℕ → ℕ → (ℕ → Str) → List PortMapping
unfolding ports_from
each_port start end target =
    map (λ p. record { listen_addr = listen_on p; target_addr = target p })
      (ports_from start (end + 1 - start))

-- The entry `first-last:target`, cut at the first colon.
range_to_target : Option (Str × Str) → Result Error (List PortMapping)
range_to_target none = ok []
range_to_target (some (ports, target)) = do
  (start, end) ← parse_range (trim_space ports)
  addr ← normalize_target (trim_space target)
  ok (each_port start end (λ _. addr))

-- The entry `listen=target`, cut at the first equals sign.
listen_to_target : Option (Str × Str) → Result Error (List PortMapping)
listen_to_target none = ok []
listen_to_target (some (l, t)) =
    let listen_part = trim_space l in
    let target_part = trim_space t in
    if contains_byte b'-' listen_part
    then (do
      (start, end) ← parse_range listen_part
      port ← parse_port_maybe_with_host target_part
      ok (each_port start end (λ _. loopback port)))
    else (do
      port ← parse_port_maybe_with_host listen_part
      addr ← normalize_target target_part
      ok (record { listen_addr = listen_on port; target_addr = addr } ∷ []))

-- One round of the loop in ParseMappings, on an entry that was trimmed and is not empty.
pub parse_entry : Str → Result Error (List PortMapping)
unfolding range_to_target listen_to_target
parse_entry raw =
    if contains_byte b':' raw && (contains_byte b'-' raw && not (contains_byte b'=' raw))
    then range_to_target (cut b':' raw)
    else if contains_byte b'=' raw
    then listen_to_target (cut b'=' raw)
    else if contains_byte b'-' raw
    then (parse_range raw >>= λ r. ok (each_port (r.0) (r.1) loopback))
    else (parse_port_maybe_with_host raw >>= λ p.
        ok (record { listen_addr = listen_on p; target_addr = loopback p } ∷ []))

abbrev pub parse_trimmed : Str → Result Error (List PortMapping)
parse_trimmed [] = ok []
parse_trimmed (c ∷ raw) = parse_entry (c ∷ raw)

-- The loop of ParseMappings: the first error ends it.
pub parse_entries : List Str → Result Error (List PortMapping)
parse_entries [] = ok []
parse_entries (raw ∷ items) = do
  first ← parse_trimmed (trim_space raw)
  rest ← parse_entries items
  ok (first ++ rest)

abbrev pub some_entries : List PortMapping → Result Error (List PortMapping)
some_entries [] = err no_entries
some_entries (m ∷ ms) = ok (m ∷ ms)

-- ParseMappings
pub parse_mappings : List Str → Result Error (List PortMapping)
unfolding parse_entries
parse_mappings items = parse_entries items >>= some_entries
