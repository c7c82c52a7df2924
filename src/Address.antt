-- ===== src/Address.antt =====
-- The addresses that internal/tunnel dials: normalizeOriginalTarget and originalWireTarget of
-- original_protocol.go, withDefaultPort of runner.go, and the functions of Go's `net` under them.
pub mod Ports
pub mod Targets
pub mod Url
pub mod Tests
use backhaul_recovered.Prelude.{
  ℕ, zero, suc, ◌+◌, Bool, true, false, Option, none, some, List, [], ◌∷◌, ◌++◌, ltb, ◌==◌, ◌||◌,
  ◌&&◌, not, if◌then◌else◌, ◌&&◌,
}
use backhaul_recovered.Prelude.Text.{Str, str_eq, codes}
use backhaul_recovered.Prelude.Result.{Result, ok, err, ◌>>=◌}
use backhaul_recovered.Strings.{
  trim_space, contains_byte, has_prefix, trim_prefix, cut, unsigned_value,
}

pub data Error : Type 0 where
  empty_target invalid_target invalid_port : Error
  -- those of url.Parse, and of an address without a host
  invalid_url no_host : Error

-- net.JoinHostPort
pub join_host_port : Str → Str → Str
join_host_port host port =
    if contains_byte b':' host
    then b'[' ∷ (host ++ (b']' ∷ (b':' ∷ port)))
    else host ++ (b':' ∷ port)

unfoldable pub no_brackets : Str → Bool
no_brackets s = not (contains_byte b'[' s || contains_byte b']' s)

pub is_port : Str → Bool
unfolding no_brackets
is_port port = no_brackets port && not (contains_byte b':' port)

pub plain_parts : Str → Str → Option (Str × Str)
unfolding is_port
plain_parts host port = if no_brackets host && is_port port then some (host, port) else none

pub behind_bracket : Str → Str → Option (Str × Str)
unfolding is_port
behind_bracket host [] = none
behind_bracket host (c ∷ port) =
    if c == b':' && (not (contains_byte b'[' host) && is_port port) then some (host, port) else none

pub split_plain : Option (Str × Str) → Option (Str × Str)
unfolding plain_parts
split_plain none = none
split_plain (some (host, port)) = plain_parts host port

pub split_bracket : Option (Str × Str) → Option (Str × Str)
unfolding behind_bracket
split_bracket none = none
split_bracket (some (host, rest)) = behind_bracket host rest

-- net.SplitHostPort: the host may stand in brackets, and holds a colon only there.
pub split_host_port : Str → Option (Str × Str)
unfolding split_plain split_bracket
split_host_port [] = none
split_host_port (c ∷ s) =
    if c == b'[' then split_bracket (cut b']' s) else split_plain (cut b':' (c ∷ s))

-- validateOriginalPort; strconv.ParseUint reads decimal digits up to 65535.
pub port_value : Option ℕ → Result Error (Unit {0})
port_value none = err invalid_port
port_value (some n) = if ltb 65535 n || n == 0 then err invalid_port else ok tt

pub validate_original_port : Str → Result Error (Unit {0})
unfolding port_value
validate_original_port port = port_value (unsigned_value port)

pub loopback : Str → Result Error Str
unfolding validate_original_port join_host_port
loopback port = validate_original_port port >>= λ u. ok (join_host_port (codes "127.0.0.1") port)

pub whole_target : Str → Option (Str × Str) → Result Error Str
whole_target target none = err invalid_target
whole_target target (some parts) = ok target

pub normalize_trimmed : Str → Result Error Str
unfolding loopback whole_target split_host_port
normalize_trimmed target =
    if str_eq target []
    then err empty_target
    else if has_prefix (codes ":") target
    then loopback (trim_prefix (codes ":") target)
    else if not (contains_byte b':' target)
    then loopback target
    else whole_target target (split_host_port target)

-- normalizeOriginalTarget
pub normalize_original_target : Str → Result Error Str
unfolding normalize_trimmed
normalize_original_target target = normalize_trimmed (trim_space target)

pub is_local : Str → Bool
is_local host =
    str_eq host []
    || (str_eq host (codes "127.0.0.1")
        || (str_eq host (codes "localhost") || str_eq host (codes "::1")))

pub wire_parts : Str → Option (Str × Str) → Str
unfolding is_local
wire_parts target none = target
wire_parts target (some (host, port)) = if is_local host then port else target

-- originalWireTarget
pub original_wire_target : Str → Str
unfolding wire_parts split_host_port
original_wire_target target = wire_parts target (split_host_port (trim_space target))

pub count : ℕ → Str → ℕ
count b [] = 0
count b (c ∷ s) = if c == b then suc (count b s) else count b s

pub default_port : Str → Str → Option (Str × Str) → Str
unfolding count
default_port addr port (some parts) = addr
default_port addr port none =
    if has_prefix (codes ":") addr
    then addr
    else if ltb 1 (count b':' addr) && not (has_prefix (codes "[") addr)
    then b'[' ∷ (addr ++ (b']' ∷ (b':' ∷ port)))
    else addr ++ (b':' ∷ port)

-- withDefaultPort
pub with_default_port : Str → Str → Str
unfolding default_port split_host_port
with_default_port addr port =
    if str_eq addr [] then b':' ∷ port else default_port addr port (split_host_port addr)
