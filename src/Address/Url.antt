-- ===== src/Address/Url.antt =====
-- The addresses that the dialers of internal/tunnel/runner.go make of a remote address, which may
-- be a URL: resolveHTTPControlHostPort, resolveGRPCTarget, buildWebsocketURL, extractHost. Go's
-- `net/url` is a parameter.
pub mod Brackets
use backhaul_recovered.Prelude.{
  ◌≡◌, ◌≢◌, refl, sym, ap, ◌∙◌, ℕ, Bool, true, false, ◌&&◌, ◌||◌, not, Option, none, some, [], ◌∷◌,
  ◌++◌, ltb, ◌==◌, arith, if◌then◌else◌, Bool-cases, inl, inr,
}
use backhaul_recovered.Prelude.Text.{Str, str_eq, codes}
use backhaul_recovered.Prelude.Result.{Result, ok, err}
use backhaul_recovered.Strings.{contains_byte, has_prefix, cut}
use backhaul_recovered.Address.{
  Error, invalid_url, no_host, join_host_port, no_brackets, is_port, split_host_port, count,
  with_default_port,
}
use backhaul_recovered.Address.Ports.{split-with_default_port, split-join_host_port, no_split}

-- url.Parse, and what the code does with a URL.
pub record Urls : Type 1 where
  pub Url : Type 0
  pub parse : Str → Option Url
  pub host : Url → Str
  pub path : Url → Str
  pub with_path : Str → Url → Url
  pub print : Url → Str

abbrev pub default_of : Bool → Str
default_of secure = if secure then codes "443" else codes "80"

abbrev pub host_or_join : Bool → Str → Option (Str × Str) → Str
host_or_join secure host (some parts) = host
host_or_join secure host none = join_host_port host (default_of secure)

abbrev pub address_or_default : Bool → Str → Option (Str × Str) → Str
address_or_default secure remote (some parts) = remote
address_or_default secure remote none = with_default_port remote (default_of secure)

-- strings.Contains(addr, "://")
pub contains_scheme : Str → Bool
contains_scheme [] = false
contains_scheme (c ∷ s) = has_prefix (codes "://") (c ∷ s) || contains_scheme s

abbrev pub host_of : Str → Option (Str × Str) → Str
host_of h none = h
host_of h (some (host, port)) = host

module _ (urls : Urls) where
  abbrev pub host_port : Bool → Option urls.Url → Result Error Str
  host_port secure none = err invalid_url
  host_port secure (some u) =
      if str_eq (urls.host u) []
      then err no_host
      else ok (host_or_join secure (urls.host u) (split_host_port (urls.host u)))

  -- resolveHTTPControlHostPort
  pub resolve_http_control_host_port : Str → Bool → Result Error Str
  resolve_http_control_host_port remote secure =
      if has_prefix (codes "http://") remote || has_prefix (codes "https://") remote
      then host_port secure (urls.parse remote)
      else ok (address_or_default secure remote (split_host_port remote))

  -- resolveGRPCTarget
  pub resolve_grpc_target : Str → Bool → Result Error Str
  resolve_grpc_target remote secure =
      if has_prefix (codes "grpc://") remote || has_prefix (codes "grpcs://") remote
      then host_port secure (urls.parse remote)
      else ok (address_or_default secure remote (split_host_port remote))

  abbrev pub with_root : urls.Url → Str
  with_root u = urls.print (if str_eq (urls.path u) [] then urls.with_path (codes "/") u else u)

  abbrev pub whole_url : Option urls.Url → Result Error Str
  whole_url none = err invalid_url
  whole_url (some u) = ok (with_root u)

  abbrev pub url_with_host : Option urls.Url → Result Error Str
  url_with_host none = err invalid_url
  url_with_host (some u) = if str_eq (urls.host u) [] then err no_host else ok (with_root u)

  -- buildWebsocketURL
  pub build_websocket_url : Str → Bool → Result Error Str
  build_websocket_url addr secure =
      if has_prefix (codes "ws://") addr || has_prefix (codes "wss://") addr
      then whole_url (urls.parse addr)
      else url_with_host
          (urls.parse (if secure then codes "wss://" ++ addr else codes "ws://" ++ addr))

  abbrev pub host_or_all : Str → Option urls.Url → Str
  host_or_all addr none = addr
  host_or_all addr (some u) = urls.host u

  -- extractHost
  pub extract_host : Str → Str
  extract_host addr =
      let h = if contains_scheme addr then host_or_all addr (urls.parse addr) else addr in
      host_of h (split_host_port h)
