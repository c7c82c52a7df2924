-- ===== src/Transport.antt =====
-- internal/tunnel/runner.go: the names of the transports and what they stand for; the test that
-- selects the protocol of original_protocol.go; the search in a header of tokens.
mod Tests
pub mod Kinds
use backhaul_recovered.Prelude.{
  Bool, true, false, ◌||◌, Option, none, some, List, [], ◌∷◌, if◌then◌else◌,
}
use backhaul_recovered.Prelude.Text.{Str, str_eq, codes}
use backhaul_recovered.Strings.{trim_space, to_lower, equal_fold, split}

pub record TransportKind : Type 0 where
  pub ws : Bool
  pub http : Bool
  pub grpc : Bool
  pub kcp : Bool
  pub tls : Bool
  pub mux : Bool
  pub slip : Bool
  pub udp : Bool
  pub dns : Bool

abbrev pub plain : TransportKind
plain = record {
  ws = false;
  http = false;
  grpc = false;
  kcp = false;
  tls = false;
  mux = false;
  slip = false;
  udp = false;
  dns = false;
}

abbrev pub one_of : Str → List Str → Bool
one_of t [] = false
one_of t (name ∷ names) = str_eq t name || one_of t names

-- The cases of the switch of parseTransport, in its order.
abbrev pub cases : List (List Str × TransportKind)
cases =
    ([] ∷ codes "tcp" ∷ [], plain)
    ∷ (codes "kcp" ∷ [], record plain { kcp = true })
    ∷ (codes "kcpmux" ∷ codes "xkcpmux" ∷ [], record plain { kcp = true; mux = true })
    ∷ (codes "grpc" ∷ [], record plain { grpc = true })
    ∷ (codes "grpcs" ∷ [], record plain { grpc = true; tls = true })
    ∷ (codes "grpcmux" ∷ codes "xgrpcmux" ∷ [], record plain { grpc = true; mux = true })
    ∷ (
      codes "grpcsmux" ∷ codes "xgrpcsmux" ∷ [],
      record plain { grpc = true; tls = true; mux = true },
    )
    ∷ (codes "http" ∷ [], record plain { http = true })
    ∷ (codes "https" ∷ [], record plain { http = true; tls = true })
    ∷ (codes "httpmux" ∷ codes "xhttpmux" ∷ [], record plain { http = true; mux = true })
    ∷ (
      codes "httpsmux" ∷ codes "xhttpsmux" ∷ [],
      record plain { http = true; tls = true; mux = true },
    )
    ∷ (codes "udp" ∷ [], record plain { udp = true })
    ∷ (codes "udpmux" ∷ codes "xudpmux" ∷ [], record plain { udp = true; mux = true })
    ∷ (codes "dns" ∷ [], record plain { udp = true; dns = true })
    ∷ (codes "dnsmux" ∷ codes "xdnsmux" ∷ [], record plain { udp = true; dns = true; mux = true })
    ∷ (codes "slipstream" ∷ codes "slip" ∷ codes "sstream" ∷ [], record plain { slip = true })
    ∷ (
      codes "slipstreammux" ∷ codes "slipmux" ∷ codes "sstreammux" ∷ [],
      record plain { slip = true; mux = true },
    )
    ∷ (codes "raw" ∷ codes "rawsocket" ∷ codes "socketraw" ∷ [], plain)
    ∷ (codes "tun" ∷ [], record plain { mux = true })
    ∷ (codes "anytls" ∷ [], record plain { tls = true })
    ∷ (codes "tcpmux" ∷ codes "xtcpmux" ∷ [], record plain { mux = true })
    ∷ (codes "ws" ∷ [], record plain { ws = true })
    ∷ (codes "wss" ∷ [], record plain { ws = true; tls = true })
    ∷ (codes "wsmux" ∷ codes "xwsmux" ∷ [], record plain { ws = true; mux = true })
    ∷ (codes "wssmux" ∷ [], record plain { ws = true; tls = true; mux = true })
    ∷ []

abbrev pub select : Str → List (List Str × TransportKind) → Option TransportKind
select t [] = none
select t ((names, kind) ∷ rest) = if one_of t names then some kind else select t rest

-- parseTransport; ValidateTransport asks whether there is a result.
unfoldable pub parse_transport : Str → Option TransportKind
parse_transport raw = select (to_lower (trim_space raw)) cases

-- usesOriginalTCPProtocol
pub uses_original_tcp_protocol : Str → Bool
uses_original_tcp_protocol transport = equal_fold (trim_space transport) (codes "tcp")

abbrev some_token : Str → List Str → Bool
some_token token [] = false
some_token token (p ∷ ps) = str_eq (to_lower (trim_space p)) token || some_token token ps

-- headerContainsToken
pub header_contains_token : Str → Str → Bool
header_contains_token v token = some_token (to_lower (trim_space token)) (split b',' v)
