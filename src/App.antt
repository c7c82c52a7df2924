-- ===== src/App.antt =====
-- internal/app/app.go: how Run turns a configuration into the transport and the addresses.
mod Tests
pub mod Runtime
use backhaul_recovered.Prelude.{
  ℕ, Bool, true, false, ◌&&◌, ◌||◌, not, List, [], ◌∷◌, ◌++◌, if◌then◌else◌, Option, none, some,
}
use backhaul_recovered.Prelude.Text.{Str, str_eq, codes}
use backhaul_recovered.Prelude.Int.{ℤ, pos, negsuc, ltb_ℤ, pos_part}
use backhaul_recovered.Prelude.Result.{Result, ok, err, ◌>>=◌}
use backhaul_recovered.Strings.{trim_space, to_lower, equal_fold, before, itoa}
use backhaul_recovered.Config.{Config}
use backhaul_recovered.Config.Set.{is}
use backhaul_recovered.Mapping.{PortMapping, Error, parse_mappings}

abbrev pub or_text : Str → Str → Str
or_text [] def = def
or_text (c ∷ s) def = c ∷ s

abbrev pub is_slip : Str → Bool
is_slip enc = is enc (codes "slipstream") || (is enc (codes "slip") || is enc (codes "sstream"))

-- The carrier of a TUN configuration.
pub tun_transport : Str → Str → Str
tun_transport enc ipx_mode =
    if is_slip enc
    then codes "slipstreammux"
    else if is enc (codes "ipx") || not (is ipx_mode [])
    then codes "xtcpmux"
    else codes "tcpmux"

-- normalizeTransportForRuntime
pub normalize_transport_for_runtime : Config → Str
unfolding tun_transport
normalize_transport_for_runtime c =
    let t = or_text (to_lower (trim_space c.transport.type_name)) (codes "tcp") in
    if is t (codes "tun")
    then tun_transport (to_lower (trim_space c.tun.encapsulation)) c.ipx.mode
    else t

-- The port is printed only when it is positive.
abbrev health_port : Config → ℕ
health_port c = if ltb_ℤ (pos 0) c.tun.health_port then pos_part c.tun.health_port else 8443

abbrev join : Str → ℕ → Str
join host port = host ++ b':' ∷ itoa port

-- resolveServerBindAddr
pub resolve_server_bind_addr : Config → Str
resolve_server_bind_addr c =
    if not (is (trim_space c.listener.bind_addr) [])
    then c.listener.bind_addr
    else join (or_text (trim_space c.ipx.listen_ip) (codes "0.0.0.0")) (health_port c)

-- What stands before the first slash: the address without the length of its prefix.
abbrev tun_host : Config → Str
tun_host c = before b'/' (trim_space c.tun.remote_addr)

-- resolveClientRemoteAddr
pub resolve_client_remote_addr : Config → Str
resolve_client_remote_addr c =
    if not (is (trim_space c.dialer.remote_addr) [])
    then c.dialer.remote_addr
    else join (or_text (or_text (trim_space c.ipx.dst_ip) (tun_host c)) (codes "127.0.0.1"))
        (health_port c)

-- The mappings that Run hands to ParseMappings.
pub runtime_mappings : Config → List Str
runtime_mappings c = elim c.ports.mapping [
  | [] ↦
      if (equal_fold c.transport.type_name (codes "tun") || not (is c.ipx.mode []))
        && ltb_ℤ (pos 0) c.tun.health_port
      then itoa (pos_part c.tun.health_port) ∷ []
      else []
  | m ∷ ms ↦ m ∷ ms
]
