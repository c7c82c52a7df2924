-- ===== src/Config/Set.antt =====
-- internal/cfg/config.go: setValue, one function for each section, and atob.
use backhaul_recovered.Prelude.{Bool, true, false, ◌||◌, Option, none, some, if◌then◌else◌}
use backhaul_recovered.Prelude.Text.{Str, str_eq, codes}
use backhaul_recovered.Prelude.Int.{ℤ}
use backhaul_recovered.Strings.{trim_space, to_lower, atoi}
use backhaul_recovered.Config.{
  Listener, Dialer, Transport, Ports, Security, Tls, Logging, Mux, Tun, Ipx, Tuning, AcceptUdp,
  Config,
}

abbrev pub is : Str → Str → Bool
is a b = str_eq a b

abbrev or_default : Option ℤ → ℤ → ℤ
or_default none def = def
or_default (some n) def = n

-- The closure `atoi` of setValue.
pub int_or : Str → ℤ → ℤ
int_or v def = or_default (atoi v) def

abbrev is_yes : Str → Bool
is_yes v = is v (codes "1") || (is v (codes "true") || (is v (codes "yes") || is v (codes "on")))

abbrev is_no : Str → Bool
is_no v = is v (codes "0") || (is v (codes "false") || (is v (codes "no") || is v (codes "off")))

-- atob
pub atob : Str → Bool → Bool
atob v def =
    let s = to_lower (trim_space v) in if is_yes s then true else if is_no s then false else def

pub set_listener : Listener → Str → Str → Listener
set_listener c key val = if is key (codes "bind_addr") then record c { bind_addr = val } else c

pub set_dialer : Dialer → Str → Str → Dialer
set_dialer c key val =
    if is key (codes "remote_addr")
    then record c { remote_addr = val }
    else if is key (codes "edge_ip")
    then record c { edge_ip = val }
    else if is key (codes "dial_timeout")
    then record c { dial_timeout = int_or val c.dial_timeout }
    else if is key (codes "retry_interval")
    then record c { retry_interval = int_or val c.retry_interval }
    else c

pub set_transport : Transport → Str → Str → Transport
set_transport c key val =
    if is key (codes "type")
    then record c { type_name = to_lower val }
    else if is key (codes "connection_pool")
    then record c { connection_pool = int_or val c.connection_pool }
    else if is key (codes "nodelay")
    then record c { no_delay = atob val c.no_delay }
    else if is key (codes "keepalive_period")
    then record c { keepalive_period = int_or val c.keepalive_period }
    else if is key (codes "accept_udp")
    then record c { accept_udp = atob val c.accept_udp }
    else if is key (codes "proxy_protocol")
    then record c { proxy_protocol = atob val c.proxy_protocol }
    else if is key (codes "heartbeat_interval")
    then record c { heartbeat_interval = int_or val c.heartbeat_interval }
    else if is key (codes "heartbeat_timeout")
    then record c { heartbeat_timeout = int_or val c.heartbeat_timeout }
    else c

pub set_ports : Ports → Str → Str → Ports
set_ports c key val = if is key (codes "forwarder") then record c { forwarder = val } else c

pub set_security : Security → Str → Str → Security
set_security c key val =
    if is key (codes "token")
    then record c { token = val }
    else if is key (codes "enable_encryption")
    then record c { enable_encryption = atob val c.enable_encryption }
    else if is key (codes "algorithm")
    then record c { algorithm = val }
    else if is key (codes "psk")
    then record c { psk = val }
    else if is key (codes "kdf_iterations")
    then record c { kdf_iterations = int_or val c.kdf_iterations }
    else c

pub set_tls : Tls → Str → Str → Tls
set_tls c key val =
    if is key (codes "sni")
    then record c { sni = val }
    else if is key (codes "tls_cert")
    then record c { tls_cert = val }
    else if is key (codes "tls_key")
    then record c { tls_key = val }
    else c

pub set_logging : Logging → Str → Str → Logging
set_logging c key val =
    if is key (codes "log_level") then record c { log_level = to_lower val } else c

pub set_mux : Mux → Str → Str → Mux
set_mux c key val =
    if is key (codes "mux_version")
    then record c { version = int_or val c.version }
    else if is key (codes "mux_concurrency")
    then record c { concurrency = int_or val c.concurrency }
    else if is key (codes "mux_framesize")
    then record c { frame_size = int_or val c.frame_size }
    else if is key (codes "mux_recievebuffer") || is key (codes "mux_receivebuffer")
    then record c { receive_buffer = int_or val c.receive_buffer }
    else if is key (codes "mux_streambuffer")
    then record c { stream_buffer = int_or val c.stream_buffer }
    else c

pub set_tun : Tun → Str → Str → Tun
set_tun c key val =
    if is key (codes "encapsulation")
    then record c { encapsulation = to_lower val }
    else if is key (codes "name")
    then record c { name = val }
    else if is key (codes "local_addr")
    then record c { local_addr = val }
    else if is key (codes "remote_addr")
    then record c { remote_addr = val }
    else if is key (codes "health_port")
    then record c { health_port = int_or val c.health_port }
    else if is key (codes "mtu")
    then record c { mtu = int_or val c.mtu }
    else c

pub set_ipx : Ipx → Str → Str → Ipx
set_ipx c key val =
    if is key (codes "mode")
    then record c { mode = to_lower val }
    else if is key (codes "profile")
    then record c { profile = to_lower val }
    else if is key (codes "listen_ip")
    then record c { listen_ip = val }
    else if is key (codes "dst_ip")
    then record c { dst_ip = val }
    else if is key (codes "interface")
    then record c { interface_name = val }
    else if is key (codes "icmp_type")
    then record c { icmp_type = int_or val c.icmp_type }
    else if is key (codes "icmp_code")
    then record c { icmp_code = int_or val c.icmp_code }
    else c

pub set_tuning : Tuning → Str → Str → Tuning
set_tuning c key val =
    if is key (codes "auto_tuning")
    then record c { auto_tuning = atob val c.auto_tuning }
    else if is key (codes "tuning_profile")
    then record c { tuning_profile = to_lower val }
    else if is key (codes "workers")
    then record c { workers = int_or val c.workers }
    else if is key (codes "channel_size")
    then record c { channel_size = int_or val c.channel_size }
    else if is key (codes "tcp_mss")
    then record c { tcp_mss = int_or val c.tcp_mss }
    else if is key (codes "so_rcvbuf")
    then record c { so_rcvbuf = int_or val c.so_rcvbuf }
    else if is key (codes "so_sndbuf")
    then record c { so_sndbuf = int_or val c.so_sndbuf }
    else if is key (codes "buffer_profile")
    then record c { buffer_profile = to_lower val }
    else if is key (codes "batch_size")
    then record c { batch_size = int_or val c.batch_size }
    else if is key (codes "read_timeout")
    then record c { read_timeout = int_or val c.read_timeout }
    else c

pub set_accept_udp : AcceptUdp → Str → Str → AcceptUdp
set_accept_udp c key val =
    if is key (codes "ring_size")
    then record c { ring_size = int_or val c.ring_size }
    else if is key (codes "frame_size")
    then record c { frame_size = int_or val c.frame_size }
    else if is key (codes "peer_idle_timeout_s")
    then record c { peer_idle_timeout = int_or val c.peer_idle_timeout }
    else if is key (codes "write_timeout_ms")
    then record c { write_timeout_ms = int_or val c.write_timeout_ms }
    else c

-- setValue
pub set_value : Config → Str → Str → Str → Config
unfolding set_listener set_dialer set_transport set_ports set_security set_tls set_logging set_mux
    set_tun set_ipx set_tuning set_accept_udp
set_value c section key val =
    if is section (codes "listener")
    then record c { listener = set_listener c.listener key val }
    else if is section (codes "dialer")
    then record c { dialer = set_dialer c.dialer key val }
    else if is section (codes "transport")
    then record c { transport = set_transport c.transport key val }
    else if is section (codes "ports")
    then record c { ports = set_ports c.ports key val }
    else if is section (codes "security")
    then record c { security = set_security c.security key val }
    else if is section (codes "tls")
    then record c { tls = set_tls c.tls key val }
    else if is section (codes "logging")
    then record c { logging = set_logging c.logging key val }
    else if is section (codes "mux")
    then record c { mux = set_mux c.mux key val }
    else if is section (codes "tun")
    then record c { tun = set_tun c.tun key val }
    else if is section (codes "ipx")
    then record c { ipx = set_ipx c.ipx key val }
    else if is section (codes "tuning")
    then record c { tuning = set_tuning c.tuning key val }
    else if is section (codes "accept_udp")
    then record c { accept_udp = set_accept_udp c.accept_udp key val }
    else c
