-- ===== src/Config.antt =====
-- internal/cfg/config.go: the sections of the configuration and what they start with.
pub mod Set
pub mod Load
use backhaul_recovered.Prelude.{
  ℕ, zero, suc, Bool, true, false, ◌&&◌, ◌||◌, not, Option, none, some, List, [], ◌∷◌, ◌++◌,
  if◌then◌else◌,
}
use backhaul_recovered.Prelude.Text.{Str, str_eq, codes}
use backhaul_recovered.Prelude.Int.{ℤ, pos, negsuc}

pub record Listener : Type 0 where
  pub bind_addr : Str

pub record Dialer : Type 0 where
  pub remote_addr : Str
  pub edge_ip : Str
  pub dial_timeout : ℤ
  pub retry_interval : ℤ

pub record Transport : Type 0 where
  pub type_name : Str
  pub connection_pool : ℤ
  pub no_delay : Bool
  pub keepalive_period : ℤ
  pub accept_udp : Bool
  pub proxy_protocol : Bool
  pub heartbeat_interval : ℤ
  pub heartbeat_timeout : ℤ

pub record Ports : Type 0 where
  pub forwarder : Str
  pub mapping : List Str

pub record Security : Type 0 where
  pub token : Str
  pub enable_encryption : Bool
  pub algorithm : Str
  pub psk : Str
  pub kdf_iterations : ℤ

pub record Tls : Type 0 where
  pub sni : Str
  pub tls_cert : Str
  pub tls_key : Str

pub record Logging : Type 0 where
  pub log_level : Str

pub record Mux : Type 0 where
  pub version : ℤ
  pub concurrency : ℤ
  pub frame_size : ℤ
  pub receive_buffer : ℤ
  pub stream_buffer : ℤ

pub record Tun : Type 0 where
  pub encapsulation : Str
  pub name : Str
  pub local_addr : Str
  pub remote_addr : Str
  pub health_port : ℤ
  pub mtu : ℤ

pub record Ipx : Type 0 where
  pub mode : Str
  pub profile : Str
  pub listen_ip : Str
  pub dst_ip : Str
  pub interface_name : Str
  pub icmp_type : ℤ
  pub icmp_code : ℤ

pub record Tuning : Type 0 where
  pub auto_tuning : Bool
  pub tuning_profile : Str
  pub workers : ℤ
  pub channel_size : ℤ
  pub tcp_mss : ℤ
  pub so_rcvbuf : ℤ
  pub so_sndbuf : ℤ
  pub buffer_profile : Str
  pub batch_size : ℤ
  pub read_timeout : ℤ

pub record AcceptUdp : Type 0 where
  pub ring_size : ℤ
  pub frame_size : ℤ
  pub peer_idle_timeout : ℤ
  pub write_timeout_ms : ℤ

pub record Config : Type 0 where
  pub listener : Listener
  pub dialer : Dialer
  pub transport : Transport
  pub ports : Ports
  pub security : Security
  pub tls : Tls
  pub logging : Logging
  pub mux : Mux
  pub tun : Tun
  pub ipx : Ipx
  pub tuning : Tuning
  pub accept_udp : AcceptUdp

abbrev pub default_token : Str
default_token = codes "your_token"

-- What Load puts into a Config before it reads the file.
abbrev pub defaults : Config
defaults = record {
  listener = record { bind_addr = [] };
  dialer = record { remote_addr = []; edge_ip = []; dial_timeout = pos 10; retry_interval = pos 3 };
  transport = record {
    type_name = codes "tcp";
    connection_pool = pos 8;
    no_delay = true;
    keepalive_period = pos 40;
    accept_udp = false;
    proxy_protocol = false;
    heartbeat_interval = pos 10;
    heartbeat_timeout = pos 25;
  };
  ports = record { forwarder = []; mapping = [] };
  security = record {
    token = default_token;
    enable_encryption = false;
    algorithm = [];
    psk = [];
    kdf_iterations = pos 0;
  };
  tls = record { sni = []; tls_cert = []; tls_key = [] };
  logging = record { log_level = codes "info" };
  mux = record {
    version = pos 2;
    concurrency = pos 8;
    frame_size = pos 32768;
    receive_buffer = pos 4194304;
    stream_buffer = pos 2097152;
  };
  tun = record {
    encapsulation = [];
    name = codes "backhaul";
    local_addr = [];
    remote_addr = [];
    health_port = pos 1234;
    mtu = pos 1500;
  };
  ipx = record {
    mode = [];
    profile = [];
    listen_ip = [];
    dst_ip = [];
    interface_name = [];
    icmp_type = pos 0;
    icmp_code = pos 0;
  };
  tuning = record {
    auto_tuning = true;
    tuning_profile = codes "balanced";
    workers = pos 0;
    channel_size = pos 0;
    tcp_mss = pos 0;
    so_rcvbuf = pos 0;
    so_sndbuf = pos 0;
    buffer_profile = codes "balanced";
    batch_size = pos 0;
    read_timeout = pos 0;
  };
  accept_udp = record {
    ring_size = pos 64;
    frame_size = pos 2048;
    peer_idle_timeout = pos 120;
    write_timeout_ms = pos 3;
  };
}
