-- ===== src/Original/Signal.antt =====
-- The signal bytes of internal/tunnel/original_protocol.go.
use backhaul_recovered.Prelude.{ℕ}

abbrev pub closed : ℕ
closed = 0x00

abbrev pub heartbeat : ℕ
heartbeat = 0x01

abbrev pub channel : ℕ
channel = 0x02

abbrev pub rtt : ℕ
rtt = 0x05

abbrev pub hello : ℕ
hello = 0x06

abbrev pub tcp : ℕ
tcp = 0x10

abbrev pub udp : ℕ
udp = 0x11
