-- ===== src/Datagram.antt =====
-- internal/tunnel/runner.go: UDP datagrams as frames on a stream, two bytes of length and then
-- the datagram.
mod Tests
pub mod Frames
use backhaul_recovered.Prelude.{ℕ, ◌++◌, List, [], ◌∷◌, length, take, ltb, ◌==◌, if◌then◌else◌}
use backhaul_recovered.Prelude.Text.{Str}
use backhaul_recovered.Net.{Conn, M, ◌>>=◌, ◌>>◌, pure, read_full, write_, put_uint16, uint16}

abbrev pub cut_to : ℕ → Str → Str
cut_to n p = if ltb n (length p) then take n p else p

-- writeDatagramFrame
unfoldable pub write_datagram_frame : Str → M Conn (Unit {0})
write_datagram_frame p = let q = cut_to 65535 p in write_ (put_uint16 (length q)) >> write_ q

-- readDatagramFrame
pub read_datagram_frame : M Conn Str
read_datagram_frame =
    read_full 2 >>= λ hdr. if uint16 hdr == 0 then pure [] else read_full (uint16 hdr)
