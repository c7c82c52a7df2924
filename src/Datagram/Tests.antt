-- ===== src/Datagram/Tests.antt =====
-- A datagram on concrete bytes.
use backhaul_recovered.Prelude.{◌≡◌, refl, false, [], ◌∷◌}
use backhaul_recovered.Prelude.Text.{Str}
use backhaul_recovered.Net.{Conn, eof, returned, write}
use backhaul_recovered.Datagram.{write_datagram_frame, read_datagram_frame}
use backhaul_recovered.Datagram.Frames.{read-write_datagram_frame}

abbrev with_bytes : Str → Conn
with_bytes bytes = record {
  incoming = bytes;
  ends = eof;
  sent = [];
  script = [];
  is_closed = false;
}

read-write_datagram_frame_example :
    read_datagram_frame (with_bytes (0 ∷ 2 ∷ 7 ∷ 8 ∷ 99 ∷ []))
    ≡ returned (7 ∷ 8 ∷ []) (with_bytes (99 ∷ []))
unfolding write_datagram_frame write
read-write_datagram_frame_example =
    read-write_datagram_frame (7 ∷ 8 ∷ []) (99 ∷ []) (with_bytes []) _
      (with_bytes (0 ∷ 2 ∷ 7 ∷ 8 ∷ 99 ∷ [])) refl tt refl refl refl
