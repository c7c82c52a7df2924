-- ===== src/Websocket/Tests.antt =====
-- A client, a server and control frames on concrete bytes.
use backhaul_recovered.Prelude.{◌≡◌, refl, true, false, [], ◌∷◌, arith, ◌^◌, ◌++◌}
use backhaul_recovered.Prelude.Text.{Str}
use backhaul_recovered.Net.{Conn, eof, returned, failed, write, frame_too_large}
use backhaul_recovered.Stream.{Buffered, write_chunks, write_stream, write_each}
use backhaul_recovered.Websocket.{
  Websocket, mask_from, next_mask, length_bytes, frame_header, client_frame, write_frame, ws_copy,
  read_len,
}
use backhaul_recovered.Websocket.Length.{more_length, first_length, read_len_large}
use backhaul_recovered.Websocket.Laws.{content}
use backhaul_recovered.Websocket.Transfer.{WsFrame, wire, ws_transfer, control_frames_transparent}

abbrev fresh : Conn
fresh = record { incoming = []; ends = eof; sent = []; script = []; is_closed = false }

abbrev browser : Websocket
browser = record { conn = fresh; is_client = true; masks = (1 ∷ 2 ∷ 3 ∷ 4 ∷ []) ∷ [] }

abbrev server_with : Str → Websocket
server_with bytes = record {
  conn = record fresh { incoming = bytes };
  is_client = false;
  masks = [];
}

ws_transfer_example :
    (d : Buffered Websocket) × (ws_copy 1
        (record { inner = server_with (0x82 ∷ 0x82 ∷ 1 ∷ 2 ∷ 3 ∷ 4 ∷ 6 ∷ 10 ∷ []); rbuf = [] })
      ≡ returned (7 ∷ 8 ∷ []) d)
unfolding write_frame client_frame next_mask mask_from frame_header length_bytes write write_chunks
    write_stream write_each
ws_transfer_example =
    ws_transfer ((7 ∷ 8 ∷ []) ∷ []) 1 browser _
      (server_with (0x82 ∷ 0x82 ∷ 1 ∷ 2 ∷ 3 ∷ 4 ∷ 6 ∷ 10 ∷ [])) (omega arith) tt (refl, tt) refl
      refl refl refl refl

abbrev ping : WsFrame
ping = record { opcode = 0x9; key = 1 ∷ 2 ∷ 3 ∷ 4 ∷ []; payload = 5 ∷ [] }

abbrev data_frame : WsFrame
data_frame = record { opcode = 0x1; key = 4 ∷ 3 ∷ 2 ∷ 1 ∷ []; payload = 7 ∷ 8 ∷ [] }

control_frames_transparent_example :
    (d : Buffered Websocket) × (ws_copy 4
        (record { inner = server_with (wire true (ping ∷ data_frame ∷ [])); rbuf = [] })
      ≡ returned (7 ∷ 8 ∷ []) d)
unfolding content
control_frames_transparent_example =
    control_frames_transparent true (ping ∷ data_frame ∷ []) 4
      (server_with (wire true (ping ∷ data_frame ∷ []))) (omega arith)
      (
        record { nibble = omega arith; goes_on = omega arith; four = refl; short = omega arith },
        (
          record { nibble = omega arith; goes_on = omega arith; four = refl; short = omega arith },
          tt,
        ),
      )
      refl refl refl

read_len_large_example :
    read_len (first_length (2 ^ 40)) (record fresh { incoming = more_length (2 ^ 40) ++ 7 ∷ [] })
    ≡ failed frame_too_large (record fresh { incoming = 7 ∷ [] })
read_len_large_example =
    read_len_large (2 ^ 40) (7 ∷ []) (record fresh { incoming = more_length (2 ^ 40) ++ 7 ∷ [] })
      (omega arith) (omega arith) refl refl
