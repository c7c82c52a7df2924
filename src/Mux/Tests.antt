-- ===== src/Mux/Tests.antt =====
-- Sessions on concrete frames.
use backhaul_recovered.Prelude.{◌≡◌, refl, true, false, [], ◌∷◌, ◌⊎◌, ◌++◌, arith}
use backhaul_recovered.Net.{Conn, Ran, eof, returned, failed, panicked, write}
use backhaul_recovered.Mux.{
  read_frame, frame_header, Session, new_session, remove_stream, remote_close, frame_header,
  send_frame, write_frame, close_stream, handle_data, handle_frame, frame_open, frame_data, List,
}
use backhaul_recovered.Mux.Streams.{lookup, delete, update}
use backhaul_recovered.Mux.Safety.{Inv}
use backhaul_recovered.Mux.Codec.{read_frame-write_frame}
use backhaul_recovered.Mux.Run.{
  Op, receives, closes, opens, run, run-handle_frame, close_between_panics,
}
use backhaul_recovered.Mux.Delivery.{Event, arrives, ingests, reads, steps, pending, steps_deliver}

abbrev fresh : Conn
fresh = record { incoming = []; ends = eof; sent = []; script = []; is_closed = false }

-- One stream, number 2, under the handle 0.
abbrev one_stream : Session
one_stream = record (new_session fresh) {
  streams = (2, 0) ∷ [];
  cell = λ _. record {
    id = 2;
    queue = [];
    queue_closed = false;
    read_buf = [];
    read_closed = false;
    local_closed = false;
  };
  next_handle = 1;
}

abbrev ops : List Op
ops = receives frame_open 2 [] ∷ receives frame_data 2 (7 ∷ []) ∷ closes 0 ∷ opens ∷ []

run-handle_frame_example :
    Inv (run ops (new_session fresh))
    × ((t : Session) × (handle_frame frame_data 2 (8 ∷ []) (run ops (new_session fresh))
          ≡ returned tt t))
run-handle_frame_example = run-handle_frame fresh ops frame_data 2 (8 ∷ [])

abbrev state_of : {A : Type 0} → Ran Session A → Session
state_of (returned a t) = t
state_of (failed e t) = t

close_between_panics_example :
    handle_data (lookup 2 one_stream.streams) (8 ∷ []) (state_of (close_stream 0 one_stream))
    ≡ failed panicked (state_of (close_stream 0 one_stream))
unfolding close_stream remove_stream write_frame send_frame remote_close write lookup update delete
    new_session frame_header
close_between_panics_example =
    close_between_panics one_stream (state_of (close_stream 0 one_stream)) 2 0 8 [] refl refl refl

abbrev events : List Event
events = arrives (7 ∷ 8 ∷ []) ∷ ingests ∷ reads 1 ∷ arrives (9 ∷ []) ∷ []

steps_deliver_example :
    (((steps 2 0 events one_stream).1.cell 0).local_closed ≡ true)
    ⊎ ((steps 2 0 events one_stream).0 ++ pending 0 (steps 2 0 events one_stream).1
        ≡ pending 0 one_stream ++ 7 ∷ 8 ∷ 9 ∷ [])
unfolding lookup new_session
steps_deliver_example =
    steps_deliver 2 0 events one_stream
      (record { listed = refl; receiving = refl; unclosed = refl })

read_frame-write_frame_example :
    read_frame (record fresh { incoming = 2 ∷ 0 ∷ 0 ∷ 1 ∷ 2 ∷ 0 ∷ 0 ∷ 0 ∷ 1 ∷ 7 ∷ 9 ∷ [] })
    ≡ returned (2, 258, 7 ∷ []) (record fresh { incoming = 9 ∷ [] })
unfolding write_frame send_frame frame_header write new_session
read_frame-write_frame_example =
    read_frame-write_frame 2 258 (7 ∷ []) (9 ∷ []) (new_session fresh) _
      (record fresh { incoming = 2 ∷ 0 ∷ 0 ∷ 1 ∷ 2 ∷ 0 ∷ 0 ∷ 0 ∷ 1 ∷ 7 ∷ 9 ∷ [] }) (omega arith)
      (omega arith) tt refl refl refl refl
