-- ===== src/Mux.antt =====
-- simpleMuxSession and simpleMuxStream (internal/tunnel/runner.go): many streams over one
-- connection. A frame is a type, a stream number in four bytes, a length in four, and the payload.
--
-- Streams are shared: the session's table, the accept queue and their users point at them. They
-- stand in a store under handles, and `add_stream` takes the next one. A Go channel is the
-- list of what was sent and not yet received, with its capacity tested where the code sends.
mod Tests
pub mod Streams
pub mod Codec
pub mod Safety
pub mod Frames
pub mod Invariant
pub mod Delivery
pub mod Run
use backhaul_recovered.Prelude.{
  ℕ, zero, suc, ◌+◌, ◌%◌, ◌^◌, Bool, true, false, Option, none, some, List, [], ◌∷◌, ◌++◌, length,
  take, drop, ltb, ◌==◌, if◌then◌else◌, not, get_or,
}
use backhaul_recovered.Prelude.Text.{Str}
use backhaul_recovered.Net.{
  Conn, M, ◌>>=◌, ◌>>◌, pure, throw, returned, failed, zoom, ignore, on_error, read_full, write_,
  put_uint32, uint32, eof, close, panicked,
}
use backhaul_recovered.Stream.{write_chunks, write_stream}
use Streams.{lookup, insert, delete, update}

abbrev pub frame_open : ℕ
frame_open = 1

abbrev pub frame_data : ℕ
frame_data = 2

abbrev pub frame_close : ℕ
frame_close = 3

-- `queue` is readCh (256 places) and `queue_closed` says that it was closed, by closeOnce.
pub record MuxStream : Type 0 where
  pub id : ℕ
  pub queue : List Str
  pub queue_closed : Bool
  pub read_buf : Str
  pub read_closed : Bool
  pub local_closed : Bool

-- `accept_queue` is acceptCh (1024 places); `closed` is also the state of the channel `done`.
pub record Session : Type 0 where
  pub conn : Conn
  pub streams : List (ℕ × ℕ)
  pub cell : ℕ → MuxStream
  pub next_handle : ℕ
  pub accept_queue : List ℕ
  pub next_id : ℕ
  pub closed : Bool

abbrev pub on_conn : {A : Type 0} → M Conn A → M Session A
on_conn = zoom (λ s. s.conn) (λ c s. record s { conn = c })

abbrev pub empty_stream : ℕ → MuxStream
empty_stream id = record {
  id = id;
  queue = [];
  queue_closed = false;
  read_buf = [];
  read_closed = false;
  local_closed = false;
}

-- newSimpleMuxSession
pub new_session : Conn → Session
new_session conn = record {
  conn = conn;
  streams = [];
  cell = λ _. empty_stream 0;
  next_handle = 0;
  accept_queue = [];
  next_id = 1;
  closed = false;
}

-- newSimpleMuxStream, and its entry in the table: `streams[id] = st`.
pub add_stream : ℕ → Session → Session
add_stream id s = record s {
  streams = insert id s.next_handle s.streams;
  cell = update s.cell s.next_handle (empty_stream id);
  next_handle = s.next_handle + 1;
}

-- simpleMuxSession.removeStream
pub remove_stream : ℕ → Session → Session
remove_stream id s = record s { streams = delete id s.streams }

-- simpleMuxStream.remoteClose
pub remote_close : ℕ → Session → Session
remote_close h s = record s { cell = update s.cell h (record (s.cell h) { queue_closed = true }) }

-- simpleMuxSession.writeFrame, with the stream's number and the length in four bytes each.
pub frame_header : ℕ → ℕ → ℕ → Str
frame_header ft id n = ft ∷ (put_uint32 id ++ put_uint32 n)

pub send_frame : ℕ → ℕ → Str → M Session (Unit {0})
send_frame ft id payload = do
  on_conn (write_ (frame_header ft id (length payload)))
  if length payload == 0 then pure tt else on_conn (write_ payload)

pub write_frame : ℕ → ℕ → Str → M Session (Unit {0})
write_frame ft id payload s = if s.closed then failed eof s else send_frame ft id payload s

-- simpleMuxStream.Close, of the stream under the handle `h`.
pub close_stream : ℕ → M Session (Unit {0})
close_stream h s =
    if (s.cell h).local_closed
    then returned tt s
    else (do ignore (write_frame frame_close (s.cell h).id []); λ t. returned tt (remote_close h t))
        (remove_stream (s.cell h).id
          (record s { cell = update s.cell h (record (s.cell h) { local_closed = true }) }))

-- simpleMuxStream.pushData. A send on a closed channel panics.
pub push_data : ℕ → Str → M Session (Unit {0})
push_data h p s =
    if length p == 0
    then returned tt s
    else if (s.cell h).queue_closed
    then failed panicked s
    else if ltb (length (s.cell h).queue) 256
    then returned tt (record s {
      cell = update s.cell h (record (s.cell h) { queue = (s.cell h).queue ++ p ∷ [] });
    })
    else close_stream h s

-- The close of every stream that stands in the table.
pub close_all : List (ℕ × ℕ) → Session → Session
close_all [] s = s
close_all ((id, h) ∷ rest) s = close_all rest (remote_close h s)

-- simpleMuxSession.Close
pub close_session : Session → Session
close_session s =
    if s.closed
    then s
    else record (close_all s.streams (record s { closed = true; conn = close s.conn })) {
      streams = [];
    }

-- simpleMuxSession.OpenStream: the handle of the new stream.
pub open_stream : M Session ℕ
open_stream s =
    if s.closed
    then failed eof s
    else let id = (s.next_id + 1) % 2 ^ 32 in
      (do on_error (remove_stream id) (write_frame frame_open id []); pure s.next_handle)
        (add_stream id (record s { next_id = id }))

-- The frameOpen case of simpleMuxSession.handleFrame.
pub handle_open : ℕ → M Session (Unit {0})
handle_open id s =
    if ltb (length s.accept_queue) 1024
    then returned tt
        (record (add_stream id s) { accept_queue = s.accept_queue ++ s.next_handle ∷ [] })
    else close_stream s.next_handle (add_stream id s)

-- The frameData and frameClose cases, on the stream that getStream finds.
pub handle_data : Option ℕ → Str → M Session (Unit {0})
handle_data none payload = pure tt
handle_data (some h) payload = push_data h payload

pub handle_close : Option ℕ → ℕ → M Session (Unit {0})
handle_close none id s = returned tt s
handle_close (some h) id s = returned tt (remove_stream id (remote_close h s))

-- simpleMuxSession.handleFrame
pub handle_frame : ℕ → ℕ → Str → M Session (Unit {0})
handle_frame ft id payload s =
    if ft == frame_open
    then handle_open id s
    else if ft == frame_data
    then handle_data (lookup id s.streams) payload s
    else if ft == frame_close
    then handle_close (lookup id s.streams) id s
    else returned tt s

-- One frame off the connection, as simpleMuxSession.readLoop reads it.
pub read_frame : M Conn (ℕ × ℕ × Str)
read_frame = do
  hdr ← read_full 9
  let n = uint32 (drop 5 hdr)
  payload ← if n == 0 then pure [] else read_full n
  pure (get_or hdr 0 0, uint32 (drop 1 hdr), payload)

-- One round of readLoop: a connection that fails closes the session and ends the loop.
pub read_loop_round : M Session (Unit {0})
read_loop_round = do
  (ft, id, payload) ← on_error close_session (on_conn read_frame)
  handle_frame ft id payload

-- One round of simpleMuxStream.ingestLoop: a chunk goes from the channel to the buffer, and a
-- closed channel that is empty ends the reads.
pub ingest_round : List Str → ℕ → Session → Session
ingest_round (p ∷ ps) h s = record s {
  cell = update s.cell h (record (s.cell h) { queue = ps; read_buf = (s.cell h).read_buf ++ p });
}
ingest_round [] h s =
    if (s.cell h).queue_closed
    then record s { cell = update s.cell h (record (s.cell h) { read_closed = true }) }
    else s

pub ingest : ℕ → Session → Session
unfolding ingest_round
ingest h s = ingest_round (s.cell h).queue h s

-- simpleMuxStream.Read into `m` bytes. `none` stands for a reader that waits.
pub read_stream_from : Str → ℕ → ℕ → M Session (Option Str)
read_stream_from [] h m s = if (s.cell h).read_closed then failed eof s else returned none s
read_stream_from (x ∷ xs) h m s =
    returned (some (take m (x ∷ xs)))
      (record s { cell = update s.cell h (record (s.cell h) { read_buf = drop m (x ∷ xs) }) })

pub read_stream : ℕ → ℕ → M Session (Option Str)
unfolding read_stream_from
read_stream h m s = read_stream_from (s.cell h).read_buf h m s

-- simpleMuxStream.Write
pub write_to_stream : ℕ → Str → M Session ℕ
write_to_stream h p s =
    if (s.cell h).local_closed
    then failed eof s
    else if s.closed
    then failed eof s
    else write_stream (write_frame frame_data (s.cell h).id) 32768 p s

-- simpleMuxSession.Accept with nothing cancelled; `prefer_done` is the choice of `select` where a
-- stream waits in a session that is closed. `none` stands for a caller that waits.
pub accept_from : List ℕ → Bool → M Session (Option ℕ)
accept_from [] prefer_done s = if s.closed then failed eof s else returned none s
accept_from (h ∷ hs) prefer_done s =
    if s.closed
    then if prefer_done then failed eof s else returned (some h) (record s { accept_queue = hs })
    else returned (some h) (record s { accept_queue = hs })

pub accept : Bool → M Session (Option ℕ)
unfolding accept_from
accept prefer_done s = accept_from s.accept_queue prefer_done s
