-- ===== src/Requests.antt =====
-- The servers and clients of the transports other than TCP (internal/tunnel/runner.go): how
-- runWorkerServer and runMuxServer take in control connections and ask for a target, and what
-- runWorkerLoop and serveMuxClientSession do with the request.
--
-- Connections and sessions stand in stores under numbers.
mod Tests
pub mod Lines
pub mod Workers
use backhaul_recovered.Prelude.{
  ℕ, Bool, true, false, Option, none, some, List, [], ◌∷◌, ◌++◌, length, ltb, ◌==◌, ◌&&◌,
  if◌then◌else◌,
}
use backhaul_recovered.Prelude.Text.{Str, str_eq, codes}
use backhaul_recovered.Strings.{trim_space, has_prefix, trim_prefix}
use backhaul_recovered.Net.{
  Conn, M, Ran, returned, failed, ◌>>=◌, ◌>>◌, pure, close, write_, on_error,
}
use backhaul_recovered.Handshake.{authenticate_control_conn, read_string}
use backhaul_recovered.Mux.{Session, new_session, open_stream, write_to_stream, close_stream}
use backhaul_recovered.Holder.{Holder, Pool, add, open_round, set_session}

abbrev pub role_worker : Str
role_worker = codes "WORKER"

abbrev pub role_mux : Str
role_mux = codes "MUX"

-- The line that asks for a target.
pub request : Bool → Str → Str
request udp target = if udp then codes "UDP " ++ (target ++ (10 ∷ [])) else target ++ (10 ∷ [])

-- `pool` is the channel workerPool of 512 places; `done` says that the context is done.
pub record WorkerServer : Type 0 where
  pub pool : List ℕ
  pub conn : ℕ → Conn
  pub done : Bool

abbrev pub set_conn : ℕ → Conn → WorkerServer → WorkerServer
set_conn h c s = record s { conn = λ g. if h == g then c else s.conn g }

abbrev pub close_conn : ℕ → WorkerServer → WorkerServer
close_conn h s = set_conn h (close (s.conn h)) s

-- The select of the handler: the Boolean says whether it is done; it waits where the channel is full.
abbrev pub enter_pool : Bool → ℕ → WorkerServer → Bool × WorkerServer
enter_pool prefer_done h s =
    if s.done && prefer_done
    then (true, close_conn h s)
    else if ltb (length s.pool) 512
    then (true, record s { pool = s.pool ++ h ∷ [] })
    else if s.done
    then (true, close_conn h s)
    else (false, s)

abbrev pub take_worker : Bool → ℕ → Ran Conn Str → WorkerServer → Bool × WorkerServer
take_worker prefer_done h (failed e c) s = (true, close_conn h (set_conn h c s))
take_worker prefer_done h (returned role c) s =
    let known = set_conn h c s in
    if str_eq role role_worker then enter_pool prefer_done h known else (true, close_conn h known)

-- The handler of runWorkerServer, on a control connection that was accepted.
pub handle_worker : Str → Bool → ℕ → WorkerServer → Bool × WorkerServer
handle_worker token prefer_done h s =
    take_worker prefer_done h (authenticate_control_conn token (s.conn h)) s

-- The loop of runWorkerServer's acquire functions over the workers: one that does not take the
-- request is closed. `none` stands for a caller that waits.
abbrev pub asked :
    ℕ → Ran Conn (Unit {0}) → WorkerServer → Option ℕ × WorkerServer → Option ℕ × WorkerServer
asked w (returned u c) s rest = (some w, set_conn w c s)
asked w (failed e c) s rest = rest

abbrev pub refuse : ℕ → Ran Conn (Unit {0}) → WorkerServer → WorkerServer
refuse w (returned u c) s = s
refuse w (failed e c) s = close_conn w (set_conn w c s)

pub acquire_from : List ℕ → Str → WorkerServer → Option ℕ × WorkerServer
acquire_from [] line s = (none, record s { pool = [] })
acquire_from (w ∷ ws) line s =
    let answer = write_ line (s.conn w) in
    let rest = acquire_from ws line (refuse w answer s) in
    asked w answer (record s { pool = ws }) rest

-- runWorkerServer's acquire functions, for a public connection and for UDP.
pub acquire : Bool → Str → WorkerServer → Option ℕ × WorkerServer
unfolding request acquire_from
acquire udp target s = acquire_from s.pool (request udp target) s

-- The sessions of runMuxServer and the connections that come to it.
pub record MuxServer : Type 0 where
  pub pool : Pool
  pub conn : ℕ → Conn

abbrev pub set_control_conn : ℕ → Conn → MuxServer → MuxServer
set_control_conn h c s = record s { conn = λ g. if h == g then c else s.conn g }

abbrev pub add_session : ℕ → Session → Pool → Pool
add_session h t p = let q = set_session h t p in record q { holder = add h q.holder }

-- A connection that does not authenticate or that has another role is closed; from one that is
-- taken in comes a session under the same number, which has the connection from then on.
abbrev pub take_session : ℕ → Ran Conn Str → MuxServer → MuxServer
take_session h (failed e c) s = set_control_conn h (close c) s
take_session h (returned role c) s =
    if str_eq role role_mux
    then record (set_control_conn h c s) { pool = add_session h (new_session c) s.pool }
    else set_control_conn h (close c) s

-- The handler of runMuxServer, on the connection `h` that was accepted.
pub handle_mux : Str → ℕ → MuxServer → MuxServer
handle_mux token h s = take_session h (authenticate_control_conn token (s.conn h)) s

-- What runMuxServer's acquire functions do with a stream: one that does not take the request is
-- closed.
abbrev pub stream_asked : ℕ × ℕ → Ran Session ℕ → Pool → Option (ℕ × ℕ) × Pool
stream_asked (s, stream) (returned n t) p = (some (s, stream), set_session s t p)
stream_asked (s, stream) (failed e t) p = elim (close_stream stream t) [
  | returned u v ↦ (none, set_session s v p)
  | failed x v ↦ (none, set_session s v p)
]

abbrev pub ask_stream : Str → Option (ℕ × ℕ) × Pool → Option (ℕ × ℕ) × Pool
ask_stream line (none, p) = (none, p)
ask_stream line (some (s, stream), p) =
    stream_asked (s, stream) (write_to_stream stream line (p.session s)) p

-- runMuxServer's acquire functions, with one round of OpenStream.
pub acquire_stream : Bool → Str → Pool → Option (ℕ × ℕ) × Pool
unfolding request
acquire_stream udp target p = ask_stream (request udp target) (open_round p)

-- What a client does with a request: it dials the target or relays datagrams to it.
pub data Order : Type 0 where
  dials relays : Str → Order

pub order_of : Str → Order
order_of line =
    let target = trim_space line in
    if has_prefix (codes "UDP ") target
    then relays (trim_space (trim_prefix (codes "UDP ") target))
    else dials target

-- The part of runWorkerLoop and of the goroutine of serveMuxClientSession from the read of the
-- request to the dial: a connection that gives no line is closed.
pub read_order : M Conn Order
unfolding order_of
read_order = on_error close (read_string >>= λ line. pure (order_of line))
