-- ===== src/Control.antt =====
-- originalServerState (internal/tunnel/original_protocol.go): the control connection of the TCP
-- server, the handshake that sets it up, and the queue of workers.
--
-- Connections stand in a store under numbers, since the state, the queue and the goroutines point
-- at them; `workers` is the channel of 512 places. A goroutine may stop between the two tests of
-- handleAccepted, so `handshake` is a step of its own.
pub mod Tests
pub mod Auth
pub mod Answer
pub mod Clear
pub mod Acquire
pub mod Run
use backhaul_recovered.Prelude.{
  ℕ, suc, Bool, true, false, Option, none, some, List, [], ◌∷◌, ◌++◌, length, ltb, ◌==◌, ◌&&◌,
  if◌then◌else◌,
}
use backhaul_recovered.Prelude.Text.{Str, str_eq}
use backhaul_recovered.Net.{
  Conn, M, Ran, Error, returned, failed, zoom, ◌>>=◌, ◌>>◌, close, on_error, pure,
}
use backhaul_recovered.Address.{original_wire_target}
use backhaul_recovered.Original.{write_typed_string, read_typed_string, write_signal}
use backhaul_recovered.Original.Signal.{hello, channel}

pub record ServerState : Type 0 where
  pub token : Str
  pub workers : List ℕ
  pub control : Option ℕ
  pub conn : ℕ → Conn
  pub done : Bool

-- newOriginalServerState
unfoldable pub new_server_state : Str → (ℕ → Conn) → ServerState
new_server_state token conn = record {
  token = token;
  workers = [];
  control = none;
  conn = conn;
  done = false;
}

abbrev pub set_conn : ℕ → Conn → ServerState → ServerState
set_conn h c s = record s { conn = λ g. if h == g then c else s.conn g }

abbrev pub on_conn : {A : Type 0} → ℕ → M Conn A → M ServerState A
on_conn h = zoom (λ s. s.conn h) (set_conn h)

abbrev pub close_conn : ℕ → ServerState → ServerState
close_conn h s = set_conn h (close (s.conn h)) s

-- originalServerState.setControl: the Boolean says whether the control connection was free.
abbrev pub set_free : Option ℕ → ℕ → ServerState → Bool × ServerState
set_free none h s = (true, record s { control = some h })
set_free (some g) h s = (false, s)

pub set_control : ℕ → ServerState → Bool × ServerState
set_control h s = set_free s.control h s

abbrev pub is_control : ℕ → Option ℕ → Bool
is_control h none = false
is_control h (some g) = h == g

-- originalServerState.clearControl
pub clear_control : ℕ → ServerState → ServerState
clear_control h s = close_conn h (if is_control h s.control then record s { control = none } else s)

-- originalServerState.enqueueWorker; `prefer_done` is the choice of `select` where the context is
-- done and a place is free.
pub enqueue_worker : Bool → ℕ → ServerState → ServerState
enqueue_worker prefer_done h s =
    if s.done && prefer_done
    then close_conn h s
    else if ltb (length s.workers) 512
    then record s { workers = s.workers ++ h ∷ [] }
    else close_conn h s

-- What handleAccepted does behind the answer to the hello.
abbrev pub install : Bool → ℕ → Bool × ServerState → ServerState
install prefer_done h (true, s) = s
install prefer_done h (false, s) = enqueue_worker prefer_done h s

abbrev pub answered : Bool → ℕ → Ran Conn (Unit {0}) → ServerState → ServerState
answered prefer_done h (returned u c) s = install prefer_done h (set_control h (set_conn h c s))
answered prefer_done h (failed e c) s = close_conn h (set_conn h c s)

abbrev pub greeted : Bool → ℕ → Ran Conn (Str × ℕ) → ServerState → ServerState
greeted prefer_done h (failed e c) s = close_conn h (set_conn h c s)
greeted prefer_done h (returned (token, signal) c) s =
    if signal == hello && str_eq token s.token
    then answered prefer_done h (write_typed_string channel s.token c) s
    else close_conn h (set_conn h c s)

-- The part of handleAccepted that runs under handshakeMu.
abbrev pub handshake_free : Option ℕ → Bool → ℕ → ServerState → ServerState
handshake_free (some g) prefer_done h s = enqueue_worker prefer_done h s
handshake_free none prefer_done h s = greeted prefer_done h (read_typed_string (s.conn h)) s

pub handshake : Bool → ℕ → ServerState → ServerState
handshake prefer_done h s = handshake_free s.control prefer_done h s

-- originalServerState.handleAccepted with nothing between its two tests.
abbrev pub accepted_free : Option ℕ → Bool → ℕ → ServerState → ServerState
accepted_free (some g) prefer_done h s = enqueue_worker prefer_done h s
accepted_free none prefer_done h s = handshake prefer_done h s

pub handle_accepted : Bool → ℕ → ServerState → ServerState
handle_accepted prefer_done h s = accepted_free s.control prefer_done h s

-- The last part of acquireWorker: `none` is a caller that waits for a worker.
abbrev pub use_worker : List ℕ → Str → ℕ → M ServerState (Option ℕ)
use_worker [] wire_target signal s = returned none s
use_worker (w ∷ ws) wire_target signal s =
    on_error (close_conn w)
      (on_conn w (write_typed_string signal wire_target) >>= λ _. pure (some w))
      (record s { workers = ws })

abbrev pub with_control : Option ℕ → Str → ℕ → M ServerState (Option ℕ)
with_control none wire_target signal s = returned none s
with_control (some h) wire_target signal s =
    (on_error (clear_control h) (on_conn h (write_signal channel)) >>= λ _ t.
    use_worker t.workers wire_target signal t)
      s

-- originalServerState.acquireWorker, a pass that does not wait: `none` is a caller that waits for a
-- control connection or a worker.
pub acquire_worker : Str → ℕ → M ServerState (Option ℕ)
acquire_worker target signal s = with_control s.control (original_wire_target target) signal s
