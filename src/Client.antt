-- ===== src/Client.antt =====
-- The client of the TCP transport (internal/tunnel/original_protocol.go): runOriginalTCPClient,
-- which dials the control connection and answers its signals, and runOriginalWorker.
--
-- A dial that fails, the wait before the next one and the deadline of the handshake stand as the
-- list of what the dials give; a worker that is started is counted.
mod Tests
pub mod Loop
pub mod Greeting
pub mod Worker
use backhaul_recovered.Prelude.{
  ℕ, zero, suc, ◌+◌, Bool, true, false, Option, none, some, List, [], ◌∷◌, length, ◌==◌, ◌&&◌,
  if◌then◌else◌,
}
use backhaul_recovered.Prelude.Text.{Str, str_eq}
use backhaul_recovered.Prelude.Result.{Result, ok, err}
use backhaul_recovered.Net.{
  Conn, M, Ran, Error, returned, failed, zoom, ◌>>=◌, ◌>>◌, pure, throw, close, closed, on_error,
  invalid_hello, invalid_target, stuck,
}
use backhaul_recovered.Original.{write_typed_string, read_typed_string, write_signal, read_signal}
use backhaul_recovered.Original.Signal as Signal
use backhaul_recovered.Address.{normalize_original_target}
use backhaul_recovered.Address as Address

-- The handshake of runOriginalTCPClient on a connection that was dialed: the hello and the test of
-- the answer.
abbrev pub test_answer : Str → Str × ℕ → M Conn (Unit {0})
test_answer token (answer, signal) =
    if signal == Signal.channel && str_eq answer token then pure tt else throw invalid_hello

pub greet : Str → M Conn (Unit {0})
greet token =
    on_error close
      (write_typed_string Signal.hello token >> read_typed_string >>= test_answer token)

-- The loop of the dials: the first connection on which the handshake succeeds.
pub connect : Str → List (Option Conn) → Option Conn
unfolding greet
connect token [] = none
connect token (none ∷ dials) = connect token dials
connect token (some c ∷ dials) =
    let rest = connect token dials in
    elim (greet token c) [ returned u d ↦ some d | failed e d ↦ rest ]

pub record Client : Type 0 where
  pub control : Conn
  pub spawned : ℕ

abbrev pub on_control : {A : Type 0} → M Conn A → M Client A
on_control = zoom (λ s. s.control) (λ c s. record s { control = c })

-- A read that finds the connection closed ends the client without an error.
abbrev pub or_closed : Ran Client ℕ → Ran Client (Option ℕ)
or_closed (returned signal s) = returned (some signal) s
or_closed (failed closed s) = returned none s
or_closed (failed e s) = failed e s

-- What the loop does with a signal; `true` where it goes on.
pub answer : ℕ → M Client Bool
answer signal s =
    if signal == Signal.channel
    then returned true (record s { spawned = s.spawned + 1 })
    else if signal == Signal.rtt
    then (on_control (write_signal Signal.rtt) >> pure true) s
    else if signal == Signal.heartbeat
    then (on_control (write_signal Signal.heartbeat) >> pure true) s
    else if signal == Signal.closed
    then returned false s
    else returned true s

abbrev pub answer_to : Option ℕ → M Client Bool
answer_to none s = returned false s
answer_to (some signal) s = answer signal s

pub control_round : M Client Bool
control_round = (λ s. or_closed (on_control read_signal s)) >>= answer_to

-- The loop over the signals. Each round but the last takes a byte.
pub control_loop : ℕ → M Client (Unit {0})
unfolding control_round
control_loop zero = throw stuck
control_loop (suc fuel) =
    let rest = control_loop fuel in control_round >>= λ goes_on. if goes_on then rest else pure tt

-- The part of runOriginalTCPClient behind the dials.
pub run_control : M Client (Unit {0})
unfolding control_loop
run_control s = control_loop (suc (length s.control.incoming)) s

pub data Job : Type 0 where
  dials_tcp relays_udp : Str → Job
  no_job : Job

abbrev pub job : ℕ → Result Address.Error Str → M Conn Job
job signal (err e) = throw invalid_target
job signal (ok target) =
    if signal == Signal.tcp
    then pure (dials_tcp target)
    else if signal == Signal.udp
    then pure (relays_udp target)
    else pure no_job

abbrev pub job_of : Str × ℕ → M Conn Job
job_of (target, signal) = job signal (normalize_original_target target)

-- runOriginalWorker up to the dial of the target.
pub run_original_worker : M Conn Job
run_original_worker = read_typed_string >>= job_of
