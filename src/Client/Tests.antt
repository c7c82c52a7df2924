-- ===== src/Client/Tests.antt =====
-- The client of the TCP transport on concrete bytes.
use backhaul_recovered.Prelude.{◌≡◌, refl, ℕ, true, false, Option, some, [], ◌∷◌, ◌++◌, arith}
use backhaul_recovered.Prelude.Text.{Str, codes}
use backhaul_recovered.Prelude.Result.{ok}
use backhaul_recovered.Strings.{is_space, contains_byte, itoa}
use backhaul_recovered.Net.{Conn, eof}
use backhaul_recovered.Original.{typed_frame}
use backhaul_recovered.Original.Signal as Signal
use backhaul_recovered.Address.{no_brackets, join_host_port}
use backhaul_recovered.Address.Tests.{wire_localhost}
use backhaul_recovered.Control.{ServerState, new_server_state, handle_accepted, acquire_worker}
use backhaul_recovered.Control.Tests.{secret, busy, state_after, busy-acquire_worker}
use backhaul_recovered.Client.{Client, run_control, job, run_original_worker}
use backhaul_recovered.Client.Loop.{Answered, run_control-Answered}
use backhaul_recovered.Client.Worker.{dialed, run_original_worker-acquire_worker}

abbrev with_bytes : Str → Conn
with_bytes bytes = record {
  incoming = bytes;
  ends = eof;
  sent = [];
  script = [];
  is_closed = false;
}

abbrev signalled : Client
signalled = record {
  control = with_bytes (Signal.rtt ∷ Signal.channel ∷ Signal.heartbeat ∷ Signal.closed ∷ []);
  spawned = 8;
}

run_control-Answered_example : Answered signalled (run_control signalled)
run_control-Answered_example = run_control-Answered signalled refl refl (λ e. cc)

abbrev worker : Conn
worker = with_bytes (
    ((state_after
        (acquire_worker (join_host_port (codes "localhost") (itoa 80)) Signal.tcp busy)).conn
      2).sent
    ++ [])

run_original_worker-acquire_worker_example :
    (◌≡◌ {A = Option ℕ} (some 2) (some 2))
    × (run_original_worker worker
        ≡ job Signal.tcp (ok (dialed (codes "localhost") 80)) (record worker { incoming = [] }))
unfolding is_space no_brackets contains_byte new_server_state
run_original_worker-acquire_worker_example =
    run_original_worker-acquire_worker 1 2 (3 ∷ []) (codes "localhost") [] 80 Signal.tcp busy
      (state_after (acquire_worker (join_host_port (codes "localhost") (itoa 80)) Signal.tcp busy))
      (some 2) worker (omega arith) refl refl refl
      (refl, (refl, (refl, (refl, (refl, (refl, (refl, (refl, (refl, tt))))))))) refl (omega arith)
      (omega arith)
      (busy-acquire_worker (join_host_port (codes "localhost") (itoa 80)) wire_localhost) refl refl

abbrev greeting : ServerState
greeting = new_server_state secret (λ h. with_bytes (typed_frame Signal.hello secret))

abbrev dialer : Conn
dialer = with_bytes (((handle_accepted true 4 greeting).conn 4).sent)
