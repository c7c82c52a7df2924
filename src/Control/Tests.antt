-- ===== src/Control/Tests.antt =====
-- A client with the right token, on concrete bytes.
use backhaul_recovered.Prelude.{
  refl, arith, Option, some, ◌≡◌, ℕ, true, false, [], ◌∷◌, List, ◌≢◌, arith, subst, sym,
}
use backhaul_recovered.Prelude.Text.{Str, codes}
use backhaul_recovered.Net.{Conn, eof, write, read_full}
use backhaul_recovered.Address.{original_wire_target}
use backhaul_recovered.Address.Tests.{wire_port}
use backhaul_recovered.Original.{
  write_signal, write_typed_string, write_full, write_loop, typed_frame, read_typed_string,
}
use backhaul_recovered.Original.Signal.{hello, tcp}
use backhaul_recovered.Control.{
  ServerState, new_server_state, handle_accepted, some, Ran, acquire_worker, returned, failed,
  Option, with_control, handshake, set_control, clear_control,
}
use backhaul_recovered.Control.Acquire.{Acquired, acquire_worker-Acquired}
use backhaul_recovered.Control.Auth.{Authentic, handle_accepted-Authentic}
use backhaul_recovered.Control.Run.{
  Op, accepts, shakes, clears, cancels, acquires, run, SaidHello, run-SaidHello, apply,
}

abbrev pub secret : Str
secret = codes "key"

abbrev pub network : ℕ → Conn
network h = record {
  incoming = 0 ∷ 3 ∷ hello ∷ secret;
  ends = eof;
  sent = [];
  script = [];
  is_closed = false;
}

abbrev pub server : ServerState
server = new_server_state secret network

handle_accepted-Authentic_example : Authentic 4 server (handle_accepted false 4 server)
handle_accepted-Authentic_example = handle_accepted-Authentic false 4 server

abbrev ops : List Op
ops = accepts false 4 ∷ []

abbrev later : List Op
later = shakes true 4 ∷ acquires (codes "80") tcp ∷ cancels ∷ clears 5 ∷ accepts false 4 ∷ []

run-SaidHello_example :
    SaidHello secret (network 4) × ((run later (clear_control 4 (run ops server))).control ≢ some 4)
unfolding new_server_state run apply handle_accepted handshake set_control read_typed_string
    read_full write_typed_string write_full write_loop typed_frame write
run-SaidHello_example = run-SaidHello ops later server 4 (λ e. cc e) refl

abbrev pub busy : ServerState
busy = record server { control = some 1; workers = 2 ∷ 3 ∷ [] }

abbrev pub state_after : {A : Type 0} → Ran ServerState A → ServerState
state_after (returned a t) = t
state_after (failed e t) = t

acquires_busy :
    (wire_target : Str)
    → wire_target ≡ codes "80"
    → with_control (some 1) wire_target tcp busy
      ≡ returned (some 2) (state_after (with_control (some 1) wire_target tcp busy))
unfolding write_signal write_typed_string write_full write_loop typed_frame write new_server_state
acquires_busy wire_target e =
    subst
      (λ (z : Str).
        with_control (some 1) z tcp busy
        ≡ returned (some 2) (state_after (with_control (some 1) z tcp busy)))
      (sym e) refl

-- The busy server hands out its first worker for a target that is sent as 80.
pub busy-acquire_worker :
    (target : Str)
    → original_wire_target target ≡ codes "80"
    → acquire_worker target tcp busy
      ≡ returned (some 2) (state_after (acquire_worker target tcp busy))
unfolding acquire_worker new_server_state
busy-acquire_worker target e = acquires_busy (original_wire_target target) e

acquire_worker-Acquired_example :
    (◌≡◌ {A = Option ℕ} (some 2) (some 2))
    × Acquired 1 2
        (3 ∷ [])
        (original_wire_target (codes "80"))
        tcp
        busy
        (state_after (acquire_worker (codes "80") tcp busy))
unfolding new_server_state
acquire_worker-Acquired_example =
    acquire_worker-Acquired 1 2 (3 ∷ []) (codes "80") tcp busy
      (state_after (acquire_worker (codes "80") tcp busy)) (some 2) (omega arith) refl refl
      (busy-acquire_worker (codes "80") wire_port)
