-- ===== src/Client/Worker.antt =====
-- A request of the server of the TCP transport and the worker that gets it
-- (internal/tunnel/original_protocol.go).
use backhaul_recovered.Prelude.{
  ◌≡◌, ◌≢◌, ap, ◌∙◌, ℕ, ◌≤◌, true, false, Option, some, List, [], ◌∷◌, ◌++◌, length, if◌then◌else◌,
}
use backhaul_recovered.Prelude.Text.{Str, codes}
use backhaul_recovered.Prelude.Result.{ok}
use backhaul_recovered.Strings.{itoa}
use backhaul_recovered.Net.{Conn, Ran, returned, ◌>>=◌}
use backhaul_recovered.Original.{typed_frame}
use backhaul_recovered.Original.Frames.{read-typed_frame}
use backhaul_recovered.Control.{ServerState, acquire_worker}
use backhaul_recovered.Control.Acquire.{acquire_worker-Acquired}
use backhaul_recovered.Address.{join_host_port, no_brackets, is_local, original_wire_target}
use backhaul_recovered.Address.Targets.{NoBlank, normalize-original_wire_target}
use backhaul_recovered.Client.{job, job_of, run_original_worker}

-- The address that the worker dials for a target.
abbrev pub dialed : Str → ℕ → Str
dialed host p = join_host_port (if is_local host then codes "127.0.0.1" else host) (itoa p)

-- A worker that has been told a target.
told_target :
    (host rest : Str) (p signal : ℕ) (r : Conn)
    → NoBlank host
    → no_brackets host ≡ true
    → 1 ≤ p
    → p ≤ 65535
    → length (original_wire_target (join_host_port host (itoa p))) ≤ 65535
    → r.is_closed ≡ false
    → r.incoming ≡ typed_frame signal (original_wire_target (join_host_port host (itoa p))) ++ rest
    → run_original_worker r ≡ job signal (ok (dialed host p)) (record r { incoming = rest })
unfolding run_original_worker
told_target host rest p signal r w b l u f o e =
    let wire_target : Str = original_wire_target (join_host_port host (itoa p)) in
    ap (λ (z : Ran Conn (Str × ℕ)). ((λ (c : Conn). z) >>= job_of) r)
      (read-typed_frame signal wire_target rest r f o e)
    ∙ ap (λ z. job signal z (record r { incoming = rest }))
        (normalize-original_wire_target host p w b l u)

-- A target of a host without blanks and brackets and of a port from 1 to 65535, that acquireWorker
-- reports as handed to the worker `w` at the front of the queue, on a connection to which the
-- server had sent nothing before: the client's worker at the other end gets the signal and the
-- target, with 127.0.0.1 for an empty host, localhost and ::1, and has read no byte behind them.
pub run_original_worker-acquire_worker :
    (h w : ℕ) (ws : List ℕ) (host rest : Str) (p signal : ℕ) (s t : ServerState) (o : Option ℕ)
    (r : Conn)
    → h ≢ w
    → s.control ≡ some h
    → s.workers ≡ w ∷ ws
    → (s.conn w).sent ≡ []
    → NoBlank host
    → no_brackets host ≡ true
    → 1 ≤ p
    → p ≤ 65535
    → acquire_worker (join_host_port host (itoa p)) signal s ≡ returned o t
    → r.is_closed ≡ false
    → r.incoming ≡ (t.conn w).sent ++ rest
    → (o ≡ some w)
      × (run_original_worker r ≡ job signal (ok (dialed host p)) (record r { incoming = rest }))
run_original_worker-acquire_worker h w ws host rest p signal s t o r n c q fresh v b l u e k i =
    let target : Str = join_host_port host (itoa p) in
    let (handed, a) = acquire_worker-Acquired h w ws target signal s t o n c q e in
    (
      handed,
      told_target host rest p signal r v b l u a.fits k (
          i
          ∙ ap (λ (z : Str). z ++ rest)
              (a.told
                ∙ ap (λ (z : Str). z ++ typed_frame signal (original_wire_target target)) fresh)),
    )
