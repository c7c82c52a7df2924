-- ===== src/Control/Acquire.antt =====
-- acquireWorker (internal/tunnel/original_protocol.go): what it hands out and what it has sent.
use backhaul_recovered.Prelude.{
  ℕ, ◌≡◌, ◌≢◌, refl, sym, ap, ◌∙◌, Option, some, List, [], ◌∷◌, ◌++◌, arith, length, ◌≤◌,
}
use backhaul_recovered.Prelude.Text.{Str}
use backhaul_recovered.Net.{Conn, Ran, returned, failed, ◌>>=◌, on_error, pure}
use backhaul_recovered.Address.{original_wire_target}
use backhaul_recovered.Original.{write_typed_string, typed_frame, write_signal}
use backhaul_recovered.Original.Frames.{
  write_typed_string_sent, write_typed_string_fits, write_signal_sent,
}
use backhaul_recovered.Original.Signal.{channel}
use backhaul_recovered.Control.{
  ServerState, on_conn, set_conn, close_conn, clear_control, use_worker, with_control,
  acquire_worker,
}

-- The worker `w` was taken from the front of the queue, the connection `h` was asked for another
-- one, and the worker was told its signal and target.
pub record Acquired (h w : ℕ) (ws : List ℕ) (target : Str) (signal : ℕ) (s t : ServerState)
    : Type 0 where
  pub others : t.workers ≡ ws
  pub control_kept : t.control ≡ s.control
  pub told : (t.conn w).sent ≡ (s.conn w).sent ++ typed_frame signal target
  pub fits : length target ≤ 65535
  pub asked : (t.conn h).sent ≡ (s.conn h).sent ++ channel ∷ []

used :
    (h w : ℕ) (ws : List ℕ) (target : Str) (signal : ℕ) (s t : ServerState) (c : Conn)
    (o : Option ℕ)
    → h ≢ w
    → c.sent ≡ (s.conn h).sent ++ channel ∷ []
    → use_worker (w ∷ ws) target signal (set_conn h c s) ≡ returned o t
    → (o ≡ some w) × Acquired h w ws target signal s t
used h w ws target signal s t c o n e q =
    go (write_typed_string signal target ((set_conn h c s).conn w)) refl q
  where
    go :
        (r : Ran Conn (Unit {0}))
        → write_typed_string signal target ((set_conn h c s).conn w) ≡ r
        → on_error
            (close_conn w)
            (on_conn w (λ (k : Conn). r) >>= λ _. pure (some w))
            (record (set_conn h c s) { workers = ws })
          ≡ returned o t
        → (o ≡ some w) × Acquired h w ws target signal s t
    go (failed x d) p f = cc f
    go (returned u d) p f =
        let told = write_typed_string_sent signal target ((set_conn h c s).conn w) d p in
        (
          cc,
          record {
            others = ground (arith, f);
            control_kept = ground (arith, f);
            told = ground (arith, f, told, n);
            fits = write_typed_string_fits signal target ((set_conn h c s).conn w) d p;
            asked = ground (arith, f, e, n);
          },
        )

with_control_used :
    (h w : ℕ) (ws : List ℕ) (target : Str) (signal : ℕ) (s t : ServerState) (o : Option ℕ)
    → h ≢ w
    → s.workers ≡ w ∷ ws
    → with_control (some h) target signal s ≡ returned o t
    → (o ≡ some w) × Acquired h w ws target signal s t
with_control_used h w ws target signal s t o n q e = go (write_signal channel (s.conn h)) refl e
  where
    go :
        (r : Ran Conn (Unit {0}))
        → write_signal channel (s.conn h) ≡ r
        → ((on_error (clear_control h) (on_conn h (λ (k : Conn). r)) >>= λ _ u.
              use_worker u.workers target signal u)
            s)
          ≡ returned o t
        → (o ≡ some w) × Acquired h w ws target signal s t
    go (failed x d) p f = cc f
    go (returned u d) p f =
        used h w ws target signal s t d o n (write_signal_sent channel (s.conn h) d p)
          (ap (λ z. use_worker z target signal (set_conn h d s)) (sym q) ∙ f)

-- Where acquireWorker reports success with a control connection `h` and a worker `w` at the front
-- of the queue, it hands out `w`, the queue has lost `w` and nothing else, the control connection
-- is kept and was asked for one more channel, and `w` was told the signal and
-- the target as originalWireTarget puts it.
pub acquire_worker-Acquired :
    (h w : ℕ) (ws : List ℕ) (target : Str) (signal : ℕ) (s t : ServerState) (o : Option ℕ)
    → h ≢ w
    → s.control ≡ some h
    → s.workers ≡ w ∷ ws
    → acquire_worker target signal s ≡ returned o t
    → (o ≡ some w) × Acquired h w ws (original_wire_target target) signal s t
unfolding acquire_worker
acquire_worker-Acquired h w ws target signal s t o n c q e =
    with_control_used h w ws (original_wire_target target) signal s t o n q
      (ap (λ z. with_control z (original_wire_target target) signal s) (sym c) ∙ e)
