-- ===== src/Monitor/Timing.antt =====
-- When a monitor gives up, and what it leaves behind (internal/tunnel/original_protocol.go).
use backhaul_recovered.Prelude.{
  ◌≡◌, refl, sym, ◌∙◌, ℕ, ◌+◌, Bool, true, false, List, [], ◌∷◌, leb, ltb, ◌==◌, ◌||◌, arith,
  if◌then◌else◌, Bool-cases, inl, inr, not, ◌&&◌, ◌++◌,
}
use backhaul_recovered.Prelude.Text.{Str}
use backhaul_recovered.Prelude.Int.{ℤ}
use backhaul_recovered.Net.{Conn, Ran, returned, failed}
use backhaul_recovered.Original.{read_signal, write_signal}
use backhaul_recovered.Original.Signal as Signal
use backhaul_recovered.Control.{ServerState, set_conn}
use backhaul_recovered.Monitor.{
  Monitor, Event, passes, reads, stops, ends, ticks, gets, expires, others, start, finish,
  or_seconds, heard, beat, take_signal, say_closed, react, step, run, is_full,
}

-- The time since the last heartbeat that the loop took, or since the start: `q` before the event.
abbrev pub quiet_signal : Str → ℕ → ℕ
quiet_signal [] q = q
quiet_signal (signal ∷ rest) q = if signal == Signal.heartbeat then 0 else q

abbrev pub quiet_step : Event → Monitor → ℕ → ℕ
quiet_step (passes n) m q = q + n
quiet_step gets m q = quiet_signal m.signals q
quiet_step (reads b) m q = q
quiet_step stops m q = q
quiet_step ends m q = q
quiet_step ticks m q = q
quiet_step expires m q = q
quiet_step (others change) m q = q

unfoldable pub quiet : ℕ → List Event → Monitor → ℕ → ℕ
quiet h [] m q = q
quiet h (e ∷ es) m q = quiet h es (step h e m) (quiet_step e m q)

-- The timer was set when the quiet began.
pub record Timed (length q : ℕ) (m : Monitor) : Type 0 where
  pub timer : m.running ≡ true → m.deadline + q ≡ m.now + length
  pub kept : m.timeout ≡ length

heard-Timed :
    (z h q : ℕ) (b : Bool) (r : Ran Conn ℕ) (m : Monitor)
    → m.deadline + q ≡ m.now + z
    → m.timeout ≡ z
    → Timed z q (heard b h r m)
heard-Timed z h q b (returned signal c) m t k =
    elim (m.server.done && b)
      as (λ d. Timed z q (
        if d
        then record m { server = set_conn h c m.server; reader_done = true }
        else record m { server = set_conn h c m.server; signals = m.signals ++ signal ∷ [] })) [
          | true ↦ record { timer = λ u. t; kept = k }
          | false ↦ record { timer = λ u. t; kept = k }
        ]
heard-Timed z h q b (failed e c) m t k = record { timer = λ u. t; kept = k }

beat-Timed :
    (z h q : ℕ) (r : Ran Conn (Unit {0})) (m : Monitor)
    → m.deadline + q ≡ m.now + z
    → m.timeout ≡ z
    → Timed z q (beat h r m)
beat-Timed z h q (returned b c) m t k = record { timer = λ u. t; kept = k }
beat-Timed z h q (failed e c) m t k = record { timer = λ u. t; kept = k }

take_signal-Timed :
    (z h q : ℕ) (signals : Str) (m : Monitor)
    → m.deadline + q ≡ m.now + z
    → m.timeout ≡ z
    → Timed z (quiet_signal signals q) (take_signal h signals m)
take_signal-Timed z h q [] m t k = record { timer = λ u. t; kept = k }
take_signal-Timed z h q (b ∷ rest) m t k = elim (Bool-cases (b == Signal.closed)) [
  | inl c ↦ record { timer = λ u. ground (arith, c, u, k); kept = ground (arith, c, k) }
  | inr n ↦ elim (Bool-cases (b == Signal.heartbeat)) [
    | inl beat ↦ record {
      timer = λ u. ground (arith, beat, n, k);
      kept = ground (arith, beat, n, k);
    }
    | inr other ↦ record {
      timer = λ u. ground (arith, other, n, t, k);
      kept = ground (arith, other, n, k);
    }
  ]
]

react-Timed :
    (z h : ℕ) (e : Event) (m : Monitor) (q : ℕ)
    → m.deadline + q ≡ m.now + z
    → m.timeout ≡ z
    → Timed z (quiet_step e m q) (react h e m)
unfolding react
react-Timed z h (passes n) m q t k = record { timer = λ u. omega (arith, t); kept = k }
react-Timed z h (reads b) m q t k =
    elim (m.reader_done || (is_full m && not m.server.done))
      as (λ d.
        Timed z q (if d then m else heard (b || is_full m) h (read_signal (m.server.conn h)) m)) [
          | true ↦ record { timer = λ u. t; kept = k }
          | false ↦ heard-Timed z h q (b || is_full m) (read_signal (m.server.conn h)) m t k
        ]
react-Timed z h stops m q t k =
    elim m.server.done as (λ b. Timed z q (if b then finish h (say_closed h m) else m)) [
      | true ↦ record { timer = λ u. t; kept = k }
      | false ↦ record { timer = λ u. t; kept = k }
    ]
react-Timed z h ends m q t k =
    elim m.reader_done as (λ b. Timed z q (if b then finish h m else m)) [
      | true ↦ record { timer = λ u. t; kept = k }
      | false ↦ record { timer = λ u. t; kept = k }
    ]
react-Timed z h ticks m q t k =
    elim (leb m.next_tick m.now)
      as (λ b.
        Timed z q (if b then beat h (write_signal Signal.heartbeat (m.server.conn h)) m else m)) [
          | true ↦ beat-Timed z h q (write_signal Signal.heartbeat (m.server.conn h)) m t k
          | false ↦ record { timer = λ u. t; kept = k }
        ]
react-Timed z h gets m q t k = take_signal-Timed z h q m.signals m t k
react-Timed z h expires m q t k =
    elim (leb m.deadline m.now) as (λ b. Timed z q (if b then finish h m else m)) [
      | true ↦ record { timer = λ u. t; kept = k }
      | false ↦ record { timer = λ u. t; kept = k }
    ]
react-Timed z h (others change) m q t k = record { timer = λ u. t; kept = k }

step-Timed :
    (z h : ℕ) (e : Event) (m : Monitor) (q : ℕ)
    → Timed z q m
    → Timed z (quiet_step e m q) (step h e m)
unfolding step
step-Timed z h e m q t = go m.running refl
  where
    stopped : m.running ≡ false → m.running ≡ true → ⊥
    stopped f u = cc (sym f ∙ u)

    go : (b : Bool) → m.running ≡ b → Timed z (quiet_step e m q) (if b then react h e m else m)
    go true on = react-Timed z h e m q (t.timer on) t.kept
    go false off = record { timer = λ u. absurd (stopped off u); kept = t.kept }

run-Timed :
    (z h : ℕ) (es : List Event) (m : Monitor) (q : ℕ)
    → Timed z q m
    → Timed z (quiet h es m q) (run h es m)
unfolding run quiet
run-Timed z h [] m q t = t
run-Timed z h (e ∷ es) m q t =
    run-Timed z h es (step h e m) (quiet_step e m q) (step-Timed z h e m q t)

at_timer :
    (h z q : ℕ) (m : Monitor)
    → m.deadline + q ≡ m.now + z
    → m.running ≡ true
    → (step h expires m).running ≡ ltb q z
unfolding step react
at_timer h z q m t u = ground (arith, t, u)

-- Whatever happens after its start, in whatever order: a monitor that still runs ends at its timer
-- if and only if the time since the last heartbeat that it took, or since its start, has reached
-- the timeout.
pub run-expires :
    (h : ℕ) (heartbeat timeout : ℤ) (now : ℕ) (s : ServerState) (es : List Event)
    → (run h es (start h heartbeat timeout now s)).running ≡ true
    → (step h expires (run h es (start h heartbeat timeout now s))).running
      ≡ ltb (quiet h es (start h heartbeat timeout now s) 0) (or_seconds timeout 25)
unfolding start
run-expires h heartbeat timeout now s es u =
    let begun : Monitor = start h heartbeat timeout now s in
    let z : ℕ = or_seconds timeout 25 in
    let t : Timed z 0 begun = record { timer = λ v. omega arith; kept = refl } in
    at_timer h z (quiet h es begun 0) (run h es begun) ((run-Timed z h es begun 0 t).timer u) u
