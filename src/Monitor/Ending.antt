-- ===== src/Monitor/Ending.antt =====
-- What a monitor that returns leaves behind (internal/tunnel/original_protocol.go).
use backhaul_recovered.Prelude.{
  ◌≡◌, refl, ℕ, ◌+◌, ◌⊎◌, Bool, true, false, [], ◌∷◌, leb, ◌==◌, ◌||◌, arith, if◌then◌else◌, inl,
  inr, ◌⊎◌, not, ◌&&◌, ◌++◌,
}
use backhaul_recovered.Prelude.Text.{Str}
use backhaul_recovered.Net.{Conn, Ran, returned, failed}
use backhaul_recovered.Original.{read_signal, write_signal}
use backhaul_recovered.Original.Signal as Signal
use backhaul_recovered.Control.{set_conn}
use backhaul_recovered.Control.Clear.{Cleared, clear_control-Cleared}
use backhaul_recovered.Monitor.{
  Monitor, Event, passes, reads, stops, ends, ticks, gets, expires, others, finish, heard, beat,
  take_signal, say_closed, react, step, is_full,
}

-- The monitor runs, or it has returned and the control connection is cleared.
abbrev pub Ended : ℕ → Monitor → Monitor → Type 0
Ended h m n = (n.running ≡ true) ⊎ Cleared h m.server n.server

finish-Ended :
    (h : ℕ) (c : Conn) (m : Monitor)
    → Ended h m (finish h (record m { server = set_conn h c m.server }))
finish-Ended h c m =
    let a = clear_control-Cleared h (set_conn h c m.server) in
    inr (record { shut = a.shut; free = a.free })

returns : (h : ℕ) (m : Monitor) → Ended h m (finish h m)
returns h m = inr (clear_control-Cleared h m.server)

react-Ended : (h : ℕ) (e : Event) (m : Monitor) → m.running ≡ true → Ended h m (react h e m)
unfolding react
react-Ended h (passes n) m u = inl u
react-Ended h (reads b) m u =
    elim (m.reader_done || (is_full m && not m.server.done))
      as (λ d.
        Ended h m (if d then m else heard (b || is_full m) h (read_signal (m.server.conn h)) m)) [
          | true ↦ inl u
          | false ↦ after (read_signal (m.server.conn h))
        ]
  where
    after : (r : Ran Conn ℕ) → Ended h m (heard (b || is_full m) h r m)
    after (returned signal c) =
        elim (m.server.done && (b || is_full m))
          as (λ d. Ended h m (
            if d
            then record m { server = set_conn h c m.server; reader_done = true }
            else record m { server = set_conn h c m.server; signals = m.signals ++ signal ∷ [] })) [
              | true ↦ inl u
              | false ↦ inl u
            ]
    after (failed e c) = inl u
react-Ended h stops m u =
    elim m.server.done as (λ b. Ended h m (if b then finish h (say_closed h m) else m)) [
      | true ↦ finish-Ended h _ m
      | false ↦ inl u
    ]
react-Ended h ends m u = elim m.reader_done as (λ b. Ended h m (if b then finish h m else m)) [
  | true ↦ returns h m
  | false ↦ inl u
]
react-Ended h ticks m u =
    elim (leb m.next_tick m.now)
      as (λ b.
        Ended h m (if b then beat h (write_signal Signal.heartbeat (m.server.conn h)) m else m)) [
          | true ↦ after (write_signal Signal.heartbeat (m.server.conn h))
          | false ↦ inl u
        ]
  where
    after : (r : Ran Conn (Unit {0})) → Ended h m (beat h r m)
    after (returned b c) = inl u
    after (failed e c) = finish-Ended h c m
react-Ended h gets m u = after m.signals
  where
    after : (signals : Str) → Ended h m (take_signal h signals m)
    after [] = inl u
    after (b ∷ rest) =
        elim (b == Signal.closed)
          as (λ z. Ended h m (
            if z
            then finish h (record m { signals = rest })
            else if b == Signal.heartbeat
            then record m { signals = rest; deadline = m.now + m.timeout }
            else record m { signals = rest })) [
              | true ↦ inr (clear_control-Cleared h m.server)
              | false ↦ inl (ground (arith, u))
            ]
react-Ended h expires m u =
    elim (leb m.deadline m.now) as (λ b. Ended h m (if b then finish h m else m)) [
      | true ↦ returns h m
      | false ↦ inl u
    ]
react-Ended h (others change) m u = inl u

-- An event of a monitor of the connection `h` that runs: it goes on, or it returns and has closed
-- `h`, and the server has no control connection, but for one that had already taken the place of
-- `h`, which is kept.
pub step-Ended : (h : ℕ) (e : Event) (m : Monitor) → m.running ≡ true → Ended h m (step h e m)
unfolding step
step-Ended h e m u = go m.running refl
  where
    go : (b : Bool) → m.running ≡ b → Ended h m (if b then react h e m else m)
    go true on = react-Ended h e m u
    go false off = inl u
