-- ===== src/Monitor.antt =====
-- monitorControl (internal/tunnel/original_protocol.go): the server's watch over its control
-- connection.
--
-- The goroutine waits for one of several events; which of those that are ready comes next, and how
-- much time passes, is a sequence of events. An event that is not ready changes nothing. What
-- other goroutines do to the server in between is an event of its own.
mod Tests
pub mod Timing
pub mod Ending
use backhaul_recovered.Prelude.{
  ℕ, ◌+◌, ◌-◌, ◌/◌, ◌*◌, ◌^◌, Bool, true, false, not, ◌&&◌, Option, none, some, List, [], ◌∷◌, ◌++◌,
  length, leb, ltb, ◌==◌, ◌||◌, if◌then◌else◌,
}
use backhaul_recovered.Prelude.Text.{Str}
use backhaul_recovered.Prelude.Int.{ℤ, pos, negsuc, ltb_ℤ, pos_part}
use backhaul_recovered.Net.{Conn, Ran, returned, failed}
use backhaul_recovered.Original.{read_signal, write_signal}
use backhaul_recovered.Original.Signal as Signal
use backhaul_recovered.Control.{ServerState, set_conn, clear_control}

-- A duration of the options in nanoseconds, or the default where it is not positive.
abbrev pub or_seconds : ℤ → ℕ → ℕ
or_seconds d seconds = if ltb_ℤ (pos 0) d then pos_part d else seconds * 10 ^ 9

-- `signals` is the channel of 16 places between the reader and the loop; `reader_done` the channel
-- `done`; `next_tick` and `deadline` are when the ticker and the timer fire next.
pub record Monitor : Type 0 where
  pub server : ServerState
  pub signals : Str
  pub reader_done : Bool
  pub now : ℕ
  pub interval : ℕ
  pub next_tick : ℕ
  pub timeout : ℕ
  pub deadline : ℕ
  pub running : Bool

abbrev pub state_after : Ran Conn (Unit {0}) → Conn
state_after (returned u c) = c
state_after (failed e c) = c

-- Up to the loop.
pub start : ℕ → ℤ → ℤ → ℕ → ServerState → Monitor
start h heartbeat timeout now s = record {
  server = set_conn h (state_after (write_signal Signal.rtt (s.conn h))) s;
  signals = [];
  reader_done = false;
  now = now;
  interval = or_seconds heartbeat 10;
  next_tick = now + or_seconds heartbeat 10;
  timeout = or_seconds timeout 25;
  deadline = now + or_seconds timeout 25;
  running = true;
}

-- A return from the loop.
abbrev pub finish : ℕ → Monitor → Monitor
finish h m = record m { server = clear_control h m.server; running = false }

pub data Event : Type 0 where
  passes : ℕ → Event
  reads : Bool → Event
  stops ends ticks gets expires : Event
  others : (ServerState → ServerState) → Event

-- A round of the goroutine that reads; `prefer_done` is the choice of `select` where the context is
-- done and the channel has a place.
abbrev pub heard : Bool → ℕ → Ran Conn ℕ → Monitor → Monitor
heard prefer_done h (returned signal c) m =
    if m.server.done && prefer_done
    then record m { server = set_conn h c m.server; reader_done = true }
    else record m { server = set_conn h c m.server; signals = m.signals ++ signal ∷ [] }
heard prefer_done h (failed e c) m = record m { server = set_conn h c m.server; reader_done = true }

abbrev pub is_full : Monitor → Bool
is_full m = leb 16 (length m.signals)

-- The ticker holds one tick, and drops those that come before it is taken.
abbrev pub beat : ℕ → Ran Conn (Unit {0}) → Monitor → Monitor
beat h (returned u c) m = record m {
  server = set_conn h c m.server;
  next_tick = m.next_tick + m.interval * ((m.now - m.next_tick) / m.interval + 1);
}
beat h (failed e c) m = finish h (record m { server = set_conn h c m.server })

abbrev pub take_signal : ℕ → Str → Monitor → Monitor
take_signal h [] m = m
take_signal h (signal ∷ rest) m =
    if signal == Signal.closed
    then finish h (record m { signals = rest })
    else if signal == Signal.heartbeat
    then record m { signals = rest; deadline = m.now + m.timeout }
    else record m { signals = rest }

abbrev pub say_closed : ℕ → Monitor → Monitor
say_closed h m = record m {
  server = set_conn h (state_after (write_signal Signal.closed (m.server.conn h))) m.server;
}

-- One event of a monitor that runs.
pub react : ℕ → Event → Monitor → Monitor
react h (passes n) m = record m { now = m.now + n }
react h (reads prefer_done) m =
    if m.reader_done || (is_full m && not m.server.done)
    then m
    else heard (prefer_done || is_full m) h (read_signal (m.server.conn h)) m
react h stops m = if m.server.done then finish h (say_closed h m) else m
react h ends m = if m.reader_done then finish h m else m
react h ticks m =
    if leb m.next_tick m.now then beat h (write_signal Signal.heartbeat (m.server.conn h)) m else m
react h gets m = take_signal h m.signals m
react h expires m = if leb m.deadline m.now then finish h m else m
react h (others change) m = record m { server = change m.server }

pub step : ℕ → Event → Monitor → Monitor
unfolding react
step h e m = if m.running then react h e m else m

pub run : ℕ → List Event → Monitor → Monitor
unfolding step
run h [] m = m
run h (e ∷ es) m = run h es (step h e m)
