-- ===== src/Monitor/Tests.antt =====
-- A monitor on concrete events.
use backhaul_recovered.Prelude.{◌≡◌, refl, false, [], ◌∷◌, List}
use backhaul_recovered.Prelude.Int.{pos}
use backhaul_recovered.Net.{write}
use backhaul_recovered.Original.{write_signal, write_full, write_loop}
use backhaul_recovered.Control.{new_server_state}
use backhaul_recovered.Control.Tests.{busy}
use backhaul_recovered.Monitor.{
  Monitor, Event, passes, ticks, gets, expires, start, step, run, react,
}
use backhaul_recovered.Monitor.Timing.{run-expires, quiet}
use backhaul_recovered.Monitor.Ending.{Ended, step-Ended}

abbrev events : List Event
events = passes 7 ∷ ticks ∷ passes 5 ∷ []

abbrev watching : Monitor
watching = start 1 (pos 6) (pos 12) 100 busy

run-expires_example : (step 1 expires (run 1 events watching)).running ≡ false
unfolding start run step react quiet write_signal write_full write_loop write new_server_state
run-expires_example = run-expires 1 (pos 6) (pos 12) 100 busy events refl

step-Ended_example : Ended 1 watching (step 1 gets watching)
unfolding start
step-Ended_example = step-Ended 1 gets watching refl
