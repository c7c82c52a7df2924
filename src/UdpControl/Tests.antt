-- ===== src/UdpControl/Tests.antt =====
-- A listener with the datagrams of two addresses.
use backhaul_recovered.Prelude.{◌≡◌, refl, true, false, [], ◌∷◌, List, ◌++◌, ◌⊎◌}
use backhaul_recovered.Prelude.Text.{Str, codes}
use backhaul_recovered.Net.{returned, failed, deadlock}
use backhaul_recovered.UdpControl.{
  Listener, new_listener, lock, unlock, push, receive, close_local, close_listener,
}
use backhaul_recovered.UdpControl.Table.{lookup, insert, delete}
use backhaul_recovered.UdpControl.Invariant.{Inv}
use backhaul_recovered.UdpControl.Locks.{close_listener_deadlocks}
use backhaul_recovered.UdpControl.Run.{
  Op, receives, accepts, reads, run, apply, run-Inv, run-receive, new_listener-Inv,
}
use backhaul_recovered.UdpControl.Demux.{
  Event, arrives, reads as event_reads, steps, pending, ClosedDuring, steps_deliver_own,
}

abbrev here : Str
here = codes "10.0.0.1:7"

abbrev there : Str
there = codes "10.0.0.2:7"

abbrev ops : List Op
ops =
    receives false here (1 ∷ [])
    ∷ accepts false
    ∷ receives false there (2 ∷ [])
    ∷ reads (λ n. false) 0 1
    ∷ []

abbrev busy : Listener
busy = run ops new_listener

run-receive_example :
    Inv busy
    × ((t : Listener) × (receive true there (3 ∷ []) busy ≡ returned tt t) × Inv t)
    × ((t : Listener) × (close_local 1 busy ≡ returned tt t) × Inv t)
run-receive_example = run-receive ops true there (3 ∷ []) 1

-- One connection, the first one that came.
abbrev first : Listener
first = run (receives false here (1 ∷ []) ∷ []) new_listener

first-Inv : Inv first
first-Inv = run-Inv (receives false here (1 ∷ []) ∷ []) new_listener new_listener-Inv

close_listener_deadlocks_example : (t : Listener) × (close_listener first ≡ failed deadlock t)
unfolding run apply receive new_listener lock unlock push lookup insert delete
close_listener_deadlocks_example = close_listener_deadlocks first first-Inv refl (λ e. cc)

abbrev events : List Event
events =
    arrives false there (2 ∷ []) ∷ event_reads (λ n. true) 1 ∷ arrives false here (3 ∷ 4 ∷ []) ∷ []

steps_deliver_own_example :
    ClosedDuring 0 events first
    ⊎ ((steps 0 events first).0 ++ pending 0 (steps 0 events first).1
        ≡ pending 0 first ++ 3 ∷ 4 ∷ [])
unfolding run apply receive new_listener lock unlock push lookup insert delete
steps_deliver_own_example = steps_deliver_own here 0 events first first-Inv refl
