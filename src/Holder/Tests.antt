-- ===== src/Holder/Tests.antt =====
-- A pool with a closed and an open session.
use backhaul_recovered.Prelude.{◌≡◌, false, [], ◌∷◌, List, arith, ◌==◌, inl}
use backhaul_recovered.Net.{Conn, eof}
use backhaul_recovered.Mux.{new_session}
use backhaul_recovered.Holder.{Pool, next_session, new_holder, open_round}
use backhaul_recovered.Holder.Search.{first_open, turned}
use backhaul_recovered.Holder.Turns.{
  Op, adds, removes, turns, run, run-first_open, Round, open_round-Round,
}

abbrev fresh : Conn
fresh = record { incoming = []; ends = eof; sent = []; script = []; is_closed = false }

abbrev ops : List Op
ops = adds 4 ∷ adds 5 ∷ adds 6 ∷ turns (λ s. s == 4) ∷ removes (λ s. false) 5 ∷ []

run-first_open_example :
    (next_session (λ s. s == 6) (run ops new_holder)).0
    ≡ first_open (λ s. s == 6) (turned (run ops new_holder))
run-first_open_example = run-first_open ops (λ s. s == 6)

abbrev pool : Pool
pool = record {
  holder = record { sessions = 4 ∷ 5 ∷ []; next = 0 };
  session = λ s. record (new_session fresh) { closed = s == 4 };
}

open_round-Round_example : Round pool (open_round pool)
open_round-Round_example = open_round-Round pool (inl (omega arith))
