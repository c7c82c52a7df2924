-- ===== src/Holder.antt =====
-- simpleMuxHolder (internal/tunnel/runner.go): the sessions of a server, taken in turn.
--
-- Sessions stand in a store under numbers, as the holder and the goroutines of the server point
-- at them.
pub mod Search
pub mod Turns
mod Tests
use backhaul_recovered.Prelude.{
  ℕ, zero, suc, ◌+◌, ◌%◌, Bool, true, false, Option, none, some, List, [], ◌∷◌, ◌++◌, length,
  get_or, leb, ◌==◌, ◌||◌, if◌then◌else◌,
}
use backhaul_recovered.Net.{Ran, M, returned, failed}
use backhaul_recovered.Mux.{Session, open_stream}

pub record Holder : Type 0 where
  pub sessions : List ℕ
  pub next : ℕ

pub new_holder : Holder
new_holder = record { sessions = []; next = 0 }

-- simpleMuxHolder.Add
pub add : ℕ → Holder → Holder
add s h = record h { sessions = h.sessions ++ s ∷ [] }

-- The loop of simpleMuxHolder.Remove: it keeps the sessions that are open and are not `s`.
pub keep_open : (ℕ → Bool) → ℕ → List ℕ → List ℕ
keep_open is_closed s [] = []
keep_open is_closed s (it ∷ items) =
    let rest = keep_open is_closed s items in if it == s || is_closed it then rest else it ∷ rest

-- simpleMuxHolder.Remove
pub remove : (ℕ → Bool) → ℕ → Holder → Holder
unfolding keep_open
remove is_closed s h =
    let out = keep_open is_closed s h.sessions in
    record { sessions = out; next = if leb (length out) h.next then 0 else h.next }

-- The loop of simpleMuxHolder.nextSession, `rounds` rounds from `i` on: the index of an open session.
pub search : (ℕ → Bool) → List ℕ → ℕ → ℕ → ℕ → Option ℕ
search is_closed sessions next zero i = none
search is_closed sessions next (suc rounds) i =
    let idx = (next + i) % length sessions in
    let rest = search is_closed sessions next rounds (i + 1) in
    if is_closed (get_or sessions idx 0) then rest else some idx

abbrev pub found : Holder → Option ℕ → Option ℕ × Holder
found h none = (none, h)
found h (some idx) =
    (some (get_or h.sessions idx 0), record h { next = (idx + 1) % length h.sessions })

-- simpleMuxHolder.nextSession
pub next_session : (ℕ → Bool) → Holder → Option ℕ × Holder
unfolding search
next_session is_closed h = found h (search is_closed h.sessions h.next (length h.sessions) 0)

-- The holder and the store of sessions.
pub record Pool : Type 0 where
  pub holder : Holder
  pub session : ℕ → Session

abbrev pub closed_in : Pool → ℕ → Bool
closed_in p s = (p.session s).closed

abbrev pub set_session : ℕ → Session → Pool → Pool
set_session s t p = record p { session = λ r. if s == r then t else p.session r }

-- What OpenStream does with the answer of the session's OpenStream: a session that fails goes.
abbrev pub opened : ℕ → Ran Session ℕ → Pool → Option (ℕ × ℕ) × Pool
opened s (returned stream t) p = (some (s, stream), set_session s t p)
opened s (failed e t) p =
    let q = set_session s t p in (none, record q { holder = remove (closed_in q) s q.holder })

abbrev pub open_on : Option ℕ × Holder → Pool → Option (ℕ × ℕ) × Pool
open_on (none, h) p = (none, record p { holder = h })
open_on (some s, h) p = opened s (open_stream (p.session s)) (record p { holder = h })

-- One round of simpleMuxHolder.OpenStream: a stream of a session, or a caller that waits and tries
-- again.
pub open_round : Pool → Option (ℕ × ℕ) × Pool
open_round p = open_on (next_session (closed_in p) p.holder) p
