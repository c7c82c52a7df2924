-- ===== src/Client/Loop.antt =====
-- The loop of the client over the signals of its control connection
-- (internal/tunnel/original_protocol.go).
use backhaul_recovered.Prelude.{
  ◌≡◌, ◌≢◌, refl, sym, ap, ◌∙◌, ℕ, zero, suc, ◌+◌, ◌<◌, Bool, true, false, not, ◌||◌, Option, none,
  some, [], ◌∷◌, ◌++◌, length, ◌==◌, arith, if◌then◌else◌, append-nil, append_assoc, subst,
}
use backhaul_recovered.Prelude.Text.{Str}
use backhaul_recovered.Strings.{before, contains_byte}
use backhaul_recovered.Net.{
  Conn, M, Ran, Error, returned, failed, ◌>>=◌, pure, closed, eof, unexpected_eof, timed_out,
  refused, panicked, deadlock, too_long, invalid_token, invalid_hello, invalid_target,
  frame_too_large, stuck,
}
use backhaul_recovered.Original.Frames.{read_signal_one, read_signal_none, write_signal_open}
use backhaul_recovered.Original.Signal as Signal
use backhaul_recovered.Client.{
  Client, on_control, or_closed, answer, answer_to, control_round, control_loop, run_control,
}

-- What a signal is answered with, and the workers that it starts.
abbrev pub reply : ℕ → Str
reply b = if b == Signal.rtt || b == Signal.heartbeat then b ∷ [] else []

abbrev pub replies : Str → Str
replies [] = []
replies (b ∷ bs) = reply b ++ replies bs

abbrev pub starts : ℕ → ℕ
starts b = if b == Signal.channel then 1 else 0

abbrev pub started : Str → ℕ
started [] = 0
started (b ∷ bs) = starts b + started bs

abbrev pub client_of : Ran Client (Unit {0}) → Client
client_of (returned u s) = s
client_of (failed e s) = s

abbrev pub error_of : Ran Client (Unit {0}) → Option Error
error_of (returned u s) = none
error_of (failed e s) = some e

-- A client that has answered the signals up to the first `closed` and has then ended.
pub record Answered (s : Client) (r : Ran Client (Unit {0})) : Type 0 where
  pub told :
      (client_of r).control.sent
      ≡ s.control.sent ++ replies (before Signal.closed s.control.incoming)
  pub spawned :
      (client_of r).spawned ≡ s.spawned + started (before Signal.closed s.control.incoming)
  pub ended :
      error_of r
      ≡ (if contains_byte Signal.closed s.control.incoming then none else some s.control.ends)

abbrev next : ℕ → Str → Client → Client
next b rest s = record s {
  control = record s.control { incoming = rest; sent = s.control.sent ++ reply b };
  spawned = s.spawned + starts b;
}

answer_lem :
    (b : ℕ) (s : Client)
    → s.control.script ≡ []
    → s.control.is_closed ≡ false
    → answer b s ≡ returned (not (b == Signal.closed)) (next b s.control.incoming s)
unfolding answer
answer_lem b s p o = ground (
  arith,
  write_signal_open Signal.rtt s.control p o,
  write_signal_open Signal.heartbeat s.control p o,
  append-nil s.control.sent,
)

-- A round behind which the others are right.
Answered-next :
    (b : ℕ) (rest : Str) (s : Client) (r : Ran Client (Unit {0}))
    → s.control.incoming ≡ b ∷ rest
    → (b == Signal.closed) ≡ false
    → Answered (next b rest s) r
    → Answered s r
unfolding before contains_byte
Answered-next b rest s r e n a =
    let heard : before Signal.closed s.control.incoming ≡ b ∷ before Signal.closed rest =
      ap (before Signal.closed) e ∙ rw n refl in
    let same : contains_byte Signal.closed s.control.incoming ≡ contains_byte Signal.closed rest =
      ap (contains_byte Signal.closed) e ∙ rw n refl in
    record {
      told =
          a.told
          ∙ append_assoc s.control.sent (reply b) (replies (before Signal.closed rest))
          ∙ ap (λ (z : Str). s.control.sent ++ replies z) (sym heard);
      spawned = ground (arith, a.spawned, ap started heard);
      ended = a.ended ∙ ap (λ (z : Bool). if z then none else some s.control.ends) (sym same);
    }

-- The two ways to end.
Answered-stop :
    (b : ℕ) (rest : Str) (s : Client)
    → s.control.incoming ≡ b ∷ rest
    → (b == Signal.closed) ≡ true
    → Answered s (returned tt (next b rest s))
unfolding before contains_byte
Answered-stop b rest s e y =
    let heard : before Signal.closed s.control.incoming ≡ [] =
      ap (before Signal.closed) e ∙ rw y refl in
    let stops : contains_byte Signal.closed s.control.incoming ≡ true =
      ap (contains_byte Signal.closed) e ∙ rw y refl in
    record {
      told = ground (arith, y, ap replies heard);
      spawned = ground (arith, y, ap started heard);
      ended = rw stops refl;
    }

Answered-end :
    (s : Client)
    → s.control.incoming ≡ []
    → Answered s (failed s.control.ends (record s { control = record s.control { incoming = [] } }))
unfolding before contains_byte
Answered-end s e = record {
  told =
      sym (append-nil s.control.sent)
      ∙ ap (λ (z : Str). s.control.sent ++ replies (before Signal.closed z)) (sym e);
  spawned = ground (arith, ap (λ (z : Str). started (before Signal.closed z)) e);
  ended =
      ap (λ (z : Str). if contains_byte Signal.closed z then none else some s.control.ends) (sym e);
}

round_lem :
    (b : ℕ) (rest : Str) (s : Client)
    → s.control.incoming ≡ b ∷ rest
    → s.control.script ≡ []
    → s.control.is_closed ≡ false
    → control_round s ≡ returned (not (b == Signal.closed)) (next b rest s)
unfolding control_round
round_lem b rest s e p o =
    ap
      (λ (r : Ran Conn ℕ).
        ((λ (t : Client). or_closed (on_control (λ (c : Conn). r) t)) >>= answer_to) s)
      (read_signal_one b rest s.control e o)
    ∙ answer_lem b (record s { control = record s.control { incoming = rest } }) p o

or_closed_other : (e : Error) (t : Client) → e ≢ closed → or_closed (failed e t) ≡ failed e t
or_closed_other closed t n = absurd (n refl)
or_closed_other eof t n = refl
or_closed_other unexpected_eof t n = refl
or_closed_other timed_out t n = refl
or_closed_other refused t n = refl
or_closed_other panicked t n = refl
or_closed_other deadlock t n = refl
or_closed_other too_long t n = refl
or_closed_other invalid_token t n = refl
or_closed_other invalid_hello t n = refl
or_closed_other invalid_target t n = refl
or_closed_other frame_too_large t n = refl
or_closed_other stuck t n = refl

round_end :
    (s : Client)
    → s.control.incoming ≡ []
    → s.control.is_closed ≡ false
    → s.control.ends ≢ closed
    → control_round s
      ≡ failed s.control.ends (record s { control = record s.control { incoming = [] } })
unfolding control_round
round_end s e o n =
    ap
      (λ (r : Ran Conn ℕ).
        ((λ (t : Client). or_closed (on_control (λ (c : Conn). r) t)) >>= answer_to) s)
      (read_signal_none s.control e o)
    ∙ ap (λ (r : Ran Client (Option ℕ)). ((λ (t : Client). r) >>= answer_to) s)
        (or_closed_other s.control.ends (record s { control = record s.control { incoming = [] } })
          n)

abbrev go_on : ℕ → M Client Bool → M Client (Unit {0})
go_on fuel m = m >>= λ goes_on. if goes_on then control_loop fuel else pure tt

control_loop-Answered :
    (fuel : ℕ) (bytes : Str) (s : Client)
    → s.control.incoming ≡ bytes
    → length bytes < fuel
    → s.control.script ≡ []
    → s.control.is_closed ≡ false
    → s.control.ends ≢ closed
    → Answered s (control_loop fuel s)
unfolding control_loop
control_loop-Answered zero bytes s e l p o n = absurd (omega arith)
control_loop-Answered (suc fuel) [] s e l p o n =
    subst (Answered s)
      (sym (ap (λ (r : Ran Client Bool). go_on fuel (λ (t : Client). r) s) (round_end s e o n)))
      (Answered-end s e)
control_loop-Answered (suc fuel) (b ∷ rest) s e l p o n =
    subst (Answered s)
      (sym
        (ap (λ (r : Ran Client Bool). go_on fuel (λ (t : Client). r) s) (round_lem b rest s e p o)))
      (after (b == Signal.closed) refl
        (control_loop-Answered fuel rest (next b rest s) refl (omega arith) p o n))
  where
    after :
        (z : Bool)
        → (b == Signal.closed) ≡ z
        → Answered (next b rest s) (control_loop fuel (next b rest s))
        → Answered s (go_on fuel (λ (t : Client). returned (not z) (next b rest s)) s)
    after true q ih = Answered-stop b rest s e q
    after false q ih = Answered-next b rest s (control_loop fuel (next b rest s)) e q ih

-- A client on an open connection that takes what is written, and whose end is an error or the end
-- of the stream: its loop ends; each rtt and each heartbeat before the first `closed` is answered
-- with itself, in order, each `channel` has started a worker, and the loop ends without an error
-- where there was a `closed` and with the error of the connection otherwise.
pub run_control-Answered :
    (s : Client)
    → s.control.script ≡ []
    → s.control.is_closed ≡ false
    → s.control.ends ≢ closed
    → Answered s (run_control s)
unfolding run_control
run_control-Answered s p o n =
    control_loop-Answered (suc (length s.control.incoming)) s.control.incoming s refl (omega arith)
      p o n
