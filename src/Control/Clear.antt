-- ===== src/Control/Clear.antt =====
-- clearControl (internal/tunnel/original_protocol.go).
use backhaul_recovered.Prelude.{◌≡◌, ℕ, true, none, arith, if◌then◌else◌}
use backhaul_recovered.Control.{ServerState, clear_control, is_control}

-- The connection `h` is closed, and is no longer the control connection; another one that took its
-- place is kept.
pub record Cleared (h : ℕ) (s t : ServerState) : Type 0 where
  pub shut : (t.conn h).is_closed ≡ true
  pub free : t.control ≡ (if is_control h s.control then none else s.control)

pub clear_control-Cleared : (h : ℕ) (s : ServerState) → Cleared h s (clear_control h s)
unfolding clear_control
clear_control-Cleared h s = record { shut = ground arith; free = ground arith }
