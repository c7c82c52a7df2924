-- ===== src/Original.antt =====
-- internal/tunnel/original_protocol.go: the wire format of the TCP transport, as bytes on a
-- connection. A typed string is its length in two bytes, a signal byte, and the string.
mod Tests
pub mod Signal
pub mod Write
pub mod Frames
pub mod Reader
use backhaul_recovered.Prelude.{
  ℕ, zero, suc, ◌+◌, Bool, true, false, List, [], ◌∷◌, ◌++◌, length, take, drop, ltb, ◌==◌,
  if◌then◌else◌, get_or,
}
use backhaul_recovered.Prelude.Text.{Str}
use backhaul_recovered.Net.{
  Error, Conn, M, ◌>>=◌, ◌>>◌, pure, throw, returned, failed, read_full, write, put_uint16, uint16,
  unexpected_eof, too_long, stuck,
}

-- The loop of writeOriginalFull: Write until nothing is left. The fuel falls by one a round.
unfoldable pub write_loop : ℕ → Str → M Conn (Unit {0})
write_loop fuel [] = pure tt
write_loop zero (x ∷ xs) = throw stuck
write_loop (suc fuel) (x ∷ xs) = write (x ∷ xs) >>= λ n. elim n [
  | zero ↦ throw unexpected_eof
  | suc m ↦ write_loop fuel (drop (suc m) (x ∷ xs))
]

-- writeOriginalFull. Each round takes a byte at least, so `length p` rounds are enough.
unfoldable pub write_full : Str → M Conn (Unit {0})
write_full p = write_loop (length p) p

unfoldable pub typed_frame : ℕ → Str → Str
typed_frame signal value = put_uint16 (length value) ++ signal ∷ value

-- writeOriginalTypedString
unfoldable pub write_typed_string : ℕ → Str → M Conn (Unit {0})
unfolding typed_frame
write_typed_string signal value =
    if ltb 65535 (length value) then throw too_long else write_full (typed_frame signal value)

-- readOriginalTypedString
unfoldable pub read_typed_string : M Conn (Str × ℕ)
read_typed_string = do
  header ← read_full 3
  let n = uint16 header
  payload ← read_full n
  pure (payload, get_or header 2 0)

-- writeOriginalSignal
unfoldable pub write_signal : ℕ → M Conn (Unit {0})
write_signal signal = write_full (signal ∷ [])

-- readOriginalSignal
pub read_signal : M Conn ℕ
read_signal = do b ← read_full 1; pure (get_or b 0 0)
