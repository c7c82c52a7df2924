-- ===== src/Slip.antt =====
-- slipstreamConn (internal/tunnel/runner.go): a stream cut into messages of at most 65535 bytes,
-- each a length in two bytes and the bytes under a key stream that goes on from message to message.
mod Tests
pub mod Messages
pub mod Laws
pub mod Hello
use backhaul_recovered.Prelude.{
  ℕ, zero, suc, ◌+◌, ◌%◌, ◌^◌, List, [], ◌∷◌, ◌++◌, length, get_or, ◌==◌, if◌then◌else◌,
}
use backhaul_recovered.Prelude.Text.{Str}
use backhaul_recovered.Net.{
  Conn, M, ◌>>=◌, ◌>>◌, pure, returned, failed, zoom, read_full, write_, put_uint16, uint16,
}
use backhaul_recovered.Stream.{Buffered, read, copy, write_stream, write_each}
use Prim.Native.Nat.{bit_xor}

-- `roff` and `woff` are the positions in the key stream; `key` has 32 bytes.
pub record Slip : Type 0 where
  pub conn : Conn
  pub key : Str
  pub roff : ℕ
  pub woff : ℕ

-- newSlipstreamConn
pub new_slipstream_conn : Conn → Str → Slip
new_slipstream_conn conn key = record { conn = conn; key = key; roff = 0; woff = 0 }

abbrev pub on_conn : {A : Type 0} → M Conn A → M Slip A
on_conn = zoom (λ s. s.conn) (λ c s. record s { conn = c })

-- slipstreamConn.xor, in place over `b`: byte `i` takes `key[(offset+uint64(i)) % len(key)]`.
pub xor : Str → Str → ℕ → Str
xor key [] offset = []
xor key (b ∷ bs) offset =
    bit_xor b (get_or key (offset % 2 ^ 64 % length key) 0) ∷ xor key bs (offset + 1)

-- The message that is read, deciphered, and the reader's position behind it.
decipher : Str → M Slip Str
decipher payload s =
    returned (xor s.key payload s.roff) (record s { roff = (s.roff + length payload) % 2 ^ 64 })

encipher : Str → M Slip Str
encipher chunk s =
    returned (xor s.key chunk s.woff) (record s { woff = (s.woff + length chunk) % 2 ^ 64 })

-- One round of the loop in slipstreamConn.Read; a message of no bytes is passed over.
pub next_message : M Slip Str
unfolding decipher
next_message = do
  hdr ← on_conn (read_full 2)
  let n = uint16 hdr
  if n == 0 then pure [] else (on_conn (read_full n) >>= decipher)

-- One round of the loop in slipstreamConn.Write.
pub emit : Str → M Slip (Unit {0})
unfolding encipher
emit chunk = do enc ← encipher chunk; on_conn (write_ (put_uint16 (length enc)) >> write_ enc)

-- The most rounds and bytes that may still come: a message takes two bytes at least.
abbrev pub budget : Slip → ℕ
budget s = suc (length s.conn.incoming)

-- slipstreamConn.Read into `m` bytes, and io.Copy from the connection through such Reads.
pub slip_read : ℕ → M (Buffered Slip) Str
slip_read m b = read next_message (budget b.inner) m b

pub slip_copy : ℕ → M (Buffered Slip) Str
slip_copy m b = copy next_message (budget b.inner) (budget b.inner) m b

-- slipstreamConn.Write
pub slip_write : Str → M Slip ℕ
slip_write = write_stream emit 65535
