-- ===== src/Websocket.antt =====
-- wsFrameConn (internal/tunnel/runner.go): a stream over WebSocket frames. The client masks what
-- it sends; control frames are answered or passed over by the reader.
mod Tests
pub mod Length
pub mod Frames
pub mod Laws
pub mod Transfer
use Prim.Native.Nat.{bit_and, bit_or, bit_xor}
use backhaul_recovered.Prelude.{
  ℕ, zero, suc, ◌+◌, ◌-◌, ◌*◌, ◌/◌, ◌%◌, ◌^◌, Bool, true, false, List, [], ◌∷◌, ◌++◌, length,
  get_or, ltb, leb, ◌==◌, if◌then◌else◌, not,
}
use backhaul_recovered.Prelude.Text.{Str}
use backhaul_recovered.Net.{
  Conn, M, ◌>>=◌, ◌>>◌, pure, throw, returned, failed, zoom, ignore, read_full, write_, uint16,
  uint64, frame_too_large, eof, close, timed_out,
}
use backhaul_recovered.Stream.{Buffered, read, copy, write_stream}

-- `masks` holds the mask keys that crypto/rand will give, each four bytes.
pub record Websocket : Type 0 where
  pub conn : Conn
  pub is_client : Bool
  pub masks : List Str

abbrev pub on_conn : {A : Type 0} → M Conn A → M Websocket A
on_conn = zoom (λ s. s.conn) (λ c s. record s { conn = c })

-- `for i := range payload { payload[i] ^= mask[i%4] }`, from index `i` on.
pub mask_from : Str → ℕ → Str → Str
mask_from key i [] = []
mask_from key i (b ∷ bs) = bit_xor b (get_or key (i % 4) 0) ∷ mask_from key (i + 1) bs

-- rand.Read into a mask of four bytes. crypto/rand never fails; a list that has run out stands for
-- zero bytes.
abbrev pub first_mask : List Str → Str
first_mask [] = 0 ∷ 0 ∷ 0 ∷ 0 ∷ []
first_mask (k ∷ ks) = k

abbrev pub rest_masks : List Str → List Str
rest_masks [] = []
rest_masks (k ∷ ks) = ks

pub next_mask : M Websocket Str
next_mask s = returned (first_mask s.masks) (record s { masks = rest_masks s.masks })

-- The length bytes of a header: one byte, or 126 and two, or 127 and eight.
pub length_bytes : ℕ → ℕ → Str
length_bytes mask_bit n =
    if ltb n 126
    then bit_or mask_bit (n % 256) ∷ []
    else if leb n 65535
    then bit_or mask_bit 126 ∷ (n / 2 ^ 8 % 256) ∷ (n % 256) ∷ []
    else bit_or mask_bit 127
      ∷ (n / 2 ^ 56 % 256)
      ∷ (n / 2 ^ 48 % 256)
      ∷ (n / 2 ^ 40 % 256)
      ∷ (n / 2 ^ 32 % 256)
      ∷ (n / 2 ^ 24 % 256)
      ∷ (n / 2 ^ 16 % 256)
      ∷ (n / 2 ^ 8 % 256)
      ∷ (n % 256)
      ∷ []

-- The header that wsFrameConn.writeFrame appends together.
pub frame_header : ℕ → ℕ → ℕ → Str
frame_header mask_bit opcode n = bit_or 0x80 (bit_and opcode 0x0f) ∷ length_bytes mask_bit n

-- The two ways through wsFrameConn.writeFrame behind the header.
pub client_frame : ℕ → Str → M Websocket (Unit {0})
unfolding next_mask
client_frame opcode payload = do
  on_conn (write_ (frame_header 0x80 opcode (length payload)))
  mk ← next_mask
  on_conn (write_ mk >> write_ (mask_from mk 0 payload))

pub server_frame : ℕ → Str → M Websocket (Unit {0})
server_frame opcode payload = do
  on_conn (write_ (frame_header 0 opcode (length payload)))
  if length payload == 0 then pure tt else on_conn (write_ payload)

-- wsFrameConn.writeFrame
pub write_frame : ℕ → Str → M Websocket (Unit {0})
write_frame opcode payload s =
    if s.is_client then client_frame opcode payload s else server_frame opcode payload s

-- wsReadLen
pub read_len : ℕ → M Conn ℕ
read_len n0 =
    if n0 == 126
    then (do b ← read_full 2; pure (uint16 b))
    else if n0 == 127
    then (do
      b ← read_full 8
      let n = uint64 b
      if ltb (2 ^ 31 - 1) n then throw frame_too_large else pure n)
    else pure n0

-- The last part of wsFrameConn.readNextDataFrame: data goes to the buffer, a ping is answered, a
-- close frame is the end of the stream.
pub dispatch : ℕ → Str → M Websocket Str
dispatch opcode payload =
    if opcode == 0x1
    then pure payload
    else if opcode == 0x2
    then pure payload
    else if opcode == 0x0
    then pure payload
    else if opcode == 0x8
    then throw eof
    else if opcode == 0x9
    then (do ignore (write_frame 0xa payload); pure [])
    else pure []

-- wsFrameConn.readNextDataFrame, with what it appends to the buffer as its value.
pub next_frame : M Websocket Str
unfolding dispatch
next_frame = do
  h ← on_conn (read_full 2)
  let opcode = bit_and (get_or h 0 0) 0x0f
  let has_mask = not (bit_and (get_or h 1 0) 0x80 == 0)
  n ← on_conn (read_len (bit_and (get_or h 1 0) 0x7f))
  mask_key ← if has_mask then on_conn (read_full 4) else pure []
  payload ← on_conn (read_full n)
  dispatch opcode (if has_mask then mask_from mask_key 0 payload else payload)

-- wsFrameConn.Write
pub ws_write : Str → M Websocket ℕ
ws_write = write_stream (write_frame 0x2) 65535

-- A frame takes two bytes at least.
abbrev pub budget : Websocket → ℕ
budget s = suc (length s.conn.incoming)

-- wsFrameConn.Read into `m` bytes, and io.Copy through such Reads.
pub ws_read : ℕ → M (Buffered Websocket) Str
ws_read m b = read next_frame (budget b.inner) m b

pub ws_copy : ℕ → M (Buffered Websocket) Str
ws_copy m b = copy next_frame (budget b.inner) (budget b.inner) m b

-- wsFrameConn.Close
pub ws_close : M Websocket (Unit {0})
ws_close s = (do ignore (write_frame 0x8 []); λ t. returned tt (record t { conn = close t.conn })) s
