-- ===== src/Websocket/Frames.antt =====
-- One frame, written and read back.
use Prim.Native.Nat.{bit_and, bit_or}
use backhaul_recovered.Prelude.{
  length-append, ℕ, suc, ◌+◌, ◌%◌, ◌^◌, ◌<◌, ◌≤◌, ◌≡◌, refl, sym, ap, ◌∙◌, Bool, true, false, [],
  ◌∷◌, ◌++◌, length, arith, ◌==◌, if◌then◌else◌, get_or, append_assoc, append-nil, subst,
}
use backhaul_recovered.Prelude.Text.{Str}
use backhaul_recovered.Prelude.Bits.{bit_xor_twice, low_nibble}
use backhaul_recovered.Net.{Conn, M, ◌>>=◌, ◌>>◌, pure, returned, write_}
use backhaul_recovered.Net.Laws.{
  read_full-append, ReportsErrors, write_whole, write_whole_two, zoom_returned, returned_bind,
}
use backhaul_recovered.Websocket.{
  Websocket, on_conn, mask_from, next_mask, write_frame, dispatch, next_frame, first_mask,
  rest_masks, frame_header, client_frame, server_frame,
}
use backhaul_recovered.Websocket.Length.{
  mask_bit, first_length, more_length, length_bytes-eq, first_length_fields, read_len_lem,
}

pub length-mask_from : (key : Str) (i : ℕ) (bs : Str) → length (mask_from key i bs) ≡ length bs
unfolding mask_from
length-mask_from key i [] = refl
length-mask_from key i (b ∷ bs) = ap suc (length-mask_from key (i + 1) bs)

-- Masking twice with one key gives the payload back.
pub mask_from-mask_from : (key : Str) (i : ℕ) (bs : Str) → mask_from key i (mask_from key i bs) ≡ bs
unfolding mask_from
mask_from-mask_from key i [] = refl
mask_from-mask_from key i (b ∷ bs) =
    cc (bit_xor_twice b (get_or key (i % 4) 0), mask_from-mask_from key (i + 1) bs)

-- The bytes of a frame behind its two header bytes and its length.
abbrev pub body : Bool → Str → Str → Str
body true key payload = key ++ mask_from key 0 payload
body false key payload = payload

pub header : Bool → ℕ → Str → Str
header b opcode payload =
    bit_or 0x80 (bit_and opcode 0x0f)
    ∷ bit_or (mask_bit b) (first_length (length payload))
    ∷ more_length (length payload)

abbrev pub frame : Bool → ℕ → Str → Str → Str
frame b opcode key payload = header b opcode payload ++ body b key payload

pub length-frame :
    (b : Bool) (opcode : ℕ) (key payload : Str)
    → length payload + 2 ≤ length (frame b opcode key payload)
unfolding header
length-frame true opcode key payload =
    let more : Str = more_length (length payload) in
    let masked : Str = mask_from key 0 payload in
    omega (
      arith,
      length-append more (key ++ masked),
      length-append key masked,
      length-mask_from key 0 payload,
    )
length-frame false opcode key payload =
    omega (arith, length-append (more_length (length payload)) payload)

-- The connection with other bytes to come.
abbrev pub with_incoming : Str → Websocket → Websocket
with_incoming rest s = record s { conn = record s.conn { incoming = rest } }

pub next_frame-frame :
    (b : Bool) (opcode : ℕ) (key payload rest : Str) (s : Websocket)
    → opcode < 16
    → length key ≡ 4
    → length payload < 2 ^ 31
    → s.conn.is_closed ≡ false
    → s.conn.incoming ≡ frame b opcode key payload ++ rest
    → next_frame s ≡ dispatch opcode payload (with_incoming rest s)
unfolding next_frame header
next_frame-frame true opcode key payload rest s ho hk hp o e = ground (
  arith,
  first_length_fields true n,
  low_nibble opcode ho,
  read_full-append 2 two (more ++ (key ++ (masked ++ rest))) s.conn refl o (
      e
      ∙ ap (λ q. two ++ q)
          (append_assoc more (key ++ masked) rest
            ∙ ap (λ q. more ++ q) (append_assoc key masked rest))),
  read_len_lem n (key ++ (masked ++ rest))
      (record s.conn { incoming = more ++ (key ++ (masked ++ rest)) }) hp o refl,
  read_full-append 4 key (masked ++ rest) (record s.conn { incoming = key ++ (masked ++ rest) }) hk
      o refl,
  read_full-append n masked rest (record s.conn { incoming = masked ++ rest })
      (length-mask_from key 0 payload) o refl,
  mask_from-mask_from key 0 payload,
)
  where
    n : ℕ
    n = length payload

    more : Str
    more = more_length n

    masked : Str
    masked = mask_from key 0 payload

    two : Str
    two = bit_or 0x80 (bit_and opcode 0x0f) ∷ bit_or (mask_bit true) (first_length n) ∷ []
next_frame-frame false opcode key payload rest s ho hk hp o e = ground (
  arith,
  first_length_fields false n,
  low_nibble opcode ho,
  read_full-append 2 two (more ++ (payload ++ rest)) s.conn refl o
      (e ∙ ap (λ q. two ++ q) (append_assoc more payload rest)),
  read_len_lem n (payload ++ rest) (record s.conn { incoming = more ++ (payload ++ rest) }) hp o
      refl,
  read_full-append n payload rest (record s.conn { incoming = payload ++ rest }) refl o refl,
)
  where
    n : ℕ
    n = length payload

    more : Str
    more = more_length n

    two : Str
    two = bit_or 0x80 (bit_and opcode 0x0f) ∷ bit_or (mask_bit false) (first_length n) ∷ []

-- The state after a frame was written.
abbrev pub after_frame : Bool → ℕ → Str → Websocket → Websocket
after_frame b opcode payload s = record s {
  conn = record s.conn { sent = s.conn.sent ++ frame b opcode (first_mask s.masks) payload };
  masks = if b then rest_masks s.masks else s.masks;
}

abbrev get_conn : Websocket → Conn
get_conn s = s.conn

abbrev put_conn : Conn → Websocket → Websocket
put_conn c s = record s { conn = c }

frame_header-eq :
    (b : Bool) (opcode : ℕ) (payload : Str)
    → frame_header (mask_bit b) opcode (length payload) ≡ header b opcode payload
unfolding frame_header header
frame_header-eq b opcode payload =
    ap (λ (q : Str). bit_or 0x80 (bit_and opcode 0x0f) ∷ q) (length_bytes-eq b (length payload))

-- The first Write of either way.
header_sent :
    (b : Bool) (opcode : ℕ) (payload : Str) (s t : Websocket) {o : Unit {0}}
    → ReportsErrors s.conn.script
    → on_conn (write_ (frame_header (mask_bit b) opcode (length payload))) s ≡ returned o t
    → t ≡ put_conn (record s.conn { sent = s.conn.sent ++ header b opcode payload }) s
header_sent b opcode payload s t r h =
    let hdr : Str = frame_header (mask_bit b) opcode (length payload) in
    let (d, w, q) = zoom_returned get_conn put_conn (write_ hdr) s h in
    q
    ∙ ap (λ (c : Conn). put_conn c s)
        (write_whole hdr s.conn d r w
          ∙ ap (λ (z : Str). record s.conn { sent = s.conn.sent ++ z })
              (frame_header-eq b opcode payload))

client_frame_lem :
    (opcode : ℕ) (payload : Str) (s t : Websocket) {o : Unit {0}}
    → ReportsErrors s.conn.script
    → client_frame opcode payload s ≡ returned o t
    → t ≡ after_frame true opcode payload s
unfolding client_frame
client_frame_lem opcode payload s t r h =
    let (_, v, e, h') =
      returned_bind (on_conn (write_ (frame_header 0x80 opcode (length payload)))) rest s h in
    let p = header_sent true opcode payload s v r e in
    let (d, w, q) = zoom_returned get_conn put_conn (both v) (masked v) h' in
    q
    ∙ ap (λ (c : Conn). put_conn c (masked v))
        (write_whole_two (first_mask v.masks) (mask_from (first_mask v.masks) 0 payload) v.conn d
          (subst (λ (k : Websocket). ReportsErrors k.conn.script) (sym p) r) w)
    ∙ ap
        (λ (k : Websocket).
          put_conn (record k.conn { sent = k.conn.sent ++ body true (first_mask k.masks) payload })
            (masked k))
        p
    ∙ ap (λ (z : Str). put_conn (record s.conn { sent = z }) (masked s))
        (append_assoc s.conn.sent (header true opcode payload)
          (body true (first_mask s.masks) payload))
  where
    both : Websocket → M Conn (Unit {0})
    both v = write_ (first_mask v.masks) >> write_ (mask_from (first_mask v.masks) 0 payload)

    masked : Websocket → Websocket
    masked v = record v { masks = rest_masks v.masks }

    rest : Unit {0} → M Websocket (Unit {0})
    rest _ = next_mask >>= λ mk. on_conn (write_ mk >> write_ (mask_from mk 0 payload))

server_rest :
    (payload : Str) (v t : Websocket) {o : Unit {0}}
    → ReportsErrors v.conn.script
    → (if length payload == 0 then pure tt else on_conn (write_ payload)) v ≡ returned o t
    → t ≡ put_conn (record v.conn { sent = v.conn.sent ++ payload }) v
server_rest [] v t {o} r h =
    let e : v ≡ t = cc in
    sym e ∙ ap (λ (z : Str). put_conn (record v.conn { sent = z }) v) (sym (append-nil v.conn.sent))
server_rest (x ∷ xs) v t {o} r h =
    let more : (length (x ∷ xs) == 0) ≡ false = ground arith in
    let h' : on_conn (write_ (x ∷ xs)) v ≡ returned o t = rw more at h in
    let (d, w, q) = zoom_returned get_conn put_conn (write_ (x ∷ xs)) v h' in
    q ∙ ap (λ (c : Conn). put_conn c v) (write_whole (x ∷ xs) v.conn d r w)

server_frame_lem :
    (opcode : ℕ) (payload : Str) (s t : Websocket) {o : Unit {0}}
    → ReportsErrors s.conn.script
    → server_frame opcode payload s ≡ returned o t
    → t ≡ after_frame false opcode payload s
unfolding server_frame
server_frame_lem opcode payload s t r h =
    let (_, v, e, h') =
      returned_bind (on_conn (write_ (frame_header 0 opcode (length payload)))) rest s h in
    let p = header_sent false opcode payload s v r e in
    server_rest payload v t (subst (λ (k : Websocket). ReportsErrors k.conn.script) (sym p) r) h'
    ∙ ap (λ (k : Websocket). put_conn (record k.conn { sent = k.conn.sent ++ payload }) k) p
    ∙ ap (λ (z : Str). put_conn (record s.conn { sent = z }) s)
        (append_assoc s.conn.sent (header false opcode payload) payload)
  where
    rest : Unit {0} → M Websocket (Unit {0})
    rest _ = if length payload == 0 then pure tt else on_conn (write_ payload)

-- A frame that was written without an error stands behind what was sent, and nothing else changed
-- but the mask that a client used up.
pub write_frame_lem :
    (opcode : ℕ) (payload : Str) (s t : Websocket) {o : Unit {0}}
    → ReportsErrors s.conn.script
    → write_frame opcode payload s ≡ returned o t
    → t ≡ after_frame s.is_client opcode payload s
unfolding write_frame
write_frame_lem opcode payload s t {o} r h =
    (elim s.is_client
        as (λ b.
          (if b then client_frame opcode payload s else server_frame opcode payload s)
            ≡ returned o t
          → t ≡ after_frame b opcode payload s) [
            | true ↦ client_frame_lem opcode payload s t r
            | false ↦ server_frame_lem opcode payload s t r
          ])
      h
