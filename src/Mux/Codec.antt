-- ===== src/Mux/Codec.antt =====
-- A frame of the multiplexer, written and read back.
use backhaul_recovered.Prelude.{
  ℕ, ◌^◌, ◌<◌, ◌≡◌, refl, sym, ap, ◌∙◌, true, false, [], ◌∷◌, ◌++◌, length, arith, ◌==◌,
  if◌then◌else◌, append_assoc, append-nil, subst,
}
use backhaul_recovered.Prelude.Text.{Str}
use backhaul_recovered.Net.{Conn, M, pure, returned, failed, write_, put_uint32}
use backhaul_recovered.Net.Laws.{
  read_full-append, uint32-put, ReportsErrors, write_whole, zoom_returned, returned_bind,
}
use backhaul_recovered.Mux.{
  Session, on_conn, frame_header, write_frame, read_frame, send_frame, eof,
}

abbrev pub frame : ℕ → ℕ → Str → Str
frame ft id payload = frame_header ft id (length payload) ++ payload

-- A frame that has arrived is read back: its type, its stream, its payload, and no byte behind it.
pub read_frame-frame :
    (ft id : ℕ) (payload rest : Str) (c : Conn)
    → id < 2 ^ 32
    → length payload < 2 ^ 32
    → c.is_closed ≡ false
    → c.incoming ≡ frame ft id payload ++ rest
    → read_frame c ≡ returned (ft, id, payload) (record c { incoming = rest })
unfolding read_frame frame_header
read_frame-frame ft id payload rest c hi hl o e = ground (
  arith,
  read_full-append 9 (ft ∷ (put_uint32 id ++ put_uint32 (length payload))) (payload ++ rest) c refl
      o e,
  uint32-put id (put_uint32 (length payload)) hi,
  uint32-put (length payload) [] hl,
  read_full-append (length payload) payload rest (record c { incoming = payload ++ rest }) refl o
      refl,
  nothing payload,
)
  where
    nothing : (p : Str) → length p ≡ 0 → p ≡ []
    nothing [] h = refl
    nothing (x ∷ xs) h = absurd (omega arith)

abbrev pub get_conn : Session → Conn
get_conn s = s.conn

abbrev pub put_conn : Conn → Session → Session
put_conn c s = record s { conn = c }

payload_sent :
    (payload : Str) (v t : Session) {o : Unit {0}}
    → ReportsErrors v.conn.script
    → (if length payload == 0 then pure tt else on_conn (write_ payload)) v ≡ returned o t
    → t ≡ put_conn (record v.conn { sent = v.conn.sent ++ payload }) v
payload_sent [] v t {o} r h =
    let e : v ≡ t = cc in
    sym e ∙ ap (λ (z : Str). put_conn (record v.conn { sent = z }) v) (sym (append-nil v.conn.sent))
payload_sent (x ∷ xs) v t {o} r h =
    let more : (length (x ∷ xs) == 0) ≡ false = ground arith in
    let h' : on_conn (write_ (x ∷ xs)) v ≡ returned o t = rw more at h in
    let (d, w, q) = zoom_returned get_conn put_conn (write_ (x ∷ xs)) v h' in
    q ∙ ap (λ (c : Conn). put_conn c v) (write_whole (x ∷ xs) v.conn d r w)

send_frame_lem :
    (ft id : ℕ) (payload : Str) (s t : Session) {o : Unit {0}}
    → ReportsErrors s.conn.script
    → send_frame ft id payload s ≡ returned o t
    → t ≡ put_conn (record s.conn { sent = s.conn.sent ++ frame ft id payload }) s
unfolding send_frame
send_frame_lem ft id payload s t r h =
    let hdr : Str = frame_header ft id (length payload) in
    let (_, v, e, h') = returned_bind (on_conn (write_ hdr)) rest s h in
    let (d, w, q) = zoom_returned get_conn put_conn (write_ hdr) s e in
    let p : v ≡ put_conn (record s.conn { sent = s.conn.sent ++ hdr }) s =
      q ∙ ap (λ (c : Conn). put_conn c s) (write_whole hdr s.conn d r w) in
    payload_sent payload v t (subst (λ (k : Session). ReportsErrors k.conn.script) (sym p) r) h'
    ∙ ap (λ (k : Session). put_conn (record k.conn { sent = k.conn.sent ++ payload }) k) p
    ∙ ap (λ (z : Str). put_conn (record s.conn { sent = z }) s)
        (append_assoc s.conn.sent hdr payload)
  where
    rest : Unit {0} → M Session (Unit {0})
    rest _ = if length payload == 0 then pure tt else on_conn (write_ payload)

-- A frame that was written without an error stands behind what was sent, and nothing else changed.
pub write_frame_lem :
    (ft id : ℕ) (payload : Str) (s t : Session) {o : Unit {0}}
    → ReportsErrors s.conn.script
    → write_frame ft id payload s ≡ returned o t
    → t ≡ put_conn (record s.conn { sent = s.conn.sent ++ frame ft id payload }) s
unfolding write_frame
write_frame_lem ft id payload s t {o} r h =
    (elim s.closed
        as (λ b.
          (if b then failed eof s else send_frame ft id payload s) ≡ returned o t
          → t ≡ put_conn (record s.conn { sent = s.conn.sent ++ frame ft id payload }) s) [
            | true ↦ λ q. cc
            | false ↦ send_frame_lem ft id payload s t r
          ])
      h

-- A frame that writeFrame reports as written, on a fresh connection that reports its errors, is what
-- readLoop reads at the other end, its type, its stream and its payload, and what follows is not
-- touched: for stream numbers and lengths of 32 bits.
pub read_frame-write_frame :
    (ft id : ℕ) (payload rest : Str) (s t : Session) (c : Conn)
    → id < 2 ^ 32
    → length payload < 2 ^ 32
    → ReportsErrors s.conn.script
    → s.conn.sent ≡ []
    → write_frame ft id payload s ≡ returned tt t
    → c.is_closed ≡ false
    → c.incoming ≡ t.conn.sent ++ rest
    → read_frame c ≡ returned (ft, id, payload) (record c { incoming = rest })
read_frame-write_frame ft id payload rest s t c hi hl rep fresh w o e =
    let sent : t.conn.sent ≡ frame ft id payload =
      ap (λ (k : Session). k.conn.sent) (write_frame_lem ft id payload s t rep w)
      ∙ ap (λ (z : Str). z ++ frame ft id payload) fresh in
    read_frame-frame ft id payload rest c hi hl o (e ∙ ap (λ (z : Str). z ++ rest) sent)
