-- ===== src/Datagram/Frames.antt =====
-- The datagram frames of internal/tunnel/runner.go, written and read back.
use backhaul_recovered.Prelude.{
  ℕ, ◌≤◌, ◌≡◌, ◌≢◌, refl, ap, ◌∙◌, false, [], ◌∷◌, ◌++◌, length, take, length-take, take-all, ltb,
  arith, Bool-cases, inl, inr, append_assoc, min, true,
}
use backhaul_recovered.Prelude.Text.{Str}
use backhaul_recovered.Net.{Conn, returned, failed, put_uint16, write, write_}
use backhaul_recovered.Net.Laws.{
  read_full_short, read_full-append, uint16-put, write_whole_two, ReportsErrors, returned_bind,
}
use backhaul_recovered.Datagram.{cut_to, write_datagram_frame, read_datagram_frame}

cut_to-take : (n : ℕ) (p : Str) → cut_to n p ≡ take n p
cut_to-take n p = elim (Bool-cases (ltb n (length p))) [
  | inl e ↦ rw e
  | inr e ↦ rw (e, take-all n p (ground arith))
]

length-cut_to : (n : ℕ) (p : Str) → length (cut_to n p) ≤ n
length-cut_to n p =
    let e : length (cut_to n p) ≡ min n (length p) =
      ap (λ (z : Str). length z) (cut_to-take n p) ∙ length-take n p in
    omega arith

read-frame :
    (q rest : Str) (r : Conn)
    → length q ≤ 65535
    → r.is_closed ≡ false
    → r.incoming ≡ (put_uint16 (length q) ++ q) ++ rest
    → read_datagram_frame r ≡ returned q (record r { incoming = rest })
unfolding read_datagram_frame
read-frame [] rest r h o e = ground (arith, read_full-append 2 (put_uint16 0) rest r refl o e)
read-frame (x ∷ q) rest r h o e = ground (
  arith,
  read_full-append 2 (put_uint16 (length (x ∷ q))) ((x ∷ q) ++ rest) r refl o
      (e ∙ append_assoc (put_uint16 (length (x ∷ q))) (x ∷ q) rest),
  uint16-put (length (x ∷ q)) [] (omega arith),
  read_full-append (length (x ∷ q)) (x ∷ q) rest (record r { incoming = (x ∷ q) ++ rest }) refl o
      refl,
)

-- The frame of a datagram, of which 65535 bytes come through.
abbrev pub frame : Str → Str
frame p = put_uint16 (length (cut_to 65535 p)) ++ cut_to 65535 p

pub write_datagram_frame_lem :
    (p : Str) (c d : Conn) {o : Unit {0}}
    → ReportsErrors c.script
    → write_datagram_frame p c ≡ returned o d
    → d ≡ record c { sent = c.sent ++ frame p }
unfolding write_datagram_frame
write_datagram_frame_lem p c d w e =
    let q : Str = cut_to 65535 p in write_whole_two (put_uint16 (length q)) q c d w e

pub write_datagram_frame_closed :
    (p : Str) (c d : Conn) {o : Unit {0}}
    → c.is_closed ≡ true
    → write_datagram_frame p c ≢ returned o d
unfolding write_datagram_frame write
write_datagram_frame_closed p c d shut e =
    let q : Str = cut_to 65535 p in
    let (u, k, w, more) = returned_bind (write_ (put_uint16 (length q))) (λ _. write_ q) c e in
    cc (rw shut at w)

-- A frame that has arrived, and no frame.
pub read_datagram_frame_lem :
    (p rest : Str) (r : Conn)
    → r.is_closed ≡ false
    → r.incoming ≡ frame p ++ rest
    → read_datagram_frame r ≡ returned (take 65535 p) (record r { incoming = rest })
read_datagram_frame_lem p rest r o e =
    read-frame (cut_to 65535 p) rest r (length-cut_to 65535 p) o e
    ∙ ap (λ z. returned z (record r { incoming = rest })) (cut_to-take 65535 p)

pub read_datagram_frame_nothing :
    (r : Conn)
    → r.is_closed ≡ false
    → r.incoming ≡ []
    → read_datagram_frame r ≡ failed r.ends (record r { incoming = [] })
unfolding read_datagram_frame
read_datagram_frame_nothing r o e =
    ground (arith, read_full_short 2 r (omega (arith, ap (λ (z : Str). length z) e)) o, e)

-- A datagram that writeDatagramFrame reports as written on a fresh connection, whose writes take
-- all bytes or report an error, is what readDatagramFrame reads at the other end, whatever
-- follows it; of a datagram of more than 65535 bytes the first 65535 come through.
pub read-write_datagram_frame :
    (p rest : Str) (c d r : Conn)
    → c.sent ≡ []
    → ReportsErrors c.script
    → write_datagram_frame p c ≡ returned tt d
    → r.is_closed ≡ false
    → r.incoming ≡ d.sent ++ rest
    → read_datagram_frame r ≡ returned (take 65535 p) (record r { incoming = rest })
read-write_datagram_frame p rest c d r s w e o i =
    let sent : d ≡ record c { sent = c.sent ++ frame p } = write_datagram_frame_lem p c d w e in
    read_datagram_frame_lem p rest r o
      (i ∙ ap (λ (j : Conn). j.sent ++ rest) sent ∙ ap (λ z. (z ++ frame p) ++ rest) s)
