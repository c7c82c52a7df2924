-- ===== src/Original/Frames.antt =====
-- Typed strings and signals written and read back.
use backhaul_recovered.Prelude.{
  ◌+◌, ◌∙◌, ◌*◌, ◌<◌, length-append, ℕ, ◌≤◌, ◌≡◌, refl, false, [], ◌∷◌, ◌++◌, length, arith,
  Bool-cases, ap, inl, inr, ◌≢◌,
}
use backhaul_recovered.Prelude.Text.{Str}
use backhaul_recovered.Net.{
  Conn, returned, put_uint16, Ran, Error, eof, unexpected_eof, failed, too_long,
}
use backhaul_recovered.Net.Laws.{read_full-append, uint16-put, read_full_short}
use backhaul_recovered.Original.Write.{Sends, write_full-Sends, write_full_open}
use backhaul_recovered.Original.{
  typed_frame, read_typed_string, write_typed_string, ltb, write_full, write_signal, read_signal,
}

-- A frame that has arrived is read back, and nothing behind it is touched.
pub read-typed_frame :
    (signal : ℕ) (value rest : Str) (r : Conn)
    → length value ≤ 65535
    → r.is_closed ≡ false
    → r.incoming ≡ typed_frame signal value ++ rest
    → read_typed_string r ≡ returned (value, signal) (record r { incoming = rest })
unfolding typed_frame read_typed_string
read-typed_frame signal value rest r h o e = ground (
  arith,
  read_full-append 3 (put_uint16 (length value) ++ signal ∷ []) (value ++ rest) r refl o e,
  uint16-put (length value) (signal ∷ []) (omega arith),
  read_full-append (length value) value rest (record r { incoming = value ++ rest }) refl o refl,
)

Sends-returned :
    (c d : Conn) (p : Str) (r : Ran Conn (Unit {0}))
    → Sends c p r
    → r ≡ returned tt d
    → d.sent ≡ c.sent ++ p
Sends-returned c d p (returned u e) s h = ground (arith, s.0)
Sends-returned c d p (failed e f) s h = cc

-- What a typed string or a signal that was written without an error leaves behind.
pub write_typed_string_sent :
    (signal : ℕ) (value : Str) (c d : Conn)
    → write_typed_string signal value c ≡ returned tt d
    → d.sent ≡ c.sent ++ typed_frame signal value
unfolding write_typed_string
write_typed_string_sent signal value c d w = elim (Bool-cases (ltb 65535 (length value))) [
  | inl long ↦ cc long
  | inr fits ↦
      let frame : Str = typed_frame signal value in
      Sends-returned c d frame (write_full frame c) (write_full-Sends frame c) (rw fits at w)
]

pub write_typed_string_fits :
    (signal : ℕ) (value : Str) (c d : Conn)
    → write_typed_string signal value c ≡ returned tt d
    → length value ≤ 65535
unfolding write_typed_string
write_typed_string_fits signal value c d w = elim (Bool-cases (ltb 65535 (length value))) [
  | inl long ↦ cc (rw long at w)
  | inr fits ↦ ground (arith, fits)
]

pub write_signal_sent :
    (signal : ℕ) (c d : Conn)
    → write_signal signal c ≡ returned tt d
    → d.sent ≡ c.sent ++ signal ∷ []
unfolding write_signal
write_signal_sent signal c d w =
    Sends-returned c d (signal ∷ []) (write_full (signal ∷ []) c) (write_full-Sends (signal ∷ []) c)
      w

pub read_signal_one :
    (b : ℕ) (rest : Str) (c : Conn)
    → c.incoming ≡ b ∷ rest
    → c.is_closed ≡ false
    → read_signal c ≡ returned b (record c { incoming = rest })
unfolding read_signal
read_signal_one b rest c e o = ground (arith, read_full-append 1 (b ∷ []) rest c refl o e)

-- A signal read, at the end of the bytes and before it.
pub read_signal_none :
    (c : Conn)
    → c.incoming ≡ []
    → c.is_closed ≡ false
    → read_signal c ≡ failed c.ends (record c { incoming = [] })
unfolding read_signal
read_signal_none c e o =
    ground (arith, read_full_short 1 c (omega (arith, ap (λ (z : Str). length z) e)) o, e)

pub write_signal_open :
    (b : ℕ) (c : Conn)
    → c.script ≡ []
    → c.is_closed ≡ false
    → write_signal b c ≡ returned tt (record c { sent = c.sent ++ b ∷ [] })
unfolding write_signal
write_signal_open b c = write_full_open (b ∷ []) c

-- A connection that is open and takes what is written.
pub write_typed_string_open :
    (signal : ℕ) (value : Str) (c : Conn)
    → length value ≤ 65535
    → c.script ≡ []
    → c.is_closed ≡ false
    → write_typed_string signal value c
      ≡ returned tt (record c { sent = c.sent ++ typed_frame signal value })
unfolding write_typed_string
write_typed_string_open signal value c l p o =
    let short : ltb 65535 (length value) ≡ false = ground (arith, l) in
    rw short (write_full_open (typed_frame signal value) c p o)

-- No byte to come.
pub read_typed_string_nothing :
    (c : Conn)
    → c.incoming ≡ []
    → c.is_closed ≡ false
    → read_typed_string c ≡ failed c.ends (record c { incoming = [] })
unfolding read_typed_string
read_typed_string_nothing c e o =
    ground (arith, read_full_short 3 c (omega (arith, ap (λ (z : Str). length z) e)) o, e)

-- A string of more than 65535 bytes is refused before a byte is written.
pub write_typed_string_long :
    (signal : ℕ) (value : Str) (c : Conn)
    → 65535 < length value
    → write_typed_string signal value c ≡ failed too_long c
unfolding write_typed_string
write_typed_string_long signal value c h = ground arith

-- A typed string that writeOriginalTypedString reports as written on a fresh connection is what
-- readOriginalTypedString reads at the other end, whatever follows it and however the network cut
-- the writes.
pub read-write_typed_string :
    (signal : ℕ) (value rest : Str) (c d r : Conn)
    → c.sent ≡ []
    → write_typed_string signal value c ≡ returned tt d
    → r.is_closed ≡ false
    → r.incoming ≡ d.sent ++ rest
    → read_typed_string r ≡ returned (value, signal) (record r { incoming = rest })
read-write_typed_string signal value rest c d r s w o e =
    elim (Bool-cases (ltb 65535 (length value))) [
      | inl long ↦ absurd (too_long_fails signal value c d (ground arith) w)
      | inr fits ↦ read-typed_frame signal value rest r (ground arith) o (
          e
          ∙ ap (λ q. q ++ rest)
              (write_typed_string_sent signal value c d w
                ∙ ap (λ q. q ++ typed_frame signal value) s))
    ]
  where
    too_long_fails :
        (signal : ℕ) (value : Str) (c d : Conn)
        → 65535 < length value
        → write_typed_string signal value c ≢ returned tt d
    too_long_fails signal value c d h w = cc (w, write_typed_string_long signal value c h)

-- What io.ReadFull reports, by how much of the frame has come.
abbrev pub cut_error : Str → Error
cut_error [] = eof
cut_error (a ∷ b ∷ s ∷ []) = eof
cut_error _ = unexpected_eof

-- Where the stream ends inside a typed string of at most 65535 bytes, readOriginalTypedString
-- reports an error: io.EOF where no byte of the header or none of the payload has come, and
-- io.ErrUnexpectedEOF otherwise.
pub read_typed_string_cut :
    (signal : ℕ) (value front back : Str) (x : ℕ) (r : Conn)
    → length value ≤ 65535
    → typed_frame signal value ≡ front ++ (x ∷ back)
    → r.is_closed ≡ false
    → r.ends ≡ eof
    → r.incoming ≡ front
    → read_typed_string r ≡ failed (cut_error front) (record r { incoming = [] })
unfolding read_typed_string typed_frame
read_typed_string_cut signal value [] back x r h t o n e =
    ground (arith, ap (λ (q : Str). length q) e, read_full_short 3 r)
read_typed_string_cut signal value (a ∷ []) back x r h t o n e =
    ground (arith, ap (λ (q : Str). length q) e, read_full_short 3 r)
read_typed_string_cut signal value (a ∷ b ∷ []) back x r h t o n e =
    ground (arith, ap (λ (q : Str). length q) e, read_full_short 3 r)
read_typed_string_cut signal value (a ∷ b ∷ s ∷ []) back x r h t o n e = ground (
  arith,
  read_full-append 3 (a ∷ b ∷ s ∷ []) [] r refl o e,
  read_full_short (a * 256 + b) (record r { incoming = [] }),
  ap (λ (q : Str). length q) t,
)
read_typed_string_cut signal value (a ∷ b ∷ s ∷ y ∷ front) back x r h t o n e = ground (
  arith,
  read_full-append 3 (a ∷ b ∷ s ∷ []) (y ∷ front) r refl o e,
  read_full_short (a * 256 + b) (record r { incoming = y ∷ front }),
  ap (λ (q : Str). length q) t,
  length-append front (x ∷ back),
)
