-- ===== src/Websocket/Length.antt =====
-- The length of a frame, written and read back.
use Prim.Native.Nat.{bit_and, bit_or}
use backhaul_recovered.Prelude.{
  ℕ, ◌/◌, ◌%◌, ◌^◌, ◌<◌, ◌≤◌, ◌≡◌, refl, Bool, true, false, [], ◌∷◌, ◌++◌, arith, inl, inr, ltb,
  leb, Bool-cases, if◌then◌else◌,
}
use backhaul_recovered.Prelude.Text.{Str}
use backhaul_recovered.Prelude.Bits.{set_top_low, set_top_high, clear_top_low, clear_top_high}
use backhaul_recovered.Net.{Conn, returned, failed, frame_too_large}
use backhaul_recovered.Net.Laws.{read_full-append}
use backhaul_recovered.Websocket.{length_bytes, read_len}

-- The two values that the mask bit takes.
abbrev pub mask_bit : Bool → ℕ
mask_bit true = 0x80
mask_bit false = 0

seven_low : (b : Bool) (n : ℕ) → n < 128 → bit_and (bit_or (mask_bit b) n) 0x7f ≡ n
seven_low true n h = set_top_low n h
seven_low false n h = clear_top_low n h

top_high : (b : Bool) (n : ℕ) → n < 128 → bit_and (bit_or (mask_bit b) n) 0x80 ≡ mask_bit b
top_high true n h = set_top_high n h
top_high false n h = clear_top_high n h

-- A header's length bytes: the first, and those behind it.
pub first_length : ℕ → ℕ
first_length n = if ltb n 126 then n else if leb n 65535 then 126 else 127

pub more_length : ℕ → Str
more_length n =
    if ltb n 126
    then []
    else if leb n 65535
    then (n / 2 ^ 8 % 256) ∷ (n % 256) ∷ []
    else (n / 2 ^ 56 % 256)
      ∷ (n / 2 ^ 48 % 256)
      ∷ (n / 2 ^ 40 % 256)
      ∷ (n / 2 ^ 32 % 256)
      ∷ (n / 2 ^ 24 % 256)
      ∷ (n / 2 ^ 16 % 256)
      ∷ (n / 2 ^ 8 % 256)
      ∷ (n % 256)
      ∷ []

pub length_bytes-eq :
    (b : Bool) (n : ℕ)
    → length_bytes (mask_bit b) n ≡ bit_or (mask_bit b) (first_length n) ∷ more_length n
unfolding length_bytes first_length more_length
length_bytes-eq b n = ground arith

pub first_length_fields :
    (b : Bool) (n : ℕ)
    → (bit_and (bit_or (mask_bit b) (first_length n)) 0x7f ≡ first_length n)
      × (bit_and (bit_or (mask_bit b) (first_length n)) 0x80 ≡ mask_bit b)
unfolding first_length
first_length_fields b n =
    (seven_low b (first_length n) (ground arith), top_high b (first_length n) (ground arith))

-- A length below 2 ^ 31 is read back from the bytes that stand behind the first.
pub read_len_lem :
    (n : ℕ) (rest : Str) (c : Conn)
    → n < 2 ^ 31
    → c.is_closed ≡ false
    → c.incoming ≡ more_length n ++ rest
    → read_len (first_length n) c ≡ returned n (record c { incoming = rest })
unfolding read_len first_length more_length
read_len_lem n rest c h o e = elim (Bool-cases (ltb n 126)) [
  | inl small ↦ ground arith
  | inr big ↦ elim (Bool-cases (leb n 65535)) [
    | inl two ↦ ground (
      arith,
      read_full-append 2 ((n / 2 ^ 8 % 256) ∷ (n % 256) ∷ []) rest c refl o (ground arith),
    )
    | inr eight ↦ ground (
      arith,
      read_full-append 8
          ((n / 2 ^ 56 % 256)
            ∷ (n / 2 ^ 48 % 256)
            ∷ (n / 2 ^ 40 % 256)
            ∷ (n / 2 ^ 32 % 256)
            ∷ (n / 2 ^ 24 % 256)
            ∷ (n / 2 ^ 16 % 256)
            ∷ (n / 2 ^ 8 % 256)
            ∷ (n % 256)
            ∷ [])
          rest c refl o (ground arith),
    )
  ]
]

-- wsReadLen refuses a length from 2 ^ 31 to 2 ^ 64 - 1 once it has read its eight bytes.
pub read_len_large :
    (n : ℕ) (rest : Str) (c : Conn)
    → 2 ^ 31 ≤ n
    → n < 2 ^ 64
    → c.is_closed ≡ false
    → c.incoming ≡ more_length n ++ rest
    → read_len (first_length n) c ≡ failed frame_too_large (record c { incoming = rest })
unfolding read_len first_length more_length
read_len_large n rest c l h o e = ground (
  arith,
  read_full-append 8
      ((n / 2 ^ 56 % 256)
        ∷ (n / 2 ^ 48 % 256)
        ∷ (n / 2 ^ 40 % 256)
        ∷ (n / 2 ^ 32 % 256)
        ∷ (n / 2 ^ 24 % 256)
        ∷ (n / 2 ^ 16 % 256)
        ∷ (n / 2 ^ 8 % 256)
        ∷ (n % 256)
        ∷ [])
      rest c refl o (ground arith),
)
