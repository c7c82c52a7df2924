-- ===== src/Strings/Numbers.antt =====
-- Decimal numbers printed and parsed.
use backhaul_recovered.Prelude.{
  ℕ, zero, suc, ◌+◌, ◌/◌, ◌%◌, ◌^◌, ◌<◌, ◌≤◌, ◌≡◌, refl, sym, ap, ◌∙◌, false, some, [], ◌∷◌, ltb,
  ◌==◌, arith, Bool-cases, inl, inr, All, subst,
}
use backhaul_recovered.Prelude.Text.{Str}
use backhaul_recovered.Prelude.Int.{pos}
use backhaul_recovered.Strings.{digits_value, atoi, itoa_loop, itoa, contains_byte}

-- Reading what the loop has printed in front of `acc` gives the number, then goes on with `acc`.
digits_value-itoa_loop :
    (f n : ℕ) (acc : Str) → n < f → digits_value 0 (itoa_loop f n acc) ≡ digits_value n acc
unfolding itoa_loop digits_value
digits_value-itoa_loop zero n acc h = absurd (omega arith)
digits_value-itoa_loop (suc f) n acc h = elim (Bool-cases (ltb n 10)) [
  | inl one ↦ ground arith
  | inr more ↦
      ground (arith, digits_value-itoa_loop f (n / 10) ((n % 10 + 48) ∷ acc) (ground arith))
]

abbrev pub IsDigit : ℕ → Type 0
IsDigit c = (48 ≤ c) × (c ≤ 57)

itoa_loop-IsDigit :
    (f n : ℕ) (acc : Str)
    → n < f
    → All IsDigit acc
    → (c : ℕ) × (s : Str) × (itoa_loop f n acc ≡ c ∷ s) × All IsDigit (c ∷ s)
unfolding itoa_loop
itoa_loop-IsDigit zero n acc h d = absurd (omega arith)
itoa_loop-IsDigit (suc f) n acc h d = elim (Bool-cases (ltb n 10)) [
  | inl one ↦ (n + 48, acc, ground arith, ((ground arith, ground arith), d))
  | inr more ↦
      let (c, s, e, a) =
        itoa_loop-IsDigit f (n / 10) ((n % 10 + 48) ∷ acc) (ground arith)
          ((omega arith, omega arith), d) in
      (c, s, ground (arith, e), a)
]

-- A printed number is a digit and more digits.
pub itoa_digits : (n : ℕ) → (c : ℕ) × (s : Str) × (itoa n ≡ c ∷ s) × All IsDigit (c ∷ s)
unfolding itoa
itoa_digits n = itoa_loop-IsDigit (suc n) n [] (omega arith) tt

pub itoa-IsDigit : (n : ℕ) → All IsDigit (itoa n)
itoa-IsDigit n = let (c, s, e, a) = itoa_digits n in subst (All IsDigit) (sym e) a

pub digits_value-itoa : (n : ℕ) → digits_value 0 (itoa n) ≡ some n
unfolding itoa digits_value
digits_value-itoa n = digits_value-itoa_loop (suc n) n [] (omega arith)

atoi_digits :
    (n c : ℕ) (s : Str)
    → IsDigit c
    → digits_value 0 (c ∷ s) ≡ some n
    → n < 2 ^ 63
    → atoi (c ∷ s) ≡ some (pos n)
unfolding atoi
atoi_digits n c s d v h = ground (arith, v, d)

-- Atoi reads back every number that fits an int.
pub atoi-itoa : (n : ℕ) → n < 2 ^ 63 → atoi (itoa n) ≡ some (pos n)
atoi-itoa n h =
    let (c, s, e, a) = itoa_digits n in
    ap atoi e ∙ atoi_digits n c s a.0 (rw e at (digits_value-itoa n)) h

-- A printed number holds no byte but digits.
digits_hold : (b : ℕ) (s : Str) → All IsDigit s → ¬ IsDigit b → contains_byte b s ≡ false
unfolding contains_byte
digits_hold b [] a n = refl
digits_hold b (c ∷ s) a n = elim (Bool-cases (c == b)) [
  | inl e ↦ absurd (n (ground (arith, a.0)))
  | inr e ↦ ground (arith, digits_hold b s a.1 n)
]

pub contains_byte-itoa : (b n : ℕ) → ¬ IsDigit b → contains_byte b (itoa n) ≡ false
contains_byte-itoa b n h = digits_hold b (itoa n) (itoa-IsDigit n) h
