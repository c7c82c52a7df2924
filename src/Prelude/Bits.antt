-- ===== src/Prelude/Bits.antt =====
-- Exclusive or on numbers of every width, from the digit recursion that it stands for.
use mathlib.Core.Bool.{Bool, true, ◌&&◌}
use backhaul_recovered.Prelude.Tests.{◌==◌}
use Prim.Native.Nat.{
  bit_and, bit_or, ℕ, zero, suc, ◌+◌, ◌*◌, ◌/◌, ◌%◌, ◌≤◌, ◌<◌, bit_xor, digits, differ,
  bit_xor-bitwise,
}
use mathlib.Core.Path.{◌≡◌, refl}
use native.Mathlib.Omega.{arith}

abbrev xor_digits : ℕ → ℕ → ℕ → ℕ
xor_digits n a b = digits (λ b. b) differ n a b

xor_digits_fuel : (n m a b : ℕ) → a ≤ n → a ≤ m → xor_digits n a b ≡ xor_digits m a b
xor_digits_fuel zero zero a b p q = refl
xor_digits_fuel zero (suc m) zero b p q = refl
xor_digits_fuel zero (suc m) (suc a) b p q = absurd (omega arith)
xor_digits_fuel (suc n) zero zero b p q = refl
xor_digits_fuel (suc n) zero (suc a) b p q = absurd (omega arith)
xor_digits_fuel (suc n) (suc m) zero b p q = refl
xor_digits_fuel (suc n) (suc m) (suc a) b p q =
    rw (xor_digits_fuel n m (suc a / 2) (b / 2) (omega arith) (omega arith))

differ_bits : (a b : ℕ) → a < 2 → b < 2 → differ a b ≡ (a + b) % 2
differ_bits zero b p q = omega arith
differ_bits (suc zero) zero p q = omega arith
differ_bits (suc zero) (suc zero) p q = omega arith
differ_bits (suc zero) (suc (suc b)) p q = absurd (omega arith)
differ_bits (suc (suc a)) b p q = absurd (omega arith)

zero-bit_xor : (b : ℕ) → bit_xor 0 b ≡ b
zero-bit_xor b = bit_xor-bitwise 0 b

-- The lowest binary digit of an exclusive or, and the rest.
pub bit_xor_step : (a b : ℕ) → bit_xor a b ≡ bit_xor (a / 2) (b / 2) * 2 + (a + b) % 2
bit_xor_step zero b = omega (arith, zero-bit_xor b, zero-bit_xor (b / 2))
bit_xor_step (suc a) b = omega (
  arith,
  bit_xor-bitwise (suc a) b,
  bit_xor-bitwise (suc a / 2) (b / 2),
  xor_digits_fuel a (suc a / 2) (suc a / 2) (b / 2) (omega arith) (omega arith),
  differ_bits (suc a % 2) (b % 2) (omega arith) (omega arith),
)

bit_xor_half : (a b : ℕ) → bit_xor a b / 2 ≡ bit_xor (a / 2) (b / 2)
bit_xor_half a b = omega (arith, bit_xor_step a b)

bit_xor_twice_fuel : (n a k : ℕ) → a ≤ n → k ≤ n → bit_xor (bit_xor a k) k ≡ a
bit_xor_twice_fuel zero zero zero p q = refl
bit_xor_twice_fuel zero zero (suc k) p q = absurd (omega arith)
bit_xor_twice_fuel zero (suc a) k p q = absurd (omega arith)
bit_xor_twice_fuel (suc n) a k p q = ground (
  arith,
  bit_xor_step a k,
  bit_xor_step (bit_xor a k) k,
  bit_xor_half a k,
  bit_xor_twice_fuel n (a / 2) (k / 2) (omega arith) (omega arith),
)

-- Applying the same mask twice gives the value back.
pub bit_xor_twice : (a k : ℕ) → bit_xor (bit_xor a k) k ≡ a
bit_xor_twice a k = bit_xor_twice_fuel (a + k) a k (omega arith) (omega arith)

-- Two functions that agree on every number below a bound, by evaluation.
pub agree_below : (ℕ → ℕ) → (ℕ → ℕ) → ℕ → Bool
agree_below f g zero = true
agree_below f g (suc n) = f n == g n && agree_below f g n

pub agree_below_sound : (f g : ℕ → ℕ) (n x : ℕ) → agree_below f g n ≡ true → x < n → f x ≡ g x
unfolding agree_below
agree_below_sound f g zero x h l = absurd (omega arith)
agree_below_sound f g (suc n) x h l = ground (arith, agree_below_sound f g n x)

-- The fields of the two header bytes of a frame: four bits under a set top bit, and seven bits
-- under a top bit that is set or not.
pub low_nibble : (n : ℕ) → n < 16 → bit_and (bit_or 0x80 (bit_and n 0x0f)) 0x0f ≡ n
unfolding agree_below
low_nibble n h =
    agree_below_sound (λ x. bit_and (bit_or 0x80 (bit_and x 0x0f)) 0x0f) (λ x. x) 16 n refl h

pub set_top_low : (n : ℕ) → n < 128 → bit_and (bit_or 0x80 n) 0x7f ≡ n
unfolding agree_below
set_top_low n h = agree_below_sound (λ x. bit_and (bit_or 0x80 x) 0x7f) (λ x. x) 128 n refl h

pub set_top_high : (n : ℕ) → n < 128 → bit_and (bit_or 0x80 n) 0x80 ≡ 128
unfolding agree_below
set_top_high n h = agree_below_sound (λ x. bit_and (bit_or 0x80 x) 0x80) (λ x. 128) 128 n refl h

pub clear_top_low : (n : ℕ) → n < 128 → bit_and (bit_or 0 n) 0x7f ≡ n
unfolding agree_below
clear_top_low n h = agree_below_sound (λ x. bit_and (bit_or 0 x) 0x7f) (λ x. x) 128 n refl h

pub clear_top_high : (n : ℕ) → n < 128 → bit_and (bit_or 0 n) 0x80 ≡ 0
unfolding agree_below
clear_top_high n h = agree_below_sound (λ x. bit_and (bit_or 0 x) 0x80) (λ x. 0) 128 n refl h
