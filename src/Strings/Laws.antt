-- ===== src/Strings/Laws.antt =====
-- Trimming, cutting and searching.
use backhaul_recovered.Prelude.{
  ℕ, ◌≡◌, refl, sym, ap, ◌∙◌, Bool, false, ◌||◌, some, List, [], ◌∷◌, ◌++◌, arith, All, subst,
  All-append,
}
use mathlib.Core.List.{reverse, reverse-reverse, reverse-cons}
use backhaul_recovered.Prelude.Text.{Str}
use backhaul_recovered.Strings.{trim_left, trim, contains_byte, cut}

pub All-reverse {ℓ κ} : {A : Type ℓ} (P : A → Type κ) (xs : List A) → All P xs → All P (reverse xs)
All-reverse P [] h = h
All-reverse P (x ∷ xs) h =
    subst (All P) (sym (reverse-cons x xs))
      (All-append P (reverse xs) (x ∷ []) (h.0, tt) (All-reverse P xs h.1))

pub trim_left-All : (p : ℕ → Bool) (s : Str) → All (λ c. p c ≡ false) s → trim_left p s ≡ s
unfolding trim_left
trim_left-All p [] h = refl
trim_left-All p (c ∷ s) h = rw h.0

-- A string without a byte of the cutset is not trimmed.
pub trim-All : (p : ℕ → Bool) (s : Str) → All (λ c. p c ≡ false) s → trim p s ≡ s
unfolding trim
trim-All p s h =
    ap (λ z. reverse (trim_left p (reverse z))) (trim_left-All p s h)
    ∙ ap reverse (trim_left-All p (reverse s) (All-reverse (λ c. p c ≡ false) s h))
    ∙ reverse-reverse s

pub contains_byte-append :
    (b : ℕ) (s t : Str) → contains_byte b (s ++ t) ≡ (contains_byte b s || contains_byte b t)
unfolding contains_byte
contains_byte-append b [] t = refl
contains_byte-append b (c ∷ s) t = ground (arith, contains_byte-append b s t)

-- The first separator is the one that was put there.
pub cut-append : (b : ℕ) (s t : Str) → contains_byte b s ≡ false → cut b (s ++ b ∷ t) ≡ some (s, t)
unfolding cut contains_byte
cut-append b [] t h = ground arith
cut-append b (c ∷ s) t h = ground (arith, cut-append b s t)
