-- ===== src/Prelude/Result.antt =====
-- Go's (value, error) for code without state.
use mathlib.Core.Path.{◌≡◌, refl, subst}

pub data Result (E : Type 0) (A : Type 0) : Type 0 where
  ok : A → Result E A
  err : E → Result E A

infixl 5 ◌>>=◌
abbrev pub ◌>>=◌ : {E A B : Type 0} → Result E A → (A → Result E B) → Result E B
ok a >>= f = f a
err e >>= f = err e

-- What holds of the value, if there is one.
abbrev pub OnOk : {E A : Type 0} → (A → Type 0) → Result E A → Type 0
OnOk P (ok a) = P a
OnOk P (err e) = Unit {0}

pub OnOk-bind :
    {E A B : Type 0} (Q : A → Type 0) (P : B → Type 0) (m : Result E A) (f : A → Result E B)
    → OnOk Q m
    → ((a : A) → Q a → OnOk P (f a))
    → OnOk P (m >>= f)
OnOk-bind Q P (ok a) f h k = k a h
OnOk-bind Q P (err e) f h k = tt

pub OnOk-intro :
    {E A : Type 0} (P : A → Type 0) (m : Result E A) → ((a : A) → m ≡ ok a → P a) → OnOk P m
OnOk-intro P (ok a) h = h a refl
OnOk-intro P (err e) h = tt

pub OnOk-apply :
    {E A : Type 0} (P : A → Type 0) (m : Result E A) (a : A) → OnOk P m → m ≡ ok a → P a
OnOk-apply P (ok b) a h e = subst P (cc) h
OnOk-apply P (err x) a h e = cc
