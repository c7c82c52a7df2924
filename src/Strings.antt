-- ===== src/Strings.antt =====
-- The functions of Go's `strings` and `strconv` that the configuration code uses, on strings of
-- bytes below 128. (Go's TrimSpace and ToLower also know letters and spaces beyond ASCII.)
pub mod Laws
pub mod Numbers
use backhaul_recovered.Prelude.{
  ℕ, zero, suc, ◌+◌, ◌-◌, ◌*◌, ◌/◌, ◌%◌, ◌^◌, Bool, true, false, ◌&&◌, ◌||◌, Option, none, some,
  List, [], ◌∷◌, ◌++◌, map, length, ltb, leb, ◌==◌, if◌then◌else◌,
}
use backhaul_recovered.Prelude.Text.{Str, str_eq, codes}
use backhaul_recovered.Prelude.Int.{ℤ, pos, negsuc}
use mathlib.Core.List.{reverse}

unfoldable pub is_space : ℕ → Bool
is_space c = c == 32 || (leb 9 c && leb c 13)

-- strings.TrimLeftFunc and strings.TrimRightFunc.
unfoldable pub trim_left : (ℕ → Bool) → Str → Str
trim_left p [] = []
trim_left p (c ∷ s) = if p c then trim_left p s else c ∷ s

unfoldable pub trim_right : (ℕ → Bool) → Str → Str
unfolding trim_left
trim_right p s = reverse (trim_left p (reverse s))

-- strings.TrimFunc; strings.Trim with a cutset is the same with membership.
unfoldable pub trim : (ℕ → Bool) → Str → Str
unfolding trim_right
trim p s = trim_right p (trim_left p s)

unfoldable pub trim_space : Str → Str
unfolding trim is_space
trim_space s = trim is_space s

unfoldable pub contains_byte : ℕ → Str → Bool
contains_byte b [] = false
contains_byte b (c ∷ s) = c == b || contains_byte b s

unfoldable pub trim_cutset : Str → Str → Str
unfolding trim contains_byte
trim_cutset cutset s = trim (λ c. contains_byte c cutset) s

unfoldable pub lower : ℕ → ℕ
lower c = if leb 65 c && leb c 90 then c + 32 else c

unfoldable pub to_lower : Str → Str
unfolding lower
to_lower = map lower

-- strings.EqualFold on ASCII.
unfoldable pub equal_fold : Str → Str → Bool
unfolding to_lower
equal_fold a b = str_eq (to_lower a) (to_lower b)

unfoldable pub has_prefix : Str → Str → Bool
has_prefix [] s = true
has_prefix (p ∷ ps) [] = false
has_prefix (p ∷ ps) (c ∷ s) = p == c && has_prefix ps s

abbrev drop_length : Str → Str → Str
drop_length [] s = s
drop_length (p ∷ ps) [] = []
drop_length (p ∷ ps) (c ∷ s) = drop_length ps s

unfoldable pub trim_prefix : Str → Str → Str
unfolding has_prefix
trim_prefix p s = if has_prefix p s then drop_length p s else s

-- strings.TrimSuffix with a suffix of one byte, and the test for one.
unfoldable pub ends_with : ℕ → Str → Bool
ends_with b [] = false
ends_with b (c ∷ []) = c == b
ends_with b (c ∷ d ∷ s) = ends_with b (d ∷ s)

unfoldable pub drop_last : Str → Str
drop_last [] = []
drop_last (c ∷ []) = []
drop_last (c ∷ d ∷ s) = c ∷ drop_last (d ∷ s)

unfoldable pub trim_suffix : ℕ → Str → Str
unfolding ends_with drop_last
trim_suffix b s = if ends_with b s then drop_last s else s

-- strings.SplitN(s, sep, 2) with a separator of one byte: the two parts, or none.
unfoldable pub cut : ℕ → Str → Option (Str × Str)
cut b [] = none
cut b (c ∷ s) =
    let rest = cut b s in
    if c == b then some ([], s) else elim rest [ none ↦ none | some (l, r) ↦ some (c ∷ l, r) ]

-- What stands before the first `b`, or all of it.
unfoldable pub before : ℕ → Str → Str
before b [] = []
before b (c ∷ s) = if c == b then [] else c ∷ before b s

-- strings.Split with a separator of one byte.
abbrev cons_first : ℕ → List Str → List Str
cons_first c [] = (c ∷ []) ∷ []
cons_first c (w ∷ ws) = (c ∷ w) ∷ ws

unfoldable pub split : ℕ → Str → List Str
split b [] = [] ∷ []
split b (c ∷ s) = let rest = split b s in if c == b then [] ∷ rest else cons_first c rest

-- What stands behind the last `b`: `s[LastIndex(s, b)+1:]`; all of `s` where there is none.
unfoldable pub after_last : ℕ → Str → Str
unfolding contains_byte
after_last b [] = []
after_last b (c ∷ s) =
    let rest = after_last b s in if contains_byte b s then rest else if c == b then s else c ∷ s

-- strconv.Atoi: a sign, then decimal digits, in the range of a 64-bit int.
unfoldable pub is_digit : ℕ → Bool
is_digit c = leb 48 c && leb c 57

unfoldable pub digits_value : ℕ → Str → Option ℕ
unfolding is_digit
digits_value acc [] = some acc
digits_value acc (c ∷ s) =
    let more = digits_value (acc * 10 + (c - 48)) s in if is_digit c then more else none

unfoldable pub unsigned_value : Str → Option ℕ
unfolding digits_value
unsigned_value [] = none
unsigned_value (c ∷ s) = digits_value 0 (c ∷ s)

abbrev positive : Option ℕ → Option ℤ
positive none = none
positive (some n) = if ltb n (2 ^ 63) then some (pos n) else none

abbrev negative : Option ℕ → Option ℤ
negative none = none
negative (some zero) = some (pos 0)
negative (some (suc n)) = if ltb n (2 ^ 63) then some (negsuc n) else none

unfoldable pub atoi : Str → Option ℤ
unfolding unsigned_value
atoi [] = none
atoi (c ∷ s) =
    if c == b'-'
    then negative (unsigned_value s)
    else if c == b'+'
    then positive (unsigned_value s)
    else positive (unsigned_value (c ∷ s))

-- fmt.Sprintf("%d", n) and strconv.Itoa of a number that is not negative. A digit a round: the
-- fuel is enough, as it is more than the number.
unfoldable pub itoa_loop : ℕ → ℕ → Str → Str
itoa_loop zero n acc = acc
itoa_loop (suc f) n acc =
    let rest = itoa_loop f (n / 10) ((n % 10 + 48) ∷ acc) in
    if ltb n 10 then (n + 48) ∷ acc else rest

unfoldable pub itoa : ℕ → Str
unfolding itoa_loop
itoa n = itoa_loop (suc n) n []
