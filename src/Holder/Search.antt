-- ===== src/Holder/Search.antt =====
-- nextSession (internal/tunnel/runner.go) against a search in the list turned to begin at `next`.
use backhaul_recovered.Prelude.{
  ℕ, zero, suc, ◌+◌, ◌-◌, ◌%◌, ◌<◌, ◌≤◌, ◌≡◌, refl, sym, ap, ◌∙◌, Bool, Option, none, some, List,
  [], ◌∷◌, ◌++◌, length, get_or, take, drop, ltb, if◌then◌else◌, inl, inr, Bool-cases, arith,
  length-append, length-take, length-drop, ◌⊎◌, ap₂, take-nil,
}
use native.Mathlib.Nat.{mod-eq_of_lt, add-mod_right}
use backhaul_recovered.Holder.{Holder, search, found, next_session}

-- The first open session of a list.
pub first_open : (ℕ → Bool) → List ℕ → Option ℕ
first_open is_closed [] = none
first_open is_closed (s ∷ ss) =
    let rest = first_open is_closed ss in if is_closed s then rest else some s

-- The sessions in the order of their turns.
abbrev pub turned : Holder → List ℕ
turned h = drop h.next h.sessions ++ take h.next h.sessions

get_or-take :
    (n i : ℕ) (xs : List ℕ) → i < n → i < length xs → get_or (take n xs) i 0 ≡ get_or xs i 0
get_or-take zero i xs h l = absurd (omega arith)
get_or-take (suc n) i [] h l = absurd (omega arith)
get_or-take (suc n) zero (x ∷ xs) h l = refl
get_or-take (suc n) (suc i) (x ∷ xs) h l = get_or-take n i xs (omega arith) (omega arith)

get_or-drop : (n i : ℕ) (xs : List ℕ) → get_or (drop n xs) i 0 ≡ get_or xs (n + i) 0
get_or-drop zero i xs = ap (λ k. get_or xs k 0) (omega arith)
get_or-drop (suc n) i [] = refl
get_or-drop (suc n) i (x ∷ xs) =
    let e : suc (n + i) ≡ suc n + i = omega arith in
    get_or-drop n i xs ∙ ap (λ k. get_or (x ∷ xs) k 0) e

get_or-append_left :
    (i : ℕ) (xs ys : List ℕ) → i < length xs → get_or (xs ++ ys) i 0 ≡ get_or xs i 0
get_or-append_left i [] ys h = absurd (omega arith)
get_or-append_left zero (x ∷ xs) ys h = refl
get_or-append_left (suc i) (x ∷ xs) ys h = get_or-append_left i xs ys (omega arith)

get_or-append_right : (i : ℕ) (xs ys : List ℕ) → get_or (xs ++ ys) (length xs + i) 0 ≡ get_or ys i 0
get_or-append_right i [] ys = ap (λ k. get_or ys k 0) (omega arith)
get_or-append_right i (x ∷ xs) ys =
    let e : suc (length xs) + i ≡ suc (length xs + i) = omega arith in
    ap (λ k. get_or (x ∷ (xs ++ ys)) k 0) e ∙ get_or-append_right i xs ys

length-turned : (n : ℕ) (xs : List ℕ) → length (drop n xs ++ take n xs) ≡ length xs
length-turned n xs =
    omega (arith, length-append (drop n xs) (take n xs), length-take n xs, length-drop n xs)

-- The index that the loop computes is the place in the turned list.
get_or-turned :
    (n i : ℕ) (xs : List ℕ)
    → n < length xs
    → i < length xs
    → get_or (drop n xs ++ take n xs) i 0 ≡ get_or xs ((n + i) % length xs) 0
get_or-turned n i xs h l = elim (Bool-cases (ltb (n + i) (length xs))) [
  | inl e ↦
      get_or-append_left i (drop n xs) (take n xs) (ground (arith, length-drop n xs))
      ∙ get_or-drop n i xs
      ∙ ap (λ k. get_or xs k 0) (sym (mod-eq_of_lt (ground arith)))
  | inr e ↦
      let j : ℕ = n + i - length xs in
      let front : length (drop n xs) + j ≡ i = ground (arith, length-drop n xs) in
      let wraps : n + i ≡ j + length xs = ground arith in
      ap (λ k. get_or (drop n xs ++ take n xs) k 0) (sym front)
      ∙ get_or-append_right j (drop n xs) (take n xs)
      ∙ get_or-take n j xs (ground arith) (ground arith)
      ∙ ap (λ k. get_or xs k 0)
          (sym (
            ap (λ k. k % length xs) wraps
            ∙ add-mod_right j (length xs)
            ∙ mod-eq_of_lt (ground arith)))
]

drop-cons : (i : ℕ) (ys : List ℕ) → i < length ys → drop i ys ≡ get_or ys i 0 ∷ drop (suc i) ys
drop-cons i [] h = absurd (omega arith)
drop-cons zero (y ∷ ys) h = refl
drop-cons (suc i) (y ∷ ys) h = drop-cons i ys (omega arith)

drop_none : (i : ℕ) (ys : List ℕ) → length ys ≤ i → drop i ys ≡ []
drop_none i [] h = drop-nil i
  where
    drop-nil : (i : ℕ) → drop {A = ℕ} i [] ≡ []
    drop-nil zero = refl
    drop-nil (suc i) = refl
drop_none zero (y ∷ ys) h = absurd (omega arith)
drop_none (suc i) (y ∷ ys) h = drop_none i ys (omega arith)

module _ (is_closed : ℕ → Bool) (h : Holder) (within : h.next < length h.sessions) where
  at : ℕ → ℕ
  at i = get_or h.sessions ((h.next + i) % length h.sessions) 0

  -- What is left of the turned list begins with the session of the next round.
  turned_step : (i : ℕ) → i < length h.sessions → drop i (turned h) ≡ at i ∷ drop (suc i) (turned h)
  unfolding at
  turned_step i l =
      drop-cons i (turned h) (omega (arith, length-turned h.next h.sessions))
      ∙ ap (λ s. s ∷ drop (suc i) (turned h)) (get_or-turned h.next i h.sessions within l)

  search_from :
      (rounds i : ℕ)
      → i + rounds ≡ length h.sessions
      → (found h (search is_closed h.sessions h.next rounds i)).0
        ≡ first_open is_closed (drop i (turned h))
  unfolding search first_open at
  search_from zero i e =
      ap (first_open is_closed)
        (sym (drop_none i (turned h) (omega (arith, length-turned h.next h.sessions))))
  search_from (suc rounds) i e =
      let same : i + 1 ≡ suc i = omega arith in
      let more : drop (i + 1) (turned h) ≡ drop (suc i) (turned h) =
        ap (λ k. drop k (turned h)) same in
      let rest = search_from rounds (i + 1) (omega arith) ∙ ap (first_open is_closed) more in
      let goal : (found h (search is_closed h.sessions h.next (suc rounds) i)).0
          ≡ first_open is_closed (at i ∷ drop (suc i) (turned h)) =
        elim (Bool-cases (is_closed (at i))) [ inl c ↦ rw c rest | inr o ↦ rw o ] in
      goal ∙ ap (first_open is_closed) (sym (turned_step i (omega arith)))

-- nextSession answers with the first session that is open, from the place `next` on and around to
-- the place before it, and with none where no session is open.
pub next_session-first_open :
    (is_closed : ℕ → Bool) (h : Holder)
    → (h.next < length h.sessions) ⊎ (h.sessions ≡ [])
    → (next_session is_closed h).0 ≡ first_open is_closed (turned h)
unfolding next_session search first_open
next_session-first_open is_closed h (inl within) =
    search_from is_closed h within (length h.sessions) 0 (omega arith)
next_session-first_open is_closed h (inr e) =
    let n : ℕ = h.next in
    ap (λ xs. (found h (search is_closed xs n (length xs) 0)).0) e
    ∙ sym (
        ap (λ xs. first_open is_closed (drop n xs ++ take n xs)) e
        ∙ ap₂ (λ xs ys. first_open is_closed (xs ++ ys)) (drop_none n [] (omega arith))
            (take-nil n))
