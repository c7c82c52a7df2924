-- ===== src/Holder/Turns.antt =====
-- Sequences of steps of a simpleMuxHolder, and the rounds of its OpenStream (internal/tunnel/runner.go).
use backhaul_recovered.Prelude.{
  ℕ, zero, suc, ◌+◌, ◌%◌, ◌<◌, ◌≤◌, ◌≡◌, refl, sym, ap, ◌∙◌, Bool, false, Option, none, some, List,
  [], ◌∷◌, length, get_or, leb, if◌then◌else◌, inl, inr, Bool-cases, arith, length-append, ◌⊎◌,
  subst, ◌≢◌,
}
use native.Mathlib.Nat.{mod-lt}
use backhaul_recovered.Net.{Ran, returned, failed}
use backhaul_recovered.Mux.{Session, open_stream}
use backhaul_recovered.Holder.{
  Holder, new_holder, add, keep_open, remove, search, found, next_session, Pool, closed_in,
  set_session, opened, open_on, open_round,
}
use backhaul_recovered.Holder.Search.{first_open, turned, next_session-first_open}

-- `next` is a place of the list.
abbrev pub IsPlaced : Holder → Type 0
IsPlaced h = (h.next < length h.sessions) ⊎ ((h.sessions ≡ []) × (h.next ≡ 0))

-- The steps of a holder; each sees which sessions are closed at that moment.
pub data Op : Type 0 where
  adds : ℕ → Op
  removes : (ℕ → Bool) → ℕ → Op
  turns : (ℕ → Bool) → Op

pub apply : Op → Holder → Holder
apply (adds s) h = add s h
apply (removes is_closed s) h = remove is_closed s h
apply (turns is_closed) h = (next_session is_closed h).1

pub run : List Op → Holder → Holder
run [] h = h
run (o ∷ os) h = run os (apply o h)

add-IsPlaced : (s : ℕ) (h : Holder) → IsPlaced h → IsPlaced (add s h)
unfolding add
add-IsPlaced s h (inl l) = inl (omega (arith, length-append h.sessions (s ∷ [])))
add-IsPlaced s h (inr (e, z)) = inl (omega (arith, length-append h.sessions (s ∷ [])))

remove-IsPlaced : (is_closed : ℕ → Bool) (s : ℕ) (h : Holder) → IsPlaced (remove is_closed s h)
unfolding remove
remove-IsPlaced is_closed s h = go (keep_open is_closed s h.sessions)
  where
    go :
        (out : List ℕ)
        → IsPlaced (record { sessions = out; next = if leb (length out) h.next then 0 else h.next })
    go [] = inr (refl, ground arith)
    go (x ∷ xs) = inl (ground arith)

found-IsPlaced : (h : Holder) (o : Option ℕ) → h.next < length h.sessions → IsPlaced (found h o).1
found-IsPlaced h none l = inl l
found-IsPlaced h (some idx) l = inl (mod-lt (idx + 1) (omega arith))

next_session_empty :
    (is_closed : ℕ → Bool) (h : Holder) → h.sessions ≡ [] → (next_session is_closed h).1 ≡ h
unfolding next_session search
next_session_empty is_closed h e =
    ap (λ xs. (found h (search is_closed xs h.next (length xs) 0)).1) e

next_session-IsPlaced :
    (is_closed : ℕ → Bool) (h : Holder) → IsPlaced h → IsPlaced (next_session is_closed h).1
unfolding next_session
next_session-IsPlaced is_closed h (inl l) =
    found-IsPlaced h (search is_closed h.sessions h.next (length h.sessions) 0) l
next_session-IsPlaced is_closed h (inr p) =
    subst IsPlaced (sym (next_session_empty is_closed h p.0)) (inr p)

apply-IsPlaced : (o : Op) (h : Holder) → IsPlaced h → IsPlaced (apply o h)
unfolding apply
apply-IsPlaced (adds s) h p = add-IsPlaced s h p
apply-IsPlaced (removes is_closed s) h p = remove-IsPlaced is_closed s h
apply-IsPlaced (turns is_closed) h p = next_session-IsPlaced is_closed h p

run-IsPlaced : (os : List Op) (h : Holder) → IsPlaced h → IsPlaced (run os h)
unfolding run
run-IsPlaced [] h p = p
run-IsPlaced (o ∷ os) h p = run-IsPlaced os (apply o h) (apply-IsPlaced o h p)

weaken : (h : Holder) → IsPlaced h → (h.next < length h.sessions) ⊎ (h.sessions ≡ [])
weaken h (inl l) = inl l
weaken h (inr p) = inr p.0

-- After any sequence of steps of a new holder, nextSession answers with the session that is the
-- first open one from the place `next` on and around the list, and with none where none is open.
pub run-first_open :
    (os : List Op) (is_closed : ℕ → Bool)
    → (next_session is_closed (run os new_holder)).0
      ≡ first_open is_closed (turned (run os new_holder))
unfolding new_holder
run-first_open os is_closed =
    next_session-first_open is_closed (run os new_holder)
      (weaken (run os new_holder) (run-IsPlaced os new_holder (inr (refl, refl))))

-- The list without a session that stands in it is shorter.
keep_open-le :
    (is_closed : ℕ → Bool) (s : ℕ) (xs : List ℕ) → length (keep_open is_closed s xs) ≤ length xs
unfolding keep_open
keep_open-le is_closed s [] = omega arith
keep_open-le is_closed s (x ∷ xs) = ground (arith, keep_open-le is_closed s xs)

keep_open-lt :
    (is_closed : ℕ → Bool) (s : ℕ) (xs : List ℕ) (i : ℕ)
    → i < length xs
    → get_or xs i 0 ≡ s
    → length (keep_open is_closed s xs) < length xs
unfolding keep_open
keep_open-lt is_closed s [] i l e = absurd (omega arith)
keep_open-lt is_closed s (x ∷ xs) zero l e = ground (arith, keep_open-le is_closed s xs)
keep_open-lt is_closed s (x ∷ xs) (suc i) l e =
    ground (arith, keep_open-lt is_closed s xs i (omega arith) e)

-- An index that the search answers with is a place of the list with an open session.
search_found :
    (is_closed : ℕ → Bool) (xs : List ℕ) (n rounds i idx : ℕ)
    → 0 < length xs
    → search is_closed xs n rounds i ≡ some idx
    → (idx < length xs) × (is_closed (get_or xs idx 0) ≡ false)
unfolding search
search_found is_closed xs n zero i idx l e = cc
search_found is_closed xs n (suc rounds) i idx l e =
    let at : ℕ = (n + i) % length xs in
    elim (Bool-cases (is_closed (get_or xs at 0))) [
      | inl c ↦
          search_found is_closed xs n rounds (i + 1) idx l
            (sym (ap (λ b. if b then search is_closed xs n rounds (i + 1) else some at) c) ∙ e)
      | inr o ↦
          let q : some at ≡ some idx =
            sym (ap (λ b. if b then search is_closed xs n rounds (i + 1) else some at) o) ∙ e in
          let same : at ≡ idx = cc in
          (
            subst (λ k. k < length xs) same (mod-lt (n + i) l),
            subst (λ k. is_closed (get_or xs k 0) ≡ false) same o,
          )
    ]

-- What a round of OpenStream ends in: a stream of a session of the pool that was open, one session
-- less, or nothing to open a stream on.
abbrev pub Round : Pool → Option (ℕ × ℕ) × Pool → Type 0
Round p (some (s, stream), q) =
    (closed_in p s ≡ false) × (open_stream (p.session s) ≡ returned stream (q.session s))
Round p (none, q) =
    (length q.holder.sessions < length p.holder.sessions)
    ⊎ (first_open (closed_in p) (turned p.holder) ≡ none)

opened-Round :
    (p : Pool) (idx : ℕ) (h : Holder) (o : Ran Session ℕ)
    → idx < length p.holder.sessions
    → closed_in p (get_or p.holder.sessions idx 0) ≡ false
    → h.sessions ≡ p.holder.sessions
    → open_stream (p.session (get_or p.holder.sessions idx 0)) ≡ o
    → Round p (opened (get_or p.holder.sessions idx 0) o (record p { holder = h }))
unfolding remove
opened-Round p idx h (returned stream t) l c same e = (c, ground (arith, e))
opened-Round p idx h (failed x t) l c same e =
    let s : ℕ = get_or p.holder.sessions idx 0 in
    let q : Pool = set_session s t (record p { holder = h }) in
    inl (
      ground (
        arith,
        keep_open-lt (closed_in q) s p.holder.sessions idx l refl,
        ap (λ xs. length (keep_open (closed_in q) s xs)) same,
      ))

search_empty : (is_closed : ℕ → Bool) (n : ℕ) → search is_closed [] n 0 0 ≡ none
unfolding search
search_empty is_closed n = refl

-- Each round of OpenStream on a holder whose `next` is a place of its list opens a stream on a
-- session that was open, or drops a session from the list, or finds that no session is open; so
-- the rounds that drop one are no more than the sessions.
pub open_round-Round : (p : Pool) → IsPlaced p.holder → Round p (open_round p)
unfolding open_round next_session
open_round-Round p placed = go (searched p.holder.sessions) refl
  where
    searched : List ℕ → Option ℕ
    searched xs = search (closed_in p) xs p.holder.next (length xs) 0

    no_index : (idx : ℕ) → p.holder.sessions ≡ [] → searched p.holder.sessions ≢ some idx
    no_index idx e q =
        cc (sym (search_empty (closed_in p) p.holder.next) ∙ (sym (ap searched e) ∙ q))

    index_in :
        (idx : ℕ)
        → IsPlaced p.holder
        → searched p.holder.sessions ≡ some idx
        → (idx < length p.holder.sessions) × (closed_in p (get_or p.holder.sessions idx 0) ≡ false)
    index_in idx (inl l) q =
        search_found (closed_in p) p.holder.sessions p.holder.next (length p.holder.sessions) 0 idx
          (omega arith) q
    index_in idx (inr w) q = absurd (no_index idx w.0 q)

    go : (o : Option ℕ) → searched p.holder.sessions ≡ o → Round p (open_on (found p.holder o) p)
    go none q = inr (
        sym (next_session-first_open (closed_in p) p.holder (weaken p.holder placed))
        ∙ ap (λ z. (found p.holder z).0) q)
    go (some idx) q =
        let (l, c) = index_in idx placed q in
        opened-Round p idx (record p.holder { next = (idx + 1) % length p.holder.sessions })
          (open_stream (p.session (get_or p.holder.sessions idx 0))) l c refl refl
