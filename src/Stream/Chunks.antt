-- ===== src/Stream/Chunks.antt =====
-- The Write in chunks that the connections of internal/tunnel/runner.go share.
use backhaul_recovered.Prelude.{
  inl, inr, subst, ℕ, zero, suc, ◌+◌, ◌<◌, ◌≤◌, ◌≡◌, refl, sym, ap, ◌∙◌, List, [], ◌∷◌, ◌++◌,
  length, take, drop, arith, ◌≢◌, append_assoc, take-append-drop, length-take, take-length-take,
  length-drop,
}
use backhaul_recovered.Prelude.Text.{Str}
use backhaul_recovered.Net.{M, returned, failed, stuck, ◌>>=◌, pure}
use backhaul_recovered.Net.Laws.{Keeps, Keeps-bind, returned_bind, failed_bind}
use backhaul_recovered.Stream.{concat, write_chunks, write_stream, write_each}

pub concat-append : (cs ds : List Str) → concat (cs ++ ds) ≡ concat cs ++ concat ds
concat-append [] ds = refl
concat-append (c ∷ cs) ds =
    ap (λ q. c ++ q) (concat-append cs ds) ∙ sym (append_assoc c (concat cs) (concat ds))

count : {S : Type 0} (m n : ℕ) (s t : S) → returned m s ≡ returned n t → m ≡ n
count m n s t h = cc

module _ {S : Type 0} (emit : Str → M S (Unit {0})) (limit : ℕ) where
  -- The chunks that were sent on the way from one state to another.
  pub data Emitted : S → List Str → S → Type 0 where
    none_sent : {s t : S} → s ≡ t → Emitted s [] t
    one_sent :
        {s t u : S} {c : Str} {cs : List Str} {o : Unit {0}}
        → emit c s ≡ returned o t
        → length c ≤ limit
        → Emitted t cs u
        → Emitted s (c ∷ cs) u

  pub Emitted-append :
      {s t u : S} {cs ds : List Str} → Emitted s cs t → Emitted t ds u → Emitted s (cs ++ ds) u
  Emitted-append {u = u} {ds = ds} (none_sent e) k = subst (λ x. Emitted x ds u) (sym e) k
  Emitted-append (one_sent e l h) k = one_sent e l (Emitted-append h k)

  module _ (pos : 0 < limit) where
    chunks_sent :
        (fuel : ℕ) (p : Str) (s t : S) (n : ℕ)
        → write_chunks emit limit fuel p s ≡ returned n t
        → (cs : List Str) × Emitted s cs t × (concat cs ≡ p) × (n ≡ length p)
    unfolding write_chunks
    chunks_sent fuel [] s t n h = ([], none_sent (cc), refl, cc)
    chunks_sent zero (x ∷ xs) s t n h = cc
    chunks_sent (suc fuel) (x ∷ xs) s t n h =
        let p : Str = x ∷ xs in
        let chunk : Str = take limit p in
        let rest : M S ℕ = write_chunks emit limit fuel (drop (length chunk) p) in
        let (u, s', e, h') =
          returned_bind (emit chunk) (λ _. rest >>= λ k. pure (length chunk + k)) s h in
        let (k, t', e', h'') = returned_bind rest (λ k. pure (length chunk + k)) s' h' in
        let (cs, em, c, l) = chunks_sent fuel (drop (length chunk) p) s' t' k e' in
        (
          chunk ∷ cs,
          one_sent e (omega (arith, length-take limit p))
              (subst (λ z. Emitted s' cs z) (cc h'') em),
          ap (λ q. chunk ++ q) c
              ∙ ap (λ q. q ++ drop (length chunk) p) (sym (take-length-take limit p))
              ∙ take-append-drop (length chunk) p,
          omega (
            arith,
            count (length chunk + k) n t' t h'',
            length-take limit p,
            length-drop (length chunk) p,
          ),
        )

    -- A Write that reports success reports all of its bytes, and has sent them in order, in chunks
    -- that keep the limit.
    pub write_stream-Emitted :
        (p : Str) (s t : S) (n : ℕ)
        → write_stream emit limit p s ≡ returned n t
        → (cs : List Str) × Emitted s cs t × (concat cs ≡ p) × (n ≡ length p)
    unfolding write_stream
    write_stream-Emitted p s t n h = chunks_sent (length p) p s t n h

    pub write_each-Emitted :
        (ps : List Str) (s t : S) {o : Unit {0}}
        → write_each emit limit ps s ≡ returned o t
        → (cs : List Str) × Emitted s cs t × (concat cs ≡ concat ps)
    unfolding write_each
    write_each-Emitted [] s t h = ([], none_sent (cc), refl)
    write_each-Emitted (p ∷ ps) s t h =
        let (n, s', e, h') =
          returned_bind (write_stream emit limit p) (λ _. write_each emit limit ps) s h in
        let (cs, em, c, l) = write_stream-Emitted p s s' n e in
        let (ds, em', c') = write_each-Emitted ps s' t h' in
        (
          cs ++ ds,
          Emitted-append em em',
          concat-append cs ds ∙ ap (λ q. q ++ concat ds) c ∙ ap (λ q. p ++ q) c',
        )

    chunks-ne-stuck :
        (fuel : ℕ) (p : Str) (s t : S)
        → ((c : Str) (s t : S) → emit c s ≢ failed stuck t)
        → length p ≤ fuel
        → write_chunks emit limit fuel p s ≢ failed stuck t
    unfolding write_chunks
    chunks-ne-stuck fuel [] s t ok h e = cc
    chunks-ne-stuck zero (x ∷ xs) s t ok h e = absurd (omega arith)
    chunks-ne-stuck (suc fuel) (x ∷ xs) s t ok h e =
        let p : Str = x ∷ xs in
        let chunk : Str = take limit p in
        let rest : M S ℕ = write_chunks emit limit fuel (drop (length chunk) p) in
        elim (failed_bind (emit chunk) (λ _. rest >>= λ k. pure (length chunk + k)) s e) [
          | inl f ↦ ok chunk s t f
          | inr (a, s', _, f) ↦ elim (failed_bind rest (λ k. pure (length chunk + k)) s' f) [
            | inl g ↦
                chunks-ne-stuck fuel (drop (length chunk) p) s' t ok
                  (omega (arith, length-take limit p, length-drop (length chunk) p)) g
            | inr (k, t', _, g) ↦ cc g
          ]
        ]

    -- The loop of a Write ends: the fuel is enough.
    pub write_stream-ne-stuck :
        (p : Str) (s t : S)
        → ((c : Str) (s t : S) → emit c s ≢ failed stuck t)
        → write_stream emit limit p s ≢ failed stuck t
    unfolding write_stream
    write_stream-ne-stuck p s t ok = chunks-ne-stuck (length p) p s t ok (omega arith)

-- A Write leaves alone what each of its chunks leaves alone.
pub write_chunks-Keeps :
    {S : Type 0} (R : S → S → Type 0) (emit : Str → M S (Unit {0})) (limit fuel : ℕ) (p : Str)
    (s : S)
    → ((s : S) → R s s)
    → ((s t u : S) → R s t → R t u → R s u)
    → ((c : Str) (s : S) → Keeps R s (emit c s))
    → Keeps R s (write_chunks emit limit fuel p s)
unfolding write_chunks
write_chunks-Keeps R emit limit fuel [] s same trans keep = same s
write_chunks-Keeps R emit limit zero (x ∷ xs) s same trans keep = same s
write_chunks-Keeps {S} R emit limit (suc fuel) (x ∷ xs) s same trans keep =
    let p : Str = x ∷ xs in
    let chunk : Str = take limit p in
    let rest : M S ℕ = write_chunks emit limit fuel (drop (length chunk) p) in
    Keeps-bind R (emit chunk) (λ _. rest >>= λ k. pure (length chunk + k)) s (trans s)
      (keep chunk s)
      (λ _ t.
        Keeps-bind R rest (λ k. pure (length chunk + k)) t (trans t)
          (write_chunks-Keeps R emit limit fuel (drop (length chunk) p) t same trans keep)
          (λ _ u. same u))

pub write_stream-Keeps :
    {S : Type 0} (R : S → S → Type 0) (emit : Str → M S (Unit {0})) (limit : ℕ) (p : Str) (s : S)
    → ((s : S) → R s s)
    → ((s t u : S) → R s t → R t u → R s u)
    → ((c : Str) (s : S) → Keeps R s (emit c s))
    → Keeps R s (write_stream emit limit p s)
unfolding write_stream
write_stream-Keeps R emit limit p s = write_chunks-Keeps R emit limit (length p) p s
