-- ===== src/Original/Write.antt =====
-- writeOriginalFull against a connection that may take part of a Write, or fail at any point.
use backhaul_recovered.Prelude.{
  ℕ, false, zero, suc, ◌+◌, ◌≤◌, ◌<◌, ◌≡◌, refl, ap, ◌∙◌, sym, ◌≢◌, [], ◌∷◌, ◌++◌, length, take,
  drop, arith, append-nil, append_assoc, take-append-drop, length-drop, take-add,
}
use backhaul_recovered.Prelude.Text.{Str}
use backhaul_recovered.Net.{
  Ran, Conn, returned, failed, write, write_by, stuck, throw, unexpected_eof, ◌>>=◌,
}
use backhaul_recovered.Net.Laws.{Wrote, write-Wrote}
use backhaul_recovered.Original.{write_loop, write_full}

-- What a writer of `p` leaves behind: on success all of `p` stands behind what was sent before, on
-- an error a prefix of it, and the fuel is never the reason. Nothing that was received is touched.
abbrev pub Sends : Conn → Str → Ran Conn (Unit {0}) → Type 0
Sends c p (returned u d) = (d.sent ≡ c.sent ++ p) × (d.incoming ≡ c.incoming)
Sends c p (failed e d) =
    ((k : ℕ) × (d.sent ≡ c.sent ++ take k p)) × (d.incoming ≡ c.incoming) × (e ≢ stuck)

-- A Write of the first `n` bytes, and a writer of the others.
Sends-after :
    (n : ℕ) (p : Str) (c d : Conn) (r : Ran Conn (Unit {0}))
    → d.sent ≡ c.sent ++ take n p
    → d.incoming ≡ c.incoming
    → Sends d (drop n p) r
    → Sends c p r
Sends-after n p c d (returned u e) hs hi (s, i) = (
  s
      ∙ ap (λ q. q ++ drop n p) hs
      ∙ append_assoc c.sent (take n p) (drop n p)
      ∙ ap (λ q. c.sent ++ q) (take-append-drop n p),
  i ∙ hi,
)
Sends-after n p c d (failed x e) hs hi ((k, s), i, y) = (
  (
    n + k,
    s
        ∙ ap (λ q. q ++ take k (drop n p)) hs
        ∙ append_assoc c.sent (take n p) (take k (drop n p))
        ∙ ap (λ q. c.sent ++ q) (take-add n k p),
  ),
  i ∙ hi,
  y,
)

-- The round after a Write, given that the rounds behind it are right.
round-Sends :
    (fuel : ℕ) (p : Str) (c : Conn) (r : Ran Conn ℕ)
    → ((n : ℕ) (d : Conn) → 0 < n → Sends d (drop n p) (write_loop fuel (drop n p) d))
    → Wrote c p r
    → Sends c p (
        ((λ (s : Conn). r) >>= λ n. elim n [
          | zero ↦ throw unexpected_eof
          | suc m ↦ write_loop fuel (drop (suc m) p)
        ])
          c)
round-Sends fuel p c (returned zero d) ih (s, i, l) = ((0, s), i, λ e. cc)
round-Sends fuel p c (returned (suc n) d) ih (s, i, l) =
    Sends-after (suc n) p c d _ s i (ih (suc n) d (omega arith))
round-Sends fuel p c (failed e d) ih w = w

write_loop-Sends :
    (fuel : ℕ) (p : Str) (c : Conn) → length p ≤ fuel → Sends c p (write_loop fuel p c)
unfolding write_loop
write_loop-Sends fuel [] c h = (sym (append-nil c.sent), refl)
write_loop-Sends zero (x ∷ xs) c h = absurd (omega arith)
write_loop-Sends (suc fuel) (x ∷ xs) c h =
    round-Sends fuel (x ∷ xs) c (write (x ∷ xs) c)
      (λ n d pos. write_loop-Sends fuel (drop n (x ∷ xs)) d (omega (arith, length-drop n (x ∷ xs))))
      (write-Wrote (x ∷ xs) c)

-- However the network cuts the writes, writeOriginalFull has sent all of its bytes when it reports
-- success, and a prefix of them when it reports an error; its loop ends.
pub write_full-Sends : (p : Str) (c : Conn) → Sends c p (write_full p c)
unfolding write_full
write_full-Sends p c = write_loop-Sends (length p) p c (omega arith)

write_open :
    (p : Str) (c : Conn)
    → c.script ≡ []
    → c.is_closed ≡ false
    → write p c ≡ returned (length p) (record c { sent = c.sent ++ p })
unfolding write
write_open p c s o = ground (arith, ap (λ z. write_by z p c) s)

write_loop_all :
    (fuel : ℕ) (p : Str) (c : Conn) → length p ≤ 0 → write_loop fuel p c ≡ returned tt c
unfolding write_loop
write_loop_all fuel [] c h = refl
write_loop_all fuel (x ∷ xs) c h = absurd (omega arith)

-- A connection that is open and takes whatever it is given.
pub write_full_open :
    (p : Str) (c : Conn)
    → c.script ≡ []
    → c.is_closed ≡ false
    → write_full p c ≡ returned tt (record c { sent = c.sent ++ p })
unfolding write_full write_loop write
write_full_open [] c s o = ap (λ z. returned tt (record c { sent = z })) (sym (append-nil c.sent))
write_full_open (x ∷ xs) c s o =
    let d : Conn = record c { sent = c.sent ++ (x ∷ xs) } in
    ap
      (λ (r : Ran Conn ℕ).
        ((λ (k : Conn). r) >>= λ n. elim n [
          | zero ↦ throw unexpected_eof
          | suc m ↦ write_loop (length xs) (drop (suc m) (x ∷ xs))
        ])
          c)
      (write_open (x ∷ xs) c s o)
    ∙ write_loop_all (length xs) (drop (length xs) xs) d (omega (arith, length-drop (length xs) xs))
