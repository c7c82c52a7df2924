-- ===== src/Original/Reader.antt =====
-- What the writers and the reader of typed strings and signals do to the part of a connection that
-- is read (internal/tunnel/original_protocol.go).
use backhaul_recovered.Prelude.{
  ℕ, sym, subst, Bool, List, get_or, zero, suc, ◌≡◌, refl, ap, ◌∙◌, true, false, ◌==◌, [], ◌∷◌,
  drop, arith, ltb, length, if◌then◌else◌,
}
use backhaul_recovered.Prelude.Text.{Str}
use backhaul_recovered.Net.{
  Conn, M, Ran, returned, failed, throw, write, unexpected_eof, too_long, closed, ◌>>=◌, read_full,
  Outcome, uint16, pure,
}
use backhaul_recovered.Net.Laws.{SameReader, Keeps, Keeps-bind, write-Keeps}
use backhaul_recovered.Original.{
  write_loop, write_full, write_typed_string, write_signal, typed_frame, read_typed_string,
}

pub SameReader-trans : (c d e : Conn) → SameReader c d → SameReader d e → SameReader c e
SameReader-trans c d e r s = record {
  same_incoming = s.same_incoming ∙ r.same_incoming;
  same_ends = s.same_ends ∙ r.same_ends;
  same_closed = s.same_closed ∙ r.same_closed;
}

pub SameReader-refl : (c : Conn) → SameReader c c
SameReader-refl c = record { same_incoming = refl; same_ends = refl; same_closed = refl }

-- The round behind a Write that took `n` bytes.
abbrev round : (ℕ → M Conn (Unit {0})) → ℕ → M Conn (Unit {0})
round rest n = elim n [ zero ↦ throw unexpected_eof | suc m ↦ rest (suc m) ]

round-Keeps :
    (rest : ℕ → M Conn (Unit {0}))
    → ((n : ℕ) (d : Conn) → Keeps SameReader d (rest n d))
    → (n : ℕ) (d : Conn) → Keeps SameReader d (round rest n d)
round-Keeps rest k zero d = SameReader-refl d
round-Keeps rest k (suc m) d = k (suc m) d

write_loop-Keeps : (fuel : ℕ) (p : Str) (c : Conn) → Keeps SameReader c (write_loop fuel p c)
unfolding write_loop
write_loop-Keeps fuel [] c = SameReader-refl c
write_loop-Keeps zero (x ∷ xs) c = SameReader-refl c
write_loop-Keeps (suc fuel) (x ∷ xs) c =
    Keeps-bind SameReader (write (x ∷ xs)) (round (λ n. write_loop fuel (drop n (x ∷ xs)))) c
      (SameReader-trans c) (write-Keeps (x ∷ xs) c)
      (round-Keeps (λ n. write_loop fuel (drop n (x ∷ xs)))
        (λ n d. write_loop-Keeps fuel (drop n (x ∷ xs)) d))

write_full-Keeps : (p : Str) (c : Conn) → Keeps SameReader c (write_full p c)
unfolding write_full
write_full-Keeps p c = write_loop-Keeps (length p) p c

pub write_signal-Keeps : (b : ℕ) (c : Conn) → Keeps SameReader c (write_signal b c)
unfolding write_signal
write_signal-Keeps b c = write_full-Keeps (b ∷ []) c

pub write_typed_string-Keeps :
    (signal : ℕ) (value : Str) (c : Conn) → Keeps SameReader c (write_typed_string signal value c)
unfolding write_typed_string
write_typed_string-Keeps signal value c =
    elim (ltb 65535 (length value))
      as (λ b.
        Keeps SameReader c
          ((if b then throw too_long else write_full (typed_frame signal value)) c)) [
            | true ↦ SameReader-refl c
            | false ↦ write_full-Keeps (typed_frame signal value) c
          ]

-- Nothing is read from a connection that this end has closed.
pub read_typed_string-closed :
    (c : Conn) → c.is_closed ≡ true → read_typed_string c ≡ failed closed c
unfolding read_typed_string read_full
read_typed_string-closed c e = ground (arith, e)

-- Two results alike: the same value, or an error in both.
abbrev pub Alike : {A : Type 0} → Ran Conn A → Ran Conn A → Type 0
Alike (returned a c) (returned b d) = (a ≡ b) × SameReader c d
Alike (returned a c) (failed y d) = ⊥
Alike (failed x c) (returned b d) = ⊥
Alike (failed x c) (failed y d) = Unit {0}

if-Alike :
    {A : Type 0} (b : Bool) (x y u v : Ran Conn A)
    → Alike x u
    → Alike y v
    → Alike (if b then x else y) (if b then u else v)
if-Alike true x y u v h k = h
if-Alike false x y u v h k = k

-- What was written to a connection, and what the network will make of the next Writes.
abbrev with_writes : Str → List Outcome → Conn → Conn
with_writes s p c = record c { sent = s; script = p }

same_reader : (c d : Conn) → SameReader c d → d ≡ with_writes d.sent d.script c
same_reader c d r = ground (arith, r.same_incoming, r.same_ends, r.same_closed)

read_full-with_writes :
    (n : ℕ) (c : Conn) (s : Str) (p : List Outcome)
    → Alike (read_full n c) (read_full n (with_writes s p c))
unfolding read_full
read_full-with_writes n c s p =
    let same : (k : Conn) → SameReader k (with_writes s p k) =
      λ k. record { same_incoming = refl; same_ends = refl; same_closed = refl } in
    if-Alike (n == 0) _ _ _ _ (refl, same c)
      (if-Alike c.is_closed _ _ _ _ tt (
        if-Alike (ltb (length c.incoming) n) _ _ _ _ tt
          (refl, same (record c { incoming = drop n c.incoming }))))

read_full-Alike : (n : ℕ) (c d : Conn) → SameReader c d → Alike (read_full n c) (read_full n d)
read_full-Alike n c d r =
    subst (λ (k : Conn). Alike (read_full n c) (read_full n k)) (sym (same_reader c d r))
      (read_full-with_writes n c d.sent d.script)

Alike-bind :
    {A B : Type 0} (f : A → M Conn B)
    → ((a : A) (c d : Conn) → SameReader c d → Alike (f a c) (f a d))
    → (x y : Ran Conn A) → Alike x y
    → (c d : Conn) → Alike (((λ (k : Conn). x) >>= f) c) (((λ (k : Conn). y) >>= f) d)
Alike-bind f h (returned a j) (returned b k) (e, r) c d =
    subst (λ z. Alike (f a j) (f z k)) e (h a j k r)
Alike-bind f h (returned a j) (failed y k) e c d = absurd e
Alike-bind f h (failed x j) (returned b k) e c d = absurd e
Alike-bind f h (failed x j) (failed y k) e c d = tt

read_typed_string-Alike :
    (c d : Conn) → SameReader c d → Alike (read_typed_string c) (read_typed_string d)
unfolding read_typed_string
read_typed_string-Alike c d r =
    Alike-bind
      (λ (header : Str). read_full (uint16 header) >>= λ payload. pure (payload, get_or header 2 0))
      (λ header j k q.
        Alike-bind (λ (payload : Str). pure (payload, get_or header 2 0))
          (λ payload j k q. (refl, q)) (read_full (uint16 header) j) (read_full (uint16 header) k)
          (read_full-Alike (uint16 header) j k q) j k)
      (read_full 3 c) (read_full 3 d) (read_full-Alike 3 c d r) c d

-- What is read does not hang on what was written.
pub read_typed_string-same :
    (c d : Conn) (v : Str × ℕ) (k : Conn)
    → SameReader c d
    → read_typed_string d ≡ returned v k
    → (j : Conn) × (read_typed_string c ≡ returned v j)
read_typed_string-same c d v k r e =
    go (read_typed_string c) (subst (Alike (read_typed_string c)) e (read_typed_string-Alike c d r))
  where
    go : (o : Ran Conn (Str × ℕ)) → Alike o (returned v k) → (j : Conn) × (o ≡ returned v j)
    go (returned a j) (q, x) = (j, ap (λ z. returned z j) q)
    go (failed y j) q = absurd q
