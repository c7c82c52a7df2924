-- ===== src/Net/Laws.antt =====
-- What reading and writing do to a connection.
use backhaul_recovered.Prelude.{
  subst, append_assoc, inl, inr, Bool-cases, ◌⊎◌, refl, ◌≤◌, ◌≢◌, take-all, take-min, if◌then◌else◌,
  true, append-nil, List, ℕ, ◌<◌, ◌^◌, ◌≡◌, ap, ◌∙◌, sym, false, [], ◌∷◌, ◌++◌, length, take, drop,
  arith, length-append, take-append, drop-append,
}
use backhaul_recovered.Prelude.Text.{Str}
use backhaul_recovered.Net.{
  zoom, Error, M, ◌>>=◌, ◌>>◌, pure, write_, Ran, Outcome, closed, accepts, refuses, write,
  write_by, stuck, Conn, returned, failed, read_full, put_uint16, uint16, put_uint32, uint32,
  short_read, write_,
}

-- `m` followed by `f` that ended well: both did.
pub returned_bind :
    {S A B : Type 0} (m : M S A) (f : A → M S B) (s : S) {b : B} {u : S}
    → (m >>= f) s ≡ returned b u
    → (a : A) × (t : S) × (m s ≡ returned a t) × (f a t ≡ returned b u)
returned_bind {S} {A} {B} m f s {b} {u} h = go (m s) refl
  where
    go : (o : Ran S A) → m s ≡ o → (a : A) × (t : S) × (o ≡ returned a t) × (f a t ≡ returned b u)
    go (returned a t) e = (a, t, refl, cc)
    go (failed x t) e = cc

-- `m` followed by `f` that failed: one of them did.
pub failed_bind :
    {S A B : Type 0} (m : M S A) (f : A → M S B) (s : S) {x : Error} {u : S}
    → (m >>= f) s ≡ failed x u
    → (m s ≡ failed x u) ⊎ ((a : A) × (t : S) × (m s ≡ returned a t) × (f a t ≡ failed x u))
failed_bind {S} {A} {B} m f s {x} {u} h = go (m s) refl
  where
    go :
        (o : Ran S A)
        → m s ≡ o
        → (o ≡ failed x u) ⊎ ((a : A) × (t : S) × (o ≡ returned a t) × (f a t ≡ failed x u))
    go (returned a t) e = inr (a, t, refl, cc)
    go (failed y t) e = inl (cc)

-- Bytes that are there in full are read, and no more than they.
pub read_full-append :
    (n : ℕ) (front rest : Str) (c : Conn)
    → length front ≡ n
    → c.is_closed ≡ false
    → c.incoming ≡ front ++ rest
    → read_full n c ≡ returned front (record c { incoming = rest })
unfolding read_full
read_full-append n front rest c e o h = ground (
  arith,
  ap (λ (xs : Str). length xs) h ∙ length-append front rest,
  ap (λ (xs : Str). take n xs) h
      ∙ ap (λ k. take k (front ++ rest)) (sym e)
      ∙ take-append front rest,
  ap (λ (xs : Str). drop n xs) h
      ∙ ap (λ k. drop k (front ++ rest)) (sym e)
      ∙ drop-append front rest,
  nothing_read front e h,
)
  where
    nothing_read :
        (f : Str) → length f ≡ n → c.incoming ≡ f ++ rest → n ≡ 0 → (front ≡ []) → c.incoming ≡ rest
    nothing_read [] p q z w = q
    nothing_read (x ∷ f) p q z w = absurd (omega arith)

pub read_full_short :
    (n : ℕ) (c : Conn)
    → length c.incoming < n
    → c.is_closed ≡ false
    → read_full n c ≡ failed (short_read c.incoming c.ends) (record c { incoming = [] })
unfolding read_full
read_full_short n c h o = ground arith

pub uint16-put : (n : ℕ) (rest : Str) → n < 65536 → uint16 (put_uint16 n ++ rest) ≡ n
uint16-put n rest h = omega arith

pub uint32-put : (n : ℕ) (rest : Str) → n < 2 ^ 32 → uint32 (put_uint32 n ++ rest) ≡ n
uint32-put n rest h = omega arith

-- What one Write of `p` leaves behind: the bytes that it reports, and on an error some prefix.
abbrev pub Wrote : Conn → Str → Ran Conn ℕ → Type 0
Wrote c p (returned n d) =
    (d.sent ≡ c.sent ++ take n p) × (d.incoming ≡ c.incoming) × (n ≤ length p)
Wrote c p (failed e d) =
    ((k : ℕ) × (d.sent ≡ c.sent ++ take k p)) × (d.incoming ≡ c.incoming) × (e ≢ stuck)

write_by-Wrote : (script : List Outcome) (p : Str) (c : Conn) → Wrote c p (write_by script p c)
write_by-Wrote [] p c =
    (ap (λ q. c.sent ++ q) (sym (take-all (length p) p (omega arith))), refl, omega arith)
write_by-Wrote (accepts k ∷ rest) p c =
    (ap (λ q. c.sent ++ q) (sym (take-min k p)), refl, omega arith)
write_by-Wrote (refuses k ∷ rest) p c = ((k, refl), refl, λ e. cc)

pub write-Wrote : (p : Str) (c : Conn) → Wrote c p (write p c)
unfolding write
write-Wrote p c =
    elim c.is_closed as (λ b. Wrote c p (if b then failed closed c else write_by c.script p c)) [
      | true ↦ ((0, sym (append-nil c.sent)), refl, λ q. cc)
      | false ↦ write_by-Wrote c.script p c
    ]

-- The contract of io.Writer: a Write that takes fewer bytes than it is given reports an error.
abbrev pub ReportsErrors : List Outcome → Type 0
ReportsErrors [] = Unit {0}
ReportsErrors (accepts k ∷ rest) = ⊥
ReportsErrors (refuses k ∷ rest) = ReportsErrors rest

write_by_whole :
    (script : List Outcome) (p : Str) (c d : Conn) (n : ℕ)
    → script ≡ c.script
    → ReportsErrors script
    → write_by script p c ≡ returned n d
    → d ≡ record c { sent = c.sent ++ p }
write_by_whole [] p c d n e r h = cc
write_by_whole (accepts k ∷ rest) p c d n e r h = absurd r
write_by_whole (refuses k ∷ rest) p c d n e r h = cc

-- Under the contract a Write without an error appends all of its bytes and does nothing else.
pub write_whole :
    (p : Str) (c d : Conn) {o : Unit {0}}
    → ReportsErrors c.script
    → write_ p c ≡ returned o d
    → d ≡ record c { sent = c.sent ++ p }
unfolding write
write_whole p c d r h =
    let (n, f, w, q) = returned_bind (write p) (λ _. pure tt) c h in
    elim (Bool-cases c.is_closed) [
      | inl e ↦ cc (rw e at w)
      | inr e ↦ ground (arith, write_by_whole c.script p c f n refl r (ground arith))
    ]

-- Two Writes in a row that both end well append both parts.
pub write_whole_two :
    (p q : Str) (c d : Conn) {o : Unit {0}}
    → ReportsErrors c.script
    → (write_ p >> write_ q) c ≡ returned o d
    → d ≡ record c { sent = c.sent ++ (p ++ q) }
write_whole_two p q c d r h =
    let (u, k, w, w') = returned_bind (write_ p) (λ _. write_ q) c h in
    let e : k ≡ record c { sent = c.sent ++ p } = write_whole p c k r w in
    write_whole q k d (subst (λ (j : Conn). ReportsErrors j.script) (sym e) r) w'
    ∙ ap (λ (j : Conn). record j { sent = j.sent ++ q }) e
    ∙ ap (λ (z : Str). record c { sent = z }) (append_assoc c.sent p q)

-- A step on a field of the state that ended well, by itself.
pub zoom_returned :
    {S T A : Type 0} (get : S → T) (put : T → S → S) (m : M T A) (s : S) {a : A} {t : S}
    → zoom get put m s ≡ returned a t
    → (d : T) × (m (get s) ≡ returned a d) × (t ≡ put d s)
zoom_returned {T = T} {A = A} get put m s {a} {t} h = go (m (get s)) refl
  where
    go : (o : Ran T A) → m (get s) ≡ o → (d : T) × (o ≡ returned a d) × (t ≡ put d s)
    go (returned x d) e = (d, cc, cc)
    go (failed x d) e = cc

-- A computation that leaves a part of the state alone, however it ends: `R` relates what was and
-- what is.
abbrev pub Keeps : {S A : Type 0} → (S → S → Type 0) → S → Ran S A → Type 0
Keeps R s (returned a t) = R s t
Keeps R s (failed e t) = R s t

pub Keeps-bind :
    {S A B : Type 0} (R : S → S → Type 0) (m : M S A) (f : A → M S B) (s : S)
    → ((t u : S) → R s t → R t u → R s u)
    → Keeps R s (m s)
    → ((a : A) (t : S) → Keeps R t (f a t))
    → Keeps R s ((m >>= f) s)
Keeps-bind {S} {A} {B} R m f s trans k next = go (m s) k
  where
    join : (t : S) → R s t → (o : Ran S B) → Keeps R t o → Keeps R s o
    join t h (returned b u) l = trans t u h l
    join t h (failed e u) l = trans t u h l

    go : (o : Ran S A) → Keeps R s o → Keeps R s (((λ (x : S). o) >>= f) s)
    go (returned a t) h = join t h (f a t) (next a t)
    go (failed e t) h = h

-- What a Write cannot touch.
pub record SameReader (c d : Conn) : Type 0 where
  pub same_incoming : d.incoming ≡ c.incoming
  pub same_ends : d.ends ≡ c.ends
  pub same_closed : d.is_closed ≡ c.is_closed

write_by-Keeps :
    (script : List Outcome) (p : Str) (c : Conn) → Keeps SameReader c (write_by script p c)
write_by-Keeps [] p c = ground arith
write_by-Keeps (accepts k ∷ rest) p c = ground arith
write_by-Keeps (refuses k ∷ rest) p c = ground arith

pub write-Keeps : (p : Str) (c : Conn) → Keeps SameReader c (write p c)
unfolding write
write-Keeps p c =
    elim c.is_closed
      as (λ b. Keeps SameReader c (if b then failed closed c else write_by c.script p c)) [
        | true ↦ ground arith
        | false ↦ write_by-Keeps c.script p c
      ]
