-- ===== src/UdpControl/Invariant.antt =====
-- What holds of a udpControlListener whose lock is free, under its closes and pushes
-- (internal/tunnel/runner.go).
use backhaul_recovered.Prelude.{
  ℕ, ◌<◌, ◌≤◌, ◌≡◌, refl, sym, ap, ◌∙◌, Bool, true, false, some, [], ◌∷◌, ◌++◌, length, ltb, ◌&&◌,
  ◌==◌, arith, Bool-cases, inl, inr, length-append, subst,
}
use backhaul_recovered.Prelude.Text.{Str, str_eq, str_eq_refl}
use backhaul_recovered.Net.{Ran, ◌>>◌, returned}
use backhaul_recovered.UdpControl.Table.{lookup, delete, lookup-delete}
use backhaul_recovered.UdpControl.{
  Listener, set_cell, lock, unlock, remove, close_local, push, pushed,
}

-- Every connection of the table was made, stands under its own address and is open; no channel
-- holds more than its capacity; nobody holds the lock.
pub record Inv (l : Listener) : Type 0 where
  pub entries :
      (key : Str) (h : ℕ)
      → lookup key l.conns ≡ some h
      → (h < l.next_handle) × ((l.cell h).key ≡ key) × ((l.cell h).is_closed ≡ false)
  pub queues : (h : ℕ) → length (l.cell h).queue ≤ 512
  pub accepts : length l.accept_queue ≤ 256
  pub free : l.mu ≡ false

-- The state after closeLocal of an open connection.
abbrev pub dropped : ℕ → Listener → Listener
dropped h l = record (set_cell h (record (l.cell h) { is_closed = true }) l) {
  conns = delete (l.cell h).key l.conns;
  mu = false;
}

pub lock_free : (l : Listener) → l.mu ≡ false → lock l ≡ returned tt (record l { mu = true })
unfolding lock
lock_free l m = rw m

pub remove_free :
    (key : Str) (l : Listener)
    → l.mu ≡ false
    → remove key l ≡ returned tt (record l { conns = delete key l.conns; mu = false })
unfolding remove unlock
remove_free key l m =
    ap
      (λ (o : Ran Listener (Unit {0})).
        ((λ (x : Listener). o)
            >> (λ k. returned tt (record k { conns = delete key k.conns }))
            >> unlock)
          l)
      (lock_free l m)

pub close_local-dropped :
    (h : ℕ) (l : Listener)
    → l.mu ≡ false
    → (l.cell h).is_closed ≡ false
    → close_local h l ≡ returned tt (dropped h l)
unfolding close_local
close_local-dropped h l m o =
    let gone : Listener = set_cell h (record (l.cell h) { is_closed = true }) l in
    rw o (remove_free (l.cell h).key gone m)

pub close_local_again :
    (h : ℕ) (l : Listener) → (l.cell h).is_closed ≡ true → close_local h l ≡ returned tt l
unfolding close_local
close_local_again h l c = rw c

pub dropped-Inv : (h : ℕ) (l : Listener) → Inv l → Inv (dropped h l)
dropped-Inv h l v = record {
  entries = λ key g e. kept key g e;
  queues = λ g. ground (arith, v.queues g, v.queues h);
  accepts = v.accepts;
  free = refl;
}
  where
    kept :
        (key : Str) (g : ℕ)
        → lookup key (delete (l.cell h).key l.conns) ≡ some g
        → (g < l.next_handle)
          × (((dropped h l).cell g).key ≡ key)
          × (((dropped h l).cell g).is_closed ≡ false)
    kept key g e = elim (Bool-cases (str_eq (l.cell h).key key)) [
      | inl same ↦ ground (arith, lookup-delete (l.cell h).key key l.conns)
      | inr apart ↦
          let was : lookup key l.conns ≡ some g =
            ground (arith, lookup-delete (l.cell h).key key l.conns) in
          let (b, k, o) = v.entries key g was in
          elim (Bool-cases (h == g)) [
            | inl e ↦
                let here : h ≡ g = ground arith in
                let bad : str_eq (l.cell h).key key ≡ true =
                  ap (λ z. str_eq (l.cell z).key key) here
                  ∙ ap (λ z. str_eq z key) k
                  ∙ str_eq_refl key in
                cc (bad, apart)
            | inr e ↦ ground (arith, b, k, o)
          ]
    ]

pub close_local-Inv :
    (h : ℕ) (l : Listener) → Inv l → (t : Listener) × (close_local h l ≡ returned tt t) × Inv t
close_local-Inv h l v = elim (Bool-cases (l.cell h).is_closed) [
  | inl c ↦ (l, close_local_again h l c, v)
  | inr o ↦ (dropped h l, close_local-dropped h l v.free o, dropped-Inv h l v)
]

pub push-Inv : (b : Bool) (h : ℕ) (pkt : Str) (l : Listener) → Inv l → Inv (push b h pkt l).1
unfolding push
push-Inv b h pkt l v = elim (Bool-cases ((l.cell h).is_closed && b)) [
  | inl c ↦ ground (arith, v)
  | inr o ↦ elim (Bool-cases (ltb (length (l.cell h).queue) 512)) [
    | inl room ↦
        let grown : Listener =
          set_cell h (record (l.cell h) { queue = (l.cell h).queue ++ pkt ∷ [] }) l in
        let w : Inv grown = record {
          entries = λ key g e. ground (arith, v.entries key g e);
          queues = λ g. ground (arith, v.queues g, length-append (l.cell h).queue (pkt ∷ []));
          accepts = v.accepts;
          free = v.free;
        } in
        let e : (push b h pkt l).1 ≡ grown = ground arith in subst Inv (sym e) w
    | inr full ↦ let e : (push b h pkt l).1 ≡ l = ground arith in subst Inv (sym e) v
  ]
]

pub pushed-Inv :
    (h : ℕ) (r : Bool × Listener) → Inv r.1 → (t : Listener) × (pushed h r ≡ returned tt t) × Inv t
pushed-Inv h (true, l) v = (l, refl, v)
pushed-Inv h (false, l) v = close_local-Inv h l v
