-- ===== src/UdpControl/Arrivals.antt =====
-- What a datagram does to the connection of an address (internal/tunnel/runner.go).
use backhaul_recovered.Prelude.{
  ℕ, ◌<◌, ◌≡◌, refl, sym, ap, ◌∙◌, Bool, true, false, Option, none, some, List, [], ◌∷◌, ◌++◌,
  length, ltb, ◌==◌, if◌then◌else◌, arith, Bool-cases, inl, inr, subst, ◌⊎◌, append-nil,
}
use backhaul_recovered.Prelude.Text.{Str, str_eq, str_eq_refl, str_eq→eq}
use backhaul_recovered.Net.{Ran, ◌>>◌}
use backhaul_recovered.UdpControl.Table.{lookup, insert, lookup-insert, lookup-delete}
use backhaul_recovered.UdpControl.{
  Listener, set_cell, unlock, push, pushed, first_packet, packet_for, receive,
}
use backhaul_recovered.UdpControl.Invariant.{Inv, dropped, lock_free, close_local-dropped}
use backhaul_recovered.UdpControl.Entry.{offered, offered-Inv}
use backhaul_recovered.UdpControl.Run.{state_of}

-- The connection `h` stands in the table under `key`.
abbrev pub IsLive : Str → ℕ → Listener → Type 0
IsLive key h l = lookup key l.conns ≡ some h

-- What a datagram does to the connection `h` of the address `key`: it was closed, or it is there
-- and its queue has grown by the packets `more`.
abbrev pub Takes : Str → ℕ → List Str → Listener → Listener → Type 0
Takes key h more l t =
    ((t.cell h).is_closed ≡ true)
    ⊎ (IsLive key h t
        × ((t.cell h).queue ≡ (l.cell h).queue ++ more)
        × ((t.cell h).rbuf ≡ (l.cell h).rbuf))

abbrev pub mine : Str → Str → Str → List Str
mine key from pkt = if str_eq from key then pkt ∷ [] else []

pub some-inj : (a b : ℕ) → some a ≡ some b → a ≡ b
some-inj a b e = cc

-- Two connections of the table are one where their addresses are.
pub same_conn :
    (from key : Str) (g h : ℕ) (l : Listener)
    → Inv l
    → IsLive from g l
    → IsLive key h l
    → str_eq from key ≡ (g == h)
same_conn from key g h l v lg lh = elim (Bool-cases (str_eq from key)) [
  | inl e ↦
      let same : from ≡ key = str_eq→eq from key e in
      let here : g ≡ h = some-inj g h (sym lg ∙ ap (λ k. lookup k l.conns) same ∙ lh) in
      ground (arith, e)
  | inr n ↦ elim (Bool-cases (g == h)) [
    | inl e ↦
        let here : g ≡ h = ground arith in
        let (b, k, o) = v.entries from g lg in
        let (c, k', o') = v.entries key h lh in
        let same : from ≡ key = sym k ∙ ap (λ z. (l.cell z).key) here ∙ k' in
        let bad : str_eq from key ≡ true = ap (λ z. str_eq z key) same ∙ str_eq_refl key in
        cc (bad, n)
    | inr e ↦ n ∙ sym e
  ]
]

abbrev pub grown : ℕ → Str → Listener → Listener
grown g pkt l = set_cell g (record (l.cell g) { queue = (l.cell g).queue ++ pkt ∷ [] }) l

pub grown-Takes :
    (from key pkt : Str) (g h : ℕ) (l : Listener)
    → Inv l
    → IsLive from g l
    → IsLive key h l
    → Takes key h (mine key from pkt) l (grown g pkt l)
grown-Takes from key pkt g h l v lg lh =
    let s = same_conn from key g h l v lg lh in
    elim (Bool-cases (g == h)) [
      | inl e ↦
          let here : g ≡ h = ground arith in
          inr (
            lh,
            ground (arith, s, e, ap (λ z. (l.cell z).queue) here),
            ground (arith, ap (λ z. (l.cell z).rbuf) here),
          )
      | inr n ↦ inr (lh, ground (arith, s, n, append-nil (l.cell h).queue), ground arith)
    ]

pub dropped-Takes :
    (from key pkt : Str) (g h : ℕ) (l : Listener)
    → Inv l
    → IsLive from g l
    → IsLive key h l
    → Takes key h (mine key from pkt) l (dropped g l)
dropped-Takes from key pkt g h l v lg lh =
    let s = same_conn from key g h l v lg lh in
    elim (Bool-cases (g == h)) [
      | inl e ↦ inl (ground arith)
      | inr n ↦
          let apart : str_eq (l.cell g).key key ≡ false =
            ap (λ z. str_eq z key) ((v.entries from g lg).1) ∙ s ∙ n in
          inr (
            ground (arith, lookup-delete (l.cell g).key key l.conns, apart, lh),
            ground (arith, s, n, append-nil (l.cell h).queue),
            ground arith,
          )
    ]

-- push on a connection of the table, and the Close that follows where there is no room.
pub push-Takes :
    (b : Bool) (from key pkt : Str) (g h : ℕ) (l : Listener)
    → Inv l
    → IsLive from g l
    → IsLive key h l
    → Takes key h (mine key from pkt) l (state_of (pushed g (push b g pkt l)))
unfolding push
push-Takes b from key pkt g h l v lg lh =
    let o : (l.cell g).is_closed ≡ false = (v.entries from g lg).2 in
    elim (Bool-cases (ltb (length (l.cell g).queue) 512)) [
      | inl room ↦
          let e : push b g pkt l ≡ (true, grown g pkt l) = ground arith in
          subst (λ r. Takes key h (mine key from pkt) l (state_of (pushed g r))) (sym e)
            (grown-Takes from key pkt g h l v lg lh)
      | inr full ↦
          let e : push b g pkt l ≡ (false, l) = ground arith in
          subst (λ r. Takes key h (mine key from pkt) l (state_of (pushed g r))) (sym e)
            (subst (λ r. Takes key h (mine key from pkt) l (state_of r))
              (sym (close_local-dropped g l v.free o)) (dropped-Takes from key pkt g h l v lg lh))
    ]

pub first-Takes :
    (b : Bool) (from key pkt : Str) (h : ℕ) (l : Listener)
    → Inv l
    → lookup from l.conns ≡ none
    → IsLive key h l
    → Takes key h
        (mine key from pkt)
        l
        (state_of (first_packet b from pkt (record l { mu = true })))
unfolding unlock
first-Takes b from key pkt h l v new lh =
    let below : h < l.next_handle = (v.entries key h lh).0 in
    elim (Bool-cases (str_eq from key)) [
      | inl e ↦
          let same : from ≡ key = str_eq→eq from key e in
          let bad : none ≡ some h = sym new ∙ ap (λ k. lookup k l.conns) same ∙ lh in cc bad
      | inr apart ↦
          let there : lookup key (insert from l.next_handle l.conns) ≡ some h =
            ground (arith, lookup-insert from key l.next_handle l.conns, lh) in
          elim (Bool-cases (ltb (length l.accept_queue) 256)) [
            | inl room ↦
                let w : Inv (offered from l) = offered-Inv from l v (ground arith) in
                let made : IsLive from l.next_handle (offered from l) =
                  ground (arith, lookup-insert from from l.next_handle l.conns, str_eq_refl from) in
                rw room (
                  older
                    (state_of (pushed l.next_handle (push b l.next_handle pkt (offered from l))))
                    below (push-Takes b from key pkt l.next_handle h (offered from l) w made there))
            | inr full ↦ rw full (
                inr (
                  ground (arith, lookup-delete from key (insert from l.next_handle l.conns), there),
                  ground (arith, append-nil (l.cell h).queue),
                  ground arith,
                ))
          ]
    ]
  where
    older :
        (t : Listener)
        → h < l.next_handle
        → Takes key h (mine key from pkt) (offered from l) t
        → Takes key h (mine key from pkt) l t
    older t below (inl c) = inl c
    older t below (inr (a, q, r)) = inr (a, ground (arith, q), ground (arith, r))

pub packet-Takes :
    (o : Option ℕ) (b : Bool) (from key pkt : Str) (h : ℕ) (l : Listener)
    → lookup from l.conns ≡ o
    → Inv l
    → IsLive key h l
    → Takes key h
        (mine key from pkt)
        l
        (state_of (packet_for o b from pkt (record l { mu = true })))
unfolding unlock
packet-Takes none b from key pkt h l e v lh = first-Takes b from key pkt h l v e lh
packet-Takes (some g) b from key pkt h l e v lh =
    let m : Listener = record l { mu = false } in
    let w : Inv m = record {
      entries = v.entries;
      queues = v.queues;
      accepts = v.accepts;
      free = refl;
    } in
    push-Takes b from key pkt g h m w e lh

-- A datagram goes to the connection of its address and to no other.
pub receive-Takes :
    (b : Bool) (from key pkt : Str) (h : ℕ) (l : Listener)
    → Inv l
    → IsLive key h l
    → Takes key h (mine key from pkt) l (state_of (receive b from pkt l))
unfolding receive
receive-Takes b from key pkt h l v lh =
    subst (λ r. Takes key h (mine key from pkt) l (state_of r))
      (sym (
        ap
          (λ (o : Ran Listener (Unit {0})).
            ((λ (x : Listener). o) >> λ m. packet_for (lookup from m.conns) b from pkt m) l)
          (lock_free l v.free)))
      (packet-Takes (lookup from l.conns) b from key pkt h l refl v lh)
