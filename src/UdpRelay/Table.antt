-- ===== src/UdpRelay/Table.antt =====
-- The associations of a public UDP port and what they are sent (internal/tunnel/runner.go).
use backhaul_recovered.Prelude.{
  ℕ, ◌+◌, ◌<◌, ◌≡◌, refl, sym, ap, ◌∙◌, subst, Bool, true, false, Option, none, some, List, [], ◌∷◌,
  ◌++◌, ◌==◌, arith, if◌then◌else◌, Bool-cases, inl, inr, ◌⊎◌, append_assoc, append-nil,
}
use backhaul_recovered.Prelude.Text.{Str, str_eq, str_eq_refl, str_eq→eq}
use backhaul_recovered.Net.{Conn, Ran, returned, failed}
use backhaul_recovered.Net.Laws.{ReportsErrors}
use backhaul_recovered.Datagram.{write_datagram_frame}
use backhaul_recovered.Datagram.Frames.{
  frame, write_datagram_frame_lem, write_datagram_frame_closed,
}
use backhaul_recovered.UdpControl.Table.{lookup, lookup-insert}
use backhaul_recovered.UdpRelay.{
  Relay, set_conn, forwarded, forward, associate, forward_on, receive,
}

-- Each entry of the table stands under the address of its association, below the next number.
pub record Sound (s : Relay) : Type 0 where
  pub own : (key : Str) (h : ℕ) → lookup key s.assocs ≡ some h → s.addr h ≡ key
  pub below : (key : Str) (h : ℕ) → lookup key s.assocs ≡ some h → h < s.next_handle

-- The datagrams of the address `src`; and datagrams framed.
abbrev pub datagrams : Str → List (Bool × Str × Str) → List Str
datagrams src [] = []
datagrams src ((acquired, from, pkt) ∷ es) =
    let rest = datagrams src es in if str_eq from src then pkt ∷ rest else rest

abbrev pub frames : List Str → Str
frames [] = []
frames (pkt ∷ pkts) = frame pkt ++ frames pkts

abbrev pub run : List (Bool × Str × Str) → Relay → Relay
run [] s = s
run ((acquired, from, pkt) ∷ es) s = run es (receive acquired from pkt s)

-- A connection that was closed, or has been sent the bytes `p` more and reports its errors.
abbrev pub Sent : Conn → Str → Conn → Type 0
Sent c p d =
    (d.is_closed ≡ true)
    ⊎ ((d.sent ≡ c.sent ++ p) × ReportsErrors d.script × (d.incoming ≡ c.incoming))

forward-Sound : (h : ℕ) (pkt : Str) (s : Relay) → Sound s → Sound (forward h pkt s)
forward-Sound h pkt s v = go (write_datagram_frame pkt (s.conn h))
  where
    go : (r : Ran Conn (Unit {0})) → Sound (forwarded h r s)
    go (returned u c) = record { own = v.own; below = v.below }
    go (failed e c) = record { own = v.own; below = v.below }

pub associate-Sound : (src : Str) (s : Relay) → Sound s → Sound (associate src s)
associate-Sound src s v = record {
  own = λ key h e. own_after key h (sym (lookup-insert src key s.next_handle s.assocs) ∙ e);
  below = λ key h e. below_after key h (sym (lookup-insert src key s.next_handle s.assocs) ∙ e);
}
  where
    own_after :
        (key : Str) (h : ℕ)
        → (if str_eq src key then some s.next_handle else lookup key s.assocs) ≡ some h
        → (if s.next_handle == h then src else s.addr h) ≡ key
    own_after key h e = elim (Bool-cases (str_eq src key)) [
      | inl same ↦
          let at : some s.next_handle ≡ some h = rw same at e in
          ground (arith, at, str_eq→eq src key same)
      | inr other ↦
          let at : lookup key s.assocs ≡ some h = rw other at e in
          ground (arith, v.own key h at, v.below key h at)
    ]

    below_after :
        (key : Str) (h : ℕ)
        → (if str_eq src key then some s.next_handle else lookup key s.assocs) ≡ some h
        → h < s.next_handle + 1
    below_after key h e = elim (Bool-cases (str_eq src key)) [
      | inl same ↦ let at : some s.next_handle ≡ some h = rw same at e in ground (arith, at)
      | inr other ↦
          let at : lookup key s.assocs ≡ some h = rw other at e in ground (arith, v.below key h at)
    ]

receive-Sound :
    (acquired : Bool) (src pkt : Str) (s : Relay) → Sound s → Sound (receive acquired src pkt s)
unfolding receive
receive-Sound acquired src pkt s v = go (lookup src s.assocs) acquired
  where
    go : (o : Option ℕ) (b : Bool) → Sound (forward_on o b src pkt s)
    go (some h) b = forward-Sound h pkt s v
    go none true = forward-Sound s.next_handle pkt (associate src s) (associate-Sound src s v)
    go none false = v

-- A datagram written on a connection.
forward_own :
    (h : ℕ) (pkt p : Str) (c : Conn) (s : Relay)
    → Sent c p (s.conn h)
    → Sent c (p ++ frame pkt) ((forward h pkt s).conn h)
forward_own h pkt p c s sent = go (write_datagram_frame pkt (s.conn h)) refl sent
  where
    go :
        (r : Ran Conn (Unit {0}))
        → write_datagram_frame pkt (s.conn h) ≡ r
        → Sent c p (s.conn h)
        → Sent c (p ++ frame pkt) ((forwarded h r s).conn h)
    go (failed e d) w k = inl (ground arith)
    go (returned u d) w (inl shut) = absurd (write_datagram_frame_closed pkt (s.conn h) d shut w)
    go (returned u d) w (inr (more, reports, same)) =
        let after : d ≡ record (s.conn h) { sent = (s.conn h).sent ++ frame pkt } =
          write_datagram_frame_lem pkt (s.conn h) d reports w in
        let at : (set_conn h d s).conn h ≡ d = ground arith in
        let all : (set_conn h d s).conn h
            ≡ record (s.conn h) { sent = (s.conn h).sent ++ frame pkt } =
          at ∙ after in
        inr (
          ap (λ (k : Conn). k.sent) all
              ∙ ap (λ (z : Str). z ++ frame pkt) more
              ∙ append_assoc c.sent p (frame pkt),
          subst (λ (k : Conn). ReportsErrors k.script) (sym all) reports,
          ap (λ (k : Conn). k.incoming) all ∙ same,
        )

-- Another connection.
forward_other :
    (g h : ℕ) (pkt : Str) (s : Relay) → (g == h) ≡ false → (forward g pkt s).conn h ≡ s.conn h
forward_other g h pkt s n = go (write_datagram_frame pkt (s.conn g))
  where
    go : (r : Ran Conn (Unit {0})) → (forwarded g r s).conn h ≡ s.conn h
    go (returned u c) = rw n refl
    go (failed e c) = rw n refl

forward-assocs : (g : ℕ) (pkt : Str) (s : Relay) → (forward g pkt s).assocs ≡ s.assocs
forward-assocs g pkt s = go (write_datagram_frame pkt (s.conn g))
  where
    go : (r : Ran Conn (Unit {0})) → (forwarded g r s).assocs ≡ s.assocs
    go (returned u c) = refl
    go (failed e c) = refl

-- The association of `src` stands under `h`, and has been sent the bytes `p`.
abbrev Holds : Str → ℕ → Conn → Str → Relay → Type 0
Holds src h c p s = (lookup src s.assocs ≡ some h) × Sent c p (s.conn h)

receive_own :
    (acquired : Bool) (src pkt p : Str) (h : ℕ) (c : Conn) (s : Relay)
    → Holds src h c p s
    → Holds src h c (p ++ frame pkt) (receive acquired src pkt s)
unfolding receive
receive_own acquired src pkt p h c s (at, sent) =
    subst (λ (o : Option ℕ). Holds src h c (p ++ frame pkt) (forward_on o acquired src pkt s))
      (sym at) (ap (lookup src) (forward-assocs h pkt s) ∙ at, forward_own h pkt p c s sent)

receive_other :
    (acquired : Bool) (src from pkt p : Str) (h : ℕ) (c : Conn) (s : Relay)
    → Sound s
    → str_eq from src ≡ false
    → Holds src h c p s
    → Holds src h c p (receive acquired from pkt s)
unfolding receive
receive_other acquired src from pkt p h c s v n (at, sent) = go (lookup from s.assocs) refl acquired
  where
    apart : (g : ℕ) → lookup from s.assocs ≡ some g → (g == h) ≡ false
    apart g e = elim (Bool-cases (g == h)) [
      | inl same ↦
          let equal : g ≡ h = ground (arith, same) in
          let bad : from ≡ src = sym (v.own from g e) ∙ ap s.addr equal ∙ v.own src h at in
          let clash : true ≡ false = sym (str_eq_refl src) ∙ ap (λ z. str_eq z src) (sym bad) ∙ n in
          cc clash
      | inr other ↦ other
    ]

    keep :
        (g : ℕ) (t : Relay)
        → (g == h) ≡ false
        → Holds src h c p t
        → Holds src h c p (forward g pkt t)
    keep g t e (a, b) = (
      ap (lookup src) (forward-assocs g pkt t) ∙ a,
      subst (Sent c p) (sym (forward_other g h pkt t e)) b,
    )

    go :
        (o : Option ℕ)
        → lookup from s.assocs ≡ o
        → (b : Bool) → Holds src h c p (forward_on o b from pkt s)
    go (some g) e b = keep g s (apart g e) (at, sent)
    go none e false = (at, sent)
    go none e true =
        keep s.next_handle (associate from s) (ground (arith, v.below src h at))
          (lookup-insert from src s.next_handle s.assocs ∙ rw n at, sent)

-- Whatever datagrams come from whatever addresses: the connection of one address is sent the
-- datagrams of that address, framed, or was closed.
pub run-Sent :
    (es : List (Bool × Str × Str)) (src p : Str) (h : ℕ) (c : Conn) (s : Relay)
    → Sound s
    → lookup src s.assocs ≡ some h
    → Sent c p (s.conn h)
    → Sent c (p ++ frames (datagrams src es)) ((run es s).conn h)
run-Sent [] src p h c s v at sent =
    subst (λ (z : Str). Sent c z (s.conn h)) (sym (append-nil p)) sent
run-Sent ((acquired, from, pkt) ∷ es) src p h c s v at sent = elim (Bool-cases (str_eq from src)) [
  | inl same ↦
      let equal : from ≡ src = str_eq→eq from src same in
      let (there, more) =
        receive_own acquired from pkt p h c s
          (ap (λ (z : Str). lookup z s.assocs) equal ∙ at, sent) in
      rw same (
        subst (λ (z : Str). Sent c z ((run es next).conn h))
          (append_assoc p (frame pkt) (frames (datagrams src es)))
          (run-Sent es src (p ++ frame pkt) h c next sound
            (ap (λ (z : Str). lookup z next.assocs) (sym equal) ∙ there) more))
  | inr other ↦
      let (there, more) = receive_other acquired src from pkt p h c s v other (at, sent) in
      rw other (run-Sent es src p h c next sound there more)
]
  where
    next : Relay
    next = receive acquired from pkt s

    sound : Sound next
    sound = receive-Sound acquired from pkt s v
