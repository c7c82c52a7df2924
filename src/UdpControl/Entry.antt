-- ===== src/UdpControl/Entry.antt =====
-- Datagrams that come to a udpControlListener, from a new address or one of its table
-- (internal/tunnel/runner.go).
use backhaul_recovered.Prelude.{
  ℕ, ◌+◌, ◌<◌, ◌≡◌, refl, ap, ◌∙◌, Bool, true, false, Option, none, some, [], ◌∷◌, ◌++◌, length,
  ltb, arith, Bool-cases, inl, inr, length-append,
}
use backhaul_recovered.Prelude.Text.{Str, str_eq, str_eq→eq}
use backhaul_recovered.Net.{Ran, ◌>>◌, returned}
use backhaul_recovered.UdpControl.Table.{lookup, delete, insert, lookup-insert, lookup-delete}
use backhaul_recovered.UdpControl.{
  UdpConn, Listener, new_conn, set_cell, unlock, push, enter, first_packet, packet_for, receive,
}
use backhaul_recovered.UdpControl.Invariant.{Inv, lock_free, push-Inv, pushed-Inv}

-- The table with a connection for a new address.
pub enter_entries :
    (key : Str) (c : UdpConn) (l : Listener)
    → Inv l
    → c.key ≡ key
    → c.is_closed ≡ false
    → (k : Str) (g : ℕ) → lookup k (insert key l.next_handle l.conns) ≡ some g
    → (g < l.next_handle + 1)
      × (((set_cell l.next_handle c l).cell g).key ≡ k)
      × (((set_cell l.next_handle c l).cell g).is_closed ≡ false)
enter_entries key c l v ck co k g e = elim (Bool-cases (str_eq key k)) [
  | inl same ↦
      let here : some l.next_handle ≡ some g =
        ground (arith, lookup-insert key k l.next_handle l.conns) in
      let at : l.next_handle ≡ g = cc in
      let named : key ≡ k = str_eq→eq key k same in ground (arith, ck, co)
  | inr apart ↦
      let was : lookup k l.conns ≡ some g =
        ground (arith, lookup-insert key k l.next_handle l.conns) in
      let (b, n, o) = v.entries k g was in ground (arith, b, n, o)
]

-- The listener that has made a connection for a new address and handed it to Accept.
abbrev pub offered : Str → Listener → Listener
offered key l = record (enter key (record l { mu = true })) {
  accept_queue = l.accept_queue ++ l.next_handle ∷ [];
  mu = false;
}

pub offered-Inv :
    (key : Str) (l : Listener) → Inv l → length l.accept_queue < 256 → Inv (offered key l)
offered-Inv key l v room = record {
  entries = enter_entries key (new_conn key) l v refl refl;
  queues = λ g. ground (arith, v.queues g);
  accepts = omega (arith, length-append l.accept_queue (l.next_handle ∷ []));
  free = refl;
}

-- The listener that has no room for it.
abbrev pub turned_away : Str → Listener → Listener
turned_away key l =
    let m = enter key (record l { mu = true }) in
    record (set_cell l.next_handle (record (new_conn key) { is_closed = true }) m) {
      conns = delete key m.conns;
      mu = false;
    }

pub turned_away_entries :
    (key : Str) (l : Listener)
    → Inv l
    → (k : Str) (g : ℕ) → lookup k (delete key (insert key l.next_handle l.conns)) ≡ some g
    → (g < l.next_handle + 1)
      × (((turned_away key l).cell g).key ≡ k)
      × (((turned_away key l).cell g).is_closed ≡ false)
turned_away_entries key l v k g e = elim (Bool-cases (str_eq key k)) [
  | inl same ↦ ground (arith, lookup-delete key k (insert key l.next_handle l.conns))
  | inr apart ↦
      let was : lookup k l.conns ≡ some g = ground (
        arith,
        lookup-delete key k (insert key l.next_handle l.conns),
        lookup-insert key k l.next_handle l.conns,
      ) in
      let (b, n, o) = v.entries k g was in ground (arith, b, n, o)
]

pub turned_away-Inv : (key : Str) (l : Listener) → Inv l → Inv (turned_away key l)
turned_away-Inv key l v = record {
  entries = turned_away_entries key l v;
  queues = λ g. ground (arith, v.queues g);
  accepts = v.accepts;
  free = refl;
}

pub first_packet-Inv :
    (b : Bool) (key : Str) (pkt : Str) (l : Listener)
    → Inv l
    → (t : Listener) × (first_packet b key pkt (record l { mu = true }) ≡ returned tt t) × Inv t
unfolding unlock
first_packet-Inv b key pkt l v = elim (Bool-cases (ltb (length l.accept_queue) 256)) [
  | inl room ↦
      let made : Inv (offered key l) = offered-Inv key l v (ground arith) in
      let (t, e, w) =
        pushed-Inv l.next_handle (push b l.next_handle pkt (offered key l))
          (push-Inv b l.next_handle pkt (offered key l) made) in
      (t, rw room e, w)
  | inr full ↦ (turned_away key l, rw full, turned_away-Inv key l v)
]

pub packet_for-Inv :
    (o : Option ℕ) (b : Bool) (key : Str) (pkt : Str) (l : Listener)
    → Inv l
    → (t : Listener) × (packet_for o b key pkt (record l { mu = true }) ≡ returned tt t) × Inv t
unfolding unlock
packet_for-Inv none b key pkt l v = first_packet-Inv b key pkt l v
packet_for-Inv (some h) b key pkt l v =
    let m : Listener = record l { mu = false } in
    let w : Inv m = record {
      entries = v.entries;
      queues = v.queues;
      accepts = v.accepts;
      free = refl;
    } in
    pushed-Inv h (push b h pkt m) (push-Inv b h pkt m w)

-- A datagram from any address is taken without a wait for ever, and the listener stays sound.
pub receive-Inv :
    (b : Bool) (key pkt : Str) (l : Listener)
    → Inv l
    → (t : Listener) × (receive b key pkt l ≡ returned tt t) × Inv t
unfolding receive
receive-Inv b key pkt l v =
    let (t, e, w) = packet_for-Inv (lookup key l.conns) b key pkt l v in
    (
      t,
      ap
            (λ (o : Ran Listener (Unit {0})).
              ((λ (x : Listener). o) >> λ m. packet_for (lookup key m.conns) b key pkt m) l)
            (lock_free l v.free)
          ∙ e,
      w,
    )
