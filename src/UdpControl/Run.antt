-- ===== src/UdpControl/Run.antt =====
-- Sequences of steps of a udpControlListener and its connections (internal/tunnel/runner.go).
use backhaul_recovered.Prelude.{
  ℕ, suc, ◌≤◌, ◌≡◌, refl, sym, ap, Bool, true, false, Option, none, some, List, [], ◌∷◌, ◌++◌,
  length, ◌&&◌, ◌==◌, if◌then◌else◌, arith, Bool-cases, inl, inr, subst,
}
use backhaul_recovered.Prelude.Text.{Str}
use backhaul_recovered.Net.{Ran, returned, failed, closed}
use backhaul_recovered.UdpControl.{
  UdpConn, Listener, new_listener, set_cell, close_local, receive, accept_from, accept, fill, give,
  read_conn, write_conn,
}
use backhaul_recovered.UdpControl.Table.{lookup-nil}
use backhaul_recovered.UdpControl.Invariant.{Inv, close_local-Inv}
use backhaul_recovered.UdpControl.Entry.{receive-Inv}

abbrev pub state_of : {S A : Type 0} → Ran S A → S
state_of (returned a t) = t
state_of (failed e t) = t

-- What a Read leaves alone, and that it takes nothing but packets off the queue.
pub record Reads (c d : UdpConn) : Type 0 where
  pub same_key : d.key ≡ c.key
  pub same_closed : d.is_closed ≡ c.is_closed
  pub fewer : length d.queue ≤ length c.queue

fill-Reads :
    (b : ℕ → Bool) (q : List Str) (c : UdpConn) → c.queue ≡ q → Reads c (state_of (fill b q c))
unfolding fill
fill-Reads b [] c e = ground arith
fill-Reads b (pkt ∷ rest) c e =
    let next : ℕ → Bool = λ n. b (suc n) in
    let shorter : length rest ≤ length c.queue = omega (arith, ap (λ (z : List Str). length z) e) in
    elim (Bool-cases (c.is_closed && b 0)) [
      | inl z ↦ ground arith
      | inr z ↦ elim (Bool-cases (length pkt == 0)) [
        | inl empty ↦
            let r = fill-Reads next rest (record c { queue = rest }) refl in
            let same : fill b (pkt ∷ rest) c ≡ fill next rest (record c { queue = rest }) =
              ground arith in
            let d : UdpConn = state_of (fill next rest (record c { queue = rest })) in
            subst (λ o. Reads c (state_of o)) (sym same)
              (record {
                same_key = r.same_key;
                same_closed = r.same_closed;
                fewer = omega (arith, r.fewer);
              })
        | inr some_bytes ↦
            let same : fill b (pkt ∷ rest) c
                ≡ returned (some tt) (record c { queue = rest; rbuf = pkt }) =
              ground arith in
            subst (λ o. Reads c (state_of o)) (sym same)
              (record { same_key = refl; same_closed = refl; fewer = shorter })
      ]
    ]

give-Reads :
    (m : ℕ) (c : UdpConn) (o : Ran UdpConn (Option (Unit {0})))
    → Reads c (state_of o)
    → Reads c (state_of (give m o))
give-Reads m c (failed e d) r = r
give-Reads m c (returned none d) r = r
give-Reads m c (returned (some u) d) r = record {
  same_key = r.same_key;
  same_closed = r.same_closed;
  fewer = r.fewer;
}

pub read_conn-Reads : (b : ℕ → Bool) (m : ℕ) (c : UdpConn) → Reads c (state_of (read_conn b m c))
unfolding read_conn
read_conn-Reads b m c =
    elim (length c.rbuf == 0)
      as (λ z.
        Reads c
          (state_of (if z then give m (fill b c.queue c) else give m (returned (some tt) c)))) [
            | true ↦ give-Reads m c (fill b c.queue c) (fill-Reads b c.queue c refl)
            | false ↦
                give-Reads m c (returned (some tt) c)
                  (record { same_key = refl; same_closed = refl; fewer = omega arith })
          ]

-- What the goroutines of a listener and its connections do, but for the listener's Close.
pub data Op : Type 0 where
  receives : Bool → Str → Str → Op
  accepts : Bool → Op
  closes : ℕ → Op
  reads : (ℕ → Bool) → ℕ → ℕ → Op
  writes : ℕ → Str → Op

abbrev pub read_at : (ℕ → Bool) → ℕ → ℕ → Listener → Listener
read_at b h m l = set_cell h (state_of (read_conn b m (l.cell h))) l

unfoldable pub apply : Op → Listener → Listener
apply (receives b key pkt) l = state_of (receive b key pkt l)
apply (accepts b) l = state_of (accept b l)
apply (closes h) l = state_of (close_local h l)
apply (reads b h m) l = read_at b h m l
apply (writes h p) l = state_of (write_conn h p l)

unfoldable pub run : List Op → Listener → Listener
run [] l = l
run (o ∷ os) l = run os (apply o l)

pub read_at-Inv : (b : ℕ → Bool) (h m : ℕ) (l : Listener) → Inv l → Inv (read_at b h m l)
read_at-Inv b h m l v =
    let r = read_conn-Reads b m (l.cell h) in
    record {
      entries = λ key g e. ground (arith, v.entries key g e, r.same_key, r.same_closed);
      queues = λ g. ground (arith, v.queues g, v.queues h, r.fewer);
      accepts = v.accepts;
      free = v.free;
    }

accept-Inv : (b : Bool) (l : Listener) → Inv l → Inv (state_of (accept b l))
unfolding accept
accept-Inv b l v = go l.accept_queue refl
  where
    go : (q : List ℕ) → l.accept_queue ≡ q → Inv (state_of (accept_from q b l))
    go [] e =
        elim l.is_closed
          as (λ z. Inv (state_of {A = Option ℕ} (if z then failed closed l else returned none l))) [
            | true ↦ v
            | false ↦ v
          ]
    go (h ∷ hs) e =
        elim (l.is_closed && b)
          as (λ z. Inv (
            state_of {A = Option ℕ} (
              if z then failed closed l else returned (some h) (record l { accept_queue = hs })))) [
                | true ↦ v
                | false ↦ record {
                  entries = v.entries;
                  queues = v.queues;
                  accepts = omega (arith, v.accepts, ap (λ (z : List ℕ). length z) e);
                  free = v.free;
                }
              ]

write_conn-Inv : (h : ℕ) (p : Str) (l : Listener) → Inv l → Inv (state_of (write_conn h p l))
unfolding write_conn
write_conn-Inv h p l v =
    elim (l.cell h).is_closed
      as (λ z. Inv (
        state_of {A = ℕ} (
          if z
          then failed closed l
          else returned (length p) (record l { sent = l.sent ++ ((l.cell h).key, p) ∷ [] })))) [
            | true ↦ v
            | false ↦ record {
              entries = v.entries;
              queues = v.queues;
              accepts = v.accepts;
              free = v.free;
            }
          ]

apply-Inv : (o : Op) (l : Listener) → Inv l → Inv (apply o l)
unfolding apply
apply-Inv (receives b key pkt) l v =
    let (t, e, w) = receive-Inv b key pkt l v in subst (λ o. Inv (state_of o)) (sym e) w
apply-Inv (accepts b) l v = accept-Inv b l v
apply-Inv (closes h) l v =
    let (t, e, w) = close_local-Inv h l v in subst (λ o. Inv (state_of o)) (sym e) w
apply-Inv (reads b h m) l v = read_at-Inv b h m l v
apply-Inv (writes h p) l v = write_conn-Inv h p l v

pub run-Inv : (os : List Op) (l : Listener) → Inv l → Inv (run os l)
unfolding run
run-Inv [] l v = v
run-Inv (o ∷ os) l v = run-Inv os (apply o l) (apply-Inv o l v)

pub new_listener-Inv : Inv new_listener
unfolding new_listener
new_listener-Inv = record {
  entries = λ key h e. absurd (lookup-nil key h e);
  queues = λ h. omega arith;
  accepts = omega arith;
  free = refl;
}

-- After any sequence of datagrams, accepts, reads, writes and closes of connections the table of a
-- new listener holds open connections under their own addresses and every queue is within its
-- capacity; the next datagram, whatever its address, and the next close of a connection are done
-- with and leave the lock free.
pub run-receive :
    (os : List Op) (b : Bool) (key pkt : Str) (h : ℕ)
    → Inv (run os new_listener)
      × ((t : Listener) × (receive b key pkt (run os new_listener) ≡ returned tt t) × Inv t)
      × ((t : Listener) × (close_local h (run os new_listener) ≡ returned tt t) × Inv t)
run-receive os b key pkt h =
    let v = run-Inv os new_listener new_listener-Inv in
    (v, receive-Inv b key pkt (run os new_listener) v, close_local-Inv h (run os new_listener) v)
