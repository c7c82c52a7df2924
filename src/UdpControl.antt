-- ===== src/UdpControl.antt =====
-- udpControlListener and udpControlConn (internal/tunnel/runner.go): connections over UDP, one for
-- each address that datagrams come from.
--
-- An address is the string that raddr.String() gives. Connections stand in a store under handles;
-- `mu` says that the listener's lock is held, and a goroutine that takes it twice waits for ever.
pub mod Table
pub mod Demux
pub mod Invariant
pub mod Entry
pub mod Locks
pub mod Arrivals
pub mod Reading
pub mod Run
mod Tests
use backhaul_recovered.Prelude.{
  ℕ, zero, suc, ◌+◌, Bool, true, false, Option, none, some, List, [], ◌∷◌, ◌++◌, length, take, drop,
  ltb, ◌&&◌, ◌==◌, not, if◌then◌else◌,
}
use backhaul_recovered.Prelude.Text.{Str, str_eq}
use backhaul_recovered.Net.{
  Ran, M, ◌>>=◌, ◌>>◌, pure, throw, returned, failed, eof, closed, deadlock,
}
use Table.{lookup, delete, insert}

-- `queue` is the channel `incoming` (512 places); `is_closed` says that `closed` was closed.
pub record UdpConn : Type 0 where
  pub key : Str
  pub queue : List Str
  pub rbuf : Str
  pub is_closed : Bool

-- `accept_queue` is acceptC (256 places); `sent` are the datagrams written, each with its address.
pub record Listener : Type 0 where
  pub conns : List (Str × ℕ)
  pub cell : ℕ → UdpConn
  pub next_handle : ℕ
  pub accept_queue : List ℕ
  pub mu : Bool
  pub is_closed : Bool
  pub sent : List (Str × Str)

abbrev pub new_conn : Str → UdpConn
new_conn key = record { key = key; queue = []; rbuf = []; is_closed = false }

-- The state that listenUDPControl sets up.
pub new_listener : Listener
new_listener = record {
  conns = [];
  cell = λ _. new_conn [];
  next_handle = 0;
  accept_queue = [];
  mu = false;
  is_closed = false;
  sent = [];
}

abbrev pub set_cell : ℕ → UdpConn → Listener → Listener
set_cell h c l = record l { cell = λ g. if h == g then c else l.cell g }

pub lock : M Listener (Unit {0})
lock l = if l.mu then failed deadlock l else returned tt (record l { mu = true })

pub unlock : M Listener (Unit {0})
unlock l = returned tt (record l { mu = false })

-- udpControlListener.remove
pub remove : Str → M Listener (Unit {0})
unfolding lock unlock
remove key = lock >> (λ l. returned tt (record l { conns = delete key l.conns })) >> unlock

-- udpControlConn.closeLocal, which Close calls.
pub close_local : ℕ → M Listener (Unit {0})
unfolding remove
close_local h l =
    if (l.cell h).is_closed
    then returned tt l
    else remove (l.cell h).key (set_cell h (record (l.cell h) { is_closed = true }) l)

-- udpControlConn.push; `prefer_closed` is the choice of `select` on a closed connection that has room.
pub push : Bool → ℕ → Str → Listener → Bool × Listener
push prefer_closed h pkt l =
    if (l.cell h).is_closed && prefer_closed
    then (false, l)
    else if ltb (length (l.cell h).queue) 512
    then (true, set_cell h (record (l.cell h) { queue = (l.cell h).queue ++ pkt ∷ [] }) l)
    else (false, l)

abbrev pub pushed : ℕ → Bool × Listener → Ran Listener (Unit {0})
pushed h (true, l) = returned tt l
pushed h (false, l) = close_local h l

-- The new connection of readLoop, in the table.
abbrev pub enter : Str → Listener → Listener
enter key l = record (set_cell l.next_handle (new_conn key) l) {
  conns = insert key l.next_handle l.conns;
  next_handle = l.next_handle + 1;
}

-- A new address: the connection is handed to Accept, or closed where the channel is full.
abbrev pub first_packet : Bool → Str → Str → M Listener (Unit {0})
first_packet prefer_closed key pkt l =
    let h = l.next_handle in
    let m = enter key l in
    if ltb (length m.accept_queue) 256
    then (unlock >> λ n. pushed h (push prefer_closed h pkt n))
        (record m { accept_queue = m.accept_queue ++ h ∷ [] })
    else unlock (record (set_cell h (record (new_conn key) { is_closed = true }) m) {
      conns = delete key m.conns;
    })

abbrev pub packet_for : Option ℕ → Bool → Str → Str → M Listener (Unit {0})
packet_for none prefer_closed key pkt l = first_packet prefer_closed key pkt l
packet_for (some h) prefer_closed key pkt l =
    (unlock >> λ m. pushed h (push prefer_closed h pkt m)) l

-- One round of udpControlListener.readLoop, on the datagram `pkt` from the address `key`.
pub receive : Bool → Str → Str → M Listener (Unit {0})
unfolding lock unlock push
receive prefer_closed key pkt = lock >> λ l. packet_for (lookup key l.conns) prefer_closed key pkt l

-- udpControlListener.Accept; `none` stands for a caller that waits.
abbrev pub accept_from : List ℕ → Bool → M Listener (Option ℕ)
accept_from [] prefer_closed l = if l.is_closed then failed closed l else returned none l
accept_from (h ∷ hs) prefer_closed l =
    if l.is_closed && prefer_closed
    then failed closed l
    else returned (some h) (record l { accept_queue = hs })

pub accept : Bool → M Listener (Option ℕ)
accept prefer_closed l = accept_from l.accept_queue prefer_closed l

-- The loop of udpControlListener.Close.
pub close_each : List (Str × ℕ) → M Listener (Unit {0})
unfolding close_local
close_each [] = pure tt
close_each ((key, h) ∷ rest) = close_local h >> close_each rest

-- udpControlListener.Close
pub close_listener : M Listener (Unit {0})
unfolding lock unlock close_each
close_listener l =
    if l.is_closed
    then returned tt l
    else (lock
          >> (λ m. close_each m.conns m)
          >> (λ m. returned tt (record m { conns = [] }))
          >> unlock)
        (record l { is_closed = true })

-- The loop of udpControlConn.Read: packets go to the buffer until there is a byte in it. Where the
-- connection is closed and a packet waits, `prefer_closed` is the choice of `select` in each round,
-- from 0. `none` stands for a reader that waits.
pub fill : (ℕ → Bool) → List Str → UdpConn → Ran UdpConn (Option (Unit {0}))
fill prefer_closed [] c = if c.is_closed then failed eof c else returned none c
fill prefer_closed (pkt ∷ rest) c =
    let more = fill (λ n. prefer_closed (suc n)) rest (record c { queue = rest }) in
    if c.is_closed && prefer_closed 0
    then failed eof c
    else if length pkt == 0
    then more
    else returned (some tt) (record c { queue = rest; rbuf = pkt })

abbrev pub give : ℕ → Ran UdpConn (Option (Unit {0})) → Ran UdpConn (Option Str)
give m (failed e c) = failed e c
give m (returned none c) = returned none c
give m (returned (some u) c) = returned (some (take m c.rbuf)) (record c { rbuf = drop m c.rbuf })

-- udpControlConn.Read into `m` bytes.
pub read_conn : (ℕ → Bool) → ℕ → M UdpConn (Option Str)
unfolding fill
read_conn prefer_closed m c =
    if length c.rbuf == 0
    then give m (fill prefer_closed c.queue c)
    else give m (returned (some tt) c)

-- udpControlConn.Write, on a socket that takes every datagram.
pub write_conn : ℕ → Str → M Listener ℕ
write_conn h p l =
    if (l.cell h).is_closed
    then failed closed l
    else returned (length p) (record l { sent = l.sent ++ ((l.cell h).key, p) ∷ [] })
