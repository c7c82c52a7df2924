-- ===== src/UdpRelay.antt =====
-- startPublicUDPListener and handleUDPClientRelay (internal/tunnel/runner.go): the datagrams of a
-- public port, each address on a connection of its own, and the client that passes them on.
--
-- The connections that `acquire` hands out stand in a store, under the numbers from `next_handle`
-- on. A goroutine reads the answers of each association; its rounds are steps of their own.
mod Tests
pub mod Table
pub mod Transfer
use backhaul_recovered.Prelude.{
  ℕ, zero, suc, ◌+◌, Bool, true, false, Option, none, some, List, [], ◌∷◌, ◌++◌, length, ◌==◌,
  if◌then◌else◌,
}
use backhaul_recovered.Prelude.Text.{Str}
use backhaul_recovered.Net.{Conn, M, Ran, returned, failed, ◌>>=◌, ◌>>◌, throw, zoom, close, stuck}
use backhaul_recovered.Datagram.{write_datagram_frame, read_datagram_frame}
use backhaul_recovered.UdpControl.Table.{lookup, insert, delete}

-- `addr` is the field of an association; `answers` are the datagrams written to the public socket.
pub record Relay : Type 0 where
  pub assocs : List (Str × ℕ)
  pub conn : ℕ → Conn
  pub addr : ℕ → Str
  pub next_handle : ℕ
  pub answers : List (Str × Str)

abbrev pub set_conn : ℕ → Conn → Relay → Relay
set_conn h c s = record s { conn = λ g. if h == g then c else s.conn g }

-- The write of a datagram: a connection that fails is closed, and stays in the table until its
-- goroutine takes it out.
abbrev pub forwarded : ℕ → Ran Conn (Unit {0}) → Relay → Relay
forwarded h (returned u c) s = set_conn h c s
forwarded h (failed e c) s = set_conn h (close c) s

abbrev pub forward : ℕ → Str → Relay → Relay
forward h pkt s = forwarded h (write_datagram_frame pkt (s.conn h)) s

-- A new association.
abbrev pub associate : Str → Relay → Relay
associate src s = record s {
  assocs = insert src s.next_handle s.assocs;
  addr = λ g. if s.next_handle == g then src else s.addr g;
  next_handle = s.next_handle + 1;
}

abbrev pub forward_on : Option ℕ → Bool → Str → Str → Relay → Relay
forward_on (some h) acquired src pkt s = forward h pkt s
forward_on none acquired src pkt s =
    if acquired then forward s.next_handle pkt (associate src s) else s

-- A round of the loop of startPublicUDPListener; `acquired` says whether `acquire` gives a
-- connection, where it is asked.
pub receive : Bool → Str → Str → Relay → Relay
receive acquired src pkt s = forward_on (lookup src s.assocs) acquired src pkt s

-- A round of the goroutine of an association.
abbrev pub answered : ℕ → Ran Conn Str → Relay → Relay
answered h (returned pkt c) s = record (set_conn h c s) {
  answers = s.answers ++ (s.addr h, pkt) ∷ [];
}
answered h (failed e c) s = record (set_conn h (close c) s) { assocs = delete (s.addr h) s.assocs }

pub answer : ℕ → Relay → Relay
answer h s = answered h (read_datagram_frame (s.conn h)) s

-- handleUDPClientRelay: the control connection, what is still to come from the target, and what it
-- has been sent.
pub record ClientRelay : Type 0 where
  pub control : Conn
  pub coming : List Str
  pub passed : List Str

abbrev pub on_control : {A : Type 0} → M Conn A → M ClientRelay A
on_control = zoom (λ s. s.control) (λ c s. record s { control = c })

-- A round of the goroutine that passes datagrams to the target, whose socket takes them all.
pub pass_up : M ClientRelay (Unit {0})
pass_up = on_control read_datagram_frame >>= λ pkt s.
    returned tt (record s { passed = s.passed ++ pkt ∷ [] })

-- Its loop, up to the first error. Each round takes two bytes at least.
pub relay_up : ℕ → M ClientRelay (Unit {0})
unfolding pass_up
relay_up zero = throw stuck
relay_up (suc fuel) = pass_up >> relay_up fuel

-- A round of the goroutine that passes the answers back; `none` stands for a goroutine that waits.
abbrev pub pass_back : List Str → M ClientRelay (Option (Unit {0}))
pass_back [] s = returned none s
pass_back (pkt ∷ rest) s =
    (on_control (write_datagram_frame pkt) >>= λ u t. returned (some u) t)
      (record s { coming = rest })

pub relay_down : M ClientRelay (Option (Unit {0}))
relay_down s = pass_back s.coming s
