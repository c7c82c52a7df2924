-- ===== src/UdpRelay/Tests.antt =====
-- Two addresses on a public port, on concrete bytes.
use backhaul_recovered.Prelude.{refl, Bool, true, false, [], ◌∷◌, List, arith}
use backhaul_recovered.Prelude.Text.{Str, codes}
use backhaul_recovered.Net.{Conn, eof, write}
use backhaul_recovered.Datagram.{write_datagram_frame}
use backhaul_recovered.UdpControl.Table.{lookup, insert, delete, lookup-nil}
use backhaul_recovered.UdpRelay.{Relay, ClientRelay, associate, relay_up, receive}
use backhaul_recovered.UdpRelay.Table.{Sound, associate-Sound, datagrams, run}
use backhaul_recovered.UdpRelay.Transfer.{Passed, relay_up-run}

abbrev with_bytes : Str → Conn
with_bytes bytes = record {
  incoming = bytes;
  ends = eof;
  sent = [];
  script = [];
  is_closed = false;
}

abbrev empty : Relay
empty = record {
  assocs = [];
  conn = λ h. with_bytes [];
  addr = λ h. [];
  next_handle = 0;
  answers = [];
}

empty-Sound : Sound empty
empty-Sound = record {
  own = λ key h e. absurd (lookup-nil key h e);
  below = λ key h e. absurd (lookup-nil key h e);
}

abbrev events : List (Bool × Str × Str)
events =
    (true, codes "a", codes "one")
    ∷ (true, codes "b", codes "two")
    ∷ (true, codes "a", codes "six")
    ∷ []

abbrev started : Relay
started = associate (codes "a") empty

abbrev reader : ClientRelay
reader = record {
  control = with_bytes ((run events started).conn 0).sent;
  coming = [];
  passed = [];
}

relay_up-run_example : Passed (datagrams (codes "a") events) reader (relay_up 3 reader)
unfolding lookup insert delete receive write_datagram_frame write
relay_up-run_example =
    relay_up-run events (codes "a") 0 3 started reader
      (associate-Sound (codes "a") empty empty-Sound) refl refl tt refl (omega arith) refl refl
