-- ===== src/Slip/Tests.antt =====
-- A writer and a reader of a slipstream connection on concrete bytes.
use backhaul_recovered.Prelude.{take, ◌≡◌, ◌≢◌, refl, false, [], ◌∷◌, arith}
use backhaul_recovered.Prelude.Text.{Str, codes}
use backhaul_recovered.Net.{read_full, Ran, Conn, eof, returned, failed, stuck, write, refuses}
use backhaul_recovered.Stream.{Buffered, write_chunks, write_stream, write_each}
use backhaul_recovered.Slip.{new_slipstream_conn, Slip, xor, encipher, emit, slip_copy, slip_write}
use backhaul_recovered.Slip.Hello.{wrap_client, wrap_server, wrap_same_key}
use backhaul_recovered.Slip.Laws.{slip_transfer, slip_write-ne-stuck}

abbrev fresh : Conn
fresh = record { incoming = []; ends = eof; sent = []; script = []; is_closed = false }

abbrev key : Str
key = 1 ∷ 2 ∷ []

abbrev writer : Slip
writer = record { conn = fresh; key = key; roff = 0; woff = 5 }

abbrev reader : Slip
reader = record {
  conn = record fresh { incoming = 0 ∷ 2 ∷ 5 ∷ 9 ∷ 0 ∷ 1 ∷ 11 ∷ [] };
  key = key;
  roff = 5;
  woff = 0;
}

slip_transfer_example :
    (d : Buffered Slip) × (slip_copy 2 (record { inner = reader; rbuf = [] })
      ≡ returned (7 ∷ 8 ∷ 9 ∷ []) d)
unfolding emit encipher xor write write_chunks write_stream write_each
slip_transfer_example =
    slip_transfer ((7 ∷ 8 ∷ []) ∷ (9 ∷ []) ∷ []) 2 writer _ reader (omega arith) tt refl refl refl
      (omega arith) refl refl refl refl

abbrev broken : Slip
broken = record writer { conn = record fresh { script = refuses 1 ∷ [] } }

slip_write-ne-stuck_example : slip_write (7 ∷ 8 ∷ []) broken ≢ failed stuck broken
slip_write-ne-stuck_example = slip_write-ne-stuck (7 ∷ 8 ∷ []) broken broken

abbrev here : Str
here = codes "0123456789abcdef"

abbrev there : Str
there = codes "ghijklmnopqrstuv"

abbrev client_end : Conn
client_end = record fresh { incoming = codes "SLP1ghijklmnopqrstuv" }

abbrev server_end : Conn
server_end = record fresh { incoming = codes "SLP10123456789abcdef" }

abbrev first_32 : Str → Str
first_32 bytes = take 32 bytes

abbrev value_of : Ran Conn Slip → Slip
value_of (returned k c) = k
value_of (failed e c) = new_slipstream_conn c []

abbrev state_of : Ran Conn Slip → Conn
state_of (returned k c) = c
state_of (failed e c) = c

abbrev client_run : Ran Conn Slip
client_run = wrap_client first_32 here client_end

abbrev server_run : Ran Conn Slip
server_run = wrap_server first_32 there server_end

wrap_same_key_example :
    ((value_of client_run).key ≡ (value_of server_run).key)
    × ((value_of client_run).woff ≡ (value_of server_run).roff)
    × ((value_of server_run).woff ≡ (value_of client_run).roff)
unfolding wrap_client wrap_server write read_full
wrap_same_key_example =
    wrap_same_key first_32 here there [] [] client_end (state_of client_run) server_end
      (state_of server_run) (value_of client_run) (value_of server_run) refl refl tt tt refl refl
      refl refl refl refl refl refl
