-- ===== src/Grpc/Tests.antt =====
-- A gRPC stream that loses nothing, as two lists.
use backhaul_recovered.Prelude.{◌≡◌, refl, ap, Bool, true, false, List, [], ◌∷◌, ◌++◌, arith}
use backhaul_recovered.Prelude.Text.{codes}
use backhaul_recovered.Net.{M, returned, failed, eof}
use backhaul_recovered.Stream.{Buffered}
use backhaul_recovered.Grpc.{
  Chunk, data_chunk, eof_chunk, GrpcStream, Conn, grpc_copy, grpc_write, grpc_close, write_all,
}
use backhaul_recovered.Grpc.Laws.{grpc_transfer}

record Lists : Type 0 where
  given : List Chunk
  coming : List Chunk

abbrev receive : List Chunk → M Lists Chunk
receive [] s = failed eof s
receive (c ∷ cs) s = returned c (record s { coming = cs })

abbrev send : Chunk → M Lists (Unit {0})
send c s = returned tt (record s { given = s.given ++ c ∷ [] })

send_sends :
    (c : Chunk) (s t : Lists) {o : Unit {0}} → send c s ≡ returned o t → t.given ≡ s.given ++ c ∷ []
send_sends c s t e = cc

receive_next :
    (c : Chunk) (cs : List Chunk) (s : Lists)
    → s.coming ≡ c ∷ cs
    → (t : Lists) × (receive s.coming s ≡ returned c t) × (t.coming ≡ cs)
receive_next c cs s e = (record s { coming = cs }, ap (λ z. receive z s) e, refl)

abbrev lists : GrpcStream
lists = record {
  State = Lists;
  send_msg = send;
  recv_msg = λ s. receive s.coming s;
  close_send = λ s. s;
  sent = λ s. s.given;
  pending = λ s. s.coming;
  send_sends = send_sends;
  close_keeps = λ s. refl;
  recv_next = receive_next;
}

abbrev at : List Chunk → List Chunk → Bool → Conn lists
at given coming is_closed = record {
  stream = record { given = given; coming = coming };
  is_closed = is_closed;
}

abbrev words : List Chunk
words = data_chunk (codes "ab") ∷ data_chunk [] ∷ data_chunk (codes "c") ∷ []

grpc_transfer_example :
    (d : Buffered (Conn lists)) × (grpc_copy lists 2
        (record { inner = at [] (words ++ eof_chunk ∷ []) false; rbuf = [] })
      ≡ returned (codes "abc") d)
unfolding write_all grpc_write grpc_close
grpc_transfer_example =
    grpc_transfer lists (codes "ab" ∷ [] ∷ codes "c" ∷ []) 2 (at [] [] false) (at words [] false)
      (at (words ++ eof_chunk ∷ []) [] true)
      (record { given = words ++ eof_chunk ∷ []; coming = [] })
      (at [] (words ++ eof_chunk ∷ []) false) (omega arith) refl refl refl refl refl refl
