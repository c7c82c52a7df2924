-- ===== src/Grpc.antt =====
-- grpcNetConn (internal/tunnel/runner.go): a connection over the messages of a gRPC stream.
mod Tests
pub mod Laws
use backhaul_recovered.Prelude.{
  ℕ, suc, ◌+◌, ◌≡◌, Bool, true, false, List, [], ◌∷◌, ◌++◌, length, if◌then◌else◌,
}
use backhaul_recovered.Prelude.Text.{Str}
use backhaul_recovered.Net.{M, Ran, returned, failed, ◌>>=◌, ◌>>◌, pure, throw, eof, closed}
use backhaul_recovered.Stream.{Buffered, read, copy}

-- grpcChunk
pub record Chunk : Type 0 where
  pub bytes : Str
  pub is_eof : Bool

abbrev pub data_chunk : Str → Chunk
data_chunk p = record { bytes = p; is_eof = false }

abbrev pub eof_chunk : Chunk
eof_chunk = record { bytes = []; is_eof = true }

-- The gRPC library: SendMsg, RecvMsg and CloseSend over a state of its own. `sent` are the messages
-- given to the stream, `pending` those that have arrived and are still to be received. As the
-- library documents it, messages are received one by one in their order.
pub record GrpcStream : Type 1 where
  pub State : Type 0
  pub send_msg : Chunk → M State (Unit {0})
  pub recv_msg : M State Chunk
  pub close_send : State → State
  pub sent : State → List Chunk
  pub pending : State → List Chunk
  pub send_sends :
      (c : Chunk) (s t : State) {o : Unit {0}}
      → send_msg c s ≡ returned o t
      → sent t ≡ sent s ++ c ∷ []
  pub close_keeps : (s : State) → sent (close_send s) ≡ sent s
  pub recv_next :
      (c : Chunk) (cs : List Chunk) (s : State)
      → pending s ≡ c ∷ cs
      → (t : State) × (recv_msg s ≡ returned c t) × (pending t ≡ cs)

abbrev pub weight : List Chunk → ℕ
weight [] = 0
weight (c ∷ cs) = suc (length c.bytes + weight cs)

-- The connection without its buffer; `S` is the state of its stream.
pub record Grpc (S : Type 0) : Type 0 where
  pub stream : S
  pub is_closed : Bool

module _ (g : GrpcStream) where
  abbrev pub Conn : Type 0
  Conn = Grpc g.State

  abbrev pub on_stream : {A : Type 0} → M g.State A → M Conn A
  on_stream m c = elim (m c.stream) [
    | returned a s ↦ returned a (record c { stream = s })
    | failed e s ↦ failed e (record c { stream = s })
  ]

  -- One round of the loop of grpcNetConn.Read.
  abbrev pub bytes_of : Chunk → M Conn Str
  bytes_of chunk = if chunk.is_eof then throw eof else pure chunk.bytes

  pub next_chunk : M Conn Str
  next_chunk = on_stream g.recv_msg >>= bytes_of

  -- The rounds and bytes that may still come.
  abbrev pub budget : Conn → ℕ
  budget c = suc (weight (g.pending c.stream))

  -- grpcNetConn.Read into `m` bytes, and io.Copy over it.
  pub grpc_read : ℕ → M (Buffered Conn) Str
  unfolding next_chunk
  grpc_read m b = read next_chunk (budget b.inner) m b

  pub grpc_copy : ℕ → M (Buffered Conn) Str
  unfolding next_chunk
  grpc_copy m b = copy next_chunk (budget b.inner) (budget b.inner) m b

  -- grpcNetConn.Write
  pub grpc_write : Str → M Conn ℕ
  grpc_write p c =
      if c.is_closed
      then failed closed c
      else (on_stream (g.send_msg (data_chunk p)) >>= λ _. pure (length p)) c

  -- grpcNetConn.Close; what onClose does is left to the library.
  pub grpc_close : M Conn (Unit {0})
  grpc_close c = if c.is_closed then returned tt c else elim (g.send_msg eof_chunk c.stream) [
    | returned u s ↦ returned tt (record { stream = g.close_send s; is_closed = true })
    | failed e s ↦ returned tt (record { stream = g.close_send s; is_closed = true })
  ]

  -- Writes one after the other, up to the first that fails, and a Close.
  pub write_all : List Str → M Conn (Unit {0})
  unfolding grpc_write
  write_all [] = pure tt
  write_all (p ∷ ps) = grpc_write p >>= λ _. write_all ps
