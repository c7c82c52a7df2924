-- ===== src/Grpc/Laws.antt =====
-- What a grpcNetConn writes and reads (internal/tunnel/runner.go).
use backhaul_recovered.Prelude.{
  ℕ, ◌+◌, ◌<◌, ◌≡◌, refl, sym, ap, ◌∙◌, Bool, true, false, List, [], ◌∷◌, ◌++◌, map, length, arith,
  if◌then◌else◌, append_assoc, append-nil, length-append, Bool-cases, inl, inr,
}
use backhaul_recovered.Prelude.Text.{Str}
use backhaul_recovered.Net.{Ran, returned, failed, ◌>>=◌, pure, eof, closed}
use backhaul_recovered.Net.Laws.{returned_bind}
use backhaul_recovered.Stream.{Buffered, Source, concat}
use backhaul_recovered.Stream.Laws.{copy_all}
use backhaul_recovered.Grpc.{
  Chunk, data_chunk, eof_chunk, GrpcStream, weight, Conn, on_stream, bytes_of, next_chunk, budget,
  grpc_copy, grpc_write, grpc_close, write_all,
}

weight-append : (cs ds : List Chunk) → weight (cs ++ ds) ≡ weight cs + weight ds
weight-append [] ds = omega arith
weight-append (c ∷ cs) ds = omega (arith, weight-append cs ds)

weight-data : (ps : List Str) → weight (map data_chunk ps) ≡ length ps + length (concat ps)
weight-data [] = refl
weight-data (p ∷ ps) = omega (arith, weight-data ps, length-append p (concat ps))

same_state : {S A : Type 0} (a b : A) (s t : S) → returned a s ≡ returned b t → s ≡ t
same_state a b s t e = cc

module _ (g : GrpcStream) where
  -- The messages `cs` are still to come, and then the one that ends the stream.
  pub record Rest (c : Conn g) (cs : List Str) : Type 0 where
    pub behind : List Chunk
    pub messages : g.pending c.stream ≡ map data_chunk cs ++ eof_chunk ∷ behind

  next_chunk_lem :
      (chunk : Chunk) (rest : List Chunk) (c : Conn g)
      → g.pending c.stream ≡ chunk ∷ rest
      → (s : g.State) × (next_chunk g c ≡ bytes_of g chunk (record c { stream = s }))
        × (g.pending s ≡ rest)
  unfolding next_chunk
  next_chunk_lem chunk rest c e =
      let (s, r, q) = g.recv_next chunk rest c.stream e in
      (s, ap (λ (o : Ran g.State Chunk). (on_stream g (λ (t : g.State). o) >>= bytes_of g) c) r, q)

  next_message :
      (c : Conn g) (p : Str) (cs : List Str)
      → Rest c (p ∷ cs)
      → (d : Conn g) × (next_chunk g c ≡ returned p d) × Rest d cs
  next_message c p cs r =
      let (s, e, q) =
        next_chunk_lem (data_chunk p) (map data_chunk cs ++ eof_chunk ∷ r.behind) c r.messages in
      (record c { stream = s }, e, record { behind = r.behind; messages = q })

  next_end : (c : Conn g) → Rest c [] → (d : Conn g) × (next_chunk g c ≡ failed eof d)
  next_end c r =
      let (s, e, q) = next_chunk_lem eof_chunk r.behind c r.messages in (record c { stream = s }, e)

  enough : (c : Conn g) (cs : List Str) → Rest c cs → length cs + length (concat cs) < budget g c
  enough c cs r = omega (
    arith,
    ap weight r.messages,
    weight-append (map data_chunk cs) (eof_chunk ∷ r.behind),
    weight-data cs,
  )

  grpc_source : Source (Conn g)
  grpc_source = record {
    next = next_chunk g;
    Rest = Rest;
    budget = budget g;
    next_message = next_message;
    next_end = next_end;
    enough = enough;
  }

  write_sends :
      (p : Str) (c d : Conn g) (n : ℕ)
      → grpc_write g p c ≡ returned n d
      → g.sent d.stream ≡ g.sent c.stream ++ data_chunk p ∷ []
  unfolding grpc_write
  write_sends p c d n e = elim (Bool-cases c.is_closed) [
    | inl o ↦ cc (rw o at e)
    | inr o ↦
        let opened : (on_stream g (g.send_msg (data_chunk p)) >>= λ _. pure (length p)) c
            ≡ returned n d =
          sym (
            ap
              (λ (b : Bool).
                if b
                then failed closed c
                else (on_stream g (g.send_msg (data_chunk p)) >>= λ _. pure (length p)) c)
              o)
          ∙ e in
        go (g.send_msg (data_chunk p) c.stream) refl opened
  ]
    where
      go :
          (r : Ran g.State (Unit {0}))
          → g.send_msg (data_chunk p) c.stream ≡ r
          → (on_stream g (λ (t : g.State). r) >>= λ _. pure (length p)) c ≡ returned n d
          → g.sent d.stream ≡ g.sent c.stream ++ data_chunk p ∷ []
      go (returned u s) q f =
          ap (λ (k : Conn g). g.sent k.stream)
            (sym (same_state (length p) n (record c { stream = s }) d f))
          ∙ g.send_sends (data_chunk p) c.stream s q
      go (failed x s) q f = cc f

  write_all_sends :
      (ps : List Str) (c d : Conn g) {o : Unit {0}}
      → write_all g ps c ≡ returned o d
      → g.sent d.stream ≡ g.sent c.stream ++ map data_chunk ps
  unfolding write_all
  write_all_sends [] c d {o} e =
      ap (λ (k : Conn g). g.sent k.stream) (sym (same_state tt o c d e))
      ∙ sym (append-nil (g.sent c.stream))
  write_all_sends (p ∷ ps) c d e =
      let (n, u, f, h) = returned_bind (grpc_write g p) (λ _. write_all g ps) c e in
      write_all_sends ps u d h
      ∙ ap (λ z. z ++ map data_chunk ps) (write_sends p c u n f)
      ∙ append_assoc (g.sent c.stream) (data_chunk p ∷ []) (map data_chunk ps)

  close_sends :
      (u t : Conn g) (v : g.State) {o x : Unit {0}}
      → u.is_closed ≡ false
      → g.send_msg eof_chunk u.stream ≡ returned x v
      → grpc_close g u ≡ returned o t
      → g.sent t.stream ≡ g.sent u.stream ++ eof_chunk ∷ []
  unfolding grpc_close
  close_sends u t v {o} {x} a b e =
      let ended : grpc_close g u
          ≡ returned tt (record { stream = g.close_send v; is_closed = true }) =
        rw a (rw b refl) in
      ap (λ (k : Conn g). g.sent k.stream)
        (sym (
          same_state tt o (record { stream = g.close_send v; is_closed = true }) t (sym ended ∙ e)))
      ∙ g.close_keeps v
      ∙ g.send_sends eof_chunk u.stream v b

  -- On any gRPC stream: the Writes of one end, if they report success and the message of its Close
  -- is sent, and all messages arrive, are what a reader at the other end gets, their bytes joined,
  -- by Reads of any size `m`, and then the end of the stream.
  pub grpc_transfer :
      (ps : List Str) (m : ℕ) (c u t : Conn g) (v : g.State) (r : Conn g) {o o' x : Unit {0}}
      → 0 < m
      → g.sent c.stream ≡ []
      → write_all g ps c ≡ returned o u
      → u.is_closed ≡ false
      → g.send_msg eof_chunk u.stream ≡ returned x v
      → grpc_close g u ≡ returned o' t
      → g.pending r.stream ≡ g.sent t.stream
      → (d : Buffered (Conn g)) × (grpc_copy g m (record { inner = r; rbuf = [] })
          ≡ returned (concat ps) d)
  unfolding grpc_copy grpc_source
  grpc_transfer ps m c u t v r pos fresh w a b e wire =
      let arriving : Rest r ps = record {
        behind = [];
        messages =
            wire
            ∙ close_sends u t v a b e
            ∙ ap (λ z. z ++ eof_chunk ∷ [])
                (write_all_sends ps c u w ∙ ap (λ z. z ++ map data_chunk ps) fresh);
      } in
      copy_all grpc_source m r ps arriving pos
