-- ===== src/Websocket/Laws.antt =====
-- Frames on their way: what a write leaves alone and what a reader takes from each frame.
use backhaul_recovered.Prelude.{
  Bool-cases, inl, inr, ℕ, ◌≤◌, ◌≡◌, ◌≢◌, refl, Bool, true, false, [], length, arith, ◌==◌,
  if◌then◌else◌,
}
use backhaul_recovered.Prelude.Text.{Str}
use backhaul_recovered.Net.{
  Conn, M, Ran, ◌>>=◌, ◌>>◌, pure, returned, failed, write_, write, ignore,
}
use backhaul_recovered.Net.Laws.{Keeps, Keeps-bind, SameReader, write-Keeps}
use backhaul_recovered.Websocket.{
  Websocket, on_conn, next_mask, mask_from, first_mask, rest_masks, client_frame, server_frame,
  frame_header, write_frame, dispatch,
}

abbrev pub Same : Websocket → Websocket → Type 0
Same s t = SameReader s.conn t.conn

Same-trans : (s t u : Websocket) → Same s t → Same t u → Same s u
Same-trans s t u a b = ground arith

write_-Same : (p : Str) (s : Websocket) → Keeps Same s (on_conn (write_ p) s)
write_-Same p s = go (write p s.conn) (write-Keeps p s.conn)
  where
    go :
        (o : Ran Conn ℕ)
        → Keeps SameReader s.conn o
        → Keeps Same s (on_conn ((λ (c : Conn). o) >>= λ _. pure tt) s)
    go (returned n d) k = k
    go (failed e d) k = k

two-Same : (p q : Str) (s : Websocket) → Keeps Same s (on_conn (write_ p >> write_ q) s)
two-Same p q s = go (write p s.conn) (write-Keeps p s.conn)
  where
    after :
        (d : Conn)
        → SameReader s.conn d
        → (o : Ran Conn ℕ) → Keeps SameReader d o
        → Keeps Same s (on_conn ((λ (c : Conn). o) >>= λ _. pure tt) s)
    after d k (returned n e) l = ground arith
    after d k (failed x e) l = ground arith

    go :
        (o : Ran Conn ℕ)
        → Keeps SameReader s.conn o
        → Keeps Same s (on_conn (((λ (c : Conn). o) >>= λ _. pure tt) >> write_ q) s)
    go (returned n d) k = after d k (write q d) (write-Keeps q d)
    go (failed e d) k = k

client_frame-Same :
    (opcode : ℕ) (payload : Str) (s : Websocket) → Keeps Same s (client_frame opcode payload s)
unfolding client_frame
client_frame-Same opcode payload s =
    Keeps-bind Same (on_conn (write_ (frame_header 0x80 opcode (length payload)))) rest s
      (Same-trans s) (write_-Same _ s)
      (λ _ t.
        two-Same (first_mask t.masks) (mask_from (first_mask t.masks) 0 payload)
          (record t { masks = rest_masks t.masks }))
  where
    rest : Unit {0} → M Websocket (Unit {0})
    rest _ = next_mask >>= λ mk. on_conn (write_ mk >> write_ (mask_from mk 0 payload))

server_frame-Same :
    (opcode : ℕ) (payload : Str) (s : Websocket) → Keeps Same s (server_frame opcode payload s)
unfolding server_frame
server_frame-Same opcode payload s =
    Keeps-bind Same (on_conn (write_ (frame_header 0 opcode (length payload)))) rest s
      (Same-trans s) (write_-Same _ s) (λ _ t. tail t (length payload == 0))
  where
    rest : Unit {0} → M Websocket (Unit {0})
    rest _ = if length payload == 0 then pure tt else on_conn (write_ payload)

    tail :
        (t : Websocket) (b : Bool)
        → Keeps Same t ((if b then pure tt else on_conn (write_ payload)) t)
    tail t true = ground arith
    tail t false = write_-Same payload t

write_frame-Same :
    (opcode : ℕ) (payload : Str) (s : Websocket) → Keeps Same s (write_frame opcode payload s)
unfolding write_frame
write_frame-Same opcode payload s =
    elim s.is_client
      as (λ b.
        Keeps Same s (if b then client_frame opcode payload s else server_frame opcode payload s)) [
          | true ↦ client_frame-Same opcode payload s
          | false ↦ server_frame-Same opcode payload s
        ]

-- What a frame adds to the stream: its payload if it is a data frame.
unfoldable pub content : ℕ → Str → Str
content opcode payload =
    if opcode == 0x1
    then payload
    else if opcode == 0x2
    then payload
    else if opcode == 0x0
    then payload
    else []

pong_sent :
    (payload : Str) (s : Websocket)
    → (t : Websocket) × (ignore (write_frame 0xa payload) s ≡ returned tt t) × Same s t
pong_sent payload s = go (write_frame 0xa payload s) refl (write_frame-Same 0xa payload s)
  where
    go :
        (o : Ran Websocket (Unit {0}))
        → write_frame 0xa payload s ≡ o
        → Keeps Same s o
        → (t : Websocket) × (ignore (write_frame 0xa payload) s ≡ returned tt t) × Same s t
    go (returned u t) e k = (t, rw (e, ignore), k)
    go (failed x t) e k = (t, rw (e, ignore), k)

pub dispatch_lem :
    (opcode : ℕ) (payload : Str) (s : Websocket)
    → opcode ≢ 0x8
    → (t : Websocket) × (dispatch opcode payload s ≡ returned (content opcode payload) t) × Same s t
unfolding dispatch content
dispatch_lem opcode payload s h = elim (Bool-cases (opcode == 0x9)) [
  | inl ping ↦ let (t, e, k) = pong_sent payload s in (t, ground (arith, e), k)
  | inr other ↦ (s, ground arith, ground arith)
]

pub content_data : (payload : Str) → content 0x2 payload ≡ payload
unfolding content
content_data payload = refl

pub length-content : (opcode : ℕ) (payload : Str) → length (content opcode payload) ≤ length payload
unfolding content
length-content opcode payload = ground arith
