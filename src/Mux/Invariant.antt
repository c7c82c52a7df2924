-- ===== src/Mux/Invariant.antt =====
-- The operations of a session (internal/tunnel/runner.go) and its invariant.
use backhaul_recovered.Prelude.{
  ℕ, ◌+◌, ◌%◌, ◌^◌, ◌≤◌, ◌≡◌, refl, sym, ap, Bool, true, false, Option, none, some, List, [], ◌∷◌,
  length, arith, if◌then◌else◌, subst,
}
use backhaul_recovered.Prelude.Text.{Str}
use backhaul_recovered.Net.{Conn, Ran, ◌>>=◌, pure, returned, failed, on_error, eof, close}
use backhaul_recovered.Net.Laws.{Keeps}
use backhaul_recovered.Stream.{write_stream}
use backhaul_recovered.Stream.Chunks.{write_stream-Keeps}
use backhaul_recovered.Mux.Streams.{lookup-nil, update}
use backhaul_recovered.Mux.{
  Session, on_conn, write_frame, new_session, add_stream, remove_stream, remote_close, close_all,
  close_session, open_stream, handle_frame, read_frame, read_loop_round, ingest_round, ingest,
  read_stream_from, read_stream, write_to_stream, accept_from, accept, frame_open, frame_data,
}
use backhaul_recovered.Mux.Safety.{
  Inv, SameTable, SameTable-refl, SameTable-trans, SameTable-Inv, write_frame-SameTable,
  add_stream-Inv, remove_stream-Inv,
}
use backhaul_recovered.Mux.Frames.{handle_frame-Inv}

-- The state that an operation ends in, with a value or an error.
abbrev pub After : {S A : Type 0} → (S → Type 0) → Ran S A → Type 0
After P (returned a t) = P t
After P (failed e t) = P t

Keeps-After :
    {A : Type 0} (s : Session) (o : Ran Session A) → Keeps SameTable s o → Inv s → After Inv o
Keeps-After s (returned a t) k v = SameTable-Inv s t k v
Keeps-After s (failed e t) k v = SameTable-Inv s t k v

close_all-queues :
    (es : List (ℕ × ℕ)) (s : Session)
    → ((h : ℕ) → length (s.cell h).queue ≤ 256)
    → (h : ℕ) → length ((close_all es s).cell h).queue ≤ 256
unfolding close_all remote_close
close_all-queues [] s q h = q h
close_all-queues ((id, g) ∷ es) s q h =
    close_all-queues es (remote_close g s) (λ k. ground (arith, q k)) h

close_all-accepts :
    (es : List (ℕ × ℕ)) (s : Session) → (close_all es s).accept_queue ≡ s.accept_queue
unfolding close_all remote_close
close_all-accepts [] s = refl
close_all-accepts ((id, g) ∷ es) s = close_all-accepts es (remote_close g s)

pub close_session-Inv : (s : Session) → Inv s → Inv (close_session s)
unfolding close_session
close_session-Inv s v =
    elim s.closed
      as (λ b. Inv (if b then s else record (close_all s.streams begun) { streams = [] })) [
        | true ↦ v
        | false ↦ record {
          entries = λ id h q. absurd (lookup-nil id h q);
          queues = close_all-queues s.streams begun v.queues;
          accepts = rw (close_all-accepts s.streams begun) v.accepts;
        }
      ]
  where
    begun : Session
    begun = record s { closed = true; conn = close s.conn }

pub open_stream-Inv : (s : Session) → Inv s → After Inv (open_stream s)
unfolding open_stream
open_stream-Inv s v = elim s.closed as (λ b. After Inv (if b then failed eof s else opening)) [
  | true ↦ v
  | false ↦ go (write_frame frame_open id [] begun) (write_frame-SameTable frame_open id [] begun)
]
  where
    id : ℕ
    id = (s.next_id + 1) % 2 ^ 32

    begun : Session
    begun = add_stream id (record s { next_id = id })

    opening : Ran Session ℕ
    opening =
        (on_error (remove_stream id) (write_frame frame_open id []) >>= λ _. pure s.next_handle)
          begun

    ready : Inv begun
    ready =
        add_stream-Inv id (record s { next_id = id })
          (record { entries = v.entries; queues = v.queues; accepts = v.accepts })

    go :
        (o : Ran Session (Unit {0}))
        → Keeps SameTable begun o
        → After Inv
            ((on_error (remove_stream id) (λ (k : Session). o) >>= λ _. pure s.next_handle) begun)
    go (returned u t) k = SameTable-Inv begun t k ready
    go (failed e t) k = remove_stream-Inv id t (SameTable-Inv begun t k ready)

pub ingest-Inv : (h : ℕ) (s : Session) → Inv s → Inv (ingest h s)
unfolding ingest
ingest-Inv h s v = go (s.cell h).queue refl
  where
    go : (q : List Str) → (s.cell h).queue ≡ q → Inv (ingest_round q h s)
    go [] e =
        elim (s.cell h).queue_closed
          as (λ b. Inv (
            if b
            then record s { cell = update s.cell h (record (s.cell h) { read_closed = true }) }
            else s)) [
              | true ↦ record {
                entries = λ j g q. ground (arith, v.entries j g);
                queues = λ g. ground (arith, v.queues g);
                accepts = v.accepts;
              }
              | false ↦ v
            ]
    go (p ∷ ps) e = record {
      entries = λ j g q. ground (arith, v.entries j g);
      queues = λ g. ground (arith, v.queues g, v.queues h);
      accepts = v.accepts;
    }

pub read_stream-Inv : (h m : ℕ) (s : Session) → Inv s → After Inv (read_stream h m s)
unfolding read_stream
read_stream-Inv h m s v = go (s.cell h).read_buf
  where
    go : (buf : Str) → After Inv (read_stream_from buf h m s)
    go [] =
        elim (s.cell h).read_closed
          as (λ b. After {A = Option Str} Inv (if b then failed eof s else returned none s)) [
            | true ↦ v
            | false ↦ v
          ]
    go (x ∷ xs) = record {
      entries = λ j g q. ground (arith, v.entries j g);
      queues = λ g. ground (arith, v.queues g);
      accepts = v.accepts;
    }

pub write_to_stream-Inv :
    (h : ℕ) (p : Str) (s : Session) → Inv s → After Inv (write_to_stream h p s)
unfolding write_to_stream
write_to_stream-Inv h p s v = go (s.cell h).local_closed s.closed
  where
    sending : Ran Session ℕ
    sending = write_stream (write_frame frame_data (s.cell h).id) 32768 p s

    go : (a b : Bool) → After Inv (if a then failed eof s else if b then failed eof s else sending)
    go true b = v
    go false true = v
    go false false =
        Keeps-After s sending
          (write_stream-Keeps SameTable (write_frame frame_data (s.cell h).id) 32768 p s
            SameTable-refl SameTable-trans
            (λ c t. write_frame-SameTable frame_data (s.cell h).id c t))
          v

pub accept-Inv : (b : Bool) (s : Session) → Inv s → After Inv (accept b s)
unfolding accept
accept-Inv b s v = go s.accept_queue refl b
  where
    taken : (h : ℕ) (hs : List ℕ) → s.accept_queue ≡ h ∷ hs → Inv (record s { accept_queue = hs })
    taken h hs e = record {
      entries = v.entries;
      queues = v.queues;
      accepts = ground (arith, v.accepts, ap (λ (q : List ℕ). length q) e);
    }

    go : (q : List ℕ) → s.accept_queue ≡ q → (b : Bool) → After Inv (accept_from q b s)
    go [] e b =
        elim s.closed
          as (λ z. After {A = Option ℕ} Inv (if z then failed eof s else returned none s)) [
            | true ↦ v
            | false ↦ v
          ]
    go (h ∷ hs) e true =
        elim s.closed
          as (λ z.
            After {A = Option ℕ} Inv
              (if z then failed eof s else returned (some h) (record s { accept_queue = hs }))) [
                | true ↦ v
                | false ↦ taken h hs e
              ]
    go (h ∷ hs) e false =
        elim s.closed
          as (λ z. After {A = Option ℕ} Inv (
            if z
            then returned (some h) (record s { accept_queue = hs })
            else returned (some h) (record s { accept_queue = hs }))) [
              | true ↦ taken h hs e
              | false ↦ taken h hs e
            ]

pub read_loop_round-Inv : (s : Session) → Inv s → After Inv (read_loop_round s)
unfolding read_loop_round
read_loop_round-Inv s v = go (read_frame s.conn)
  where
    moved : (d : Conn) → Inv (record s { conn = d })
    moved d = record { entries = v.entries; queues = v.queues; accepts = v.accepts }

    go :
        (o : Ran Conn (ℕ × ℕ × Str))
        → After Inv (
            (on_error close_session (on_conn (λ (c : Conn). o)) >>= λ p. handle_frame p.0 p.1 p.2)
              s)
    go (returned (ft, id, p) d) =
        let (t, e, w) = handle_frame-Inv ft id p (record s { conn = d }) (moved d) in
        subst (After Inv) (sym e) w
    go (failed x d) = close_session-Inv (record s { conn = d }) (moved d)

pub new_session-Inv : (c : Conn) → Inv (new_session c)
unfolding new_session
new_session-Inv c = record {
  entries = λ id h e. absurd (lookup-nil id h e);
  queues = λ h. omega arith;
  accepts = omega arith;
}
