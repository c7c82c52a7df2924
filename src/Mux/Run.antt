-- ===== src/Mux/Run.antt =====
-- Sequences of operations on a session, and one interleaving of two goroutines.
use backhaul_recovered.Prelude.{ℕ, ◌≡◌, Bool, false, some, List, [], ◌∷◌, arith}
use backhaul_recovered.Prelude.Text.{Str}
use backhaul_recovered.Net.{Conn, Ran, returned, failed, panicked}
use backhaul_recovered.Mux.Streams.{lookup}
use backhaul_recovered.Mux.{
  handle_data, Session, new_session, remove_stream, remote_close, close_stream, push_data,
  close_session, open_stream, handle_frame, read_loop_round, ingest, read_stream, write_to_stream,
  accept, frame_close,
}
use backhaul_recovered.Mux.Safety.{begin_close, Inv, ignored_frame, close_stream-Inv}
use backhaul_recovered.Mux.Frames.{handle_frame-Inv}
use backhaul_recovered.Mux.Invariant.{
  After, close_session-Inv, open_stream-Inv, ingest-Inv, read_stream-Inv, write_to_stream-Inv,
  accept-Inv, read_loop_round-Inv, new_session-Inv,
}

-- What the goroutines of a session and its users do, each without another in its middle.
pub data Op : Type 0 where
  reads_frame opens shuts : Op
  receives : ℕ → ℕ → Str → Op
  closes ingests : ℕ → Op
  reads : ℕ → ℕ → Op
  writes : ℕ → Str → Op
  takes : Bool → Op

abbrev state_of : {A : Type 0} → Ran Session A → Session
state_of (returned a t) = t
state_of (failed e t) = t

pub apply : Op → Session → Session
apply reads_frame s = state_of (read_loop_round s)
apply opens s = state_of (open_stream s)
apply shuts s = close_session s
apply (receives ft id p) s = state_of (handle_frame ft id p s)
apply (closes h) s = state_of (close_stream h s)
apply (ingests h) s = ingest h s
apply (reads h m) s = state_of (read_stream h m s)
apply (writes h p) s = state_of (write_to_stream h p s)
apply (takes b) s = state_of (accept b s)

pub run : List Op → Session → Session
run [] s = s
run (o ∷ os) s = run os (apply o s)

After-state : {A : Type 0} (o : Ran Session A) → After Inv o → Inv (state_of o)
After-state (returned a t) h = h
After-state (failed e t) h = h

apply-Inv : (o : Op) (s : Session) → Inv s → Inv (apply o s)
unfolding apply
apply-Inv reads_frame s v = After-state (read_loop_round s) (read_loop_round-Inv s v)
apply-Inv opens s v = After-state (open_stream s) (open_stream-Inv s v)
apply-Inv shuts s v = close_session-Inv s v
apply-Inv (receives ft id p) s v = let (t, e, w) = handle_frame-Inv ft id p s v in rw e w
apply-Inv (closes h) s v = let (t, e, w) = close_stream-Inv h s v in rw e w
apply-Inv (ingests h) s v = ingest-Inv h s v
apply-Inv (reads h m) s v = After-state (read_stream h m s) (read_stream-Inv h m s v)
apply-Inv (writes h p) s v = After-state (write_to_stream h p s) (write_to_stream-Inv h p s v)
apply-Inv (takes b) s v = After-state (accept b s) (accept-Inv b s v)

run-Inv : (os : List Op) (s : Session) → Inv s → Inv (run os s)
unfolding run
run-Inv [] s v = v
run-Inv (o ∷ os) s v = run-Inv os (apply o s) (apply-Inv o s v)

-- After any sequence of operations on a new session the session is sound, and whatever frame comes
-- next is handled without a panic or an error.
pub run-handle_frame :
    (c : Conn) (os : List Op) (ft id : ℕ) (p : Str)
    → Inv (run os (new_session c))
      × ((t : Session) × (handle_frame ft id p (run os (new_session c)) ≡ returned tt t))
run-handle_frame c os ft id p =
    let v = run-Inv os (new_session c) (new_session-Inv c) in
    let (t, e, w) = handle_frame-Inv ft id p (run os (new_session c)) v in (v, (t, e))

-- The bug: handleFrame looks a stream up and sends to its channel afterwards, with no lock over
-- both. Where the stream's user closes it in between, and data has come, the send panics.
pub close_between_panics :
    (s t : Session) (id h : ℕ) (b : ℕ) (bs : Str)
    → lookup id s.streams ≡ some h
    → (s.cell h).local_closed ≡ false
    → close_stream h s ≡ returned tt t
    → handle_data (lookup id s.streams) (b ∷ bs) t ≡ failed panicked t
unfolding handle_data close_stream push_data remote_close remove_stream
close_between_panics s t id h b bs l o e =
    let (u, w, k) = ignored_frame frame_close (s.cell h).id [] (begin_close h s) in
    ground (arith, w, l)
