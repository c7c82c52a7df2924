-- ===== src/Mux/Frames.antt =====
-- The frames of a simpleMuxSession (internal/tunnel/runner.go) keep its invariant.
use backhaul_recovered.Prelude.{
  ℕ, ◌≡◌, refl, Option, none, some, [], ◌∷◌, ◌++◌, length, arith, ◌==◌, ltb, length-append,
  Bool-cases, inl, inr,
}
use backhaul_recovered.Prelude.Text.{Str}
use backhaul_recovered.Net.{returned}
use backhaul_recovered.Mux.Streams.{lookup, lookup-delete}
use backhaul_recovered.Mux.{
  Session, add_stream, remove_stream, remote_close, handle_open, handle_data, handle_close,
  handle_frame, frame_open, frame_data, frame_close,
}
use backhaul_recovered.Mux.Safety.{Inv, add_stream-Inv, close_stream-Inv, push_data-Inv}

pub handle_open-Inv :
    (id : ℕ) (s : Session) → Inv s → (t : Session) × (handle_open id s ≡ returned tt t) × Inv t
unfolding handle_open
handle_open-Inv id s v = elim (Bool-cases (ltb (length s.accept_queue) 1024)) [
  | inl room ↦
      let w = add_stream-Inv id s v in
      (
        record (add_stream id s) { accept_queue = s.accept_queue ++ s.next_handle ∷ [] },
        rw (room, handle_open),
        record {
          entries = w.entries;
          queues = w.queues;
          accepts = ground (arith, length-append s.accept_queue (s.next_handle ∷ []));
        },
      )
  | inr full ↦
      let (t, e, w) = close_stream-Inv s.next_handle (add_stream id s) (add_stream-Inv id s v) in
      (t, rw (full, handle_open) e, w)
]

pub handle_data-Inv :
    (id : ℕ) (o : Option ℕ) (p : Str) (s : Session)
    → lookup id s.streams ≡ o
    → Inv s
    → (t : Session) × (handle_data o p s ≡ returned tt t) × Inv t
unfolding handle_data
handle_data-Inv id none p s e v = (s, refl, v)
handle_data-Inv id (some h) p s e v = push_data-Inv id h p s e v

pub handle_close-Inv :
    (id : ℕ) (o : Option ℕ) (s : Session)
    → lookup id s.streams ≡ o
    → Inv s
    → (t : Session) × (handle_close o id s ≡ returned tt t) × Inv t
unfolding handle_close remote_close remove_stream
handle_close-Inv id none s e v = (s, refl, v)
handle_close-Inv id (some h) s e v = (
  remove_stream id (remote_close h s),
  refl,
  record {
    entries = λ j g q. ground (arith, v.entries j g, v.entries id h, lookup-delete id j s.streams);
    queues = λ g. ground (arith, v.queues g);
    accepts = v.accepts;
  },
)

-- A frame of any type for any stream is handled without a panic or an error, and the session stays
-- sound.
pub handle_frame-Inv :
    (ft id : ℕ) (p : Str) (s : Session)
    → Inv s
    → (t : Session) × (handle_frame ft id p s ≡ returned tt t) × Inv t
unfolding handle_frame
handle_frame-Inv ft id p s v = elim (Bool-cases (ft == frame_open)) [
  | inl e ↦ let (t, q, w) = handle_open-Inv id s v in (t, rw (e, handle_frame) q, w)
  | inr ne ↦ elim (Bool-cases (ft == frame_data)) [
    | inl e ↦
        let (t, q, w) = handle_data-Inv id (lookup id s.streams) p s refl v in
        (t, ground (arith, ne, e, q), w)
    | inr ne' ↦ elim (Bool-cases (ft == frame_close)) [
      | inl e ↦
          let (t, q, w) = handle_close-Inv id (lookup id s.streams) s refl v in
          (t, ground (arith, ne, ne', e, q), w)
      | inr ne'' ↦ (s, ground (arith, ne, ne', ne''), v)
    ]
  ]
]
