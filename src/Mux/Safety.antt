-- ===== src/Mux/Safety.antt =====
-- The invariant of a session's table of streams, and what closing and pushing do to it.
use backhaul_recovered.Prelude.{
  ℕ, ◌<◌, ◌≤◌, ◌≡◌, ◌≢◌, refl, Bool, true, false, some, [], ◌∷◌, ◌++◌, length, arith, ◌==◌, ltb,
  if◌then◌else◌, length-append, Bool-cases, inl, inr,
}
use backhaul_recovered.Prelude.Text.{Str}
use backhaul_recovered.Net.{Conn, M, Ran, pure, returned, failed, ignore, eof, write_}
use backhaul_recovered.Net.Laws.{Keeps, Keeps-bind}
use backhaul_recovered.Mux.Streams.{lookup, update, lookup-insert, lookup-delete}
use backhaul_recovered.Mux.{
  Session, on_conn, frame_header, send_frame, write_frame, add_stream, remove_stream, remote_close,
  close_stream, push_data, frame_close,
}

-- Every stream in the table is one that was made, stands under its own number, and is open; no
-- channel holds more than its capacity.
pub record Inv (s : Session) : Type 0 where
  pub entries :
      (id h : ℕ)
      → lookup id s.streams ≡ some h
      → (h < s.next_handle) × ((s.cell h).id ≡ id) × ((s.cell h).queue_closed ≡ false)
  pub queues : (h : ℕ) → length (s.cell h).queue ≤ 256
  pub accepts : length s.accept_queue ≤ 1024

-- What a write to the connection cannot touch.
pub record SameTable (s t : Session) : Type 0 where
  pub same_streams : t.streams ≡ s.streams
  pub same_cell : t.cell ≡ s.cell
  pub same_handle : t.next_handle ≡ s.next_handle
  pub same_accept : t.accept_queue ≡ s.accept_queue
  pub same_id : t.next_id ≡ s.next_id
  pub same_closed : t.closed ≡ s.closed

pub SameTable-refl : (s : Session) → SameTable s s
SameTable-refl s = ground arith

pub SameTable-trans : (s t u : Session) → SameTable s t → SameTable t u → SameTable s u
SameTable-trans s t u a b = ground arith

pub on_conn-SameTable : {A : Type 0} (m : M Conn A) (s : Session) → Keeps SameTable s (on_conn m s)
on_conn-SameTable {A} m s = go (m s.conn)
  where
    go : (o : Ran Conn A) → Keeps SameTable s (on_conn (λ (c : Conn). o) s)
    go (returned a d) = ground arith
    go (failed e d) = ground arith

send_frame-SameTable :
    (ft id : ℕ) (payload : Str) (s : Session) → Keeps SameTable s (send_frame ft id payload s)
unfolding send_frame
send_frame-SameTable ft id payload s =
    Keeps-bind SameTable (on_conn (write_ (frame_header ft id (length payload)))) rest s
      (SameTable-trans s) (on_conn-SameTable (write_ (frame_header ft id (length payload))) s)
      (λ _ t. tail t (length payload == 0))
  where
    rest : Unit {0} → M Session (Unit {0})
    rest _ = if length payload == 0 then pure tt else on_conn (write_ payload)

    tail :
        (t : Session) (b : Bool)
        → Keeps SameTable t ((if b then pure tt else on_conn (write_ payload)) t)
    tail t true = SameTable-refl t
    tail t false = on_conn-SameTable (write_ payload) t

pub write_frame-SameTable :
    (ft id : ℕ) (payload : Str) (s : Session) → Keeps SameTable s (write_frame ft id payload s)
unfolding write_frame
write_frame-SameTable ft id payload s =
    elim s.closed
      as (λ b. Keeps SameTable s (if b then failed eof s else send_frame ft id payload s)) [
        | true ↦ SameTable-refl s
        | false ↦ send_frame-SameTable ft id payload s
      ]

pub SameTable-Inv : (s t : Session) → SameTable s t → Inv s → Inv t
SameTable-Inv s t k v = record {
  entries = λ id h e. ground (arith, v.entries id h, k.same_streams, k.same_cell, k.same_handle);
  queues = λ h. ground (arith, v.queues h);
  accepts = ground (arith, v.accepts);
}

pub ignored_frame :
    (ft id : ℕ) (payload : Str) (s : Session)
    → (t : Session) × (ignore (write_frame ft id payload) s ≡ returned tt t) × SameTable s t
ignored_frame ft id payload s =
    go (write_frame ft id payload s) refl (write_frame-SameTable ft id payload s)
  where
    go :
        (o : Ran Session (Unit {0}))
        → write_frame ft id payload s ≡ o
        → Keeps SameTable s o
        → (t : Session) × (ignore (write_frame ft id payload) s ≡ returned tt t) × SameTable s t
    go (returned u t) e k = (t, rw (e, ignore), k)
    go (failed x t) e k = (t, rw (e, ignore), k)

pub add_stream-Inv : (id : ℕ) (s : Session) → Inv s → Inv (add_stream id s)
unfolding add_stream
add_stream-Inv id s v = record {
  entries = λ j h e. ground (arith, lookup-insert id j s.next_handle s.streams, v.entries j h);
  queues = λ h. ground (arith, v.queues h);
  accepts = v.accepts;
}

pub remove_stream-Inv : (id : ℕ) (s : Session) → Inv s → Inv (remove_stream id s)
unfolding remove_stream
remove_stream-Inv id s v = record {
  entries = λ j h e. ground (arith, lookup-delete id j s.streams, v.entries j h);
  queues = v.queues;
  accepts = v.accepts;
}

-- Closing the channel of a stream that the table has no entry for.
pub remote_close-Inv :
    (h : ℕ) (s : Session)
    → ((id : ℕ) → lookup id s.streams ≢ some h)
    → Inv s
    → Inv (remote_close h s)
unfolding remote_close
remote_close-Inv h s free v = record {
  entries = λ j g e. ground (arith, v.entries j g, free j);
  queues = λ g. ground (arith, v.queues g);
  accepts = v.accepts;
}

-- simpleMuxStream.Close in its two parts: what it does to the session before it writes.
abbrev pub begin_close : ℕ → Session → Session
begin_close h s =
    remove_stream (s.cell h).id
      (record s { cell = update s.cell h (record (s.cell h) { local_closed = true }) })

begin_close-Inv : (h : ℕ) (s : Session) → Inv s → Inv (begin_close h s)
begin_close-Inv h s v = remove_stream-Inv (s.cell h).id _ (record {
  entries = λ j g e. ground (arith, v.entries j g);
  queues = λ g. ground (arith, v.queues g);
  accepts = v.accepts;
})

begin_close_free :
    (h : ℕ) (s : Session) → Inv s → (j : ℕ) → lookup j (begin_close h s).streams ≢ some h
unfolding remove_stream
begin_close_free h s v j e = ground (arith, lookup-delete (s.cell h).id j s.streams, v.entries j h)

pub close_stream-Inv :
    (h : ℕ) (s : Session) → Inv s → (t : Session) × (close_stream h s ≡ returned tt t) × Inv t
unfolding close_stream
close_stream-Inv h s v = elim (Bool-cases (s.cell h).local_closed) [
  | inl e ↦ (s, rw (e, close_stream), v)
  | inr e ↦
      let (t, w, k) = ignored_frame frame_close (s.cell h).id [] (begin_close h s) in
      (
        remote_close h t,
        ground (arith, e, w),
        remote_close-Inv h t (λ j q. begin_close_free h s v j (ground (arith, k.same_streams)))
            (SameTable-Inv (begin_close h s) t k (begin_close-Inv h s v)),
      )
]

pub push_data-Inv :
    (id h : ℕ) (p : Str) (s : Session)
    → lookup id s.streams ≡ some h
    → Inv s
    → (t : Session) × (push_data h p s ≡ returned tt t) × Inv t
unfolding push_data
push_data-Inv id h p s l v = elim (Bool-cases (length p == 0)) [
  | inl none_ ↦ (s, rw (none_, push_data), v)
  | inr some_ ↦ elim (Bool-cases (ltb (length (s.cell h).queue) 256)) [
    | inl room ↦ (
      record s {
        cell = update s.cell h (record (s.cell h) { queue = (s.cell h).queue ++ p ∷ [] });
      },
      ground (arith, v.entries id h l),
      record {
        entries = λ j g e. ground (arith, v.entries j g);
        queues = λ g. ground (arith, v.queues g, length-append (s.cell h).queue (p ∷ []));
        accepts = v.accepts;
      },
    )
    | inr full ↦
        let (t, e, w) = close_stream-Inv h s v in (t, ground (arith, v.entries id h l, e), w)
  ]
]
