-- ===== src/Mux/Delivery.antt =====
-- The bytes of one stream of a session: those that come, those that wait, those that are read.
use backhaul_recovered.Prelude.{
  ◌⊎◌, take, take-append-drop, ℕ, ◌≡◌, refl, sym, ap, ◌∙◌, true, false, Option, none, some, List,
  [], ◌∷◌, ◌++◌, length, drop, arith, ltb, append_assoc, append-nil, subst, Bool-cases, inl, inr,
  ◌⊎◌,
}
use backhaul_recovered.Prelude.Text.{Str}
use backhaul_recovered.Net.{Ran, returned, failed}
use backhaul_recovered.Stream.{concat}
use backhaul_recovered.Stream.Chunks.{concat-append}
use backhaul_recovered.Mux.Streams.{lookup}
use backhaul_recovered.Mux.{
  Session, remove_stream, remote_close, close_stream, push_data, handle_data, handle_frame,
  frame_data, frame_close, ingest, ingest_round, read_stream, read_stream_from,
}
use backhaul_recovered.Mux.Safety.{ignored_frame, begin_close}

-- The bytes of a stream that have arrived and that nobody has read.
abbrev pub pending : ℕ → Session → Str
pending h s = (s.cell h).read_buf ++ concat (s.cell h).queue

-- What happens to one stream: a data frame comes, its ingestLoop goes round, its user reads.
pub data Event : Type 0 where
  arrives : Str → Event
  ingests : Event
  reads : ℕ → Event

abbrev pub arrived : List Event → Str
arrived [] = []
arrived (arrives p ∷ es) = p ++ arrived es
arrived (ingests ∷ es) = arrived es
arrived (reads m ∷ es) = arrived es

abbrev after_frame : Ran Session (Unit {0}) → Session
after_frame (returned u t) = t
after_frame (failed e t) = t

abbrev after_read : Ran Session (Option Str) → Str × Session
after_read (returned none t) = ([], t)
after_read (returned (some got) t) = (got, t)
after_read (failed e t) = ([], t)

-- The bytes read and the state, after one event on the stream `id` under the handle `h`.
pub step : ℕ → ℕ → Event → Session → Str × Session
step id h (arrives p) s = ([], after_frame (handle_frame frame_data id p s))
step id h ingests s = ([], ingest h s)
step id h (reads m) s = after_read (read_stream h m s)

pub steps : ℕ → ℕ → List Event → Session → Str × Session
steps id h [] s = ([], s)
steps id h (e ∷ es) s =
    let (got, t) = step id h e s in let (more, u) = steps id h es t in (got ++ more, u)

-- The stream stands in the table and its user has not closed it.
pub record IsLive (id h : ℕ) (s : Session) : Type 0 where
  pub listed : lookup id s.streams ≡ some h
  pub receiving : (s.cell h).queue_closed ≡ false
  pub unclosed : (s.cell h).local_closed ≡ false

-- One event: nothing of the stream is lost or made up, or the stream was closed.
abbrev Delivers : ℕ → ℕ → Event → Session → Str × Session → Type 0
Delivers id h e s (got, t) =
    ((t.cell h).local_closed ≡ true)
    ⊎ (IsLive id h t × (got ++ pending h t ≡ pending h s ++ arrived (e ∷ [])))

push_data-Delivers :
    (id h : ℕ) (p : Str) (s : Session)
    → IsLive id h s
    → Delivers id h (arrives p) s ([], after_frame (push_data h p s))
unfolding push_data close_stream remote_close remove_stream
push_data-Delivers id h [] s v = inr (v, sym (append-nil (pending h s)))
push_data-Delivers id h (b ∷ bs) s v = elim (Bool-cases (ltb (length (s.cell h).queue) 256)) [
  | inl room ↦ inr (
    ground arith,
    ground (
      arith,
      ap (λ q. (s.cell h).read_buf ++ q) (concat-append (s.cell h).queue ((b ∷ bs) ∷ [])),
      append_assoc (s.cell h).read_buf (concat (s.cell h).queue) ((b ∷ bs) ++ []),
    ),
  )
  | inr full ↦
      let (t, w, k) = ignored_frame frame_close (s.cell h).id [] (begin_close h s) in
      inl (ground (arith, w, k.same_cell))
]

ingest-Delivers :
    (id h : ℕ) (q : List Str) (s : Session)
    → (s.cell h).queue ≡ q
    → IsLive id h s
    → Delivers id h ingests s ([], ingest_round q h s)
unfolding ingest_round
ingest-Delivers id h [] s e v = inr (ground arith, ground (arith, append-nil (pending h s)))
ingest-Delivers id h (p ∷ ps) s e v = inr (
  ground arith,
  ground (
    arith,
    append-nil (pending h s),
    append_assoc (s.cell h).read_buf p (concat ps),
    ap (λ (q : List Str). (s.cell h).read_buf ++ concat q) e,
  ),
)

read-Delivers :
    (id h m : ℕ) (buf : Str) (s : Session)
    → (s.cell h).read_buf ≡ buf
    → IsLive id h s
    → Delivers id h (reads m) s (after_read (read_stream_from buf h m s))
unfolding read_stream_from
read-Delivers id h m [] s e v = elim (Bool-cases (s.cell h).read_closed) [
  | inl c ↦ inr (ground arith, ground (arith, append-nil (pending h s)))
  | inr c ↦ inr (ground arith, ground (arith, append-nil (pending h s)))
]
read-Delivers id h m (x ∷ xs) s e v = inr (
  ground arith,
  ground (
    arith,
    append-nil (pending h s),
    append_assoc (take m (x ∷ xs)) (drop m (x ∷ xs)) (concat (s.cell h).queue),
    ap (λ (q : Str). q ++ concat (s.cell h).queue) (take-append-drop m (x ∷ xs)),
    ap (λ (q : Str). q ++ concat (s.cell h).queue) e,
  ),
)

data_frame_lem :
    (id h : ℕ) (p : Str) (s : Session)
    → IsLive id h s
    → push_data h p s ≡ handle_frame frame_data id p s
unfolding handle_frame handle_data
data_frame_lem id h p s v = ap (λ o. handle_data o p s) (sym v.listed)

step-Delivers :
    (id h : ℕ) (e : Event) (s : Session) → IsLive id h s → Delivers id h e s (step id h e s)
unfolding step ingest read_stream
step-Delivers id h (arrives p) s v =
    subst (λ o. Delivers id h (arrives p) s ([], after_frame o)) (data_frame_lem id h p s v)
      (push_data-Delivers id h p s v)
step-Delivers id h ingests s v = ingest-Delivers id h (s.cell h).queue s refl v
step-Delivers id h (reads m) s v = read-Delivers id h m (s.cell h).read_buf s refl v

-- A stream that its user has closed stays closed.
push_data_closed :
    (g h : ℕ) (p : Str) (s : Session)
    → (s.cell h).local_closed ≡ true
    → ((after_frame (push_data g p s)).cell h).local_closed ≡ true
unfolding push_data close_stream remote_close remove_stream
push_data_closed g h p s c =
    let (t, w, k) = ignored_frame frame_close (s.cell g).id [] (begin_close g s) in
    ground (arith, w, k.same_cell)

handle_data_closed :
    (o : Option ℕ) (h : ℕ) (p : Str) (s : Session)
    → (s.cell h).local_closed ≡ true
    → ((after_frame (handle_data o p s)).cell h).local_closed ≡ true
unfolding handle_data
handle_data_closed none h p s c = c
handle_data_closed (some g) h p s c = push_data_closed g h p s c

step_closed :
    (id h : ℕ) (e : Event) (s : Session)
    → (s.cell h).local_closed ≡ true
    → ((step id h e s).1.cell h).local_closed ≡ true
unfolding step ingest read_stream handle_frame
step_closed id h (arrives p) s c = handle_data_closed (lookup id s.streams) h p s c
step_closed id h ingests s c = go (s.cell h).queue
  where
    go : (q : List Str) → ((ingest_round q h s).cell h).local_closed ≡ true
    go [] = ground arith
    go (p ∷ ps) = ground arith
step_closed id h (reads m) s c = go (s.cell h).read_buf
  where
    go : (buf : Str) → ((after_read (read_stream_from buf h m s)).1.cell h).local_closed ≡ true
    go [] = ground arith
    go (x ∷ xs) = ground arith

steps_closed :
    (id h : ℕ) (es : List Event) (s : Session)
    → (s.cell h).local_closed ≡ true
    → ((steps id h es s).1.cell h).local_closed ≡ true
unfolding steps
steps_closed id h [] s c = c
steps_closed id h (e ∷ es) s c = steps_closed id h es (step id h e s).1 (step_closed id h e s c)

-- Joins an event and the events behind it.
deliver_rest :
    (id h : ℕ) (e : Event) (es : List Event) (s : Session) (got more : Str) (t u : Session)
    → got ++ pending h t ≡ pending h s ++ arrived (e ∷ [])
    → more ++ pending h u ≡ pending h t ++ arrived es
    → (got ++ more) ++ pending h u ≡ pending h s ++ arrived (e ∷ es)
deliver_rest id h e es s got more t u p q =
    append_assoc got more (pending h u)
    ∙ ap (λ z. got ++ z) q
    ∙ sym (append_assoc got (pending h t) (arrived es))
    ∙ ap (λ z. z ++ arrived es) p
    ∙ append_assoc (pending h s) (arrived (e ∷ [])) (arrived es)
    ∙ ap (λ z. pending h s ++ z) (arrived-cons e es)
  where
    arrived-cons : (e : Event) (es : List Event) → arrived (e ∷ []) ++ arrived es ≡ arrived (e ∷ es)
    arrived-cons (arrives p) es = ap (λ z. z ++ arrived es) (append-nil p)
    arrived-cons ingests es = refl
    arrived-cons (reads m) es = refl

-- Whatever data frames come for a stream, however its ingest loop and its reader run between them,
-- the bytes read followed by the bytes pending are the bytes pending before followed by those that
-- have come, in order; or the stream was closed, which a reader that falls 256 chunks behind also
-- brings about.
pub steps_deliver :
    (id h : ℕ) (es : List Event) (s : Session)
    → IsLive id h s
    → (((steps id h es s).1.cell h).local_closed ≡ true)
      ⊎ ((steps id h es s).0 ++ pending h (steps id h es s).1 ≡ pending h s ++ arrived es)
unfolding steps
steps_deliver id h [] s v = inr (sym (append-nil (pending h s)))
steps_deliver id h (e ∷ es) s v = elim (step-Delivers id h e s v) [
  | inl c ↦ inl (steps_closed id h es (step id h e s).1 c)
  | inr (w, p) ↦ elim (steps_deliver id h es (step id h e s).1 w) [
    | inl c ↦ inl c
    | inr q ↦
        let (got, t) = step id h e s in
        let (more, u) = steps id h es t in inr (deliver_rest id h e es s got more t u p q)
  ]
]
