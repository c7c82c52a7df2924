-- ===== src/UdpControl/Demux.antt =====
-- One connection of a udpControlListener (internal/tunnel/runner.go) among the datagrams of all
-- addresses.
use backhaul_recovered.Prelude.{
  ℕ, ◌≡◌, refl, sym, ap, ◌∙◌, Bool, true, false, List, [], ◌∷◌, ◌++◌, if◌then◌else◌, arith, inl,
  inr, subst, ◌⊎◌, append_assoc, append-nil, ap₂,
}
use backhaul_recovered.Prelude.Text.{Str, str_eq}
use backhaul_recovered.Stream.{concat}
use backhaul_recovered.Stream.Chunks.{concat-append}
use backhaul_recovered.UdpControl.{Listener, receive, read_conn}
use backhaul_recovered.UdpControl.Invariant.{Inv}
use backhaul_recovered.UdpControl.Entry.{receive-Inv}
use backhaul_recovered.UdpControl.Run.{state_of, read_at, read_at-Inv}
use backhaul_recovered.UdpControl.Arrivals.{IsLive, Takes, mine, receive-Takes}
use backhaul_recovered.UdpControl.Reading.{bytes_of, read-Gives}

-- What happens to one connection: a datagram comes from an address, or its user reads.
pub data Event : Type 0 where
  arrives : Bool → Str → Str → Event
  reads : (ℕ → Bool) → ℕ → Event

abbrev pub pending : ℕ → Listener → Str
pending h l = (l.cell h).rbuf ++ concat (l.cell h).queue

-- The bytes of the datagrams that came from `key`.
abbrev pub arrived : Str → List Event → Str
arrived key [] = []
arrived key (arrives b from pkt ∷ es) = (if str_eq from key then pkt else []) ++ arrived key es
arrived key (reads b m ∷ es) = arrived key es

pub step : ℕ → Event → Listener → Str × Listener
step h (arrives b from pkt) l = ([], state_of (receive b from pkt l))
step h (reads b m) l = (bytes_of (read_conn b m (l.cell h)), read_at b h m l)

pub steps : ℕ → List Event → Listener → Str × Listener
steps h [] l = ([], l)
steps h (e ∷ es) l = let (got, t) = step h e l in let (more, u) = steps h es t in (got ++ more, u)

-- One event: the bytes read and those pending are those pending before and those that came, or the
-- connection was closed.
abbrev Delivers : Str → ℕ → Event → Listener → Str × Listener → Type 0
Delivers key h e l (got, t) =
    ((t.cell h).is_closed ≡ true)
    ⊎ (Inv t × IsLive key h t × (got ++ pending h t ≡ pending h l ++ arrived key (e ∷ [])))

Takes-Delivers :
    (key : Str) (h : ℕ) (b : Bool) (from pkt : Str) (l t : Listener)
    → Inv t
    → Takes key h (mine key from pkt) l t
    → Delivers key h (arrives b from pkt) l ([], t)
Takes-Delivers key h b from pkt l t w (inl c) = inl c
Takes-Delivers key h b from pkt l t w (inr (a, q, r)) = inr (
  w,
  a,
  ap₂ (λ x y. x ++ concat y) r q
      ∙ ap (λ z. (l.cell h).rbuf ++ z) (concat-append (l.cell h).queue (mine key from pkt))
      ∙ sym (append_assoc (l.cell h).rbuf (concat (l.cell h).queue) (concat (mine key from pkt)))
      ∙ ap (λ z. pending h l ++ z) (bytes_mine (str_eq from key)),
)
  where
    bytes_mine : (k : Bool) → concat (if k then pkt ∷ [] else []) ≡ (if k then pkt else []) ++ []
    bytes_mine true = refl
    bytes_mine false = refl

step-Delivers :
    (key : Str) (h : ℕ) (e : Event) (l : Listener)
    → Inv l
    → IsLive key h l
    → Delivers key h e l (step h e l)
unfolding step
step-Delivers key h (arrives b from pkt) l v lh =
    let (t, e, w) = receive-Inv b from pkt l v in
    Takes-Delivers key h b from pkt l (state_of (receive b from pkt l))
      (subst (λ r. Inv (state_of r)) (sym e) w) (receive-Takes b from key pkt h l v lh)
step-Delivers key h (reads b m) l v lh =
    inr (
      read_at-Inv b h m l v,
      lh,
      ground (arith, read-Gives b m (l.cell h), append-nil (pending h l)),
    )

-- The connection was closed at some moment of the events.
abbrev pub ClosedDuring : ℕ → List Event → Listener → Type 0
ClosedDuring h [] l = (l.cell h).is_closed ≡ true
ClosedDuring h (e ∷ es) l = ((l.cell h).is_closed ≡ true) ⊎ ClosedDuring h es (step h e l).1

closed_now :
    (h : ℕ) (es : List Event) (l : Listener) → (l.cell h).is_closed ≡ true → ClosedDuring h es l
closed_now h [] l c = c
closed_now h (e ∷ es) l c = inl c

-- Joins an event and the events behind it.
deliver_rest :
    (key : Str) (h : ℕ) (e : Event) (es : List Event) (l : Listener) (got more : Str)
    (t u : Listener)
    → got ++ pending h t ≡ pending h l ++ arrived key (e ∷ [])
    → more ++ pending h u ≡ pending h t ++ arrived key es
    → (got ++ more) ++ pending h u ≡ pending h l ++ arrived key (e ∷ es)
deliver_rest key h e es l got more t u p q =
    append_assoc got more (pending h u)
    ∙ ap (λ z. got ++ z) q
    ∙ sym (append_assoc got (pending h t) (arrived key es))
    ∙ ap (λ z. z ++ arrived key es) p
    ∙ append_assoc (pending h l) (arrived key (e ∷ [])) (arrived key es)
    ∙ ap (λ z. pending h l ++ z) (arrived-cons e es)
  where
    arrived-cons :
        (e : Event) (es : List Event)
        → arrived key (e ∷ []) ++ arrived key es ≡ arrived key (e ∷ es)
    arrived-cons (arrives b from pkt) es =
        ap (λ z. z ++ arrived key es) (append-nil (if str_eq from key then pkt else []))
    arrived-cons (reads b m) es = refl

-- Whatever datagrams come from whatever addresses to a sound listener, and however the user of one
-- connection reads between them, the bytes read followed by those pending are those pending before
-- followed by the bytes of the datagrams from the connection's own address, in order; or the
-- connection was closed on the way, which a reader that falls 512 datagrams behind brings about.
pub steps_deliver_own :
    (key : Str) (h : ℕ) (es : List Event) (l : Listener)
    → Inv l
    → IsLive key h l
    → ClosedDuring h es l
      ⊎ ((steps h es l).0 ++ pending h (steps h es l).1 ≡ pending h l ++ arrived key es)
unfolding steps
steps_deliver_own key h [] l v lh = inr (sym (append-nil (pending h l)))
steps_deliver_own key h (e ∷ es) l v lh = elim (step-Delivers key h e l v lh) [
  | inl c ↦ inl (inr (closed_now h es (step h e l).1 c))
  | inr (w, live, p) ↦ elim (steps_deliver_own key h es (step h e l).1 w live) [
    | inl c ↦ inl (inr c)
    | inr q ↦
        let (got, t) = step h e l in
        let (more, u) = steps h es t in inr (deliver_rest key h e es l got more t u p q)
  ]
]
