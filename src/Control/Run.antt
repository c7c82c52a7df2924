-- ===== src/Control/Run.antt =====
-- Sequences of steps of originalServerState (internal/tunnel/original_protocol.go). Each method is a
-- step without another in its middle, but for handleAccepted, which may also stop between its tests.
use backhaul_recovered.Prelude.{
  ℕ, ◌≡◌, ◌≢◌, refl, sym, ap, ◌∙◌, subst, Bool, true, false, Option, none, some, List, [], ◌∷◌,
  ◌==◌, ◌&&◌, ◌⊎◌, inl, inr, Bool-cases, arith, if◌then◌else◌, length, ltb,
}
use backhaul_recovered.Prelude.Text.{Str, str_eq, str_eq→eq}
use backhaul_recovered.Net.{Conn, Ran, returned, failed, ◌>>=◌, on_error, pure, close}
use backhaul_recovered.Net.Laws.{SameReader, Keeps}
use backhaul_recovered.Address.{original_wire_target}
use backhaul_recovered.Original.{write_typed_string, read_typed_string, write_signal}
use backhaul_recovered.Original.Reader.{
  SameReader-refl, SameReader-trans, write_signal-Keeps, write_typed_string-Keeps,
  read_typed_string-closed, read_typed_string-same,
}
use backhaul_recovered.Original.Signal.{hello, channel}
use backhaul_recovered.Control.{
  ServerState, on_conn, set_conn, set_control, set_free, install, answered, greeted, handshake_free,
  handshake, accepted_free, handle_accepted, close_conn, clear_control, enqueue_worker, use_worker,
  with_control, acquire_worker, is_control,
}

abbrev pub state_of : {A : Type 0} → Ran ServerState A → ServerState
state_of (returned a t) = t
state_of (failed e t) = t

-- What the goroutines of a server do to its state; `cancels` ends its context.
pub data Op : Type 0 where
  accepts shakes : Bool → ℕ → Op
  clears : ℕ → Op
  cancels : Op
  acquires : Str → ℕ → Op

unfoldable pub apply : Op → ServerState → ServerState
apply (accepts b h) s = handle_accepted b h s
apply (shakes b h) s = handshake b h s
apply (clears h) s = clear_control h s
apply cancels s = record s { done = true }
apply (acquires target signal) s = state_of (acquire_worker target signal s)

unfoldable pub run : List Op → ServerState → ServerState
run [] s = s
run (o ∷ os) s = run os (apply o s)

-- What readOriginalTypedString reads first from the connection is a hello with this token.
abbrev pub SaidHello : Str → Conn → Type 0
SaidHello token c = (rest : Conn) × (read_typed_string c ≡ returned (token, hello) rest)

-- A connection that can be read as before, or no more.
abbrev pub Moves : Conn → Conn → Type 0
Moves c d = (d.is_closed ≡ true) ⊎ SameReader c d

Moves-trans : (c d e : Conn) → Moves c d → Moves d e → Moves c e
Moves-trans c d e m (inl k) = inl k
Moves-trans c d e (inl k) (inr r) = inl (r.same_closed ∙ k)
Moves-trans c d e (inr q) (inr r) = inr (SameReader-trans c d e q r)

-- A hello that is read from the connection now could be read from it at first.
Moves-SaidHello : (token : Str) (c d : Conn) → Moves c d → SaidHello token d → SaidHello token c
Moves-SaidHello token c d (inl k) (rest, e) = cc (read_typed_string-closed d k)
Moves-SaidHello token c d (inr r) (rest, e) = read_typed_string-same c d (token, hello) rest r e

module _ (token : Str) (h : ℕ) (first : Conn) where
  -- `h`, which came as `first`, is not the control connection, and was not read from to the end of
  -- a greeting.
  pub record Waits (s : ServerState) : Type 0 where
    pub kept : s.token ≡ token
    pub is_other : s.control ≢ some h
    pub moves : Moves first (s.conn h)

  abbrev pub Fate : ServerState → Type 0
  Fate s = SaidHello token first ⊎ Waits s

  -- A step on the connection `g`.
  set_conn-Waits :
      (g : ℕ) (c : Conn) (s : ServerState) → Moves (s.conn g) c → Waits s → Waits (set_conn g c s)
  set_conn-Waits g c s m w = record {
    kept = w.kept;
    is_other = w.is_other;
    moves = go (g == h) refl;
  }
    where
      go : (b : Bool) → (g == h) ≡ b → Moves first (if b then c else s.conn h)
      go false e = w.moves
      go true e =
          let same : g ≡ h = ground arith in
          Moves-trans first (s.conn h) c w.moves (subst (λ i. Moves (s.conn i) c) same m)

  -- A connection that was closed after whatever was done with it.
  closed-Waits :
      (g : ℕ) (c : Conn) (s : ServerState) → Waits s → Waits (close_conn g (set_conn g c s))
  closed-Waits g c s w = record { kept = w.kept; is_other = w.is_other; moves = go (g == h) refl }
    where
      go :
          (b : Bool)
          → (g == h) ≡ b
          → Moves first
              (if b then close (if g == g then c else s.conn g) else if b then c else s.conn h)
      go false e = w.moves
      go true e = inl refl

  if-Waits : (b : Bool) (s t : ServerState) → Waits s → Waits t → Waits (if b then s else t)
  if-Waits true s t v w = v
  if-Waits false s t v w = w

  enqueue-Waits : (b : Bool) (g : ℕ) (s : ServerState) → Waits s → Waits (enqueue_worker b g s)
  unfolding enqueue_worker
  enqueue-Waits b g s w =
      let gone : Waits (close_conn g s) = set_conn-Waits g (close (s.conn g)) s (inl refl) w in
      if-Waits (s.done && b) _ _ gone (
        if-Waits (ltb (length s.workers) 512) _ _
          (record { kept = w.kept; is_other = w.is_other; moves = w.moves }) gone)

  -- `g` becomes the control connection behind a greeting with the server's token.
  installed-Fate :
      (g : ℕ) (d rest : Conn) (s : ServerState)
      → read_typed_string (s.conn g) ≡ returned (s.token, hello) rest
      → Waits s
      → Fate (record (set_conn g d s) { control = some g })
  installed-Fate g d rest s r w = elim (Bool-cases (g == h)) [
    | inl e ↦
        let same : g ≡ h = ground arith in
        inl (
          Moves-SaidHello token first (s.conn h) w.moves (
            rest,
            ap (λ i. read_typed_string (s.conn i)) (sym same)
                ∙ r
                ∙ ap (λ z. returned (z, hello) rest) w.kept,
          ))
    | inr e ↦ inr (record {
      kept = w.kept;
      is_other = λ q. ground (arith, q, e);
      moves = subst (λ b. Moves first (if b then d else s.conn h)) (sym e) w.moves;
    })
  ]

  answered-Fate :
      (b : Bool) (g : ℕ) (rest : Conn) (s : ServerState) (o : Ran Conn (Unit {0}))
      → s.control ≡ none
      → read_typed_string (s.conn g) ≡ returned (s.token, hello) rest
      → Waits s
      → Fate (answered b g o s)
  unfolding set_control
  answered-Fate b g rest s (failed e d) free r w = inr (closed-Waits g d s w)
  answered-Fate b g rest s (returned u d) free r w =
      subst Fate (sym (ap (λ o. install b g (set_free o g (set_conn g d s))) free))
        (installed-Fate g d rest s r w)

  greeted-Fate :
      (b : Bool) (g : ℕ) (s : ServerState) (o : Ran Conn (Str × ℕ))
      → s.control ≡ none
      → read_typed_string (s.conn g) ≡ o
      → Waits s
      → Fate (greeted b g o s)
  greeted-Fate b g s (failed e c) free r w = inr (closed-Waits g c s w)
  greeted-Fate b g s (returned (t, signal) c) free r w =
      go (signal == hello && str_eq t s.token) refl
    where
      go :
          (z : Bool)
          → (signal == hello && str_eq t s.token) ≡ z
          → Fate (
              if z
              then answered b g (write_typed_string channel s.token c) s
              else close_conn g (set_conn g c s))
      go false e = inr (closed-Waits g c s w)
      go true e =
          let a : signal ≡ hello = ground arith in
          let d : str_eq t s.token ≡ true = ground arith in
          let known : ◌≡◌ {A = Str × ℕ} (t, signal) (s.token, hello) =
            cc (a, str_eq→eq t s.token d) in
          answered-Fate b g c s (write_typed_string channel s.token c) free
            (r ∙ ap (λ z. returned z c) known) w

  handshake_free-Fate :
      (b : Bool) (g : ℕ) (s : ServerState) (o : Option ℕ)
      → s.control ≡ o
      → Waits s
      → Fate (handshake_free o b g s)
  handshake_free-Fate b g s (some i) e w = inr (enqueue-Waits b g s w)
  handshake_free-Fate b g s none e w = greeted-Fate b g s (read_typed_string (s.conn g)) e refl w

  handshake-Fate : (b : Bool) (g : ℕ) (s : ServerState) → Waits s → Fate (handshake b g s)
  unfolding handshake
  handshake-Fate b g s w = handshake_free-Fate b g s s.control refl w

  accepted_free-Fate :
      (b : Bool) (g : ℕ) (s : ServerState) (o : Option ℕ) → Waits s → Fate (accepted_free o b g s)
  accepted_free-Fate b g s (some i) w = inr (enqueue-Waits b g s w)
  accepted_free-Fate b g s none w = handshake-Fate b g s w

  clear_control-Waits : (g : ℕ) (s : ServerState) → Waits s → Waits (clear_control g s)
  unfolding clear_control
  clear_control-Waits g s w =
      let t : ServerState = if is_control g s.control then record s { control = none } else s in
      let out : Waits t =
        if-Waits (is_control g s.control) _ _
          (record { kept = w.kept; is_other = λ q. cc q; moves = w.moves }) w in
      set_conn-Waits g (close (t.conn g)) t (inl refl) out

  use_worker-Waits :
      (ws : List ℕ) (target : Str) (signal : ℕ) (s : ServerState)
      → Waits s
      → Waits (state_of (use_worker ws target signal s))
  use_worker-Waits [] target signal s w = w
  use_worker-Waits (g ∷ ws) target signal s w =
      go (write_typed_string signal target (s.conn g))
        (write_typed_string-Keeps signal target (s.conn g))
    where
      fewer : Waits (record s { workers = ws })
      fewer = record { kept = w.kept; is_other = w.is_other; moves = w.moves }

      go :
          (o : Ran Conn (Unit {0}))
          → Keeps SameReader (s.conn g) o
          → Waits (
              state_of (
                on_error
                  (close_conn g)
                  (on_conn g (λ (c : Conn). o) >>= λ _. pure (some g))
                  (record s { workers = ws })))
      go (returned u c) k = set_conn-Waits g c (record s { workers = ws }) (inr k) fewer
      go (failed e c) k = closed-Waits g c (record s { workers = ws }) fewer

  with_control-Waits :
      (o : Option ℕ) (target : Str) (signal : ℕ) (s : ServerState)
      → Waits s
      → Waits (state_of (with_control o target signal s))
  with_control-Waits none target signal s w = w
  with_control-Waits (some g) target signal s w =
      go (write_signal channel (s.conn g)) (write_signal-Keeps channel (s.conn g))
    where
      go :
          (o : Ran Conn (Unit {0}))
          → Keeps SameReader (s.conn g) o
          → Waits (
              state_of (
                (on_error (clear_control g) (on_conn g (λ (c : Conn). o)) >>= λ _ t.
                use_worker t.workers target signal t)
                  s))
      go (returned u c) k =
          use_worker-Waits s.workers target signal (set_conn g c s) (set_conn-Waits g c s (inr k) w)
      go (failed e c) k = clear_control-Waits g (set_conn g c s) (set_conn-Waits g c s (inr k) w)

  apply-Fate : (o : Op) (s : ServerState) → Waits s → Fate (apply o s)
  unfolding apply acquire_worker handle_accepted
  apply-Fate (accepts b g) s w = accepted_free-Fate b g s s.control w
  apply-Fate (shakes b g) s w = handshake-Fate b g s w
  apply-Fate (clears g) s w = inr (clear_control-Waits g s w)
  apply-Fate cancels s w = inr (record { kept = w.kept; is_other = w.is_other; moves = w.moves })
  apply-Fate (acquires target signal) s w =
      inr (with_control-Waits s.control (original_wire_target target) signal s w)

  run-Fate : (os : List Op) (s : ServerState) → Fate s → Fate (run os s)
  unfolding run
  run-Fate os s (inl said) = inl said
  run-Fate [] s (inr w) = inr w
  run-Fate (o ∷ os) s (inr w) = run-Fate os (apply o s) (apply-Fate o s w)

-- A connection that becomes the control connection had a hello with the token to be read.
said_hello :
    (os : List Op) (s : ServerState) (h : ℕ)
    → s.control ≢ some h
    → (run os s).control ≡ some h
    → SaidHello s.token (s.conn h)
said_hello os s h n e = go (run-Fate s.token h (s.conn h) os s (inr here))
  where
    here : Waits s.token h (s.conn h) s
    here = record { kept = refl; is_other = n; moves = inr (SameReader-refl (s.conn h)) }

    go : Fate s.token h (s.conn h) (run os s) → SaidHello s.token (s.conn h)
    go (inl said) = said
    go (inr w) = absurd (w.is_other e)

cleared :
    (h : ℕ) (s : ServerState)
    → ((clear_control h s).control ≢ some h) × (((clear_control h s).conn h).is_closed ≡ true)
unfolding clear_control
cleared h s = (λ q. ground (arith, q), ground arith)

-- Whatever connections are accepted, shake hands, lose the control connection and are taken as
-- workers, and whether or not the context ends, in whatever order and however reads and writes end:
-- a connection that is not the control connection before the sequence and is it behind it had,
-- before the sequence, a hello with the server's token as the first message to be read from it; and
-- once clearControl is then called for it, no later sequence makes it the control connection again.
pub run-SaidHello :
    (os later : List Op) (s : ServerState) (h : ℕ)
    → s.control ≢ some h
    → (run os s).control ≡ some h
    → SaidHello s.token (s.conn h) × ((run later (clear_control h (run os s))).control ≢ some h)
run-SaidHello os later s h n e = (
  said_hello os s h n e,
  λ q.
      let t : ServerState = clear_control h (run os s) in
      let (other, shut) = cleared h (run os s) in
      let (rest, r) = said_hello later t h other q in
      cc (r, read_typed_string-closed (t.conn h) shut),
)
