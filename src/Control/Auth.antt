-- ===== src/Control/Auth.antt =====
-- handleAccepted (internal/tunnel/original_protocol.go): who becomes the control connection.
use backhaul_recovered.Prelude.{
  ℕ, ◌≡◌, refl, sym, ap, ◌∙◌, Bool, true, Option, none, some, ◌==◌, ◌&&◌, ◌⊎◌, inl, inr, Bool-cases,
  arith, if◌then◌else◌, subst,
}
use backhaul_recovered.Prelude.Text.{Str, str_eq, str_eq→eq}
use backhaul_recovered.Net.{Conn, Ran, returned, failed}
use backhaul_recovered.Original.{write_typed_string, read_typed_string}
use backhaul_recovered.Original.Signal.{hello, channel}
use backhaul_recovered.Control.{
  ServerState, set_conn, close_conn, set_control, enqueue_worker, answered, greeted, handshake_free,
  handshake, accepted_free, handle_accepted, install, set_free,
}

-- `h` has sent a hello with the server's token, and the server's answer was written to it.
pub record Greeted (h : ℕ) (s t : ServerState) : Type 0 where
  pub after_hello : Conn
  pub was_free : s.control ≡ none
  pub is_control : t.control ≡ some h
  pub said_hello : read_typed_string (s.conn h) ≡ returned (s.token, hello) after_hello
  pub was_answered : write_typed_string channel s.token after_hello ≡ returned tt (t.conn h)

abbrev pub Authentic : ℕ → ServerState → ServerState → Type 0
Authentic h s t = (t.control ≡ s.control) ⊎ Greeted h s t

enqueue-same : (b : Bool) (h : ℕ) (s : ServerState) → (enqueue_worker b h s).control ≡ s.control
unfolding enqueue_worker
enqueue-same b h s = ground arith

answered-Authentic :
    (b : Bool) (h : ℕ) (s : ServerState) (c : Conn) (o : Ran Conn (Unit {0}))
    → s.control ≡ none
    → read_typed_string (s.conn h) ≡ returned (s.token, hello) c
    → write_typed_string channel s.token c ≡ o
    → Authentic h s (answered b h o s)
unfolding set_control
answered-Authentic b h s c (failed e d) free r w = inl refl
answered-Authentic b h s c (returned u d) free r w =
    let installed : ServerState = record (set_conn h d s) { control = some h } in
    let e : answered b h (returned u d) s ≡ installed =
      ap (λ o. install b h (set_free o h (set_conn h d s))) free in
    let greeting : Greeted h s installed = record {
      after_hello = c;
      was_free = free;
      is_control = refl;
      said_hello = r;
      was_answered = ground (arith, w);
    } in
    inr (subst (Greeted h s) (sym e) greeting)

close-same :
    (h : ℕ) (c : Conn) (s : ServerState) → (close_conn h (set_conn h c s)).control ≡ s.control
close-same h c s = refl

greeted-Authentic :
    (b : Bool) (h : ℕ) (s : ServerState) (o : Ran Conn (Str × ℕ))
    → s.control ≡ none
    → read_typed_string (s.conn h) ≡ o
    → Authentic h s (greeted b h o s)
greeted-Authentic b h s (failed e c) free r = inl refl
greeted-Authentic b h s (returned (token, signal) c) free r =
    elim (Bool-cases (signal == hello && str_eq token s.token)) [
      | inl good ↦
          let known : read_typed_string (s.conn h) ≡ returned (s.token, hello) c =
            r ∙ ap (λ z. returned z c) (same_greeting token signal good) in
          subst (Authentic h s)
            (sym (
              ap
                (λ z.
                  if z
                  then answered b h (write_typed_string channel s.token c) s
                  else close_conn h (set_conn h c s))
                good))
            (answered-Authentic b h s c (write_typed_string channel s.token c) free known refl)
      | inr bad ↦
          subst (Authentic h s)
            (sym (
              ap
                (λ z.
                  if z
                  then answered b h (write_typed_string channel s.token c) s
                  else close_conn h (set_conn h c s))
                bad))
            (inl refl)
    ]
  where
    same_greeting :
        (token : Str) (signal : ℕ)
        → (signal == hello && str_eq token s.token) ≡ true
        → ◌≡◌ {A = Str × ℕ} (token, signal) (s.token, hello)
    same_greeting token signal good =
        let a : signal ≡ hello = ground arith in
        let d : str_eq token s.token ≡ true = ground arith in cc (a, str_eq→eq token s.token d)

handshake_free-Authentic :
    (b : Bool) (h : ℕ) (s : ServerState) (o : Option ℕ)
    → s.control ≡ o
    → Authentic h s (handshake_free o b h s)
handshake_free-Authentic b h s (some g) e = inl (enqueue-same b h s)
handshake_free-Authentic b h s none e =
    greeted-Authentic b h s (read_typed_string (s.conn h)) e refl

-- What handleAccepted does under its lock makes a connection the control connection only when
-- there is none, the connection has sent a hello with the server's token, and the server's answer
-- was written to it; in every other case, with wrong tokens, other signals and failing reads and
-- writes among them, the control connection stays as it is.
pub handshake-Authentic : (b : Bool) (h : ℕ) (s : ServerState) → Authentic h s (handshake b h s)
unfolding handshake
handshake-Authentic b h s = handshake_free-Authentic b h s s.control refl

accepted_free-Authentic :
    (b : Bool) (h : ℕ) (s : ServerState) (o : Option ℕ) → Authentic h s (accepted_free o b h s)
accepted_free-Authentic b h s (some g) = inl (enqueue-same b h s)
accepted_free-Authentic b h s none = handshake-Authentic b h s

-- handleAccepted makes a connection the control connection only when there is none, the connection
-- has sent a hello with the server's token, and the server's answer was written to it; in every
-- other case the control connection stays as it is.
pub handle_accepted-Authentic :
    (b : Bool) (h : ℕ) (s : ServerState) → Authentic h s (handle_accepted b h s)
unfolding handle_accepted
handle_accepted-Authentic b h s = accepted_free-Authentic b h s s.control
