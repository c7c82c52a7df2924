-- ===== src/Control/Answer.antt =====
-- What the server of the TCP protocol answers to a hello (internal/tunnel/original_protocol.go).
use backhaul_recovered.Prelude.{
  ◌≡◌, refl, sym, ap, ◌∙◌, ℕ, ◌≤◌, Bool, false, none, some, [], ◌++◌, length, arith, append-nil,
}
use backhaul_recovered.Prelude.Text.{Str, str_eq, str_eq_refl}
use backhaul_recovered.Net.{Conn, close, returned}
use backhaul_recovered.Original.{read_typed_string, typed_frame}
use backhaul_recovered.Original.Frames.{read-typed_frame, write_typed_string_open}
use backhaul_recovered.Original.Signal.{hello, channel}
use backhaul_recovered.Control.{
  ServerState, handle_accepted, handshake, handshake_free, accepted_free, greeted, set_conn,
  close_conn, set_control,
}

-- A server without a control connection reads the hello of a new one.
reads_hello :
    (prefer_done : Bool) (h : ℕ) (s : ServerState) (token : Str)
    → s.control ≡ none
    → length token ≤ 65535
    → (s.conn h).is_closed ≡ false
    → (s.conn h).incoming ≡ typed_frame hello token
    → handle_accepted prefer_done h s
      ≡ greeted prefer_done h (returned (token, hello) (record (s.conn h) { incoming = [] })) s
unfolding handle_accepted handshake
reads_hello prefer_done h s token n l o e =
    let read : read_typed_string (s.conn h)
        ≡ returned (token, hello) (record (s.conn h) { incoming = [] }) =
      read-typed_frame hello token [] (s.conn h) l o
        (e ∙ sym (append-nil (typed_frame hello token))) in
    ap (λ z. accepted_free z prefer_done h s) n
    ∙ ap (λ z. handshake_free z prefer_done h s) n
    ∙ ap (λ z. greeted prefer_done h z s) read

own_conn : (h : ℕ) (d : Conn) (s : ServerState) → ((set_conn h d s).conn h).sent ≡ d.sent
own_conn h d s = ground arith

pub handle_accepted_same :
    (prefer_done : Bool) (h : ℕ) (s : ServerState)
    → s.control ≡ none
    → length s.token ≤ 65535
    → (s.conn h).script ≡ []
    → (s.conn h).is_closed ≡ false
    → (s.conn h).incoming ≡ typed_frame hello s.token
    → ((handle_accepted prefer_done h s).control ≡ some h)
      × (((handle_accepted prefer_done h s).conn h).sent
          ≡ (s.conn h).sent ++ typed_frame channel s.token)
unfolding set_control
handle_accepted_same prefer_done h s n l p o e =
    let eq = reads_hello prefer_done h s s.token n l o e in
    let written =
      write_typed_string_open channel s.token (record (s.conn h) { incoming = [] }) l p o in
    let d : Conn = record (s.conn h) {
      incoming = [];
      sent = (s.conn h).sent ++ typed_frame channel s.token;
    } in
    let final : handle_accepted prefer_done h s ≡ record (set_conn h d s) { control = some h } =
      eq ∙ rw (str_eq_refl s.token) (rw written (rw n refl)) in
    (ap (λ z. z.control) final, ap (λ z. (z.conn h).sent) final ∙ own_conn h d s)

pub handle_accepted_other :
    (prefer_done : Bool) (h : ℕ) (s : ServerState) (token : Str)
    → s.control ≡ none
    → length token ≤ 65535
    → str_eq token s.token ≡ false
    → (s.conn h).is_closed ≡ false
    → (s.conn h).incoming ≡ typed_frame hello token
    → ((handle_accepted prefer_done h s).control ≡ none)
      × (((handle_accepted prefer_done h s).conn h).sent ≡ (s.conn h).sent)
handle_accepted_other prefer_done h s token n l d o e =
    let eq = reads_hello prefer_done h s token n l o e in
    let k : Conn = record (s.conn h) { incoming = [] } in
    let final : handle_accepted prefer_done h s ≡ close_conn h (set_conn h k s) = eq ∙ rw d refl in
    (
      ap (λ z. z.control) final ∙ n,
      ap (λ z. (z.conn h).sent) final
          ∙ own_conn h (close ((set_conn h k s).conn h)) (set_conn h k s)
          ∙ own_conn h k s,
    )
