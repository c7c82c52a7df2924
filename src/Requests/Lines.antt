-- ===== src/Requests/Lines.antt =====
-- A request read by the client (internal/tunnel/runner.go).
use backhaul_recovered.Prelude.{
  ◌≡◌, ◌≢◌, refl, sym, ap, ◌∙◌, Bool, true, false, [], ◌∷◌, ◌++◌, arith, if◌then◌else◌,
  append_assoc,
}
use mathlib.Core.List.{reverse, reverse-append, reverse-reverse}
use backhaul_recovered.Prelude.Text.{Str, codes}
use backhaul_recovered.Strings.{
  trim_space, trim, trim_left, trim_right, is_space, has_prefix, trim_prefix, contains_byte,
}
use backhaul_recovered.Strings.Laws.{All-reverse, trim-All}
use backhaul_recovered.Net.{Conn, returned, on_error, close, pure, ◌>>=◌, Ran}
use backhaul_recovered.Handshake.Lines.{IsWord, trim_space-line, read_string_lem, word_no_newline}
use backhaul_recovered.Requests.{request, Order, dials, relays, order_of, read_order}

-- What a request stands for.
abbrev pub order : Bool → Str → Order
order udp target = if udp then relays target else dials target

-- A word does not begin with the mark of UDP, which has a blank.
no_mark : (w : Str) → IsWord w → has_prefix (codes "UDP ") w ≡ false
unfolding has_prefix is_space
no_mark [] h = refl
no_mark (a ∷ []) h = ground arith
no_mark (a ∷ b ∷ []) h = ground arith
no_mark (a ∷ b ∷ c ∷ []) h = ground arith
no_mark (a ∷ b ∷ c ∷ d ∷ rest) h = ground (arith, h.1.1.1.0)

trim_left-word : (w rest : Str) → IsWord w → w ≢ [] → trim_left is_space (w ++ rest) ≡ w ++ rest
unfolding trim_left
trim_left-word [] rest h n = absurd (n refl)
trim_left-word (c ∷ w) rest h n = rw h.0 refl

-- Only the end of the line is trimmed behind a word.
trim_right-line :
    (front w : Str) → IsWord w → w ≢ [] → trim_right is_space (front ++ (w ++ 10 ∷ [])) ≡ front ++ w
unfolding trim_right trim_left is_space
trim_right-line front w h n =
    let turned : reverse (front ++ (w ++ 10 ∷ [])) ≡ 10 ∷ (reverse w ++ reverse front) =
      reverse-append front (w ++ 10 ∷ [])
      ∙ ap (λ (z : Str). z ++ reverse front) (reverse-append w (10 ∷ [])) in
    let kept : reverse w ≢ [] = λ e. n (sym (reverse-reverse w) ∙ ap reverse e) in
    ap (λ (z : Str). reverse (trim_left is_space z)) turned
    ∙ ap reverse (
        trim_left-word (reverse w) (reverse front) (All-reverse (λ c. is_space c ≡ false) w h) kept)
    ∙ ap reverse (sym (reverse-append front w))
    ∙ reverse-reverse (front ++ w)

trim_marked :
    (w : Str)
    → IsWord w
    → w ≢ []
    → trim_space (codes "UDP " ++ (w ++ (10 ∷ []))) ≡ codes "UDP " ++ w
unfolding trim_space trim trim_left is_space
trim_marked w h n = trim_right-line (codes "UDP ") w h n

abbrev marked : Str → Order
marked z =
    if has_prefix (codes "UDP ") z
    then relays (trim_space (trim_prefix (codes "UDP ") z))
    else dials z

order_of-request :
    (udp : Bool) (target : Str)
    → IsWord target
    → target ≢ []
    → order_of (request udp target) ≡ order udp target
unfolding order_of request has_prefix trim_prefix trim_space
order_of-request true target h n =
    ap marked (trim_marked target h n) ∙ ap relays (trim-All is_space target h)
order_of-request false target h n =
    ap marked (trim_space-line target h) ∙ rw (no_mark target h) refl

abbrev text : Bool → Str → Str
text udp target = if udp then codes "UDP " ++ target else target

request-text : (udp : Bool) (target : Str) → request udp target ≡ text udp target ++ (10 ∷ [])
unfolding request
request-text true target = refl
request-text false target = refl

text_no_newline :
    (udp : Bool) (target : Str) → IsWord target → contains_byte 10 (text udp target) ≡ false
unfolding contains_byte
text_no_newline true target h = word_no_newline target h
text_no_newline false target h = word_no_newline target h

-- A client reads a request that has arrived, and nothing behind it.
pub read_order-request :
    (udp : Bool) (target rest : Str) (r : Conn)
    → IsWord target
    → target ≢ []
    → r.is_closed ≡ false
    → r.incoming ≡ request udp target ++ rest
    → read_order r ≡ returned (order udp target) (record r { incoming = rest })
unfolding read_order
read_order-request udp target rest r h n o e =
    let arrived : r.incoming ≡ text udp target ++ (10 ∷ rest) =
      e
      ∙ ap (λ (z : Str). z ++ rest) (request-text udp target)
      ∙ append_assoc (text udp target) (10 ∷ []) rest in
    ap (λ (z : Ran Conn Str). on_error close ((λ (c : Conn). z) >>= λ line. pure (order_of line)) r)
      (read_string_lem (text udp target) rest r (text_no_newline udp target h) o arrived)
    ∙ ap (λ z. returned z (record r { incoming = rest }))
        (ap order_of (sym (request-text udp target)) ∙ order_of-request udp target h n)
