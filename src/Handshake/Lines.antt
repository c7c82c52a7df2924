-- ===== src/Handshake/Lines.antt =====
-- The lines of a client, read by a server.
use backhaul_recovered.Prelude.{
  ◌≡◌, refl, ap, ◌∙◌, Bool, false, [], ◌∷◌, ◌++◌, ◌&&◌, not, arith, if◌then◌else◌, All,
  append_assoc,
}
use mathlib.Core.List.{reverse, reverse-append, reverse-reverse}
use backhaul_recovered.Prelude.Text.{Str, str_eq}
use backhaul_recovered.Strings.{
  trim_left, trim_right, trim, trim_space, is_space, contains_byte, cut,
}
use backhaul_recovered.Strings.Laws.{trim_left-All, All-reverse, cut-append}
use backhaul_recovered.Net.{Conn, M, Ran, returned, failed, write_, invalid_token, close, on_error}
use backhaul_recovered.Net.Laws.{ReportsErrors, write_whole}
use backhaul_recovered.Handshake.{read_string, authenticate_control_conn, send_role}

-- A word: no blank and no end of line in it.
abbrev pub IsWord : Str → Type 0
IsWord = All (λ c. is_space c ≡ false)

trim_left_line : (w : Str) → IsWord w → trim_right is_space (trim_left is_space (w ++ 10 ∷ [])) ≡ w
unfolding trim_left trim_right is_space
trim_left_line [] h = refl
trim_left_line (c ∷ w) h =
    let e : trim_left is_space ((c ∷ w) ++ 10 ∷ []) ≡ (c ∷ w) ++ 10 ∷ [] =
      ap (λ (b : Bool). if b then trim_left is_space (w ++ 10 ∷ []) else (c ∷ w) ++ 10 ∷ []) h.0 in
    ap (trim_right is_space) e
    ∙ ap (λ z. reverse (trim_left is_space z)) (reverse-append (c ∷ w) (10 ∷ []))
    ∙ ap reverse
        (trim_left-All is_space (reverse (c ∷ w)) (All-reverse (λ z. is_space z ≡ false) (c ∷ w) h))
    ∙ reverse-reverse (c ∷ w)

-- A word with its end of line is trimmed to the word.
pub trim_space-line : (w : Str) → IsWord w → trim_space (w ++ 10 ∷ []) ≡ w
unfolding trim_space trim
trim_space-line w h = trim_left_line w h

pub word_no_newline : (w : Str) → IsWord w → contains_byte 10 w ≡ false
unfolding contains_byte is_space
word_no_newline [] h = refl
word_no_newline (c ∷ w) h = ground (arith, h.0, word_no_newline w h.1)

-- A line that has arrived is read with its end, and nothing behind it.
pub read_string_lem :
    (line rest : Str) (c : Conn)
    → contains_byte 10 line ≡ false
    → c.is_closed ≡ false
    → c.incoming ≡ line ++ 10 ∷ rest
    → read_string c ≡ returned (line ++ 10 ∷ []) (record c { incoming = rest })
unfolding read_string
read_string_lem line rest c h o e = ground (arith, ap (cut 10) e ∙ cut-append 10 line rest h)

read_string-line :
    (w rest : Str) (c : Conn)
    → IsWord w
    → c.is_closed ≡ false
    → c.incoming ≡ w ++ 10 ∷ rest
    → read_string c ≡ returned (w ++ 10 ∷ []) (record c { incoming = rest })
read_string-line w rest c h = read_string_lem w rest c (word_no_newline w h)

on_error_returned :
    (m : M Conn (Unit {0})) (c d : Conn) → on_error close m c ≡ returned tt d → m c ≡ returned tt d
on_error_returned m c d e = go (m c) e
  where
    go :
        (o : Ran Conn (Unit {0}))
        → on_error close (λ (k : Conn). o) c ≡ returned tt d
        → o ≡ returned tt d
    go (returned u k) f = f
    go (failed x k) f = cc f

authenticate_lines :
    (server token role rest : Str) (r : Conn)
    → IsWord token
    → IsWord role
    → r.is_closed ≡ false
    → r.incoming ≡ token ++ 10 ∷ (role ++ 10 ∷ rest)
    → authenticate_control_conn server r ≡ (
        if not (str_eq server []) && not (str_eq token server)
        then failed invalid_token (record r { incoming = rest })
        else returned role (record r { incoming = rest }))
unfolding authenticate_control_conn
authenticate_lines server token role rest r ht hr o e =
    let later : Conn = record r { incoming = role ++ 10 ∷ rest } in
    let one = read_string-line token (role ++ 10 ∷ rest) r ht o e in
    let two = read_string-line role rest later hr o refl in
    ground (arith, one, two, trim_space-line token ht, trim_space-line role hr)

join_lines :
    (token role rest : Str)
    → (token ++ (10 ∷ (role ++ (10 ∷ [])))) ++ rest ≡ token ++ (10 ∷ (role ++ (10 ∷ rest)))
join_lines token role rest =
    let tail : (10 ∷ (role ++ (10 ∷ []))) ++ rest ≡ 10 ∷ (role ++ (10 ∷ rest)) =
      ap (λ (z : Str). 10 ∷ z) (append_assoc role (10 ∷ []) rest) in
    append_assoc token (10 ∷ (role ++ (10 ∷ []))) rest ∙ ap (λ (z : Str). token ++ z) tail

-- The token and the role that a client reports as sent on a fresh connection, both without blanks,
-- on a connection that reports its errors: the server that reads them gets the role where it has no
-- token or has the client's, and refuses the connection otherwise; what follows is not touched.
pub authenticate-send_role :
    (server token role rest : Str) (c d r : Conn)
    → IsWord token
    → IsWord role
    → c.sent ≡ []
    → ReportsErrors c.script
    → send_role token role c ≡ returned tt d
    → r.is_closed ≡ false
    → r.incoming ≡ d.sent ++ rest
    → authenticate_control_conn server r ≡ (
        if not (str_eq server []) && not (str_eq token server)
        then failed invalid_token (record r { incoming = rest })
        else returned role (record r { incoming = rest }))
unfolding send_role
authenticate-send_role server token role rest c d r ht hr fresh rep w o e =
    let lines : Str = token ++ (10 ∷ (role ++ (10 ∷ []))) in
    let sent : d ≡ record c { sent = c.sent ++ lines } =
      write_whole lines c d rep (on_error_returned (write_ lines) c d w) in
    let whole : d.sent ≡ lines =
      ap (λ (k : Conn). k.sent) sent ∙ ap (λ (z : Str). z ++ lines) fresh in
    authenticate_lines server token role rest r ht hr o
      (e ∙ ap (λ (z : Str). z ++ rest) whole ∙ join_lines token role rest)
