-- ===== src/Handshake.antt =====
-- The handshake of the control connections in internal/tunnel/runner.go: the client sends its token
-- and its role on a line each, the server reads and tests them.
mod Tests
pub mod Lines
use backhaul_recovered.Prelude.{
  ℕ, Bool, true, false, Option, none, some, List, [], ◌∷◌, ◌++◌, ◌&&◌, not, if◌then◌else◌,
}
use backhaul_recovered.Prelude.Text.{Str, str_eq}
use backhaul_recovered.Strings.{trim_space, cut}
use backhaul_recovered.Net.{
  Conn, M, returned, failed, ◌>>=◌, ◌>>◌, pure, throw, write_, closed, on_error, close,
  invalid_token,
}

abbrev line_or_end : Option (Str × Str) → M Conn Str
line_or_end none c = failed c.ends (record c { incoming = [] })
line_or_end (some (line, rest)) c = returned (line ++ 10 ∷ []) (record c { incoming = rest })

-- The ReadString('\n') of a bufio.Reader on the connection. What the reader holds back stays with
-- the bytes that are to come: prefixedConn reads on from the same reader.
pub read_string : M Conn Str
read_string c = if c.is_closed then failed closed c else line_or_end (cut 10 c.incoming) c

-- authenticateControlConn, with the role as its value.
pub authenticate_control_conn : Str → M Conn Str
authenticate_control_conn token = do
  tok ← read_string
  role ← read_string
  if not (str_eq token []) && not (str_eq (trim_space tok) token)
      then throw invalid_token
      else pure (trim_space role)

-- The last part of dialControlConn.
pub send_role : Str → Str → M Conn (Unit {0})
send_role token role = on_error close (write_ (token ++ (10 ∷ (role ++ (10 ∷ [])))))
