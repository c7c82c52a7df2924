-- ===== src/Client/Greeting.antt =====
-- The handshake of the control connection, the client's part against the server's
-- (internal/tunnel/original_protocol.go).
use backhaul_recovered.Prelude.{◌≡◌, Bool, true, false, [], ◌++◌}
use backhaul_recovered.Prelude.Text.{Str}
use backhaul_recovered.Net.{Conn, Ran, returned, failed, eof}
use backhaul_recovered.Original.{typed_frame}
use backhaul_recovered.Original.Signal as Signal

abbrev pub succeeded : {S A : Type 0} → Ran S A → Bool
succeeded (returned a s) = true
succeeded (failed e s) = false

-- The two ends of a connection that was just dialed, where the network takes what is written: what
-- the server reads is the client's hello, and what the client reads is what the server has sent
-- when it is done with the connection, with the end of the stream behind it.
pub record Dialed (token : Str) (c : Conn) (k after : Conn) : Type 0 where
  pub c_takes : c.script ≡ []
  pub c_open : c.is_closed ≡ false
  pub c_sent : c.sent ≡ []
  pub c_ends : c.ends ≡ eof
  pub k_takes : k.script ≡ []
  pub k_open : k.is_closed ≡ false
  pub k_sent : k.sent ≡ []
  pub there : k.incoming ≡ typed_frame Signal.hello token
  pub back : c.incoming ≡ after.sent

abbrev said_hello : Str → Conn → Conn
said_hello token c = record c { sent = c.sent ++ typed_frame Signal.hello token }
