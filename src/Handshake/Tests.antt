-- ===== src/Handshake/Tests.antt =====
-- A client's lines on concrete bytes.
use backhaul_recovered.Prelude.{◌≡◌, refl, false, [], ◌∷◌}
use backhaul_recovered.Prelude.Text.{Str, codes}
use backhaul_recovered.Strings.{is_space}
use backhaul_recovered.Net.{Conn, eof, returned, write}
use backhaul_recovered.Handshake.{authenticate_control_conn, send_role}
use backhaul_recovered.Handshake.Lines.{authenticate-send_role}

abbrev with_bytes : Str → Conn
with_bytes bytes = record {
  incoming = bytes;
  ends = eof;
  sent = [];
  script = [];
  is_closed = false;
}

authenticate-send_role_example :
    authenticate_control_conn (codes "key") (with_bytes (107 ∷ 101 ∷ 121 ∷ 10 ∷ 109 ∷ 10 ∷ 7 ∷ []))
    ≡ returned (codes "m") (with_bytes (7 ∷ []))
unfolding send_role write is_space
authenticate-send_role_example =
    authenticate-send_role (codes "key") (codes "key") (codes "m") (7 ∷ []) (with_bytes []) _
      (with_bytes (107 ∷ 101 ∷ 121 ∷ 10 ∷ 109 ∷ 10 ∷ 7 ∷ [])) (refl, (refl, (refl, tt))) (refl, tt)
      refl tt refl refl refl
