-- ===== src/Transport/Tests.antt =====
-- A transport by its name.
use backhaul_recovered.Prelude.{◌≡◌, refl, true}
use backhaul_recovered.Prelude.Text.{codes}
use backhaul_recovered.Strings.{trim_left, trim_right, trim, trim_space, is_space, to_lower, lower}
use backhaul_recovered.Transport.{TransportKind, plain, parse_transport}
use backhaul_recovered.Transport.Kinds.{is_consistent, parse_transport_consistent}

abbrev secure_web : TransportKind
secure_web = record plain { ws = true; tls = true }

parse_transport_consistent_example : is_consistent secure_web ≡ true
unfolding parse_transport trim_left trim_right trim trim_space is_space to_lower lower
parse_transport_consistent_example = parse_transport_consistent (codes " WSS ") secure_web refl
