-- ===== src/Address/Tests.antt =====
-- Addresses on concrete bytes.
use backhaul_recovered.Prelude.{◌≡◌, refl, true, none, some, []}
use backhaul_recovered.Prelude.Text.{Str, codes}
use backhaul_recovered.Prelude.{arith}
use backhaul_recovered.Strings.{is_space, itoa, trim_space, cut}
use backhaul_recovered.Address.{is_local}
use backhaul_recovered.Prelude.Result.{ok}
use backhaul_recovered.Strings.{contains_byte, has_prefix}
use backhaul_recovered.Address.{
  join_host_port, no_brackets, is_port, split_host_port, normalize_original_target,
  original_wire_target, wire_parts, split_plain, plain_parts, with_default_port, count,
}
use backhaul_recovered.Address.Ports.{split-with_default_port}
use backhaul_recovered.Address.Targets.{normalize-original_wire_target}
use backhaul_recovered.Address.Url.{Urls, resolve_http_control_host_port, resolve_grpc_target}
use backhaul_recovered.Address.Url.Brackets.{resolve_bracketed}

split-with_default_port_example :
    split_host_port (with_default_port (codes "2001:db8::1") (codes "53"))
    ≡ some (codes "2001:db8::1", codes "53")
unfolding no_brackets is_port count contains_byte has_prefix
split-with_default_port_example =
    split-with_default_port (codes "2001:db8::1") (codes "53") refl refl (λ e. cc)

normalize-original_wire_target_example :
    normalize_original_target (original_wire_target (join_host_port (codes "::1") (codes "80")))
    ≡ ok (codes "127.0.0.1:80")
unfolding no_brackets contains_byte is_space is_local join_host_port itoa
normalize-original_wire_target_example =
    normalize-original_wire_target (codes "::1") 80 (refl, (refl, (refl, tt))) refl (omega arith)
      (omega arith)

-- A parser that takes every URL for one of the loopback.
abbrev loopback_urls : Urls
loopback_urls = record {
  Url = Str;
  parse = λ s. some s;
  host = λ s. codes "[::1]";
  path = λ s. [];
  with_path = λ p s. s;
  print = λ s. s;
}

resolve_bracketed_example :
    (resolve_http_control_host_port loopback_urls (codes "http://[::1]") true
      ≡ ok (codes "[[::1]]:443"))
    × (resolve_grpc_target loopback_urls (codes "grpc://[::1]") true ≡ ok (codes "[[::1]]:443"))
    × (split_host_port (codes "[[::1]]:443") ≡ none)
unfolding no_brackets contains_byte has_prefix
resolve_bracketed_example =
    resolve_bracketed loopback_urls (codes "http://[::1]") (codes "grpc://[::1]") (codes "::1") true
      (codes "http://[::1]") (codes "grpc://[::1]") refl refl refl refl refl refl refl refl

pub wire_port : original_wire_target (codes "80") ≡ codes "80"
unfolding original_wire_target wire_parts split_host_port split_plain trim_space cut
wire_port = refl

pub wire_localhost :
    original_wire_target (join_host_port (codes "localhost") (itoa 80)) ≡ codes "80"
unfolding original_wire_target wire_parts split_host_port split_plain plain_parts is_port
    no_brackets is_local join_host_port contains_byte trim_space cut itoa
wire_localhost = refl
