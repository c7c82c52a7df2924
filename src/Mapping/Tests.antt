-- ===== src/Mapping/Tests.antt =====
-- Mappings of concrete entries.
use backhaul_recovered.Prelude.{◌≡◌, ◌≢◌, refl, [], ◌∷◌, arith, All, List}
use backhaul_recovered.Prelude.Text.{codes}
use backhaul_recovered.Strings.{
  trim_left, trim_right, trim, trim_space, is_space, contains_byte, cut, after_last, is_digit,
  digits_value, unsigned_value, atoi, itoa, itoa_loop,
}
use backhaul_recovered.Mapping.{
  PortMapping, port_of, parse_port_maybe_with_host, normalize_target, listen_to_target, parse_entry,
  parse_entries, parse_mappings, some,
}
use backhaul_recovered.Mapping.Bounds.{IsListening, parse_mappings_bounds}
use backhaul_recovered.Mapping.Ranges.{parse_mappings-range_text, mapping_at}

abbrev web : List PortMapping
web = record { listen_addr = codes "0.0.0.0:443"; target_addr = codes "10.0.0.1:80" } ∷ []

parse_mappings_bounds_example : All IsListening web × (web ≢ [])
unfolding parse_mappings parse_entries parse_entry listen_to_target parse_port_maybe_with_host
    port_of normalize_target trim_left trim_right trim trim_space is_space contains_byte cut
    after_last is_digit digits_value unsigned_value atoi itoa itoa_loop
parse_mappings_bounds_example = parse_mappings_bounds (codes " 443=10.0.0.1:80" ∷ []) web refl

parse_mappings-range_text_example :
    mapping_at (parse_mappings (codes "443-445" ∷ [])) 2
    ≡ some (record { listen_addr = codes "0.0.0.0:445"; target_addr = codes "127.0.0.1:445" })
unfolding itoa itoa_loop
parse_mappings-range_text_example =
    parse_mappings-range_text 443 445 2 (omega arith) (omega arith) (omega arith)
