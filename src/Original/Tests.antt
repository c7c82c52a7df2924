-- ===== src/Original/Tests.antt =====
-- A typed string on a network that cuts the writes.
use backhaul_recovered.Prelude.{◌≡◌, refl, false, [], ◌∷◌, arith}
use backhaul_recovered.Prelude.Text.{Str}
use backhaul_recovered.Net.{Conn, eof, unexpected_eof, returned, failed, write, accepts}
use backhaul_recovered.Original.{
  write_loop, write_full, typed_frame, write_typed_string, read_typed_string,
}
use backhaul_recovered.Original.Write.{Sends, write_full-Sends}
use backhaul_recovered.Original.Frames.{read-write_typed_string, read_typed_string_cut}

abbrev cut_up : Conn
cut_up = record {
  incoming = [];
  ends = eof;
  sent = [];
  script = accepts 1 ∷ accepts 3 ∷ [];
  is_closed = false;
}

abbrev with_bytes : Str → Conn
with_bytes bytes = record cut_up { incoming = bytes }

write_full-Sends_example : Sends cut_up (7 ∷ 8 ∷ 9 ∷ []) (write_full (7 ∷ 8 ∷ 9 ∷ []) cut_up)
write_full-Sends_example = write_full-Sends (7 ∷ 8 ∷ 9 ∷ []) cut_up

read-write_typed_string_example :
    read_typed_string (with_bytes (0 ∷ 2 ∷ 6 ∷ 7 ∷ 8 ∷ 99 ∷ []))
    ≡ returned (7 ∷ 8 ∷ [], 6) (with_bytes (99 ∷ []))
unfolding write_typed_string typed_frame write_full write_loop write
read-write_typed_string_example =
    read-write_typed_string 6 (7 ∷ 8 ∷ []) (99 ∷ []) cut_up _
      (with_bytes (0 ∷ 2 ∷ 6 ∷ 7 ∷ 8 ∷ 99 ∷ [])) refl refl refl refl

read_typed_string_cut_example :
    read_typed_string (with_bytes (0 ∷ 2 ∷ 6 ∷ 7 ∷ [])) ≡ failed unexpected_eof (with_bytes [])
unfolding typed_frame
read_typed_string_cut_example =
    read_typed_string_cut 6 (7 ∷ 8 ∷ []) (0 ∷ 2 ∷ 6 ∷ 7 ∷ []) [] 8 (with_bytes (0 ∷ 2 ∷ 6 ∷ 7 ∷ []))
      (omega arith) refl refl refl refl
