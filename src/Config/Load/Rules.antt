-- ===== src/Config/Load/Rules.antt =====
-- What Load skips, what it keeps, and how it reads a list of mappings.
use backhaul_recovered.Prelude.{
  ℕ, ◌≡◌, refl, sym, ap, ◌∙◌, true, false, List, [], ◌∷◌, ◌++◌, arith, ◌==◌, All, append_assoc,
  append-nil, ◌≢◌, ◌⊎◌, inl, inr,
}
use backhaul_recovered.Prelude.Text.{Str, codes}
use backhaul_recovered.Strings.{
  trim_left, trim_right, has_prefix, ends_with, drop_last, trim_suffix, trim_prefix, cut, trim,
  trim_space, trim_cutset, contains_byte, is_space, trim_left, trim_right,
}
use backhaul_recovered.Strings.Laws.{trim-All}
use backhaul_recovered.Config.{Config, defaults}
use backhaul_recovered.Config.Load.{
  Loader, start, add_mapping, item_cutset, mapping_line, content_line, uncomment, key_value,
  mapping_value, trimmed_line, read_line, read_lines, load, has_prefix, trim_suffix, ends_with,
  drop_last, key_value, mapping_value, cut,
}

read_lines-append :
    (l : Loader) (xs ys : List Str) → read_lines l (xs ++ ys) ≡ read_lines (read_lines l xs) ys
unfolding read_lines
read_lines-append l [] ys = refl
read_lines-append l (x ∷ xs) ys = read_lines-append (read_line l x) xs ys

-- A line that is blank, or a comment.
abbrev pub IsSilent : Str → Type 0
IsSilent text = (trim_space text ≡ []) ⊎ ((s : Str) × (trim_space text ≡ b'#' ∷ s))

read_line-silent : (l : Loader) (text : Str) → IsSilent text → read_line l text ≡ l
unfolding read_line
read_line-silent l text (inl e) = ap (trimmed_line l) e
read_line-silent l text (inr (s, e)) = ap (trimmed_line l) e

-- A line that is blank, or whose first byte behind the blanks is `#`, has no effect wherever it
-- stands in the file, between the mappings too.
pub load-silent :
    (xs ys : List Str) (text : Str) → IsSilent text → load (xs ++ text ∷ ys) ≡ load (xs ++ ys)
unfolding load read_lines
load-silent xs ys text h =
    ap (λ l. l.config)
      (read_lines-append start xs (text ∷ ys)
        ∙ ap (λ l. read_lines l ys) (read_line-silent (read_lines start xs) text h)
        ∙ sym (read_lines-append start xs ys))

-- A byte that Load leaves in a mapping: no blank, comma, quote, number sign or closing bracket.
abbrev pub IsPlain : ℕ → Type 0
IsPlain c =
    (is_space c ≡ false)
    × ((c == 44) ≡ false)
    × ((c == 34) ≡ false)
    × ((c == b'#') ≡ false)
    × ((c == b']') ≡ false)

abbrev pub IsItem : Str → Type 0
IsItem item = All IsPlain item × (item ≢ [])

plain_spaces : (s : Str) → All IsPlain s → All (λ c. is_space c ≡ false) s
plain_spaces [] h = tt
plain_spaces (c ∷ s) (h, hs) = (h.0, plain_spaces s hs)

plain_cutset : (s : Str) → All IsPlain s → All (λ c. contains_byte c item_cutset ≡ false) s
unfolding contains_byte is_space
plain_cutset [] h = tt
plain_cutset (c ∷ s) ((a, b, d, e, f), hs) = (ground arith, plain_cutset s hs)

plain_hash : (s : Str) → All IsPlain s → contains_byte b'#' s ≡ false
unfolding contains_byte
plain_hash [] h = refl
plain_hash (c ∷ s) ((a, b, d, e, f), hs) = ground (arith, plain_hash s hs)

plain_bracket : (s : Str) → All IsPlain s → contains_byte b']' s ≡ false
unfolding contains_byte
plain_bracket [] h = refl
plain_bracket (c ∷ s) ((a, b, d, e, f), hs) = ground (arith, plain_bracket s hs)

-- Load between the brackets of the list.
abbrev listing : Config → Str → Loader
listing c section = record { config = c; section = section; in_mapping = true }

trimmed_line-item :
    (l : Loader) (c : ℕ) (s : Str)
    → (c == b'#') ≡ false
    → trimmed_line l (c ∷ s) ≡ content_line l (uncomment (c ∷ s))
trimmed_line-item l c s e = rw e

mapping_line-item :
    (l : Loader) (item : Str) → All IsPlain item → mapping_line l item ≡ add_mapping l item
unfolding mapping_line trim_cutset
mapping_line-item l item h =
    let e : trim (λ c. contains_byte c item_cutset) item ≡ item =
      trim-All (λ c. contains_byte c item_cutset) item (plain_cutset item h) in
    ground (arith, plain_bracket item h, ap (add_mapping l) e)

uncomment-item : (item : Str) → All IsPlain item → uncomment item ≡ item
unfolding uncomment
uncomment-item item h = rw (plain_hash item h)

read_line-item :
    (c : Config) (section item : Str)
    → IsItem item
    → read_line (listing c section) item ≡ add_mapping (listing c section) item
unfolding read_line trim_space content_line
read_line-item c section [] (h, n) = absurd (n refl)
read_line-item c section (x ∷ s) (h, n) =
    ap (trimmed_line (listing c section)) (trim-All is_space (x ∷ s) (plain_spaces (x ∷ s) h))
    ∙ trimmed_line-item (listing c section) x s h.0.3
    ∙ ap (content_line (listing c section)) (uncomment-item (x ∷ s) h)
    ∙ mapping_line-item (listing c section) (x ∷ s) h

abbrev with_mapping : Config → List Str → Config
with_mapping c ms = record c { ports = record c.ports { mapping = ms } }

add_mapping-item :
    (c : Config) (section item : Str)
    → item ≢ []
    → add_mapping (listing c section) item
      ≡ listing (with_mapping c (c.ports.mapping ++ item ∷ [])) section
add_mapping-item c section [] n = absurd (n refl)
add_mapping-item c section (x ∷ s) n = refl

read_lines-items :
    (c : Config) (section : Str) (ms items : List Str)
    → All IsItem items
    → read_lines (listing (with_mapping c ms) section) items
      ≡ listing (with_mapping c (ms ++ items)) section
unfolding read_lines
read_lines-items c section ms [] h =
    ap (λ z. listing (with_mapping c z) section) (sym (append-nil ms))
read_lines-items c section ms (item ∷ items) h =
    ap (λ l. read_lines l items)
      (read_line-item (with_mapping c ms) section item h.0
        ∙ add_mapping-item (with_mapping c ms) section item h.0.1)
    ∙ read_lines-items c section (ms ++ item ∷ []) items h.1
    ∙ ap (λ z. listing (with_mapping c z) section) (append_assoc ms (item ∷ []) items)

-- The lines of a [ports] section with one mapping a line.
abbrev pub ports_section : List Str → List Str
ports_section items = codes "[ports]" ∷ codes "mapping = [" ∷ items ++ codes "]" ∷ []

abbrev first_line : Loader
first_line = record { config = defaults; section = codes "ports"; in_mapping = false }

read_line-section : read_line start (codes "[ports]") ≡ first_line
unfolding read_line trim_space trim trim_left trim_right is_space content_line uncomment
    contains_byte has_prefix ends_with drop_last
read_line-section = refl

read_line-key : read_line first_line (codes "mapping = [") ≡ listing defaults (codes "ports")
unfolding read_line trim_space trim trim_left trim_right is_space content_line uncomment
    contains_byte has_prefix key_value mapping_value cut trim_prefix trim_cutset
read_line-key = refl

read_line-end :
    (c : Config) (section : Str)
    → read_line (listing c section) (codes "]")
      ≡ record { config = c; section = section; in_mapping = false }
unfolding read_line trim_space trim trim_left trim_right is_space content_line uncomment
    contains_byte mapping_line trim_suffix ends_with drop_last trim_cutset
read_line-end c section = refl

-- A [ports] section with one mapping a line, each mapping not empty and without blanks, commas,
-- quotes, `#` and `]`, is read as these mappings, in this order; all else keeps its default.
pub load-ports_section :
    (items : List Str)
    → All IsItem items
    → load (ports_section items)
      ≡ record defaults { ports = record { forwarder = []; mapping = items } }
unfolding load read_lines
load-ports_section items h =
    ap (λ l. l.config)
      (ap (λ l. read_lines (read_line l (codes "mapping = [")) (items ++ codes "]" ∷ []))
          read_line-section
        ∙ ap (λ l. read_lines l (items ++ codes "]" ∷ [])) read_line-key
        ∙ read_lines-append (listing defaults (codes "ports")) items (codes "]" ∷ [])
        ∙ ap (λ l. read_line l (codes "]")) (read_lines-items defaults (codes "ports") [] items h)
        ∙ read_line-end (with_mapping defaults items) (codes "ports"))
