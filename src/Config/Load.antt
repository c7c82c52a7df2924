-- ===== src/Config/Load.antt =====
-- internal/cfg/config.go: the loop of Load over the lines of the file, unquote and Mode. The
-- lines are those the scanner hands out, so the file and its read errors are not here.
mod Tests
pub mod Rules
use backhaul_recovered.Prelude.{
  ℕ, zero, suc, Bool, true, false, ◌&&◌, ◌||◌, not, Option, none, some, List, [], ◌∷◌, ◌++◌,
  if◌then◌else◌, ◌==◌,
}
use backhaul_recovered.Prelude.Text.{Str, str_eq, codes}
use backhaul_recovered.Strings.{
  trim_space, trim_cutset, contains_byte, has_prefix, ends_with, drop_last, trim_suffix,
  trim_prefix, cut, before, split,
}
use backhaul_recovered.Config.{Config, Ports, defaults}
use backhaul_recovered.Config.Set.{is, set_value}

-- The variables of Load.
pub record Loader : Type 0 where
  pub config : Config
  pub section : Str
  pub in_mapping : Bool

abbrev pub start : Loader
start = record { config = defaults; section = []; in_mapping = false }

abbrev pub add_mapping : Loader → Str → Loader
add_mapping l [] = l
add_mapping l (c ∷ item) =
    let ports = l.config.ports in
    record l {
      config = record l.config {
        ports = record ports { mapping = ports.mapping ++ (c ∷ item) ∷ [] };
      };
    }

-- The cutsets " ,\t\r\n\"" and " \t\r\n\"".
abbrev pub item_cutset : Str
item_cutset = 32 ∷ 44 ∷ 9 ∷ 13 ∷ 10 ∷ 34 ∷ []

abbrev pub value_cutset : Str
value_cutset = 32 ∷ 9 ∷ 13 ∷ 10 ∷ 34 ∷ []

abbrev pub add_values : Loader → List Str → Loader
add_values l [] = l
add_values l (p ∷ ps) = add_values (add_mapping l (trim_cutset value_cutset p)) ps

-- A line inside the brackets of `mapping`.
pub mapping_line : Loader → Str → Loader
mapping_line l line =
    if contains_byte b']' line
    then add_mapping (record l { in_mapping = false })
        (trim_cutset item_cutset (trim_space (trim_suffix b']' line)))
    else add_mapping l (trim_cutset item_cutset line)

-- The value of `mapping` on the line of the key.
pub mapping_value : Loader → Str → Loader
mapping_value l val =
    if contains_byte b']' val
    then add_values l (split b',' (trim_space (trim_suffix b']' val)))
    else add_mapping (record l { in_mapping = true }) (trim_cutset value_cutset val)

-- unquote
pub unquote : Str → Str
unquote v = trim_cutset (34 ∷ []) (trim_space v)

pub key_value : Loader → Option (Str × Str) → Loader
unfolding mapping_value
key_value l none = l
key_value l (some (k, v)) =
    let key = trim_space k in
    let val = trim_space v in
    if is l.section (codes "ports") && is key (codes "mapping")
    then mapping_value l (trim_space (trim_prefix (codes "[") val))
    else record l { config = set_value l.config l.section key (unquote val) }

abbrev drop_first : Str → Str
drop_first [] = []
drop_first (c ∷ s) = s

-- A line with its blanks and its comment off.
pub content_line : Loader → Str → Loader
unfolding mapping_line key_value
content_line l line =
    if l.in_mapping
    then mapping_line l line
    else if has_prefix (codes "[") line && ends_with b']' line
    then record l { section = trim_space (drop_last (drop_first line)) }
    else key_value l (cut b'=' line)

pub uncomment : Str → Str
uncomment line = if contains_byte b'#' line then trim_space (before b'#' line) else line

abbrev trimmed_line : Loader → Str → Loader
trimmed_line l [] = l
trimmed_line l (c ∷ line) = if c == b'#' then l else content_line l (uncomment (c ∷ line))

-- One round of the loop.
pub read_line : Loader → Str → Loader
unfolding content_line uncomment
read_line l text = trimmed_line l (trim_space text)

pub read_lines : Loader → List Str → Loader
read_lines l [] = l
read_lines l (text ∷ texts) = read_lines (read_line l text) texts

-- Load
pub load : List Str → Config
unfolding read_lines
load texts = (read_lines start texts).config

pub data Mode : Type 0 where
  server client : Mode

abbrev by_ipx : Str → Option Mode
by_ipx mode =
    if is mode (codes "server")
    then some server
    else if is mode (codes "client")
    then some client
    else none

-- Mode: none is the error that the configuration has no address.
pub mode : Config → Option Mode
mode c =
    if not (is c.listener.bind_addr [])
    then some server
    else if not (is c.dialer.remote_addr [])
    then some client
    else by_ipx c.ipx.mode
