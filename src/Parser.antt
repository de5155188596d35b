-- ===== src/Parser.antt =====
-- internal/rocketmq/parser.go: the output of the configuration commands.
use go_rocketmq_dashboard.Base.{
  Bool, ◌&&◌, ◌||◌, if◌then◌else◌, ◌==◌, nat_eq, text_eq, List, [], ◌∷◌, ◌++◌, map, is_nil, Option,
  none, some,
}
use mathlib.Core.Option as OptionFn
use go_rocketmq_dashboard.Base.Text.{Text, text, trim_space, has_prefix, split_on, cut_at}

pub record ConfigEntry : Type 0 where
  pub key : Text
  pub value : Text

pub record ConfigSection : Type 0 where
  pub header : Text
  pub entries : List ConfigEntry

pub record NameServerConfigSnapshot : Type 0 where
  pub name_server : Text
  pub entries : List ConfigEntry

-- `strings.Trim(line, "=")`, from the left and from the right.
unfoldable pub trim_equals_left : Text → Text
trim_equals_left [] = []
trim_equals_left (c ∷ s) = let rest = trim_equals_left s in if c == b'=' then rest else c ∷ s

unfoldable pub trim_equals_right : Text → Text
trim_equals_right [] = []
trim_equals_right (c ∷ s) =
    let rest = trim_equals_right s in if c == b'=' && is_nil rest then [] else c ∷ rest

unfoldable pub is_config_noise_line : Text → Bool
unfolding has_prefix
is_config_noise_line line =
    has_prefix line (text "#")
    || has_prefix line (text "Java ")
    || has_prefix line (text "OpenJDK")
    || has_prefix line (text "Picked up ")
    || has_prefix line (text "SLF4J:")

unfoldable pub split_config_entry_line : Text → Option ConfigEntry
unfolding cut_at trim_space
split_config_entry_line line = elim (cut_at b'=' line) [
  | none ↦ none
  | some p ↦
      if trim_space p.0 == []
      then none
      else some (record { key = trim_space p.0; value = trim_space p.1 })
]

-- The sections that are finished, and the current one.
pub record Parsing : Type 0 where
  pub sections : List ConfigSection
  pub current : ConfigSection

abbrev pub no_section : ConfigSection
no_section = record { header = []; entries = [] }

unfoldable pub flush : Parsing → Parsing
flush p =
    if p.current.header == [] && is_nil p.current.entries
    then p
    else record { sections = p.sections ++ p.current ∷ []; current = no_section }

unfoldable pub add_entry : Option ConfigEntry → ConfigSection → ConfigSection
add_entry none section = section
add_entry (some entry) section = record section { entries = section.entries ++ entry ∷ [] }

unfoldable pub read_config_line : Text → Parsing → Parsing
unfolding trim_space is_config_noise_line has_prefix flush trim_equals_left trim_equals_right
    split_config_entry_line add_entry
read_config_line raw p =
    let line = trim_space raw in
    if line == [] || is_config_noise_line line
    then p
    else if has_prefix line (text "============")
    then (let flushed = flush p in
        record flushed {
          current = record flushed.current { header = trim_equals_right (trim_equals_left line) };
        })
    else record p { current = add_entry (split_config_entry_line line) p.current }

unfoldable pub read_config_lines : List Text → Parsing → Parsing
unfolding read_config_line
read_config_lines [] p = p
read_config_lines (raw ∷ lines) p = read_config_lines lines (read_config_line raw p)

-- `none` is an error: no section was found.
unfoldable pub parse_config_sections : Text → Option (List ConfigSection)
unfolding split_on read_config_lines flush
parse_config_sections output =
    let parsed = flush (
      read_config_lines (split_on b'\n' output) (record { sections = []; current = no_section })) in
    if is_nil parsed.sections then none else some parsed.sections

unfoldable pub section_config : ConfigSection → NameServerConfigSnapshot
unfolding trim_space
section_config section = record {
  name_server = trim_space section.header;
  entries = section.entries;
}

unfoldable pub parse_name_server_configs : Text → Option (List NameServerConfigSnapshot)
unfolding parse_config_sections section_config
parse_name_server_configs output = OptionFn.map (map section_config) (parse_config_sections output)
