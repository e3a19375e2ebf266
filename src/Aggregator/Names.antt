-- ===== src/Aggregator/Names.antt =====
-- Tool names of crates/scenery-mcp/src/aggregator.rs: `namespace_tool`, `parse_tool_name` and
-- `sanitize_id`. The Unicode tables behind `to_lowercase` and `is_alphanumeric` are parameters.
pub mod RoundTrip
pub mod Sanitize
use Prim.Native.Char.{Char, code}
use Prim.Native.String
use Prim.Native.String.{[], ◌∷◌}
use mathlib.Core.Option
use vectorhawkd.Base.Texts.{trim}
use vectorhawkd.Base.{String, Bool, ◌&&◌, Option, none, some, ◌==◌, eqb, if◌then◌else◌}

-- `format!("{server_id}__{tool_name}")`
unfoldable pub namespace_tool : String → String → String
namespace_tool server_id tool_name = String.◌++◌ server_id (String.◌++◌ "__" tool_name)

abbrev pub is_underscore : Char → Bool
is_underscore c = eqb (code c) b'_'

abbrev pub push_front : Char → String × String → String × String
push_front c (before, after) = (c ∷ before, after)

-- `find("__")`, as what stands before the first separator and after it.
unfoldable pub split_separator : String → Option (String × String)
split_separator [] = none
split_separator (c ∷ []) = none
split_separator (c ∷ (d ∷ s)) =
    let rest = split_separator (d ∷ s) in
    if is_underscore c && is_underscore d then some ("", s) else Option.map (push_front c) rest

abbrev reject_empty : String × String → Option (String × String)
reject_empty (server_id, tool_name) =
    if server_id == "" then none else if tool_name == "" then none else some (server_id, tool_name)

unfoldable pub parse_tool_name : String → Option (String × String)
parse_tool_name namespaced = elim (split_separator namespaced) [
  | none ↦ none
  | some parts ↦ reject_empty parts
]

abbrev pub is_dash : Char → Bool
is_dash c = eqb (code c) b'-'

module _ (is_alphanumeric : Char → Bool) where
  abbrev pub replace_char : Char → Char
  replace_char c = if is_alphanumeric c then c else "-"

  unfoldable pub replace_chars : String → String
  replace_chars [] = []
  replace_chars (c ∷ s) = replace_char c ∷ replace_chars s

-- `name.to_lowercase().chars().map(…).collect()`, then `trim_matches('-')`
unfoldable pub sanitize_id : (String → String) → (Char → Bool) → String → String
sanitize_id to_lowercase is_alphanumeric name =
    trim is_dash (replace_chars is_alphanumeric (to_lowercase name))
