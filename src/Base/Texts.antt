-- ===== src/Base/Texts.antt =====
-- Operations of `str` on native texts, by their characters.
pub mod Split
use Prim.Native.Char.{Char, code}
use Prim.Native.String.{String, [], ◌∷◌, ◌++◌}
use mathlib.Core.Bool.{Bool, true, ◌&&◌}
use mathlib.Core.List.{List}
use mathlib.Core.Option
use mathlib.Core.Option.{Option, none, some}
use text.Mathlib.Text.{◌==◌}
use vectorhawkd.Base.Tests.{if◌then◌else◌, eqb}

-- `trim_start_matches(p)` and `trim_end_matches(p)`
unfoldable pub trim_start : (Char → Bool) → String → String
trim_start p [] = []
trim_start p (c ∷ s) = let rest = trim_start p s in if p c then rest else c ∷ s

unfoldable pub trim_end : (Char → Bool) → String → String
trim_end p [] = []
trim_end p (c ∷ s) = let rest = trim_end p s in if p c && rest == "" then "" else c ∷ rest

abbrev pub trim : (Char → Bool) → String → String
trim p s = trim_end p (trim_start p s)

abbrev pub push_char : Char → List String → List String
push_char c List.[] = List.◌∷◌ (c ∷ []) List.[]
push_char c (List.◌∷◌ part parts) = List.◌∷◌ (c ∷ part) parts

-- `split(c)`: never empty.
unfoldable pub split_at_code : (Char → Bool) → String → List String
split_at_code p [] = List.◌∷◌ "" List.[]
split_at_code p (c ∷ s) =
    let rest = split_at_code p s in if p c then List.◌∷◌ "" rest else push_char c rest

abbrev same_char : Char → Char → Bool
same_char c d = eqb (code c) (code d)

-- `strip_prefix(prefix)`
unfoldable pub strip_prefix : String → String → Option String
strip_prefix s [] = some s
strip_prefix [] (p ∷ prefix) = none
strip_prefix (c ∷ s) (p ∷ prefix) = if same_char c p then strip_prefix s prefix else none

abbrev pub onto_first : Char → Option (String × String) → Option (String × String)
onto_first c none = none
onto_first c (some (before, after)) = some (c ∷ before, after)

-- `find(sep)`, with what stands before the first occurrence and what stands after it.
unfoldable pub split_once : String → String → Option (String × String)
unfolding strip_prefix
split_once [] sep = elim (strip_prefix [] sep) [ none ↦ none | some after ↦ some ("", after) ]
split_once (c ∷ s) sep =
    let later = split_once s sep in
    elim (strip_prefix (c ∷ s) sep) [ none ↦ onto_first c later | some after ↦ some ("", after) ]

-- `strip_suffix(suffix)`
unfoldable pub strip_suffix : String → String → Option String
strip_suffix [] suffix = if "" == suffix then some "" else none
strip_suffix (c ∷ s) suffix =
    let later = strip_suffix s suffix in
    if (c ∷ s) == suffix then some "" else Option.map (λ before. c ∷ before) later

-- `chars().map(f).collect()`
abbrev pub map_chars : (Char → Char) → String → String
map_chars f [] = ""
map_chars f (c ∷ s) = f c ∷ map_chars f s

-- `join(sep)`
unfoldable pub join_with : String → List String → String
join_with sep List.[] = ""
join_with sep (List.◌∷◌ part List.[]) = part
join_with sep (List.◌∷◌ part (List.◌∷◌ next parts)) =
    part ++ (sep ++ join_with sep (List.◌∷◌ next parts))

-- `chars().all(p)`
abbrev pub all_chars : (Char → Bool) → String → Bool
all_chars p [] = true
all_chars p (c ∷ s) = p c && all_chars p s
