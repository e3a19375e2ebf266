-- ===== src/Base/Paths.antt =====
-- `std::path::Path` on Unix, as the list of its components; the root is the component "/".
use Prim.Native.Char.{Char, code}
use Prim.Native.String.{String}
use mathlib.Core.Path.{◌≡◌, refl}
use mathlib.Core.Bool.{Bool, true, false, not, ◌&&◌, ◌||◌}
use mathlib.Core.Logic.{◌↔◌}
use mathlib.Core.List.{List, [], ◌∷◌, ◌++◌}
use native.Mathlib.Omega.{arith}
use text.Mathlib.Text.{◌==◌}
use text.Mathlib.TextEquality.{eq_iff}
use vectorhawkd.Base.Tests.{if◌then◌else◌, eqb}
use vectorhawkd.Base.Lists.{keep}
use vectorhawkd.Base.Texts.{split_at_code}

abbrev pub FilePath : Type 0
FilePath = List String

abbrev is_slash : Char → Bool
is_slash c = eqb (code c) b'/'

abbrev is_normal : String → Bool
is_normal part = if part == "" || part == "." then false else true

-- Only the first part of a path can be the root or a leading dot.
abbrev of_parts : List String → FilePath
of_parts [] = []
of_parts (first ∷ []) = if first == "" then [] else first ∷ []
of_parts (first ∷ (second ∷ rest)) =
    (if first == "" then "/" else first) ∷ keep is_normal (second ∷ rest)

-- `PathBuf::from(s)`
unfoldable pub from_text : String → FilePath
unfolding split_at_code
from_text s = of_parts (split_at_code is_slash s)

abbrev pub is_root : String → Bool
is_root part = part == "/"

abbrev pub is_absolute : FilePath → Bool
is_absolute [] = false
is_absolute (part ∷ path) = is_root part

-- `base.join(rel)` for any path, and a base with a component at least: an absolute one takes the
-- place of the base, and a dot within a path is dropped.
abbrev pub join_path : FilePath → FilePath → FilePath
join_path base rel = if is_absolute rel then rel else base ++ keep (λ part. not (part == ".")) rel

-- `path.join(name)` for a plain name
abbrev pub join : FilePath → String → FilePath
join path name = path ++ name ∷ []

-- `path.starts_with(base)`: by whole components.
unfoldable pub starts_with : FilePath → FilePath → Bool
starts_with path [] = true
starts_with [] (b ∷ base) = false
starts_with (p ∷ path) (b ∷ base) = p == b && starts_with path base

-- A path starts with a base exactly if something joined to the base gives the path.
pub starts_with_iff :
    (path base : FilePath)
    → (starts_with path base ≡ true) ↔ ((rest : FilePath) × (path ≡ base ++ rest))
unfolding starts_with
starts_with_iff path [] = (λ h. (path, refl), λ h. refl)
starts_with_iff [] (b ∷ base) = (λ h. absurd (ground (arith, h)), λ h. absurd (ground (arith, h.1)))
starts_with_iff (p ∷ path) (b ∷ base) =
    let ih = starts_with_iff path base in
    (
      λ h.
          let below = ih.0 (ground (arith, h)) in (below.0, ground (arith, h, below.1, eq_iff p b)),
      λ h. ground (arith, h.1, eq_iff p b, ih.1 (h.0, ground (arith, h.1))),
    )
