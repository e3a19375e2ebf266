-- ===== src/Manifest/BundlePath.antt =====
-- crates/scenery-manifest/src/lib.rs, resolve_bundle_file and lexical_fold: a path that a manifest
-- names, against the root of its bundle. The disk is an argument; a path is the list of its
-- components.
pub mod Fold
pub mod Confined
use vectorhawkd.Base.{
  String, Bool, true, false, not, ◌&&◌, ◌||◌, List, [], ◌∷◌, ◌++◌, ◌==◌, keep, if◌then◌else◌,
  Result, ok, err, ◌>>=◌,
}
use vectorhawkd.Base.Paths.{FilePath, from_text, starts_with, is_root, is_absolute, join_path}

-- What the manifests' code asks of the file system; an error is kept as its text.
pub record Disk : Type 0 where
  pub canonicalize : FilePath → Result String FilePath
  pub exists : FilePath → Bool
  pub read_to_string : FilePath → Result String String

pub data BundlePathError : Type 0 where
  outside_bundle : BundlePathError
  io : String → BundlePathError

-- The parent of what is folded so far, which stands in reverse.
unfoldable pub fold_parent : List String → List String
fold_parent [] = ".." ∷ []
fold_parent (last ∷ out) =
    if is_root last then last ∷ out else if last == ".." then ".." ∷ (last ∷ out) else out

-- One round of the loop over the components.
unfoldable pub fold_component : List String → String → List String
unfolding fold_parent
fold_component out part =
    if part == "." then out else if part == ".." then fold_parent out else part ∷ out

unfoldable pub fold_from : List String → FilePath → List String
unfolding fold_component
fold_from out [] = out
fold_from out (part ∷ path) = fold_from (fold_component out part) path

abbrev pub reverse_onto : List String → FilePath → FilePath
reverse_onto [] path = path
reverse_onto (last ∷ out) path = reverse_onto out (last ∷ path)

unfoldable pub lexical_fold : FilePath → FilePath
unfolding fold_from
lexical_fold path = reverse_onto (fold_from [] path) []

-- The first of the two checks, on the joined path alone.
unfoldable pub is_lexically_inside : (root canonical_root rel : FilePath) → Bool
unfolding lexical_fold starts_with
is_lexically_inside root canonical_root rel =
    let folded = lexical_fold (join_path canonical_root rel) in
    starts_with folded canonical_root || (is_absolute rel && starts_with folded (lexical_fold root))

abbrev pub or_io : Result String FilePath → Result BundlePathError FilePath
or_io (ok path) = ok path
or_io (err e) = err (io e)

-- The second check.
abbrev pub if_inside : FilePath → FilePath → Result BundlePathError FilePath
if_inside canonical_root resolved =
    if starts_with resolved canonical_root then ok resolved else err outside_bundle

abbrev pub resolve_below :
    Disk → (root canonical_root rel : FilePath) → Result BundlePathError FilePath
resolve_below disk root canonical_root rel =
    if is_lexically_inside root canonical_root rel
    then (or_io (disk.canonicalize (join_path canonical_root rel)) >>= if_inside canonical_root)
    else err outside_bundle

unfoldable pub resolve_bundle_file :
    Disk → (root : FilePath) (rel : String) → Result BundlePathError FilePath
unfolding is_lexically_inside starts_with from_text
resolve_bundle_file disk root rel = or_io (disk.canonicalize root) >>= λ canonical_root.
    resolve_below disk root canonical_root (from_text rel)
