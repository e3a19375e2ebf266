-- ===== src/Manifest/BundlePath/Confined.antt =====
-- What `resolve_bundle_file` lets through.
use vectorhawkd.Base.{
  ◌≡◌, ◌↔◌, refl, ap, inl, inr, String, true, false, not, [], ◌∷◌, ◌++◌, ◌==◌, arith, All,
  All-append, keep, Bool-cases, eq_false_of_ne, Result, ok, err, ◌>>=◌,
}
use vectorhawkd.Base.Paths.{
  FilePath, from_text, starts_with, starts_with_iff, is_absolute, join_path,
}
use vectorhawkd.Manifest.BundlePath.{
  Disk, outside_bundle, is_lexically_inside, or_io, if_inside, resolve_below, resolve_bundle_file,
  lexical_fold,
}
use vectorhawkd.Manifest.BundlePath.Fold.{IsName, IsPlain, lexical_fold_plain}

if_inside_sound :
    (canonical_root : FilePath) (answer : Result String FilePath) {path : FilePath}
    → (or_io answer >>= if_inside canonical_root) ≡ ok path
    → (answer ≡ ok path) × (starts_with path canonical_root ≡ true)
if_inside_sound canonical_root (err e) done = cc
if_inside_sound canonical_root (ok found) {path} done =
    elim (Bool-cases (starts_with found canonical_root)) [
      | inl inside ↦ ground (arith, inside)
      | inr outside ↦ absurd (ground (arith, outside))
    ]

-- The path is what the disk resolves the joined path to, and it lies below the canonical root.
abbrev pub IsConfined : Disk → FilePath → String → FilePath → Type 0
IsConfined disk root rel path =
    (canonical_root : FilePath) × (disk.canonicalize root ≡ ok canonical_root)
    × (disk.canonicalize (join_path canonical_root (from_text rel)) ≡ ok path)
    × (starts_with path canonical_root ≡ true)

below-IsConfined :
    (disk : Disk) (root : FilePath) (rel : String) (answer : Result String FilePath)
    {path : FilePath}
    → disk.canonicalize root ≡ answer
    → (or_io answer >>= λ croot. resolve_below disk root croot (from_text rel)) ≡ ok path
    → IsConfined disk root rel path
below-IsConfined disk root rel (err e) asked rest = cc
below-IsConfined disk root rel (ok croot) asked rest =
    elim (Bool-cases (is_lexically_inside root croot (from_text rel))) [
      | inl inside ↦
          let sound =
            if_inside_sound croot (disk.canonicalize (join_path croot (from_text rel)))
              (rw inside at rest) in
          (croot, asked, sound.0, sound.1)
      | inr outside ↦ absurd (ground (arith, outside))
    ]

-- A path that is returned is the canonical form of the joined path and lies below the bundle's
-- canonical root, whatever links the disk has.
pub resolve_bundle_file-IsConfined :
    (disk : Disk) (root : FilePath) (rel : String) {path : FilePath}
    → resolve_bundle_file disk root rel ≡ ok path
    → IsConfined disk root rel path
unfolding resolve_bundle_file
resolve_bundle_file-IsConfined disk root rel done =
    below-IsConfined disk root rel (disk.canonicalize root) refl done

-- A path whose fold leaves the bundle is refused with the same error on any disk: nothing
-- outside the bundle decides the answer.
pub resolve_bundle_file-outside :
    (disk : Disk) (root : FilePath) (rel : String) {canonical_root : FilePath}
    → disk.canonicalize root ≡ ok canonical_root
    → is_lexically_inside root canonical_root (from_text rel) ≡ false
    → resolve_bundle_file disk root rel ≡ err outside_bundle
unfolding resolve_bundle_file
resolve_bundle_file-outside disk root rel asked outside = rw (asked, outside) refl

keep_names : (names : FilePath) → All IsName names → keep (λ part. not (part == ".")) names ≡ names
keep_names [] plain = refl
keep_names (part ∷ names) (name, plain) =
    rw (eq_false_of_ne part "." (name.1)) (ap (λ rest. part ∷ rest) (keep_names names plain))

names_relative : (names : FilePath) → All IsName names → is_absolute names ≡ false
names_relative [] plain = refl
names_relative (part ∷ names) (name, plain) = eq_false_of_ne part "/" (name.0)

join_names : (base names : FilePath) → All IsName names → join_path base names ≡ base ++ names
join_names base names plain = rw (names_relative names plain, keep_names names plain) refl

names_inside :
    (root base names : FilePath)
    → IsPlain base
    → All IsName names
    → is_lexically_inside root base names ≡ true
unfolding is_lexically_inside
names_inside root base names (above, whole, plain) below =
    let joined = join_names base names below in
    let folded : lexical_fold (base ++ names) ≡ base ++ names =
      lexical_fold_plain (base ++ names)
        (above ++ names, ap (λ b. b ++ names) whole, All-append IsName above names plain below) in
    let under = (starts_with_iff (base ++ names) base).1 (names, refl) in
    rw (joined, folded, under) refl

-- Below a canonical root of plain names, a path of plain names is resolved to what the disk
-- says, exactly if that lies below the root.
pub resolve_bundle_file_iff :
    (disk : Disk) (root : FilePath) (rel : String) (canonical_root path : FilePath)
    → disk.canonicalize root ≡ ok canonical_root
    → IsPlain canonical_root
    → All IsName (from_text rel)
    → (resolve_bundle_file disk root rel ≡ ok path) ↔ (
        (disk.canonicalize (canonical_root ++ from_text rel) ≡ ok path)
        × (starts_with path canonical_root ≡ true))
unfolding resolve_bundle_file
resolve_bundle_file_iff disk root rel canonical_root path asked plain names =
    let inside = names_inside root canonical_root (from_text rel) plain names in
    let joined = join_names canonical_root (from_text rel) names in
    rw (asked, inside, joined)
      (
        if_inside_sound canonical_root (disk.canonicalize (canonical_root ++ from_text rel)),
        λ h. rw (h.0, h.1) refl,
      )
