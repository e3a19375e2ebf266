-- ===== src/Drift/Files.antt =====
-- The files that the drift scanner reads, moves and removes, by their paths. A directory is
-- there if a file lies below it. Some paths cannot be read; a write does not fail. A path is
-- taken as it is written, so one with a component `..` is another path than the one it leads to.
use vectorhawkd.Base.{
  ◌≡◌, refl, ◌∙◌, inl, inr, String, Bool, true, false, not, ◌&&◌, Option, none, some, List, [], ◌∷◌,
  ◌++◌, ◌==◌, arith, any, any-keep-not, keep, Bool-cases, eq_iff, eq_refl, if◌then◌else◌,
}
use vectorhawkd.Base.Paths.{FilePath, starts_with}

pub record Disk : Type 0 where
  pub files : List (FilePath × String)
  pub unreadable : FilePath → Bool

abbrev pub path_eq : FilePath → FilePath → Bool
path_eq [] [] = true
path_eq (p ∷ ps) (q ∷ qs) = p == q && path_eq ps qs
path_eq _ _ = false

abbrev pub content_in : List (FilePath × String) → FilePath → Option String
content_in [] path = none
content_in ((at, text) ∷ files) path = if path_eq at path then some text else content_in files path

unfoldable pub content : Disk → FilePath → Option String
content disk path = content_in (disk.files) path

-- `path.exists()`
unfoldable pub exists : Disk → FilePath → Bool
exists disk path = any (λ f. starts_with (f.0) path) (disk.files)

-- `fs::read`
unfoldable pub read : Disk → FilePath → Option String
unfolding content
read disk path = if disk.unreadable path then none else content disk path

-- `fs::remove_dir_all`
unfoldable pub remove_dir_all : Disk → FilePath → Disk
remove_dir_all disk dir = record disk {
  files = keep (λ f. not (starts_with (f.0) dir)) (disk.files);
}

-- `atomic_file::write_atomic`: the new text replaces the old.
unfoldable pub write : Disk → FilePath → String → Disk
write disk path text = record disk {
  files = (path, text) ∷ keep (λ f. not (path_eq (f.0) path)) (disk.files);
}

-- The part of a path below a directory, or the whole path.
abbrev pub below : FilePath → FilePath → FilePath
below path [] = path
below [] (d ∷ dir) = []
below (p ∷ path) (d ∷ dir) = below path dir

abbrev pub moved : FilePath → FilePath → List (FilePath × String) → List (FilePath × String)
moved src dest [] = []
moved src dest ((at, text) ∷ files) =
    let rest = moved src dest files in
    if starts_with at src then (dest ++ below at src, text) ∷ rest else rest

-- `fs::rename` of a directory, or the copy and the removal that stand in for it.
unfoldable pub rename : Disk → (src dest : FilePath) → Disk
unfolding remove_dir_all
rename disk src dest =
    let left = remove_dir_all disk src in
    record left { files = moved src dest (disk.files) ++ left.files }

pub path_eq_sound : (p q : FilePath) → path_eq p q ≡ true → p ≡ q
path_eq_sound [] [] h = refl
path_eq_sound [] (q ∷ qs) h = cc
path_eq_sound (p ∷ ps) [] h = cc
path_eq_sound (p ∷ ps) (q ∷ qs) h =
    let head : p ≡ q = (eq_iff p q).0 (ground arith) in
    let tail : ps ≡ qs = path_eq_sound ps qs (ground arith) in cc

pub path_eq_refl : (p : FilePath) → path_eq p p ≡ true
path_eq_refl [] = refl
path_eq_refl (p ∷ ps) = rw (eq_refl p) (path_eq_refl ps)

-- Dropping files other than a given one keeps its content.
content_in-keep :
    (test : FilePath → Bool) (files : List (FilePath × String)) (path : FilePath)
    → test path ≡ true
    → content_in (keep (λ f. test (f.0)) files) path ≡ content_in files path
content_in-keep test [] path kept = refl
content_in-keep test ((at, text) ∷ files) path kept = elim (Bool-cases (path_eq at path)) [
  | inl same ↦ let here : test at ≡ true = cc (path_eq_sound at path same) in rw here (rw same refl)
  | inr other ↦ elim (Bool-cases (test at)) [
    | inl stays ↦ rw stays (rw other (content_in-keep test files path kept))
    | inr goes ↦ rw goes (rw other (content_in-keep test files path kept))
  ]
]

pub content-remove_dir_all :
    (disk : Disk) (dir path : FilePath)
    → starts_with path dir ≡ false
    → content (remove_dir_all disk dir) path ≡ content disk path
unfolding content remove_dir_all
content-remove_dir_all disk dir path apart =
    content_in-keep (λ at. not (starts_with at dir)) (disk.files) path (ground (arith, apart))

path_eq_comm : (p q : FilePath) → path_eq q p ≡ false → path_eq p q ≡ false
path_eq_comm p q apart = elim (Bool-cases (path_eq p q)) [
  | inr other ↦ other
  | inl same ↦ let one = path_eq_sound p q same in absurd (cc (path_eq_refl p))
]

pub content-write :
    (disk : Disk) (at path : FilePath) (text : String)
    → path_eq at path ≡ false
    → content (write disk at text) path ≡ content disk path
unfolding content write
content-write disk at path text apart = rw apart (
    content_in-keep (λ f. not (path_eq f at)) (disk.files) path
      (ground (arith, path_eq_comm path at apart)))

starts_with-append : (base rest : FilePath) → starts_with (base ++ rest) base ≡ true
unfolding starts_with
starts_with-append [] rest = refl
starts_with-append (b ∷ base) rest = rw (eq_refl b) (starts_with-append base rest)

-- A path that is not below a directory is none of the paths made below it.
pub not_below :
    (base rest path : FilePath)
    → starts_with path base ≡ false
    → path_eq (base ++ rest) path ≡ false
not_below base rest path apart = elim (Bool-cases (path_eq (base ++ rest) path)) [
  | inr other ↦ other
  | inl same ↦
      let one = path_eq_sound (base ++ rest) path same in absurd (cc (starts_with-append base rest))
]

content_in-moved :
    (src dest path : FilePath) (files rest : List (FilePath × String))
    → starts_with path dest ≡ false
    → content_in (moved src dest files ++ rest) path ≡ content_in rest path
content_in-moved src dest path [] rest apart = refl
content_in-moved src dest path ((at, text) ∷ files) rest apart =
    elim (Bool-cases (starts_with at src)) [
      | inr stays ↦ rw stays (content_in-moved src dest path files rest apart)
      | inl goes ↦
          let other = not_below dest (below at src) path apart in
          rw goes (rw other (content_in-moved src dest path files rest apart))
    ]

pub content-rename :
    (disk : Disk) (src dest path : FilePath)
    → starts_with path src ≡ false
    → starts_with path dest ≡ false
    → content (rename disk src dest) path ≡ content disk path
unfolding content rename
content-rename disk src dest path apart clear =
    content_in-moved src dest path (disk.files)
      (keep (λ f. not (starts_with (f.0) src)) (disk.files)) clear
    ∙ content_in-keep (λ at. not (starts_with at src)) (disk.files) path (ground (arith, apart))

-- After a removal nothing is left of a directory.
pub exists-remove_dir_all :
    (disk : Disk) (dir : FilePath) → exists (remove_dir_all disk dir) dir ≡ false
unfolding exists remove_dir_all
exists-remove_dir_all disk dir = any-keep-not (λ f. starts_with (f.0) dir) (disk.files)
