-- ===== src/Manifest/BundlePath/Fold.antt =====
-- What `lexical_fold` leaves of an absolute path.
use vectorhawkd.Base.{
  ◌≡◌, ◌≢◌, refl, ap, ◌∙◌, inl, inr, String, List, [], ◌∷◌, ◌==◌, All, Bool-cases, eq_iff,
  eq_false_of_ne,
}
use vectorhawkd.Base.Paths.{FilePath}
use vectorhawkd.Manifest.BundlePath.{
  fold_parent, fold_component, fold_from, reverse_onto, lexical_fold,
}

-- A component that is a plain name.
abbrev pub IsName : String → Type 0
IsName part = (part ≢ "/") × (part ≢ ".") × (part ≢ "..")

-- Names above the root, in reverse.
abbrev IsRooted : List String → Type 0
IsRooted [] = ⊥
IsRooted (part ∷ []) = part ≡ "/"
IsRooted (part ∷ (next ∷ out)) = IsName part × IsRooted (next ∷ out)

push-IsRooted :
    (part : String) (out : List String) → IsName part → IsRooted out → IsRooted (part ∷ out)
push-IsRooted part [] name rooted = absurd rooted
push-IsRooted part (next ∷ out) name rooted = (name, rooted)

fold_parent-IsRooted : (out : List String) → IsRooted out → IsRooted (fold_parent out)
unfolding fold_parent
fold_parent-IsRooted [] rooted = absurd rooted
fold_parent-IsRooted (part ∷ []) rooted = rw ((eq_iff part "/").1 rooted) rooted
fold_parent-IsRooted (part ∷ (next ∷ out)) (name, rooted) =
    rw (eq_false_of_ne part "/" (name.0), eq_false_of_ne part ".." (name.2)) rooted

fold_component-IsRooted :
    (out : List String) (part : String)
    → part ≢ "/"
    → IsRooted out
    → IsRooted (fold_component out part)
unfolding fold_component
fold_component-IsRooted out part below rooted = elim (Bool-cases (part == ".")) [
  | inl dot ↦ rw dot rooted
  | inr other ↦ elim (Bool-cases (part == "..")) [
    | inl parent ↦ rw (other, parent) (fold_parent-IsRooted out rooted)
    | inr name ↦
        rw (other, name)
          (push-IsRooted part out
            (below, λ e. cc ((eq_iff part ".").1 e), λ e. cc ((eq_iff part "..").1 e)) rooted)
  ]
]

fold_from-IsRooted :
    (out : List String) (path : FilePath)
    → All (λ part. part ≢ "/") path
    → IsRooted out
    → IsRooted (fold_from out path)
unfolding fold_from
fold_from-IsRooted out [] below rooted = rooted
fold_from-IsRooted out (part ∷ path) (here, below) rooted =
    fold_from-IsRooted (fold_component out part) path below
      (fold_component-IsRooted out part here rooted)

-- The root and plain names below it.
abbrev pub IsPlain : FilePath → Type 0
IsPlain path = (names : FilePath) × (path ≡ "/" ∷ names) × All IsName names

reverse_onto-IsPlain :
    (out : List String) (names : FilePath)
    → All IsName names
    → IsRooted out
    → IsPlain (reverse_onto out names)
reverse_onto-IsPlain [] names plain rooted = absurd rooted
reverse_onto-IsPlain (part ∷ []) names plain rooted = (names, ap (λ p. p ∷ names) rooted, plain)
reverse_onto-IsPlain (part ∷ (next ∷ out)) names plain (name, rooted) =
    reverse_onto-IsPlain (next ∷ out) (part ∷ names) (name, plain) rooted

-- Folding an absolute path leaves the root and plain names: no dot, no step up.
pub lexical_fold-IsPlain :
    (path : FilePath) → All (λ part. part ≢ "/") path → IsPlain (lexical_fold ("/" ∷ path))
unfolding lexical_fold
lexical_fold-IsPlain path below =
    reverse_onto-IsPlain (fold_from ("/" ∷ []) path) [] tt
      (fold_from-IsRooted ("/" ∷ []) path below refl)

fold_component_name :
    (out : List String) (part : String) → IsName part → fold_component out part ≡ part ∷ out
unfolding fold_component
fold_component_name out part name =
    rw (eq_false_of_ne part "." (name.1), eq_false_of_ne part ".." (name.2)) refl

fold_from_names :
    (out : List String) (names : FilePath)
    → All IsName names
    → reverse_onto (fold_from out names) [] ≡ reverse_onto out names
unfolding fold_from
fold_from_names out [] plain = refl
fold_from_names out (part ∷ names) (name, plain) =
    ap (λ o. reverse_onto (fold_from o names) []) (fold_component_name out part name)
    ∙ fold_from_names (part ∷ out) names plain

-- A folded absolute path is its own fold.
pub lexical_fold_plain : (path : FilePath) → IsPlain path → lexical_fold path ≡ path
unfolding lexical_fold
lexical_fold_plain path (names, whole, plain) = rw whole (fold_from_names ("/" ∷ []) names plain)

pub lexical_fold_idempotent :
    (path : FilePath)
    → All (λ part. part ≢ "/") path
    → lexical_fold (lexical_fold ("/" ∷ path)) ≡ lexical_fold ("/" ∷ path)
lexical_fold_idempotent path below =
    lexical_fold_plain (lexical_fold ("/" ∷ path)) (lexical_fold-IsPlain path below)
