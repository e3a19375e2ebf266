-- ===== src/Manifest/Frontmatter/Triggers.antt =====
-- What the normalised triggers of a skill are.
use Prim.Native.Char.{Char}
use Prim.Native.String.{len}
use vectorhawkd.Base.{
  ◌≤◌, ◌≡◌, refl, inl, inr, String, Bool, true, false, not, ◌&&◌, List, [], ◌∷◌, map, ◌==◌, length,
  contains, keep, arith, All, ltb, Bool-cases, eq_iff, eq_refl, ok, err, ◌>>=◌, >>=-HasValue, ◌∙◌,
  if◌then◌else◌,
}
use vectorhawkd.Manifest.{Problem, ManifestError}
use vectorhawkd.Manifest.Frontmatter.{
  is_blank, retain_unseen, check_lengths, normalize_triggers, validate_and_normalize_triggers,
}

abbrev pub IsDistinct : List String → Type 0
IsDistinct [] = Unit
IsDistinct (s ∷ rest) = (contains rest s ≡ false) × IsDistinct rest

contains-retain_unseen :
    (seen xs : List String) (t : String)
    → contains (retain_unseen seen xs) t ≡ (contains xs t && not (contains seen t))
unfolding retain_unseen
contains-retain_unseen seen [] t = refl
contains-retain_unseen seen (s ∷ rest) t = elim (Bool-cases (contains seen s)) [
  | inl before ↦ rw before (elim (Bool-cases (s == t)) [
    | inl same ↦
        let here : contains seen t ≡ true = cc ((eq_iff s t).0 same) in
        ground (arith, contains-retain_unseen seen rest t, here)
    | inr other ↦ ground (arith, contains-retain_unseen seen rest t)
  ])
  | inr new ↦ rw new (elim (Bool-cases (s == t)) [
    | inl same ↦
        let here : contains seen t ≡ false = cc ((eq_iff s t).0 same) in ground (arith, here)
    | inr other ↦ ground (arith, contains-retain_unseen (s ∷ seen) rest t)
  ])
]

retain_unseen-IsDistinct : (seen xs : List String) → IsDistinct (retain_unseen seen xs)
unfolding retain_unseen
retain_unseen-IsDistinct seen [] = tt
retain_unseen-IsDistinct seen (s ∷ rest) = elim (Bool-cases (contains seen s)) [
  | inl before ↦ rw before (retain_unseen-IsDistinct seen rest)
  | inr new ↦ rw new (
    rw (contains-retain_unseen (s ∷ seen) rest s, eq_refl s) (ground arith),
    retain_unseen-IsDistinct (s ∷ seen) rest,
  )
]

abbrev pub HasGoodLength : String → Type 0
HasGoodLength s = (3 ≤ len s) × (len s ≤ 200)

check_lengths_sound : (xs : List String) → check_lengths xs ≡ ok tt → All HasGoodLength xs
unfolding check_lengths
check_lengths_sound [] h = tt
check_lengths_sound (s ∷ rest) h = ground (arith, check_lengths_sound rest)

accepted :
    (normalized triggers : List String)
    → (if ltb 10 (length normalized)
        then err (ManifestError.invalid (Problem.too_many_triggers (length normalized)))
        else check_lengths normalized >>= λ _. ok normalized)
      ≡ ok triggers
    → (length normalized ≤ 10) × (check_lengths normalized ≡ ok tt) × (normalized ≡ triggers)
accepted normalized triggers done = elim (Bool-cases (ltb 10 (length normalized))) [
  | inl many ↦ absurd (ground (arith, many))
  | inr few ↦
      let (u, checked, same) =
        >>=-HasValue (check_lengths normalized) (λ _. ok normalized) (rw few at done) in
      (ground (arith, few), checked, cc)
]

and_true : (b : Bool) → (b && not false) ≡ b
and_true b = ground arith

module _ (is_white : Char → Bool) (to_lowercase : String → String) where
  -- The triggers of a skill: at most ten, none twice, each of 3 to 200 bytes, and exactly the
  -- lowercase forms of those given that are not blank.
  abbrev pub IsTriggers : List String → List String → Type 0
  IsTriggers raw triggers =
      (length triggers ≤ 10)
      × IsDistinct triggers
      × All HasGoodLength triggers
      × ((t : String)
          → contains triggers t
            ≡ contains (map to_lowercase (keep (λ s. not (is_blank is_white s)) raw)) t)

  abbrev lowered : List String → List String
  lowered raw = map to_lowercase (keep (λ s. not (is_blank is_white s)) raw)

  -- Triggers that are accepted are at most ten, distinct, of 3 to 200 bytes each, and exactly
  -- the lowercase forms of the given ones that are not blank.
  pub validate_and_normalize_triggers-IsTriggers :
      (raw : List String) {triggers : List String}
      → validate_and_normalize_triggers is_white to_lowercase raw ≡ ok triggers
      → IsTriggers raw triggers
  unfolding validate_and_normalize_triggers normalize_triggers retain_unseen
  validate_and_normalize_triggers-IsTriggers raw {triggers} done =
      let normalized = normalize_triggers is_white to_lowercase raw in
      let (few, checked, same) = accepted normalized triggers done in
      rw (← same) (
        few,
        retain_unseen-IsDistinct [] (lowered raw),
        check_lengths_sound normalized checked,
        λ t. contains-retain_unseen [] (lowered raw) t ∙ and_true (contains (lowered raw) t),
      )
