-- ===== src/Manifest/SkillId.antt =====
-- crates/scenery-manifest/src/lib.rs, to_skill_id: the id derived from a skill's name.
use Prim.Native.Char.{Char, code}
use Prim.Native.String.{◌++◌}
use text.Mathlib.TextLemmas.{nil-append, cons-append}
use vectorhawkd.Base.{
  ◌≡◌, ◌≢◌, inl, inr, refl, ap, ◌∙◌, String, Bool, true, false, not, ◌&&◌, ◌||◌, List, [], ◌∷◌,
  ◌==◌, arith, eqb, keep, All, if◌then◌else◌, Bool-cases, eq_iff, eq_false_of_ne,
}
use vectorhawkd.Base.Texts.{map_chars, push_char, split_at_code, join_with, all_chars}

abbrev pub is_dash : Char → Bool
is_dash c = eqb (code c) b'-'

abbrev pub is_present : String → Bool
is_present s = not (s == "")

-- Rust's `char::is_alphanumeric` and `str::to_lowercase`.
module _ (is_alphanumeric : Char → Bool) where
  abbrev pub to_id_char : Char → Char
  to_id_char c = if is_alphanumeric c || is_dash c then c else "-"

  module _ (to_lowercase : String → String) where
    unfoldable pub to_skill_id : String → String
    unfolding split_at_code join_with
    to_skill_id name =
        join_with "-"
          (keep is_present (split_at_code is_dash (map_chars to_id_char (to_lowercase name))))

  map_chars-append :
      (f : Char → Char) (s t : String) → map_chars f (s ++ t) ≡ map_chars f s ++ map_chars f t
  map_chars-append f String.[] t = rw (nil-append t, nil-append (map_chars f t)) refl
  map_chars-append f (String.◌∷◌ c s) t =
      rw (cons-append c s t)
        (rw (cons-append (f c) (map_chars f s) (map_chars f t)) (rw (map_chars-append f s t) refl))

  -- A part of an id: not empty, of letters and digits.
  abbrev pub is_clean : Char → Bool
  is_clean c = is_alphanumeric c && not (is_dash c)

  abbrev pub IsSegment : String → Type 0
  IsSegment s = (s ≢ "") × (all_chars is_clean s ≡ true)

  kept_clean : (c : Char) → is_dash (to_id_char c) ≡ false → is_clean (to_id_char c) ≡ true
  kept_clean c h = elim (Bool-cases (is_alphanumeric c)) [
    | inl known ↦ ground arith
    | inr other ↦ elim (Bool-cases (is_dash c)) [
      | inl dash ↦ absurd (ground arith)
      | inr neither ↦
          let replaced : to_id_char c ≡ "-" = rw (other, neither) refl in
          absurd (cc (ap is_dash replaced))
    ]
  ]

  push_clean :
      (c : Char) (parts : List String)
      → is_clean c ≡ true
      → All (λ part. all_chars is_clean part ≡ true) parts
      → All (λ part. all_chars is_clean part ≡ true) (push_char c parts)
  push_clean c [] h k = (ground (arith, h), tt)
  push_clean c (part ∷ parts) h k = (ground (arith, h, k.0), k.1)

  clean_parts :
      (s : String)
      → All
          (λ part. all_chars is_clean part ≡ true)
          (split_at_code is_dash (map_chars to_id_char s))
  unfolding split_at_code
  clean_parts String.[] = (refl, tt)
  clean_parts (String.◌∷◌ c s) = elim (Bool-cases (is_dash (to_id_char c))) [
    | inl dash ↦ rw dash (refl, clean_parts s)
    | inr other ↦ rw other (
        push_clean (to_id_char c) (split_at_code is_dash (map_chars to_id_char s))
          (kept_clean c other) (clean_parts s))
  ]

  All-present :
      (parts : List String)
      → All (λ part. all_chars is_clean part ≡ true) parts
      → All IsSegment (keep is_present parts)
  All-present [] h = tt
  All-present (p ∷ parts) h = elim (Bool-cases (p == "")) [
    | inl blank ↦ rw blank (All-present parts (h.1))
    | inr present ↦ rw present ((λ e. cc ((eq_iff p "").1 e), h.0), All-present parts (h.1))
  ]

  split_clean : (s : String) → all_chars is_clean s ≡ true → split_at_code is_dash s ≡ s ∷ []
  unfolding split_at_code
  split_clean String.[] h = refl
  split_clean (String.◌∷◌ c s) h = ground (arith, split_clean s)

  split_step :
      (s rest : String)
      → all_chars is_clean s ≡ true
      → split_at_code is_dash (s ++ ("-" ++ rest)) ≡ s ∷ split_at_code is_dash rest
  unfolding split_at_code
  split_step String.[] rest h =
      rw (nil-append ("-" ++ rest)) (rw (cons-append "-" "" rest) (rw (nil-append rest) refl))
  split_step (String.◌∷◌ c s) rest h =
      rw (cons-append c s ("-" ++ rest)) (ground (arith, split_step s rest))

  -- The parts of a joined text.
  split-join :
      (part : String) (parts : List String)
      → All IsSegment (part ∷ parts)
      → split_at_code is_dash (join_with "-" (part ∷ parts)) ≡ part ∷ parts
  unfolding join_with
  split-join part [] h = split_clean part (h.0.1)
  split-join part (next ∷ parts) h =
      split_step part (join_with "-" (next ∷ parts)) (h.0.1)
      ∙ ap (λ rest. part ∷ rest) (split-join next parts (h.1))

  keep-All : (parts : List String) → All IsSegment parts → keep is_present parts ≡ parts
  keep-All [] h = refl
  keep-All (part ∷ parts) h =
      let present = eq_false_of_ne part "" (h.0.0) in
      rw present (ap (λ rest. part ∷ rest) (keep-All parts (h.1)))

  kept_dash : to_id_char "-" ≡ "-"
  kept_dash = ground arith

  map_clean : (s : String) → all_chars is_clean s ≡ true → map_chars to_id_char s ≡ s
  map_clean String.[] h = refl
  map_clean (String.◌∷◌ c s) h =
      let head : is_clean c ≡ true = ground arith in
      let kept : to_id_char c ≡ c = ground arith in
      let rest : map_chars to_id_char s ≡ s = map_clean s (ground arith) in cc

  map-join :
      (parts : List String)
      → All IsSegment parts
      → map_chars to_id_char (join_with "-" parts) ≡ join_with "-" parts
  unfolding join_with
  map-join [] h = refl
  map-join (part ∷ []) h = map_clean part (h.0.1)
  map-join (part ∷ (next ∷ parts)) h =
      let rest = join_with "-" (next ∷ parts) in
      let kept = map_clean part (h.0.1) in
      let below : map_chars to_id_char rest ≡ rest = map-join (next ∷ parts) (h.1) in
      rw (map_chars-append to_id_char part ("-" ++ rest)) (
        rw (map_chars-append to_id_char "-" rest)
          (rw (kept, below) (ap (λ d. part ++ (d ++ rest)) (ap (λ c. String.◌∷◌ c "") kept_dash))))

  -- An id is a sequence of parts, none empty and each of letters and digits, joined by dashes.
  abbrev pub IsKebab : String → Type 0
  IsKebab id = (parts : List String) × (id ≡ join_with "-" parts) × All IsSegment parts

  module _ (to_lowercase : String → String) where
    -- The id derived from any name is empty or a sequence of words of letters and digits joined
    -- by single dashes.
    pub to_skill_id-IsKebab : (name : String) → IsKebab (to_skill_id to_lowercase name)
    unfolding to_skill_id
    to_skill_id-IsKebab name =
        let parts = split_at_code is_dash (map_chars to_id_char (to_lowercase name)) in
        (keep is_present parts, refl, All-present parts (clean_parts (to_lowercase name)))

    to_skill_id_of_join :
        (id : String) (parts : List String)
        → to_lowercase id ≡ id
        → id ≡ join_with "-" parts
        → All IsSegment parts
        → to_skill_id to_lowercase id ≡ id
    unfolding to_skill_id
    to_skill_id_of_join id [] low made segments = rw low (rw made refl)
    to_skill_id_of_join id (part ∷ parts) low made segments = rw low (
        rw made (
          rw (map-join (part ∷ parts) segments, split-join part parts segments)
            (rw (keep-All (part ∷ parts) segments) refl)))

    -- Deriving an id from an id changes nothing, if the id is its own lowercase form.
    pub to_skill_id_idempotent :
        (name : String)
        → to_lowercase (to_skill_id to_lowercase name) ≡ to_skill_id to_lowercase name
        → to_skill_id to_lowercase (to_skill_id to_lowercase name) ≡ to_skill_id to_lowercase name
    to_skill_id_idempotent name low =
        let (parts, made, segments) = to_skill_id-IsKebab name in
        to_skill_id_of_join (to_skill_id to_lowercase name) parts low made segments
