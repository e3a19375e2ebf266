-- ===== src/Base/Texts/Split.antt =====
-- What the splits of a text give back, joined again, and where they find what was joined.
use Prim.Native.Nat.{◌≤◌}
use Prim.Native.Char.{Char, code}
use Prim.Native.String.{String, [], ◌∷◌, ◌++◌, count}
use mathlib.Core.Path.{◌≡◌, refl, ap}
use mathlib.Core.Logic.{inl, inr}
use mathlib.Core.Bool.{false}
use mathlib.Core.Option.{none, some}
use native.Mathlib.Omega.{arith}
use text.Mathlib.Text.{◌==◌}
use text.Mathlib.TextEquality.{eq_iff, Char-path}
use text.Mathlib.TextLemmas.{
  nil-append, cons-append, length-append, length-cons, length-nil, append_assoc,
}
use text.Mathlib.TextPositions.{eq_refl}
use vectorhawkd.Base.Tests.{eqb, Bool-cases, Option-cases, eq_false_of_ne}
use vectorhawkd.Base.Texts.{strip_prefix, split_once, strip_suffix, onto_first}

pub strip_prefix_sound :
    (s prefix : String) {rest : String} → strip_prefix s prefix ≡ some rest → s ≡ prefix ++ rest
unfolding strip_prefix
strip_prefix_sound s [] {rest} e = cc (nil-append rest)
strip_prefix_sound [] (p ∷ prefix) e = cc
strip_prefix_sound (c ∷ s) (p ∷ prefix) {rest} e = elim (Bool-cases (eqb (code c) (code p))) [
  | inl same ↦
      let here : c ≡ p = Char-path c p (ground arith) in
      let below : s ≡ prefix ++ rest = strip_prefix_sound s prefix (ground arith) in
      cc (cons-append p prefix rest)
  | inr other ↦ absurd (ground arith)
]

pub strip_prefix-append : (prefix rest : String) → strip_prefix (prefix ++ rest) prefix ≡ some rest
unfolding strip_prefix
strip_prefix-append [] rest = rw (nil-append rest)
strip_prefix-append (p ∷ prefix) rest =
    rw (cons-append p prefix rest) (ground (arith, strip_prefix-append prefix rest))

-- A prefix that a text long enough for it lacks is not found when the text grows.
pub strip_prefix_grown :
    (s more prefix : String)
    → count prefix ≤ count s
    → strip_prefix s prefix ≡ none
    → strip_prefix (s ++ more) prefix ≡ none
unfolding strip_prefix
strip_prefix_grown s more [] long e = cc
strip_prefix_grown [] more (p ∷ prefix) long e = absurd (omega (arith, length-cons p prefix))
strip_prefix_grown (c ∷ s) more (p ∷ prefix) long e =
    let shorter : count prefix ≤ count s = omega (arith, length-cons p prefix, length-cons c s) in
    rw (cons-append c s more) (ground (arith, strip_prefix_grown s more prefix shorter))

-- `split_once` at a text that does not begin with the separator.
split_once_later :
    (c : Char) (s sep : String)
    → strip_prefix (c ∷ s) sep ≡ none
    → split_once (c ∷ s) sep ≡ onto_first c (split_once s sep)
unfolding split_once
split_once_later c s sep e = rw (e, split_once)

-- `split_once` at a text that begins with the separator.
split_once_here :
    (s sep : String) {rest : String}
    → strip_prefix s sep ≡ some rest
    → split_once s sep ≡ some ("", rest)
unfolding split_once
split_once_here [] sep e = rw (e, split_once)
split_once_here (c ∷ s) sep e = rw (e, split_once)

split_once_none :
    (c : Char) (s sep : String)
    → split_once (c ∷ s) sep ≡ none
    → (strip_prefix (c ∷ s) sep ≡ none) × (split_once s sep ≡ none)
split_once_none c s sep e = elim (Option-cases (strip_prefix (c ∷ s) sep)) [
  | inl absent ↦ (absent, ground (arith, split_once_later c s sep absent))
  | inr (rest, found) ↦ absurd (ground (arith, split_once_here (c ∷ s) sep found))
]

-- What is found stands between the two parts.
pub split_once_sound :
    (s sep : String) {before after : String}
    → split_once s sep ≡ some (before, after)
    → s ≡ before ++ (sep ++ after)
unfolding split_once
split_once_sound [] sep {before} {after} e = elim (Option-cases (strip_prefix [] sep)) [
  | inl absent ↦ absurd (ground arith)
  | inr (rest, found) ↦
      let whole = strip_prefix_sound [] sep found in
      let both : (before ≡ "") × (after ≡ rest) = ground arith in
      cc (nil-append (sep ++ after), both.0, both.1, whole)
]
split_once_sound (c ∷ s) sep {before} {after} e = elim (Option-cases (strip_prefix (c ∷ s) sep)) [
  | inl absent ↦ elim (Option-cases (split_once s sep)) [
    | inl nowhere ↦ absurd (ground arith)
    | inr ((start, rest), found) ↦
        let whole = split_once_sound s sep found in
        let both : (before ≡ c ∷ start) × (after ≡ rest) = ground arith in
        cc (cons-append c start (sep ++ after), both.0, both.1, whole)
  ]
  | inr (rest, found) ↦
      let whole = strip_prefix_sound (c ∷ s) sep found in
      let both : (before ≡ "") × (after ≡ rest) = ground arith in
      cc (nil-append (sep ++ after), both.0, both.1, whole)
]

-- A separator is found where it was put, if it does not end earlier: its last character put
-- aside, the part before it does not contain it.
pub split_once-append :
    (before init after : String) (last : Char)
    → split_once (before ++ init) (init ++ (last ∷ [])) ≡ none
    → split_once (before ++ ((init ++ (last ∷ [])) ++ after)) (init ++ (last ∷ []))
      ≡ some (before, after)
unfolding split_once
split_once-append [] init after last e =
    let sep = init ++ (last ∷ []) in
    rw (nil-append (sep ++ after))
      (split_once_here (sep ++ after) sep (strip_prefix-append sep after))
split_once-append (c ∷ before) init after last e =
    let sep = init ++ (last ∷ []) in
    let apart : split_once (c ∷ (before ++ init)) sep ≡ none = cc (cons-append c before init) in
    let absent = split_once_none c (before ++ init) sep apart in
    let long : count sep ≤ count (c ∷ (before ++ init)) = omega (
      arith,
      length-append init (last ∷ []),
      length-cons last [],
      length-nil,
      length-cons c (before ++ init),
      length-append before init,
    ) in
    let regroup : (c ∷ (before ++ init)) ++ ((last ∷ []) ++ after)
        ≡ c ∷ (before ++ (sep ++ after)) =
      simp (cons-append, append_assoc) in
    let still : strip_prefix (c ∷ (before ++ (sep ++ after))) sep ≡ none =
      cc (strip_prefix_grown (c ∷ (before ++ init)) ((last ∷ []) ++ after) sep long (absent.0)) in
    let later = split_once-append before init after last (absent.1) in
    let first = split_once_later c (before ++ (sep ++ after)) sep still in
    cc (cons-append c before (sep ++ after))

pub strip_suffix_sound :
    (s suffix : String) {before : String}
    → strip_suffix s suffix ≡ some before
    → s ≡ before ++ suffix
unfolding strip_suffix
strip_suffix_sound [] suffix {before} e =
    let both : ("" ≡ suffix) × (before ≡ "") = ground (arith, eq_iff "" suffix) in
    cc (nil-append suffix, both.0, both.1)
strip_suffix_sound (c ∷ s) suffix {before} e = elim (Bool-cases ((c ∷ s) == suffix)) [
  | inl same ↦
      let whole = (eq_iff (c ∷ s) suffix).0 same in
      let nothing : before ≡ "" = ground arith in cc (nil-append suffix)
  | inr other ↦ elim (Option-cases (strip_suffix s suffix)) [
    | inl nowhere ↦ absurd (ground arith)
    | inr (start, found) ↦
        let whole = strip_suffix_sound s suffix found in
        let grown : before ≡ c ∷ start = ground arith in cc (cons-append c start suffix)
  ]
]

strip_suffix_self : (s : String) → strip_suffix s s ≡ some ""
unfolding strip_suffix
strip_suffix_self [] = refl
strip_suffix_self (c ∷ s) = rw (eq_refl (c ∷ s), strip_suffix)

pub strip_suffix-append :
    (before suffix : String) → strip_suffix (before ++ suffix) suffix ≡ some before
unfolding strip_suffix
strip_suffix-append [] suffix = rw (nil-append suffix) (strip_suffix_self suffix)
strip_suffix-append (c ∷ before) suffix =
    let longer : ((c ∷ (before ++ suffix)) == suffix) ≡ false =
      eq_false_of_ne (c ∷ (before ++ suffix)) suffix (λ same.
        omega
          (arith, ap count same, length-cons c (before ++ suffix), length-append before suffix)) in
    rw (cons-append c before suffix)
      (rw (longer, strip_suffix) (rw (strip_suffix-append before suffix) refl))
