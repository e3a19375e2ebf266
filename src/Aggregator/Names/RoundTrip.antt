-- ===== src/Aggregator/Names/RoundTrip.antt =====
-- `parse_tool_name` against `namespace_tool`.
use Prim.Native.Char.{Char}
use Prim.Native.String
use Prim.Native.String.{[], ◌∷◌}
use text.Mathlib.TextLemmas.{nil-append, cons-append}
use text.Mathlib.TextEquality.{Char-path}
use mathlib.Core.Option
use mathlib.Core.Path.{subst}
use vectorhawkd.Base.{
  String, ◌≡◌, ◌≢◌, refl, ap, ◌∙◌, none, some, arith, eq_iff, Bool-cases, inl, inr, false, true,
  ◌&&◌, Option-cases, sym,
}
use vectorhawkd.Aggregator.Names.{
  namespace_tool, parse_tool_name, split_separator, is_underscore, push_front,
}

-- The first separator of `id` and "__" stands at the end of `id`.
abbrev pub IsSeparable : String → Type 0
IsSeparable id = split_separator (String.◌++◌ id "_") ≡ none

abbrev underscore : Char
underscore = "_"

separator-append : (s : String) → String.◌++◌ "__" s ≡ underscore ∷ (underscore ∷ s)
separator-append s =
    cons-append underscore (underscore ∷ []) s
    ∙ ap (λ r. underscore ∷ r)
        (cons-append underscore [] s ∙ ap (λ r. underscore ∷ r) (nil-append s))

-- With the separator written out as two characters.
abbrev joined : String → String → String
joined id tool = String.◌++◌ id (underscore ∷ (underscore ∷ tool))

IsSeparable-cons :
    (c d : Char) (s : String)
    → IsSeparable (c ∷ (d ∷ s))
    → ((is_underscore c && is_underscore d) ≡ false) × IsSeparable (d ∷ s)
unfolding split_separator
IsSeparable-cons c d s h =
    let k : split_separator (c ∷ (d ∷ String.◌++◌ s "_")) ≡ none =
      rw cons-append at (rw cons-append at h) in
    (ground (arith, k), rw cons-append (ground (arith, k)))

split_separator-joined :
    (id tool : String) → IsSeparable id → split_separator (joined id tool) ≡ some (id, tool)
unfolding split_separator
split_separator-joined [] tool h = rw nil-append refl
split_separator-joined (c ∷ []) tool h =
    let k : split_separator (c ∷ "_") ≡ none =
      subst (λ r. split_separator (c ∷ r) ≡ none) (nil-append "_") (rw cons-append at h) in
    rw cons-append (rw nil-append (ground (arith, k)))
split_separator-joined (c ∷ (d ∷ s)) tool h =
    let (apart, rest) = IsSeparable-cons c d s h in
    let ih = split_separator-joined (d ∷ s) tool rest in
    rw cons-append (rw cons-append (ground (arith, apart, rw cons-append at ih)))

namespace_tool-eq-joined : (id tool : String) → namespace_tool id tool ≡ joined id tool
unfolding namespace_tool
namespace_tool-eq-joined id tool = ap (λ r. String.◌++◌ id r) (separator-append tool)

-- A proxied tool's name parses back to its server and tool, if neither part is empty and the
-- server's id followed by one underscore holds no separator.
pub parse_tool_name-namespace_tool :
    (id tool : String)
    → IsSeparable id
    → id ≢ ""
    → tool ≢ ""
    → parse_tool_name (namespace_tool id tool) ≡ some (id, tool)
unfolding parse_tool_name
parse_tool_name-namespace_tool id tool h p q = rw namespace_tool-eq-joined (
    rw (split_separator-joined id tool h, parse_tool_name)
      (ground (arith, eq_iff id "", eq_iff tool "")))

split_separator_sound_later :
    (c : Char) (a b s : String)
    → Option.map (push_front c) (split_separator s) ≡ some (a, b)
    → ((a' b' : String) → split_separator s ≡ some (a', b') → s ≡ joined a' b')
    → c ∷ s ≡ joined a b
split_separator_sound_later c a b s h sound = elim (Option-cases (split_separator s)) [
  | inl e ↦ absurd (ground (arith, e))
  | inr (found, e) ↦
      let p : a ≡ c ∷ found.0 = ground (arith, e) in
      let q : b ≡ found.1 = ground (arith, e) in
      rw (p, q) (rw cons-append (ap (λ r. c ∷ r) (sound found.0 found.1 (ground (arith, e)))))
]

underscore-eq : (c : Char) → is_underscore c ≡ true → c ≡ underscore
underscore-eq c h = Char-path c underscore (ground arith)

split_separator_sound : (s a b : String) → split_separator s ≡ some (a, b) → s ≡ joined a b
unfolding split_separator
split_separator_sound [] a b h = cc
split_separator_sound (c ∷ []) a b h = cc
split_separator_sound (c ∷ (d ∷ s)) a b h = elim (Bool-cases (is_underscore c && is_underscore d)) [
  | inl hit ↦
      let p : a ≡ "" = ground (arith, hit) in
      let q : b ≡ s = ground (arith, hit) in
      let u : c ≡ underscore = underscore-eq c (ground (arith, hit)) in
      let v : d ≡ underscore = underscore-eq d (ground (arith, hit)) in
      rw (p, q, u, v) (sym (nil-append _))
  | inr miss ↦
      split_separator_sound_later c a b (d ∷ s) (ground (arith, miss))
        (λ a' b'. split_separator_sound (d ∷ s) a' b')
]

-- Two proxied tools with one name are one tool of one server.
pub namespace_tool-injective :
    (id id' tool tool' : String)
    → IsSeparable id
    → IsSeparable id'
    → namespace_tool id tool ≡ namespace_tool id' tool'
    → (id ≡ id') × (tool ≡ tool')
namespace_tool-injective id id' tool tool' h h' e =
    let p = split_separator-joined id tool h in
    let q = split_separator-joined id' tool' h' in
    let r : joined id tool ≡ joined id' tool' =
      sym (namespace_tool-eq-joined id tool) ∙ e ∙ namespace_tool-eq-joined id' tool' in
    let t : some (id, tool) ≡ some (id', tool') = sym p ∙ ap split_separator r ∙ q in
    ground (arith, t)

-- A name that parses is the namespaced name of the two parts, and neither part is empty.
pub parse_tool_name_sound :
    (s id tool : String)
    → parse_tool_name s ≡ some (id, tool)
    → (s ≡ namespace_tool id tool) × (id ≢ "") × (tool ≢ "")
unfolding parse_tool_name
parse_tool_name_sound s id tool h = elim (Option-cases (split_separator s)) [
  | inl e ↦ absurd (ground (arith, e))
  | inr (found, e) ↦
      let p : found.0 ≡ id = ground (arith, e) in
      let q : found.1 ≡ tool = ground (arith, e) in
      let whole = split_separator_sound s found.0 found.1 (ground (arith, e)) in
      (
        rw (namespace_tool-eq-joined, ← p, ← q) whole,
        λ empty. ground (arith, e, eq_iff id ""),
        λ empty. ground (arith, e, eq_iff tool ""),
      )
]
