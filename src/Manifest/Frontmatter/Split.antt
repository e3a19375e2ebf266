-- ===== src/Manifest/Frontmatter/Split.antt =====
-- The parts that `split_frontmatter` cuts a file into.
use Prim.Native.String.{◌++◌}
use vectorhawkd.Base.{◌≡◌, ◌∙◌, ◌⊎◌, inl, inr, String, none, some, arith, Option-cases}
use vectorhawkd.Base.Texts.{strip_prefix, split_once, strip_suffix}
use vectorhawkd.Base.Texts.Split.{
  strip_prefix_sound, strip_prefix-append, split_once_sound, split_once-append, strip_suffix_sound,
  strip_suffix-append,
}
use vectorhawkd.Manifest.Frontmatter.{split_after_open, split_frontmatter}

-- A file of a block between fences and a body.
abbrev pub with_body : String → String → String
with_body yaml body = "---\n" ++ (yaml ++ ("\n---\n" ++ body))

-- A file that ends with the closing fence.
abbrev pub without_body : String → String
without_body yaml = "---\n" ++ (yaml ++ "\n---")

abbrev pub IsSplit : String → String → String → Type 0
IsSplit content yaml body =
    (content ≡ with_body yaml body) ⊎ ((content ≡ without_body yaml) × (body ≡ ""))

split_after_open_sound :
    (content after_open yaml body : String)
    → content ≡ "---\n" ++ after_open
    → split_after_open after_open ≡ some (yaml, body)
    → IsSplit content yaml body
split_after_open_sound content after_open yaml body whole e =
    elim (Option-cases (split_once after_open "\n---\n")) [
      | inr ((before, after), found) ↦
          let both : (before ≡ yaml) × (after ≡ body) = ground (arith, found) in
          let rest = split_once_sound after_open "\n---\n" found in inl (cc)
      | inl absent ↦ elim (Option-cases (strip_suffix after_open "\n---")) [
        | inl open_ended ↦ absurd (ground (arith, absent, open_ended))
        | inr (before, found) ↦
            let both : (before ≡ yaml) × (body ≡ "") = ground (arith, absent, found) in
            let rest = strip_suffix_sound after_open "\n---" found in inr (cc, both.1)
      ]
    ]

-- What is cut out of a file makes up the whole file: the block and the body with the two fences
-- round the block, or the block alone between the fences, with an empty body.
pub split_frontmatter_sound :
    (content : String) {yaml body : String}
    → split_frontmatter content ≡ some (yaml, body)
    → IsSplit content yaml body
unfolding split_frontmatter
split_frontmatter_sound content {yaml} {body} e =
    elim (Option-cases (strip_prefix content "---\n")) [
      | inl absent ↦ absurd (ground (arith, absent))
      | inr (after_open, found) ↦
          split_after_open_sound content after_open yaml body
            (strip_prefix_sound content "---\n" found) (rw (found, split_frontmatter) at e)
    ]

split_frontmatter_open :
    (after_open : String) → split_frontmatter ("---\n" ++ after_open) ≡ split_after_open after_open
unfolding split_frontmatter
split_frontmatter_open after_open = rw (strip_prefix-append "---\n" after_open, split_frontmatter)

split_after_open_found :
    (after_open : String) {parts : String × String}
    → split_once after_open "\n---\n" ≡ some parts
    → split_after_open after_open ≡ some parts
split_after_open_found after_open found = rw (found, split_after_open)

split_after_open_suffix :
    (after_open : String) {yaml : String}
    → split_once after_open "\n---\n" ≡ none
    → strip_suffix after_open "\n---" ≡ some yaml
    → split_after_open after_open ≡ some (yaml, "")
split_after_open_suffix after_open absent found = rw (absent, found, split_after_open)

-- A file put together from a block and a body is cut into the same two, if no closing fence
-- stands in the block.
pub split_frontmatter-with_body :
    (yaml body : String)
    → split_once (yaml ++ "\n---") "\n---\n" ≡ none
    → split_frontmatter (with_body yaml body) ≡ some (yaml, body)
split_frontmatter-with_body yaml body clear =
    split_frontmatter_open (yaml ++ ("\n---\n" ++ body))
    ∙ split_after_open_found (yaml ++ ("\n---\n" ++ body))
        (split_once-append yaml "\n---" body "\n" clear)

-- The same for a file that ends right after the closing fence.
pub split_frontmatter-without_body :
    (yaml : String)
    → split_once (yaml ++ "\n---") "\n---\n" ≡ none
    → split_frontmatter (without_body yaml) ≡ some (yaml, "")
split_frontmatter-without_body yaml clear =
    split_frontmatter_open (yaml ++ "\n---")
    ∙ split_after_open_suffix (yaml ++ "\n---") clear (strip_suffix-append yaml "\n---")
