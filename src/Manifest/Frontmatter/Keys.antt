-- ===== src/Manifest/Frontmatter/Keys.antt =====
-- Which keys a frontmatter may have.
use vectorhawkd.Base.{
  ◌≡◌, ◌↔◌, refl, inl, inr, String, true, false, List, [], ◌∷◌, contains, All, Bool-cases, Result,
  ok, >>=-HasValue,
}
use vectorhawkd.Manifest.{Yaml, Entries}
use vectorhawkd.Manifest.Frontmatter.{
  allowed_vh_keys, is_old_key, text_keys, scenery_keys, reject_top_level, reject_unknown,
  reject_unknown_vh_keys,
}

abbrev pub IsCurrent : String → Type 0
IsCurrent key = is_old_key key ≡ false

abbrev pub IsAllowed : String → Type 0
IsAllowed key = contains allowed_vh_keys key ≡ true

reject_top_level_iff : (keys : List String) → (reject_top_level keys ≡ ok tt) ↔ All IsCurrent keys
unfolding reject_top_level
reject_top_level_iff [] = (λ h. tt, λ h. refl)
reject_top_level_iff (key ∷ keys) = elim (Bool-cases (is_old_key key)) [
  | inl old ↦ (λ h. cc, λ h. cc)
  | inr current ↦
      rw current
        (λ h. (refl, (reject_top_level_iff keys).0 h), λ h. (reject_top_level_iff keys).1 (h.1))
]

reject_unknown_iff : (keys : List String) → (reject_unknown keys ≡ ok tt) ↔ All IsAllowed keys
unfolding reject_unknown
reject_unknown_iff [] = (λ h. tt, λ h. refl)
reject_unknown_iff (key ∷ keys) = elim (Bool-cases (contains allowed_vh_keys key)) [
  | inl known ↦
      rw known (λ h. (refl, (reject_unknown_iff keys).0 h), λ h. (reject_unknown_iff keys).1 (h.1))
  | inr unknown ↦ rw unknown (λ h. cc, λ h. cc (h.0))
]

-- A frontmatter that is a mapping passes exactly if no key of its top level that is a text begins
-- with `vh_` and each key below `metadata.scenery` that is a text is one of those allowed. Keys
-- that are no texts, such as numbers, pass unchecked.
pub reject_unknown_vh_keys_iff :
    (parse_yaml : String → Result String Yaml) (yaml_str : String) (top : Entries)
    → parse_yaml yaml_str ≡ ok (Yaml.mapping top)
    → (reject_unknown_vh_keys parse_yaml yaml_str ≡ ok tt)
      ↔ (All IsCurrent (text_keys top) × All IsAllowed (scenery_keys top))
unfolding reject_unknown_vh_keys
reject_unknown_vh_keys_iff parse_yaml yaml_str top parsed =
    let old = reject_top_level_iff (text_keys top) in
    let unknown = reject_unknown_iff (scenery_keys top) in
    rw (parsed, reject_unknown_vh_keys)
      (
        λ h.
            let (u, first, rest) =
              >>=-HasValue (reject_top_level (text_keys top))
                (λ _. reject_unknown (scenery_keys top)) h in
            (old.0 first, unknown.0 rest),
        λ h. rw (old.1 (h.0), unknown.1 (h.1)) refl,
      )
