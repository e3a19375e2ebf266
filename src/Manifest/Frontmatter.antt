-- ===== src/Manifest/Frontmatter.antt =====
-- crates/scenery-manifest/src/skill_md.rs: the frontmatter of a SKILL.md, how it is cut out of
-- the file and what is checked of it. The YAML parser, `char::is_whitespace` and
-- `str::to_lowercase` are parameters.
pub mod Split
pub mod Keys
pub mod Triggers
use Prim.Native.Char.{Char}
use Prim.Native.String.{len}
use text.Mathlib.Text.{starts_with}
use vectorhawkd.Base.{
  ℕ, String, Bool, true, false, not, ◌&&◌, ◌||◌, Option, none, some, List, [], ◌∷◌, map, ◌==◌,
  length, contains, keep, ltb, if◌then◌else◌, Result, ok, err, ◌>>=◌,
}
use vectorhawkd.Base.Json.{Json}
use vectorhawkd.Base.Texts.{trim, strip_prefix, split_once, strip_suffix}
use vectorhawkd.Sampling.{ModelFallback}
use vectorhawkd.Manifest.{
  Yaml, Entries, empty, entry, Problem, ManifestError, ClipboardAccess, FilesystemAccess,
  SandboxProfile, WorkflowStep,
}

pub record VhPermissions : Type 0 where
  pub network : Option String
  pub filesystem : Option FilesystemAccess
  pub clipboard : Option ClipboardAccess

pub record VhExecution : Type 0 where
  pub timeout_ms : Option ℕ
  pub memory_mb : Option ℕ
  pub sandbox : Option SandboxProfile

pub record VhModel : Type 0 where
  pub min_params_b : Option String
  pub recommended : List String
  pub fallback : Option ModelFallback
  pub prefer_local : Option Bool

pub record VhSchemas : Type 0 where
  pub inputs : Option Json
  pub outputs : Option Json

pub record VhExtensions : Type 0 where
  pub version : Option String
  pub publisher : Option String
  pub permissions : Option VhPermissions
  pub execution : Option VhExecution
  pub model : Option VhModel
  pub schemas : Option VhSchemas
  pub workflow : Option (List WorkflowStep)
  pub workflow_ref : Option String
  pub triggers : List String
  pub skill_type : Option String
  pub declared_tools : List String

pub record SkillMdMetadata : Type 0 where
  pub scenery : Option VhExtensions

pub record SkillMdFrontmatter : Type 0 where
  pub name : String
  pub description : String
  pub license : Option String
  pub metadata : Option SkillMdMetadata

abbrev scenery_of : Option SkillMdMetadata → Option VhExtensions
scenery_of none = none
scenery_of (some metadata) = metadata.scenery

abbrev pub vh : SkillMdFrontmatter → Option VhExtensions
vh fm = scenery_of (fm.metadata)

-- A file that ends right after the closing fence has no body.
abbrev without_body : Option String → Option (String × String)
without_body none = none
without_body (some yaml) = some (yaml, "")

abbrev pub split_after_open : String → Option (String × String)
split_after_open after_open = elim (split_once after_open "\n---\n") [
  | some parts ↦ some parts
  | none ↦ without_body (strip_suffix after_open "\n---")
]

unfoldable pub split_frontmatter : String → Option (String × String)
split_frontmatter content = elim (strip_prefix content "---\n") [
  | none ↦ none
  | some after_open ↦ split_after_open after_open
]

abbrev pub allowed_vh_keys : List String
allowed_vh_keys =
    "version"
    ∷ ("publisher"
        ∷ ("permissions"
            ∷ ("execution"
                ∷ ("model"
                    ∷ ("schemas"
                        ∷ ("workflow"
                            ∷ ("workflow_ref"
                                ∷ ("triggers" ∷ ("type" ∷ ("declared_tools" ∷ []))))))))))

-- `mapping.get(Value::String(key))`
abbrev pub value_of : String → Entries → Option Yaml
value_of key empty = none
value_of key (entry (Yaml.string k) v rest) = if k == key then some v else value_of key rest
value_of key (entry _ v rest) = value_of key rest

-- The keys that are texts; the loops pass over any other.
abbrev pub text_keys : Entries → List String
text_keys empty = []
text_keys (entry (Yaml.string k) v rest) = k ∷ text_keys rest
text_keys (entry _ v rest) = text_keys rest

abbrev pub is_old_key : String → Bool
is_old_key key = starts_with key "vh_"

-- Loop (a), over the keys of the top level.
unfoldable pub reject_top_level : List String → Result ManifestError (Unit {0})
reject_top_level [] = ok tt
reject_top_level (key ∷ rest) =
    if is_old_key key
    then err (ManifestError.invalid (Problem.top_level_vh key))
    else reject_top_level rest

-- Loop (b), over the keys of `metadata.scenery`.
unfoldable pub reject_unknown : List String → Result ManifestError (Unit {0})
reject_unknown [] = ok tt
reject_unknown (key ∷ rest) =
    if not (contains allowed_vh_keys key)
    then err (ManifestError.invalid (Problem.unknown_vh_field key))
    else reject_unknown rest

abbrev inner_value : String → Option Yaml → Option Yaml
inner_value key (some (Yaml.mapping inner)) = value_of key inner
inner_value key _ = none

abbrev keys_of : Option Yaml → List String
keys_of (some (Yaml.mapping fields)) = text_keys fields
keys_of _ = []

-- The text keys below `metadata.scenery`, none if that is no mapping.
abbrev pub scenery_keys : Entries → List String
scenery_keys top = keys_of (inner_value "scenery" (value_of "metadata" top))

abbrev pub reject_in : Yaml → Result ManifestError (Unit {0})
reject_in (Yaml.mapping top) =
    reject_top_level (text_keys top) >>= λ _. reject_unknown (scenery_keys top)
reject_in _ = ok tt

abbrev pub or_yaml_error : {A : Type 0} → Result String A → Result ManifestError A
or_yaml_error (ok a) = ok a
or_yaml_error (err e) = err (ManifestError.invalid (Problem.yaml_error e))

unfoldable pub reject_unknown_vh_keys :
    (parse_yaml : String → Result String Yaml) → String → Result ManifestError (Unit {0})
unfolding reject_top_level reject_unknown
reject_unknown_vh_keys parse_yaml yaml_str = or_yaml_error (parse_yaml yaml_str) >>= reject_in

abbrev is_some : {A : Type 0} → Option A → Bool
is_some none = false
is_some (some a) = true

abbrev both_workflows : Option VhExtensions → Bool
both_workflows none = false
both_workflows (some v) = is_some (v.workflow) && is_some (v.workflow_ref)

module _ (is_white : Char → Bool) where
  abbrev pub is_blank : String → Bool
  is_blank s = trim is_white s == ""

  unfoldable pub validate_frontmatter_basics : SkillMdFrontmatter → Result ManifestError (Unit {0})
  validate_frontmatter_basics fm =
      if is_blank (fm.name)
      then err (ManifestError.invalid Problem.empty_name)
      else if is_blank (fm.description)
      then err (ManifestError.invalid Problem.empty_description)
      else if both_workflows (vh fm)
      then err (ManifestError.invalid Problem.workflow_conflict)
      else ok tt

-- `retain(|s| seen.insert(s.clone()))`: a text seen before is dropped.
unfoldable pub retain_unseen : (seen : List String) → List String → List String
retain_unseen seen [] = []
retain_unseen seen (s ∷ rest) =
    let kept = s ∷ retain_unseen (s ∷ seen) rest in
    let dropped = retain_unseen seen rest in if contains seen s then dropped else kept

-- The loop of step 5. `len()` counts bytes.
unfoldable pub check_lengths : List String → Result ManifestError (Unit {0})
check_lengths [] = ok tt
check_lengths (trigger ∷ rest) =
    if ltb (len trigger) 3
    then err (ManifestError.invalid (Problem.trigger_too_short trigger))
    else if ltb 200 (len trigger)
    then err (ManifestError.invalid (Problem.trigger_too_long (len trigger)))
    else check_lengths rest

module _ (is_white : Char → Bool) (to_lowercase : String → String) where
  -- Steps 1 to 3.
  unfoldable pub normalize_triggers : List String → List String
  unfolding retain_unseen
  normalize_triggers raw =
      retain_unseen [] (map to_lowercase (keep (λ s. not (is_blank is_white s)) raw))

  unfoldable pub validate_and_normalize_triggers : List String → Result ManifestError (List String)
  unfolding check_lengths
  validate_and_normalize_triggers raw =
      let normalized = normalize_triggers raw in
      if ltb 10 (length normalized)
      then err (ManifestError.invalid (Problem.too_many_triggers (length normalized)))
      else check_lengths normalized >>= λ _. ok normalized
