-- ===== src/Manifest/Load.antt =====
-- crates/scenery-manifest/src/skill_md.rs and lib.rs: a SKILL.md read into a package. The disk,
-- the parsers and the classes of characters are arguments.
pub mod Prompts
pub mod Sound
use Prim.Native.Char.{Char, code}
use Prim.Native.String
use mathlib.Core.Option
use mathlib.Core.Option.{get_or}
use vectorhawkd.Base.{
  ℕ, String, Bool, true, false, not, ◌&&◌, Option, some, List, [], ◌∷◌, ◌++◌, eqb, if◌then◌else◌,
  Result, ok, err, ◌>>=◌,
}
use vectorhawkd.Base.Json.{Json}
use vectorhawkd.Base.Texts.{trim}
use vectorhawkd.Base.Paths.{FilePath, from_text, join, join_path}
use vectorhawkd.Manifest.{
  Yaml, Problem, ManifestError, ClipboardAccess, FilesystemAccess, SandboxProfile, Permissions,
  Execution, ModelRequirements, UpdateConfig, Manifest, PromptSource, WorkflowStep, Workflow,
}
use vectorhawkd.Manifest.SkillId.{to_skill_id}
use vectorhawkd.Manifest.BundlePath.{Disk, BundlePathError, outside_bundle, resolve_bundle_file}
use vectorhawkd.Manifest.Frontmatter.{
  VhPermissions, VhExecution, VhModel, VhSchemas, VhExtensions, SkillMdFrontmatter, vh, is_blank,
  split_frontmatter, reject_unknown_vh_keys, validate_frontmatter_basics,
  validate_and_normalize_triggers, or_yaml_error,
}

-- Code of other crates: the serde_yaml and semver parsers, and Rust's tables of characters.
pub record Crates (V : Type 0) : Type 0 where
  pub parse_yaml : String → Result String Yaml
  pub parse_frontmatter : String → Result String SkillMdFrontmatter
  pub parse_workflow : String → Result String Workflow
  pub parse_version : String → Result String V
  pub is_whitespace : Char → Bool
  pub is_alphanumeric : Char → Bool
  pub to_lowercase : String → String

pub record SkillPackage (V : Type 0) : Type 0 where
  pub root : FilePath
  pub manifest : Manifest V
  pub workflow : Workflow

unfoldable pub build_permissions : Option VhPermissions → Permissions
build_permissions Option.none = record {
  filesystem = FilesystemAccess.none;
  network = "none";
  clipboard = ClipboardAccess.none;
}
build_permissions (some p) = record {
  filesystem = get_or (p.filesystem) FilesystemAccess.none;
  network = get_or (p.network) "none";
  clipboard = get_or (p.clipboard) ClipboardAccess.none;
}

unfoldable pub build_execution : Option VhExecution → Execution
build_execution Option.none = record {
  sandbox = SandboxProfile.strict;
  timeout_ms = 120000;
  memory_mb = 512;
}
build_execution (some e) = record {
  sandbox = get_or (e.sandbox) SandboxProfile.strict;
  timeout_ms = get_or (e.timeout_ms) 120000;
  memory_mb = get_or (e.memory_mb) 512;
}

abbrev model_requirements_of : VhModel → ModelRequirements
model_requirements_of m = record {
  min_params_b = m.min_params_b;
  recommended = m.recommended;
  fallback = m.fallback;
  prefer_local = m.prefer_local;
}

-- `trim_start_matches("./")`
abbrev pub trim_dot_slash : String → String
trim_dot_slash String.[] = ""
trim_dot_slash (String.◌∷◌ c String.[]) = String.◌∷◌ c ""
trim_dot_slash (String.◌∷◌ c (String.◌∷◌ d s)) =
    let rest = trim_dot_slash s in
    if eqb (code c) b'.' && eqb (code d) b'/' then rest else String.◌∷◌ c (String.◌∷◌ d s)

abbrev or_io : {A : Type 0} → Result String A → Result ManifestError A
or_io (ok a) = ok a
or_io (err e) = err (ManifestError.io e)

module _ (disk : Disk) (is_whitespace : Char → Bool) (root : FilePath) where
  abbrev pub resolved : String → Result BundlePathError FilePath → Result ManifestError (Unit {0})
  resolved path (ok at) = ok tt
  resolved path (err outside_bundle) =
      err (ManifestError.invalid (Problem.prompt_outside_bundle path))
  resolved path (err (BundlePathError.io e)) = err (ManifestError.missing_file path)

  abbrev check_prompt : PromptSource → Result ManifestError (Unit {0})
  check_prompt (PromptSource.inline body) =
      if is_blank is_whitespace body
      then err (ManifestError.invalid Problem.empty_inline_prompt)
      else ok tt
  check_prompt (PromptSource.file path) =
      if is_blank is_whitespace path
      then err (ManifestError.invalid Problem.empty_prompt_path)
      else resolved path (resolve_bundle_file disk root path)

  -- One round of the loop: only the steps of a model have a prompt.
  unfoldable pub check_step : WorkflowStep → Result ManifestError (Unit {0})
  check_step (WorkflowStep.llm id prompt inputs output_schema) = check_prompt prompt
  check_step _ = ok tt

  unfoldable pub validate_workflow_prompt_refs : List WorkflowStep → Result ManifestError (Unit {0})
  validate_workflow_prompt_refs [] = ok tt
  validate_workflow_prompt_refs (step ∷ steps) =
      check_step step >>= λ _. validate_workflow_prompt_refs steps

abbrev pub and_then : {A B : Type 0} → Option A → (A → Option B) → Option B
and_then Option.none f = Option.none
and_then (some a) f = f a

abbrev pub schema_of : (VhSchemas → Option Json) → Option VhSchemas → Option Json
schema_of pick Option.none = Option.none
schema_of pick (some s) = pick s

abbrev pub triggers_of : Option VhExtensions → List String
triggers_of Option.none = []
triggers_of (some v) = v.triggers

module _ {V : Type 0} (disk : Disk) (crates : Crates V) (root : FilePath) where
  abbrev pub checked : Workflow → Result ManifestError Workflow
  checked workflow =
      validate_workflow_prompt_refs disk (crates.is_whitespace) root (workflow.steps) >>= λ _.
      ok workflow

  -- The workflow in the file that `workflow_ref` names.
  unfoldable pub load_workflow_ref : String → Result ManifestError Workflow
  unfolding from_text
  load_workflow_ref ref_path =
      let workflow_path = join_path root (from_text (trim_dot_slash ref_path)) in
      if not (disk.exists workflow_path)
      then err (ManifestError.missing_file ref_path)
      else or_io (disk.read_to_string workflow_path)
        >>= (λ text. or_yaml_error (crates.parse_workflow text) >>= checked)

  -- One step of a model, with the body of the file as its prompt.
  abbrev pub synthesized : String → String → Workflow
  synthesized name body = record {
    name = name;
    steps =
        WorkflowStep.llm "generate" (PromptSource.inline (trim (crates.is_whitespace) body))
          Option.none Option.none
        ∷ [];
  }

  unfoldable pub build_workflow :
      SkillMdFrontmatter → (skill_name body : String) → Result ManifestError Workflow
  unfolding load_workflow_ref to_skill_id
  build_workflow fm skill_name body =
      let name = to_skill_id (crates.is_alphanumeric) (crates.to_lowercase) skill_name in
      elim (and_then (vh fm) (λ v. v.workflow_ref)) [
        | some ref_path ↦ load_workflow_ref ref_path
        | Option.none ↦ elim (and_then (vh fm) (λ v. v.workflow)) [
          | some inline_steps ↦ checked (record { name = name; steps = inline_steps })
          | Option.none ↦ ok (synthesized name body)
        ]
      ]

  abbrev or_bad_version : Result String V → Result ManifestError V
  or_bad_version (ok version) = ok version
  or_bad_version (err e) = err (ManifestError.invalid (Problem.bad_version e))

  -- The manifest of a frontmatter, with the version and the triggers that were read of it.
  abbrev pub manifest_of : SkillMdFrontmatter → V → List String → Manifest V
  manifest_of fm version triggers = record {
    schema_version = "1.0";
    id = to_skill_id (crates.is_alphanumeric) (crates.to_lowercase) (fm.name);
    name = fm.name;
    version = version;
    publisher = get_or (and_then (vh fm) (λ v. v.publisher)) "local";
    description = some (fm.description);
    license = fm.license;
    entrypoint = "workflow.yaml";
    inputs_schema = schema_of (λ s. s.inputs) (and_then (vh fm) (λ v. v.schemas));
    outputs_schema = schema_of (λ s. s.outputs) (and_then (vh fm) (λ v. v.schemas));
    permissions = build_permissions (and_then (vh fm) (λ v. v.permissions));
    execution = build_execution (and_then (vh fm) (λ v. v.execution));
    model_requirements =
        and_then (vh fm) (λ v. and_then (v.model) (λ m. some (model_requirements_of m)));
    update = some (record { channel = some "stable"; auto_update = some true });
    triggers = triggers;
  }

  -- The last of what is done with the frontmatter: the workflow.
  abbrev pub with_triggers :
      String → SkillMdFrontmatter → V → List String → Result ManifestError (SkillPackage V)
  with_triggers body fm version triggers = build_workflow fm (fm.name) body >>= λ workflow.
      ok (record { root = root; manifest = manifest_of fm version triggers; workflow = workflow })

  abbrev pub with_version : String → SkillMdFrontmatter → V → Result ManifestError (SkillPackage V)
  with_version body fm version =
      validate_and_normalize_triggers (crates.is_whitespace) (crates.to_lowercase)
        (triggers_of (vh fm))
      >>= with_triggers body fm version

  abbrev pub version_of : SkillMdFrontmatter → Result ManifestError V
  version_of fm =
      or_bad_version (crates.parse_version (get_or (and_then (vh fm) (λ v. v.version)) "0.1.0"))

  -- What is done with the frontmatter once its checks have passed.
  abbrev pub package_of : String → SkillMdFrontmatter → Result ManifestError (SkillPackage V)
  package_of body fm = version_of fm >>= with_version body fm

  abbrev pub parts_of : Option (String × String) → Result ManifestError (String × String)
  parts_of Option.none = err (ManifestError.invalid Problem.no_frontmatter)
  parts_of (some parts) = ok parts

  abbrev pub parsed_of : String → Unit {0} → Result ManifestError SkillMdFrontmatter
  parsed_of yaml allowed = or_yaml_error (crates.parse_frontmatter yaml)

  abbrev pub validated : SkillMdFrontmatter → Result ManifestError SkillMdFrontmatter
  validated fm = validate_frontmatter_basics (crates.is_whitespace) fm >>= λ _. ok fm

  abbrev pub with_parts : String × String → Result ManifestError (SkillPackage V)
  with_parts (yaml, body) =
      reject_unknown_vh_keys (crates.parse_yaml) yaml
      >>= parsed_of yaml
      >>= validated
      >>= package_of body

  abbrev pub with_content : String → Result ManifestError (SkillPackage V)
  with_content content = parts_of (split_frontmatter content) >>= with_parts

  unfoldable pub load_from_skill_md_dir : Result ManifestError (SkillPackage V)
  unfolding split_frontmatter
  load_from_skill_md_dir = or_io (disk.read_to_string (join root "SKILL.md")) >>= with_content

  unfoldable pub load_from_dir : Result ManifestError (SkillPackage V)
  unfolding load_from_skill_md_dir
  load_from_dir =
      if not (disk.exists (join root "SKILL.md"))
      then err (ManifestError.missing_file "SKILL.md")
      else load_from_skill_md_dir
