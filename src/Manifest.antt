-- ===== src/Manifest.antt =====
-- crates/scenery-manifest/src/lib.rs: the types of a skill's manifest and workflow, and what can
-- be wrong with a bundle. A UTF-8 text is a String; a float is kept as its text.
pub mod SkillId
pub mod BundlePath
pub mod Prompt
pub mod Frontmatter
pub mod Load
pub mod Plugin
use vectorhawkd.Base.{ℕ, String, Bool, true, Option, some, List}
use mathlib.Core.Option
use vectorhawkd.Base.Json.{Json, end, field}
use vectorhawkd.Sampling.{ModelFallback}

-- `serde_yaml::Value`; a mapping is the list of its entries.
mutual
  pub data Yaml : Type 0 where
    null : Yaml
    boolean : Bool → Yaml
    number : String → Yaml
    string : String → Yaml
    sequence : Items → Yaml
    mapping : Entries → Yaml
    tagged : String → Yaml → Yaml

  pub data Items : Type 0 where
    nil : Items
    item : Yaml → Items → Items

  pub data Entries : Type 0 where
    empty : Entries
    entry : Yaml → Yaml → Entries → Entries

-- The messages of `ManifestError::Invalid`, each with what it quotes.
pub data Problem : Type 0 where
  no_frontmatter empty_name empty_description workflow_conflict : Problem
  top_level_vh unknown_vh_field yaml_error bad_version : String → Problem
  too_many_triggers : ℕ → Problem
  trigger_too_short : String → Problem
  trigger_too_long : ℕ → Problem
  empty_inline_prompt empty_prompt_path : Problem
  prompt_outside_bundle : String → Problem
  empty_plugin_identity empty_plugin empty_server_name skill_ref_without_target : Problem
  unsupported_schema : String → Problem

pub data ManifestError : Type 0 where
  missing_file : String → ManifestError
  invalid : Problem → ManifestError
  io json yaml : String → ManifestError

pub data ClipboardAccess : Type 0 where
  none read write full : ClipboardAccess

pub data FilesystemAccess : Type 0 where
  none read_only full : FilesystemAccess

pub data SandboxProfile : Type 0 where
  strict relaxed unrestricted : SandboxProfile

pub record Permissions : Type 0 where
  pub filesystem : FilesystemAccess
  pub network : String
  pub clipboard : ClipboardAccess

pub record Execution : Type 0 where
  pub sandbox : SandboxProfile
  pub timeout_ms : ℕ
  pub memory_mb : ℕ

pub record ModelRequirements : Type 0 where
  pub min_params_b : Option String
  pub recommended : List String
  pub fallback : Option ModelFallback
  pub prefer_local : Option Bool

pub record UpdateConfig : Type 0 where
  pub channel : Option String
  pub auto_update : Option Bool

-- `V` are the versions of the semver crate.
pub record Manifest (V : Type 0) : Type 0 where
  pub schema_version : String
  pub id : String
  pub name : String
  pub version : V
  pub publisher : String
  pub description : Option String
  pub license : Option String
  pub entrypoint : String
  pub inputs_schema : Option Json
  pub outputs_schema : Option Json
  pub permissions : Permissions
  pub execution : Execution
  pub model_requirements : Option ModelRequirements
  pub update : Option UpdateConfig
  pub triggers : List String

pub data PromptSource : Type 0 where
  file inline : String → PromptSource

pub data WorkflowStep : Type 0 where
  tool : (id tool_name : String) (input : Yaml) → WorkflowStep
  llm :
      (id : String) (prompt : PromptSource) (inputs : Option Yaml) (output_schema : Option String)
      → WorkflowStep
  transform : (id op : String) (input : Yaml) → WorkflowStep
  validate : (id schema : String) (input : Yaml) → WorkflowStep

pub record Workflow : Type 0 where
  pub name : String
  pub steps : List WorkflowStep

-- The schema that accepts any object.
abbrev pub any_object : Json
any_object =
    Json.object
      (field "type" (Json.string "object") (field "additionalProperties" (Json.boolean true) end))

abbrev or_any_object : Option Json → Json
or_any_object Option.none = any_object
or_any_object (some schema) = schema

module _ {V : Type 0} where
  unfoldable pub inputs_schema_or_default : Manifest V → Json
  inputs_schema_or_default m = or_any_object (m.inputs_schema)

  unfoldable pub outputs_schema_or_default : Manifest V → Json
  outputs_schema_or_default m = or_any_object (m.outputs_schema)
