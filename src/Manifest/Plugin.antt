-- ===== src/Manifest/Plugin.antt =====
-- crates/scenery-manifest/src/lib.rs: the manifest of a plugin and what is checked of it.
pub mod Valid
use Prim.Native.Char.{Char}
use Prim.Native.String.{◌++◌}
use mathlib.Core.Option
use vectorhawkd.Base.{
  String, Bool, true, false, not, ◌&&◌, ◌||◌, Option, some, List, [], ◌∷◌, ◌==◌, Dict,
  if◌then◌else◌, Result, ok, err, ◌>>=◌,
}
use vectorhawkd.Base.Paths.{FilePath, from_text, join, join_path}
use vectorhawkd.Manifest.{Problem, ManifestError, UpdateConfig}
use vectorhawkd.Manifest.BundlePath.{Disk}
use vectorhawkd.Manifest.Frontmatter.{is_blank}

pub record PluginSkillRef : Type 0 where
  pub path : Option String
  pub registry_id : Option String
  pub min_version : Option String

pub record PluginMcpServer : Type 0 where
  pub name : String
  pub package_source : Option String
  pub description : Option String
  pub downstream_scopes : List String
  pub credential_note : Option String

pub record PluginCommand : Type 0 where
  pub path : String

pub record PluginUserConfigEntry : Type 0 where
  pub description : String
  pub sensitive : Bool

pub record PluginManifest (V : Type 0) : Type 0 where
  pub schema_version : String
  pub id : String
  pub name : String
  pub version : V
  pub publisher : String
  pub description : Option String
  pub category : Option String
  pub tags : List String
  pub skills : List PluginSkillRef
  pub mcp_servers : List PluginMcpServer
  pub commands : List PluginCommand
  pub user_config : Dict PluginUserConfigEntry
  pub update : Option UpdateConfig

pub record PluginPackage (V : Type 0) : Type 0 where
  pub root : FilePath
  pub manifest : PluginManifest V

abbrev pub is_empty : {A : Type 0} → List A → Bool
is_empty [] = true
is_empty (x ∷ xs) = false

abbrev or_io : Result String String → Result ManifestError String
or_io (ok text) = ok text
or_io (err e) = err (ManifestError.io e)

module _ (disk : Disk) (root : FilePath) where
  abbrev pub skill_md_of : String → FilePath
  skill_md_of path = join (join_path root (from_text path)) "SKILL.md"

  abbrev pub check_target : Option String → Option String → Result ManifestError (Unit {0})
  check_target (some path) registry_id =
      if disk.exists (skill_md_of path)
      then ok tt
      else err (ManifestError.missing_file (path ++ "/SKILL.md"))
  check_target Option.none (some id) = ok tt
  check_target Option.none Option.none =
      err (ManifestError.invalid Problem.skill_ref_without_target)

  -- One round of the loop over the skills.
  unfoldable pub check_skill_ref : PluginSkillRef → Result ManifestError (Unit {0})
  unfolding from_text
  check_skill_ref skill = check_target (skill.path) (skill.registry_id)

  unfoldable pub check_skill_refs : List PluginSkillRef → Result ManifestError (Unit {0})
  check_skill_refs [] = ok tt
  check_skill_refs (skill ∷ skills) = check_skill_ref skill >>= λ _. check_skill_refs skills

  unfoldable pub check_commands : List PluginCommand → Result ManifestError (Unit {0})
  unfolding from_text
  check_commands [] = ok tt
  check_commands (cmd ∷ commands) =
      if disk.exists (join_path root (from_text (cmd.path)))
      then check_commands commands
      else err (ManifestError.missing_file (cmd.path))

module _ (is_whitespace : Char → Bool) where
  unfoldable pub check_servers : List PluginMcpServer → Result ManifestError (Unit {0})
  check_servers [] = ok tt
  check_servers (server ∷ servers) =
      if is_blank is_whitespace (server.name)
      then err (ManifestError.invalid Problem.empty_server_name)
      else check_servers servers

module _ {V : Type 0} (disk : Disk) (is_whitespace : Char → Bool) (root : FilePath) where
  unfoldable pub validate_plugin_manifest : PluginManifest V → Result ManifestError (Unit {0})
  unfolding check_skill_refs check_commands check_servers
  validate_plugin_manifest m =
      if is_blank is_whitespace (m.id)
        || (is_blank is_whitespace (m.name) || is_blank is_whitespace (m.publisher))
      then err (ManifestError.invalid Problem.empty_plugin_identity)
      else if not (m.schema_version == "1.0")
      then err (ManifestError.invalid (Problem.unsupported_schema (m.schema_version)))
      else if is_empty (m.skills) && (is_empty (m.mcp_servers) && is_empty (m.commands))
      then err (ManifestError.invalid Problem.empty_plugin)
      else check_skill_refs disk root (m.skills) >>= λ _.
          check_commands disk root (m.commands) >>= λ _. check_servers is_whitespace (m.mcp_servers)

  abbrev or_json : Result String (PluginManifest V) → Result ManifestError (PluginManifest V)
  or_json (ok m) = ok m
  or_json (err e) = err (ManifestError.json e)

  -- `PluginPackage::load_from_dir`; the JSON parser is an argument.
  unfoldable pub load_plugin :
      (parse : String → Result String (PluginManifest V)) → Result ManifestError (PluginPackage V)
  unfolding validate_plugin_manifest
  load_plugin parse = do
    text ← or_io (disk.read_to_string (join root "plugin.json"))
    m ← or_json (parse text)
    valid ← validate_plugin_manifest m
    ok (record { root = root; manifest = m })
