-- ===== src/Manifest/Plugin/Valid.antt =====
-- Which plugin manifests are accepted.
use Prim.Native.Char.{Char}
use vectorhawkd.Base.{
  ◌≡◌, ◌↔◌, refl, inl, inr, String, Bool, true, false, not, ◌&&◌, ◌||◌, Option, some, List, [], ◌∷◌,
  arith, All, ◌==◌, eq_iff, Bool-cases, if◌then◌else◌, Result, ok, err, ◌>>=◌, >>=-HasValue,
}
use vectorhawkd.Base.Paths.{FilePath, from_text, join_path}
use vectorhawkd.Manifest.{Problem, ManifestError}
use vectorhawkd.Manifest.BundlePath.{Disk}
use vectorhawkd.Manifest.Frontmatter.{is_blank}
use vectorhawkd.Manifest.Plugin.{
  PluginSkillRef, PluginMcpServer, PluginCommand, PluginManifest, is_empty, skill_md_of,
  check_target, check_skill_ref, check_skill_refs, check_commands, check_servers,
  validate_plugin_manifest,
}

module _ (disk : Disk) (root : FilePath) where
  abbrev pub IsTarget : Option String → Option String → Type 0
  IsTarget (some path) registry_id = disk.exists (skill_md_of disk root path) ≡ true
  IsTarget Option.none registry_id = (id : String) × (registry_id ≡ some id)

  -- A skill is a directory of the plugin with a SKILL.md, or names one of the registry.
  abbrev pub HasTarget : PluginSkillRef → Type 0
  HasTarget skill = IsTarget (skill.path) (skill.registry_id)

  abbrev pub HasFile : PluginCommand → Type 0
  HasFile cmd = disk.exists (join_path root (from_text (cmd.path))) ≡ true

  check_target_iff :
      (path registry_id : Option String)
      → (check_target disk root path registry_id ≡ ok tt) ↔ IsTarget path registry_id
  check_target_iff (some path) registry_id =
      elim (Bool-cases (disk.exists (skill_md_of disk root path))) [
        | inl found ↦ rw found (λ h. refl, λ h. refl)
        | inr absent ↦ rw absent (λ h. cc, λ h. cc)
      ]
  check_target_iff Option.none (some id) = (λ h. (id, refl), λ h. refl)
  check_target_iff Option.none Option.none = (λ h. cc, λ h. cc (h.1))

  check_skill_ref_iff :
      (skill : PluginSkillRef) → (check_skill_ref disk root skill ≡ ok tt) ↔ HasTarget skill
  unfolding check_skill_ref
  check_skill_ref_iff skill = check_target_iff (skill.path) (skill.registry_id)

  check_skill_refs_iff :
      (skills : List PluginSkillRef)
      → (check_skill_refs disk root skills ≡ ok tt) ↔ All HasTarget skills
  unfolding check_skill_refs
  check_skill_refs_iff [] = (λ h. tt, λ h. refl)
  check_skill_refs_iff (skill ∷ skills) =
      let here = check_skill_ref_iff skill in
      let rest = check_skill_refs_iff skills in
      (
        λ h.
            let (u, first, more) =
              >>=-HasValue (check_skill_ref disk root skill)
                (λ _. check_skill_refs disk root skills) h in
            (here.0 first, rest.0 more),
        λ h. rw (here.1 (h.0), rest.1 (h.1)) refl,
      )

  check_commands_iff :
      (commands : List PluginCommand)
      → (check_commands disk root commands ≡ ok tt) ↔ All HasFile commands
  unfolding check_commands
  check_commands_iff [] = (λ h. tt, λ h. refl)
  check_commands_iff (cmd ∷ commands) =
      let rest = check_commands_iff commands in
      elim (Bool-cases (disk.exists (join_path root (from_text (cmd.path))))) [
        | inl found ↦ rw found (λ h. (refl, rest.0 h), λ h. rest.1 (h.1))
        | inr absent ↦ rw absent (λ h. cc, λ h. cc (h.0))
      ]

module _ (is_whitespace : Char → Bool) where
  abbrev pub HasName : PluginMcpServer → Type 0
  HasName server = is_blank is_whitespace (server.name) ≡ false

  check_servers_iff :
      (servers : List PluginMcpServer)
      → (check_servers is_whitespace servers ≡ ok tt) ↔ All HasName servers
  unfolding check_servers
  check_servers_iff [] = (λ h. tt, λ h. refl)
  check_servers_iff (server ∷ servers) =
      let rest = check_servers_iff servers in
      elim (Bool-cases (is_blank is_whitespace (server.name))) [
        | inr named ↦ rw named (λ h. (refl, rest.0 h), λ h. rest.1 (h.1))
        | inl blank ↦ rw blank (λ h. cc, λ h. cc (h.0))
      ]

-- A guard that lets a result through has failed its test.
guard_passed :
    (test : Bool) (e : ManifestError) (rest : Result ManifestError (Unit {0}))
    → (if test then err e else rest) ≡ ok tt
    → (test ≡ false) × (rest ≡ ok tt)
guard_passed true e rest h = cc
guard_passed false e rest h = (refl, h)

or_false : (a b : Bool) → (a || b) ≡ false → (a ≡ false) × (b ≡ false)
or_false true b h = cc
or_false false b h = (refl, h)

module _ {V : Type 0} (disk : Disk) (is_whitespace : Char → Bool) (root : FilePath) where
  -- What a plugin has to be.
  abbrev pub IsValid : PluginManifest V → Type 0
  IsValid m =
      (is_blank is_whitespace (m.id) ≡ false)
      × (is_blank is_whitespace (m.name) ≡ false)
      × (is_blank is_whitespace (m.publisher) ≡ false)
      × (m.schema_version ≡ "1.0")
      × ((is_empty (m.skills) && (is_empty (m.mcp_servers) && is_empty (m.commands))) ≡ false)
      × All (HasTarget disk root) (m.skills)
      × All (HasFile disk root) (m.commands)
      × All (HasName is_whitespace) (m.mcp_servers)

  -- A manifest is accepted exactly if its id, name and publisher are not blank, its schema is
  -- 1.0, it has a component, and each skill, command and server in it is as it must be.
  pub validate_plugin_manifest_iff :
      (m : PluginManifest V)
      → (validate_plugin_manifest disk is_whitespace root m ≡ ok tt) ↔ IsValid m
  unfolding validate_plugin_manifest
  validate_plugin_manifest_iff m =
      let blank = is_blank is_whitespace in
      let skills = check_skill_refs_iff disk root (m.skills) in
      let commands = check_commands_iff disk root (m.commands) in
      let servers = check_servers_iff is_whitespace (m.mcp_servers) in
      (
        λ h.
            let served = check_servers is_whitespace (m.mcp_servers) in
            let commanded = check_commands disk root (m.commands) >>= λ _. served in
            let all = check_skill_refs disk root (m.skills) >>= λ _. commanded in
            let no_part =
              is_empty (m.skills) && (is_empty (m.mcp_servers) && is_empty (m.commands)) in
            let empty = ManifestError.invalid Problem.empty_plugin in
            let unknown = ManifestError.invalid (Problem.unsupported_schema (m.schema_version)) in
            let (named, first) =
              guard_passed (blank (m.id) || (blank (m.name) || blank (m.publisher)))
                (ManifestError.invalid Problem.empty_plugin_identity)
                (if not (m.schema_version == "1.0")
                  then err unknown
                  else if no_part
                  then err empty
                  else all)
                h in
            let (current, second) =
              guard_passed (not (m.schema_version == "1.0")) unknown
                (if no_part then err empty else all) first in
            let (present, third) = guard_passed no_part empty all second in
            let (id, others) =
              or_false (blank (m.id)) (blank (m.name) || blank (m.publisher)) named in
            let (name, publisher) = or_false (blank (m.name)) (blank (m.publisher)) others in
            let (u, found, fourth) =
              >>=-HasValue (check_skill_refs disk root (m.skills)) (λ _. commanded) third in
            let (v, files, fifth) =
              >>=-HasValue (check_commands disk root (m.commands)) (λ _. served) fourth in
            let version : m.schema_version ≡ "1.0" =
              (eq_iff (m.schema_version) "1.0").0 (ground (arith, current)) in
            (
              id,
              name,
              publisher,
              version,
              present,
              skills.0 found,
              commands.0 files,
              servers.0 fifth,
            ),
        λ (id, name, publisher, version, present, found, files, named).
            rw
              (
                id,
                name,
                publisher,
                (eq_iff (m.schema_version) "1.0").1 version,
                present,
                skills.1 found,
                commands.1 files,
              )
              (servers.1 named),
      )
