-- ===== src/Manifest/Load/Sound.antt =====
-- What a loaded that loads is sure to be.
use vectorhawkd.Base.{
  ◌≡◌, ◌⊎◌, refl, inl, inr, String, Option, some, arith, All, Bool-cases, Option-cases, Result, ok,
  err, ◌>>=◌, >>=-HasValue,
}
use vectorhawkd.Base.Paths.{FilePath, from_text, join, join_path}
use vectorhawkd.Manifest.{ManifestError, Workflow}
use vectorhawkd.Manifest.SkillId.{to_skill_id}
use vectorhawkd.Manifest.BundlePath.{Disk}
use vectorhawkd.Manifest.Frontmatter.{
  SkillMdFrontmatter, vh, split_frontmatter, validate_frontmatter_basics,
  validate_and_normalize_triggers, reject_unknown_vh_keys, or_yaml_error,
}
use vectorhawkd.Manifest.Frontmatter.Split.{IsSplit, split_frontmatter_sound}
use vectorhawkd.Manifest.Frontmatter.Triggers.{
  IsTriggers, validate_and_normalize_triggers-IsTriggers,
}
use vectorhawkd.Manifest.Load.{
  Crates, SkillPackage, checked, synthesized, load_workflow_ref, build_workflow, package_of,
  version_of, with_version, with_triggers, with_parts, with_content, validated, parsed_of, parts_of,
  load_from_skill_md_dir, triggers_of, validate_workflow_prompt_refs, and_then, or_io,
  trim_dot_slash, manifest_of,
}
use vectorhawkd.Manifest.Load.Prompts.{HasPrompt, validate_workflow_prompt_refs_iff}

module _ {V : Type 0} (disk : Disk) (crates : Crates V) (root : FilePath) where
  -- Either every prompt was checked, or the workflow is the one made of the body.
  abbrev pub IsChecked : String → Workflow → Type 0
  IsChecked body workflow =
      All (HasPrompt disk (crates.is_whitespace) root) (workflow.steps)
      ⊎ ((name : String) × (workflow ≡ synthesized disk crates root name body))

  checked_sound :
      (given workflow : Workflow)
      → checked disk crates root given ≡ ok workflow
      → All (HasPrompt disk (crates.is_whitespace) root) (workflow.steps)
  checked_sound given workflow h =
      let (u, passed, same) =
        >>=-HasValue (validate_workflow_prompt_refs disk (crates.is_whitespace) root (given.steps))
          (λ _. ok given) h in
      let sound =
        (validate_workflow_prompt_refs_iff disk (crates.is_whitespace) root (given.steps)).0
          passed in
      let whole : given ≡ workflow = cc in rw (← whole) sound

  load_workflow_ref_sound :
      (ref_path : String) (workflow : Workflow)
      → load_workflow_ref disk crates root ref_path ≡ ok workflow
      → All (HasPrompt disk (crates.is_whitespace) root) (workflow.steps)
  unfolding load_workflow_ref
  load_workflow_ref_sound ref_path workflow h =
      let at = join_path root (from_text (trim_dot_slash ref_path)) in
      elim (Bool-cases (disk.exists at)) [
        | inr absent ↦ absurd (ground (arith, absent))
        | inl present ↦
            let (text, read, rest) =
              >>=-HasValue (or_io (disk.read_to_string at))
                (λ text. or_yaml_error (crates.parse_workflow text) >>= checked disk crates root)
                (rw (present, load_workflow_ref) at h) in
            let (given, parsed, passed) =
              >>=-HasValue (or_yaml_error (crates.parse_workflow text)) (checked disk crates root)
                rest in
            checked_sound given workflow passed
      ]

  build_workflow-IsChecked :
      (fm : SkillMdFrontmatter) (skill_name body : String) (workflow : Workflow)
      → build_workflow disk crates root fm skill_name body ≡ ok workflow
      → IsChecked body workflow
  unfolding build_workflow
  build_workflow-IsChecked fm skill_name body workflow h =
      elim (Option-cases (and_then (vh fm) (λ v. v.workflow_ref))) [
        | inr (ref_path, given) ↦
            inl (load_workflow_ref_sound ref_path workflow (rw (given, build_workflow) at h))
        | inl no_ref ↦ elim (Option-cases (and_then (vh fm) (λ v. v.workflow))) [
          | inr (steps, given) ↦
              inl (checked_sound _ workflow (rw (no_ref, given, build_workflow) at h))
          | inl neither ↦
              let same = rw (no_ref, neither, build_workflow) at h in
              inr (to_skill_id (crates.is_alphanumeric) (crates.to_lowercase) skill_name, cc)
        ]
      ]

  -- What holds of the frontmatter and the body that a loaded was loaded from.
  abbrev pub IsPackageOf : SkillMdFrontmatter → String → SkillPackage V → Type 0
  IsPackageOf fm body loaded =
      (loaded.root ≡ root)
      × ((loaded.manifest).name ≡ fm.name)
      × ((loaded.manifest).id
          ≡ to_skill_id (crates.is_alphanumeric) (crates.to_lowercase) (fm.name))
      × IsTriggers (crates.is_whitespace) (crates.to_lowercase) (triggers_of (vh fm))
          ((loaded.manifest).triggers)
      × IsChecked body (loaded.workflow)

  ok_injective :
      {a b : SkillPackage V} → ◌≡◌ {A = Result ManifestError (SkillPackage V)} (ok a) (ok b) → a ≡ b
  ok_injective e = cc

  package_of-IsPackageOf :
      (fm : SkillMdFrontmatter) (body : String) (loaded : SkillPackage V)
      → package_of disk crates root body fm ≡ ok loaded
      → IsPackageOf fm body loaded
  package_of-IsPackageOf fm body loaded h =
      let (version, parsed, rest) =
        >>=-HasValue (version_of disk crates root fm) (with_version disk crates root body fm) h in
      let (triggers, valid, more) =
        >>=-HasValue
          (validate_and_normalize_triggers (crates.is_whitespace) (crates.to_lowercase)
            (triggers_of (vh fm)))
          (with_triggers disk crates root body fm version) rest in
      let (workflow, built, last) =
        >>=-HasValue (build_workflow disk crates root fm (fm.name) body)
          (λ workflow. ok (record {
            root = root;
            manifest = manifest_of disk crates root fm version triggers;
            workflow = workflow;
          }))
          more in
      rw (← ok_injective last) (
        refl,
        refl,
        refl,
        validate_and_normalize_triggers-IsTriggers (crates.is_whitespace) (crates.to_lowercase)
            (triggers_of (vh fm)) valid,
        build_workflow-IsChecked fm (fm.name) body workflow built,
      )

  -- Where a loaded package comes from: its file is a frontmatter and a body, and the frontmatter
  -- has passed every check.
  abbrev pub IsLoaded : SkillPackage V → Type 0
  IsLoaded loaded =
      (content : String) × (yaml : String) × (body : String) × (fm : SkillMdFrontmatter)
      × (disk.read_to_string (join root "SKILL.md") ≡ ok content)
      × IsSplit content yaml body
      × (reject_unknown_vh_keys (crates.parse_yaml) yaml ≡ ok tt)
      × (crates.parse_frontmatter yaml ≡ ok fm)
      × (validate_frontmatter_basics (crates.is_whitespace) fm ≡ ok tt)
      × IsPackageOf fm body loaded

  or_io_sound : {A : Type 0} (r : Result String A) {a : A} → or_io r ≡ ok a → r ≡ ok a
  or_io_sound (ok b) h = cc
  or_io_sound (err e) h = cc

  or_yaml_error_sound :
      {A : Type 0} (r : Result String A) {a : A} → or_yaml_error r ≡ ok a → r ≡ ok a
  or_yaml_error_sound (ok b) h = cc
  or_yaml_error_sound (err e) h = cc

  parts_of_sound :
      (parts : Option (String × String)) {found : String × String}
      → parts_of disk crates root parts ≡ ok found
      → parts ≡ some found
  parts_of_sound Option.none h = cc
  parts_of_sound (some p) h = cc

  -- A package that loads is made of the frontmatter and the body that its SKILL.md consists of.
  -- Every check of the frontmatter has passed; the id is the one derived from the name, the
  -- triggers are normalised, and each prompt lies in the bundle and is not blank, unless the
  -- workflow is the single step made of the body.
  pub load_from_skill_md_dir-IsLoaded :
      {loaded : SkillPackage V}
      → load_from_skill_md_dir disk crates root ≡ ok loaded
      → IsLoaded loaded
  unfolding load_from_skill_md_dir
  load_from_skill_md_dir-IsLoaded {loaded} h =
      let (content, read, cut) =
        >>=-HasValue (or_io (disk.read_to_string (join root "SKILL.md")))
          (with_content disk crates root) h in
      let (parts, split, rest) =
        >>=-HasValue (parts_of disk crates root (split_frontmatter content))
          (with_parts disk crates root) cut in
      let (yaml, body) = parts in
      let allowed = reject_unknown_vh_keys (crates.parse_yaml) yaml in
      let parse = parsed_of disk crates root yaml in
      let check = validated disk crates root in
      let (fm, ready, made) =
        >>=-HasValue (allowed >>= parse >>= check) (package_of disk crates root body) rest in
      let (read_fm, parsed, basics) = >>=-HasValue (allowed >>= parse) check ready in
      let (u, clean, given) = >>=-HasValue allowed parse parsed in
      let (v, valid, same) =
        >>=-HasValue (validate_frontmatter_basics (crates.is_whitespace) read_fm) (λ _. ok read_fm)
          basics in
      let one : read_fm ≡ fm = cc in
      (
        content,
        yaml,
        body,
        fm,
        or_io_sound (disk.read_to_string (join root "SKILL.md")) read,
        split_frontmatter_sound content (parts_of_sound (split_frontmatter content) split),
        clean,
        or_yaml_error_sound (crates.parse_frontmatter yaml) (rw one at given),
        rw one at valid,
        package_of-IsPackageOf fm body loaded made,
      )
