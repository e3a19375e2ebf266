-- ===== src/Examples/Manifests.antt =====
-- Examples on the manifests of skills and plugins of crates/scenery-manifest.
use Prim.Native.Char.{Char, code}
use vectorhawkd.Base.{
  ℕ, ◌≡◌, ◌↔◌, refl, String, Bool, true, false, ◌||◌, ◌&&◌, Option, some, List, [], ◌∷◌, ◌++◌, leb,
  eqb, All, ◌==◌, eq_iff, ok, err,
}
use vectorhawkd.Base.Texts
use vectorhawkd.Base.Texts.{split_once}
use vectorhawkd.Base.Paths.{FilePath, from_text, starts_with}
use vectorhawkd.Manifest
use vectorhawkd.Manifest.{Yaml, entry, empty, UpdateConfig, Workflow, PromptSource, WorkflowStep}
use vectorhawkd.Manifest.SkillId
use vectorhawkd.Manifest.BundlePath
use vectorhawkd.Manifest.BundlePath.{Disk, resolve_bundle_file}
use vectorhawkd.Manifest.BundlePath.Confined.{
  IsConfined, resolve_bundle_file-IsConfined, resolve_bundle_file_iff,
}
use vectorhawkd.Manifest.BundlePath.Fold.{IsName}
use vectorhawkd.Manifest.Frontmatter
use vectorhawkd.Manifest.Frontmatter.{SkillMdFrontmatter, split_frontmatter, reject_unknown_vh_keys}
use vectorhawkd.Manifest.Frontmatter.Keys.{IsCurrent, IsAllowed, reject_unknown_vh_keys_iff}
use vectorhawkd.Manifest.Frontmatter.Triggers.{
  IsTriggers, validate_and_normalize_triggers-IsTriggers,
}
use vectorhawkd.Manifest.Load
use vectorhawkd.Manifest.Load.{Crates, SkillPackage, load_from_skill_md_dir}
use vectorhawkd.Manifest.Load.Sound.{IsLoaded, load_from_skill_md_dir-IsLoaded}
use vectorhawkd.Manifest.Plugin.{PluginManifest, validate_plugin_manifest}
use vectorhawkd.Manifest.Plugin.Valid.{IsValid, validate_plugin_manifest_iff}

abbrev is_space : Char → Bool
is_space c = eqb (code c) 32 || eqb (code c) 10

abbrev is_letter : Char → Bool
is_letter c = leb b'a' (code c) && leb (code c) b'z'

abbrev bundle_root : FilePath
bundle_root = "/" ∷ ("skill" ∷ [])

abbrev skill_md : String
skill_md = "---\nname: review\n---\nCheck it.\n"

-- A disk without links, on which every file is the same SKILL.md.
abbrev one_file : Disk
one_file = record {
  canonicalize = λ path. ok path;
  exists = λ path. true;
  read_to_string = λ path. ok skill_md;
}

abbrev review : SkillMdFrontmatter
review = record {
  name = "review";
  description = "Reviews.";
  license = Option.none;
  metadata = Option.none;
}

abbrev review_yaml : Manifest.Entries
review_yaml = entry (Yaml.string "name") (Yaml.string "review") empty

abbrev readers : Crates ℕ
readers = record {
  parse_yaml = λ text. ok (Yaml.mapping review_yaml);
  parse_frontmatter = λ text. ok review;
  parse_workflow = λ text. err "no workflow";
  parse_version = λ text. ok 1;
  is_whitespace = is_space;
  is_alphanumeric = is_letter;
  to_lowercase = λ text. text;
}

abbrev review_package : SkillPackage ℕ
review_package = record {
  root = bundle_root;
  manifest = Load.manifest_of one_file readers bundle_root review 1 [];
  workflow = Load.synthesized one_file readers bundle_root "review" "Check it.\n";
}

review_loads : load_from_skill_md_dir one_file readers bundle_root ≡ ok review_package
unfolding load_from_skill_md_dir Frontmatter.split_frontmatter Texts.strip_prefix Texts.split_once
    Frontmatter.reject_unknown_vh_keys Frontmatter.reject_top_level Frontmatter.reject_unknown
    Frontmatter.validate_frontmatter_basics Frontmatter.validate_and_normalize_triggers
    Frontmatter.normalize_triggers Frontmatter.retain_unseen Frontmatter.check_lengths
    Load.build_workflow SkillId.to_skill_id Texts.split_at_code Texts.join_with Texts.trim_start
    Texts.trim_end
review_loads = refl

load_from_skill_md_dir-IsLoaded_example : IsLoaded one_file readers bundle_root review_package
load_from_skill_md_dir-IsLoaded_example =
    load_from_skill_md_dir-IsLoaded one_file readers bundle_root review_loads

resolved_inside :
    resolve_bundle_file one_file bundle_root "prompts/../a.txt"
    ≡ ok ("/" ∷ ("skill" ∷ ("prompts" ∷ (".." ∷ ("a.txt" ∷ [])))))
unfolding resolve_bundle_file BundlePath.is_lexically_inside BundlePath.lexical_fold
    BundlePath.fold_from BundlePath.fold_component BundlePath.fold_parent starts_with from_text
    Texts.split_at_code
resolved_inside = refl

resolve_bundle_file-IsConfined_example :
    IsConfined one_file bundle_root "prompts/../a.txt"
      ("/" ∷ ("skill" ∷ ("prompts" ∷ (".." ∷ ("a.txt" ∷ [])))))
resolve_bundle_file-IsConfined_example =
    resolve_bundle_file-IsConfined one_file bundle_root "prompts/../a.txt" resolved_inside

-- A path that leaves the bundle is refused.
escape_refused :
    resolve_bundle_file one_file bundle_root "../other/a.txt" ≡ err BundlePath.outside_bundle
unfolding resolve_bundle_file BundlePath.is_lexically_inside BundlePath.lexical_fold
    BundlePath.fold_from BundlePath.fold_component BundlePath.fold_parent starts_with from_text
    Texts.split_at_code
escape_refused = refl

unlike_dots :
    (s : String) → (s == "/") ≡ false → (s == ".") ≡ false → (s == "..") ≡ false → IsName s
unlike_dots s a b c =
    (λ e. cc ((eq_iff s "/").1 e), λ e. cc ((eq_iff s ".").1 e), λ e. cc ((eq_iff s "..").1 e))

plain_names : All IsName (from_text "prompts/a.txt")
unfolding from_text Texts.split_at_code
plain_names = (unlike_dots "prompts" refl refl refl, (unlike_dots "a.txt" refl refl refl, tt))

resolve_bundle_file_iff_example :
    (resolve_bundle_file one_file bundle_root "prompts/a.txt"
      ≡ ok ("/" ∷ ("skill" ∷ ("prompts" ∷ ("a.txt" ∷ [])))))
    ↔ ((one_file.canonicalize (bundle_root ++ from_text "prompts/a.txt")
          ≡ ok ("/" ∷ ("skill" ∷ ("prompts" ∷ ("a.txt" ∷ [])))))
        × (starts_with ("/" ∷ ("skill" ∷ ("prompts" ∷ ("a.txt" ∷ [])))) bundle_root ≡ true))
resolve_bundle_file_iff_example =
    resolve_bundle_file_iff one_file bundle_root "prompts/a.txt" bundle_root
      ("/" ∷ ("skill" ∷ ("prompts" ∷ ("a.txt" ∷ [])))) refl
      ("skill" ∷ [], refl, (unlike_dots "skill" refl refl refl, tt)) plain_names

reject_unknown_vh_keys_iff_example :
    (reject_unknown_vh_keys (readers.parse_yaml) "name: review" ≡ ok tt) ↔ (
      All IsCurrent (Frontmatter.text_keys review_yaml)
      × All IsAllowed (Frontmatter.scenery_keys review_yaml))
reject_unknown_vh_keys_iff_example =
    reject_unknown_vh_keys_iff (readers.parse_yaml) "name: review" review_yaml refl

abbrev three_triggers : List String
three_triggers = "compare" ∷ (" " ∷ ("compare" ∷ ("merge" ∷ [])))

two_left :
    Frontmatter.validate_and_normalize_triggers is_space (λ s. s) three_triggers
    ≡ ok ("compare" ∷ ("merge" ∷ []))
unfolding Frontmatter.validate_and_normalize_triggers Frontmatter.normalize_triggers
    Frontmatter.retain_unseen Frontmatter.check_lengths Texts.trim_start Texts.trim_end
two_left = refl

validate_and_normalize_triggers-IsTriggers_example :
    IsTriggers is_space (λ s. s) three_triggers ("compare" ∷ ("merge" ∷ []))
validate_and_normalize_triggers-IsTriggers_example =
    validate_and_normalize_triggers-IsTriggers is_space (λ s. s) three_triggers two_left

abbrev helper : PluginManifest ℕ
helper = record {
  schema_version = "1.0";
  id = "helper";
  name = "Helper";
  version = 1;
  publisher = "local";
  description = Option.none;
  category = Option.none;
  tags = [];
  skills =
      record { path = some "skills/a"; registry_id = Option.none; min_version = Option.none } ∷ [];
  mcp_servers = [];
  commands = [];
  user_config = [];
  update = Option.none;
}

validate_plugin_manifest_iff_example :
    (validate_plugin_manifest one_file is_space bundle_root helper ≡ ok tt)
    ↔ IsValid one_file is_space bundle_root helper
validate_plugin_manifest_iff_example =
    validate_plugin_manifest_iff one_file is_space bundle_root helper
