-- ===== src/Resolver.antt =====
-- crates/scenery-core/src/resolver.rs and policy.rs: from the name of a skill to what may run.
-- A path that the source keeps as a text is a `FilePath` here.
pub mod Permit
use vectorhawkd.Base.{
  String, Bool, true, false, Option, none, some, List, [], ◌∷◌, ◌==◌, Dict, lookup, insert,
  if◌then◌else◌, Result, ok, err, ◌>>=◌,
}
use vectorhawkd.Base.Paths.{FilePath, from_text, join, join_path}

pub data PolicyStatus : Type 0 where
  active blocked : PolicyStatus

-- The `format!` texts of the reasons are kept by their parts.
pub data ResolveError : Type 0 where
  failed_to_load : String → FilePath → ResolveError
  invalid_version : String → ResolveError
  outside : String → ResolveError

pub data InstallScope : Type 0 where
  user : InstallScope
  project : FilePath → InstallScope

-- `Version` is `semver::Version` of the crate `semver`, with its parser and its order.
module _ {Version : Type 0} (parse_version : String → Option Version)
    (older : Version → Version → Bool) where
  pub record Policy : Type 0 where
    pub skill_id : String
    pub status : PolicyStatus
    pub target_version : Option Version
    pub minimum_allowed_version : Option Version
    pub blocked_message : Option String

  unfoldable pub default_active : String → Policy
  default_active skill = record {
    skill_id = skill;
    status = PolicyStatus.active;
    target_version = none;
    minimum_allowed_version = none;
    blocked_message = none;
  }

  -- `MockPolicyClient`, the client that the daemon holds.
  pub record MockPolicyClient : Type 0 where
    pub overrides : Dict Policy

  unfoldable pub with_policy : MockPolicyClient → Policy → MockPolicyClient
  with_policy c p = record { overrides = insert p.skill_id p c.overrides }

  unfoldable pub fetch_policy : MockPolicyClient → String → Result ResolveError Policy
  unfolding default_active
  fetch_policy c skill = elim (lookup skill (c.overrides)) [
    | none ↦ ok (default_active skill)
    | some p ↦ ok p
  ]

  pub data BlockReason : Type 0 where
    message : String → BlockReason
    below_minimum : (installed minimum : Version) → BlockReason

  pub data ResolveOutcome : Type 0 where
    active :
        (skill_id version : String) (install_path : FilePath) (scope : InstallScope)
        → ResolveOutcome
    blocked : (skill_id : String) (reason : BlockReason) → ResolveOutcome
    not_installed : (skill_id : String) → ResolveOutcome

  -- What is outside: the bundle of a directory that holds a SKILL.md, by its version, the rows
  -- (active_version, install_root) of the table `installed_skills`, and the policy's source.
  pub record Host : Type 0 where
    pub bundle : FilePath → Option (Result ResolveError String)
    pub rows : Result ResolveError (Dict (String × String))
    pub policy_of : String → Result ResolveError Policy

  abbrev pub project_skill_dir : FilePath → String → FilePath
  project_skill_dir root skill = join_path (join (join root ".scenery") "skills") (from_text skill)

  abbrev loaded :
      String → FilePath → FilePath → Result ResolveError String → Result ResolveError ResolveOutcome
  loaded skill root dir (ok version) = ok (active skill version dir (project root))
  loaded skill root dir (err e) = err (failed_to_load skill dir)

  abbrev default_message : Option String → String
  default_message none = "This skill is temporarily unavailable."
  default_message (some text) = text

  -- The test of `minimum_allowed_version`.
  unfoldable pub check_minimum :
      String → String → Option Version → ResolveOutcome → Result ResolveError ResolveOutcome
  check_minimum skill version none outcome = ok outcome
  check_minimum skill version (some minimum) outcome = elim (parse_version version) [
    | none ↦ err (invalid_version version)
    | some installed ↦
        if older installed minimum
        then ok (blocked skill (below_minimum installed minimum))
        else ok outcome
  ]

  -- The decision on a policy that was fetched.
  unfoldable pub decide : String → String → String → Policy → Result ResolveError ResolveOutcome
  unfolding check_minimum from_text
  decide skill version install_root p = elim (p.status) [
    | PolicyStatus.blocked ↦ ok (blocked skill (message (default_message (p.blocked_message))))
    | PolicyStatus.active ↦
        check_minimum skill version (p.minimum_allowed_version)
          (active skill version (join (from_text install_root) "active") user)
  ]

  -- The part after the look at the project.
  unfoldable pub resolve_user : Host → String → Result ResolveError ResolveOutcome
  unfolding decide
  resolve_user h skill = do
    rows ← h.rows
    elim (lookup skill rows) [
      | none ↦ ok (not_installed skill)
      | some (version, install_root) ↦ h.policy_of skill >>= decide skill version install_root
    ]

  unfoldable pub resolve_skill :
      Host → String → Option FilePath → Result ResolveError ResolveOutcome
  unfolding resolve_user
  resolve_skill h skill none = resolve_user h skill
  resolve_skill h skill (some root) =
      let dir = project_skill_dir root skill in
      elim (h.bundle dir) [ none ↦ resolve_user h skill | some found ↦ loaded skill root dir found ]
