-- ===== src/Resolver/Permit.antt =====
-- What must hold of a skill of the user's for it to run.
use vectorhawkd.Base.{
  String, ◌≡◌, refl, ◌⊎◌, inl, inr, Bool, false, Option, none, some, arith, Dict, lookup, ok, err,
  Bool-cases, Option-cases, >>=-HasValue,
}
use vectorhawkd.Base.Paths.{FilePath, from_text, join}
use vectorhawkd.Resolver.{
  PolicyStatus, user, Policy, active, Host, check_minimum, decide, resolve_user, resolve_skill,
  project_skill_dir,
}

status-cases : (s : PolicyStatus) → (s ≡ PolicyStatus.active) ⊎ (s ≡ PolicyStatus.blocked)
status-cases PolicyStatus.active = inl refl
status-cases PolicyStatus.blocked = inr refl

module _ {Version : Type 0} (parse_version : String → Option Version)
    (older : Version → Version → Bool) where
  -- The installed version is not below the minimum, if there is one.
  abbrev pub IsRecent : String → Option Version → Type 0
  IsRecent version none = Unit
  IsRecent version (some minimum) =
      (installed : Version) × (parse_version version ≡ some installed)
      × (older installed minimum ≡ false)

  abbrev pub IsPermitted : Host parse_version older → String → String → FilePath → Type 0
  IsPermitted h skill version path =
      (rows : Dict (String × String)) × (root : String) × (p : Policy parse_version older) × (h.rows
        ≡ ok rows)
      × (lookup skill rows ≡ some (version, root))
      × (path ≡ join (from_text root) "active")
      × (h.policy_of skill ≡ ok p)
      × (p.status ≡ PolicyStatus.active)
      × IsRecent version p.minimum_allowed_version

  check_minimum-IsRecent :
      (skill id have version : String) (minimum : Option Version) (start path : FilePath)
      → check_minimum parse_version older skill have minimum (active skill have start user)
        ≡ ok (active id version path user)
      → (version ≡ have) × (path ≡ start) × IsRecent have minimum
  unfolding check_minimum
  check_minimum-IsRecent skill id have version none start path e = ground arith
  check_minimum-IsRecent skill id have version (some minimum) start path e =
      elim (Option-cases (parse_version have)) [
        | inl bad ↦ ground arith
        | inr (installed, parsed) ↦ elim (Bool-cases (older installed minimum)) [
          | inl below ↦ ground arith
          | inr recent ↦ (ground arith, ground arith, (installed, parsed, recent))
        ]
      ]

  decide-IsRecent :
      (skill id have version root : String) (path : FilePath) (p : Policy parse_version older)
      → decide parse_version older skill have root p ≡ ok (active id version path user)
      → (p.status ≡ PolicyStatus.active)
        × (version ≡ have)
        × (path ≡ join (from_text root) "active")
        × IsRecent have p.minimum_allowed_version
  unfolding decide
  decide-IsRecent skill id have version root path p e = elim (status-cases p.status) [
    | inl live ↦
        let m =
          check_minimum-IsRecent skill id have version p.minimum_allowed_version
            (join (from_text root) "active") path (rw (live, decide) at e) in
        (live, m.0, m.1, m.2)
    | inr stop ↦ ground arith
  ]

  -- A skill runs from the user's installation.
  resolve_user-IsPermitted :
      (h : Host parse_version older) (skill id version : String) (path : FilePath)
      → resolve_user parse_version older h skill ≡ ok (active id version path user)
      → IsPermitted h skill version path
  unfolding resolve_user
  resolve_user-IsPermitted h skill id version path e =
      let opened = >>=-HasValue h.rows _ e in
      elim (Option-cases (lookup skill opened.0)) [
        | inl absent ↦ let f = rw absent at opened.2 in ground arith
        | inr ((have, root), found) ↦
            let fetched = >>=-HasValue (h.policy_of skill) _ (rw found at opened.2) in
            let d = decide-IsRecent skill id have version root path fetched.0 fetched.2 in
            (opened.0, root, fetched.0, opened.1, rw d.1 found, d.2, fetched.1, d.0, rw d.1 d.3)
      ]

  -- Where a skill may run from the user's installation, it is installed, its policy was fetched
  -- and is active, and its version parses and is not below the policy's minimum, if there is one.
  pub resolve_skill-IsPermitted :
      (h : Host parse_version older) (skill id version : String) (root : Option FilePath)
      (path : FilePath)
      → resolve_skill parse_version older h skill root ≡ ok (active id version path user)
      → IsPermitted h skill version path
  unfolding resolve_skill
  resolve_skill-IsPermitted h skill id version none path e =
      resolve_user-IsPermitted h skill id version path e
  resolve_skill-IsPermitted h skill id version (some root) path e =
      elim (Option-cases (h.bundle (project_skill_dir parse_version older root skill))) [
        | inl absent ↦
            resolve_user-IsPermitted h skill id version path (rw (absent, resolve_skill) at e)
        | inr (ok found, there) ↦ let f = rw (there, resolve_skill) at e in ground arith
        | inr (err failed, there) ↦ let f = rw (there, resolve_skill) at e in ground arith
      ]
