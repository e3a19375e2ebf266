-- ===== src/Snapshot/Converge.antt =====
-- When a snapshot asks for nothing, and what is asked for.
use vectorhawkd.Base.{
  String, ◌≡◌, ◌≢◌, ◌⊎◌, inl, inr, Bool, true, false, ◌||◌, none, some, List, [], ◌∷◌, arith, ◌==◌,
  eq_iff, lookup, All, Option-cases, All-imp,
}
use vectorhawkd.Snapshot.{
  InstallationRecord, SyncEvent, install, deactivate, purge, Local, is_unresolved,
  locally_satisfied, locally_active, derived_event, build_derived_events, is_known, wants_install,
}

-- The version is one still to be resolved.
abbrev pub IsOpen : InstallationRecord → Type 0
IsOpen r = (r.version ≡ "") ⊎ (r.version ≡ "latest")

-- The skill is here in the record's version, not deactivated, and its active link exists.
abbrev pub IsHere : Local → InstallationRecord → Type 0
IsHere l r =
    (lookup r.skill_id l.skills ≡ some (r.version, false)) × (l.active_link r.skill_id ≡ true)

-- No version of the skill is active here: it is unknown or deactivated, and it has no active link.
abbrev pub IsInactive : Local → InstallationRecord → Type 0
IsInactive l r =
    ((lookup r.skill_id l.skills ≡ none)
      ⊎ ((have : String) × (lookup r.skill_id l.skills ≡ some (have, true))))
    × (l.active_link r.skill_id ≡ false)

-- The state is none of those that ask for something.
abbrev pub IsOther : String → Type 0
IsOther state =
    (state ≢ "desired")
    × (state ≢ "installing")
    × (state ≢ "installed")
    × (state ≢ "deactivated")
    × (state ≢ "removed")

-- The record's skill is as the record wants it, as far as a snapshot can tell: a version to
-- resolve and an unknown state or an error ask for nothing.
abbrev pub IsSettled : Local → InstallationRecord → Type 0
IsSettled l r =
    IsOpen r
    ⊎ ((r.state ≡ "installed" × IsHere l r)
        ⊎ ((r.state ≡ "deactivated" × IsInactive l r)
            ⊎ ((r.state ≡ "removed" × lookup r.skill_id l.skills ≡ none) ⊎ IsOther r.state)))

-- The same in terms of the tests that the code makes.
abbrev IsQuiet : Local → InstallationRecord → Type 0
IsQuiet l r =
    (is_unresolved r ≡ true)
    ⊎ ((r.state ≡ "installed" × locally_satisfied l r ≡ true)
        ⊎ ((r.state ≡ "deactivated" × locally_active l r ≡ false)
            ⊎ ((r.state ≡ "removed" × lookup r.skill_id l.skills ≡ none)
                ⊎ (wants_install r ≡ false × (r.state ≢ "deactivated") × (r.state ≢ "removed")))))

abbrev wants : String → Bool
wants s = (s == "desired") || ((s == "installing") || (s == "installed"))

-- What a skill must be here for an event that takes it away, and what the portal must want.
abbrev pub IsWarranted : Local → InstallationRecord → SyncEvent → Type 0
IsWarranted l r (install id skill version source) =
    (id ≡ r.installation_id)
    × (skill ≡ r.skill_id)
    × (version ≡ r.version)
    × (wants_install r ≡ true)
    × (is_unresolved r ≡ false)
IsWarranted l r (deactivate id skill) =
    (id ≡ r.installation_id)
    × (skill ≡ r.skill_id)
    × (r.state ≡ "deactivated")
    × (locally_active l r ≡ true)
IsWarranted l r (purge id skill) =
    (id ≡ r.installation_id)
    × (skill ≡ r.skill_id)
    × (r.state ≡ "removed")
    × (is_known (lookup r.skill_id l.skills) ≡ true)

derived_event-IsWarranted :
    (l : Local) (r : InstallationRecord) (e : SyncEvent)
    → derived_event l r ≡ some e
    → IsWarranted l r e
unfolding derived_event
derived_event-IsWarranted l r (install id skill version source) h = ground (arith, h)
derived_event-IsWarranted l r (deactivate id skill) h =
    ground (arith, h, eq_iff r.state "deactivated")
derived_event-IsWarranted l r (purge id skill) h = ground (arith, h, eq_iff r.state "removed")

abbrev pub IsAskedBy : Local → List InstallationRecord → SyncEvent → Type 0
IsAskedBy l [] e = ⊥
IsAskedBy l (r ∷ rest) e = IsWarranted l r e ⊎ IsAskedBy l rest e

-- Every event of a snapshot is warranted by one of its records: an install by a record that
-- wants the skill at a resolved version, a removal by one that wants it gone while it is here.
pub build_derived_events-IsAskedBy :
    (l : Local) (records : List InstallationRecord)
    → All (IsAskedBy l records) (build_derived_events l records)
unfolding build_derived_events
build_derived_events-IsAskedBy l [] = tt
build_derived_events-IsAskedBy l (r ∷ rest) =
    let later =
      All-imp (λ e a. inr a) (build_derived_events l rest)
        (build_derived_events-IsAskedBy l rest) in
    elim (Option-cases (derived_event l r)) [
      | inl quiet ↦ rw quiet later
      | inr (event, asked) ↦ rw asked (inl (derived_event-IsWarranted l r event asked), later)
    ]
