-- ===== src/Snapshot.antt =====
-- crates/scenery-daemon/src/sync/reconciler.rs, build_derived_events_blocking: what a snapshot
-- of the desired installations asks for, against what is installed. A database that cannot be
-- opened is not modelled.
pub mod Converge
pub mod Plugins
use vectorhawkd.Base.{
  ℕ, String, Bool, true, false, not, ◌&&◌, ◌||◌, Option, none, some, List, [], ◌∷◌, ◌==◌, Dict,
  lookup, if◌then◌else◌,
}

-- A UUID is a number.
pub record InstallationRecord : Type 0 where
  pub installation_id : ℕ
  pub skill_id : String
  pub version : String
  pub state : String
  pub source : Option String

-- The events of `SyncEvent` that the snapshot of the skills derives.
pub data SyncEvent : Type 0 where
  install : (installation_id : ℕ) (skill_id version : String) (source : Option String) → SyncEvent
  deactivate purge : (installation_id : ℕ) (skill_id : String) → SyncEvent

-- What `load_local_skill_state` gives, a version and the flag `deactivated` of each skill, and
-- whether the path `skills/<id>/active` exists.
pub record Local : Type 0 where
  pub skills : Dict (String × Bool)
  pub active_link : String → Bool

abbrev pub is_match : String → Option (String × Bool) → Bool
is_match version none = false
is_match version (some (have, deactivated)) = (have == version) && not deactivated

abbrev pub is_active : Option (String × Bool) → Bool
is_active none = false
is_active (some (have, deactivated)) = not deactivated

abbrev pub is_known : Option (String × Bool) → Bool
is_known none = false
is_known (some entry) = true

unfoldable pub locally_satisfied : Local → InstallationRecord → Bool
locally_satisfied l r =
    is_match (r.version) (lookup (r.skill_id) (l.skills)) && l.active_link (r.skill_id)

unfoldable pub locally_active : Local → InstallationRecord → Bool
locally_active l r = is_active (lookup (r.skill_id) (l.skills)) || l.active_link (r.skill_id)

abbrev pub is_unresolved : InstallationRecord → Bool
is_unresolved r = (r.version == "") || (r.version == "latest")

abbrev pub wants_install : InstallationRecord → Bool
wants_install r = (r.state == "desired") || ((r.state == "installing") || (r.state == "installed"))

abbrev install_event : InstallationRecord → SyncEvent
install_event r = install (r.installation_id) (r.skill_id) (r.version) (r.source)

-- The body of the loop: the event of one record.
unfoldable pub derived_event : Local → InstallationRecord → Option SyncEvent
unfolding locally_satisfied locally_active
derived_event l r =
    if is_unresolved r
    then none
    else if wants_install r
    then (if locally_satisfied l r && (r.state == "installed")
        then none
        else some (install_event r))
    else if r.state == "deactivated"
    then (if locally_active l r then some (deactivate (r.installation_id) (r.skill_id)) else none)
    else if r.state == "removed"
    then (if is_known (lookup (r.skill_id) (l.skills))
        then some (purge (r.installation_id) (r.skill_id))
        else none)
    else none

abbrev push : Option SyncEvent → List SyncEvent → List SyncEvent
push none events = events
push (some event) events = event ∷ events

unfoldable pub build_derived_events : Local → List InstallationRecord → List SyncEvent
unfolding derived_event
build_derived_events l [] = []
build_derived_events l (r ∷ rest) = push (derived_event l r) (build_derived_events l rest)
