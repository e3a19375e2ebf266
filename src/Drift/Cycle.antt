-- ===== src/Drift/Cycle.antt =====
-- crates/scenery-daemon/src/managed_paths/drift.rs, run_cycle and check_link_integrity: one
-- round of the scanner. The result is the new state, the counts and the items that are posted if
-- there are any; the post itself is not modelled.
pub mod Counts
pub mod Frame
use vectorhawkd.Base.{
  ℕ, ◌+◌, String, Bool, true, false, not, ◌&&◌, ◌||◌, Option, none, some, List, [], ◌∷◌, ◌++◌, ◌==◌,
  length, if◌then◌else◌, Result, ok, err,
}
use vectorhawkd.Base.Paths.{FilePath, from_text, join, join_path}
use vectorhawkd.Drift.{
  ManagedPathMarker, DriftError, DriftOutcome, DriftStatus, PolicyMode, Host, scan_once,
  read_policy_mode,
}
use vectorhawkd.Drift.Files.{Disk, exists, read, path_eq}
use vectorhawkd.Drift.Act.{drop_marker, quarantine_item}
use vectorhawkd.Drift.Resolve.{World}

-- What the operating system says of links.
pub record Links : Type 0 where
  pub is_symlink : FilePath → Bool
  pub canonicalize : FilePath → Option FilePath

abbrev same_target : Option FilePath → Option FilePath → Bool
same_target (some resolved) (some target) = path_eq resolved target
same_target _ _ = false

unfoldable pub link_is_intact : Links → (canonical link_path : FilePath) → Bool
link_is_intact links canonical link_path =
    if not (links.is_symlink link_path)
    then false
    else same_target (links.canonicalize link_path) (links.canonicalize canonical)

abbrev pub has_hash : Host → String → Option String → Bool
has_hash host expected none = false
has_hash host expected (some text) = host.hex_sha256 text == expected

-- A real directory in the place of the link: a copy of Scenery's own with the same SKILL.md.
abbrev pub is_own_copy : Host → Disk → FilePath → String → Bool
is_own_copy host disk link expected =
    exists disk (join link ".scenery-managed.json")
    && has_hash host expected (read disk (join link "SKILL.md"))

abbrev pub link_integrity_in : Host → Links → Disk → FilePath → (slug expected : String) → Bool
link_integrity_in host links disk home slug expected =
    let canonical = join_path (join (join home ".agents") "skills") (from_text slug) in
    let link = join_path (join (join home ".claude") "skills") (from_text slug) in
    if links.is_symlink link
    then link_is_intact links canonical link
    else if not (exists disk link)
    then true
    else is_own_copy host disk link expected

-- The function of the source never returns an error.
unfoldable pub check_link_integrity : Host → Links → Disk → (slug expected_hash : String) → Bool
unfolding link_is_intact exists read
check_link_integrity host links disk slug expected_hash = elim (host.home) [
  | none ↦ true
  | some home ↦ link_integrity_in host links disk home slug expected_hash
]

pub data Reason : Type 0 where
  at_path link_replaced : String → Reason

pub record DriftReportItem : Type 0 where
  pub slug : String
  pub kind : String
  pub current_hash : String
  pub expected_hash : String
  pub action : String
  pub detail : Reason

pub record CycleStats : Type 0 where
  pub scanned : ℕ
  pub drifted : ℕ
  pub deleted : ℕ

-- The state of the loop.
pub record Cycle : Type 0 where
  pub world : World
  pub stats : CycleStats
  pub to_report : List DriftReportItem

abbrev link_action : PolicyMode → String
link_action PolicyMode.approve_required = "awaiting_approval"
link_action _ = "reported"

abbrev item : DriftOutcome → (current_hash action : String) → Reason → DriftReportItem
item o current_hash action detail = record {
  slug = o.slug;
  kind = o.kind;
  current_hash = current_hash;
  expected_hash = o.expected_hash;
  action = action;
  detail = detail;
}

abbrev pub one_drifted : CycleStats → CycleStats
one_drifted stats = record stats { drifted = stats.drifted + 1 }

abbrev pub one_deleted : CycleStats → CycleStats
one_deleted stats = record stats { deleted = stats.deleted + 1 }

abbrev pub drop_of : World → DriftOutcome → World
drop_of w o = record w { markers = drop_marker (o.path) (w.markers) }

abbrev pub quarantined : World → DriftOutcome → Result DriftError Disk → World × String
quarantined w o (err e) = (w, "reported")
quarantined w o (ok disk) = (record (drop_of w o) { disk = disk }, "quarantined")

abbrev or_default : Option String → String
or_default none = ""
or_default (some s) = s

module _ (host : Host) (links : Links) (now : String) where
  -- The policy on a drifted item: the new state and the action that is reported.
  unfoldable pub apply_policy : PolicyMode → World → DriftOutcome → World × String
  apply_policy PolicyMode.audit_only w o = (w, "reported")
  apply_policy PolicyMode.warn w o = (w, "reported")
  apply_policy PolicyMode.quarantine w o = quarantined w o (quarantine_item host now (w.disk) o)
  apply_policy PolicyMode.approve_required w o = (w, "awaiting_approval")

  abbrev pub is_replaced : World → DriftOutcome → Bool
  is_replaced w o =
      (o.kind == "skill")
      && not (check_link_integrity host links (w.disk) (o.slug) (o.expected_hash))

  abbrev pub on_clean : PolicyMode → Cycle → DriftOutcome → Cycle
  on_clean mode c o =
      if is_replaced (c.world) o
      then record c {
        stats = one_drifted (c.stats);
        to_report = c.to_report ++ item o "" (link_action mode) (link_replaced (o.path)) ∷ [];
      }
      else c

  abbrev pub on_drifted : PolicyMode → Cycle → DriftOutcome → Cycle
  on_drifted mode c o =
      let (w, action) = apply_policy mode (c.world) o in
      record {
        world = w;
        stats = one_drifted (c.stats);
        to_report =
            c.to_report ++ item o (or_default (o.current_hash)) action (at_path (o.path)) ∷ [];
      }

  abbrev pub on_deleted : Cycle → DriftOutcome → Cycle
  on_deleted c o = record {
    world = drop_of (c.world) o;
    stats = one_deleted (c.stats);
    to_report = c.to_report ++ item o "" "deleted" (at_path (o.path)) ∷ [];
  }

  abbrev pub on_status : PolicyMode → Cycle → DriftOutcome → DriftStatus → Cycle
  on_status mode c o DriftStatus.clean = on_clean mode c o
  on_status mode c o DriftStatus.drifted = on_drifted mode c o
  on_status mode c o DriftStatus.deleted = on_deleted c o

  -- The body of the loop over the outcomes.
  unfoldable pub handle_outcome : PolicyMode → Cycle → DriftOutcome → Cycle
  unfolding apply_policy check_link_integrity
  handle_outcome mode c o = on_status mode c o (o.status)

  unfoldable pub handle_outcomes : PolicyMode → Cycle → List DriftOutcome → Cycle
  unfolding handle_outcome
  handle_outcomes mode c [] = c
  handle_outcomes mode c (o ∷ outcomes) = handle_outcomes mode (handle_outcome mode c o) outcomes

  -- `mode` is the state kept under `managed_paths_mode`.
  unfoldable pub run_cycle : (mode : Option String) → World → Cycle
  unfolding scan_once read_policy_mode handle_outcomes
  run_cycle mode w =
      let outcomes = scan_once host (w.disk) (w.markers) in
      handle_outcomes (read_policy_mode mode)
        (record {
          world = w;
          stats = record { scanned = length outcomes; drifted = 0; deleted = 0 };
          to_report = [];
        })
        outcomes
