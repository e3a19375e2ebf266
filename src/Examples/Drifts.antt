-- ===== src/Examples/Drifts.antt =====
-- Examples on the drift scanner of crates/scenery-daemon.
use Prim.Native.String.{String}
use vectorhawkd.Base.{
  ◌+◌, ◌≡◌, refl, true, false, none, some, [], ◌∷◌, ◌==◌, length, All, any, ok, err,
}
use vectorhawkd.Base.Texts
use vectorhawkd.Base.Paths.{FilePath, from_text, starts_with}
use vectorhawkd.Ownership
use vectorhawkd.Ownership.{claude_plugins_dir, read_known_marketplaces}
use vectorhawkd.Ownership.Native.{IsNative}
use vectorhawkd.Drift
use vectorhawkd.Drift.{
  ManagedPathMarker, DriftOutcome, DriftStatus, DriftError, Host, classify, scan_once,
  refused_scenery_entry, is_dir_kind,
}
use vectorhawkd.Drift.Files
use vectorhawkd.Drift.Files.{Disk, content, exists}
use vectorhawkd.Drift.Act
use vectorhawkd.Drift.Act.{remove_path_for, quarantine_item, find_marker_by_slug_kind}
use vectorhawkd.Drift.Act.Guards.{remove_path_for-removes, scenery_entry_refused}
use vectorhawkd.Drift.Resolve
use vectorhawkd.Drift.Resolve.{World, accept_local, restore_canonical}
use vectorhawkd.Drift.Resolve.Settled.{
  IsAccepted, accept_local-IsAccepted, restore_canonical_settled,
}
use vectorhawkd.Drift.Cycle.{Links, run_cycle}
use vectorhawkd.Drift.Cycle.Counts.{run_cycle-counts}
use vectorhawkd.Drift.Cycle.Frame.{IsApart, IsDirect, run_cycle-content}

-- A hash that is the text itself.
abbrev host : Host
host = record {
  home = some ("/" ∷ ("home" ∷ []));
  known_marketplaces = none;
  hex_sha256 = λ text. text;
  from_json = λ text. none;
  to_json = λ v. "";
  to_json_pretty = λ v. "";
}

abbrev marker : (path kind slug : String) → ManagedPathMarker
marker path kind slug = record {
  path = path;
  kind = kind;
  slug = slug;
  installation_id = none;
  source_sha256 = "old";
  migrated_at = "";
}

abbrev skill : ManagedPathMarker
skill = marker "/s/review" "skill" "review"

abbrev world : World
world = record {
  disk = record {
    files =
        ("/" ∷ ("s" ∷ ("review" ∷ ("SKILL.md" ∷ []))), "new")
        ∷ (("/" ∷ ("s" ∷ ("other" ∷ [])), "kept") ∷ []);
    unreadable = λ path. false;
  };
  markers = skill ∷ [];
}

abbrev no_links : Links
no_links = record { is_symlink = λ path. false; canonicalize = λ path. some path }

-- What a scan says of a marker.
abbrev outcome : ManagedPathMarker → DriftOutcome
outcome m = record {
  slug = m.slug;
  kind = m.kind;
  path = m.path;
  expected_hash = m.source_sha256;
  current_hash = none;
  status = DriftStatus.drifted;
}

abbrev own_entry : ManagedPathMarker
own_entry = marker "/home/.claude.json:scenery" "mcp" "scenery"

own_named : Drift.split_mcp_path (own_entry.path) ≡ ok (from_text "/home/.claude.json", "scenery")
unfolding Drift.split_mcp_path
own_named = refl

scenery_entry_refused_example :
    (remove_path_for host (world.disk) own_entry ≡ err refused_scenery_entry)
    × (quarantine_item host "now" (world.disk) (outcome own_entry) ≡ err refused_scenery_entry)
scenery_entry_refused_example =
    scenery_entry_refused host "now" (world.disk) own_entry (outcome own_entry) refl refl own_named
      refl refl

abbrev accepted_world : World
accepted_world = record world { markers = record skill { source_sha256 = "new" } ∷ [] }

accepts : accept_local host world "review" "skill" ≡ ok accepted_world
unfolding accept_local find_marker_by_slug_kind Drift.current_hash_for Files.exists Files.read
    Files.content Resolve.update_hash from_text Texts.split_at_code starts_with
accepts = refl

accept_local-IsAccepted_example : IsAccepted host world "review" "skill" accepted_world
accept_local-IsAccepted_example = accept_local-IsAccepted host world "review" "skill" accepts

restored : World
restored = record { disk = Files.remove_dir_all (world.disk) (from_text "/s/review"); markers = [] }

restores : restore_canonical host world "review" "skill" ≡ ok restored
unfolding restored restore_canonical find_marker_by_slug_kind remove_path_for Act.drop_marker
    Files.exists from_text Texts.split_at_code starts_with Ownership.ensure_not_native
    Ownership.is_anthropic_native_path Ownership.is_anthropic_native_in
restores = refl

cleared : Disk
cleared = Files.remove_dir_all (world.disk) (from_text "/s/review")

removes : remove_path_for host (world.disk) skill ≡ ok cleared
unfolding cleared remove_path_for Files.exists from_text Texts.split_at_code starts_with
    Ownership.ensure_not_native Ownership.is_anthropic_native_path Ownership.is_anthropic_native_in
removes = refl

remove_path_for-removes_example :
    (¬ IsNative
      (from_text (skill.path))
      (claude_plugins_dir ("/" ∷ ("home" ∷ [])))
      (read_known_marketplaces (host.known_marketplaces)))
    × (exists cleared (from_text (skill.path)) ≡ false)
    × ((path : FilePath)
        → starts_with path (from_text (skill.path)) ≡ false
        → content cleared path ≡ content (world.disk) path)
remove_path_for-removes_example = remove_path_for-removes host (world.disk) skill refl refl removes

restore_canonical_settled_example :
    (m : ManagedPathMarker) × (find_marker_by_slug_kind (world.markers) "review" "skill" ≡ some m)
    × (any (λ other. other.path == m.path) (restored.markers) ≡ false)
    × (is_dir_kind (m.kind) ≡ true → exists (restored.disk) (from_text (m.path)) ≡ false)
restore_canonical_settled_example = restore_canonical_settled host world "review" "skill" restores

run_cycle-counts_example :
    (length ((run_cycle host no_links "now" (some "quarantine") world).to_report)
      ≡ ((run_cycle host no_links "now" (some "quarantine") world).stats).drifted
        + ((run_cycle host no_links "now" (some "quarantine") world).stats).deleted)
    × (((run_cycle host no_links "now" (some "quarantine") world).stats).scanned
        ≡ length (scan_once host (world.disk) (world.markers)))
run_cycle-counts_example = run_cycle-counts host no_links "now" (some "quarantine") world

abbrev kept_file : FilePath
kept_file = "/" ∷ ("s" ∷ ("other" ∷ []))

away :
    (home : FilePath)
    → host.home ≡ some home
    → starts_with kept_file (Act.quarantine_root home "now" "skill") ≡ false
unfolding starts_with from_text
away home at = let one : "/" ∷ ("home" ∷ []) ≡ home = cc in rw (← one) refl

IsDirect-home : (home : FilePath) → host.home ≡ some home → IsDirect home
IsDirect-home home at = let one : "/" ∷ ("home" ∷ []) ≡ home = cc in rw (← one) refl

apart : All (IsApart host "now" kept_file) (scan_once host (world.disk) (world.markers))
unfolding scan_once classify Drift.split_mcp_path starts_with from_text Texts.split_at_code
    Ownership.is_anthropic_native_path Ownership.is_anthropic_native_in
apart = (
  (
    λ home at. (IsDirect-home home at, away home at),
    refl,
    λ dir. ((refl, refl), refl, refl),
    λ file slug named. cc,
  ),
  tt,
)

run_cycle-content_example :
    content (((run_cycle host no_links "now" (some "quarantine") world).world).disk) kept_file
    ≡ content (world.disk) kept_file
run_cycle-content_example =
    run_cycle-content host no_links "now" (some "quarantine") world kept_file apart
