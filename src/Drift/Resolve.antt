-- ===== src/Drift/Resolve.antt =====
-- crates/scenery-daemon/src/managed_paths/drift.rs: what a resolution of an administrator does.
-- The acknowledgement that follows it is a post to the registry and is not modelled.
pub mod Settled
use vectorhawkd.Base.{
  String, Bool, Option, none, some, List, [], ◌∷◌, ◌==◌, map, if◌then◌else◌, Result, ok, err, ◌>>=◌,
}
use vectorhawkd.Base.Paths.{from_text}
use vectorhawkd.Drift.{
  ManagedPathMarker, DriftError, no_marker, missing_file, Host, current_hash_for, split_mcp_path,
}
use vectorhawkd.Drift.Files.{Disk, exists, read, write, remove_dir_all}
use vectorhawkd.Drift.Act.{drop_marker, find_marker_by_slug_kind, remove_path_for}

pub record World : Type 0 where
  pub disk : Disk
  pub markers : List ManagedPathMarker

abbrev pub found_marker : World → (slug kind : String) → Result DriftError ManagedPathMarker
found_marker w slug kind = elim (find_marker_by_slug_kind (w.markers) slug kind) [
  | none ↦ err no_marker
  | some marker ↦ ok marker
]

abbrev pub there : Option String → Result DriftError String
there none = err missing_file
there (some hash) = ok hash

abbrev pub set_hash : (path hash : String) → ManagedPathMarker → ManagedPathMarker
set_hash path hash m = if m.path == path then record m { source_sha256 = hash } else m

-- `UPDATE managed_path_markers SET source_sha256 = ?1 WHERE path = ?2`
unfoldable pub update_hash : (path hash : String) → List ManagedPathMarker → List ManagedPathMarker
update_hash path hash markers = map (set_hash path hash) markers

abbrev pub accepted : World → ManagedPathMarker → String → World
accepted w marker hash = record w { markers = update_hash (marker.path) hash (w.markers) }

abbrev pub accept_marker : Host → World → ManagedPathMarker → Result DriftError World
accept_marker host w marker =
    current_hash_for host (w.disk) marker >>= there >>= λ hash. ok (accepted w marker hash)

unfoldable pub accept_local : Host → World → (slug kind : String) → Result DriftError World
unfolding current_hash_for find_marker_by_slug_kind update_hash
accept_local host w slug kind = found_marker w slug kind >>= accept_marker host w

abbrev pub restore_marker : Host → World → ManagedPathMarker → Result DriftError World
restore_marker host w marker = remove_path_for host (w.disk) marker >>= λ disk.
    ok (record w { disk = disk; markers = drop_marker (marker.path) (w.markers) })

unfoldable pub restore_canonical : Host → World → (slug kind : String) → Result DriftError World
unfolding remove_path_for find_marker_by_slug_kind drop_marker
restore_canonical host w slug kind = found_marker w slug kind >>= restore_marker host w

-- `disabled` is the variable that switches the reconciler off. Any other resolution is a no-op.
unfoldable pub handle_drift_resolution :
    Host → (disabled : Bool) → World → (slug kind resolution : String) → Result DriftError World
unfolding accept_local restore_canonical
handle_drift_resolution host disabled w slug kind resolution =
    if disabled
    then ok w
    else if resolution == "accept_local"
    then accept_local host w slug kind
    else if resolution == "restore_canonical"
    then restore_canonical host w slug kind
    else ok w
