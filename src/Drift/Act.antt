-- ===== src/Drift/Act.antt =====
-- crates/scenery-daemon/src/managed_paths/drift.rs: the changes of the disk and of the table of
-- markers that a resolution or a policy makes.
pub mod Guards
use vectorhawkd.Base.{
  String, Bool, true, false, not, ◌&&◌, ◌||◌, Option, none, some, List, [], ◌∷◌, ◌++◌, ◌==◌, keep,
  if◌then◌else◌, Result, ok, err, ◌>>=◌,
}
use Prim.Native.String.{◌++◌ as ◌+++◌}
use vectorhawkd.Base.Json
use vectorhawkd.Base.Json.{Json, Fields, end, field, get}
use vectorhawkd.Base.Paths.{FilePath, from_text, join, join_path}
use vectorhawkd.Ownership.{NativeError, ensure_not_native, is_scenery_mcp_key}
use vectorhawkd.Drift.{
  ManagedPathMarker, DriftOutcome, DriftError, refused_scenery_entry, Host, split_mcp_path,
  read_json, server_entry, is_dir_kind,
}
use vectorhawkd.Drift.Files.{Disk, exists, write, remove_dir_all, rename, read}

-- `DELETE FROM managed_path_markers WHERE path = ?1`
unfoldable pub drop_marker : String → List ManagedPathMarker → List ManagedPathMarker
drop_marker path markers = keep (λ m. not (m.path == path)) markers

abbrev pub is_of : String → String → ManagedPathMarker → Bool
is_of slug kind m = (m.slug == slug) && (m.kind == kind)

-- `WHERE slug = ?1 AND kind = ?2 LIMIT 1`
unfoldable pub find_marker_by_slug_kind :
    List ManagedPathMarker → (slug kind : String) → Option ManagedPathMarker
find_marker_by_slug_kind [] slug kind = none
find_marker_by_slug_kind (m ∷ markers) slug kind =
    if is_of slug kind m then some m else find_marker_by_slug_kind markers slug kind

-- `map.remove(slug)`
abbrev pub without : String → Fields → Fields
without slug end = end
without slug (field k v rest) = if k == slug then rest else field k v (without slug rest)

abbrev without_server : String → Json → Json
without_server slug (Json.object servers) = Json.object (without slug servers)
without_server slug other = other

abbrev in_servers : String → Fields → Fields
in_servers slug end = end
in_servers slug (field k v rest) =
    if k == "mcpServers"
    then field k (without_server slug v) rest
    else field k v (in_servers slug rest)

-- The entry of a server taken out of the object `mcpServers`, if there is one.
abbrev pub remove_server : String → Json → Json
remove_server slug (Json.object root) = Json.object (in_servers slug root)
remove_server slug other = other

abbrev pub native_checked : {A : Type 0} → Result NativeError A → Result DriftError A
native_checked (ok a) = ok a
native_checked (err e) = err (DriftError.native e)

abbrev pub check_native : Host → FilePath → Result DriftError (Unit {0})
check_native host dir = native_checked (ensure_not_native (host.home) (host.known_marketplaces) dir)

abbrev pub remove_directory : Host → Disk → FilePath → Result DriftError Disk
remove_directory host disk dir =
    check_native host dir >>= λ _. ok (if exists disk dir then remove_dir_all disk dir else disk)

abbrev pub write_without : Host → Disk → FilePath → String → Json → Disk
write_without host disk file slug root =
    write disk file (host.to_json_pretty (remove_server slug root))

abbrev pub remove_entry : Host → Disk → FilePath × String → Result DriftError Disk
remove_entry host disk (file, slug) =
    if is_scenery_mcp_key slug
    then err refused_scenery_entry
    else if not (exists disk file)
    then ok disk
    else read_json host disk file >>= λ root. ok (write_without host disk file slug root)

unfoldable pub remove_path_for : Host → Disk → ManagedPathMarker → Result DriftError Disk
unfolding from_text exists read write remove_dir_all split_mcp_path
remove_path_for host disk marker =
    if is_dir_kind (marker.kind)
    then remove_directory host disk (from_text (marker.path))
    else if marker.kind == "mcp"
    then (split_mcp_path (marker.path) >>= remove_entry host disk)
    else ok disk

abbrev pub or_null : Option Json → Json
or_null none = Json.null
or_null (some v) = v

-- `~/.claude/.scenery-quarantine/<time>/<kind>`
abbrev pub quarantine_root : FilePath → (now kind : String) → FilePath
quarantine_root home now kind =
    join_path (join (join (join home ".claude") ".scenery-quarantine") now) (from_text kind)

abbrev pub quarantine_directory :
    Host → Disk → (src dest_root : FilePath) (slug : String) → Result DriftError Disk
quarantine_directory host disk src dest_root slug = check_native host src >>= λ _.
    ok (if exists disk src then rename disk src (join_path dest_root (from_text slug)) else disk)

-- The entry is written to the quarantine before it is taken out of the file.
abbrev pub quarantine_entry :
    Host → Disk → (dest_root : FilePath) → FilePath × String → Result DriftError Disk
quarantine_entry host disk dest_root (file, slug) =
    if is_scenery_mcp_key slug
    then err refused_scenery_entry
    else if not (exists disk file)
    then ok disk
    else read_json host disk file >>= λ root.
        let snapshot = host.to_json_pretty (or_null (server_entry slug root)) in
        ok (
          write_without host
            (write disk (join_path dest_root (from_text (slug +++ ".json"))) snapshot) file slug
            root)

abbrev pub home_of : Host → Result DriftError FilePath
home_of host = elim (host.home) [ none ↦ err DriftError.home_not_resolvable | some home ↦ ok home ]

abbrev pub quarantine_into :
    Host → Disk → DriftOutcome → (dest_root : FilePath) → Result DriftError Disk
quarantine_into host disk outcome dest_root =
    if is_dir_kind (outcome.kind)
    then quarantine_directory host disk (from_text (outcome.path)) dest_root (outcome.slug)
    else if outcome.kind == "mcp"
    then (split_mcp_path (outcome.path) >>= quarantine_entry host disk dest_root)
    else ok disk

-- The disk after the call. The directories made for the quarantine hold no file yet.
unfoldable pub quarantine_item :
    Host → (now : String) → Disk → DriftOutcome → Result DriftError Disk
unfolding from_text exists read write rename split_mcp_path
quarantine_item host now disk outcome = home_of host >>= λ home.
    quarantine_into host disk outcome (quarantine_root home now (outcome.kind))
