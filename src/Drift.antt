-- ===== src/Drift.antt =====
-- crates/scenery-daemon/src/managed_paths/drift.rs: what the scanner finds of the managed paths.
-- The hash, the JSON text and the links of the file system are arguments; the rows of the table
-- managed_path_markers are a list, in the order in which the database gives them.
pub mod Files
pub mod Scan
pub mod Act
pub mod Resolve
pub mod Cycle
use Prim.Native.Char.{Char, code}
use Prim.Native.String
use vectorhawkd.Base.{
  ℕ, String, Bool, true, false, not, ◌&&◌, ◌||◌, Option, none, some, List, [], ◌∷◌, ◌==◌, eqb, keep,
  map, if◌then◌else◌, Result, ok, err, ◌>>=◌,
}
use vectorhawkd.Base.Json.{Json, Fields, get}
use vectorhawkd.Base.Paths.{FilePath, from_text, join}
use vectorhawkd.Ownership.{NativeError, is_anthropic_native_path}
use vectorhawkd.Drift.Files.{Disk, exists, read}

pub data DriftStatus : Type 0 where
  clean drifted deleted : DriftStatus

pub record DriftOutcome : Type 0 where
  pub slug : String
  pub kind : String
  pub path : String
  pub expected_hash : String
  pub current_hash : Option String
  pub status : DriftStatus

pub data PolicyMode : Type 0 where
  audit_only warn quarantine approve_required : PolicyMode

unfoldable pub from_str_or_default : String → PolicyMode
from_str_or_default s =
    if s == "warn"
    then PolicyMode.warn
    else if s == "quarantine"
    then PolicyMode.quarantine
    else if s == "approve_required"
    then PolicyMode.approve_required
    else PolicyMode.audit_only

-- The state kept under `managed_paths_mode`; `none` is a state that is missing or unreadable.
unfoldable pub read_policy_mode : Option String → PolicyMode
unfolding from_str_or_default
read_policy_mode none = PolicyMode.audit_only
read_policy_mode (some s) = from_str_or_default s

pub record ManagedPathMarker : Type 0 where
  pub path : String
  pub kind : String
  pub slug : String
  pub installation_id : Option String
  pub source_sha256 : String
  pub migrated_at : String

pub data DriftError : Type 0 where
  malformed_mcp_path unreadable malformed_json home_not_resolvable : DriftError
  refused_scenery_entry : DriftError
  no_marker missing_file : DriftError
  native : NativeError → DriftError

-- What the code takes from the host and from other crates: the home directory, the file
-- known_marketplaces.json, the SHA-256 of a text, and JSON read and written.
pub record Host : Type 0 where
  pub home : Option FilePath
  pub known_marketplaces : Option Json
  pub hex_sha256 : String → String
  pub from_json : String → Option Json
  pub to_json : Json → String
  pub to_json_pretty : Json → String

abbrev is_colon : Char → Bool
is_colon c = eqb (code c) b':'

-- `rfind(':')` and the parts on either side of it.
abbrev pub at_last_colon : String → Option (String × String)
at_last_colon String.[] = none
at_last_colon (String.◌∷◌ c s) = elim (at_last_colon s) [
  | some (path, slug) ↦ some (String.◌∷◌ c path, slug)
  | none ↦ if is_colon c then some ("", s) else none
]

unfoldable pub split_mcp_path : String → Result DriftError (FilePath × String)
unfolding from_text
split_mcp_path path = elim (at_last_colon path) [
  | none ↦ err malformed_mcp_path
  | some (json, slug) ↦ ok (from_text json, slug)
]

abbrev pub hash_of_file : Host → Option String → Result DriftError (Option String)
hash_of_file host none = err unreadable
hash_of_file host (some text) = ok (some (host.hex_sha256 text))

abbrev pub hash_if_there : Host → Disk → FilePath → Result DriftError (Option String)
hash_if_there host disk file =
    if not (exists disk file) then ok none else hash_of_file host (read disk file)

abbrev pub or_unreadable : {A : Type 0} → Option A → Result DriftError A
or_unreadable none = err unreadable
or_unreadable (some a) = ok a

abbrev pub or_malformed : {A : Type 0} → Option A → Result DriftError A
or_malformed none = err malformed_json
or_malformed (some a) = ok a

-- `root.get("mcpServers").and_then(|s| s.get(slug))`
abbrev pub server_entry : String → Json → Option Json
server_entry slug root = elim (get "mcpServers" root) [ none ↦ none | some s ↦ get slug s ]

abbrev pub hash_of_entry : Host → Option Json → Option String
hash_of_entry host none = none
hash_of_entry host (some v) = some (host.hex_sha256 (host.to_json v))

-- The JSON file at a path.
abbrev pub read_json : Host → Disk → FilePath → Result DriftError Json
read_json host disk file =
    or_unreadable (read disk file) >>= λ text. or_malformed (host.from_json text)

abbrev pub hash_of_server : Host → Disk → FilePath × String → Result DriftError (Option String)
hash_of_server host disk (file, slug) =
    if not (exists disk file)
    then ok none
    else read_json host disk file >>= λ root. ok (hash_of_entry host (server_entry slug root))

-- `none` is a file that is gone, and a kind that is not known.
unfoldable pub current_hash_for :
    Host → Disk → ManagedPathMarker → Result DriftError (Option String)
unfolding from_text exists read split_mcp_path
current_hash_for host disk marker =
    if marker.kind == "skill"
    then hash_if_there host disk (join (from_text (marker.path)) "SKILL.md")
    else if marker.kind == "plugin"
    then hash_if_there host disk
        (join (join (from_text (marker.path)) ".claude-plugin") "plugin.json")
    else if marker.kind == "mcp"
    then (split_mcp_path (marker.path) >>= hash_of_server host disk)
    else ok none

abbrev pub status_of : String → Result DriftError (Option String) → DriftStatus
status_of expected (ok (some h)) = if h == expected then DriftStatus.clean else DriftStatus.drifted
status_of expected (ok none) = DriftStatus.deleted
status_of expected (err e) = DriftStatus.clean

abbrev hash_found : Result DriftError (Option String) → Option String
hash_found (ok found) = found
hash_found (err e) = none

unfoldable pub classify : Host → Disk → ManagedPathMarker → DriftOutcome
classify host disk marker =
    let found = current_hash_for host disk marker in
    record {
      slug = marker.slug;
      kind = marker.kind;
      path = marker.path;
      expected_hash = marker.source_sha256;
      current_hash = hash_found found;
      status = status_of (marker.source_sha256) found;
    }

abbrev pub is_native : Host → String → Bool
is_native host path =
    is_anthropic_native_path (host.home) (host.known_marketplaces) (from_text path)

abbrev pub is_dir_kind : String → Bool
is_dir_kind kind = (kind == "skill") || (kind == "plugin")

-- The markers that a scan passes over.
abbrev pub is_skipped : Host → ManagedPathMarker → Bool
is_skipped host marker = is_dir_kind (marker.kind) && is_native host (marker.path)

unfoldable pub scan_once : Host → Disk → List ManagedPathMarker → List DriftOutcome
unfolding classify
scan_once host disk [] = []
scan_once host disk (marker ∷ markers) =
    let rest = scan_once host disk markers in
    if is_skipped host marker then rest else classify host disk marker ∷ rest
