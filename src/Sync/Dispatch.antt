-- ===== src/Sync/Dispatch.antt =====
-- crates/scenery-daemon/src/sync/sse_client.rs, dispatch_event and parse_sync_event: what an
-- event of the stream does to the daemon. The readers of serde_json are a parameter. The tasks
-- that are spawned are recorded, with what they are given.
pub mod Replay
use vectorhawkd.Base.{
  ℕ, String, Bool, true, false, not, Option, none, some, List, [], ◌∷◌, ◌==◌, if◌then◌else◌,
}
use vectorhawkd.Snapshot.{InstallationRecord}
use vectorhawkd.Snapshot.Plugins.{PluginInstallationRecord, PluginSkillRef}

-- A UUID is a number; `V` are the values of serde_json.
pub record WireInstall : Type 0 where
  pub installation_id : ℕ
  pub skill_id : String
  pub version : String
  pub source : Option String

pub record WireDeactivate : Type 0 where
  pub installation_id : ℕ
  pub skill_id : String

pub record WireInstallMcp (V : Type 0) : Type 0 where
  pub installation_id : ℕ
  pub mcp_server_id : ℕ
  pub mcp_server_name : String
  pub package_source : String
  pub version_pin : Option String
  pub server_config : Option V
  pub auth_type : String
  pub gateway_server_id : Option String
  pub gateway_url : Option String

pub record WireDeactivateMcp : Type 0 where
  pub installation_id : ℕ
  pub mcp_server_id : ℕ

pub record WireInstallPlugin : Type 0 where
  pub installation_id : ℕ
  pub plugin_slug : String
  pub plugin_name : String
  pub description : String
  pub version : String
  pub author : String
  pub skills : List PluginSkillRef

pub record WireDeactivatePlugin : Type 0 where
  pub installation_id : ℕ
  pub plugin_slug : String

pub record RevocationRecord : Type 0 where
  pub artifact_type : String
  pub artifact_key : String
  pub version : Option String

pub record McpInstallationRecord (V : Type 0) : Type 0 where
  pub wire : WireInstallMcp V
  pub state : String

pub record OrgPolicySnapshot : Type 0 where
  pub managed_paths_mode : Option String
  pub block_third_party_inference : Option Bool

pub record WireSnapshot (V : Type 0) : Type 0 where
  pub installations : List InstallationRecord
  pub mcp_installations : Option (List (McpInstallationRecord V))
  pub plugin_installations : List PluginInstallationRecord
  pub revocations : Option (List RevocationRecord)
  pub org_policy : Option OrgPolicySnapshot

-- Each variant has the fields of the payload that it is read from.
pub data SyncEvent (V : Type 0) : Type 0 where
  snapshot : WireSnapshot V → SyncEvent V
  revoke unrevoke : RevocationRecord → SyncEvent V
  install : WireInstall → SyncEvent V
  deactivate purge : WireDeactivate → SyncEvent V
  install_mcp : WireInstallMcp V → SyncEvent V
  deactivate_mcp : WireDeactivateMcp → SyncEvent V
  install_plugin : WireInstallPlugin → SyncEvent V
  deactivate_plugin : WireDeactivatePlugin → SyncEvent V

pub record WireAdopted : Type 0 where
  pub slug : String
  pub kind : String
  pub source_path : String
  pub skill_id : Option String

pub record WirePublish : Type 0 where
  pub discovery_id : String
  pub slug : String
  pub source_path : String

pub record WireDriftResolution : Type 0 where
  pub drift_id : String
  pub slug : String
  pub kind : String
  pub resolution : String

-- `serde_json::from_str` at each type of payload.
pub record Serde (V : Type 0) : Type 0 where
  pub read_snapshot : String → Option (WireSnapshot V)
  pub read_install : String → Option WireInstall
  pub read_deactivate : String → Option WireDeactivate
  pub read_install_mcp : String → Option (WireInstallMcp V)
  pub read_deactivate_mcp : String → Option WireDeactivateMcp
  pub read_install_plugin : String → Option WireInstallPlugin
  pub read_deactivate_plugin : String → Option WireDeactivatePlugin
  pub read_revoke : String → Option RevocationRecord
  pub read_mode : String → Option String
  pub read_policy_mode : String → Option String
  pub read_enabled : String → Option Bool
  pub read_adopted : String → Option WireAdopted
  pub read_publish : String → Option WirePublish
  pub read_drift_resolution : String → Option WireDriftResolution

pub data Task : Type 0 where
  push_adopted_discovery : (slug kind source_path : String) → Task
  handle_discovery_adopted : (registry_url slug kind source_path : String) → Task
  handle_publish_requested : (registry_url discovery_id slug source_path : String) → Task
  handle_drift_resolution : (registry_url : String) → WireDriftResolution → Task

-- The rows of the table `sync_state` that a dispatch writes or reads, the names of skills that
-- are recorded, the live flag, the id that a reconnect sends, the events sent to the reconciler
-- and the tasks spawned, the last one first. A write to the table does not fail.
pub record Daemon (V : Type 0) : Type 0 where
  pub managed_paths_mode : Option String
  pub block_third_party_row : Option String
  pub block_third_party_inference : Bool
  pub last_event_id_row : Option String
  pub registry_url : Option String
  pub skill_local_names : List (String × String)
  pub last_event_id : Option String
  pub sent : List (SyncEvent V)
  pub tasks : List Task
  pub channel_open : Bool

abbrev or_empty : Option String → String
or_empty none = ""
or_empty (some s) = s

abbrev as_event : {A B : Type 0} → (A → B) → Option A → Option B
as_event f none = none
as_event f (some a) = some (f a)

module _ {V : Type 0} where
  abbrev pub no_change : SyncEvent V
  no_change = snapshot record {
    installations = [];
    mcp_installations = none;
    plugin_installations = [];
    revocations = none;
    org_policy = none;
  }

  module _ (serde : Serde V) where
    -- The types of event that are only logged or that `dispatch_event` handles itself.
    unfoldable pub parse_own : (event_type event_data : String) → Option (SyncEvent V)
    parse_own event_type event_data =
        if event_type == "state"
        then some no_change
        else if event_type == "managed_paths_policy_update"
        then as_event (λ mode. no_change) (serde.read_policy_mode event_data)
        else if event_type == "discovery_adopted"
        then some no_change
        else if event_type == "discovery_publish_requested"
        then some no_change
        else if event_type == "inference_policy_update"
        then some no_change
        else none

    unfoldable pub parse_sync_event : (event_type event_data : String) → Option (SyncEvent V)
    unfolding parse_own
    parse_sync_event event_type event_data =
        if event_type == "snapshot"
        then as_event snapshot (serde.read_snapshot event_data)
        else if event_type == "install"
        then as_event install (serde.read_install event_data)
        else if event_type == "deactivate"
        then as_event deactivate (serde.read_deactivate event_data)
        else if event_type == "purge"
        then as_event purge (serde.read_deactivate event_data)
        else if event_type == "install_mcp"
        then as_event install_mcp (serde.read_install_mcp event_data)
        else if event_type == "deactivate_mcp"
        then as_event deactivate_mcp (serde.read_deactivate_mcp event_data)
        else if event_type == "install_plugin"
        then as_event install_plugin (serde.read_install_plugin event_data)
        else if event_type == "deactivate_plugin"
        then as_event deactivate_plugin (serde.read_deactivate_plugin event_data)
        else if event_type == "revoke"
        then as_event revoke (serde.read_revoke event_data)
        else if event_type == "unrevoke"
        then as_event unrevoke (serde.read_revoke event_data)
        else parse_own event_type event_data

    abbrev on_read : {A : Type 0} → Option A → (A → Daemon V → Daemon V) → Daemon V → Daemon V
    on_read none f d = d
    on_read (some a) f d = f a d

    abbrev set_policy_mode : String → Daemon V → Daemon V
    set_policy_mode mode d = record d { managed_paths_mode = some mode }

    abbrev set_inference_policy : Bool → Daemon V → Daemon V
    set_inference_policy enabled d = record d {
      block_third_party_row = some (if enabled then "true" else "false");
      block_third_party_inference = enabled;
    }

    abbrev spawn : Task → Daemon V → Daemon V
    spawn task d = record d { tasks = task ∷ d.tasks }

    -- A task that needs the URL of the registry returns at once if there is none.
    abbrev spawn_with_url : (String → Task) → Daemon V → Daemon V
    spawn_with_url task d =
        if or_empty (d.registry_url) == "" then d else spawn (task (or_empty (d.registry_url))) d

    abbrev name_locally : Option String → String → Daemon V → Daemon V
    name_locally none slug d = d
    name_locally (some registry_id) slug d =
        if registry_id == slug
        then d
        else record d { skill_local_names = (registry_id, slug) ∷ d.skill_local_names }

    abbrev adopt : WireAdopted → Daemon V → Daemon V
    adopt w d =
        spawn_with_url (λ url. handle_discovery_adopted url (w.slug) (w.kind) (w.source_path))
          (spawn (push_adopted_discovery (w.slug) (w.kind) (w.source_path))
            (name_locally (w.skill_id) (w.slug) d))

    abbrev publish : WirePublish → Daemon V → Daemon V
    publish w =
        spawn_with_url
          (λ url. handle_publish_requested url (w.discovery_id) (w.slug) (w.source_path))

    abbrev resolve_drift : WireDriftResolution → Daemon V → Daemon V
    resolve_drift w = spawn_with_url (λ url. handle_drift_resolution url w)

    -- What is done for a type of event before it is parsed.
    unfoldable pub handle_before_parse : (event_type event_data : String) → Daemon V → Daemon V
    handle_before_parse event_type event_data d =
        if event_type == "managed_paths_policy_update"
        then on_read (serde.read_mode event_data) set_policy_mode d
        else if event_type == "inference_policy_update"
        then on_read (serde.read_enabled event_data) set_inference_policy d
        else if event_type == "discovery_adopted"
        then on_read (serde.read_adopted event_data) adopt d
        else if event_type == "discovery_publish_requested"
        then on_read (serde.read_publish event_data) publish d
        else if event_type == "managed_paths_drift_resolution"
        then on_read (serde.read_drift_resolution event_data) resolve_drift d
        else d

    abbrev pub persist_id : Option String → Daemon V → Daemon V
    persist_id none d = d
    persist_id (some id) d = record d { last_event_id = some id; last_event_id_row = some id }

    -- Where the channel is closed the event is not sent, and the result is true.
    abbrev pub forward : SyncEvent V → Daemon V → Daemon V × Bool
    forward event d =
        if d.channel_open then (record d { sent = event ∷ d.sent }, false) else (d, true)

    abbrev pub dispatch_parsed : Option (SyncEvent V) → Option String → Daemon V → Daemon V × Bool
    dispatch_parsed none event_id d = (d, false)
    dispatch_parsed (some event) event_id d = forward event (persist_id event_id d)

    unfoldable pub dispatch_event :
        (event_type event_data : String) (event_id : Option String) → Daemon V → Daemon V × Bool
    unfolding handle_before_parse parse_sync_event
    dispatch_event event_type event_data event_id d =
        dispatch_parsed (parse_sync_event event_type event_data) event_id
          (handle_before_parse event_type event_data d)
