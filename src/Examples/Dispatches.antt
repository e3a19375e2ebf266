-- ===== src/Examples/Dispatches.antt =====
-- Examples on the events that the daemon handles itself.
use vectorhawkd.Base.{◌≡◌, ◌≢◌, refl, eq_iff, String, true, false, none, some, [], ◌∷◌}
use vectorhawkd.Sync.Dispatch.{
  WireDriftResolution, Serde, Daemon, dispatch_event, handle_drift_resolution,
}
use vectorhawkd.Sync.Dispatch.Replay.{
  dispatch_event-repeats, dispatch_event-asks_nothing, SendsQuietly,
}

abbrev accepted : WireDriftResolution
accepted = record { drift_id = "7"; slug = "notes"; kind = "skill"; resolution = "accept_local" }

-- Every payload that can be read as a drift resolution is the one above.
abbrev serde : Serde String
serde = record {
  read_snapshot = λ text. none;
  read_install = λ text. none;
  read_deactivate = λ text. none;
  read_install_mcp = λ text. none;
  read_deactivate_mcp = λ text. none;
  read_install_plugin = λ text. none;
  read_deactivate_plugin = λ text. none;
  read_revoke = λ text. none;
  read_mode = λ text. some "warn";
  read_policy_mode = λ text. some "warn";
  read_enabled = λ text. none;
  read_adopted = λ text. none;
  read_publish = λ text. none;
  read_drift_resolution = λ text. some accepted;
}

abbrev daemon : Daemon String
daemon = record {
  managed_paths_mode = none;
  block_third_party_row = none;
  block_third_party_inference = false;
  last_event_id_row = some "3";
  registry_url = some "https://registry";
  skill_local_names = [];
  last_event_id = some "3";
  sent = [];
  tasks = [];
  channel_open = true;
}

url_is_there : ◌≢◌ {A = String} "https://registry" ""
url_is_there e = cc ((eq_iff "https://registry" "").1 e)

dispatch_event-repeats_example :
    dispatch_event serde "managed_paths_drift_resolution" "{}"
      (some "4")
      ((dispatch_event serde "managed_paths_drift_resolution" "{}" (some "4") daemon).0)
    ≡ (
      record daemon {
        tasks =
            handle_drift_resolution "https://registry" accepted
            ∷ (handle_drift_resolution "https://registry" accepted ∷ []);
      },
      false,
    )
dispatch_event-repeats_example =
    dispatch_event-repeats serde "{}" "https://registry" (some "4") daemon accepted refl refl
      url_is_there

dispatch_event-asks_nothing_example :
    SendsQuietly serde daemon
      ((dispatch_event serde "managed_paths_policy_update" "{}" (some "4") daemon).0)
dispatch_event-asks_nothing_example =
    dispatch_event-asks_nothing serde "managed_paths_policy_update" "{}" (some "4") daemon refl
