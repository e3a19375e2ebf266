-- ===== src/Sync/Dispatch/Replay.antt =====
-- What the events do that `dispatch_event` handles itself.
use vectorhawkd.Base.{
  ◌≡◌, ◌≢◌, ◌∙◌, ap, ◌⊎◌, inl, inr, refl, String, Bool, true, false, ◌||◌, Option, none, some, [],
  ◌∷◌, ◌==◌, eq_false_of_ne, Bool-cases, arith,
}
use vectorhawkd.Snapshot.{Local, build_derived_events}
use vectorhawkd.Snapshot.Plugins.{LocalPlugins, no_diff, build_derived_plugin_events}
use vectorhawkd.Sync.Dispatch.{
  SyncEvent, snapshot, dispatch_parsed, forward, persist_id, WireDriftResolution, Serde, Daemon,
  no_change, parse_sync_event, handle_before_parse, parse_own, dispatch_event,
  handle_drift_resolution,
}

-- The types of event that the reconciler acts on.
abbrev acts : String → Bool
acts event_type =
    event_type == "snapshot"
    || (event_type == "install"
        || (event_type == "deactivate"
            || (event_type == "purge"
                || (event_type == "install_mcp"
                    || (event_type == "deactivate_mcp"
                        || (event_type == "install_plugin"
                            || (event_type == "deactivate_plugin"
                                || (event_type == "revoke" || (event_type == "unrevoke")))))))))

or_false : (b : Bool) {c : Bool} → b || c ≡ false → (b ≡ false) × (c ≡ false)
or_false true neither = absurd (ground (arith, neither))
or_false false neither = (refl, neither)

-- A snapshot from which nothing is derived, of skills and of plugins, and that says nothing about
-- the rest.
abbrev AsksNothing : {V : Type 0} → SyncEvent V → Type 0
AsksNothing (snapshot w) =
    ((l : Local) → build_derived_events l (w.installations) ≡ [])
    × ((l : LocalPlugins) → build_derived_plugin_events l (w.plugin_installations) ≡ no_diff)
    × (w.mcp_installations ≡ none)
    × (w.revocations ≡ none)
    × (w.org_policy ≡ none)
AsksNothing e = false ≡ true

no_change-AsksNothing : {V : Type 0} → AsksNothing (no_change {V = V})
unfolding build_derived_events build_derived_plugin_events
no_change-AsksNothing = (λ l. refl, λ l. refl, refl, refl, refl)

module _ {V : Type 0} (serde : Serde V) where
  dispatch_event-once :
      (event_data url : String) (event_id : Option String) (d : Daemon V) (w : WireDriftResolution)
      → serde.read_drift_resolution event_data ≡ some w
      → d.registry_url ≡ some url
      → url ≢ ""
      → (dispatch_event serde "managed_paths_drift_resolution" event_data event_id d
          ≡ (record d { tasks = handle_drift_resolution url w ∷ d.tasks }, false))
  unfolding dispatch_event handle_before_parse parse_sync_event
  dispatch_event-once event_data url event_id d w reads there present =
      rw (reads, there, eq_false_of_ne url "" present) refl

  own_silent :
      (event_type event_data : String)
      → (parse_own serde event_type event_data ≡ none)
        ⊎ (parse_own serde event_type event_data ≡ some no_change)
  unfolding parse_own
  own_silent event_type event_data = ground arith

  parse_silent :
      (event_type event_data : String)
      → acts event_type ≡ false
      → parse_sync_event serde event_type event_data ≡ parse_own serde event_type event_data
  unfolding parse_sync_event
  parse_silent event_type event_data silent =
      let (not_snapshot, s0) = or_false (event_type == "snapshot") silent in
      let (not_install, s1) = or_false (event_type == "install") s0 in
      let (not_deactivate, s2) = or_false (event_type == "deactivate") s1 in
      let (not_purge, s3) = or_false (event_type == "purge") s2 in
      let (not_install_mcp, s4) = or_false (event_type == "install_mcp") s3 in
      let (not_deactivate_mcp, s5) = or_false (event_type == "deactivate_mcp") s4 in
      let (not_install_plugin, s6) = or_false (event_type == "install_plugin") s5 in
      let (not_deactivate_plugin, s7) = or_false (event_type == "deactivate_plugin") s6 in
      let (not_revoke, s8) = or_false (event_type == "revoke") s7 in
      rw
        (
          not_snapshot, not_install, not_deactivate, not_purge, not_install_mcp, not_deactivate_mcp,
          not_install_plugin, not_deactivate_plugin, not_revoke, s8,
        )
        refl

  handle_sent :
      (event_type event_data : String) (d : Daemon V)
      → (handle_before_parse serde event_type event_data d).sent ≡ d.sent
  unfolding handle_before_parse
  handle_sent event_type event_data d = ground arith

  -- What is sent, against what was sent before.
  abbrev pub SendsQuietly : Daemon V → Daemon V → Type 0
  SendsQuietly before after =
      (after.sent ≡ before.sent)
      ⊎ ((e : SyncEvent V) × (after.sent ≡ e ∷ before.sent) × AsksNothing e)

  persist_id-sent :
      (event_id : Option String) (d : Daemon V) → (persist_id serde event_id d).sent ≡ d.sent
  persist_id-sent none d = refl
  persist_id-sent (some id) d = refl

  forward_quietly : (d : Daemon V) → SendsQuietly d ((forward serde no_change d).0)
  forward_quietly d = elim (Bool-cases (d.channel_open)) [
    | inl open_one ↦ inr (no_change, rw open_one refl, no_change-AsksNothing)
    | inr closed ↦ inl (rw closed refl)
  ]

  same_sent :
      (d d' after : Daemon V) → d'.sent ≡ d.sent → SendsQuietly d' after → SendsQuietly d after
  same_sent d d' after same (inl e) = inl (e ∙ same)
  same_sent d d' after same (inr (e, added, quiet)) =
      inr (e, added ∙ ap (λ sent. e ∷ sent) same, quiet)

  parsed_quietly :
      (parsed : Option (SyncEvent V)) (event_id : Option String) (d : Daemon V)
      → (parsed ≡ none) ⊎ (parsed ≡ some no_change)
      → SendsQuietly d ((dispatch_parsed serde parsed event_id d).0)
  parsed_quietly parsed event_id d (inl nothing) = rw nothing (inl refl)
  parsed_quietly parsed event_id d (inr one) =
      let kept = persist_id serde event_id d in
      rw one (
        same_sent d kept ((forward serde no_change kept).0) (persist_id-sent event_id d)
          (forward_quietly kept))

  -- An event of a type that the reconciler does not act on, whatever its data are, is not sent to
  -- it, or as a snapshot from which nothing is derived.
  pub dispatch_event-asks_nothing :
      (event_type event_data : String) (event_id : Option String) (d : Daemon V)
      → acts event_type ≡ false
      → SendsQuietly d ((dispatch_event serde event_type event_data event_id d).0)
  unfolding dispatch_event
  dispatch_event-asks_nothing event_type event_data event_id d silent =
      let handled = handle_before_parse serde event_type event_data d in
      let parsed = parse_own serde event_type event_data in
      rw (parse_silent event_type event_data silent) (
        same_sent d handled ((dispatch_parsed serde parsed event_id handled).0)
          (handle_sent event_type event_data d)
          (parsed_quietly parsed event_id handled (own_silent event_type event_data)))

  -- The resolution of a drift that comes twice, as after a reconnect, starts its task twice: its
  -- id is not recorded, and nothing is sent to the reconciler.
  pub dispatch_event-repeats :
      (event_data url : String) (event_id : Option String) (d : Daemon V) (w : WireDriftResolution)
      → serde.read_drift_resolution event_data ≡ some w
      → d.registry_url ≡ some url
      → url ≢ ""
      → (dispatch_event serde "managed_paths_drift_resolution" event_data event_id
            ((dispatch_event serde "managed_paths_drift_resolution" event_data event_id d).0)
          ≡ (
            record d {
              tasks = handle_drift_resolution url w ∷ (handle_drift_resolution url w ∷ d.tasks);
            },
            false,
          ))
  dispatch_event-repeats event_data url event_id d w reads there present =
      rw (dispatch_event-once event_data url event_id d w reads there present) (
        dispatch_event-once event_data url event_id
          (record d { tasks = handle_drift_resolution url w ∷ d.tasks }) w reads there present)
