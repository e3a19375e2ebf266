-- ===== src/Lib.antt =====
-- Verification of scenery's core (crates/scenery-core, crates/scenery-manifest,
-- crates/scenery-mcp, crates/scenery-daemon).
--
-- The daemon puts the tools of many MCP servers behind one surface, runs skills under an
-- organisation's policy, follows the events of a registry and must never touch what is not its
-- own. The parts, and the files that model them:
--
--   Aggregator  crates/scenery-mcp/src/aggregator.rs: the names of proxied tools (Names), the
--               budget (Budget), the entries with their visibility and health (Backend),
--               `BackendRegistry` (Registry) and its calls (Dispatch). The registry is the value
--               under the mutex; each operation is one step, and a dispatch, which frees the lock
--               while it calls, is a lookup and a later `settle`.
--   Sync        crates/scenery-daemon/src/sync/sse_client.rs: the answers of one connection
--               attempt (Connect), the loop of `run`, one round at a time (Reconnect), the
--               lines and events that the bytes of the stream are cut into (Stream), and what
--               an event does (Dispatch). Stream is for any function in the place of
--               `dispatch_event`.
--   Snapshot    build_derived_events_blocking and, in Plugins, its counterpart for plugins, of
--               crates/scenery-daemon/src/sync/reconciler.rs.
--   Takeover    crates/scenery-daemon/src/daemon_takeover.rs: which daemon another may replace.
--   Oauth       crates/scenery-daemon/src/oauth_state.rs: the callbacks of logins.
--   Frames      crates/scenery-daemon/src/protocol_frame.rs: the frames of the socket.
--   Ownership   crates/scenery-mcp/src/ownership.rs: whose a path, a plugin or a key is.
--   Sampling    crates/scenery-mcp/src/sampling.rs: the routing of a request to a model.
--   Revocation  crates/scenery-core/src/revocation.rs: the cache of revoked artifacts.
--   SchemaGuard crates/scenery-core/src/schema_guard.rs: the walk over an untrusted schema.
--   Resolver    crates/scenery-core/src/resolver.rs and policy.rs: what skill may run.
--   Journal     crates/scenery-core/src/restore_journal.rs: the journal of an uninstall.
--   Governance  crates/scenery-core/src/mcp_governance.rs: the wait for an install and the cache of
--               the approved servers.
--   Manifest    crates/scenery-manifest: the frontmatter of a SKILL.md (Frontmatter), its id, the
--               paths inside a bundle (BundlePath), the package that is loaded (Load), the
--               sources of prompts (Prompt) and plugin.json (Plugin).
--   Drift       crates/scenery-daemon/src/managed_paths/drift.rs: the scan of the managed paths
--               (Drift), the changes of the disk (Act), the resolutions (Resolve) and one round of
--               the scanner (Cycle). The disk is the list of its files (Files). Paths are
--               taken as written: a `..` in one is not followed.
--   Base        lists, dictionaries, JSON values, texts, paths and results that these share.
--   Examples    the theorems at concrete inputs.
--
-- Parameters stand for what is outside: the network and child processes (Dispatch.Outside), the
-- probing of processes (Takeover.Inspector), the disk and the database (Resolver.Host,
-- Snapshot.Local, Manifest.BundlePath.Disk), the links of the file system (Drift.Cycle.Links),
-- hashes (Drift.Host), YAML parsers (Manifest.Load.Crates), the Unicode tables of Rust's standard
-- library, the versions of the crate semver and the readers of serde_json (Sync.Dispatch.Serde).
--
-- Bounds: a `usize` that counts things in memory is a natural number, a `u32` error counter and a
-- frame's length wrap at 2 ^ 32. Two loops are on fuel. SchemaGuard.walk counts a value in each
-- round and stops above `max_schema_nodes`, so one more than that is enough; Governance.wait sleeps
-- in each round, so one more than the timeout's milliseconds is enough. All other loops recurse on
-- their input.
--
-- Not modelled: the command line, the shim, HTTP clients, the installer and the updater, the
-- handlers of the reconciler, the managed paths but for their drift, failing writes to the disk,
-- SQL, and the text of messages. A dictionary is a list, whose order stands for the order of
-- iteration that Rust leaves open.
pub mod Base
pub mod Aggregator
pub mod Sync
pub mod Snapshot
pub mod Takeover
pub mod Oauth
pub mod Frames
pub mod Ownership
pub mod Sampling
pub mod Revocation
pub mod SchemaGuard
pub mod Resolver
pub mod Journal
pub mod Governance
pub mod Manifest
pub mod Drift
pub mod Examples
