-- ===== src/Sync.antt =====
-- crates/scenery-daemon/src/sync: the connection to the registry's event stream and the
-- reconciliation with its snapshots.
pub mod Connect
pub mod Dispatch
pub mod Reconnect
pub mod Stream
