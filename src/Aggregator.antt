-- ===== src/Aggregator.antt =====
-- crates/scenery-mcp/src/aggregator.rs: the tools of many backend servers behind one surface.
pub mod Names
pub mod Budget
pub mod Backend
pub mod Registry
pub mod Dispatch
