-- ===== src/Examples.antt =====
-- Concrete runs of the models, and the theorems at concrete inputs.
pub mod Tools
pub mod Daemon
pub mod Guards
pub mod Skills
pub mod Manifests
pub mod Streams
pub mod Dispatches
pub mod Drifts
pub mod Installs
