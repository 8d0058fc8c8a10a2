-- ===== src/Runtime.antt =====
-- src/edp_framework/runtime/builtin.py: the handlers that register the built-in patterns.
pub mod Options
pub mod Contract
pub mod Register
pub mod Handlers
pub mod Wiring
pub mod Graphs
pub mod Wired
pub mod Deletes
pub mod Failures
pub mod Snapshots
