-- ===== src/Tests.antt =====
-- Runs of the definitions on samples, and the theorems at concrete tables and registries.
mod Run
mod Samples
mod Metadata
mod Patterns
mod Runtime
mod Reconciliation
mod Sessions
mod Operations
mod Audit
mod Commands
