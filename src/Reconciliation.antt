-- ===== src/Reconciliation.antt =====
-- src/edp_framework/reconciliation: rules that compare a source and a target at one cutoff.
pub mod Contracts
pub mod Engine
pub mod Evaluate
pub mod Complete
pub mod Status
pub mod Returns
pub mod Variance
pub mod Audit
pub mod Measures
