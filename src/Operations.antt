-- ===== src/Operations.antt =====
-- src/edp_framework/operations/: the control tables, the history of releases and the smoke check, and
-- the tasks of src/edp_framework/databricks_tasks/ that run them.
pub mod Tables
pub mod ControlTables
pub mod ReleaseHistory
pub mod ReleaseSmoke
pub mod Tasks
pub mod Schema
pub mod Ready
