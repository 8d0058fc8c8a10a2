-- ===== src/Metadata.antt =====
-- src/edp_framework/metadata: the declarative contract of one table and its validation.
pub mod Enums
pub mod Models
pub mod Validators
pub mod Coherent
pub mod Construct
