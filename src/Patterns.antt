-- ===== src/Patterns.antt =====
-- src/edp_framework/patterns: the semantic patterns, built-in ones and those of extension packages.
pub mod Contracts
pub mod Builtins
pub mod Registry
