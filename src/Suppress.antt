-- ===== src/Suppress.antt =====
-- Suppression of findings, src/flawed/_cli/suppression.py.
pub mod Directives
pub mod Engine
pub mod Dedup
pub mod Partition
pub mod Meaning
pub mod Sources
mod Tests
