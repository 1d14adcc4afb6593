-- ===== src/Findings.antt =====
-- The findings of a scan as records: src/flawed/findings.py and src/flawed/severity.py.
pub mod Severity
pub mod Records
pub mod Loading
pub mod Sarif
pub mod Collection
pub mod Diff
pub mod Complete
mod Tests
