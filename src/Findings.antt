-- ===== src/Findings.antt =====
-- backend/secuscan/finding_intelligence.py: groups of findings, assets and the difference of two scans.
pub mod Severity
pub mod Groups
pub mod Assets
pub mod Diff
mod Tests
