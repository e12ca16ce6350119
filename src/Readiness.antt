-- ===== src/Readiness.antt =====
-- operations/bin/compose_readiness_v1.py and readiness_v1_common.py: the readiness verdict.
pub mod Common
pub mod Catalog
pub mod Composition
pub mod Evidence
pub mod Support
pub mod Summary
pub mod Verdict
pub mod Start
pub mod Passed
pub mod Reached
pub mod Conclusion
pub mod Ready
pub mod Assignments
mod AssignmentExamples
mod Examples
