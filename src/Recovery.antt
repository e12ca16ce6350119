-- ===== src/Recovery.antt =====
-- database/tools/recovery_contract.py: backup and restore evidence.
pub mod Values
pub mod Store
pub mod Backups
pub mod Metadata
pub mod Creation
pub mod Checks
pub mod Restore
pub mod Admission
pub mod Status
pub mod Paths
pub mod Triples
pub mod Stages
pub mod Durable
pub mod Accepts
pub mod Digests
pub mod ReadBack
pub mod Progress
pub mod Steps
pub mod Selection
pub mod Matching
pub mod Selected
pub mod Rebuilt
pub mod Agreement
pub mod Restored
pub mod Consistent
pub mod Ready
mod Scenario
mod WriteExamples
mod Repository
mod BackupExamples
mod StatusExamples
