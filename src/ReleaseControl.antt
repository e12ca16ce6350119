-- ===== src/ReleaseControl.antt =====
-- infrastructure/deployment/release_control.py: activation, rollback and deactivation of a release
-- on the host. The children follow the file from top to bottom.
pub mod Documents
pub mod Host
pub mod Services
pub mod Preflight
pub mod Plan
pub mod Evidence
pub mod Operation
pub mod Links
pub mod Selection
pub mod Gate
pub mod Outcomes
pub mod Guards
pub mod Exits
pub mod Sequence
pub mod Ordered
pub mod Rollbacks
pub mod Unrecorded
pub mod Cooperation
pub mod Undisturbed
pub mod Scenario
mod Examples
mod RollbackExamples
