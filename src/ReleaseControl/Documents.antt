-- ===== src/ReleaseControl/Documents.antt =====
-- The documents that release_control.py reads and writes. A release descriptor is validated by its
-- JSON schema before a field of it is read, so it stands here as a record of the fields read.
use liqi_platform.Prelude.{ℕ, String, Bool, Option, List}

pub record Service : Type 0 where
  pub unit : String
  pub start_order : ℕ
  pub stop_timeout_seconds : ℕ

-- "database_compatibility"
pub record Boundary : Type 0 where
  pub minimum_migration : ℕ
  pub rollback_safe_through : ℕ
  pub database_rollback_allowed : Bool

-- "database_compatibility_evidence"
pub record Evidence : Type 0 where
  pub retained_path : String
  pub sha256 : String

-- release-target-v1.schema.json; `none` is a JSON null.
pub record Release : Type 0 where
  pub release_id : String
  pub git_sha : String
  pub release_path : String
  pub source_manifest_sha256 : String
  pub services : List Service
  pub drain_argv : Option (List String)
  pub drain_timeout_seconds : ℕ
  pub health_argv : List String
  pub health_timeout_seconds : ℕ
  pub database_compatibility : Boundary
  pub database_compatibility_evidence : Evidence
  pub rollback_target_release_id : Option String
  pub configuration_paths : List String
  pub runtime_config_path : Option String
  pub credential_directory : Option String
  pub required_credentials : List String

pub record Check : Type 0 where
  pub name : String
  pub status : String
  pub duration_ms : ℕ
  pub detail : String

-- A row of a rollback document. `recovery_check` makes rows with no "duration_ms"; the list of
-- `main` also receives the checks of `stop_release` and `start_release`, which have one.
pub record RecoveryCheck : Type 0 where
  pub name : String
  pub status : String
  pub detail : String
  pub duration_ms : Option ℕ

-- liqi.deployment.rollback/v1
pub record RollbackDocument : Type 0 where
  pub rollback_id : String
  pub from_release_id : Option String
  pub target_release_id : Option String
  pub recovery_mode : String
  pub target_git_sha : Option String
  pub target_manifest_sha256 : Option String
  pub database_compatibility : String
  pub config_compatibility : String
  pub maximum_duration_seconds : ℕ
  pub status : String
  pub started_at : String
  pub completed_at : String
  pub approval_reference : Option String
  pub checks : List RecoveryCheck
  pub evidence_class : String

-- liqi.deployment.activation/v1
pub record ActivationDocument : Type 0 where
  pub deployment_id : String
  pub release_id : String
  pub git_sha : String
  pub manifest_sha256 : String
  pub previous_release_id : Option String
  pub rollback_target_release_id : Option String
  pub state : String
  pub status : String
  pub started_at : String
  pub completed_at : String
  pub approval_reference : Option String
  pub checks : List Check
  pub traffic_enabled : Bool
  pub evidence_class : String

pub data Document : Type 0 where
  rollback_document : RollbackDocument → Document
  activation_document : ActivationDocument → Document

pub data Mode : Type 0 where
  activate rollback : Mode

-- The command line; the paths of the readiness files and of systemctl are texts.
pub record Args : Type 0 where
  pub mode : Mode
  pub target_release_id : Option String
  pub deployment_id : String
  pub descriptor_dir : String
  pub host_readiness : String
  pub database_readiness : String
  pub first_release_recovery : Option String
  pub systemctl : String
  pub maximum_duration_seconds : ℕ
  pub approval_reference : Option String
  pub execute : Bool
  pub activation_output : Option String
  pub rollback_output : String
