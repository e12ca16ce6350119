-- ===== src/Recovery/StatusExamples.antt =====
-- The theorems on `verify-restore` and `create-recovery-status` of recovery_contract.py at concrete documents.
use liqi_platform.Prelude.{true, none, some, refl}
use liqi_platform.Prelude.Int.{pos}
use liqi_platform.Prelude.Json.{Json}
use liqi_platform.Recovery.Values.{World}
use liqi_platform.Recovery.Durable.{begin}
use liqi_platform.Recovery.Checks.{RestoreArgs}
use liqi_platform.Recovery.Restore.{command_verify_restore}
use liqi_platform.Recovery.Restored.{Restored, command_verify_restore-Restored}
use liqi_platform.Recovery.Admission.{StatusArgs}
use liqi_platform.Recovery.Status.{recovery_status}
use liqi_platform.Recovery.Ready.{Ready, recovery_status-Ready}
use liqi_platform.Recovery.Scenario.{world, output}
use liqi_platform.Recovery.Repository.{documents, repository_files}
use liqi_platform.Prelude.Texts
use liqi_platform.Prelude.Json
use liqi_platform.Recovery.Values
use liqi_platform.Recovery.Store
use liqi_platform.Recovery.Backups
use liqi_platform.Recovery.Checks
use liqi_platform.Recovery.Restore
use liqi_platform.Recovery.Admission
use liqi_platform.Recovery.Status

abbrev host : World
host = world documents none

abbrev restore_args : RestoreArgs
restore_args = record {
  metadata = "metadata";
  checksum = "sidecar";
  actual = "state";
  manifest = "manifest";
  restore_id = "restore-1";
  started_at = "2023-11-14T22:13:00Z";
  target_pgdata = "/var/lib/postgresql/restore";
  socket_directory = "/run/restore";
  port = pos 5433;
  output = output;
}

command_verify_restore-Restored_example : Restored host repository_files restore_args
unfolding Texts.suffix Texts.left_strip Texts.word Texts.after_word Texts.first_word Texts.lower
    Texts.remove_suffix Texts.strip_stars Texts.cut Texts.split_lines Texts.line_parts Values.◌>>=◌
    Values.to_int Values.validate Store.◌>>=◌ Store.expected_checksum Store.sha256_file
    Store.load_json Store.validate_metadata Store.operation Store.write_synced Store.replace_file
    Store.unlink Store.install Store.remove_temporaries Store.write_json_with_checksum
    Backups.manifest_entry Backups.entries Backups.manifest_entries Checks.backup_checks
    Checks.cluster_checks Restore.read_times Restore.restore_document Restore.verified
    Restore.command_verify_restore Json.json_eq
command_verify_restore-Restored_example =
    command_verify_restore-Restored host restore_args (begin repository_files) refl

abbrev status_args : StatusArgs
status_args = record {
  environment = "staging";
  metadata = "metadata";
  metadata_checksum = "sidecar";
  restore_result = "restore";
  restore_checksum = "sidecar";
  restore_source_metadata = some "metadata";
  restore_source_metadata_checksum = some "sidecar";
  backup_status = "status";
  backup_status_checksum = "sidecar";
  backup_evidence_ref = none;
  restore_evidence_ref = none;
  restore_source_evidence_ref = none;
  wal_evidence_ref = "wal://evidence";
  output = some "/var/lib/liqi/recovery-status.json";
  metadata_directory = "/var/lib/liqi/backups";
  restore_resolved = "/var/lib/liqi/restore.json";
}

recovery_status-Ready_example : Ready host repository_files status_args
unfolding Texts.first_word Texts.lower Texts.left_strip Texts.word Values.◌>>=◌ Values.validate
    Store.expected_checksum Store.sha256_file Store.load_json Store.validate_metadata
    Store.validate_checksummed_document Admission.same_probe Admission.read_sources
    Admission.admit_verdicts Admission.admit_backups Admission.admit_versions Admission.admit_probe
    Admission.admit_archive Admission.admit_sources Status.status_document Status.recovery_status
    Json.json_eq
recovery_status-Ready_example = recovery_status-Ready host true repository_files status_args refl
