-- ===== src/Recovery/BackupExamples.antt =====
-- The theorems on backups and their metadata in recovery_contract.py at a repository with two backups.
use liqi_platform.Prelude.{none, refl, Result, ok, err, ◌≡◌, ◌↔◌}
use liqi_platform.Prelude.Json.{Json, null}
use liqi_platform.Prelude.Int.{pos}
use liqi_platform.Recovery.Values.{Exc, World}
use liqi_platform.Recovery.Backups.{Selector, select_backup}
use liqi_platform.Recovery.Creation.{CreateArgs, created, reconstructed, by_label}
use liqi_platform.Recovery.Selected.{Selected, select_backup-Selected_iff}
use liqi_platform.Recovery.Rebuilt.{restamped, reconstructed-created}
use liqi_platform.Recovery.Scenario.{world, output}
use liqi_platform.Recovery.Repository.{documents, info, stanza, second_backup, repository_files}
use liqi_platform.Prelude.Json
use liqi_platform.Recovery.Values
use liqi_platform.Recovery.Store
use liqi_platform.Recovery.Backups
use liqi_platform.Recovery.Metadata
use liqi_platform.Recovery.Creation

abbrev host : World
host = world documents none

select_backup-Selected_iff_example :
    (select_backup host info "liqi" (by_label "20231114F") ≡ ok (stanza, second_backup))
    ↔ Selected info "liqi" (by_label "20231114F") stanza second_backup
select_backup-Selected_iff_example =
    select_backup-Selected_iff host info "liqi" (by_label "20231114F")

abbrev args : CreateArgs
args = record {
  info = "info";
  database_state = "state";
  manifest = "manifest";
  run_id = "run-1";
  backup_type = "full";
  host_ref = "host";
  source_git_sha = "sha";
  output = output;
}

abbrev value_of : Result Exc Json → Json
value_of (ok v) = v
value_of (err e) = null

reconstructed-created_example :
    reconstructed host (pos 1700000180000000) repository_files "info" "20231114F"
    ≡ ok (
        restamped
          (host.iso (pos 1700000180000000))
          (value_of (created host (pos 1700000120000000) repository_files args)))
unfolding Values.◌>>=◌ Values.to_int Values.validate Values.timestamp Store.load_json
    Store.sha256_file Backups.is_candidate Backups.candidates Backups.find_stanza
    Backups.select_backup Metadata.admit_backup Metadata.backup_parts Metadata.source_section
    Metadata.backup_section Metadata.migration_section Metadata.probe_section
    Metadata.build_metadata Metadata.metadata_from_backup Creation.admit_state
    Creation.expected_annotations Creation.check_annotations Creation.created Json.json_eq
reconstructed-created_example =
    reconstructed-created host (pos 1700000120000000) (pos 1700000180000000) repository_files args
      "20231114F" "info" refl refl refl refl refl
