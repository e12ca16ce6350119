-- ===== src/Recovery/Restore.antt =====
-- `verify-restore` of recovery_contract.py: a restored cluster against the backup's metadata.
use liqi_platform.Prelude.{
  ℕ, String, Bool, true, false, List, [], ◌∷◌, ◌++◌, all, leb, if◌then◌else◌, Result, ok, err,
}
use liqi_platform.Prelude.Int.{ℤ, pos, ◌-ℤ◌}
use liqi_platform.Prelude.Json.{Json, bool, int, str, arr, object, from_list}
use liqi_platform.Recovery.Values.{Exc, ◌>>=◌, ◌>>◌, World, parse_time, validate}
use liqi_platform.Recovery.Store.{
  Files, Disk, Action, proceed, sha256_file, load_json, write_json_with_checksum, validate_metadata,
}
use liqi_platform.Recovery.Checks.{
  RestoreArgs, Check, holds, rendered_all, whole_seconds, at_least_zero, inner, backup_checks,
  cluster_checks,
}

-- The instants, as `verify-restore` reads them.
pub record Times : Type 0 where
  pub started : ℤ
  pub backup_stopped : ℤ
  pub probe_completed : ℤ

pub record Verified : Type 0 where
  pub document : Json
  pub checks : List Check

module _ (w : World) where
  unfoldable pub read_times : RestoreArgs → Json → Result Exc Times
  read_times args metadata = do
    started ← parse_time w (str args.started_at)
    stopped_text ← inner "backup" "stoppedAt" metadata
    stopped ← parse_time w stopped_text
    completed_text ← inner "probe" "completedAt" metadata
    completed ← parse_time w completed_text
    ok (record { started = started; backup_stopped = stopped; probe_completed = completed })

  abbrev operator_action : Bool → Json
  operator_action true = arr (from_list [])
  operator_action false = arr (
      from_list (
        str "Do not promote or route traffic to the restored cluster."
        ∷ str
            "Inspect failed checks, repair the recovery path, and repeat the isolated restore drill."
        ∷ []))

  unfoldable pub restore_document : ℤ → RestoreArgs → List Check → Times → Json → String → Json
  restore_document now args checks t label metadata_sha =
      let duration = at_least_zero (now -ℤ t.started) in
      let rto = whole_seconds (now -ℤ t.started) in
      object (
        ("$schema", str "./database-restore-result-v0.schema.json")
        ∷ ("schemaVersion", str "database-restore-result-v0")
        ∷ ("restoreId", str args.restore_id)
        ∷ ("startedAt", str (w.iso t.started))
        ∷ ("finishedAt", str (w.iso now))
        ∷ ("durationSeconds", w.rounded duration)
        ∷ ("backupLabel", label)
        ∷ ("backupMetadataSha256", str metadata_sha)
        ∷ (
          "target",
          object (
              ("database", str "liqi")
              ∷ ("pgData", str args.target_pgdata)
              ∷ ("socketDirectory", str args.socket_directory)
              ∷ ("port", int args.port)
              ∷ ("isolated", bool true)
              ∷ ("archiveMode", str "off")
              ∷ []),
        )
        ∷ ("success", bool (all holds checks))
        ∷ ("checks", arr (from_list (rendered_all checks)))
        ∷ (
          "workingTargets",
          object (
              ("rpo", str "5m")
              ∷ ("rto", str "60m")
              ∷ (
                "rpoObservedSeconds",
                int (pos (whole_seconds (t.backup_stopped -ℤ t.probe_completed))),
              )
              ∷ ("rtoObservedSeconds", int (pos rto))
              ∷ ("rtoMet", bool (leb rto 3600))
              ∷ []),
        )
        ∷ ("operatorAction", operator_action (all holds checks))
        ∷ [])

  unfoldable pub verified : ℤ → Files → RestoreArgs → Result Exc Verified
  verified now files args = do
    metadata ← validate_metadata w files args.metadata args.checksum
    actual ← load_json w files args.actual
    first ← backup_checks w files args metadata actual
    second ← cluster_checks w metadata actual
    times ← read_times args metadata
    label ← inner "backup" "label" metadata
    metadata_sha ← sha256_file w files args.metadata
    let checks = first ++ second
    let document = restore_document now args checks times label metadata_sha
    validate w "database-restore-result-v0.schema.json" document
    ok (record { document = document; checks = checks })

  abbrev pub conclude : Verified → Result Exc (Unit {0}) × Disk → Result Exc ℕ × Disk
  conclude v (ok done, d) = (ok (if all holds v.checks then 0 else 1), d)
  conclude v (err e, d) = (err e, d)

  unfoldable pub command_verify_restore : RestoreArgs → Action ℕ
  command_verify_restore args d =
      proceed (verified (w.now d.count) d.files args)
        (λ v d'. conclude v (write_json_with_checksum w args.output v.document d')) d
