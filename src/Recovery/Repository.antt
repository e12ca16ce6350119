-- ===== src/Recovery/Repository.antt =====
-- A backup repository's info, the database's state and the documents about them.
use liqi_platform.Prelude.{
  String, true, false, ◌<>◌, some, [], ◌∷◌, ◌==◌, string_eq, if◌then◌else◌, Result, ok, err,
}
use liqi_platform.Prelude.Int.{pos}
use liqi_platform.Prelude.Json.{Json, bool, int, str, arr, object, from_list}
use liqi_platform.Recovery.Store.{Files}
use liqi_platform.Recovery.Scenario.{digest}

abbrev completed_at : String
completed_at = "2023-11-14T22:00:00Z"

abbrev annotation : Json
annotation = object (
    ("liqi-run-id", str "run-1")
    ∷ ("liqi-source-git-sha", str "sha")
    ∷ ("liqi-host-ref", str "host")
    ∷ ("liqi-postgresql-version", str "17.2")
    ∷ ("liqi-migration-version", str "1")
    ∷ ("liqi-probe-id", str "probe-1")
    ∷ ("liqi-probe-event-id", str "event-1")
    ∷ ("liqi-probe-completed-at", str completed_at)
    ∷ ("liqi-probe-status", str "completed")
    ∷ ("liqi-outbox-state", str "succeeded")
    ∷ ("liqi-effect-count", str "1")
    ∷ ("liqi-manifest-sha256", str digest)
    ∷ ("liqi-repository-ref", str "management://database-backup-repository")
    ∷ ("liqi-repository-path", str "/independent-storage/pgbackrest/liqi")
    ∷ ("liqi-repository-port", str "8432")
    ∷ [])

abbrev pub first_backup : Json
first_backup =
    object (("label", str "20231113F") ∷ ("type", str "full") ∷ ("annotation", object []) ∷ [])

abbrev pub second_backup : Json
second_backup = object (
    ("label", str "20231114F")
    ∷ ("type", str "full")
    ∷ ("annotation", annotation)
    ∷ ("backrest", object (("version", str "2.49") ∷ []))
    ∷ (
      "archive",
      object (
          ("start", str "000000010000000000000001")
          ∷ ("stop", str "000000010000000000000002")
          ∷ []),
    )
    ∷ ("timestamp", object (("start", int (pos 1700000000)) ∷ ("stop", int (pos 1700000060)) ∷ []))
    ∷ [])

abbrev pub stanza : Json
stanza = object (
    ("name", str "liqi")
    ∷ ("cipher", str "aes-256-cbc")
    ∷ ("backup", arr (from_list (first_backup ∷ second_backup ∷ [])))
    ∷ [])

abbrev other_stanza : Json
other_stanza = object (("name", str "other") ∷ [])

abbrev pub info : Json
info = arr (from_list (other_stanza ∷ stanza ∷ []))

abbrev probe : Json
probe = object (
    ("probeId", str "probe-1")
    ∷ ("eventId", str "event-1")
    ∷ ("completedAt", str completed_at)
    ∷ ("probeStatus", str "completed")
    ∷ ("outboxState", str "succeeded")
    ∷ ("effectCount", int (pos 1))
    ∷ [])

-- The database's state, and what the restored cluster reports.
abbrev state : Json
state = object (
    ("probe", probe)
    ∷ ("failedMigrationRuns", int (pos 0))
    ∷ ("postgresqlVersion", str "17.2")
    ∷ ("postgresqlMajor", int (pos 17))
    ∷ ("migrationVersion", int (pos 1))
    ∷ ("migrations", arr (from_list (migration ∷ [])))
    ∷ ("inRecovery", bool false)
    ∷ ("archiveMode", str "off")
    ∷ ("listenAddresses", str "")
    ∷ [])
  where
    migration : Json
    migration =
        object
          (("version", int (pos 1)) ∷ ("name", str "init") ∷ ("checksumSha256", str "abc") ∷ [])

abbrev metadata : Json
metadata = object (
    ("schemaVersion", str "database-backup-metadata-v1")
    ∷ ("backup", object (("label", str "20231114F") ∷ ("stoppedAt", str completed_at) ∷ []))
    ∷ ("repository", object (("clientSideEncryption", str "aes-256-cbc") ∷ []))
    ∷ ("postgresql", object (("major", int (pos 17)) ∷ []))
    ∷ ("migration", object (("currentVersion", int (pos 1)) ∷ ("manifestSha256", str digest) ∷ []))
    ∷ ("probe", probe)
    ∷ [])

abbrev restore_result : Json
restore_result = object (
    ("success", bool true)
    ∷ ("backupLabel", str "20231114F")
    ∷ ("backupMetadataSha256", str digest)
    ∷ ("finishedAt", str completed_at)
    ∷ (
      "workingTargets",
      object (("rpoObservedSeconds", int (pos 60)) ∷ ("rtoObservedSeconds", int (pos 60)) ∷ []),
    )
    ∷ [])

abbrev backup_status : Json
backup_status = object (
    ("recoveryReady", bool true)
    ∷ ("reasons", arr (from_list []))
    ∷ ("latestBackup", object (("label", str "20231114F") ∷ []))
    ∷ ("migrationVersion", int (pos 1))
    ∷ ("probe", probe)
    ∷ (
      "archive",
      object
          (("lastArchivedAt", str completed_at) ∷ ("secondsSinceLastArchive", int (pos 30)) ∷ []),
    )
    ∷ [])

-- The text of a document is its name here.
abbrev pub documents : String → Result String Json
documents text =
    if text == "info"
    then ok info
    else if text == "state"
    then ok state
    else if text == "metadata"
    then ok metadata
    else if text == "restore"
    then ok restore_result
    else if text == "status"
    then ok backup_status
    else err "Expecting value"

-- Every sidecar holds the digest.
abbrev pub repository_files : Files
repository_files p =
    if p == "sidecar"
    then some (digest <> "  document\n")
    else if p == "manifest"
    then some "abc  1_init.sql\n"
    else some p
