-- ===== src/Recovery/Admission.antt =====
-- What `create-recovery-status` of recovery_contract.py reads and demands.
use liqi_platform.Prelude.{
  ℕ, ◌+◌, ◌-◌, ◌/◌, ◌^◌, String, ◌<>◌, true, false, not, ◌&&◌, Option, none, some, List, [], ◌∷◌,
  contains, string_eq, Result, ok, err,
}
use liqi_platform.Prelude.Int.{pos}
use liqi_platform.Prelude.Json.{Json, bool, int, float, get, get_eq, is_text, is_object, truthy}
use liqi_platform.Recovery.Values.{
  Exc, handled, ◌>>=◌, ◌>>◌, World, require, member, index, or_null,
}
use liqi_platform.Recovery.Store.{
  Files, sha256_file, validate_metadata, validate_checksummed_document,
}
use liqi_platform.Recovery.Checks.{inner}

pub record StatusArgs : Type 0 where
  pub environment : String
  pub metadata : String
  pub metadata_checksum : String
  pub restore_result : String
  pub restore_checksum : String
  pub restore_source_metadata : Option String
  pub restore_source_metadata_checksum : Option String
  pub backup_status : String
  pub backup_status_checksum : String
  pub backup_evidence_ref : Option String
  pub restore_evidence_ref : Option String
  pub restore_source_evidence_ref : Option String
  pub wal_evidence_ref : String
  pub output : Option String
  -- the directory of `metadata`, and the resolved path of `restore_result`
  pub metadata_directory : String
  pub restore_resolved : String

-- `a or b`
abbrev pub given : Option String → String → String
given (some (String.◌∷◌ c s)) b = String.◌∷◌ c s
given _ b = b

-- The five documents that the status is made of, where the last one is the latest backup's metadata.
pub record Sources : Type 0 where
  pub restore : Json
  pub backup_status : Json
  pub restore_source : Json
  pub restore_source_path : String
  pub latest : Json

abbrev pub environments : List String
environments = "development" ∷ "staging" ∷ "production" ∷ []

-- `math.ceil(float(value))`, where a number of seconds is not negative; `none` where it is no such number.
abbrev pub lag_seconds : Json → Option ℕ
lag_seconds (int (pos n)) = some n
lag_seconds (bool true) = some 1
lag_seconds (bool false) = some 0
lag_seconds (float (pos m) k) = some ((m + (2 ^ k - 1)) / 2 ^ k)
lag_seconds _ = none

abbrev lag_of : Option ℕ → Result Exc ℕ
lag_of (some n) = ok n
lag_of none = err (handled "current WAL archive lag is unavailable")

abbrev pub probe_keys : List String
probe_keys = "probeId" ∷ "eventId" ∷ "probeStatus" ∷ "outboxState" ∷ "effectCount" ∷ []

-- The probe of the current status is that of the latest backup.
unfoldable pub same_probe : List String → Json → Json → Result Exc (Unit {0})
same_probe [] current expected = ok tt
same_probe (key ∷ keys) current expected = do
  a ← member key current
  b ← member key expected
  require (get_eq a b) ("current backup status probe differs for " <> key)
  same_probe keys current expected

-- The values that the guards leave for the status.
pub record Admitted : Type 0 where
  pub latest_label : Json
  pub source_label : Json
  pub current_migration : Json
  pub last_archived_at : Json
  pub lag : ℕ

module _ (w : World) where
  -- The metadata of the backup that was restored: the file named, or the one of the restore's label.
  abbrev pub source_path : StatusArgs → Option String → Json → Result Exc String
  source_path args (some (String.◌∷◌ c s)) restore = ok (String.◌∷◌ c s)
  source_path args o restore = index "backupLabel" restore >>= λ label.
      ok (args.metadata_directory <> "/" <> w.py_str label <> ".json")

  unfoldable pub read_sources : Files → StatusArgs → Result Exc Sources
  read_sources files args = do
    latest ← validate_metadata w files args.metadata args.metadata_checksum
    restore ←
        validate_checksummed_document w "database-restore-result-v0.schema.json" files
          args.restore_result args.restore_checksum
    backup_status ←
        validate_checksummed_document w "database-backup-status-v0.schema.json" files
          args.backup_status args.backup_status_checksum
    path ← source_path args args.restore_source_metadata restore
    source ←
        validate_metadata w files path
          (given args.restore_source_metadata_checksum (path <> ".sha256"))
    ok (record {
      restore = restore;
      backup_status = backup_status;
      restore_source = source;
      restore_source_path = path;
      latest = latest;
    })

  -- The backup's and the restore's own verdicts.
  unfoldable pub admit_verdicts : String → Sources → Result Exc (Unit {0})
  admit_verdicts environment s = do
    require (contains environments environment) ("invalid environment: " <> environment)
    ready ← member "recoveryReady" s.backup_status
    reasons ← member "reasons" s.backup_status
    require (truthy ready && not (truthy reasons))
        ("current backup/archive status is not recovery-ready: " <> w.py_str (or_null reasons))
    success ← member "success" s.restore
    require (truthy success) "restore verification did not pass"

  -- The identity of the latest backup, and of the one that was restored: their labels.
  unfoldable pub admit_backups : Files → Sources → Result Exc (Json × Json)
  admit_backups files s = do
    latest_label ← inner "backup" "label" s.latest
    current ← member "latestBackup" s.backup_status
    require
        (is_object (or_null current) && get_eq (get "label" (or_null current)) (some latest_label))
        "current backup status does not identify latest backup metadata"
    restored ← member "backupLabel" s.restore
    source_label ← inner "backup" "label" s.restore_source
    require (get_eq restored (some source_label))
        "restore result references a different source backup label"
    restored_sha ← member "backupMetadataSha256" s.restore
    source_sha ← sha256_file w files s.restore_source_path
    require (is_text source_sha restored_sha)
        "restore result references a different source backup metadata checksum"
    ok (latest_label, source_label)

  -- The migration and the PostgreSQL major of the three.
  unfoldable pub admit_versions : Sources → Result Exc Json
  admit_versions s = do
    current ← inner "migration" "currentVersion" s.latest
    reported ← member "migrationVersion" s.backup_status
    require (get_eq reported (some current))
        "current migration version differs from latest backup metadata"
    source ← inner "migration" "currentVersion" s.restore_source
    require (get_eq (some source) (some current))
        "restore proof predates the current migration version"
    source_major ← inner "postgresql" "major" s.restore_source
    major ← inner "postgresql" "major" s.latest
    require (get_eq (some source_major) (some major))
        "restore source PostgreSQL major differs from current backup"
    ok current

  unfoldable pub admit_probe : Sources → Result Exc (Unit {0})
  admit_probe s = do
    current ← member "probe" s.backup_status
    expected ← index "probe" s.latest
    require (is_object (or_null current)) "current backup status probe is missing"
    same_probe probe_keys (or_null current) expected

  -- When the last segment was archived, and how long ago.
  unfoldable pub admit_archive : Sources → Result Exc (Json × ℕ)
  admit_archive s = do
    archive ← member "archive" s.backup_status
    require (is_object (or_null archive) && truthy (get "lastArchivedAt" (or_null archive)))
        "current WAL archive status is incomplete"
    lag ← lag_of (lag_seconds (or_null (get "secondsSinceLastArchive" (or_null archive))))
    ok (or_null (get "lastArchivedAt" (or_null archive)), lag)

  unfoldable pub admit_sources : Files → String → Sources → Result Exc Admitted
  admit_sources files environment s = do
    admit_verdicts environment s
    (latest_label, source_label) ← admit_backups files s
    current ← admit_versions s
    admit_probe s
    (archived, lag) ← admit_archive s
    ok (record {
      latest_label = latest_label;
      source_label = source_label;
      current_migration = current;
      last_archived_at = archived;
      lag = lag;
    })
