-- ===== src/Recovery/Checks.antt =====
-- What `verify-restore` of recovery_contract.py compares.
use liqi_platform.Prelude.{ℕ, ◌+◌, ◌/◌, String, Bool, false, List, [], ◌∷◌, Result, ok}
use liqi_platform.Prelude.Int.{ℤ, pos, negsuc}
use liqi_platform.Prelude.Json.{Json, bool, int, str, arr, object, from_list, json_eq}
use liqi_platform.Recovery.Values.{
  Exc, ◌>>=◌, World, member, member_or_empty, index, or_null, or_default,
}
use liqi_platform.Recovery.Store.{Files, Target, read_text, expected_checksum, sha256_file}
use liqi_platform.Recovery.Backups.{manifest_entries}

pub record RestoreArgs : Type 0 where
  pub metadata : String
  pub checksum : String
  pub actual : String
  pub manifest : String
  pub restore_id : String
  pub started_at : String
  pub target_pgdata : String
  pub socket_directory : String
  pub port : ℤ
  pub output : Target

-- A check: its name, and the two values that it compares.
pub record Check : Type 0 where
  pub name : String
  pub expected : Json
  pub actual : Json

-- `expected == actual`
abbrev pub holds : Check → Bool
holds c = json_eq c.expected c.actual

-- `add_check`, whose details are all empty.
abbrev pub check : String → Json → Json → Check
check name expected actual = record { name = name; expected = expected; actual = actual }

abbrev pub rendered : Check → Json
rendered c = object (
    ("name", str c.name)
    ∷ ("passed", bool (holds c))
    ∷ ("expected", c.expected)
    ∷ ("actual", c.actual)
    ∷ [])

abbrev pub rendered_all : List Check → List Json
rendered_all [] = []
rendered_all (c ∷ cs) = rendered c ∷ rendered_all cs

-- `max(0, math.ceil(seconds))` of microseconds.
abbrev pub whole_seconds : ℤ → ℕ
whole_seconds (pos n) = (n + 999999) / 1000000
whole_seconds (negsuc n) = 0

-- `max(0.0, seconds)`
abbrev pub at_least_zero : ℤ → ℕ
at_least_zero (pos n) = n
at_least_zero (negsuc n) = 0

-- `value[section][key]`
abbrev pub inner : String → String → Json → Result Exc Json
inner section key v = index section v >>= λ s. index key s

-- `actual.get("probe", {}).get(key)`
abbrev pub probe_member : String → Json → Result Exc Json
probe_member key actual = do
  probe ← member_or_empty "probe" actual
  value ← member key probe
  ok (or_null value)

-- `value.get(key)`, where a missing value is `None`.
abbrev pub get_or_null : String → Json → Result Exc Json
get_or_null key v = member key v >>= λ o. ok (or_null o)

module _ (w : World) where
  -- The checks of the backup and the migrations.
  unfoldable pub backup_checks : Files → RestoreArgs → Json → Json → Result Exc (List Check)
  backup_checks files args metadata actual = do
    local_manifest ← sha256_file w files args.manifest
    text ← read_text w files args.manifest
    rows ← manifest_entries w text
    migrations ← member "migrations" actual
    expected_sha ← expected_checksum w files args.checksum
    actual_sha ← sha256_file w files args.metadata
    version ← get_or_null "schemaVersion" metadata
    major ← inner "postgresql" "major" metadata
    actual_major ← get_or_null "postgresqlMajor" actual
    migration ← inner "migration" "currentVersion" metadata
    actual_migration ← get_or_null "migrationVersion" actual
    manifest ← inner "migration" "manifestSha256" metadata
    ok (
        check "backup-metadata-checksum" (str expected_sha) (str actual_sha)
        ∷ check "backup-metadata-schema" (str "database-backup-metadata-v1") version
        ∷ check "postgres-major" major actual_major
        ∷ check "migration-version" migration actual_migration
        ∷ check "migration-manifest-checksum" manifest (str local_manifest)
        ∷ check "migration-row-checksums" (arr (from_list rows))
            (or_default (arr (from_list [])) migrations)
        ∷ [])

  -- The checks of the probe and of the restored cluster.
  unfoldable pub cluster_checks : Json → Json → Result Exc (List Check)
  cluster_checks metadata actual = do
    status ← probe_member "probeStatus" actual
    outbox ← probe_member "outboxState" actual
    effects ← probe_member "effectCount" actual
    failed ← get_or_null "failedMigrationRuns" actual
    probe_id ← inner "probe" "probeId" metadata
    actual_id ← probe_member "probeId" actual
    event_id ← inner "probe" "eventId" metadata
    actual_event ← probe_member "eventId" actual
    recovering ← get_or_null "inRecovery" actual
    archive ← get_or_null "archiveMode" actual
    addresses ← get_or_null "listenAddresses" actual
    ok (
        check "probe-state" (str "completed") status
        ∷ check "probe-outbox-terminal-state" (str "succeeded") outbox
        ∷ check "probe-terminal-effect" (int (pos 1)) effects
        ∷ check "failed-migration-runs" (int (pos 0)) failed
        ∷ check "probe-identity" probe_id actual_id
        ∷ check "probe-event-identity" event_id actual_event
        ∷ check "recovery-promoted" (bool false) recovering
        ∷ check "restore-archive-disabled" (str "off") archive
        ∷ check "restore-network-isolated" (str "") addresses
        ∷ [])
