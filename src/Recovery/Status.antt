-- ===== src/Recovery/Status.antt =====
-- `create-recovery-status` and `main` of recovery_contract.py.
use liqi_platform.Prelude.{
  ℕ, String, ◌<>◌, Bool, true, Option, some, [], ◌∷◌, string_eq, if◌then◌else◌, Result, ok, err,
}
use liqi_platform.Prelude.Int.{pos}
use liqi_platform.Prelude.Json.{Json, bool, int, str, object, is_text}
use liqi_platform.Recovery.Values.{Exc, handled, escaping, ◌>>=◌, ◌>>◌, World, index, validate}
use liqi_platform.Recovery.Store.{Files, Disk, Action, write_text, proceed}
use liqi_platform.Recovery.Checks.{inner}
use liqi_platform.Recovery.Admission.{
  StatusArgs, Sources, Admitted, given, read_sources, admit_sources,
}

module _ (w : World) where
  abbrev evidence_of : Option String → Json → String
  evidence_of o label =
      given o ("pgbackrest://management/database-backup-repository/liqi/" <> w.py_str label)

  unfoldable pub status_document : StatusArgs → Sources → Admitted → Result Exc Json
  status_document args s a = do
    major ← inner "postgresql" "major" s.latest
    stopped ← inner "backup" "stoppedAt" s.latest
    encryption ← inner "repository" "clientSideEncryption" s.latest
    verified ← index "finishedAt" s.restore
    rpo ← inner "workingTargets" "rpoObservedSeconds" s.restore
    rto ← inner "workingTargets" "rtoObservedSeconds" s.restore
    ok (
        object (
          ("schema_version", str "recovery-status-v0")
          ∷ ("owner", str "Senior 2")
          ∷ ("environment", str args.environment)
          ∷ (
            "database",
            object (
                ("authority_version", str ("database-v0-postgresql-" <> w.py_str major))
                ∷ ("migration_version", str (w.py_str a.current_migration))
                ∷ []),
          )
          ∷ (
            "backup",
            object (
                ("completed_at", stopped)
                ∷ ("off_host", bool true)
                ∷ ("encrypted", bool (is_text "aes-256-cbc" (some encryption)))
                ∷ ("evidence_ref", str (evidence_of args.backup_evidence_ref a.latest_label))
                ∷ []),
          )
          ∷ (
            "wal_archive",
            object (
                ("last_archived_at", a.last_archived_at)
                ∷ ("lag_seconds", int (pos a.lag))
                ∷ ("evidence_ref", str args.wal_evidence_ref)
                ∷ []),
          )
          ∷ (
            "restore_verification",
            object (
                ("status", str "passed")
                ∷ ("verified_at", verified)
                ∷ ("rpo_observed_seconds", rpo)
                ∷ ("rto_observed_seconds", rto)
                ∷ (
                  "source_backup_ref",
                  str (evidence_of args.restore_source_evidence_ref a.source_label),
                )
                ∷ (
                  "evidence_ref",
                  str (given args.restore_evidence_ref ("file://" <> args.restore_resolved)),
                )
                ∷ []),
          )
          ∷ []))

  -- The status that is written; the schema of the operations is there or not.
  unfoldable pub recovery_status : Bool → Files → StatusArgs → Result Exc Json
  recovery_status has_schema files args = do
    sources ← read_sources w files args
    admitted ← admit_sources w files args.environment sources
    document ← status_document args sources admitted
    if has_schema then validate w "recovery-status-v0.schema.json" document else ok tt
    ok document

  abbrev write_plain : Option String → String → Disk → Result Exc (Unit {0}) × Disk
  write_plain (some (String.◌∷◌ c p)) text d = write_text w (String.◌∷◌ c p) text d
  write_plain o text d = (ok tt, d)

  unfoldable pub command_create_recovery_status : Bool → StatusArgs → Action ℕ
  command_create_recovery_status has_schema args d =
      proceed (recovery_status has_schema d.files args)
        (λ document d'.
          let r = write_plain args.output (w.dumps document) d' in
          proceed r.0 (λ done d''. (ok 0, d'')) r.1)
        d

-- How a process ends: with an exit code, or with an exception that nothing handles.
pub data Ending : Type 0 where
  exited : ℕ → Ending
  crashed : String → Ending

abbrev report : Result Exc ℕ → Ending
report (ok code) = exited code
report (err (handled text)) = exited 1
report (err (escaping text)) = crashed text

-- `main`, for a command whose identities are UUIDs or not.
unfoldable pub main : Result Exc (Unit {0}) → Action ℕ → Disk → Ending × Disk
main identities command d = let r = proceed identities (λ done. command) d in (report r.0, r.1)
