-- ===== src/Recovery/Creation.antt =====
-- `create-metadata`, `reconstruct-metadata` and the commands that write or validate one document, of
-- recovery_contract.py. What they print is left out.
use liqi_platform.Prelude.{ℕ, String, ◌<>◌, Bool, ◌&&◌, none, some, List, [], ◌∷◌, Result, ok, err}
use liqi_platform.Prelude.Int.{ℤ, pos}
use liqi_platform.Prelude.Json.{Json, int, str, get, get_eq, is_text, is_object}
use liqi_platform.Recovery.Values.{
  Exc, handled, ◌>>=◌, ◌>>◌, World, require, member, member_or_empty, index, or_null, validate,
}
use liqi_platform.Recovery.Store.{
  Files, Disk, Action, proceed, Target, read_text, sha256_file, load_json, write_json_with_checksum,
  validate_metadata, validate_checksummed_document,
}
use liqi_platform.Recovery.Backups.{Selector, select_backup}
use liqi_platform.Recovery.Metadata.{
  repository_ref, repository_path, repository_port, metadata_from_backup,
}

pub record CreateArgs : Type 0 where
  pub info : String
  pub database_state : String
  pub manifest : String
  pub run_id : String
  pub backup_type : String
  pub host_ref : String
  pub source_git_sha : String
  pub output : Target

pub record ReconstructArgs : Type 0 where
  pub info : String
  pub label : String
  pub output : Target

-- A probe that ran to its end once, by its three members.
abbrev pub is_terminal : Json → Bool
is_terminal probe =
    is_text "completed" (get "probeStatus" probe)
    && is_text "succeeded" (get "outboxState" probe)
    && get_eq (get "effectCount" probe) (some (int (pos 1)))

abbrev pub by_run : CreateArgs → Selector
by_run args = record {
  run_id = some args.run_id;
  backup_type = some args.backup_type;
  label = none;
}

abbrev pub by_label : String → Selector
by_label label = record { run_id = none; backup_type = none; label = some label }

module _ (w : World) where
  abbrev loads_text : Result String Json → Result Exc Json
  loads_text (ok v) = ok v
  loads_text (err e) = err (handled e)

  -- `json.loads(path.read_bytes())`, with the text.
  abbrev pub read_info : Files → String → Result Exc (String × Json)
  read_info files p = do raw ← read_text w files p; info ← loads_text (w.loads raw); ok (raw, info)

  -- The database's state: its completed probe.
  unfoldable pub admit_state : Json → Result Exc Json
  admit_state state = do
    probe ← member "probe" state
    require (is_object (or_null probe)) "database state does not contain a completed recovery probe"
    failed ← member "failedMigrationRuns" state
    require (get_eq failed (some (int (pos 0))))
        "backup refused because failed migration runs are present"
    require (is_terminal (or_null probe))
        "backup recovery probe invariant is not terminal and unique"
    ok (or_null probe)

  -- `str(value[key])`
  abbrev shown_member : String → Json → Result Exc String
  shown_member key v = index key v >>= λ x. ok (w.py_str x)

  unfoldable pub expected_annotations :
      CreateArgs → Json → Json → String → Result Exc (List (String × String))
  expected_annotations args state probe manifest_sha = do
    postgresql ← shown_member "postgresqlVersion" state
    migration ← shown_member "migrationVersion" state
    probe_id ← shown_member "probeId" probe
    event_id ← shown_member "eventId" probe
    completed ← shown_member "completedAt" probe
    status ← shown_member "probeStatus" probe
    outbox ← shown_member "outboxState" probe
    effects ← shown_member "effectCount" probe
    ok (
        ("liqi-run-id", args.run_id)
        ∷ ("liqi-source-git-sha", args.source_git_sha)
        ∷ ("liqi-host-ref", args.host_ref)
        ∷ ("liqi-postgresql-version", postgresql)
        ∷ ("liqi-migration-version", migration)
        ∷ ("liqi-probe-id", probe_id)
        ∷ ("liqi-probe-event-id", event_id)
        ∷ ("liqi-probe-completed-at", completed)
        ∷ ("liqi-probe-status", status)
        ∷ ("liqi-outbox-state", outbox)
        ∷ ("liqi-effect-count", effects)
        ∷ ("liqi-manifest-sha256", manifest_sha)
        ∷ ("liqi-repository-ref", repository_ref)
        ∷ ("liqi-repository-path", repository_path)
        ∷ ("liqi-repository-port", repository_port)
        ∷ [])

  unfoldable pub check_annotations : Json → List (String × String) → Result Exc (Unit {0})
  check_annotations annotation [] = ok tt
  check_annotations annotation ((key, expected) ∷ rest) = do
    found ← member key annotation
    require (is_text expected found) (
        "pgBackRest annotation mismatch for "
        <> key
        <> ": "
        <> w.repr (or_null found)
        <> " != "
        <> w.repr (str expected))
    check_annotations annotation rest

  -- The metadata that `create-metadata` writes.
  unfoldable pub created : ℤ → Files → CreateArgs → Result Exc Json
  created now files args = do
    (info_raw, info) ← read_info files args.info
    state ← load_json w files args.database_state
    (stanza, backup) ← select_backup w info "liqi" (by_run args)
    annotation ← member_or_empty "annotation" backup
    probe ← admit_state state
    manifest_sha ← sha256_file w files args.manifest
    expected ← expected_annotations args state probe manifest_sha
    check_annotations annotation expected
    metadata_from_backup w now info_raw stanza backup

  -- The metadata that `reconstruct-metadata` writes.
  unfoldable pub reconstructed : ℤ → Files → String → String → Result Exc Json
  reconstructed now files info_path label = do
    (info_raw, info) ← read_info files info_path
    (stanza, backup) ← select_backup w info "liqi" (by_label label)
    metadata_from_backup w now info_raw stanza backup

  -- A document that was made is written, and the command returns 0.
  abbrev pub publish : Target → Result Exc Json → Disk → Result Exc ℕ × Disk
  publish output made d =
      proceed made
        (λ value d'.
          proceed (write_json_with_checksum w output value d').0 (λ done d''. (ok 0, d''))
            (write_json_with_checksum w output value d').1)
        d

  unfoldable pub command_create_metadata : CreateArgs → Action ℕ
  command_create_metadata args d = publish args.output (created (w.now d.count) d.files args) d

  unfoldable pub command_reconstruct_metadata : ReconstructArgs → Action ℕ
  command_reconstruct_metadata args d =
      publish args.output (reconstructed (w.now d.count) d.files args.info args.label) d

  abbrev contracts : List (String × String)
  contracts =
      ("backup-metadata-v1.schema.json", "contracts/database/backup-metadata-v1.example.json")
      ∷ (
        "database-backup-status-v0.schema.json",
        "contracts/platform/database-backup-status-v0.example.json",
      )
      ∷ (
        "database-restore-result-v0.schema.json",
        "contracts/platform/database-restore-result-v0.example.json",
      )
      ∷ []

  abbrev validate_examples : Files → List (String × String) → Result Exc ℕ
  validate_examples files [] = ok 0
  validate_examples files ((schema, example) ∷ rest) = load_json w files example >>= λ document.
      validate w schema document >>= λ done. validate_examples files rest

  unfoldable pub command_validate_contracts : Action ℕ
  command_validate_contracts d = (validate_examples d.files contracts, d)

  unfoldable pub command_validate_metadata : String → String → Action ℕ
  command_validate_metadata metadata checksum d = (
    validate_metadata w d.files metadata checksum >>= λ document.
        index "backup" document >>= λ backup. index "label" backup >>= λ label. ok 0,
    d,
  )

  unfoldable pub command_write_backup_status : String → Target → Action ℕ
  command_write_backup_status input output d =
      publish output
        (load_json w d.files input >>= λ value.
          validate w "database-backup-status-v0.schema.json" value >>= λ done. ok value)
        d

  -- The members that the two commands print.
  abbrev printed : List String → Json → Result Exc ℕ
  printed [] document = ok 0
  printed (key ∷ keys) document = index key document >>= λ v. printed keys document

  unfoldable pub command_validate_backup_status : String → String → Action ℕ
  command_validate_backup_status status checksum d = (
    validate_checksummed_document w "database-backup-status-v0.schema.json" d.files status checksum
        >>= printed ("recoveryReady" ∷ []),
    d,
  )

  unfoldable pub command_validate_restore_result : String → String → Action ℕ
  command_validate_restore_result result checksum d = (
    validate_checksummed_document w "database-restore-result-v0.schema.json" d.files result checksum
        >>= printed ("restoreId" ∷ "success" ∷ []),
    d,
  )
