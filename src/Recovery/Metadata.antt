-- ===== src/Recovery/Metadata.antt =====
-- `metadata_from_backup` of recovery_contract.py, and the annotations that `create-metadata` expects.
use liqi_platform.Prelude.{String, Bool, true, false, [], ◌∷◌, string_eq, Result, ok}
use liqi_platform.Prelude.Int.{ℤ, pos}
use liqi_platform.Prelude.Json.{Json, bool, int, str, object, get, is_text, is_object, truthy}
use liqi_platform.Recovery.Values.{
  Exc, ◌>>=◌, ◌>>◌, World, require, member, member_or_empty, index, or_empty, or_null, to_int,
  timestamp, validate,
}

abbrev pub repository_ref : String
repository_ref = "management://database-backup-repository"

abbrev pub repository_path : String
repository_path = "/independent-storage/pgbackrest/liqi"

abbrev pub repository_port : String
repository_port = "8432"

-- `.get` of a value that is a dictionary.
abbrev annotated_as : String → String → Json → Bool
annotated_as key text annotation = is_text text (get key annotation)

-- The guards on the annotation and the repository, in order.
unfoldable pub admit_backup : Json → Json → Result Exc Json
admit_backup stanza backup = do
  found ← member "annotation" backup
  require (is_object (or_null found)) "pgBackRest backup annotations are missing"
  cipher ← member "cipher" stanza
  require (is_text "aes-256-cbc" cipher)
      "pgBackRest repository must use aes-256-cbc client-side encryption"
  require (annotated_as "liqi-repository-ref" repository_ref (or_null found))
      "backup annotation repository reference mismatch"
  require (annotated_as "liqi-repository-path" repository_path (or_null found))
      "backup annotation repository path mismatch"
  require (annotated_as "liqi-repository-port" repository_port (or_null found))
      "backup annotation repository port mismatch"
  ok (or_null found)

-- What the guards leave for the document.
pub record Parts : Type 0 where
  pub annotation : Json
  pub pgbackrest_version : Json
  pub archive : Json
  pub times : Json

unfoldable pub backup_parts : Json → Json → Result Exc Parts
backup_parts stanza backup = do
  annotation ← admit_backup stanza backup
  backrest ← member_or_empty "backrest" backup
  version ← member "version" backrest
  require (truthy version) "pgBackRest version is absent from repository info"
  archive ← member "archive" backup
  times ← member "timestamp" backup
  ok (record {
    annotation = annotation;
    pgbackrest_version = or_null version;
    archive = or_empty archive;
    times = or_empty times;
  })

module _ (w : World) where
  unfoldable pub source_section : Json → Result Exc Json
  source_section annotation = do
    host ← index "liqi-host-ref" annotation
    sha ← index "liqi-source-git-sha" annotation
    ok (
        object (
          ("database", str "liqi")
          ∷ ("authority", str "postgresql")
          ∷ ("hostRef", host)
          ∷ ("gitSha", sha)
          ∷ []))

  abbrev repository_section : Json
  repository_section = object (
      ("type", str "pgbackrest-tls-remote-posix")
      ∷ ("authority", str "independent-management-storage")
      ∷ ("repositoryRef", str repository_ref)
      ∷ ("port", int (pos 8432))
      ∷ ("path", str repository_path)
      ∷ ("transport", str "mutual-tls-over-wireguard")
      ∷ ("clientSideEncryption", str "aes-256-cbc")
      ∷ ("dedicated", bool true)
      ∷ ("metadataAuthority", str "pgbackrest-backup-annotations")
      ∷ [])

  unfoldable pub backup_section : String → Json → Parts → Result Exc Json
  backup_section info_raw backup p = do
    label ← index "label" backup
    kind ← index "type" backup
    start ← index "start" p.times
    started ← timestamp w start
    stop ← index "stop" p.times
    stopped ← timestamp w stop
    archive_start ← member "start" p.archive
    archive_stop ← member "stop" p.archive
    ok (
        object (
          ("label", label)
          ∷ ("type", kind)
          ∷ ("startedAt", str started)
          ∷ ("stoppedAt", str stopped)
          ∷ ("archiveStart", or_null archive_start)
          ∷ ("archiveStop", or_null archive_stop)
          ∷ ("annotation", p.annotation)
          ∷ ("infoSha256", str (w.sha256 info_raw))
          ∷ []))

  unfoldable pub migration_section : Json → Result Exc Json
  migration_section annotation = do
    version ← index "liqi-migration-version" annotation
    number ← to_int w version
    manifest ← index "liqi-manifest-sha256" annotation
    ok (object (("currentVersion", int number) ∷ ("manifestSha256", manifest) ∷ []))

  unfoldable pub probe_section : Json → Result Exc Json
  probe_section annotation = do
    probe_id ← index "liqi-probe-id" annotation
    event_id ← index "liqi-probe-event-id" annotation
    status ← index "liqi-probe-status" annotation
    outbox ← index "liqi-outbox-state" annotation
    effect ← index "liqi-effect-count" annotation
    effects ← to_int w effect
    completed ← index "liqi-probe-completed-at" annotation
    ok (
        object (
          ("probeId", probe_id)
          ∷ ("eventId", event_id)
          ∷ ("probeStatus", status)
          ∷ ("outboxState", outbox)
          ∷ ("effectCount", int effects)
          ∷ ("completedAt", completed)
          ∷ []))

  -- The document, its parts in the order of their evaluation.
  unfoldable pub build_metadata : ℤ → String → Json → Parts → Result Exc Json
  build_metadata now info_raw backup p = do
    run_id ← index "liqi-run-id" p.annotation
    source ← source_section p.annotation
    stored ← backup_section info_raw backup p
    version ← index "liqi-postgresql-version" p.annotation
    migration ← migration_section p.annotation
    probe ← probe_section p.annotation
    ok (
        object (
          ("$schema", str "./backup-metadata-v1.schema.json")
          ∷ ("schemaVersion", str "database-backup-metadata-v1")
          ∷ ("generatedAt", str (w.iso now))
          ∷ ("backupRunId", run_id)
          ∷ ("stanza", str "liqi")
          ∷ ("source", source)
          ∷ ("repository", repository_section)
          ∷ ("backup", stored)
          ∷ ("postgresql", object (("major", int (pos 17)) ∷ ("version", version) ∷ []))
          ∷ ("migration", migration)
          ∷ ("probe", probe)
          ∷ (
            "pgBackRest",
            object (
                ("version", p.pgbackrest_version)
                ∷ ("repositoryFormat", str "pgbackrest-encrypted-posix-tls-v1")
                ∷ []),
          )
          ∷ (
            "recoveryTargets",
            object (
                ("workingRpo", str "5m")
                ∷ ("workingRto", str "60m")
                ∷ ("pitr", bool true)
                ∷ ("restoreScope", str "entire-postgresql-cluster")
                ∷ []),
          )
          ∷ (
            "costClassification",
            object (
                ("class", str "external-owner-provisioned-independent-storage")
                ∷ ("ociResourceCreated", bool false)
                ∷ []),
          )
          ∷ []))

  unfoldable pub metadata_from_backup : ℤ → String → Json → Json → Result Exc Json
  metadata_from_backup now info_raw stanza backup = do
    parts ← backup_parts stanza backup
    metadata ← build_metadata now info_raw backup parts
    validate w "backup-metadata-v1.schema.json" metadata
    ok metadata
