-- ===== src/Recovery/Ready.antt =====
-- `command_create_recovery_status` of recovery_contract.py as a whole.
use liqi_platform.Prelude.{
  ℕ, Bool, true, ◌&&◌, and-parts, Option, All, contains, string_eq, ◌≡◌, ap, ◌∙◌, ok, ok-injective,
  subst, ◌<>◌,
}
use liqi_platform.Prelude.Json.{Json, get, is_object, truthy}
use liqi_platform.Recovery.Values.{World, member, index, or_null}
use liqi_platform.Recovery.Store.{Files, validate_metadata, validate_checksummed_document}
use liqi_platform.Recovery.Admission.{
  StatusArgs, given, Sources, source_path, environments, probe_keys, Admitted, read_sources,
  admit_verdicts, admit_backups, admit_versions, admit_probe, admit_archive, admit_sources,
}
use liqi_platform.Recovery.Status.{recovery_status}
use liqi_platform.Recovery.Steps.{on_ok, on_guard}
use liqi_platform.Recovery.Consistent.{
  Meets, Verdicts, Identified, Versions, SameMember, admit_verdicts-Verdicts,
  admit_backups-Identified, admit_versions-Versions, same_probe-SameMember,
}

-- The probe of the current status is that of the latest backup.
pub record SameProbe (s : Sources) : Type 0 where
  pub current : Option Json
  pub expected : Json
  pub current_read : member "probe" s.backup_status ≡ ok current
  pub expected_read : index "probe" s.latest ≡ ok expected
  pub same : All (SameMember (or_null current) expected) probe_keys

-- The four documents were checked against their digests and schemas, that of the restored backup at
-- the path which the arguments or the restore's own label give.
pub record Checked (w : World) (files : Files) (args : StatusArgs) (s : Sources) : Type 0 where
  pub latest : validate_metadata w files args.metadata args.metadata_checksum ≡ ok s.latest
  pub restore :
      validate_checksummed_document w "database-restore-result-v0.schema.json" files
        args.restore_result args.restore_checksum
      ≡ ok s.restore
  pub backup_status :
      validate_checksummed_document w "database-backup-status-v0.schema.json" files
        args.backup_status args.backup_status_checksum
      ≡ ok s.backup_status
  pub source_named :
      source_path w args args.restore_source_metadata s.restore ≡ ok s.restore_source_path
  pub restore_source :
      validate_metadata w files s.restore_source_path
        (given args.restore_source_metadata_checksum (s.restore_source_path <> ".sha256"))
      ≡ ok s.restore_source

-- The database can be recovered, as far as its documents show.
pub record Ready (w : World) (files : Files) (args : StatusArgs) : Type 0 where
  pub sources : Sources
  pub documents : Checked w files args sources
  pub environment : contains environments args.environment ≡ true
  pub verdicts : Verdicts sources
  pub backups : Identified w files sources
  pub versions : Versions sources
  pub probe : SameProbe sources
  pub archived :
      Meets
        (λ a. truthy (get "lastArchivedAt" (or_null a)))
        (member "archive" sources.backup_status)

module _ (w : World) where
  admit_probe-SameProbe : (s : Sources) {u : Unit {0}} → admit_probe w s ≡ ok u → SameProbe s
  unfolding admit_probe
  admit_probe-SameProbe s h = on_ok (member "probe" s.backup_status) _ h λ current e h.
      on_ok (index "probe" s.latest) _ h λ expected f h.
        on_guard (is_object (or_null current)) _ _ h λ t h. record {
          current = current;
          expected = expected;
          current_read = e;
          expected_read = f;
          same = same_probe-SameMember probe_keys (or_null current) expected h;
        }

  admit_archive-Meets :
      (s : Sources) {r : Json × ℕ}
      → admit_archive w s ≡ ok r
      → Meets (λ a. truthy (get "lastArchivedAt" (or_null a))) (member "archive" s.backup_status)
  unfolding admit_archive
  admit_archive-Meets s h = on_ok (member "archive" s.backup_status) _ h λ archive e h.
      on_guard (is_object (or_null archive) && truthy (get "lastArchivedAt" (or_null archive))) _ _
        h
        λ t h. record {
          value = archive;
          was_read = e;
          met = (and-parts (is_object (or_null archive)) _ t).1;
        }

  read_sources-Checked :
      (files : Files) (args : StatusArgs) {s : Sources}
      → read_sources w files args ≡ ok s
      → Checked w files args s
  unfolding read_sources
  read_sources-Checked files args h =
      on_ok (validate_metadata w files args.metadata args.metadata_checksum) _ h λ latest e1 h.
        on_ok
          (validate_checksummed_document w "database-restore-result-v0.schema.json" files
            args.restore_result args.restore_checksum)
          _ h
          λ restore e2 h.
            on_ok
              (validate_checksummed_document w "database-backup-status-v0.schema.json" files
                args.backup_status args.backup_status_checksum)
              _ h
              λ backup_status e3 h.
                on_ok (source_path w args args.restore_source_metadata restore) _ h λ path e4 h.
                  on_ok
                    (validate_metadata w files path
                      (given args.restore_source_metadata_checksum (path <> ".sha256")))
                    _ h
                    λ source e5 h. record {
                      latest = e1 ∙ ap (λ s. ok s.latest) (ok-injective h);
                      restore = e2 ∙ ap (λ s. ok s.restore) (ok-injective h);
                      backup_status = e3 ∙ ap (λ s. ok s.backup_status) (ok-injective h);
                      source_named =
                          subst
                            (λ s.
                              source_path w args args.restore_source_metadata s.restore
                              ≡ ok s.restore_source_path)
                            (ok-injective h) e4;
                      restore_source =
                          subst
                            (λ s.
                              validate_metadata w files s.restore_source_path (
                                given args.restore_source_metadata_checksum
                                  (s.restore_source_path <> ".sha256"))
                              ≡ ok s.restore_source)
                            (ok-injective h) e5;
                    }

  admit_sources-Ready :
      (files : Files) (args : StatusArgs) (s : Sources) {a : Admitted}
      → read_sources w files args ≡ ok s
      → admit_sources w files args.environment s ≡ ok a
      → Ready w files args
  unfolding admit_sources
  admit_sources-Ready files args s r h =
      on_ok (admit_verdicts w args.environment s) _ h λ done e1 h.
        on_ok (admit_backups w files s) _ h λ labels e2 h.
          on_ok (admit_versions w s) _ h λ current e3 h. on_ok (admit_probe w s) _ h λ done e4 h.
            on_ok (admit_archive w s) _ h λ archived e5 h.
              let (known, verdicts) = admit_verdicts-Verdicts w args.environment s e1 in
              record {
                sources = s;
                documents = read_sources-Checked files args r;
                environment = known;
                verdicts = verdicts;
                backups = admit_backups-Identified w files s e2;
                versions = admit_versions-Versions w s e3;
                probe = admit_probe-SameProbe s e4;
                archived = admit_archive-Meets s e5;
              }

  -- A recovery status is made only where the four documents meet their digests and schemas, that of the
  -- restored backup at the path which the arguments or the restore's label give, the backup's status is
  -- ready, the restore was verified, and the documents agree on the backups, their digest, the migration,
  -- the PostgreSQL major and the probe, and name the time of the last archived segment.
  pub recovery_status-Ready :
      (has_schema : Bool) (files : Files) (args : StatusArgs) {document : Json}
      → recovery_status w has_schema files args ≡ ok document
      → Ready w files args
  unfolding recovery_status
  recovery_status-Ready has_schema files args h = on_ok (read_sources w files args) _ h λ s e h.
      on_ok (admit_sources w files args.environment s) _ h
        λ a f h. admit_sources-Ready files args s e f
