-- ===== src/Recovery/Consistent.antt =====
-- `command_create_recovery_status` of recovery_contract.py: what the documents agree on where a status is made.
use liqi_platform.Prelude.{
  String, Bool, true, not, ◌&&◌, and-parts, Option, some, List, [], ◌∷◌, All, contains, string_eq,
  ◌≡◌, Result, ok,
}
use liqi_platform.Prelude.Json.{Json, get, get_eq, is_text, is_object, truthy}
use liqi_platform.Recovery.Values.{Exc, ◌>>=◌, World, member, or_null}
use liqi_platform.Recovery.Store.{Files, sha256_file}
use liqi_platform.Recovery.Checks.{inner}
use liqi_platform.Recovery.Admission.{
  Sources, environments, same_probe, admit_verdicts, admit_backups, admit_versions,
}
use liqi_platform.Recovery.Steps.{require-true, on_ok, on_guard}

-- A member that was read, and a test that it meets.
pub record Meets (test : Option Json → Bool) (read : Result Exc (Option Json)) : Type 0 where
  pub value : Option Json
  pub was_read : read ≡ ok value
  pub met : test value ≡ true

-- A value of one document, and the member of another that equals it.
pub record Same (reported : Result Exc (Option Json)) (own : Result Exc Json) : Type 0 where
  pub value : Json
  pub own_read : own ≡ ok value
  pub same : Meets (λ v. get_eq v (some value)) reported

-- The backup's status is ready without reasons, and the restore was verified.
pub record Verdicts (s : Sources) : Type 0 where
  pub ready : Meets truthy (member "recoveryReady" s.backup_status)
  pub no_reasons : Meets (λ v. not (truthy v)) (member "reasons" s.backup_status)
  pub restored : Meets truthy (member "success" s.restore)

pub admit_verdicts-Verdicts :
    (w : World) (environment : String) (s : Sources) {u : Unit {0}}
    → admit_verdicts w environment s ≡ ok u
    → (contains environments environment ≡ true) × Verdicts s
unfolding admit_verdicts
admit_verdicts-Verdicts w environment s h =
    on_guard (contains environments environment) _ _ h λ known h.
      on_ok (member "recoveryReady" s.backup_status) _ h λ ready e1 h.
        on_ok (member "reasons" s.backup_status) _ h λ reasons e2 h.
          on_guard (truthy ready && not (truthy reasons)) _ _ h λ t h.
            on_ok (member "success" s.restore) _ h λ success e3 h.
              let (a, b) = and-parts (truthy ready) (not (truthy reasons)) t in
              (
                known,
                record {
                  ready = record { value = ready; was_read = e1; met = a };
                  no_reasons = record { value = reasons; was_read = e2; met = b };
                  restored = record {
                    value = success;
                    was_read = e3;
                    met = require-true (truthy success) _ h;
                  };
                },
              )

-- Which backups the documents are about.
pub record Identified (w : World) (files : Files) (s : Sources) : Type 0 where
  pub current : Option Json
  pub current_read : member "latestBackup" s.backup_status ≡ ok current
  pub latest_label : Json
  pub latest_read : inner "backup" "label" s.latest ≡ ok latest_label
  pub is_latest : get_eq (get "label" (or_null current)) (some latest_label) ≡ true
  pub restored_label :
      Same (member "backupLabel" s.restore) (inner "backup" "label" s.restore_source)
  pub source_sha : String
  pub source_hashed : sha256_file w files s.restore_source_path ≡ ok source_sha
  pub restored_sha : Meets (is_text source_sha) (member "backupMetadataSha256" s.restore)

-- The migration of the latest backup is that of the status and of the backup that was restored, and the two backups have one
-- PostgreSQL major.
pub record Versions (s : Sources) : Type 0 where
  pub reported :
      Same (member "migrationVersion" s.backup_status) (inner "migration" "currentVersion" s.latest)
  pub restored :
      Same
        (inner "migration" "currentVersion" s.restore_source >>= λ v. ok (some v))
        (inner "migration" "currentVersion" s.latest)
  pub major :
      Same
        (inner "postgresql" "major" s.restore_source >>= λ v. ok (some v))
        (inner "postgresql" "major" s.latest)

-- A probe's member, in both documents.
pub record SameMember (current expected : Json) (key : String) : Type 0 where
  pub left : Option Json
  pub right : Option Json
  pub left_read : member key current ≡ ok left
  pub right_read : member key expected ≡ ok right
  pub equal : get_eq left right ≡ true

module _ (w : World) where
  pub admit_backups-Identified :
      (files : Files) (s : Sources) {labels : Json × Json}
      → admit_backups w files s ≡ ok labels
      → Identified w files s
  unfolding admit_backups
  admit_backups-Identified files s h = on_ok (inner "backup" "label" s.latest) _ h λ latest e1 h.
      on_ok (member "latestBackup" s.backup_status) _ h λ current e2 h.
        on_guard
          (is_object (or_null current) && get_eq (get "label" (or_null current)) (some latest)) _ _
          h
          λ t1 h. on_ok (member "backupLabel" s.restore) _ h λ restored e3 h.
            on_ok (inner "backup" "label" s.restore_source) _ h λ source e4 h.
              on_guard (get_eq restored (some source)) _ _ h λ t2 h.
                on_ok (member "backupMetadataSha256" s.restore) _ h λ restored_sha e5 h.
                  on_ok (sha256_file w files s.restore_source_path) _ h λ sha e6 h.
                    on_guard (is_text sha restored_sha) _ _ h λ t3 h. record {
                      current = current;
                      current_read = e2;
                      latest_label = latest;
                      latest_read = e1;
                      is_latest = (and-parts (is_object (or_null current)) _ t1).1;
                      restored_label = record {
                        value = source;
                        own_read = e4;
                        same = record { value = restored; was_read = e3; met = t2 };
                      };
                      source_sha = sha;
                      source_hashed = e6;
                      restored_sha = record { value = restored_sha; was_read = e5; met = t3 };
                    }

  as_member : {r : Result Exc Json} {v : Json} → r ≡ ok v → (r >>= λ v. ok (some v)) ≡ ok (some v)
  unfolding ◌>>=◌
  as_member h = rw h

  pub admit_versions-Versions : (s : Sources) {v : Json} → admit_versions w s ≡ ok v → Versions s
  unfolding admit_versions
  admit_versions-Versions s h =
      on_ok (inner "migration" "currentVersion" s.latest) _ h λ current e1 h.
        on_ok (member "migrationVersion" s.backup_status) _ h λ reported e2 h.
          on_guard (get_eq reported (some current)) _ _ h λ t1 h.
            on_ok (inner "migration" "currentVersion" s.restore_source) _ h λ source e3 h.
              on_guard (get_eq (some source) (some current)) _ _ h λ t2 h.
                on_ok (inner "postgresql" "major" s.restore_source) _ h λ source_major e4 h.
                  on_ok (inner "postgresql" "major" s.latest) _ h λ major e5 h.
                    on_guard (get_eq (some source_major) (some major)) _ _ h λ t3 h. record {
                      reported = record {
                        value = current;
                        own_read = e1;
                        same = record { value = reported; was_read = e2; met = t1 };
                      };
                      restored = record {
                        value = current;
                        own_read = e1;
                        same = record { value = some source; was_read = as_member e3; met = t2 };
                      };
                      major = record {
                        value = major;
                        own_read = e5;
                        same = record {
                          value = some source_major;
                          was_read = as_member e4;
                          met = t3;
                        };
                      };
                    }

pub same_probe-SameMember :
    (keys : List String) (current expected : Json) {u : Unit {0}}
    → same_probe keys current expected ≡ ok u
    → All (SameMember current expected) keys
unfolding same_probe
same_probe-SameMember [] current expected h = tt
same_probe-SameMember (key ∷ keys) current expected h = on_ok (member key current) _ h λ a e h.
    on_ok (member key expected) _ h λ b f h. on_guard (get_eq a b) _ _ h λ t h. (
      record { left = a; right = b; left_read = e; right_read = f; equal = t },
      same_probe-SameMember keys current expected h,
    )
