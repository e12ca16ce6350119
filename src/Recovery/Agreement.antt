-- ===== src/Recovery/Agreement.antt =====
-- The checks of `verify-restore` in recovery_contract.py: what each says where it holds.
use liqi_platform.Prelude.{
  String, true, false, Option, List, [], all, all-All, All, ◌≡◌, refl, ap, ◌∙◌, Result, ok,
  ok-injective,
}
use liqi_platform.Prelude.Int.{pos}
use liqi_platform.Prelude.Json.{Json, str, int, bool, arr, from_list, json_eq}
use liqi_platform.Recovery.Values.{Exc, ◌>>=◌, World, member, or_default}
use liqi_platform.Recovery.Store.{Files, read_text, expected_checksum, sha256_file}
use liqi_platform.Recovery.Backups.{manifest_entries}
use liqi_platform.Recovery.Checks.{
  RestoreArgs, Check, holds, inner, probe_member, get_or_null, backup_checks, cluster_checks,
}
use liqi_platform.Recovery.Steps.{on_ok}

-- Two values that were read are equal.
pub record Agrees (expected actual : Result Exc Json) : Type 0 where
  pub left : Json
  pub right : Json
  pub expected_read : expected ≡ ok left
  pub actual_read : actual ≡ ok right
  pub equal : json_eq left right ≡ true

abbrev text : Result Exc String → Result Exc Json
text r = r >>= λ s. ok (str s)

-- The rows of the migrations that the restored cluster reports.
abbrev migrations_of : Json → Result Exc Json
migrations_of actual = member "migrations" actual >>= λ o. ok (or_default (arr (from_list [])) o)

-- The cluster's own report: the probe ran to its end once, nothing failed, and the cluster is
-- promoted, archives nothing and listens nowhere.
pub record ClusterAgrees (metadata actual : Json) : Type 0 where
  pub completed : Agrees (ok (str "completed")) (probe_member "probeStatus" actual)
  pub succeeded : Agrees (ok (str "succeeded")) (probe_member "outboxState" actual)
  pub once : Agrees (ok (int (pos 1))) (probe_member "effectCount" actual)
  pub none_failed : Agrees (ok (int (pos 0))) (get_or_null "failedMigrationRuns" actual)
  pub same_probe : Agrees (inner "probe" "probeId" metadata) (probe_member "probeId" actual)
  pub same_event : Agrees (inner "probe" "eventId" metadata) (probe_member "eventId" actual)
  pub promoted : Agrees (ok (bool false)) (get_or_null "inRecovery" actual)
  pub no_archive : Agrees (ok (str "off")) (get_or_null "archiveMode" actual)
  pub isolated : Agrees (ok (str "")) (get_or_null "listenAddresses" actual)

-- The backup that was restored and its migrations: `args` names the files.
pub record BackupAgrees (w : World) (files : Files) (args : RestoreArgs) (metadata actual : Json)
    : Type 0 where
  pub rows : List Json
  pub manifest_text : String
  pub manifest_read : read_text w files args.manifest ≡ ok manifest_text
  pub rows_read : manifest_entries w manifest_text ≡ ok rows
  pub checksum :
      Agrees
        (text (expected_checksum w files args.checksum))
        (text (sha256_file w files args.metadata))
  pub schema :
      Agrees (ok (str "database-backup-metadata-v1")) (get_or_null "schemaVersion" metadata)
  pub major : Agrees (inner "postgresql" "major" metadata) (get_or_null "postgresqlMajor" actual)
  pub migration :
      Agrees (inner "migration" "currentVersion" metadata) (get_or_null "migrationVersion" actual)
  pub manifest :
      Agrees
        (inner "migration" "manifestSha256" metadata)
        (text (sha256_file w files args.manifest))
  pub row_checksums : Agrees (ok (arr (from_list rows))) (migrations_of actual)

-- Each check of a list that was made holds.
each :
    {xs ys : List Check}
    → ◌≡◌ {A = Result Exc (List Check)} (ok xs) (ok ys)
    → all holds ys ≡ true
    → All (λ c. holds c ≡ true) xs
each {xs} h t = all-All holds xs (ap (all holds) (ok-injective h) ∙ t)

agree :
    {x y : Json} {expected actual : Result Exc Json}
    → expected ≡ ok x
    → actual ≡ ok y
    → json_eq x y ≡ true
    → Agrees expected actual
agree {x} {y} e f h = record { left = x; right = y; expected_read = e; actual_read = f; equal = h }

module _ (w : World) where
  pub cluster_checks-Agrees :
      (metadata actual : Json) {checks : List Check}
      → cluster_checks w metadata actual ≡ ok checks
      → all holds checks ≡ true
      → ClusterAgrees metadata actual
  unfolding cluster_checks
  cluster_checks-Agrees metadata actual h t =
      on_ok (probe_member "probeStatus" actual) _ h λ status e1 h.
        on_ok (probe_member "outboxState" actual) _ h λ outbox e2 h.
          on_ok (probe_member "effectCount" actual) _ h λ effects e3 h.
            on_ok (get_or_null "failedMigrationRuns" actual) _ h λ failed e4 h.
              on_ok (inner "probe" "probeId" metadata) _ h λ probe_id e5 h.
                on_ok (probe_member "probeId" actual) _ h λ actual_id e6 h.
                  on_ok (inner "probe" "eventId" metadata) _ h λ event_id e7 h.
                    on_ok (probe_member "eventId" actual) _ h λ actual_event e8 h.
                      on_ok (get_or_null "inRecovery" actual) _ h λ recovering e9 h.
                        on_ok (get_or_null "archiveMode" actual) _ h λ archive e10 h.
                          on_ok (get_or_null "listenAddresses" actual) _ h λ addresses e11 h.
                            let (c1, (c2, (c3, (c4, (c5, (c6, (c7, (c8, (c9, u))))))))) =
                              each h t in
                            record {
                              completed = agree refl e1 c1;
                              succeeded = agree refl e2 c2;
                              once = agree refl e3 c3;
                              none_failed = agree refl e4 c4;
                              same_probe = agree e5 e6 c5;
                              same_event = agree e7 e8 c6;
                              promoted = agree refl e9 c7;
                              no_archive = agree refl e10 c8;
                              isolated = agree refl e11 c9;
                            }

  text-eq-ok : {r : Result Exc String} {s : String} → r ≡ ok s → text r ≡ ok (str s)
  unfolding ◌>>=◌
  text-eq-ok h = ap text h

  migrations_of-eq-ok :
      (actual : Json) {o : Option Json}
      → member "migrations" actual ≡ ok o
      → migrations_of actual ≡ ok (or_default (arr (from_list [])) o)
  unfolding ◌>>=◌
  migrations_of-eq-ok actual h = rw h

  pub backup_checks-Agrees :
      (files : Files) (args : RestoreArgs) (metadata actual : Json) {checks : List Check}
      → backup_checks w files args metadata actual ≡ ok checks
      → all holds checks ≡ true
      → BackupAgrees w files args metadata actual
  unfolding backup_checks
  backup_checks-Agrees files args metadata actual h t =
      on_ok (sha256_file w files args.manifest) _ h λ local_manifest e1 h.
        on_ok (read_text w files args.manifest) _ h λ manifest_text e2 h.
          on_ok (manifest_entries w manifest_text) _ h λ rows e3 h.
            on_ok (member "migrations" actual) _ h λ migrations e4 h.
              on_ok (expected_checksum w files args.checksum) _ h λ expected_sha e5 h.
                on_ok (sha256_file w files args.metadata) _ h λ actual_sha e6 h.
                  on_ok (get_or_null "schemaVersion" metadata) _ h λ version e7 h.
                    on_ok (inner "postgresql" "major" metadata) _ h λ major e8 h.
                      on_ok (get_or_null "postgresqlMajor" actual) _ h λ actual_major e9 h.
                        on_ok (inner "migration" "currentVersion" metadata) _ h λ migration e10 h.
                          on_ok (get_or_null "migrationVersion" actual) _ h
                            λ actual_migration e11 h.
                              on_ok (inner "migration" "manifestSha256" metadata) _ h
                                λ manifest e12 h.
                                  let (c1, (c2, (c3, (c4, (c5, (c6, u)))))) = each h t in
                                  record {
                                    rows = rows;
                                    manifest_text = manifest_text;
                                    manifest_read = e2;
                                    rows_read = e3;
                                    checksum = agree (text-eq-ok e5) (text-eq-ok e6) c1;
                                    schema = agree refl e7 c2;
                                    major = agree e8 e9 c3;
                                    migration = agree e10 e11 c4;
                                    manifest = agree e12 (text-eq-ok e1) c5;
                                    row_checksums = agree refl (migrations_of-eq-ok actual e4) c6;
                                  }
