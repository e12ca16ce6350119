-- ===== src/Recovery/Restored.antt =====
-- `command_verify_restore` of recovery_contract.py: what holds of the restored cluster where it returns 0.
use liqi_platform.Prelude.Int.{ℤ}
use liqi_platform.Prelude.{
  ℕ, Bool, true, false, ◌++◌, all, all-append, ◌≡◌, refl, ap, ◌∙◌, arith, Result, ok, err,
  ok-injective, if◌then◌else◌,
}
use liqi_platform.Prelude.Json.{Json}
use liqi_platform.Recovery.Values.{Exc, World, validate}
use liqi_platform.Recovery.Store.{
  Files, Disk, proceed, sha256_file, load_json, write_json_with_checksum, validate_metadata,
}
use liqi_platform.Recovery.Checks.{RestoreArgs, holds, inner, backup_checks, cluster_checks}
use liqi_platform.Recovery.Restore.{
  read_times, restore_document, Verified, verified, conclude, command_verify_restore,
}
use liqi_platform.Recovery.Steps.{on_ok}
use liqi_platform.Recovery.Agreement.{
  BackupAgrees, ClusterAgrees, backup_checks-Agrees, cluster_checks-Agrees,
}

-- What the two files say, and what they agree on.
pub record Restored (w : World) (files : Files) (args : RestoreArgs) : Type 0 where
  pub metadata : Json
  pub actual : Json
  pub metadata_read : validate_metadata w files args.metadata args.checksum ≡ ok metadata
  pub actual_read : load_json w files args.actual ≡ ok actual
  pub backup : BackupAgrees w files args metadata actual
  pub cluster : ClusterAgrees metadata actual

module _ (w : World) where
  verified-checks :
      (now : ℤ) (files : Files) (args : RestoreArgs) {v : Verified}
      → verified w now files args ≡ ok v
      → all holds v.checks ≡ true
      → Restored w files args
  unfolding verified
  verified-checks now files args h t =
      on_ok (validate_metadata w files args.metadata args.checksum) _ h λ metadata e1 h.
        on_ok (load_json w files args.actual) _ h λ actual e2 h.
          on_ok (backup_checks w files args metadata actual) _ h λ first e3 h.
            on_ok (cluster_checks w metadata actual) _ h λ second e4 h.
              on_ok (read_times w args metadata) _ h λ times e h.
                on_ok (inner "backup" "label" metadata) _ h λ label e h.
                  on_ok (sha256_file w files args.metadata) _ h λ sha e h.
                    on_ok
                      (validate w "database-restore-result-v0.schema.json"
                        (restore_document w now args (first ++ second) times label sha))
                      _ h
                      λ done e h.
                        let (a, b) =
                          all-append holds first second
                            (ap (λ v. all holds v.checks) (ok-injective h) ∙ t) in
                        record {
                          metadata = metadata;
                          actual = actual;
                          metadata_read = e1;
                          actual_read = e2;
                          backup = backup_checks-Agrees w files args metadata actual e3 a;
                          cluster = cluster_checks-Agrees w metadata actual e4 b;
                        }

  exit_code-zero : (t : Bool) → ◌≡◌ {A = Result Exc ℕ} (ok (if t then 0 else 1)) (ok 0) → t ≡ true
  exit_code-zero true h = refl
  exit_code-zero false h = absurd (ground arith)

  conclude-zero :
      (v : Verified) (r : Result Exc (Unit {0}) × Disk) {d : Disk}
      → conclude w v r ≡ (ok 0, d)
      → all holds v.checks ≡ true
  conclude-zero v (ok done, d) h = exit_code-zero (all holds v.checks) (ap (λ r. r.0) h)
  conclude-zero v (err e, d) h = absurd (ground arith)

  -- Where `verify-restore` exits with 0, the backup's metadata and the restored cluster's state were read, and all
  -- that the fifteen checks compare is equal.
  pub command_verify_restore-Restored :
      (args : RestoreArgs) (d : Disk) {d' : Disk}
      → command_verify_restore w args d ≡ (ok 0, d')
      → Restored w d.files args
  unfolding command_verify_restore
  command_verify_restore-Restored args d h = go (verified w (w.now d.count) d.files args) refl h
    where
      go :
          (r : Result Exc Verified) {d' : Disk}
          → verified w (w.now d.count) d.files args ≡ r
          → proceed r (λ v e. conclude w v (write_json_with_checksum w args.output v.document e)) d
            ≡ (ok 0, d')
          → Restored w d.files args
      go (ok v) e h =
          verified-checks (w.now d.count) d.files args e
            (conclude-zero v (write_json_with_checksum w args.output v.document d) h)
      go (err x) e h = absurd (ground arith)
