-- ===== src/ReleaseControl/Operation.antt =====
-- The second half of `main` in release_control.py: the dry run, the operation with its automatic
-- recovery, and the evidence that is validated and written. The result is the exit code, or the
-- exception that ends the process.
use liqi_platform.Prelude.{
  ℕ, String, ◌<>◌, Bool, true, false, not, ◌||◌, Option, none, some, List, [], ◌∷◌, ◌++◌, map, ◌==◌,
  string_eq, ltb, is_empty, if◌then◌else◌, Result, ok, err,
}
use liqi_platform.Prelude.Texts.{join}
use liqi_platform.Prelude.Int.{ℤ}
use liqi_platform.ReleaseControl.Documents.{
  Release, Check, RecoveryCheck, RollbackDocument, ActivationDocument, Document, rollback_document,
  activation_document, activate, rollback, Args,
}
use liqi_platform.ReleaseControl.Host.{
  Exception, runtime_error, message, wrote, World, Host, Exec, ◌>>=◌, ◌>>◌, pure, raise_if,
  continue, file_step,
}
use liqi_platform.ReleaseControl.Services.{
  check, recovery_check, as_row, stop_release, start_release, select_release, clear_selection,
}
use liqi_platform.ReleaseControl.Plan.{Plan, preflight}
use liqi_platform.ReleaseControl.Evidence.{shown, preflight_checks, rollback_plan, activation_plan}
use mathlib.Core.Option

-- The two documents of `main`.
pub record Documents : Type 0 where
  pub rollback_doc : RollbackDocument
  pub activation_doc : Option ActivationDocument

abbrev pub add_checks : List Check → Exec (Unit {0})
add_checks cs h = (ok tt, record h { checks = h.checks ++ cs })

abbrev pub add_recovery : List RecoveryCheck → Exec (Unit {0})
add_recovery cs h = (ok tt, record h { recovery_checks = h.recovery_checks ++ cs })

module _ (w : World) (args : Args) where
  -- `int(time.monotonic() - operation_started) > args.maximum_duration_seconds`
  unfoldable pub within_time : Exec (Unit {0})
  within_time h =
      raise_if (ltb args.maximum_duration_seconds (w.elapsed_seconds h.history))
        (runtime_error "release operation exceeded maximum duration") h

  unfoldable pub stop_previous : Option Release → Exec (Unit {0})
  stop_previous none = pure tt
  stop_previous (some current) = do
    stopped ← stop_release w current args.systemctl true
    add_checks stopped

  -- The `try` block of an activation.
  unfoldable pub try_activate : Option Release → Release → Exec (Unit {0})
  try_activate current target = do
    stop_previous current
    select_release w target
    add_checks (
        check "select-release" "passed"
          (target.release_path <> " and " <> shown target.runtime_config_path) 0
        ∷ [])
    started ← start_release w target args.systemctl
    add_checks started
    within_time

  -- The `try` block of a rollback, without and with a target.
  unfoldable pub try_deactivate : Release → Exec (Unit {0})
  try_deactivate current = do
    stopped ← stop_release w current args.systemctl true
    add_recovery (map as_row stopped)
    clear_selection w

  unfoldable pub try_switch : Release → Release → Exec (Unit {0})
  try_switch current target = do
    stopped ← stop_release w current args.systemctl true
    add_recovery (map as_row stopped)
    select_release w target
    started ← start_release w target args.systemctl
    add_recovery (map as_row started)

  -- The recovery of a failed activation, the `try` block inside the `except` block.
  unfoldable pub recover_to : Option String → Option Release → Exec (Unit {0})
  recover_to current_id none = do
    clear_selection w
    add_recovery
        (recovery_check "automatic-recovery" "passed" "deactivated failed first release" ∷ [])
  recover_to current_id (some current) = do
    select_release w current
    started ← start_release w current args.systemctl
    add_recovery
        (recovery_check "automatic-recovery" "passed" ("restored " <> shown current_id) ∷ [])

  unfoldable pub recover : Option String → Option Release → Release → Exec (Unit {0})
  recover current_id current target = do
    stopped ← stop_release w target args.systemctl false
    recover_to current_id current

  -- The `update` calls that close the documents, one for each way the operation ends.
  unfoldable pub closed : RollbackDocument → String → List RecoveryCheck → String → RollbackDocument
  closed doc status checks now = record doc { status = status; completed_at = now; checks = checks }

  unfoldable pub activation_closed :
      ActivationDocument → String → String → List Check → String → ActivationDocument
  activation_closed doc state status checks now = record doc {
    state = state;
    status = status;
    completed_at = now;
    checks = checks;
  }

  -- The outcome of the recovery, whose error is `str(recovery_error)`.
  unfoldable pub after_recovery :
      Documents → String → Result Exception (Unit {0}) → Host → Documents × Host
  after_recovery docs error (ok done) h =
      let now = w.utc h.history in
      (
        record {
          rollback_doc = closed docs.rollback_doc "passed" h.recovery_checks now;
          activation_doc =
              Option.map
                (λ doc.
                  activation_closed doc "rolled-back" "failed"
                    (h.checks ++ check "automatic-rollback" "passed" error 0 ∷ []) now)
                docs.activation_doc;
        },
        h,
      )
  after_recovery docs error (err e) h =
      let now = w.utc h.history in
      let rows =
        h.recovery_checks ++ recovery_check "automatic-recovery" "failed" (message e) ∷ [] in
      (
        record {
          rollback_doc = closed docs.rollback_doc "failed" rows now;
          activation_doc =
              Option.map
                (λ doc.
                  activation_closed doc "activation-failed" "failed"
                    (h.checks ++ check "automatic-rollback" "failed" (message e) 0 ∷ []) now)
                docs.activation_doc;
        },
        record h { recovery_checks = rows },
      )

  unfoldable pub with_failure : Exception → Host → Host
  with_failure e h = record h {
    recovery_checks =
        h.recovery_checks ++ recovery_check "operation-failure" "failed" (message e) ∷ [];
  }

  -- An activation, with the `except` block that recovers from a failure.
  unfoldable pub activated :
      Plan → Release → Documents → Result Exception (Unit {0}) → Host → Documents × Host
  activated plan target docs (ok done) h = (
    record {
      rollback_doc =
          let doc : RollbackDocument = docs.rollback_doc in
          record doc {
            checks =
                doc.checks
                ++ recovery_check "not-executed" "not-run" "recovery was not required" ∷ [];
          };
      activation_doc =
          Option.map
            (λ doc. activation_closed doc "health-gated" "passed" h.checks (w.utc h.history))
            docs.activation_doc;
    },
    h,
  )
  activated plan target docs (err e) h =
      let (r, h') = recover plan.current_id plan.current target (with_failure e h) in
      after_recovery docs (message e) r h'

  -- A rollback, whose failure is raised again and recorded.
  unfoldable pub rolled_back :
      String → String → Documents → Result Exception (Unit {0}) → Host → Documents × Host
  rolled_back name detail docs (ok done) h = (
    record {
      rollback_doc =
          closed docs.rollback_doc "passed" (recovery_check name "passed" detail ∷ [])
            (w.utc h.history);
      activation_doc = docs.activation_doc;
    },
    h,
  )
  rolled_back name detail docs (err e) h =
      after_recovery docs (message e) (err e) (with_failure e h)

  unfoldable pub operate_activation : Plan → Release → Documents → Host → Documents × Host
  operate_activation plan target docs h =
      let (r, h') = try_activate plan.current target h in activated plan target docs r h'

  unfoldable pub operate_rollback : Release → Option Release → Documents → Host → Documents × Host
  operate_rollback current none docs h =
      let (r, h') = try_deactivate current h in
      rolled_back "drain-stop-deactivate"
        "first release deactivated; traffic must remain fail-closed" docs r h'
  operate_rollback current (some target) docs h =
      let (r, h') = try_switch current target h in
      rolled_back "drain-stop-switch-start-health" "rollback completed" docs r h'

  -- A plan always has the releases that its mode needs: the last clauses are never reached.
  unfoldable pub operate : Plan → Documents → Host → Documents × Host
  operate plan docs h = elim args.mode [
    | activate ↦ elim plan.target [
      | some target ↦ operate_activation plan target docs h
      | none ↦ (docs, h)
    ]
    | rollback ↦ elim plan.current [
      | some current ↦ operate_rollback current plan.target docs h
      | none ↦ (docs, h)
    ]
  ]

  abbrev pub write : String → Document → Exec (Unit {0})
  write path document = file_step w (wrote path document) (λ h. h)

  abbrev schema_name : Document → String
  schema_name (rollback_document doc) = "rollback-v1.schema.json"
  schema_name (activation_document doc) = "activation-v1.schema.json"

  -- Evidence that its schema refuses is not written.
  unfoldable pub write_valid : String → Document → Exec (Unit {0})
  write_valid path document = do
    raise_if (not (is_empty (w.document_failures document))) (
        runtime_error (
          "invalid evidence "
          <> schema_name document
          <> ": "
          <> join "; " (w.document_failures document)))
    write path document

  abbrev pub write_activation :
      (String → Document → Exec (Unit {0})) → Option ActivationDocument → Exec (Unit {0})
  write_activation writer none = pure tt
  write_activation writer (some doc) = elim args.activation_output [
    | none ↦ pure tt
    | some path ↦ writer path (activation_document doc)
  ]

  unfoldable pub write_both : (String → Document → Exec (Unit {0})) → Documents → Exec (Unit {0})
  write_both writer docs = do
    writer args.rollback_output (rollback_document docs.rollback_doc)
    write_activation writer docs.activation_doc

  unfoldable pub activation_failed : Option ActivationDocument → Bool
  activation_failed none = false
  activation_failed (some doc) = doc.status == "failed"

  unfoldable pub exit_code : Documents → ℕ
  exit_code docs =
      if activation_failed docs.activation_doc
      then 3
      else if docs.rollback_doc.status == "passed"
          || docs.rollback_doc.status == "engineering-complete-evidence-pending"
      then 0
      else 4

  unfoldable pub execute_plan : Plan → Documents → Exec ℕ
  execute_plan plan docs h =
      let (docs', h') = operate plan docs h in
      (do write_both write_valid docs'; pure (exit_code docs')) h'

  unfoldable pub prepared : (ℤ → String) → Plan → ℤ → String → Documents
  prepared show_int plan version now = record {
    rollback_doc = rollback_plan args plan now;
    activation_doc = activation_plan args plan now (preflight_checks show_int plan version);
  }

  unfoldable pub run_plan : (ℤ → String) → Plan × ℤ → Exec ℕ
  run_plan show_int (plan, version) h =
      let docs = prepared show_int plan version (w.utc h.history) in
      let h' : Host = record h {
        checks = preflight_checks show_int plan version;
        recovery_checks = [];
      } in
      if args.execute then execute_plan plan docs h' else (do write_both write docs; pure 0) h'

  unfoldable pub main : (ℤ → String) → Exec ℕ
  main show_int h = continue (preflight w args h) (run_plan show_int) h
