-- ===== src/ReleaseControl/RollbackExamples.antt =====
-- Rollbacks from r2 to r1, and the theorems at them.
use liqi_platform.Prelude.{
  ℕ, ◌≡◌, refl, true, false, none, some, List, [], ◌∷◌, ◌==◌, string_eq, if◌then◌else◌, ok, err,
  ◌⊎◌, not, length, nat_eq, any, is_empty,
}
use liqi_platform.Prelude.Int.{pos}
use liqi_platform.ReleaseControl.Documents.{
  Check, rollback, Args, rollback_document, activation_document, RollbackDocument,
}
use liqi_platform.ReleaseControl.Host.{Exception, World, Host, runtime_error}
use liqi_platform.ReleaseControl.Plan.{Plan, preflight}
use liqi_platform.ReleaseControl.Operation.{main, prepared, operate_rollback, try_switch, Documents}
use liqi_platform.ReleaseControl.Services.{check, stop_release}
use liqi_platform.ReleaseControl.Outcomes.{Reached, operate_rollback-Reached}
use liqi_platform.ReleaseControl.Scenario.{
  show_int, r1, r2, calm, host_world, on_release, checked, whole,
}
use liqi_platform.ReleaseControl.Rollbacks.{main_rollback}
use liqi_platform.ReleaseControl.Unrecorded.{is_timed, planned_host, failed_rollback_unrecorded}

abbrev rollback_args : Args
rollback_args = record {
  mode = rollback;
  target_release_id = none;
  deployment_id = "d2";
  descriptor_dir = "targets";
  host_readiness = "host.json";
  database_readiness = "database.json";
  first_release_recovery = none;
  systemctl = "systemctl";
  maximum_duration_seconds = 300;
  approval_reference = some "CHG-2";
  execute = true;
  activation_output = none;
  rollback_output = "rollback.json";
}

abbrev from_r2 : Host
from_r2 = on_release "/opt/liqi/releases/r2"

abbrev r2_to_r1 : Plan
r2_to_r1 = record {
  current_id = some "r2";
  current = some r2;
  target_id = some "r1";
  target = some r1;
  first_transition = false;
}

admitted : preflight calm rollback_args from_r2 ≡ ok (r2_to_r1, pos 5)
unfolding checked
admitted = refl

exits_zero : (main calm rollback_args show_int from_r2).0 ≡ ok 0
unfolding whole
exits_zero = refl

main_rollback_example :
    ((◌≡◌ {A = ℕ} 0 0)
      × Reached calm rollback_args (some r1) (main calm rollback_args show_int from_r2).1)
    ⊎ (◌≡◌ {A = ℕ} 0 4)
main_rollback_example =
    main_rollback calm rollback_args show_int from_r2 r2_to_r1 0 admitted refl refl
      (λ i. (exits_zero i, (main calm rollback_args show_int from_r2).1))

abbrev planned : Documents
planned = prepared calm rollback_args show_int r2_to_r1 (pos 5) "start"

passes :
    (operate_rollback calm rollback_args r2 (some r1) planned from_r2).0.rollback_doc.status
    ≡ "passed"
unfolding whole
passes = refl

operate_rollback-Reached_example :
    Reached calm rollback_args
      (some r1)
      (operate_rollback calm rollback_args r2 (some r1) planned from_r2).1
operate_rollback-Reached_example =
    operate_rollback-Reached calm rollback_args r2 (some r1) planned from_r2 passes

-- The services of the target do not start, and the schema of rollback documents admits no duration.
abbrev broken : World
broken =
    let w : World = host_world (λ past argv. not (length past == 8)) in
    record w {
      document_failures = λ d. elim d [
        | rollback_document doc ↦
            if any is_timed doc.checks then "unexpected duration_ms" ∷ [] else []
        | activation_document doc ↦ []
      ];
    }

refused :
    (doc : RollbackDocument)
    → any is_timed doc.checks ≡ true
    → is_empty (broken.document_failures (rollback_document doc)) ≡ false
refused doc h = rw h refl

abbrev stop_checks : List Check
stop_checks =
    check "drain-current" "passed" "drain completed" 40
    ∷ check "stop-service" "passed" "api: stopped" 40
    ∷ check "stop-service" "passed" "worker: stopped" 40
    ∷ []

-- The host after the preflight of this world.
abbrev at_start : Host
at_start = planned_host broken rollback_args show_int r2_to_r1 (pos 5) from_r2

broken_admitted : preflight broken rollback_args from_r2 ≡ ok (r2_to_r1, pos 5)
unfolding checked
broken_admitted = refl

stops : (stop_release broken r2 "systemctl" true at_start).0 ≡ ok stop_checks
unfolding whole
stops = refl

abbrev start_error : Exception
start_error = runtime_error "start failed for worker: "

start_fails : (try_switch broken rollback_args r2 r1 at_start).0 ≡ err start_error
unfolding whole
start_fails = refl

failed_rollback_unrecorded_example :
    ((y : Exception) × ((main broken rollback_args show_int from_r2).0 ≡ err y))
    × ((main broken rollback_args show_int from_r2).1.history
        ≡ (try_switch broken rollback_args r2 r1 at_start).1.history)
failed_rollback_unrecorded_example =
    failed_rollback_unrecorded broken rollback_args refused show_int from_r2 r2_to_r1 r2 r1
      start_error broken_admitted refl refl refl refl stops start_fails
