-- ===== src/ReleaseControl/Scenario.antt =====
-- A host with the releases r1 and r2, for runs of release_control.py.
use liqi_platform.Prelude.{
  ℕ, String, ◌<>◌, Bool, true, false, Option, none, some, List, [], ◌∷◌, ◌==◌, string_eq,
  if◌then◌else◌, Result, ok, not, length, nat_eq,
}
use liqi_platform.Prelude.Int.{ℤ, pos}
use liqi_platform.Prelude.Json.{Json, obj, field, end, str, int, bool, is_text}
use liqi_platform.ReleaseControl.Documents.{Release, activate, Args}
use liqi_platform.ReleaseControl.Host.{Exception, absent, symlink, Event, exited, World, Host, Exec}
use liqi_platform.ReleaseControl.Plan.{
  Plan, preflight, make_plan, load_current, load_release, plan_mode, plan_activation, plan_rollback,
  plan_switch, gates, host_ready, release_ready, recovery_ready, bound_release, permitted,
  needs_output,
}
use liqi_platform.ReleaseControl.Operation.{
  main, run_plan, prepared, execute_plan, operate, operate_activation, operate_rollback, activated,
  rolled_back, after_recovery, with_failure, closed, activation_closed, recover, recover_to,
  try_activate, try_deactivate, try_switch, stop_previous, within_time, write_both, write_valid,
  activation_failed, exit_code,
}
use liqi_platform.ReleaseControl.Preflight.{
  current_release_id, descriptor, database_version, version_of, exact_readiness, v0_readiness,
  compatibility_one, configs_ready, recovery_evidence,
}
use liqi_platform.ReleaseControl.Evidence.{
  preflight_checks, rollback_plan, activation_plan, activation_of,
}
use liqi_platform.ReleaseControl.Services.{
  check, recovery_check, run, atomic_symlink, unlink, stop_service, start_service, stop_services,
  start_services, drain_current, services, stop_release, start_release, select_release,
  clear_selection,
}
use liqi_platform.Prelude.Sorted.{sort_by, sort_down}
use liqi_platform.Prelude.Texts.{prefix, strip, suffix}

abbrev pub show_int : ℤ → String
show_int n = "5"

abbrev pub release : String → Option String → Release
release id previous = record {
  release_id = id;
  git_sha = "sha";
  release_path = "/opt/liqi/releases/" <> id;
  source_manifest_sha256 = "manifest";
  services =
      record { unit = "api"; start_order = 2; stop_timeout_seconds = 30 }
      ∷ record { unit = "worker"; start_order = 1; stop_timeout_seconds = 10 }
      ∷ [];
  drain_argv = some ("drain" ∷ []);
  drain_timeout_seconds = 20;
  health_argv = "health" ∷ [];
  health_timeout_seconds = 10;
  database_compatibility = record {
    minimum_migration = 3;
    rollback_safe_through = 7;
    database_rollback_allowed = false;
  };
  database_compatibility_evidence = record { retained_path = "evidence"; sha256 = "digest" };
  rollback_target_release_id = previous;
  configuration_paths = [];
  runtime_config_path = none;
  credential_directory = none;
  required_credentials = [];
}

abbrev pub r1 : Release
r1 = release "r1" none

abbrev pub r2 : Release
r2 = release "r2" (some "r1")

abbrev pub readiness : Json
readiness = obj (
    field "status" (str "ready") (
      field "schemaVersion" (str "database-readiness-v0") (
        field "ready" (bool true)
          (field "reason" (str "ready") (field "currentVersion" (int (pos 5)) end)))))

-- Every file operation succeeds; the commands succeed unless `fails` says otherwise.
abbrev pub host_world : (List Event → List String → Bool) → World
host_world succeeds = record {
  runs = λ past argv timeout. exited (succeeds past argv) "" "" 40;
  refuses = λ past e. false;
  elapsed_seconds = λ past. 12;
  utc = λ past. "2026-01-01T00:00:00Z";
  root_posix = true;
  load = λ path. ok (
      if path == "targets/r1.json"
      then str "r1"
      else if path == "targets/r2.json"
      then str "r2"
      else readiness);
  failures = λ name document. [];
  release_view = λ document. if is_text "r1" (some document) then r1 else r2;
  document_failures = λ document. [];
  resolve = λ target.
      if target == "/opt/liqi/releases/r1"
      then some ("/opt/liqi/releases", "r1")
      else some ("/opt/liqi/releases", "r2");
  is_file = λ path. true;
  is_dir = λ path. true;
  path_exists = λ path. true;
  readable = λ path. true;
  size_of = λ path. 100;
  mode_of = λ path. 256;
  digest = λ path. ok "digest";
}

abbrev pub calm : World
calm = host_world (λ past argv. true)

abbrev pub activation_args : Bool → Args
activation_args execute = record {
  mode = activate;
  target_release_id = some "r2";
  deployment_id = "d1";
  descriptor_dir = "targets";
  host_readiness = "host.json";
  database_readiness = "database.json";
  first_release_recovery = none;
  systemctl = "systemctl";
  maximum_duration_seconds = 300;
  approval_reference = some "CHG-1";
  execute = execute;
  activation_output = some "activation.json";
  rollback_output = "rollback.json";
}

abbrev pub on_release : String → Host
on_release path = record {
  current = record { entry = symlink path; temporary = absent };
  runtime = record { entry = absent; temporary = absent };
  history = [];
  checks = [];
  recovery_checks = [];
}

abbrev pub from_r1 : Host
from_r1 = on_release "/opt/liqi/releases/r1"

abbrev pub r1_to_r2 : Plan
r1_to_r2 = record {
  current_id = some "r1";
  current = some r1;
  target_id = some "r2";
  target = some r2;
  first_transition = false;
}

unfoldable pub checked : World → Args → Host → Result Exception (Plan × ℤ)
unfolding preflight make_plan load_current load_release plan_mode plan_activation plan_rollback
    plan_switch gates host_ready release_ready recovery_ready bound_release permitted needs_output
    current_release_id descriptor database_version version_of exact_readiness v0_readiness
    compatibility_one configs_ready recovery_evidence
checked = preflight

unfoldable pub whole : World → Args → (ℤ → String) → Exec ℕ
unfolding checked main run_plan prepared execute_plan operate operate_activation operate_rollback
    activated rolled_back after_recovery with_failure closed activation_closed recover recover_to
    try_activate try_deactivate try_switch stop_previous within_time write_both write_valid
    activation_failed exit_code preflight_checks rollback_plan activation_plan activation_of check
    recovery_check run atomic_symlink unlink stop_service start_service stop_services start_services
    drain_current services stop_release start_release select_release clear_selection sort_by
    sort_down prefix strip suffix
whole = main

-- The first health gate of the target fails, and the second one, of its predecessor, passes.
abbrev pub flaky : World
flaky = host_world (λ past argv. not (length past == 10))
