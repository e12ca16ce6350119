-- ===== src/ReleaseControl/Examples.antt =====
-- Runs of release_control.py on a host with the releases r1 and r2, and the theorems at them.
use liqi_platform.Prelude.{◌≡◌, refl, true, false, some, [], List, ◌∷◌, string_eq, ok, ◌⊎◌, nat_eq}
use liqi_platform.Prelude.Int.{pos}
use liqi_platform.ReleaseControl.Documents.{Check}
use liqi_platform.ReleaseControl.Host.{symlink, current_link}
use liqi_platform.ReleaseControl.Plan.{preflight}
use liqi_platform.ReleaseControl.Operation.{
  main, prepared, operate_activation, try_activate, Documents,
}
use liqi_platform.ReleaseControl.Exits.{ActivationExit, main_activation, main_dry_run, Untouched}
use liqi_platform.ReleaseControl.Evidence.{preflight_checks, activation_of}
use liqi_platform.ReleaseControl.Services.{atomic_symlink, check, stop_release, start_release}
use liqi_platform.ReleaseControl.Guards.{IsAdmitted, preflight-IsAdmitted}
use liqi_platform.ReleaseControl.Ordered.{Stopped, Started, release_ordered}
use liqi_platform.ReleaseControl.Sequence.{after_switch, try_activate-history}
use liqi_platform.ReleaseControl.Links.{atomic_symlink_lem}
use liqi_platform.ReleaseControl.Undisturbed.{Completed, operate_activation-Completed}
use liqi_platform.ReleaseControl.Outcomes.{Ended, operate_activation-Ended}
use liqi_platform.ReleaseControl.Scenario.{
  show_int, r1, r2, calm, flaky, activation_args, from_r1, r1_to_r2, checked, whole,
}

admitted : preflight calm (activation_args true) from_r1 ≡ ok (r1_to_r2, pos 5)
unfolding checked
admitted = refl

exits_zero : (main calm (activation_args true) show_int from_r1).0 ≡ ok 0
unfolding whole
exits_zero = refl

main_activation_example :
    ActivationExit calm
      (activation_args true)
      r1_to_r2
      0
      (main calm (activation_args true) show_int from_r1).1
main_activation_example =
    main_activation calm (activation_args true) show_int from_r1 r1_to_r2 0 admitted refl refl
      (λ i. (exits_zero i, (main calm (activation_args true) show_int from_r1).1))

preflight-IsAdmitted_example : IsAdmitted calm (activation_args true) r1_to_r2 (pos 5)
preflight-IsAdmitted_example =
    preflight-IsAdmitted calm (activation_args true) from_r1 r1_to_r2 (pos 5) admitted

main_dry_run_example : Untouched from_r1 (main calm (activation_args false) show_int from_r1).1
main_dry_run_example = main_dry_run calm (activation_args false) show_int from_r1 refl

abbrev r2_stopped : List Check
r2_stopped =
    check "drain-current" "passed" "drain completed" 40
    ∷ check "stop-service" "passed" "api: stopped" 40
    ∷ check "stop-service" "passed" "worker: stopped" 40
    ∷ []

abbrev r2_started : List Check
r2_started =
    check "start-service" "passed" "worker: started" 40
    ∷ check "start-service" "passed" "api: started" 40
    ∷ check "health-gate" "passed" "health passed" 40
    ∷ []

stops : (stop_release calm r2 "systemctl" true from_r1).0 ≡ ok r2_stopped
unfolding whole
stops = refl

starts : (start_release calm r2 "systemctl" from_r1).0 ≡ ok r2_started
unfolding whole
starts = refl

release_ordered_example :
    Stopped "systemctl" r2 from_r1 (stop_release calm r2 "systemctl" true from_r1).1
    × Started "systemctl" r2 from_r1 (start_release calm r2 "systemctl" from_r1).1
release_ordered_example =
    release_ordered calm r2 "systemctl" from_r1 from_r1
      (λ i. (stops i, (stop_release calm r2 "systemctl" true from_r1).1))
      (λ i. (starts i, (start_release calm r2 "systemctl" from_r1).1))

atomic_symlink_lem_example :
    let k = (atomic_symlink calm "/opt/liqi/releases/r2" current_link from_r1).1 in
    ((k.current.entry ≡ symlink "/opt/liqi/releases/r1")
      ⊎ (k.current.entry ≡ symlink "/opt/liqi/releases/r2"))
    × ((atomic_symlink calm "/opt/liqi/releases/r2" current_link from_r1).0 ≡ ok tt
        → k.current.entry ≡ symlink "/opt/liqi/releases/r2")
atomic_symlink_lem_example = atomic_symlink_lem calm "/opt/liqi/releases/r2" current_link from_r1

activates : (try_activate calm (activation_args true) (some r1) r2 from_r1).0 ≡ ok tt
unfolding whole
activates = refl

try_activate-history_example :
    (try_activate calm (activation_args true) (some r1) r2 from_r1).1.history
    ≡ after_switch calm "systemctl" r1 r2 []
try_activate-history_example =
    try_activate-history calm (activation_args true) r1 r2 from_r1
      (λ i. (activates i, (try_activate calm (activation_args true) (some r1) r2 from_r1).1))

recovers : (main flaky (activation_args true) show_int from_r1).0 ≡ ok 3
unfolding whole
recovers = refl

abbrev planned : Documents
planned = prepared flaky (activation_args true) show_int r1_to_r2 (pos 5) "start"

operate_activation-Ended_example :
    Ended flaky
      (some r1)
      r2
      (operate_activation flaky (activation_args true) r1_to_r2 r2 planned from_r1).0
      (operate_activation flaky (activation_args true) r1_to_r2 r2 planned from_r1).1
unfolding whole
operate_activation-Ended_example =
    operate_activation-Ended flaky (activation_args true) r1_to_r2 r2 planned from_r1
      (activation_of (activation_args true) r1_to_r2 "start"
        (preflight_checks show_int r1_to_r2 (pos 5)) "r2" r2)
      refl refl

operate_activation-Completed_example :
    Completed calm
      (activation_args true)
      r2
      (operate_activation calm (activation_args true) r1_to_r2 r2 planned from_r1).0
      (operate_activation calm (activation_args true) r1_to_r2 r2 planned from_r1).1
unfolding whole
operate_activation-Completed_example =
    operate_activation-Completed calm (activation_args true) r1_to_r2 r2 planned from_r1
      (activation_of (activation_args true) r1_to_r2 "start"
        (preflight_checks show_int r1_to_r2 (pos 5)) "r2" r2)
      (λ past argv timeout. ("", "", 40, refl)) (λ past e. refl) (λ past. refl) refl refl
