-- ===== src/ReleaseControl/Evidence.antt =====
-- The evidence documents that `main` of release_control.py prepares from its plan, and the lines of
-- its preflight.
use liqi_platform.Prelude.{String, ◌<>◌, false, Option, none, some, List, [], ◌∷◌, if◌then◌else◌}
use liqi_platform.Prelude.Int.{ℤ}
use liqi_platform.ReleaseControl.Documents.{
  Release, Check, RollbackDocument, ActivationDocument, Mode, activate, rollback, Args,
}
use liqi_platform.ReleaseControl.Services.{check, recovery_check}
use liqi_platform.ReleaseControl.Preflight.{first_some, non_empty}
use liqi_platform.ReleaseControl.Plan.{Plan}
use mathlib.Core.Option

-- `f"{value}"` of a text or `None`
abbrev pub shown : Option String → String
shown none = "None"
shown (some s) = s

unfoldable pub preflight_checks : (ℤ → String) → Plan → ℤ → List Check
unfolding check
preflight_checks show_int plan version =
    check "host-readiness" "passed" "host readiness passed" 0
    ∷ check "database-compatibility" "passed"
        ("migration " <> show_int version <> " is compatible and forward-only") 0
    ∷ check "configuration" "passed" "configuration, evidence and credentials present" 0
    ∷ check "recovery-target" "passed"
        (if plan.first_transition
          then "first-release infrastructure recovery is exact-SHA"
          else "retained target " <> shown plan.target_id)
        0
    ∷ []

-- The release that stays behind: the target of a rollback, the predecessor of an activation.
unfoldable pub fallback : Mode → Plan → Option Release
fallback rollback plan = plan.target
fallback activate plan = plan.current

abbrev approval : Args → Option String
approval args = if args.execute then args.approval_reference else none

abbrev evidence_class : Args → String
evidence_class args = if args.execute then "live-approved" else "dry-run"

unfoldable pub rollback_plan : Args → Plan → String → RollbackDocument
unfolding recovery_check fallback
rollback_plan args plan now = record {
  rollback_id = args.deployment_id <> "-rollback";
  from_release_id = first_some (non_empty plan.current_id) plan.target_id;
  target_release_id = Option.map (λ r. r.release_id) (fallback args.mode plan);
  recovery_mode = if plan.first_transition then "deactivate-first-release" else "release-switch";
  target_git_sha = Option.map (λ r. r.git_sha) (fallback args.mode plan);
  target_manifest_sha256 = Option.map (λ r. r.source_manifest_sha256) (fallback args.mode plan);
  database_compatibility = "compatible";
  config_compatibility = "compatible";
  maximum_duration_seconds = args.maximum_duration_seconds;
  status = "engineering-complete-evidence-pending";
  started_at = now;
  completed_at = now;
  approval_reference = approval args;
  checks =
      recovery_check "preflight" "passed" "release and infrastructure recovery preflight validated"
      ∷ [];
  evidence_class = evidence_class args;
}

unfoldable pub activation_of :
    Args → Plan → String → List Check → String → Release → ActivationDocument
activation_of args plan now checks target_id target = record {
  deployment_id = args.deployment_id;
  release_id = target_id;
  git_sha = target.git_sha;
  manifest_sha256 = target.source_manifest_sha256;
  previous_release_id = plan.current_id;
  rollback_target_release_id = plan.current_id;
  state = "preflight-passed";
  status = "engineering-complete-evidence-pending";
  started_at = now;
  completed_at = now;
  approval_reference = approval args;
  checks = checks;
  traffic_enabled = false;
  evidence_class = evidence_class args;
}

activation_for :
    Args
    → Plan
    → String
    → List Check
    → Mode
    → Option String
    → Option Release
    → Option ActivationDocument
activation_for args plan now checks activate (some id) (some target) =
    some (activation_of args plan now checks id target)
activation_for args plan now checks _ _ _ = none

-- `None` for a rollback; an activation's plan has its target.
unfoldable pub activation_plan : Args → Plan → String → List Check → Option ActivationDocument
unfolding activation_for
activation_plan args plan now checks =
    activation_for args plan now checks args.mode plan.target_id plan.target
