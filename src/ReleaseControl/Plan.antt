-- ===== src/ReleaseControl/Plan.antt =====
-- The first half of `main` in release_control.py: which transition is asked for, and the checks that
-- it passes before any effect. Nothing here changes the host.
use liqi_platform.Prelude.{
  String, ◌<>◌, Bool, true, false, not, ◌&&◌, ◌||◌, Option, none, some, ◌==◌, string_eq, option_eq,
  ltb, leb, is_empty, Result, ok, err,
}
use liqi_platform.Prelude.Texts.{size, strip, join}
use liqi_platform.Prelude.Int.{ℤ}
use liqi_platform.Prelude.Json.{is_text, get}
use liqi_platform.ReleaseControl.Documents.{Release, Mode, activate, rollback, Args}
use liqi_platform.ReleaseControl.Host.{Exception, system_exit, World, Host}
use liqi_platform.ReleaseControl.Preflight.{
  ◌>>=◌, ◌>>◌, current_release_id, descriptor, database_version, compatibility_one, configs_ready,
  recovery_evidence, non_empty, first_some, or_raise, refuse_if,
}

pub record Plan : Type 0 where
  pub current_id : Option String
  pub current : Option Release
  pub target_id : Option String
  pub target : Option Release
  pub first_transition : Bool

abbrev pub is_missing : {A : Type 0} → Option A → Bool
is_missing none = true
is_missing (some a) = false

-- `len(approval.strip()) < 3`, or no approval.
abbrev pub lacks_approval : Option String → Bool
lacks_approval none = true
lacks_approval (some s) = ltb (size (strip s)) 3

module _ (w : World) (args : Args) where
  unfoldable pub load_release : String → Result Exception Release
  load_release id = descriptor w (args.descriptor_dir <> "/" <> id <> ".json")

  unfoldable pub load_current : Option String → Result Exception (Option Release)
  load_current none = ok none
  load_current (some id) = do release ← load_release id; ok (some release)

  unfoldable pub plan_activation : Option String → Option Release → Result Exception Plan
  plan_activation current_id current = do
    id ←
        or_raise (non_empty args.target_release_id)
          (system_exit "activate requires --target-release-id")
    target ← load_release id
    refuse_if (is_missing current && not (is_missing target.rollback_target_release_id))
        (system_exit "first activation target must declare no application rollback release")
    refuse_if (not (is_missing current) && not (target.rollback_target_release_id == current_id))
        (system_exit "activation target does not declare the current release as rollback target")
    ok (record {
      current_id = current_id;
      current = current;
      target_id = some id;
      target = some target;
      first_transition = is_missing current;
    })

  unfoldable pub plan_switch : Option String → Release → Option String → Result Exception Plan
  plan_switch current_id current none = ok (record {
    current_id = current_id;
    current = some current;
    target_id = none;
    target = none;
    first_transition = true;
  })
  plan_switch current_id current (some id) = do
    refuse_if (not (current.rollback_target_release_id == some id))
        (system_exit "requested rollback target is not predeclared")
    target ← load_release id
    ok (record {
      current_id = current_id;
      current = some current;
      target_id = some id;
      target = some target;
      first_transition = false;
    })

  unfoldable pub plan_rollback : Option String → Option Release → Result Exception Plan
  plan_rollback current_id none = err (system_exit "no active release is selected")
  plan_rollback current_id (some current) =
      plan_switch current_id current
        (first_some (non_empty args.target_release_id) current.rollback_target_release_id)

  unfoldable pub plan_mode : Mode → Option String → Option Release → Result Exception Plan
  plan_mode activate = plan_activation
  plan_mode rollback = plan_rollback

  unfoldable pub make_plan : Host → Result Exception Plan
  make_plan h = do
    current_id ← current_release_id w h.current.entry
    current ← load_current (non_empty current_id)
    plan_mode args.mode current_id current

  unfoldable pub release_ready : String → Option Release → ℤ → Result Exception (Unit {0})
  release_ready label none version = ok tt
  release_ready label (some release) version = do
    compatibility_one w label release version
    configs_ready w release
    refuse_if (not (w.is_dir release.release_path))
        (system_exit (label <> " release directory missing"))

  unfoldable pub bound_release : Option Release → Option Release → Option Release
  bound_release (some target) current = some target
  bound_release none current = current

  unfoldable pub recovery_ready : Bool → Option Release → Result Exception (Unit {0})
  recovery_ready true (some bound) = do
    document ← recovery_evidence w args.first_release_recovery bound.git_sha
    ok tt
  recovery_ready _ _ = ok tt

  unfoldable pub host_ready : Result Exception (Unit {0})
  host_ready = do
    host ← w.load args.host_readiness
    let failures = w.failures "host-runtime-v1.schema.json" host
    refuse_if (not (is_empty failures) || not (is_text "ready" (get "status" host)))
        (system_exit ("host readiness is not ready: " <> join "; " failures))

  -- The gates from the host readiness to the recovery evidence; the value is the migration version.
  unfoldable pub gates : Plan → Result Exception ℤ
  gates plan = do
    host_ready
    version ← database_version w args.database_readiness
    release_ready "target" plan.target version
    release_ready "current" plan.current version
    recovery_ready plan.first_transition (bound_release plan.target plan.current)
    ok version

  -- The guards on an execution, then the one on the activation's output.
  unfoldable pub permitted : Result Exception (Unit {0})
  permitted = do
    refuse_if (args.execute && not w.root_posix)
        (system_exit "release mutation requires root on POSIX")
    refuse_if (args.execute && lacks_approval args.approval_reference)
        (system_exit "release mutation requires approval reference")

  unfoldable pub needs_output : Mode → Result Exception (Unit {0})
  needs_output activate =
      refuse_if (is_missing args.activation_output)
        (system_exit "activate requires --activation-output")
  needs_output rollback = ok tt

  unfoldable pub preflight : Host → Result Exception (Plan × ℤ)
  preflight h = do
    refuse_if (not (leb 1 args.maximum_duration_seconds && leb args.maximum_duration_seconds 900))
        (system_exit "maximum duration must be 1..900 seconds")
    plan ← make_plan h
    version ← gates plan
    permitted
    needs_output args.mode
    ok (plan, version)
