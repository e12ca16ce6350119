-- ===== src/ReleaseControl/Guards.antt =====
-- What a passed preflight of release_control.py guarantees.
use liqi_platform.Prelude.{
  ◌≤◌, String, ◌≡◌, refl, subst, Bool, true, false, Option, none, some, arith, ok, and_then-eq-ok,
  ◌==◌, string_eq, option_eq, eq_of_beq, not, ◌&&◌,
}
use liqi_platform.Prelude.Int.{ℤ, pos, ◌≤ℤ◌}
use liqi_platform.ReleaseControl.Documents.{Release, activate, rollback, Args}
use liqi_platform.ReleaseControl.Host.{Exception, World, Host}
use liqi_platform.ReleaseControl.Preflight.{
  current_release_id, or_raise, non_empty, first_some, compatibility_one, database_version,
  refuse_if,
}
use liqi_platform.ReleaseControl.Plan.{
  Plan, is_missing, lacks_approval, load_release, plan_activation, plan_switch, plan_rollback,
  plan_mode, load_current, make_plan, release_ready, bound_release, recovery_ready, host_ready,
  gates, permitted, needs_output, preflight,
}

-- The migration version lies in the release's range, and no down migration is foreseen.
pub record IsCompatible (version : ℤ) (release : Release) : Type 0 where
  pub at_least : pos release.database_compatibility.minimum_migration ≤ℤ version
  pub at_most : version ≤ℤ pos release.database_compatibility.rollback_safe_through
  pub forward_only : release.database_compatibility.database_rollback_allowed ≡ false

refuse_if-ok : (b : Bool) (e : Exception) {u : Unit {0}} → refuse_if b e ≡ ok u → b ≡ false
refuse_if-ok true e h = cc
refuse_if-ok false e h = refl

module _ (w : World) (args : Args) where
  preflight_parts :
      (h : Host) (plan : Plan) (version : ℤ)
      → preflight w args h ≡ ok (plan, version)
      → (make_plan w args h ≡ ok plan)
        × (gates w args plan ≡ ok version)
        × (args.execute ≡ true → w.root_posix ≡ true)
        × (args.execute ≡ true → lacks_approval args.approval_reference ≡ false)
        × (1 ≤ args.maximum_duration_seconds)
        × (args.maximum_duration_seconds ≤ 900)
  unfolding preflight permitted needs_output
  preflight_parts h plan version e = ground arith

  pub preflight-output :
      (h : Host) (plan : Plan) (version : ℤ)
      → preflight w args h ≡ ok (plan, version)
      → args.mode ≡ activate
      → (path : String) × (args.activation_output ≡ some path)
  unfolding preflight needs_output
  preflight-output h plan version e m = ground arith

  compatibility_one-IsCompatible :
      (label : String) (release : Release) (version : ℤ) {u : Unit {0}}
      → compatibility_one w label release version ≡ ok u
      → IsCompatible version release
  unfolding compatibility_one
  compatibility_one-IsCompatible label release version e = ground arith

  release_ready-IsCompatible :
      (label : String) (release : Release) (version : ℤ) {u : Unit {0}}
      → release_ready w args label (some release) version ≡ ok u
      → IsCompatible version release
  unfolding release_ready
  release_ready-IsCompatible label release version e =
      compatibility_one-IsCompatible label release version {u = tt} (ground arith)

  gates_parts :
      (plan : Plan) (version : ℤ)
      → gates w args plan ≡ ok version
      → (release_ready w args "target" plan.target version ≡ ok tt)
        × (release_ready w args "current" plan.current version ≡ ok tt)
        × (recovery_ready w args plan.first_transition
              (bound_release w args plan.target plan.current)
            ≡ ok tt)
        × (host_ready w args ≡ ok tt)
        × (database_version w args.database_readiness ≡ ok version)
  unfolding gates
  gates_parts plan version e = ground arith

  plan_activation_parts :
      (current_id : Option String) (current : Option Release) (plan : Plan)
      → plan_activation w args current_id current ≡ ok plan
      → (target : Release) × (id : String) × (plan.target ≡ some target)
        × (plan.target_id ≡ some id)
        × (plan.current ≡ current)
        × (plan.current_id ≡ current_id)
        × ((is_missing current && not (is_missing target.rollback_target_release_id)) ≡ false)
        × ((not (is_missing current) && not (target.rollback_target_release_id == current_id))
            ≡ false)
  unfolding plan_activation
  plan_activation_parts current_id current plan e =
      let (id, _, r1) = and_then-eq-ok (or_raise (non_empty args.target_release_id) _) _ e in
      let (target, _, r2) = and_then-eq-ok (load_release w args id) _ r1 in
      let (u, first, r3) =
        and_then-eq-ok
          (refuse_if (is_missing current && not (is_missing target.rollback_target_release_id)) _) _
          r2 in
      let (v, next, r4) =
        and_then-eq-ok
          (refuse_if
            (not (is_missing current) && not (target.rollback_target_release_id == current_id)) _)
          _ r3 in
      (
        target,
        id,
        ground arith,
        ground arith,
        ground arith,
        ground arith,
        refuse_if-ok _ _ first,
        refuse_if-ok _ _ next,
      )

  plan_switch_parts :
      (current_id : Option String) (current : Release) (target_id : Option String) (plan : Plan)
      → plan_switch w args current_id current target_id ≡ ok plan
      → (release : Release) × (plan.current ≡ some release)
        × ((id : String)
            → plan.target_id ≡ some id
            → (release.rollback_target_release_id == some id) ≡ true)
        × (plan.first_transition ≡ is_missing plan.target_id)
        × (is_missing plan.target ≡ is_missing plan.target_id)
  unfolding plan_switch
  plan_switch_parts current_id current none plan e =
      (current, ground arith, λ id h. absurd (ground arith), ground arith, ground arith)
  plan_switch_parts current_id current (some id) plan e =
      let (u, declared, r1) =
        and_then-eq-ok (refuse_if (not (current.rollback_target_release_id == some id)) _) _ e in
      let (target, _, r2) = and_then-eq-ok (load_release w args id) _ r1 in
      let same = refuse_if-ok _ _ declared in
      (current, ground arith, λ j h. ground arith, ground arith, ground arith)

  plan_rollback_parts :
      (current_id : Option String) (current : Option Release) (plan : Plan)
      → plan_rollback w args current_id current ≡ ok plan
      → (release : Release) × (plan.current ≡ some release)
        × ((id : String)
            → plan.target_id ≡ some id
            → (release.rollback_target_release_id == some id) ≡ true)
        × (plan.first_transition ≡ is_missing plan.target_id)
        × (is_missing plan.target ≡ is_missing plan.target_id)
  unfolding plan_rollback
  plan_rollback_parts current_id none plan e = absurd (ground arith)
  plan_rollback_parts current_id (some current) plan e =
      plan_switch_parts current_id current
        (first_some (non_empty args.target_release_id) current.rollback_target_release_id) plan e

-- What holds of a plan that passed the preflight.
pub record IsAdmitted (w : World) (args : Args) (plan : Plan) (version : ℤ) : Type 0 where
  pub target_compatible : (r : Release) → plan.target ≡ some r → IsCompatible version r
  pub current_compatible : (r : Release) → plan.current ≡ some r → IsCompatible version r
  pub run_by_root : args.execute ≡ true → w.root_posix ≡ true
  pub approved : args.execute ≡ true → lacks_approval args.approval_reference ≡ false
  pub bounded : (1 ≤ args.maximum_duration_seconds) × (args.maximum_duration_seconds ≤ 900)
  pub activates :
      args.mode ≡ activate
      → (target : Release) × (id : String) × (plan.target ≡ some target)
        × (plan.target_id ≡ some id)
        × (plan.current ≡ none → target.rollback_target_release_id ≡ none)
        × ((c : Release)
            → plan.current ≡ some c
            → target.rollback_target_release_id ≡ plan.current_id)
  pub rolls_back :
      args.mode ≡ rollback
      → (current : Release) × (plan.current ≡ some current)
        × ((id : String) → plan.target_id ≡ some id → current.rollback_target_release_id ≡ some id)
        × (plan.target_id ≡ none → plan.first_transition ≡ true)

module _ (w : World) (args : Args) where
  plan_of_mode :
      (h : Host) (plan : Plan)
      → make_plan w args h ≡ ok plan
      → (current_id : Option String) × (current : Option Release) × (plan_mode w args args.mode
            current_id current
          ≡ ok plan)
  unfolding make_plan
  plan_of_mode h plan e =
      let (current_id, _, r1) = and_then-eq-ok (current_release_id w h.current.entry) _ e in
      let (current, _, r2) = and_then-eq-ok (load_current w args (non_empty current_id)) _ r1 in
      (current_id, current, r2)

  IsCompatible-at :
      (label : String) (o : Option Release) (version : ℤ)
      → release_ready w args label o version ≡ ok tt
      → (r : Release) → o ≡ some r
      → IsCompatible version r
  IsCompatible-at label o version e r p =
      release_ready-IsCompatible w args label r version
        (subst (λ x. release_ready w args label x version ≡ ok tt) p e)

  activation_of_mode :
      (h : Host) (plan : Plan)
      → make_plan w args h ≡ ok plan
      → args.mode ≡ activate
      → (target : Release) × (id : String) × (plan.target ≡ some target)
        × (plan.target_id ≡ some id)
        × (plan.current ≡ none → target.rollback_target_release_id ≡ none)
        × ((c : Release)
            → plan.current ≡ some c
            → target.rollback_target_release_id ≡ plan.current_id)
  unfolding plan_mode
  activation_of_mode h plan e m =
      let (current_id, current, p) = plan_of_mode h plan e in
      let q = subst (λ x. plan_mode w args x current_id current ≡ ok plan) m p in
      let (target, id, p1, p2, p3, p4, no_target, same) =
        plan_activation_parts w args current_id current plan q in
      (target, id, p1, p2, λ h. ground arith, λ c h. eq_of_beq (ground arith))

  rollback_of_mode :
      (h : Host) (plan : Plan)
      → make_plan w args h ≡ ok plan
      → args.mode ≡ rollback
      → (current : Release) × (plan.current ≡ some current)
        × ((id : String) → plan.target_id ≡ some id → current.rollback_target_release_id ≡ some id)
        × (plan.target_id ≡ none → plan.first_transition ≡ true)
  unfolding plan_mode
  rollback_of_mode h plan e m =
      let (current_id, current, p) = plan_of_mode h plan e in
      let q = subst (λ x. plan_mode w args x current_id current ≡ ok plan) m p in
      let (release, p1, declared, first, p4) =
        plan_rollback_parts w args current_id current plan q in
      (release, p1, λ id h. eq_of_beq (declared id h), λ h. ground arith)

  -- A preflight that passes admits only a transition that the descriptors declare: an activation
  -- names the current release as its rollback target (and none for a first release), a rollback goes
  -- to the predeclared target; the migration version lies in the range of every release involved;
  -- and an execution is by root, with an approval, for 1 to 900 seconds.
  pub preflight-IsAdmitted :
      (h : Host) (plan : Plan) (version : ℤ)
      → preflight w args h ≡ ok (plan, version)
      → IsAdmitted w args plan version
  preflight-IsAdmitted h plan version e =
      let (made, passed, root, approval, least, most) = preflight_parts w args h plan version e in
      let (target_ready, current_ready, _, _, _) = gates_parts w args plan version passed in
      record {
        target_compatible = IsCompatible-at "target" plan.target version target_ready;
        current_compatible = IsCompatible-at "current" plan.current version current_ready;
        run_by_root = root;
        approved = approval;
        bounded = (least, most);
        activates = activation_of_mode h plan made;
        rolls_back = rollback_of_mode h plan made;
      }
