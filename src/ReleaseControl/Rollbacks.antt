-- ===== src/ReleaseControl/Rollbacks.antt =====
-- `main` of release_control.py in the mode rollback: its exit codes, and the links that they report.
use mathlib.Core.Option
use liqi_platform.Prelude.{
  ℕ, String, ◌≡◌, refl, sym, ap, subst, ◌∙◌, true, Option, none, some, List, [], ◌⊎◌, inl, inr,
  arith, Result, ok, err,
}
use liqi_platform.Prelude.Int.{ℤ}
use liqi_platform.ReleaseControl.Documents.{Release, Check, rollback, Args}
use liqi_platform.ReleaseControl.Host.{Exception, World, Host, continue}
use liqi_platform.ReleaseControl.Links.{SameLinks}
use liqi_platform.ReleaseControl.Plan.{Plan, preflight}
use liqi_platform.ReleaseControl.Guards.{preflight-IsAdmitted}
use liqi_platform.ReleaseControl.Evidence.{preflight_checks, activation_plan}
use liqi_platform.ReleaseControl.Operation.{
  Documents, closed, after_recovery, rolled_back, operate_rollback, operate, activation_failed,
  exit_code, execute_plan, prepared, run_plan, main,
}
use liqi_platform.ReleaseControl.Selection.{Selected-SameLinks}
use liqi_platform.ReleaseControl.Outcomes.{Reached, operate_rollback-Reached}
use liqi_platform.ReleaseControl.Exits.{
  write_valid-Untouched, run_plan_executed, execute_plan-eq-ok,
}

module _ (w : World) where
  module _ (args : Args) where
    rolled_back-closed :
        (name detail : String) (docs : Documents) (r : Result Exception (Unit {0})) (h : Host)
        → docs.activation_doc ≡ none
        → let docs' = (rolled_back w args name detail docs r h).0 in
          (docs'.activation_doc ≡ none)
          × ((docs'.rollback_doc.status ≡ "passed") ⊎ (docs'.rollback_doc.status ≡ "failed"))
    unfolding rolled_back after_recovery closed
    rolled_back-closed name detail docs (ok u) h e = (e, inl refl)
    rolled_back-closed name detail docs (err x) h e = (ap (Option.map _) e, inr refl)

    operate_rollback-closed :
        (current : Release) (target : Option Release) (docs : Documents) (h : Host)
        → docs.activation_doc ≡ none
        → let docs' = (operate_rollback w args current target docs h).0 in
          (docs'.activation_doc ≡ none)
          × ((docs'.rollback_doc.status ≡ "passed") ⊎ (docs'.rollback_doc.status ≡ "failed"))
    unfolding operate_rollback
    operate_rollback-closed current none docs h e = rolled_back-closed _ _ docs _ _ e
    operate_rollback-closed current (some target) docs h e = rolled_back-closed _ _ docs _ _ e

    exit_code_of_rollback :
        (docs : Documents)
        → docs.activation_doc ≡ none
        → (docs.rollback_doc.status ≡ "passed") ⊎ (docs.rollback_doc.status ≡ "failed")
        → ((exit_code w args docs ≡ 0) × (docs.rollback_doc.status ≡ "passed"))
          ⊎ (exit_code w args docs ≡ 4)
    unfolding exit_code activation_failed
    exit_code_of_rollback docs d (inl p) = inl (simp (d, p), p)
    exit_code_of_rollback docs d (inr p) = inr (simp (d, p))

    pub operate_at_rollback :
        (plan : Plan) (current : Release) (docs : Documents) (h : Host)
        → args.mode ≡ rollback
        → plan.current ≡ some current
        → operate w args plan docs h ≡ operate_rollback w args current plan.target docs h
    unfolding operate
    operate_at_rollback plan current docs h m c = ground arith

    activation_plan-eq-none :
        (plan : Plan) (now : String) (rows : List Check)
        → args.mode ≡ rollback
        → activation_plan args plan now rows ≡ none
    unfolding activation_plan
    activation_plan-eq-none plan now rows m = ground arith

    Reached-SameLinks :
        (o : Option Release) {h k : Host} → Reached w args o h → SameLinks h k → Reached w args o k
    Reached-SameLinks none r s = ground arith
    Reached-SameLinks (some release) r s = Selected-SameLinks r s

    -- An executed rollback that returns exits with 0 or with 4, and with 0 only if the links select
    -- the target, or are gone for the deactivation of a first release.
    pub main_rollback :
        (show_int : ℤ → String) (h : Host) (plan : Plan) (code : ℕ) {v : ℤ} {k : Host}
        → preflight w args h ≡ ok (plan, v)
        → args.mode ≡ rollback
        → args.execute ≡ true
        → main w args show_int h ≡ (ok code, k)
        → ((code ≡ 0) × Reached w args plan.target k) ⊎ (code ≡ 4)
    unfolding main prepared
    main_rollback show_int h plan code {v} {k} p m x e =
        let admitted = preflight-IsAdmitted w args h plan v p in
        let (current, c, _, _) = admitted.rolls_back m in
        let docs : Documents = prepared w args show_int plan v (w.utc h.history) in
        let start : Host = record h {
          checks = preflight_checks show_int plan v;
          recovery_checks = [];
        } in
        let executed : execute_plan w args plan docs start ≡ (ok code, k) =
          sym (run_plan_executed w args show_int plan v h x)
          ∙ subst (λ r. continue r (run_plan w args show_int) h ≡ (ok code, k)) p e in
        let (coded, final, written) = execute_plan-eq-ok w args plan docs start executed in
        let q : Documents × Host = operate_rollback w args current plan.target docs start in
        let same : operate w args plan docs start ≡ q =
          operate_at_rollback plan current docs start m c in
        let (d, s) =
          operate_rollback-closed current plan.target docs start
            (activation_plan-eq-none plan _ _ m) in
        let links = write_valid-Untouched w args q.0 q.1 in
        elim (exit_code_of_rollback q.0 d s) [
          | inl (zero_exit, passed) ↦ inl (
            coded ∙ ap (λ (z : Documents × Host). exit_code w args z.0) same ∙ zero_exit,
            rw (final, same)
                (Reached-SameLinks plan.target
                  (operate_rollback-Reached w args current plan.target docs start passed)
                  links.links),
          )
          | inr four ↦ inr (coded ∙ ap (λ (z : Documents × Host). exit_code w args z.0) same ∙ four)
        ]
