-- ===== src/ReleaseControl/Outcomes.antt =====
-- How an operation of release_control.py ends, in its documents and in the links, for every answer
-- that the host may give.
use liqi_platform.Prelude.{
  String, ◌≡◌, refl, ap, Option, none, some, ◌≢◌, arith, eq_iff, Result, ok, err,
}
use mathlib.Core.Option
use liqi_platform.ReleaseControl.Documents.{Release, ActivationDocument, Args}
use liqi_platform.ReleaseControl.Host.{Exception, World, Host, message}
use liqi_platform.ReleaseControl.Gate.{HealthPassed, try_activate-HealthPassed}
use liqi_platform.ReleaseControl.Plan.{Plan}
use liqi_platform.ReleaseControl.Operation.{
  Documents, try_activate, try_deactivate, try_switch, recover, closed, activation_closed,
  after_recovery, with_failure, activated, rolled_back, operate_activation, operate_rollback,
}
use liqi_platform.ReleaseControl.Selection.{
  Selected, Cleared, Restored, try_activate-Selected, try_deactivate-Cleared, try_switch-Selected,
  recover-Restored,
}

-- What the two documents say together about an activation, and what the links then are.
pub data Ended (w : World) (previous : Option Release) (target : Release) (docs : Documents)
    (h : Host) : Type 0 where
  health_gated :
      (doc : ActivationDocument)
      → docs.activation_doc ≡ some doc
      → doc.state ≡ "health-gated"
      → doc.status ≡ "passed"
      → docs.rollback_doc.status ≡ "engineering-complete-evidence-pending"
      → Selected target h
      → HealthPassed w target h
      → Ended w previous target docs h
  rolled_back_to :
      (doc : ActivationDocument)
      → docs.activation_doc ≡ some doc
      → doc.state ≡ "rolled-back"
      → doc.status ≡ "failed"
      → docs.rollback_doc.status ≡ "passed"
      → Restored previous h
      → Ended w previous target docs h
  recovery_failed :
      (doc : ActivationDocument)
      → docs.activation_doc ≡ some doc
      → doc.state ≡ "activation-failed"
      → doc.status ≡ "failed"
      → docs.rollback_doc.status ≡ "failed"
      → Ended w previous target docs h

failed_ne_passed : ◌≢◌ {A = String} "failed" "passed"
failed_ne_passed = ground (arith, eq_iff "failed" "passed")

module _ (w : World) (args : Args) where
  after_recovery-Ended :
      (previous : Option Release) (target : Release) (docs : Documents) (doc : ActivationDocument)
      → docs.activation_doc ≡ some doc
      → (error : String) (r : Result Exception (Unit {0})) (h : Host)
      → (r ≡ ok tt → Restored previous h)
      → Ended w previous target
          (after_recovery w args docs error r h).0
          (after_recovery w args docs error r h).1
  unfolding after_recovery closed activation_closed
  after_recovery-Ended previous target docs doc e error (ok done) h restored =
      rolled_back_to _ (ap (Option.map _) e) refl refl refl (restored refl)
  after_recovery-Ended previous target docs doc e error (err x) h restored =
      recovery_failed _ (ap (Option.map _) e) refl refl refl

  activated-Ended :
      (plan : Plan) (target : Release) (docs : Documents) (doc : ActivationDocument)
      → docs.activation_doc ≡ some doc
      → docs.rollback_doc.status ≡ "engineering-complete-evidence-pending"
      → (r : Result Exception (Unit {0})) (h : Host) → (r ≡ ok tt → Selected target h)
      → (r ≡ ok tt → HealthPassed w target h)
      → Ended w plan.current target
          (activated w args plan target docs r h).0
          (activated w args plan target docs r h).1
  unfolding activated activation_closed
  activated-Ended plan target docs doc e pending (ok done) h selected healthy =
      health_gated _ (ap (Option.map _) e) refl refl pending (selected refl) (healthy refl)
  activated-Ended plan target docs doc e pending (err x) h selected healthy =
      let k = with_failure w args x h in
      let r = recover w args plan.current_id plan.current target k in
      after_recovery-Ended plan.current target docs doc e (message x) r.0 r.1
        (λ p. recover-Restored w args plan.current_id plan.current target k (λ i. (p i, r.1)))

  -- Every activation ends in one of three ways, whatever fails and whenever: the target is selected
  -- and its health command, the last effect of all, exited with success; or it failed and its predecessor (or nothing, for a first release)
  -- is selected again; or the recovery failed too, and both documents say so.
  pub operate_activation-Ended :
      (plan : Plan) (target : Release) (docs : Documents) (h : Host) (doc : ActivationDocument)
      → docs.activation_doc ≡ some doc
      → docs.rollback_doc.status ≡ "engineering-complete-evidence-pending"
      → Ended w plan.current target
          (operate_activation w args plan target docs h).0
          (operate_activation w args plan target docs h).1
  unfolding operate_activation
  operate_activation-Ended plan target docs h doc e pending =
      let r = try_activate w args plan.current target h in
      activated-Ended plan target docs doc e pending r.0 r.1
        (λ p. try_activate-Selected w args plan.current target h (λ i. (p i, r.1)))
        (λ p. try_activate-HealthPassed w target args plan.current h (λ i. (p i, r.1)))

  abbrev pub Reached : Option Release → Host → Type 0
  Reached none h = Cleared h
  Reached (some target) h = Selected target h

  rolled_back-Reached :
      (name detail : String) (target : Option Release) (docs : Documents)
      (r : Result Exception (Unit {0})) (h : Host)
      → (r ≡ ok tt → Reached target h)
      → (rolled_back w args name detail docs r h).0.rollback_doc.status ≡ "passed"
      → Reached target (rolled_back w args name detail docs r h).1
  unfolding rolled_back after_recovery closed
  rolled_back-Reached name detail target docs (ok done) h reached e = reached refl
  rolled_back-Reached name detail target docs (err x) h reached e = absurd (failed_ne_passed e)

  -- A rollback is reported as passed only where the links select its target, or are removed for the
  -- deactivation of a first release.
  pub operate_rollback-Reached :
      (current : Release) (target : Option Release) (docs : Documents) (h : Host)
      → (operate_rollback w args current target docs h).0.rollback_doc.status ≡ "passed"
      → Reached target (operate_rollback w args current target docs h).1
  unfolding operate_rollback
  operate_rollback-Reached current none docs h e =
      let r = try_deactivate w args current h in
      rolled_back-Reached _ _ none docs r.0 r.1
        (λ p. try_deactivate-Cleared w args current h (λ i. (p i, r.1))) e
  operate_rollback-Reached current (some target) docs h e =
      let r = try_switch w args current target h in
      rolled_back-Reached _ _ (some target) docs r.0 r.1
        (λ p. try_switch-Selected w args current target h (λ i. (p i, r.1))) e
