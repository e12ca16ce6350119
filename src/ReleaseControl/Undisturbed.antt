-- ===== src/ReleaseControl/Undisturbed.antt =====
-- How an activation of release_control.py ends where nothing fails.
use mathlib.Core.Option
use liqi_platform.Prelude.{ℕ, String, false, some, List, ◌≡◌, refl, ap, sym, subst, ltb, ok}
use liqi_platform.ReleaseControl.Documents.{ActivationDocument, Release, Args}
use liqi_platform.ReleaseControl.Host.{Event, World, Host}
use liqi_platform.ReleaseControl.Plan.{Plan}
use liqi_platform.ReleaseControl.Selection.{Selected, try_activate-Selected}
use liqi_platform.ReleaseControl.Operation.{
  Documents, activated, activation_closed, activation_failed, exit_code, operate_activation,
}
use liqi_platform.ReleaseControl.Cooperation.{Succeeded, try_activate-Total}

-- How an activation ends that nothing disturbed.
pub record Completed (w : World) (args : Args) (target : Release) (docs : Documents) (h : Host)
    : Type 0 where
  pub doc : ActivationDocument
  pub recorded : docs.activation_doc ≡ some doc
  pub gated : doc.state ≡ "health-gated"
  pub passed : doc.status ≡ "passed"
  pub exits : exit_code w args docs ≡ 0
  pub selected : Selected target h

module _ (w : World) (args : Args) where
  activated-Completed :
      (plan : Plan) (target : Release) (docs : Documents) (doc : ActivationDocument) (h : Host)
      → docs.activation_doc ≡ some doc
      → docs.rollback_doc.status ≡ "engineering-complete-evidence-pending"
      → Selected target h
      → Completed w args target
          (activated w args plan target docs (ok tt) h).0
          (activated w args plan target docs (ok tt) h).1
  unfolding activated activation_closed exit_code activation_failed
  activated-Completed plan target docs doc h e pending selected = record {
    doc = _;
    recorded = ap (Option.map _) e;
    gated = refl;
    passed = refl;
    exits = rw (e, pending) refl;
    selected = selected;
  }

  -- On a host where every command succeeds, no file operation is refused and the time is not over, an activation with
  -- a pending rollback document ends with the target selected, a passed document that says "health-gated", and the
  -- exit code 0.
  pub operate_activation-Completed :
      (plan : Plan) (target : Release) (docs : Documents) (h : Host) (doc : ActivationDocument)
      → ((before : List Event) (argv : List String) (timeout : ℕ)
          → Succeeded (w.runs before argv timeout))
      → ((before : List Event) (e : Event) → w.refuses before e ≡ false)
      → ((before : List Event)
          → ltb args.maximum_duration_seconds (w.elapsed_seconds before) ≡ false)
      → docs.activation_doc ≡ some doc
      → docs.rollback_doc.status ≡ "engineering-complete-evidence-pending"
      → Completed w args target
          (operate_activation w args plan target docs h).0
          (operate_activation w args plan target docs h).1
  unfolding operate_activation
  operate_activation-Completed plan target docs h doc succeeds allowed in_time e pending =
      let r = (try_activate-Total w args succeeds allowed in_time plan.current target).run h in
      subst
        (λ s.
          Completed w args target (activated w args plan target docs s.0 s.1).0
            (activated w args plan target docs s.0 s.1).1)
        (sym r.equation)
        (activated-Completed plan target docs doc r.state e pending
          (try_activate-Selected w args plan.current target h r.equation))
