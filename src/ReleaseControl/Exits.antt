-- ===== src/ReleaseControl/Exits.antt =====
-- `main` of release_control.py as a whole: its exit codes, the dry run, and the evidence of a failed
-- rollback.
use liqi_platform.Prelude.{
  ℕ, String, ◌≡◌, refl, sym, subst, ◌∙◌, true, false, Option, none, some, List, [], ◌∷◌, ◌⊎◌, inl,
  inr, arith, Result, ok, err, eq_iff, string_eq,
}
use liqi_platform.Prelude.Int.{ℤ}
use liqi_platform.ReleaseControl.Documents.{
  Release, Check, ActivationDocument, rollback_document, activation_document, activate, Args,
}
use liqi_platform.ReleaseControl.Host.{Exception, Event, ran, wrote, World, Host, continue}
use liqi_platform.ReleaseControl.Links.{SameLinks, SameLinks-refl}
use liqi_platform.ReleaseControl.Plan.{Plan, preflight}
use liqi_platform.ReleaseControl.Guards.{preflight-IsAdmitted, preflight-output}
use liqi_platform.ReleaseControl.Evidence.{
  rollback_plan, activation_of, activation_plan, preflight_checks,
}
use liqi_platform.ReleaseControl.Operation.{
  Documents, write, write_valid, write_both, activation_failed, exit_code, operate,
  operate_activation, execute_plan, prepared, run_plan, main,
}
use liqi_platform.ReleaseControl.Selection.{Selected, Selected-SameLinks, Restored}
use liqi_platform.ReleaseControl.Outcomes.{
  Ended, health_gated, rolled_back_to, recovery_failed, operate_activation-Ended,
}

-- The commands among the events.
abbrev pub commands : List Event → List (List String)
commands [] = []
commands (ran argv t ∷ es) = argv ∷ commands es
commands (_ ∷ es) = commands es

-- Neither a link changed nor a command ran.
pub record Untouched (h k : Host) : Type 0 where
  pub links : SameLinks h k
  pub no_commands : commands k.history ≡ commands h.history

-- The last event is the write of this activation document.
abbrev pub LastWrote : String → ActivationDocument → Host → Type 0
LastWrote path doc h =
    (rest : List Event) × (h.history ≡ wrote path (activation_document doc) ∷ rest)

module _ (w : World) (args : Args) where
  write_both-Untouched :
      (docs : Documents) (h : Host) → Untouched h (write_both w args (write w args) docs h).1
  unfolding write_both
  write_both-Untouched docs h = ground arith

  pub write_valid-Untouched :
      (docs : Documents) (h : Host) → Untouched h (write_both w args (write_valid w args) docs h).1
  unfolding write_both write_valid
  write_valid-Untouched docs h = ground arith

  dry_run_plan :
      (show_int : ℤ → String) (p : Plan × ℤ) (h : Host)
      → args.execute ≡ false
      → Untouched h (run_plan w args show_int p h).1
  unfolding run_plan write_both
  dry_run_plan show_int (plan, version) h e = ground arith

  -- Without `--execute` the program changes no link and runs no command, whether its preflight
  -- passes or ends it.
  pub main_dry_run :
      (show_int : ℤ → String) (h : Host)
      → args.execute ≡ false
      → Untouched h (main w args show_int h).1
  unfolding main
  main_dry_run show_int h e = go (preflight w args h)
    where
      go :
          (r : Result Exception (Plan × ℤ))
          → Untouched h (continue r (run_plan w args show_int) h).1
      go (ok p) = dry_run_plan show_int p h e
      go (err x) = record { links = SameLinks-refl h; no_commands = refl }

  operate_at_activate :
      (plan : Plan) (target : Release) (docs : Documents) (h : Host)
      → args.mode ≡ activate
      → plan.target ≡ some target
      → operate w args plan docs h ≡ operate_activation w args plan target docs h
  unfolding operate
  operate_at_activate plan target docs h m t = ground arith

  activation_plan-eq-some :
      (plan : Plan) (now : String) (rows : List Check) (id : String) (target : Release)
      → args.mode ≡ activate
      → plan.target_id ≡ some id
      → plan.target ≡ some target
      → activation_plan args plan now rows ≡ some (activation_of args plan now rows id target)
  unfolding activation_plan
  activation_plan-eq-some plan now rows id target m i t = ground arith

  write_both-LastWrote :
      (docs : Documents) (doc : ActivationDocument) (path : String) (h : Host)
      → docs.activation_doc ≡ some doc
      → args.activation_output ≡ some path
      → (write_both w args (write_valid w args) docs h).0 ≡ ok tt
      → LastWrote path doc (write_both w args (write_valid w args) docs h).1
  unfolding write_both write_valid
  write_both-LastWrote docs doc path h d p e =
      (wrote args.rollback_output (rollback_document docs.rollback_doc) ∷ h.history, ground arith)

  pub execute_plan-eq-ok :
      (plan : Plan) (docs : Documents) (h : Host) {code : ℕ} {k : Host}
      → execute_plan w args plan docs h ≡ (ok code, k)
      → let r = operate w args plan docs h in
        (code ≡ exit_code w args r.0)
        × (k ≡ (write_both w args (write_valid w args) r.0 r.1).1)
        × ((write_both w args (write_valid w args) r.0 r.1).0 ≡ ok tt)
  unfolding execute_plan
  execute_plan-eq-ok plan docs h e = ground arith

  -- How an executed activation ends, by its exit code and its evidence.
  abbrev pub ActivationExit : Plan → ℕ → Host → Type 0
  ActivationExit plan code k =
      (target : Release) × (path : String) × (doc : ActivationDocument) × (plan.target
        ≡ some target)
      × LastWrote path doc k
      × (((code ≡ 0) × (doc.status ≡ "passed") × Selected target k)
          ⊎ ((code ≡ 3) × (doc.state ≡ "rolled-back") × Restored plan.current k)
          ⊎ ((code ≡ 3) × (doc.state ≡ "activation-failed")))

  Restored-SameLinks :
      (o : Option Release) {h k : Host} → Restored o h → SameLinks h k → Restored o k
  Restored-SameLinks none r s = ground arith
  Restored-SameLinks (some release) r s = Selected-SameLinks r s

  exit_code_passed :
      (docs : Documents) (doc : ActivationDocument)
      → docs.activation_doc ≡ some doc
      → doc.status ≡ "passed"
      → docs.rollback_doc.status ≡ "engineering-complete-evidence-pending"
      → exit_code w args docs ≡ 0
  unfolding exit_code activation_failed
  exit_code_passed docs doc d s r = simp (d, s, r)

  exit_code_failed :
      (docs : Documents) (doc : ActivationDocument)
      → docs.activation_doc ≡ some doc
      → doc.status ≡ "failed"
      → exit_code w args docs ≡ 3
  unfolding exit_code activation_failed
  exit_code_failed docs doc d s = ground (arith, eq_iff doc.status "failed")

  exit_of_Ended :
      (plan : Plan) (target : Release) (docs : Documents) (h : Host) (path : String)
      → args.activation_output ≡ some path
      → plan.target ≡ some target
      → Ended w plan.current target docs h
      → (write_both w args (write_valid w args) docs h).0 ≡ ok tt
      → ActivationExit plan
          (exit_code w args docs)
          (write_both w args (write_valid w args) docs h).1
  exit_of_Ended plan target docs h path o t (health_gated doc d st s r sel healthy) e = (
    target,
    path,
    doc,
    t,
    write_both-LastWrote docs doc path h d o e,
    inl (
      exit_code_passed docs doc d s r,
      s,
      Selected-SameLinks sel (write_valid-Untouched docs h).links,
    ),
  )
  exit_of_Ended plan target docs h path o t (rolled_back_to doc d st s r sel) e = (
    target,
    path,
    doc,
    t,
    write_both-LastWrote docs doc path h d o e,
    inr (
        inl (
          exit_code_failed docs doc d s,
          st,
          Restored-SameLinks plan.current sel (write_valid-Untouched docs h).links,
        )),
  )
  exit_of_Ended plan target docs h path o t (recovery_failed doc d st s r) e = (
    target,
    path,
    doc,
    t,
    write_both-LastWrote docs doc path h d o e,
    inr (inr (exit_code_failed docs doc d s, st)),
  )

  pub run_plan_executed :
      (show_int : ℤ → String) (plan : Plan) (version : ℤ) (h : Host)
      → args.execute ≡ true
      → run_plan w args show_int (plan, version) h
        ≡ execute_plan w args plan
            (prepared w args show_int plan version (w.utc h.history))
            (record h { checks = preflight_checks show_int plan version; recovery_checks = [] })
  unfolding run_plan
  run_plan_executed show_int plan version h e = rw e

  -- An executed activation that returns has written its evidence last, and exits with 0 only if the
  -- links select the target and the evidence says passed. Otherwise it exits with 3, and its
  -- evidence says either that it rolled back, and then the links select the predecessor again (for
  -- a first release: nothing), or that the recovery failed.
  pub main_activation :
      (show_int : ℤ → String) (h : Host) (plan : Plan) (code : ℕ) {v : ℤ} {k : Host}
      → preflight w args h ≡ ok (plan, v)
      → args.mode ≡ activate
      → args.execute ≡ true
      → main w args show_int h ≡ (ok code, k)
      → ActivationExit plan code k
  unfolding main prepared rollback_plan
  main_activation show_int h plan code {v} {k} p m x e =
      let admitted = preflight-IsAdmitted w args h plan v p in
      let (target, id, t, i, _, _) = admitted.activates m in
      let (path, o) = preflight-output w args h plan v p m in
      let docs : Documents = prepared w args show_int plan v (w.utc h.history) in
      let start : Host = record h {
        checks = preflight_checks show_int plan v;
        recovery_checks = [];
      } in
      let executed : execute_plan w args plan docs start ≡ (ok code, k) =
        sym (run_plan_executed show_int plan v h x)
        ∙ subst (λ r. continue r (run_plan w args show_int) h ≡ (ok code, k)) p e in
      let (c, final, written) = execute_plan-eq-ok plan docs start executed in
      let r : Documents × Host = operate w args plan docs start in
      let ended : Ended w plan.current target r.0 r.1 =
        subst (λ (q : Documents × Host). Ended w plan.current target q.0 q.1)
          (sym (operate_at_activate plan target docs start m t))
          (operate_activation-Ended w args plan target docs start _
            (activation_plan-eq-some plan _ _ id target m i t) refl) in
      rw (c, final) (exit_of_Ended plan target r.0 r.1 path o t ended written)
