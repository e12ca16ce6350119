-- ===== src/ReleaseControl/Unrecorded.antt =====
-- A rollback of release_control.py that fails after the services of the current release were stopped:
-- its evidence is lost.
use liqi_platform.Prelude.{
  String, ◌<>◌, ◌≡◌, refl, ap, ◌∙◌, Bool, true, false, none, some, List, [], ◌∷◌, ◌++◌, arith,
  Result, ok, err, map, any, any-append_left, any-append_right, is_empty,
}
use liqi_platform.Prelude.Texts.{join}
use liqi_platform.Prelude.Int.{ℤ}
use liqi_platform.ReleaseControl.Documents.{
  Release, Check, RecoveryCheck, RollbackDocument, rollback_document, rollback, Args,
}
use liqi_platform.ReleaseControl.Host.{Exception, runtime_error, World, Host, ◌>>=◌, ◌>>◌, continue}
use liqi_platform.ReleaseControl.Services.{
  as_row, atomic_symlink, unlink, stop_release, start_release, select_release,
}
use liqi_platform.ReleaseControl.Links.{Frame, Leaves, Leaves-bind, SameRows, start_release-Leaves}
use liqi_platform.ReleaseControl.Plan.{Plan, preflight}
use liqi_platform.ReleaseControl.Evidence.{preflight_checks}
use liqi_platform.ReleaseControl.Operation.{
  Documents, add_recovery, try_switch, closed, after_recovery, with_failure, rolled_back,
  operate_rollback, operate, write_valid, write_both, execute_plan, prepared, run_plan, main,
}
use liqi_platform.ReleaseControl.Exits.{run_plan_executed}
use liqi_platform.ReleaseControl.Rollbacks.{operate_at_rollback}

abbrev pub is_timed : RecoveryCheck → Bool
is_timed row = elim row.duration_ms [ none ↦ false | some ms ↦ true ]

-- A row with a duration stays once it is there.
abbrev KeepsTimed : Host → Host → Type 0
KeepsTimed h k = any is_timed h.recovery_checks ≡ true → any is_timed k.recovery_checks ≡ true

timed_frame : Frame KeepsTimed
timed_frame = record { same = λ h t. t; chain = λ h k l p q t. q (p t); remember = λ h e t. t }

module _ (w : World) where
  select_release-SameRows :
      (release : Release) (h : Host) → SameRows h (select_release w release h).1
  unfolding select_release atomic_symlink unlink
  select_release-SameRows release h = ground arith

  select_release-KeepsTimed : (release : Release) → Leaves KeepsTimed (select_release w release)
  select_release-KeepsTimed release = record {
    at = λ h t. rw (select_release-SameRows release h) t;
  }

  add_recovery-KeepsTimed : (rows : List RecoveryCheck) → Leaves KeepsTimed (add_recovery rows)
  add_recovery-KeepsTimed rows = record {
    at = λ h t. any-append_left is_timed h.recovery_checks rows t;
  }

  module _ (args : Args) where
    -- After the services stopped, whatever follows keeps their rows.
    try_switch-timed :
        (current target : Release) (h : Host) {c : Check} {cs : List Check}
        → (stop_release w current args.systemctl true h).0 ≡ ok (c ∷ cs)
        → any is_timed (try_switch w args current target h).1.recovery_checks ≡ true
    unfolding try_switch
    try_switch-timed current target h {c} {cs} e =
        let stopped = (stop_release w current args.systemctl true h).1 in
        let k : Host = record stopped {
          recovery_checks = stopped.recovery_checks ++ map as_row (c ∷ cs);
        } in
        let rest : Leaves KeepsTimed (do
          select_release w target
          started ← start_release w target args.systemctl
          add_recovery (map as_row started)) =
          Leaves-bind timed_frame (select_release w target) _ (select_release-KeepsTimed target)
            λ u.
              Leaves-bind timed_frame (start_release w target args.systemctl) _
                (start_release-Leaves timed_frame w target args.systemctl)
                (λ started. add_recovery-KeepsTimed (map as_row started)) in
        rw e
          (rest.at k (any-append_right is_timed stopped.recovery_checks (map as_row (c ∷ cs)) refl))

    rolled_back_timed :
        (name detail : String) (docs : Documents) (x : Exception) (h : Host)
        → any is_timed h.recovery_checks ≡ true
        → any is_timed (rolled_back w args name detail docs (err x) h).0.rollback_doc.checks ≡ true
    unfolding rolled_back after_recovery with_failure closed
    rolled_back_timed name detail docs x h t =
        any-append_left is_timed (h.recovery_checks ++ _) _
          (any-append_left is_timed h.recovery_checks _ t)

    write_both-refused :
        (docs : Documents) (h : Host)
        → is_empty (w.document_failures (rollback_document docs.rollback_doc)) ≡ false
        → (x : Exception) × (write_both w args (write_valid w args) docs h ≡ (err x, h))
    unfolding write_both write_valid
    write_both-refused docs h e = (
      runtime_error (
          "invalid evidence "
          <> "rollback-v1.schema.json"
          <> ": "
          <> join "; " (w.document_failures (rollback_document docs.rollback_doc))),
      ground arith,
    )

    -- Where the switch fails after it stopped a service, the final documents are refused.
    operate_rollback-refused :
        ((doc : RollbackDocument)
          → any is_timed doc.checks ≡ true
          → is_empty (w.document_failures (rollback_document doc)) ≡ false)
        → (current target : Release) (docs : Documents) (h : Host) (x : Exception) {c : Check}
          {cs : List Check}
        → (stop_release w current args.systemctl true h).0 ≡ ok (c ∷ cs)
        → (try_switch w args current target h).0 ≡ err x
        → let r = operate_rollback w args current (some target) docs h in
          (y : Exception) × (write_both w args (write_valid w args) r.0 r.1 ≡ (err y, r.1))
    unfolding operate_rollback
    operate_rollback-refused schema current target docs h x stopped failed =
        let r = operate_rollback w args current (some target) docs h in
        write_both-refused r.0 r.1 (
          schema r.0.rollback_doc (
            rw failed (
              rolled_back_timed _ _ docs x (try_switch w args current target h).1
                (try_switch-timed current target h stopped))))

    rolled_back-history :
        (name detail : String) (docs : Documents) (r : Result Exception (Unit {0})) (h : Host)
        → (rolled_back w args name detail docs r h).1.history ≡ h.history
    unfolding rolled_back after_recovery with_failure
    rolled_back-history name detail docs (ok u) h = refl
    rolled_back-history name detail docs (err x) h = refl

    operate_rollback-history :
        (current target : Release) (docs : Documents) (h : Host)
        → (operate_rollback w args current (some target) docs h).1.history
          ≡ (try_switch w args current target h).1.history
    unfolding operate_rollback
    operate_rollback-history current target docs h = rolled_back-history _ _ docs _ _

    execute_plan-unrecorded :
        ((doc : RollbackDocument)
          → any is_timed doc.checks ≡ true
          → is_empty (w.document_failures (rollback_document doc)) ≡ false)
        → (plan : Plan) (current target : Release) (docs : Documents) (h : Host) (x : Exception)
          {c : Check} {cs : List Check}
        → args.mode ≡ rollback
        → plan.current ≡ some current
        → plan.target ≡ some target
        → (stop_release w current args.systemctl true h).0 ≡ ok (c ∷ cs)
        → (try_switch w args current target h).0 ≡ err x
        → (y : Exception) × (execute_plan w args plan docs h
            ≡ (err y, (operate_rollback w args current (some target) docs h).1))
    unfolding execute_plan
    execute_plan-unrecorded schema plan current target docs h x m c t stopped failed =
        let r = operate_rollback w args current (some target) docs h in
        let (y, raised) = operate_rollback-refused schema current target docs h x stopped failed in
        let same : operate w args plan docs h ≡ r =
          operate_at_rollback w args plan current docs h m c
          ∙ ap (λ o. operate_rollback w args current o docs h) t in
        (y, rw same (rw raised refl))

    -- The host on which a plan is executed.
    abbrev pub planned_host : (ℤ → String) → Plan → ℤ → Host → Host
    planned_host show_int plan v h = record h {
      checks = preflight_checks show_int plan v;
      recovery_checks = [];
    }

    -- An executed rollback to a target release in which `stop_release` returned at least one row and a
    -- later step of the switch failed leaves no evidence. The row carries "duration_ms", which the
    -- schema of rollback documents does not admit (the hypothesis): the process ends with an exception,
    -- and its history ends with the switch, so that neither document was written.
    pub failed_rollback_unrecorded :
        ((doc : RollbackDocument)
          → any is_timed doc.checks ≡ true
          → is_empty (w.document_failures (rollback_document doc)) ≡ false)
        → (show_int : ℤ → String) (h : Host) (plan : Plan) (current target : Release)
          (x : Exception) {v : ℤ} {c : Check} {cs : List Check}
        → preflight w args h ≡ ok (plan, v)
        → args.mode ≡ rollback
        → args.execute ≡ true
        → plan.current ≡ some current
        → plan.target ≡ some target
        → let start : Host = planned_host show_int plan v h in
          (stop_release w current args.systemctl true start).0 ≡ ok (c ∷ cs)
          → (try_switch w args current target start).0 ≡ err x
          → ((y : Exception) × ((main w args show_int h).0 ≡ err y))
            × ((main w args show_int h).1.history
                ≡ (try_switch w args current target start).1.history)
    unfolding main
    failed_rollback_unrecorded schema show_int h plan current target x {v} p m e c t stopped
          failed =
        let start : Host = planned_host show_int plan v h in
        let docs : Documents = prepared w args show_int plan v (w.utc h.history) in
        let (y, raised) =
          execute_plan-unrecorded schema plan current target docs start x m c t stopped failed in
        let run : main w args show_int h
            ≡ (err y, (operate_rollback w args current (some target) docs start).1) =
          ap (λ r. continue r (run_plan w args show_int) h) p
          ∙ run_plan_executed w args show_int plan v h e
          ∙ raised in
        (
          (y, ap (λ r. r.0) run),
          ap (λ r. r.1.history) run ∙ operate_rollback-history current target docs start,
        )
