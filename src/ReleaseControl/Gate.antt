-- ===== src/ReleaseControl/Gate.antt =====
-- The health gate of an activation of release_control.py: the target's own health command.
use liqi_platform.Prelude.{
  ℕ, String, ◌≡◌, refl, sym, ap, ◌∙◌, true, false, Option, List, [], ◌∷◌, ◌++◌, ok, arith,
}
use liqi_platform.ReleaseControl.Documents.{Release, Check, Args}
use liqi_platform.ReleaseControl.Host.{
  Event, ran, RunOutcome, exited, timed_out, not_started, World, Host, ◌>>=◌, ◌>>◌, pure,
}
use liqi_platform.ReleaseControl.Services.{
  finish, required, run, services, start_services, start_release, select_release,
}
use liqi_platform.ReleaseControl.Operation.{add_checks, within_time, stop_previous, try_activate}
use liqi_platform.ReleaseControl.Selection.{bind-eq-ok}

-- The last effect is a run of the release's health command, and it exited with success.
pub record HealthPassed (w : World) (release : Release) (h : Host) : Type 0 where
  pub past : List Event
  pub stdout : String
  pub stderr : String
  pub duration_ms : ℕ
  pub last : h.history ≡ ran release.health_argv release.health_timeout_seconds ∷ past
  pub passed :
      w.runs past release.health_argv release.health_timeout_seconds
      ≡ exited true stdout stderr duration_ms

module _ (w : World) (release : Release) where
  HealthPassed-history :
      {h k : Host} → HealthPassed w release h → k.history ≡ h.history → HealthPassed w release k
  HealthPassed-history p e = record {
    past = p.past;
    stdout = p.stdout;
    stderr = p.stderr;
    duration_ms = p.duration_ms;
    last = e ∙ p.last;
    passed = p.passed;
  }

  -- The outcome of the health command decides.
  outcome-HealthPassed :
      (o : RunOutcome) (name label fallback problem : String) (started : List Check) (h : Host)
      {cs : List Check} {k : Host}
      → w.runs h.history release.health_argv release.health_timeout_seconds ≡ o
      → (do
        outcome ← finish o
        health ← required w name label fallback problem outcome
        pure (started ++ health ∷ []))
          (record h {
            history = ran release.health_argv release.health_timeout_seconds ∷ h.history;
          })
        ≡ (ok cs, k)
      → HealthPassed w release k
  outcome-HealthPassed (exited true stdout stderr ms) name label fallback problem started h r e =
      record {
        past = h.history;
        stdout = stdout;
        stderr = stderr;
        duration_ms = ms;
        last = ap (λ p. p.1.history) (sym e);
        passed = r;
      }
  outcome-HealthPassed (exited false stdout stderr ms) name label fallback problem started h r e =
      absurd (ground arith)
  outcome-HealthPassed (timed_out ms) name label fallback problem started h r e =
      absurd (ground arith)
  outcome-HealthPassed (not_started reason) name label fallback problem started h r e =
      absurd (ground arith)

  start_release-HealthPassed :
      (systemctl : String) (h : Host) {cs : List Check} {k : Host}
      → start_release w release systemctl h ≡ (ok cs, k)
      → HealthPassed w release k
  unfolding start_release run
  start_release-HealthPassed systemctl h e =
      let starts = start_services w systemctl (services w release false) in
      let (started, _, rest) = bind-eq-ok starts _ h e in
      let h' : Host = (starts h).1 in outcome-HealthPassed _ _ _ _ _ started h' refl rest

  module _ (args : Args) where
    timed-HealthPassed :
        (rows : List Check) (h : Host) {k : Host}
        → (add_checks rows >> within_time w args) h ≡ (ok tt, k)
        → k.history ≡ h.history
    unfolding within_time
    timed-HealthPassed rows h e = ground arith

    finish-HealthPassed :
        (rows : List Check) (h : Host) {k : Host}
        → (do
          add_checks rows
          started ← start_release w release args.systemctl
          add_checks started
          within_time w args)
            h
          ≡ (ok tt, k)
        → HealthPassed w release k
    finish-HealthPassed rows h e =
        let starts = start_release w release args.systemctl in
        let h' : Host = record h { checks = h.checks ++ rows } in
        let (cs, started, rest) =
          bind-eq-ok starts (λ cs. add_checks cs >> within_time w args) h' e in
        HealthPassed-history
          (start_release-HealthPassed args.systemctl h' (λ i. (started i, (starts h').1)))
          (timed-HealthPassed cs (starts h').1 rest)

    pub try_activate-HealthPassed :
        (current : Option Release) (h : Host) {k : Host}
        → try_activate w args current release h ≡ (ok tt, k)
        → HealthPassed w release k
    unfolding try_activate
    try_activate-HealthPassed current h e =
        let (_, _, selecting) = bind-eq-ok (stop_previous w args current) _ h e in
        let h' : Host = (stop_previous w args current h).1 in
        let (_, _, rest) = bind-eq-ok (select_release w release) _ h' selecting in
        finish-HealthPassed _ (select_release w release h').1 rest
