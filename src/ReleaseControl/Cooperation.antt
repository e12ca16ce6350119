-- ===== src/ReleaseControl/Cooperation.antt =====
-- The steps of an activation of release_control.py return on a host that does what it is asked: every command succeeds,
-- no file operation is refused, and the time is not over.
use liqi_platform.Prelude.{
  ℕ, ◌++◌, if◌then◌else◌, String, ◌<>◌, Bool, true, false, Option, none, some, List, [], ◌∷◌, ◌≡◌,
  refl, ap, ◌∙◌, ltb, Result, ok, err, Returns, Total,
}
use liqi_platform.Prelude.Texts.{or_text}
use liqi_platform.ReleaseControl.Documents.{Service, Release, Check, Args}
use liqi_platform.ReleaseControl.Host.{
  Exception, runtime_error, raise_if, other_error, absent, symlink, made_directory,
  removed_temporary, made_temporary, replaced, unlinked, slot, set_slot, RunOutcome, exited, Event,
  ran, World, Host, Exec, Link, current_link, runtime_link, continue, ◌>>=◌, pure, file_step,
}
use liqi_platform.ReleaseControl.Services.{
  check, outcome_of, finish, run, required, atomic_symlink, unlink, stop_service, stop_services,
  start_service, start_services, drain_current, services, stop_release, start_release,
  select_release,
}
use liqi_platform.ReleaseControl.Evidence.{shown}
use liqi_platform.ReleaseControl.Operation.{within_time, stop_previous, try_activate, add_checks}

continue-Returns :
    {A B : Type 0} (r : Result Exception A × Host) (f : A → Exec B)
    → Returns r
    → ((a : A) → Total (f a))
    → Returns (continue r.0 f r.1)
continue-Returns r f t k =
    let n = (k t.value).run t.state in
    record {
      value = n.value;
      state = n.state;
      equation = ap (λ s. continue s.0 f s.1) t.equation ∙ n.equation;
    }

bind-Total :
    {A B : Type 0} (m : Exec A) (f : A → Exec B)
    → Total m
    → ((a : A) → Total (f a))
    → Total (m >>= f)
bind-Total m f t k = record { run = λ h. continue-Returns (m h) f (t.run h) k }

pure-Total : {A : Type 0} (a : A) → Total (pure a)
pure-Total a = record { run = λ h. record { value = a; state = h; equation = refl } }

add_checks-Total : (cs : List Check) → Total (add_checks cs)
add_checks-Total cs = record { run = λ h. record { value = tt; state = _; equation = refl } }

-- A command that ended well.
abbrev pub Succeeded : RunOutcome → Type 0
Succeeded o = (stdout : String) × (stderr : String) × (ms : ℕ) × (o ≡ exited true stdout stderr ms)

module _ (w : World) (args : Args)
    (succeeds : (before : List Event) (argv : List String) (timeout : ℕ)
      → Succeeded (w.runs before argv timeout))
    (allowed : (before : List Event) (e : Event) → w.refuses before e ≡ false)
    (in_time : (before : List Event)
      → ltb args.maximum_duration_seconds (w.elapsed_seconds before) ≡ false) where
  command-Total :
      (argv : List String) (timeout : ℕ) (name label fallback problem : String)
      → Total (run w argv timeout >>= λ outcome. required w name label fallback problem outcome)
  unfolding run
  command-Total argv timeout name label fallback problem = record {
    run = λ h.
        let (stdout, stderr, ms, e) = succeeds h.history argv timeout in
        let k : Host = record h { history = ran argv timeout ∷ h.history } in
        record {
          value = _;
          state = k;
          equation =
              ap
                (λ o.
                  continue (finish o k).0
                    (λ outcome. required w name label fallback problem outcome) (finish o k).1)
                e;
        };
  }

  stop_service-Total : (systemctl : String) (item : Service) → Total (stop_service w systemctl item)
  unfolding stop_service
  stop_service-Total systemctl item = command-Total _ _ _ _ _ _

  start_service-Total :
      (systemctl : String) (item : Service) → Total (start_service w systemctl item)
  unfolding start_service
  start_service-Total systemctl item = command-Total _ _ _ _ _ _

  stop_services-Total :
      (systemctl : String) (items : List Service) → Total (stop_services w systemctl items)
  unfolding stop_services
  stop_services-Total systemctl [] = pure-Total []
  stop_services-Total systemctl (item ∷ rest) =
      bind-Total (stop_service w systemctl item) _ (stop_service-Total systemctl item) λ result.
        bind-Total (stop_services w systemctl rest) _ (stop_services-Total systemctl rest)
          λ results. pure-Total (result ∷ results)

  start_services-Total :
      (systemctl : String) (items : List Service) → Total (start_services w systemctl items)
  unfolding start_services
  start_services-Total systemctl [] = pure-Total []
  start_services-Total systemctl (item ∷ rest) =
      bind-Total (start_service w systemctl item) _ (start_service-Total systemctl item) λ result.
        bind-Total (start_services w systemctl rest) _ (start_services-Total systemctl rest)
          λ results. pure-Total (result ∷ results)

  then-Total :
      {A : Type 0} (argv : List String) (timeout : ℕ) (name label fallback problem : String)
      (f : Check → Exec A)
      → ((c : Check) → Total (f c))
      → Total
          (run w argv timeout >>= λ outcome. required w name label fallback problem outcome >>= f)
  unfolding run
  then-Total argv timeout name label fallback problem f t = record {
    run = λ h.
        let (stdout, stderr, ms, e) = succeeds h.history argv timeout in
        let k : Host = record h { history = ran argv timeout ∷ h.history } in
        let n =
          (t (
              check name "passed"
                (label <> or_text (outcome_of (exited true stdout stderr ms)).1 fallback) ms)).run
            k in
        record {
          value = n.value;
          state = n.state;
          equation =
              ap
                (λ o.
                  continue (finish o k).0
                    (λ outcome. required w name label fallback problem outcome >>= f)
                    (finish o k).1)
                e
              ∙ n.equation;
        };
  }

  drain_current-Total :
      (drain : Bool) (argv : Option (List String)) (timeout : ℕ)
      → Total (drain_current w drain argv timeout)
  unfolding drain_current
  drain_current-Total true (some (arg ∷ argv)) timeout =
      then-Total (arg ∷ argv) timeout _ _ _ _ (λ result. pure (result ∷ []))
        λ result. pure-Total (result ∷ [])
  drain_current-Total true (some []) timeout = pure-Total []
  drain_current-Total true none timeout = pure-Total []
  drain_current-Total false argv timeout = pure-Total []

  stop_release-Total :
      (document : Release) (systemctl : String) (drain : Bool)
      → Total (stop_release w document systemctl drain)
  unfolding stop_release
  stop_release-Total document systemctl drain =
      bind-Total (drain_current w drain document.drain_argv document.drain_timeout_seconds) _
        (drain_current-Total drain document.drain_argv document.drain_timeout_seconds)
        λ drained.
          bind-Total (stop_services w systemctl (services w document true)) _
            (stop_services-Total systemctl (services w document true))
            λ stopped. pure-Total (drained ++ stopped)

  start_release-Total :
      (document : Release) (systemctl : String) → Total (start_release w document systemctl)
  unfolding start_release
  start_release-Total document systemctl =
      bind-Total (start_services w systemctl (services w document false)) _
        (start_services-Total systemctl (services w document false))
        λ started.
          then-Total document.health_argv document.health_timeout_seconds _ _ _ _
            (λ health. pure (started ++ health ∷ [])) λ health. pure-Total (started ++ health ∷ [])

  file_step-Total : (e : Event) (change : Host → Host) → Total (file_step w e change)
  file_step-Total e change = record {
    run = λ h.
        let h' : Host = change h in
        let k : Host = record h' { history = e ∷ h.history } in
        record {
          value = tt;
          state = k;
          equation =
              ap (λ b. if b then (err (other_error "OSError"), h) else (ok tt, k))
                (allowed h.history e);
        };
  }

  step-Total :
      {A : Type 0} (e : Event) (change : Host → Host) (f : Unit {0} → Exec A)
      → ((u : Unit {0}) → Total (f u))
      → Total (file_step w e change >>= f)
  step-Total e change f t = bind-Total (file_step w e change) f (file_step-Total e change) t

  atomic_symlink-Total : (target : String) (link : Link) → Total (atomic_symlink w target link)
  unfolding atomic_symlink
  atomic_symlink-Total target link =
      step-Total (made_directory link) (λ h. h) _
        λ _.
          step-Total (removed_temporary link)
            (λ h. set_slot link (record { entry = (slot link h).entry; temporary = absent }) h) _
            λ _.
              step-Total (made_temporary link target)
                (λ h.
                  set_slot link (record { entry = (slot link h).entry; temporary = symlink target })
                    h)
                _
                λ _. file_step-Total (replaced link) (λ h.
                  set_slot link (record { entry = (slot link h).temporary; temporary = absent }) h)

  unlink-Total : (link : Link) → Total (unlink w link)
  unfolding unlink
  unlink-Total link =
      file_step-Total (unlinked link)
        (λ h. set_slot link (record { entry = absent; temporary = (slot link h).temporary }) h)

  runtime-Total :
      (runtime : Option String)
      → Total (elim runtime as (λ r. Exec (Unit {0})) [
        | none ↦ unlink w runtime_link
        | some path ↦ atomic_symlink w path runtime_link
      ])
  runtime-Total none = unlink-Total runtime_link
  runtime-Total (some path) = atomic_symlink-Total path runtime_link

  select_release-Total : (document : Release) → Total (select_release w document)
  unfolding select_release
  select_release-Total document =
      bind-Total (atomic_symlink w document.release_path current_link) _
        (atomic_symlink-Total document.release_path current_link)
        λ _. runtime-Total document.runtime_config_path

  stop_previous-Total : (current : Option Release) → Total (stop_previous w args current)
  unfolding stop_previous
  stop_previous-Total none = pure-Total tt
  stop_previous-Total (some current) =
      bind-Total (stop_release w current args.systemctl true) _
        (stop_release-Total current args.systemctl true) λ stopped. add_checks-Total stopped

  within_time-Total : Total (within_time w args)
  unfolding within_time
  within_time-Total = record {
    run = λ h. record {
      value = tt;
      state = h;
      equation =
          ap (λ b. raise_if b (runtime_error "release operation exceeded maximum duration") h)
            (in_time h.history);
    };
  }

  pub try_activate-Total :
      (current : Option Release) (target : Release) → Total (try_activate w args current target)
  unfolding try_activate
  try_activate-Total current target =
      bind-Total (stop_previous w args current) _ (stop_previous-Total current) λ _.
        bind-Total (select_release w target) _ (select_release-Total target) λ _.
          bind-Total
            (add_checks (
              check "select-release" "passed"
                (target.release_path <> " and " <> shown target.runtime_config_path) 0
              ∷ []))
            _ (add_checks-Total _)
            λ _.
              bind-Total (start_release w target args.systemctl) _
                (start_release-Total target args.systemctl)
                λ started.
                  bind-Total (add_checks started) _ (add_checks-Total started)
                    λ _. within_time-Total
