-- ===== src/ReleaseControl/Services.antt =====
-- Commands, links and services: `run`, `atomic_symlink`, `stop_release`, `start_release`,
-- `select_release` and `clear_selection`.
use liqi_platform.Prelude.{
  ℕ, ◌+◌, String, ◌<>◌, Bool, true, false, Option, none, some, List, [], ◌∷◌, ◌++◌,
}
use liqi_platform.Prelude.Texts.{prefix, last_part, strip, or_text}
use liqi_platform.Prelude.Sorted.{sort_by, sort_down}
use liqi_platform.ReleaseControl.Documents.{Service, Release, Check, RecoveryCheck}
use liqi_platform.ReleaseControl.Host.{
  runtime_error, other_error, absent, symlink, Link, current_link, runtime_link, ran,
  made_directory, removed_temporary, made_temporary, replaced, unlinked, RunOutcome, exited,
  timed_out, not_started, World, Exec, ◌>>=◌, ◌>>◌, pure, raise, slot, set_slot, file_step,
}

unfoldable pub check : String → String → String → ℕ → Check
unfolding prefix
check name status detail duration_ms = record {
  name = name;
  status = status;
  duration_ms = duration_ms;
  detail = prefix 2048 detail;
}

unfoldable pub recovery_check : String → String → String → RecoveryCheck
unfolding prefix
recovery_check name status detail = record {
  name = name;
  status = status;
  detail = prefix 2048 detail;
  duration_ms = none;
}

-- `recovery_checks.extend(checks)`: the rows keep their durations.
abbrev pub as_row : Check → RecoveryCheck
as_row c = record {
  name = c.name;
  status = c.status;
  detail = c.detail;
  duration_ms = some c.duration_ms;
}

-- The three results of `run`: success, detail and duration.
abbrev pub Ran : Type 0
Ran = Bool × String × ℕ

-- `(result.stderr or result.stdout or "")[-2048:].strip()`
abbrev pub outcome_of : RunOutcome → Ran
outcome_of (exited success stdout stderr ms) =
    (success, strip (last_part 2048 (or_text stderr stdout)), ms)
outcome_of (timed_out ms) = (false, "command timed out", ms)
outcome_of (not_started reason) = (false, reason, 0)

abbrev pub finish : RunOutcome → Exec Ran
finish (not_started reason) = raise (other_error reason)
finish outcome = pure (outcome_of outcome)

unfoldable pub run : World → List String → ℕ → Exec Ran
run w argv timeout h =
    finish (w.runs h.history argv timeout) (record h { history = ran argv timeout ∷ h.history })

module _ (w : World) where
  unfoldable pub atomic_symlink : String → Link → Exec (Unit {0})
  atomic_symlink target link = do
    file_step w (made_directory link) (λ h. h)
    file_step w (removed_temporary link)
        (λ h. set_slot link (record { entry = (slot link h).entry; temporary = absent }) h)
    file_step w (made_temporary link target)
        (λ h. set_slot link (record { entry = (slot link h).entry; temporary = symlink target }) h)
    file_step w (replaced link)
        (λ h. set_slot link (record { entry = (slot link h).temporary; temporary = absent }) h)

  -- `link.unlink(missing_ok=True)`
  unfoldable pub unlink : Link → Exec (Unit {0})
  unlink link =
      file_step w (unlinked link)
        (λ h. set_slot link (record { entry = absent; temporary = (slot link h).temporary }) h)

  -- A command that has to succeed: its check, or the error with its detail.
  abbrev pub required : String → String → String → String → Ran → Exec Check
  required name label fallback problem (true, detail, duration) =
      pure (check name "passed" (label <> or_text detail fallback) duration)
  required name label fallback problem (false, detail, duration) =
      raise (runtime_error (problem <> ": " <> detail))

  unfoldable pub stop_service : String → Service → Exec Check
  stop_service systemctl item = do
    outcome ← run w (systemctl ∷ "stop" ∷ item.unit ∷ []) (item.stop_timeout_seconds + 5)
    required "stop-service" (item.unit <> ": ") "stopped" ("stop failed for " <> item.unit) outcome

  unfoldable pub stop_services : String → List Service → Exec (List Check)
  stop_services systemctl [] = pure []
  stop_services systemctl (item ∷ rest) = do
    result ← stop_service systemctl item
    results ← stop_services systemctl rest
    pure (result ∷ results)

  unfoldable pub start_service : String → Service → Exec Check
  start_service systemctl item = do
    outcome ← run w (systemctl ∷ "start" ∷ item.unit ∷ []) 60
    required "start-service" (item.unit <> ": ") "started" ("start failed for " <> item.unit)
        outcome

  unfoldable pub start_services : String → List Service → Exec (List Check)
  start_services systemctl [] = pure []
  start_services systemctl (item ∷ rest) = do
    result ← start_service systemctl item
    results ← start_services systemctl rest
    pure (result ∷ results)

  -- `if drain and document["drain"]["argv"]`
  unfoldable pub drain_current : Bool → Option (List String) → ℕ → Exec (List Check)
  drain_current true (some (arg ∷ argv)) timeout = do
    outcome ← run w (arg ∷ argv) timeout
    result ← required "drain-current" "" "drain completed" "drain failed" outcome
    pure (result ∷ [])
  drain_current _ _ timeout = pure []

  unfoldable pub services : Release → Bool → List Service
  services document true = sort_down (λ item. item.start_order) document.services
  services document false = sort_by (λ item. item.start_order) document.services

  unfoldable pub stop_release : Release → String → Bool → Exec (List Check)
  stop_release document systemctl drain = do
    drained ← drain_current drain document.drain_argv document.drain_timeout_seconds
    stopped ← stop_services systemctl (services document true)
    pure (drained ++ stopped)

  unfoldable pub start_release : Release → String → Exec (List Check)
  start_release document systemctl = do
    started ← start_services systemctl (services document false)
    outcome ← run w document.health_argv document.health_timeout_seconds
    health ← required "health-gate" "" "health passed" "health gate failed" outcome
    pure (started ++ health ∷ [])

  unfoldable pub select_release : Release → Exec (Unit {0})
  select_release document = do
    atomic_symlink document.release_path current_link
    elim document.runtime_config_path [
      | none ↦ unlink runtime_link
      | some runtime ↦ atomic_symlink runtime runtime_link
    ]

  unfoldable pub clear_selection : Exec (Unit {0})
  clear_selection = do unlink current_link; unlink runtime_link
