-- ===== src/Probe/Live.antt =====
-- `run_live_probe`, `emit_result` and `main` of platform_probe.py: the order of the steps, what each
-- hands to the next, and the evidence that is written at the end.
use liqi_platform.Prelude.{
  ℕ, String, ◌<>◌, true, not, ◌&&◌, ◌||◌, Option, none, some, List, [], ◌∷◌, ◌++◌, ◌==◌, string_eq,
  contains, if◌then◌else◌, Result, ok, err,
}
use liqi_platform.Prelude.Int.{pos}
use liqi_platform.Prelude.Json.{Json, str, obj, end, field, get, get_eq, is_text, is_true, truthy}
use liqi_platform.Probe.Recorder.{
  Problem, probe_failure, handshake_error, unexpected, failed, sanitize_error, Name, https_health,
  runtime_readiness, websocket_connect, websocket_auth, durable_command_commit, outbox_handoff,
  realtime_delivery, resume_gap_repair, worker_job, native_kernel, native_fallback, check_order,
  Status, passed_check, failed_check, blocked_check, Row, Correctness, Recorder, new_recorder, set,
  block_remaining, status_of, ordered_checks,
}
use liqi_platform.Probe.Phoenix.{Channel, push}
use liqi_platform.Probe.Session.{
  Env, Live, Run, closed, emit, update, ◌>>=◌, ◌>>◌, pure, raise, raise_unless, from_result, part,
  run, call, post_probe, wait_for_terminal, Exchange, Opening,
}
use liqi_platform.Probe.Steps.{
  exceeds, integer, count_loss, on_channel, readiness_step, unauthorized_step, connect_step,
  command_step, delivery_step, resume_step, native_fallback_step, native_kernel_step,
}

abbrev handoff_ref : String
handoff_ref = "/platform/v1/socket/websocket#frame"

-- `a or b` of two JSON values.
abbrev or_value : Option Json → Option Json → Option Json
or_value a b = if truthy a then a else b

-- What the readiness step leaves for the evidence.
pub record Observed : Type 0 where
  pub release_id : String
  pub environment : String

abbrev pub text_or : String → Option Json → String
text_or s (some (str t)) = t
text_or s _ = s

module _ (env : Env) where
  -- `str(value or other)`
  abbrev shown_or : Option Json → String → String
  shown_or (some v) other = if truthy (some v) then env.py_str v else other
  shown_or none other = other

  -- The row of a check that passed and whose answer is then refused.
  abbrev pub refuse : {A : Type 0} → Name → String → String → String → Run A
  refuse name evidence_ref failure_class message = do
    update (λ r.
        set name failed_check (r.checks name).duration_ms (some evidence_ref) (some failure_class)
          r)
    raise (failed failure_class message)

  unfoldable pub health : Run (Unit {0})
  health = do
    live ←
        run env https_health "/health/live"
          (call env "GET" "/health/live" [] none 200 "https_health_failed")
    if is_text "live" (get "status" live)
          && shown_or (get "releaseId" live) env.release_id == env.release_id
        then pure tt
        else refuse https_health "/health/live" "release_identity_mismatch"
            "liveness release identity does not match requested release"

  -- `str(first_result["eventId"])`
  abbrev event_id_of : Json → Result Problem String
  event_id_of document = elim (get "eventId" document) [
    | some v ↦ ok (env.py_str v)
    | none ↦ err (unexpected "KeyError" "'eventId'")
  ]

  -- A failed delivery is the loss of a durable event, and fails the outbox's handoff.
  abbrev handoff_status : Problem → Status × String
  handoff_status (probe_failure f b) = (if b then blocked_check else failed_check, f.failure_class)
  handoff_status (handshake_error s m) = (failed_check, "websocket_handshake_rejected")
  handoff_status (unexpected name text) = (failed_check, "unexpected_probe_error")

  abbrev pub lost : Problem → Recorder → Recorder
  lost e r =
      let (status, failure_class) = handoff_status e in
      set outbox_handoff status (env.elapsed outbox_handoff) (some handoff_ref) (some failure_class)
        (count_loss r)

  abbrev pub or_lost : {A : Type 0} → Result Problem A × Live → Result Problem A × Live
  or_lost (ok a, l) = (ok a, l)
  or_lost (err e, l) = (err e, record l { recorder = lost e l.recorder })

  unfoldable pub delivery : Channel → String → Run (Json × Channel)
  delivery channel event_id = do
    (frame, sequence, channel') ← (λ l.
        or_lost (run env realtime_delivery handoff_ref (delivery_step env channel event_id) l))
    if is_text event_id (get "eventId" (part "event" (part "payload" frame)))
          && exceeds (pos 0) (integer (some sequence))
        then update (set outbox_handoff passed_check (pos 0) (some handoff_ref) none)
        else (do
          update (set outbox_handoff failed_check (pos 0) none (some "handoff_identity_mismatch"))
          raise (
              failed "handoff_identity_mismatch"
                "committed handoff identity did not match command"))
    pure (sequence, channel')

  abbrev pub resume_token : Option Json → Run String
  resume_token (some (str s)) = pure s
  resume_token _ =
      raise (failed "invalid_ack_response" "ACK did not return the expected cursor/resume token")

  unfoldable pub acknowledge : Channel → Json → Run String
  acknowledge channel sequence = do
    (ack, c) ←
        on_channel channel (push env.show env.py_str "ack" (obj (field "sequence" sequence end)))
    raise_unless (get_eq (get "cursor" ack) (some sequence))
        (failed "invalid_ack_response" "ACK did not return the expected cursor/resume token")
    resume_token (or_value (get "resume_token" ack) (get "resumeToken" ack))

  unfoldable pub worker : String → Run (Unit {0})
  worker event_id = do
    terminal ←
        run env worker_job ("/platform/v1/probes/" <> env.first_probe)
          (wait_for_terminal env env.first_probe event_id)
    if is_true (get "effectApplied" terminal) && is_text "succeeded" (get "outboxState" terminal)
        then pure tt
        else refuse worker_job ("/platform/v1/probes/" <> env.first_probe) "terminal_effect_invalid"
            "worker terminal observation was not succeeded/applied"

  -- `str(second_result.get("eventId"))`, where a missing key is the text "None".
  abbrev shown_id : Option Json → String
  shown_id (some v) = env.py_str v
  shown_id none = "None"

  unfoldable pub second_command : Run String
  second_command = do
    result ← post_probe env env.second_probe ("live-probe:" <> env.second_probe)
    let event_id = shown_id (get "eventId" result)
    raise_unless (not (event_id == ""))
        (failed "invalid_durable_outcome" "second durable command did not return event identity")
    terminal ← wait_for_terminal env env.second_probe event_id
    pure event_id

  -- A kernel that is only blocked leaves its row, and the run goes on.
  abbrev pub unless_blocked : Result Problem (Unit {0}) × Live → Result Problem (Unit {0}) × Live
  unless_blocked (err (probe_failure f true), l) = (ok tt, l)
  unless_blocked r = r

  unfoldable pub kernel : Json → Run (Unit {0})
  kernel native l = unless_blocked (
      run env native_kernel "/platform/v1/probes/native#configured" (native_kernel_step env native)
        l)

  abbrev websocket_ref : String
  websocket_ref = "/platform/v1/socket/websocket"

  -- The first command, from its commit to the end of its work: its sequence and the resume token.
  unfoldable pub first_command : Channel → Run (Json × String)
  first_command channel = do
    result ← run env durable_command_commit "/platform/v1/probes" (command_step env)
    event_id ← from_result (event_id_of result)
    (sequence, channel') ← delivery channel event_id
    token ← acknowledge channel' sequence
    worker event_id
    emit closed
    pure (sequence, token)

  unfoldable pub resumption : Json → String → Run (Unit {0})
  resumption sequence token = do
    event_id ← second_command
    second_sequence ←
        run env resume_gap_repair "/platform/v1/socket/websocket#resume"
          (resume_step env sequence token event_id)
    pure tt

  -- All steps but the last.
  unfoldable pub all_but_kernel : Run (Observed × Json)
  all_but_kernel = do
    health
    (metadata, ready) ← run env runtime_readiness "/health/ready" (readiness_step env)
    run env websocket_auth websocket_ref (unauthorized_step env)
    channel ← run env websocket_connect websocket_ref (connect_step env)
    (sequence, token) ← first_command channel
    resumption sequence token
    native ←
        run env native_fallback "/platform/v1/probes/native#fallbackExercise"
          (native_fallback_step env)
    pure (
      record {
        release_id = text_or env.release_id (get "releaseId" metadata);
        environment = text_or env.environment (get "environment" metadata);
      },
      native,
    )

  unfoldable pub run_live_probe : Run Observed
  run_live_probe = do (observed, native) ← all_but_kernel; kernel native; emit closed; pure observed

-- What the evidence of a run that did not end names.
abbrev pub requested : Env → Observed
requested env = record { release_id = env.release_id; environment = env.environment }

-- The document that `emit_result` writes.
pub record Evidence : Type 0 where
  pub release_id : String
  pub observed_release_id : String
  pub environment : String
  pub endpoint : String
  pub status : Status
  pub checks : List Row
  pub correctness_events : Correctness
  pub errors : List String

abbrev pub exit_code : Status → ℕ
exit_code passed_check = 0
exit_code blocked_check = 2
exit_code failed_check = 1

unfoldable pub emit_result : Env → Observed → Recorder → Evidence × ℕ
emit_result env observed r = (
  record {
    release_id = env.release_id;
    observed_release_id = observed.release_id;
    environment =
        if observed.environment == "staging" || observed.environment == "production"
        then observed.environment
        else "staging";
    endpoint = env.base_url;
    status = status_of r;
    checks = ordered_checks r;
    correctness_events = r.correctness;
    errors = r.errors;
  },
  exit_code (status_of r),
)

-- The class of the rows that a run's exception leaves unexecuted.
abbrev pub remaining_class : Problem → String
remaining_class (unexpected name text) = "unexpected_probe_error"
remaining_class _ = "upstream_probe_step_failed"

abbrev pub add_error : String → Recorder → Recorder
add_error message r =
    if contains r.errors message then r else record r { errors = r.errors ++ message ∷ [] }

unfoldable pub after_run : Env → Result Problem Observed × Live → Evidence × ℕ
after_run env (ok observed, l) = emit_result env observed l.recorder
after_run env (err e, l) = emit_result env (requested env) (
    block_remaining check_order (remaining_class e)
      (add_error (sanitize_error l.recorder.secrets e) l.recorder))

abbrev class_of : Problem → String
class_of (probe_failure f b) = f.failure_class
class_of (handshake_error s m) = "websocket_handshake_rejected"
class_of (unexpected name text) = name

abbrev pub start : String → List Exchange → List Opening → Live
start token exchanges openings = record {
  recorder = new_recorder (token ∷ []);
  exchanges = exchanges;
  openings = openings;
  trace = [];
}

-- `main`, after its arguments are accepted: without a token nothing is asked of the server.
unfoldable pub main : Env → Result Problem String → List Exchange → List Opening → Evidence × ℕ
main env (err e) exchanges openings =
    let r = block_remaining check_order (class_of e) (new_recorder []) in
    emit_result env (requested env) (record r { errors = r.errors ++ sanitize_error [] e ∷ [] })
main env (ok token) exchanges openings =
    after_run env (run_live_probe (record env { token = token }) (start token exchanges openings))
