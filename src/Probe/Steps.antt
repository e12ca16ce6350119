-- ===== src/Probe/Steps.antt =====
-- The steps of `run_live_probe` of platform_probe.py, one function for each: what a step asks of the
-- server, and what it demands of the answers.
use liqi_platform.Prelude.{
  suc, String, ◌<>◌, Bool, true, false, ◌&&◌, ◌||◌, Option, none, some, [], ◌∷◌, ◌==◌, nat_eq,
  string_eq, if◌then◌else◌, Result, ok, err, and_then,
}
use liqi_platform.Prelude.Int.{ℤ, pos, ltb_ℤ, leb_ℤ}
use liqi_platform.Prelude.Json.{
  Json, bool, int, float, str, arr, nil, cons, obj, end, field, get, get_eq, is_text, is_true,
  bool_to_int, scale,
}
use liqi_platform.Probe.Recorder.{
  Problem, probe_failure, handshake_error, failed, blocked, Recorder, Correctness,
}
use liqi_platform.Probe.Phoenix.{Channel, Step, wait_event, join, push}
use liqi_platform.Probe.Session.{
  Env, Live, Run, closed, emit, update, ◌>>=◌, ◌>>◌, pure, raise, raise_unless, from_result, member,
  part, request, call, post_probe, type_error,
}
use liqi_platform.Probe.Handshake.{connect}

abbrev with_counts : (Correctness → Correctness) → Recorder → Recorder
with_counts f r = record r { correctness = f r.correctness }

abbrev pub count_bypass : Recorder → Recorder
count_bypass = with_counts λ c. record c { authorization_bypass = suc c.authorization_bypass }

abbrev pub count_duplicate : Recorder → Recorder
count_duplicate =
    with_counts λ c. record c { duplicate_durable_identity = suc c.duplicate_durable_identity }

abbrev pub count_loss : Recorder → Recorder
count_loss = with_counts λ c. record c { durable_event_loss = suc c.durable_event_loss }

abbrev pub count_exposure : Recorder → Recorder
count_exposure = with_counts λ c. record c { secret_exposure = suc c.secret_exposure }

-- Only `inspect_secrets` raises with this class, after it counts.
abbrev exposes : Problem → Bool
exposes (probe_failure f b) = f.failure_class == "secret_exposure"
exposes _ = false

abbrev pub channel_end : {A : Type 0} → Result Problem A × Channel → Run (A × Channel)
channel_end (ok a, c) l = (ok (a, c), l)
channel_end (err e, c) l =
    (err e, if exposes e then record l { recorder = count_exposure l.recorder } else l)

-- An operation of the channel, within the run.
unfoldable pub on_channel : {A : Type 0} → Channel → Step A → Run (A × Channel)
on_channel c step = channel_end (step c)

-- `isinstance(value, int)`, which Booleans are too.
abbrev pub integer : Option Json → Option ℤ
integer (some (int n)) = some n
integer (some (bool b)) = some (bool_to_int b)
integer _ = none

-- `value > bound` of an integer, where `value` is one.
abbrev pub exceeds : ℤ → Option ℤ → Bool
exceeds bound (some n) = ltb_ℤ bound n
exceeds bound none = false

-- `repair.get("cursor", 0) <= bound`
abbrev pub cursor_leb : Option Json → ℤ → Result Problem Bool
cursor_leb none bound = ok (leb_ℤ (pos 0) bound)
cursor_leb (some (int n)) bound = ok (leb_ℤ n bound)
cursor_leb (some (bool b)) bound = ok (leb_ℤ (bool_to_int b) bound)
cursor_leb (some (float m k)) bound = ok (leb_ℤ m (scale k bound))
cursor_leb (some v) bound = err (type_error v)

-- `a and b`, where each may raise.
abbrev pub and_also : Result Problem Bool → Result Problem Bool → Result Problem Bool
and_also (ok true) b = b
and_also a b = a

-- `.get` of the member of a member, where the default is the empty dictionary.
abbrev event_of : Json → Result Problem Json
event_of payload =
    and_then (member "payload" payload)
      λ inner. and_then (member "event" (or_object inner)) λ event. ok (or_object event)
  where
    or_object : Option Json → Json
    or_object (some v) = v
    or_object none = obj end

-- A frame that carries the event.
unfoldable pub carries : String → Json → Result Problem Bool
carries event_id payload =
    let found =
      and_then (event_of payload)
        λ event. and_then (member "eventId" event) λ id. ok (is_text event_id id) in
    if is_text "event" (get "kind" payload) then found else ok false

module _ (env : Env) where
  abbrev pub get_json : String → String → Run Json
  get_json path failure_class = call env "GET" path [] none 200 failure_class

  -- The two documents of the readiness step, and what they must say.
  abbrev pub admits : Json → Json → Run (Unit {0})
  admits metadata ready = do
    raise_unless
        (is_text env.release_id (get "releaseId" metadata)
          && is_text env.release_id (get "releaseId" ready))
        (failed "release_identity_mismatch" "runtime metadata/readiness release mismatch")
    raise_unless (is_text env.source_sha (get "sourceRevision" metadata))
        (failed "source_revision_mismatch" "live source revision does not match probe checkout")
    raise_unless
        (is_text "staging" (get "environment" metadata)
          || is_text "production" (get "environment" metadata))
        (failed "environment_mismatch" "live environment is not staging or production")
    raise_unless (is_text "ready" (get "status" ready))
        (blocked "runtime_not_ready" "runtime readiness is not green")

  unfoldable pub readiness_step : Run (Json × Json)
  readiness_step = do
    metadata ← get_json "/platform/v1/metadata" "runtime_metadata_failed"
    ready ← get_json "/health/ready" "runtime_not_ready"
    admits metadata ready
    pure (metadata, ready)

  abbrev pub is_clean_rejection : Option ℤ → Bool
  is_clean_rejection (some (pos n)) = n == 400 || n == 401 || n == 403 || n == 404
  is_clean_rejection _ = false

  abbrev not_clean : Problem
  not_clean = failed "websocket_auth_probe_failed" "unauthorized WebSocket did not reject cleanly"

  -- How the connection without a token must end: refused with one of four codes.
  abbrev pub rejected : Result Problem Channel × Live → Result Problem (Unit {0}) × Live
  rejected (ok c, l) =
      (do
        update count_bypass
        emit closed
        raise (failed "authorization_bypass" "WebSocket accepted a connection without probe auth"))
        l
  rejected (err (handshake_error status m), l) =
      if is_clean_rejection status then (ok tt, l) else (err not_clean, l)
  rejected (err e, l) = (err e, l)

  abbrev pub bypassed : Run (Unit {0})
  bypassed = do
    update count_bypass
    raise (failed "authorization_bypass" "HTTP probe accepted a request without auth")

  unfoldable pub unauthorized_step : Run (Unit {0})
  unauthorized_step = do
    response ← request env (record {
      method = "POST";
      path = "/platform/v1/probes";
      headers = ("idempotency-key", "unauthorized:" <> env.first_probe) ∷ [];
      body = some (obj (field "clientProbeId" (str env.first_probe) end));
    })
    if response.status == 401 then (λ l. rejected (connect env none l)) else bypassed

  abbrev actor : String → String
  actor probe_id = "platform-probe:" <> probe_id

  unfoldable pub connect_step : Run Channel
  connect_step = do
    channel ← connect env (some env.token)
    (joined, channel') ← on_channel channel (
        join env.show env.py_str (
          obj (
            field "actorKey" (str (actor env.first_probe))
              (field "resumeCursor" (int (pos 0)) end))))
    if is_text "1" (get "protocolVersion" joined)
          && get_eq (get "resumeCursor" joined) (some (int (pos 0)))
        then pure channel'
        else (do
          emit closed
          raise (
              failed "invalid_join_response"
                "initial Phoenix join returned invalid protocol/cursor"))

  -- The same command twice must give the same event.
  unfoldable pub command_step : Run Json
  command_step = do
    first ← post_probe env env.first_probe ("live-probe:" <> env.first_probe)
    duplicate ← post_probe env env.first_probe ("live-probe:" <> env.first_probe)
    raise_unless
        (is_text env.first_probe (get "probeId" first) && is_text "accepted" (get "status" first))
        (failed "invalid_durable_outcome" "durable command returned invalid identity/status")
    if get_eq (get "eventId" first) (get "eventId" duplicate) then pure first else (do
      update count_duplicate
      raise (failed "duplicate_durable_identity" "idempotent duplicate changed event identity"))

  unfoldable pub delivery_step : Channel → String → Run (Json × Json × Channel)
  delivery_step channel event_id = do
    (frame, channel') ← on_channel channel (wait_event "frame" (carries event_id))
    let payload = part "payload" frame
    raise_unless (exceeds (pos 0) (integer (get "sequence" payload)))
        (failed "invalid_handoff_sequence" "realtime event lacks a positive handoff sequence")
    raise_unless (is_text "platform.probe.requested.v1" (get "eventType" (part "event" payload)))
        (failed "invalid_event_type" "realtime event type is not platform.probe.requested.v1")
    pure (frame, part "sequence" payload, channel')

  abbrev pub close_and_raise : {A : Type 0} → Problem → Run A
  close_and_raise e = do emit closed; raise e

  abbrev pub repaired : ℤ → Option Json → Run (Unit {0})
  repaired first_sequence (some (obj fs)) = do
    behind ← from_result (cursor_leb (get "cursor" (obj fs)) first_sequence)
    if behind
        then close_and_raise
            (failed "resume_repair_missing" "reattach did not advance the durable cursor")
        else pure tt
  repaired first_sequence _ =
      close_and_raise (failed "resume_repair_missing" "reattach did not advance the durable cursor")

  abbrev or_zero : Option ℤ → ℤ
  or_zero (some n) = n
  or_zero none = pos 0

  unfoldable pub resume_step : Json → String → String → Run Json
  resume_step first_sequence resume_token event_id = do
    let reached = or_zero (integer (some first_sequence))
    channel ← connect env (some env.token)
    (joined, channel') ← on_channel channel (
        join env.show env.py_str (
          obj (
            field "actorKeys"
              (arr (cons (str (actor env.first_probe)) (cons (str (actor env.second_probe)) nil)))
              (field "resumeCursor" first_sequence (field "resumeToken" (str resume_token) end)))))
    repaired reached (get "repair" joined)
    (resumed, channel'') ← on_channel channel' (wait_event "frame" (carries event_id))
    let sequence = get "sequence" (part "payload" resumed)
    if exceeds reached (integer sequence)
        then pure tt
        else close_and_raise
            (failed "resume_sequence_invalid" "resumed event did not advance sequence")
    (done, c) ← on_channel channel'' (
        push env.show env.py_str "ack"
          (obj (field "sequence" (part "sequence" (part "payload" resumed)) end)))
    pure (part "sequence" (part "payload" resumed))

  -- The comparison of the native diagnostic's three results, in the order of the source's `and`.
  unfoldable pub fallback_ok : Json → Result Problem Bool
  fallback_ok native =
      let configured = part "configured" native in
      let reference = part "reference" native in
      let fallback = part "fallbackExercise" native in
      let same : Json → Json → Result Problem Bool = λ a b.
        and_then (member "result" a) λ x. and_then (member "result" b) λ y. ok (get_eq x y) in
      let holds : (Option Json → Bool) → String → Result Problem Bool =
        λ test k. and_then (member k fallback) λ v. ok (test v) in
      and_also (ok (is_true (get "parity" native))) (
        and_also (same configured reference) (
          and_also (same fallback reference) (
            and_also (holds is_true "parity") (
              and_also (holds (is_text "reference") "implementation") (
                and_also (holds is_true "fallback")
                  (holds (is_text "NATIVE_UNAVAILABLE") "fallbackReason"))))))

  unfoldable pub native_fallback_step : Run Json
  native_fallback_step = do
    native ←
        call env "POST" "/platform/v1/probes/native" (("x-liqi-probe-token", env.token) ∷ [])
          (some (
            obj (
              field "expectedFirst" (int (pos 1)) (
                field "expectedLast" (int (pos 8)) (
                  field "observedSequences"
                    (arr (
                      cons (int (pos 1)) (
                        cons (int (pos 2))
                          (cons (int (pos 5)) (cons (int (pos 5)) (cons (int (pos 8)) nil))))))
                    end)))))
          200 "native_diagnostic_unavailable"
    agrees ← from_result (fallback_ok native)
    raise_unless agrees (
        failed "native_fallback_mismatch"
          "native fallback diagnostic did not match the reference implementation")
    pure native

  -- The second `.get` is read only if the first comparison does not decide.
  unfoldable pub kernel_available : Json → Result Problem Bool
  kernel_available native =
      and_also
        (and_then (member "implementation" (part "configured" native)) λ v. ok (is_text "native" v))
        (and_then (member "nativeAvailable" (part "readiness" native)) λ v. ok (is_true v))

  unfoldable pub native_kernel_step : Json → Run (Unit {0})
  native_kernel_step native = do
    available ← from_result (kernel_available native)
    raise_unless available (
        blocked "native_artifact_unavailable"
          "native kernel artifact is unavailable or disabled on the live runtime")
