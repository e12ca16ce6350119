-- ===== src/Probe/Recorder.antt =====
-- `ProbeFailure`, `sanitize_error` and the class `Recorder` of platform_probe.py. The eleven checks of
-- `CHECK_ORDER` are a type, and the dictionary of the checks is a function on it.
use liqi_platform.Prelude.{
  ℕ, suc, String, ◌<>◌, Bool, true, false, ◌||◌, Option, none, some, List, [], ◌∷◌, ◌++◌, map, any,
  ltb, nat_beq, ◌==◌, string_eq, if◌then◌else◌, select, not,
}
use liqi_platform.Prelude.Int.{ℤ, pos, ltb_ℤ}
use liqi_platform.Prelude.Texts.{prefix, occurs, replace}
use liqi_platform.Probe.Socket.{Failure, failure}

-- What leaves a function of the probe: a `ProbeFailure`, a `WebSocketHandshakeError`, or any other
-- exception, by the name of its type and its text.
pub data Problem : Type 0 where
  probe_failure : Failure → Bool → Problem
  handshake_error : Option ℤ → String → Problem
  unexpected : String → String → Problem

abbrev pub failed : String → String → Problem
failed failure_class message = probe_failure (failure failure_class message) false

abbrev pub blocked : String → String → Problem
blocked failure_class message = probe_failure (failure failure_class message) true

-- `f"{type(error).__name__}: {error}"`
abbrev pub described : Problem → String
described (probe_failure f b) = "ProbeFailure: " <> f.message
described (handshake_error s m) = "WebSocketHandshakeError: " <> m
described (unexpected name text) = name <> ": " <> text

abbrev redact : List String → String → String
redact [] value = value
redact (secret ∷ rest) value =
    let hidden = redact rest (replace secret "<redacted>" value) in
    let kept = redact rest value in if secret == "" then kept else hidden

unfoldable pub sanitize_error : List String → Problem → String
unfolding prefix replace
sanitize_error secrets e =
    prefix 1000 (replace "\n" " " (replace "\r" " " (redact secrets (described e))))

pub data Name : Type 0 where
  https_health : Name
  runtime_readiness : Name
  websocket_connect : Name
  websocket_auth : Name
  durable_command_commit : Name
  outbox_handoff : Name
  realtime_delivery : Name
  resume_gap_repair : Name
  worker_job : Name
  native_kernel : Name
  native_fallback : Name

unfoldable pub check_order : List Name
check_order =
    https_health ∷ runtime_readiness ∷ websocket_connect ∷ websocket_auth ∷ durable_command_commit
    ∷ outbox_handoff ∷ realtime_delivery ∷ resume_gap_repair ∷ worker_job ∷ native_kernel
    ∷ native_fallback ∷ []

unfoldable pub name_text : Name → String
name_text https_health = "https-health"
name_text runtime_readiness = "runtime-readiness"
name_text websocket_connect = "websocket-connect"
name_text websocket_auth = "websocket-auth"
name_text durable_command_commit = "durable-command-commit"
name_text outbox_handoff = "outbox-handoff"
name_text realtime_delivery = "realtime-delivery"
name_text resume_gap_repair = "resume-gap-repair"
name_text worker_job = "worker-job"
name_text native_kernel = "native-kernel"
name_text native_fallback = "native-fallback"

unfoldable pub check_owners : Name → String
check_owners https_health = "Senior 4"
check_owners runtime_readiness = "Senior 1"
check_owners websocket_connect = "Senior 1"
check_owners websocket_auth = "Senior 1"
check_owners durable_command_commit = "Senior 2"
check_owners outbox_handoff = "Senior 2"
check_owners realtime_delivery = "Senior 1"
check_owners resume_gap_repair = "Senior 1"
check_owners worker_job = "Senior 2"
check_owners native_kernel = "Senior 3"
check_owners native_fallback = "Senior 3"

-- The position in `check_order`, which tells two names apart.
abbrev pub index : Name → ℕ
index https_health = 0
index runtime_readiness = 1
index websocket_connect = 2
index websocket_auth = 3
index durable_command_commit = 4
index outbox_handoff = 5
index realtime_delivery = 6
index resume_gap_repair = 7
index worker_job = 8
index native_kernel = 9
index native_fallback = 10

pub data Status : Type 0 where
  passed_check : Status
  failed_check : Status
  blocked_check : Status

pub record Row : Type 0 where
  pub name : String
  pub owner : String
  pub status : Status
  pub duration_ms : ℤ
  pub evidence_ref : Option String
  pub failure_class : Option String

pub record Correctness : Type 0 where
  pub authorization_bypass : ℕ
  pub secret_exposure : ℕ
  pub duplicate_durable_identity : ℕ
  pub event_before_commit : ℕ
  pub durable_event_loss : ℕ

pub record Recorder : Type 0 where
  pub secrets : List String
  pub checks : Name → Row
  pub errors : List String
  pub correctness : Correctness

-- `Recorder(secrets)`
unfoldable pub new_recorder : List String → Recorder
unfolding name_text check_owners
new_recorder secrets = record {
  secrets = select (λ s. not (s == "")) secrets;
  checks = λ name. record {
    name = name_text name;
    owner = check_owners name;
    status = blocked_check;
    duration_ms = pos 0;
    evidence_ref = none;
    failure_class = some "not_executed";
  };
  errors = [];
  correctness = record {
    authorization_bypass = 0;
    secret_exposure = 0;
    duplicate_durable_identity = 0;
    event_before_commit = 0;
    durable_event_loss = 0;
  };
}

abbrev pub clamp : ℤ → ℤ
clamp d = if ltb_ℤ d (pos 0) then pos 0 else if ltb_ℤ (pos 600000) d then pos 600000 else d

abbrev pub with_row : Name → Row → (Name → Row) → Name → Row
with_row name row checks n = if nat_beq (index n) (index name) then row else checks n

unfoldable pub set : Name → Status → ℤ → Option String → Option String → Recorder → Recorder
unfolding name_text check_owners
set name status duration evidence_ref failure_class r = record r {
  checks =
      with_row name
        (record {
          name = name_text name;
          owner = check_owners name;
          status = status;
          duration_ms = clamp duration;
          evidence_ref = evidence_ref;
          failure_class = failure_class;
        })
        r.checks;
}

abbrev not_executed : Option String → Bool
not_executed (some c) = c == "not_executed"
not_executed none = false

unfoldable pub block_remaining : List Name → String → Recorder → Recorder
unfolding set
block_remaining [] failure_class r = r
block_remaining (name ∷ names) failure_class r =
    let skipped = block_remaining names failure_class r in
    let marked =
      block_remaining names failure_class
        (set name blocked_check (pos 0) none (some failure_class) r) in
    if not_executed (r.checks name).failure_class then marked else skipped

-- `Recorder.inspect_secrets` on a text; `true` is where it raises.
unfoldable pub inspect_secrets : String → Recorder → Bool × Recorder
inspect_secrets text r =
    if any (λ secret. occurs secret text) r.secrets
    then (
      true,
      record r {
        correctness = record r.correctness { secret_exposure = suc r.correctness.secret_exposure };
      },
    )
    else (false, r)

abbrev pub is_failed : Status → Bool
is_failed failed_check = true
is_failed _ = false

abbrev pub is_blocked : Status → Bool
is_blocked blocked_check = true
is_blocked _ = false

abbrev pub has_events : Correctness → Bool
has_events c =
    ltb 0 c.authorization_bypass
    || ltb 0 c.secret_exposure
    || ltb 0 c.duplicate_durable_identity
    || ltb 0 c.event_before_commit
    || ltb 0 c.durable_event_loss

unfoldable pub ordered_checks : Recorder → List Row
unfolding check_order
ordered_checks r = map r.checks check_order

-- `Recorder.status`
unfoldable pub status_of : Recorder → Status
unfolding ordered_checks
status_of r =
    if has_events r.correctness
    then failed_check
    else if any (λ (row : Row). is_failed row.status) (ordered_checks r)
    then failed_check
    else if any (λ (row : Row). is_blocked row.status) (ordered_checks r)
    then blocked_check
    else passed_check

-- The row that `Recorder.run` writes when the step raises.
unfoldable pub record_failure : Name → String → ℤ → Problem → Recorder → Recorder
unfolding set sanitize_error
record_failure name evidence_ref elapsed e r =
    let (status, failure_class) = problem_row e in
    let r' = set name status elapsed (some evidence_ref) (some failure_class) r in
    record r' { errors = r.errors ++ sanitize_error r.secrets e ∷ [] }
  where
    problem_row : Problem → Status × String
    problem_row (probe_failure f b) = (if b then blocked_check else failed_check, f.failure_class)
    problem_row (handshake_error s m) = (failed_check, "websocket_handshake_rejected")
    problem_row (unexpected name text) = (failed_check, "unexpected_probe_error")

-- What `Recorder.run` raises in place of what the step raised.
abbrev pub raised_by_run : Problem → Problem
raised_by_run (unexpected name text) = failed "unexpected_probe_error" "unexpected probe exception"
raised_by_run e = e
