-- ===== src/Probe/Session.antt =====
-- The state of a run of platform_probe.py, and its HTTPS client: `HttpClient.request`,
-- `HttpResponse.json`, `require_status`, `post_probe` and `wait_for_terminal`. What the server
-- answers stands in lists, one item a call; past the end of the list it is unreachable.
use liqi_platform.Prelude.{
  ℕ, zero, suc, String, ◌<>◌, Bool, true, false, Option, none, some, List, [], ◌∷◌, ltb, ◌==◌,
  nat_eq, length, if◌then◌else◌, Result, ok, err,
}
use liqi_platform.Prelude.Int.{ℤ}
use liqi_platform.Prelude.Json.{Json, str, obj, end, field, lookup, get, is_true, truthy, type_name}
use liqi_platform.Probe.Recorder.{
  Problem, probe_failure, unexpected, failed, Name, passed_check, Recorder, set, inspect_secrets,
  record_failure, raised_by_run,
}
use liqi_platform.Probe.Socket.{failure}
use liqi_platform.Probe.Phoenix.{Arrival}

-- What `opener.open` meets: no connection, an exception of another kind, or a response with its
-- status, its headers as `inspect_secrets` reads them, and its body.
pub data Exchange : Type 0 where
  unreachable : Exchange
  broken : String → String → Exchange
  answered : (http_error : Bool) → ℕ → String → List ℕ → Exchange

-- What a new connection meets: no TCP connection, no TLS, or a server, with the
-- `Sec-WebSocket-Accept` that the key asks for, the chunks of its handshake, what a send ends in and
-- the frames that follow.
pub data Opening : Type 0 where
  refused : Opening
  no_tls : Opening
  connected : (accept : String) → List (List ℕ) → Result Problem (Unit {0}) → List Arrival → Opening

pub record Request : Type 0 where
  pub method : String
  pub path : String
  pub headers : List (String × String)
  pub body : Option Json

-- What the probe does, newest first.
pub data Event : Type 0 where
  requested : Request → Event
  opened : (auth_token : Option String) → Event
  closed : Event

pub record Live : Type 0 where
  pub recorder : Recorder
  pub exchanges : List Exchange
  pub openings : List Opening
  pub trace : List Event

-- The command's arguments, the environment, what is random, and Python's own functions.
pub record Env : Type 0 where
  pub base_url : String
  pub release_id : String
  pub token : String
  pub environment : String
  pub source_sha : String
  pub session_id : String
  pub device_id : String
  pub first_probe : String
  pub second_probe : String
  pub request_id : ℕ → String
  -- what a step's clock shows, and how often `wait_for_terminal` asks again for a probe
  pub elapsed : Name → ℤ
  pub polls : String → ℕ
  -- `str` of a number and of a JSON value, `json.loads` of bytes that are UTF-8, `urlencode`, and
  -- the two decodings, of UTF-8 without what is none and of Latin-1
  pub show : ℕ → String
  pub py_str : Json → String
  pub parse : List ℕ → Option Json
  pub urlencode : String → String
  pub decode : List ℕ → String
  pub latin1 : List ℕ → String

abbrev pub Run : Type 0 → Type 0
Run A = Live → Result Problem A × Live

module _ {A B : Type 0} where
  abbrev pub proceed : Result Problem A → (A → Run B) → Run B
  proceed (ok a) f l = f a l
  proceed (err e) f l = (err e, l)

  infixl 5 ◌>>=◌ ◌>>◌
  unfoldable pub ◌>>=◌ : Run A → (A → Run B) → Run B
  ◌>>=◌ m f l = let (r, l') = m l in proceed r f l'

  abbrev pub ◌>>◌ : Run A → Run B → Run B
  m >> n = m >>= λ _. n

module _ {A : Type 0} where
  abbrev pub pure : A → Run A
  pure a l = (ok a, l)

  abbrev pub raise : Problem → Run A
  raise e l = (err e, l)

  abbrev pub from_result : Result Problem A → Run A
  from_result r l = (r, l)

abbrev pub raise_unless : Bool → Problem → Run (Unit {0})
raise_unless true e = pure tt
raise_unless false e = raise e

abbrev pub update : (Recorder → Recorder) → Run (Unit {0})
update f l = (ok tt, record l { recorder = f l.recorder })

abbrev pub emit : Event → Run (Unit {0})
emit e l = (ok tt, record l { trace = e ∷ l.trace })

abbrev secret_exposure : Problem
secret_exposure = failed "secret_exposure" "live response reflected protected probe material"

-- `Recorder.inspect_secrets`
unfoldable pub inspect : String → Run (Unit {0})
inspect text l =
    let (found, recorder) = inspect_secrets text l.recorder in
    let l' : Live = record l { recorder = recorder } in
    if found then (err secret_exposure, l') else (ok tt, l')

abbrev attribute_error : Json → Problem
attribute_error v =
    unexpected "AttributeError" ("'" <> type_name v <> "' object has no attribute 'get'")

abbrev pub type_error : Json → Problem
type_error v =
    unexpected "TypeError"
      ("'<=' not supported between instances of '" <> type_name v <> "' and 'int'")

-- `value.get(key)`
abbrev pub member : String → Json → Result Problem (Option Json)
member k (obj fs) = ok (lookup k fs)
member k v = err (attribute_error v)

abbrev or_empty : Option Json → Json
or_empty (some v) = v
or_empty none = obj end

-- `document.get(key, {})` of a dictionary.
abbrev pub part : String → Json → Json
part k v = or_empty (get k v)

abbrev pub finish_step :
    {A : Type 0} → Name → String → ℤ → Result Problem A × Live → Result Problem A × Live
finish_step name evidence_ref elapsed (ok v, l) = (
  ok v,
  record l { recorder = set name passed_check elapsed (some evidence_ref) none l.recorder },
)
finish_step name evidence_ref elapsed (err e, l) = (
  err (raised_by_run e),
  record l { recorder = record_failure name evidence_ref elapsed e l.recorder },
)

pub record Response : Type 0 where
  pub status : ℕ
  pub body : List ℕ

abbrev pub max_http_body : ℕ
max_http_body = 1048576

module _ (env : Env) where
  -- `Recorder.run`
  unfoldable pub run : {A : Type 0} → Name → String → Run A → Run A
  run name evidence_ref step l = finish_step name evidence_ref (env.elapsed name) (step l)

  abbrev too_large : Bool → Problem
  too_large http_error = failed "http_body_too_large" (
      if http_error
      then "endpoint error response exceeded 1 MiB"
      else "endpoint response exceeded 1 MiB")

  -- The response that came, or the exception in its place. A body over the bound is refused unread.
  unfoldable pub exchange_step : Exchange → Run Response
  exchange_step unreachable = raise (failed "https_unreachable" "HTTPS endpoint is unreachable")
  exchange_step (broken name text) = raise (unexpected name text)
  exchange_step (answered http_error status headers body) = do
    raise_unless (if ltb max_http_body (length body) then false else true) (too_large http_error)
    inspect (env.decode body)
    inspect headers
    pure (record { status = status; body = body })

  -- The request is made, and takes the next exchange.
  abbrev pub next_exchange : Request → List Exchange → Run Response
  next_exchange r [] l = exchange_step unreachable (record l { trace = requested r ∷ l.trace })
  next_exchange r (x ∷ rest) l =
      exchange_step x (record l { exchanges = rest; trace = requested r ∷ l.trace })

  -- `HttpClient.request`
  unfoldable pub request : Request → Run Response
  request r l = next_exchange r l.exchanges l

  -- `HttpResponse.json`
  unfoldable pub json : Response → Result Problem Json
  json response = elim (env.parse response.body) [
    | none ↦ err (failed "invalid_json_response" "endpoint returned invalid JSON")
    | some (obj fs) ↦ ok (obj fs)
    | _ ↦ err (failed "invalid_json_response" "endpoint JSON must be an object")
  ]

  abbrev with_code : Option Json → String
  with_code (some v) = if truthy (some v) then " (" <> env.py_str v <> ")" else ""
  with_code none = ""

  -- The text after the status: the error's code, if the body tells it; `none` where `.get` raises.
  abbrev code_text : Result Problem Json → Result Problem String
  code_text (err e) = ok ""
  code_text (ok document) = elim (member "code" (part "error" document)) [
    | ok code ↦ ok (with_code code)
    | err e ↦ err e
  ]

  abbrev status_problem : ℕ → Response → String → Result Problem String → Problem
  status_problem expected response failure_class (err e) = e
  status_problem expected response failure_class (ok code) =
      probe_failure
        (failure failure_class (
          "expected HTTP "
          <> env.show expected
          <> ", received "
          <> env.show response.status
          <> code))
        (response.status == 503)

  unfoldable pub require_status : Response → ℕ → String → Result Problem Json
  require_status response expected failure_class =
      if response.status == expected
      then json response
      else err (status_problem expected response failure_class (code_text (json response)))

  abbrev pub call : String → String → List (String × String) → Option Json → ℕ → String → Run Json
  call method path headers body expected failure_class = do
    response ← request (record { method = method; path = path; headers = headers; body = body })
    from_result (require_status response expected failure_class)

  unfoldable pub post_probe : String → String → Run Json
  post_probe probe_id idempotency_key l =
      call "POST" "/platform/v1/probes"
        (("x-liqi-probe-token", env.token)
          ∷ ("idempotency-key", idempotency_key)
          ∷ ("x-request-id", env.request_id (length l.trace))
          ∷ ("x-liqi-deadline-ms", "5000")
          ∷ [])
        (some (obj (field "clientProbeId" (str probe_id) end))) 202 "durable_command_unavailable" l

  abbrev observe : String → String → Run Json
  observe probe_id event_id =
      call "GET" ("/platform/v1/probes/" <> probe_id <> "?eventId=" <> env.urlencode event_id)
        (("x-liqi-probe-token", env.token) ∷ []) none 200 "probe_observation_unavailable"

  -- One more poll after each that the deadline leaves.
  unfoldable pub poll : ℕ → String → String → Run Json
  poll zero probe_id event_id = do
    document ← observe probe_id event_id
    raise_unless (is_true (get "terminal" document))
        (failed "worker_terminal_timeout" "probe did not reach terminal effect within 20 seconds")
    pure document
  poll (suc n) probe_id event_id = do
    document ← observe probe_id event_id
    if is_true (get "terminal" document) then pure document else poll n probe_id event_id

  unfoldable pub wait_for_terminal : String → String → Run Json
  wait_for_terminal probe_id = poll (env.polls probe_id) probe_id
