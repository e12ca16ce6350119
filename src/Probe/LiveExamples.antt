-- ===== src/Probe/LiveExamples.antt =====
-- A run of platform_probe.py against a server that answers as it should.
use liqi_platform.Prelude.{ℕ, zero, suc, String, true, none, some, Option, List, [], ◌∷◌, refl, ok}
use liqi_platform.Prelude.Int.{pos}
use liqi_platform.Prelude.Json.{object, json_eq, Json, bool, int, str, int_of}
use liqi_platform.Probe.Phoenix.{Arrival, received}
use liqi_platform.Probe.Session.{Env, Exchange, answered, Opening, connected}
use liqi_platform.Probe.Live.{Evidence, main}
use liqi_platform.Probe.Recorder.{
  sanitize_error, check_order, name_text, check_owners, new_recorder, set, block_remaining,
  inspect_secrets, ordered_checks, status_of, record_failure,
}
use liqi_platform.Probe.Phoenix.{
  pop_first, wait_loop, wait_message, wait_reply, wait_event, new_ref, send_json, ask, join, push,
}
use liqi_platform.Probe.Session.{
  ◌>>=◌, inspect, run, exchange_step, request, json, require_status, post_probe, poll,
  wait_for_terminal,
}
use liqi_platform.Probe.Handshake.{
  before_end, read_headers, parse_lines, header, new_channel, accepts, parse_reply, handshake,
  opening_step, connect,
}
use liqi_platform.Probe.Steps.{
  on_channel, carries, readiness_step, unauthorized_step, connect_step, command_step, delivery_step,
  resume_step, fallback_ok, native_fallback_step, kernel_available, native_kernel_step,
}
use liqi_platform.Probe.Live.{
  health, delivery, acknowledge, worker, second_command, kernel, first_command, resumption,
  all_but_kernel, run_live_probe, emit_result, after_run,
}
use liqi_platform.Prelude.Texts.{
  prefix, suffix, left_strip, right_strip, strip, replace_from, replace, cut, split_from, split,
  lower,
}
use liqi_platform.Probe.Demonstrated.{Demonstrated, main-Demonstrated}
use liqi_platform.Probe.Switched.{IsAnswered, connect-IsAnswered}
use liqi_platform.Probe.Live.{start}
use liqi_platform.Probe.Proven.{Completed, main-Completed}

abbrev terminal_doc : Json
terminal_doc =
    object (
      ("terminal", bool true)
      ∷ ("effectApplied", bool true)
      ∷ ("outboxState", str "succeeded")
      ∷ [])

abbrev kernel_doc : Json
kernel_doc = object (
    ("parity", bool true)
    ∷ ("configured", object (("result", int (pos 5)) ∷ ("implementation", str "native") ∷ []))
    ∷ ("reference", object (("result", int (pos 5)) ∷ []))
    ∷ (
      "fallbackExercise",
      object (
          ("result", int (pos 5))
          ∷ ("parity", bool true)
          ∷ ("implementation", str "reference")
          ∷ ("fallback", bool true)
          ∷ ("fallbackReason", str "NATIVE_UNAVAILABLE")
          ∷ []),
    )
    ∷ ("readiness", object (("nativeAvailable", bool true) ∷ []))
    ∷ [])

-- The bodies of the answers, by their only byte.
abbrev bodies : ℕ → Json
bodies zero = object (("status", str "live") ∷ ("releaseId", str "r") ∷ [])
bodies (suc zero) =
    object
      (("releaseId", str "r") ∷ ("sourceRevision", str "sha") ∷ ("environment", str "staging") ∷ [])
bodies (suc (suc zero)) = object (("releaseId", str "r") ∷ ("status", str "ready") ∷ [])
bodies (suc (suc (suc zero))) =
    object (("probeId", str "p1") ∷ ("status", str "accepted") ∷ ("eventId", str "e1") ∷ [])
bodies (suc (suc (suc (suc zero)))) = terminal_doc
bodies (suc (suc (suc (suc (suc zero))))) = object (("eventId", str "e2") ∷ [])
bodies _ = kernel_doc

abbrev parse : List ℕ → Option Json
parse (n ∷ []) = some (bodies n)
parse _ = none

abbrev py_str : Json → String
py_str (str s) = s
py_str _ = "?"

abbrev show : ℕ → String
show zero = "0"
show (suc zero) = "1"
show (suc (suc zero)) = "2"
show _ = "3"

-- The server's handshakes: the first refuses, the others accept.
abbrev latin1 : List ℕ → String
latin1 (zero ∷ []) = "HTTP/1.1 401 Unauthorized"
latin1 _ =
    "HTTP/1.1 101 Switching\r\nUpgrade: websocket\r\nConnection: keep-alive, Upgrade\r\nSec-WebSocket-Accept: key"

abbrev env : Env
env = record {
  base_url = "https://h";
  release_id = "r";
  token = "secret";
  environment = "staging";
  source_sha = "sha";
  session_id = "s";
  device_id = "d";
  first_probe = "p1";
  second_probe = "p2";
  request_id = λ n. "id";
  elapsed = λ n. pos 7;
  polls = λ id. 1;
  show = show;
  py_str = py_str;
  parse = parse;
  urlencode = λ s. s;
  decode = λ b. "";
  latin1 = latin1;
}

abbrev answer : ℕ → ℕ → Exchange
answer status body = answered true status "" (body ∷ [])

abbrev exchanges : List Exchange
exchanges =
    answer 200 0
    ∷ answer 200 1
    ∷ answer 200 2
    ∷ answer 401 0
    ∷ answer 202 3
    ∷ answer 202 3
    ∷ answer 200 5
    ∷ answer 200 4
    ∷ answer 202 5
    ∷ answer 200 4
    ∷ answer 200 6
    ∷ []

abbrev frame : String → String → Json → Arrival
frame ref event payload = received (
    ok (record {
      join_ref = str "1";
      ref = str ref;
      topic = str "platform:v1";
      event = str event;
      payload = payload;
    }))

abbrev reply : String → List (String × Json) → Arrival
reply ref response =
    frame ref "phx_reply" (object (("status", str "ok") ∷ ("response", object response) ∷ []))

abbrev event_frame : String → ℕ → Arrival
event_frame id sequence = frame "" "frame" (
    object (
      ("kind", str "event")
      ∷ (
        "payload",
        object (
            ("sequence", int (pos sequence))
            ∷ (
              "event",
              object (("eventId", str id) ∷ ("eventType", str "platform.probe.requested.v1") ∷ []),
            )
            ∷ []),
      )
      ∷ []))

abbrev opening : ℕ → List Arrival → Opening
opening n frames = connected "key" ((n ∷ 13 ∷ 10 ∷ []) ∷ (13 ∷ 10 ∷ []) ∷ []) (ok tt) frames

abbrev openings : List Opening
openings =
    opening 0 []
    ∷ opening 1 (
        reply "1" (("protocolVersion", str "1") ∷ ("resumeCursor", int (pos 0)) ∷ [])
        ∷ event_frame "e1" 4
        ∷ reply "2" (("cursor", int (pos 4)) ∷ ("resume_token", str "t") ∷ [])
        ∷ [])
    ∷ opening 1 (
        reply "1" (("repair", object (("cursor", int (pos 6)) ∷ [])) ∷ [])
        ∷ event_frame "e2" 6
        ∷ reply "2" []
        ∷ [])
    ∷ []

abbrev written : Evidence
written = (main env (ok "secret") exchanges openings).0

main-Completed_example : Completed env (ok "secret") exchanges openings written
unfolding sanitize_error check_order name_text check_owners new_recorder set block_remaining
    inspect_secrets ordered_checks status_of record_failure pop_first wait_loop wait_message
    wait_reply wait_event new_ref send_json ask join push ◌>>=◌ inspect run exchange_step request
    json require_status post_probe poll wait_for_terminal before_end read_headers parse_lines header
    new_channel accepts parse_reply handshake opening_step connect on_channel carries readiness_step
    unauthorized_step connect_step command_step delivery_step resume_step fallback_ok
    native_fallback_step kernel_available native_kernel_step health delivery acknowledge worker
    second_command kernel first_command resumption all_but_kernel run_live_probe emit_result
    after_run main prefix suffix left_strip right_strip strip replace_from replace cut split_from
    split lower int_of json_eq
main-Completed_example = main-Completed env (ok "secret") exchanges openings written refl

main-Demonstrated_example : Demonstrated env exchanges openings written
unfolding sanitize_error check_order name_text check_owners new_recorder set block_remaining
    inspect_secrets ordered_checks status_of record_failure pop_first wait_loop wait_message
    wait_reply wait_event new_ref send_json ask join push ◌>>=◌ inspect run exchange_step request
    json require_status post_probe poll wait_for_terminal before_end read_headers parse_lines header
    new_channel accepts parse_reply handshake opening_step connect on_channel carries readiness_step
    unauthorized_step connect_step command_step delivery_step resume_step fallback_ok
    native_fallback_step kernel_available native_kernel_step health delivery acknowledge worker
    second_command kernel first_command resumption all_but_kernel run_live_probe emit_result
    after_run main prefix suffix left_strip right_strip strip replace_from replace cut split_from
    split lower int_of json_eq
main-Demonstrated_example = main-Demonstrated env "secret" exchanges openings written refl

abbrev one_opening : List Opening
one_opening = opening 1 [] ∷ []

connect-IsAnswered_example : IsAnswered env one_opening (new_channel (ok tt) [])
unfolding connect opening_step handshake read_headers before_end ◌>>=◌ inspect inspect_secrets
    parse_reply parse_lines split_from split cut lower strip left_strip right_strip int_of suffix
    accepts header new_channel new_recorder name_text check_owners
connect-IsAnswered_example =
    connect-IsAnswered env (some "secret") (start "secret" [] one_opening) refl
