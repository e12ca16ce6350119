-- ===== src/Probe/Handshake.antt =====
-- `WebSocket.connect` of platform_probe.py: the handshake that opens a connection. TCP and TLS are
-- the openings of the run's state; the request's text and its sending are left out. What the server
-- sends after its headers is among the frames of the opening.
use mathlib.Core.Option
use liqi_platform.Prelude.{
  ℕ, String, Bool, true, false, not, ◌&&◌, ◌<>◌, Option, none, some, List, [], ◌∷◌, ◌++◌, ltb, ◌==◌,
  nat_eq, string_eq, any, length, is_empty, if◌then◌else◌, Result, ok, err,
}
use liqi_platform.Prelude.Int.{ℤ, pos, beq_ℤ}
use liqi_platform.Prelude.Texts.{split, cut, strip, lower}
use liqi_platform.Prelude.Json.{str, int, int_of}
use liqi_platform.Probe.Recorder.{Problem, handshake_error, blocked}
use liqi_platform.Probe.Phoenix.{Channel, Arrival}
use liqi_platform.Probe.Session.{
  Env, Run, Opening, refused, no_tls, connected, opened, ◌>>=◌, ◌>>◌, pure, raise, inspect,
  from_result,
}

abbrev starts_end : List ℕ → Bool
starts_end (a ∷ b ∷ c ∷ d ∷ bs) = a == 13 && b == 10 && c == 13 && d == 10
starts_end _ = false

-- `response.split(b"\r\n\r\n", 1)[0]`, where the separator is there.
unfoldable pub before_end : List ℕ → Option (List ℕ)
before_end [] = none
before_end (b ∷ bs) =
    let later = Option.map (λ head. b ∷ head) (before_end bs) in
    if starts_end (b ∷ bs) then some [] else later

-- `b"\r\n\r\n" in response`
abbrev pub is_complete : List ℕ → Bool
is_complete response = elim (before_end response) [ some head ↦ true | none ↦ false ]

abbrev no_status : String → Problem
no_status = handshake_error none

abbrev pub max_handshake : ℕ
max_handshake = 32768

-- The loop that reads the headers, over the chunks that `recv` returns; at their end it returns none.
unfoldable pub read_headers : List ℕ → List (List ℕ) → Result Problem (List ℕ)
read_headers response [] =
    if is_complete response
    then ok response
    else if ltb max_handshake (length response)
    then err (no_status "WebSocket handshake headers exceeded 32 KiB")
    else err (no_status "WebSocket handshake closed early")
read_headers response (chunk ∷ rest) =
    let more = read_headers (response ++ chunk) rest in
    if is_complete response
    then ok response
    else if ltb max_handshake (length response)
    then err (no_status "WebSocket handshake headers exceeded 32 KiB")
    else if is_empty chunk
    then err (no_status "WebSocket handshake closed early")
    else more

-- `line.split(" ", 2)[1]`
abbrev second_word : String → Option String
second_word line = elim (cut " " line) [
  | none ↦ none
  | some r ↦ elim (cut " " r.1) [ none ↦ some r.1 | some s ↦ some s.0 ]
]

abbrev status_code : Option String → Option ℤ
status_code (some word) = int_of (some (str word))
status_code none = none

-- The dictionary of the headers, the last line first; `none` where a line has no colon.
abbrev header_fields : List (String × String) → List String → Option (List (String × String))
header_fields fields [] = some fields
header_fields fields (line ∷ rest) = elim (cut ":" line) [
  | none ↦ none
  | some r ↦ header_fields ((lower (strip r.0), strip r.1) ∷ fields) rest
]

pub record Reply : Type 0 where
  pub status : ℤ
  pub headers : List (String × String)

unfoldable pub parse_lines : List String → Option Reply
parse_lines [] = none
parse_lines (first ∷ rest) = elim (status_code (second_word first)) [
  | none ↦ none
  | some status ↦ elim (header_fields [] rest) [
    | none ↦ none
    | some headers ↦ some (record { status = status; headers = headers })
  ]
]

-- `response_headers.get(name, "")`
unfoldable pub header : String → List (String × String) → String
header name [] = ""
header name (h ∷ hs) = let rest = header name hs in if h.0 == name then h.1 else rest

abbrev refusal : Reply → String → Problem
refusal reply = handshake_error (some reply.status)

unfoldable pub new_channel : Result Problem (Unit {0}) → List Arrival → Channel
new_channel sending incoming = record {
  topic = "platform:v1";
  join_ref = "1";
  next_ref = 1;
  pending = [];
  incoming = incoming;
  sending = sending;
  sent = [];
}

module _ (env : Env) where
  -- The four checks of the server's answer, against the accept value that the key asks for.
  unfoldable pub accepts : String → Reply → Result Problem (Unit {0})
  accepts accept reply =
      if not (beq_ℤ reply.status (pos 101))
      then err
          (refusal reply ("WebSocket handshake returned HTTP " <> env.py_str (int reply.status)))
      else if not (header "sec-websocket-accept" reply.headers == accept)
      then err (refusal reply "invalid Sec-WebSocket-Accept")
      else if not (lower (header "upgrade" reply.headers) == "websocket")
      then err (refusal reply "missing WebSocket upgrade response")
      else if not (
          any (λ item. lower (strip item) == "upgrade")
            (split "," (header "connection" reply.headers)))
      then err (refusal reply "missing Connection: Upgrade response")
      else ok tt

  unfoldable pub parse_reply : List ℕ → Result Problem Reply
  parse_reply response = elim (before_end response) [
    | none ↦ err (no_status "invalid WebSocket handshake response")
    | some head ↦ elim (parse_lines (split "\r\n" (env.latin1 head))) [
      | none ↦ err (no_status "invalid WebSocket handshake response")
      | some reply ↦ ok reply
    ]
  ]

  -- The handshake with the server, after TLS.
  unfoldable pub handshake :
      String → List (List ℕ) → Result Problem (Unit {0}) → List Arrival → Run Channel
  handshake accept chunks sending incoming = do
    response ← from_result (read_headers [] chunks)
    inspect (env.decode response)
    reply ← from_result (parse_reply response)
    done ← from_result (accepts accept reply)
    pure (new_channel sending incoming)

  unfoldable pub opening_step : Opening → Run Channel
  opening_step refused = raise (blocked "websocket_unreachable" "WebSocket endpoint is unreachable")
  opening_step no_tls = raise (blocked "websocket_tls_failed" "WebSocket TLS handshake failed")
  opening_step (connected accept chunks sending incoming) = handshake accept chunks sending incoming

  -- The connection is opened, and takes the next opening.
  abbrev pub next_opening : Option String → List Opening → Run Channel
  next_opening auth_token [] l =
      opening_step refused (record l { trace = opened auth_token ∷ l.trace })
  next_opening auth_token (x ∷ rest) l =
      opening_step x (record l { openings = rest; trace = opened auth_token ∷ l.trace })

  -- `WebSocket.connect`, and the channel of `PhoenixChannel` on it.
  unfoldable pub connect : Option String → Run Channel
  connect auth_token l = next_opening auth_token l.openings l
