-- ===== src/Probe/Phoenix.antt =====
-- `PhoenixChannel` and `recv_json` of platform_probe.py. What each `recv_json` will return stands in a
-- list, as the server's frames do in Probe/Socket; past its end every wait reaches the deadline.
use liqi_platform.Prelude.{
  ℕ, suc, String, ◌<>◌, Bool, true, false, ◌&&◌, Option, none, some, List, [], ◌∷◌, ◌++◌, ltb,
  length, if◌then◌else◌, Result, ok, err,
}
use liqi_platform.Prelude.Json.{Json, str, arr, obj, nil, cons, end, get, is_text}
use liqi_platform.Probe.Recorder.{Problem, failed}

-- The five elements of a Phoenix frame.
pub record PhoenixFrame : Type 0 where
  pub join_ref : Json
  pub ref : Json
  pub topic : Json
  pub event : Json
  pub payload : Json

-- `recv_json`, from the text of the frame; `json.loads` is a parameter.
unfoldable pub frame_of : Json → Result Problem PhoenixFrame
frame_of (arr (cons a (cons b (cons c (cons d (cons e nil)))))) =
    ok (record { join_ref = a; ref = b; topic = c; event = d; payload = e })
frame_of _ = err (failed "invalid_phoenix_frame" "Phoenix frame must be a five-element array")

unfoldable pub recv_json : (String → Option Json) → String → Result Problem PhoenixFrame
unfolding frame_of
recv_json parse text = elim (parse text) [
  | none ↦ err (failed "invalid_websocket_json" "WebSocket frame contained invalid JSON")
  | some value ↦ frame_of value
]

-- What one turn of the loop of `_wait_message` meets: the deadline is past, or `recv_json` ends.
pub data Arrival : Type 0 where
  expired : Arrival
  received : Result Problem PhoenixFrame → Arrival

pub record Channel : Type 0 where
  pub topic : String
  pub join_ref : String
  pub next_ref : ℕ
  pub pending : List PhoenixFrame
  pub incoming : List Arrival
  -- what a send on this connection ends in
  pub sending : Result Problem (Unit {0})
  -- the frames of `send_json`, newest first
  pub sent : List Json

abbrev pub Step : Type 0 → Type 0
Step A = Channel → Result Problem A × Channel

module _ {A B : Type 0} where
  abbrev pub continue : Result Problem A → (A → Step B) → Step B
  continue (ok a) f c = f a c
  continue (err e) f c = (err e, c)

  infixl 5 ◌>>=◌
  abbrev pub ◌>>=◌ : Step A → (A → Step B) → Step B
  ◌>>=◌ m f c = let (r, c') = m c in continue r f c'

-- A predicate on frames, which may raise.
abbrev pub Test : Type 0
Test = PhoenixFrame → Result Problem Bool

abbrev pub deadline_problem : Problem
deadline_problem = failed "phoenix_timeout" "Phoenix channel step exceeded its deadline"

abbrev pub overflow_problem : Problem
overflow_problem = failed "phoenix_pending_overflow" "Phoenix pending frame buffer exceeded 256"

-- The search of the frames put aside: `self.pending.pop(index)` of the first that satisfies the
-- predicate, if there is one.
pub data Search : Type 0 where
  found : PhoenixFrame → List PhoenixFrame → Search
  absent : Search
  broken : Problem → Search

abbrev pub past : PhoenixFrame → Search → Search
past m (found x rest) = found x (m ∷ rest)
past m s = s

abbrev pub search_step : Result Problem Bool → PhoenixFrame → List PhoenixFrame → Search → Search
search_step (ok true) m ms later = found m ms
search_step (ok false) m ms later = past m later
search_step (err e) m ms later = broken e

unfoldable pub pop_first : Test → List PhoenixFrame → Search
pop_first p [] = absent
pop_first p (m ∷ ms) = search_step (p m) m ms (pop_first p ms)

abbrev pub Waited : Type 0
Waited = Result Problem PhoenixFrame × List PhoenixFrame × List Arrival

-- What follows the arrival of a frame: `more` is the rest of the loop.
abbrev pub wait_step :
    Result Problem Bool → PhoenixFrame → List PhoenixFrame → List Arrival → Waited → Waited
wait_step (ok true) m pending rest more = (ok m, pending, rest)
wait_step (ok false) m pending rest more =
    if ltb 256 (length (pending ++ m ∷ []))
    then (err overflow_problem, pending ++ m ∷ [], rest)
    else more
wait_step (err e) m pending rest more = (err e, pending, rest)

-- The loop over what arrives, with the frames put aside so far.
unfoldable pub wait_loop : Test → List PhoenixFrame → List Arrival → Waited
wait_loop p pending [] = (err deadline_problem, pending, [])
wait_loop p pending (expired ∷ rest) = (err deadline_problem, pending, rest)
wait_loop p pending (received (err e) ∷ rest) = (err e, pending, rest)
wait_loop p pending (received (ok m) ∷ rest) =
    wait_step (p m) m pending rest (wait_loop p (pending ++ m ∷ []) rest)

abbrev pub after_search : Test → Channel → Search → Waited
after_search p c (found m rest) = (ok m, rest, c.incoming)
after_search p c absent = wait_loop p c.pending c.incoming
after_search p c (broken e) = (err e, c.pending, c.incoming)

unfoldable pub wait_message : Test → Step PhoenixFrame
unfolding pop_first wait_loop
wait_message p c =
    let (r, pending, incoming) = after_search p c (pop_first p c.pending) in
    (r, record c { pending = pending; incoming = incoming })

abbrev pub is_reply : String → String → Test
is_reply topic ref m =
    ok (
      is_text ref (some m.ref)
      && is_text topic (some m.topic)
      && is_text "phx_reply" (some m.event))

abbrev pub object_or : Problem → Json → Step Json
object_or e (obj fs) c = (ok (obj fs), c)
object_or e _ c = (err e, c)

unfoldable pub wait_reply : String → Step Json
unfolding wait_message
wait_reply ref c =
    (do
      message ← wait_message (is_reply c.topic ref)
      object_or (failed "invalid_phoenix_reply" "Phoenix reply payload must be an object")
          message.payload)
      c

abbrev on_object : (Json → Result Problem Bool) → Json → Result Problem Bool
on_object predicate (obj fs) = predicate (obj fs)
on_object predicate _ = ok false

abbrev pub is_event : String → String → (Json → Result Problem Bool) → Test
is_event topic event predicate m =
    let decided = on_object predicate m.payload in
    if is_text topic (some m.topic) && is_text event (some m.event) then decided else ok false

-- `message[4]` of the first event with this name and a payload that satisfies the predicate.
unfoldable pub wait_event : String → (Json → Result Problem Bool) → Step Json
unfolding wait_message
wait_event event predicate c =
    (do message ← wait_message (is_event c.topic event predicate); λ c'. (ok message.payload, c')) c

-- `f"{reply.get('status')}"`
abbrev shown_status : (Json → String) → Option Json → String
shown_status py_str (some v) = py_str v
shown_status py_str none = "None"

-- `str` of a number and of a JSON value.
module _ (show : ℕ → String) (py_str : Json → String) where
  -- `_new_ref`
  unfoldable pub new_ref : Step String
  new_ref c = (ok (show c.next_ref), record c { next_ref = suc c.next_ref })

  abbrev pub request : Channel → String → String → Json → Json
  request c ref event payload = arr (
      cons (str c.join_ref)
        (cons (str ref) (cons (str c.topic) (cons (str event) (cons payload nil)))))

  -- `send_json`, which fails as `send_frame` does.
  unfoldable pub send_json : Json → Step (Unit {0})
  send_json frame c = elim c.sending [
    | ok u ↦ (ok u, record c { sent = frame ∷ c.sent })
    | err e ↦ (err e, c)
  ]

  -- The common part of `join` and `push`: send under a new reference, and wait for its reply.
  unfoldable pub ask : String → Json → Step Json
  ask event payload = do
    ref ← new_ref
    done ← (λ c. send_json (request c ref event payload) c)
    wait_reply ref

  abbrev pub accepted : String → String → Json → (Json → Step Json) → Step Json
  accepted problem text reply next c =
      if is_text "ok" (get "status" reply)
      then next reply c
      else (err (failed problem (text <> shown_status py_str (get "status" reply))), c)

  unfoldable pub join : Json → Step Json
  join payload = do
    reply ← ask "phx_join" payload
    accepted "phoenix_join_rejected" "Phoenix join rejected: " reply λ reply.
        elim (get "response" reply) [
          | some (obj fs) ↦ λ c. (ok (obj fs), c)
          | _ ↦ λ c.
              (err (failed "invalid_phoenix_reply" "Phoenix join response must be an object"), c)
        ]

  -- A response that is no object is read as the empty one.
  unfoldable pub push : String → Json → Step Json
  push event payload = do
    reply ← ask event payload
    accepted "phoenix_push_rejected" ("Phoenix " <> event <> " rejected: ") reply λ reply.
        elim (get "response" reply) [
          | some (obj fs) ↦ λ c. (ok (obj fs), c)
          | _ ↦ λ c. (ok (obj end), c)
        ]
