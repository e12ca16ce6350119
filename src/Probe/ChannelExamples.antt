-- ===== src/Probe/ChannelExamples.antt =====
-- A wait of the Phoenix channel, at a concrete channel.
use liqi_platform.Prelude.{String, [], ◌∷◌, refl, ◌≡◌, ok, true}
use liqi_platform.Prelude.Json.{str, null, is_text}
use mathlib.Core.Option.{some}
use liqi_platform.Probe.Phoenix.{
  PhoenixFrame, received, expired, Channel, Test, pop_first, wait_loop, wait_message,
}
use liqi_platform.Probe.Waiting.{Found, wait_message-Found}

abbrev frame : String → PhoenixFrame
frame event = record {
  join_ref = null;
  ref = null;
  topic = str "t";
  event = str event;
  payload = null;
}

abbrev channel : Channel
channel = record {
  topic = "t";
  join_ref = "1";
  next_ref = 1;
  pending = frame "a" ∷ [];
  incoming = received (ok (frame "b")) ∷ received (ok (frame "c")) ∷ expired ∷ [];
  sending = ok tt;
  sent = [];
}

abbrev is_c : Test
is_c m = ok (is_text "c" (some m.event))

abbrev after_wait : Channel
after_wait = record channel { pending = frame "a" ∷ frame "b" ∷ []; incoming = expired ∷ [] }

wait_message-Found_example :
    Found is_c (frame "c") channel after_wait × (is_c (frame "c") ≡ ok true)
unfolding wait_message pop_first wait_loop
wait_message-Found_example = wait_message-Found is_c channel after_wait (frame "c") refl
