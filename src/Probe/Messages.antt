-- ===== src/Probe/Messages.antt =====
-- `recv_text`, `send_text` and `close` of platform_probe.py. The loop takes fuel; Probe/Progress
-- shows how much is enough. UTF-8 and the recorder's search for secrets are parameters.
use liqi_platform.Prelude.{
  ℕ, zero, suc, String, Bool, true, false, Option, none, some, List, [], ◌∷◌, ◌<>◌, ◌++◌, ltb, ◌==◌,
  nat_eq, length, if◌then◌else◌, Result, ok, err,
}
use liqi_platform.Probe.Socket.{Failure, failure, Socket, Read, ◌>>=◌, ◌>>◌, pure, raise, raise_if}
use liqi_platform.Probe.Frames.{max_ws_frame, Masks, Frame, send_frame, recv_frame, big_endian}

pub record Codec : Type 0 where
  pub decode : List ℕ → Option String
  pub encode : String → List ℕ
  -- `self.recorder.inspect_secrets` raises
  pub leaks : String → Bool

-- The fragments so far, and whether a text frame has started.
pub record Assembly : Type 0 where
  pub fragments : List ℕ
  pub started : Bool

-- What one frame does: it ends the call, or the loop goes on.
pub data Turn : Type 0 where
  again : Assembly → Turn
  complete : List ℕ → Turn

-- The frames of one message are bounded together.
unfoldable pub extend : Assembly → Bool → List ℕ → Read Turn
extend a final payload =
    let fragments = a.fragments ++ payload in
    do
      raise_if (ltb max_ws_frame (length fragments))
          (failure "websocket_frame_too_large" "WebSocket message exceeded 1 MiB")
      pure (
          if final
          then complete fragments
          else again (record { fragments = fragments; started = true }))

abbrev text_at : ℕ → List String → String
text_at n [] = ""
text_at zero (s ∷ rest) = s
text_at (suc n) (s ∷ rest) = text_at n rest

-- `f"unsupported opcode {opcode}"`, of an opcode's four bits.
abbrev unsupported : ℕ → Failure
unsupported opcode = failure "unsupported_websocket_frame" (
    "unsupported opcode "
    <> text_at opcode (
        "0" ∷ "1" ∷ "2" ∷ "3" ∷ "4" ∷ "5" ∷ "6" ∷ "7" ∷ "8" ∷ "9" ∷ "10" ∷ "11" ∷ "12" ∷ "13" ∷ "14"
        ∷ "15" ∷ []))

unfoldable pub handle_frame : Masks → Assembly → Frame → Read Turn
handle_frame masks a frame s =
    if frame.opcode == 8
    then raise (failure "websocket_closed" "WebSocket closed before expected event")
        (record s { closed = true })
    else if frame.opcode == 9
    then (do send_frame masks 10 frame.payload; pure (again a)) s
    else if frame.opcode == 10
    then pure (again a) s
    else if frame.opcode == 1
    then (if a.started
        then raise
            (failure "websocket_protocol_error"
              "new text frame started before continuation completed")
            s
        else extend a frame.final frame.payload s)
    else if frame.opcode == 0
    then (if a.started
        then extend a frame.final frame.payload s
        else raise (unsupported frame.opcode) s)
    else raise (unsupported frame.opcode) s

-- Out of fuel: no result of the program.
pub data Outcome : Type 0 where
  returned : String → Outcome
  raised : Failure → Outcome
  out_of_fuel : Outcome

module _ (c : Codec) where
  unfoldable pub finish_text : List ℕ → Outcome
  finish_text bytes = elim (c.decode bytes) [
    | none ↦ raised (failure "invalid_websocket_utf8" "WebSocket text was not UTF-8")
    | some text ↦
        if c.leaks text
        then raised (failure "secret_exposure" "live response reflected protected probe material")
        else returned text
  ]

  -- One turn: read a frame and handle it.
  unfoldable pub turn : Masks → Assembly → Read Turn
  turn masks a = do frame ← recv_frame; handle_frame masks a frame

  -- What follows a turn: the next round, `next`, or the end of the call.
  unfoldable pub after_turn :
      Masks
      → (Assembly → Socket → Outcome × Socket)
      → Result Failure Turn
      → Socket
      → Outcome × Socket
  after_turn masks next (ok (again a)) s = next a s
  after_turn masks next (ok (complete bytes)) s = (finish_text bytes, s)
  after_turn masks next (err e) s = (raised e, s)

  unfoldable pub recv_loop : ℕ → Masks → Assembly → Socket → Outcome × Socket
  recv_loop zero masks a s = (out_of_fuel, s)
  recv_loop (suc fuel) masks a s =
      let (r, s') = turn masks a s in after_turn masks (recv_loop fuel masks) r s'

  unfoldable pub recv_text : ℕ → Masks → Socket → Outcome × Socket
  recv_text fuel masks = recv_loop fuel masks (record { fragments = []; started = false })

  unfoldable pub send_text : Masks → String → Read (Unit {0})
  send_text masks text = send_frame masks 1 (c.encode text)

-- `close` ignores a failed send.
unfoldable pub close : Masks → Socket → Socket
close masks s =
    if s.closed
    then s
    else (let s' : Socket = (send_frame masks 8 (big_endian 2 1000) s).1 in
        record s' { closed = true })
