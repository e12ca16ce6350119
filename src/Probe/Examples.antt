-- ===== src/Probe/Examples.antt =====
-- The theorems on the WebSocket client at concrete frames.
use mathlib.Core.List.{append-nil}
use liqi_platform.Prelude.{
  ℕ, ◌+◌, ◌≡◌, ◌≤◌, ◌<◌, refl, ◌⊎◌, inl, true, false, some, List, [], ◌∷◌, ◌++◌, arith, length, ok,
  err, ◌≢◌,
}
use liqi_platform.Probe.Socket.{Failure, Socket, read_exact}
use liqi_platform.Probe.Frames.{max_ws_frame, Mask, Masks, Frame, send_frame, recv_frame}
use liqi_platform.Probe.Messages.{Codec, finish_text, out_of_fuel, recv_text}
use liqi_platform.Probe.Reads.{stream, Reads, read_exact-Reads}
use liqi_platform.Probe.RoundTrip.{
  server_frame, IsFrame, IsMask, parse_client, recv_frame-Reads, send_frame-parse,
}
use liqi_platform.Probe.Reassembly.{wire, control, fragment, last, pings, recv_text-Message}
use liqi_platform.Probe.Progress.{recv_text_total}

abbrev mask : Mask
mask = record { m0 = 17; m1 = 34; m2 = 51; m3 = 255 }

abbrev masks : Masks
masks n = mask

mask-IsMask : IsMask mask
mask-IsMask = omega arith

-- Every byte string decodes to "text", and nothing leaks.
abbrev codec : Codec
codec = record { decode = λ bytes. some "text"; encode = λ s. []; leaks = λ s. false }

abbrev hello : Frame
hello = record { opcode = 1; final = false; payload = 104 ∷ 101 ∷ [] }

abbrev ping : Frame
ping = record { opcode = 9; final = true; payload = 7 ∷ [] }

abbrev world : Frame
world = record { opcode = 0; final = true; payload = 108 ∷ [] }

abbrev frames : List Frame
frames = hello ∷ ping ∷ world ∷ []

hello-IsFrame : IsFrame hello
hello-IsFrame = record {
  known = omega arith;
  bounded = omega arith;
  control = λ h. absurd (omega arith);
}

ping-IsFrame : IsFrame ping
ping-IsFrame = record {
  known = omega arith;
  bounded = omega arith;
  control = λ h. (refl, omega arith);
}

world-IsFrame : IsFrame world
world-IsFrame = record {
  known = omega arith;
  bounded = omega arith;
  control = λ h. absurd (omega arith);
}

abbrev socket : Socket
socket = record { buffer = wire frames ++ 129 ∷ []; incoming = []; closed = false; sent = [] }

read_exact-Reads_example : Reads (read_exact 3) (1 ∷ 2 ∷ 3 ∷ []) (1 ∷ 2 ∷ 3 ∷ [])
read_exact-Reads_example = read_exact-Reads (1 ∷ 2 ∷ 3 ∷ [])

recv_frame-Reads_example : Reads recv_frame (server_frame ping) ping
recv_frame-Reads_example = recv_frame-Reads ping ping-IsFrame

send_frame-parse_example :
    ((socket.closed ≡ false)
      × (length {A = ℕ} (104 ∷ 105 ∷ []) ≤ max_ws_frame)
      × ((frame : List ℕ) × (send_frame masks 1 (104 ∷ 105 ∷ []) socket
            ≡ (ok tt, record socket { sent = frame ∷ socket.sent }))
          × (parse_client frame ≡ some (1, 104 ∷ 105 ∷ []))))
    ⊎ (((socket.closed ≡ true) ⊎ (max_ws_frame < length {A = ℕ} (104 ∷ 105 ∷ [])))
        × ((e : Failure) × (send_frame masks 1 (104 ∷ 105 ∷ []) socket ≡ (err e, socket))))
send_frame-parse_example =
    send_frame-parse masks 1 (104 ∷ 105 ∷ []) socket (λ n. mask-IsMask) (omega arith)

recv_text_total_example : (recv_text codec 30 masks socket).0 ≢ out_of_fuel
recv_text_total_example = recv_text_total codec 30 masks socket (omega arith)

recv_text-Message_example :
    (after : Socket) × (recv_text codec 3 masks socket
      ≡ (finish_text codec (104 ∷ 101 ∷ 108 ∷ []), after))
    × (stream after ≡ 129 ∷ [])
    × (after.closed ≡ false)
    × (length after.sent ≡ length socket.sent + pings frames)
recv_text-Message_example =
    recv_text-Message codec masks 3 frames (104 ∷ 101 ∷ 108 ∷ []) (129 ∷ []) socket
      (fragment {f = hello} refl refl (control {f = ping} (inl refl) (last {f = world} refl refl)))
      (hello-IsFrame, (ping-IsFrame, (world-IsFrame, tt))) (omega arith) refl
      (append-nil (wire frames ++ 129 ∷ [])) (omega arith)
