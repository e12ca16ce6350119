-- ===== src/Probe/Frames.antt =====
-- `_send_frame` and `_recv_frame` of platform_probe.py, byte by byte.
use Prim.Native.Nat.{bit_xor}
use liqi_platform.Prelude.{
  ℕ, zero, suc, ◌+◌, ◌*◌, ◌/◌, ◌%◌, ◌^◌, Bool, not, ◌&&◌, ◌||◌, List, [], ◌∷◌, ◌++◌, ltb, leb, ◌==◌,
  nat_eq, length, if◌then◌else◌,
}
use liqi_platform.Probe.Socket.{failure, Read, ◌>>=◌, ◌>>◌, pure, raise_if, read_exact}

abbrev pub max_ws_frame : ℕ
max_ws_frame = 1048576

-- `struct.pack("!H", n)` and `struct.pack("!Q", n)`: n in `width` bytes, the highest first.
unfoldable pub big_endian : ℕ → ℕ → List ℕ
big_endian zero n = []
big_endian (suc width) n = (n / 256 ^ width) % 256 ∷ big_endian width n

-- `struct.unpack` of the same.
unfoldable pub from_big_endian : ℕ → List ℕ → ℕ
from_big_endian acc [] = acc
from_big_endian acc (b ∷ bs) = from_big_endian (acc * 256 + b) bs

pub record Mask : Type 0 where
  pub m0 : ℕ
  pub m1 : ℕ
  pub m2 : ℕ
  pub m3 : ℕ

abbrev pub mask_at : Mask → ℕ → ℕ
mask_at m i = if i == 0 then m.m0 else if i == 1 then m.m1 else if i == 2 then m.m2 else m.m3

-- `value ^ mask[index % 4]` for every byte, from this index on.
unfoldable pub masked : Mask → ℕ → List ℕ → List ℕ
masked m index [] = []
masked m index (b ∷ bs) = bit_xor b (mask_at m (index % 4)) ∷ masked m (suc index) bs

abbrev pub mask_bytes : Mask → List ℕ
mask_bytes m = m.m0 ∷ m.m1 ∷ m.m2 ∷ m.m3 ∷ []

-- The first bytes of a client frame: FIN, the opcode, the mask bit and the length.
unfoldable pub client_header : ℕ → ℕ → List ℕ
client_header opcode n =
    if ltb n 126
    then (128 + opcode) ∷ (128 + n) ∷ []
    else if leb n 65535
    then (128 + opcode) ∷ (128 + 126) ∷ big_endian 2 n
    else (128 + opcode) ∷ (128 + 127) ∷ big_endian 8 n

-- What `secrets.token_bytes(4)` returns for the n-th frame of the socket.
abbrev pub Masks : Type 0
Masks = ℕ → Mask

unfoldable pub send_frame : Masks → ℕ → List ℕ → Read (Unit {0})
send_frame masks opcode payload = do
  (λ s. raise_if s.closed (failure "websocket_closed" "cannot send on a closed WebSocket") s)
  raise_if (ltb max_ws_frame (length payload))
      (failure "websocket_frame_too_large" "outbound WebSocket frame exceeded 1 MiB")
  λ s. pure tt (record s {
    sent =
        (client_header opcode (length payload)
          ++ (mask_bytes (masks (length s.sent)) ++ masked (masks (length s.sent)) 0 payload))
        ∷ s.sent;
  })

pub record Frame : Type 0 where
  pub opcode : ℕ
  pub final : Bool
  pub payload : List ℕ

-- The two header bytes; `read_exact 2` returns two.
unfoldable pub first_byte : List ℕ → ℕ
first_byte [] = 0
first_byte (b ∷ bs) = b

unfoldable pub second_byte : List ℕ → ℕ
second_byte (a ∷ b ∷ bs) = b
second_byte bs = 0

-- `struct.unpack` of the extended length, where the seven bits say 126 or 127.
unfoldable pub read_length : ℕ → Read ℕ
read_length n =
    if n == 126
    then (do bytes ← read_exact 2; pure (from_big_endian 0 bytes))
    else if n == 127
    then (do bytes ← read_exact 8; pure (from_big_endian 0 bytes))
    else pure n

unfoldable pub recv_body : ℕ → ℕ → Read Frame
recv_body first second = do
  raise_if (not ((first / 16) % 8 == 0))
      (failure "websocket_protocol_error" "server frame set unsupported RSV bits")
  raise_if (leb 128 second)
      (failure "websocket_server_masked" "server WebSocket frames must not be masked")
  n ← read_length (second % 128)
  raise_if (leb 8 (first % 16) && (not (leb 128 first) || ltb 125 n))
      (failure "websocket_protocol_error" "invalid fragmented or oversized control frame")
  raise_if (ltb max_ws_frame n)
      (failure "websocket_frame_too_large" "inbound WebSocket frame exceeded 1 MiB")
  payload ← read_exact n
  pure (record { opcode = first % 16; final = leb 128 first; payload = payload })

unfoldable pub recv_frame : Read Frame
recv_frame = do header ← read_exact 2; recv_body (first_byte header) (second_byte header)
