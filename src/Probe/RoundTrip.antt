-- ===== src/Probe/RoundTrip.antt =====
-- Frames against RFC 6455: what the probe reads of a server's frame, and what a server reads of the
-- probe's.
use Prim.Native.Nat.{bit_xor}
use liqi_platform.Prelude.{
  ℕ, zero, suc, ◌+◌, ◌-◌, ◌/◌, ◌%◌, ◌≤◌, ◌<◌, ◌≡◌, refl, ap, subst, ◌∙◌, ◌⊎◌, inl, inr, Bool, true,
  false, not, ◌&&◌, ◌||◌, Option, none, some, List, [], ◌∷◌, ◌++◌, arith, ltb, leb, ◌==◌, nat_eq,
  length, All, eq_refl, Bool-cases, nat_beq, nat_beq_iff, take, drop, if◌then◌else◌, ok, err,
}
use liqi_platform.Probe.Socket.{Socket, ◌>>=◌, pure, raise_if, failure, Failure, read_exact}
use liqi_platform.Probe.Frames.{
  max_ws_frame, big_endian, from_big_endian, Mask, mask_at, masked, mask_bytes, client_header,
  Masks, send_frame, Frame, first_byte, second_byte, read_length, recv_body, recv_frame,
}
use liqi_platform.Probe.Reads.{Reads, Reads-pure, Reads-bind, Reads-map, read_exact-Reads}

-- A server's frame by the RFC: not masked, the length in its shortest form.
abbrev pub server_length : ℕ → List ℕ
server_length n = if ltb n 126 then [] else if ltb n 65536 then big_endian 2 n else big_endian 8 n

abbrev pub length_code : ℕ → ℕ
length_code n = if ltb n 126 then n else if ltb n 65536 then 126 else 127

abbrev pub fin_bit : Bool → ℕ
fin_bit true = 128
fin_bit false = 0

abbrev pub server_frame : Frame → List ℕ
server_frame f =
    ((fin_bit f.final + f.opcode) ∷ length_code (length f.payload) ∷ [])
    ++ (server_length (length f.payload) ++ f.payload)

-- A frame that a server may send and the probe accepts.
pub record IsFrame (f : Frame) : Type 0 where
  pub known : f.opcode < 16
  pub bounded : length f.payload ≤ max_ws_frame
  pub control : 8 ≤ f.opcode → (f.final ≡ true) × (length f.payload ≤ 125)

two_bytes : (n : ℕ) → n < 65536 → from_big_endian 0 (big_endian 2 n) ≡ n
unfolding from_big_endian big_endian
two_bytes n h = omega arith

eight_bytes : (n : ℕ) → n ≤ 1048576 → from_big_endian 0 (big_endian 8 n) ≡ n
unfolding from_big_endian big_endian
eight_bytes n h = omega arith

raise_if-Reads : (b : Bool) (e : Failure) → b ≡ false → Reads (raise_if b e) [] tt
unfolding raise_if
raise_if-Reads true e h = absurd (ground arith)
raise_if-Reads false e h = Reads-pure tt

number-Reads :
    (width n : ℕ)
    → length (big_endian width n) ≡ width
    → from_big_endian 0 (big_endian width n) ≡ n
    → Reads (do bytes ← read_exact width; pure (from_big_endian 0 bytes)) (big_endian width n) n
number-Reads width n l v =
    subst (Reads (do bytes ← read_exact width; pure (from_big_endian 0 bytes)) (big_endian width n))
      v
      (Reads-map (read_exact width) (from_big_endian 0) (big_endian width n) (big_endian width n) (
        subst (λ k. Reads (read_exact k) (big_endian width n) (big_endian width n)) l
          (read_exact-Reads (big_endian width n))))

length-big_endian : (width n : ℕ) → length (big_endian width n) ≡ width
unfolding big_endian
length-big_endian zero n = refl
length-big_endian (suc width) n = ap suc (length-big_endian width n)

read_length-Reads :
    (n : ℕ) → n ≤ max_ws_frame → Reads (read_length (length_code n)) (server_length n) n
unfolding read_length
read_length-Reads n h = elim (Bool-cases (ltb n 126)) [
  | inl e ↦
      let a : nat_beq n 126 ≡ false = ground arith in
      let b : nat_beq n 127 ≡ false = ground arith in rw (e, a, b) (Reads-pure n)
  | inr e ↦ elim (Bool-cases (ltb n 65536)) [
    | inl d ↦ rw (e, d) (number-Reads 2 n (length-big_endian 2 n) (two_bytes n (ground arith)))
    | inr d ↦ rw (e, d) (number-Reads 8 n (length-big_endian 8 n) (eight_bytes n h))
  ]
]

-- The header's bytes say what they are to say.
header_bits :
    (f : Frame)
    → IsFrame f
    → let first = fin_bit f.final + f.opcode in
      ((first / 16) % 8 ≡ 0) × (first % 16 ≡ f.opcode) × (leb 128 first ≡ f.final)
header_bits f h = elim (Bool-cases f.final) [
  | inl e ↦ let k = h.known in rw e (omega arith, omega arith, ground arith)
  | inr e ↦ let k = h.known in rw e (omega arith, omega arith, ground arith)
]

code_bits : (n : ℕ) → (leb 128 (length_code n) ≡ false) × (length_code n % 128 ≡ length_code n)
code_bits n = (ground arith, ground arith)

large_test : (f : Frame) → IsFrame f → ltb max_ws_frame (length f.payload) ≡ false
large_test f h = let b = h.bounded in ground arith

control_test :
    (f : Frame)
    → IsFrame f
    → (leb 8 f.opcode && (not f.final || ltb 125 (length f.payload))) ≡ false
control_test f h = elim (Bool-cases (leb 8 f.opcode)) [
  | inl e ↦ let (p, q) = h.control (ground arith) in ground arith
  | inr e ↦ rw e
]

recv_body-Reads :
    (f : Frame) (first second : ℕ)
    → IsFrame f
    → (first / 16) % 8 ≡ 0
    → first % 16 ≡ f.opcode
    → leb 128 first ≡ f.final
    → leb 128 second ≡ false
    → second % 128 ≡ length_code (length f.payload)
    → Reads (recv_body first second) (server_length (length f.payload) ++ f.payload) f
unfolding recv_body raise_if
recv_body-Reads f first second h rsv op fin plain code =
    rw (rsv, op, fin, plain, code)
      (Reads-bind (read_length (length_code (length f.payload))) _
        (server_length (length f.payload)) f.payload (length f.payload) f
        (read_length-Reads (length f.payload) h.bounded)
        (Reads-bind (raise_if _ _) _ [] f.payload tt f (raise_if-Reads _ _ (control_test f h)) (
          Reads-bind (raise_if _ _) _ [] f.payload tt f (raise_if-Reads _ _ (large_test f h)) (
            Reads-map (read_exact (length f.payload))
              (λ payload. record { opcode = f.opcode; final = f.final; payload = payload })
              f.payload f.payload (read_exact-Reads f.payload)))))

-- Every frame of at most 1 MiB that a server may send is read back: the opcode, the final bit and the whole payload,
-- however its bytes arrive; what follows it stays in the stream, and nothing is sent.
pub recv_frame-Reads : (f : Frame) → IsFrame f → Reads recv_frame (server_frame f) f
unfolding recv_frame first_byte second_byte
recv_frame-Reads f h =
    let first = fin_bit f.final + f.opcode in
    let second = length_code (length f.payload) in
    let (rsv, op, fin) = header_bits f h in
    let (plain, code) = code_bits (length f.payload) in
    Reads-bind (read_exact 2) _ (first ∷ second ∷ []) _ (first ∷ second ∷ []) f
      (read_exact-Reads (first ∷ second ∷ []))
      (recv_body-Reads f first second h rsv op fin plain code)

-- Over a byte, the law of `^` by evaluation.
misses : (ℕ → Bool) → ℕ → ℕ
misses test zero = 0
misses test (suc m) = let before = misses test m in if test m then before else suc before

met : (test : ℕ → Bool) (m k : ℕ) → misses test m ≡ 0 → k < m → test k ≡ true
unfolding misses
met test zero k none_missed lt = absurd (omega arith)
met test (suc m) k none_missed lt = ground (arith, met test m k)

xor_row : ℕ → Bool
unfolding misses
xor_row a = nat_beq (misses (λ b. bit_xor (bit_xor a b) b == a) 256) 0

xor_table : misses xor_row 256 ≡ 0
unfolding xor_row
xor_table = refl

xor_twice : (a b : ℕ) → a < 256 → b < 256 → bit_xor (bit_xor a b) b ≡ a
unfolding xor_row
xor_twice a b ha hb = (nat_beq_iff _ a).0 (
    met (λ b. bit_xor (bit_xor a b) b == a) 256 b
      ((nat_beq_iff _ 0).0 (met xor_row 256 a xor_table ha)) hb)

pub record IsMask (m : Mask) : Type 0 where
  pub byte0 : m.m0 < 256
  pub byte1 : m.m1 < 256
  pub byte2 : m.m2 < 256
  pub byte3 : m.m3 < 256

mask_at-byte : (m : Mask) (i : ℕ) → IsMask m → mask_at m i < 256
mask_at-byte m i h = ground arith

-- Masking twice with the same key gives the payload back.
masked-masked :
    (m : Mask) (i : ℕ) (payload : List ℕ)
    → IsMask m
    → All (λ b. b < 256) payload
    → masked m i (masked m i payload) ≡ payload
unfolding masked
masked-masked m i [] h a = refl
masked-masked m i (b ∷ bs) h a =
    rw (xor_twice b (mask_at m (i % 4)) a.0 (mask_at-byte m (i % 4) h))
      (ap (λ l. b ∷ l) (masked-masked m (suc i) bs h a.1))

length-masked : (m : Mask) (i : ℕ) (payload : List ℕ) → length (masked m i payload) ≡ length payload
unfolding masked
length-masked m i [] = refl
length-masked m i (b ∷ bs) = ap suc (length-masked m (suc i) bs)

-- A server's reading of a client frame by the RFC: the mask bit is set, then the length, the key
-- and exactly the payload, to which the key is applied.
abbrev unmask : ℕ → ℕ → List ℕ → Option (ℕ × List ℕ)
unmask opcode n (a ∷ b ∷ c ∷ d ∷ data') =
    if length data' == n
    then some (opcode, masked (record { m0 = a; m1 = b; m2 = c; m3 = d }) 0 data')
    else none
unmask opcode n _ = none

abbrev parse_length : ℕ → ℕ → List ℕ → Option (ℕ × List ℕ)
parse_length opcode code bytes =
    if code == 126
    then unmask opcode (from_big_endian 0 (take 2 bytes)) (drop 2 bytes)
    else if code == 127
    then unmask opcode (from_big_endian 0 (take 8 bytes)) (drop 8 bytes)
    else unmask opcode code bytes

abbrev pub parse_client : List ℕ → Option (ℕ × List ℕ)
parse_client (first ∷ second ∷ bytes) =
    if leb 128 first && leb 128 second
    then parse_length (first - 128) (second - 128) bytes
    else none
parse_client _ = none

unmask-masked :
    (m : Mask) (opcode : ℕ) (payload : List ℕ)
    → IsMask m
    → All (λ b. b < 256) payload
    → unmask opcode (length payload) (mask_bytes m ++ masked m 0 payload) ≡ some (opcode, payload)
unmask-masked m opcode payload h a =
    rw (length-masked m 0 payload, eq_refl (length payload), masked-masked m 0 payload h a)

parse_length-short :
    (opcode n : ℕ) (bytes : List ℕ) → n < 126 → parse_length opcode n bytes ≡ unmask opcode n bytes
parse_length-short opcode n bytes h =
    let a : nat_beq n 126 ≡ false = ground arith in
    let b : nat_beq n 127 ≡ false = ground arith in rw (a, b)

parse_length-two :
    (opcode n : ℕ) (bytes : List ℕ)
    → n < 65536
    → parse_length opcode 126 (big_endian 2 n ++ bytes) ≡ unmask opcode n bytes
parse_length-two opcode n bytes h =
    let t : take 2 (big_endian 2 n ++ bytes) ≡ big_endian 2 n = unfold big_endian in refl in
    let d : drop 2 (big_endian 2 n ++ bytes) ≡ bytes = unfold big_endian in refl in
    rw (t, d, two_bytes n h)

parse_length-eight :
    (opcode n : ℕ) (bytes : List ℕ)
    → n ≤ 1048576
    → parse_length opcode 127 (big_endian 8 n ++ bytes) ≡ unmask opcode n bytes
parse_length-eight opcode n bytes h =
    let t : take 8 (big_endian 8 n ++ bytes) ≡ big_endian 8 n = unfold big_endian in refl in
    let d : drop 8 (big_endian 8 n ++ bytes) ≡ bytes = unfold big_endian in refl in
    rw (t, d, eight_bytes n h)

parse_client-header :
    (opcode code : ℕ) (bytes : List ℕ)
    → parse_client ((128 + opcode) ∷ (128 + code) ∷ bytes) ≡ parse_length opcode code bytes
parse_client-header opcode code bytes =
    let a : leb 128 (128 + opcode) ≡ true = ground arith in
    let b : leb 128 (128 + code) ≡ true = ground arith in
    let c : 128 + opcode - 128 ≡ opcode = omega arith in
    let d : 128 + code - 128 ≡ code = omega arith in rw (a, b, c, d)

parse_client_frame :
    (m : Mask) (opcode : ℕ) (payload : List ℕ)
    → IsMask m
    → All (λ b. b < 256) payload
    → length payload ≤ max_ws_frame
    → parse_client (client_header opcode (length payload) ++ (mask_bytes m ++ masked m 0 payload))
      ≡ some (opcode, payload)
unfolding client_header
parse_client_frame m opcode payload h a l =
    let n = length payload in
    let body = mask_bytes m ++ masked m 0 payload in
    elim (Bool-cases (ltb n 126)) [
      | inl e ↦ rw e (
          parse_client-header opcode n body
          ∙ parse_length-short opcode n body (ground arith)
          ∙ unmask-masked m opcode payload h a)
      | inr e ↦ elim (Bool-cases (leb n 65535)) [
        | inl d ↦
            rw (e, d)
              (parse_client-header opcode 126 (big_endian 2 n ++ body)
                ∙ parse_length-two opcode n body (ground arith)
                ∙ unmask-masked m opcode payload h a)
        | inr d ↦
            rw (e, d)
              (parse_client-header opcode 127 (big_endian 8 n ++ body)
                ∙ parse_length-eight opcode n body l
                ∙ unmask-masked m opcode payload h a)
      ]
    ]

-- What the probe sends is what a server reads: on an open socket a payload of at most 1 MiB goes out
-- as one masked frame, which parses to its opcode and payload; a larger payload, or a closed socket,
-- sends nothing and raises.
pub send_frame-parse :
    (masks : Masks) (opcode : ℕ) (payload : List ℕ) (s : Socket)
    → ((n : ℕ) → IsMask (masks n))
    → All (λ b. b < 256) payload
    → ((s.closed ≡ false)
        × (length payload ≤ max_ws_frame)
        × ((frame : List ℕ) × (send_frame masks opcode payload s
              ≡ (ok tt, record s { sent = frame ∷ s.sent }))
            × (parse_client frame ≡ some (opcode, payload))))
      ⊎ (((s.closed ≡ true) ⊎ (max_ws_frame < length payload))
          × ((e : Failure) × (send_frame masks opcode payload s ≡ (err e, s))))
unfolding send_frame raise_if
send_frame-parse masks opcode payload s h a = elim (Bool-cases s.closed) [
  | inl e ↦ inr (inl e, (failure "websocket_closed" "cannot send on a closed WebSocket", rw e))
  | inr e ↦ elim (Bool-cases (ltb max_ws_frame (length payload))) [
    | inl d ↦ inr (
      inr (ground arith),
      (failure "websocket_frame_too_large" "outbound WebSocket frame exceeded 1 MiB", rw (e, d)),
    )
    | inr d ↦
        let m = masks (length s.sent) in
        inl (
          e,
          ground arith,
          (
            client_header opcode (length payload) ++ (mask_bytes m ++ masked m 0 payload),
            rw (e, d),
            parse_client_frame m opcode payload (h (length s.sent)) a (ground arith),
          ),
        )
  ]
]
