-- ===== src/Probe/Reassembly.antt =====
-- `recv_text` of platform_probe.py against the RFC's messages: a text in one or several frames, with
-- pings and pongs between them.
use mathlib.Core.List.{append_assoc}
use liqi_platform.Prelude.{
  ℕ, zero, suc, ◌+◌, ◌≤◌, ◌≡◌, refl, ap, ◌∙◌, ◌⊎◌, inl, inr, Bool, true, false, List, [], ◌∷◌, ◌++◌,
  arith, ◌==◌, nat_eq, length, length-append, All, if◌then◌else◌, Result, ok,
}
use liqi_platform.Probe.Socket.{Failure, Socket, raise_if, continue}
use liqi_platform.Probe.Frames.{max_ws_frame, Masks, Frame, send_frame, recv_frame}
use liqi_platform.Probe.Messages.{
  Codec, Assembly, Turn, again, complete, Outcome, extend, handle_frame, turn, finish_text,
  after_turn, recv_loop, recv_text,
}
use liqi_platform.Probe.Reads.{stream}
use liqi_platform.Probe.RoundTrip.{server_frame, IsFrame, recv_frame-Reads}

abbrev pub wire : List Frame → List ℕ
wire [] = []
wire (f ∷ fs) = server_frame f ++ wire fs

-- The opcode of the next data frame: a text starts a message, a continuation goes on with it.
abbrev pub Opens : Bool → Frame → Type 0
Opens false f = f.opcode ≡ 1
Opens true f = f.opcode ≡ 0

-- The frames of one message, up to its final one, and its bytes.
pub data Message : Bool → List Frame → List ℕ → Type 0 where
  control :
      {started : Bool} {f : Frame} {fs : List Frame} {bytes : List ℕ}
      → (f.opcode ≡ 9) ⊎ (f.opcode ≡ 10)
      → Message started fs bytes
      → Message started (f ∷ fs) bytes
  fragment :
      {started : Bool} {f : Frame} {fs : List Frame} {bytes : List ℕ}
      → Opens started f
      → f.final ≡ false
      → Message true fs bytes
      → Message started (f ∷ fs) (f.payload ++ bytes)
  last :
      {started : Bool} {f : Frame}
      → Opens started f
      → f.final ≡ true
      → Message started (f ∷ []) f.payload

abbrev pub pings : List Frame → ℕ
pings [] = 0
pings (f ∷ fs) = (if f.opcode == 9 then 1 else 0) + pings fs

-- What a turn may change besides the assembly: it sends one frame for a ping.
record Answers (f : Frame) (s s' : Socket) : Type 0 where
  same_stream : stream s' ≡ stream s
  still_open : s'.closed ≡ false
  one_pong : length s'.sent ≡ length s.sent + (if f.opcode == 9 then 1 else 0)

handle_control :
    (masks : Masks) (a : Assembly) (f : Frame) (s : Socket)
    → (f.opcode ≡ 9) ⊎ (f.opcode ≡ 10)
    → length f.payload ≤ 125
    → s.closed ≡ false
    → (s' : Socket) × (handle_frame masks a f s ≡ (ok (again a), s')) × Answers f s s'
unfolding handle_frame send_frame raise_if
handle_control masks a f s (inl e) l o = (
  (handle_frame masks a f s).1,
  ground arith,
  record { same_stream = ground arith; still_open = ground arith; one_pong = ground arith },
)
handle_control masks a f s (inr e) l o =
    (s, ground arith, record { same_stream = refl; still_open = o; one_pong = ground arith })

handle_data :
    (masks : Masks) (started : Bool) (acc : List ℕ) (f : Frame) (s : Socket)
    → Opens started f
    → length (acc ++ f.payload) ≤ max_ws_frame
    → (handle_frame masks (record { fragments = acc; started = started }) f s ≡ (
      ok (
          if f.final
          then complete (acc ++ f.payload)
          else again (record { fragments = acc ++ f.payload; started = true })),
      s,
    ))
      × ((f.opcode == 9) ≡ false)
unfolding handle_frame extend raise_if
handle_data masks false acc f s e l = (ground arith, ground arith)
handle_data masks true acc f s e l = (ground arith, ground arith)

module _ (c : Codec) (masks : Masks) where
  recv_loop-turn :
      (fuel : ℕ) (a : Assembly) (f : Frame) (s s1 s2 : Socket) (r : Result Failure Turn)
      → recv_frame s ≡ (ok f, s1)
      → handle_frame masks a f s1 ≡ (r, s2)
      → recv_loop c (suc fuel) masks a s ≡ after_turn c masks (recv_loop c fuel masks) r s2
  unfolding recv_loop turn
  recv_loop-turn fuel a f s s1 s2 r e h =
      ap (λ (p : Result Failure Turn × Socket). after_turn c masks (recv_loop c fuel masks) p.0 p.1)
        (ap (λ (p : Result Failure Frame × Socket). continue p.0 (handle_frame masks a) p.1) e ∙ h)

  -- How the loop ends on a message.
  record Received (acc bytes rest : List ℕ) (fs : List Frame) (s : Socket) (r : Outcome × Socket)
      : Type 0 where
    after : Socket
    result : r ≡ (finish_text c (acc ++ bytes), after)
    left : stream after ≡ rest
    still_open : after.closed ≡ false
    pongs : length after.sent ≡ length s.sent + pings fs

  recv_loop-Received :
      (fuel : ℕ) {started : Bool} {fs : List Frame} {bytes : List ℕ}
      → (m : Message started fs bytes) → (acc : List ℕ) (s : Socket) (rest : List ℕ)
      → All IsFrame fs
      → length (acc ++ bytes) ≤ max_ws_frame
      → s.closed ≡ false
      → stream s ≡ wire fs ++ rest
      → length fs ≤ fuel
      → Received acc bytes rest fs s
          (recv_loop c fuel masks (record { fragments = acc; started = started }) s)
  unfolding after_turn
  recv_loop-Received zero (control {f = f} {fs = fs} t m) acc s rest h l o e k =
      absurd (omega arith)
  recv_loop-Received zero (fragment d n m) acc s rest h l o e k = absurd (omega arith)
  recv_loop-Received zero (last d n) acc s rest h l o e k = absurd (omega arith)
  recv_loop-Received (suc fuel) (control {started = started} {f = f} {fs = fs} {bytes = bytes} t m)
        acc s rest h l o e k =
      let a : Assembly = record { fragments = acc; started = started } in
      let (s1, e1, t1, c1, n1) =
        (recv_frame-Reads f h.0).at s (wire fs ++ rest)
          (e ∙ append_assoc (server_frame f) (wire fs) rest) in
      let (s2, e2, answers) = handle_control masks a f s1 t (short f h.0 t) (c1 ∙ o) in
      let more =
        recv_loop-Received fuel m acc s2 rest h.1 l answers.still_open (answers.same_stream ∙ t1)
          (omega arith) in
      record {
        after = more.after;
        result = recv_loop-turn fuel a f s s1 s2 _ e1 e2 ∙ more.result;
        left = more.left;
        still_open = more.still_open;
        pongs = omega (arith, more.pongs, answers.one_pong, ap length n1);
      }
    where
      short : (f : Frame) → IsFrame f → (f.opcode ≡ 9) ⊎ (f.opcode ≡ 10) → length f.payload ≤ 125
      short f h (inl t) = (h.control (omega arith)).1
      short f h (inr t) = (h.control (omega arith)).1
  recv_loop-Received (suc fuel)
        (fragment {started = started} {f = f} {fs = fs} {bytes = bytes} d n m) acc s rest h l o e
        k =
      let a : Assembly = record { fragments = acc; started = started } in
      let (s1, e1, t1, c1, n1) =
        (recv_frame-Reads f h.0).at s (wire fs ++ rest)
          (e ∙ append_assoc (server_frame f) (wire fs) rest) in
      let (e2, no_ping) = handle_data masks started acc f s1 d (
        omega (
          arith,
          length-append acc (f.payload ++ bytes),
          length-append f.payload bytes,
          length-append acc f.payload,
        )) in
      let next : Turn = again (record { fragments = acc ++ f.payload; started = true }) in
      let e3 : handle_frame masks a f s1 ≡ (ok next, s1) =
        e2 ∙ ap (λ b. (ok (if b then complete (acc ++ f.payload) else next), s1)) n in
      let same = append_assoc acc f.payload bytes in
      let more =
        recv_loop-Received fuel m (acc ++ f.payload) s1 rest h.1 (rw same l) (c1 ∙ o) t1
          (omega arith) in
      record {
        after = more.after;
        result =
            recv_loop-turn fuel a f s s1 s1 _ e1 e3
            ∙ more.result
            ∙ ap (λ l. (finish_text c l, more.after)) same;
        left = more.left;
        still_open = more.still_open;
        pongs = rw no_ping (omega (arith, more.pongs, ap length n1));
      }
  recv_loop-Received (suc fuel) (last {started = started} {f = f} d n) acc s rest h l o e k =
      let a : Assembly = record { fragments = acc; started = started } in
      let (s1, e1, t1, c1, n1) =
        (recv_frame-Reads f h.0).at s (wire [] ++ rest)
          (e ∙ append_assoc (server_frame f) (wire []) rest) in
      let (e2, no_ping) = handle_data masks started acc f s1 d l in
      let next : Turn = again (record { fragments = acc ++ f.payload; started = true }) in
      let e3 : handle_frame masks a f s1 ≡ (ok (complete (acc ++ f.payload)), s1) =
        e2 ∙ ap (λ b. (ok (if b then complete (acc ++ f.payload) else next), s1)) n in
      record {
        after = s1;
        result = recv_loop-turn fuel a f s s1 s1 _ e1 e3;
        left = t1;
        still_open = c1 ∙ o;
        pongs = rw no_ping (omega (arith, ap length n1));
      }

-- A message in any fragmentation is received whole: where the stream starts with the frames of a
-- message of at most 1 MiB, with pings and pongs between them, and the socket is open, `recv_text`
-- ends with the decoded bytes of all its fragments in order, leaves the rest of the stream and has
-- sent one frame for each ping; as much fuel as there are frames is enough.
pub recv_text-Message :
    (c : Codec) (masks : Masks) (fuel : ℕ) (fs : List Frame) (bytes rest : List ℕ) (s : Socket)
    → Message false fs bytes
    → All IsFrame fs
    → length bytes ≤ max_ws_frame
    → s.closed ≡ false
    → stream s ≡ wire fs ++ rest
    → length fs ≤ fuel
    → (after : Socket) × (recv_text c fuel masks s ≡ (finish_text c bytes, after))
      × (stream after ≡ rest)
      × (after.closed ≡ false)
      × (length after.sent ≡ length s.sent + pings fs)
unfolding recv_text
recv_text-Message c masks fuel fs bytes rest s m h l o e k =
    let r = recv_loop-Received c masks fuel m [] s rest h l o e k in
    (r.after, r.result, r.left, r.still_open, r.pongs)
