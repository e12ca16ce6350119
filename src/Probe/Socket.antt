-- ===== src/Probe/Socket.antt =====
-- The state of the probe's WebSocket and its reads, `_read_exact` of platform_probe.py. The server is
-- the list of what each `recv` will return; past its end every wait reaches the deadline.
use liqi_platform.Prelude.{
  ℕ, String, Bool, true, false, List, [], ◌∷◌, ◌++◌, ltb, length, take, drop, if◌then◌else◌, Result,
  ok, err,
}

pub record Failure : Type 0 where
  pub failure_class : String
  pub message : String

abbrev pub failure : String → String → Failure
failure failure_class message = record { failure_class = failure_class; message = message }

-- What one turn of the read loop meets: the deadline is past, `recv` times out, or it returns bytes.
pub data Recv : Type 0 where
  expired : Recv
  timed_out : Recv
  chunk : List ℕ → Recv

pub record Socket : Type 0 where
  pub buffer : List ℕ
  pub incoming : List Recv
  pub closed : Bool
  -- every `sendall`, newest first
  pub sent : List (List ℕ)

abbrev pub Read : Type 0 → Type 0
Read A = Socket → Result Failure A × Socket

module _ {A B : Type 0} where
  abbrev pub continue : Result Failure A → (A → Read B) → Read B
  continue (ok a) f s = f a s
  continue (err e) f s = (err e, s)

  infixl 5 ◌>>=◌ ◌>>◌
  abbrev pub ◌>>=◌ : Read A → (A → Read B) → Read B
  ◌>>=◌ m f s = let (r, s') = m s in continue r f s'

  abbrev pub ◌>>◌ : Read A → Read B → Read B
  m >> n = m >>= λ _. n

module _ {A : Type 0} where
  abbrev pub pure : A → Read A
  pure a s = (ok a, s)

  abbrev pub raise : Failure → Read A
  raise e s = (err e, s)

unfoldable pub raise_if : Bool → Failure → Read (Unit {0})
raise_if true e = raise e
raise_if false e = pure tt

abbrev timeout_failure : Failure
timeout_failure = failure "websocket_timeout" "WebSocket step exceeded its deadline"

-- The rest of the loop, with the bytes received so far.
unfoldable pub fill : ℕ → List ℕ → List Recv → Result Failure (List ℕ) × List ℕ × List Recv
fill size buffer [] =
    if ltb (length buffer) size then (err timeout_failure, buffer, []) else (ok buffer, buffer, [])
fill size buffer (expired ∷ rest) =
    if ltb (length buffer) size
    then (err timeout_failure, buffer, rest)
    else (ok buffer, buffer, expired ∷ rest)
fill size buffer (timed_out ∷ rest) =
    if ltb (length buffer) size
    then (err timeout_failure, buffer, rest)
    else (ok buffer, buffer, timed_out ∷ rest)
fill size buffer (chunk [] ∷ rest) =
    if ltb (length buffer) size
    then (err (failure "websocket_closed" "WebSocket closed unexpectedly"), buffer, rest)
    else (ok buffer, buffer, chunk [] ∷ rest)
fill size buffer (chunk (b ∷ bs) ∷ rest) =
    let more = fill size (buffer ++ b ∷ bs) rest in
    if ltb (length buffer) size then more else (ok buffer, buffer, chunk (b ∷ bs) ∷ rest)

unfoldable pub taken :
    ℕ → Socket → Result Failure (List ℕ) × List ℕ × List Recv → Result Failure (List ℕ) × Socket
taken size s (ok bytes, buffer, rest) =
    (ok (take size bytes), record s { buffer = drop size bytes; incoming = rest })
taken size s (err e, buffer, rest) = (err e, record s { buffer = buffer; incoming = rest })

unfoldable pub read_exact : ℕ → Read (List ℕ)
read_exact size s = taken size s (fill size s.buffer s.incoming)
