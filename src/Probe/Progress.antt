-- ===== src/Probe/Progress.antt =====
-- The read loop of `recv_text` ends: every frame consumes bytes, so fuel beyond the bytes that are
-- still to be read is never used up.
use liqi_platform.Prelude.{
  ℕ, zero, suc, ◌+◌, ◌-◌, ◌%◌, ◌≤◌, ◌<◌, ◌≡◌, refl, Bool, true, false, List, [], ◌∷◌, ◌++◌, ◌≢◌,
  arith, length, drop, length-append, Bool-cases, inl, inr, Result, ok, err, ◌==◌, nat_eq,
}
use liqi_platform.Probe.Socket.{
  Failure, Recv, expired, timed_out, chunk, Socket, Read, continue, ◌>>=◌, pure, raise_if, fill,
  taken, read_exact,
}
use liqi_platform.Probe.Frames.{
  Masks, Frame, send_frame, read_length, recv_body, recv_frame, first_byte, second_byte,
}
use liqi_platform.Probe.Messages.{
  Codec, Assembly, Turn, again, complete, out_of_fuel, extend, handle_frame, turn, finish_text,
  after_turn, recv_loop, recv_text,
}

abbrev pub bytes_of : List Recv → ℕ
bytes_of [] = 0
bytes_of (expired ∷ rest) = bytes_of rest
bytes_of (timed_out ∷ rest) = bytes_of rest
bytes_of (chunk bs ∷ rest) = length bs + bytes_of rest

-- The bytes in the buffer and those that the server will send.
abbrev pub pending : Socket → ℕ
pending s = length s.buffer + bytes_of s.incoming

-- Reading never adds bytes.
record Shrinks {A : Type 0} (m : Read A) : Type 0 where
  at : (s : Socket) → pending (m s).1 ≤ pending s

module _ {A : Type 0} where
  Shrinks-pure : (a : A) → Shrinks (pure a)
  Shrinks-pure a = record { at = λ s. omega arith }

module _ {A B : Type 0} where
  Shrinks-continue :
      (r : Result Failure A) (s : Socket) (f : A → Read B)
      → ((a : A) → Shrinks (f a))
      → pending (continue r f s).1 ≤ pending s
  Shrinks-continue (ok a) s f kf = (kf a).at s
  Shrinks-continue (err e) s f kf = omega arith

  Shrinks-bind :
      (m : Read A) (f : A → Read B) → Shrinks m → ((a : A) → Shrinks (f a)) → Shrinks (m >>= f)
  Shrinks-bind m f km kf = record {
    at = λ s. omega (arith, km.at s, Shrinks-continue (m s).0 (m s).1 f kf);
  }

Shrinks-raise_if : (b : Bool) (e : Failure) → Shrinks (raise_if b e)
unfolding raise_if
Shrinks-raise_if true e = record { at = λ s. omega arith }
Shrinks-raise_if false e = record { at = λ s. omega arith }

length-drop : (n : ℕ) (xs : List ℕ) → length (drop n xs) ≡ length xs - n
length-drop zero xs = omega arith
length-drop (suc n) [] = omega arith
length-drop (suc n) (x ∷ xs) = omega (arith, length-drop n xs)

abbrev Spent : ℕ → ℕ → Result Failure (List ℕ) × List ℕ × List Recv → Type 0
Spent size before (ok l, buffer, rest) = (length l + bytes_of rest ≤ before) × (size ≤ length l)
Spent size before (err e, buffer, rest) = length buffer + bytes_of rest ≤ before

fill-Spent :
    (size : ℕ) (buffer : List ℕ) (incoming : List Recv)
    → Spent size (length buffer + bytes_of incoming) (fill size buffer incoming)
unfolding fill
fill-Spent size buffer [] = ground arith
fill-Spent size buffer (expired ∷ rest) = ground arith
fill-Spent size buffer (timed_out ∷ rest) = ground arith
fill-Spent size buffer (chunk [] ∷ rest) = ground arith
fill-Spent size buffer (chunk (b ∷ bs) ∷ rest) =
    ground (arith, fill-Spent size (buffer ++ b ∷ bs) rest, length-append buffer (b ∷ bs))

taken-le :
    (size : ℕ) (s : Socket) (r : Result Failure (List ℕ) × List ℕ × List Recv)
    → Spent size (pending s) r
    → pending (taken size s r).1 ≤ pending s
unfolding taken
taken-le size s (ok l, buffer, rest) h = omega (arith, length-drop size l)
taken-le size s (err e, buffer, rest) h = h

taken-ok-le :
    (size : ℕ) (s : Socket) (r : Result Failure (List ℕ) × List ℕ × List Recv) {bytes : List ℕ}
    → Spent size (pending s) r
    → (taken size s r).0 ≡ ok bytes
    → pending (taken size s r).1 + size ≤ pending s
unfolding taken
taken-ok-le size s (ok l, buffer, rest) h e = omega (arith, length-drop size l)
taken-ok-le size s (err e, buffer, rest) h p = absurd (ground arith)

read_exact-Shrinks : (size : ℕ) → Shrinks (read_exact size)
unfolding read_exact
read_exact-Shrinks size = record {
  at = λ s. taken-le size s _ (fill-Spent size s.buffer s.incoming);
}

read_exact-ok-le :
    (size : ℕ) (s : Socket) {bytes : List ℕ}
    → (read_exact size s).0 ≡ ok bytes
    → pending (read_exact size s).1 + size ≤ pending s
unfolding read_exact
read_exact-ok-le size s e = taken-ok-le size s _ (fill-Spent size s.buffer s.incoming) e

read_length-Shrinks : (n : ℕ) → Shrinks (read_length n)
unfolding read_length
read_length-Shrinks n = elim (Bool-cases (n == 126)) [
  | inl e ↦ rw e (Shrinks-bind (read_exact 2) _ (read_exact-Shrinks 2) (λ bytes. Shrinks-pure _))
  | inr e ↦ elim (Bool-cases (n == 127)) [
    | inl d ↦
        rw (e, d) (Shrinks-bind (read_exact 8) _ (read_exact-Shrinks 8) (λ bytes. Shrinks-pure _))
    | inr d ↦ rw (e, d) (Shrinks-pure n)
  ]
]

recv_body-Shrinks : (first second : ℕ) → Shrinks (recv_body first second)
unfolding recv_body
recv_body-Shrinks first second = Shrinks-bind (raise_if _ _) _ (Shrinks-raise_if _ _) λ _.
    Shrinks-bind (raise_if _ _) _ (Shrinks-raise_if _ _) λ _.
      Shrinks-bind (read_length (second % 128)) _ (read_length-Shrinks (second % 128)) λ n.
        Shrinks-bind (raise_if _ _) _ (Shrinks-raise_if _ _) λ _.
          Shrinks-bind (raise_if _ _) _ (Shrinks-raise_if _ _)
            λ _. Shrinks-bind (read_exact n) _ (read_exact-Shrinks n) (λ payload. Shrinks-pure _)

recv_frame-lt :
    (s : Socket) {f : Frame} → (recv_frame s).0 ≡ ok f → pending (recv_frame s).1 < pending s
unfolding recv_frame
recv_frame-lt s {f} e = go (read_exact 2 s).0 refl e
  where
    go :
        (r : Result Failure (List ℕ))
        → (read_exact 2 s).0 ≡ r
        → (continue r (λ h. recv_body (first_byte h) (second_byte h)) (read_exact 2 s).1).0 ≡ ok f
        → pending (continue r (λ h. recv_body (first_byte h) (second_byte h)) (read_exact 2 s).1).1
          < pending s
    go (ok h) p q = omega (
      arith,
      read_exact-ok-le 2 s p,
      (recv_body-Shrinks (first_byte h) (second_byte h)).at (read_exact 2 s).1,
    )
    go (err x) p q = absurd (ground arith)

handle_frame-le :
    (masks : Masks) (a : Assembly) (f : Frame) (s : Socket)
    → pending (handle_frame masks a f s).1 ≤ pending s
unfolding handle_frame send_frame extend raise_if
handle_frame-le masks a f s = ground arith

module _ (c : Codec) where
  turn-lt :
      (masks : Masks) (a : Assembly) (s : Socket) {t : Turn}
      → (turn c masks a s).0 ≡ ok t
      → pending (turn c masks a s).1 < pending s
  unfolding turn
  turn-lt masks a s {t} e = go (recv_frame s).0 refl e
    where
      go :
          (r : Result Failure Frame)
          → (recv_frame s).0 ≡ r
          → (continue r (handle_frame masks a) (recv_frame s).1).0 ≡ ok t
          → pending (continue r (handle_frame masks a) (recv_frame s).1).1 < pending s
      go (ok f) p q = omega (arith, recv_frame-lt s p, handle_frame-le masks a f (recv_frame s).1)
      go (err x) p q = absurd (ground arith)

  finish_text-ne : (bytes : List ℕ) → finish_text c bytes ≢ out_of_fuel
  unfolding finish_text
  finish_text-ne bytes = ground arith

  after_turn-ne :
      (fuel : ℕ) (masks : Masks) (r : Result Failure Turn) (s : Socket)
      → ((a : Assembly) → r ≡ ok (again a) → (recv_loop c fuel masks a s).0 ≢ out_of_fuel)
      → (after_turn c masks (recv_loop c fuel masks) r s).0 ≢ out_of_fuel
  unfolding after_turn
  after_turn-ne fuel masks (ok (again a)) s h = h a refl
  after_turn-ne fuel masks (ok (complete bytes)) s h = finish_text-ne bytes
  after_turn-ne fuel masks (err e) s h = λ p. ground arith

  recv_loop-ne :
      (fuel : ℕ) (masks : Masks) (a : Assembly) (s : Socket)
      → pending s < fuel
      → (recv_loop c fuel masks a s).0 ≢ out_of_fuel
  unfolding recv_loop
  recv_loop-ne zero masks a s h = absurd (omega arith)
  recv_loop-ne (suc fuel) masks a s h =
      after_turn-ne fuel masks (turn c masks a s).0 (turn c masks a s).1 (λ a' p.
        recv_loop-ne fuel masks a' (turn c masks a s).1 (omega (arith, turn-lt masks a s p)))

  -- `recv_text` returns a text or raises: with more fuel than bytes that are still to come it is not
  -- the fuel that ends it.
  pub recv_text_total :
      (fuel : ℕ) (masks : Masks) (s : Socket)
      → pending s < fuel
      → (recv_text c fuel masks s).0 ≢ out_of_fuel
  unfolding recv_text
  recv_text_total fuel masks s h = recv_loop-ne fuel masks _ s h
