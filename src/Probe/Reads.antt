-- ===== src/Probe/Reads.antt =====
-- Reading from the probe's WebSocket does not depend on how the server's bytes arrive in chunks.
use liqi_platform.Prelude.{
  ℕ, ◌≤◌, ◌≡◌, refl, ap, subst, ◌∙◌, false, List, [], ◌∷◌, ◌++◌, arith, ltb, length, take, drop,
  length-append, Bool-cases, inl, inr, Result, ok,
}
use mathlib.Core.List.{append-nil, append_assoc}
use liqi_platform.Probe.Socket.{
  Failure, Recv, expired, timed_out, chunk, Socket, Read, continue, ◌>>=◌, pure, fill, taken,
  read_exact,
}

-- The bytes that arrive before the server closes, stalls or the deadline passes.
abbrev pub available : List Recv → List ℕ
available [] = []
available (expired ∷ rest) = []
available (timed_out ∷ rest) = []
available (chunk [] ∷ rest) = []
available (chunk (b ∷ bs) ∷ rest) = (b ∷ bs) ++ available rest

abbrev pub stream : Socket → List ℕ
stream s = s.buffer ++ available s.incoming

-- `m` reads exactly these bytes, returns `a`, and does nothing else to the socket.
pub record Reads {A : Type 0} (m : Read A) (bytes : List ℕ) (a : A) : Type 0 where
  pub at :
      (s : Socket) (rest : List ℕ)
      → stream s ≡ bytes ++ rest
      → (s' : Socket) × (m s ≡ (ok a, s'))
        × (stream s' ≡ rest)
        × (s'.closed ≡ s.closed)
        × (s'.sent ≡ s.sent)

module _ {A : Type 0} where
  pub Reads-pure : (a : A) → Reads (pure a) [] a
  Reads-pure a = record { at = λ s rest e. (s, refl, e, refl, refl) }

module _ {A B : Type 0} where
  pub Reads-bind :
      (m : Read A) (f : A → Read B) (xs ys : List ℕ) (a : A) (b : B)
      → Reads m xs a
      → Reads (f a) ys b
      → Reads (m >>= f) (xs ++ ys) b
  Reads-bind m f xs ys a b rm rf = record {
    at = λ s rest e.
        let (s1, e1, t1, c1, n1) = rm.at s (ys ++ rest) (e ∙ append_assoc xs ys rest) in
        let (s2, e2, t2, c2, n2) = rf.at s1 rest t1 in
        (
          s2,
          ap (λ (p : Result Failure A × Socket). continue p.0 f p.1) e1 ∙ e2,
          t2,
          c2 ∙ c1,
          n2 ∙ n1,
        );
  }

  pub Reads-map :
      (m : Read A) (g : A → B) (xs : List ℕ) (a : A)
      → Reads m xs a
      → Reads (do x ← m; pure (g x)) xs (g a)
  Reads-map m g xs a rm = record {
    at = λ s rest e.
        let (s', r, t, c, n) = rm.at s rest e in
        (
          s',
          ap (λ (p : Result Failure A × Socket). continue {B = B} p.0 (λ x. pure (g x)) p.1) r,
          t,
          c,
          n,
        );
  }

-- The loop stops with a buffer that holds enough bytes and has lost none.
pub record Filled (size : ℕ) (bytes : List ℕ) (r : Result Failure (List ℕ) × List ℕ × List Recv)
    : Type 0 where
  pub held : List ℕ
  pub left : List Recv
  pub result : r ≡ (ok held, held, left)
  pub enough : size ≤ length held
  pub kept : held ++ available left ≡ bytes

-- No byte is to come: the buffer holds enough.
no_more :
    (size : ℕ) (buffer : List ℕ) → size ≤ length (buffer ++ []) → ltb (length buffer) size ≡ false
no_more size buffer h =
    let h' : size ≤ length buffer = subst (λ (l : List ℕ). size ≤ length l) (append-nil buffer) h in
    ground arith

stop-Filled :
    (size : ℕ) (buffer : List ℕ) (left : List Recv)
    → ltb (length buffer) size ≡ false
    → Filled size (buffer ++ available left) (ok buffer, buffer, left)
stop-Filled size buffer left e = record {
  held = buffer;
  left = left;
  result = refl;
  enough = ground arith;
  kept = refl;
}

fill-Filled :
    (size : ℕ) (buffer : List ℕ) (incoming : List Recv)
    → size ≤ length (buffer ++ available incoming)
    → Filled size (buffer ++ available incoming) (fill size buffer incoming)
unfolding fill
fill-Filled size buffer [] h = let e = no_more size buffer h in rw e (stop-Filled size buffer [] e)
fill-Filled size buffer (expired ∷ rest) h =
    let e = no_more size buffer h in rw e (stop-Filled size buffer (expired ∷ rest) e)
fill-Filled size buffer (timed_out ∷ rest) h =
    let e = no_more size buffer h in rw e (stop-Filled size buffer (timed_out ∷ rest) e)
fill-Filled size buffer (chunk [] ∷ rest) h =
    let e = no_more size buffer h in rw e (stop-Filled size buffer (chunk [] ∷ rest) e)
fill-Filled size buffer (chunk (b ∷ bs) ∷ rest) h = elim (Bool-cases (ltb (length buffer) size)) [
  | inl e ↦
      rw (e, ← append_assoc buffer (b ∷ bs) (available rest))
        (fill-Filled size (buffer ++ b ∷ bs) rest (rw append_assoc h))
  | inr e ↦ rw e (stop-Filled size buffer (chunk (b ∷ bs) ∷ rest) e)
]

split_at :
    (bytes held left rest : List ℕ)
    → length bytes ≤ length held
    → held ++ left ≡ bytes ++ rest
    → (take (length bytes) held ≡ bytes) × (drop (length bytes) held ++ left ≡ rest)
split_at [] held left rest h e = (refl, e)
split_at (b ∷ bytes) [] left rest h e = absurd (omega arith)
split_at (b ∷ bytes) (c ∷ held) left rest h e =
    let (p, q) = split_at bytes held left rest (omega arith) (cc) in (cc, q)

-- However the bytes arrive, `read_exact` returns the next ones and leaves the rest.
pub read_exact-Reads : (bytes : List ℕ) → Reads (read_exact (length bytes)) bytes bytes
unfolding read_exact taken
read_exact-Reads bytes = record {
  at = λ s rest e.
      let f =
        fill-Filled (length bytes) s.buffer s.incoming
          (rw (e, length-append bytes rest) (omega arith)) in
      let (p, q) = split_at bytes f.held (available f.left) rest f.enough (f.kept ∙ e) in
      (
        record s { buffer = drop (length bytes) f.held; incoming = f.left },
        rw f.result (
            ap
              (λ (l : List ℕ).
                (ok l, record s { buffer = drop (length bytes) f.held; incoming = f.left }))
              p),
        q,
        refl,
        refl,
      );
}
