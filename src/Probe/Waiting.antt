-- ===== src/Probe/Waiting.antt =====
-- `PhoenixChannel._wait_message` of platform_probe.py: which frame a wait returns, and what it does
-- with the others.
use mathlib.Core.List.{append-nil, append_assoc}
use liqi_platform.Prelude.{
  Bool, true, false, List, [], ◌∷◌, ◌++◌, map, All, length, ltb, ◌≡◌, ◌≤◌, ◌⊎◌, inl, inr, refl, ap,
  sym, ok-injective, ◌≢◌, ◌+◌, ◌∙◌, subst, Result, ok, err, arith, Bool-cases, length-append,
}
use liqi_platform.Probe.Recorder.{Problem}
use liqi_platform.Probe.Phoenix.{
  PhoenixFrame, Arrival, expired, received, Channel, Test, Search, found, absent, broken,
  search_step, pop_first, Waited, wait_step, wait_loop, after_search, wait_message,
}

abbrev Refuses : Test → PhoenixFrame → Type 0
Refuses p m = p m ≡ ok false

abbrev arrivals : List PhoenixFrame → List Arrival
arrivals ms = map (λ m. received (ok m)) ms

-- Where a wait finds its frame `m`, from `c` to `c'`: among the frames put aside, whose others stay, or
-- among those that arrive, where the ones before it are put aside, behind the others.
pub data Found (p : Test) (m : PhoenixFrame) (c c' : Channel) : Type 0 where
  held :
      (before after : List PhoenixFrame)
      → c.pending ≡ before ++ m ∷ after
      → c' ≡ record c { pending = before ++ after }
      → All (Refuses p) before
      → Found p m c c'
  arrived :
      (passed : List PhoenixFrame)
      → c.incoming ≡ arrivals passed ++ received (ok m) ∷ c'.incoming
      → c' ≡ record c { pending = c.pending ++ passed; incoming = c'.incoming }
      → All (Refuses p) c.pending
      → All (Refuses p) passed
      → ((passed ≡ []) ⊎ (length c'.pending ≤ 256))
      → Found p m c c'

found-injective :
    {a b : PhoenixFrame} {xs ys : List PhoenixFrame} → found a xs ≡ found b ys → (a ≡ b) × (xs ≡ ys)
found-injective h = (cc, cc)

module _ (p : Test) where
  abbrev Split : PhoenixFrame → List PhoenixFrame → List PhoenixFrame → Type 0
  Split m xs rest =
      (before after : List PhoenixFrame) × (xs ≡ before ++ m ∷ after)
      × (rest ≡ before ++ after)
      × All (Refuses p) before
      × (p m ≡ ok true)

  search_step-found :
      (v : Result Problem Bool) (s : Search) (x : PhoenixFrame) (xs : List PhoenixFrame)
      (m : PhoenixFrame) (rest : List PhoenixFrame)
      → p x ≡ v
      → ((m' : PhoenixFrame) (rest' : List PhoenixFrame) → s ≡ found m' rest' → Split m' xs rest')
      → search_step v x xs s ≡ found m rest
      → Split m (x ∷ xs) rest
  search_step-found (ok true) s x xs m rest e k h =
      let (q, r) = found-injective h in
      subst (λ z. Split z (x ∷ xs) rest) q
        (subst (λ z. Split x (x ∷ xs) z) r ([], xs, refl, refl, tt, e))
  search_step-found (ok false) (found y ys) x xs m rest e k h =
      let (q, r) = found-injective h in
      let (before, after, e1, e2, none_before, t) = k y ys refl in
      subst (λ z. Split z (x ∷ xs) rest) q
        (subst (λ z. Split y (x ∷ xs) z) r
          (x ∷ before, after, ap (λ l. x ∷ l) e1, ap (λ l. x ∷ l) e2, (e, none_before), t))
  search_step-found (ok false) absent x xs m rest e k h = absurd (ground arith)
  search_step-found (ok false) (broken z) x xs m rest e k h = absurd (ground arith)
  search_step-found (err z) s x xs m rest e k h = absurd (ground arith)

  pop_first-found :
      (xs : List PhoenixFrame) (m : PhoenixFrame) (rest : List PhoenixFrame)
      → pop_first p xs ≡ found m rest
      → Split m xs rest
  unfolding pop_first
  pop_first-found [] m rest h = absurd (ground arith)
  pop_first-found (x ∷ xs) m rest h =
      search_step-found (p x) _ x xs m rest refl (pop_first-found xs) h

  search_step-absent :
      (v : Result Problem Bool) (s : Search) (x : PhoenixFrame) (xs : List PhoenixFrame)
      → search_step v x xs s ≡ absent
      → (v ≡ ok false) × (s ≡ absent)
  search_step-absent (ok true) s x xs h = absurd (ground arith)
  search_step-absent (ok false) (found y ys) x xs h = absurd (ground arith)
  search_step-absent (ok false) absent x xs h = (refl, refl)
  search_step-absent (ok false) (broken z) x xs h = absurd (ground arith)
  search_step-absent (err z) s x xs h = absurd (ground arith)

  pop_first-absent : (xs : List PhoenixFrame) → pop_first p xs ≡ absent → All (Refuses p) xs
  unfolding pop_first
  pop_first-absent [] h = tt
  pop_first-absent (x ∷ xs) h =
      let (e, s) = search_step-absent (p x) (pop_first p xs) x xs h in (e, pop_first-absent xs s)

  -- What the loop over the arrivals leaves where it finds `m`.
  abbrev Awaited :
      PhoenixFrame → List PhoenixFrame → List Arrival → List PhoenixFrame → List Arrival → Type 0
  Awaited m pending incoming pending' rest =
      (passed : List PhoenixFrame) × (incoming ≡ arrivals passed ++ received (ok m) ∷ rest)
      × (pending' ≡ pending ++ passed)
      × All (Refuses p) passed
      × (p m ≡ ok true)
      × ((passed ≡ []) ⊎ (length pending' ≤ 256))

  overflow-ok :
      (x : PhoenixFrame) (pending : List PhoenixFrame) (rest : List Arrival) (more : Waited)
      {m : PhoenixFrame} {w : List PhoenixFrame} {v : List Arrival}
      → wait_step (ok false) x pending rest more ≡ (ok m, w, v)
      → ltb 256 (length (pending ++ x ∷ [])) ≢ true
  overflow-ok x pending rest more h full = ground (arith)

  within :
      (pending' pending : List PhoenixFrame) (x : PhoenixFrame) (passed : List PhoenixFrame)
      → pending' ≡ (pending ++ x ∷ []) ++ passed
      → ((passed ≡ []) ⊎ (length pending' ≤ 256))
      → ltb 256 (length (pending ++ x ∷ [])) ≡ false
      → length pending' ≤ 256
  within pending' pending x passed e (inr b) room = b
  within pending' pending x passed e (inl none_passed) room =
      let n : length pending' ≡ length (pending ++ x ∷ []) + length passed =
        ap length e ∙ length-append (pending ++ x ∷ []) passed in
      let z : length passed ≡ 0 = ap length none_passed in ground arith

  wait_step-ok :
      (v : Result Problem Bool) (x : PhoenixFrame) (pending : List PhoenixFrame)
      (rest : List Arrival) (more : Waited) (m : PhoenixFrame) (pending' : List PhoenixFrame)
      (rest' : List Arrival)
      → p x ≡ v
      → (more ≡ (ok m, pending', rest') → Awaited m (pending ++ x ∷ []) rest pending' rest')
      → wait_step v x pending rest more ≡ (ok m, pending', rest')
      → Awaited m pending (received (ok x) ∷ rest) pending' rest'
  wait_step-ok (ok true) x pending rest more m pending' rest' e k h =
      let q = ok-injective (ap (λ (r : Waited). r.0) h) in
      subst (λ z. Awaited z pending (received (ok x) ∷ rest) pending' rest') q
        (subst (λ z. Awaited x pending (received (ok x) ∷ rest) z rest')
          (ap (λ (r : Waited). r.1) h)
          (subst (λ z. Awaited x pending (received (ok x) ∷ rest) pending z)
            (ap (λ (r : Waited). r.2) h) ([], refl, sym (append-nil pending), tt, e, inl refl)))
  wait_step-ok (ok false) x pending rest more m pending' rest' e k h =
      elim (Bool-cases (ltb 256 (length (pending ++ x ∷ [])))) [
        | inl full ↦ absurd (overflow-ok x pending rest more h full)
        | inr room ↦
            let (passed, e1, e2, refused, t, b) = k (rw room at h) in
            (
              x ∷ passed,
              ap (λ l. received (ok x) ∷ l) e1,
              e2 ∙ append_assoc pending (x ∷ []) passed,
              (e, refused),
              t,
              inr (within pending' pending x passed e2 b room),
            )
      ]
  wait_step-ok (err z) x pending rest more m pending' rest' e k h = absurd (ground arith)

  wait_loop-ok :
      (pending : List PhoenixFrame) (incoming : List Arrival) (m : PhoenixFrame)
      (pending' : List PhoenixFrame) (rest' : List Arrival)
      → wait_loop p pending incoming ≡ (ok m, pending', rest')
      → Awaited m pending incoming pending' rest'
  unfolding wait_loop
  wait_loop-ok pending [] m pending' rest' h = absurd (ground arith)
  wait_loop-ok pending (expired ∷ rest) m pending' rest' h = absurd (ground arith)
  wait_loop-ok pending (received (err z) ∷ rest) m pending' rest' h = absurd (ground arith)
  wait_loop-ok pending (received (ok x) ∷ rest) m pending' rest' h =
      wait_step-ok (p x) x pending rest _ m pending' rest' refl
        (wait_loop-ok (pending ++ x ∷ []) rest m pending' rest') h

  after_search-ok :
      (c : Channel) (s : Search) (m : PhoenixFrame) (pending' : List PhoenixFrame)
      (rest' : List Arrival)
      → pop_first p c.pending ≡ s
      → after_search p c s ≡ (ok m, pending', rest')
      → Found p m c (record c { pending = pending'; incoming = rest' }) × (p m ≡ ok true)
  after_search-ok c (found y ys) m pending' rest' e h =
      let (before, after, e1, e2, refused, t) = pop_first-found c.pending y ys e in
      subst (λ z. Found p z c (record c { pending = pending'; incoming = rest' }) × (p z ≡ ok true))
        (ok-injective (ap (λ (r : Waited). r.0) h))
        (subst (λ z. Found p y c (record c { pending = z; incoming = rest' }) × (p y ≡ ok true))
          (ap (λ (r : Waited). r.1) h)
          (subst (λ z. Found p y c (record c { pending = ys; incoming = z }) × (p y ≡ ok true))
            (ap (λ (r : Waited). r.2) h)
            (held before after e1 (ap (λ l. record c { pending = l }) e2) refused, t)))
  after_search-ok c absent m pending' rest' e h =
      let (passed, e1, e2, refused, t, b) = wait_loop-ok c.pending c.incoming m pending' rest' h in
      (
        arrived passed e1 (ap (λ l. record c { pending = l; incoming = rest' }) e2)
            (pop_first-absent c.pending e) refused b,
        t,
      )
  after_search-ok c (broken z) m pending' rest' e h = absurd (ground arith)

  -- A wait that returns has found the first frame, in the order of their arrival, that satisfies the
  -- predicate: it returns that frame, the predicate refused each before it, the frames put aside
  -- stay in order with those that were passed over behind them, no other frame is taken from the
  -- connection, and at most 256 are put aside by a wait that passes any over.
  pub wait_message-Found :
      (c c' : Channel) (m : PhoenixFrame)
      → wait_message p c ≡ (ok m, c')
      → Found p m c c' × (p m ≡ ok true)
  unfolding wait_message
  wait_message-Found c c' m h =
      let r : Waited = after_search p c (pop_first p c.pending) in
      subst (λ z. Found p m c z × (p m ≡ ok true))
        (ap (λ (x : Result Problem PhoenixFrame × Channel). x.1) h)
        (after_search-ok c (pop_first p c.pending) m r.1 r.2 refl
          (ap (λ (x : Result Problem PhoenixFrame × Channel). (x.0, r.1, r.2)) h))
