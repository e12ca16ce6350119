-- ===== src/Recovery/Triples.antt =====
-- Reasoning about the actions of Recovery/Store: a property that every state of the files has, and what
-- holds where an action begins and where it returns.
use liqi_platform.Prelude.{String, Option, none, some, All, Result, ok, err}
use liqi_platform.Recovery.Values.{Exc, handled, World}
use liqi_platform.Recovery.Store.{
  Files, Disk, Action, proceed, ◌>>=◌, operation, moved, finally, after_cleanup,
}

-- Every state so far has the property.
pub record Always (P : Files → Type 0) (d : Disk) : Type 0 where
  pub now : P d.files
  pub before : All P d.past

abbrev pub Returned : {A : Type 0} → (Files → Type 0) → Result Exc A × Disk → Type 0
Returned Q (ok a, d) = Q d.files
Returned Q (err e, d) = Unit

pub record Outcome (P : Files → Type 0) {A : Type 0} (Q : Files → Type 0) (r : Result Exc A × Disk)
    : Type 0 where
  pub always : Always P r.1
  pub returned : Returned Q r

-- From a state with `R`, the action passes only through states with `P`, and returns in one with `Q`.
pub record Triple (P : Files → Type 0) (R : Files → Type 0) {A : Type 0} (m : Action A)
    (Q : Files → Type 0) : Type 0 where
  pub run : (d : Disk) → Always P d → R d.files → Outcome P Q (m d)

module _ {P : Files → Type 0} where
  proceed-Outcome :
      {A B : Type 0} {Q S : Files → Type 0} (r : Result Exc A) (d : Disk) (f : A → Action B)
      → Outcome P Q (r, d)
      → ((a : A) → Triple P Q (f a) S)
      → Outcome P S (proceed r f d)
  proceed-Outcome (ok a) d f o k = (k a).run d o.always o.returned
  proceed-Outcome (err e) d f o k = record { always = o.always; returned = tt }

  pub bind-Triple :
      {A B : Type 0} {R Q S : Files → Type 0} {m : Action A} {f : A → Action B}
      → Triple P R m Q
      → ((a : A) → Triple P Q (f a) S)
      → Triple P R (m >>= f) S
  unfolding ◌>>=◌
  bind-Triple {m} {f} t k = record {
    run = λ d a h. proceed-Outcome (m d).0 (m d).1 f (t.run d a h) k;
  }

  pub pre-Triple :
      {A : Type 0} {R S Q : Files → Type 0} {m : Action A}
      → ((f : Files) → S f → R f)
      → Triple P R m Q
      → Triple P S m Q
  pre-Triple k t = record { run = λ d a h. t.run d a (k d.files h) }

  after_cleanup-Outcome :
      {A : Type 0} {Q : Files → Type 0} (r : Result Exc A) (d : Disk)
      (c : Result Exc (Unit {0}) × Disk)
      → Returned Q (r, d)
      → (Q d.files → Outcome P Q c)
      → Outcome P P c
      → Outcome P Q (after_cleanup r c)
  after_cleanup-Outcome (ok a) d (ok u, d') q k o = record {
    always = (k q).always;
    returned = (k q).returned;
  }
  after_cleanup-Outcome (ok a) d (err e, d') q k o = record { always = o.always; returned = tt }
  after_cleanup-Outcome (err x) d (ok u, d') q k o = record { always = o.always; returned = tt }
  after_cleanup-Outcome (err x) d (err e, d') q k o = record { always = o.always; returned = tt }

  -- The cleanup keeps what the action returned with, and runs in any state with `P`.
  pub finally-Triple :
      {A : Type 0} {R Q : Files → Type 0} {m : Action A} {cleanup : Action (Unit {0})}
      → Triple P R m Q
      → Triple P Q cleanup Q
      → Triple P P cleanup P
      → Triple P R (finally m cleanup) Q
  finally-Triple {m} {cleanup} t k c = record {
    run = λ d a h.
        let o = t.run d a h in
        after_cleanup-Outcome (m d).0 (m d).1 (cleanup (m d).1) o.returned
          (λ q. k.run (m d).1 o.always q) (c.run (m d).1 o.always o.always.now);
  }

  operation-Outcome :
      {Q : Files → Type 0} (w : World) (done refused : Files) (d : Disk)
      → Always P d
      → P done
      → Q done
      → P refused
      → Outcome P Q (operation w done refused d)
  unfolding operation
  operation-Outcome {Q} w done refused d a p q n = go (w.refusal d.count)
    where
      go :
          (o : Option String)
          → Outcome P Q (elim o as (λ x. Result Exc (Unit {0}) × Disk) [
            | none ↦ (ok tt, moved done d)
            | some text ↦ (err (handled text), moved refused d)
          ])
      go none = record { always = record { now = p; before = (a.now, a.before) }; returned = q }
      go (some text) = record {
        always = record { now = n; before = (a.now, a.before) };
        returned = tt;
      }

  -- One operation, from what it does to the files and what it leaves refused.
  pub operation-Triple :
      {R Q : Files → Type 0} (w : World) (done refused : Disk → Files)
      → ((d : Disk) → P d.files → R d.files → P (done d) × Q (done d) × P (refused d))
      → Triple P R (λ d. operation w (done d) (refused d) d) Q
  operation-Triple w done refused k = record {
    run =
        λ d a h. let (p, q, n) = k d a.now h in operation-Outcome w (done d) (refused d) d a p q n;
  }
