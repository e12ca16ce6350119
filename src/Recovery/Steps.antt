-- ===== src/Recovery/Steps.antt =====
-- What a chain of steps of recovery_contract.py did, where it returned.
use liqi_platform.Prelude.{String, Bool, true, false, ◌≡◌, refl, Result, ok, err, arith}
use liqi_platform.Recovery.Values.{Exc, ◌>>=◌, ◌>>◌, require}

module _ {A B C : Type 0} where
  -- The first step returned, and the rest returned from there.
  pub on_ok :
      (m : Result Exc A) (f : A → Result Exc B) {b : B}
      → (m >>= f) ≡ ok b
      → ((a : A) → m ≡ ok a → f a ≡ ok b → C)
      → C
  unfolding ◌>>=◌
  on_ok (ok a) f h next = next a refl h
  on_ok (err e) f h next = absurd (ground arith)

pub require-true : (t : Bool) (text : String) {u : Unit {0}} → require t text ≡ ok u → t ≡ true
require-true true text h = refl
require-true false text h = absurd (ground arith)

pub on_guard :
    {B C : Type 0} (t : Bool) (text : String) (m : Result Exc B) {b : B}
    → (require t text >> m) ≡ ok b
    → (t ≡ true → m ≡ ok b → C)
    → C
on_guard t text m h next = on_ok (require t text) (λ _. m) h λ u e k. next (require-true t text e) k
