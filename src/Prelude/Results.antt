-- ===== src/Prelude/Results.antt =====
-- Results of code that raises: a value, or the exception that left the function.
use mathlib.Core.Path.{◌≡◌, refl}

pub data Result {ℓ} (E A : Type ℓ) : Type ℓ where
  ok : A → Result E A
  err : E → Result E A

module _ {ℓ} {E A B : Type ℓ} where
  abbrev pub and_then : Result E A → (A → Result E B) → Result E B
  and_then (ok a) f = f a
  and_then (err e) f = err e

  pub and_then-eq-ok :
      (m : Result E A) (f : A → Result E B) {b : B}
      → and_then m f ≡ ok b
      → (value : A) × (m ≡ ok value) × (f value ≡ ok b)
  and_then-eq-ok (ok a) f h = (a, refl, h)
  and_then-eq-ok (err e) f h = cc

pub ok-injective {ℓ} : {E A : Type ℓ} {a b : A} → ◌≡◌ {A = Result E A} (ok a) (ok b) → a ≡ b
ok-injective h = cc

-- A step on a state that returned.
pub record Returns {E S A : Type 0} (r : Result E A × S) : Type 0 where
  pub value : A
  pub state : S
  pub equation : r ≡ (ok value, state)

-- A step that returns from every state.
pub record Total {E S A : Type 0} (m : S → Result E A × S) : Type 0 where
  pub run : (s : S) → Returns (m s)
