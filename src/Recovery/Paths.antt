-- ===== src/Recovery/Paths.antt =====
-- The four paths of `write_json_with_checksum` in recovery_contract.py are different, and a change at one of
-- them leaves the others.
use Prim.Native.String.{count}
use text.Mathlib.TextLemmas.{length-append}
use liqi_platform.Prelude.{
  ◌+◌, String, ◌<>◌, false, Option, ◌≡◌, ◌≢◌, ap, ◌==◌, string_eq, eq_refl, eq_of_beq, arith,
  Bool-cases, inl, inr,
}
use liqi_platform.Recovery.Store.{Files, put, Target, path, sidecar, temporary}

differs : (p q : String) → count p ≢ count q → (p == q) ≡ false
differs p q h = elim (Bool-cases (p == q)) [
  | inl e ↦ absurd (h (ap count (eq_of_beq e)))
  | inr e ↦ e
]

pub put_self : (p : String) (x : Option String) (f : Files) → put p x f p ≡ x
put_self p x f = rw (eq_refl p)

pub put_other :
    (p q : String) (x : Option String) (f : Files) → (p == q) ≡ false → put q x f p ≡ f p
put_other p q x f h = rw h

-- The lengths of the four.
count-path : (t : Target) → count (path t) ≡ count t.0 + 1 + count t.1
count-path t = omega (arith, length-append t.0 ("/" <> t.1), length-append "/" t.1)

count-sidecar : (t : Target) → count (path (sidecar t)) ≡ count t.0 + 8 + count t.1
count-sidecar t = omega (arith, count-path (sidecar t), length-append t.1 ".sha256")

count-temporary :
    (token : String) (t : Target)
    → count (path (temporary token t)) ≡ count t.0 + 7 + count t.1 + count token
count-temporary token t = omega (
  arith,
  count-path (temporary token t),
  length-append "." (t.1 <> "." <> token <> ".tmp"),
  length-append t.1 ("." <> token <> ".tmp"),
  length-append "." (token <> ".tmp"),
  length-append token ".tmp",
)

count-temporary_sidecar :
    (token : String) (t : Target)
    → count (path (temporary token (sidecar t))) ≡ count t.0 + 14 + count t.1 + count token
count-temporary_sidecar token t =
    omega (arith, count-temporary token (sidecar t), length-append t.1 ".sha256")

-- The paths: the output, its sidecar, and the temporaries of both.
pub record Distinct (token : String) (t : Target) : Type 0 where
  pub output-sidecar : (path t == path (sidecar t)) ≡ false
  pub output-temporary : (path t == path (temporary token t)) ≡ false
  pub output-temporary_sidecar : (path t == path (temporary token (sidecar t))) ≡ false
  pub sidecar-output : (path (sidecar t) == path t) ≡ false
  pub sidecar-temporary : (path (sidecar t) == path (temporary token t)) ≡ false
  pub sidecar-temporary_sidecar : (path (sidecar t) == path (temporary token (sidecar t))) ≡ false
  pub temporary-temporary_sidecar :
      (path (temporary token t) == path (temporary token (sidecar t))) ≡ false
  pub temporary_sidecar-output : (path (temporary token (sidecar t)) == path t) ≡ false
  pub temporary_sidecar-temporary :
      (path (temporary token (sidecar t)) == path (temporary token t)) ≡ false

-- A token of 32 digits keeps them apart, whatever the output's name is.
pub paths-Distinct : (token : String) (t : Target) → count token ≡ 32 → Distinct token t
paths-Distinct token t h =
    let a = count-path t in
    let b = count-sidecar t in
    let c = count-temporary token t in
    let d = count-temporary_sidecar token t in
    record {
      output-sidecar = differs _ _ (omega arith);
      output-temporary = differs _ _ (omega arith);
      output-temporary_sidecar = differs _ _ (omega arith);
      sidecar-output = differs _ _ (omega arith);
      sidecar-temporary = differs _ _ (omega arith);
      sidecar-temporary_sidecar = differs _ _ (omega arith);
      temporary-temporary_sidecar = differs _ _ (omega arith);
      temporary_sidecar-output = differs _ _ (omega arith);
      temporary_sidecar-temporary = differs _ _ (omega arith);
    }
