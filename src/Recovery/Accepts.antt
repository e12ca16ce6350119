-- ===== src/Recovery/Accepts.antt =====
-- What `validate_checksummed_document` reads after `write_json_with_checksum`, in recovery_contract.py, whether the
-- write returned or was stopped at any of its operations.
use Prim.Native.String.{count}
use liqi_platform.Prelude.{
  String, Option, some, ◌∷◌, All-Memᴰ, ◌≡◌, refl, ap, sym, ◌∙◌, ◌⊎◌, inl, inr, ◌==◌, string_eq,
  Result, ok, err, and_then, and_then-eq-ok, ok-injective, Bool, true, false, if◌then◌else◌,
}
use mathlib.Core.List.{Memᴰ}
use liqi_platform.Prelude.Json.{Json}
use liqi_platform.Recovery.Values.{Exc, handled, World, validate}
use liqi_platform.Recovery.Store.{
  mismatch, Files, Disk, Target, path, sidecar, sidecar_text, expected_checksum, sha256_file,
  load_json, checked, parsed, valid, validate_checksummed_document, write_json_with_checksum,
}
use liqi_platform.Recovery.Paths.{paths-Distinct}
use liqi_platform.Recovery.Triples.{Always}
use liqi_platform.Recovery.Stages.{At, Whole, before, between, after}
use liqi_platform.Recovery.Durable.{states, begin, write-Outcome}

module _ (w : World) (schema : String) (t : Target) where
  abbrev accept : Files → Result Exc Json
  accept f = validate_checksummed_document w schema f (path t) (path (sidecar t))

  -- Only the texts of the two paths matter.
  accept-At : {o c : Option String} (f g : Files) → At t o c f → At t o c g → accept f ≡ accept g
  unfolding validate_checksummed_document expected_checksum sha256_file load_json
  accept-At f g a b = rw (a.output, a.checksum, b.output, b.checksum)

  parsed-eq-ok : (p : String) (r : Result String Json) {v : Json} → parsed w p r ≡ ok v → r ≡ ok v
  parsed-eq-ok p (ok u) h = ap ok (ok-injective h)
  parsed-eq-ok p (err e) h = cc

  load_json-At :
      {text : String} {c : Option String} (f : Files) {v : Json}
      → At t (some text) c f
      → load_json w f (path t) ≡ ok v
      → w.loads text ≡ ok v
  unfolding load_json
  load_json-At {text} f a h = parsed-eq-ok (path t) (w.loads text) (sym read ∙ h)
    where
      read : load_json w f (path t) ≡ parsed w (path t) (w.loads text)
      read = rw a.output

  valid-eq-ok : (u : Json) {v : Json} → valid w schema u ≡ ok v → u ≡ v
  valid-eq-ok u h =
      let (done, hd, h) = and_then-eq-ok (validate w schema u) (λ done. ok u) h in ok-injective h

  checked-eq-ok :
      (f : Files) (expected actual : String) {v : Json}
      → checked w "document" schema f (path t) expected actual ≡ ok v
      → load_json w f (path t) ≡ ok v
  checked-eq-ok f expected actual h = go (expected == actual) h
    where
      go :
          (b : Bool) {v : Json}
          → (if b
              then and_then (load_json w f (path t)) (valid w schema)
              else err (handled (mismatch w "document" expected actual)))
            ≡ ok v
          → load_json w f (path t) ≡ ok v
      go true h =
          let (u, hu, h) = and_then-eq-ok (load_json w f (path t)) (valid w schema) h in
          hu ∙ ap ok (valid-eq-ok u h)
      go false h = cc

  -- A document that is accepted is what the output's text holds.
  accept-loads :
      {text : String} {c : Option String} (f : Files) {v : Json}
      → At t (some text) c f
      → accept f ≡ ok v
      → w.loads text ≡ ok v
  unfolding validate_checksummed_document
  accept-loads f a h =
      let (e, he, h) =
        and_then-eq-ok (expected_checksum w f (path (sidecar t)))
          (λ e.
            and_then (sha256_file w f (path t)) (λ s. checked w "document" schema f (path t) e s))
          h in
      let (s, hs, h) =
        and_then-eq-ok (sha256_file w f (path t)) (λ s. checked w "document" schema f (path t) e s)
          h in
      load_json-At f a (checked-eq-ok f e s h)

Always-Memᴰ :
    {P : Files → Type 0} {f : Files} {d : Disk} → Always P d → Memᴰ f (d.files ∷ d.past) → P f
Always-Memᴰ {P} {d} a m = All-Memᴰ P (d.files ∷ d.past) (a.now, a.before) m

-- What is accepted in a state of the write is what was accepted before it, or the new document.
Whole-accept :
    (w : World) (schema : String) (t : Target) (value : Json) (files f : Files) {v : Json}
    → Whole t
        (files (path t))
        (files (path (sidecar t)))
        (w.dumps value)
        (sidecar_text w (w.dumps value) t.1)
        f
    → accept w schema t f ≡ ok v
    → (accept w schema t files ≡ ok v) ⊎ (w.loads (w.dumps value) ≡ ok v)
Whole-accept w schema t value files f (before a) h =
    inl (accept-At w schema t files f (record { output = refl; checksum = refl }) a ∙ h)
Whole-accept w schema t value files f (between a) h = inr (accept-loads w schema t f a h)
Whole-accept w schema t value files f (after a) h = inr (accept-loads w schema t f a h)

-- In every state that a write passes through or ends in, whichever operations are refused and whatever a
-- refused write leaves behind, a document that `validate_checksummed_document` accepts at the output is
-- one that it accepted before the write, or the one that the new text holds; the token has 32 characters.
pub write_json_with_checksum-accepts :
    (w : World) (schema : String) (t : Target) (value : Json) (files f : Files) {v : Json}
    → count w.token ≡ 32
    → Memᴰ f (states (write_json_with_checksum w t value (begin files)))
    → validate_checksummed_document w schema f (path t) (path (sidecar t)) ≡ ok v
    → (validate_checksummed_document w schema files (path t) (path (sidecar t)) ≡ ok v)
      ⊎ (w.loads (w.dumps value) ≡ ok v)
write_json_with_checksum-accepts w schema t value files f h m k =
    let o = write-Outcome w t value files (paths-Distinct w.token t h) in
    Whole-accept w schema t value files f (Always-Memᴰ o.always m) k
