-- ===== src/Recovery/Progress.antt =====
-- The actions of recovery_contract.py return where the file system refuses none of their operations.
use Prim.Native.String.{count}
use liqi_platform.Prelude.{ℕ, String, none, [], ◌≡◌, ap, ◌∙◌, Result, Returns, Total, ok}
use liqi_platform.Prelude.Json.{Json}
use liqi_platform.Recovery.Values.{Exc, World}
use liqi_platform.Recovery.Store.{
  Files, Disk, Action, Target, path, sidecar, proceed, ◌>>=◌, operation, moved, finally,
  after_cleanup, write_synced, replace_file, unlink, install, remove_temporaries,
  write_json_with_checksum, validate_checksummed_document,
}
use liqi_platform.Recovery.Durable.{begin}
use liqi_platform.Recovery.Digests.{IsDigest}
use liqi_platform.Recovery.ReadBack.{write_json_with_checksum-read_back}

proceed-Returns :
    {A B : Type 0} (r : Result Exc A × Disk) (f : A → Action B)
    → Returns r
    → ((a : A) → Total (f a))
    → Returns (proceed r.0 f r.1)
proceed-Returns r f h k =
    let n = (k h.value).run h.state in
    record {
      value = n.value;
      state = n.state;
      equation = ap (λ s. proceed s.0 f s.1) h.equation ∙ n.equation;
    }

bind-Total :
    {A B : Type 0} {m : Action A} {f : A → Action B}
    → Total m
    → ((a : A) → Total (f a))
    → Total (m >>= f)
unfolding ◌>>=◌
bind-Total {m} {f} h k = record { run = λ d. proceed-Returns (m d) f (h.run d) k }

finally-Total :
    {A : Type 0} {m : Action A} {cleanup : Action (Unit {0})}
    → Total m
    → Total cleanup
    → Total (finally m cleanup)
finally-Total {m} {cleanup} h k = record {
  run = λ d.
      let a = h.run d in
      let c = k.run a.state in
      record {
        value = a.value;
        state = c.state;
        equation =
            ap (λ s. after_cleanup s.0 (cleanup s.1)) a.equation
            ∙ ap (after_cleanup (ok a.value)) c.equation;
      };
}

module _ (w : World) (free : (n : ℕ) → w.refusal n ≡ none) where
  operation-Total : (done refused : Disk → Files) → Total (λ d. operation w (done d) (refused d) d)
  unfolding operation
  operation-Total done refused = record {
    run = λ d. record {
      value = tt;
      state = moved (done d) d;
      equation = rw (operation, free d.count);
    };
  }

  write_synced-Total : (p content : String) → Total (write_synced w p content)
  unfolding write_synced
  write_synced-Total p content =
      bind-Total (operation-Total _ _)
        λ _. bind-Total (operation-Total _ _) λ _. operation-Total _ _

  replace_file-Total : (from to : String) → Total (replace_file w from to)
  unfolding replace_file
  replace_file-Total from to = operation-Total _ _

  unlink-Total : (p : String) → Total (unlink w p)
  unfolding unlink
  unlink-Total p = operation-Total _ _

  install-Total : (t : Target) (new : String) → Total (install w t new)
  unfolding install
  install-Total t new = bind-Total (write_synced-Total _ _) λ _.
      bind-Total (write_synced-Total _ _)
        λ _. bind-Total (replace_file-Total _ _) λ _. replace_file-Total _ _

  remove_temporaries-Total : (t : Target) → Total (remove_temporaries w t)
  unfolding remove_temporaries
  remove_temporaries-Total t = bind-Total (unlink-Total _) λ _. unlink-Total _

  write-Total : (t : Target) (value : Json) → Total (write_json_with_checksum w t value)
  unfolding write_json_with_checksum
  write-Total t value =
      bind-Total (operation-Total _ _)
        λ _. finally-Total (install-Total t (w.dumps value)) (remove_temporaries-Total t)

-- Where the file system refuses nothing, a write returns, and the document is read back: the token has
-- 32 characters, the digest of the text 64 lower-case hexadecimal digits, the text loads as the document, and the
-- document meets the schema.
pub write_json_with_checksum-completes :
    (w : World) (schema : String) (t : Target) (value : Json) (files : Files)
    → count w.token ≡ 32
    → IsDigest (w.sha256 (w.dumps value))
    → w.loads (w.dumps value) ≡ ok value
    → w.schema_errors schema value ≡ ok []
    → ((n : ℕ) → w.refusal n ≡ none)
    → (d : Disk) × (write_json_with_checksum w t value (begin files) ≡ (ok tt, d))
      × (validate_checksummed_document w schema d.files (path t) (path (sidecar t)) ≡ ok value)
write_json_with_checksum-completes w schema t value files n digest h k free =
    let r = (write-Total w free t value).run (begin files) in
    (
      r.state,
      r.equation,
      write_json_with_checksum-read_back w schema t value files n digest h k r.equation,
    )
