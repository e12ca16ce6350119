-- ===== src/Recovery/ReadBack.antt =====
-- A document that `write_json_with_checksum` of recovery_contract.py wrote is read back by
-- `validate_checksummed_document`.
use Prim.Native.String.{count}
use liqi_platform.Prelude.{
  String, ◌<>◌, Option, some, [], ◌≡◌, subst, nat_eq, string_eq, eq_refl, ok,
}
use liqi_platform.Prelude.Json.{Json}
use liqi_platform.Recovery.Values.{World, validate, ◌>>=◌}
use liqi_platform.Recovery.Store.{
  Files, Disk, Target, path, sidecar, sidecar_text, checksum_of, expected_checksum, sha256_file,
  load_json, valid, validate_checksummed_document, write_json_with_checksum,
}
use liqi_platform.Recovery.Paths.{paths-Distinct}
use liqi_platform.Recovery.Triples.{Returned}
use liqi_platform.Recovery.Stages.{At}
use liqi_platform.Recovery.Durable.{begin, write-Outcome}
use liqi_platform.Recovery.Digests.{IsDigest, first_word-digest, lower-digest}

module _ (w : World) (schema : String) (t : Target) where
  checksum_of-sidecar :
      (p new : String)
      → IsDigest (w.sha256 new)
      → checksum_of w p (sidecar_text w new t.1) ≡ ok (w.sha256 new)
  checksum_of-sidecar p new d =
      rw (first_word-digest (w.sha256 new) (t.1 <> "\n") d, d.length, lower-digest (w.sha256 new) d)

  expected_checksum-At :
      (new : String) (f : Files) {o : Option String}
      → At t o (some (sidecar_text w new t.1)) f
      → IsDigest (w.sha256 new)
      → expected_checksum w f (path (sidecar t)) ≡ ok (w.sha256 new)
  unfolding expected_checksum
  expected_checksum-At new f a d = rw a.checksum (checksum_of-sidecar (path (sidecar t)) new d)

  sha256_file-At :
      (new : String) (f : Files) {c : Option String}
      → At t (some new) c f
      → sha256_file w f (path t) ≡ ok (w.sha256 new)
  unfolding sha256_file
  sha256_file-At new f a = rw a.output

  loaded-At :
      (new : String) (f : Files) {c : Option String} {value : Json}
      → At t (some new) c f
      → w.loads new ≡ ok value
      → load_json w f (path t) ≡ ok value
  unfolding load_json
  loaded-At new f a h = rw (a.output, h)

  valid_lem :
      (value : Json) → w.schema_errors schema value ≡ ok [] → valid w schema value ≡ ok value
  unfolding validate ◌>>=◌
  valid_lem value h = rw h

  -- The new text and its sidecar are accepted.
  accept-new :
      (value : Json) (f : Files)
      → At t (some (w.dumps value)) (some (sidecar_text w (w.dumps value) t.1)) f
      → IsDigest (w.sha256 (w.dumps value))
      → w.loads (w.dumps value) ≡ ok value
      → w.schema_errors schema value ≡ ok []
      → validate_checksummed_document w schema f (path t) (path (sidecar t)) ≡ ok value
  unfolding validate_checksummed_document
  accept-new value f a d h k =
      rw
        (
          expected_checksum-At (w.dumps value) f a d,
          sha256_file-At (w.dumps value) f a,
          eq_refl (w.sha256 (w.dumps value)),
          loaded-At (w.dumps value) f a h,
        )
        (valid_lem value k)

-- A write that returns is read back as the document that was written, from any files before it: the
-- token has 32 characters, the digest of the text 64 lower-case hexadecimal digits, the text loads
-- as the document, and the document meets the schema.
pub write_json_with_checksum-read_back :
    (w : World) (schema : String) (t : Target) (value : Json) (files : Files) {d : Disk}
    → count w.token ≡ 32
    → IsDigest (w.sha256 (w.dumps value))
    → w.loads (w.dumps value) ≡ ok value
    → w.schema_errors schema value ≡ ok []
    → write_json_with_checksum w t value (begin files) ≡ (ok tt, d)
    → validate_checksummed_document w schema d.files (path t) (path (sidecar t)) ≡ ok value
write_json_with_checksum-read_back w schema t value files {d} n digest h k run =
    let o = write-Outcome w t value files (paths-Distinct w.token t n) in
    accept-new w schema t value d.files
      (subst (Returned (At t (some (w.dumps value)) (some (sidecar_text w (w.dumps value) t.1))))
        run o.returned)
      digest h k
