-- ===== src/Recovery/WriteExamples.antt =====
-- The theorems on `write_json_with_checksum` of recovery_contract.py at concrete writes.
use mathlib.Core.List.Memᴰ
use liqi_platform.Prelude.{none, some, refl, ok, ◌≡◌, ◌⊎◌}
use liqi_platform.Prelude.Texts.{first_word, lower}
use liqi_platform.Recovery.Values.{World, ◌>>=◌, validate}
use liqi_platform.Recovery.Store
use liqi_platform.Recovery.Store.{
  Disk, path, sidecar, operation, write_synced, replace_file, unlink, install, remove_temporaries,
  write_json_with_checksum, expected_checksum, sha256_file, load_json,
  validate_checksummed_document,
}
use liqi_platform.Recovery.Durable.{begin}
use liqi_platform.Recovery.Digests.{IsDigest}
use liqi_platform.Recovery.Accepts.{write_json_with_checksum-accepts}
use liqi_platform.Recovery.ReadBack.{write_json_with_checksum-read_back}
use liqi_platform.Recovery.Progress.{write_json_with_checksum-completes}
use liqi_platform.Recovery.Scenario.{world, output, new_document, two_documents, old_files, digest}

abbrev free : World
free = world two_documents none

digest-IsDigest : IsDigest digest
digest-IsDigest = record { length = refl; digits = refl }

abbrev after_write : Disk
after_write = (write_json_with_checksum free output new_document (begin old_files)).1

write_json_with_checksum-completes_example :
    (d : Disk) × (write_json_with_checksum free output new_document (begin old_files) ≡ (ok tt, d))
    × (validate_checksummed_document free "backup-metadata-v1.schema.json" d.files
          (path output)
          (path (sidecar output))
        ≡ ok new_document)
write_json_with_checksum-completes_example =
    write_json_with_checksum-completes free "backup-metadata-v1.schema.json" output new_document
      old_files refl digest-IsDigest refl refl λ n. refl

write_json_with_checksum-read_back_example :
    validate_checksummed_document free "backup-metadata-v1.schema.json" after_write.files
      (path output)
      (path (sidecar output))
    ≡ ok new_document
unfolding Store.◌>>=◌ operation write_synced replace_file unlink install remove_temporaries
    write_json_with_checksum
write_json_with_checksum-read_back_example =
    write_json_with_checksum-read_back free "backup-metadata-v1.schema.json" output new_document
      old_files refl digest-IsDigest refl refl refl

-- The replacement of the sidecar is refused: the new output stands under the old sidecar.
abbrev full : World
full = world two_documents (some 8)

abbrev after_refusal : Disk
after_refusal = (write_json_with_checksum full output new_document (begin old_files)).1

write_json_with_checksum-accepts_example :
    (validate_checksummed_document full "backup-metadata-v1.schema.json" old_files
        (path output)
        (path (sidecar output))
      ≡ ok new_document)
    ⊎ (full.loads (full.dumps new_document) ≡ ok new_document)
unfolding ◌>>=◌ Store.◌>>=◌ operation write_synced replace_file unlink install remove_temporaries
    write_json_with_checksum expected_checksum sha256_file load_json validate_checksummed_document
    first_word lower validate
write_json_with_checksum-accepts_example =
    write_json_with_checksum-accepts full "backup-metadata-v1.schema.json" output new_document
      old_files after_refusal.files refl (Memᴰ.head refl) refl
