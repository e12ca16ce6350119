-- ===== src/Recovery/Rebuilt.antt =====
-- `command_reconstruct_metadata` of recovery_contract.py against `command_create_metadata`.
use mathlib.Core.List.{Memᴰ}
use mathlib.Core.List.Memᴰ
use mathlib.Core.Logic.{⊎_elim}
use liqi_platform.Prelude.Int.{ℤ}
use liqi_platform.Prelude.{
  String, Bool, true, false, Option, none, some, List, All-Memᴰ, ◌≡◌, refl, ap, sym, subst, ◌∙◌,
  arith, Result, ok, ok-injective, eq_refl, string_eq, if◌then◌else◌, ◌==◌,
}
use liqi_platform.Prelude.Json.{
  Fields, end, field, Json, null, bool, int, float, lookup, obj, str, arr,
}
use liqi_platform.Recovery.Values.{
  Exc, found, timestamp, ◌>>=◌, World, member, member_or_empty, index, validate,
}
use liqi_platform.Recovery.Store.{Files, load_json, sha256_file}
use liqi_platform.Recovery.Backups.{Selector, is_candidate, backups_of, select_backup}
use liqi_platform.Recovery.Metadata.{
  Parts, backup_parts, source_section, backup_section, migration_section, probe_section,
  build_metadata, metadata_from_backup,
}
use liqi_platform.Recovery.Creation.{
  CreateArgs, admit_state, expected_annotations, check_annotations, read_info, by_run, by_label,
  created, reconstructed,
}
use liqi_platform.Recovery.Checks.{inner}
use liqi_platform.Recovery.Steps.{on_ok}
use liqi_platform.Recovery.Selection.{Unique, First, is_named, find_stanza-eq}
use liqi_platform.Recovery.Matching.{OnlyMatch-Unique}
use liqi_platform.Recovery.Selected.{Selected, select_backup-Selected}

false-true : {r : Result Exc Bool} → r ≡ ok false → r ≡ ok true → ⊥
false-true h k = cc

module _ {test : Json → Result Exc Bool} where
  Unique-Memᴰ : {xs : List Json} {x : Json} → Unique test xs x → Memᴰ x xs
  Unique-Memᴰ {x} u = subst (Memᴰ x) (sym u.split) (Memᴰ.append_right u.before (Memᴰ.head refl))

  Unique-eq :
      {xs : List Json} {x : Json} (y : Json)
      → Unique test xs x
      → Memᴰ y xs
      → test y ≡ ok true
      → y ≡ x
  Unique-eq {x} y u m t =
      ⊎_elim
        (λ b. absurd (false-true (All-Memᴰ (λ y. test y ≡ ok false) u.before u.none_before b) t))
        (λ c.
          ⊎_elim (λ e. e)
            (λ a. absurd (false-true (All-Memᴰ (λ y. test y ≡ ok false) u.after u.none_after a) t))
            (Memᴰ.cases_cons c))
        (Memᴰ.append_cases u.before (subst (Memᴰ y) u.split m))

First-eq :
    (name : String) {xs : List Json} {x y : Json}
    → First (is_named name) xs x
    → First (is_named name) xs y
    → x ≡ y
First-eq name f g =
    some-injective (ok-injective (sym (find_stanza-eq name f) ∙ find_stanza-eq name g))
  where
    some-injective : {x y : Json} → some x ≡ some y → x ≡ y
    some-injective h = cc

found-eq-ok : (k : String) (o : Option Json) {x : Json} → found k o ≡ ok x → o ≡ some x
found-eq-ok k (some v) h = ap some (ok-injective h)
found-eq-ok k none h = absurd (ground arith)

index-member : (k : String) (v : Json) {x : Json} → index k v ≡ ok x → member k v ≡ ok (some x)
index-member k (obj fs) h = ap ok (found-eq-ok k (lookup k fs) h)
index-member k null h = absurd (ground arith)
index-member k (bool b) h = absurd (ground arith)
index-member k (int n) h = absurd (ground arith)
index-member k (float m e) h = absurd (ground arith)
index-member k (str s) h = absurd (ground arith)
index-member k (arr xs) h = absurd (ground arith)

abbrev stamped_fields : String → Fields → Fields
stamped_fields t end = end
stamped_fields t (field k v rest) =
    let others = stamped_fields t rest in
    if k == "generatedAt" then field k (str t) rest else field k v others

-- A document with this text as its "generatedAt", and all else as it was.
abbrev pub restamped : String → Json → Json
restamped t (obj fs) = obj (stamped_fields t fs)
restamped t v = v

-- A backup with the label is a candidate for it.
label-candidate :
    (label : String) (backup : Json)
    → index "label" backup ≡ ok (str label)
    → is_candidate (by_label label) backup ≡ ok true
unfolding is_candidate ◌>>=◌
label-candidate label backup h = rw (index-member "label" backup h, eq_refl label)

module _ (w : World) where
  backup_section-label :
      (raw : String) (backup : Json) (p : Parts) {stored v : Json}
      → backup_section w raw backup p ≡ ok stored
      → index "label" stored ≡ ok v
      → index "label" backup ≡ ok v
  unfolding backup_section
  backup_section-label raw backup p h k = on_ok (index "label" backup) _ h λ label e h.
      on_ok (index "type" backup) _ h λ kind f h. on_ok (index "start" p.times) _ h λ start f h.
        on_ok (timestamp w start) _ h λ started f h. on_ok (index "stop" p.times) _ h λ stop f h.
          on_ok (timestamp w stop) _ h λ stopped f h.
            on_ok (member "start" p.archive) _ h λ archive_start f h.
              on_ok (member "stop" p.archive) _ h
                λ archive_stop f h. e ∙ ap (index "label") (ok-injective h) ∙ k

  build_metadata-label :
      (now : ℤ) (raw : String) (backup : Json) (p : Parts) {m v : Json}
      → build_metadata w now raw backup p ≡ ok m
      → inner "backup" "label" m ≡ ok v
      → index "label" backup ≡ ok v
  unfolding build_metadata
  build_metadata-label now raw backup p {m} h k =
      on_ok (index "liqi-run-id" p.annotation) _ h λ run_id f h.
        on_ok (source_section w p.annotation) _ h λ source f h.
          on_ok (backup_section w raw backup p) _ h λ stored e h.
            on_ok (index "liqi-postgresql-version" p.annotation) _ h λ version f h.
              on_ok (migration_section w p.annotation) _ h λ migration f h.
                on_ok (probe_section w p.annotation) _ h λ probe f h.
                  on_ok (index "backup" m) _ k λ s g k.
                    let same : stored ≡ s =
                      ok-injective (ap (index "backup") (ok-injective h) ∙ g) in
                    backup_section-label raw backup p e (ap (index "label") same ∙ k)

  metadata_from_backup-label :
      (now : ℤ) (raw : String) (stanza backup : Json) {m v : Json}
      → metadata_from_backup w now raw stanza backup ≡ ok m
      → inner "backup" "label" m ≡ ok v
      → index "label" backup ≡ ok v
  unfolding metadata_from_backup
  metadata_from_backup-label now raw stanza backup h k =
      on_ok (backup_parts stanza backup) _ h λ parts f h.
        on_ok (build_metadata w now raw backup parts) _ h λ m e h.
          on_ok (validate w "backup-metadata-v1.schema.json" m) _ h λ done f h.
            build_metadata-label now raw backup parts e
              (ap (inner "backup" "label") (ok-injective h) ∙ k)

  -- Two selections in one document, where the second selector admits the first backup.
  Selected-same :
      (info : Json) (name : String) (s r : Selector) {stanza backup stanza' backup' : Json}
      → Selected info name s stanza backup
      → Selected info name r stanza' backup'
      → is_candidate r backup ≡ ok true
      → (stanza ≡ stanza') × (backup ≡ backup')
  Selected-same info name s r {stanza} {backup} {stanza'} a b h =
      let stanzas : a.stanzas ≡ b.stanzas = ok-injective (sym a.array ∙ b.array) in
      let same : stanza ≡ stanza' =
        First-eq name (subst (λ xs. First (is_named name) xs stanza) stanzas a.first) b.first in
      let backups : a.backups ≡ b.backups =
        ok-injective (sym a.listed ∙ ap backups_of same ∙ b.listed) in
      (
        same,
        Unique-eq backup (OnlyMatch-Unique r b.unique)
            (subst (Memᴰ backup) backups (Unique-Memᴰ (OnlyMatch-Unique s a.unique))) h,
      )

  created-metadata :
      (now : ℤ) (files : Files) (args : CreateArgs) {raw : String} {info m : Json}
      → read_info w files args.info ≡ ok (raw, info)
      → created w now files args ≡ ok m
      → (stanza : Json) × (backup : Json) × (select_backup w info "liqi" (by_run args)
          ≡ ok (stanza, backup))
        × (metadata_from_backup w now raw stanza backup ≡ ok m)
  unfolding created
  created-metadata now files args {raw} {info} {m} e h =
      on_ok (read_info w files args.info) _ h λ read f h.
        on_ok (load_json w files args.database_state) _ h λ state g h.
          on_ok (select_backup w read.1 "liqi" (by_run args)) _ h λ chosen s h.
            on_ok (member_or_empty "annotation" chosen.1) _ h λ annotation g h.
              on_ok (admit_state w state) _ h λ probe g h.
                on_ok (sha256_file w files args.manifest) _ h λ manifest_sha g h.
                  on_ok (expected_annotations w args state probe manifest_sha) _ h λ expected g h.
                    on_ok (check_annotations w annotation expected) _ h λ done g h.
                      let same : read ≡ (raw, info) = ok-injective (sym f ∙ e) in
                      (
                        chosen.0,
                        chosen.1,
                        subst (λ r. select_backup w r.1 "liqi" (by_run args) ≡ ok chosen) same s,
                        subst (λ r. metadata_from_backup w now r.0 chosen.0 chosen.1 ≡ ok m) same h,
                      )

  reconstructed-metadata :
      (now : ℤ) (files : Files) (p label : String) {raw : String} {info stanza backup m : Json}
      → read_info w files p ≡ ok (raw, info)
      → select_backup w info "liqi" (by_label label) ≡ ok (stanza, backup)
      → metadata_from_backup w now raw stanza backup ≡ ok m
      → reconstructed w now files p label ≡ ok m
  unfolding reconstructed ◌>>=◌
  reconstructed-metadata now files p label e s h = rw (e, s) h

  -- The document as another reading of the clock would have it.
  build_metadata-restamped :
      (now now' : ℤ) (raw : String) (backup : Json) (p : Parts) {m : Json}
      → build_metadata w now raw backup p ≡ ok m
      → build_metadata w now' raw backup p ≡ ok (restamped (w.iso now') m)
  unfolding build_metadata ◌>>=◌
  build_metadata-restamped now now' raw backup p {m} h =
      on_ok (index "liqi-run-id" p.annotation) _ h λ run_id e1 h.
        on_ok (source_section w p.annotation) _ h λ source e2 h.
          on_ok (backup_section w raw backup p) _ h λ stored e3 h.
            on_ok (index "liqi-postgresql-version" p.annotation) _ h λ version e4 h.
              on_ok (migration_section w p.annotation) _ h λ migration e5 h.
                on_ok (probe_section w p.annotation) _ h λ probe e6 h.
                  rw (e1, e2, e3, e4, e5, e6)
                    (ap (λ x. ok (restamped (w.iso now') x)) (ok-injective h))

  metadata_from_backup-restamped :
      (now now' : ℤ) (raw : String) (stanza backup : Json) {m : Json}
      → metadata_from_backup w now raw stanza backup ≡ ok m
      → validate w "backup-metadata-v1.schema.json" (restamped (w.iso now') m) ≡ ok tt
      → metadata_from_backup w now' raw stanza backup ≡ ok (restamped (w.iso now') m)
  unfolding metadata_from_backup ◌>>=◌
  metadata_from_backup-restamped now now' raw stanza backup {m} h valid =
      on_ok (backup_parts stanza backup) _ h λ parts e1 h.
        on_ok (build_metadata w now raw backup parts) _ h λ made e2 h.
          on_ok (validate w "backup-metadata-v1.schema.json" made) _ h λ done e3 h.
            let again : build_metadata w now' raw backup parts ≡ ok (restamped (w.iso now') m) =
              build_metadata-restamped now now' raw backup parts (e2 ∙ h) in
            rw (e1, again, valid) refl

  -- Where `create-metadata` makes a document, its label names one backup alone, and the document with the
  -- time of a later call meets the schema, `reconstruct-metadata` makes at that time, from the
  -- repository's info, the same document but for that time in "generatedAt".
  pub reconstructed-created :
      (now now' : ℤ) (files : Files) (args : CreateArgs) (label raw : String)
      {info stanza backup m : Json}
      → read_info w files args.info ≡ ok (raw, info)
      → created w now files args ≡ ok m
      → inner "backup" "label" m ≡ ok (str label)
      → select_backup w info "liqi" (by_label label) ≡ ok (stanza, backup)
      → validate w "backup-metadata-v1.schema.json" (restamped (w.iso now') m) ≡ ok tt
      → reconstructed w now' files args.info label ≡ ok (restamped (w.iso now') m)
  reconstructed-created now now' files args label raw {info} {stanza} {backup} {m} e h l s valid =
      let (st, b, c, made) = created-metadata now files args e h in
      let same : (st ≡ stanza) × (b ≡ backup) =
        Selected-same info "liqi" (by_run args) (by_label label)
          (select_backup-Selected w info "liqi" (by_run args) c)
          (select_backup-Selected w info "liqi" (by_label label) s)
          (label-candidate label b (metadata_from_backup-label now raw st b made l)) in
      reconstructed-metadata now' files args.info label e s (
        subst (λ x. metadata_from_backup w now' raw x backup ≡ ok (restamped (w.iso now') m)) same.0
          (subst (λ x. metadata_from_backup w now' raw st x ≡ ok (restamped (w.iso now') m)) same.1
            (metadata_from_backup-restamped now now' raw st b made valid)))
