-- ===== src/Recovery/Store.antt =====
-- The files of recovery_contract.py: `write_json_with_checksum`, `expected_checksum`, `load_json` and
-- `validate_checksummed_document`. Each operation on the file system may be refused, and every
-- state that the files pass through is kept.
use liqi_platform.Prelude.{
  ℕ, suc, String, ◌<>◌, Option, none, some, List, ◌∷◌, ◌==◌, string_eq, nat_eq, if◌then◌else◌,
  Result, ok, err, and_then,
}
use liqi_platform.Prelude.Texts.{size, first_word, lower}
use liqi_platform.Prelude.Json.{Json}
use liqi_platform.Recovery.Values.{Exc, handled, World, validate}

-- The text at each path.
abbrev pub Files : Type 0
Files = String → Option String

pub record Disk : Type 0 where
  pub files : Files
  -- the states before, newest first
  pub past : List Files
  -- how many operations were tried
  pub count : ℕ

abbrev pub Action : Type 0 → Type 0
Action A = Disk → Result Exc A × Disk

module _ {A B : Type 0} where
  abbrev pub proceed : Result Exc A → (A → Action B) → Action B
  proceed (ok a) f d = f a d
  proceed (err e) f d = (err e, d)

  infixl 5 ◌>>=◌ ◌>>◌
  unfoldable pub ◌>>=◌ : Action A → (A → Action B) → Action B
  ◌>>=◌ m f d = let (r, d') = m d in proceed r f d'

  abbrev pub ◌>>◌ : Action A → Action B → Action B
  m >> n = m >>= λ _. n

abbrev pub pure : {A : Type 0} → A → Action A
pure a d = (ok a, d)

abbrev pub lift : {A : Type 0} → Result Exc A → Action A
lift r d = (r, d)

abbrev pub put : String → Option String → Files → Files
put path content files p = if p == path then content else files p

-- The files after an operation, whether it returned or not.
abbrev pub moved : Files → Disk → Disk
moved files d = record { files = files; past = d.files ∷ d.past; count = suc d.count }

-- `finally`: what it raises takes the place of the outcome.
abbrev pub after_cleanup :
    {A : Type 0} → Result Exc A → Result Exc (Unit {0}) × Disk → Result Exc A × Disk
after_cleanup r (ok done, d) = (r, d)
after_cleanup r (err e, d) = (err e, d)

abbrev pub finally : {A : Type 0} → Action A → Action (Unit {0}) → Action A
finally m cleanup d = let (r, d') = m d in after_cleanup r (cleanup d')

-- A path under a directory.
abbrev pub Target : Type 0
Target = String × String

abbrev pub path : Target → String
path t = t.0 <> "/" <> t.1

-- `Path(str(output) + ".sha256")`
abbrev pub sidecar : Target → Target
sidecar t = (t.0, t.1 <> ".sha256")

-- `output.with_name(f".{output.name}.{token}.tmp")`
abbrev pub temporary : String → Target → Target
temporary token t = (t.0, "." <> t.1 <> "." <> token <> ".tmp")

abbrev content_of : Option String → Result Exc String
content_of (some text) = ok text
content_of none = err (handled "No such file or directory")

module _ (w : World) where
  -- An operation, with the files that it leaves done and refused.
  unfoldable pub operation : Files → Files → Action (Unit {0})
  operation done refused d = elim (w.refusal d.count) [
    | none ↦ (ok tt, moved done d)
    | some text ↦ (err (handled text), moved refused d)
  ]

  -- `open("wb")`, which leaves an empty file, the write, which may leave a part, and `fsync`.
  unfoldable pub write_synced : String → String → Action (Unit {0})
  write_synced p content = do
    (λ d. operation (put p (some "") d.files) d.files d)
    (λ d. operation (put p (some content) d.files) (put p (some (w.torn d.count)) d.files) d)
    (λ d. operation d.files d.files d)

  -- `os.replace`
  unfoldable pub replace_file : String → String → Action (Unit {0})
  replace_file from to d = operation (put from none (put to (d.files from) d.files)) d.files d

  -- `unlink(missing_ok=True)`
  unfoldable pub unlink : String → Action (Unit {0})
  unlink p d = operation (put p none d.files) d.files d

  abbrev pub make_parent : Action (Unit {0})
  make_parent d = operation d.files d.files d

  -- `path.parent.mkdir(...)` and `path.write_text(text)`, in place.
  unfoldable pub write_text : String → String → Action (Unit {0})
  write_text p text = do
    make_parent
    (λ d. operation (put p (some "") d.files) d.files d)
    (λ d. operation (put p (some text) d.files) (put p (some (w.torn d.count)) d.files) d)

  abbrev pub sidecar_text : String → String → String
  sidecar_text encoded name = w.sha256 encoded <> ("  " <> name <> "\n")

  -- The body of the `try` block.
  unfoldable pub install : Target → String → Action (Unit {0})
  install t encoded = do
    write_synced (path (temporary w.token t)) encoded
    write_synced (path (temporary w.token (sidecar t))) (sidecar_text encoded t.1)
    replace_file (path (temporary w.token t)) (path t)
    replace_file (path (temporary w.token (sidecar t))) (path (sidecar t))

  unfoldable pub remove_temporaries : Target → Action (Unit {0})
  remove_temporaries t = do
    unlink (path (temporary w.token t))
    unlink (path (temporary w.token (sidecar t)))

  unfoldable pub write_json_with_checksum : Target → Json → Action (Unit {0})
  write_json_with_checksum t value = do
    make_parent
    finally (install t (w.dumps value)) (remove_temporaries t)

  abbrev pub checksum_of : String → String → Result Exc String
  checksum_of p text =
      if size (first_word text) == 64
      then ok (lower (first_word text))
      else err (handled ("invalid SHA-256 sidecar: " <> p))

  -- `path.read_text`
  abbrev pub read_text : Files → String → Result Exc String
  read_text files p = content_of (files p)

  unfoldable pub expected_checksum : Files → String → Result Exc String
  expected_checksum files p = and_then (read_text files p) (checksum_of p)

  unfoldable pub sha256_file : Files → String → Result Exc String
  sha256_file files p = and_then (read_text files p) λ text. ok (w.sha256 text)

  abbrev pub parsed : String → Result String Json → Result Exc Json
  parsed p (ok v) = ok v
  parsed p (err e) = err (handled ("cannot read JSON " <> p <> ": " <> e))

  abbrev loaded : String → Result Exc String → Result Exc Json
  loaded p (ok text) = parsed p (w.loads text)
  loaded p (err (handled e)) = err (handled ("cannot read JSON " <> p <> ": " <> e))
  loaded p (err e) = err e

  unfoldable pub load_json : Files → String → Result Exc Json
  load_json files p = loaded p (read_text files p)

  abbrev pub mismatch : String → String → String → String
  mismatch kind expected actual =
      kind <> " checksum mismatch: expected=" <> expected <> " actual=" <> actual

  abbrev pub valid : String → Json → Result Exc Json
  valid schema document = and_then (validate w schema document) λ done. ok document

  abbrev pub checked : String → String → Files → String → String → String → Result Exc Json
  checked kind schema files p expected actual =
      if expected == actual
      then and_then (load_json files p) (valid schema)
      else err (handled (mismatch kind expected actual))

  abbrev pub checked_document : String → String → Files → String → String → Result Exc Json
  checked_document kind schema files p sidecar_path =
      and_then (expected_checksum files sidecar_path) λ expected.
        and_then (sha256_file files p) λ actual. checked kind schema files p expected actual

  unfoldable pub validate_metadata : Files → String → String → Result Exc Json
  unfolding expected_checksum sha256_file load_json
  validate_metadata = checked_document "backup metadata" "backup-metadata-v1.schema.json"

  unfoldable pub validate_checksummed_document : String → Files → String → String → Result Exc Json
  unfolding expected_checksum sha256_file load_json
  validate_checksummed_document = checked_document "document"
