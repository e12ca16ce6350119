-- ===== src/ReleaseControl/Preflight.antt =====
-- What release_control.py checks before it changes anything: the selected release, the descriptors,
-- the readiness documents, the migration range, configuration and credentials, and the order in
-- which `main` makes these checks.
use liqi_platform.Prelude.{
  ◌*◌, ◌%◌, String, ◌<>◌, Bool, true, false, not, ◌&&◌, ◌||◌, Option, none, some, List, [], ◌∷◌,
  ◌==◌, string_eq, nat_eq, option_eq, leb, is_empty, select, if◌then◌else◌, Result, ok, err,
  and_then,
}
use liqi_platform.Prelude.Int.{ℤ, pos, leb_ℤ}
use liqi_platform.Prelude.Texts.{join}
use liqi_platform.Prelude.Json.{
  Json, int, get, get_eq, is_object, is_text, is_true, is_false, truthy, int_of,
}
use liqi_platform.ReleaseControl.Documents.{Release}
use liqi_platform.ReleaseControl.Host.{
  Exception, runtime_error, other_error, Entry, absent, symlink, plain_file, World,
}

infixl 5 ◌>>=◌ ◌>>◌
abbrev pub ◌>>=◌ :
    {A B : Type 0} → Result Exception A → (A → Result Exception B) → Result Exception B
◌>>=◌ = and_then

abbrev pub ◌>>◌ :
    {B : Type 0} → Result Exception (Unit {0}) → Result Exception B → Result Exception B
m >> n = m >>= λ _. n

-- `if condition: raise error`
abbrev pub refuse_if : Bool → Exception → Result Exception (Unit {0})
refuse_if true e = err e
refuse_if false e = ok tt

abbrev pub or_raise : {A : Type 0} → Option A → Exception → Result Exception A
or_raise none e = err e
or_raise (some a) e = ok a

-- `value or None`: an empty text counts as no value.
abbrev pub non_empty : Option String → Option String
non_empty (some String.[]) = none
non_empty o = o

abbrev pub first_some : Option String → Option String → Option String
first_some (some a) b = some a
first_some none b = b

-- `f"{paths}"` of a list of plain texts
abbrev list_text : List String → String
list_text [] = "[]"
list_text (p ∷ ps) = "['" <> join "', '" (p ∷ ps) <> "']"

module _ (w : World) where
  resolved_name : Option (String × String) → Result Exception (Option String)
  resolved_name none = err (other_error "FileNotFoundError")
  resolved_name (some (parent, name)) =
      if parent == "/opt/liqi/releases"
      then ok (some name)
      else err (runtime_error "current release escapes /opt/liqi/releases")

  unfoldable pub current_release_id : Entry → Result Exception (Option String)
  unfolding resolved_name
  current_release_id absent = ok none
  current_release_id plain_file = err (runtime_error "current link is not a symlink")
  current_release_id (symlink target) = resolved_name (w.resolve target)

  unfoldable pub descriptor : String → Result Exception Release
  unfolding join
  descriptor path = do
    document ← w.load path
    let failures = w.failures "release-target-v1.schema.json" document
    refuse_if (not (is_empty failures))
        (runtime_error ("invalid descriptor " <> path <> ": " <> join "; " failures))
    ok (w.release_view document)

  -- The `exact` condition of a V1 readiness document.
  unfoldable pub exact_readiness : Json → Bool
  unfolding int_of
  exact_readiness d =
      is_text "passed" (get "status" d)
      && is_true (get "ready" d)
      && is_true (get "writeReady" d)
      && is_text "ready" (get "reason" d)
      && get_eq (get "currentVersion" d) (get "requiredVersion" d)
      && get_eq (get "obanMigrationVersion" d) (get "requiredObanMigrationVersion" d)
      && get_eq (get "requiredObanMigrationVersion" d) (some (int (pos 14)))
      && is_false (get "inRecovery" d)

  unfoldable pub v0_readiness : Json → Bool
  v0_readiness d =
      is_text "database-readiness-v0" (get "schemaVersion" d)
      && is_true (get "ready" d)
      && is_text "ready" (get "reason" d)

  current_version : Json → Result Exception ℤ
  unfolding int_of
  current_version d = or_raise (int_of (get "currentVersion" d)) (other_error "currentVersion")

  unfoldable pub version_of : Json → Result Exception ℤ
  unfolding exact_readiness v0_readiness current_version
  version_of d =
      if not (is_object d)
      then err (other_error "AttributeError")
      else if is_text "migration-readiness-v1" (get "schemaVersion" d)
      then (if exact_readiness d
          then current_version d
          else err (runtime_error "V1 migration readiness is not exact and write-ready"))
      else if v0_readiness d
      then current_version d
      else err (runtime_error "database readiness provider is unsupported or not ready")

  unfoldable pub database_version : String → Result Exception ℤ
  unfolding version_of
  database_version path = do document ← w.load path; version_of document

  unfoldable pub compatibility_one : String → Release → ℤ → Result Exception (Unit {0})
  compatibility_one label document version = do
    let boundary = document.database_compatibility
    refuse_if
        (not (
          leb_ℤ (pos boundary.minimum_migration) version
          && leb_ℤ version (pos boundary.rollback_safe_through)))
        (runtime_error ("database version is outside " <> label <> " release compatibility range"))
    refuse_if boundary.database_rollback_allowed
        (runtime_error "database down migration is forbidden")

  unfoldable pub evidence_ready : Release → Result Exception (Unit {0})
  evidence_ready document = do
    let evidence = document.database_compatibility_evidence
    let tampered =
        runtime_error
          ("database compatibility evidence missing/tampered for " <> document.release_id)
    refuse_if (not (w.is_file evidence.retained_path)) tampered
    actual ← w.digest evidence.retained_path
    refuse_if (not (actual == evidence.sha256)) tampered

  unfoldable pub credentials_ready : String → List String → Result Exception (Unit {0})
  credentials_ready root [] = ok tt
  credentials_ready root (name ∷ rest) =
      let path = root <> "/" <> name in
      let others = credentials_ready root rest in
      do
        refuse_if (not (w.is_file path && w.readable path))
            (runtime_error ("required credential unavailable: " <> path))
        refuse_if (not (leb 1 (w.size_of path) && leb (w.size_of path) (25 * 1024)))
            (runtime_error ("required credential size is invalid: " <> path))
        refuse_if (not (w.mode_of path % 64 == 0))
            (runtime_error ("required credential permissions are too broad: " <> path))
        others

  directory_ready : Option String → List String → Result Exception (Unit {0})
  unfolding credentials_ready
  directory_ready none names =
      refuse_if (not (is_empty names))
        (runtime_error "release declares credentials without a credential directory")
  directory_ready (some root) names = credentials_ready root names

  unfoldable pub configs_ready : Release → Result Exception (Unit {0})
  unfolding evidence_ready directory_ready join
  configs_ready document = do
    let missing = select (λ path. not (w.path_exists path)) document.configuration_paths
    refuse_if (not (is_empty missing))
        (runtime_error ("required configuration paths missing: " <> list_text missing))
    evidence_ready document
    directory_ready document.credential_directory document.required_credentials

  unfoldable pub recovery_evidence : Option String → String → Result Exception Json
  unfolding join
  recovery_evidence none git_sha = err (runtime_error "first-release recovery evidence is required")
  recovery_evidence (some path) git_sha = do
    document ← w.load path
    let failures = w.failures "first-release-recovery-v1.schema.json" document
    refuse_if (not (is_empty failures))
        (runtime_error ("invalid first-release recovery evidence: " <> join "; " failures))
    refuse_if
        (not (is_text git_sha (get "git_sha" document))
          || not (is_text "passed" (get "status" document))
          || truthy (get "blockers" document))
        (runtime_error "first-release recovery evidence is not exact-SHA and passed")
    ok document
