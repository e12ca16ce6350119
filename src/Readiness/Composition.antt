-- ===== src/Readiness/Composition.antt =====
-- operations/bin/compose_readiness_v1.py: the data that the sections of `main` share. The JSON
-- schemas, the file system, SHA-256 and the parsing of date-times are parameters.
use liqi_platform.Prelude.{
  ℕ, String, Bool, true, false, Option, none, some, List, [], ◌∷◌, ◌==◌, string_eq, if◌then◌else◌,
  Result,
}
use liqi_platform.Prelude.Json.{Json, str}
use liqi_platform.Readiness.Common.{Blocker}

-- What lies outside the program. An instant is a number of microseconds.
pub record World : Type 0 where
  -- `load_json`: a document, or the text of an `OSError` or `JSONDecodeError`
  pub load : String → Result String Json
  -- `validate_document` of a schema's path
  pub schema_errors : String → Json → String → List String
  -- `parse_datetime`; the text of a `ValueError`
  pub parse_datetime : String → Result String ℕ
  pub sha256_file : String → String
  pub relative_ref : String → String
  -- `str` of an integer, and of a JSON value that is no text
  pub show_int : ℕ → String
  pub show_json : Json → String

-- The release under composition, and the instant of the composition with its text.
pub record Binding : Type 0 where
  pub sha : String
  pub release_id : String
  pub environment : String
  pub now : ℕ
  pub now_text : String

-- A rule of the evidence policy.
pub record Rule : Type 0 where
  pub kind : String
  pub schema : String
  pub max_age_seconds : ℕ

pub record Entry : Type 0 where
  pub kind : String
  pub owner : String
  pub schema_version : String
  pub status : String
  pub evidence_mode : String
  pub git_sha : String
  pub release_id : String
  pub observed_at : String
  pub sha256 : String
  pub evidence_ref : String

-- What one section of `main` adds: blockers, status inputs, evidence entries, primary documents.
pub record Part : Type 0 where
  pub blockers : List Blocker
  pub statuses : List String
  pub entries : List Entry
  pub documents : List (String × Json)

-- An uncaught exception: a policy kind without an owner, or a document whose members have
-- other types than the ones that are read (the order of `sorted` on mixed values included).
pub data Crash : Type 0 where
  key_error : Crash
  malformed : Crash

abbrev pub find : {V : Type 0} → String → List (String × V) → Option V
find k [] = none
find k ((j, v) ∷ rest) = if j == k then some v else find k rest

-- `document.get(key, default)` as a text.
unfoldable pub text_or : World → String → Option Json → String
text_or w default none = default
text_or w default (some (str s)) = s
text_or w default (some v) = w.show_json v

abbrev pub error_if : Bool → String → List String
error_if true e = e ∷ []
error_if false e = []

abbrev pub blocker_if : Bool → Blocker → List Blocker
blocker_if true x = x ∷ []
blocker_if false x = []
