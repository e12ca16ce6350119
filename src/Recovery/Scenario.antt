-- ===== src/Recovery/Scenario.antt =====
-- A world, the files of a host and the documents in them, on which the theorems of Recovery are run.
use liqi_platform.Prelude.{
  ℕ, String, ◌<>◌, Option, none, some, [], ◌==◌, string_eq, nat_eq, if◌then◌else◌, Result, ok, err,
}
use liqi_platform.Prelude.Int.{pos}
use liqi_platform.Prelude.Json.{Json, str, int}
use liqi_platform.Recovery.Values.{World}
use liqi_platform.Recovery.Store.{Files, Target}

abbrev pub digest : String
digest = "0123456789abcdef0123456789abcdef0123456789abcdef0123456789abcdef"

-- Texts load by a table; `refused` is the operation on files that fails.
abbrev pub world : (String → Result String Json) → Option ℕ → World
world loads refused = record {
  sha256 = λ text. digest;
  dumps = λ v. "document";
  loads = loads;
  schema_errors = λ schema v. ok [];
  repr = λ v. "value";
  py_str = λ v. py v;
  show = λ n. "n";
  from_timestamp = λ v. ok (pos 1700000000000000);
  from_iso = λ s. ok (pos 1700000060000000);
  iso = λ t. "2023-11-14T22:13:20Z";
  now = λ n. pos 1700000120000000;
  rounded = λ n. int (pos 60);
  token = "0123456789abcdef0123456789abcdef";
  refusal = λ n. refuse refused n;
  torn = λ n. "docu";
}
  where
    py : Json → String
    py (str s) = s
    py v = "1"

    refuse : Option ℕ → ℕ → Option String
    refuse none n = none
    refuse (some k) n = if k == n then some "No space left on device" else none

abbrev pub output : Target
output = ("/var/lib/liqi", "metadata.json")

abbrev pub new_document : Json
new_document = str "new"

abbrev pub old_document : Json
old_document = str "old"

abbrev pub two_documents : String → Result String Json
two_documents text =
    if text == "document"
    then ok new_document
    else if text == "old"
    then ok old_document
    else err "Expecting value"

-- The old document and its sidecar.
abbrev pub old_files : Files
old_files p =
    if p == "/var/lib/liqi/metadata.json"
    then some "old"
    else if p == "/var/lib/liqi/metadata.json.sha256"
    then some (digest <> "  metadata.json\n")
    else none
