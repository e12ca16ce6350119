-- ===== src/Readiness/Support.antt =====
-- operations/bin/compose_readiness_v1.py: checkpoints, the compatibility result, the mutation
-- log and the counts of correctness events.
use mathlib.Core.Option
use liqi_platform.Prelude.{
  ℕ, String, ◌<>◌, Bool, true, false, not, ◌&&◌, Option, none, some, List, [], ◌∷◌, ◌++◌, ◌==◌,
  string_eq, is_empty, ltb, if◌then◌else◌, Result, ok, err, ◌||◌,
}
use liqi_platform.Prelude.Texts.{join}
use liqi_platform.Prelude.Json.{Json, obj, str, end, get, is_object, is_text, as_text, elements}
use liqi_platform.Readiness.Common.{Blocker, blocker, exact_set, age_seconds}
use liqi_platform.Readiness.Catalog.{compatibility_owner, compatibility_names}
use liqi_platform.Readiness.Composition.{
  World, Binding, Crash, malformed, find, text_or, error_if, blocker_if,
}
use liqi_platform.Readiness.Evidence.{names, is_rows}

infixl 5 ◌>>=◌
abbrev ◌>>=◌ : {A B : Type 0} → Option A → (A → Option B) → Option B
some a >>= f = f a
none >>= f = none

-- A rule of the supporting evidence.
pub record Support : Type 0 where
  pub schema : String
  pub max_age_seconds : ℕ

-- What a supporting section adds: blockers, and the status that enters the verdict.
pub record Section : Type 0 where
  pub blockers : List Blocker
  pub status : String

pub record Compatibility : Type 0 where
  pub migrations_expand_compatible : Bool
  pub realtime_protocol_negotiated : Bool
  pub native_fallback_available : Bool
  pub config_versioned : Bool

-- `item[key]` of an item of the document's list of blockers.
unfoldable pub read_blocker : Json → Option Blocker
read_blocker j = do
  owner ← as_text (get "owner" j)
  seam ← as_text (get "seam" j)
  code ← as_text (get "code" j)
  severity ← as_text (get "severity" j)
  message ← as_text (get "message" j)
  action ← as_text (get "action_required" j)
  some (record {
    owner = owner;
    seam = seam;
    code = code;
    severity = severity;
    message = message;
    action_required = action;
  })

unfoldable pub read_blockers : List Json → Option (List Blocker)
unfolding read_blocker
read_blockers [] = some []
read_blockers (j ∷ js) = do x ← read_blocker j; xs ← read_blockers js; some (x ∷ xs)

-- The status of a document without errors: a text, or the default.
abbrev pub is_status : Option Json → Bool
is_status none = true
is_status (some (str s)) = true
is_status (some v) = false

abbrev contains_name : String → List Json → Bool
contains_name name [] = false
contains_name name (x ∷ xs) = is_text name (get "name" x) || contains_name name xs

-- `checks.get(name, {})`: of rows with one name, the last.
unfoldable pub check_status : String → List Json → Option Json
check_status name [] = none
check_status name (x ∷ xs) =
    let rest = check_status name xs in
    if is_text name (get "name" x) && not (contains_name name xs) then get "status" x else rest

unfoldable pub compatibility_values : Json → Compatibility
compatibility_values d =
    let rows = elements (get "checks" d) in
    record {
      migrations_expand_compatible =
          is_text "passed" (check_status "migrations-expand-compatible" rows);
      realtime_protocol_negotiated =
          is_text "passed" (check_status "realtime-protocol-negotiated" rows);
      native_fallback_available = is_text "passed" (check_status "native-fallback-available" rows);
      config_versioned = is_text "passed" (check_status "config-versioned" rows);
    }

-- A check that is not passed blocks; a status that is no text is `none`.
unfoldable pub check_blockers : List Json → Option (List Blocker)
unfolding blocker
check_blockers [] = some []
check_blockers (x ∷ xs) = do
  more ← check_blockers xs
  name ← as_text (get "name" x)
  status ← as_text (get "status" x)
  some (
      blocker_if (not (status == "passed")) (
        blocker (Option.get_or (find name compatibility_owner) "Senior 5") name
          "COMPATIBILITY_NOT_PASSED" status ("compatibility check is " <> status)
          "Repair the owning provider seam and republish compatibility evidence.")
      ++ more)

module _ (w : World) (b : Binding) where
  -- A document and its schema errors; one that is not read counts as an empty object.
  unfoldable pub read_support : String → String → String → Json × List String
  read_support schema label path = elim (w.load path) [
    | err reason ↦ (obj end, reason ∷ [])
    | ok d ↦ (d, w.schema_errors schema d label)
  ]

  unfoldable pub support_binding : String → Json → List String
  support_binding label d =
      error_if (not (is_text b.sha (get "git_sha" d))) (label <> " git_sha must equal " <> b.sha)
      ++ error_if (not (is_text b.release_id (get "release_id" d)))
          (label <> " release_id must equal " <> b.release_id)

  unfoldable pub support_time : String → Option String → List String
  support_time label none = (label <> " observed_at is missing") ∷ []
  support_time label (some text) = elim (w.parse_datetime text) [
    | err reason ↦ reason ∷ []
    | ok t ↦ []
  ]

  unfoldable pub support_stale : ℕ → Option String → Bool
  unfolding age_seconds
  support_stale limit none = false
  support_stale limit (some text) = elim (w.parse_datetime text) [
    | err reason ↦ false
    | ok t ↦ ltb limit (age_seconds t b.now)
  ]

  unfoldable pub checkpoint_errors : String → Json → List String → List String
  checkpoint_errors name d schema_errors =
      schema_errors
      ++ (error_if (not (is_text name (get "name" d))) ("checkpoint name must equal " <> name)
          ++ (support_binding "checkpoint" d
              ++ support_time "checkpoint" (as_text (get "observed_at" d))))

  unfoldable pub checkpoint_blockers : String → String → Json → List String → Option (List Blocker)
  unfolding join blocker read_blockers
  checkpoint_blockers path name d errors =
      if is_empty errors
      then read_blockers (elements (get "blockers" d))
      else some (
          blocker "Senior 5" (w.relative_ref path) "CHECKPOINT_INVALID" "failed" (join "; " errors)
            "Regenerate the checkpoint with exact provider outputs."
          ∷ [])

  -- What a checkpoint's document adds.
  unfoldable pub checkpoint_document :
      Support → String → String → Json → List String → Result Crash Section
  unfolding checkpoint_blockers blocker
  checkpoint_document rule name path d schema_errors =
      let errors = checkpoint_errors name d schema_errors in
      let stale = blocker_if (support_stale rule.max_age_seconds (as_text (get "observed_at" d))) (
        blocker "Senior 5" (w.relative_ref path) "CHECKPOINT_STALE" "blocked"
          (name <> " checkpoint is stale") "Regenerate the checkpoint for the exact release.") in
      if is_object d && (not (is_empty errors) || is_status (get "status" d))
      then elim (checkpoint_blockers path name d errors) [
        | none ↦ err malformed
        | some more ↦ ok record {
          blockers = stale ++ more;
          status = if is_empty errors then text_or w "failed" (get "status" d) else "failed";
        }
      ]
      else err malformed

  -- One turn of the checkpoint loop.
  unfoldable pub checkpoint_part : Support → String → Option String → Result Crash Section
  unfolding blocker
  checkpoint_part rule name none = ok record {
    blockers =
        blocker "Senior 5" (name <> " checkpoint") "CHECKPOINT_EVIDENCE_MISSING" "blocked"
          ("required " <> name <> " checkpoint is missing")
          "Run the registered provider gates and retain the checkpoint artifact."
        ∷ [];
    status = "blocked";
  }
  checkpoint_part rule name (some path) =
      let r = read_support rule.schema name path in checkpoint_document rule name path r.0 r.1

  unfoldable pub compatibility_errors : Json → List String → List String
  unfolding exact_set
  compatibility_errors d schema_errors =
      schema_errors
      ++ (support_binding "compatibility" d
          ++ (support_time "compatibility" (as_text (get "observed_at" d))
              ++ exact_set (names "name" "checks" d) compatibility_names "compatibility checks"))

  compatibility_blockers : String → Json → List String → Option (List Blocker)
  unfolding join blocker check_blockers
  compatibility_blockers path d errors =
      if is_empty errors
      then check_blockers (elements (get "checks" d))
      else some (
          blocker "Senior 5" (w.relative_ref path) "COMPATIBILITY_INVALID" "failed"
            (join "; " errors) "Repair the owning compatibility evidence."
          ∷ [])

  unfoldable pub compatibility_document :
      Support → String → Json → List String → Result Crash (Section × Compatibility)
  unfolding compatibility_blockers blocker compatibility_values
  compatibility_document rule path d schema_errors =
      let errors = compatibility_errors d schema_errors in
      let stale = blocker_if (support_stale rule.max_age_seconds (as_text (get "observed_at" d))) (
        blocker "Senior 5" (w.relative_ref path) "COMPATIBILITY_STALE" "blocked"
          "compatibility evidence is stale"
          "Regenerate compatibility evidence for the exact release.") in
      if is_object d
        && (not (is_empty errors) || is_status (get "status" d))
        && is_rows "name" (get "checks" d)
      then elim (compatibility_blockers path d errors) [
        | none ↦ err malformed
        | some more ↦ ok (
          record {
            blockers = stale ++ more;
            status = if is_empty errors then text_or w "failed" (get "status" d) else "failed";
          },
          compatibility_values d,
        )
      ]
      else err malformed

  -- The section on cross-version compatibility.
  unfoldable pub compatibility_part :
      Support → Option String → Result Crash (Section × Compatibility)
  unfolding blocker
  compatibility_part rule none = ok (
    record {
      blockers =
          blocker "Senior 5" "compatibility-result-v1" "COMPATIBILITY_EVIDENCE_MISSING" "blocked"
            "release compatibility evidence is missing"
            "Compose provider compatibility checks for migrations, realtime, native fallback and configuration."
          ∷ [];
      status = "blocked";
    },
    record {
      migrations_expand_compatible = false;
      realtime_protocol_negotiated = false;
      native_fallback_available = false;
      config_versioned = false;
    },
  )
  compatibility_part rule (some path) =
      let r = read_support rule.schema "compatibility" path in
      compatibility_document rule path r.0 r.1

  unfoldable pub mutation_errors : Json → List String → List String
  mutation_errors d schema_errors =
      schema_errors
      ++ (support_binding "mutation log" d
          ++ (error_if (not (is_text b.environment (get "environment" d)))
                ("mutation log environment must equal " <> b.environment)
              ++ support_time "mutation log" (as_text (get "observed_at" d))))

  unfoldable pub mutation_blockers : String → Json → List String → List Blocker
  unfolding join blocker
  mutation_blockers path d errors =
      if is_empty errors
      then (let status = text_or w "failed" (get "status" d) in
          blocker_if (not (status == "passed")) (
            blocker "Senior 4" (w.relative_ref path) "MUTATION_EVIDENCE_NOT_PASSED" status
              ("mutation log status is " <> status)
              "Resolve approval or execution evidence before cutover."))
      else blocker "Senior 4" (w.relative_ref path) "MUTATION_EVIDENCE_INVALID" "failed"
          (join "; " errors) "Repair the Senior 4 mutation log; no approval may be inferred."
        ∷ []

  unfoldable pub mutation_document : Support → String → Json → List String → Result Crash Section
  unfolding mutation_blockers blocker
  mutation_document rule path d schema_errors =
      let errors = mutation_errors d schema_errors in
      let stale = blocker_if (support_stale rule.max_age_seconds (as_text (get "observed_at" d))) (
        blocker "Senior 4" (w.relative_ref path) "MUTATION_EVIDENCE_STALE" "blocked"
          "mutation evidence is stale" "Republish the exact-release mutation log.") in
      if is_object d && (not (is_empty errors) || is_status (get "status" d))
      then ok record {
        blockers = stale ++ mutation_blockers path d errors;
        status = if is_empty errors then text_or w "failed" (get "status" d) else "failed";
      }
      else err malformed

  -- The section on approved mutations.
  unfoldable pub mutation_part : Support → Option String → Result Crash Section
  unfolding blocker
  mutation_part rule none = ok record {
    blockers =
        blocker "Senior 4" "oci-mutation-log-v1" "MUTATION_EVIDENCE_MISSING" "blocked"
          "approved OCI/live mutation evidence is missing"
          "Publish the Senior 4 mutation log with approval references and exact release binding."
        ∷ [];
    status = "blocked";
  }
  mutation_part rule (some path) =
      let r = read_support rule.schema "oci-mutations" path in mutation_document rule path r.0 r.1
