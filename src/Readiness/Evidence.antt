-- ===== src/Readiness/Evidence.antt =====
-- operations/bin/compose_readiness_v1.py: one item of primary evidence.
use liqi_platform.Prelude.{
  ℕ, ◌+◌, ◌*◌, ◌/◌, String, ◌<>◌, Bool, true, false, not, ◌&&◌, ◌||◌, Option, none, some, List, [],
  ◌∷◌, ◌++◌, all, ◌==◌, string_eq, is_empty, ltb, if◌then◌else◌, Result, ok, err,
}
use mathlib.Core.Option
use liqi_platform.Prelude.Texts.{join}
use liqi_platform.Prelude.Json.{
  Json, obj, str, arr, end, get, get_eq, json_eq, is_object, is_text, is_none, as_text, elements,
  items,
}
use liqi_platform.Readiness.Common.{blocker, exact_set, age_seconds}
use liqi_platform.Readiness.Catalog.{
  evidence_owner, probe_checks, recovery_steps, resilience_scenarios, security_checks,
  cutover_preconditions, cutover_bundle, rollback_steps, capacity_owners,
}
use liqi_platform.Readiness.Composition.{
  World, Binding, Rule, Entry, Part, Crash, key_error, malformed, find, text_or, error_if,
  blocker_if,
}

-- `item.get(key, "") for item in document.get(name, [])`
abbrev value_of : Option Json → Option String
value_of none = some ""
value_of (some (str s)) = some s
value_of (some v) = none

abbrev pub values_of : String → List Json → List (Option String)
values_of key [] = []
values_of key (x ∷ xs) = value_of (get key x) ∷ values_of key xs

abbrev pub names : String → String → Json → List (Option String)
names key name document = values_of key (elements (get name document))

-- Where `exact_set` of the names of these rows raises no exception: rows are dictionaries
-- whose names are texts.
abbrev pub is_rows : String → Option Json → Bool
is_rows key (some (arr xs)) =
    all (λ x. is_object x && (elim (value_of (get key x)) [ none ↦ false | some s ↦ true ]))
      (items xs)
is_rows key none = true
is_rows key (some (str String.[])) = true
is_rows key (some (obj end)) = true
is_rows key _ = false

unfoldable pub semantic_evidence_errors : String → Json → List String
unfolding exact_set json_eq
semantic_evidence_errors kind d =
    if kind == "capacity"
    then exact_set (names "owner" "provider_evidence" d) capacity_owners "capacity provider owners"
    else if kind == "platform-probe"
    then exact_set (names "name" "checks" d) probe_checks "platform probe checks"
      ++ (if get_eq (get "observed_release_id" d) (get "release_id" d)
          then []
          else "platform probe observed_release_id must equal release_id" ∷ [])
    else if kind == "recovery"
    then exact_set (names "name" "steps" d) recovery_steps "recovery steps"
    else if kind == "resilience"
    then exact_set (names "id" "scenarios" d) resilience_scenarios "resilience scenarios"
    else if kind == "security"
    then exact_set (names "name" "checks" d) security_checks "security checks"
    else if kind == "cutover"
    then exact_set (names "name" "preconditions" d) cutover_preconditions "cutover preconditions"
      ++ exact_set (names "kind" "evidence_bundle" d) cutover_bundle "cutover evidence bundle"
    else if kind == "release-recovery"
    then exact_set (names "name" "steps" d) rollback_steps "release recovery steps"
    else []

-- The first of the three keys whose value is a text.
unfoldable pub observed_at : Json → Option String
observed_at d = elim (as_text (get "observed_at" d)) [
  | some t ↦ some t
  | none ↦ elim (as_text (get "completed_at" d)) [
    | some t ↦ some t
    | none ↦ as_text (get "generated_at" d)
  ]
]

-- A value that may be an element of a set.
abbrev is_scalar : Option Json → Bool
is_scalar (some (arr xs)) = false
is_scalar (some (obj fs)) = false
is_scalar _ = true

-- Where `main` reads the document of this kind without an exception.
unfoldable pub is_readable : String → Json → Bool
is_readable kind d =
    is_object d
    && (is_none (get "status" d) || is_scalar (get "status" d))
    && (is_none (get "environment" d) || is_scalar (get "environment" d))
    && (if kind == "capacity"
        then is_rows "owner" (get "provider_evidence" d)
        else if kind == "platform-probe" || kind == "security"
        then is_rows "name" (get "checks" d)
        else if kind == "recovery" || kind == "release-recovery"
        then is_rows "name" (get "steps" d)
        else if kind == "resilience"
        then is_rows "id" (get "scenarios" d)
        else if kind == "cutover"
        then is_rows "name" (get "preconditions" d) && is_rows "kind" (get "evidence_bundle" d)
        else true)

module _ (w : World) (b : Binding) where
  unfoldable pub binding_errors : String → Json → List String
  binding_errors kind d =
      error_if (not (is_text b.sha (get "git_sha" d))) (kind <> ".git_sha must equal " <> b.sha)
      ++ (error_if (not (is_text b.release_id (get "release_id" d)))
            (kind <> ".release_id must equal " <> b.release_id)
          ++ error_if
              (not (is_none (get "environment" d) || is_text b.environment (get "environment" d)))
              (kind <> ".environment must equal " <> b.environment))

  -- `parsed > now.replace(microsecond=0) and (parsed - now).total_seconds() > 300`
  unfoldable pub from_future : ℕ → Bool
  from_future t = ltb ((b.now / 1000000) * 1000000) t && ltb (b.now + 300 * 1000000) t

  unfoldable pub timestamp_errors : String → Option String → List String
  timestamp_errors kind none = (kind <> " has no observed_at/completed_at timestamp") ∷ []
  timestamp_errors kind (some text) = elim (w.parse_datetime text) [
    | err reason ↦ (kind <> " timestamp invalid: " <> reason) ∷ []
    | ok t ↦ error_if (from_future t) (kind <> " timestamp is more than 300 seconds in the future")
  ]

  unfoldable pub is_stale : ℕ → Option String → Bool
  unfolding age_seconds
  is_stale limit none = false
  is_stale limit (some text) = elim (w.parse_datetime text) [
    | err reason ↦ false
    | ok t ↦ ltb limit (age_seconds t b.now)
  ]

  -- `document.get("status", "failed")`, normalised.
  unfoldable pub document_status : Json → String
  document_status d =
      if is_text "passed" (get "status" d)
      then "passed"
      else if is_text "blocked" (get "status" d)
      then "blocked"
      else "failed"

  unfoldable pub evidence_errors : Rule → Json → List String
  evidence_errors rule d =
      w.schema_errors rule.schema d rule.kind
      ++ (semantic_evidence_errors rule.kind d
          ++ (binding_errors rule.kind d ++ timestamp_errors rule.kind (observed_at d)))

  -- Passed evidence has to be live.
  unfoldable pub live_errors : Rule → Json → List String
  live_errors rule d =
      error_if (document_status d == "passed" && not (is_text "live" (get "evidence_mode" d)))
        (rule.kind <> " passed evidence must use evidence_mode=live")

  -- The errors that the entry is judged by: those of the mode only if there is no other.
  unfoldable pub all_errors : Rule → Json → List String
  all_errors rule d =
      if is_empty (evidence_errors rule d) then live_errors rule d else evidence_errors rule d

  placeholder : Rule → String → String → Entry
  placeholder rule owner status = record {
    kind = rule.kind;
    owner = owner;
    schema_version = "missing-" <> rule.kind <> "-v1";
    status = status;
    evidence_mode = "synthetic";
    git_sha = b.sha;
    release_id = b.release_id;
    observed_at = b.now_text;
    sha256 = "0000000000000000000000000000000000000000000000000000000000000000";
    evidence_ref = "missing:" <> rule.kind;
  }

  unfoldable pub loaded_part : Rule → String → String → Json → Part
  unfolding text_or blocker join
  loaded_part rule owner path d =
      let errors = all_errors rule d in
      let status = document_status d in
      let ref = w.relative_ref path in
      let entry_status = if is_empty errors then status else "failed" in
      record {
        blockers =
            blocker_if (is_stale rule.max_age_seconds (observed_at d)) (
              blocker owner ref "EVIDENCE_STALE" "blocked"
                (rule.kind <> " evidence exceeds " <> w.show_int rule.max_age_seconds <> " seconds")
                "Regenerate evidence for the exact release.")
            ++ (if not (is_empty errors)
                then blocker owner ref "EVIDENCE_INVALID" "failed" (join "; " errors)
                    "Repair the provider or Senior 5 evidence producer; do not bypass schema or binding checks."
                  ∷ []
                else blocker_if (not (status == "passed")) (
                    blocker owner ref "EVIDENCE_NOT_PASSED" status
                      (rule.kind <> " evidence status is " <> status)
                      "Resolve the recorded evidence failures and regenerate the exact-release result."));
        statuses = entry_status ∷ [];
        entries =
            record {
              kind = rule.kind;
              owner = owner;
              schema_version = text_or w ("unknown-" <> rule.kind) (get "schema_version" d);
              status = entry_status;
              evidence_mode = text_or w "synthetic" (get "evidence_mode" d);
              git_sha = b.sha;
              release_id = b.release_id;
              observed_at = Option.get_or (observed_at d) b.now_text;
              sha256 = w.sha256_file path;
              evidence_ref = ref;
            }
            ∷ [];
        documents = (rule.kind, d) ∷ [];
      }

  unfoldable pub missing_part : Rule → String → Part
  unfolding placeholder blocker
  missing_part rule owner = record {
    blockers =
        blocker owner (rule.kind <> " evidence") "REQUIRED_EVIDENCE_MISSING" "blocked"
          ("required " <> rule.kind <> " evidence is missing")
          ("Publish live " <> rule.kind <> " evidence for " <> b.sha <> "/" <> b.release_id <> ".")
        ∷ [];
    statuses = "blocked" ∷ [];
    entries = placeholder rule owner "blocked" ∷ [];
    documents = [];
  }

  unfoldable pub unreadable_part : Rule → String → String → String → Part
  unfolding placeholder blocker
  unreadable_part rule owner path reason = record {
    blockers =
        blocker owner (w.relative_ref path) "EVIDENCE_UNREADABLE" "failed" reason
          "Repair and republish the owning evidence artifact."
        ∷ [];
    statuses = "failed" ∷ [];
    entries = placeholder rule owner "failed" ∷ [];
    documents = [];
  }

  unfoldable pub from_load : Rule → String → String → Result String Json → Result Crash Part
  from_load rule owner path (err reason) = ok (unreadable_part rule owner path reason)
  from_load rule owner path (ok d) =
      if is_readable rule.kind d then ok (loaded_part rule owner path d) else err malformed

  unfoldable pub from_path : Rule → String → Option String → Result Crash Part
  from_path rule owner none = ok (missing_part rule owner)
  from_path rule owner (some path) = from_load rule owner path (w.load path)

  -- One turn of the evidence loop.
  unfoldable pub evidence_part : Rule → Option String → Result Crash Part
  evidence_part rule path = elim (find rule.kind evidence_owner) [
    | none ↦ err key_error
    | some owner ↦ from_path rule owner path
  ]
