-- ===== src/Readiness/Examples.antt =====
-- The theorem on the readiness verdict at a release whose evidence is complete.
use liqi_platform.Prelude.{ℕ, String, false, Option, some, List, [], ◌∷◌, map, Result, ok}
use liqi_platform.Prelude.Int.{ℤ}
use liqi_platform.Prelude.Json.{Json, arr, obj, str, nil, cons, end, field, json_eq}
use liqi_platform.Readiness.Composition.{World, Binding, Crash, text_or}
use liqi_platform.Readiness.Catalog.{checkpoint_names}
use liqi_platform.Readiness.Support.{
  Support, checkpoint_document, read_support, checkpoint_errors, support_binding, support_time,
  compatibility_document, compatibility_errors, mutation_document, mutation_errors, check_blockers,
  check_status, checkpoint_blockers, checkpoint_part, compatibility_part, compatibility_values,
  mutation_blockers, mutation_part, read_blockers, support_stale,
}
use liqi_platform.Readiness.Summary.{summarize, host_summary, recovery_summary}
use liqi_platform.Prelude.Json.{null}
use liqi_platform.Readiness.Verdict.{
  Inputs, Verdict, main, after_evidence, checkpoint_loop, conclude, conclusion, correctness_count,
  count_events, evidence_loop, exit_code, finish, inconsistent, overall_of, sort_blockers,
  unique_from,
}
use liqi_platform.Readiness.Evidence.{
  from_path, from_load, is_readable, loaded_part, is_stale, all_errors, binding_errors,
  document_status, evidence_errors, evidence_part, from_future, live_errors, observed_at,
  semantic_evidence_errors, timestamp_errors,
}
use liqi_platform.Readiness.Common.{
  duplicates, missing, extra, age_seconds, blocker, combine_from, combine_status, exact_set,
  status_order, worse,
}
use liqi_platform.Prelude.Texts.{join, prefix}

abbrev row : String → Json
row name = obj (field "name" (str name) (field "status" (str "passed") end))

-- The document at each path; a checkpoint's path is its name.
abbrev document : String → Json
document path = obj (
    field "name" (str path) (
      field "status" (str "passed") (
        field "git_sha" (str "sha") (
          field "release_id" (str "r2") (
            field "environment" (str "staging") (
              field "evidence_mode" (str "live") (
                field "observed_at" (str "noon") (
                  field "checks"
                    (arr (
                      cons (row "migrations-expand-compatible") (
                        cons (row "realtime-protocol-negotiated") (
                          cons (row "native-fallback-available")
                            (cons (row "config-versioned") nil)))))
                    end))))))))

abbrev world : World
world = record {
  load = λ path. ok (document path);
  schema_errors = λ schema d label. [];
  parse_datetime = λ text. ok 1000000000;
  sha256_file = λ path. "digest";
  relative_ref = λ path. path;
  show_int = λ n. "5";
  show_json = λ d. "{}";
}

abbrev binding : Binding
binding = record {
  sha = "sha";
  release_id = "r2";
  environment = "staging";
  now = 2000000000;
  now_text = "later";
}

abbrev rule : Support
rule = record { schema = "schema"; max_age_seconds = 3600 }

abbrev inputs : Inputs
inputs = record {
  rules = record { kind = "load"; schema = "schema"; max_age_seconds = 3600 } ∷ [];
  checkpoint_rule = rule;
  compatibility_rule = rule;
  mutation_rule = rule;
  evidence_paths = ("load", "load.json") ∷ [];
  checkpoint_paths = map (λ name. (name, name)) checkpoint_names;
  compatibility = some "compatibility.json";
  oci_mutations = some "mutations.json";
  allow_not_ready = false;
}

abbrev show : ℤ → String
show n = "0"

abbrev verdict_of : Result Crash (Option Verdict × ℕ) → Verdict
verdict_of (ok (some v, code)) = v
verdict_of r = record {
  status = "";
  verdict = "";
  host = null;
  recovery_target = null;
  entries = [];
  checkpoints = [];
  correctness = [];
  compatibility = record {
    migrations_expand_compatible = false;
    realtime_protocol_negotiated = false;
    native_fallback_available = false;
    config_versioned = false;
  };
  blockers = [];
}

whole :
    World
    → Binding
    → (ℤ → String)
    → (Verdict → List String)
    → Inputs
    → Result Crash (Option Verdict × ℕ)
unfolding from_path from_load is_readable loaded_part is_stale all_errors binding_errors
    document_status evidence_errors evidence_part from_future live_errors observed_at
    semantic_evidence_errors timestamp_errors checkpoint_document read_support checkpoint_errors
    support_binding support_time compatibility_document compatibility_errors mutation_document
    mutation_errors summarize host_summary recovery_summary check_blockers check_status
    checkpoint_blockers checkpoint_part compatibility_part compatibility_values mutation_blockers
    mutation_part read_blockers support_stale duplicates missing extra age_seconds blocker
    combine_from combine_status exact_set status_order worse text_or json_eq join prefix main
    after_evidence checkpoint_loop conclude conclusion correctness_count count_events evidence_loop
    exit_code finish inconsistent overall_of sort_blockers unique_from
whole = main

verdict : Verdict
unfolding whole
verdict = verdict_of (main world binding show (λ v. []) inputs)
