-- ===== src/Readiness/Verdict.antt =====
-- operations/bin/compose_readiness_v1.py: the loops of `main`, the verdict and the exit code.
use Prim.Native.Nat.{Ordering}
use Prim.Native.String.{compare}
use liqi_platform.Prelude.{
  ℕ, String, ◌<>◌, Bool, true, false, not, ◌&&◌, Option, none, some, List, [], ◌∷◌, ◌++◌, map, ◌==◌,
  string_eq, contains, any, is_empty, if◌then◌else◌, Result, ok, and_then,
}
use liqi_platform.Prelude.Int.{ℤ, pos, ◌+ℤ◌, ltb_ℤ}
use liqi_platform.Prelude.Json.{Json, int, bool, get, bool_to_int}
use liqi_platform.Readiness.Common.{Blocker, blocker, combine_status}
use liqi_platform.Readiness.Catalog.{checkpoint_names, correctness_owner}
use liqi_platform.Readiness.Composition.{World, Binding, Rule, Entry, Part, Crash, find, blocker_if}
use liqi_platform.Readiness.Summary.{Summary, summarize}
use liqi_platform.Readiness.Evidence.{evidence_part}
use liqi_platform.Readiness.Support.{
  Support, Section, Compatibility, checkpoint_part, compatibility_part, mutation_part,
}

infixl 5 ◌>>=◌
abbrev ◌>>=◌ : {A B : Type 0} → Result Crash A → (A → Result Crash B) → Result Crash B
m >>= f = and_then m f

-- The policy and the parsed arguments of the command.
pub record Inputs : Type 0 where
  pub rules : List Rule
  pub checkpoint_rule : Support
  pub compatibility_rule : Support
  pub mutation_rule : Support
  pub evidence_paths : List (String × String)
  pub checkpoint_paths : List (String × String)
  pub compatibility : Option String
  pub oci_mutations : Option String
  pub allow_not_ready : Bool

pub record Verdict : Type 0 where
  pub status : String
  pub verdict : String
  pub host : Json
  pub recovery_target : Json
  pub entries : List Entry
  pub checkpoints : List (String × String)
  pub correctness : List (String × ℤ)
  pub compatibility : Compatibility
  pub blockers : List Blocker

abbrev pub no_part : Part
no_part = record { blockers = []; statuses = []; entries = []; documents = [] }

abbrev pub join_parts : Part → Part → Part
join_parts p q = record {
  blockers = p.blockers ++ q.blockers;
  statuses = p.statuses ++ q.statuses;
  entries = p.entries ++ q.entries;
  documents = p.documents ++ q.documents;
}

-- `isinstance(value, int)`, which holds of truth values too.
abbrev int_value : Option Json → ℤ
int_value (some (int n)) = n
int_value (some (bool x)) = bool_to_int x
int_value _ = pos 0

abbrev container_value : String → Option Json → ℤ
container_value key none = pos 0
container_value key (some d) = int_value (get key d)

-- `correctness_counts`: the sum of one event over the primary documents.
unfoldable pub correctness_count : String → List (String × Json) → ℤ
correctness_count key [] = pos 0
correctness_count key ((kind, d) ∷ rest) =
    container_value key (get "correctness_events" d)
    +ℤ container_value key (get "outcomes" d)
    +ℤ container_value key (get "data_safety" d)
    +ℤ correctness_count key rest

-- The blockers, status inputs and counts of the correctness events.
unfoldable pub count_events :
    (ℤ → String)
    → List (String × (String × String))
    → List (String × Json)
    → List Blocker × (List String × List (String × ℤ))
unfolding correctness_count blocker
count_events show [] documents = ([], ([], []))
count_events show ((name, (key, owner)) ∷ rest) documents =
    let count = correctness_count key documents in
    let more = count_events show rest documents in
    let positive = ltb_ℤ (pos 0) count in
    (
      blocker_if positive (
            blocker owner name "ZERO_TOLERANCE_EVENT" "failed"
              ("observed " <> show count <> " " <> name <> " event(s)")
              "Stop promotion/cutover, remediate the owning seam and generate new exact-release evidence.")
          ++ more.0,
      ((if positive then "failed" ∷ [] else []) ++ more.1.0, (name, count) ∷ more.1.1),
    )

-- `a < b` of the keys by which blockers are sorted.
abbrev pub before : List String → List String → Bool
before [] ys = false
before (x ∷ xs) [] = false
before (x ∷ xs) (y ∷ ys) = elim (compare x y) [
  | Ordering.lt ↦ true
  | Ordering.gt ↦ false
  | Ordering.eq ↦ before xs ys
]

abbrev pub sort_key : Blocker → List String
sort_key x = x.severity ∷ x.owner ∷ x.code ∷ x.seam ∷ []

-- The key of the dictionary of unique blockers.
abbrev pub same_blocker : Blocker → Blocker → Bool
same_blocker x y =
    x.owner == y.owner && x.seam == y.seam && x.code == y.code && x.message == y.message

-- `unique[key] = item`: the first place of a key, its last value.
unfoldable pub put_blocker : Blocker → List Blocker → List Blocker
put_blocker x [] = x ∷ []
put_blocker x (y ∷ ys) =
    let rest = put_blocker x ys in if same_blocker x y then x ∷ ys else y ∷ rest

unfoldable pub unique_from : List Blocker → List Blocker → List Blocker
unfolding put_blocker
unique_from seen [] = seen
unique_from seen (x ∷ xs) = unique_from (put_blocker x seen) xs

unfoldable pub insert_blocker : Blocker → List Blocker → List Blocker
insert_blocker x [] = x ∷ []
insert_blocker x (y ∷ ys) =
    let rest = insert_blocker x ys in
    if before (sort_key y) (sort_key x) then y ∷ rest else x ∷ y ∷ ys

unfoldable pub sort_blockers : List Blocker → List Blocker
unfolding insert_blocker
sort_blockers [] = []
sort_blockers (x ∷ xs) = insert_blocker x (sort_blockers xs)

abbrev pub is_failed : Blocker → Bool
is_failed x = x.severity == "failed"

abbrev pub all_compatible : Compatibility → Bool
all_compatible c =
    c.migrations_expand_compatible && c.realtime_protocol_negotiated && c.native_fallback_available
    && c.config_versioned

-- The status from the blockers, or without any from the status inputs.
unfoldable pub overall_of : List Blocker → List String → String
unfolding combine_status
overall_of blockers statuses =
    if any is_failed blockers
    then "failed"
    else if not (is_empty blockers)
    then "blocked"
    else combine_status statuses

abbrev verdict_text : String → String
verdict_text status = if status == "passed" then "V1 PRODUCTION-SHAPED ON OCI" else "V1 NOT READY"

unfoldable pub inconsistent : List Blocker → List String → Compatibility → Bool
inconsistent blockers statuses c =
    overall_of blockers statuses == "passed" && not (all_compatible c)

module _ (w : World) (b : Binding) (show : ℤ → String) where
  unfoldable pub evidence_loop : List Rule → List (String × String) → Result Crash Part
  unfolding evidence_part
  evidence_loop [] paths = ok no_part
  evidence_loop (rule ∷ rest) paths = do
    p ← evidence_part w b rule (find rule.kind paths)
    q ← evidence_loop rest paths
    ok (join_parts p q)

  unfoldable pub checkpoint_loop :
      Support
      → List String
      → List (String × String)
      → Result Crash (List Blocker × List (String × String))
  unfolding checkpoint_part
  checkpoint_loop rule [] paths = ok ([], [])
  checkpoint_loop rule (name ∷ rest) paths = do
    p ← checkpoint_part w b rule name (find name paths)
    q ← checkpoint_loop rule rest paths
    ok (p.blockers ++ q.0, (name, p.status) ∷ q.1)

  -- The blockers of all sections and the status inputs become the verdict.
  unfoldable pub conclude :
      Part
      → Summary
      → List Blocker × List (String × String)
      → Section × Compatibility
      → Section
      → Verdict
  unfolding count_events inconsistent overall_of unique_from sort_blockers blocker
  conclude p summary checkpoints compatibility mutations =
      let counted = count_events show correctness_owner p.documents in
      let blockers =
        p.blockers
        ++ (checkpoints.0 ++ (compatibility.0.blockers ++ (mutations.blockers ++ counted.0))) in
      let statuses =
        p.statuses
        ++ (map (λ c. c.1) checkpoints.1
            ++ (compatibility.0.status ∷ mutations.status ∷ counted.1.0)) in
      let broken = inconsistent blockers statuses compatibility.1 in
      let status = if broken then "failed" else overall_of blockers statuses in
      record {
        status = status;
        verdict = verdict_text status;
        host = summary.host;
        recovery_target = summary.recovery_target;
        entries = p.entries;
        checkpoints = checkpoints.1;
        correctness = counted.1.1;
        compatibility = compatibility.1;
        blockers = sort_blockers (
            unique_from [] (
              blockers
              ++ blocker_if broken (
                  blocker "Senior 5" "compatibility-result-v1" "COMPATIBILITY_STATUS_INCONSISTENT"
                    "failed" "passed composition contains a false compatibility value"
                    "Repair compatibility composition.")));
      }

  unfoldable pub conclusion : Inputs → Part → Result Crash Verdict
  unfolding checkpoint_loop compatibility_part mutation_part summarize conclude
  conclusion i p = do
    checkpoints ← checkpoint_loop i.checkpoint_rule checkpoint_names i.checkpoint_paths
    compatibility ← compatibility_part w b i.compatibility_rule i.compatibility
    mutations ← mutation_part w b i.mutation_rule i.oci_mutations
    summary ← summarize w p.documents p.entries
    ok (conclude p summary checkpoints compatibility mutations)

  -- `set(paths) - set(names)`, as a test.
  abbrev pub has_unexpected : List String → List (String × String) → Bool
  has_unexpected expected paths = any (λ p. not (contains expected p.0)) paths

  -- The exit code of a verdict that satisfies the final schema.
  unfoldable pub exit_code : Bool → String → ℕ
  exit_code allow_not_ready status =
      if status == "failed"
      then (if allow_not_ready then 0 else 1)
      else if status == "blocked"
      then (if allow_not_ready then 0 else 2)
      else 0

  module _ (final_errors : Verdict → List String) where
    -- The verdict that is written, if any, and the exit code.
    unfoldable pub finish : Inputs → Verdict → Option Verdict × ℕ
    unfolding exit_code
    finish i v =
        if is_empty (final_errors v)
        then (some v, exit_code i.allow_not_ready v.status)
        else (none, 65)

    unfoldable pub after_evidence : Inputs → Part → Result Crash (Option Verdict × ℕ)
    unfolding finish conclusion
    after_evidence i p =
        if has_unexpected checkpoint_names i.checkpoint_paths
        then ok (none, 64)
        else and_then (conclusion i p) (λ v. ok (finish i v))

    -- `main`, from the policy and the parsed arguments.
    unfoldable pub main : Inputs → Result Crash (Option Verdict × ℕ)
    unfolding after_evidence evidence_loop
    main i =
        if has_unexpected (map (λ r. r.kind) i.rules) i.evidence_paths
        then ok (none, 64)
        else and_then (evidence_loop i.rules i.evidence_paths) (after_evidence i)
