-- ===== src/Readiness/Common.antt =====
-- operations/bin/readiness_v1_common.py: statuses, blockers, ages and exact sets of names.
use Prim.Native.Nat.{Ordering}
use Prim.Native.String.{compare}
use liqi_platform.Prelude.{
  ℕ, ◌+◌, ◌-◌, ◌/◌, String, ◌<>◌, Bool, true, false, not, ◌||◌, Option, none, some, List, [], ◌∷◌,
  ◌++◌, map, ◌==◌, string_eq, option_eq, contains, select, ltb, if◌then◌else◌,
}
use liqi_platform.Prelude.Texts.{prefix, join}

-- `STATUS_ORDER.get(status, 2)`
unfoldable pub status_order : String → ℕ
status_order s = if s == "passed" then 0 else if s == "blocked" then 1 else 2

abbrev pub known_status : String → Bool
known_status s = s == "passed" || s == "blocked" || s == "failed"

-- One turn of the loop of `combine_status`.
unfoldable pub worse : String → String → String
unfolding status_order
worse result status =
    if ltb (status_order result) (status_order status)
    then (if known_status status then status else "failed")
    else result

unfoldable pub combine_from : String → List String → String
combine_from result [] = result
combine_from result (status ∷ rest) = combine_from (worse result status) rest

unfoldable pub combine_status : List String → String
combine_status = combine_from "passed"

pub record Blocker : Type 0 where
  pub owner : String
  pub seam : String
  pub code : String
  pub severity : String
  pub message : String
  pub action_required : String

unfoldable pub blocker : String → String → String → String → String → String → Blocker
unfolding prefix
blocker owner seam code severity message action = record {
  owner = owner;
  seam = seam;
  code = code;
  severity = severity;
  message = prefix 1000 message;
  action_required = prefix 1000 action;
}

-- `age_seconds`, of instants in microseconds: `max(0, int((now - t).total_seconds()))`.
unfoldable pub age_seconds : ℕ → ℕ → ℕ
age_seconds t now = (now - t) / 1000000

-- `materialized.count(value)`
abbrev pub count : Option String → List (Option String) → ℕ
count v [] = 0
count v (x ∷ xs) = (if x == v then 1 else 0) + count v xs

-- The elements of a set, from a list.
abbrev pub distinct : List (Option String) → List (Option String)
distinct [] = []
distinct (x ∷ xs) = let rest = distinct xs in if contains xs x then rest else x ∷ rest

abbrev is_before : String → String → Bool
is_before s t = elim (compare s t) [ Ordering.gt ↦ false | _ ↦ true ]

abbrev insert_text : String → List String → List String
insert_text s [] = s ∷ []
insert_text s (t ∷ ts) =
    let rest = insert_text s ts in if is_before s t then s ∷ t ∷ ts else t ∷ rest

abbrev pub sort_texts : List String → List String
sort_texts [] = []
sort_texts (s ∷ ss) = insert_text s (sort_texts ss)

abbrev shown_value : Option String → String
shown_value none = "None"
shown_value (some s) = s

-- `f"{values}"` of a sorted list of plain names
abbrev pub shown_list : List (Option String) → String
unfolding join
shown_list values = "['" <> join "', '" (sort_texts (map shown_value values)) <> "']"

abbrev pub problem : String → String → List (Option String) → List String
problem label text [] = []
problem label text (v ∷ vs) = (label <> text <> shown_list (v ∷ vs)) ∷ []

-- `exact_set`. A value that is no text is `none`: it is no expected name.
unfoldable pub duplicates : List (Option String) → List (Option String)
duplicates values = distinct (select (λ v. ltb 1 (count v values)) values)

unfoldable pub missing : List (Option String) → List String → List (Option String)
missing values expected = select (λ v. not (contains values v)) (map some expected)

unfoldable pub extra : List (Option String) → List String → List (Option String)
extra values expected = distinct (select (λ v. not (contains (map some expected) v)) values)

unfoldable pub exact_set : List (Option String) → List String → String → List String
exact_set values expected label =
    problem label " contains duplicates: " (duplicates values)
    ++ (problem label " is missing: " (missing values expected)
        ++ problem label " contains unexpected values: " (extra values expected))
