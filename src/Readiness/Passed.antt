-- ===== src/Readiness/Passed.antt =====
-- Proofs on the readiness verdict: what an exit with 0 says of the evidence.
use liqi_platform.Prelude.{
  String, Bool, true, false, not, ◌&&◌, some, List, [], ◌∷◌, ◌++◌, All, ◌≡◌, refl, sym, ap, ◌∙◌,
  inl, inr, ◌==◌, string_eq, eq_of_beq, is_empty, ltb, if◌then◌else◌, Result, ok, err,
  and_then-eq-ok, arith, Bool-cases, Option-cases,
}
use liqi_platform.Prelude.Int.{ℤ}
use liqi_platform.Prelude.Json.{Json, get, is_text}
use liqi_platform.Readiness.Common.{Blocker, combine_from, worse, status_order, known_status}
use liqi_platform.Readiness.Catalog.{evidence_owner}
use liqi_platform.Readiness.Composition.{World, Binding, Rule, Part, find, error_if, blocker_if}
use liqi_platform.Readiness.Evidence.{
  evidence_part, from_path, from_load, loaded_part, missing_part, unreadable_part, all_errors,
  live_errors, evidence_errors, binding_errors, document_status, is_stale, observed_at, is_readable,
}
use liqi_platform.Readiness.Verdict.{evidence_loop}

pub append-nil {ℓ} : {A : Type ℓ} (xs ys : List A) → xs ++ ys ≡ [] → (xs ≡ []) × (ys ≡ [])
append-nil [] ys h = (refl, h)
append-nil (x ∷ xs) ys h = absurd (ground arith)

pub error_if-nil : (c : Bool) (e : String) → error_if (not c) e ≡ [] → c ≡ true
error_if-nil true e h = refl
error_if-nil false e h = absurd (ground arith)

pub blocker_if-nil : (c : Bool) (x : Blocker) → blocker_if c x ≡ [] → c ≡ false
blocker_if-nil true x h = absurd (ground arith)
blocker_if-nil false x h = refl

status_order-passed : (s : String) → s ≡ "passed" → status_order s ≡ 0
unfolding status_order
status_order-passed s h = rw h refl

status_order-zero : (s : String) → status_order s ≡ 0 → s ≡ "passed"
unfolding status_order
status_order-zero s h = eq_of_beq (ground arith)

is_passed : String → Bool
is_passed s = s == "passed"

pub is_passed-failed : (s : String) → s ≡ "failed" → s ≡ "passed" → true ≡ false
unfolding is_passed
is_passed-failed s h k = sym (ap is_passed k) ∙ ap is_passed h

worse-passed : (r s : String) → worse r s ≡ "passed" → (r ≡ "passed") × (s ≡ "passed")
unfolding worse
worse-passed r s h = elim (Bool-cases (ltb (status_order r) (status_order s))) [
  | inl e ↦ elim (Bool-cases (known_status s)) [
    | inl k ↦ (let z = status_order-passed s (ground arith) in absurd (ground arith))
    | inr k ↦ absurd (
        let e : (true ≡ false) =
          is_passed-failed (if known_status s then s else "failed") (ground arith) (ground arith) in
        ground arith)
  ]
  | inr e ↦
      (let a : (r ≡ "passed") = ground arith in
        let z = status_order-passed r a in (a, status_order-zero s (ground arith)))
]

-- All statuses are "passed" where the combined one is.
pub combine_from-passed :
    (r : String) (ss : List String)
    → combine_from r ss ≡ "passed"
    → (r ≡ "passed") × All (λ s. s ≡ "passed") ss
unfolding combine_from
combine_from-passed r [] h = (h, tt)
combine_from-passed r (s ∷ ss) h =
    let (e, rest) = combine_from-passed (worse r s) ss h in
    let (a, c) = worse-passed r s e in (a, (c, rest))

-- Live, fresh evidence of this release, which passed and satisfies its schema.
pub record IsProven (w : World) (b : Binding) (paths : List (String × String)) (rule : Rule)
    : Type 0 where
  pub path : String
  pub document : Json
  pub given : find rule.kind paths ≡ some path
  pub loaded : w.load path ≡ ok document
  pub valid : w.schema_errors rule.schema document rule.kind ≡ []
  pub passed : is_text "passed" (get "status" document) ≡ true
  pub live : is_text "live" (get "evidence_mode" document) ≡ true
  pub same_sha : is_text b.sha (get "git_sha" document) ≡ true
  pub same_release : is_text b.release_id (get "release_id" document) ≡ true
  pub fresh : is_stale w b rule.max_age_seconds (observed_at document) ≡ false

module _ (w : World) (b : Binding) where
  passed_branch :
      (p q : Bool)
      → is_passed (if p then "passed" else if q then "blocked" else "failed") ≡ true
      → p ≡ true
  unfolding is_passed
  passed_branch true q h = refl
  passed_branch false true h = absurd (ground arith)
  passed_branch false false h = absurd (ground arith)

  document_status-passed :
      (d : Json)
      → (document_status w b d == "passed") ≡ true
      → is_text "passed" (get "status" d) ≡ true
  unfolding document_status is_passed
  document_status-passed d h =
      passed_branch (is_text "passed" (get "status" d)) (is_text "blocked" (get "status" d)) h

  all_errors-nil :
      (rule : Rule) (d : Json)
      → all_errors w b rule d ≡ []
      → (evidence_errors w b rule d ≡ []) × (live_errors w b rule d ≡ [])
  unfolding all_errors
  all_errors-nil rule d h = ground arith

  judged :
      (stale : Bool) (errors : List String) (passed : Bool) (x y z : Blocker)
      → blocker_if stale x ++ (if not (is_empty errors) then y ∷ [] else blocker_if (not passed) z)
        ≡ []
      → (stale ≡ false) × (errors ≡ []) × (passed ≡ true)
  judged true errors passed x y z h = absurd (ground arith)
  judged false (e ∷ es) passed x y z h = absurd (ground arith)
  judged false [] false x y z h = absurd (ground arith)
  judged false [] true x y z h = (refl, refl, refl)

  loaded_part-judged :
      (rule : Rule) (owner path : String) (d : Json)
      → (loaded_part w b rule owner path d).blockers ≡ []
      → (is_stale w b rule.max_age_seconds (observed_at d) ≡ false)
        × (all_errors w b rule d ≡ [])
        × (is_passed (document_status w b d) ≡ true)
  unfolding loaded_part is_passed
  loaded_part-judged rule owner path d h = judged _ _ _ _ _ _ h

  live_errors-live : (p l : Bool) (e : String) → error_if (p && not l) e ≡ [] → p ≡ true → l ≡ true
  live_errors-live p l e h k = ground arith

  loaded_part-IsProven :
      (paths : List (String × String)) (rule : Rule) (owner path : String) (d : Json)
      → find rule.kind paths ≡ some path
      → w.load path ≡ ok d
      → (loaded_part w b rule owner path d).blockers ≡ []
      → IsProven w b paths rule
  unfolding evidence_errors binding_errors live_errors is_passed
  loaded_part-IsProven paths rule owner path d g l h =
      let (fresh, errors, passed) = loaded_part-judged rule owner path d h in
      let (none_else, live) = all_errors-nil rule d errors in
      let (valid, more) = append-nil _ _ none_else in
      let (_, more) = append-nil _ _ more in
      let (binding, _) = append-nil _ _ more in
      let (sha, more) = append-nil _ _ binding in
      let (release, _) = append-nil _ _ more in
      record {
        path = path;
        document = d;
        given = g;
        loaded = l;
        valid = valid;
        passed = document_status-passed d passed;
        live = live_errors-live _ _ _ live passed;
        same_sha = error_if-nil _ _ sha;
        same_release = error_if-nil _ _ release;
        fresh = fresh;
      }

  from_load-IsProven :
      (paths : List (String × String)) (rule : Rule) (owner path : String) (p : Part)
      → find rule.kind paths ≡ some path
      → (r : Result String Json) → w.load path ≡ r
      → from_load w b rule owner path r ≡ ok p
      → p.blockers ≡ []
      → IsProven w b paths rule
  unfolding from_load unreadable_part
  from_load-IsProven paths rule owner path p g (err e) l h n = absurd (ground arith)
  from_load-IsProven paths rule owner path p g (ok d) l h n =
      elim (Bool-cases (is_readable rule.kind d)) [
        | inl e ↦ loaded_part-IsProven paths rule owner path d g l (ground arith)
        | inr e ↦ absurd (ground arith)
      ]

  evidence_part-IsProven :
      (paths : List (String × String)) (rule : Rule) (p : Part)
      → evidence_part w b rule (find rule.kind paths) ≡ ok p
      → p.blockers ≡ []
      → IsProven w b paths rule
  unfolding evidence_part from_path missing_part
  evidence_part-IsProven paths rule p h n = elim (Option-cases (find rule.kind evidence_owner)) [
    | inl e ↦ absurd (ground arith)
    | inr (owner, e) ↦ elim (Option-cases (find rule.kind paths)) [
      | inl f ↦ absurd (ground arith)
      | inr (path, f) ↦
          from_load-IsProven paths rule owner path p f (w.load path) refl (ground arith) n
    ]
  ]

  pub evidence_loop-IsProven :
      (show : ℤ → String) (paths : List (String × String)) (rules : List Rule) (p : Part)
      → evidence_loop w b show rules paths ≡ ok p
      → p.blockers ≡ []
      → All (IsProven w b paths) rules
  unfolding evidence_loop
  evidence_loop-IsProven show paths [] p h n = tt
  evidence_loop-IsProven show paths (rule ∷ rest) p h n =
      let (q, e, more) = and_then-eq-ok _ _ h in
      let (r, f, same) = and_then-eq-ok _ _ more in
      let (n1, n2) = append-nil q.blockers r.blockers (ground arith) in
      (evidence_part-IsProven paths rule q e n1, evidence_loop-IsProven show paths rest r f n2)
