-- ===== src/Readiness/Conclusion.antt =====
-- operations/bin/compose_readiness_v1.py: the verdict that the sections lead to, and its status.
use liqi_platform.Prelude.{
  String, Bool, true, false, List, [], ◌∷◌, ◌++◌, map, All, ◌≡◌, refl, string_eq, eq_iff, is_empty,
  any, ltb, ◌≢◌, if◌then◌else◌, arith, inl, inr, Bool-cases,
}
use liqi_platform.Prelude.Int.{ℤ, pos, ltb_ℤ}
use liqi_platform.Prelude.Json.{Json}
use liqi_platform.Readiness.Common.{
  combine_status, combine_from, worse, known_status, status_order, Blocker,
}
use liqi_platform.Readiness.Catalog.{correctness_owner}
use liqi_platform.Readiness.Composition.{World, Binding, Part, blocker_if}
use liqi_platform.Readiness.Support.{Section, Compatibility}
use liqi_platform.Readiness.Summary.{Summary}
use liqi_platform.Readiness.Verdict.{
  Verdict, count_events, overall_of, inconsistent, all_compatible, is_failed, unique_from,
  sort_blockers, conclude,
}
use liqi_platform.Readiness.Passed.{append-nil, blocker_if-nil, combine_from-passed}

worse-known : (r s : String) → known_status r ≡ true → known_status (worse r s) ≡ true
unfolding worse
worse-known r s h = elim (Bool-cases (ltb (status_order r) (status_order s))) [
  | inl e ↦ elim (Bool-cases (known_status s)) [ inl k ↦ rw (e, k) k | inr k ↦ rw (e, k) refl ]
  | inr e ↦ rw e h
]

combine_from-known :
    (r : String) (ss : List String)
    → known_status r ≡ true
    → known_status (combine_from r ss) ≡ true
unfolding combine_from
combine_from-known r [] h = h
combine_from-known r (s ∷ ss) h = combine_from-known (worse r s) ss (worse-known r s h)

overall_of-known :
    (blockers : List Blocker) (statuses : List String)
    → known_status (overall_of blockers statuses) ≡ true
unfolding overall_of combine_status
overall_of-known blockers statuses = elim (Bool-cases (any is_failed blockers)) [
  | inl e ↦ rw e refl
  | inr e ↦ elim (Bool-cases (is_empty blockers)) [
    | inl d ↦ rw (e, d) (combine_from-known "passed" statuses refl)
    | inr d ↦ rw (e, d) refl
  ]
]

failed_ne_passed : ◌≢◌ {A = String} "failed" "passed"
failed_ne_passed = ground (arith, eq_iff "failed" "passed")

blocked_ne_passed : ◌≢◌ {A = String} "blocked" "passed"
blocked_ne_passed = ground (arith, eq_iff "blocked" "passed")

overall_of-passed :
    (blockers : List Blocker) (statuses : List String)
    → overall_of blockers statuses ≡ "passed"
    → (blockers ≡ []) × All (λ s. s ≡ "passed") statuses
unfolding overall_of combine_status
overall_of-passed [] statuses h = (refl, (combine_from-passed "passed" statuses h).1)
overall_of-passed (x ∷ xs) statuses h = elim (Bool-cases (any is_failed (x ∷ xs))) [
  | inl e ↦ absurd (failed_ne_passed (rw e at h))
  | inr e ↦ absurd (blocked_ne_passed (rw e at h))
]

All-append {ℓ κ} :
    {A : Type ℓ} (P : A → Type κ) (xs ys : List A) → All P (xs ++ ys) → All P xs × All P ys
All-append P [] ys h = (tt, h)
All-append P (x ∷ xs) ys h = let (a, c) = All-append P xs ys h.1 in ((h.0, a), c)

no_event :
    (show : ℤ → String) (names : List (String × (String × String)))
    (documents : List (String × Json))
    → (count_events show names documents).0 ≡ []
    → All (λ c. ltb_ℤ (pos 0) c.1 ≡ false) (count_events show names documents).1.1
unfolding count_events
no_event show [] documents h = tt
no_event show ((name, (key, owner)) ∷ rest) documents h =
    let (a, c) = append-nil _ _ h in (blocker_if-nil _ _ a, no_event show rest documents c)

-- The status of a verdict is one of three.
status_of :
    (broken : Bool) (overall : String)
    → (if broken then "failed" else overall) ≡ "passed"
    → (broken ≡ false) × (overall ≡ "passed")
status_of true overall h = absurd (failed_ne_passed h)
status_of false overall h = (refl, h)

consistent_compatible :
    (blockers : List Blocker) (statuses : List String) (c : Compatibility)
    → inconsistent blockers statuses c ≡ false
    → overall_of blockers statuses ≡ "passed"
    → all_compatible c ≡ true
unfolding inconsistent
consistent_compatible blockers statuses c h e =
    ground (arith, eq_iff (overall_of blockers statuses) "passed")

nothing_listed :
    (blockers : List Blocker) (broken : Bool) (x : Blocker)
    → blockers ≡ []
    → broken ≡ false
    → sort_blockers (unique_from [] (blockers ++ blocker_if broken x)) ≡ []
unfolding sort_blockers unique_from
nothing_listed blockers broken x h e = rw (h, e)

known_branch :
    (broken : Bool) (overall : String)
    → known_status overall ≡ true
    → known_status (if broken then "failed" else overall) ≡ true
known_branch true overall h = refl
known_branch false overall h = h

module _ (w : World) (b : Binding) (show : ℤ → String) where
  abbrev all_blockers :
      Part
      → List Blocker × List (String × String)
      → Section × Compatibility
      → Section
      → List Blocker
  all_blockers p checkpoints compatibility mutations =
      p.blockers
      ++ (checkpoints.0
          ++ (compatibility.0.blockers
              ++ (mutations.blockers ++ (count_events show correctness_owner p.documents).0)))

  abbrev all_statuses :
      Part → List Blocker × List (String × String) → Section × Compatibility → Section → List String
  all_statuses p checkpoints compatibility mutations =
      p.statuses
      ++ (map (λ c. c.1) checkpoints.1
          ++ (compatibility.0.status
              ∷ mutations.status
              ∷ (count_events show correctness_owner p.documents).1.0))

  -- What a passed conclusion says of its four sections.
  pub record Clean (p : Part) (checkpoints : List Blocker × List (String × String))
      (compatibility : Section × Compatibility) (mutations : Section) (v : Verdict) : Type 0 where
    pub parts : p.blockers ≡ []
    pub reached : checkpoints.0 ≡ []
    pub reached_passed : All (λ s. s ≡ "passed") (map (λ c. c.1) checkpoints.1)
    pub consistent : compatibility.0.blockers ≡ []
    pub consistent_passed : compatibility.0.status ≡ "passed"
    pub approved : mutations.blockers ≡ []
    pub approved_passed : mutations.status ≡ "passed"
    pub compatible : all_compatible v.compatibility ≡ true
    pub quiet : All (λ c. ltb_ℤ (pos 0) c.1 ≡ false) v.correctness
    pub unblocked : v.blockers ≡ []

  pub conclude-Clean :
      (p : Part) (summary : Summary) (checkpoints : List Blocker × List (String × String))
      (compatibility : Section × Compatibility) (mutations : Section)
      → (conclude w b show p summary checkpoints compatibility mutations).status ≡ "passed"
      → Clean p checkpoints compatibility mutations
          (conclude w b show p summary checkpoints compatibility mutations)
  unfolding conclude inconsistent
  conclude-Clean p summary checkpoints compatibility mutations h =
      let counted = count_events show correctness_owner p.documents in
      let reports : List String = map (λ c. c.1) checkpoints.1 in
      let sections : List String = compatibility.0.status ∷ mutations.status ∷ counted.1.0 in
      let blockers = all_blockers p checkpoints compatibility mutations in
      let statuses = all_statuses p checkpoints compatibility mutations in
      let (unbroken, overall) =
        status_of (inconsistent blockers statuses compatibility.1) (overall_of blockers statuses)
          h in
      let (none_blocks, all_passed) = overall_of-passed blockers statuses overall in
      let (parts, more) = append-nil p.blockers _ none_blocks in
      let (reached, more) = append-nil checkpoints.0 _ more in
      let (consistent, more) = append-nil compatibility.0.blockers _ more in
      let (approved, quiet) = append-nil mutations.blockers counted.0 more in
      let (_, after) = All-append (λ s. s ≡ "passed") p.statuses (reports ++ sections) all_passed in
      let (reached_passed, after) = All-append (λ s. s ≡ "passed") reports sections after in
      record {
        parts = parts;
        reached = reached;
        reached_passed = reached_passed;
        consistent = consistent;
        consistent_passed = after.0;
        approved = approved;
        approved_passed = after.1.0;
        compatible = consistent_compatible blockers statuses compatibility.1 unbroken overall;
        quiet = no_event show correctness_owner p.documents quiet;
        unblocked = nothing_listed blockers _ _ none_blocks unbroken;
      }

  pub conclude-known :
      (p : Part) (summary : Summary) (checkpoints : List Blocker × List (String × String))
      (compatibility : Section × Compatibility) (mutations : Section)
      → known_status (conclude w b show p summary checkpoints compatibility mutations).status ≡ true
  unfolding conclude
  conclude-known p summary checkpoints compatibility mutations =
      let blockers = all_blockers p checkpoints compatibility mutations in
      let statuses = all_statuses p checkpoints compatibility mutations in
      known_branch (inconsistent blockers statuses compatibility.1) (overall_of blockers statuses)
        (overall_of-known blockers statuses)
