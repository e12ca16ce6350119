-- ===== src/Readiness/Reached.antt =====
-- operations/bin/compose_readiness_v1.py: what a supporting section without blockers says of its
-- checkpoint, compatibility result or mutation log.
use liqi_platform.Prelude.{
  String, Bool, true, false, not, ◌||◌, ◌&&◌, Option, none, some, List, [], ◌∷◌, ◌++◌, map, All,
  ◌≡◌, refl, string_eq, eq_iff, is_empty, if◌then◌else◌, Result, ok, err, arith, and_then-eq-ok,
  ok-injective, subst, sym,
}
use liqi_platform.Prelude.Int.{ℤ}
use liqi_platform.Prelude.Json.{Json, obj, end, str, get, is_text, as_text}
use liqi_platform.Readiness.Common.{Blocker}
use liqi_platform.Readiness.Composition.{World, Binding, Crash, find, text_or, blocker_if}
use liqi_platform.Readiness.Support.{
  Support, Section, Compatibility, is_status, support_stale, support_binding, read_support,
  checkpoint_errors, checkpoint_blockers, checkpoint_document, checkpoint_part,
  compatibility_errors, compatibility_document, compatibility_part, mutation_errors,
  mutation_blockers, mutation_document, mutation_part,
}
use liqi_platform.Readiness.Verdict.{checkpoint_loop}
use liqi_platform.Readiness.Passed.{is_passed-failed, append-nil, error_if-nil}

-- A supporting document that was read, satisfies its schema, names this release, passed and is fresh.
pub record IsSound (w : World) (b : Binding) (rule : Support) (label path : String) : Type 0 where
  pub document : Json
  pub loaded : w.load path ≡ ok document
  pub valid : w.schema_errors rule.schema document label ≡ []
  pub passed : is_text "passed" (get "status" document) ≡ true
  pub same_sha : is_text b.sha (get "git_sha" document) ≡ true
  pub same_release : is_text b.release_id (get "release_id" document) ≡ true
  pub fresh : support_stale w b rule.max_age_seconds (as_text (get "observed_at" document)) ≡ false

-- A checkpoint that was given, under its own name.
pub record IsReached (w : World) (b : Binding) (rule : Support) (paths : List (String × String))
    (name : String) : Type 0 where
  pub path : String
  pub given : find name paths ≡ some path
  pub sound : IsSound w b rule name path
  pub same_name : is_text name (get "name" sound.document) ≡ true

empty_list {ℓ} : {A : Type ℓ} (xs : List A) → is_empty xs ≡ true → xs ≡ []
empty_list [] h = refl
empty_list (x ∷ xs) h = absurd (ground arith)

module _ (w : World) (b : Binding) where
  text_or-passed :
      (o : Option Json)
      → is_status o ≡ true
      → text_or w "failed" o ≡ "passed"
      → is_text "passed" o ≡ true
  unfolding text_or
  text_or-passed none h k =
      let e : (true ≡ false) = is_passed-failed "failed" refl k in absurd (ground arith)
  text_or-passed (some (str s)) h k = ground (arith, eq_iff s "passed")
  text_or-passed (some v) h k = absurd (ground arith)

  -- The shape of a section: its blockers and its status.
  unblocked :
      (stale sound : Bool) (more : List Blocker) (x : Blocker) (t : String)
      → blocker_if stale x ++ more ≡ []
      → (if sound then t else "failed") ≡ "passed"
      → (stale ≡ false) × (more ≡ []) × (sound ≡ true) × (t ≡ "passed")
  unblocked true sound more x t n p = absurd (ground arith)
  unblocked false true more x t n p = (refl, n, refl, p)
  unblocked false false more x t n p =
      let e : (true ≡ false) = is_passed-failed "failed" refl p in absurd (ground arith)

  -- The parts of a list of errors that is empty.
  binding_parts :
      (label : String) (d : Json)
      → support_binding w b label d ≡ []
      → (is_text b.sha (get "git_sha" d) ≡ true)
        × (is_text b.release_id (get "release_id" d) ≡ true)
  unfolding support_binding
  binding_parts label d h =
      let (sha, release) = append-nil _ _ h in (error_if-nil _ _ sha, error_if-nil _ _ release)

  -- A document that could not be read has an error.
  read_support-loaded :
      (schema label path : String)
      → (read_support w b schema label path).1 ≡ []
      → (d : Json) × (w.load path ≡ ok d)
        × (w.schema_errors schema d label ≡ [])
        × ((read_support w b schema label path).0 ≡ d)
  unfolding read_support
  read_support-loaded schema label path h = go (w.load path) refl h
    where
      go :
          (r : Result String Json)
          → w.load path ≡ r
          → (let q : Json × List String = elim r [
            | err reason ↦ (obj end, reason ∷ [])
            | ok d ↦ (d, w.schema_errors schema d label)
          ] in
              q.1 ≡ [])
          → (d : Json) × (w.load path ≡ ok d)
            × (w.schema_errors schema d label ≡ [])
            × ((read_support w b schema label path).0 ≡ d)
      go (err reason) e n = absurd (ground arith)
      go (ok d) e n = (d, e, n, rw (e, read_support))

  section_judged :
      (readable stale : Bool) (errors : List String) (found : Option (List Blocker)) (x : Blocker)
      (t : String) (s : Section)
      → (if readable
          then elim found [
            | none ↦ err Crash.malformed
            | some more ↦ ok record {
              blockers = blocker_if stale x ++ more;
              status = if is_empty errors then t else "failed";
            }
          ]
          else err Crash.malformed)
        ≡ ok s
      → s.blockers ≡ []
      → s.status ≡ "passed"
      → (readable ≡ true) × (stale ≡ false) × (errors ≡ []) × (t ≡ "passed")
  section_judged false stale errors found x t s h n p = absurd (ground arith)
  section_judged true stale errors none x t s h n p = absurd (ground arith)
  section_judged true stale errors (some more) x t s h n p =
      let (fresh, _, sound, passed) =
        unblocked stale (is_empty errors) more x t (ground arith) (ground arith) in
      (refl, fresh, empty_list errors sound, passed)

  -- What a document without errors and with the status "passed" is.
  judged_status :
      (object : Bool) (errors : List String) (o : Option Json)
      → (object && (not (is_empty errors) || is_status o)) ≡ true
      → errors ≡ []
      → text_or w "failed" o ≡ "passed"
      → is_text "passed" o ≡ true
  judged_status object errors o c e t = text_or-passed o (ground arith) t

  judged_rows :
      (object rows : Bool) (errors : List String) (o : Option Json)
      → (object && (not (is_empty errors) || is_status o) && rows) ≡ true
      → errors ≡ []
      → text_or w "failed" o ≡ "passed"
      → is_text "passed" o ≡ true
  judged_rows object rows errors o c e t = text_or-passed o (ground arith) t

  checkpoint_document-judged :
      (rule : Support) (name path : String) (d : Json) (schema_errors : List String) (s : Section)
      → checkpoint_document w b rule name path d schema_errors ≡ ok s
      → s.blockers ≡ []
      → s.status ≡ "passed"
      → (support_stale w b rule.max_age_seconds (as_text (get "observed_at" d)) ≡ false)
        × (checkpoint_errors w b name d schema_errors ≡ [])
        × (is_text "passed" (get "status" d) ≡ true)
  unfolding checkpoint_document
  checkpoint_document-judged rule name path d schema_errors s h n p =
      let (c, fresh, errors, passed) =
        section_judged _ _ (checkpoint_errors w b name d schema_errors)
          (checkpoint_blockers w b path name d (checkpoint_errors w b name d schema_errors)) _ _ s h
          n p in
      (fresh, errors, judged_status _ _ _ c errors passed)

  checkpoint_part-IsReached :
      (rule : Support) (paths : List (String × String)) (name : String) (o : Option String)
      (s : Section)
      → find name paths ≡ o
      → checkpoint_part w b rule name o ≡ ok s
      → s.blockers ≡ []
      → s.status ≡ "passed"
      → IsReached w b rule paths name
  unfolding checkpoint_part checkpoint_errors
  checkpoint_part-IsReached rule paths name none s g h n p = absurd (ground arith)
  checkpoint_part-IsReached rule paths name (some path) s g h n p =
      let r = read_support w b rule.schema name path in
      let (fresh, errors, passed) = checkpoint_document-judged rule name path r.0 r.1 s h n p in
      let (schema, more) = append-nil _ _ errors in
      let (named, more) = append-nil _ _ more in
      let (bound, _) = append-nil _ _ more in
      let (sha, release) = binding_parts "checkpoint" r.0 bound in
      let (d, loaded, valid, same) = read_support-loaded rule.schema name path schema in
      record {
        path = path;
        given = g;
        sound = record {
          document = r.0;
          loaded = rw same loaded;
          valid = rw same valid;
          passed = passed;
          same_sha = sha;
          same_release = release;
          fresh = fresh;
        };
        same_name = error_if-nil _ _ named;
      }

  pub checkpoint_loop-IsReached :
      (show : ℤ → String) (rule : Support) (paths : List (String × String)) (names : List String)
      (r : List Blocker × List (String × String))
      → checkpoint_loop w b show rule names paths ≡ ok r
      → r.0 ≡ []
      → All (λ s. s ≡ "passed") (map (λ c. c.1) r.1)
      → All (IsReached w b rule paths) names
  unfolding checkpoint_loop
  checkpoint_loop-IsReached show rule paths [] r h n p = tt
  checkpoint_loop-IsReached show rule paths (name ∷ rest) r h n p =
      let (s, first, more) = and_then-eq-ok _ _ h in
      let (q, others, same) = and_then-eq-ok _ _ more in
      let (n1, n2) = append-nil s.blockers q.0 (ground arith) in
      let ps : All (λ s. s ≡ "passed") (s.status ∷ map (λ c. c.1) q.1) =
        subst
          (λ (z : List Blocker × List (String × String)).
            All (λ t. t ≡ "passed") (map (λ c. c.1) z.1))
          (sym (ok-injective same)) p in
      (
        checkpoint_part-IsReached rule paths name _ s refl first n1 ps.0,
        checkpoint_loop-IsReached show rule paths rest q others n2 ps.1,
      )

  compatible_judged :
      (readable stale : Bool) (errors : List String) (found : Option (List Blocker)) (x : Blocker)
      (t : String) (values : Compatibility) (s : Section × Compatibility)
      → (if readable
          then elim found [
            | none ↦ err Crash.malformed
            | some more ↦ ok (
              record {
                blockers = blocker_if stale x ++ more;
                status = if is_empty errors then t else "failed";
              },
              values,
            )
          ]
          else err Crash.malformed)
        ≡ ok s
      → s.0.blockers ≡ []
      → s.0.status ≡ "passed"
      → (readable ≡ true) × (stale ≡ false) × (errors ≡ []) × (t ≡ "passed")
  compatible_judged false stale errors found x t values s h n p = absurd (ground arith)
  compatible_judged true stale errors none x t values s h n p = absurd (ground arith)
  compatible_judged true stale errors (some more) x t values s h n p =
      let (fresh, _, sound, passed) =
        unblocked stale (is_empty errors) more x t (ground arith) (ground arith) in
      (refl, fresh, empty_list errors sound, passed)

  compatibility_document-judged :
      (rule : Support) (path : String) (d : Json) (schema_errors : List String)
      (s : Section × Compatibility)
      → compatibility_document w b rule path d schema_errors ≡ ok s
      → s.0.blockers ≡ []
      → s.0.status ≡ "passed"
      → (support_stale w b rule.max_age_seconds (as_text (get "observed_at" d)) ≡ false)
        × (compatibility_errors w b d schema_errors ≡ [])
        × (is_text "passed" (get "status" d) ≡ true)
  unfolding compatibility_document
  compatibility_document-judged rule path d schema_errors s h n p =
      let (c, fresh, errors, passed) =
        compatible_judged _ _ (compatibility_errors w b d schema_errors) _ _ _ _ s h n p in
      (fresh, errors, judged_rows _ _ _ _ c errors passed)

  pub compatibility_part-IsSound :
      (rule : Support) (o : Option String) (s : Section × Compatibility)
      → compatibility_part w b rule o ≡ ok s
      → s.0.blockers ≡ []
      → s.0.status ≡ "passed"
      → (path : String) × (o ≡ some path) × IsSound w b rule "compatibility" path
  unfolding compatibility_part compatibility_errors
  compatibility_part-IsSound rule none s h n p = absurd (ground arith)
  compatibility_part-IsSound rule (some path) s h n p =
      let r = read_support w b rule.schema "compatibility" path in
      let (fresh, errors, passed) = compatibility_document-judged rule path r.0 r.1 s h n p in
      let (schema, more) = append-nil _ _ errors in
      let (bound, _) = append-nil _ _ more in
      let (sha, release) = binding_parts "compatibility" r.0 bound in
      let (d, loaded, valid, same) = read_support-loaded rule.schema "compatibility" path schema in
      (
        path,
        refl,
        record {
          document = r.0;
          loaded = rw same loaded;
          valid = rw same valid;
          passed = passed;
          same_sha = sha;
          same_release = release;
          fresh = fresh;
        },
      )

  mutation_document-judged :
      (rule : Support) (path : String) (d : Json) (schema_errors : List String) (s : Section)
      → mutation_document w b rule path d schema_errors ≡ ok s
      → s.blockers ≡ []
      → s.status ≡ "passed"
      → (support_stale w b rule.max_age_seconds (as_text (get "observed_at" d)) ≡ false)
        × (mutation_errors w b d schema_errors ≡ [])
        × (is_text "passed" (get "status" d) ≡ true)
  unfolding mutation_document
  mutation_document-judged rule path d schema_errors s h n p =
      let (c, fresh, errors, passed) =
        section_judged _ _ (mutation_errors w b d schema_errors)
          (some (mutation_blockers w b path d (mutation_errors w b d schema_errors))) _ _ s h n p in
      (fresh, errors, judged_status _ _ _ c errors passed)

  -- The mutation log is bound to the environment too.
  pub mutation_part-IsSound :
      (rule : Support) (o : Option String) (s : Section)
      → mutation_part w b rule o ≡ ok s
      → s.blockers ≡ []
      → s.status ≡ "passed"
      → (path : String) × (o ≡ some path)
        × ((sound : IsSound w b rule "oci-mutations" path) × (is_text b.environment
                (get "environment" sound.document)
              ≡ true))
  unfolding mutation_part mutation_errors
  mutation_part-IsSound rule none s h n p = absurd (ground arith)
  mutation_part-IsSound rule (some path) s h n p =
      let r = read_support w b rule.schema "oci-mutations" path in
      let (fresh, errors, passed) = mutation_document-judged rule path r.0 r.1 s h n p in
      let (schema, more) = append-nil _ _ errors in
      let (bound, more) = append-nil _ _ more in
      let (place, _) = append-nil _ _ more in
      let (sha, release) = binding_parts "mutation log" r.0 bound in
      let (d, loaded, valid, same) = read_support-loaded rule.schema "oci-mutations" path schema in
      (
        path,
        refl,
        (
          record {
            document = r.0;
            loaded = rw same loaded;
            valid = rw same valid;
            passed = passed;
            same_sha = sha;
            same_release = release;
            fresh = fresh;
          },
          error_if-nil _ _ place,
        ),
      )
