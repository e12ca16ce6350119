-- ===== src/Readiness/AssignmentExamples.antt =====
-- `parse_assignments` of operations/bin/compose_readiness_v1.py on two arguments.
use liqi_platform.Prelude.{◌<>◌, [], ◌∷◌, refl, ◌≡◌, ok}
use liqi_platform.Readiness.Summary.{parse_assignments}
use liqi_platform.Readiness.Assignments.{parse_assignments-written}

parse_assignments-written_example :
    parse_assignments (λ p. "/srv/" <> p) "evidence" ("load=load=1.json" ∷ "soak=soak.json" ∷ [])
    ≡ ok (("load", "/srv/load=1.json") ∷ ("soak", "/srv/soak.json") ∷ [])
parse_assignments-written_example =
    parse_assignments-written (λ p. "/srv/" <> p) "evidence"
      (("load", "load=1.json") ∷ ("soak", "soak.json") ∷ []) (refl, (refl, tt)) refl
