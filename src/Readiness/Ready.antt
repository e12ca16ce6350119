-- ===== src/Readiness/Ready.antt =====
-- operations/bin/compose_readiness_v1.py: what a published verdict and an exit with 0 say.
use liqi_platform.Prelude.{String, true, false, some, [], All, ◌≡◌, string_eq}
use liqi_platform.Prelude.Int.{pos, ltb_ℤ}
use liqi_platform.Prelude.Json.{get, is_text}
use liqi_platform.Readiness.Catalog.{checkpoint_names}
use liqi_platform.Readiness.Composition.{World, Binding}
use liqi_platform.Readiness.Summary.{Summary}
use liqi_platform.Readiness.Verdict.{Inputs, Verdict, all_compatible}
use liqi_platform.Readiness.Passed.{IsProven}
use liqi_platform.Readiness.Reached.{IsSound, IsReached}

-- Everything that a release needs, for a verdict.
pub record IsReady (w : World) (b : Binding) (i : Inputs) (v : Verdict) : Type 0 where
  pub evidence : All (IsProven w b i.evidence_paths) i.rules
  pub checkpoints : All (IsReached w b i.checkpoint_rule i.checkpoint_paths) checkpoint_names
  pub compatibility :
      (path : String) × (i.compatibility ≡ some path)
      × IsSound w b i.compatibility_rule "compatibility" path
  pub compatible : all_compatible v.compatibility ≡ true
  pub mutations :
      (path : String) × (i.oci_mutations ≡ some path)
      × ((sound : IsSound w b i.mutation_rule "oci-mutations" path) × (is_text b.environment
              (get "environment" sound.document)
            ≡ true))
  pub no_events : All (λ c. ltb_ℤ (pos 0) c.1 ≡ false) v.correctness
  pub no_blockers : v.blockers ≡ []
