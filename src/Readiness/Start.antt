-- ===== src/Readiness/Start.antt =====
-- operations/bin/compose_readiness_v1.py: `main` from the values of its arguments.
use liqi_platform.Prelude.{ℕ, String, Option, none, List, ◌==◌, nat_eq, if◌then◌else◌, Result, ok}
use liqi_platform.Prelude.Int.{ℤ}
use liqi_platform.Prelude.Texts.{size}
use liqi_platform.Readiness.Composition.{World, Binding, Crash}
use liqi_platform.Readiness.Summary.{Paths, parse_assignments}
use liqi_platform.Readiness.Verdict.{Inputs, Verdict, main}

module _ (w : World) (b : Binding) (show : ℤ → String) (final_errors : Verdict → List String) where
  -- An assignment that cannot be read, and a revision that is no SHA, end with 64.
  abbrev assigned :
      (Paths → Paths → Inputs)
      → Result String Paths
      → Result String Paths
      → Result Crash (Option Verdict × ℕ)
  assigned inputs (ok evidence) (ok checkpoints) =
      if size b.sha == 40
      then main w b show final_errors (inputs evidence checkpoints)
      else ok (none, 64)
  assigned inputs evidence checkpoints = ok (none, 64)

  unfoldable pub start :
      (String → String)
      → List String
      → List String
      → (Paths → Paths → Inputs)
      → Result Crash (Option Verdict × ℕ)
  unfolding parse_assignments
  start resolve evidence checkpoints inputs =
      assigned inputs (parse_assignments resolve "evidence" evidence)
        (parse_assignments resolve "checkpoint" checkpoints)
