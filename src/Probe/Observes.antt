-- ===== src/Probe/Observes.antt =====
-- What the run of platform_probe.py observes of a runtime that is ready.
use liqi_platform.Prelude.{
  String, Bool, true, false, ◌||◌, ◌==◌, string_eq, Option, some, and-parts, ◌≡◌, refl, sym, ap,
  ◌∙◌, arith,
}
use liqi_platform.Prelude.Json.{Json, str, get, is_text}
use liqi_platform.Prelude.Members.{is_text-true}
use liqi_platform.Probe.Session.{Env}
use liqi_platform.Probe.Live.{Observed, text_or}
use liqi_platform.Probe.Shown.{IsReadyRuntime}

-- The metadata's release and environment are those that the run observed.
pub record Observes (metadata : Json) (o : Observed) : Type 0 where
  pub release : get "releaseId" metadata ≡ some (str o.release_id)
  pub environment : get "environment" metadata ≡ some (str o.environment)
  pub known : (o.environment == "staging" || o.environment == "production") ≡ true

text_or-eq : (s x : String) (v : Option Json) → v ≡ some (str x) → v ≡ some (str (text_or s v))
text_or-eq s x v e = e ∙ ap (λ z. some (str (text_or s z))) (sym e)

-- The environment is one of the two.
staged :
    (s : String) (v : Option Json) (b c : Bool)
    → is_text "staging" v ≡ b
    → is_text "production" v ≡ c
    → (b || c) ≡ true
    → (v ≡ some (str (text_or s v)))
      × ((text_or s v == "staging" || text_or s v == "production") ≡ true)
staged s v true c e f h =
    let t = is_text-true "staging" v e in (text_or-eq s "staging" v t, rw t refl)
staged s v false true e f h =
    let t = is_text-true "production" v f in (text_or-eq s "production" v t, rw t refl)
staged s v false false e f h = absurd (ground arith)

pub IsReadyRuntime-Observes :
    (env : Env) (metadata ready : Json)
    → IsReadyRuntime env metadata ready
    → Observes metadata (record {
      release_id = text_or env.release_id (get "releaseId" metadata);
      environment = text_or env.environment (get "environment" metadata);
    })
IsReadyRuntime-Observes env metadata ready r =
    let named = (and-parts (is_text env.release_id (get "releaseId" metadata)) _ r.release).0 in
    let (e, known) =
      staged env.environment (get "environment" metadata) _ _ refl refl r.environment in
    record {
      release =
          text_or-eq env.release_id env.release_id (get "releaseId" metadata)
            (is_text-true env.release_id (get "releaseId" metadata) named);
      environment = e;
      known = known;
    }
