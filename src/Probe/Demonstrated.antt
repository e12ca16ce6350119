-- ===== src/Probe/Demonstrated.antt =====
-- `main` of platform_probe.py: what the server has shown where the probe exits with 0.
use liqi_platform.Prelude.{
  ℕ, ◌||◌, ◌==◌, string_eq, some, sym, subst, if◌then◌else◌, String, Bool, true, false, List, ◌≡◌,
  sym, refl, ok-injective, ap, subst, ◌∙◌, nat_eq, Result, ok, err, arith,
}
use liqi_platform.Prelude.Int.{ℤ}
use liqi_platform.Prelude.Json.{Json, str, get}
use liqi_platform.Probe.Recorder.{
  Problem, probe_failure, handshake_error, unexpected, native_kernel, passed_check, set,
  record_failure,
}
use liqi_platform.Probe.Session.{
  Env, Live, run, finish_step, ◌>>=◌, emit, closed, pure, ◌>>◌, Exchange, Opening,
}
use liqi_platform.Probe.Steps.{kernel_available, native_kernel_step}
use liqi_platform.Probe.Live.{
  Observed, kernel, start, unless_blocked, all_but_kernel, run_live_probe, Evidence, after_run,
  emit_result, main,
}
use liqi_platform.Probe.Shown.{
  raise_unless-true, returned, on_ok, Alive, Identified, Guarded, Diagnosed, health-Alive,
  ready-Identified, unauthorized_step-Guarded, native-Diagnosed,
}
use liqi_platform.Probe.Exchanged.{run-SameServer}
use liqi_platform.Probe.Observes.{Observes, IsReadyRuntime-Observes}
use liqi_platform.Probe.Proven.{main-Completed}
use liqi_platform.Probe.Untouched.{kernel_row}

module _ (env : Env) where
  native_kernel_step-available :
      (native : Json) (l : Live) {u : Unit {0}} {k : Live}
      → native_kernel_step env native l ≡ (ok u, k)
      → kernel_available env native ≡ ok true
  unfolding native_kernel_step
  native_kernel_step-available native l h = on_ok _ _ l h λ available l1 e1 h1.
      ap (λ (x : Result Problem Bool × Live). x.0) e1 ∙ ap ok (raise_unless-true available _ l1 h1)

  -- A kernel's row that passed is one of a step that returned.
  finish_kernel-passed :
      (r : Result Problem (Unit {0})) (ref : String) (d : ℤ) (l : Live)
      → (kernel_row (unless_blocked env (finish_step native_kernel ref d (r, l))).1).status
        ≡ passed_check
      → r ≡ ok tt
  unfolding record_failure set
  finish_kernel-passed (ok u) ref d l h = refl
  finish_kernel-passed (err (probe_failure f true)) ref d l h = absurd (ground arith)
  finish_kernel-passed (err (probe_failure f false)) ref d l h = absurd (ground arith)
  finish_kernel-passed (err (handshake_error s m)) ref d l h = absurd (ground arith)
  finish_kernel-passed (err (unexpected n t)) ref d l h = absurd (ground arith)

  kernel-available :
      (native : Json) (l : Live)
      → (kernel_row (kernel env native l).1).status ≡ passed_check
      → kernel_available env native ≡ ok true
  unfolding kernel run
  kernel-available native l h =
      let step : Result Problem (Unit {0}) × Live = native_kernel_step env native l in
      native_kernel_step-available native l {u = tt} {k = step.1}
        (ap (λ r. (r, step.1)) (finish_kernel-passed step.0 _ _ step.1 h))

-- What a server has shown to a probe with this environment, by these answers: the first four are its
-- liveness, its metadata, its readiness and the refusal of a command, and the last one is that of the
-- native diagnostic.
pub record Demonstrated (env : Env) (exchanges : List Exchange) (openings : List Opening)
    (doc : Evidence) : Type 0 where
  pub after_health : Live
  pub alive : Alive env (start env.token exchanges openings) after_health
  pub after_readiness : Live
  pub documents : Json × Json
  pub identified : Identified env documents after_health after_readiness
  pub guarded : Guarded env after_readiness
  pub observed : Observed
  pub native : Json
  pub last : Live
  pub ran : all_but_kernel env (start env.token exchanges openings) ≡ (ok (observed, native), last)
  pub diagnosed : Diagnosed env native last
  pub release_shown : get "releaseId" documents.0 ≡ some (str doc.observed_release_id)
  pub environment_shown : get "environment" documents.0 ≡ some (str doc.environment)
  pub kernel_native : kernel_available env native ≡ ok true

-- What the steps before the last one have shown.
record Shown (env : Env) (l : Live) (v : Observed × Json) (k : Live) : Type 0 where
  after_health : Live
  alive : Alive env l after_health
  after_readiness : Live
  documents : Json × Json
  identified : Identified env documents after_health after_readiness
  guarded : Guarded env after_readiness
  observes : Observes documents.0 v.0
  diagnosed : Diagnosed env v.1 k

all_but_kernel-Shown :
    (env : Env) (l : Live) {v : Observed × Json} {k : Live}
    → all_but_kernel env l ≡ (ok v, k)
    → Shown env l v k
unfolding all_but_kernel
all_but_kernel-Shown env l h = on_ok _ _ l h λ _ l1 e1 h1. on_ok _ _ l1 h1 λ documents l2 e2 h2.
    on_ok _ _ l2 h2 λ _ l3 e3 h3. on_ok _ _ l3 h3 λ c l4 e4 h4. on_ok _ _ l4 h4 λ r l5 e5 h5.
      on_ok _ _ l5 h5 λ _ l6 e6 h6. on_ok _ _ l6 h6 λ native l7 e7 h7.
        subst (λ (x : (Observed × Json) × Live). Shown env l x.0 x.1) (returned h7)
          (record {
            after_health = l1;
            alive = health-Alive env l e1;
            after_readiness = l2;
            documents = documents;
            identified = ready-Identified env _ _ l1 e2;
            guarded = unauthorized_step-Guarded env l2 (run-SameServer env _ _ _ l2 e3).1;
            observes =
                IsReadyRuntime-Observes env documents.0 documents.1
                  (ready-Identified env _ _ l1 e2).runtime;
            diagnosed = native-Diagnosed env _ _ l6 e7;
          })

closing :
    (o : Observed) (l : Live) {v : Observed} {k : Live}
    → (do emit closed; pure o) l ≡ (ok v, k)
    → (kernel_row l).status ≡ (kernel_row k).status
unfolding ◌>>=◌
closing o l h = ap (λ (x : Result Problem Observed × Live). (kernel_row x.1).status) h

closing-observed :
    (o : Observed) (l : Live) {v : Observed} {k : Live}
    → (do emit closed; pure o) l ≡ (ok v, k)
    → o ≡ v
unfolding ◌>>=◌
closing-observed o l h = ok-injective (ap (λ (x : Result Problem Observed × Live). x.0) h)

-- The environment that the evidence names.
abbrev shown_environment : Observed → String
shown_environment o =
    if o.environment == "staging" || o.environment == "production" then o.environment else "staging"

emitted :
    (env : Env) (o : Observed) (l : Live) (doc : Evidence)
    → after_run env (ok o, l) ≡ (doc, 0)
    → (doc.observed_release_id ≡ o.release_id) × (doc.environment ≡ shown_environment o)
unfolding after_run emit_result
emitted env o l doc h = (
  ap (λ (x : Evidence × ℕ). x.0.observed_release_id) (sym h),
  ap (λ (x : Evidence × ℕ). x.0.environment) (sym h),
)

run_live_probe-Demonstrated :
    (env : Env) (exchanges : List Exchange) (openings : List Opening) {o : Observed} {k : Live}
    → run_live_probe env (start env.token exchanges openings) ≡ (ok o, k)
    → (kernel_row k).status ≡ passed_check
    → (doc : Evidence) → doc.observed_release_id ≡ o.release_id
    → doc.environment ≡ shown_environment o
    → Demonstrated env exchanges openings doc
unfolding run_live_probe
run_live_probe-Demonstrated env exchanges openings {o} h passed doc same_release same_environment =
    on_ok _ _ (start env.token exchanges openings) h λ r l1 e1 h1. on_ok _ _ l1 h1 λ _ l2 e2 h2.
      let shown = all_but_kernel-Shown env (start env.token exchanges openings) e1 in
      let row : (kernel_row (kernel env r.1 l1).1).status ≡ passed_check =
        ap (λ (x : Result Problem (Unit {0}) × Live). (kernel_row x.1).status) e2
        ∙ closing r.0 l2 h2
        ∙ passed in
      let observed : r.0 ≡ o = closing-observed r.0 l2 h2 in
      let known : shown_environment r.0 ≡ (r.0).environment = rw shown.observes.known refl in
      record {
        after_health = shown.after_health;
        alive = shown.alive;
        after_readiness = shown.after_readiness;
        documents = shown.documents;
        identified = shown.identified;
        guarded = shown.guarded;
        observed = r.0;
        native = r.1;
        last = l1;
        ran = e1;
        diagnosed = shown.diagnosed;
        release_shown =
            shown.observes.release
            ∙ ap (λ (x : Observed). some (str x.release_id)) observed
            ∙ ap (λ x. some (str x)) (sym same_release);
        environment_shown =
            shown.observes.environment
            ∙ ap (λ x. some (str x)) (sym known)
            ∙ ap (λ (x : Observed). some (str (shown_environment x))) observed
            ∙ ap (λ x. some (str x)) (sym same_environment);
        kernel_native = kernel-available env r.1 l1 row;
      }

-- A probe that exits with 0 has read these answers of the server, in this order: the first to its
-- requests, "live"; the second, metadata of the requested release, of this source revision and of a
-- staging or production environment, whose release and environment the evidence shows; the third, a
-- readiness of that release that says "ready"; the fourth, a 401 to a command without the token, after
-- which a connection without it was refused with one of four codes. The last answer of the run's steps
-- before the kernel's says that the native kernel is in use, and its result is the reference's and the
-- fallback's.
pub main-Demonstrated :
    (env : Env) (token : String) (exchanges : List Exchange) (openings : List Opening)
    (doc : Evidence)
    → main env (ok token) exchanges openings ≡ (doc, 0)
    → Demonstrated (record env { token = token }) exchanges openings doc
unfolding main
main-Demonstrated env token exchanges openings doc h =
    let c = main-Completed env (ok token) exchanges openings doc h in
    let same : token ≡ c.text = ok-injective c.has_token in
    let run : String → Result Problem Observed × Live =
      λ t. run_live_probe (record env { token = t }) (start t exchanges openings) in
    let ended : after_run env (run c.text) ≡ (doc, 0) =
      subst (λ t. after_run env (run t) ≡ (doc, 0)) same h in
    let (release, environment) =
      emitted env c.observed c.last doc (ap (after_run env) (sym c.ended) ∙ ended) in
    subst (λ t. Demonstrated (record env { token = t }) exchanges openings doc) (sym same)
      (run_live_probe-Demonstrated (record env { token = c.text }) exchanges openings c.ended
        (c.all_passed.passed native_kernel) doc release environment)
