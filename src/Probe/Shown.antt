-- ===== src/Probe/Shown.antt =====
-- The steps of platform_probe.py that ask the server what it is and refuse to be let in without a token,
-- and what their answers were where a step returns.
use liqi_platform.Prelude.{
  ℕ, ◌<>◌, some, [], ◌∷◌, and-parts, eq_of_beq, String, Bool, true, false, ◌&&◌, ◌||◌, Option, none,
  List, ◌≡◌, ◌≢◌, refl, ok-injective, ap, subst, ◌∙◌, ◌==◌, nat_eq, Result, ok, err, arith,
  if◌then◌else◌,
}
use liqi_platform.Prelude.Int.{ℤ}
use liqi_platform.Prelude.Json.{Json, str, obj, end, field, get, is_text}
use liqi_platform.Probe.Recorder.{Problem, probe_failure, handshake_error, unexpected, Name}
use liqi_platform.Probe.Phoenix.{Channel}
use liqi_platform.Probe.Session.{Env, Live, Run, run, ◌>>=◌, raise_unless, Request, pure}
use liqi_platform.Probe.Handshake.{connect}
use liqi_platform.Probe.Steps.{
  bypassed, admits, readiness_step, is_clean_rejection, rejected, unauthorized_step, fallback_ok,
  native_fallback_step,
}
use liqi_platform.Probe.Live.{health, refuse}
use liqi_platform.Probe.Exchanged.{
  Exchanged, Answered, SameServer, SameServer-refl, SameServer-trans, Answered-SameServer,
  raise_unless-SameServer, from_result-SameServer, run-SameServer, request-Exchanged, call-Answered,
}
use liqi_platform.Probe.Proven.{bind-eq-ok}

pub raise_unless-true :
    (b : Bool) (e : Problem) (l : Live) {k : Live} {u : Unit {0}}
    → raise_unless b e l ≡ (ok u, k)
    → b ≡ true
raise_unless-true true e l h = refl
raise_unless-true false e l h = absurd (ground arith)

pub returned :
    {A : Type 0} {a b : A} {l k : Live}
    → ◌≡◌ {A = Result Problem A × Live} (ok a, l) (ok b, k)
    → ◌≡◌ {A = A × Live} (a, l) (b, k)
returned h = cc

pub on_ok :
    {A B C : Type 0} (m : Run A) (f : A → Run B) (l : Live) {b : B} {k : Live}
    → (m >>= f) l ≡ (ok b, k)
    → ((a : A) (l' : Live) → m l ≡ (ok a, l') → f a l' ≡ (ok b, k) → C)
    → C
on_ok m f l h next = let (a, l', e, h') = bind-eq-ok m f l h in next a l' e h'

-- The server's two documents are those of the release and of this checkout, and say that it is ready.
pub record IsReadyRuntime (env : Env) (metadata ready : Json) : Type 0 where
  pub release :
      (is_text env.release_id (get "releaseId" metadata)
        && is_text env.release_id (get "releaseId" ready))
      ≡ true
  pub revision : is_text env.source_sha (get "sourceRevision" metadata) ≡ true
  pub environment :
      (is_text "staging" (get "environment" metadata)
        || is_text "production" (get "environment" metadata))
      ≡ true
  pub is_ready : is_text "ready" (get "status" ready) ≡ true

-- A request without a body or a header of its own.
abbrev pub get_request : String → Request
get_request path = record { method = "GET"; path = path; headers = []; body = none }

-- The command of the unauthorized step, which carries no token.
abbrev pub without_token : Env → Request
without_token env = record {
  method = "POST";
  path = "/platform/v1/probes";
  headers = ("idempotency-key", "unauthorized:" <> env.first_probe) ∷ [];
  body = some (obj (field "clientProbeId" (str env.first_probe) end));
}

-- The next answer says that the server is live.
pub record Alive (env : Env) (l k : Live) : Type 0 where
  pub document : Json
  pub answer : Answered env (get_request "/health/live") 200 document l k
  pub live : is_text "live" (get "status" document) ≡ true

-- The next two answers are the documents of a runtime that is ready.
pub record Identified (env : Env) (v : Json × Json) (l k : Live) : Type 0 where
  pub between : Live
  pub metadata_answer : Answered env (get_request "/platform/v1/metadata") 200 v.0 l between
  pub ready_answer : Answered env (get_request "/health/ready") 200 v.1 between k
  pub runtime : IsReadyRuntime env v.0 v.1

-- The next answer refuses the command without the token with 401, and the connection that is then opened
-- without it is refused with one of four codes.
pub record Guarded (env : Env) (l : Live) : Type 0 where
  pub body : List ℕ
  pub next : Live
  pub denied : Exchanged (without_token env) 401 body l next
  pub status : Option ℤ
  pub message : String
  pub last : Live
  pub refused : connect env none next ≡ (err (handshake_error status message), last)
  pub cleanly : is_clean_rejection env status ≡ true

-- The native diagnostic: the answer is the document, whose three results agree.
pub record Diagnosed (env : Env) (native : Json) (k : Live) : Type 0 where
  pub asked : Request
  pub at_path : asked.path ≡ "/platform/v1/probes/native"
  pub before : Live
  pub answer : Answered env asked 200 native before k
  pub agrees : fallback_ok env native ≡ ok true

module _ (env : Env) where
  refuse-err :
      (name : Name) (ref c m : String) (l : Live) {u : Unit {0}} {k : Live}
      → refuse env {A = Unit {0}} name ref c m l ≢ (ok u, k)
  unfolding ◌>>=◌
  refuse-err name ref c m l h = ground arith

  unless_refused :
      (b : Bool) (name : Name) (ref c m : String) (l : Live) {u : Unit {0}} {k : Live}
      → (if b then pure tt else refuse env name ref c m) l ≡ (ok u, k)
      → (b ≡ true) × (l ≡ k)
  unless_refused true name ref c m l h =
      (refl, ap (λ (x : Result Problem (Unit {0}) × Live). x.1) h)
  unless_refused false name ref c m l h = absurd (refuse-err name ref c m l h)

  pub health-Alive : (l : Live) {u : Unit {0}} {k : Live} → health env l ≡ (ok u, k) → Alive env l k
  unfolding health
  health-Alive l h = on_ok _ _ l h λ document l1 e1 h1.
      let (l', called, same) = run-SameServer env _ _ _ l e1 in
      let (good, back) = unless_refused _ _ _ _ _ l1 h1 in
      record {
        document = document;
        answer =
            subst (Answered env (get_request "/health/live") 200 document l) back (
              Answered-SameServer (SameServer-refl l) (call-Answered env _ _ _ _ _ _ l called)
                same);
        live = (and-parts (is_text "live" (get "status" document)) _ good).0;
      }

  admits-IsReadyRuntime :
      (a b : Json) (l : Live) {u : Unit {0}} {k : Live}
      → admits env a b l ≡ (ok u, k)
      → IsReadyRuntime env a b
  admits-IsReadyRuntime a b l h = on_ok _ _ l h λ _ l1 e1 h1. on_ok _ _ l1 h1 λ _ l2 e2 h2.
      on_ok _ _ l2 h2 λ _ l3 e3 h3. record {
        release = raise_unless-true _ _ l e1;
        revision = raise_unless-true _ _ l1 e2;
        environment = raise_unless-true _ _ l2 e3;
        is_ready = raise_unless-true _ _ l3 h3;
      }

  admits-SameServer :
      (a b : Json) (l : Live) {u : Unit {0}} {k : Live}
      → admits env a b l ≡ (ok u, k)
      → SameServer l k
  admits-SameServer a b l h = on_ok _ _ l h λ _ l1 e1 h1. on_ok _ _ l1 h1 λ _ l2 e2 h2.
      on_ok _ _ l2 h2 λ _ l3 e3 h3. SameServer-trans (raise_unless-SameServer _ _ l e1) (
        SameServer-trans (raise_unless-SameServer _ _ l1 e2) (
          SameServer-trans (raise_unless-SameServer _ _ l2 e3) (raise_unless-SameServer _ _ l3 h3)))

  readiness_step-Identified :
      (l : Live) {v : Json × Json} {k : Live}
      → readiness_step env l ≡ (ok v, k)
      → Identified env v l k
  unfolding readiness_step
  readiness_step-Identified l h = on_ok _ _ l h λ a l1 e1 h1. on_ok _ _ l1 h1 λ b l2 e2 h2.
      on_ok _ _ l2 h2 λ _ l3 e3 h3.
        subst (λ (x : (Json × Json) × Live). Identified env x.0 l x.1) (returned h3)
          (record {
            between = l1;
            metadata_answer = call-Answered env _ _ _ _ _ _ l e1;
            ready_answer =
                Answered-SameServer (SameServer-refl l1) (call-Answered env _ _ _ _ _ _ l1 e2)
                  (admits-SameServer a b l2 e3);
            runtime = admits-IsReadyRuntime a b l2 e3;
          })

  pub ready-Identified :
      (name : Name) (ref : String) (l : Live) {v : Json × Json} {k : Live}
      → run env name ref (readiness_step env) l ≡ (ok v, k)
      → Identified env v l k
  ready-Identified name ref l h =
      let (l', stepped, same) = run-SameServer env name ref _ l h in
      let i = readiness_step-Identified l stepped in
      record {
        between = i.between;
        metadata_answer = i.metadata_answer;
        ready_answer = Answered-SameServer (SameServer-refl i.between) i.ready_answer same;
        runtime = i.runtime;
      }

  rejected-err :
      (r : Result Problem Channel) (l : Live) {u : Unit {0}} {k : Live}
      → rejected env (r, l) ≡ (ok u, k)
      → (status : Option ℤ) × (m : String) × (r ≡ err (handshake_error status m))
        × (is_clean_rejection env status ≡ true)
  unfolding ◌>>=◌
  rejected-err (ok c) l h = absurd (ground arith)
  rejected-err (err (probe_failure f b)) l h = absurd (ground arith)
  rejected-err (err (handshake_error status m)) l h = (status, m, refl, ground arith)
  rejected-err (err (unexpected n t)) l h = absurd (ground arith)

  bypassed-err : (l : Live) {u : Unit {0}} {k : Live} → bypassed env l ≢ (ok u, k)
  unfolding ◌>>=◌
  bypassed-err l h = ground arith

  choice-true :
      (c : Bool) (m : Run (Unit {0})) (l : Live) {u : Unit {0}} {k : Live}
      → (if c then m else bypassed env) l ≡ (ok u, k)
      → (c ≡ true) × (m l ≡ (ok u, k))
  choice-true true m l h = (refl, h)
  choice-true false m l h = absurd (bypassed-err l h)

  pub unauthorized_step-Guarded :
      (l : Live) {u : Unit {0}} {k : Live} → unauthorized_step env l ≡ (ok u, k) → Guarded env l
  unfolding unauthorized_step
  unauthorized_step-Guarded l h = on_ok _ _ l h λ response l1 e1 h1.
      let (denied, h2) = choice-true (response.status == 401) _ l1 h1 in
      let (status, m, refused, cleanly) =
        rejected-err (connect env none l1).0 (connect env none l1).1 h2 in
      record {
        body = response.body;
        next = l1;
        denied =
            subst (λ n. Exchanged (without_token env) n response.body l l1) (eq_of_beq denied)
              (request-Exchanged env (without_token env) l e1);
        status = status;
        message = m;
        last = (connect env none l1).1;
        refused = ap (λ r. (r, (connect env none l1).1)) refused;
        cleanly = cleanly;
      }

  native_fallback_step-Diagnosed :
      (l : Live) {native : Json} {k : Live}
      → native_fallback_step env l ≡ (ok native, k)
      → Diagnosed env native k
  unfolding native_fallback_step
  native_fallback_step-Diagnosed l {k} h = on_ok _ _ l h λ native' l1 e1 h1.
      on_ok _ _ l1 h1 λ agrees l2 e2 h2. on_ok _ _ l2 h2 λ _ l3 e3 h3.
        subst (λ x. Diagnosed env x k)
          (ok-injective (ap (λ (x : Result Problem Json × Live). x.0) h3))
          (subst (Diagnosed env native') (ap (λ (x : Result Problem Json × Live). x.1) h3) (record {
            asked = _;
            at_path = refl;
            before = l;
            answer = Answered-SameServer (SameServer-refl l) (call-Answered env _ _ _ _ _ _ l e1) (
                SameServer-trans (from_result-SameServer _ l1 e2)
                  (raise_unless-SameServer agrees _ l2 e3));
            agrees =
                ap (λ (x : Result Problem Bool × Live). x.0) e2
                ∙ ap ok (raise_unless-true agrees _ l2 e3);
          }))

  pub native-Diagnosed :
      (name : Name) (ref : String) (l : Live) {native : Json} {k : Live}
      → run env name ref (native_fallback_step env) l ≡ (ok native, k)
      → Diagnosed env native k
  native-Diagnosed name ref l h =
      let (l', stepped, same) = run-SameServer env name ref _ l h in
      let d = native_fallback_step-Diagnosed l stepped in
      record {
        asked = d.asked;
        at_path = d.at_path;
        before = d.before;
        answer = Answered-SameServer (SameServer-refl d.before) d.answer same;
        agrees = d.agrees;
      }
