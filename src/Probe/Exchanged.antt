-- ===== src/Probe/Exchanged.antt =====
-- The requests of platform_probe.py that return: each takes the next answer of the server.
use liqi_platform.Prelude.{
  ℕ, String, Bool, true, false, Option, some, List, [], ◌∷◌, ◌≡◌, ◌≢◌, refl, sym, ap, subst, ◌∙◌,
  ◌==◌, nat_eq, eq_of_beq, if◌then◌else◌, Result, ok, err, ok-injective, arith,
}
use liqi_platform.Prelude.Json.{Json}
use liqi_platform.Probe.Recorder.{Problem, Name}
use liqi_platform.Probe.Session.{
  Env, Live, Run, Request, Response, Exchange, unreachable, broken, answered, requested,
  raise_unless, from_result, inspect, exchange_step, next_exchange, request, json, require_status,
  call, run, finish_step,
}
use liqi_platform.Probe.Proven.{bind-eq-ok}

-- From `l` to `k`, one request is made, and the server's next answer has this status and body.
pub record Exchanged (asked : Request) (status : ℕ) (body : List ℕ) (l k : Live) : Type 0 where
  pub http_error : Bool
  pub headers : String
  pub taken : l.exchanges ≡ answered http_error status headers body ∷ k.exchanges
  pub kept : k.openings ≡ l.openings
  pub traced : k.trace ≡ requested asked ∷ l.trace

-- The next answer has this status, and its body is this document.
pub record Answered (env : Env) (asked : Request) (status : ℕ) (document : Json) (l k : Live)
    : Type 0 where
  pub body : List ℕ
  pub read : env.parse body ≡ some document
  pub exchanged : Exchanged asked status body l k

-- What the recorder does not hold is the same.
pub record SameServer (l k : Live) : Type 0 where
  pub exchanges : k.exchanges ≡ l.exchanges
  pub openings : k.openings ≡ l.openings
  pub trace : k.trace ≡ l.trace

pub SameServer-refl : (l : Live) → SameServer l l
SameServer-refl l = record { exchanges = refl; openings = refl; trace = refl }

pub SameServer-trans : {l k m : Live} → SameServer l k → SameServer k m → SameServer l m
SameServer-trans p q = record {
  exchanges = q.exchanges ∙ p.exchanges;
  openings = q.openings ∙ p.openings;
  trace = q.trace ∙ p.trace;
}

-- An exchange, with what changed only the recorder around it.
pub Answered-SameServer :
    {env : Env} {asked : Request} {status : ℕ} {document : Json} {l l' k k' : Live}
    → SameServer l l'
    → Answered env asked status document l' k
    → SameServer k k'
    → Answered env asked status document l k'
Answered-SameServer {env} {asked} {status} {document} {l} {l'} {k} {k'} p a q = record {
  body = a.body;
  read = a.read;
  exchanged = record {
    http_error = a.exchanged.http_error;
    headers = a.exchanged.headers;
    taken =
        sym p.exchanges
        ∙ a.exchanged.taken
        ∙ ap (λ xs. answered a.exchanged.http_error status a.exchanged.headers a.body ∷ xs)
            (sym q.exchanges);
    kept = q.openings ∙ a.exchanged.kept ∙ p.openings;
    traced = q.trace ∙ a.exchanged.traced ∙ ap (λ es. requested asked ∷ es) p.trace;
  };
}

inspect-SameServer :
    (text : String) (l : Live) {u : Unit {0}} {k : Live}
    → inspect text l ≡ (ok u, k)
    → SameServer l k
unfolding inspect
inspect-SameServer text l h = record {
  exchanges = ground arith;
  openings = ground arith;
  trace = ground arith;
}

pub raise_unless-SameServer :
    (b : Bool) (e : Problem) (l : Live) {u : Unit {0}} {k : Live}
    → raise_unless b e l ≡ (ok u, k)
    → SameServer l k
raise_unless-SameServer true e l h =
    subst (SameServer l) (ap (λ (x : Result Problem (Unit {0}) × Live). x.1) h) (SameServer-refl l)
raise_unless-SameServer false e l h = absurd (ground arith)

pub from_result-SameServer :
    {A : Type 0} (r : Result Problem A) (l : Live) {a : A} {k : Live}
    → from_result r l ≡ (ok a, k)
    → SameServer l k
from_result-SameServer {A} r l h =
    subst (SameServer l) (ap (λ (x : Result Problem A × Live). x.1) h) (SameServer-refl l)

pub run-SameServer :
    {A : Type 0} (env : Env) (name : Name) (ref : String) (step : Run A) (l : Live) {v : A}
    {k : Live}
    → run env name ref step l ≡ (ok v, k)
    → (k' : Live) × (step l ≡ (ok v, k')) × SameServer k' k
unfolding run
run-SameServer {A} env name ref step l {v} {k} h = go (step l) refl h
  where
    go :
        (p : Result Problem A × Live)
        → step l ≡ p
        → finish_step name ref (env.elapsed name) p ≡ (ok v, k)
        → (k' : Live) × (step l ≡ (ok v, k')) × SameServer k' k
    go (ok a, l') e h = (
      l',
      e ∙ ap (λ (x : Result Problem A × Live). (x.0, l')) h,
      record {
        exchanges = ap (λ (x : Result Problem A × Live). x.1.exchanges) (sym h);
        openings = ap (λ (x : Result Problem A × Live). x.1.openings) (sym h);
        trace = ap (λ (x : Result Problem A × Live). x.1.trace) (sym h);
      },
    )
    go (err x, l') e h = absurd (ground arith)

-- No response came.
abbrev is_failing : Exchange → Bool
is_failing (answered http_error status headers body) = false
is_failing x = true

module _ (env : Env) where
  failing :
      (x : Exchange) (l : Live) {response : Response} {k : Live}
      → is_failing x ≡ true
      → exchange_step env x l ≢ (ok response, k)
  unfolding exchange_step
  failing unreachable l b h = ground arith
  failing (broken n t) l b h = ground arith
  failing (answered a s hs bs) l b h = ground arith

  -- An answer that is accepted is returned, and only the recorder has changed.
  answered-SameServer :
      (http_error : Bool) (status : ℕ) (headers : String) (body : List ℕ) (l : Live)
      {response : Response} {k : Live}
      → exchange_step env (answered http_error status headers body) l ≡ (ok response, k)
      → (response.status ≡ status) × (response.body ≡ body) × SameServer l k
  unfolding exchange_step
  answered-SameServer http_error status headers body l h =
      let (_, l1, e1, h1) = bind-eq-ok (raise_unless _ _) _ l h in
      let (_, l2, e2, h2) = bind-eq-ok (inspect _) _ l1 h1 in
      let (_, l3, e3, h3) = bind-eq-ok (inspect headers) _ l2 h2 in
      let returned = ap (λ (x : Result Problem Response × Live). x.0) h3 in
      let back = ap (λ (x : Result Problem Response × Live). x.1) h3 in
      (
        ap (λ (x : Response). x.status) (sym (ok-injective returned)),
        ap (λ (x : Response). x.body) (sym (ok-injective returned)),
        SameServer-trans (raise_unless-SameServer _ _ l e1) (
            SameServer-trans (inspect-SameServer _ l1 e2)
              (subst (SameServer l2) back (inspect-SameServer headers l2 e3))),
      )

  next_exchange-Exchanged :
      (asked : Request) (xs : List Exchange) (l : Live) {response : Response} {k : Live}
      → l.exchanges ≡ xs
      → next_exchange env asked xs l ≡ (ok response, k)
      → Exchanged asked response.status response.body l k
  next_exchange-Exchanged asked [] l e h = absurd (failing unreachable _ refl h)
  next_exchange-Exchanged asked (unreachable ∷ rest) l e h = absurd (failing unreachable _ refl h)
  next_exchange-Exchanged asked (broken n t ∷ rest) l e h = absurd (failing (broken n t) _ refl h)
  next_exchange-Exchanged asked (answered b status headers body ∷ rest) l {response} e h =
      let m : Live = record l { exchanges = rest; trace = requested asked ∷ l.trace } in
      let (same_status, same_body, same) = answered-SameServer b status headers body m h in
      record {
        http_error = b;
        headers = headers;
        taken =
            e
            ∙ ap (λ x. answered b x headers body ∷ rest) (sym same_status)
            ∙ ap (λ x. answered b response.status headers x ∷ rest) (sym same_body)
            ∙ ap (λ xs. answered b response.status headers response.body ∷ xs) (sym same.exchanges);
        kept = same.openings;
        traced = same.trace;
      }

  pub request-Exchanged :
      (asked : Request) (l : Live) {response : Response} {k : Live}
      → request env asked l ≡ (ok response, k)
      → Exchanged asked response.status response.body l k
  unfolding request
  request-Exchanged asked l h = next_exchange-Exchanged asked l.exchanges l refl h

  json-read :
      (response : Response) {document : Json}
      → json env response ≡ ok document
      → env.parse response.body ≡ some document
  unfolding json
  json-read response h = ground arith

  require_status-read :
      (response : Response) (expected : ℕ) (failure_class : String) {document : Json}
      → require_status env response expected failure_class ≡ ok document
      → (response.status ≡ expected) × (env.parse response.body ≡ some document)
  unfolding require_status
  require_status-read response expected failure_class {document} h =
      go (response.status == expected) _ refl h
    where
      go :
          (b : Bool) (x : Problem)
          → (response.status == expected) ≡ b
          → (if b then json env response else err x) ≡ ok document
          → (response.status ≡ expected) × (env.parse response.body ≡ some document)
      go true x e h = (eq_of_beq e, json-read response h)
      go false x e h = absurd (ground arith)

  pub call-Answered :
      (method path : String) (headers : List (String × String)) (body : Option Json) (expected : ℕ)
      (failure_class : String) (l : Live) {document : Json} {k : Live}
      → call env method path headers body expected failure_class l ≡ (ok document, k)
      → Answered env
          (record { method = method; path = path; headers = headers; body = body })
          expected
          document
          l
          k
  call-Answered method path headers body expected failure_class l {document} {k} h =
      let asked : Request = record {
        method = method;
        path = path;
        headers = headers;
        body = body;
      } in
      let (response, l1, e1, h1) = bind-eq-ok (request env asked) _ l h in
      let (code, read) =
        require_status-read response expected failure_class
          (ap (λ (x : Result Problem Json × Live). x.0) h1) in
      let back = ap (λ (x : Result Problem Json × Live). x.1) h1 in
      record {
        body = response.body;
        read = read;
        exchanged =
            subst (λ n. Exchanged asked n response.body l k) code
              (subst (Exchanged asked response.status response.body l) back
                (request-Exchanged asked l e1));
      }
