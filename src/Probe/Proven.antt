-- ===== src/Probe/Proven.antt =====
-- `main` of platform_probe.py: what an exit with 0 says.
use liqi_platform.Prelude.{
  ℕ, String, Bool, true, false, Option, none, some, List, [], ◌∷◌, any, All, ◌≡◌, ◌≢◌, refl, sym,
  ap, subst, ◌∙◌, ◌⊎◌, inl, inr, Result, ok, err, arith, Bool-cases, if◌then◌else◌, nat_beq,
  contains, ◌++◌, string_eq,
}
use liqi_platform.Prelude.Int.{ℤ, pos}
use liqi_platform.Prelude.Json.{Json}
use liqi_platform.Probe.Recorder.{
  Problem, probe_failure, handshake_error, unexpected, Name, https_health, runtime_readiness,
  websocket_connect, websocket_auth, durable_command_commit, outbox_handoff, realtime_delivery,
  resume_gap_repair, worker_job, native_kernel, native_fallback, check_order, index, Status,
  passed_check, failed_check, blocked_check, Row, Recorder, new_recorder, set, block_remaining,
  record_failure, status_of, ordered_checks, has_events, is_failed, is_blocked,
}
use liqi_platform.Probe.Session.{
  Env, Live, Run, proceed, ◌>>=◌, ◌>>◌, run, finish_step, emit, closed, pure, Exchange, Opening,
}
use liqi_platform.Probe.Live.{
  Observed, requested, kernel, unless_blocked, all_but_kernel, run_live_probe, Evidence, exit_code,
  emit_result, after_run, add_error, start, main,
}
use liqi_platform.Probe.Untouched.{kernel_row}
use liqi_platform.Probe.UntouchedSteps.{all_but_kernel-Keeps}

abbrev pub is_passed : Status → Bool
is_passed passed_check = true
is_passed _ = false

pub record NotPassed (r : Recorder) : Type 0 where
  pub not_passed : is_passed (r.checks native_kernel).status ≡ false

module _ {A B : Type 0} where
  pub bind-eq-ok :
      (m : Run A) (f : A → Run B) (l : Live) {b : B} {k : Live}
      → (m >>= f) l ≡ (ok b, k)
      → (a : A) × (l' : Live) × (m l ≡ (ok a, l')) × (f a l' ≡ (ok b, k))
  unfolding ◌>>=◌
  bind-eq-ok m f l {b} {k} h = go (m l) refl h
    where
      go :
          (p : Result Problem A × Live)
          → m l ≡ p
          → proceed p.0 f p.1 ≡ (ok b, k)
          → (a : A) × (l' : Live) × (m l ≡ (ok a, l')) × (f a l' ≡ (ok b, k))
      go (ok a, l') e h = (a, l', e, h)
      go (err x, l') e h = absurd (ground arith)

  pub bind-eq-err :
      (m : Run A) (f : A → Run B) (l : Live) {e : Problem} {k : Live}
      → (m >>= f) l ≡ (err e, k)
      → (m l ≡ (err e, k)) ⊎ ((a : A) × (l' : Live) × (m l ≡ (ok a, l')) × (f a l' ≡ (err e, k)))
  unfolding ◌>>=◌
  bind-eq-err m f l {e} {k} h = go (m l) refl h
    where
      go :
          (p : Result Problem A × Live)
          → m l ≡ p
          → proceed p.0 f p.1 ≡ (err e, k)
          → (m l ≡ (err e, k))
            ⊎ ((a : A) × (l' : Live) × (m l ≡ (ok a, l')) × (f a l' ≡ (err e, k)))
      go (ok a, l') q h = inr (a, l', q, h)
      go (err x, l') q h = inl (ground arith)

module _ (env : Env) where
  finish_kernel :
      (r : Result Problem (Unit {0})) (ref : String) (d : ℤ) (l k : Live) (e : Problem)
      → unless_blocked env (finish_step native_kernel ref d (r, l)) ≡ (err e, k)
      → NotPassed k.recorder
  unfolding record_failure set
  finish_kernel (ok u) ref d l k e h = absurd (ground arith)
  finish_kernel (err (probe_failure f true)) ref d l k e h = absurd (ground arith)
  finish_kernel (err (probe_failure f false)) ref d l k e h =
      subst (λ (x : Result Problem (Unit {0}) × Live). NotPassed x.1.recorder) h
        (record { not_passed = refl })
  finish_kernel (err (handshake_error s m)) ref d l k e h =
      subst (λ (x : Result Problem (Unit {0}) × Live). NotPassed x.1.recorder) h
        (record { not_passed = refl })
  finish_kernel (err (unexpected n t)) ref d l k e h =
      subst (λ (x : Result Problem (Unit {0}) × Live). NotPassed x.1.recorder) h
        (record { not_passed = refl })

  kernel-err :
      (native : Json) (l k : Live) (e : Problem)
      → kernel env native l ≡ (err e, k)
      → NotPassed k.recorder
  unfolding kernel run
  kernel-err native l k e h = finish_kernel _ _ _ _ k e h

  kernel_end :
      (native : Json) (observed : Observed) (l k : Live) (e : Problem)
      → (do kernel env native; emit closed; pure observed) l ≡ (err e, k)
      → NotPassed k.recorder
  unfolding ◌>>=◌
  kernel_end native observed l k e h = elim (bind-eq-err (kernel env native) _ l h) [
    | inl q ↦ kernel-err native l k e q
    | inr (a, l', q, h') ↦ absurd (ground arith)
  ]

  run_live_probe-err :
      (l k : Live) (e : Problem)
      → NotPassed l.recorder
      → run_live_probe env l ≡ (err e, k)
      → NotPassed k.recorder
  unfolding run_live_probe
  run_live_probe-err l k e n h = elim (bind-eq-err (all_but_kernel env) _ l h) [
    | inl q ↦ record {
      not_passed =
          subst (λ (x : Row). is_passed x.status ≡ false)
            (sym ((all_but_kernel-Keeps env).kept l)
              ∙ ap (λ (x : Result Problem (Observed × Json) × Live). kernel_row x.1) q)
            n.not_passed;
    }
    | inr (a, l', q, h') ↦ kernel_end a.1 a.0 l' k e h'
  ]

if-NotPassed :
    (b : Bool) (x y : Recorder) → NotPassed x → NotPassed y → NotPassed (if b then x else y)
if-NotPassed true x y m n = m
if-NotPassed false x y m n = n

set-NotPassed :
    (name : Name) (d : ℤ) (ref c : Option String) (r : Recorder)
    → NotPassed r
    → NotPassed (set name blocked_check d ref c r)
unfolding set
set-NotPassed name d ref c r n = record {
  not_passed = elim (Bool-cases (nat_beq 9 (index name))) [
    | inl e ↦ rw e
    | inr e ↦ rw e n.not_passed
  ];
}

block_remaining-NotPassed :
    (names : List Name) (c : String) (r : Recorder)
    → NotPassed r
    → NotPassed (block_remaining names c r)
unfolding block_remaining
block_remaining-NotPassed [] c r n = n
block_remaining-NotPassed (name ∷ names) c r n =
    if-NotPassed _ _ _
      (block_remaining-NotPassed names c _ (set-NotPassed name (pos 0) none (some c) r n))
      (block_remaining-NotPassed names c r n)

passed_of_clear : (s : Status) → is_failed s ≡ false → is_blocked s ≡ false → s ≡ passed_check
passed_of_clear passed_check a b = refl
passed_of_clear failed_check a b = absurd (ground arith)
passed_of_clear blocked_check a b = absurd (ground arith)

clear_of_zero :
    (e f b : Bool)
    → exit_code (
        if e
        then failed_check
        else if f
        then failed_check
        else if b
        then blocked_check
        else passed_check)
      ≡ 0
    → (e ≡ false) × (f ≡ false) × (b ≡ false)
clear_of_zero true f b h = absurd (ground arith)
clear_of_zero false true b h = absurd (ground arith)
clear_of_zero false false true h = absurd (ground arith)
clear_of_zero false false false h = (refl, refl, refl)

any-false : {A : Type 0} (p : A → Bool) (xs : List A) → any p xs ≡ false → All (λ x. p x ≡ false) xs
any-false p [] h = tt
any-false p (x ∷ xs) h = (ground arith, any-false p xs (ground arith))

-- A property of the rows in order is one of each name's row.
row_of_order :
    (P : Row → Type 0) (r : Recorder) → All P (ordered_checks r) → (name : Name) → P (r.checks name)
unfolding ordered_checks check_order
row_of_order P r a https_health = a.0
row_of_order P r a runtime_readiness = a.1.0
row_of_order P r a websocket_connect = a.1.1.0
row_of_order P r a websocket_auth = a.1.1.1.0
row_of_order P r a durable_command_commit = a.1.1.1.1.0
row_of_order P r a outbox_handoff = a.1.1.1.1.1.0
row_of_order P r a realtime_delivery = a.1.1.1.1.1.1.0
row_of_order P r a resume_gap_repair = a.1.1.1.1.1.1.1.0
row_of_order P r a worker_job = a.1.1.1.1.1.1.1.1.0
row_of_order P r a native_kernel = a.1.1.1.1.1.1.1.1.1.0
row_of_order P r a native_fallback = a.1.1.1.1.1.1.1.1.1.1.0

-- Every check passed, and no correctness event was counted.
pub record AllPassed (r : Recorder) : Type 0 where
  pub passed : (name : Name) → (r.checks name).status ≡ passed_check
  pub no_events : has_events r.correctness ≡ false

status_of-AllPassed : (r : Recorder) → exit_code (status_of r) ≡ 0 → AllPassed r
unfolding status_of
status_of-AllPassed r h =
    let (e, f, b) = clear_of_zero _ _ _ h in
    let failed =
      row_of_order (λ row. is_failed row.status ≡ false) r
        (any-false (λ (row : Row). is_failed row.status) (ordered_checks r) f) in
    let blocked =
      row_of_order (λ row. is_blocked row.status ≡ false) r
        (any-false (λ (row : Row). is_blocked row.status) (ordered_checks r) b) in
    record {
      passed = λ name. passed_of_clear (r.checks name).status (failed name) (blocked name);
      no_events = e;
    }

errors-NotPassed :
    (r : Recorder) (errors : List String) → NotPassed r → NotPassed (record r { errors = errors })
errors-NotPassed r errors n = record { not_passed = n.not_passed }

add_error-NotPassed :
    (message : String) (r : Recorder) → NotPassed r → NotPassed (add_error message r)
add_error-NotPassed message r n =
    if-NotPassed (contains r.errors message) r _ n (errors-NotPassed r (r.errors ++ message ∷ []) n)

NotPassed-code :
    (env : Env) (o : Observed) (r : Recorder) → NotPassed r → (emit_result env o r).1 ≢ 0
unfolding emit_result
NotPassed-code env o r n h =
    let (p, q) : ((r.checks native_kernel).status ≡ passed_check)
        × (is_passed (r.checks native_kernel).status ≡ false) =
      ((status_of-AllPassed r h).passed native_kernel, n.not_passed) in
    absurd (ground arith)

new_recorder-NotPassed : (secrets : List String) → NotPassed (new_recorder secrets)
unfolding new_recorder
new_recorder-NotPassed secrets = record { not_passed = refl }

start-NotPassed :
    (text : String) (xs : List Exchange) (os : List Opening) → NotPassed (start text xs os).recorder
start-NotPassed text xs os = new_recorder-NotPassed (text ∷ [])

-- What a run that came to its end leaves.
pub record Completed (env : Env) (token : Result Problem String) (exchanges : List Exchange)
    (openings : List Opening) (doc : Evidence) : Type 0 where
  pub text : String
  pub observed : Observed
  pub last : Live
  pub has_token : token ≡ ok text
  pub ended :
      run_live_probe (record env { token = text }) (start text exchanges openings)
      ≡ (ok observed, last)
  pub all_passed : AllPassed last.recorder
  pub shows : (doc.checks ≡ ordered_checks last.recorder) × (doc.status ≡ status_of last.recorder)

module _ (env : Env) (text : String) (exchanges : List Exchange) (openings : List Opening)
    (doc : Evidence) where
  after_run-Completed :
      (r : Result Problem Observed × Live)
      → run_live_probe (record env { token = text }) (start text exchanges openings) ≡ r
      → after_run env r ≡ (doc, 0)
      → Completed env (ok text) exchanges openings doc
  unfolding after_run emit_result
  after_run-Completed (ok o, l) e h = record {
    text = text;
    observed = o;
    last = l;
    has_token = refl;
    ended = e;
    all_passed = status_of-AllPassed l.recorder (ap (λ (x : Evidence × ℕ). x.1) h);
    shows = (
      sym (ap (λ (x : Evidence × ℕ). x.0.checks) h),
      sym (ap (λ (x : Evidence × ℕ). x.0.status) h),
    );
  }
  after_run-Completed (err x, l) e h = absurd (
      NotPassed-code env (requested env) _
        (block_remaining-NotPassed check_order _ _ (
          add_error-NotPassed _ _ (
            run_live_probe-err (record env { token = text }) _ l x
              (start-NotPassed text exchanges openings) e)))
        (ap (λ (x : Evidence × ℕ). x.1) h))

-- A run that exits with 0 had its token and came to its end: no step raised, each of the eleven checks
-- passed, the kernel's too, no correctness event was counted, and the evidence shows these rows.
pub main-Completed :
    (env : Env) (token : Result Problem String) (exchanges : List Exchange)
    (openings : List Opening) (doc : Evidence)
    → main env token exchanges openings ≡ (doc, 0)
    → Completed env token exchanges openings doc
unfolding main
main-Completed env (err e) exchanges openings doc h = absurd (
    NotPassed-code env (requested env) _
      (errors-NotPassed _ _ (block_remaining-NotPassed check_order _ _ (new_recorder-NotPassed [])))
      (ap (λ (x : Evidence × ℕ). x.1) h))
main-Completed env (ok text) exchanges openings doc h =
    after_run-Completed env text exchanges openings doc _ refl h
