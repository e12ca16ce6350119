-- ===== src/Probe/Untouched.antt =====
-- What the run of platform_probe.py leaves alone: the steps before the last one keep the row of the
-- native kernel.
use liqi_platform.Prelude.{
  ℕ, zero, suc, String, Bool, true, false, Option, List, [], ◌∷◌, ◌≡◌, refl, ◌∙◌, nat_beq, Result,
  ok, err, arith, if◌then◌else◌,
}
use liqi_platform.Prelude.Int.{ℤ}
use liqi_platform.Prelude.Json.{Json}
use liqi_platform.Probe.Recorder.{
  Problem, Name, native_kernel, index, Row, set, record_failure, inspect_secrets,
}
use liqi_platform.Probe.Handshake.{connect, opening_step, handshake, next_opening}
use liqi_platform.Probe.Session.{
  Event, Opening, refused, no_tls, connected, next_exchange, Env, Live, Run, proceed, ◌>>=◌, pure,
  raise, raise_unless, from_result, emit, inspect, run, finish_step, Exchange, unreachable, broken,
  answered, exchange_step, request, Request, call, post_probe, poll, wait_for_terminal,
}

abbrev pub kernel_row : Live → Row
kernel_row l = l.recorder.checks native_kernel

pub record Keeps {A : Type 0} (m : Run A) : Type 0 where
  pub kept : (l : Live) → kernel_row (m l).1 ≡ kernel_row l

module _ {A B : Type 0} where
  proceed-kept :
      (r : Result Problem A) (f : A → Run B) (l : Live)
      → ((a : A) → Keeps (f a))
      → kernel_row (proceed r f l).1 ≡ kernel_row l
  proceed-kept (ok a) f l k = (k a).kept l
  proceed-kept (err e) f l k = refl

  pub bind-Keeps : {m : Run A} {f : A → Run B} → Keeps m → ((a : A) → Keeps (f a)) → Keeps (m >>= f)
  unfolding ◌>>=◌
  bind-Keeps {m} {f} k h = record { kept = λ l. proceed-kept (m l).0 f (m l).1 h ∙ k.kept l }

module _ {A : Type 0} where
  pub pure-Keeps : {a : A} → Keeps (pure a)
  pure-Keeps = record { kept = λ l. refl }

  pub raise-Keeps : {e : Problem} → Keeps (raise {A = A} e)
  raise-Keeps = record { kept = λ l. refl }

  pub from_result-Keeps : {r : Result Problem A} → Keeps (from_result r)
  from_result-Keeps = record { kept = λ l. refl }

  finish_step-kept :
      (name : Name) (evidence_ref : String) (elapsed : ℤ) (r : Result Problem A) (l : Live)
      → nat_beq 9 (index name) ≡ false
      → kernel_row (finish_step name evidence_ref elapsed (r, l)).1 ≡ kernel_row l
  unfolding set record_failure
  finish_step-kept name evidence_ref elapsed (ok a) l d = rw d
  finish_step-kept name evidence_ref elapsed (err e) l d = rw d

  pub run-Keeps :
      (env : Env) (name : Name) (evidence_ref : String) {step : Run A}
      → nat_beq 9 (index name) ≡ false
      → Keeps step
      → Keeps (run env name evidence_ref step)
  unfolding run
  run-Keeps env name evidence_ref {step} d k = record {
    kept = λ l.
        finish_step-kept name evidence_ref (env.elapsed name) (step l).0 (step l).1 d ∙ k.kept l;
  }

pub raise_unless-Keeps : (b : Bool) (e : Problem) → Keeps (raise_unless b e)
raise_unless-Keeps true e = record { kept = λ l. refl }
raise_unless-Keeps false e = record { kept = λ l. refl }

pub if-Keeps :
    {A : Type 0} (b : Bool) {m n : Run A} → Keeps m → Keeps n → Keeps (if b then m else n)
if-Keeps true k h = k
if-Keeps false k h = h

pub emit-Keeps : {e : Event} → Keeps (emit e)
emit-Keeps = record { kept = λ l. refl }

pub inspect-Keeps : (text : String) → Keeps (inspect text)
unfolding inspect inspect_secrets
inspect-Keeps text = record { kept = λ l. ground arith }

module _ (env : Env) where
  exchange_step-Keeps : (x : Exchange) → Keeps (exchange_step env x)
  unfolding exchange_step
  exchange_step-Keeps unreachable = raise-Keeps
  exchange_step-Keeps (broken name text) = raise-Keeps
  exchange_step-Keeps (answered http_error status headers body) =
      bind-Keeps (raise_unless-Keeps _ _)
        λ _. bind-Keeps (inspect-Keeps _) λ _. bind-Keeps (inspect-Keeps _) λ _. pure-Keeps

  next_exchange-kept :
      (r : Request) (xs : List Exchange) (l : Live)
      → kernel_row (next_exchange env r xs l).1 ≡ kernel_row l
  next_exchange-kept r [] l = (exchange_step-Keeps unreachable).kept _
  next_exchange-kept r (x ∷ rest) l = (exchange_step-Keeps x).kept _

  pub request-Keeps : (r : Request) → Keeps (request env r)
  unfolding request
  request-Keeps r = record { kept = λ l. next_exchange-kept r l.exchanges l }

  pub call-Keeps :
      (method path : String) (headers : List (String × String)) (body : Option Json) (expected : ℕ)
      (c : String)
      → Keeps (call env method path headers body expected c)
  call-Keeps method path headers body expected c =
      bind-Keeps (request-Keeps _) λ _. from_result-Keeps

  pub post_probe-Keeps : (a b : String) → Keeps (post_probe env a b)
  unfolding post_probe
  post_probe-Keeps a b = record { kept = λ l. (call-Keeps _ _ _ _ _ _).kept l }

  poll-Keeps : (n : ℕ) (a b : String) → Keeps (poll env n a b)
  unfolding poll
  poll-Keeps zero a b =
      bind-Keeps (call-Keeps _ _ _ _ _ _) λ _. bind-Keeps (raise_unless-Keeps _ _) λ _. pure-Keeps
  poll-Keeps (suc n) a b =
      bind-Keeps (call-Keeps _ _ _ _ _ _) λ _. if-Keeps _ pure-Keeps (poll-Keeps n a b)

  pub wait_for_terminal-Keeps : (a b : String) → Keeps (wait_for_terminal env a b)
  unfolding wait_for_terminal
  wait_for_terminal-Keeps a b = poll-Keeps (env.polls a) a b

  -- `WebSocket.connect`
  opening_step-Keeps : (x : Opening) → Keeps (opening_step env x)
  unfolding opening_step handshake
  opening_step-Keeps refused = raise-Keeps
  opening_step-Keeps no_tls = raise-Keeps
  opening_step-Keeps (connected accept chunks sending incoming) = bind-Keeps from_result-Keeps λ _.
      bind-Keeps (inspect-Keeps _)
        λ _. bind-Keeps from_result-Keeps λ _. bind-Keeps from_result-Keeps λ _. pure-Keeps

  next_opening-kept :
      (t : Option String) (xs : List Opening) (l : Live)
      → kernel_row (next_opening env t xs l).1 ≡ kernel_row l
  next_opening-kept t [] l = (opening_step-Keeps refused).kept _
  next_opening-kept t (x ∷ rest) l = (opening_step-Keeps x).kept _

  pub connect-Keeps : (t : Option String) → Keeps (connect env t)
  unfolding connect
  connect-Keeps t = record { kept = λ l. next_opening-kept t l.openings l }
