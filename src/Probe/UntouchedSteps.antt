-- ===== src/Probe/UntouchedSteps.antt =====
-- The steps of `run_live_probe` before the last one keep the row of the native kernel.
use liqi_platform.Prelude.{
  String, false, Option, none, some, ◌≡◌, refl, ◌∙◌, nat_beq, Result, ok, err, arith,
}
use liqi_platform.Prelude.Int.{ℤ}
use liqi_platform.Prelude.Json.{Json, null, bool, int, float, str, arr, obj}
use liqi_platform.Probe.Recorder.{
  Problem, probe_failure, handshake_error, unexpected, Name, native_kernel, outbox_handoff, index,
  Recorder, set, Status,
}
use liqi_platform.Probe.Phoenix.{Channel, Step}
use liqi_platform.Probe.Session.{Env, Live, Run, update, ◌>>=◌}
use liqi_platform.Probe.Handshake.{connect}
use liqi_platform.Probe.Steps.{
  on_channel, channel_end, admits, readiness_step, rejected, unauthorized_step, connect_step,
  command_step, delivery_step, repaired, resume_step, close_and_raise, native_fallback_step,
  count_bypass, count_duplicate,
}
use liqi_platform.Probe.Live.{
  refuse, health, or_lost, delivery, resume_token, acknowledge, worker, second_command,
  first_command, resumption, all_but_kernel,
}
use liqi_platform.Probe.Untouched.{
  Keeps, kernel_row, bind-Keeps, pure-Keeps, raise-Keeps, from_result-Keeps, run-Keeps,
  raise_unless-Keeps, if-Keeps, emit-Keeps, request-Keeps, call-Keeps, post_probe-Keeps,
  wait_for_terminal-Keeps, connect-Keeps,
}

channel_end-kept :
    {A : Type 0} (r : Result Problem A) (c : Channel) (l : Live)
    → kernel_row (channel_end (r, c) l).1 ≡ kernel_row l
channel_end-kept (ok a) c l = refl
channel_end-kept (err e) c l = ground arith

pub on_channel-Keeps : {A : Type 0} (c : Channel) (step : Step A) → Keeps (on_channel c step)
unfolding on_channel
on_channel-Keeps c step = record { kept = λ l. channel_end-kept (step c).0 (step c).1 l }

count_bypass-Keeps : Keeps (update count_bypass)
count_bypass-Keeps = record { kept = λ l. refl }

count_duplicate-Keeps : Keeps (update count_duplicate)
count_duplicate-Keeps = record { kept = λ l. refl }

module _ (env : Env) where
  admits-Keeps : (a b : Json) → Keeps (admits env a b)
  admits-Keeps a b = bind-Keeps (raise_unless-Keeps _ _) λ _.
      bind-Keeps (raise_unless-Keeps _ _)
        λ _. bind-Keeps (raise_unless-Keeps _ _) λ _. raise_unless-Keeps _ _

  readiness_step-Keeps : Keeps (readiness_step env)
  unfolding readiness_step
  readiness_step-Keeps = bind-Keeps (call-Keeps env _ _ _ _ _ _) λ a.
      bind-Keeps (call-Keeps env _ _ _ _ _ _) λ b. bind-Keeps (admits-Keeps a b) λ _. pure-Keeps

  bypass-Keeps : {A : Type 0} {m : Run A} → Keeps m → Keeps (update count_bypass >>= λ _. m)
  bypass-Keeps k = bind-Keeps count_bypass-Keeps λ _. k

  rejected-kept :
      (r : Result Problem Channel) (l : Live) → kernel_row (rejected env (r, l)).1 ≡ kernel_row l
  rejected-kept (ok c) l = (bypass-Keeps (bind-Keeps emit-Keeps λ _. raise-Keeps)).kept l
  rejected-kept (err (probe_failure f b)) l = refl
  rejected-kept (err (handshake_error status m)) l = ground arith
  rejected-kept (err (unexpected name text)) l = refl

  refusal-Keeps : Keeps (λ l. rejected env (connect env none l))
  refusal-Keeps = record {
    kept = λ l.
        rejected-kept (connect env none l).0 (connect env none l).1
        ∙ (connect-Keeps env none).kept l;
  }

  unauthorized_step-Keeps : Keeps (unauthorized_step env)
  unfolding unauthorized_step
  unauthorized_step-Keeps =
      bind-Keeps (request-Keeps env _) λ _. if-Keeps _ refusal-Keeps (bypass-Keeps raise-Keeps)

  connect_step-Keeps : Keeps (connect_step env)
  unfolding connect_step
  connect_step-Keeps = bind-Keeps (connect-Keeps env _) λ _.
      bind-Keeps (on_channel-Keeps _ _)
        λ _. if-Keeps _ pure-Keeps (bind-Keeps emit-Keeps λ _. raise-Keeps)

  command_step-Keeps : Keeps (command_step env)
  unfolding command_step
  command_step-Keeps = bind-Keeps (post_probe-Keeps env _ _) λ _.
      bind-Keeps (post_probe-Keeps env _ _) λ _.
        bind-Keeps (raise_unless-Keeps _ _)
          λ _. if-Keeps _ pure-Keeps (bind-Keeps count_duplicate-Keeps λ _. raise-Keeps)

  delivery_step-Keeps : (c : Channel) (id : String) → Keeps (delivery_step env c id)
  unfolding delivery_step
  delivery_step-Keeps c id = bind-Keeps (on_channel-Keeps _ _) λ _.
      bind-Keeps (raise_unless-Keeps _ _) λ _. bind-Keeps (raise_unless-Keeps _ _) λ _. pure-Keeps

  closing-Keeps : {A : Type 0} (e : Problem) → Keeps (close_and_raise env {A = A} e)
  closing-Keeps e = bind-Keeps emit-Keeps λ _. raise-Keeps

  repaired-Keeps : (n : ℤ) (v : Option Json) → Keeps (repaired env n v)
  repaired-Keeps n none = closing-Keeps _
  repaired-Keeps n (some (obj fs)) =
      bind-Keeps from_result-Keeps λ _. if-Keeps _ (closing-Keeps _) pure-Keeps
  repaired-Keeps n (some null) = closing-Keeps _
  repaired-Keeps n (some (bool b)) = closing-Keeps _
  repaired-Keeps n (some (int m)) = closing-Keeps _
  repaired-Keeps n (some (float m k)) = closing-Keeps _
  repaired-Keeps n (some (str s)) = closing-Keeps _
  repaired-Keeps n (some (arr xs)) = closing-Keeps _

  resume_step-Keeps : (s : Json) (t id : String) → Keeps (resume_step env s t id)
  unfolding resume_step
  resume_step-Keeps s t id = bind-Keeps (connect-Keeps env _) λ _.
      bind-Keeps (on_channel-Keeps _ _) λ r. bind-Keeps (repaired-Keeps _ _) λ _.
        bind-Keeps (on_channel-Keeps _ _) λ _.
          bind-Keeps (if-Keeps _ pure-Keeps (closing-Keeps _))
            λ _. bind-Keeps (on_channel-Keeps _ _) λ _. pure-Keeps

  native_fallback_step-Keeps : Keeps (native_fallback_step env)
  unfolding native_fallback_step
  native_fallback_step-Keeps =
      bind-Keeps (call-Keeps env _ _ _ _ _ _)
        λ _. bind-Keeps from_result-Keeps λ _. bind-Keeps (raise_unless-Keeps _ _) λ _. pure-Keeps

  set-kept :
      (name : Name) (s : Status) (d : ℤ) (ref c : Option String) (r : Recorder)
      → nat_beq 9 (index name) ≡ false
      → (set name s d ref c r).checks native_kernel ≡ r.checks native_kernel
  unfolding set
  set-kept name s d ref c r n = rw n

  refuse-Keeps :
      {A : Type 0} (name : Name) (ref c message : String)
      → nat_beq 9 (index name) ≡ false
      → Keeps (refuse env {A = A} name ref c message)
  refuse-Keeps name ref c message n =
      bind-Keeps (record { kept = λ l. set-kept name _ _ _ _ l.recorder n }) λ _. raise-Keeps

  health-Keeps : Keeps (health env)
  unfolding health
  health-Keeps =
      bind-Keeps (run-Keeps env _ _ refl (call-Keeps env _ _ _ _ _ _))
        λ _. if-Keeps _ pure-Keeps (refuse-Keeps _ _ _ _ refl)

  or_lost-kept :
      {A : Type 0} (r : Result Problem A) (l : Live)
      → kernel_row (or_lost env (r, l)).1 ≡ kernel_row l
  or_lost-kept (ok a) l = refl
  or_lost-kept (err e) l = set-kept outbox_handoff _ _ _ _ _ refl

  lost-Keeps : {A : Type 0} {m : Run A} → Keeps m → Keeps (λ l. or_lost env (m l))
  lost-Keeps {A} {m} k = record { kept = λ l. or_lost-kept (m l).0 (m l).1 ∙ k.kept l }

  handoff-Keeps :
      (s : Status) (d : ℤ) (ref c : Option String) → Keeps (update (set outbox_handoff s d ref c))
  handoff-Keeps s d ref c = record { kept = λ l. set-kept outbox_handoff s d ref c l.recorder refl }

  delivery-Keeps : (c : Channel) (id : String) → Keeps (delivery env c id)
  unfolding delivery
  delivery-Keeps c id =
      bind-Keeps (lost-Keeps (run-Keeps env _ _ refl (delivery_step-Keeps c id))) λ _.
        bind-Keeps
          (if-Keeps _ (handoff-Keeps _ _ _ _) (bind-Keeps (handoff-Keeps _ _ _ _) λ _. raise-Keeps))
          λ _. pure-Keeps

  resume_token-Keeps : (v : Option Json) → Keeps (resume_token env v)
  resume_token-Keeps none = raise-Keeps
  resume_token-Keeps (some null) = raise-Keeps
  resume_token-Keeps (some (bool b)) = raise-Keeps
  resume_token-Keeps (some (int m)) = raise-Keeps
  resume_token-Keeps (some (float m k)) = raise-Keeps
  resume_token-Keeps (some (str s)) = pure-Keeps
  resume_token-Keeps (some (arr xs)) = raise-Keeps
  resume_token-Keeps (some (obj fs)) = raise-Keeps

  acknowledge-Keeps : (c : Channel) (s : Json) → Keeps (acknowledge env c s)
  unfolding acknowledge
  acknowledge-Keeps c s =
      bind-Keeps (on_channel-Keeps _ _)
        λ r. bind-Keeps (raise_unless-Keeps _ _) λ _. resume_token-Keeps _

  worker-Keeps : (id : String) → Keeps (worker env id)
  unfolding worker
  worker-Keeps id =
      bind-Keeps (run-Keeps env _ _ refl (wait_for_terminal-Keeps env _ _))
        λ _. if-Keeps _ pure-Keeps (refuse-Keeps _ _ _ _ refl)

  second_command-Keeps : Keeps (second_command env)
  unfolding second_command
  second_command-Keeps = bind-Keeps (post_probe-Keeps env _ _) λ _.
      bind-Keeps (raise_unless-Keeps _ _)
        λ _. bind-Keeps (wait_for_terminal-Keeps env _ _) λ _. pure-Keeps

  first_command-Keeps : (c : Channel) → Keeps (first_command env c)
  unfolding first_command
  first_command-Keeps c = bind-Keeps (run-Keeps env _ _ refl command_step-Keeps) λ _.
      bind-Keeps from_result-Keeps λ id. bind-Keeps (delivery-Keeps c id) λ r.
        bind-Keeps (acknowledge-Keeps _ _)
          λ _. bind-Keeps (worker-Keeps id) λ _. bind-Keeps emit-Keeps λ _. pure-Keeps

  resumption-Keeps : (s : Json) (t : String) → Keeps (resumption env s t)
  unfolding resumption
  resumption-Keeps s t =
      bind-Keeps second_command-Keeps
        λ id. bind-Keeps (run-Keeps env _ _ refl (resume_step-Keeps s t id)) λ _. pure-Keeps

  pub all_but_kernel-Keeps : Keeps (all_but_kernel env)
  unfolding all_but_kernel
  all_but_kernel-Keeps = bind-Keeps health-Keeps λ _.
      bind-Keeps (run-Keeps env _ _ refl readiness_step-Keeps) λ _.
        bind-Keeps (run-Keeps env _ _ refl unauthorized_step-Keeps) λ _.
          bind-Keeps (run-Keeps env _ _ refl connect_step-Keeps) λ c.
            bind-Keeps (first_command-Keeps c) λ r.
              bind-Keeps (resumption-Keeps _ _)
                λ _. bind-Keeps (run-Keeps env _ _ refl native_fallback_step-Keeps) λ _. pure-Keeps
