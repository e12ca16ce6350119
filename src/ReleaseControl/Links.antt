-- ===== src/ReleaseControl/Links.antt =====
-- Frame conditions: what the commands of release_control.py cannot change on the host, and what the
-- link operations do to the two selection links.
use liqi_platform.Prelude.{
  ℕ, String, ◌≡◌, refl, ◌∙◌, Bool, true, false, Option, some, List, [], ◌∷◌, ◌++◌, ◌⊎◌, arith,
  Result, ok, err,
}
use liqi_platform.ReleaseControl.Documents.{Service, Release}
use liqi_platform.ReleaseControl.Host.{
  Exception, ◌>>=◌, pure, continue, symlink, Link, current_link, runtime_link, RunOutcome, exited,
  timed_out, not_started, Event, ran, World, Host, Exec, slot,
}
use liqi_platform.ReleaseControl.Services.{
  Ran, finish, required, drain_current, run, stop_service, start_service, atomic_symlink,
  stop_services, start_services, services, stop_release, start_release,
}

-- A relation between hosts that commands preserve: they only add to the history.
pub record Frame (R : Host → Host → Type 0) : Type 0 where
  pub same : (h : Host) → R h h
  pub chain : (h k l : Host) → R h k → R k l → R h l
  pub remember : (h : Host) (e : Event) → R h (record h { history = e ∷ h.history })

pub record Leaves (R : Host → Host → Type 0) {A : Type 0} (m : Exec A) : Type 0 where
  pub at : (h : Host) → R h (m h).1

module _ {R : Host → Host → Type 0} (f : Frame R) where
  Leaves-pure : {A : Type 0} (a : A) → Leaves R (pure a)
  Leaves-pure a = record { at = f.same }

  Leaves-continue :
      {A B : Type 0} (r : Result Exception A) (k : Host) (g : A → Exec B)
      → ((a : A) → Leaves R (g a))
      → R k (continue r g k).1
  Leaves-continue (ok a) k g kg = (kg a).at k
  Leaves-continue (err e) k g kg = f.same k

  pub Leaves-bind :
      {A B : Type 0} (m : Exec A) (g : A → Exec B)
      → Leaves R m
      → ((a : A) → Leaves R (g a))
      → Leaves R (m >>= g)
  Leaves-bind m g km kg = record {
    at = λ h. f.chain h (m h).1 _ (km.at h) (Leaves-continue (m h).0 (m h).1 g kg);
  }

  finish-same : (outcome : RunOutcome) (h : Host) → (finish outcome h).1 ≡ h
  finish-same (exited s o e ms) h = refl
  finish-same (timed_out ms) h = refl
  finish-same (not_started reason) h = refl

module _ {R : Host → Host → Type 0} (f : Frame R) (w : World) where
  run-Leaves : (argv : List String) (t : ℕ) → Leaves R (run w argv t)
  unfolding run
  run-Leaves argv t = record {
    at = λ h.
        let k : Host = record h { history = ran argv t ∷ h.history } in
        rw (finish-same f (w.runs h.history argv t) k) (f.remember h (ran argv t));
  }

  required-Leaves :
      (name label fallback problem : String) (r : Ran)
      → Leaves R (required w name label fallback problem r)
  required-Leaves name label fallback problem (true, detail, ms) = record { at = f.same }
  required-Leaves name label fallback problem (false, detail, ms) = record { at = f.same }

  stop_service-Leaves :
      (systemctl : String) (item : Service) → Leaves R (stop_service w systemctl item)
  unfolding stop_service
  stop_service-Leaves systemctl item =
      Leaves-bind f (run w _ _) _ (run-Leaves _ _) (required-Leaves _ _ _ _)

  start_service-Leaves :
      (systemctl : String) (item : Service) → Leaves R (start_service w systemctl item)
  unfolding start_service
  start_service-Leaves systemctl item =
      Leaves-bind f (run w _ _) _ (run-Leaves _ _) (required-Leaves _ _ _ _)

  stop_services-Leaves :
      (systemctl : String) (items : List Service) → Leaves R (stop_services w systemctl items)
  unfolding stop_services
  stop_services-Leaves systemctl [] = Leaves-pure f []
  stop_services-Leaves systemctl (item ∷ rest) =
      Leaves-bind f (stop_service w systemctl item) _ (stop_service-Leaves systemctl item) λ first.
        Leaves-bind f (stop_services w systemctl rest) _ (stop_services-Leaves systemctl rest)
          (λ others. Leaves-pure f (first ∷ others))

  start_services-Leaves :
      (systemctl : String) (items : List Service) → Leaves R (start_services w systemctl items)
  unfolding start_services
  start_services-Leaves systemctl [] = Leaves-pure f []
  start_services-Leaves systemctl (item ∷ rest) =
      Leaves-bind f (start_service w systemctl item) _ (start_service-Leaves systemctl item)
        λ first.
          Leaves-bind f (start_services w systemctl rest) _ (start_services-Leaves systemctl rest)
            (λ others. Leaves-pure f (first ∷ others))

  drain_current-Leaves :
      (drain : Bool) (argv : Option (List String)) (t : ℕ) → Leaves R (drain_current w drain argv t)
  unfolding drain_current
  drain_current-Leaves true (some (arg ∷ argv)) t =
      Leaves-bind f (run w (arg ∷ argv) t) _ (run-Leaves (arg ∷ argv) t) λ r.
        Leaves-bind f (required w _ _ _ _ r) _ (required-Leaves _ _ _ _ r)
          (λ c. Leaves-pure f (c ∷ []))
  drain_current-Leaves _ _ t = Leaves-pure f []

  pub stop_release-Leaves :
      (document : Release) (systemctl : String) (drain : Bool)
      → Leaves R (stop_release w document systemctl drain)
  unfolding stop_release
  stop_release-Leaves document systemctl drain =
      Leaves-bind f (drain_current w drain document.drain_argv document.drain_timeout_seconds) _
        (drain_current-Leaves drain document.drain_argv document.drain_timeout_seconds)
        λ drained.
          Leaves-bind f (stop_services w systemctl (services w document true)) _
            (stop_services-Leaves systemctl (services w document true))
            (λ stopped. Leaves-pure f (drained ++ stopped))

  pub start_release-Leaves :
      (document : Release) (systemctl : String) → Leaves R (start_release w document systemctl)
  unfolding start_release
  start_release-Leaves document systemctl =
      Leaves-bind f (start_services w systemctl (services w document false)) _
        (start_services-Leaves systemctl (services w document false))
        λ started.
          Leaves-bind f (run w document.health_argv document.health_timeout_seconds) _
            (run-Leaves document.health_argv document.health_timeout_seconds)
            λ r.
              Leaves-bind f (required w _ _ _ _ r) _ (required-Leaves _ _ _ _ r)
                (λ health. Leaves-pure f (started ++ health ∷ []))

-- Both links, with their temporaries, are what they were.
pub record SameLinks (h k : Host) : Type 0 where
  pub same_current : k.current ≡ h.current
  pub same_runtime : k.runtime ≡ h.runtime

pub SameLinks-refl : (h : Host) → SameLinks h h
SameLinks-refl h = record { same_current = refl; same_runtime = refl }

pub SameLinks-trans : {h k l : Host} → SameLinks h k → SameLinks k l → SameLinks h l
SameLinks-trans p q = record {
  same_current = q.same_current ∙ p.same_current;
  same_runtime = q.same_runtime ∙ p.same_runtime;
}

links_frame : Frame SameLinks
links_frame = record {
  same = SameLinks-refl;
  chain = λ h k l p q. SameLinks-trans p q;
  remember = λ h e. record { same_current = refl; same_runtime = refl };
}

-- The rows for the rollback document are what they were.
abbrev pub SameRows : Host → Host → Type 0
SameRows h k = k.recovery_checks ≡ h.recovery_checks

rows_frame : Frame SameRows
rows_frame = record { same = λ h. refl; chain = λ h k l p q. q ∙ p; remember = λ h e. refl }

module _ (w : World) where
  pub stop_release-SameLinks :
      (document : Release) (systemctl : String) (drain : Bool) (h : Host)
      → SameLinks h (stop_release w document systemctl drain h).1
  stop_release-SameLinks document systemctl drain =
      (stop_release-Leaves links_frame w document systemctl drain).at

  pub start_release-SameLinks :
      (document : Release) (systemctl : String) (h : Host)
      → SameLinks h (start_release w document systemctl h).1
  start_release-SameLinks document systemctl =
      (start_release-Leaves links_frame w document systemctl).at

  pub stop_release-SameRows :
      (document : Release) (systemctl : String) (drain : Bool) (h : Host)
      → SameRows h (stop_release w document systemctl drain h).1
  stop_release-SameRows document systemctl drain =
      (stop_release-Leaves rows_frame w document systemctl drain).at

  pub start_release-SameRows :
      (document : Release) (systemctl : String) (h : Host)
      → SameRows h (start_release w document systemctl h).1
  start_release-SameRows document systemctl =
      (start_release-Leaves rows_frame w document systemctl).at

  -- Whatever is refused and whenever, the link goes from what it was to the target in one step: it is
  -- never missing or half made, and a replacement that returns has installed the target.
  pub atomic_symlink_lem :
      (target : String) (link : Link) (h : Host)
      → let k = (atomic_symlink w target link h).1 in
        (((slot link k).entry ≡ (slot link h).entry) ⊎ ((slot link k).entry ≡ symlink target))
        × ((atomic_symlink w target link h).0 ≡ ok tt → (slot link k).entry ≡ symlink target)
  unfolding atomic_symlink
  atomic_symlink_lem target current_link h = (ground arith, λ e. ground arith)
  atomic_symlink_lem target runtime_link h = (ground arith, λ e. ground arith)
