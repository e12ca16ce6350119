-- ===== src/ReleaseControl/Sequence.antt =====
-- The order of the effects of release_control.py: services stop in descending and start in ascending
-- start order, around the switch of the links.
use liqi_platform.Prelude.{
  ℕ, ◌+◌, String, ◌≡◌, refl, sym, ap, ◌∙◌, true, false, Option, none, some, List, [], ◌∷◌, ◌++◌,
  arith, ok,
}
use liqi_platform.ReleaseControl.Documents.{Service, Release, Check, Args}
use liqi_platform.ReleaseControl.Host.{
  Event, ran, made_directory, removed_temporary, made_temporary, replaced, unlinked, Link,
  current_link, runtime_link, World, Host, ◌>>=◌, ◌>>◌,
}
use liqi_platform.ReleaseControl.Services.{
  Ran, required, run, drain_current, stop_service, start_service, stop_services, start_services,
  services, stop_release, start_release, select_release, atomic_symlink, unlink,
}
use liqi_platform.ReleaseControl.Operation.{add_checks, within_time, stop_previous, try_activate}
use liqi_platform.ReleaseControl.Selection.{bind-eq-ok}

-- The events that follow a history, newest first.
abbrev pub after_stops : String → List Service → List Event → List Event
after_stops systemctl [] past = past
after_stops systemctl (s ∷ rest) past =
    after_stops systemctl rest
      (ran (systemctl ∷ "stop" ∷ s.unit ∷ []) (s.stop_timeout_seconds + 5) ∷ past)

abbrev pub after_starts : String → List Service → List Event → List Event
after_starts systemctl [] past = past
after_starts systemctl (s ∷ rest) past =
    after_starts systemctl rest (ran (systemctl ∷ "start" ∷ s.unit ∷ []) 60 ∷ past)

abbrev pub after_link : String → Link → List Event → List Event
after_link target link past =
    replaced link ∷ made_temporary link target ∷ removed_temporary link ∷ made_directory link ∷ past

abbrev pub after_runtime : Option String → List Event → List Event
after_runtime none past = unlinked runtime_link ∷ past
after_runtime (some path) past = after_link path runtime_link past

abbrev pub after_drain : Option (List String) → ℕ → List Event → List Event
after_drain (some (arg ∷ argv)) timeout past = ran (arg ∷ argv) timeout ∷ past
after_drain _ timeout past = past

module _ (w : World) where
  stop_service-history :
      (systemctl : String) (s : Service) (h : Host) {c : Check}
      → (stop_service w systemctl s h).0 ≡ ok c
      → (stop_service w systemctl s h).1.history
        ≡ ran (systemctl ∷ "stop" ∷ s.unit ∷ []) (s.stop_timeout_seconds + 5) ∷ h.history
  unfolding stop_service run
  stop_service-history systemctl s h e = ground arith

  start_service-history :
      (systemctl : String) (s : Service) (h : Host) {c : Check}
      → (start_service w systemctl s h).0 ≡ ok c
      → (start_service w systemctl s h).1.history
        ≡ ran (systemctl ∷ "start" ∷ s.unit ∷ []) 60 ∷ h.history
  unfolding start_service run
  start_service-history systemctl s h e = ground arith

  stop_services-history :
      (systemctl : String) (items : List Service) (h : Host) {cs : List Check} {k : Host}
      → stop_services w systemctl items h ≡ (ok cs, k)
      → k.history ≡ after_stops systemctl items h.history
  unfolding stop_services
  stop_services-history systemctl [] h e = ap (λ p. p.1.history) (sym e)
  stop_services-history systemctl (s ∷ rest) h e =
      let (c, first, tail) = bind-eq-ok (stop_service w systemctl s) _ h e in
      let h' : Host = (stop_service w systemctl s h).1 in
      let (cs, others, last) = bind-eq-ok (stop_services w systemctl rest) _ h' tail in
      ap (λ p. p.1.history) (sym last)
      ∙ stop_services-history systemctl rest h'
          (λ i. (others i, (stop_services w systemctl rest h').1))
      ∙ ap (after_stops systemctl rest) (stop_service-history systemctl s h first)

  start_services-history :
      (systemctl : String) (items : List Service) (h : Host) {cs : List Check} {k : Host}
      → start_services w systemctl items h ≡ (ok cs, k)
      → k.history ≡ after_starts systemctl items h.history
  unfolding start_services
  start_services-history systemctl [] h e = ap (λ p. p.1.history) (sym e)
  start_services-history systemctl (s ∷ rest) h e =
      let (c, first, tail) = bind-eq-ok (start_service w systemctl s) _ h e in
      let h' : Host = (start_service w systemctl s h).1 in
      let (cs, others, last) = bind-eq-ok (start_services w systemctl rest) _ h' tail in
      ap (λ p. p.1.history) (sym last)
      ∙ start_services-history systemctl rest h'
          (λ i. (others i, (start_services w systemctl rest h').1))
      ∙ ap (after_starts systemctl rest) (start_service-history systemctl s h first)

  drain_current-history :
      (argv : Option (List String)) (t : ℕ) (h : Host) {cs : List Check}
      → (drain_current w true argv t h).0 ≡ ok cs
      → (drain_current w true argv t h).1.history ≡ after_drain argv t h.history
  unfolding drain_current run
  drain_current-history (some (arg ∷ argv)) t h e = ground arith
  drain_current-history (some []) t h e = refl
  drain_current-history none t h e = refl

  pub stop_release-history :
      (release : Release) (systemctl : String) (h : Host) {cs : List Check} {k : Host}
      → stop_release w release systemctl true h ≡ (ok cs, k)
      → k.history
        ≡ after_stops systemctl
            (services w release true)
            (after_drain release.drain_argv release.drain_timeout_seconds h.history)
  unfolding stop_release
  stop_release-history release systemctl h e =
      let drain = drain_current w true release.drain_argv release.drain_timeout_seconds in
      let (ds, drained, tail) = bind-eq-ok drain _ h e in
      let h' : Host = (drain h).1 in
      let stops = stop_services w systemctl (services w release true) in
      let (cs, stopped, last) = bind-eq-ok stops _ h' tail in
      ap (λ p. p.1.history) (sym last)
      ∙ stop_services-history systemctl (services w release true) h'
          (λ i. (stopped i, (stops h').1))
      ∙ ap (after_stops systemctl (services w release true))
          (drain_current-history release.drain_argv release.drain_timeout_seconds h drained)

  run-history :
      (argv : List String) (t : ℕ) (h : Host) → (run w argv t h).1.history ≡ ran argv t ∷ h.history
  unfolding run
  run-history argv t h = ground arith

  required-host :
      (name label fallback problem : String) (r : Ran) (h : Host)
      → (required w name label fallback problem r h).1 ≡ h
  required-host name label fallback problem (true, detail, ms) h = refl
  required-host name label fallback problem (false, detail, ms) h = refl

  pub start_release-history :
      (release : Release) (systemctl : String) (h : Host) {cs : List Check} {k : Host}
      → start_release w release systemctl h ≡ (ok cs, k)
      → k.history
        ≡ ran release.health_argv release.health_timeout_seconds
          ∷ after_starts systemctl (services w release false) h.history
  unfolding start_release
  start_release-history release systemctl h e =
      let starts = start_services w systemctl (services w release false) in
      let (cs, started, tail) = bind-eq-ok starts _ h e in
      let h' : Host = (starts h).1 in
      let health = run w release.health_argv release.health_timeout_seconds in
      let (r, _, rest) = bind-eq-ok health _ h' tail in
      let (c, _, last) = bind-eq-ok (required w _ _ _ _ r) _ (health h').1 rest in
      ap (λ p. p.1.history) (sym last)
      ∙ ap (λ x. x.history) (required-host _ _ _ _ r (health h').1)
      ∙ run-history release.health_argv release.health_timeout_seconds h'
      ∙ ap (λ es. ran release.health_argv release.health_timeout_seconds ∷ es)
          (start_services-history systemctl (services w release false) h (λ i. (started i, h')))

  select_release-history :
      (release : Release) (h : Host) {u : Unit {0}}
      → (select_release w release h).0 ≡ ok u
      → (select_release w release h).1.history
        ≡ after_runtime release.runtime_config_path
            (after_link release.release_path current_link h.history)
  unfolding select_release atomic_symlink unlink
  select_release-history release h e = ground arith

  -- The effects of a successful switch, newest first.
  abbrev pub after_switch : String → Release → Release → List Event → List Event
  after_switch systemctl current target past =
      ran target.health_argv target.health_timeout_seconds
      ∷ after_starts systemctl (services w target false) (
          after_runtime target.runtime_config_path (
            after_link target.release_path current_link (
              after_stops systemctl (services w current true)
                (after_drain current.drain_argv current.drain_timeout_seconds past))))

  -- What `start_release` adds to a history.
  abbrev switched : Release → String → List Event → List Event
  switched target systemctl past =
      ran target.health_argv target.health_timeout_seconds
      ∷ after_starts systemctl (services w target false) past

  stop_previous-history :
      (args : Args) (current : Release) (h : Host) {u : Unit {0}}
      → (stop_previous w args (some current) h).0 ≡ ok u
      → (stop_previous w args (some current) h).1.history
        ≡ after_stops args.systemctl
            (services w current true)
            (after_drain current.drain_argv current.drain_timeout_seconds h.history)
  unfolding stop_previous
  stop_previous-history args current h e =
      let stops = stop_release w current args.systemctl true in
      let r = stop_previous w args (some current) h in
      let (cs, stopped, _) = bind-eq-ok stops (λ cs. add_checks cs) h {l = r.1} (λ i. (e i, r.1)) in
      ground (arith, stop_release-history current args.systemctl h (λ i. (stopped i, (stops h).1)))

  timed-history :
      (args : Args) (rows : List Check) (h : Host) {k : Host}
      → (add_checks rows >> within_time w args) h ≡ (ok tt, k)
      → k.history ≡ h.history
  unfolding within_time
  timed-history args rows h e = ground arith

  finish_activation-history :
      (args : Args) (rows : List Check) (target : Release) (h : Host) {k : Host}
      → (do
        add_checks rows
        started ← start_release w target args.systemctl
        add_checks started
        within_time w args)
          h
        ≡ (ok tt, k)
      → k.history ≡ switched target args.systemctl h.history
  finish_activation-history args rows target h e =
      let starts = start_release w target args.systemctl in
      let k : Host = record h { checks = h.checks ++ rows } in
      let (cs, started, rest) = bind-eq-ok starts (λ cs. add_checks cs >> within_time w args) k e in
      timed-history args cs (starts k).1 rest
      ∙ start_release-history target args.systemctl k (λ i. (started i, (starts k).1))

  -- An activation that succeeds over a running release does exactly this, in this order: it drains
  -- the current release, stops its services, replaces the two links, starts the services of the
  -- target and runs the target's health gate.
  pub try_activate-history :
      (args : Args) (current target : Release) (h : Host) {k : Host}
      → try_activate w args (some current) target h ≡ (ok tt, k)
      → k.history ≡ after_switch args.systemctl current target h.history
  unfolding try_activate
  try_activate-history args current target h e =
      let stops = stop_previous w args (some current) in
      let (_, stopped, r1) = bind-eq-ok stops _ h e in
      let (_, selected, r2) = bind-eq-ok (select_release w target) _ (stops h).1 r1 in
      finish_activation-history args _ target (select_release w target (stops h).1).1 r2
      ∙ ap (switched target args.systemctl) (select_release-history target (stops h).1 selected)
      ∙ ap
          (λ es. switched target args.systemctl (
            after_runtime target.runtime_config_path
              (after_link target.release_path current_link es)))
          (stop_previous-history args current h stopped)
