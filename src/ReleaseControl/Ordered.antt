-- ===== src/ReleaseControl/Ordered.antt =====
-- The orders in which `start_release` and `stop_release` of release_control.py take the services.
use liqi_platform.Prelude.{String, ◌≡◌, true, false, List, ◌∷◌, ok}
use liqi_platform.Prelude.Sorted.{
  IsSortedBy, IsSortedDown, sort_by-perm, sort_by-IsSortedBy, sort_down-perm,
  sort_down-IsSortedDown,
}
use mathlib.Core.List.{Perm}
use liqi_platform.ReleaseControl.Documents.{Service, Release, Check}
use liqi_platform.ReleaseControl.Host.{ran, World, Host}
use liqi_platform.ReleaseControl.Services.{services, stop_release, start_release}
use liqi_platform.ReleaseControl.Sequence.{
  after_stops, after_starts, after_drain, stop_release-history, start_release-history,
}

-- From `h` to `k`: each service stopped once, the last to start first, after the drain.
pub record Stopped (systemctl : String) (release : Release) (h k : Host) : Type 0 where
  pub order : List Service
  pub once : Perm order release.services
  pub descending : IsSortedDown (λ s. s.start_order) order
  pub effects :
      k.history
      ≡ after_stops systemctl order
          (after_drain release.drain_argv release.drain_timeout_seconds h.history)

-- From `h` to `k`: each service started once, the first to start first, and the health command after.
pub record Started (systemctl : String) (release : Release) (h k : Host) : Type 0 where
  pub order : List Service
  pub once : Perm order release.services
  pub ascending : IsSortedBy (λ s. s.start_order) order
  pub effects :
      k.history
      ≡ ran release.health_argv release.health_timeout_seconds
        ∷ after_starts systemctl order h.history

module _ (w : World) where
  -- The orders that `services` gives.
  services_ordered :
      (release : Release)
      → IsSortedBy (λ s. s.start_order) (services w release false)
        × Perm (services w release false) release.services
        × IsSortedDown (λ s. s.start_order) (services w release true)
        × Perm (services w release true) release.services
  unfolding services
  services_ordered release = (
    sort_by-IsSortedBy _ release.services,
    sort_by-perm _ release.services,
    sort_down-IsSortedDown _ release.services,
    sort_down-perm _ release.services,
  )

  -- Where `stop_release` with its drain returns, it ran the release's drain command, if there is one, and
  -- then stopped each of the services once, in descending order of `start_order`; where `start_release`
  -- returns, it started each of them once, in ascending order, and then ran the health command. Neither
  -- did anything else to the host.
  pub release_ordered :
      (release : Release) (systemctl : String) (h h' : Host) {cs ds : List Check} {k k' : Host}
      → stop_release w release systemctl true h ≡ (ok cs, k)
      → start_release w release systemctl h' ≡ (ok ds, k')
      → Stopped systemctl release h k × Started systemctl release h' k'
  release_ordered release systemctl h h' stops starts =
      let (ascending, once, descending, once_down) = services_ordered release in
      (
        record {
          order = services w release true;
          once = once_down;
          descending = descending;
          effects = stop_release-history w release systemctl h stops;
        },
        record {
          order = services w release false;
          once = once;
          ascending = ascending;
          effects = start_release-history w release systemctl h' starts;
        },
      )
