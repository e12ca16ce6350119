-- ===== src/ReleaseControl/Selection.antt =====
-- Which release the links select after each part of release_control.py's operation.
use liqi_platform.Prelude.{
  String, ◌≡◌, refl, ap, subst, ◌∙◌, true, false, Option, none, some, List, ◌++◌, arith, Result, ok,
  err, map,
}
use liqi_platform.ReleaseControl.Documents.{Release, Check, Args}
use liqi_platform.ReleaseControl.Host.{
  Exception, Entry, absent, symlink, World, Host, Exec, ◌>>=◌, ◌>>◌, continue,
}
use liqi_platform.ReleaseControl.Services.{
  as_row, atomic_symlink, unlink, stop_release, start_release, select_release, clear_selection,
}
use liqi_platform.ReleaseControl.Links.{SameLinks, start_release-SameLinks}
use liqi_platform.ReleaseControl.Operation.{
  add_checks, add_recovery, within_time, stop_previous, try_activate, try_deactivate, try_switch,
  recover_to, recover,
}

abbrev pub runtime_entry : Option String → Entry
runtime_entry none = absent
runtime_entry (some path) = symlink path

-- The links are those that `select_release` is to make.
pub record Selected (release : Release) (h : Host) : Type 0 where
  pub current_selected : h.current.entry ≡ symlink release.release_path
  pub runtime_selected : h.runtime.entry ≡ runtime_entry release.runtime_config_path

pub record Cleared (h : Host) : Type 0 where
  pub current_cleared : h.current.entry ≡ absent
  pub runtime_cleared : h.runtime.entry ≡ absent

-- The predecessor is selected again, or nothing is where there was none.
abbrev pub Restored : Option Release → Host → Type 0
Restored none h = Cleared h
Restored (some release) h = Selected release h

pub Selected-SameLinks :
    {release : Release} {h k : Host} → Selected release h → SameLinks h k → Selected release k
Selected-SameLinks s f = record {
  current_selected = ap (λ x. x.entry) f.same_current ∙ s.current_selected;
  runtime_selected = ap (λ x. x.entry) f.same_runtime ∙ s.runtime_selected;
}

module _ {A B : Type 0} where
  continue-eq-ok :
      (r : Result Exception A) (h : Host) (f : A → Exec B) {b : B} {l : Host}
      → continue r f h ≡ (ok b, l)
      → (a : A) × (r ≡ ok a) × (f a h ≡ (ok b, l))
  continue-eq-ok (ok a) h f e = (a, refl, e)
  continue-eq-ok (err x) h f e = cc

  -- A statement list that ends well: each statement does.
  pub bind-eq-ok :
      (m : Exec A) (f : A → Exec B) (h : Host) {b : B} {l : Host}
      → (m >>= f) h ≡ (ok b, l)
      → (a : A) × ((m h).0 ≡ ok a) × (f a (m h).1 ≡ (ok b, l))
  bind-eq-ok m f h e = continue-eq-ok (m h).0 (m h).1 f e

module _ (w : World) where
  select_release-Selected :
      (release : Release) (h : Host) {u : Unit {0}}
      → (select_release w release h).0 ≡ ok u
      → Selected release (select_release w release h).1
  unfolding select_release atomic_symlink unlink
  select_release-Selected release h e = ground arith

  clear_selection-Cleared :
      (h : Host) {u : Unit {0}} → (clear_selection w h).0 ≡ ok u → Cleared (clear_selection w h).1
  unfolding clear_selection unlink
  clear_selection-Cleared h e = ground arith

  module _ (args : Args) where
    -- What follows the selection of an activation leaves the links.
    finish_activation :
        (rows : List Check) (target : Release) (h : Host) {l : Host}
        → (do
          add_checks rows
          started ← start_release w target args.systemctl
          add_checks started
          within_time w args)
            h
          ≡ (ok tt, l)
        → SameLinks h l
    unfolding within_time
    finish_activation rows target h e = ground (
      arith,
      start_release-SameLinks w target args.systemctl (record h { checks = h.checks ++ rows }),
    )

    pub try_activate-Selected :
        (current : Option Release) (target : Release) (h : Host) {l : Host}
        → try_activate w args current target h ≡ (ok tt, l)
        → Selected target l
    unfolding try_activate
    try_activate-Selected current target h e =
        let (a, _, selecting) = bind-eq-ok (stop_previous w args current) _ h e in
        let h' : Host = (stop_previous w args current h).1 in
        let (b, selected, rest) = bind-eq-ok (select_release w target) _ h' selecting in
        Selected-SameLinks (select_release-Selected target h' selected)
          (finish_activation _ target _ rest)

    pub try_deactivate-Cleared :
        (current : Release) (h : Host) {l : Host}
        → try_deactivate w args current h ≡ (ok tt, l)
        → Cleared l
    unfolding try_deactivate
    try_deactivate-Cleared current h {l} e =
        let (stopped, _, rest) = bind-eq-ok (stop_release w current args.systemctl true) _ h e in
        let h' : Host = (stop_release w current args.systemctl true h).1 in
        let k : Host = record h' { recovery_checks = h'.recovery_checks ++ map as_row stopped } in
        subst Cleared (ap (λ p. p.1) rest) (clear_selection-Cleared k (ap (λ p. p.0) rest))

    finish_switch :
        (target : Release) (h : Host) {l : Host}
        → (do started ← start_release w target args.systemctl; add_recovery (map as_row started)) h
          ≡ (ok tt, l)
        → SameLinks h l
    finish_switch target h e = ground (arith, start_release-SameLinks w target args.systemctl h)

    pub try_switch-Selected :
        (current target : Release) (h : Host) {l : Host}
        → try_switch w args current target h ≡ (ok tt, l)
        → Selected target l
    unfolding try_switch
    try_switch-Selected current target h e =
        let (stopped, _, recorded) =
          bind-eq-ok (stop_release w current args.systemctl true) _ h e in
        let h' : Host = (stop_release w current args.systemctl true h).1 in
        let k : Host = record h' { recovery_checks = h'.recovery_checks ++ map as_row stopped } in
        let (b, selected, rest) = bind-eq-ok (select_release w target) _ k recorded in
        Selected-SameLinks (select_release-Selected target k selected) (finish_switch target _ rest)

    recover_to-Restored :
        (current_id : Option String) (current : Option Release) (h : Host) {l : Host}
        → recover_to w args current_id current h ≡ (ok tt, l)
        → Restored current l
    unfolding recover_to
    recover_to-Restored current_id none h e =
        let (b, cleared, rest) = bind-eq-ok (clear_selection w) _ h e in
        ground (arith, clear_selection-Cleared h cleared)
    recover_to-Restored current_id (some current) h e =
        let (b, selected, rest) = bind-eq-ok (select_release w current) _ h e in
        let k : Host = (select_release w current h).1 in
        let (started, _, end) = bind-eq-ok (start_release w current args.systemctl) _ k rest in
        Selected-SameLinks (select_release-Selected current h selected)
          (ground (arith, start_release-SameLinks w current args.systemctl k))

    pub recover-Restored :
        (current_id : Option String) (current : Option Release) (target : Release) (h : Host)
        {l : Host}
        → recover w args current_id current target h ≡ (ok tt, l)
        → Restored current l
    unfolding recover
    recover-Restored current_id current target h e =
        let (stopped, _, rest) = bind-eq-ok (stop_release w target args.systemctl false) _ h e in
        recover_to-Restored current_id current _ rest
