-- ===== src/Recovery/Stages.antt =====
-- The output and its sidecar of `write_json_with_checksum` in recovery_contract.py, and the single writes beside them.
use liqi_platform.Prelude.{String, false, Option, some, none, ◌≡◌, ◌==◌, string_eq, ◌∙◌}
use liqi_platform.Recovery.Values.{World}
use liqi_platform.Recovery.Store.{Files, Target, path, sidecar, put, write_synced, unlink}
use liqi_platform.Recovery.Paths.{put_self, put_other}
use liqi_platform.Recovery.Triples.{Triple, bind-Triple, operation-Triple}

-- The texts of the output and of its sidecar.
pub record At (t : Target) (o c : Option String) (f : Files) : Type 0 where
  pub output : f (path t) ≡ o
  pub checksum : f (path (sidecar t)) ≡ c

-- Both are as before, only the output is new, or both are new.
pub data Whole (t : Target) (o c : Option String) (new side : String) (f : Files) : Type 0 where
  before : At t o c f → Whole t o c new side f
  between : At t (some new) c f → Whole t o c new side f
  after : At t (some new) (some side) f → Whole t o c new side f

module _ {P R : Files → Type 0} (w : World) where
  pub write_synced-Triple :
      (p content : String)
      → ((f : Files) → R f → P f)
      → ((x : Option String) (f : Files) → R f → R (put p x f))
      → Triple P R (write_synced w p content) (λ f. R f × (f p ≡ some content))
  unfolding write_synced
  write_synced-Triple p content weaken keep =
      bind-Triple {Q = R}
        (operation-Triple w (λ d. put p (some "") d.files) (λ d. d.files)
          λ d a r. (weaken _ (keep (some "") d.files r), keep (some "") d.files r, a))
        λ _.
          bind-Triple {Q = λ f. R f × (f p ≡ some content)}
            (operation-Triple w (λ d. put p (some content) d.files)
              (λ d. put p (some (w.torn d.count)) d.files)
              λ d a r. (
                weaken _ (keep (some content) d.files r),
                (keep (some content) d.files r, put_self p (some content) d.files),
                weaken _ (keep (some (w.torn d.count)) d.files r),
              ))
            λ _. operation-Triple w (λ d. d.files) (λ d. d.files) λ d a r. (a, r, a)

  pub unlink-Triple :
      (p : String)
      → ((f : Files) → R f → P f)
      → ((x : Option String) (f : Files) → R f → R (put p x f))
      → Triple P R (unlink w p) R
  unfolding unlink
  unlink-Triple p weaken keep =
      operation-Triple w (λ d. put p none d.files) (λ d. d.files)
        λ d a r. (weaken _ (keep none d.files r), keep none d.files r, a)

pub put_other-At :
    {t : Target} {o c : Option String} (p : String)
    → (path t == p) ≡ false
    → (path (sidecar t) == p) ≡ false
    → (x : Option String) (f : Files) → At t o c f
    → At t o c (put p x f)
put_other-At {t} p h k x f a = record {
  output = put_other (path t) p x f h ∙ a.output;
  checksum = put_other (path (sidecar t)) p x f k ∙ a.checksum;
}
