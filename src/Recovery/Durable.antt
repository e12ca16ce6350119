-- ===== src/Recovery/Durable.antt =====
-- `write_json_with_checksum` in recovery_contract.py: the states that the output and its sidecar pass through, whichever
-- of its operations are refused.
use liqi_platform.Prelude.{
  String, false, Option, some, none, List, [], ◌∷◌, ◌≡◌, refl, ◌==◌, string_eq, ◌∙◌, Result,
}
use liqi_platform.Prelude.Json.{Json}
use liqi_platform.Recovery.Values.{Exc, World}
use liqi_platform.Recovery.Store.{
  Files, Disk, Target, path, sidecar, temporary, put, sidecar_text, replace_file, make_parent,
  install, remove_temporaries, write_json_with_checksum,
}
use liqi_platform.Recovery.Paths.{put_self, put_other, Distinct}
use liqi_platform.Recovery.Triples.{
  Outcome, Triple, bind-Triple, pre-Triple, finally-Triple, operation-Triple,
}
use liqi_platform.Recovery.Stages.{
  At, Whole, before, between, after, put_other-At, write_synced-Triple, unlink-Triple,
}

module _ (w : World) (t : Target) (o c : Option String) (new : String)
    (d : Distinct w.token t) where
  abbrev side : String
  side = sidecar_text w new t.1

  abbrev Good : Files → Type 0
  Good = Whole t o c new side

  abbrev output_temporary : String
  output_temporary = path (temporary w.token t)

  abbrev sidecar_temporary : String
  sidecar_temporary = path (temporary w.token (sidecar t))

  output_temporary-At :
      {o c : Option String} (x : Option String) (f : Files)
      → At t o c f
      → At t o c (put output_temporary x f)
  output_temporary-At = put_other-At output_temporary d.output-temporary d.sidecar-temporary

  sidecar_temporary-At :
      {o c : Option String} (x : Option String) (f : Files)
      → At t o c f
      → At t o c (put sidecar_temporary x f)
  sidecar_temporary-At =
      put_other-At sidecar_temporary d.output-temporary_sidecar d.sidecar-temporary_sidecar

  -- The output's text is staged.
  record Staged (f : Files) : Type 0 where
    old : At t o c f
    staged : f output_temporary ≡ some new

  put-Staged : (x : Option String) (f : Files) → Staged f → Staged (put sidecar_temporary x f)
  put-Staged x f s = record {
    old = sidecar_temporary-At x f s.old;
    staged =
        put_other output_temporary sidecar_temporary x f d.temporary-temporary_sidecar ∙ s.staged;
  }

  -- The new output stands, and its sidecar is staged.
  record Half (f : Files) : Type 0 where
    half : At t (some new) c f
    ready : f sidecar_temporary ≡ some side

  install_output-Triple :
      Triple Good
        (λ f. Staged f × (f sidecar_temporary ≡ some side))
        (replace_file w output_temporary (path t))
        Half
  unfolding replace_file
  install_output-Triple =
      operation-Triple w
        (λ e. put output_temporary none (put (path t) (e.files output_temporary) e.files))
        (λ e. e.files)
        λ e g r.
          let a = output_temporary-At none _ (installed e.files r.0) in
          (between a, record { half = a; ready = kept e.files r.1 }, g)
    where
      installed : (f : Files) → Staged f → At t (some new) c (put (path t) (f output_temporary) f)
      installed f s = record {
        output = put_self (path t) (f output_temporary) f ∙ s.staged;
        checksum =
            put_other (path (sidecar t)) (path t) (f output_temporary) f d.sidecar-output
            ∙ s.old.checksum;
      }

      kept :
          (f : Files)
          → f sidecar_temporary ≡ some side
          → put output_temporary none (put (path t) (f output_temporary) f) sidecar_temporary
            ≡ some side
      kept f h =
          put_other sidecar_temporary output_temporary none (put (path t) (f output_temporary) f)
            d.temporary_sidecar-temporary
          ∙ put_other sidecar_temporary (path t) (f output_temporary) f d.temporary_sidecar-output
          ∙ h

  install_sidecar-Triple :
      Triple Good Half
        (replace_file w sidecar_temporary (path (sidecar t)))
        (At t (some new) (some side))
  unfolding replace_file
  install_sidecar-Triple =
      operation-Triple w
        (λ e.
          put sidecar_temporary none (put (path (sidecar t)) (e.files sidecar_temporary) e.files))
        (λ e. e.files)
        λ e g r. let a = sidecar_temporary-At none _ (installed e.files r) in (after a, a, g)
    where
      installed :
          (f : Files)
          → Half f
          → At t (some new) (some side) (put (path (sidecar t)) (f sidecar_temporary) f)
      installed f s = record {
        output =
            put_other (path t) (path (sidecar t)) (f sidecar_temporary) f d.output-sidecar
            ∙ s.half.output;
        checksum = put_self (path (sidecar t)) (f sidecar_temporary) f ∙ s.ready;
      }

  install-Triple : Triple Good (At t o c) (install w t new) (At t (some new) (some side))
  unfolding install
  install-Triple =
      bind-Triple (write_synced-Triple w output_temporary new (λ f. before) output_temporary-At)
        λ _.
          bind-Triple
            (pre-Triple (λ f s. record { old = s.0; staged = s.1 })
              (write_synced-Triple w sidecar_temporary side (λ f s. before s.old) put-Staged))
            λ _. bind-Triple install_output-Triple λ _. install_sidecar-Triple

  cleanup-Triple :
      {R : Files → Type 0}
      → ((f : Files) → R f → Good f)
      → ((x : Option String) (f : Files) → R f → R (put output_temporary x f))
      → ((x : Option String) (f : Files) → R f → R (put sidecar_temporary x f))
      → Triple Good R (remove_temporaries w t) R
  unfolding remove_temporaries
  cleanup-Triple weaken a b =
      bind-Triple (unlink-Triple w output_temporary weaken a)
        λ _. unlink-Triple w sidecar_temporary weaken b

  put-Good :
      (p : String)
      → (path t == p) ≡ false
      → (path (sidecar t) == p) ≡ false
      → (x : Option String) (f : Files) → Good f
      → Good (put p x f)
  put-Good p h k x f (before a) = before (put_other-At p h k x f a)
  put-Good p h k x f (between a) = between (put_other-At p h k x f a)
  put-Good p h k x f (after a) = after (put_other-At p h k x f a)

  make_parent-Triple : Triple Good (At t o c) (make_parent w) (At t o c)
  make_parent-Triple = operation-Triple w (λ e. e.files) (λ e. e.files) λ e g r. (g, r, g)

module _ (w : World) (t : Target) (value : Json) (o c : Option String)
    (d : Distinct w.token t) where
  write-Triple :
      Triple
        (Whole t o c (w.dumps value) (sidecar_text w (w.dumps value) t.1))
        (At t o c)
        (write_json_with_checksum w t value)
        (At t (some (w.dumps value)) (some (sidecar_text w (w.dumps value) t.1)))
  unfolding write_json_with_checksum
  write-Triple =
      let a = output_temporary-At w t o c (w.dumps value) d in
      let b = sidecar_temporary-At w t o c (w.dumps value) d in
      bind-Triple (make_parent-Triple w t o c (w.dumps value) d) λ _.
        finally-Triple (install-Triple w t o c (w.dumps value) d)
          (cleanup-Triple w t o c (w.dumps value) d (λ f. after) a b)
          (cleanup-Triple w t o c (w.dumps value) d (λ f g. g)
            (put-Good w t o c (w.dumps value) d _ d.output-temporary d.sidecar-temporary)
            (put-Good w t o c (w.dumps value) d _ d.output-temporary_sidecar
              d.sidecar-temporary_sidecar))

-- From any state of the files, with nothing before it.
abbrev pub begin : Files → Disk
begin files = record { files = files; past = []; count = 0 }

-- Every state of the files up to the end of an action.
abbrev pub states : {A : Type 0} → Result Exc A × Disk → List Files
states (r, d) = d.files ∷ d.past

pub write-Outcome :
    (w : World) (t : Target) (value : Json) (files : Files)
    → Distinct w.token t
    → Outcome
        (Whole t
          (files (path t))
          (files (path (sidecar t)))
          (w.dumps value)
          (sidecar_text w (w.dumps value) t.1))
        (At t (some (w.dumps value)) (some (sidecar_text w (w.dumps value) t.1)))
        (write_json_with_checksum w t value (begin files))
write-Outcome w t value files d =
    let a : At t (files (path t)) (files (path (sidecar t))) files = record {
      output = refl;
      checksum = refl;
    } in
    (write-Triple w t value (files (path t)) (files (path (sidecar t))) d).run (begin files)
      (record { now = before a; before = tt }) a
