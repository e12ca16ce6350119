-- ===== src/Recovery/Selected.antt =====
-- `select_backup` of recovery_contract.py as a whole.
use liqi_platform.Prelude.{
  ℕ, String, Option, none, some, List, [], ◌∷◌, ◌≡◌, ap, subst, ◌∙◌, ◌↔◌, arith, ok, ok-injective,
}
use liqi_platform.Prelude.Json.{Json}
use liqi_platform.Recovery.Values.{◌>>=◌, World}
use liqi_platform.Recovery.Backups.{
  Selector, is_candidate, candidates, find_stanza, as_array, present, backups_of, only, wanted,
  select_backup,
}
use liqi_platform.Recovery.Steps.{on_ok}
use liqi_platform.Recovery.Matching.{OnlyMatch, Unique-OnlyMatch, OnlyMatch-Unique}
use liqi_platform.Recovery.Selection.{
  Unique, First, is_named, candidates-one, one-candidates, find_stanza-First, find_stanza-eq,
}

-- What `select_backup` promises of a stanza and a backup.
pub record Selected (info : Json) (name : String) (s : Selector) (stanza backup : Json)
    : Type 0 where
  pub stanzas : List Json
  pub array : as_array info ≡ ok stanzas
  pub first : First (is_named name) stanzas stanza
  pub backups : List Json
  pub listed : backups_of stanza ≡ ok backups
  pub unique : OnlyMatch s backups backup

present-eq-ok : (name : String) (o : Option Json) {x : Json} → present name o ≡ ok x → o ≡ some x
present-eq-ok name (some y) h = ap some (ok-injective h)
present-eq-ok name none h = absurd (ground arith)

only-eq-ok :
    (show : ℕ → String) (name : String) (xs : List Json) {x : Json}
    → only show name xs ≡ ok x
    → xs ≡ x ∷ []
only-eq-ok show name [] h = absurd (ground arith)
only-eq-ok show name (y ∷ []) h = ap (λ z. z ∷ []) (ok-injective h)
only-eq-ok show name (y ∷ z ∷ xs) h = absurd (ground arith)

module _ (w : World) (info : Json) (name : String) (s : Selector) where
  pub select_backup-Selected :
      {stanza backup : Json}
      → select_backup w info name s ≡ ok (stanza, backup)
      → Selected info name s stanza backup
  unfolding select_backup
  select_backup-Selected {stanza} {backup} h = on_ok (as_array info) _ h λ stanzas array h.
      on_ok (find_stanza name stanzas) _ h λ named e h. on_ok (present name named) _ h λ st f h.
        on_ok (backups_of st) _ h λ backups listed h. on_ok (candidates s backups) _ h λ chosen c h.
          on_ok (only w.show (wanted s) chosen) _ h λ b o h.
            let same_stanza : st ≡ stanza = ap (λ p. p.0) (ok-injective h) in
            let same_backup : b ≡ backup = ap (λ p. p.1) (ok-injective h) in
            record {
              stanzas = stanzas;
              array = array;
              first =
                  find_stanza-First name stanzas
                    (e ∙ ap ok (present-eq-ok name named f ∙ ap some same_stanza));
              backups = backups;
              listed = subst (λ x. backups_of x ≡ ok backups) same_stanza listed;
              unique = Unique-OnlyMatch s (
                  candidates-one s backups (
                    c
                    ∙ ap ok
                        (only-eq-ok w.show (wanted s) chosen o ∙ ap (λ x. x ∷ []) same_backup)));
            }

  Selected-select_backup :
      {stanza backup : Json}
      → Selected info name s stanza backup
      → select_backup w info name s ≡ ok (stanza, backup)
  unfolding select_backup ◌>>=◌
  Selected-select_backup {stanza} {backup} x =
      let e : find_stanza name x.stanzas ≡ ok (some stanza) = find_stanza-eq name x.first in
      let u : Unique (is_candidate s) x.backups backup = OnlyMatch-Unique s x.unique in
      let c : candidates s x.backups ≡ ok (backup ∷ []) =
        ap (candidates s) u.split
        ∙ one-candidates s u.before u.after backup u.none_before u.found u.none_after in
      rw (x.array, e, x.listed, c)

  -- `select_backup` gives a stanza and a backup just where the stanza is the first of the list with the
  -- name, and the backup is the one of its list whose label, type and annotated run id are those of the
  -- selector that are given, while every other one has another value at one of them.
  pub select_backup-Selected_iff :
      {stanza backup : Json}
      → (select_backup w info name s ≡ ok (stanza, backup)) ↔ Selected info name s stanza backup
  select_backup-Selected_iff = (select_backup-Selected, Selected-select_backup)
