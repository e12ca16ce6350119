-- ===== src/Recovery/Matching.antt =====
-- The selector of `select_backup` of recovery_contract.py, described by the values that a backup holds.
use liqi_platform.Prelude.{
  ◌++◌, String, Bool, true, false, Option, none, some, List, [], ◌∷◌, All, ◌≡◌, ◌≢◌, refl, sym, ap,
  ◌∙◌, arith, Result, ok, err, ok-injective, eq_refl, string_eq,
}
use liqi_platform.Prelude.Json.{Json, str, is_text}
use liqi_platform.Prelude.Members.{is_text-true}
use liqi_platform.Recovery.Values.{Exc, ◌>>=◌, member, member_or_empty}
use liqi_platform.Recovery.Backups.{Selector, field_agrees, annotated, and_also, is_candidate}
use liqi_platform.Recovery.Steps.{on_ok}
use liqi_platform.Recovery.Selection.{Unique}

-- The run that a backup's annotation names.
abbrev pub run_id_of : Json → Result Exc (Option Json)
run_id_of backup = member_or_empty "annotation" backup >>= member "liqi-run-id"

-- What was read is another value than this text.
pub record IsOther (a : String) (r : Result Exc (Option Json)) : Type 0 where
  pub value : Option Json
  pub was_read : r ≡ ok value
  pub other : value ≢ some (str a)

-- What was read is the text that is asked for, if one is.
abbrev pub Asked : Option String → Result Exc (Option Json) → Type 0
Asked none r = Unit {0}
Asked (some a) r = r ≡ ok (some (str a))

-- A text is asked for, and what was read is another value.
abbrev pub Refused : Option String → Result Exc (Option Json) → Type 0
Refused none r = ⊥
Refused (some a) r = IsOther a r

-- The backup's label, type and run are those that are asked for.
pub record Matches (s : Selector) (backup : Json) : Type 0 where
  pub label : Asked s.label (member "label" backup)
  pub kind : Asked s.backup_type (member "type" backup)
  pub run_id : Asked s.run_id (run_id_of backup)

-- One of the three is not, and the ones before it are.
pub data Differs (s : Selector) (backup : Json) : Type 0 where
  other_label : Refused s.label (member "label" backup) → Differs s backup
  other_kind :
      Asked s.label (member "label" backup)
      → Refused s.backup_type (member "type" backup)
      → Differs s backup
  other_run :
      Asked s.label (member "label" backup)
      → Asked s.backup_type (member "type" backup)
      → Refused s.run_id (run_id_of backup)
      → Differs s backup

true_ne_false : true ≢ false
true_ne_false h = ground arith

is_text-false : (a : String) (v : Option Json) → is_text a v ≡ false → v ≢ some (str a)
is_text-false a v h e = true_ne_false (sym (eq_refl a) ∙ ap (is_text a) (sym e) ∙ h)

text-is_text : (a : String) (v : Option Json) → v ≢ some (str a) → is_text a v ≡ false
text-is_text a v h = go (is_text a v) refl
  where
    go : (b : Bool) → is_text a v ≡ b → is_text a v ≡ false
    go true e = absurd (h (is_text-true a v e))
    go false e = e

-- One test of the selector.
abbrev asks : Option String → Result Exc (Option Json) → Result Exc Bool
asks none r = ok true
asks (some a) r = r >>= λ v. ok (is_text a v)

field_agrees-asks :
    (key : String) (o : Option String) (backup : Json)
    → field_agrees key o backup ≡ asks o (member key backup)
field_agrees-asks key none backup = refl
field_agrees-asks key (some a) backup = refl

annotated-asks :
    (o : Option String) (backup : Json) → annotated o backup ≡ asks o (run_id_of backup)
unfolding ◌>>=◌
annotated-asks none backup = refl
annotated-asks (some a) backup = ground arith

asks-true : (o : Option String) (r : Result Exc (Option Json)) → asks o r ≡ ok true → Asked o r
unfolding ◌>>=◌
asks-true none r h = tt
asks-true (some a) (ok v) h = ap ok (is_text-true a v (ok-injective h))
asks-true (some a) (err x) h = absurd (ground arith)

asks-false : (o : Option String) (r : Result Exc (Option Json)) → asks o r ≡ ok false → Refused o r
unfolding ◌>>=◌
asks-false none r h = absurd (ground arith)
asks-false (some a) (ok v) h = record {
  value = v;
  was_read = refl;
  other = is_text-false a v (ok-injective h);
}
asks-false (some a) (err x) h = absurd (ground arith)

Asked-asks : (o : Option String) (r : Result Exc (Option Json)) → Asked o r → asks o r ≡ ok true
unfolding ◌>>=◌
Asked-asks none r h = refl
Asked-asks (some a) r h = rw (h, eq_refl a) refl

Refused-asks :
    (o : Option String) (r : Result Exc (Option Json)) → Refused o r → asks o r ≡ ok false
unfolding ◌>>=◌
Refused-asks none r h = absurd h
Refused-asks (some a) r h = rw (h.was_read, text-is_text a h.value h.other) refl

-- The three tests, one after the other.
abbrev Decided : Bool → Selector → Json → Type 0
Decided true = Matches
Decided false = Differs

module _ (s : Selector) (backup : Json) where
  -- The three tests on what was read.
  is_candidate-asks : is_candidate s backup ≡ (do
    labelled ← asks s.label (member "label" backup)
    typed ← and_also labelled (asks s.backup_type (member "type" backup))
    and_also typed (asks s.run_id (run_id_of backup)))
  unfolding is_candidate
  is_candidate-asks =
      rw
        (
          field_agrees-asks "label" s.label backup,
          field_agrees-asks "type" s.backup_type backup,
          annotated-asks s.run_id backup,
        )
        refl

  tests-Decided :
      (b l t : Bool)
      → asks s.label (member "label" backup) ≡ ok l
      → and_also l (asks s.backup_type (member "type" backup)) ≡ ok t
      → and_also t (asks s.run_id (run_id_of backup)) ≡ ok b
      → Decided b s backup
  tests-Decided b false true e f h = absurd (ground arith)
  tests-Decided true false false e f h = absurd (ground arith)
  tests-Decided false false false e f h = other_label (asks-false s.label _ e)
  tests-Decided true true false e f h = absurd (ground arith)
  tests-Decided false true false e f h =
      other_kind (asks-true s.label _ e) (asks-false s.backup_type _ f)
  tests-Decided true true true e f h = record {
    label = asks-true s.label _ e;
    kind = asks-true s.backup_type _ f;
    run_id = asks-true s.run_id _ h;
  }
  tests-Decided false true true e f h =
      other_run (asks-true s.label _ e) (asks-true s.backup_type _ f) (asks-false s.run_id _ h)

  is_candidate-Decided : (b : Bool) → is_candidate s backup ≡ ok b → Decided b s backup
  is_candidate-Decided b h =
      on_ok (asks s.label (member "label" backup)) _ (sym is_candidate-asks ∙ h) λ l e h.
        on_ok (and_also l (asks s.backup_type (member "type" backup))) _ h
          λ t f h. tests-Decided b l t e f h

  pub Matches-is_candidate : Matches s backup → is_candidate s backup ≡ ok true
  unfolding ◌>>=◌
  Matches-is_candidate m =
      is_candidate-asks
      ∙ rw
          (
            Asked-asks s.label _ m.label,
            Asked-asks s.backup_type _ m.kind,
            Asked-asks s.run_id _ m.run_id,
          )
          refl

  Differs-is_candidate : Differs s backup → is_candidate s backup ≡ ok false
  unfolding ◌>>=◌
  Differs-is_candidate (other_label h) = is_candidate-asks ∙ rw (Refused-asks s.label _ h) refl
  Differs-is_candidate (other_kind e h) =
      is_candidate-asks ∙ rw (Asked-asks s.label _ e, Refused-asks s.backup_type _ h) refl
  Differs-is_candidate (other_run e f h) =
      is_candidate-asks
      ∙ rw (Asked-asks s.label _ e, Asked-asks s.backup_type _ f, Refused-asks s.run_id _ h) refl

-- One place of a list holds `x`, which matches, and the backups at the others differ.
pub record OnlyMatch (s : Selector) (xs : List Json) (x : Json) : Type 0 where
  pub before : List Json
  pub after : List Json
  pub split : xs ≡ before ++ x ∷ after
  pub matches : Matches s x
  pub differ_before : All (Differs s) before
  pub differ_after : All (Differs s) after

module _ (s : Selector) where
  all_differ : (xs : List Json) → All (λ y. is_candidate s y ≡ ok false) xs → All (Differs s) xs
  all_differ [] h = tt
  all_differ (x ∷ xs) h = (is_candidate-Decided s x false h.0, all_differ xs h.1)

  all_refused : (xs : List Json) → All (Differs s) xs → All (λ y. is_candidate s y ≡ ok false) xs
  all_refused [] h = tt
  all_refused (x ∷ xs) h = (Differs-is_candidate s x h.0, all_refused xs h.1)

  pub Unique-OnlyMatch :
      {xs : List Json} {x : Json} → Unique (is_candidate s) xs x → OnlyMatch s xs x
  Unique-OnlyMatch {x} u = record {
    before = u.before;
    after = u.after;
    split = u.split;
    matches = is_candidate-Decided s x true u.found;
    differ_before = all_differ u.before u.none_before;
    differ_after = all_differ u.after u.none_after;
  }

  pub OnlyMatch-Unique :
      {xs : List Json} {x : Json} → OnlyMatch s xs x → Unique (is_candidate s) xs x
  OnlyMatch-Unique {x} u = record {
    before = u.before;
    after = u.after;
    split = u.split;
    found = Matches-is_candidate s x u.matches;
    none_before = all_refused u.before u.differ_before;
    none_after = all_refused u.after u.differ_after;
  }
