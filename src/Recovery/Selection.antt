-- ===== src/Recovery/Selection.antt =====
-- `select_backup` of recovery_contract.py against its own description: the first stanza of the name, and the
-- one backup in it that meets the selector.
use liqi_platform.Prelude.{
  String, Bool, true, false, if◌then◌else◌, Option, some, List, [], ◌∷◌, ◌++◌, All, ◌≡◌, refl, ap,
  subst, ◌∙◌, arith, Result, ok, ok-injective, if◌then◌else◌,
}
use liqi_platform.Prelude.Json.{Json, is_text}
use liqi_platform.Recovery.Values.{Exc, ◌>>=◌, member}
use liqi_platform.Recovery.Backups.{Selector, is_candidate, candidates, keep, find_stanza}
use liqi_platform.Recovery.Steps.{on_ok}

-- One place of a list holds `x`, the test is true there and false at the others.
pub record Unique (test : Json → Result Exc Bool) (xs : List Json) (x : Json) : Type 0 where
  pub before : List Json
  pub after : List Json
  pub split : xs ≡ before ++ x ∷ after
  pub found : test x ≡ ok true
  pub none_before : All (λ y. test y ≡ ok false) before
  pub none_after : All (λ y. test y ≡ ok false) after

-- How the first backup of a list came out.
data Step (s : Selector) (x : Json) (xs ys : List Json) : Type 0 where
  taken :
      (others : List Json)
      → is_candidate s x ≡ ok true
      → candidates s xs ≡ ok others
      → x ∷ others ≡ ys
      → Step s x xs ys
  dropped : is_candidate s x ≡ ok false → candidates s xs ≡ ok ys → Step s x xs ys

module _ (s : Selector) where
  keep-Step :
      (chosen : Bool) (x : Json) (xs others : List Json) {ys : List Json}
      → is_candidate s x ≡ ok chosen
      → candidates s xs ≡ ok others
      → keep chosen x others ≡ ys
      → Step s x xs ys
  keep-Step true x xs others e f h = taken others e f h
  keep-Step false x xs others e f h = dropped e (f ∙ ap ok h)

  candidates-Step :
      (x : Json) (xs : List Json) {ys : List Json} → candidates s (x ∷ xs) ≡ ok ys → Step s x xs ys
  unfolding candidates
  candidates-Step x xs h = on_ok (is_candidate s x) _ h λ chosen e k.
      on_ok (candidates s xs) _ k λ others f l. keep-Step chosen x xs others e f (ok-injective l)

  candidates-none :
      (xs : List Json) → candidates s xs ≡ ok [] → All (λ y. is_candidate s y ≡ ok false) xs
  candidates-none [] h = tt
  candidates-none (x ∷ xs) h = elim (candidates-Step x xs h) [
    | taken others e f g ↦ absurd (ground arith)
    | dropped e f ↦ (e, candidates-none xs f)
  ]

  tail_equal : {x y : Json} {xs ys : List Json} → x ∷ xs ≡ y ∷ ys → (x ≡ y) × (xs ≡ ys)
  tail_equal h = (cc, cc)

  pub candidates-one :
      (xs : List Json) {b : Json} → candidates s xs ≡ ok (b ∷ []) → Unique (is_candidate s) xs b
  unfolding candidates
  candidates-one [] h = absurd (ground arith)
  candidates-one (x ∷ xs) {b} h = elim (candidates-Step x xs h) [
    | taken others e f g ↦
        let (same, empty) = tail_equal g in
        record {
          before = [];
          after = xs;
          split = ap (λ y. y ∷ xs) same;
          found = subst (λ y. is_candidate s y ≡ ok true) same e;
          none_before = tt;
          none_after = candidates-none xs (f ∙ ap ok empty);
        }
    | dropped e f ↦
        let u = candidates-one xs f in
        record {
          before = x ∷ u.before;
          after = u.after;
          split = ap (λ ys. x ∷ ys) u.split;
          found = u.found;
          none_before = (e, u.none_before);
          none_after = u.none_after;
        }
  ]

  candidates-skip :
      (x : Json) (xs ys : List Json)
      → is_candidate s x ≡ ok false
      → candidates s xs ≡ ok ys
      → candidates s (x ∷ xs) ≡ ok ys
  unfolding candidates ◌>>=◌
  candidates-skip x xs ys e f = rw (e, f)

  none-candidates :
      (xs : List Json) → All (λ y. is_candidate s y ≡ ok false) xs → candidates s xs ≡ ok []
  unfolding candidates
  none-candidates [] h = refl
  none-candidates (x ∷ xs) h = candidates-skip x xs [] h.0 (none-candidates xs h.1)

  pub one-candidates :
      (before after : List Json) (b : Json)
      → All (λ y. is_candidate s y ≡ ok false) before
      → is_candidate s b ≡ ok true
      → All (λ y. is_candidate s y ≡ ok false) after
      → candidates s (before ++ b ∷ after) ≡ ok (b ∷ [])
  unfolding candidates ◌>>=◌
  one-candidates [] after b h e k = rw (e, none-candidates after k)
  one-candidates (x ∷ before) after b h e k =
      candidates-skip x (before ++ b ∷ after) (b ∷ []) h.0 (one-candidates before after b h.1 e k)

-- `item.get("name") == name`
abbrev pub is_named : String → Json → Result Exc Bool
is_named name item = member "name" item >>= λ v. ok (is_text name v)

-- `x` stands in a list, the test is true there and false at the ones before it.
pub record First (test : Json → Result Exc Bool) (xs : List Json) (x : Json) : Type 0 where
  pub before : List Json
  pub after : List Json
  pub split : xs ≡ before ++ x ∷ after
  pub found : test x ≡ ok true
  pub none_before : All (λ y. test y ≡ ok false) before

module _ (name : String) where
  is_named-eq-ok :
      (item : Json) (v : Option Json)
      → member "name" item ≡ ok v
      → is_named name item ≡ ok (is_text name v)
  unfolding ◌>>=◌
  is_named-eq-ok item v h = rw h

  stanza-First :
      (item : Json) (xs : List Json) (v : Option Json) (b : Bool) {x : Json}
      → member "name" item ≡ ok v
      → is_text name v ≡ b
      → (if b then ok (some item) else find_stanza name xs) ≡ ok (some x)
      → (find_stanza name xs ≡ ok (some x) → First (is_named name) xs x)
      → First (is_named name) (item ∷ xs) x
  stanza-First item xs v true {x} e t h rest =
      let same : item ≡ x = ground arith in
      record {
        before = [];
        after = xs;
        split = ap (λ y. y ∷ xs) same;
        found = subst (λ y. is_named name y ≡ ok true) same (is_named-eq-ok item v e ∙ ap ok t);
        none_before = tt;
      }
  stanza-First item xs v false e t h rest =
      let f = rest h in
      record {
        before = item ∷ f.before;
        after = f.after;
        split = ap (λ ys. item ∷ ys) f.split;
        found = f.found;
        none_before = (is_named-eq-ok item v e ∙ ap ok t, f.none_before);
      }

  pub find_stanza-First :
      (xs : List Json) {x : Json} → find_stanza name xs ≡ ok (some x) → First (is_named name) xs x
  unfolding find_stanza
  find_stanza-First [] h = absurd (ground arith)
  find_stanza-First (item ∷ xs) h =
      on_ok (member "name" item) _ h
        λ v e k. stanza-First item xs v (is_text name v) e refl k (find_stanza-First xs)

  -- The member behind a test that returned.
  is_named-Step :
      (item : Json) (xs : List Json) (b : Bool) (answer : Result Exc (Option Json))
      → is_named name item ≡ ok b
      → (if b then ok (some item) else find_stanza name xs) ≡ answer
      → find_stanza name (item ∷ xs) ≡ answer
  unfolding find_stanza ◌>>=◌
  is_named-Step item xs b answer h k =
      on_ok (member "name" item) (λ v. ok (is_text name v)) h λ v e t. rw (e, ok-injective t) k

  First-find_stanza :
      (before after : List Json) (x : Json)
      → is_named name x ≡ ok true
      → All (λ y. is_named name y ≡ ok false) before
      → find_stanza name (before ++ x ∷ after) ≡ ok (some x)
  First-find_stanza [] after x h k = is_named-Step x after true (ok (some x)) h refl
  First-find_stanza (y ∷ before) after x h k =
      is_named-Step y (before ++ x ∷ after) false (ok (some x)) k.0
        (First-find_stanza before after x h k.1)

  pub find_stanza-eq :
      {xs : List Json} {x : Json} → First (is_named name) xs x → find_stanza name xs ≡ ok (some x)
  find_stanza-eq {x} f =
      ap (find_stanza name) f.split ∙ First-find_stanza f.before f.after x f.found f.none_before
