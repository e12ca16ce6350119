-- ===== src/Readiness/Assignments.antt =====
-- operations/bin/compose_readiness_v1.py: `parse_assignments` reads back what is written as name=path.
use Prim.Native.Char.{code}
use text.Mathlib.TextLemmas.{nil-append, cons-append}
use mathlib.Core.List.{append-nil, append_assoc}
use liqi_platform.Prelude.{
  String, ◌<>◌, Bool, true, false, not, ◌&&◌, ◌||◌, and-parts, some, List, [], ◌∷◌, ◌++◌, map, All,
  contains, string_eq, ◌==◌, ◌≡◌, refl, ap, sym, ◌∙◌, nat_beq, arith, ok, Bool-cases, inl, inr,
}
use liqi_platform.Prelude.Texts.{cut, suffix}
use liqi_platform.Readiness.Composition.{find}
use liqi_platform.Readiness.Summary.{
  Paths, is_blank, is_known, assign, parse_from, parse_assignments,
}

-- No character is the sign that ends a name.
abbrev pub has_no_sign : String → Bool
has_no_sign String.[] = true
has_no_sign (String.◌∷◌ c s) = not (nat_beq 61 (code c)) && has_no_sign s

-- A name and a path that can be written.
abbrev pub can_write : String × String → Bool
can_write (name, raw) = has_no_sign name && (not (is_blank name) && not (is_blank raw))

abbrev pub written : String × String → String
written (name, raw) = name <> ("=" <> raw)

abbrev pub names_of : List (String × String) → List String
names_of ms = map (λ m. m.0) ms

abbrev pub all_distinct : List String → Bool
all_distinct [] = true
all_distinct (n ∷ ns) = not (contains ns n) && all_distinct ns

not-true : (b : Bool) → not b ≡ true → b ≡ false
not-true true h = absurd (ground arith)
not-true false h = refl

or-parts : (a b : Bool) → a || b ≡ false → (a ≡ false) × (b ≡ false)
or-parts true b h = absurd (ground arith)
or-parts false b h = (refl, h)

cut-written :
    (name raw : String)
    → has_no_sign name ≡ true
    → cut "=" (name <> ("=" <> raw)) ≡ some (name, raw)
unfolding cut suffix
cut-written String.[] raw h = rw (nil-append ("=" <> raw), cons-append "=" "" raw, nil-append raw)
cut-written (String.◌∷◌ c s) raw h =
    let (d, e) = and-parts (not (nat_beq 61 (code c))) (has_no_sign s) h in
    rw (cons-append c s ("=" <> raw), cut-written s raw e, not-true (nat_beq 61 (code c)) d)

-- No name of the pairs is in the dictionary yet.
abbrev Fresh : Paths → List (String × String) → Type 0
Fresh seen ms = All (λ (m : String × String). is_known (find m.0 seen) ≡ false) ms

find-append :
    (n k p : String) (seen : Paths)
    → is_known (find n seen) ≡ false
    → (k == n) ≡ false
    → is_known (find n (seen ++ (k, p) ∷ [])) ≡ false
find-append n k p [] h e = rw e
find-append n k p ((j, v) ∷ seen) h e = elim (Bool-cases (j == n)) [
  | inl y ↦ absurd (ground arith)
  | inr z ↦ rw z (find-append n k p seen (rw z at h) e)
]

Fresh-append :
    (k p : String) (seen : Paths) (ms : List (String × String))
    → Fresh seen ms
    → contains (names_of ms) k ≡ false
    → Fresh (seen ++ (k, p) ∷ []) ms
Fresh-append k p seen [] f h = tt
Fresh-append k p seen (m ∷ ms) f h =
    let (a, b) = or-parts (k == m.0) (contains (names_of ms) k) h in
    (find-append m.0 k p seen f.0 a, Fresh-append k p seen ms f.1 b)

module _ (resolve : String → String) (label : String) where
  abbrev resolved : List (String × String) → Paths
  resolved ms = map (λ m. (m.0, resolve m.1)) ms

  assign-written :
      (seen : Paths) (m : String × String)
      → can_write m ≡ true
      → is_known (find m.0 seen) ≡ false
      → assign resolve label seen (written m) (cut "=" (written m))
        ≡ ok (seen ++ (m.0, resolve m.1) ∷ [])
  unfolding assign
  assign-written seen m c k =
      let (sign, filled) =
        and-parts (has_no_sign m.0) (not (is_blank m.0) && not (is_blank m.1)) c in
      let (a, b) = and-parts (not (is_blank m.0)) (not (is_blank m.1)) filled in
      rw (cut-written m.0 m.1 sign, not-true (is_blank m.0) a, not-true (is_blank m.1) b, k)

  parse_from-written :
      (seen : Paths) (ms : List (String × String))
      → All (λ m. can_write m ≡ true) ms
      → all_distinct (names_of ms) ≡ true
      → Fresh seen ms
      → parse_from resolve label seen (map written ms) ≡ ok (seen ++ resolved ms)
  unfolding parse_from
  parse_from-written seen [] a d f = ap ok (sym (append-nil seen))
  parse_from-written seen (m ∷ ms) a d f =
      let (d0, d1) = and-parts (not (contains (names_of ms) m.0)) (all_distinct (names_of ms)) d in
      let fresh =
        Fresh-append m.0 (resolve m.1) seen ms f.1 (not-true (contains (names_of ms) m.0) d0) in
      rw (assign-written seen m a.0 f.0) (
        parse_from-written (seen ++ (m.0, resolve m.1) ∷ []) ms a.1 d1 fresh
        ∙ ap ok (append_assoc seen ((m.0, resolve m.1) ∷ []) (resolved ms)))

  Fresh-nil : (ms : List (String × String)) → Fresh [] ms
  Fresh-nil [] = tt
  Fresh-nil (m ∷ ms) = (refl, Fresh-nil ms)

  -- Arguments that are written as name=path, where no name has the sign, none is empty and no name occurs
  -- twice, are read back as the names and the resolved paths, in their order.
  pub parse_assignments-written :
      (ms : List (String × String))
      → All (λ m. can_write m ≡ true) ms
      → all_distinct (names_of ms) ≡ true
      → parse_assignments resolve label (map written ms) ≡ ok (resolved ms)
  unfolding parse_assignments
  parse_assignments-written ms a d = parse_from-written [] ms a d (Fresh-nil ms)
