-- ===== src/Prelude/Sorted.antt =====
-- Python's `sorted(xs, key=..., reverse=...)` over a number: a stable sort in both directions.
use Prim.Native.Nat.{ℕ, ◌≤◌}
use mathlib.Core.Logic.{inl, inr}
use mathlib.Core.List.{List, [], ◌∷◌, Perm}
use mathlib.Core.List.Perm
use native.Mathlib.Omega.{arith}
use liqi_platform.Prelude.Tests.{leb, if◌then◌else◌, Bool-cases}
use liqi_platform.Prelude.Lists.{All}

module _ {ℓ} {A : Type ℓ} (key : A → ℕ) where
  -- `x` goes in front of its equals: the sort inserts from the right.
  unfoldable pub insert_by : A → List A → List A
  insert_by x [] = x ∷ []
  insert_by x (y ∷ ys) =
      let rest = insert_by x ys in if leb (key x) (key y) then x ∷ y ∷ ys else y ∷ rest

  unfoldable pub sort_by : List A → List A
  unfolding insert_by
  sort_by [] = []
  sort_by (x ∷ xs) = insert_by x (sort_by xs)

  unfoldable pub insert_down : A → List A → List A
  insert_down x [] = x ∷ []
  insert_down x (y ∷ ys) =
      let rest = insert_down x ys in if leb (key y) (key x) then x ∷ y ∷ ys else y ∷ rest

  -- `reverse=True` keeps the order of equal keys.
  unfoldable pub sort_down : List A → List A
  unfolding insert_down
  sort_down [] = []
  sort_down (x ∷ xs) = insert_down x (sort_down xs)

  abbrev pub IsSortedBy : List A → Type 0
  IsSortedBy [] = Unit
  IsSortedBy (x ∷ xs) = All (λ y. key x ≤ key y) xs × IsSortedBy xs

  abbrev pub IsSortedDown : List A → Type 0
  IsSortedDown [] = Unit
  IsSortedDown (x ∷ xs) = All (λ y. key y ≤ key x) xs × IsSortedDown xs

  insert_by-perm : (x : A) (ys : List A) → Perm (insert_by x ys) (x ∷ ys)
  unfolding insert_by
  insert_by-perm x [] = Perm.refl (x ∷ [])
  insert_by-perm x (y ∷ ys) = elim (Bool-cases (leb (key x) (key y))) [
    | inl e ↦ rw (e, insert_by) (Perm.refl (x ∷ y ∷ ys))
    | inr e ↦ rw e (Perm.trans (Perm.cons y (insert_by-perm x ys)) (Perm.swap x y ys))
  ]

  pub sort_by-perm : (xs : List A) → Perm (sort_by xs) xs
  unfolding sort_by
  sort_by-perm [] = Perm.refl []
  sort_by-perm (x ∷ xs) = Perm.trans (insert_by-perm x (sort_by xs)) (Perm.cons x (sort_by-perm xs))

  insert_down-perm : (x : A) (ys : List A) → Perm (insert_down x ys) (x ∷ ys)
  unfolding insert_down
  insert_down-perm x [] = Perm.refl (x ∷ [])
  insert_down-perm x (y ∷ ys) = elim (Bool-cases (leb (key y) (key x))) [
    | inl e ↦ rw (e, insert_down) (Perm.refl (x ∷ y ∷ ys))
    | inr e ↦ rw e (Perm.trans (Perm.cons y (insert_down-perm x ys)) (Perm.swap x y ys))
  ]

  pub sort_down-perm : (xs : List A) → Perm (sort_down xs) xs
  unfolding sort_down
  sort_down-perm [] = Perm.refl []
  sort_down-perm (x ∷ xs) =
      Perm.trans (insert_down-perm x (sort_down xs)) (Perm.cons x (sort_down-perm xs))

  All-insert_by {κ} :
      (P : A → Type κ) (x : A) (ys : List A) → P x → All P ys → All P (insert_by x ys)
  unfolding insert_by
  All-insert_by P x [] px h = (px, tt)
  All-insert_by P x (y ∷ ys) px h = elim (Bool-cases (leb (key x) (key y))) [
    | inl e ↦ rw e (px, h)
    | inr e ↦ rw e (h.0, All-insert_by P x ys px h.1)
  ]

  All-insert_down {κ} :
      (P : A → Type κ) (x : A) (ys : List A) → P x → All P ys → All P (insert_down x ys)
  unfolding insert_down
  All-insert_down P x [] px h = (px, tt)
  All-insert_down P x (y ∷ ys) px h = elim (Bool-cases (leb (key y) (key x))) [
    | inl e ↦ rw e (px, h)
    | inr e ↦ rw e (h.0, All-insert_down P x ys px h.1)
  ]

  below-All :
      (x y : A) (ys : List A)
      → key x ≤ key y
      → All (λ z. key y ≤ key z) ys
      → All (λ z. key x ≤ key z) ys
  below-All x y [] h a = tt
  below-All x y (z ∷ ys) h a = (omega arith, below-All x y ys h a.1)

  above-All :
      (x y : A) (ys : List A)
      → key y ≤ key x
      → All (λ z. key z ≤ key y) ys
      → All (λ z. key z ≤ key x) ys
  above-All x y [] h a = tt
  above-All x y (z ∷ ys) h a = (omega arith, above-All x y ys h a.1)

  insert_by-IsSortedBy : (x : A) (ys : List A) → IsSortedBy ys → IsSortedBy (insert_by x ys)
  unfolding insert_by
  insert_by-IsSortedBy x [] h = (tt, tt)
  insert_by-IsSortedBy x (y ∷ ys) h = elim (Bool-cases (leb (key x) (key y))) [
    | inl e ↦ rw e ((ground arith, below-All x y ys (ground arith) h.0), h)
    | inr e ↦
        rw e (
          All-insert_by (λ z. key y ≤ key z) x ys (ground arith) h.0,
          insert_by-IsSortedBy x ys h.1,
        )
  ]

  insert_down-IsSortedDown :
      (x : A) (ys : List A) → IsSortedDown ys → IsSortedDown (insert_down x ys)
  unfolding insert_down
  insert_down-IsSortedDown x [] h = (tt, tt)
  insert_down-IsSortedDown x (y ∷ ys) h = elim (Bool-cases (leb (key y) (key x))) [
    | inl e ↦ rw e ((ground arith, above-All x y ys (ground arith) h.0), h)
    | inr e ↦ rw e (
      All-insert_down (λ z. key z ≤ key y) x ys (ground arith) h.0,
      insert_down-IsSortedDown x ys h.1,
    )
  ]

  pub sort_by-IsSortedBy : (xs : List A) → IsSortedBy (sort_by xs)
  unfolding sort_by
  sort_by-IsSortedBy [] = tt
  sort_by-IsSortedBy (x ∷ xs) = insert_by-IsSortedBy x (sort_by xs) (sort_by-IsSortedBy xs)

  pub sort_down-IsSortedDown : (xs : List A) → IsSortedDown (sort_down xs)
  unfolding sort_down
  sort_down-IsSortedDown [] = tt
  sort_down-IsSortedDown (x ∷ xs) =
      insert_down-IsSortedDown x (sort_down xs) (sort_down-IsSortedDown xs)
