-- ===== src/Common/Sort.antt =====
-- Python's `sorted(xs, key=…)` as a stable insertion sort by a Boolean order.
use Prim.Native.Nat.{ℕ}
use mathlib.Core.Logic.{inl, inr}
use mathlib.Core.Bool.{Bool}
use mathlib.Core.List.{List, [], ◌∷◌}
use jobtology_be.Common.Tests.{leb, if◌then◌else◌, Bool-cases}
use jobtology_be.Common.Lists.{All, All-In, In, In-All}

module _ {ℓ} {A : Type ℓ} where
  unfoldable pub insert_by : (A → A → Bool) → A → List A → List A
  insert_by le x [] = x ∷ []
  insert_by le x (y ∷ ys) = let rest = insert_by le x ys in if le x y then x ∷ y ∷ ys else y ∷ rest

  unfoldable pub sort_by : (A → A → Bool) → List A → List A
  unfolding insert_by
  sort_by le [] = []
  sort_by le (x ∷ xs) = insert_by le x (sort_by le xs)

module _ {ℓ} {A : Type ℓ} where
  insert_by-All :
      (P : A → Type 0) (le : A → A → Bool) (x : A) (xs : List A)
      → P x
      → All P xs
      → All P (insert_by le x xs)
  unfolding insert_by
  insert_by-All P le x [] p h = (p, tt)
  insert_by-All P le x (y ∷ ys) p h = elim (Bool-cases (le x y)) [
    | inl e ↦ rw (e, insert_by) (p, h)
    | inr e ↦ rw (e, insert_by) (h.0, insert_by-All P le x ys p h.1)
  ]

  -- What every element has, every element of the sorted list has.
  pub sort_by-All :
      (P : A → Type 0) (le : A → A → Bool) (xs : List A) → All P xs → All P (sort_by le xs)
  unfolding sort_by
  sort_by-All P le [] h = tt
  sort_by-All P le (x ∷ xs) h = insert_by-All P le x (sort_by le xs) h.0 (sort_by-All P le xs h.1)

  insert_by-All_inv :
      (P : A → Type 0) (le : A → A → Bool) (x : A) (xs : List A)
      → All P (insert_by le x xs)
      → P x × All P xs
  unfolding insert_by
  insert_by-All_inv P le x [] h = h
  insert_by-All_inv P le x (y ∷ ys) h = elim (Bool-cases (le x y)) [
    | inl e ↦ (rw (e, insert_by) at h)
    | inr e ↦
        let t : P y × All P (insert_by le x ys) = rw (e, insert_by) at h in
        let r = insert_by-All_inv P le x ys t.1 in (r.0, (t.0, r.1))
  ]

  -- And the other way round: sorting loses no element.
  pub sort_by-All_inv :
      (P : A → Type 0) (le : A → A → Bool) (xs : List A) → All P (sort_by le xs) → All P xs
  unfolding sort_by
  sort_by-All_inv P le [] h = tt
  sort_by-All_inv P le (x ∷ xs) h =
      let r = insert_by-All_inv P le x (sort_by le xs) h in (r.0, sort_by-All_inv P le xs r.1)

-- `sorted(xs)` of identifiers.
unfoldable pub sorted : List ℕ → List ℕ
unfolding sort_by
sorted = sort_by leb

pub In-sorted : (x : ℕ) (xs : List ℕ) → In x xs → In x (sorted xs)
unfolding sorted
In-sorted x xs h =
    All-In (λ y. In y (sort_by leb xs)) xs
      (sort_by-All_inv (λ y. In y (sort_by leb xs)) leb xs
        (In-All (λ y. In y (sort_by leb xs)) (sort_by leb xs) (λ y i. i)))
      x h

pub sorted-In : (x : ℕ) (xs : List ℕ) → In x (sorted xs) → In x xs
unfolding sorted
sorted-In x xs h =
    All-In (λ y. In y xs) (sort_by leb xs)
      (sort_by-All (λ y. In y xs) leb xs (In-All (λ y. In y xs) xs (λ y i. i))) x h

pub All-sorted : (P : ℕ → Type 0) (xs : List ℕ) → All P xs → All P (sorted xs)
unfolding sorted
All-sorted P xs h = sort_by-All P leb xs h
