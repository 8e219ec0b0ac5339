-- ===== src/Common/Sets.antt =====
-- Sets as lists: the distinct values of a list, and sorted copies of them.
use Prim.Native.Nat.{ℕ}
use mathlib.Core.Path.{◌≡◌, sym, subst}
use mathlib.Core.Logic.{inl, inr}
use mathlib.Core.List.{List, [], ◌∷◌}
use jobtology_be.Common.Tests.{leb, Bool-cases}
use jobtology_be.Common.Lists.{elem, elem→In, not-elem→In, In, IsNodup}
use jobtology_be.Common.Sort.{insert_by, sort_by, sorted, sorted-In}
use jobtology_be.Common.Sums.{distinct}

pub In-distinct : (x : ℕ) (xs : List ℕ) → In x xs → In x (distinct xs)
In-distinct x [] i = i
In-distinct x (y ∷ ys) i = elim (Bool-cases (elem y ys)) [
  | inl e ↦ rw e (
      In-distinct x ys (elim i [
        | inl same ↦ subst (λ k. In k ys) (sym same) (elem→In y ys e)
        | inr later ↦ later
      ]))
  | inr e ↦ rw e (elim i [ inl same ↦ inl same | inr later ↦ inr (In-distinct x ys later) ])
]

pub distinct-In : (x : ℕ) (xs : List ℕ) → In x (distinct xs) → In x xs
distinct-In x [] i = i
distinct-In x (y ∷ ys) i = elim (Bool-cases (elem y ys)) [
  | inl e ↦ inr (distinct-In x ys (rw e at i))
  | inr e ↦
      let here : In x (y ∷ distinct ys) = rw e at i in
      (elim here [ inl same ↦ inl same | inr later ↦ inr (distinct-In x ys later) ])
]

pub distinct-IsNodup : (xs : List ℕ) → IsNodup (distinct xs)
distinct-IsNodup [] = tt
distinct-IsNodup (x ∷ xs) = elim (Bool-cases (elem x xs)) [
  | inl e ↦ rw e (distinct-IsNodup xs)
  | inr e ↦ rw e ((λ i. not-elem→In x xs e (distinct-In x xs i)), distinct-IsNodup xs)
]

insert-new : (x y : ℕ) (ys : List ℕ) → ¬ (y ≡ x) → ¬ In y ys → ¬ In y (insert_by leb x ys)
unfolding insert_by
insert-new x y [] ne h (inl e) = ne e
insert-new x y [] ne h (inr i) = absurd i
insert-new x y (z ∷ zs) ne h i = elim (Bool-cases (leb x z)) [
  | inl e ↦
      let front : In y (x ∷ z ∷ zs) = rw (e, insert_by) at i in
      (elim front [ inl same ↦ ne same | inr later ↦ h later ])
  | inr e ↦
      let behind : In y (z ∷ insert_by leb x zs) = rw (e, insert_by) at i in
      (elim behind [
        | inl same ↦ h (inl same)
        | inr later ↦ insert-new x y zs ne (λ k. h (inr k)) later
      ])
]

insert-IsNodup : (x : ℕ) (ys : List ℕ) → ¬ In x ys → IsNodup ys → IsNodup (insert_by leb x ys)
unfolding insert_by
insert-IsNodup x [] h n = (h, n)
insert-IsNodup x (y ∷ ys) h n = elim (Bool-cases (leb x y)) [
  | inl e ↦ rw (e, insert_by) (h, n)
  | inr e ↦
      rw (e, insert_by)
        (
          insert-new x y ys (λ same. h (inl (sym same))) n.0,
          insert-IsNodup x ys (λ i. h (inr i)) n.1,
        )
]

pub sorted-IsNodup : (xs : List ℕ) → IsNodup xs → IsNodup (sorted xs)
unfolding sorted sort_by
sorted-IsNodup [] n = tt
sorted-IsNodup (x ∷ xs) n =
    insert-IsNodup x (sorted xs) (λ i. n.0 (sorted-In x xs i)) (sorted-IsNodup xs n.1)
