-- ===== src/Common/Select.antt =====
-- `sorted(x for x in xs if p(x))`: what such a list is, by its elements and their order.
use mathlib.Core.Path.{◌≡◌, refl}
use mathlib.Core.Logic.{◌↔◌, inl, inr}
use mathlib.Core.Bool.{Bool, true, false}
use mathlib.Core.List.{List, [], ◌∷◌}
use jobtology_be.Common.Tests.{Bool-cases}
use jobtology_be.Common.Lists.{keep}
use jobtology_be.Common.Sort.{insert_by, sort_by}

module _ {A : Type 0} where
  -- Each element stands at or before its successor.
  abbrev pub Ordered : (A → A → Bool) → List A → Type 0
  Ordered le [] = Unit
  Ordered le (x ∷ []) = Unit
  Ordered le (x ∷ y ∷ ys) = (le x y ≡ true) × Ordered le (y ∷ ys)

  -- Of two elements, one stands before the other.
  abbrev pub IsTotal : (A → A → Bool) → Type 0
  IsTotal le = (x y : A) → le x y ≡ false → le y x ≡ true

  insert_by-Ordered :
      (le : A → A → Bool) (total : IsTotal le) (x : A) (ys : List A)
      → Ordered le ys
      → Ordered le (insert_by le x ys)
  unfolding insert_by
  insert_by-Ordered le total x [] h = tt
  insert_by-Ordered le total x (y ∷ []) h = elim (Bool-cases (le x y)) [
    | inl e ↦ rw (e, insert_by) (e, tt)
    | inr e ↦ rw (e, insert_by) (total x y e, tt)
  ]
  insert_by-Ordered le total x (y ∷ z ∷ zs) h = elim (Bool-cases (le x y)) [
    | inl e ↦ rw (e, insert_by) (e, h)
    | inr e ↦
        let rest = insert_by-Ordered le total x (z ∷ zs) h.1 in
        elim (Bool-cases (le x z)) [
          | inl f ↦ rw (e, insert_by, f) (total x y e, rw (insert_by, f) at rest)
          | inr f ↦ rw (e, insert_by, f) (h.0, rw (insert_by, f) at rest)
        ]
  ]

  sort_by-Ordered :
      (le : A → A → Bool) (total : IsTotal le) (xs : List A) → Ordered le (sort_by le xs)
  unfolding sort_by
  sort_by-Ordered le total [] = tt
  sort_by-Ordered le total (x ∷ xs) =
      insert_by-Ordered le total x (sort_by le xs) (sort_by-Ordered le total xs)

  insert_by_head :
      (le : A → A → Bool) (x : A) (ys : List A) → Ordered le (x ∷ ys) → insert_by le x ys ≡ x ∷ ys
  unfolding insert_by
  insert_by_head le x [] h = refl
  insert_by_head le x (y ∷ ys) h = rw (h.0, insert_by) refl

  Ordered-tail : (le : A → A → Bool) (x : A) (ys : List A) → Ordered le (x ∷ ys) → Ordered le ys
  Ordered-tail le x [] h = tt
  Ordered-tail le x (y ∷ ys) h = h.1

  -- A list that is in order stays as it is.
  pub sort_by_self : (le : A → A → Bool) (xs : List A) → Ordered le xs → sort_by le xs ≡ xs
  unfolding sort_by
  sort_by_self le [] h = refl
  sort_by_self le (x ∷ xs) h =
      rw (sort_by, sort_by_self le xs (Ordered-tail le x xs h)) (insert_by_head le x xs h)

  -- `zs` is `ys` with `x` put in somewhere.
  pub data Inserted (x : A) : List A → List A → Type 0 where
    here : (ys : List A) → Inserted x ys (x ∷ ys)
    later : (y : A) (ys zs : List A) → Inserted x ys zs → Inserted x (y ∷ ys) (y ∷ zs)

  -- `zs` are the elements of `xs` with the property, each as often as it stands there, in some order.
  pub data Picked (P : A → Type 0) : List A → List A → Type 0 where
    nothing_left : Picked P [] []
    pick :
        (x : A) (xs ys zs : List A) → P x → Picked P xs ys → Inserted x ys zs → Picked P (x ∷ xs) zs
    pass : (x : A) (xs zs : List A) → ¬ P x → Picked P xs zs → Picked P (x ∷ xs) zs

  -- Each element stands at or before its successor, in an order that is a relation.
  abbrev pub Sorted : (A → A → Type 0) → List A → Type 0
  Sorted Before [] = Unit
  Sorted Before (x ∷ []) = Unit
  Sorted Before (x ∷ y ∷ ys) = Before x y × Sorted Before (y ∷ ys)

  -- `zs` are the elements of `xs` with the property, in order.
  pub record IsSelection (Before : A → A → Type 0) (P : A → Type 0) (xs zs : List A) : Type 0 where
    pub picked : Picked P xs zs
    pub ordered : Sorted Before zs

  insert_by-Inserted : (le : A → A → Bool) (x : A) (ys : List A) → Inserted x ys (insert_by le x ys)
  unfolding insert_by
  insert_by-Inserted le x [] = here []
  insert_by-Inserted le x (y ∷ ys) = elim (Bool-cases (le x y)) [
    | inl e ↦ rw (e, insert_by) (here (y ∷ ys))
    | inr e ↦ rw (e, insert_by) (later y ys (insert_by le x ys) (insert_by-Inserted le x ys))
  ]

  sort_by-Picked :
      (le : A → A → Bool) (p : A → Bool) (P : A → Type 0)
      → ((x : A) → (p x ≡ true) ↔ P x)
      → (xs : List A) → Picked P xs (sort_by le (keep p xs))
  unfolding sort_by
  sort_by-Picked le p P means [] = nothing_left
  sort_by-Picked le p P means (x ∷ xs) =
      let rest = sort_by-Picked le p P means xs in
      let zs = sort_by le (keep p xs) in
      elim (Bool-cases (p x)) [
        | inl e ↦
            rw (e, sort_by)
              (pick x xs zs (insert_by le x zs) ((means x).0 e) rest (insert_by-Inserted le x zs))
        | inr e ↦ rw e (pass x xs zs (λ h. cc (e, (means x).1 h)) rest)
      ]

  Ordered-Sorted :
      (le : A → A → Bool) (Before : A → A → Type 0)
      → ((x y : A) → le x y ≡ true → Before x y)
      → (xs : List A) → Ordered le xs
      → Sorted Before xs
  Ordered-Sorted le Before means [] h = tt
  Ordered-Sorted le Before means (x ∷ []) h = tt
  Ordered-Sorted le Before means (x ∷ y ∷ ys) h =
      (means x y h.0, Ordered-Sorted le Before means (y ∷ ys) h.1)

  pub sort_by-IsSelection :
      (le : A → A → Bool) (total : IsTotal le) (p : A → Bool) (Before : A → A → Type 0)
      (P : A → Type 0)
      → ((x y : A) → le x y ≡ true → Before x y)
      → ((x : A) → (p x ≡ true) ↔ P x)
      → (xs : List A) → IsSelection Before P xs (sort_by le (keep p xs))
  sort_by-IsSelection le total p Before P order means xs = record {
    picked = sort_by-Picked le p P means xs;
    ordered =
        Ordered-Sorted le Before order (sort_by le (keep p xs))
          (sort_by-Ordered le total (keep p xs));
  }

  -- Where no element has the property, none is picked.
  pub none-IsSelection :
      (Before : A → A → Type 0) (P : A → Type 0)
      → ((x : A) → ¬ P x)
      → (xs : List A) → IsSelection Before P xs []
  none-IsSelection Before P never xs = record { picked = nothing xs; ordered = tt }
    where
      nothing : (ys : List A) → Picked P ys []
      nothing [] = nothing_left
      nothing (y ∷ ys) = pass y ys [] (never y) (nothing ys)
