-- ===== src/Planning/Hint/Sublists.antt =====
-- Slots picked out of the calendar in its order, and the sums over them (for `_add_schedule_hint` of
-- src/jobtology_be/planning/cp_sat_model.py).
use jobtology_be.Common.{
  ℕ, suc, ◌+◌, ◌*◌, ◌≤◌, ◌<◌, ◌≡◌, refl, sym, subst, ◌⊎◌, inl, inr, Bool, false, List, [], ◌∷◌, map,
  keep, elem, ◌==◌, ==_refl, All, All-map, bit, total, total-cong, enumerate, arith, Bool-cases,
}
use jobtology_be.Planning.Calendar.{PlanningSlot}
use jobtology_be.Planning.Hint.{Slot}

abbrev pub index : Slot → ℕ
index e = e.0

-- The list takes its elements from the other one, in its order.
abbrev pub Sub : List Slot → List Slot → Type 0
Sub [] es = Unit
Sub (x ∷ xs) [] = ⊥
Sub (x ∷ xs) (e ∷ es) = ((x ≡ e) × Sub xs es) ⊎ Sub (x ∷ xs) es

pub Sub-later : (e : Slot) (xs es : List Slot) → Sub xs es → Sub xs (e ∷ es)
Sub-later e [] es s = tt
Sub-later e (x ∷ xs) es s = inr s

-- The indices grow.
abbrev pub Rising : List Slot → Type 0
Rising [] = Unit
Rising (e ∷ es) = All (λ x. e.0 < x.0) es × Rising es

pub Sub-All : (P : Slot → Type 0) (xs es : List Slot) → Sub xs es → All P es → All P xs
Sub-All P [] es s h = tt
Sub-All P (x ∷ xs) [] s h = absurd s
Sub-All P (x ∷ xs) (e ∷ es) (inl (p, s)) h = (subst P (sym p) h.0, Sub-All P xs es s h.1)
Sub-All P (x ∷ xs) (e ∷ es) (inr s) h = Sub-All P (x ∷ xs) es s h.1

pub Sub-keep : (p : Slot → Bool) (xs es : List Slot) → Sub xs (keep p es) → Sub xs es
Sub-keep p [] es s = tt
Sub-keep p (x ∷ xs) [] s = absurd s
Sub-keep p (x ∷ xs) (e ∷ es) s = elim (Bool-cases (p e)) [
  | inl t ↦ (elim (let s' : Sub (x ∷ xs) (e ∷ keep p es) = rw t at s in s') [
    | inl (q, r) ↦ inl (q, Sub-keep p xs es r)
    | inr r ↦ inr (Sub-keep p (x ∷ xs) es r)
  ])
  | inr f ↦ inr (Sub-keep p (x ∷ xs) es (rw f at s))
]

pub enumerate-from : (i : ℕ) (ss : List PlanningSlot) → All (λ e. i ≤ e.0) (enumerate i ss)
enumerate-from i [] = tt
enumerate-from i (s ∷ ss) = (
  omega arith,
  All-map (λ e. suc i ≤ e.0) (λ e. i ≤ e.0) (enumerate (suc i) ss) (λ e h. omega arith)
      (enumerate-from (suc i) ss),
)

pub enumerate-Rising : (i : ℕ) (ss : List PlanningSlot) → Rising (enumerate i ss)
enumerate-Rising i [] = tt
enumerate-Rising i (s ∷ ss) = (
  All-map (λ e. suc i ≤ e.0) (λ e. i < e.0) (enumerate (suc i) ss) (λ e h. omega arith)
      (enumerate-from (suc i) ss),
  enumerate-Rising (suc i) ss,
)

-- An index below all others is none of them.
pub not-elem_below :
    (i : ℕ) (xs : List Slot) → All (λ x. i < x.0) xs → elem i (map index xs) ≡ false
not-elem_below i [] h = refl
not-elem_below i (x ∷ xs) h = ground (arith, h.0, not-elem_below i xs h.1)

none_counted : (f : Slot → ℕ) (es : List Slot) → total (λ e. f e * bit false) es ≡ 0
none_counted f [] = refl
none_counted f (e ∷ es) = omega (arith, none_counted f es)

-- Behind a slot, its index counts for nothing.
total-behind :
    (f : Slot → ℕ) (x : Slot) (xs es : List Slot)
    → All (λ e. x.0 < e.0) es
    → total (λ e. f e * bit (elem e.0 (map index (x ∷ xs)))) es
      ≡ total (λ e. f e * bit (elem e.0 (map index xs))) es
total-behind f x xs es h =
    total-cong (λ e. f e * bit (elem e.0 (map index (x ∷ xs))))
      (λ e. f e * bit (elem e.0 (map index xs))) es
      (All-map (λ e. x.0 < e.0)
        (λ e. f e * bit (elem e.0 (map index (x ∷ xs))) ≡ f e * bit (elem e.0 (map index xs))) es
        (λ e lt. let other : (e.0 == x.0) ≡ false = ground (arith, lt) in rw other refl) h)

-- A sum over the calendar that counts the picked slots is the sum over these.
pub total-Sub :
    (f : Slot → ℕ) (xs es : List Slot)
    → Rising es
    → Sub xs es
    → total (λ e. f e * bit (elem e.0 (map index xs))) es ≡ total f xs
total-Sub f [] es r s = none_counted f es
total-Sub f (x ∷ xs) [] r s = absurd s
total-Sub f (x ∷ xs) (e ∷ es) r (inl (p, s)) =
    let at_head = λ (y : Slot).
      total (λ e. f e * bit (elem e.0 (map index (y ∷ xs)))) (e ∷ es) ≡ f y + total f xs in
    subst at_head (sym p)
      (rw (==_refl e.0) (omega (arith, total-behind f e xs es r.0, total-Sub f xs es r.1 s)))
total-Sub f (x ∷ xs) (e ∷ es) r (inr s) =
    let absent = not-elem_below e.0 (x ∷ xs) (Sub-All (λ y. e.0 < y.0) (x ∷ xs) es s r.0) in
    rw absent (omega (arith, total-Sub f (x ∷ xs) es r.1 s))
