-- ===== src/Planning/Hint/Capacity.antt =====
-- Slots that stay within the weekly hours are no more than the capacity that `_available_capacity`
-- (src/jobtology_be/planning/cp_sat_model.py) counts.
use jobtology_be.Common.{
  ℕ, ◌≤◌, ◌≡◌, refl, sym, subst, inl, inr, true, List, [], ◌∷◌, map, keep, elem, elem→In,
  not-elem→In, ◌==◌, ==_iff, All, All-map, In, length, bit, total, total-add, total-le, total_zero,
  distinct, occurrences, min, arith, Bool-cases, In-All,
}
use jobtology_be.Planning.Templates.{Candidate}
use jobtology_be.Planning.Problem.{PlanningProblem}
use jobtology_be.Planning.Route.{
  is_available, availability_of, slots_of, week_of_slot, capped_hours, available_capacity,
}
use jobtology_be.Planning.Hint.{Slot, chosen_for}
use jobtology_be.Planning.Hint.Sublists.{Sub, Sub-All}
use jobtology_be.Planning.Hint.Totals.{total-Sub_le, keep-Sub}
use jobtology_be.Planning.Hint.Invariant.{Allocations}

absent_distinct : (x : ℕ) (ws : List ℕ) → ¬ In x ws → total (λ w. bit (x == w)) (distinct ws) ≡ 0
absent_distinct x [] h = refl
absent_distinct x (y ∷ ys) h =
    let rest = absent_distinct x ys (λ i. h (inr i)) in
    elim (Bool-cases (elem y ys)) [
      | inl e ↦ rw e rest
      | inr e ↦ elim (Bool-cases (x == y)) [
        | inl t ↦ absurd (h (inl ((==_iff x y).0 t)))
        | inr t ↦ rw (e, t) (omega (arith, rest))
      ]
    ]

once_distinct : (x : ℕ) (ws : List ℕ) → In x ws → total (λ w. bit (x == w)) (distinct ws) ≡ 1
once_distinct x [] h = absurd h
once_distinct x (y ∷ ys) h = elim (Bool-cases (elem y ys)) [
  | inl e ↦
      let behind : In x ys = elim h [
        | inl same ↦ subst (λ k. In k ys) (sym same) (elem→In y ys e)
        | inr later ↦ later
      ] in
      rw e (once_distinct x ys behind)
  | inr e ↦ elim (Bool-cases (x == y)) [
    | inl t ↦
        let gone =
          absent_distinct x ys
            (λ i. not-elem→In y ys e (subst (λ k. In k ys) ((==_iff x y).0 t) i)) in
        rw (e, t) (omega (arith, gone))
    | inr t ↦ elim h [
      | inl same ↦ absurd (cc ((==_iff x y).1 same, t))
      | inr later ↦ rw (e, t) (omega (arith, once_distinct x ys later))
    ]
  ]
]

abbrev pub in_week : ℕ → List Slot → ℕ
in_week w xs = total (λ e. bit (week_of_slot e == w)) xs

-- Slots are counted by their weeks.
by_weeks :
    (ds : List ℕ) (xs : List Slot)
    → All (λ e. total (λ w. bit (week_of_slot e == w)) ds ≡ 1) xs
    → length xs ≡ total (λ w. in_week w xs) ds
by_weeks ds [] h = sym (total_zero ds)
by_weeks ds (x ∷ xs) h = omega (
  arith,
  h.0,
  by_weeks ds xs h.1,
  total-add (λ w. bit (week_of_slot x == w)) (λ w. in_week w xs) ds,
)

weeks_in : (es : List Slot) → All (λ e. In (week_of_slot e) (map week_of_slot es)) es
weeks_in [] = tt
weeks_in (e ∷ es) = (
  inl refl,
  All-map (λ u. In (week_of_slot u) (map week_of_slot es))
      (λ u. In (week_of_slot u) (week_of_slot e ∷ map week_of_slot es)) es (λ u i. inr i)
      (weeks_in es),
)

occurrences-map : (w : ℕ) (es : List Slot) → occurrences w (map week_of_slot es) ≡ in_week w es
occurrences-map w [] = refl
occurrences-map w (e ∷ es) = omega (arith, occurrences-map w es)

pub within_capped :
    (limit : ℕ) (xs es : List Slot)
    → Sub xs es
    → ((w : ℕ) → in_week w xs ≤ limit)
    → length xs ≤ capped_hours limit (map week_of_slot es)
unfolding capped_hours
within_capped limit xs es s h =
    let weeks = map week_of_slot es in
    let counted = by_weeks (distinct weeks) xs (
      All-map (λ e. In (week_of_slot e) weeks)
        (λ e. total (λ w. bit (week_of_slot e == w)) (distinct weeks) ≡ 1) xs
        (λ e i. once_distinct (week_of_slot e) weeks i)
        (Sub-All (λ e. In (week_of_slot e) weeks) xs es s (weeks_in es))) in
    let each =
      total-le (λ w. in_week w xs) (λ w. min (occurrences w weeks) limit) (distinct weeks)
        (In-All (λ w. in_week w xs ≤ min (occurrences w weeks) limit) (distinct weeks)
          (λ w i. omega (
            arith,
            h w,
            occurrences-map w es,
            total-Sub_le (λ e. bit (week_of_slot e == w)) xs es s,
          ))) in
    omega (arith, counted, each)

-- Available slots of the calendar that stay within the weekly hours are within the capacity.
pub within_capacity :
    (p : PlanningProblem) (c : Candidate) (xs : List Slot)
    → Sub xs (slots_of p)
    → All (λ e. is_available e.1 (availability_of p c.action_id) ≡ true) xs
    → ((w : ℕ) → in_week w xs ≤ p.constraints.available_hours_per_week)
    → length xs ≤ available_capacity p c
unfolding available_capacity
within_capacity p c xs s h k =
    within_capped p.constraints.available_hours_per_week xs
      (keep (λ e. is_available e.1 (availability_of p c.action_id)) (slots_of p))
      (keep-Sub (λ e. is_available e.1 (availability_of p c.action_id)) xs (slots_of p) s h) k

-- What one action makes of its slots is part of what all make.
pub chosen_for-le :
    (f : List Slot → ℕ) (a : ℕ) (xs : Allocations)
    → f [] ≡ 0
    → f (chosen_for a xs) ≤ total (λ x. f x.1) xs
chosen_for-le f a [] z = omega (arith, z)
chosen_for-le f a (x ∷ xs) z = elim (Bool-cases (x.0 == a)) [
  | inl e ↦ rw e (omega arith)
  | inr e ↦ rw e (omega (arith, chosen_for-le f a xs z))
]
