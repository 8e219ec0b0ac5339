-- ===== src/Planning/Route/Priorities.antt =====
-- What the objective of the route model prefers (`_add_objective` of
-- src/jobtology_be/planning/cp_sat_model.py).
use native.Mathlib.Nat.{div-le_of_le-mul, mul-le-mul_left, mul-add}
use jobtology_be.Common.{
  ℕ, ◌+◌, ◌-◌, ◌*◌, ◌≤◌, ◌<◌, ◌≡◌, inl, inr, Bool, true, false, not, List, [], ◌∷◌, keep-All, elem,
  ◌==◌, if◌then◌else◌, All-map, length, bit, total, total-le, arith, Bool-cases,
}
use jobtology_be.Editorial.{is_empty}
use jobtology_be.Planning.Templates.{Candidate}
use jobtology_be.Planning.Problem.{
  PlanningProblem, BudgetMode, regular, low_cost, weights, objective_snapshot,
}
use jobtology_be.Planning.Route.{slots_of, Values, covered, Satisfies}
use jobtology_be.Planning.Route.Objective.{
  points, covered_count, coverage_points, time_points, cost_points, weighted_points, primary_score,
  foundations, early_foundation_hours, foundation_points, objective, unknown_selected,
}

points_le : (part whole : ℕ) → part ≤ whole → points part whole ≤ 10000
unfolding points
points_le part whole h = elim (Bool-cases (whole == 0)) [
  | inl e ↦ rw e (omega arith)
  | inr e ↦ rw e (div-le_of_le-mul whole (omega (arith, h)))
]

covered_count_le :
    (cs : List Candidate) (v : Values) (keys : List ℕ) → covered_count cs v keys ≤ length keys
covered_count_le cs v [] = omega arith
covered_count_le cs v (k ∷ ks) = elim (Bool-cases (covered cs v k)) [
  | inl e ↦ rw e (omega (arith, covered_count_le cs v ks))
  | inr e ↦ rw e (omega (arith, covered_count_le cs v ks))
]

weighted_le :
    (mode : BudgetMode) (fast : Bool) (a b c : ℕ)
    → a ≤ 10000
    → b ≤ 10000
    → c ≤ 10000
    → (let w = weights mode fast in w.0 * a + w.1 * b + w.2 * c) ≤ 1000000
unfolding weights
weighted_le regular false a b c h k l = omega arith
weighted_le regular true a b c h k l = omega arith
weighted_le low_cost false a b c h k l = omega arith
weighted_le low_cost true a b c h k l = omega arith

-- A slot counts for at most the number of slots.
early_le :
    {A : Type 0} (n : ℕ) (g : A → ℕ) (f : A → Bool) (es : List A)
    → total (λ e. (n - g e) * bit (f e)) es ≤ n * total (λ e. bit (f e)) es
early_le n g f [] = omega arith
early_le n g f (e ∷ es) =
    let rest = early_le n g f es in
    elim (Bool-cases (f e)) [
      | inl t ↦ rw (t, mul-add n 1 (total (λ u. bit (f u)) es)) (omega (arith, rest))
      | inr t ↦ rw t (omega (arith, rest))
    ]

pub total-mul :
    {A : Type 0} (n : ℕ) (f : A → ℕ) (xs : List A) → total (λ x. n * f x) xs ≡ n * total f xs
total-mul n f [] = omega arith
total-mul n f (x ∷ xs) = rw (mul-add n (f x) (total f xs)) (omega (arith, total-mul n f xs))

module _ (p : PlanningProblem) (cs : List Candidate) where
  weighted_points_le : (v : Values) → weighted_points p cs v ≤ 1000000
  unfolding weighted_points coverage_points time_points cost_points objective_snapshot
  weighted_points_le v =
      weighted_le p.constraints.budget_mode p.constraints.fastest_path (coverage_points p cs v)
        (time_points p cs v) (cost_points p cs v)
        (points_le (covered_count cs v p.preferred_requirement_keys)
          (length p.preferred_requirement_keys)
          (covered_count_le cs v p.preferred_requirement_keys))
        (points_le _ (objective_snapshot p).horizon_microseconds (omega arith))
        (points_le _ (objective_snapshot p).known_cost_upper_bound_krw
          (credit (unknown_selected cs v) _ _))
    where
      credit : (b : Bool) (upper spend : ℕ) → (if b then 0 else upper - spend) ≤ upper
      credit true upper spend = omega arith
      credit false upper spend = omega arith

  foundation_points_le :
      (require : Bool) (v : Values) → Satisfies p cs require v → foundation_points p cs v ≤ 10000
  unfolding foundation_points
  foundation_points_le require v s =
      let n = length p.calendar in
      let early =
        λ (c : Candidate). total (λ e. (n - e.0) * bit (v.assigned c.action_id e.0)) (slots_of p) in
      points_le (early_foundation_hours p cs v)
        (n * total (λ c. c.estimated_hours) (foundations p cs))
        (omega (
          arith,
          total-le early (λ c. n * c.estimated_hours) (foundations p cs)
              (keep-All (λ c. early c ≤ n * c.estimated_hours)
                (λ c. elem c.action_id p.foundational_priority_action_ids) cs
                (All-map
                  (λ c.
                    total (λ e. bit (v.assigned c.action_id e.0)) (slots_of p)
                    ≡ c.estimated_hours * bit (v.selected c.action_id))
                  (λ c. early c ≤ n * c.estimated_hours) cs within s.hours_assigned)),
          total-mul n (λ c. c.estimated_hours) (foundations p cs),
        ))
    where
      at_most : (hours : ℕ) (b : Bool) → hours * bit b ≤ hours
      at_most hours true = omega arith
      at_most hours false = omega arith

      within :
          (c : Candidate)
          → total (λ e. bit (v.assigned c.action_id e.0)) (slots_of p)
            ≡ c.estimated_hours * bit (v.selected c.action_id)
          → total (λ e. (length p.calendar - e.0) * bit (v.assigned c.action_id e.0)) (slots_of p)
            ≤ length p.calendar * c.estimated_hours
      within c e =
          let bound =
            early_le (length p.calendar) (λ u. u.0) (λ u. v.assigned c.action_id u.0)
              (slots_of p) in
          let most = at_most c.estimated_hours (v.selected c.action_id) in
          let scaled = mul-le-mul_left (length p.calendar) (
            let le : total (λ u. bit (v.assigned c.action_id u.0)) (slots_of p)
                ≤ c.estimated_hours =
              omega (arith, e, most) in
            le) in
          omega (arith, bound, scaled)

  -- Of two routes, of which the worse one keeps the constraints: the objective of the partial model
  -- prefers the one that covers more required requirements, whatever the weighted score is; and the
  -- objective prefers the one with the higher primary score, whatever the foundations' hours are.
  pub objective-IsOrdered :
      (reward : Bool) (v w : Values)
      → Satisfies p cs (not reward) v
      → (reward ≡ true
          → covered_count cs v p.required_requirement_keys
            < covered_count cs w p.required_requirement_keys
          → objective p cs reward v < objective p cs reward w)
        × (primary_score p cs reward v < primary_score p cs reward w
            → objective p cs reward v < objective p cs reward w)
  unfolding objective
  objective-IsOrdered reward v w s = ((λ e lt. by_primary (more reward e lt)), by_primary)
    where
      by_primary :
          primary_score p cs reward v < primary_score p cs reward w
          → objective p cs reward v < objective p cs reward w
      by_primary lt = elim (Bool-cases (is_empty (foundations p cs))) [
        | inl none_given ↦ rw none_given lt
        | inr some_given ↦ rw some_given (omega (arith, lt, foundation_points_le (not reward) v s))
      ]

      more :
          (b : Bool)
          → b ≡ true
          → covered_count cs v p.required_requirement_keys
            < covered_count cs w p.required_requirement_keys
          → primary_score p cs b v < primary_score p cs b w
      more true e lt = omega (arith, lt, weighted_points_le v)
      more false e lt = absurd (cc e)
