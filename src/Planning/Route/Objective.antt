-- ===== src/Planning/Route/Objective.antt =====
-- The objective of the route model (`_add_objective`, `_coverage_points`, `_cost_points` and
-- `_unknown_selected` of src/jobtology_be/planning/cp_sat_model.py), as a function of the variables' values.
-- A variable that an equation fixes is its value.
use jobtology_be.Common.{
  ℕ, ◌+◌, ◌-◌, ◌*◌, ◌/◌, Bool, true, false, ◌&&◌, List, keep, any, elem, ◌==◌, if◌then◌else◌,
  length, bit, total,
}
use jobtology_be.Editorial.{is_empty}
use jobtology_be.Planning.Templates.{Candidate}
use jobtology_be.Planning.Problem.{PlanningProblem, known_cost, objective_snapshot}
use jobtology_be.Planning.Route.{is_unknown, slots_of, Values, covered, route_completion}

-- `NORMALIZED_SCORE_MAXIMUM`
abbrev pub normalized_score_maximum : ℕ
normalized_score_maximum = 10000

-- `PARTIAL_REQUIRED_COVERAGE_WEIGHT`
abbrev pub partial_required_coverage_weight : ℕ
partial_required_coverage_weight = 1000001

-- `add_division_equality(points, part * NORMALIZED_SCORE_MAXIMUM, whole)`
unfoldable pub points : ℕ → ℕ → ℕ
points part whole = if whole == 0 then 0 else part * normalized_score_maximum / whole

-- The sum of the covered variables of some requirements.
abbrev pub covered_count : List Candidate → Values → List ℕ → ℕ
covered_count cs v keys = total (λ k. bit (covered cs v k)) keys

-- `_coverage_points`
unfoldable pub coverage_points : PlanningProblem → List Candidate → Values → ℕ
unfolding points
coverage_points p cs v =
    points (covered_count cs v p.preferred_requirement_keys)
      (objective_snapshot p).preferred_requirement_count

-- `time_points`
unfoldable pub time_points : PlanningProblem → List Candidate → Values → ℕ
unfolding points
time_points p cs v =
    let horizon = (objective_snapshot p).horizon_microseconds in
    points (horizon - route_completion p cs v) horizon

-- `_unknown_selected`
abbrev pub unknown_selected : List Candidate → Values → Bool
unknown_selected cs v = any (λ c. is_unknown c.cost && v.selected c.action_id) cs

-- `_cost_points`
unfoldable pub cost_points : PlanningProblem → List Candidate → Values → ℕ
unfolding points
cost_points p cs v =
    let upper = (objective_snapshot p).known_cost_upper_bound_krw in
    let known_spend = total (λ c. known_cost c.cost * bit (v.selected c.action_id)) cs in
    points (if unknown_selected cs v then 0 else upper - known_spend) upper

-- `weighted_points`
unfoldable pub weighted_points : PlanningProblem → List Candidate → Values → ℕ
unfolding coverage_points time_points cost_points
weighted_points p cs v =
    let o = objective_snapshot p in
    o.coverage_weight * coverage_points p cs v
    + o.time_weight * time_points p cs v
    + o.cost_weight * cost_points p cs v

-- `primary_score`
unfoldable pub primary_score : PlanningProblem → List Candidate → Bool → Values → ℕ
unfolding weighted_points
primary_score p cs true v =
    partial_required_coverage_weight * covered_count cs v p.required_requirement_keys
    + weighted_points p cs v
primary_score p cs false v = weighted_points p cs v

abbrev pub foundations : PlanningProblem → List Candidate → List Candidate
foundations p cs = keep (λ c. elem c.action_id p.foundational_priority_action_ids) cs

-- `early_foundation_hours`
abbrev pub early_foundation_hours : PlanningProblem → List Candidate → Values → ℕ
early_foundation_hours p cs v =
    total
      (λ c. total (λ e. (length p.calendar - e.0) * bit (v.assigned c.action_id e.0)) (slots_of p))
      (foundations p cs)

-- `foundation_points`
unfoldable pub foundation_points : PlanningProblem → List Candidate → Values → ℕ
unfolding points
foundation_points p cs v =
    points (early_foundation_hours p cs v)
      (length p.calendar * total (λ c. c.estimated_hours) (foundations p cs))

-- What is maximized.
unfoldable pub objective : PlanningProblem → List Candidate → Bool → Values → ℕ
unfolding primary_score foundation_points
objective p cs reward v =
    let primary = primary_score p cs reward v in
    if is_empty (foundations p cs)
    then primary
    else primary * (normalized_score_maximum + 1) + foundation_points p cs v
