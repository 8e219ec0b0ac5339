-- ===== src/Planning/Planner.antt =====
-- `CpSatRoutePlanner.plan` and its helpers (src/jobtology_be/planning/cp_sat_planner.py). The solver of
-- OR-Tools is a parameter: for a model with or without the coverage constraint it answers a status and
-- the values of the variables. The clock that divides the time between the two searches is part of it.
pub mod Lookups
pub mod Capacity
pub mod Effort
pub mod Shares
pub mod Diagnostic
pub mod Planned
use jobtology_be.Common.{
  ℕ, ◌+◌, ◌*◌, Bool, true, false, not, ◌&&◌, ◌||◌, Option, none, some, List, [], ◌∷◌, ◌++◌, map,
  keep, any, elem, leb, ◌==◌, if◌then◌else◌, length, is_some, sort_by, sorted, Result, ok, raise,
  ◌>>=◌, ◌>>◌,
}
use jobtology_be.Editorial.{is_empty}
use jobtology_be.Planning.Templates.{
  Candidate, CandidateBlocker, insufficient_analysis, needs_input, no_activities,
}
use jobtology_be.Planning.Problem.{InvalidPlanningProblem, PlanningProblem}
use jobtology_be.Planning.Route.{
  is_unknown, slots_of, week_of_slot, capped_hours, validate_candidates, Values, covered,
}
use jobtology_be.Planning.Results.{
  RouteFeasibility, feasible, risky, partial, infeasible, OptimizationStatus, optimal_status,
  feasible_status, infeasible_status, timeout_status, RouteRejection, input_blocker,
  unknown_cost_with_hard_cap, no_candidate_for_required_requirement, ScheduledRouteStep,
  PartialRouteDiagnostic, PlanningResult, LookupError, scheduled_steps, route_feasibility,
}

-- The statuses of CP-SAT that the planner knows, and any other.
pub data SolverStatus : Type 0 where
  cp_optimal cp_feasible cp_infeasible cp_unknown cp_other : SolverStatus

-- The answer for the model with the coverage constraint, or without it.
abbrev pub Solver : Type 0
Solver = Bool → SolverStatus × Values

pub data PlanError : Type 0 where
  invalid_problem : InvalidPlanningProblem → PlanError
  lookup_failed : LookupError → PlanError
  unexpected_status : PlanError

abbrev pub as_plan : {A : Type 0} → Result InvalidPlanningProblem A → Result PlanError A
as_plan (ok a) = ok a
as_plan (raise e) = raise (invalid_problem e)

abbrev pub looked_up : {A : Type 0} → Result LookupError A → Result PlanError A
looked_up (ok a) = ok a
looked_up (raise e) = raise (lookup_failed e)

abbrev pub rejection_of_blocker : CandidateBlocker → RouteRejection
rejection_of_blocker (insufficient_analysis a) = record {
  code = input_blocker;
  rejected_action_id = none;
  requirement_key = none;
}
rejection_of_blocker (needs_input k l refs) = record {
  code = input_blocker;
  rejected_action_id = none;
  requirement_key = some k;
}
rejection_of_blocker (no_activities k l refs) = record {
  code = input_blocker;
  rejected_action_id = none;
  requirement_key = some k;
}

-- The blocker makes the problem infeasible.
abbrev pub blocks : List ℕ → CandidateBlocker → Bool
blocks required (insufficient_analysis a) = true
blocks required (needs_input k l refs) = elem k required
blocks required (no_activities k l refs) = elem k required

abbrev pub unknown_costs : Option ℕ → List Candidate → List RouteRejection
unknown_costs none cs = []
unknown_costs (some cap) cs =
    map
      (λ c. record {
        code = unknown_cost_with_hard_cap;
        rejected_action_id = some c.action_id;
        requirement_key = none;
      })
      (keep (λ c. is_unknown c.cost) cs)

-- `sorted(problem.required_requirement_keys - candidate_outcomes)`
abbrev pub uncovered_keys : List ℕ → List Candidate → List ℕ
uncovered_keys required cs =
    keep (λ k. not (any (λ c. elem k c.outcome_requirement_keys) cs)) (sorted required)

-- `_preflight`
unfoldable pub preflight : PlanningProblem → List Candidate → List RouteRejection × Bool
unfolding sorted
preflight p cs =
    let missing = uncovered_keys p.required_requirement_keys cs in
    (
      map rejection_of_blocker p.candidate_blockers
          ++ unknown_costs p.constraints.max_out_of_pocket_krw cs
          ++ map
              (λ k. record {
                code = no_candidate_for_required_requirement;
                rejected_action_id = none;
                requirement_key = some k;
              })
              missing,
      any (blocks p.required_requirement_keys) p.candidate_blockers || not (is_empty missing),
    )

-- A `Fraction`: a numerator and a denominator that is not 0, not reduced.
abbrev pub Fraction : Type 0
Fraction = ℕ × ℕ

abbrev pub add_fractions : Fraction → Fraction → Fraction
add_fractions a b = (a.0 * b.1 + b.0 * a.1, a.1 * b.1)

abbrev pub fraction_le : Fraction → Fraction → Bool
fraction_le a b = leb (a.0 * b.1) (b.0 * a.1)

-- The effort of a candidate, divided among its required outcomes.
abbrev pub share : List ℕ → Candidate → Fraction
share required c =
    (c.estimated_hours, length (keep (λ k. elem k required) c.outcome_requirement_keys))

-- `min(shares, default=…)`: the first of the least ones.
abbrev pub least : Fraction → List Fraction → Fraction
least a [] = a
least a (b ∷ bs) = least (if fraction_le a b then a else b) bs

abbrev pub least_share : Fraction → List Fraction → Fraction
least_share fallback [] = fallback
least_share fallback (a ∷ rest) = least a rest

abbrev pub cheapest_share : PlanningProblem → List Candidate → ℕ → ℕ → Fraction
cheapest_share p cs capacity k =
    least_share (capacity + 1, 1)
      (map (share p.required_requirement_keys) (keep (λ c. elem k c.outcome_requirement_keys) cs))

abbrev pub sum_shares : (ℕ → Fraction) → List ℕ → Fraction
sum_shares f [] = (0, 1)
sum_shares f (k ∷ ks) = add_fractions (f k) (sum_shares f ks)

-- `_full_capacity_possible`
unfoldable pub full_capacity_possible : PlanningProblem → List Candidate → Bool
unfolding capped_hours
full_capacity_possible p cs =
    let capacity =
      capped_hours p.constraints.available_hours_per_week (map week_of_slot (slots_of p)) in
    fraction_le (sum_shares (cheapest_share p cs capacity) p.required_requirement_keys)
      (capacity, 1)

-- `_partial_diagnostic`, after its search.
unfoldable pub diagnostic_of :
    PlanningProblem
    → List Candidate
    → SolverStatus × Values
    → Result PlanError PartialRouteDiagnostic
unfolding scheduled_steps covered sorted
diagnostic_of p cs (cp_optimal, v) = do
  steps ← looked_up (scheduled_steps p cs v)
  ok (record {
    unmet_required_requirement_keys =
        keep (λ k. not (covered cs v k)) (sorted p.required_requirement_keys);
    partial_steps = steps;
  })
diagnostic_of p cs (cp_feasible, v) = do
  steps ← looked_up (scheduled_steps p cs v)
  ok (record {
    unmet_required_requirement_keys =
        keep (λ k. not (covered cs v k)) (sorted p.required_requirement_keys);
    partial_steps = steps;
  })
diagnostic_of p cs (cp_infeasible, v) = ok (record {
  unmet_required_requirement_keys = sorted p.required_requirement_keys;
  partial_steps = [];
})
diagnostic_of p cs (cp_unknown, v) = ok (record {
  unmet_required_requirement_keys = sorted p.required_requirement_keys;
  partial_steps = [];
})
diagnostic_of p cs (cp_other, v) = raise unexpected_status

-- `_partial_diagnostic`
unfoldable pub partial_diagnostic :
    PlanningProblem → List Candidate → Solver → Result PlanError PartialRouteDiagnostic
unfolding validate_candidates diagnostic_of
partial_diagnostic p cs solve = do
  as_plan (validate_candidates cs)
  diagnostic_of p cs (solve false)

-- The status of the search for a full route; it is skipped if the effort exceeds the capacity.
unfoldable pub full_search :
    PlanningProblem → List Candidate → Solver → Result PlanError (SolverStatus × Values)
unfolding validate_candidates full_capacity_possible
full_search p cs solve =
    if full_capacity_possible p cs
    then (as_plan (validate_candidates cs) >> ok (solve true))
    else ok (cp_infeasible, (solve true).1)

abbrev pub result :
    Option RouteFeasibility
    → OptimizationStatus
    → List ScheduledRouteStep
    → List RouteRejection
    → Option PartialRouteDiagnostic
    → PlanningResult
result f status steps rejections diagnostic = record {
  feasibility = f;
  optimization_status = status;
  scheduled = steps;
  rejections = rejections;
  partial_route_diagnostic = diagnostic;
}

-- After an infeasible search: `diagnostic` decides between a partial route and none.
abbrev pub after_infeasible : List RouteRejection → PartialRouteDiagnostic → PlanningResult
after_infeasible rejections d =
    if is_empty d.partial_steps
    then result (some infeasible) infeasible_status [] rejections (some d)
    else result (some partial) infeasible_status d.partial_steps rejections (some d)

-- After a search without an answer.
unfoldable pub after_unknown :
    PlanningProblem → List RouteRejection → PartialRouteDiagnostic → PlanningResult
unfolding route_feasibility
after_unknown p rejections d =
    if is_empty d.partial_steps
    then result none timeout_status [] rejections none
    else if is_empty d.unmet_required_requirement_keys
    then result (some (route_feasibility p d.partial_steps)) feasible_status d.partial_steps
        rejections none
    else result (some partial) timeout_status d.partial_steps rejections (some d)

-- The `match` on the status of the full search.
unfoldable pub conclude :
    PlanningProblem
    → List Candidate
    → Solver
    → List RouteRejection
    → SolverStatus × Values
    → Result PlanError PlanningResult
unfolding partial_diagnostic after_unknown
conclude p cs solve rejections (cp_optimal, v) = do
  steps ← looked_up (scheduled_steps p cs v)
  ok (result (some (route_feasibility p steps)) optimal_status steps rejections none)
conclude p cs solve rejections (cp_feasible, v) = do
  steps ← looked_up (scheduled_steps p cs v)
  ok (result (some (route_feasibility p steps)) feasible_status steps rejections none)
conclude p cs solve rejections (cp_infeasible, v) = do
  d ← partial_diagnostic p cs solve
  ok (after_infeasible rejections d)
conclude p cs solve rejections (cp_unknown, v) = do
  d ← partial_diagnostic p cs solve
  ok (after_unknown p rejections d)
conclude p cs solve rejections (cp_other, v) = raise unexpected_status

abbrev pub by_action : Candidate → Candidate → Bool
by_action a b = leb a.action_id b.action_id

abbrev pub solver_candidates : PlanningProblem → List Candidate
solver_candidates p = sort_by by_action p.candidates

-- `CpSatRoutePlanner.plan`
unfoldable pub plan : PlanningProblem → Solver → Result PlanError PlanningResult
unfolding preflight full_search conclude sort_by
plan p solve =
    let cs = solver_candidates p in
    let checked = preflight p cs in
    if checked.1
    then ok (result (some infeasible) infeasible_status [] checked.0 none)
    else (full_search p cs solve >>= (λ answer. conclude p cs solve checked.0 answer))
