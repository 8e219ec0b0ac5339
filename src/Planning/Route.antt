-- ===== src/Planning/Route.antt =====
-- The CP-SAT model of a route (src/jobtology_be/planning/cp_sat_model.py): what its constraints ask of
-- the values of its Boolean variables, and its objective. The solver is external: it is a parameter
-- of the planner, not a definition here. A variable that `add_max_equality` fixes is the maximum.
pub mod Objective
pub mod Priorities
use jobtology_be.Common.{
  ℕ, ◌+◌, ◌-◌, ◌*◌, ◌≤◌, ◌≡◌, min, max, Bool, true, false, not, ◌&&◌, ◌||◌, Option, none, some,
  List, [], ◌∷◌, map, keep, any, all, elem, find_first, is_some, ltb, leb, ◌==◌, if◌then◌else◌, All,
  length, bit, total, maximum, enumerate, distinct, occurrences, Result, ok, raise, raise_if, ◌>>◌,
}
use jobtology_be.Planning.Templates.{KrwCost, known_krw, unknown_krw, Candidate}
use jobtology_be.Planning.Calendar.{PlanningSlot}
use jobtology_be.Planning.Problem.{
  InvalidPlanningProblem, candidates_not_unique, effort_not_positive, prerequisite_not_included,
  CandidateAvailability, PlanningProblem, repeats, known_cost, objective_snapshot,
}

-- `_validate_candidates`
abbrev pub check_candidate : List ℕ → Candidate → Result InvalidPlanningProblem (Unit {0})
check_candidate available c = do
  raise_if (leb c.estimated_hours 0) effort_not_positive
  raise_if (any (λ p. not (elem p available)) c.prerequisite_action_ids) prerequisite_not_included

abbrev pub check_each : List ℕ → List Candidate → Result InvalidPlanningProblem (Unit {0})
check_each available [] = ok tt
check_each available (c ∷ cs) = check_candidate available c >> check_each available cs

unfoldable pub validate_candidates : List Candidate → Result InvalidPlanningProblem (Unit {0})
validate_candidates cs = do
  raise_if (repeats (map (λ c. c.action_id) cs)) candidates_not_unique
  check_each (map (λ c. c.action_id) cs) cs

-- `_is_available`
abbrev pub is_available : PlanningSlot → Option CandidateAvailability → Bool
is_available s none = true
is_available s (some a) = leb a.available_from s.starts_at && leb s.ends_at a.available_until

-- `availability.get(action_id)`; the action IDs of availabilities are distinct.
abbrev pub availability_of : PlanningProblem → ℕ → Option CandidateAvailability
availability_of p a = find_first (λ x. x.action_id == a) p.candidate_availability

-- The slots with their indices.
abbrev pub slots_of : PlanningProblem → List (ℕ × PlanningSlot)
slots_of p = enumerate 0 p.calendar

abbrev pub week_of_slot : ℕ × PlanningSlot → ℕ
week_of_slot e = e.1.capacity_week_key

-- `sum(min(count, hours) for count in Counter(weeks).values())`
unfoldable pub capped_hours : ℕ → List ℕ → ℕ
capped_hours hours weeks = total (λ w. min (occurrences w weeks) hours) (distinct weeks)

unfoldable pub available_capacity : PlanningProblem → Candidate → ℕ
unfolding capped_hours
available_capacity p c =
    capped_hours p.constraints.available_hours_per_week
      (map week_of_slot (keep (λ e. is_available e.1 (availability_of p c.action_id)) (slots_of p)))

-- `_unknown_selected` and the constraints ask for the kind of the cost.
abbrev pub is_unknown : KrwCost → Bool
is_unknown (known_krw krw) = false
is_unknown unknown_krw = true

-- `microseconds_from_planning_start` of an instant that is not before the start.
abbrev pub from_start : PlanningProblem → ℕ → ℕ
from_start p t = t - p.planning_started_at.instant

-- The values of `selected_by_action` and `assignments_by_action`.
pub record Values : Type 0 where
  pub selected : ℕ → Bool
  pub assigned : ℕ → ℕ → Bool

-- `completion_by_action`
unfoldable pub completion : PlanningProblem → Values → ℕ → ℕ
completion p v a = maximum (λ e. from_start p e.1.ends_at * bit (v.assigned a e.0)) (slots_of p)

-- `route_completion`
unfoldable pub route_completion : PlanningProblem → List Candidate → Values → ℕ
unfolding completion
route_completion p cs v = maximum (λ c. completion p v c.action_id) cs

-- `covered_by_requirement`
unfoldable pub covered : List Candidate → Values → ℕ → Bool
covered cs v k = any (λ c. elem k c.outcome_requirement_keys && v.selected c.action_id) cs

-- `total_selected_hours`
unfoldable pub total_hours : List Candidate → Values → ℕ
total_hours cs v = total (λ c. c.estimated_hours * bit (v.selected c.action_id)) cs

-- The end of the slot before index `n`, as `add_element` reads it: 0 for none.
abbrev pub end_before : PlanningProblem → ℕ → ℕ
end_before p n = maximum (λ e. if e.0 + 1 == n then from_start p e.1.ends_at else 0) (slots_of p)

-- The constraints of `build_route_model`, in its order.
pub record Satisfies (p : PlanningProblem) (cs : List Candidate) (require : Bool) (v : Values)
    : Type 0 where
  pub completions_in_horizon :
      All (λ c. completion p v c.action_id ≤ (objective_snapshot p).horizon_microseconds) cs
  pub fits_capacity :
      All
        (λ c.
          ltb (available_capacity p c) c.estimated_hours ≡ true → v.selected c.action_id ≡ false)
        cs
  pub hours_assigned :
      All
        (λ c.
          total (λ e. bit (v.assigned c.action_id e.0)) (slots_of p)
          ≡ c.estimated_hours * bit (v.selected c.action_id))
        cs
  pub only_available :
      All
        (λ c.
          All
            (λ e.
              is_available e.1 (availability_of p c.action_id) ≡ false
              → v.assigned c.action_id e.0 ≡ false)
            (slots_of p))
        cs
  pub costs_known :
      is_some p.constraints.max_out_of_pocket_krw ≡ true
      → All (λ c. is_unknown c.cost ≡ true → v.selected c.action_id ≡ false) cs
  pub one_at_a_time : (i : ℕ) → total (λ c. bit (v.assigned c.action_id i)) cs ≤ 1
  pub within_week :
      (w : ℕ)
      → total
          (λ c.
            total (λ e. bit (week_of_slot e == w) * bit (v.assigned c.action_id e.0)) (slots_of p))
          cs
        ≤ p.constraints.available_hours_per_week
  pub prerequisites_selected :
      All
        (λ c.
          All (λ q. v.selected c.action_id ≡ true → v.selected q ≡ true) c.prerequisite_action_ids)
        cs
  pub prerequisites_first :
      All
        (λ c.
          All
            (λ q.
              All
                (λ e.
                  v.assigned c.action_id e.0 ≡ true → completion p v q ≤ from_start p e.1.starts_at)
                (slots_of p))
            c.prerequisite_action_ids)
        cs
  pub within_budget :
      (cap : ℕ)
      → p.constraints.max_out_of_pocket_krw ≡ some cap
      → total (λ c. known_cost c.cost * bit (v.selected c.action_id)) cs ≤ cap
  pub covers_required :
      require ≡ true → All (λ k. covered cs v k ≡ true) p.required_requirement_keys
  pub hours_in_calendar : total_hours cs v ≤ length p.calendar
  pub earliest_completion : end_before p (total_hours cs v) ≤ route_completion p cs v
