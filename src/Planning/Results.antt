-- ===== src/Planning/Results.antt =====
-- The steps of a solved route and its feasibility (src/jobtology_be/planning/cp_sat_results.py).
-- A step key is the pair that its text is made of; the trace keeps what the planner decides, and not
-- the copies of its input and the solver's telemetry.
use jobtology_be.Common.{
  ℕ, ◌-◌, ◌*◌, Bool, true, false, not, ◌&&◌, ◌||◌, Option, List, [], ◌∷◌, ◌++◌, map, keep, any,
  elem, ltb, leb, ◌==◌, if◌then◌else◌, maximum, sort_by, sorted, Result, ok, raise, ◌>>=◌,
}
use jobtology_be.Planning.Templates.{Candidate}
use jobtology_be.Planning.Calendar.{PlanningSlot}
use jobtology_be.Planning.Problem.{PlanningProblem}
use jobtology_be.Planning.Route.{is_unknown, slots_of, Values}

pub data RouteFeasibility : Type 0 where
  feasible risky partial infeasible : RouteFeasibility

pub data OptimizationStatus : Type 0 where
  optimal_status feasible_status infeasible_status timeout_status : OptimizationStatus

pub data RouteRejectionCode : Type 0 where
  input_blocker unknown_cost_with_hard_cap no_candidate_for_required_requirement :
      RouteRejectionCode

pub record RouteRejection : Type 0 where
  pub code : RouteRejectionCode
  pub rejected_action_id : Option ℕ
  pub requirement_key : Option ℕ

pub data StepSelectionReason : Type 0 where
  foundational_preference portfolio_preference prerequisite : StepSelectionReason
  satisfies_preferred_requirement satisfies_required_requirement : StepSelectionReason

pub record SlotAllocation : Type 0 where
  pub slot_index : ℕ
  pub capacity_week_key : ℕ
  pub starts_at : ℕ
  pub ends_at : ℕ

pub record ScheduledRouteStep : Type 0 where
  pub step_key : ℕ × ℕ
  pub action_id : ℕ
  pub template_revision : ℕ
  pub title : ℕ
  pub estimated_hours : ℕ
  pub prerequisite_step_keys : List (ℕ × ℕ)
  pub outcome_requirement_keys : List ℕ
  pub completion_criteria : List ℕ
  pub support_refs : List ℕ
  pub reason_codes : List StepSelectionReason
  pub planned_start_at : ℕ
  pub planned_end_at : ℕ
  pub slot_allocations : List SlotAllocation

pub record PartialRouteDiagnostic : Type 0 where
  pub unmet_required_requirement_keys : List ℕ
  pub partial_steps : List ScheduledRouteStep

pub record PlanningResult : Type 0 where
  pub feasibility : Option RouteFeasibility
  pub optimization_status : OptimizationStatus
  pub scheduled : List ScheduledRouteStep
  pub rejections : List RouteRejection
  pub partial_route_diagnostic : Option PartialRouteDiagnostic

-- What a lookup of Python raises.
pub data LookupError : Type 0 where
  index_error key_error : LookupError

-- `_step_key`
abbrev pub step_key_of : Candidate → ℕ × ℕ
step_key_of c = (c.action_id, c.template_revision)

-- `candidates_by_action[action_id]`; the action IDs of candidates are distinct.
unfoldable pub candidate_by_action : List Candidate → ℕ → Result LookupError Candidate
candidate_by_action [] a = raise key_error
candidate_by_action (c ∷ cs) a =
    let rest = candidate_by_action cs a in if c.action_id == a then ok c else rest

-- `prerequisite_step_keys`
unfoldable pub prerequisite_keys : List Candidate → List ℕ → Result LookupError (List (ℕ × ℕ))
unfolding candidate_by_action
prerequisite_keys cs [] = ok []
prerequisite_keys cs (a ∷ ks) = do
  c ← candidate_by_action cs a
  rest ← prerequisite_keys cs ks
  ok (step_key_of c ∷ rest)

-- `xs & ys` is not empty.
abbrev pub meets : List ℕ → List ℕ → Bool
meets xs ys = any (λ k. elem k ys) xs

abbrev pub reason_if : Bool → StepSelectionReason → List StepSelectionReason
reason_if true reason = reason ∷ []
reason_if false reason = []

-- `_selection_reasons`, sorted by their names.
unfoldable pub selection_reasons :
    PlanningProblem → Candidate → List Candidate → List StepSelectionReason
selection_reasons p c selected =
    reason_if (elem c.action_id p.foundational_priority_action_ids) foundational_preference
    ++ reason_if (elem c.action_id p.portfolio_action_ids) portfolio_preference
    ++ reason_if (any (λ s. elem c.action_id s.prerequisite_action_ids) selected) prerequisite
    ++ reason_if (meets c.outcome_requirement_keys p.preferred_requirement_keys)
        satisfies_preferred_requirement
    ++ reason_if (meets c.outcome_requirement_keys p.required_requirement_keys)
        satisfies_required_requirement

abbrev pub allocation : ℕ × PlanningSlot → SlotAllocation
allocation e = record {
  slot_index = e.0;
  capacity_week_key = e.1.capacity_week_key;
  starts_at = e.1.starts_at;
  ends_at = e.1.ends_at;
}

-- `allocations`
abbrev pub allocations_of : PlanningProblem → Values → Candidate → List SlotAllocation
allocations_of p v c = map allocation (keep (λ e. v.assigned c.action_id e.0) (slots_of p))

-- `allocations[0].starts_at`
abbrev pub first_start : List SlotAllocation → Result LookupError ℕ
first_start [] = raise index_error
first_start (x ∷ xs) = ok x.starts_at

-- `allocations[-1].ends_at`
abbrev pub last_end : List SlotAllocation → Result LookupError ℕ
last_end [] = raise index_error
last_end (x ∷ []) = ok x.ends_at
last_end (x ∷ y ∷ ys) = last_end (y ∷ ys)

-- The step of a selected candidate.
unfoldable pub step_of :
    PlanningProblem
    → List Candidate
    → Values
    → List Candidate
    → Candidate
    → Result LookupError ScheduledRouteStep
unfolding prerequisite_keys selection_reasons sorted
step_of p cs v selected c = do
  keys ← prerequisite_keys cs c.prerequisite_action_ids
  starts ← first_start (allocations_of p v c)
  ends ← last_end (allocations_of p v c)
  ok (record {
    step_key = step_key_of c;
    action_id = c.action_id;
    template_revision = c.template_revision;
    title = c.title;
    estimated_hours = c.estimated_hours;
    prerequisite_step_keys = keys;
    outcome_requirement_keys = sorted c.outcome_requirement_keys;
    completion_criteria = c.completion_criteria;
    support_refs = sorted c.support_refs;
    reason_codes = selection_reasons p c selected;
    planned_start_at = starts;
    planned_end_at = ends;
    slot_allocations = allocations_of p v c;
  })

unfoldable pub steps_of :
    PlanningProblem
    → List Candidate
    → Values
    → List Candidate
    → List Candidate
    → Result LookupError (List ScheduledRouteStep)
unfolding step_of
steps_of p cs v selected [] = ok []
steps_of p cs v selected (c ∷ rest) = do
  s ← step_of p cs v selected c
  ss ← steps_of p cs v selected rest
  ok (s ∷ ss)

-- The key `(planned_start_at, action_id)`.
abbrev pub by_planned_start : ScheduledRouteStep → ScheduledRouteStep → Bool
by_planned_start s t =
    ltb s.planned_start_at t.planned_start_at
    || (s.planned_start_at == t.planned_start_at && leb s.action_id t.action_id)

abbrev pub selected_candidates : List Candidate → Values → List Candidate
selected_candidates cs v = keep (λ c. v.selected c.action_id) cs

unfoldable pub scheduled_steps :
    PlanningProblem → List Candidate → Values → Result LookupError (List ScheduledRouteStep)
unfolding steps_of sort_by
scheduled_steps p cs v = do
  ss ← steps_of p cs v (selected_candidates cs v) (selected_candidates cs v)
  ok (sort_by by_planned_start ss)

-- `max((step.planned_end_at …), default=planning_started_at)`
abbrev pub completion_at : PlanningProblem → List ScheduledRouteStep → ℕ
completion_at p [] = p.planning_started_at.instant
completion_at p (s ∷ ss) = maximum (λ t. t.planned_end_at) (s ∷ ss)

-- `route_feasibility`, of steps that end after the planning starts.
unfoldable pub route_feasibility : PlanningProblem → List ScheduledRouteStep → RouteFeasibility
route_feasibility p steps =
    let selected = map (λ s. s.action_id) steps in
    let has_unknown_cost = any (λ c. elem c.action_id selected && is_unknown c.cost) p.candidates in
    let horizon = p.constraints.target_by - p.planning_started_at.instant in
    let elapsed = completion_at p steps - p.planning_started_at.instant in
    if not has_unknown_cost && leb (elapsed * 5) (horizon * 4) then feasible else risky
