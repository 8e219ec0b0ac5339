-- ===== src/Planning/Problem.antt =====
-- The input of the planner (src/jobtology_be/planning/solver_models.py and contracts.py): slots,
-- availabilities, constraints, the checks of a problem, and the objective's weights. Texts are
-- numbers, instants are microseconds of UTC.
pub mod Accepted
use jobtology_be.Common.{
  ℕ, ◌+◌, ◌-◌, Bool, true, false, not, ◌&&◌, ◌||◌, Option, List, [], ◌∷◌, map, length, any, elem,
  ltb, leb, ◌==◌, if◌then◌else◌, sort_by, Result, ok, raise, raise_if, ◌>>◌,
}
use jobtology_be.Editorial.{Timestamp, is_empty}
use jobtology_be.Planning.Templates.{KrwCost, known_krw, unknown_krw, Candidate, CandidateBlocker}
use jobtology_be.Planning.Calendar.{slot_duration, WeeklyAvailabilityWindow, PlanningSlot}

-- `InvalidPlanningProblemError`, by its reason.
pub data InvalidPlanningProblem : Type 0 where
  naive_slot slot_not_one_hour slot_without_week : InvalidPlanningProblem
  availability_without_action availability_reversed naive_availability : InvalidPlanningProblem
  empty_identity profile_version_not_positive naive_problem target_before_start empty_calendar :
      InvalidPlanningProblem
  overlapping_necessities calendar_not_ordered calendar_overlaps calendar_too_early :
      InvalidPlanningProblem
  calendar_too_late availability_not_unique availability_of_no_candidate : InvalidPlanningProblem
  candidates_not_unique effort_not_positive prerequisite_not_included : InvalidPlanningProblem

-- `PlanningSlot.__post_init__`; `blank` says which texts strip to nothing.
pub check_slot : (ℕ → Bool) → Timestamp → Timestamp → ℕ → Result InvalidPlanningProblem (Unit {0})
check_slot blank starts_at ends_at week = do
  raise_if (not starts_at.is_aware || not ends_at.is_aware) naive_slot
  raise_if (not (ends_at.instant == starts_at.instant + slot_duration)) slot_not_one_hour
  raise_if (blank week) slot_without_week

pub record CandidateAvailability : Type 0 where
  pub action_id : ℕ
  pub available_from : ℕ
  pub available_until : ℕ

-- `CandidateAvailability.__post_init__`
pub check_availability :
    (ℕ → Bool) → ℕ → Timestamp → Timestamp → Result InvalidPlanningProblem (Unit {0})
check_availability blank action_id available_from available_until = do
  raise_if (blank action_id) availability_without_action
  raise_if (not available_from.is_aware || not available_until.is_aware) naive_availability
  raise_if (ltb available_until.instant available_from.instant) availability_reversed

pub data BudgetMode : Type 0 where
  regular low_cost : BudgetMode

pub record PlanningConstraints : Type 0 where
  pub target_by : ℕ
  pub available_hours_per_week : ℕ
  pub budget_mode : BudgetMode
  pub max_out_of_pocket_krw : Option ℕ
  pub fastest_path : Bool
  pub needs_portfolio : Bool
  pub career_switch : Bool
  pub weekly_availability : List WeeklyAvailabilityWindow
  pub unavailable_dates : List ℕ

pub record PlanningProblem : Type 0 where
  pub analysis_id : ℕ
  pub profile_version : ℕ
  pub basis_version : ℕ
  pub corpus_release_id : Option ℕ
  pub is_fixture : Bool
  pub reference_at : Timestamp
  pub candidates : List Candidate
  pub candidate_blockers : List CandidateBlocker
  pub required_requirement_keys : List ℕ
  pub preferred_requirement_keys : List ℕ
  pub constraints : PlanningConstraints
  pub planning_started_at : Timestamp
  pub calendar : List PlanningSlot
  pub candidate_availability : List CandidateAvailability
  pub foundational_priority_action_ids : List ℕ
  pub portfolio_action_ids : List ℕ

-- The fields of two slots are the same.
abbrev pub same_slot : PlanningSlot → PlanningSlot → Bool
same_slot s t =
    s.starts_at == t.starts_at
    && s.ends_at == t.ends_at
    && s.capacity_week_key == t.capacity_week_key

-- Two tuples of slots are equal.
abbrev pub same_slots : List PlanningSlot → List PlanningSlot → Bool
same_slots [] [] = true
same_slots [] (t ∷ ts) = false
same_slots (s ∷ ss) [] = false
same_slots (s ∷ ss) (t ∷ ts) = same_slot s t && same_slots ss ts

abbrev pub by_start : PlanningSlot → PlanningSlot → Bool
by_start s t = leb s.starts_at t.starts_at

-- The loop over the pairs of neighbours finds an overlap.
abbrev pub overlaps : List PlanningSlot → Bool
overlaps [] = false
overlaps (s ∷ []) = false
overlaps (s ∷ t ∷ ts) = ltb t.starts_at s.ends_at || overlaps (t ∷ ts)

-- `self.calendar[0].starts_at` is before the start.
abbrev pub starts_early : ℕ → List PlanningSlot → Bool
starts_early started [] = false
starts_early started (s ∷ ss) = ltb s.starts_at started

-- `self.calendar[-1].ends_at` is past the target.
abbrev pub ends_late : ℕ → List PlanningSlot → Bool
ends_late target [] = false
ends_late target (s ∷ []) = ltb target s.ends_at
ends_late target (s ∷ t ∷ ts) = ends_late target (t ∷ ts)

-- `len(set(xs)) != len(xs)`
abbrev pub repeats : List ℕ → Bool
repeats [] = false
repeats (x ∷ xs) = elem x xs || repeats xs

-- The checks of the calendar in `__post_init__`.
unfoldable pub check_calendar : ℕ → ℕ → List PlanningSlot → Result InvalidPlanningProblem (Unit {0})
unfolding sort_by
check_calendar started target calendar = do
  raise_if (not (same_slots (sort_by by_start calendar) calendar)) calendar_not_ordered
  raise_if (overlaps calendar) calendar_overlaps
  raise_if (starts_early started calendar) calendar_too_early
  raise_if (ends_late target calendar) calendar_too_late

-- `PlanningProblem.__post_init__`
unfoldable pub check_problem :
    (ℕ → Bool) → PlanningProblem → Result InvalidPlanningProblem (Unit {0})
unfolding check_calendar
check_problem blank p = do
  raise_if (blank p.analysis_id || blank p.basis_version) empty_identity
  raise_if (leb p.profile_version 0) profile_version_not_positive
  raise_if (not p.reference_at.is_aware || not p.planning_started_at.is_aware) naive_problem
  raise_if (leb p.constraints.target_by p.planning_started_at.instant) target_before_start
  raise_if (is_empty p.calendar) empty_calendar
  raise_if (any (λ k. elem k p.preferred_requirement_keys) p.required_requirement_keys)
      overlapping_necessities
  check_calendar p.planning_started_at.instant p.constraints.target_by p.calendar
  raise_if (repeats (map (λ a. a.action_id) p.candidate_availability)) availability_not_unique
  raise_if
      (any (λ a. not (elem a.action_id (map (λ c. c.action_id) p.candidates)))
        p.candidate_availability)
      availability_of_no_candidate

-- `_known_cost`
unfoldable pub known_cost : KrwCost → ℕ
known_cost (known_krw krw) = krw
known_cost unknown_krw = 0

-- `sum(_known_cost(candidate) for candidate in …)`
unfoldable pub sum_known_cost : List Candidate → ℕ
unfolding known_cost
sum_known_cost [] = 0
sum_known_cost (c ∷ cs) = known_cost c.cost + sum_known_cost cs

-- The fields of `ObjectiveSnapshot` that vary.
pub record ObjectiveSnapshot : Type 0 where
  pub is_foundation_priority : Bool
  pub coverage_weight : ℕ
  pub time_weight : ℕ
  pub cost_weight : ℕ
  pub preferred_requirement_count : ℕ
  pub horizon_microseconds : ℕ
  pub known_cost_upper_bound_krw : ℕ

-- The weights of coverage, time and cost: those of the mode, and what the fastest path changes.
abbrev pub mode_weights : BudgetMode → ℕ × ℕ × ℕ
mode_weights regular = (55, 30, 15)
mode_weights low_cost = (35, 20, 45)

unfoldable pub weights : BudgetMode → Bool → ℕ × ℕ × ℕ
weights mode false = mode_weights mode
weights mode true = let w = mode_weights mode in (w.0 - 10, w.1 + 15, w.2 - 5)

-- `objective_snapshot`, where the problem's target is after its start.
unfoldable pub objective_snapshot : PlanningProblem → ObjectiveSnapshot
unfolding sum_known_cost weights
objective_snapshot p =
    let w = weights p.constraints.budget_mode p.constraints.fastest_path in
    record {
      is_foundation_priority = not (is_empty p.foundational_priority_action_ids);
      coverage_weight = w.0;
      time_weight = w.1;
      cost_weight = w.2;
      preferred_requirement_count = length p.preferred_requirement_keys;
      horizon_microseconds = p.constraints.target_by - p.planning_started_at.instant;
      known_cost_upper_bound_krw = sum_known_cost p.candidates;
    }
