-- ===== src/Planning/RouteExamples.antt =====
-- Runs of the planner on a small problem, and its theorems at them.
use jobtology_be.Common.{
  ℕ, ◌+◌, ◌-◌, ◌*◌, ◌/◌, ◌≤◌, ◌<◌, ◌≡◌, refl, sym, subst, inl, inr, Bool, true, false, Option, none,
  some, List, [], ◌∷◌, IsNodup, ◌==◌, arith, is_some, ok, done, sort_by,
}
use mathlib.Core.Option.{some-injective}
use jobtology_be.Planning.Templates.{known_krw, Candidate}
use jobtology_be.Planning.Calendar.{
  Zone, WeeklyAvailabilityWindow, aware, segment_is_available, flexible_weekly_slots,
}
use jobtology_be.Planning.Problem.{
  regular, PlanningProblem, known_cost, check_problem, check_calendar, objective_snapshot,
}
use jobtology_be.Planning.Problem.Accepted.{HasIdentity, check_problem-flexible_weekly_slots}
use jobtology_be.Planning.Route.{
  capped_hours, available_capacity, completion, route_completion, covered, total_hours, Values,
  validate_candidates, Satisfies,
}
use jobtology_be.Planning.Route.Objective.{covered_count, primary_score, objective}
use jobtology_be.Planning.Route.Priorities.{objective-IsOrdered}
use jobtology_be.Planning.Hint.{schedule_hint}
use jobtology_be.Planning.Hint.Hinted.{schedule_hint-Satisfies}
use jobtology_be.Planning.Results.{PlanningResult}
use jobtology_be.Planning.Planner.{
  cp_feasible, Solver, full_capacity_possible, solver_candidates, plan,
}
use jobtology_be.Planning.Planner.Shares.{full_capacity_possible-true}
use jobtology_be.Planning.Planner.Diagnostic.{weaken}
use jobtology_be.Planning.Planner.Planned.{IsSound, IsPlanned, plan-IsPlanned}

-- UTC from the epoch on, a Thursday.
abbrev utc : Zone
utc = record {
  iso_year = λ t. 1970;
  iso_week = λ t. (t / 86400000000 + 3) / 7 + 1;
  local_date = λ t. t / 86400000000;
  iso_weekday = λ t. (t / 86400000000 + 3) - (t / 86400000000 + 3) / 7 * 7 + 1;
  local_hour = λ t. t / 3600000000 - t / 86400000000 * 24;
  clock = λ t. t;
  fold = λ t. false;
  instant_of = λ t b. t;
}

abbrev mornings : List WeeklyAvailabilityWindow
mornings = record { weekday = 4; start_hour = 9; end_hour = 12 } ∷ []

abbrev candidate : ℕ → List ℕ → List ℕ → Candidate
candidate a outcomes prerequisites = record {
  action_id = a;
  template_revision = 1;
  title = a + 100;
  estimated_hours = 1;
  outcome_requirement_keys = outcomes;
  prerequisite_action_ids = prerequisites;
  fulfilled_prerequisite_action_ids = [];
  completion_criteria = 700 ∷ [];
  support_refs = 800 ∷ [];
  cost = known_krw 5;
}

-- 2 needs 1; together they cover what is required.
abbrev problem : PlanningProblem
problem = record {
  analysis_id = 1;
  profile_version = 1;
  basis_version = 1;
  corpus_release_id = none;
  is_fixture = false;
  reference_at = aware 30600000000;
  candidates = candidate 1 (10 ∷ []) [] ∷ candidate 2 (20 ∷ []) (1 ∷ []) ∷ [];
  candidate_blockers = [];
  required_requirement_keys = 10 ∷ 20 ∷ [];
  preferred_requirement_keys = 30 ∷ [];
  constraints = record {
    target_by = 82800000000;
    available_hours_per_week = 2;
    budget_mode = regular;
    max_out_of_pocket_krw = some 10;
    fastest_path = false;
    needs_portfolio = false;
    career_switch = false;
    weekly_availability = mornings;
    unavailable_dates = [];
  };
  planning_started_at = aware 30600000000;
  calendar =
      record { starts_at = 32400000000; ends_at = 36000000000; capacity_week_key = 197001 }
      ∷ record { starts_at = 36000000000; ends_at = 39600000000; capacity_week_key = 197001 }
      ∷ [];
  candidate_availability = [];
  foundational_priority_action_ids = 1 ∷ [];
  portfolio_action_ids = [];
}

abbrev blank : ℕ → Bool
blank t = false

flexible_run :
    flexible_weekly_slots utc (aware 30600000000) (aware 82800000000) 2 mornings []
    ≡ done problem.calendar
unfolding flexible_weekly_slots segment_is_available
flexible_run = refl

problem-HasIdentity : HasIdentity blank problem
problem-HasIdentity = record {
  named = refl;
  based = refl;
  versioned = omega arith;
  aware_reference = refl;
  aware_start = refl;
  necessities_apart = refl;
  no_availability = refl;
}

check_problem-flexible_weekly_slots_example : check_problem blank problem ≡ ok tt
check_problem-flexible_weekly_slots_example =
    check_problem-flexible_weekly_slots utc blank problem 2 mornings [] problem-HasIdentity
      (omega arith) (omega arith) (omega arith) flexible_run refl

abbrev candidates : List Candidate
candidates = candidate 1 (10 ∷ []) [] ∷ candidate 2 (20 ∷ []) (1 ∷ []) ∷ []

valid_run : validate_candidates candidates ≡ ok tt
unfolding validate_candidates
valid_run = refl

calendar_run : check_calendar 30600000000 82800000000 (problem.calendar) ≡ ok tt
unfolding check_calendar sort_by
calendar_run = refl

schedule_hint-Satisfies_example :
    (hint : Option Values) × (schedule_hint problem candidates true ≡ done hint)
    × (true ≡ false → is_some hint ≡ true)
    × ((v : Values) → hint ≡ some v → Satisfies problem candidates true v)
schedule_hint-Satisfies_example =
    schedule_hint-Satisfies problem candidates true valid_run calendar_run
      (omega arith, (omega arith, tt))

-- 1 in the first slot, and 2 in the second one.
abbrev values : Values
values = record { selected = λ a. true; assigned = λ a i. a == i + 1 }

values-Satisfies : Satisfies problem candidates true values
unfolding completion route_completion covered total_hours available_capacity capped_hours
    objective_snapshot known_cost
values-Satisfies = record {
  completions_in_horizon = (omega arith, (omega arith, tt));
  fits_capacity = ((λ e. absurd (cc e)), ((λ e. absurd (cc e)), tt));
  hours_assigned = (refl, (refl, tt));
  only_available = (
    ((λ e. absurd (cc e)), ((λ e. absurd (cc e)), tt)),
    (((λ e. absurd (cc e)), ((λ e. absurd (cc e)), tt)), tt),
  );
  costs_known = λ c. ((λ e. absurd (cc e)), ((λ e. absurd (cc e)), tt));
  one_at_a_time = λ i. ground arith;
  within_week = λ w. ground arith;
  prerequisites_selected = (tt, (((λ _. refl), tt), tt));
  prerequisites_first = (tt, ((((λ e. absurd (cc e)), ((λ _. omega arith), tt)), tt), tt));
  within_budget = λ most e. ten_of most e;
  covers_required = λ _. (refl, (refl, tt));
  hours_in_calendar = omega arith;
  earliest_completion = omega arith;
}
  where
    ten_of : (most : ℕ) → ◌≡◌ {A = Option ℕ} (some 10) (some most) → 10 ≤ most
    ten_of most e = let ten = some-injective 10 most e in omega (arith, ten)

-- A solver that always answers these values.
abbrev solver : Solver
solver b = (cp_feasible, values)

weaker : (b : Bool) → Satisfies problem candidates b values
weaker true = values-Satisfies
weaker false = weaken problem candidates true values values-Satisfies

same_candidates : solver_candidates problem ≡ candidates
unfolding sort_by
same_candidates = refl

solver-IsSound : IsSound problem candidates solver
solver-IsSound = record {
  known = λ b e. cc e;
  optimal = λ b e. absurd (cc e);
  feasible_too = λ b e. weaker b;
  infeasible_too = λ v e. absurd (cc e);
}

required_apart : IsNodup (10 ∷ 20 ∷ [])
required_apart = ((λ i. elim i [ inl e ↦ absurd (omega (arith, e)) | inr f ↦ f ]), ((λ i. i), tt))

full_capacity_possible-true_example : full_capacity_possible problem candidates ≡ true
full_capacity_possible-true_example =
    full_capacity_possible-true problem candidates values required_apart values-Satisfies

plan-IsPlanned_example :
    (r : PlanningResult) × (plan problem solver ≡ ok r)
    × IsPlanned problem (solver_candidates problem) r
plan-IsPlanned_example =
    plan-IsPlanned problem solver
      (subst (λ cs. validate_candidates cs ≡ ok tt) (sym same_candidates) valid_run) required_apart
      (subst (λ cs. IsSound problem cs solver) (sym same_candidates) solver-IsSound)

-- Nothing is selected.
abbrev nothing : Values
nothing = record { selected = λ a. false; assigned = λ a i. false }

nothing-Satisfies : Satisfies problem candidates false nothing
unfolding completion route_completion covered total_hours available_capacity capped_hours
    objective_snapshot known_cost
nothing-Satisfies = record {
  completions_in_horizon = (omega arith, (omega arith, tt));
  fits_capacity = ((λ e. refl), ((λ e. refl), tt));
  hours_assigned = (refl, (refl, tt));
  only_available = (((λ e. refl), ((λ e. refl), tt)), (((λ e. refl), ((λ e. refl), tt)), tt));
  costs_known = λ c. ((λ e. refl), ((λ e. refl), tt));
  one_at_a_time = λ i. omega arith;
  within_week = λ w. omega arith;
  prerequisites_selected = (tt, (((λ e. absurd (cc e)), tt), tt));
  prerequisites_first = (tt, ((((λ e. absurd (cc e)), ((λ e. absurd (cc e)), tt)), tt), tt));
  within_budget = λ most e. omega arith;
  covers_required = λ e. absurd (cc e);
  hours_in_calendar = omega arith;
  earliest_completion = omega arith;
}

objective-IsOrdered_example :
    (true ≡ true
      → covered_count candidates nothing (10 ∷ 20 ∷ [])
        < covered_count candidates values (10 ∷ 20 ∷ [])
      → objective problem candidates true nothing < objective problem candidates true values)
    × (primary_score problem candidates true nothing < primary_score problem candidates true values
        → objective problem candidates true nothing < objective problem candidates true values)
objective-IsOrdered_example =
    objective-IsOrdered problem candidates true nothing values nothing-Satisfies
