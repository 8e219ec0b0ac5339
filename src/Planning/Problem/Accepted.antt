-- ===== src/Planning/Problem/Accepted.antt =====
-- The calendar and the candidates that the repository makes are accepted by the checks of a planning
-- problem (src/jobtology_be/planning/solver_models.py).
use jobtology_be.Common.{
  ℕ, ◌+◌, ◌-◌, ◌≤◌, ◌<◌, ◌≡◌, refl, ◌∙◌, subst, Bool, true, false, List, [], ◌∷◌, any, elem, ltb,
  leb, ==_refl, arith, sort_by_self, Ordered, ok, done, done-inj, sym,
}
use jobtology_be.Editorial.{is_empty}
use jobtology_be.Planning.Calendar.{
  slot_duration, max_flexible_calendar_horizon, Zone, WeeklyAvailabilityWindow, PlanningSlot,
  Request, aware, flexible_weekly_slots,
}
use jobtology_be.Planning.Calendar.Bounds.{
  request, hour_start, FirstHour-ge, flexible_weekly_slots-IsCalendar,
}
use jobtology_be.Planning.Calendar.Slots.{Calendar, Calendar-from_earlier}
use jobtology_be.Planning.Problem.{
  PlanningProblem, same_slots, by_start, overlaps, starts_early, ends_late, check_calendar,
  check_problem, BudgetMode, regular, low_cost, weights, objective_snapshot,
}

same_slots_refl : (ss : List PlanningSlot) → same_slots ss ss ≡ true
same_slots_refl [] = refl
same_slots_refl (s ∷ ss) =
    rw (==_refl s.starts_at, ==_refl s.ends_at, ==_refl s.capacity_week_key) (same_slots_refl ss)

module _ (r : Request) where
  Calendar-Ordered : (t : ℕ) (ss : List PlanningSlot) → Calendar r t ss → Ordered by_start ss
  Calendar-Ordered t [] c = tt
  Calendar-Ordered t (s ∷ []) c = tt
  Calendar-Ordered t (s ∷ u ∷ us) c =
      let hour = c.1.one_hour in
      (ground (arith, c.2.0, hour), Calendar-Ordered s.ends_at (u ∷ us) c.2)

  Calendar-apart : (t : ℕ) (ss : List PlanningSlot) → Calendar r t ss → overlaps ss ≡ false
  Calendar-apart t [] c = refl
  Calendar-apart t (s ∷ []) c = refl
  Calendar-apart t (s ∷ u ∷ us) c =
      let apart : ltb u.starts_at s.ends_at ≡ false = ground (arith, c.2.0) in
      rw apart (Calendar-apart s.ends_at (u ∷ us) c.2)

  Calendar-starts : (t : ℕ) (ss : List PlanningSlot) → Calendar r t ss → starts_early t ss ≡ false
  Calendar-starts t [] c = refl
  Calendar-starts t (s ∷ ss) c = ground (arith, c.0)

  Calendar-ends : (t : ℕ) (ss : List PlanningSlot) → Calendar r t ss → ends_late r.target ss ≡ false
  Calendar-ends t [] c = refl
  Calendar-ends t (s ∷ []) c = ground (arith, c.1.in_time)
  Calendar-ends t (s ∷ u ∷ us) c = Calendar-ends s.ends_at (u ∷ us) c.2

  Calendar-future :
      (t : ℕ) (ss : List PlanningSlot)
      → Calendar r t ss
      → is_empty ss ≡ false
      → leb r.target t ≡ false
  Calendar-future t [] c h = absurd (cc h)
  Calendar-future t (s ∷ ss) c h =
      let hour = c.1.one_hour in let late = c.1.in_time in ground (arith, c.0, hour, late)

  pub check_calendar-Calendar :
      (t : ℕ) (ss : List PlanningSlot) → Calendar r t ss → check_calendar t r.target ss ≡ ok tt
  unfolding check_calendar
  check_calendar-Calendar t ss c =
      rw
        (
          sort_by_self by_start ss (Calendar-Ordered t ss c),
          same_slots_refl ss,
          Calendar-apart t ss c,
          Calendar-starts t ss c,
          Calendar-ends t ss c,
        )
        refl

-- The fields of a problem that are not its candidates and calendar are in order.
pub record HasIdentity (blank : ℕ → Bool) (p : PlanningProblem) : Type 0 where
  pub named : blank p.analysis_id ≡ false
  pub based : blank p.basis_version ≡ false
  pub versioned : 1 ≤ p.profile_version
  pub aware_reference : p.reference_at.is_aware ≡ true
  pub aware_start : p.planning_started_at.is_aware ≡ true
  pub necessities_apart :
      any (λ k. elem k p.preferred_requirement_keys) p.required_requirement_keys ≡ false
  pub no_availability : p.candidate_availability ≡ []

check_problem-Calendar :
    (blank : ℕ → Bool) (p : PlanningProblem) (r : Request)
    → HasIdentity blank p
    → r.target ≡ p.constraints.target_by
    → Calendar r p.planning_started_at.instant p.calendar
    → is_empty p.calendar ≡ false
    → check_problem blank p ≡ ok tt
unfolding check_problem
check_problem-Calendar blank p r h e c some_slots =
    let started = p.planning_started_at.instant in
    let positive : leb p.profile_version 0 ≡ false = ground (arith, h.versioned) in
    let future : leb p.constraints.target_by started ≡ false =
      subst (λ t. leb t started ≡ false) e (Calendar-future r started p.calendar c some_slots) in
    let ends =
      subst (λ t. ends_late t p.calendar ≡ false) e (Calendar-ends r started p.calendar c) in
    rw
      (
        h.named,
        h.based,
        positive,
        h.aware_reference,
        h.aware_start,
        future,
        some_slots,
        h.necessities_apart,
        sort_by_self by_start p.calendar (Calendar-Ordered r started p.calendar c),
        same_slots_refl p.calendar,
        Calendar-apart r started p.calendar c,
        Calendar-starts r started p.calendar c,
        ends,
        h.no_availability,
      )
      refl

weights-sum :
    (mode : BudgetMode) (fast : Bool)
    → let w = weights mode fast in (w.0 + w.1 + w.2 ≡ 100) × (1 ≤ w.0) × (1 ≤ w.1) × (1 ≤ w.2)
unfolding weights
weights-sum regular false = omega arith
weights-sum regular true = omega arith
weights-sum low_cost false = omega arith
weights-sum low_cost true = omega arith

-- The three weights always add up to 100, and each is positive.
pub objective_snapshot-weights :
    (p : PlanningProblem)
    → let o = objective_snapshot p in
      (o.coverage_weight + o.time_weight + o.cost_weight ≡ 100)
      × (1 ≤ o.coverage_weight)
      × (1 ≤ o.time_weight)
      × (1 ≤ o.cost_weight)
unfolding objective_snapshot
objective_snapshot-weights p = weights-sum p.constraints.budget_mode p.constraints.fastest_path

-- Where the fields that are not the calendar are in order, no candidate is limited, and the calendar
-- is what `flexible_weekly_slots` makes for the same start and target (with a positive number of
-- hours and at most 366 days ahead) and is not empty, the problem is accepted, provided that the
-- start lies less than an hour after the instant that its hour on the clock began.
pub check_problem-flexible_weekly_slots :
    (z : Zone) (blank : ℕ → Bool) (p : PlanningProblem) (hours : ℕ)
    (windows : List WeeklyAvailabilityWindow) (excluded : List ℕ)
    → HasIdentity blank p
    → p.planning_started_at.instant < hour_start z p.planning_started_at.instant + slot_duration
    → 1 ≤ hours
    → p.constraints.target_by - p.planning_started_at.instant ≤ max_flexible_calendar_horizon
    → flexible_weekly_slots z
        (aware p.planning_started_at.instant)
        (aware p.constraints.target_by)
        hours
        windows
        excluded
      ≡ done p.calendar
    → is_empty p.calendar ≡ false
    → check_problem blank p ≡ ok tt
check_problem-flexible_weekly_slots z blank p hours windows excluded h kept some_hours near made
      nonempty =
    let started = p.planning_started_at.instant in
    let target = p.constraints.target_by in
    let r = request z target hours windows excluded in
    let (first, first_hour, ss, ends, calendar, _) =
      flexible_weekly_slots-IsCalendar z started target hours windows excluded some_hours near in
    let same : ss ≡ p.calendar = done-inj ss p.calendar (sym ends ∙ made) in
    let late = FirstHour-ge z started first first_hour kept in
    check_problem-Calendar blank p r h refl
      (Calendar-from_earlier r started first p.calendar late
        (subst (Calendar r first) same calendar.in_order))
      nonempty
