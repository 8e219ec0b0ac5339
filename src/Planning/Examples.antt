-- ===== src/Planning/Examples.antt =====
-- Runs of the candidate generator and of the calendar on small data, and their theorems at them.
use jobtology_be.Common.{
  ℕ, ◌+◌, ◌-◌, ◌*◌, ◌/◌, ◌≤◌, ◌<◌, ◌≡◌, refl, ◌↔◌, ◌⊎◌, Bool, true, false, none, List, [], ◌∷◌, In,
  Any, arith, ok, done, failed, sorted,
}
use jobtology_be.Editorial.{
  required, unmet, partial, satisfied, ready, RequirementEvaluation, EditorialAnalysis,
  SatisfactionStatus, Coverage,
}
use jobtology_be.Planning.Templates.{ActivityTemplate, known_krw}
use jobtology_be.Planning.Catalog.{
  ids, get, catalog, check_present, missing_prerequisite_template, prerequisite_cycle, IsClosed,
}
use jobtology_be.Planning.Graph.{Requires}
use jobtology_be.Planning.Cycles.{Marks, validate_dependencies}
use jobtology_be.Planning.Cycles.Decides.{Missing, validate_dependencies_decides}
use jobtology_be.Planning.Expand.{evaluation_of, validate_outcomes}
use jobtology_be.Planning.Generator.{generator, build_ready}
use jobtology_be.Planning.Generator.Ready.{IsComplete, build_ready-IsComplete}
use jobtology_be.Planning.Templates.{CandidateSet}
use jobtology_be.Planning.Calendar.{
  slot_duration, max_flexible_calendar_horizon, Zone, WeeklyAvailabilityWindow, PlanningSlot,
  week_of, segment_is_available, slot_is_available, aware, flexible_weekly_slots,
}
use jobtology_be.Planning.Effort.{FloatArithmetic, Decision, adjust_all}
use jobtology_be.Planning.Effort.Bounds.{AllAdjusted, adjust_all-AllAdjusted}
use jobtology_be.Planning.Calendar.Windows.{Free, slot_is_available_iff}
use jobtology_be.Planning.Calendar.Slots.{count_week, Offered}
use jobtology_be.Planning.Calendar.Bounds.{
  request, FirstHour, IsCalendar, flexible_weekly_slots-IsCalendar,
}

abbrev template : ℕ → List ℕ → List ℕ → ActivityTemplate
template a outcomes prerequisites = record {
  action_id = a;
  revision = 1;
  title = a + 100;
  estimated_hours = 5;
  outcome_requirement_keys = outcomes;
  prerequisite_action_ids = prerequisites;
  completion_criteria = 700 ∷ [];
  support_refs = 800 ∷ [];
  cost = known_krw 0;
  is_foundational = true;
}

-- 3 needs 1 and 2, and 2 needs 1.
abbrev templates : List ActivityTemplate
templates =
    template 3 (30 ∷ []) (2 ∷ 1 ∷ []) ∷ template 1 (10 ∷ []) [] ∷ template 2 (20 ∷ []) (1 ∷ []) ∷ []

-- 1 and 2 need one another.
abbrev looped : List ActivityTemplate
looped = template 1 (10 ∷ []) (2 ∷ []) ∷ template 2 (20 ∷ []) (1 ∷ []) ∷ []

looped_run : validate_dependencies looped ≡ failed (prerequisite_cycle 1)
unfolding validate_dependencies check_present get sorted
looped_run = refl

validate_dependencies_decides_example :
    let o = validate_dependencies looped in
    ((m : Marks) × (o ≡ done m)
      × IsClosed looped
      × ((a : ℕ) → In a (ids looped) → ¬ Requires looped a a))
    ⊎ ((a : ℕ) × (p : ℕ) × (o ≡ failed (missing_prerequisite_template a p)) × Missing looped a p)
    ⊎ ((c : ℕ) × (o ≡ failed (prerequisite_cycle c)) × Requires looped c c)
validate_dependencies_decides_example = validate_dependencies_decides looped

abbrev judged : ℕ → SatisfactionStatus → RequirementEvaluation
judged k s = record {
  requirement_key = k;
  label = k;
  necessity = required;
  status = s;
  self_reported = true;
  support_refs = [];
  credit = 0;
}

abbrev no_coverage : Coverage
no_coverage = record { reason = none; matched_count = 0; total_count = 0; credit_sum = 0 }

-- 10 is satisfied, 30 is partly met, and nothing teaches 40.
abbrev analysis : EditorialAnalysis
analysis = record {
  analysis_id = 1;
  profile_version = 1;
  occupation_id = 1;
  basis_version = 1;
  corpus_release_id = none;
  is_fixture = true;
  reference_at = 0;
  analysis_status = ready;
  requirements = judged 30 partial ∷ judged 10 satisfied ∷ judged 20 unmet ∷ judged 40 unmet ∷ [];
  required_coverage = no_coverage;
  preferred_coverage = no_coverage;
}

generator_run : generator templates ≡ done templates
unfolding generator validate_dependencies check_present catalog get sorted
generator_run = refl

validate_outcomes_run : validate_outcomes analysis.requirements templates ≡ ok tt
unfolding validate_outcomes sorted
validate_outcomes_run = refl

build_ready-IsComplete_example :
    (s : CandidateSet) × (build_ready templates analysis ≡ done s) × IsComplete templates analysis s
build_ready-IsComplete_example =
    build_ready-IsComplete templates analysis generator_run validate_outcomes_run

-- UTC from the epoch on: 1970-01-01 was a Thursday, and lies in the first ISO week of 1970.
abbrev utc : Zone
utc = record {
  iso_year = λ t. 1970;
  iso_week = λ t. (t / 86400000000 + 3) / 7 + 1;
  local_date = λ t. t / 86400000000;
  iso_weekday = λ t. (t / 86400000000 + 3) - (t / 86400000000 + 3) / 7 * 7 + 1;
  local_hour = λ t. t / 3600000000 - t / 86400000000 * 24;
  clock = λ t. t;
  fold = λ t. false;
  instant_of = λ t b. t;
}

abbrev mornings : List WeeklyAvailabilityWindow
mornings = record { weekday = 4; start_hour = 9; end_hour = 12 } ∷ []

-- From 08:30 to 23:00 on the first day.
abbrev started : ℕ
started = 30600000000

abbrev target : ℕ
target = 82800000000

-- Two hours a week of the three that are offered.
flexible_weekly_slots_run :
    flexible_weekly_slots utc (aware started) (aware target) 2 mornings []
    ≡ done (
        record { starts_at = 32400000000; ends_at = 36000000000; capacity_week_key = 197001 }
        ∷ record { starts_at = 36000000000; ends_at = 39600000000; capacity_week_key = 197001 }
        ∷ [])
unfolding flexible_weekly_slots segment_is_available
flexible_weekly_slots_run = refl

slot_is_available_iff_example :
    (b : Bool) × (slot_is_available utc mornings [] (aware 32400000000) (aware 36000000000)
      ≡ done b)
    × ((b ≡ true) ↔ (
        (32400000000 < 36000000000)
        × (36000000000 - 32400000000 ≤ max_flexible_calendar_horizon)
        × Free utc mornings [] 32400000000 36000000000))
slot_is_available_iff_example = slot_is_available_iff utc mornings [] 32400000000 36000000000

flexible_weekly_slots-IsCalendar_example :
    (first : ℕ) × FirstHour utc started first
    × (ss : List PlanningSlot) × (flexible_weekly_slots utc
          (aware started)
          (aware target)
          2
          mornings
          []
        ≡ done ss)
    × IsCalendar (request utc target 2 mornings []) first ss
    × ((j : ℕ)
        → started < target
        → Offered (request utc target 2 mornings []) first j
        → let u = first + j * slot_duration in
          Any (λ s. s.starts_at ≡ u) ss ⊎ (2 ≤ count_week (week_of utc u) ss))
flexible_weekly_slots-IsCalendar_example =
    flexible_weekly_slots-IsCalendar utc started target 2 mornings [] (omega arith) (omega arith)

-- Exact arithmetic, on numbers whose differences are not negative.
abbrev exact : FloatArithmetic
exact = record {
  float = λ n. record { is_negative = false; numerator = n; less_denominator = 0 };
  of_hundredths = λ c. record { is_negative = false; numerator = c; less_denominator = 99 };
  sub = λ a b. record {
    is_negative = false;
    numerator = a.numerator * (b.less_denominator + 1) - b.numerator * (a.less_denominator + 1);
    less_denominator = (a.less_denominator + 1) * (b.less_denominator + 1) - 1;
  };
  mul = λ a b. record {
    is_negative = false;
    numerator = a.numerator * b.numerator;
    less_denominator = (a.less_denominator + 1) * (b.less_denominator + 1) - 1;
  };
}

-- 10 is half learned.
abbrev half_learned : List RequirementEvaluation
half_learned = record (judged 10 partial) { credit = 50 } ∷ []

-- Of 5 hours, 3 are left.
adjust_all_run :
    adjust_all exact half_learned (template 1 (10 ∷ []) [] ∷ [])
    ≡ ok (
      record (template 1 (10 ∷ []) []) { estimated_hours = 3 } ∷ [],
      record { action_id = 1; base_hours = 5; least_outcome_credit = 50; remaining_hours = 3 } ∷ [],
    )
unfolding adjust_all evaluation_of sorted
adjust_all_run = refl

adjust_all-AllAdjusted_example :
    (us : List ActivityTemplate) × (ds : List Decision) × (adjust_all exact half_learned
        (template 1 (10 ∷ []) [] ∷ [])
      ≡ ok (us, ds))
    × AllAdjusted exact half_learned (template 1 (10 ∷ []) [] ∷ []) us ds
unfolding evaluation_of
adjust_all-AllAdjusted_example =
    adjust_all-AllAdjusted exact half_learned (template 1 (10 ∷ []) [] ∷ [])
      (((record (judged 10 partial) { credit = 50 }, refl), tt), tt)
