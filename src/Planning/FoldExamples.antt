-- ===== src/Planning/FoldExamples.antt =====
-- A calendar that starts where the clock goes back by half an hour
-- (src/jobtology_be/planning/calendar.py): Australia/Lord_Howe on 2026-04-05, where at 02:00 (15:00 in
-- UTC) it becomes 01:30.
use jobtology_be.Common.{
  ℕ, ◌+◌, ◌-◌, ◌/◌, ◌%◌, ◌≡◌, refl, ◌&&◌, ◌||◌, [], ◌∷◌, sort_by, ltb, leb, if◌then◌else◌, done,
  raise,
}
use jobtology_be.Planning.Calendar.{
  Zone, PlanningSlot, aware, segment_is_available, flexible_weekly_slots,
}
use jobtology_be.Planning.Problem.{check_calendar, calendar_too_early}

-- 2026-04-04T15:00:00Z, and the clock at this instant before and after the change.
abbrev change : ℕ
change = 1775314800000000

abbrev two_o_clock : ℕ
two_o_clock = change + 39600000000

abbrev half_past_one : ℕ
half_past_one = change + 37800000000

abbrev clock_at : ℕ → ℕ
clock_at t = if ltb t change then t + 39600000000 else t + 37800000000

abbrev lord_howe : Zone
lord_howe = record {
  iso_year = λ t. 2026;
  iso_week = λ t. 14;
  local_date = λ t. clock_at t / 86400000000;
  iso_weekday = λ t. (clock_at t / 86400000000 + 3) % 7 + 1;
  local_hour = λ t. clock_at t / 3600000000 % 24;
  clock = clock_at;
  fold = λ t. leb change t && ltb (clock_at t) two_o_clock;
  instant_of = λ w later.
      if leb two_o_clock w || (later && leb half_past_one w)
      then w - 37800000000
      else w - 39600000000;
}

-- A quarter of an hour after the change the clock shows 01:45 for the second time; 01:00 was an hour
-- and a quarter before.
abbrev started : ℕ
started = change + 900000000

abbrev early_slot : PlanningSlot
early_slot = record {
  starts_at = change;
  ends_at = change + 3600000000;
  capacity_week_key = 202614;
}

-- The slot starts before the plan does.
early_run :
    flexible_weekly_slots lord_howe (aware started) (aware (started + 3600000000)) 2 [] []
    ≡ done (early_slot ∷ [])
unfolding flexible_weekly_slots segment_is_available
early_run = refl

-- The checks of a planning problem refuse it.
early_refused :
    check_calendar started (started + 3600000000) (early_slot ∷ []) ≡ raise calendar_too_early
unfolding check_calendar sort_by
early_refused = refl
