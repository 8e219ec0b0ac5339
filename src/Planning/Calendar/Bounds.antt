-- ===== src/Planning/Calendar/Bounds.antt =====
-- What `flexible_weekly_slots` (src/jobtology_be/planning/calendar.py) promises.
use jobtology_be.Common.{
  ℕ, suc, ◌+◌, ◌-◌, ◌*◌, ◌/◌, ◌≤◌, ◌<◌, ◌≡◌, ◌≢◌, eq_cases, ◌⊎◌, inl, inr, false, List, [], Any,
  ltb, leb, arith, Bool-cases, done,
}
use jobtology_be.Planning.Calendar.{
  slot_duration, max_flexible_calendar_horizon, Zone, WeeklyAvailabilityWindow, PlanningSlot,
  week_of, Request, aware, rounded, next_hour, flexible_weekly_slots,
}
use jobtology_be.Planning.Calendar.Slots.{count_week, Calendar, Offered, slots_from-IsPlanned}

-- The arguments of a call, as the loop sees them.
abbrev pub request : Zone → ℕ → ℕ → List WeeklyAvailabilityWindow → List ℕ → Request
request z target hours windows excluded = record {
  zone = z;
  target = target;
  hours_per_week = hours;
  windows = windows;
  excluded = excluded;
}

-- The instant that the hour on the clock began, as the zone resolves the clock's time with no minutes.
abbrev pub hour_start : Zone → ℕ → ℕ
hour_start z t = z.instant_of (z.clock t / slot_duration * slot_duration) (z.fold t)

-- The first whole hour is the start if an hour begins there, and an hour after its hour began
-- otherwise.
abbrev pub FirstHour : Zone → ℕ → ℕ → Type 0
FirstHour z started first =
    ((hour_start z started ≡ started) × (first ≡ started))
    ⊎ ((hour_start z started ≢ started) × (first ≡ hour_start z started + slot_duration))

next_hour-FirstHour : (z : Zone) (t : ℕ) → FirstHour z t (next_hour z t)
unfolding next_hour rounded
next_hour-FirstHour z t = elim (eq_cases (hour_start z t) t) [
  | inl same ↦ inl (same, ground (arith, same))
  | inr other ↦ inr (other, ground (arith, other))
]

-- If the hour on the clock began less than an hour ago, the first whole hour is not before the start.
pub FirstHour-ge :
    (z : Zone) (started first : ℕ)
    → FirstHour z started first
    → started < hour_start z started + slot_duration
    → started ≤ first
FirstHour-ge z started first (inl e) h = omega (arith, e.1)
FirstHour-ge z started first (inr e) h = omega (arith, e.1, h)

-- What a plan's calendar is: slots in order and apart from `first` on, each an available hour
-- that ends by the target, and at most the weekly hours in each week.
pub record IsCalendar (r : Request) (first : ℕ) (ss : List PlanningSlot) : Type 0 where
  pub in_order : Calendar r first ss
  pub within_hours : (w : ℕ) → count_week w ss ≤ r.hours_per_week

module _ (z : Zone) (started target hours : ℕ) (windows : List WeeklyAvailabilityWindow)
    (excluded : List ℕ) where
  -- For aware timestamps, a positive number of hours and a horizon of at most 366 days, the call
  -- ends with slots in order and apart from the first whole hour on, each an available hour that ends
  -- by the target, and at most the weekly hours in each week. It is greedy: of the hours from the
  -- first one on, each that is available and ends by the target is a slot, or the week it belongs to
  -- has no hour left. The first whole hour is the start if an hour on the clock begins there, and an
  -- hour after its clock hour began otherwise, which may be before the start where the clock was set
  -- back within the hour.
  pub flexible_weekly_slots-IsCalendar :
      1 ≤ hours
      → target - started ≤ max_flexible_calendar_horizon
      → (first : ℕ) × FirstHour z started first
        × (ss : List PlanningSlot) × (flexible_weekly_slots z
              (aware started)
              (aware target)
              hours
              windows
              excluded
            ≡ done ss)
        × IsCalendar (request z target hours windows excluded) first ss
        × ((j : ℕ)
            → started < target
            → Offered (request z target hours windows excluded) first j
            → let u = first + j * slot_duration in
              Any (λ s. s.starts_at ≡ u) ss ⊎ (hours ≤ count_week (week_of z u) ss))
  unfolding flexible_weekly_slots count_week
  flexible_weekly_slots-IsCalendar some_hours short = elim (Bool-cases (leb target started)) [
    | inl past ↦
        let positive : ltb hours 1 ≡ false = ground arith in
        (
          next_hour z started,
          next_hour-FirstHour z started,
          [],
          rw (positive, past),
          record { in_order = tt; within_hours = λ w. omega arith },
          λ j lt o. absurd (ground arith),
        )
    | inr future ↦
        let positive : ltb hours 1 ≡ false = ground arith in
        let near : ltb max_flexible_calendar_horizon (target - started) ≡ false = ground arith in
        let n = next_hour z started in
        let (ss, ends, planned) =
          slots_from-IsPlanned (request z target hours windows excluded)
            ((target - n) / slot_duration + 1) n (λ _. 0) (omega arith) in
        let fuel : (target - n) / slot_duration + 2 ≡ suc ((target - n) / slot_duration + 1) =
          omega arith in
        (
          n,
          next_hour-FirstHour z started,
          ss,
          rw (positive, future, near, fuel) ends,
          record {
            in_order = planned.calendar;
            within_hours = λ w. omega (arith, planned.capped w (omega arith));
          },
          λ j lt o. elim (planned.filled j o) [ inl a ↦ inl a | inr full ↦ inr (omega arith) ],
        )
  ]
