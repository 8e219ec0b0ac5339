-- ===== src/Planning/Calendar.antt =====
-- The hourly calendar of a plan (src/jobtology_be/planning/calendar.py, and WeeklyAvailabilityWindow
-- of src/jobtology_be/contracts.py). Instants are microseconds of UTC. What `datetime` and `zoneinfo`
-- compute of an instant in the goal's timezone is a parameter; a timestamp has the clock time and the
-- `fold` that `astimezone` gives its instant, so that no clock time is one that a change skips. The
-- text `2026-W07` of a week, and the pair (2026, 7) that counts its hours, stand as the number 202607.
pub mod Windows
pub mod Slots
pub mod Bounds
use jobtology_be.Common.{
  ℕ, zero, suc, ◌+◌, ◌-◌, ◌*◌, ◌/◌, Bool, true, false, not, ◌&&◌, ◌||◌, List, [], ◌∷◌, any, all,
  elem, ltb, leb, ◌==◌, if◌then◌else◌, min, Outcome, done, failed, diverge, then_do,
}
use jobtology_be.Editorial.{Timestamp, is_empty}

-- SLOT_DURATION
abbrev pub slot_duration : ℕ
slot_duration = 3600000000

-- MAX_FLEXIBLE_CALENDAR_HORIZON, 366 days.
abbrev pub max_flexible_calendar_horizon : ℕ
max_flexible_calendar_horizon = 31622400000000

-- A timezone, as the library gives it: of an instant the ISO year and week, the ordinal of the date,
-- the ISO weekday and the hour of the local time; the local clock, in microseconds from a midnight
-- on, and whether it shows a time for the second time (`fold`); and the instant that a clock time
-- with its `fold` stands for (`astimezone(UTC)`).
pub record Zone : Type 0 where
  pub iso_year : ℕ → ℕ
  pub iso_week : ℕ → ℕ
  pub local_date : ℕ → ℕ
  pub iso_weekday : ℕ → ℕ
  pub local_hour : ℕ → ℕ
  pub clock : ℕ → ℕ
  pub fold : ℕ → Bool
  pub instant_of : ℕ → Bool → ℕ

pub record WeeklyAvailabilityWindow : Type 0 where
  pub weekday : ℕ
  pub start_hour : ℕ
  pub end_hour : ℕ

pub record PlanningSlot : Type 0 where
  pub starts_at : ℕ
  pub ends_at : ℕ
  pub capacity_week_key : ℕ

pub data CalendarError : Type 0 where
  naive_timestamp weekly_availability_not_positive horizon_exceeded : CalendarError

pub week_of : Zone → ℕ → ℕ
week_of z t = z.iso_year t * 100 + z.iso_week t

-- A local time lies in a window.
pub in_window : Zone → ℕ → WeeklyAvailabilityWindow → Bool
in_window z t w =
    w.weekday == z.iso_weekday t
    && leb w.start_hour (z.local_hour t)
    && ltb (z.local_hour t) w.end_hour

-- The body of the loop of `slot_is_available`, for the segment from `cursor` to `segment_end`.
unfoldable pub segment_is_available : Zone → List WeeklyAvailabilityWindow → List ℕ → ℕ → ℕ → Bool
unfolding in_window
segment_is_available z windows excluded cursor segment_end =
    let tail = segment_end - 1 in
    not (elem (z.local_date cursor) excluded || elem (z.local_date tail) excluded)
    && (is_empty windows || (any (in_window z cursor) windows && any (in_window z tail) windows))

-- `while cursor < end`
available_from :
    Zone → List WeeklyAvailabilityWindow → List ℕ → ℕ → ℕ → ℕ → Outcome CalendarError Bool
available_from z windows excluded zero cursor end = diverge
available_from z windows excluded (suc fuel) cursor end =
    let segment_end = min (cursor + slot_duration) end in
    let rest = available_from z windows excluded fuel segment_end end in
    if ltb cursor end
    then (if segment_is_available z windows excluded cursor segment_end then rest else done false)
    else done true

-- `slot_is_available`, on timestamps that may be naive.
pub slot_is_available :
    Zone
    → List WeeklyAvailabilityWindow
    → List ℕ
    → Timestamp
    → Timestamp
    → Outcome CalendarError Bool
unfolding available_from
slot_is_available z windows excluded starts_at ends_at =
    let start = starts_at.instant in
    let end = ends_at.instant in
    if not starts_at.is_aware || not ends_at.is_aware
    then failed naive_timestamp
    else if leb end start || ltb max_flexible_calendar_horizon (end - start)
    then done false
    else available_from z windows excluded ((end - start) / slot_duration + 2) start end

-- `value.replace(minute=0, second=0, microsecond=0).astimezone(UTC)`: the date, the hour and `fold`
-- stay.
pub rounded : Zone → ℕ → ℕ
rounded z t = z.instant_of (z.clock t / slot_duration * slot_duration) (z.fold t)

-- `_next_hour`
pub next_hour : Zone → ℕ → ℕ
unfolding rounded
next_hour z t = if rounded z t == t then rounded z t else rounded z t + slot_duration

abbrev pub aware : ℕ → Timestamp
aware t = record { is_aware = true; instant = t }

-- The constant arguments of the loop.
pub record Request : Type 0 where
  pub zone : Zone
  pub target : ℕ
  pub hours_per_week : ℕ
  pub windows : List WeeklyAvailabilityWindow
  pub excluded : List ℕ

pub slot_at : Request → ℕ → PlanningSlot
unfolding week_of
slot_at r t = record {
  starts_at = t;
  ends_at = t + slot_duration;
  capacity_week_key = week_of r.zone t;
}

-- `allocated < available_hours_per_week and slot_is_available(…)`
pub takes_slot : Request → ℕ → ℕ → Outcome CalendarError Bool
unfolding slot_is_available
takes_slot r t allocated =
    if ltb allocated r.hours_per_week
    then slot_is_available r.zone r.windows r.excluded (aware t) (aware (t + slot_duration))
    else done false

-- `allocated_by_week[week] = allocated + 1`
pub allocate : (ℕ → ℕ) → ℕ → ℕ → ℕ
allocate used week w = if w == week then suc (used w) else used w

-- `while slot_start + SLOT_DURATION <= target_utc`: the slots that it appends.
pub slots_from : Request → ℕ → ℕ → (ℕ → ℕ) → Outcome CalendarError (List PlanningSlot)
unfolding week_of takes_slot slot_at allocate
slots_from r zero t used = diverge
slots_from r (suc fuel) t used =
    let week = week_of r.zone t in
    let skip = slots_from r fuel (t + slot_duration) used in
    let take =
      then_do (slots_from r fuel (t + slot_duration) (allocate used week))
        (λ rest. done (slot_at r t ∷ rest)) in
    if leb (t + slot_duration) r.target
    then then_do (takes_slot r t (used week)) (λ free. if free then take else skip)
    else done []

-- `flexible_weekly_slots`
unfoldable pub flexible_weekly_slots :
    Zone
    → Timestamp
    → Timestamp
    → ℕ
    → List WeeklyAvailabilityWindow
    → List ℕ
    → Outcome CalendarError (List PlanningSlot)
unfolding slots_from next_hour
flexible_weekly_slots z started target hours windows excluded =
    let r : Request = record {
      zone = z;
      target = target.instant;
      hours_per_week = hours;
      windows = windows;
      excluded = excluded;
    } in
    if not started.is_aware || not target.is_aware
    then failed naive_timestamp
    else if ltb hours 1
    then failed weekly_availability_not_positive
    else if leb target.instant started.instant
    then done []
    else if ltb max_flexible_calendar_horizon (target.instant - started.instant)
    then failed horizon_exceeded
    else let first = next_hour z started.instant in
      slots_from r ((target.instant - first) / slot_duration + 2) first (λ _. 0)
