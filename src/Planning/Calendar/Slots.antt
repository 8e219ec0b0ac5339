-- ===== src/Planning/Calendar/Slots.antt =====
-- The slots that `flexible_weekly_slots` (src/jobtology_be/planning/calendar.py) returns: an
-- independent description, and the loop's invariant.
use jobtology_be.Common.{
  ℕ, zero, suc, ◌+◌, ◌*◌, ◌≤◌, ◌<◌, ◌≡◌, refl, ◌↔◌, ◌⊎◌, inl, inr, Bool, true, false, List, [], ◌∷◌,
  Any, ltb, leb, ◌==◌, if◌then◌else◌, arith, Bool-cases, eq_cases, ltb→lt, leb→le, not-ltb→le, done,
  subst,
}
use jobtology_be.Planning.Calendar.{
  slot_duration, PlanningSlot, week_of, Request, slot_at, takes_slot, allocate, slots_from,
}
use jobtology_be.Planning.Calendar.Windows.{Free, slot_is_available_iff}

-- The number of slots that count for a week.
unfoldable pub count_week : ℕ → List PlanningSlot → ℕ
count_week w [] = 0
count_week w (s ∷ ss) =
    let rest = count_week w ss in if s.capacity_week_key == w then suc rest else rest

-- A slot of the request: an available hour that ends by the target, under its week.
pub record IsSlot (r : Request) (s : PlanningSlot) : Type 0 where
  pub one_hour : s.ends_at ≡ s.starts_at + slot_duration
  pub in_time : s.ends_at ≤ r.target
  pub week : s.capacity_week_key ≡ week_of r.zone s.starts_at
  pub is_free : Free r.zone r.windows r.excluded s.starts_at s.ends_at

-- Slots from `t` on, in order and apart, each of them one of the request.
abbrev pub Calendar : Request → ℕ → List PlanningSlot → Type 0
Calendar r t [] = Unit
Calendar r t (s ∷ ss) = (t ≤ s.starts_at) × IsSlot r s × Calendar r s.ends_at ss

pub Calendar-from_earlier :
    (r : Request) (t u : ℕ) (ss : List PlanningSlot) → t ≤ u → Calendar r u ss → Calendar r t ss
Calendar-from_earlier r t u [] h c = tt
Calendar-from_earlier r t u (s ∷ ss) h c = (omega arith, c.1, c.2)

module _ (r : Request) where
  -- The `j`-th hour from `t` ends by the target and is available.
  abbrev pub Offered : ℕ → ℕ → Type 0
  Offered t j =
      (t + j * slot_duration + slot_duration ≤ r.target)
      × Free r.zone r.windows r.excluded (t + j * slot_duration)
          (t + j * slot_duration + slot_duration)

  -- The hour at `u` is a slot, or its week has no hour left.
  abbrev pub Settled : (ℕ → ℕ) → List PlanningSlot → ℕ → Type 0
  Settled used ss u =
      Any (λ s. s.starts_at ≡ u) ss
      ⊎ (r.hours_per_week ≤ used (week_of r.zone u) + count_week (week_of r.zone u) ss)

  -- What is said of the slots from `t` on, where `used` hours of each week are taken.
  pub record IsPlanned (t : ℕ) (used : ℕ → ℕ) (ss : List PlanningSlot) : Type 0 where
    pub calendar : Calendar r t ss
    pub capped : (w : ℕ) → used w ≤ r.hours_per_week → used w + count_week w ss ≤ r.hours_per_week
    pub filled : (j : ℕ) → Offered t j → Settled used ss (t + j * slot_duration)

  takes_slot_lem :
      (t n : ℕ)
      → (b : Bool) × (takes_slot r t n ≡ done b)
        × ((b ≡ true)
            ↔ ((n < r.hours_per_week) × Free r.zone r.windows r.excluded t (t + slot_duration)))
  unfolding takes_slot
  takes_slot_lem t n = elim (Bool-cases (ltb n r.hours_per_week)) [
    | inl room ↦
        let (b, ends, same) =
          slot_is_available_iff r.zone r.windows r.excluded t (t + slot_duration) in
        (
          b,
          rw room ends,
          (
            (λ e. (ltb→lt n r.hours_per_week room, (same.0 e).2)),
            λ f. same.1 (omega arith, omega arith, f.1),
          ),
        )
    | inr full ↦ (
      false,
      rw full,
      ((λ e. absurd (cc e)), λ f. absurd (omega (arith, not-ltb→le n r.hours_per_week full))),
    )
  ]

  -- An hour of the rest, seen from the hour before.
  next_hour_of :
      (P : ℕ → Type 0) (t j : ℕ)
      → P (t + slot_duration + j * slot_duration)
      → P (t + suc j * slot_duration)
  next_hour_of P t j h =
      subst P
        (let e : t + slot_duration + j * slot_duration ≡ t + suc j * slot_duration = omega arith in
          e)
        h

  first_hour_of : (P : ℕ → Type 0) (t : ℕ) → P t → P (t + 0 * slot_duration)
  first_hour_of P t h = subst P (let e : t ≡ t + 0 * slot_duration = omega arith in e) h

  last_hour_of :
      (P : ℕ → Type 0) (t j : ℕ)
      → P (t + suc j * slot_duration)
      → P (t + slot_duration + j * slot_duration)
  last_hour_of P t j h =
      subst P
        (let e : t + suc j * slot_duration ≡ t + slot_duration + j * slot_duration = omega arith in
          e)
        h

  Hour : ℕ → Type 0
  Hour u = (u + slot_duration ≤ r.target) × Free r.zone r.windows r.excluded u (u + slot_duration)

  Settled-allocate :
      (t u : ℕ) (used : ℕ → ℕ) (ss : List PlanningSlot)
      → Settled (allocate used (week_of r.zone t)) ss u
      → Settled used (slot_at r t ∷ ss) u
  unfolding allocate slot_at count_week
  Settled-allocate t u used ss (inl a) = inl (inr a)
  Settled-allocate t u used ss (inr h) = inr (ground arith)

  allocate-IsPlanned :
      (t : ℕ) (used : ℕ → ℕ) (ss : List PlanningSlot)
      → t + slot_duration ≤ r.target
      → used (week_of r.zone t) < r.hours_per_week
      → Free r.zone r.windows r.excluded t (t + slot_duration)
      → IsPlanned (t + slot_duration) (allocate used (week_of r.zone t)) ss
      → IsPlanned t used (slot_at r t ∷ ss)
  unfolding allocate slot_at count_week Hour
  allocate-IsPlanned t used ss in_time room free h = record {
    calendar = (
      omega arith,
      record { one_hour = refl; in_time = in_time; week = refl; is_free = free },
      h.calendar,
    );
    capped = λ w ok. elim (eq_cases w (week_of r.zone t)) [
      | inl same ↦ ground (arith, h.capped w)
      | inr other ↦ ground (arith, h.capped w)
    ];
    filled = fill;
  }
    where
      fill : (j : ℕ) → Offered t j → Settled used (slot_at r t ∷ ss) (t + j * slot_duration)
      fill zero o = inl (inl (omega arith))
      fill (suc j) o = next_hour_of (Settled used (slot_at r t ∷ ss)) t j (
          Settled-allocate t (t + slot_duration + j * slot_duration) used ss
            (h.filled j (last_hour_of Hour t j o)))

  -- A round past the target.
  end-IsPlanned :
      (t : ℕ) (used : ℕ → ℕ) → leb (t + slot_duration) r.target ≡ false → IsPlanned t used []
  unfolding count_week
  end-IsPlanned t used over = record {
    calendar = tt;
    capped = λ w ok. omega arith;
    filled = λ j o. absurd (ground (arith, o.0));
  }

  -- A round that takes no slot.
  skip-IsPlanned :
      (t : ℕ) (used : ℕ → ℕ) (ss : List PlanningSlot)
      → (¬ (
          (used (week_of r.zone t) < r.hours_per_week)
          × Free r.zone r.windows r.excluded t (t + slot_duration)))
      → IsPlanned (t + slot_duration) used ss
      → IsPlanned t used ss
  unfolding Hour
  skip-IsPlanned t used ss busy h = record {
    calendar = Calendar-from_earlier r t (t + slot_duration) ss (omega arith) h.calendar;
    capped = h.capped;
    filled = fill;
  }
    where
      full :
          Free r.zone r.windows r.excluded t (t + slot_duration)
          → r.hours_per_week ≤ used (week_of r.zone t)
      full f = elim (Bool-cases (ltb (used (week_of r.zone t)) r.hours_per_week)) [
        | inl room ↦ absurd (busy (ltb→lt (used (week_of r.zone t)) r.hours_per_week room, f))
        | inr none_left ↦ not-ltb→le (used (week_of r.zone t)) r.hours_per_week none_left
      ]

      fill : (j : ℕ) → Offered t j → Settled used ss (t + j * slot_duration)
      fill zero o =
          let now : Hour t = subst Hour (let e : t + 0 * slot_duration ≡ t = omega arith in e) o in
          first_hour_of (Settled used ss) t (inr (omega (arith, full now.1)))
      fill (suc j) o = next_hour_of (Settled used ss) t j (h.filled j (last_hour_of Hour t j o))

  -- The loop ends: each round moves an hour on towards the target.
  pub slots_from-IsPlanned :
      (k t : ℕ) (used : ℕ → ℕ)
      → r.target < t + k * slot_duration + slot_duration
      → (ss : List PlanningSlot) × (slots_from r (suc k) t used ≡ done ss) × IsPlanned t used ss
  unfolding slots_from
  slots_from-IsPlanned zero t used h =
      let over : leb (t + slot_duration) r.target ≡ false = ground arith in
      ([], rw over, end-IsPlanned t used over)
  slots_from-IsPlanned (suc k) t used h = elim (Bool-cases (leb (t + slot_duration) r.target)) [
    | inr over ↦ ([], rw over, end-IsPlanned t used over)
    | inl within ↦
        let (free, ends, means) = takes_slot_lem t (used (week_of r.zone t)) in
        let (later, later_ends, skipped) =
          slots_from-IsPlanned k (t + slot_duration) used (omega arith) in
        let (rest, rest_ends, taken) =
          slots_from-IsPlanned k (t + slot_duration) (allocate used (week_of r.zone t))
            (omega arith) in
        elim (Bool-cases free) [
          | inl yes_free ↦
              let m = means.0 yes_free in
              (
                slot_at r t ∷ rest,
                rw (within, ends, yes_free, rest_ends),
                allocate-IsPlanned t used rest (leb→le (t + slot_duration) r.target within) m.0 m.1
                    taken,
              )
          | inr busy ↦ (
            later,
            rw (within, ends, busy, later_ends),
            skip-IsPlanned t used later (λ m. cc (busy, means.1 m)) skipped,
          )
        ]
  ]
