-- ===== src/Planning/Calendar/Windows.antt =====
-- When a span of time is available (`slot_is_available` of src/jobtology_be/planning/calendar.py).
use jobtology_be.Common.{
  ℕ, zero, suc, ◌+◌, ◌-◌, ◌*◌, ◌/◌, ◌≤◌, ◌<◌, ◌≡◌, refl, ◌↔◌, inl, inr, Bool, true, false, List,
  ltb, leb, min, arith, ◌⊎◌, [], ◌∷◌, any, Any, In, elem, elem→In, not-elem→In, Bool-cases, ltb→lt,
  not-ltb→le, done, subst, ◌||◌,
}
use jobtology_be.Editorial.{is_empty}
use jobtology_be.Planning.Calendar.{
  in_window, slot_duration, max_flexible_calendar_horizon, Zone, WeeklyAvailabilityWindow,
  segment_is_available, available_from, slot_is_available, aware,
}

-- A local time lies in a window: on its weekday, from its first hour on and before its last.
pub record InWindow (z : Zone) (t : ℕ) (w : WeeklyAvailabilityWindow) : Type 0 where
  pub same_day : w.weekday ≡ z.iso_weekday t
  pub not_before : w.start_hour ≤ z.local_hour t
  pub not_after : z.local_hour t < w.end_hour

in_window→InWindow :
    (z : Zone) (t : ℕ) (w : WeeklyAvailabilityWindow) → in_window z t w ≡ true → InWindow z t w
unfolding in_window
in_window→InWindow z t w h = record {
  same_day = ground (arith, h);
  not_before = ground (arith, h);
  not_after = ground (arith, h);
}

InWindow→in_window :
    (z : Zone) (t : ℕ) (w : WeeklyAvailabilityWindow) → InWindow z t w → in_window z t w ≡ true
unfolding in_window
InWindow→in_window z t w h = ground (arith, h.same_day, h.not_before, h.not_after)

any→InWindow :
    (z : Zone) (t : ℕ) (ws : List WeeklyAvailabilityWindow)
    → any (in_window z t) ws ≡ true
    → Any (InWindow z t) ws
any→InWindow z t [] h = absurd (cc h)
any→InWindow z t (w ∷ ws) h = elim (Bool-cases (in_window z t w)) [
  | inl e ↦ inl (in_window→InWindow z t w e)
  | inr e ↦ inr (any→InWindow z t ws (ground (arith, e, h)))
]

InWindow→any :
    (z : Zone) (t : ℕ) (ws : List WeeklyAvailabilityWindow)
    → Any (InWindow z t) ws
    → any (in_window z t) ws ≡ true
InWindow→any z t [] h = elim h [ ]
InWindow→any z t (w ∷ ws) (inl h) = let e = InWindow→in_window z t w h in ground (arith, e)
InWindow→any z t (w ∷ ws) (inr h) = let e = InWindow→any z t ws h in ground (arith, e)

module _ (z : Zone) (windows : List WeeklyAvailabilityWindow) (excluded : List ℕ) where
  -- An instant is open: its local date is not excluded, and its local time lies in one of the
  -- windows, if there are any.
  pub record IsOpen (t : ℕ) : Type 0 where
    pub date_open : ¬ In (z.local_date t) excluded
    pub time_open : (windows ≡ []) ⊎ Any (InWindow z t) windows

  -- Every hour from `c`, the last one cut off at `end`, is available: the first and the last
  -- microsecond of it are open.
  abbrev pub Free : ℕ → ℕ → Type 0
  Free c end =
      (k : ℕ)
      → c + k * slot_duration < end
      → IsOpen (c + k * slot_duration)
        × IsOpen (min (c + k * slot_duration + slot_duration) end - 1)

  date-shut : (t : ℕ) → ¬ In (z.local_date t) excluded → elem (z.local_date t) excluded ≡ false
  date-shut t h = elim (Bool-cases (elem (z.local_date t) excluded)) [
    | inl e ↦ absurd (h (elem→In (z.local_date t) excluded e))
    | inr e ↦ e
  ]

  windows_open : (t : ℕ) → IsOpen t → (is_empty windows || any (in_window z t) windows) ≡ true
  windows_open t o = elim o.time_open [
    | inl none_given ↦ rw none_given refl
    | inr a ↦ let e = InWindow→any z t windows a in ground (arith, e)
  ]

  is_empty→[] : (ws : List WeeklyAvailabilityWindow) → is_empty ws ≡ true → ws ≡ []
  is_empty→[] [] h = refl
  is_empty→[] (w ∷ ws) h = absurd (cc h)

  open_of :
      (t : ℕ)
      → elem (z.local_date t) excluded ≡ false
      → (is_empty windows || any (in_window z t) windows) ≡ true
      → IsOpen t
  open_of t date time = record {
    date_open = not-elem→In (z.local_date t) excluded date;
    time_open = elim (Bool-cases (is_empty windows)) [
      | inl e ↦ inl (is_empty→[] windows e)
      | inr e ↦ inr (any→InWindow z t windows (ground (arith, e, time)))
    ];
  }

  segment_is_available_lem :
      (c s : ℕ) → (segment_is_available z windows excluded c s ≡ true) ↔ (IsOpen c × IsOpen (s - 1))
  unfolding segment_is_available
  segment_is_available_lem c s = (
    (λ h. (
      open_of c (ground (arith, h)) (ground (arith, h)),
      open_of (s - 1) (ground (arith, h)) (ground (arith, h)),
    )),
    λ o.
        let first = date-shut c o.0.date_open in
        let last = date-shut (s - 1) o.1.date_open in
        let first_time = windows_open c o.0 in
        let last_time = windows_open (s - 1) o.1 in
        ground (arith, first, last, first_time, last_time),
  )

  Free-next :
      (c end : ℕ)
      → c < end
      → IsOpen c × IsOpen (min (c + slot_duration) end - 1)
      → Free (min (c + slot_duration) end) end ↔ Free c end
  Free-next c end lt ok = (to, from)
    where
      at : ℕ → ℕ → Type 0
      at t k = IsOpen t × IsOpen (min (t + slot_duration) end - 1)

      to : Free (min (c + slot_duration) end) end → Free c end
      to f zero h = subst (λ t. at t 0) (let e : c ≡ c + 0 * slot_duration = omega arith in e) ok
      to f (suc k) h =
          subst (λ t. at t 0)
            (let e : min (c + slot_duration) end + k * slot_duration ≡ c + suc k * slot_duration =
                omega arith in
              e)
            (f k (omega arith))

      from : Free c end → Free (min (c + slot_duration) end) end
      from f k h =
          subst (λ t. at t 0)
            (let e : c + suc k * slot_duration ≡ min (c + slot_duration) end + k * slot_duration =
                omega arith in
              e)
            (f (suc k) (omega arith))

  Free-first :
      (c end : ℕ) → c < end → Free c end → IsOpen c × IsOpen (min (c + slot_duration) end - 1)
  Free-first c end lt f =
      subst (λ t. IsOpen t × IsOpen (min (t + slot_duration) end - 1))
        (let e : c + 0 * slot_duration ≡ c = omega arith in e) (f 0 (omega arith))

  -- The loop ends, with the right answer.
  available_from_lem :
      (k c end : ℕ)
      → end ≤ c + k * slot_duration
      → (b : Bool) × (available_from z windows excluded (suc k) c end ≡ done b)
        × ((b ≡ true) ↔ Free c end)
  unfolding available_from
  available_from_lem zero c end h =
      let late : ltb c end ≡ false = ground arith in
      (true, rw late, ((λ e j lt. absurd (omega arith)), λ f. refl))
  available_from_lem (suc k) c end h = elim (Bool-cases (ltb c end)) [
    | inr late ↦
        (true, rw late, ((λ e j lt. absurd (omega (arith, not-ltb→le c end late))), λ f. refl))
    | inl early ↦
        let lt = ltb→lt c end early in
        let means = segment_is_available_lem c (min (c + slot_duration) end) in
        elim (Bool-cases
          (segment_is_available z windows excluded c (min (c + slot_duration) end))) [
            | inl ok ↦
                let (b, ends, same) =
                  available_from_lem k (min (c + slot_duration) end) end (omega arith) in
                let next = Free-next c end lt (means.0 ok) in
                (b, rw (early, ok) ends, ((λ e. next.0 (same.0 e)), λ f. same.1 (next.1 f)))
            | inr busy ↦ (
              false,
              rw (early, busy),
              ((λ e. absurd (cc e)), λ f. absurd (cc (busy, means.1 (Free-first c end lt f)))),
            )
          ]
  ]

  -- For aware timestamps the check ends; it answers yes exactly when the span is not empty, is no
  -- longer than the horizon, and of every hour of it, the last one cut off at its end, the first and
  -- the last microsecond are open: the local date is not an excluded one, and the local weekday and
  -- hour lie in one of the windows, if there are any.
  pub slot_is_available_iff :
      (start end : ℕ)
      → (b : Bool) × (slot_is_available z windows excluded (aware start) (aware end) ≡ done b)
        × ((b ≡ true)
            ↔ ((start < end) × (end - start ≤ max_flexible_calendar_horizon) × Free start end))
  unfolding slot_is_available
  slot_is_available_iff start end =
      elim (Bool-cases (leb end start || ltb max_flexible_calendar_horizon (end - start))) [
        | inl out ↦ (false, rw out, ((λ e. absurd (cc e)), λ f. absurd (ground (arith, f.0, f.1))))
        | inr within ↦
            let (b, ends, same) =
              available_from_lem ((end - start) / slot_duration + 1) start end (omega arith) in
            let start_lt : start < end = ground arith in
            let short : end - start ≤ max_flexible_calendar_horizon = ground arith in
            (
              b,
              rw within (
                  let e : (end - start) / slot_duration + 2
                      ≡ suc ((end - start) / slot_duration + 1) =
                    omega arith in
                  rw e ends),
              ((λ e. (start_lt, short, same.0 e)), λ f. same.1 f.2),
            )
      ]
