-- ===== src/Planning/Hint/Timed.antt =====
-- What the accepted calendar of a planning problem (src/jobtology_be/planning/solver_models.py) says of
-- its indexed slots.
use jobtology_be.Common.{
  ℕ, suc, ◌≤◌, ◌<◌, ◌≡◌, false, not, List, [], ◌∷◌, ltb, All, All-map, enumerate, arith, sort_by,
  ok, raise_if, raise_if-ok, seq-ok, ◌>>◌,
}
use jobtology_be.Planning.Calendar.{PlanningSlot}
use jobtology_be.Planning.Problem.{
  calendar_not_ordered, calendar_overlaps, calendar_too_early, calendar_too_late, same_slots,
  by_start, overlaps, starts_early, ends_late, check_calendar,
}
use jobtology_be.Planning.Hint.{Slot}
use jobtology_be.Planning.Hint.Sublists.{enumerate-from}

-- Each slot begins at or after the end of the one before it, and ends by the target.
abbrev pub Timed : ℕ → ℕ → List PlanningSlot → Type 0
Timed t target [] = Unit
Timed t target (s ∷ ss) =
    (t ≤ s.starts_at) × (s.starts_at ≤ s.ends_at) × (s.ends_at ≤ target) × Timed s.ends_at target ss

Timed-of :
    (t target : ℕ) (ss : List PlanningSlot)
    → All (λ s. s.starts_at ≤ s.ends_at) ss
    → overlaps ss ≡ false
    → starts_early t ss ≡ false
    → ends_late target ss ≡ false
    → Timed t target ss
Timed-of t target [] h o e l = tt
Timed-of t target (s ∷ []) h o e l = (ground (arith, e), h.0, ground (arith, l), tt)
Timed-of t target (s ∷ u ∷ us) h o e l =
    let apart : ltb u.starts_at s.ends_at ≡ false = ground (arith, o) in
    let rest_apart : overlaps (u ∷ us) ≡ false = ground (arith, o) in
    let rest = Timed-of s.ends_at target (u ∷ us) h.1 rest_apart apart l in
    let lasts = rest.1 in
    let in_time = rest.2 in
    let after = rest.0 in (ground (arith, e), h.0, omega (arith, after, lasts, in_time), rest)

pub check_calendar-Timed :
    (t target : ℕ) (ss : List PlanningSlot)
    → All (λ s. s.starts_at ≤ s.ends_at) ss
    → check_calendar t target ss ≡ ok tt
    → Timed t target ss
unfolding check_calendar
check_calendar-Timed t target ss h e =
    let ordered =
      seq-ok (raise_if (not (same_slots (sort_by by_start ss) ss)) calendar_not_ordered)
        (do
          raise_if (overlaps ss) calendar_overlaps
          raise_if (starts_early t ss) calendar_too_early
          raise_if (ends_late target ss) calendar_too_late)
        tt e in
    let apart =
      seq-ok (raise_if (overlaps ss) calendar_overlaps)
        (do
          raise_if (starts_early t ss) calendar_too_early
          raise_if (ends_late target ss) calendar_too_late)
        tt ordered.1 in
    let early =
      seq-ok (raise_if (starts_early t ss) calendar_too_early)
        (raise_if (ends_late target ss) calendar_too_late) tt apart.1 in
    Timed-of t target ss h (raise_if-ok (overlaps ss) calendar_overlaps apart.0)
      (raise_if-ok (starts_early t ss) calendar_too_early early.0)
      (raise_if-ok (ends_late target ss) calendar_too_late early.1)

module _ (target : ℕ) where
  pub Timed-ends :
      (t i : ℕ) (ss : List PlanningSlot)
      → Timed t target ss
      → All (λ e. e.1.ends_at ≤ target) (enumerate i ss)
  Timed-ends t i [] c = tt
  Timed-ends t i (s ∷ ss) c = (c.2, Timed-ends s.ends_at (suc i) ss c.3)

  Timed-starts :
      (t i : ℕ) (ss : List PlanningSlot)
      → Timed t target ss
      → All (λ e. t ≤ e.1.starts_at) (enumerate i ss)
  Timed-starts t i [] c = tt
  Timed-starts t i (s ∷ ss) c =
      let first = c.0 in
      let lasts = c.1 in
      (
        c.0,
        All-map (λ e. s.ends_at ≤ e.1.starts_at) (λ e. t ≤ e.1.starts_at) (enumerate (suc i) ss)
            (λ e h. omega (arith, first, lasts, h)) (Timed-starts s.ends_at (suc i) ss c.3),
      )

  -- A slot of a lower index ends before one of a higher index begins.
  abbrev pub InTime : Slot → Slot → Type 0
  InTime e u = u.0 < e.0 → u.1.ends_at ≤ e.1.starts_at

  -- Of the slots from one on, none is of a lower index.
  none_before : (e : Slot) (us : List Slot) → All (λ u. e.0 ≤ u.0) us → All (InTime e) us
  none_before e [] h = tt
  none_before e (u ∷ us) h =
      (λ lt. absurd (let le = h.0 in omega (arith, le, lt)), none_before e us h.1)

  pub Timed-InTime :
      (t i : ℕ) (ss : List PlanningSlot)
      → Timed t target ss
      → All (λ e. All (InTime e) (enumerate i ss)) (enumerate i ss)
  Timed-InTime t i [] c = tt
  Timed-InTime t i (s ∷ ss) c =
      let later = Timed-starts s.ends_at (suc i) ss c.3 in
      (
        none_before (i, s) (enumerate i (s ∷ ss)) (enumerate-from i (s ∷ ss)),
        both (enumerate (suc i) ss) (enumerate (suc i) ss) later
            (Timed-InTime s.ends_at (suc i) ss c.3),
      )
    where
      both :
          (es us : List Slot)
          → All (λ e. s.ends_at ≤ e.1.starts_at) es
          → All (λ e. All (InTime e) us) es
          → All (λ e. All (InTime e) ((i, s) ∷ us)) es
      both [] us a b = tt
      both (e ∷ es) us a b = ((λ lt. a.0, b.0), both es us a.1 b.1)
