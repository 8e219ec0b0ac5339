-- ===== src/Planning/Hint/Hinted.antt =====
-- The hint of `_add_schedule_hint` keeps every constraint of the model
-- (src/jobtology_be/planning/cp_sat_model.py).
use jobtology_be.Common.{
  ℕ, ◌*◌, ◌≤◌, ◌<◌, ◌≡◌, refl, subst, inl, inr, Bool, true, false, Option, some, List, [], ◌∷◌,
  ◌++◌, map, is_some, lt→ltb, subset, elem, In, elem→In, In→elem, In-append, ◌==◌, All, All-map,
  IsNodup, length, bit, maximum-le, arith, Bool-cases, ok, done,
}
use mathlib.Core.Option.{some-injective}
use jobtology_be.Planning.Templates.{Candidate}
use jobtology_be.Planning.Problem.{PlanningProblem, check_calendar}
use jobtology_be.Planning.Route.{
  slots_of, from_start, validate_candidates, Values, completion, covered, Satisfies,
}
use jobtology_be.Planning.Hint.{
  Slot, Schedule, chosen_for, after_slots, hinted, covered_keys, hint_of, schedule_hint,
}
use jobtology_be.Planning.Hint.Sublists.{index}
use jobtology_be.Planning.Hint.Timed.{Timed, Timed-InTime, InTime, check_calendar-Timed}
use jobtology_be.Planning.Hint.Invariant.{ids_of, IsValid}
use jobtology_be.Planning.Hint.Run.{list_schedule_ends, validate_candidates-apart}
use jobtology_be.Planning.Hint.Chosen.{Behind, validate_candidates-positive}
use jobtology_be.Planning.Hint.Valid.{
  slots_for, is_selected, is_assigned, decided, Decided, assigned_have, hours_of, only_available_of,
  fits_of, costs_of,
}
use jobtology_be.Planning.Hint.Feasible.{
  every, one_at_a_time_of, within_week_of, within_budget_of, prerequisites_selected_of,
  completions_of,
}
use jobtology_be.Planning.Hint.Earliest.{hours_in_calendar_of, earliest_of}

elem_below : (i : ℕ) (xs : List Slot) → elem i (map index xs) ≡ true → i < after_slots xs
elem_below i [] h = absurd (cc h)
elem_below i (x ∷ xs) h = elim (Bool-cases (i == x.0)) [
  | inl e ↦ ground (arith, e)
  | inr e ↦ omega (arith, elem_below i xs (rw e at h))
]

module _ (p : PlanningProblem) (cs : List Candidate) (s : Schedule) (n : IsNodup (ids_of cs))
    (positive : All (λ c. 1 ≤ c.estimated_hours) cs) (v : IsValid p cs s)
    (timed : Timed p.planning_started_at.instant p.constraints.target_by p.calendar) where
  -- An action whose slots lie before a slot is completed when that slot begins.
  completed_before :
      (q : ℕ) (e : Slot)
      → All (InTime p.constraints.target_by e) (slots_of p)
      → after_slots (chosen_for q s.allocations) ≤ e.0
      → completion p (hinted s) q ≤ from_start p e.1.starts_at
  unfolding completion hinted
  completed_before q e h k =
      let ys = chosen_for q s.allocations in
      maximum-le (λ u. from_start p u.1.ends_at * bit (elem u.0 (map index ys)))
        (from_start p e.1.starts_at) (slots_of p)
        (All-map (InTime p.constraints.target_by e)
          (λ u.
            from_start p u.1.ends_at * bit (elem u.0 (map index ys)) ≤ from_start p e.1.starts_at)
          (slots_of p) counted h)
    where
      counted :
          (u : Slot)
          → InTime p.constraints.target_by e u
          → from_start p u.1.ends_at * bit (elem u.0 (map index (chosen_for q s.allocations)))
            ≤ from_start p e.1.starts_at
      counted u in_time = elim (Bool-cases (elem u.0 (map index (chosen_for q s.allocations)))) [
        | inl t ↦
            let below = elem_below u.0 (chosen_for q s.allocations) t in
            let bound = in_time (omega (arith, below, k)) in rw t (omega (arith, bound))
        | inr t ↦ rw t (omega arith)
      ]

  prerequisites_first_of :
      (c : Candidate)
      → Decided p cs s n positive v c
      → All
          (λ q.
            All
              (λ e.
                is_assigned p cs s c e ≡ true
                → completion p (hinted s) q ≤ from_start p e.1.starts_at)
              (slots_of p))
          c.prerequisite_action_ids
  prerequisites_first_of c (inl d) =
      every
        (λ q.
          All
            (λ e.
              is_assigned p cs s c e ≡ true
              → completion p (hinted s) q ≤ from_start p e.1.starts_at)
            (slots_of p))
        c.prerequisite_action_ids
        (λ q.
          every
            (λ e.
              is_assigned p cs s c e ≡ true
              → completion p (hinted s) q ≤ from_start p e.1.starts_at)
            (slots_of p)
            (λ e h.
              let unused : is_assigned p cs s c e ≡ false = rw d.1 refl in absurd (cc (unused, h))))
  prerequisites_first_of c (inr d) =
      let chosen = d.2 in
      All-map (Behind p cs n s.allocations (slots_for p cs s c))
        (λ q.
          All
            (λ e.
              is_assigned p cs s c e ≡ true
              → completion p (hinted s) q ≤ from_start p e.1.starts_at)
            (slots_of p))
        c.prerequisite_action_ids (λ q b. of_one q b.1) chosen.behind
    where
      pairs :
          (q : ℕ) (es : List Slot)
          → All
              (λ e. is_assigned p cs s c e ≡ true → after_slots (chosen_for q s.allocations) ≤ e.0)
              es
          → All (λ e. All (InTime p.constraints.target_by e) (slots_of p)) es
          → All
              (λ e.
                is_assigned p cs s c e ≡ true
                → completion p (hinted s) q ≤ from_start p e.1.starts_at)
              es
      pairs q [] a b = tt
      pairs q (e ∷ es) a b = ((λ h. completed_before q e b.0 (a.0 h)), pairs q es a.1 b.1)

      of_one :
          (q : ℕ)
          → All (λ e. after_slots (chosen_for q s.allocations) ≤ e.0) (slots_for p cs s c)
          → All
              (λ e.
                is_assigned p cs s c e ≡ true
                → completion p (hinted s) q ≤ from_start p e.1.starts_at)
              (slots_of p)
      of_one q b =
          pairs q (slots_of p)
            (assigned_have p cs s n positive v (λ e. after_slots (chosen_for q s.allocations) ≤ e.0)
              c (inr d) b)
            (Timed-InTime p.constraints.target_by p.planning_started_at.instant 0 p.calendar timed)

  -- A covered requirement is an outcome of a selected candidate.
  covered_of :
      (k : ℕ) (ds : List Candidate)
      → All (Decided p cs s n positive v) ds
      → In k (covered_keys s ds)
      → covered ds (hinted s) k ≡ true
  unfolding covered hinted
  covered_of k [] h i = absurd i
  covered_of k (c ∷ ds) h i = elim h.0 [
    | inl d ↦
        let rest : In k (covered_keys s ds) = rw d.0 at i in
        ground (arith, covered_of k ds h.1 rest)
    | inr d ↦
        let parts : In k (c.outcome_requirement_keys ++ covered_keys s ds) = rw d.0 at i in
        let selected : is_selected p cs s c ≡ true = lt→ltb 0 (length (slots_for p cs s c)) d.1 in
        elim (In-append k c.outcome_requirement_keys (covered_keys s ds) parts) [
          | inl here ↦ ground (arith, In→elem k c.outcome_requirement_keys here, selected)
          | inr later ↦ ground (arith, covered_of k ds h.1 later)
        ]
  ]

  covers_required_of :
      (ks : List ℕ)
      → subset ks (covered_keys s cs) ≡ true
      → All (λ k. covered cs (hinted s) k ≡ true) ks
  covers_required_of [] h = tt
  covers_required_of (k ∷ ks) h = elim (Bool-cases (elem k (covered_keys s cs))) [
    | inl e ↦ (
      covered_of k cs (decided p cs s n positive v) (elem→In k (covered_keys s cs) e),
      covers_required_of ks (rw e at h),
    )
    | inr e ↦ absurd (cc (rw e at h))
  ]

  hinted-Satisfies :
      (require : Bool)
      → (require ≡ true → subset p.required_requirement_keys (covered_keys s cs) ≡ true)
      → Satisfies p cs require (hinted s)
  unfolding hinted
  hinted-Satisfies require covers = record {
    completions_in_horizon =
        every (λ c. completion p (hinted s) c.action_id ≤ _) cs
          (λ c. completions_of p cs s n positive v timed c.action_id);
    fits_capacity = All-map (Decided p cs s n positive v) _ cs (fits_of p cs s n positive v) all;
    hours_assigned = All-map (Decided p cs s n positive v) _ cs (hours_of p cs s n positive v) all;
    only_available =
        All-map (Decided p cs s n positive v) _ cs (only_available_of p cs s n positive v) all;
    costs_known = λ capped.
        All-map (Decided p cs s n positive v) _ cs (costs_of p cs s n positive v capped) all;
    one_at_a_time = one_at_a_time_of p cs s n positive v;
    within_week = within_week_of p cs s n positive v;
    prerequisites_selected =
        All-map (Decided p cs s n positive v) _ cs (prerequisites_selected_of p cs s n positive v)
          all;
    prerequisites_first = All-map (Decided p cs s n positive v) _ cs prerequisites_first_of all;
    within_budget = within_budget_of p cs s n positive v;
    covers_required = λ e. covers_required_of p.required_requirement_keys (covers e);
    hours_in_calendar = hours_in_calendar_of p cs s n positive v;
    earliest_completion = earliest_of p cs s n positive v timed;
  }
    where
      all : All (Decided p cs s n positive v) cs
      all = decided p cs s n positive v

hint_of-Satisfies :
    (p : PlanningProblem) (cs : List Candidate) (s : Schedule) (n : IsNodup (ids_of cs))
    → All (λ c. 1 ≤ c.estimated_hours) cs
    → IsValid p cs s
    → Timed p.planning_started_at.instant p.constraints.target_by p.calendar
    → (require : Bool) (v : Values) → hint_of p cs require s ≡ some v
    → Satisfies p cs require v
unfolding hint_of
hint_of-Satisfies p cs s n positive v timed false w e =
    subst (Satisfies p cs false) (some-injective (hinted s) w e)
      (hinted-Satisfies p cs s n positive v timed false (λ t. absurd (cc t)))
hint_of-Satisfies p cs s n positive v timed true w e =
    elim (Bool-cases (subset p.required_requirement_keys (covered_keys s cs))) [
      | inl t ↦
          subst (Satisfies p cs true) (some-injective (hinted s) w (rw t at e))
            (hinted-Satisfies p cs s n positive v timed true (λ _. t))
      | inr t ↦ absurd (cc (rw t at e))
    ]

-- For candidates that `_validate_candidates` accepts and an accepted calendar of slots that do not
-- end before they begin, the list schedule ends; it gives a hint where no coverage is asked for; and
-- each hint satisfies every constraint of the model.
pub schedule_hint-Satisfies :
    (p : PlanningProblem) (cs : List Candidate) (require : Bool)
    → validate_candidates cs ≡ ok tt
    → check_calendar p.planning_started_at.instant p.constraints.target_by p.calendar ≡ ok tt
    → All (λ s. s.starts_at ≤ s.ends_at) p.calendar
    → (hint : Option Values) × (schedule_hint p cs require ≡ done hint)
      × (require ≡ false → is_some hint ≡ true)
      × ((v : Values) → hint ≡ some v → Satisfies p cs require v)
unfolding schedule_hint hint_of
schedule_hint-Satisfies p cs require h c slots =
    let ends = list_schedule_ends p cs h in
    let s = ends.0 in
    rw (ends.1, schedule_hint)
      (
        hint_of p cs require s,
        refl,
        (λ off. rw off refl),
        hint_of-Satisfies p cs s (validate_candidates-apart cs h)
            (validate_candidates-positive cs h) ends.2
            (check_calendar-Timed p.planning_started_at.instant p.constraints.target_by p.calendar
              slots c)
            require,
      )
