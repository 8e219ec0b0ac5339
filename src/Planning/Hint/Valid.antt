-- ===== src/Planning/Hint/Valid.antt =====
-- A valid list schedule keeps the constraints of the model (`_add_schedule_hint` and
-- `build_route_model` of src/jobtology_be/planning/cp_sat_model.py), one by one.
use jobtology_be.Common.{
  ℕ, ◌*◌, ◌≤◌, ◌<◌, ◌≡◌, refl, sym, subst, inl, inr, Bool, true, false, List, [], ◌∷◌, map, is_some,
  ltb, ltb→lt, elem, All, All-map, IsNodup, length, bit, total, total-cong, total_one, arith,
  Bool-cases,
}
use jobtology_be.Planning.Templates.{Candidate}
use jobtology_be.Planning.Problem.{PlanningProblem}
use jobtology_be.Planning.Route.{
  is_available, availability_of, slots_of, available_capacity, is_unknown,
}
use jobtology_be.Planning.Hint.{Slot, Schedule, chosen_for, after_slots}
use jobtology_be.Planning.Hint.Sublists.{Sub, Rising, enumerate-Rising, total-Sub, index}
use jobtology_be.Planning.Hint.Totals.{elem-Sub}
use jobtology_be.Planning.Hint.Capacity.{in_week, within_capacity, chosen_for-le}
use jobtology_be.Planning.Hint.Invariant.{ids_of, IsValid}
use jobtology_be.Planning.Hint.Chosen.{IsDecided, all-IsDecided}

pub below_maximum : (es : List Slot) → All (λ e. e.0 < after_slots es) es
below_maximum [] = tt
below_maximum (e ∷ es) = (
  omega arith,
  All-map (λ u. u.0 < after_slots es) (λ u. u.0 < after_slots (e ∷ es)) es (λ u h. omega (arith, h))
      (below_maximum es),
)

bits_of : (b : Bool) (n : ℕ) → (b ≡ true → n ≡ 1) → n * bit b ≡ bit b
bits_of true n h = omega (arith, h refl)
bits_of false n h = omega arith

module _ (p : PlanningProblem) (cs : List Candidate) (s : Schedule) where
  abbrev pub slots_for : Candidate → List Slot
  slots_for c = chosen_for c.action_id s.allocations

  abbrev pub is_selected : Candidate → Bool
  is_selected c = ltb 0 (length (slots_for c))

  abbrev pub is_assigned : Candidate → Slot → Bool
  is_assigned c e = elem e.0 (map index (slots_for c))

  Rising-calendar : Rising (slots_of p)
  Rising-calendar = enumerate-Rising 0 p.calendar

  nowhere :
      (P : Slot → Type 0) (es : List Slot) → All (λ e. elem e.0 (map index []) ≡ true → P e) es
  nowhere P [] = tt
  nowhere P (e ∷ es) = ((λ h. absurd (cc h)), nowhere P es)

  module _ (n : IsNodup (ids_of cs)) (positive : All (λ c. 1 ≤ c.estimated_hours) cs)
      (v : IsValid p cs s) where
    pub decided : All (IsDecided p cs n positive s.allocations v.entries) cs
    decided = all-IsDecided p cs n positive s.allocations v.entries

    abbrev pub Decided : Candidate → Type 0
    Decided = IsDecided p cs n positive s.allocations v.entries

    -- The slots of a candidate stand in the calendar, and a sum over the calendar is one over them.
    pub sum_of :
        (f : Slot → ℕ) (c : Candidate)
        → Decided c
        → total (λ e. f e * bit (is_assigned c e)) (slots_of p) ≡ total f (slots_for c)
    sum_of f c (inl d) =
        total-Sub f (slots_for c) (slots_of p) Rising-calendar
          (subst (λ xs. Sub xs (slots_of p)) (sym d.1) tt)
    sum_of f c (inr d) =
        let chosen = d.2 in total-Sub f (slots_for c) (slots_of p) Rising-calendar chosen.picked

    -- What the slots of a candidate have, every assigned slot of the calendar has.
    pub assigned_have :
        (P : Slot → Type 0) (c : Candidate)
        → Decided c
        → All P (slots_for c)
        → All (λ e. is_assigned c e ≡ true → P e) (slots_of p)
    assigned_have P c (inl d) h =
        subst (λ xs. All (λ e. elem e.0 (map index xs) ≡ true → P e) (slots_of p)) (sym d.1)
          (nowhere P (slots_of p))
    assigned_have P c (inr d) h =
        let chosen = d.2 in elem-Sub P (slots_for c) (slots_of p) Rising-calendar chosen.picked h

    pub hours_of :
        (c : Candidate)
        → Decided c
        → total (λ e. bit (is_assigned c e)) (slots_of p) ≡ c.estimated_hours * bit (is_selected c)
    hours_of c d =
        let counted = sum_of (λ e. 1) c d in
        let same =
          total-cong (λ e. bit (is_assigned c e)) (λ e. 1 * bit (is_assigned c e)) (slots_of p)
            (ones (slots_of p)) in
        let one = total_one (slots_for c) in
        let needed : length (slots_for c) ≡ c.estimated_hours * bit (is_selected c) = length_of d in
        omega (arith, same, counted, one, needed)
      where
        ones : (es : List Slot) → All (λ e. bit (is_assigned c e) ≡ 1 * bit (is_assigned c e)) es
        ones [] = tt
        ones (e ∷ es) = (omega arith, ones es)

        length_of : Decided c → length (slots_for c) ≡ c.estimated_hours * bit (is_selected c)
        length_of (inl d) =
            subst (λ xs. length xs ≡ c.estimated_hours * bit (ltb 0 (length xs))) (sym d.1)
              (omega arith)
        length_of (inr d) =
            let chosen = d.2 in
            let hours = chosen.hours in
            let some_hours = d.1 in
            let taken : is_selected c ≡ true = ground (arith, some_hours) in
            rw taken (omega (arith, hours))

    pub only_available_of :
        (c : Candidate)
        → Decided c
        → All
            (λ e.
              is_available e.1 (availability_of p c.action_id) ≡ false → is_assigned c e ≡ false)
            (slots_of p)
    only_available_of c d =
        All-map
          (λ e. is_assigned c e ≡ true → is_available e.1 (availability_of p c.action_id) ≡ true)
          (λ e. is_available e.1 (availability_of p c.action_id) ≡ false → is_assigned c e ≡ false)
          (slots_of p)
          (λ e h off. elim (Bool-cases (is_assigned c e)) [
            | inl used ↦ absurd (cc (h used, off))
            | inr other ↦ other
          ])
          (assigned_have (λ e. is_available e.1 (availability_of p c.action_id) ≡ true) c d
            (all_available d))
      where
        all_available :
            Decided c
            → All (λ e. is_available e.1 (availability_of p c.action_id) ≡ true) (slots_for c)
        all_available (inl d) =
            subst (λ xs. All (λ e. is_available e.1 (availability_of p c.action_id) ≡ true) xs)
              (sym d.1) tt
        all_available (inr d) = let chosen = d.2 in chosen.available

    unselected : (c : Candidate) → chosen_for c.action_id s.allocations ≡ [] → is_selected c ≡ false
    unselected c e = rw e refl

    pub week_limit :
        (w : ℕ) → total (λ x. in_week w x.1) s.allocations ≤ p.constraints.available_hours_per_week
    week_limit w = omega (arith, v.weeks w, v.within w)

    pub fits_of :
        (c : Candidate)
        → Decided c
        → ltb (available_capacity p c) c.estimated_hours ≡ true
        → is_selected c ≡ false
    fits_of c (inl d) h = unselected c d.1
    fits_of c (inr d) h =
        let chosen = d.2 in
        let hours = chosen.hours in
        let fits = within_capacity p c (slots_for c) chosen.picked chosen.available (λ w.
          omega (arith, chosen_for-le (in_week w) c.action_id s.allocations refl, week_limit w)) in
        absurd (omega (arith, hours, fits, ltb→lt (available_capacity p c) c.estimated_hours h))

    pub costs_of :
        is_some p.constraints.max_out_of_pocket_krw ≡ true
        → (c : Candidate) → Decided c
        → is_unknown c.cost ≡ true
        → is_selected c ≡ false
    costs_of capped c (inl d) h = unselected c d.1
    costs_of capped c (inr d) h = let chosen = d.2 in absurd (cc (chosen.cost_known capped, h))
