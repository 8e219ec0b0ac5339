-- ===== src/Planning/Hint/Feasible.antt =====
-- The constraints between candidates, of a valid list schedule (`_add_schedule_hint` and
-- `build_route_model` of src/jobtology_be/planning/cp_sat_model.py).
use jobtology_be.Common.{
  ℕ, ◌-◌, ◌*◌, ◌≤◌, ◌≡◌, refl, sym, subst, inl, inr, Bool, true, false, some, List, [], ◌∷◌, map,
  ltb, lt→ltb, elem, ◌==◌, All, All-map, IsNodup, length, bit, total, total-cong, maximum-le, arith,
  Bool-cases,
}
use jobtology_be.Planning.Templates.{Candidate}
use jobtology_be.Planning.Problem.{PlanningProblem, known_cost, objective_snapshot}
use jobtology_be.Planning.Route.{slots_of, week_of_slot, from_start, completion}
use jobtology_be.Planning.Hint.{Slot, Schedule, chosen_for, hinted}
use jobtology_be.Planning.Hint.Sublists.{index}
use jobtology_be.Planning.Hint.Totals.{total-chosen_for}
use jobtology_be.Planning.Hint.Capacity.{in_week}
use jobtology_be.Planning.Hint.Timed.{Timed, Timed-ends}
use jobtology_be.Planning.Hint.Invariant.{Member, ids_of, cost_of, cost_of_lem, IsValid}
use jobtology_be.Planning.Hint.Chosen.{Behind, each-Member}
use jobtology_be.Planning.Hint.Valid.{
  slots_for, is_selected, is_assigned, decided, Decided, sum_of, week_limit,
}

bit_le : (b : Bool) → bit b ≤ 1
bit_le true = omega arith
bit_le false = omega arith

pub every : {A : Type 0} (P : A → Type 0) (xs : List A) → ((x : A) → P x) → All P xs
every P [] h = tt
every P (x ∷ xs) h = (h x, every P xs h)

module _ (p : PlanningProblem) (cs : List Candidate) (s : Schedule) (n : IsNodup (ids_of cs))
    (positive : All (λ c. 1 ≤ c.estimated_hours) cs) (v : IsValid p cs s) where
  -- A bound for what one allocation is worth holds of what all candidates make of their slots.
  worth_more :
      (g : Candidate → List Slot → ℕ) (worth : ℕ × List Slot → ℕ)
      → ((c : Candidate) → g c [] ≡ 0)
      → ((x : ℕ × List Slot) (c : Candidate) → Member c cs → x.0 ≡ c.action_id → g c x.1 ≤ worth x)
      → total (λ c. g c (slots_for p cs s c)) cs ≤ total worth s.allocations
  worth_more g worth z h = total-chosen_for g worth cs s.allocations n z (
      every (λ x. All (λ c. x.0 ≡ c.action_id → g c x.1 ≤ worth x) cs) s.allocations
        (λ x.
          All-map (λ c. Member c cs) (λ c. x.0 ≡ c.action_id → g c x.1 ≤ worth x) cs (h x)
            (each-Member cs)))

  pub one_at_a_time_of : (i : ℕ) → total (λ c. bit (elem i (map index (slots_for p cs s c)))) cs ≤ 1
  one_at_a_time_of i = omega (
    arith,
    bit_le (elem i s.used),
    v.apart i,
    worth_more (λ c xs. bit (elem i (map index xs))) (λ x. bit (elem i (map index x.1))) (λ c. refl)
        (λ x c m e. omega arith),
  )

  pub within_week_of :
      (w : ℕ)
      → total
          (λ c. total (λ e. bit (week_of_slot e == w) * bit (is_assigned p cs s c e)) (slots_of p))
          cs
        ≤ p.constraints.available_hours_per_week
  within_week_of w =
      let assigned = λ (c : Candidate).
        total (λ e. bit (week_of_slot e == w) * bit (is_assigned p cs s c e)) (slots_of p) in
      let chosen = λ (c : Candidate). in_week w (slots_for p cs s c) in
      let same = total-cong assigned chosen cs (
        All-map (Decided p cs s n positive v) (λ c. assigned c ≡ chosen c) cs
          (λ c d. sum_of p cs s n positive v (λ e. bit (week_of_slot e == w)) c d)
          (decided p cs s n positive v)) in
      omega (
        arith,
        same,
        week_limit p cs s n positive v w,
        worth_more (λ c xs. in_week w xs) (λ x. in_week w x.1) (λ c. refl) (λ x c m e. omega arith),
      )

  pub within_budget_of :
      (cap : ℕ)
      → p.constraints.max_out_of_pocket_krw ≡ some cap
      → total (λ c. known_cost c.cost * bit (is_selected p cs s c)) cs ≤ cap
  within_budget_of cap e = omega (
    arith,
    v.money,
    v.capped cap e,
    worth_more (λ c xs. known_cost c.cost * bit (ltb 0 (length xs))) (λ x. cost_of cs x.0)
        (λ c. omega arith)
        (λ x c m same.
          subst (λ a. known_cost c.cost * bit (ltb 0 (length x.1)) ≤ cost_of cs a) (sym same)
            (price c x.1 m)),
  )
    where
      price :
          (c : Candidate) (xs : List Slot)
          → Member c cs
          → known_cost c.cost * bit (ltb 0 (length xs)) ≤ cost_of cs c.action_id
      price c xs m = elim (Bool-cases (ltb 0 (length xs))) [
        | inl t ↦ rw t (omega (arith, cost_of_lem c cs n m))
        | inr t ↦ rw t (omega arith)
      ]

  pub prerequisites_selected_of :
      (c : Candidate)
      → Decided p cs s n positive v c
      → All
          (λ q. is_selected p cs s c ≡ true → ltb 0 (length (chosen_for q s.allocations)) ≡ true)
          c.prerequisite_action_ids
  prerequisites_selected_of c (inl d) =
      every (λ q. is_selected p cs s c ≡ true → ltb 0 (length (chosen_for q s.allocations)) ≡ true)
        c.prerequisite_action_ids
        (λ q h.
          let none_chosen : is_selected p cs s c ≡ false = rw d.1 refl in
          absurd (cc (none_chosen, h)))
  prerequisites_selected_of c (inr d) =
      let chosen = d.2 in
      All-map (Behind p cs n s.allocations (slots_for p cs s c))
        (λ q. is_selected p cs s c ≡ true → ltb 0 (length (chosen_for q s.allocations)) ≡ true)
        c.prerequisite_action_ids (λ q b h. lt→ltb 0 (length (chosen_for q s.allocations)) b.0)
        chosen.behind

  module _ (timed : Timed p.planning_started_at.instant p.constraints.target_by p.calendar) where
    pub completions_of :
        (a : ℕ) → completion p (hinted s) a ≤ (objective_snapshot p).horizon_microseconds
    unfolding completion hinted objective_snapshot
    completions_of a =
        maximum-le
          (λ e. from_start p e.1.ends_at * bit (elem e.0 (map index (chosen_for a s.allocations))))
          (p.constraints.target_by - p.planning_started_at.instant) (slots_of p)
          (All-map (λ e. e.1.ends_at ≤ p.constraints.target_by)
            (λ e.
              from_start p e.1.ends_at * bit (elem e.0 (map index (chosen_for a s.allocations)))
              ≤ p.constraints.target_by - p.planning_started_at.instant)
            (slots_of p) (λ e h. counted e h (elem e.0 (map index (chosen_for a s.allocations))))
            (Timed-ends p.constraints.target_by p.planning_started_at.instant 0 p.calendar timed))
      where
        counted :
            (e : Slot)
            → e.1.ends_at ≤ p.constraints.target_by
            → (b : Bool)
            → from_start p e.1.ends_at * bit b
              ≤ p.constraints.target_by - p.planning_started_at.instant
        counted e h true = omega (arith, h)
        counted e h false = omega arith
