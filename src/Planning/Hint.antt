-- ===== src/Planning/Hint.antt =====
-- `_add_schedule_hint` (src/jobtology_be/planning/cp_sat_model.py): a list schedule that seeds the
-- solver's search. Indices of slots come with their slots; the dictionary of allocations is a list
-- of its entries, the newest first.
pub mod Sublists
pub mod Choose
pub mod Invariant
pub mod Place
pub mod Order
pub mod Totals
pub mod Timed
pub mod Capacity
pub mod Chosen
pub mod Run
pub mod Valid
pub mod Feasible
pub mod Earliest
pub mod Hinted
use jobtology_be.Common.{
  ℕ, zero, suc, ◌+◌, Bool, true, false, not, ◌&&◌, ◌||◌, Option, none, some, List, [], ◌∷◌, ◌++◌,
  map, keep, any, all, elem, ltb, leb, ◌==◌, if◌then◌else◌, length, is_some, subset, bit, total,
  maximum, sort_by, Outcome, done, failed, diverge,
}
use jobtology_be.Planning.Templates.{KrwCost, Candidate}
use jobtology_be.Planning.Calendar.{PlanningSlot}
use jobtology_be.Planning.Problem.{InvalidPlanningProblem, PlanningProblem, known_cost}
use jobtology_be.Planning.Route.{
  is_available, availability_of, slots_of, week_of_slot, is_unknown, Values,
}

abbrev pub Slot : Type 0
Slot = ℕ × PlanningSlot

pub record Schedule : Type 0 where
  pub allocations : List (ℕ × List Slot)
  pub used : List ℕ
  pub weekly : ℕ → ℕ
  pub spent : ℕ

-- `allocations.get(key)`
abbrev pub find : ℕ → List (ℕ × List Slot) → Option (List Slot)
find a [] = none
find a (x ∷ xs) = let rest = find a xs in if x.0 == a then some x.1 else rest

-- `allocations.get(key, ())`
abbrev pub chosen_for : ℕ → List (ℕ × List Slot) → List Slot
chosen_for a [] = []
chosen_for a (x ∷ xs) = let rest = chosen_for a xs in if x.0 == a then x.1 else rest

abbrev pub is_ready : List (ℕ × List Slot) → Candidate → Bool
is_ready allocations c = all (λ k. is_some (find k allocations)) c.prerequisite_action_ids

-- `next(…)` of the ready candidates, and `pending.remove(ready)`.
abbrev pub take_ready : List (ℕ × List Slot) → List Candidate → Option (Candidate × List Candidate)
take_ready allocations [] = none
take_ready allocations (c ∷ cs) =
    let rest = take_ready allocations cs in
    if is_ready allocations c
    then some (c, cs)
    else elim rest [ none ↦ none | some r ↦ some (r.0, c ∷ r.1) ]

-- The round is skipped for the sake of the budget.
abbrev pub too_costly : Option ℕ → ℕ → KrwCost → Bool
too_costly none spent cost = false
too_costly (some cap) spent cost = is_unknown cost || ltb cap (spent + known_cost cost)

-- `allocations[key][-1] + 1`, of slots in order.
abbrev pub after_slots : List Slot → ℕ
after_slots xs = maximum (λ e. e.0 + 1) xs

-- `earliest`
abbrev pub earliest : List (ℕ × List Slot) → Candidate → ℕ
earliest allocations c =
    maximum (λ k. after_slots (chosen_for k allocations)) c.prerequisite_action_ids

-- The loop over the slots, for a candidate that needs `hours`; `count` are chosen so far, and
-- `taken` of each week are its own or others'.
unfoldable pub choose : (Slot → Bool) → ℕ → ℕ → ℕ → (ℕ → ℕ) → List Slot → List Slot
choose usable limit hours count taken [] = []
choose usable limit hours count taken (e ∷ es) =
    let w = week_of_slot e in
    let skip = choose usable limit hours count taken es in
    let next = choose usable limit hours (count + 1) (λ w'. bit (w == w') + taken w') es in
    if not (usable e) || leb limit (taken w)
    then skip
    else if count + 1 == hours
    then e ∷ []
    else e ∷ next

-- A slot that the candidate may use.
abbrev pub is_open : PlanningProblem → Schedule → Candidate → Slot → Bool
is_open p s c e = not (elem e.0 s.used) && is_available e.1 (availability_of p c.action_id)

unfoldable pub choose_for : PlanningProblem → Schedule → Candidate → List Slot
unfolding choose
choose_for p s c =
    choose (is_open p s c) p.constraints.available_hours_per_week c.estimated_hours 0 s.weekly
      (keep (λ e. leb (earliest s.allocations c) e.0) (slots_of p))

-- The state after a round that has found its hours.
abbrev pub allocate_slots : Candidate → List Slot → Schedule → Schedule
allocate_slots c xs s = record {
  allocations = (c.action_id, xs) ∷ s.allocations;
  used = map (λ e. e.0) xs ++ s.used;
  weekly = λ w. total (λ e. bit (week_of_slot e == w)) xs + s.weekly w;
  spent = s.spent + known_cost c.cost;
}

-- A round, for the candidate that was taken.
unfoldable pub place : PlanningProblem → Candidate → Schedule → Schedule
unfolding choose_for
place p c s =
    if too_costly p.constraints.max_out_of_pocket_krw s.spent c.cost
    then s
    else if length (choose_for p s c) == c.estimated_hours
    then allocate_slots c (choose_for p s c) s
    else s

-- `while pending:`
unfoldable pub run :
    PlanningProblem → ℕ → List Candidate → Schedule → Outcome InvalidPlanningProblem Schedule
unfolding place
run p fuel [] s = done s
run p zero (c ∷ cs) s = diverge
run p (suc fuel) (c ∷ cs) s = elim (take_ready s.allocations (c ∷ cs)) [
  | none ↦ done s
  | some r ↦ run p fuel r.1 (place p r.0 s)
]

-- The key `(not foundational, action_id)`.
abbrev pub by_priority : List ℕ → Candidate → Candidate → Bool
by_priority foundations a b =
    let late = λ (c : Candidate). bit (not (elem c.action_id foundations)) in
    ltb (late a) (late b) || (late a == late b && leb a.action_id b.action_id)

abbrev pub empty_schedule : Schedule
empty_schedule = record { allocations = []; used = []; weekly = λ w. 0; spent = 0 }

unfoldable pub list_schedule :
    PlanningProblem → List Candidate → Outcome InvalidPlanningProblem Schedule
unfolding run sort_by
list_schedule p cs =
    run p (length cs) (sort_by (by_priority p.foundational_priority_action_ids) cs) empty_schedule

-- The hinted values.
unfoldable pub hinted : Schedule → Values
hinted s = record {
  selected = λ a. ltb 0 (length (chosen_for a s.allocations));
  assigned = λ a i. elem i (map (λ e. e.0) (chosen_for a s.allocations));
}

-- `covered`: the outcomes of the candidates with an allocation.
abbrev pub covered_keys : Schedule → List Candidate → List ℕ
covered_keys s [] = []
covered_keys s (c ∷ cs) =
    let rest = covered_keys s cs in
    if is_some (find c.action_id s.allocations) then c.outcome_requirement_keys ++ rest else rest

-- The hint is dropped if it should cover every required requirement and does not.
unfoldable pub hint_of : PlanningProblem → List Candidate → Bool → Schedule → Option Values
unfolding hinted
hint_of p cs require s =
    if require && not (subset p.required_requirement_keys (covered_keys s cs))
    then none
    else some (hinted s)

-- `_add_schedule_hint`
unfoldable pub schedule_hint :
    PlanningProblem → List Candidate → Bool → Outcome InvalidPlanningProblem (Option Values)
unfolding list_schedule hint_of
schedule_hint p cs require = elim (list_schedule p cs) [
  | done s ↦ done (hint_of p cs require s)
  | failed e ↦ failed e
  | diverge ↦ diverge
]
