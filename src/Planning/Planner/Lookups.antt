-- ===== src/Planning/Planner/Lookups.antt =====
-- The steps of a route (`scheduled_steps` of src/jobtology_be/planning/cp_sat_results.py) whose values
-- keep the constraints of the model.
use jobtology_be.Common.{
  ℕ, ◌*◌, ◌≤◌, ◌≡◌, refl, inl, inr, Bool, true, false, not, List, [], ◌∷◌, map, keep, any, elem,
  leb, ◌==◌, All, All-map, keep-All, keep-passes, Any-keep, All-keep, Any, Any-map, length,
  length-map, bit, total, sort_by, sort_by-All, sort_by-All_inv, sorted, arith, Bool-cases, ok,
  raise_if, raise_if-ok, seq-ok,
}
use jobtology_be.Planning.Templates.{Candidate}
use jobtology_be.Planning.Problem.{
  PlanningProblem, candidates_not_unique, effort_not_positive, prerequisite_not_included, repeats,
}
use jobtology_be.Planning.Route.{check_candidate, check_each, validate_candidates, slots_of, Values}
use jobtology_be.Planning.Hint.{Slot}
use jobtology_be.Planning.Results.{
  step_key_of, candidate_by_action, prerequisite_keys, allocation, SlotAllocation, allocations_of,
  first_start, last_end, ScheduledRouteStep, step_of, steps_of, by_planned_start,
  selected_candidates, scheduled_steps,
}

check_each-included :
    (ids : List ℕ) (cs : List Candidate)
    → check_each ids cs ≡ ok tt
    → All (λ c. any (λ q. not (elem q ids)) c.prerequisite_action_ids ≡ false) cs
check_each-included ids [] h = tt
check_each-included ids (c ∷ cs) h =
    let both = seq-ok (check_candidate ids c) (check_each ids cs) tt h in
    let first =
      seq-ok (raise_if (leb c.estimated_hours 0) effort_not_positive)
        (raise_if (any (λ p. not (elem p ids)) c.prerequisite_action_ids) prerequisite_not_included)
        tt both.0 in
    (
      raise_if-ok (any (λ q. not (elem q ids)) c.prerequisite_action_ids) prerequisite_not_included
          first.1,
      check_each-included ids cs both.1,
    )

abbrev pub ids_of_all : List Candidate → List ℕ
ids_of_all cs = map (λ c. c.action_id) cs

pub validate_candidates-included :
    (cs : List Candidate)
    → validate_candidates cs ≡ ok tt
    → All (λ c. any (λ q. not (elem q (ids_of_all cs))) c.prerequisite_action_ids ≡ false) cs
unfolding validate_candidates
validate_candidates-included cs h =
    let unique =
      seq-ok (raise_if (repeats (ids_of_all cs)) candidates_not_unique)
        (check_each (ids_of_all cs) cs) tt h in
    check_each-included (ids_of_all cs) cs unique.1

candidate_by_action_found :
    (cs : List Candidate) (a : ℕ)
    → elem a (ids_of_all cs) ≡ true
    → (c : Candidate) × (candidate_by_action cs a ≡ ok c)
unfolding candidate_by_action
candidate_by_action_found [] a h = absurd (cc h)
candidate_by_action_found (c ∷ cs) a h = elim (Bool-cases (c.action_id == a)) [
  | inl e ↦ (c, rw (e, candidate_by_action) refl)
  | inr e ↦
      let other : (a == c.action_id) ≡ false = ground (arith, e) in
      let rest = candidate_by_action_found cs a (rw other at h) in
      (rest.0, rw (e, candidate_by_action) rest.1)
]

prerequisite_keys_found :
    (cs : List Candidate) (ks : List ℕ)
    → any (λ q. not (elem q (ids_of_all cs))) ks ≡ false
    → (keys : List (ℕ × ℕ)) × (prerequisite_keys cs ks ≡ ok keys)
unfolding prerequisite_keys
prerequisite_keys_found cs [] h = ([], refl)
prerequisite_keys_found cs (a ∷ ks) h = elim (Bool-cases (elem a (ids_of_all cs))) [
  | inl e ↦
      let c = candidate_by_action_found cs a e in
      let rest = prerequisite_keys_found cs ks (rw e at h) in
      (step_key_of c.0 ∷ rest.0, rw (prerequisite_keys, c.1, rest.1) refl)
  | inr e ↦ absurd (cc (rw e at h))
]

length-keep-total :
    (f : Slot → Bool) (es : List Slot) → length (keep f es) ≡ total (λ e. bit (f e)) es
length-keep-total f [] = refl
length-keep-total f (e ∷ es) = elim (Bool-cases (f e)) [
  | inl t ↦ rw t (omega (arith, length-keep-total f es))
  | inr t ↦ rw t (omega (arith, length-keep-total f es))
]

last_end_found :
    (x : SlotAllocation) (xs : List SlotAllocation) → (t : ℕ) × (last_end (x ∷ xs) ≡ ok t)
last_end_found x [] = (x.ends_at, refl)
last_end_found x (y ∷ ys) = last_end_found y ys

ends_found :
    (xs : List SlotAllocation)
    → 1 ≤ length xs
    → (t : ℕ) × (u : ℕ) × (first_start xs ≡ ok t) × (last_end xs ≡ ok u)
ends_found [] h = absurd (omega (arith, h))
ends_found (x ∷ xs) h = (x.starts_at, (last_end_found x xs).0, refl, (last_end_found x xs).1)

-- The step is the one of the candidate: with its outcomes, in the slots that are assigned to it,
-- as many as it has hours.
pub record StepFor (p : PlanningProblem) (v : Values) (c : Candidate) (s : ScheduledRouteStep)
    : Type 0 where
  pub action : s.action_id ≡ c.action_id
  pub selected : v.selected c.action_id ≡ true
  pub outcomes : s.outcome_requirement_keys ≡ sorted c.outcome_requirement_keys
  pub slots : s.slot_allocations ≡ allocations_of p v c
  pub hours : length s.slot_allocations ≡ c.estimated_hours

-- What a candidate needs for its step to be made.
pub record IsSolved (p : PlanningProblem) (cs : List Candidate) (v : Values) (c : Candidate)
    : Type 0 where
  pub included : any (λ q. not (elem q (ids_of_all cs))) c.prerequisite_action_ids ≡ false
  pub positive : 1 ≤ c.estimated_hours
  pub assigned :
      total (λ e. bit (v.assigned c.action_id e.0)) (slots_of p)
      ≡ c.estimated_hours * bit (v.selected c.action_id)

module _ (p : PlanningProblem) (cs : List Candidate) (v : Values) where
  step_of-StepFor :
      (chosen : List Candidate) (c : Candidate)
      → IsSolved p cs v c
      → v.selected c.action_id ≡ true
      → (s : ScheduledRouteStep) × (step_of p cs v chosen c ≡ ok s) × StepFor p v c s
  unfolding step_of
  step_of-StepFor chosen c h sel =
      let keys = prerequisite_keys_found cs c.prerequisite_action_ids h.included in
      let counted : total (λ e. bit (v.assigned c.action_id e.0)) (slots_of p)
          ≡ c.estimated_hours * 1 =
        rw sel at h.assigned in
      let positive = h.positive in
      let many : length (allocations_of p v c) ≡ c.estimated_hours = omega (
        arith,
        counted,
        length-map allocation (keep (λ e. v.assigned c.action_id e.0) (slots_of p)),
        length-keep-total (λ e. v.assigned c.action_id e.0) (slots_of p),
      ) in
      let ends = ends_found (allocations_of p v c) (omega (arith, many, positive)) in
      rw (step_of, keys.1, ends.2, ends.3)
        (
          _,
          refl,
          record { action = refl; selected = sel; outcomes = refl; slots = refl; hours = many },
        )

  -- Each candidate has its step, in order.
  abbrev Matches : List Candidate → List ScheduledRouteStep → Type 0
  Matches [] [] = Unit
  Matches [] (s ∷ ss) = ⊥
  Matches (c ∷ cs') [] = ⊥
  Matches (c ∷ cs') (s ∷ ss) = StepFor p v c s × Matches cs' ss

  steps_of-Matches :
      (chosen ds : List Candidate)
      → All (IsSolved p cs v) ds
      → All (λ c. v.selected c.action_id ≡ true) ds
      → (ss : List ScheduledRouteStep) × (steps_of p cs v chosen ds ≡ ok ss) × Matches ds ss
  unfolding steps_of
  steps_of-Matches chosen [] h k = ([], refl, tt)
  steps_of-Matches chosen (c ∷ ds) h k =
      let first = step_of-StepFor chosen c h.0 k.0 in
      let rest = steps_of-Matches chosen ds h.1 k.1 in
      rw (steps_of, first.1, rest.1) (first.0 ∷ rest.0, refl, (first.2, rest.2))

  Matches-sound :
      (ds : List Candidate) (ss : List ScheduledRouteStep)
      → Matches ds ss
      → All (λ s. Any (λ c. StepFor p v c s) ds) ss
  Matches-sound [] [] m = tt
  Matches-sound [] (s ∷ ss) m = absurd m
  Matches-sound (c ∷ ds) [] m = tt
  Matches-sound (c ∷ ds) (s ∷ ss) m = (
    inl m.0,
    All-map (λ t. Any (λ d. StepFor p v d t) ds) (λ t. Any (λ d. StepFor p v d t) (c ∷ ds)) ss
        (λ t i. inr i) (Matches-sound ds ss m.1),
  )

  Matches-complete :
      (ds : List Candidate) (ss : List ScheduledRouteStep)
      → Matches ds ss
      → All (λ c. Any (λ s. StepFor p v c s) ss) ds
  Matches-complete [] ss m = tt
  Matches-complete (c ∷ ds) [] m = absurd m
  Matches-complete (c ∷ ds) (s ∷ ss) m = (
    inl m.0,
    All-map (λ d. Any (λ t. StepFor p v d t) ss) (λ d. Any (λ t. StepFor p v d t) (s ∷ ss)) ds
        (λ d i. inr i) (Matches-complete ds ss m.1),
  )

-- What some element has, some element of the sorted list has.
sort_by-Any :
    {A : Type 0} (P : A → Type 0) (le : A → A → Bool) (xs : List A)
    → Any P xs
    → Any P (sort_by le xs)
sort_by-Any P le xs h =
    found xs (sort_by-All_inv (λ x. P x → Any P (sort_by le xs)) le xs (self (sort_by le xs))) h
  where
    self : (ys : List _) → All (λ y. P y → Any P ys) ys
    self [] = tt
    self (y ∷ ys) = (
      (λ k. inl k),
      All-map (λ z. P z → Any P ys) (λ z. P z → Any P (y ∷ ys)) ys (λ z f k. inr (f k)) (self ys),
    )

    found :
        (ys : List _) → All (λ x. P x → Any P (sort_by le xs)) ys → Any P ys → Any P (sort_by le xs)
    found [] f i = absurd i
    found (y ∷ ys) f (inl k) = f.0 k
    found (y ∷ ys) f (inr i) = found ys f.1 i

-- The steps are those of the selected candidates.
pub record IsRoute (p : PlanningProblem) (cs : List Candidate) (v : Values)
    (ss : List ScheduledRouteStep) : Type 0 where
  pub sound : All (λ s. Any (λ c. StepFor p v c s) cs) ss
  pub complete : All (λ c. v.selected c.action_id ≡ true → Any (λ s. StepFor p v c s) ss) cs

module _ (p : PlanningProblem) (cs : List Candidate) (v : Values) where
  -- Where every candidate can be solved, the steps are made, for exactly the selected candidates.
  pub scheduled_steps-IsRoute :
      All (IsSolved p cs v) cs
      → (ss : List ScheduledRouteStep) × (scheduled_steps p cs v ≡ ok ss) × IsRoute p cs v ss
  unfolding scheduled_steps
  scheduled_steps-IsRoute h =
      let chosen = selected_candidates cs v in
      let made =
        steps_of-Matches p cs v chosen chosen
          (keep-All (IsSolved p cs v) (λ c. v.selected c.action_id) cs h)
          (keep-passes (λ c. v.selected c.action_id) cs) in
      rw (scheduled_steps, made.1)
        (
          sort_by by_planned_start made.0,
          refl,
          record {
            sound =
                sort_by-All (λ s. Any (λ c. StepFor p v c s) cs) by_planned_start made.0
                  (All-map (λ s. Any (λ c. StepFor p v c s) chosen)
                    (λ s. Any (λ c. StepFor p v c s) cs) made.0
                    (λ s i.
                      Any-map (λ c. (v.selected c.action_id ≡ true) × StepFor p v c s)
                        (λ c. StepFor p v c s) cs (λ c h'. h'.1)
                        (Any-keep (λ c. StepFor p v c s) (λ c. v.selected c.action_id) cs i))
                    (Matches-sound p cs v chosen made.0 made.2));
            complete =
                All-map (λ c. v.selected c.action_id ≡ true → Any (λ s. StepFor p v c s) made.0)
                  (λ c.
                    v.selected c.action_id ≡ true
                    → Any (λ s. StepFor p v c s) (sort_by by_planned_start made.0))
                  cs (λ c f e. sort_by-Any (StepFor p v c) by_planned_start made.0 (f e))
                  (All-keep (λ c. Any (λ s. StepFor p v c s) made.0) (λ c. v.selected c.action_id)
                    cs (Matches-complete p cs v chosen made.0 made.2));
          },
        )
