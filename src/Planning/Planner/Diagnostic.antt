-- ===== src/Planning/Planner/Diagnostic.antt =====
-- The partial diagnostic of the planner (`_partial_diagnostic` of
-- src/jobtology_be/planning/cp_sat_planner.py), for values that keep the constraints of the model.
use jobtology_be.Common.{
  ℕ, ◌≤◌, ◌≡◌, refl, sym, subst, ◌⊎◌, inl, inr, Bool, true, false, not, ◌&&◌, List, [], ◌∷◌, keep,
  any, elem, elem→In, In, In-sorted, sorted-In, All-sorted, In→elem, sorted, bit, total, ◌*◌, All,
  All-map, All-In, In-All, Any, Any-map, Any-pick, arith, Bool-cases, ok,
}
use jobtology_be.Planning.Templates.{Candidate}
use jobtology_be.Planning.Problem.{PlanningProblem}
use jobtology_be.Planning.Route.{slots_of, validate_candidates, Values, covered, Satisfies}
use jobtology_be.Planning.Hint.Chosen.{validate_candidates-positive}
use jobtology_be.Planning.Results.{ScheduledRouteStep, PartialRouteDiagnostic, scheduled_steps}
use jobtology_be.Planning.Planner.{
  SolverStatus, cp_optimal, cp_feasible, cp_infeasible, cp_unknown, cp_other, diagnostic_of,
}
use jobtology_be.Planning.Planner.Lookups.{
  StepFor, IsSolved, IsRoute, scheduled_steps-IsRoute, validate_candidates-included, ids_of_all,
}

-- The steps have the requirement as an outcome.
abbrev pub Reaches : List ScheduledRouteStep → ℕ → Type 0
Reaches ss k = Any (λ s. In k s.outcome_requirement_keys) ss

-- No steps, or those of values that keep the constraints.
abbrev pub IsRouted : PlanningProblem → List Candidate → List ScheduledRouteStep → Type 0
IsRouted p cs ss = (ss ≡ []) ⊎ ((v : Values) × Satisfies p cs false v × IsRoute p cs v ss)

pub weaken :
    (p : PlanningProblem) (cs : List Candidate) (b : Bool) (v : Values)
    → Satisfies p cs b v
    → Satisfies p cs false v
weaken p cs b v s = record {
  completions_in_horizon = s.completions_in_horizon;
  fits_capacity = s.fits_capacity;
  hours_assigned = s.hours_assigned;
  only_available = s.only_available;
  costs_known = s.costs_known;
  one_at_a_time = s.one_at_a_time;
  within_week = s.within_week;
  prerequisites_selected = s.prerequisites_selected;
  prerequisites_first = s.prerequisites_first;
  within_budget = s.within_budget;
  covers_required = λ e. absurd (cc e);
  hours_in_calendar = s.hours_in_calendar;
  earliest_completion = s.earliest_completion;
}

module _ (p : PlanningProblem) (cs : List Candidate) (valid : validate_candidates cs ≡ ok tt) where
  pub solved : (b : Bool) (v : Values) → Satisfies p cs b v → All (IsSolved p cs v) cs
  solved b v s =
      zip cs (validate_candidates-included cs valid) (validate_candidates-positive cs valid)
        s.hours_assigned
    where
      zip :
          (ds : List Candidate)
          → All (λ c. any (λ q. not (elem q (ids_of_all cs))) c.prerequisite_action_ids ≡ false) ds
          → All (λ c. 1 ≤ c.estimated_hours) ds
          → All
              (λ c.
                total (λ e. bit (v.assigned c.action_id e.0)) (slots_of p)
                ≡ c.estimated_hours * bit (v.selected c.action_id))
              ds
          → All (IsSolved p cs v) ds
      zip [] a b' c' = tt
      zip (d ∷ ds) a b' c' =
          (record { included = a.0; positive = b'.0; assigned = c'.0 }, zip ds a.1 b'.1 c'.1)

  -- A covered requirement is reached by the steps.
  pub covered-Reaches :
      (v : Values) (ss : List ScheduledRouteStep) (k : ℕ)
      → IsRoute p cs v ss
      → covered cs v k ≡ true
      → Reaches ss k
  unfolding covered
  covered-Reaches v ss k r h = from cs h r.complete
    where
      from :
          (ds : List Candidate)
          → any (λ c. elem k c.outcome_requirement_keys && v.selected c.action_id) ds ≡ true
          → All (λ c. v.selected c.action_id ≡ true → Any (λ s. StepFor p v c s) ss) ds
          → Reaches ss k
      from [] e a = absurd (cc e)
      from (c ∷ ds) e a =
          elim (Bool-cases (elem k c.outcome_requirement_keys && v.selected c.action_id)) [
            | inl t ↦
                let outcome : elem k c.outcome_requirement_keys ≡ true = ground (arith, t) in
                let chosen : v.selected c.action_id ≡ true = ground (arith, t) in
                Any-map (λ s. StepFor p v c s) (λ s. In k s.outcome_requirement_keys) ss
                  (λ s f.
                    let same = f.outcomes in
                    subst (λ ks. In k ks) (sym same)
                      (In-sorted k c.outcome_requirement_keys
                        (elem→In k c.outcome_requirement_keys outcome)))
                  (a.0 chosen)
            | inr t ↦ from ds (rw t at e) a.1
          ]

  -- A requirement that the steps reach is covered.
  Reaches-covered :
      (v : Values) (ss : List ScheduledRouteStep) (k : ℕ)
      → IsRoute p cs v ss
      → Reaches ss k
      → covered cs v k ≡ true
  unfolding covered
  Reaches-covered v ss k r h =
      let found =
        Any-pick (λ s. In k s.outcome_requirement_keys) (λ s. Any (λ c. StepFor p v c s) cs) ss h
          r.sound in
      among found.0 found.1 cs found.2
    where
      among :
          (s : ScheduledRouteStep)
          → In k s.outcome_requirement_keys
          → (ds : List Candidate) → Any (λ c. StepFor p v c s) ds
          → any (λ c. elem k c.outcome_requirement_keys && v.selected c.action_id) ds ≡ true
      among s i [] a = absurd a
      among s i (c ∷ ds) (inl f) =
          let same = f.outcomes in
          let outcome =
            In→elem k c.outcome_requirement_keys
              (sorted-In k c.outcome_requirement_keys (subst (λ ks. In k ks) same i)) in
          let chosen = f.selected in rw (outcome, chosen) refl
      among s i (c ∷ ds) (inr a) = ground (arith, among s i ds a)

  -- Values that keep the constraints and cover the required requirements solve the full model.
  strengthen :
      (v : Values)
      → Satisfies p cs false v
      → All (λ k. covered cs v k ≡ true) p.required_requirement_keys
      → Satisfies p cs true v
  strengthen v s a = record {
    completions_in_horizon = s.completions_in_horizon;
    fits_capacity = s.fits_capacity;
    hours_assigned = s.hours_assigned;
    only_available = s.only_available;
    costs_known = s.costs_known;
    one_at_a_time = s.one_at_a_time;
    within_week = s.within_week;
    prerequisites_selected = s.prerequisites_selected;
    prerequisites_first = s.prerequisites_first;
    within_budget = s.within_budget;
    covers_required = λ _. a;
    hours_in_calendar = s.hours_in_calendar;
    earliest_completion = s.earliest_completion;
  }

  -- A diagnostic: its steps are those of a solution; they reach every required requirement if it
  -- reports none as unmet; and if they do, the solution is one of the full model, and none is
  -- reported.
  pub record IsDiagnostic (d : PartialRouteDiagnostic) : Type 0 where
    pub routed : IsRouted p cs d.partial_steps
    pub none_unmet :
        d.unmet_required_requirement_keys ≡ []
        → All (Reaches d.partial_steps) p.required_requirement_keys
    pub reaching :
        All (Reaches d.partial_steps) p.required_requirement_keys
        → (d.partial_steps ≡ [])
          ⊎ ((v : Values) × Satisfies p cs true v × (d.unmet_required_requirement_keys ≡ []))

  none_sorted : (P : ℕ → Type 0) (ks : List ℕ) → sorted ks ≡ [] → All P ks
  none_sorted P ks e = In-All P ks (λ k i. absurd (subst (λ xs. In k xs) e (In-sorted k ks i)))

  all_covered :
      (v : Values) (ks : List ℕ)
      → keep (λ k. not (covered cs v k)) ks ≡ []
      → All (λ k. covered cs v k ≡ true) ks
  all_covered v [] e = tt
  all_covered v (k ∷ ks) e = elim (Bool-cases (covered cs v k)) [
    | inl t ↦ (t, all_covered v ks (rw t at e))
    | inr t ↦ absurd (cc (rw t at e))
  ]

  none_left :
      (v : Values) (ks : List ℕ)
      → All (λ k. covered cs v k ≡ true) ks
      → keep (λ k. not (covered cs v k)) ks ≡ []
  none_left v [] a = refl
  none_left v (k ∷ ks) a = rw a.0 (none_left v ks a.1)

  solved-IsDiagnostic :
      (v : Values)
      → Satisfies p cs false v
      → (ss : List ScheduledRouteStep) × (scheduled_steps p cs v ≡ ok ss)
        × IsDiagnostic (record {
          unmet_required_requirement_keys =
              keep (λ k. not (covered cs v k)) (sorted p.required_requirement_keys);
          partial_steps = ss;
        })
  solved-IsDiagnostic v s =
      let steps = scheduled_steps-IsRoute p cs v (solved false v s) in
      (
        steps.0,
        steps.1,
        record {
          routed = inr (v, s, steps.2);
          none_unmet = λ e. In-All (Reaches steps.0) p.required_requirement_keys (λ k i.
              covered-Reaches v steps.0 k steps.2 (
                All-In (λ j. covered cs v j ≡ true) (sorted p.required_requirement_keys)
                  (all_covered v (sorted p.required_requirement_keys) e) k
                  (In-sorted k p.required_requirement_keys i)));
          reaching = λ a.
              let every_one =
                All-map (Reaches steps.0) (λ k. covered cs v k ≡ true) p.required_requirement_keys
                  (λ k h. Reaches-covered v steps.0 k steps.2 h) a in
              inr (
                v,
                strengthen v s every_one,
                none_left v (sorted p.required_requirement_keys)
                    (All-sorted (λ k. covered cs v k ≡ true) p.required_requirement_keys every_one),
              );
        },
      )

  pub diagnostic_of-IsDiagnostic :
      (answer : SolverStatus × Values)
      → ¬ (answer.0 ≡ cp_other)
      → (answer.0 ≡ cp_optimal → Satisfies p cs false answer.1)
      → (answer.0 ≡ cp_feasible → Satisfies p cs false answer.1)
      → (d : PartialRouteDiagnostic) × (diagnostic_of p cs answer ≡ ok d) × IsDiagnostic d
  unfolding diagnostic_of
  diagnostic_of-IsDiagnostic (cp_optimal, v) n o f =
      let d = solved-IsDiagnostic v (o refl) in rw (diagnostic_of, d.1) (_, refl, d.2)
  diagnostic_of-IsDiagnostic (cp_feasible, v) n o f =
      let d = solved-IsDiagnostic v (f refl) in rw (diagnostic_of, d.1) (_, refl, d.2)
  diagnostic_of-IsDiagnostic (cp_infeasible, v) n o f = (
    _,
    refl,
    record {
      routed = inl refl;
      none_unmet = none_sorted (Reaches []) p.required_requirement_keys;
      reaching = λ _. inl refl;
    },
  )
  diagnostic_of-IsDiagnostic (cp_unknown, v) n o f = (
    _,
    refl,
    record {
      routed = inl refl;
      none_unmet = none_sorted (Reaches []) p.required_requirement_keys;
      reaching = λ _. inl refl;
    },
  )
  diagnostic_of-IsDiagnostic (cp_other, v) n o f = absurd (n refl)
