-- ===== src/Planning/Planner/Planned.antt =====
-- What `CpSatRoutePlanner.plan` (src/jobtology_be/planning/cp_sat_planner.py) promises of its result, for
-- a solver whose values keep the constraints of the model that it solves.
use jobtology_be.Common.{
  ℕ, ◌≡◌, refl, ◌⊎◌, inl, inr, Bool, true, false, Option, none, some, List, [], ◌∷◌, IsNodup,
  if◌then◌else◌, All, All-map, Bool-cases, ok,
}
use jobtology_be.Editorial.{is_empty}
use jobtology_be.Planning.Templates.{Candidate}
use jobtology_be.Planning.Problem.{PlanningProblem}
use jobtology_be.Planning.Route.{validate_candidates, Values, covered, Satisfies}
use jobtology_be.Planning.Results.{
  RouteFeasibility, feasible, risky, partial, infeasible, optimal_status, feasible_status,
  infeasible_status, RouteRejection, ScheduledRouteStep, PartialRouteDiagnostic, PlanningResult,
  scheduled_steps, route_feasibility,
}
use jobtology_be.Planning.Planner.{
  SolverStatus, cp_optimal, cp_feasible, cp_infeasible, cp_unknown, cp_other, Solver, preflight,
  full_capacity_possible, partial_diagnostic, full_search, result, after_infeasible, after_unknown,
  conclude, solver_candidates, plan,
}
use jobtology_be.Planning.Planner.Shares.{full_capacity_possible-true}
use jobtology_be.Planning.Planner.Diagnostic.{
  Reaches, IsRouted, weaken, solved, covered-Reaches, IsDiagnostic, diagnostic_of-IsDiagnostic,
}
use jobtology_be.Planning.Planner.Lookups.{scheduled_steps-IsRoute}

-- What the documentation of the solver says: it knows the model's status, the values of an optimal
-- or feasible answer keep the constraints, and no values do if it says infeasible.
pub record IsSound (p : PlanningProblem) (cs : List Candidate) (solve : Solver) : Type 0 where
  pub known : (b : Bool) → ¬ ((solve b).0 ≡ cp_other)
  pub optimal : (b : Bool) → (solve b).0 ≡ cp_optimal → Satisfies p cs b (solve b).1
  pub feasible_too : (b : Bool) → (solve b).0 ≡ cp_feasible → Satisfies p cs b (solve b).1
  pub infeasible_too : (v : Values) → (solve true).0 ≡ cp_infeasible → ¬ Satisfies p cs true v

abbrev pub IsRegular : Option RouteFeasibility → Type 0
IsRegular f = (f ≡ some feasible) ⊎ (f ≡ some risky)

abbrev pub IsEmptyRoute : Option RouteFeasibility → Type 0
IsEmptyRoute f = (f ≡ none) ⊎ (f ≡ some infeasible)

-- The steps are those of a solution, or none; a regular route reaches every required requirement, a
-- partial one does not; and without a route there are no steps.
pub record IsPlanned (p : PlanningProblem) (cs : List Candidate) (r : PlanningResult) : Type 0 where
  pub routed : IsRouted p cs r.scheduled
  pub reaches_all : IsRegular r.feasibility → All (Reaches r.scheduled) p.required_requirement_keys
  pub misses_some :
      r.feasibility ≡ some partial → ¬ All (Reaches r.scheduled) p.required_requirement_keys
  pub nothing : IsEmptyRoute r.feasibility → r.scheduled ≡ []

module _ (p : PlanningProblem) (cs : List Candidate) (valid : validate_candidates cs ≡ ok tt) where
  module _ (solve : Solver) (sound : IsSound p cs solve) where
    partial_diagnostic-IsDiagnostic :
        (d : PartialRouteDiagnostic) × (partial_diagnostic p cs solve ≡ ok d)
        × IsDiagnostic p cs valid d
    unfolding partial_diagnostic
    partial_diagnostic-IsDiagnostic =
        rw (partial_diagnostic, valid)
          (diagnostic_of-IsDiagnostic p cs valid (solve false) (sound.known false)
            (sound.optimal false) (sound.feasible_too false))

    regular_result :
        (rejections : List RouteRejection) (ss : List ScheduledRouteStep) (status : _)
        → IsRouted p cs ss
        → All (Reaches ss) p.required_requirement_keys
        → IsPlanned p cs (result (some (route_feasibility p ss)) status ss rejections none)
    unfolding route_feasibility
    regular_result rejections ss status r a = record {
      routed = r;
      reaches_all = λ _. a;
      misses_some = λ k. absurd (part (route_feasibility p ss) (is_regular ss) k);
      nothing = λ e. absurd (never (route_feasibility p ss) (is_regular ss) e);
    }
      where
        is_regular : (us : List ScheduledRouteStep) → IsRegular (some (route_feasibility p us))
        is_regular us = decide _
          where
            decide : (b : Bool) → IsRegular (some (if b then feasible else risky))
            decide true = inl refl
            decide false = inr refl

        part : (f : RouteFeasibility) → IsRegular (some f) → ¬ (some f ≡ some partial)
        part f (inl e) k = cc (e, k)
        part f (inr e) k = cc (e, k)

        never : (f : RouteFeasibility) → IsRegular (some f) → ¬ IsEmptyRoute (some f)
        never f (inl e) (inl k) = cc (k)
        never f (inl e) (inr k) = cc (e, k)
        never f (inr e) (inl k) = cc (k)
        never f (inr e) (inr k) = cc (e, k)

    after_infeasible-IsPlanned :
        (rejections : List RouteRejection) (d : PartialRouteDiagnostic)
        → IsDiagnostic p cs valid d
        → ((v : Values) → ¬ Satisfies p cs true v)
        → IsPlanned p cs (after_infeasible rejections d)
    after_infeasible-IsPlanned rejections d h never_full =
        elim (Bool-cases (is_empty d.partial_steps)) [
          | inl e ↦ rw e (record {
            routed = inl refl;
            reaches_all = λ k. absurd (neither k);
            misses_some = λ k. absurd (cc k);
            nothing = λ k. refl;
          })
          | inr e ↦ rw e (record {
            routed = h.routed;
            reaches_all = λ k. absurd (regular k);
            misses_some = λ _ a. elim (h.reaching a) [
              | inl gone ↦
                  let empty : is_empty d.partial_steps ≡ true = rw gone refl in cc (empty, e)
              | inr full ↦ never_full full.0 full.1
            ];
            nothing = λ k. absurd (nothing_left k);
          })
        ]
      where
        neither : ¬ IsRegular (some infeasible)
        neither (inl e) = cc e
        neither (inr e) = cc e

        regular : ¬ IsRegular (some partial)
        regular (inl e) = cc e
        regular (inr e) = cc e

        nothing_left : ¬ IsEmptyRoute (some partial)
        nothing_left (inl e) = cc e
        nothing_left (inr e) = cc e

    is_empty-nil : (ks : List ℕ) → is_empty ks ≡ true → ks ≡ []
    is_empty-nil [] e = refl
    is_empty-nil (k ∷ ks) e = absurd (cc e)

    after_unknown-IsPlanned :
        (rejections : List RouteRejection) (d : PartialRouteDiagnostic)
        → IsDiagnostic p cs valid d
        → IsPlanned p cs (after_unknown p rejections d)
    unfolding after_unknown
    after_unknown-IsPlanned rejections d h = elim (Bool-cases (is_empty d.partial_steps)) [
      | inl e ↦
          rw (after_unknown, e)
            (record {
              routed = inl refl;
              reaches_all = λ k. absurd (neither k);
              misses_some = λ k. absurd (cc k);
              nothing = λ k. refl;
            })
      | inr e ↦ elim (Bool-cases (is_empty d.unmet_required_requirement_keys)) [
        | inl u ↦
            rw (after_unknown, e, u)
              (regular_result rejections d.partial_steps feasible_status h.routed
                (h.none_unmet (is_empty-nil d.unmet_required_requirement_keys u)))
        | inr u ↦
            rw (after_unknown, e, u)
              (record {
                routed = h.routed;
                reaches_all = λ k. absurd (regular k);
                misses_some = λ _ a. elim (h.reaching a) [
                  | inl gone ↦
                      let empty : is_empty d.partial_steps ≡ true = rw gone refl in cc (empty, e)
                  | inr full ↦
                      let empty : is_empty d.unmet_required_requirement_keys ≡ true =
                        rw full.2 refl in
                      cc (empty, u)
                ];
                nothing = λ k. absurd (nothing_left k);
              })
      ]
    ]
      where
        neither : ¬ IsRegular none
        neither (inl e) = cc e
        neither (inr e) = cc e

        regular : ¬ IsRegular (some partial)
        regular (inl e) = cc e
        regular (inr e) = cc e

        nothing_left : ¬ IsEmptyRoute (some partial)
        nothing_left (inl e) = cc e
        nothing_left (inr e) = cc e

    rejected :
        (rejections : List RouteRejection)
        → IsPlanned p cs (result (some infeasible) infeasible_status [] rejections none)
    rejected rejections = record {
      routed = inl refl;
      reaches_all = λ k. absurd (neither k);
      misses_some = λ k. absurd (cc k);
      nothing = λ k. refl;
    }
      where
        neither : ¬ IsRegular (some infeasible)
        neither (inl e) = cc e
        neither (inr e) = cc e

    -- The steps of a full answer.
    full_steps :
        (v : Values)
        → Satisfies p cs true v
        → (ss : List ScheduledRouteStep) × (scheduled_steps p cs v ≡ ok ss)
          × IsRouted p cs ss
          × All (Reaches ss) p.required_requirement_keys
    full_steps v s =
        let steps = scheduled_steps-IsRoute p cs v (solved p cs valid true v s) in
        (
          steps.0,
          steps.1,
          inr (v, weaken p cs true v s, steps.2),
          All-map (λ k. covered cs v k ≡ true) (Reaches steps.0) p.required_requirement_keys
              (λ k e. covered-Reaches p cs valid v steps.0 k steps.2 e) (s.covers_required refl),
        )

    conclude-IsPlanned :
        (rejections : List RouteRejection) (answer : SolverStatus × Values)
        → ¬ (answer.0 ≡ cp_other)
        → (answer.0 ≡ cp_optimal → Satisfies p cs true answer.1)
        → (answer.0 ≡ cp_feasible → Satisfies p cs true answer.1)
        → (answer.0 ≡ cp_infeasible → (w : Values) → ¬ Satisfies p cs true w)
        → (r : PlanningResult) × (conclude p cs solve rejections answer ≡ ok r) × IsPlanned p cs r
    unfolding conclude
    conclude-IsPlanned rejections (cp_optimal, v) n o f i =
        let steps = full_steps v (o refl) in
        rw (conclude, steps.1)
          (_, refl, regular_result rejections steps.0 optimal_status steps.2 steps.3)
    conclude-IsPlanned rejections (cp_feasible, v) n o f i =
        let steps = full_steps v (f refl) in
        rw (conclude, steps.1)
          (_, refl, regular_result rejections steps.0 feasible_status steps.2 steps.3)
    conclude-IsPlanned rejections (cp_infeasible, v) n o f i =
        let d = partial_diagnostic-IsDiagnostic in
        rw (conclude, d.1) (_, refl, after_infeasible-IsPlanned rejections d.0 d.2 (i refl))
    conclude-IsPlanned rejections (cp_unknown, v) n o f i =
        let d = partial_diagnostic-IsDiagnostic in
        rw (conclude, d.1) (_, refl, after_unknown-IsPlanned rejections d.0 d.2)
    conclude-IsPlanned rejections (cp_other, v) n o f i = absurd (n refl)

-- For candidates that `_validate_candidates` accepts, distinct required requirements and a solver that
-- is sound for their model, the plan ends with a result: its steps are those of values that keep the
-- constraints, or none; a route that is feasible or risky reaches every required requirement, a
-- partial one does not; and a result that is infeasible or has no feasibility has no steps.
pub plan-IsPlanned :
    (p : PlanningProblem) (solve : Solver)
    → validate_candidates (solver_candidates p) ≡ ok tt
    → IsNodup p.required_requirement_keys
    → IsSound p (solver_candidates p) solve
    → (r : PlanningResult) × (plan p solve ≡ ok r) × IsPlanned p (solver_candidates p) r
unfolding plan full_search
plan-IsPlanned p solve valid apart sound =
    let cs = solver_candidates p in
    let rejections = (preflight p cs).0 in
    elim (Bool-cases ((preflight p cs).1)) [
      | inl e ↦ rw (plan, e) (_, refl, rejected p cs valid solve sound rejections)
      | inr e ↦ elim (Bool-cases (full_capacity_possible p cs)) [
        | inl c ↦
            rw (plan, e, full_search, c, valid)
              (conclude-IsPlanned p cs valid solve sound rejections (solve true) (sound.known true)
                (sound.optimal true) (sound.feasible_too true) (λ t w. sound.infeasible_too w t))
        | inr c ↦
            rw (plan, e, full_search, c)
              (conclude-IsPlanned p cs valid solve sound rejections (cp_infeasible, (solve true).1)
                (λ t. cc t) (λ t. absurd (cc t)) (λ t. absurd (cc t))
                (λ _ w s. cc (full_capacity_possible-true p cs w apart s, c)))
      ]
    ]
