-- ===== src/Planning/Effort/Bounds.antt =====
-- What `_remaining_effort` (src/jobtology_be/product_roles/planning.py) makes of the templates, and the
-- decisions that it records.
use jobtology_be.Common.{
  ℕ, ◌≡◌, ◌≢◌, refl, ◌⊎◌, inl, inr, true, false, List, [], ◌∷◌, ◌++◌, any, sorted, All-sorted, All,
  arith, Bool-cases, eq_cases, ok,
}
use jobtology_be.Editorial.{RequirementEvaluation, partial}
use jobtology_be.Planning.Templates.{ActivityTemplate}
use jobtology_be.Planning.Effort.{
  FloatArithmetic, remaining_learning_hours, Decision, outcomes_of, least_credit, is_partial,
  adjusted_hours, adjust, adjust_all,
}
use jobtology_be.Planning.Effort.Rounding.{IsRoundedUp, ceil-IsRoundedUp}
use jobtology_be.Planning.Effort.Outcomes.{
  Known, OutcomeOf, IsLeastCredit, outcomes_of-Known, outcomes_of_sound, outcomes_of_complete,
  least_credit-attained, least_credit-bound, any-partial, partial-any,
}

module _ (floats : FloatArithmetic) (es : List RequirementEvaluation) where
  -- The hours of a partly learned template: some outcome is partial, and the hours are the least
  -- whole number from one on that is not below the base hours times one minus the least credit.
  pub record IsShortened (t : ActivityTemplate) (c h : ℕ) : Type 0 where
    pub some_partial : (e : RequirementEvaluation) × OutcomeOf es t e × (e.status ≡ partial)
    pub credit_least : IsLeastCredit es t c
    pub rounded :
        IsRoundedUp
          (floats.mul
            (floats.float t.estimated_hours)
            (floats.sub (floats.float 1) (floats.of_hundredths c)))
          h

  -- No outcome is partial.
  abbrev pub NonePartial : ActivityTemplate → Type 0
  NonePartial t = (e : RequirementEvaluation) → OutcomeOf es t e → e.status ≢ partial

  -- What has become of a template, and the decisions on it: all is kept but the hours. They are
  -- shortened if an outcome is partial, with one decision if that changed them, which gives the
  -- template, the base, the least credit and the new hours; otherwise they stay, with no decision.
  pub record IsAdjusted (t u : ActivityTemplate) (ds : List Decision) : Type 0 where
    pub kept : u ≡ record t { estimated_hours = u.estimated_hours }
    pub adjusted :
        (NonePartial t × (u.estimated_hours ≡ t.estimated_hours) × (ds ≡ []))
        ⊎ ((c : ℕ) × IsShortened t c u.estimated_hours
            × (((u.estimated_hours ≡ t.estimated_hours) × (ds ≡ []))
                ⊎ ((u.estimated_hours ≢ t.estimated_hours)
                    × (ds
                        ≡ record {
                          action_id = t.action_id;
                          base_hours = t.estimated_hours;
                          least_outcome_credit = c;
                          remaining_hours = u.estimated_hours;
                        }
                          ∷ []))))

  -- Each template of the one list has become the one at its place in the other, with its decisions at
  -- their place among all.
  abbrev pub AllAdjusted : List ActivityTemplate → List ActivityTemplate → List Decision → Type 0
  AllAdjusted [] [] ds = ds ≡ []
  AllAdjusted [] (u ∷ us) ds = ⊥
  AllAdjusted (t ∷ ts) [] ds = ⊥
  AllAdjusted (t ∷ ts) (u ∷ us) ds =
      (own : List Decision) × (rest : List Decision) × (ds ≡ own ++ rest)
      × IsAdjusted t u own
      × AllAdjusted ts us rest

  module _ (t : ActivityTemplate) (os : List RequirementEvaluation)
      (found : outcomes_of es (sorted t.outcome_requirement_keys) ≡ ok os) where
    kept_whole :
        any (λ e. is_partial e.status) os ≡ false
        → IsAdjusted t (adjust floats t os).0 (adjust floats t os).1
    unfolding adjust adjusted_hours
    kept_whole none_partial =
        rw (adjust, adjusted_hours, none_partial)
          (record {
            kept = refl;
            adjusted = inl (
              (λ e o p.
                  let found_partial = partial-any e os (outcomes_of_complete es t os found e o) p in
                  cc (none_partial, found_partial)),
              refl,
              ground arith,
            );
          })

    shortened :
        any (λ e. is_partial e.status) os ≡ true
        → IsShortened t (least_credit os) (adjusted_hours floats t os)
    unfolding adjusted_hours remaining_learning_hours
    shortened some_partial =
        let (e, there, p) = any-partial os some_partial in
        record {
          some_partial = (e, outcomes_of_sound es t os found e there, p);
          credit_least = (
            (let (f, at, same) = least_credit-attained e os there in
                (f, outcomes_of_sound es t os found f at, same)),
            λ f o. least_credit-bound f os (outcomes_of_complete es t os found f o),
          );
          rounded = rw (adjusted_hours, some_partial) (ceil-IsRoundedUp _);
        }

    kept_shorter :
        any (λ e. is_partial e.status) os ≡ true
        → IsAdjusted t (adjust floats t os).0 (adjust floats t os).1
    unfolding adjust
    kept_shorter some_partial =
        let h = adjusted_hours floats t os in
        record {
          kept = refl;
          adjusted = inr (
            least_credit os,
            shortened some_partial,
            (elim (eq_cases h t.estimated_hours) [
              | inl same ↦ inl (same, ground (arith, same))
              | inr other ↦ inr (other, ground (arith, other))
            ]),
          );
        }

    adjust-IsAdjusted : IsAdjusted t (adjust floats t os).0 (adjust floats t os).1
    adjust-IsAdjusted = elim (Bool-cases (any (λ e. is_partial e.status) os)) [
      | inl some_partial ↦ kept_shorter some_partial
      | inr none_partial ↦ kept_whole none_partial
    ]

  -- Where every key of an outcome has an evaluation, the adjustment ends in adjusted templates, in
  -- their order: each keeps all but its hours. If an outcome of it is partial, its hours become the
  -- least whole number from one on that is not below the float product of its hours and one minus the
  -- least credit of its outcomes, and if that changed them there is one decision, with the template,
  -- both hours and that credit. Otherwise the hours stay. There are no other decisions, and they stand
  -- in the order of the templates.
  pub adjust_all-AllAdjusted :
      (ts : List ActivityTemplate)
      → All (λ t. All (Known es) t.outcome_requirement_keys) ts
      → (us : List ActivityTemplate) × (ds : List Decision) × (adjust_all floats es ts
          ≡ ok (us, ds))
        × AllAdjusted ts us ds
  unfolding adjust_all
  adjust_all-AllAdjusted [] known = ([], [], refl, refl)
  adjust_all-AllAdjusted (t ∷ ts) known =
      let (os, found) =
        outcomes_of-Known es (sorted t.outcome_requirement_keys)
          (All-sorted (Known es) t.outcome_requirement_keys known.0) in
      let (us, ds, e, all) = adjust_all-AllAdjusted ts known.1 in
      let own = (adjust floats t os).1 in
      (
        (adjust floats t os).0 ∷ us,
        own ++ ds,
        rw (found, e, adjust_all) refl,
        (own, ds, refl, adjust-IsAdjusted t os found, all),
      )
