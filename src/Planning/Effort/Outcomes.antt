-- ===== src/Planning/Effort/Outcomes.antt =====
-- The outcomes of a template, and the least of their credits (`_remaining_effort` of
-- src/jobtology_be/product_roles/planning.py).
use jobtology_be.Common.{
  ℕ, ◌≤◌, ◌≡◌, refl, sym, ◌∙◌, subst, inl, inr, true, some, List, [], ◌∷◌, any, sorted, sorted-In,
  In, In-sorted, All, Any, arith, Bool-cases, Option-cases, ok, ok-inj, bind-ok, min, leb,
}
use mathlib.Core.Option.{some-injective}
use jobtology_be.Editorial.{
  RequirementEvaluation, SatisfactionStatus, unmet, partial, satisfied, needs_input,
}
use jobtology_be.Planning.Expand.{evaluation_of}
use jobtology_be.Planning.Templates.{ActivityTemplate}
use jobtology_be.Planning.Effort.{outcomes_of, least_credit, is_partial}

-- A key with an evaluation.
abbrev pub Known : List RequirementEvaluation → ℕ → Type 0
Known es k = (e : RequirementEvaluation) × (evaluation_of k es ≡ some e)

-- `e` is the evaluation of one of the template's outcomes.
abbrev pub OutcomeOf :
    List RequirementEvaluation → ActivityTemplate → RequirementEvaluation → Type 0
OutcomeOf es t e = (k : ℕ) × In k t.outcome_requirement_keys × (evaluation_of k es ≡ some e)

-- The least credit of a template's outcomes: one has it, and none has less.
abbrev pub IsLeastCredit : List RequirementEvaluation → ActivityTemplate → ℕ → Type 0
IsLeastCredit es t c =
    ((e : RequirementEvaluation) × OutcomeOf es t e × (e.credit ≡ c))
    × ((e : RequirementEvaluation) → OutcomeOf es t e → c ≤ e.credit)

abbrev pub Stands : RequirementEvaluation → List RequirementEvaluation → Type 0
Stands e os = Any (λ o. o ≡ e) os

pub outcomes_of-Known :
    (es : List RequirementEvaluation) (ks : List ℕ)
    → All (Known es) ks
    → (os : List RequirementEvaluation) × (outcomes_of es ks ≡ ok os)
unfolding outcomes_of
outcomes_of-Known es [] h = ([], refl)
outcomes_of-Known es (k ∷ ks) h =
    let rest = outcomes_of-Known es ks h.1 in (h.0.0 ∷ rest.0, rw (h.0.1, rest.1, outcomes_of) refl)

-- What is found for a list of keys: the evaluation of the first, and those of the others.
outcomes_of-cons :
    (es : List RequirementEvaluation) (k : ℕ) (ks : List ℕ) (os : List RequirementEvaluation)
    → outcomes_of es (k ∷ ks) ≡ ok os
    → (e : RequirementEvaluation) × (rest : List RequirementEvaluation) × (evaluation_of k es
        ≡ some e)
      × (outcomes_of es ks ≡ ok rest)
      × (e ∷ rest ≡ os)
unfolding outcomes_of
outcomes_of-cons es k ks os h = elim (Option-cases (evaluation_of k es)) [
  | inl n ↦ absurd (cc (rw (n, outcomes_of) at h))
  | inr (e, f) ↦
      let (rest, g, i) =
        bind-ok (outcomes_of es ks) (λ rest. ok (e ∷ rest)) os (rw (f, outcomes_of) at h) in
      (e, rest, f, g, ok-inj (e ∷ rest) os i)
]

found_at :
    (es : List RequirementEvaluation) (ks : List ℕ) (os : List RequirementEvaluation)
    → outcomes_of es ks ≡ ok os
    → (e : RequirementEvaluation) → Stands e os
    → (k : ℕ) × In k ks × (evaluation_of k es ≡ some e)
unfolding outcomes_of
found_at es [] os h e there = absurd (subst (Stands e) (sym (ok-inj [] os h)) there)
found_at es (k ∷ ks) os h e there =
    let (d, rest, f, g, same) = outcomes_of-cons es k ks os h in
    elim (subst (Stands e) (sym same) there) [
      | inl here ↦ (k, inl refl, subst (λ x. evaluation_of k es ≡ some x) here f)
      | inr later ↦ let (i, i_in, at) = found_at es ks rest g e later in (i, inr i_in, at)
    ]

found_all :
    (es : List RequirementEvaluation) (ks : List ℕ) (os : List RequirementEvaluation)
    → outcomes_of es ks ≡ ok os
    → (e : RequirementEvaluation) (k : ℕ) → In k ks
    → evaluation_of k es ≡ some e
    → Stands e os
found_all es [] os h e k i at = absurd i
found_all es (j ∷ ks) os h e k i at =
    let (d, rest, f, g, same) = outcomes_of-cons es j ks os h in
    subst (Stands e) same (elim i [
      | inl here ↦
          inl (some-injective d e (sym f ∙ subst (λ x. evaluation_of x es ≡ some e) here at))
      | inr later ↦ inr (found_all es ks rest g e k later at)
    ])

module _ (es : List RequirementEvaluation) (t : ActivityTemplate) (os : List RequirementEvaluation)
    (found : outcomes_of es (sorted t.outcome_requirement_keys) ≡ ok os) where
  pub outcomes_of_sound : (e : RequirementEvaluation) → Stands e os → OutcomeOf es t e
  outcomes_of_sound e there =
      let (k, i, at) = found_at es (sorted t.outcome_requirement_keys) os found e there in
      (k, sorted-In k t.outcome_requirement_keys i, at)

  pub outcomes_of_complete : (e : RequirementEvaluation) → OutcomeOf es t e → Stands e os
  outcomes_of_complete e (k, i, at) =
      found_all es (sorted t.outcome_requirement_keys) os found e k
        (In-sorted k t.outcome_requirement_keys i) at

pub least_credit-bound :
    (e : RequirementEvaluation) (os : List RequirementEvaluation)
    → Stands e os
    → least_credit os ≤ e.credit
unfolding least_credit
least_credit-bound e [] there = absurd there
least_credit-bound e (o ∷ []) there = elim there [
  | inl here ↦ subst (λ x. o.credit ≤ x.credit) here (omega arith)
  | inr never ↦ absurd never
]
least_credit-bound e (o ∷ p ∷ os) there = elim there [
  | inl here ↦ subst (λ x. min o.credit (least_credit (p ∷ os)) ≤ x.credit) here (omega arith)
  | inr later ↦ omega (arith, least_credit-bound e (p ∷ os) later)
]

pub least_credit-attained :
    (e : RequirementEvaluation) (os : List RequirementEvaluation)
    → Stands e os
    → (f : RequirementEvaluation) × Stands f os × (f.credit ≡ least_credit os)
unfolding least_credit
least_credit-attained e [] there = absurd there
least_credit-attained e (o ∷ []) there = (o, inl refl, refl)
least_credit-attained e (o ∷ p ∷ os) there =
    let (f, at, same) = least_credit-attained p (p ∷ os) (inl refl) in
    elim (Bool-cases (leb o.credit (least_credit (p ∷ os)))) [
      | inl first ↦ (o, inl refl, ground (arith, first))
      | inr later ↦ (f, inr at, ground (arith, later, same))
    ]

is_partial-true : (st : SatisfactionStatus) → is_partial st ≡ true → st ≡ partial
is_partial-true satisfied e = cc e
is_partial-true partial e = refl
is_partial-true unmet e = cc e
is_partial-true needs_input e = cc e

pub any-partial :
    (os : List RequirementEvaluation)
    → any (λ e. is_partial e.status) os ≡ true
    → (e : RequirementEvaluation) × Stands e os × (e.status ≡ partial)
any-partial [] h = cc h
any-partial (o ∷ os) h = elim (Bool-cases (is_partial o.status)) [
  | inl e ↦ (o, inl refl, is_partial-true o.status e)
  | inr e ↦ let (f, at, p) = any-partial os (ground (arith, e, h)) in (f, inr at, p)
]

pub partial-any :
    (e : RequirementEvaluation) (os : List RequirementEvaluation)
    → Stands e os
    → e.status ≡ partial
    → any (λ e. is_partial e.status) os ≡ true
partial-any e [] there p = absurd there
partial-any e (o ∷ os) there p = elim there [
  | inl here ↦ let first : is_partial o.status ≡ true = rw (here, p) refl in ground (arith, first)
  | inr later ↦ let rest = partial-any e os later p in ground (arith, rest)
]
