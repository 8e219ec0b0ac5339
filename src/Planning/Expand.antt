-- ===== src/Planning/Expand.antt =====
-- The generator of candidates (`build`, `_build_ready`, `_validate_outcomes`, `_expand` of
-- src/jobtology_be/planning/candidates.py). Python's recursion `include` takes fuel here;
-- `Ends` shows that the fuel given is enough for a catalog that was accepted.
pub mod Ordered
pub mod Included
pub mod Ends
use jobtology_be.Common.{
  ℕ, zero, suc, ◌≡◌, Bool, true, false, not, ◌&&◌, Option, none, some, List, [], ◌∷◌, ◌++◌, map,
  length, elem, keep, any, all, find_first, sorted, sort_by, leb, ◌==◌, if◌then◌else◌, Result, ok,
  raise, ◌>>=◌, ◌>>◌, Outcome, done, failed, diverge, then_do, for_each,
}
use jobtology_be.Editorial.{
  SatisfactionStatus, satisfied, partial, unmet, needs_input, AnalysisStatus, ready,
  insufficient_data, RequirementEvaluation, EditorialAnalysis, is_empty, is_satisfied,
}
use jobtology_be.Planning.Templates.{
  ActivityTemplate, Candidate, CandidateBlocker, CandidateSet, insufficient_analysis, no_activities,
}
use jobtology_be.Planning.Templates
use jobtology_be.Planning.Catalog.{
  Catalog, Error, unknown_outcome_requirement, key_error, ids, get, catalog,
}
use jobtology_be.Planning.Cycles.{validate_dependencies}

-- `evaluations[key]`, in the dict of the analysis's requirements: the last one under a key counts.
unfoldable pub evaluation_of : ℕ → List RequirementEvaluation → Option RequirementEvaluation
evaluation_of k [] = none
evaluation_of k (e ∷ es) = elim (evaluation_of k es) [
  | some later ↦ some later
  | none ↦ if e.requirement_key == k then some e else none
]

-- `sorted(template.outcome_requirement_keys - requirement_keys)`, and its first.
check_outcomes : List RequirementEvaluation → ActivityTemplate → List ℕ → Result Error (Unit {0})
check_outcomes es t [] = ok tt
check_outcomes es t (k ∷ ks) = raise (unknown_outcome_requirement t.action_id k)

-- `_validate_outcomes`
unfoldable pub validate_outcomes :
    List RequirementEvaluation → List ActivityTemplate → Result Error (Unit {0})
unfolding check_outcomes
validate_outcomes es [] = ok tt
validate_outcomes es (t ∷ ts) =
    check_outcomes es t (
      sorted
        (keep (λ k. not (elem k (map (λ e. e.requirement_key) es))) t.outcome_requirement_keys))
    >> validate_outcomes es ts

abbrev has_status_satisfied : Option RequirementEvaluation → Bool
has_status_satisfied none = false
has_status_satisfied (some e) = is_satisfied e.status

-- `is_satisfied_foundation`; that every key has an evaluation was checked by `validate_outcomes`.
pub is_satisfied_foundation : List RequirementEvaluation → ActivityTemplate → Bool
unfolding evaluation_of
is_satisfied_foundation es t =
    t.is_foundational
    && not (is_empty t.outcome_requirement_keys)
    && all (λ k. has_status_satisfied (evaluation_of k es)) t.outcome_requirement_keys

-- Whether the prerequisite `p` is a foundation that the person has already; that `p` is in the
-- catalog was checked by `validate_dependencies`.
pub is_fulfilled : List RequirementEvaluation → Catalog → ℕ → Bool
unfolding is_satisfied_foundation
is_fulfilled es cat p = elim (get p cat) [ none ↦ false | some t ↦ is_satisfied_foundation es t ]

-- The two sorted tuples of `include`.
pub fulfilled_of : List RequirementEvaluation → Catalog → ActivityTemplate → List ℕ
unfolding is_fulfilled
fulfilled_of es cat t = sorted (keep (is_fulfilled es cat) t.prerequisite_action_ids)

pub open_of : List RequirementEvaluation → Catalog → ActivityTemplate → List ℕ
unfolding fulfilled_of
open_of es cat t =
    keep (λ p. not (elem p (fulfilled_of es cat t))) (sorted t.prerequisite_action_ids)

-- The candidate that `include` appends for a template.
unfoldable pub candidate_of : List RequirementEvaluation → Catalog → ActivityTemplate → Candidate
unfolding open_of
candidate_of es cat t = record {
  action_id = t.action_id;
  template_revision = t.revision;
  title = t.title;
  estimated_hours = t.estimated_hours;
  outcome_requirement_keys = t.outcome_requirement_keys;
  prerequisite_action_ids = open_of es cat t;
  fulfilled_prerequisite_action_ids = fulfilled_of es cat t;
  completion_criteria = t.completion_criteria;
  support_refs = t.support_refs;
  cost = t.cost;
}

-- The set and the list that `_expand` fills.
pub record Expansion : Type 0 where
  pub included : List ℕ
  pub candidates : List Candidate

pub append : ℕ → Candidate → Expansion → Outcome Error Expansion
append a c s = done (record { included = a ∷ s.included; candidates = s.candidates ++ (c ∷ []) })

pub include_template :
    (ℕ → Expansion → Outcome Error Expansion)
    → List RequirementEvaluation
    → Catalog
    → ℕ
    → Option ActivityTemplate
    → Expansion
    → Outcome Error Expansion
unfolding candidate_of append
include_template call es cat a none s = failed (key_error a)
include_template call es cat a (some t) s =
    then_do (for_each call (open_of es cat t) s) (append a (candidate_of es cat t))

pub include : List RequirementEvaluation → Catalog → ℕ → ℕ → Expansion → Outcome Error Expansion
unfolding include_template
include es cat zero a s = diverge
include es cat (suc fuel) a s =
    let rest = include_template (include es cat fuel) es cat a (get a cat) s in
    if elem a s.included then done s else rest

-- `_expand`
pub expand : List RequirementEvaluation → Catalog → List ActivityTemplate → Outcome Error Expansion
unfolding include
expand es cat roots =
    for_each (include es cat (suc (length (ids cat)))) (ids roots)
      (record { included = []; candidates = [] })
