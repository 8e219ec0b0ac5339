-- ===== src/Editorial/Scores.antt =====
-- The coverage scores of an analysis (`_coverage` and `evaluate` of
-- src/jobtology_be/modules/analyses/editorial.py).
use jobtology_be.Common.{◌*◌, ◌≤◌, ◌≡◌, List, map}
use jobtology_be.Editorial.{
  satisfied, full_credit, NormalizedProfile, EditorialBaseline, InputCompleteness,
  RequirementEvaluation, Coverage, evaluate_requirement,
}

-- An evaluation whose credit agrees with its status.
pub record IsFair (e : RequirementEvaluation) : Type 0 where
  pub capped : e.credit ≤ full_credit
  pub full : e.status ≡ satisfied → e.credit ≡ full_credit

-- The scores of a coverage are in order: no more are matched than there are, the plain score
-- `matched / total` is at most the weighted one `credit_sum / (100 * total)`, and that at most 1.
pub record InOrder (c : Coverage) : Type 0 where
  pub matched : c.matched_count ≤ c.total_count
  pub weighted : c.matched_count * full_credit ≤ c.credit_sum
  pub bounded : c.credit_sum ≤ c.total_count * full_credit

evaluated : EditorialBaseline → NormalizedProfile → InputCompleteness → List RequirementEvaluation
evaluated b p c = map (λ r. evaluate_requirement r p c) b.requirements
