-- ===== src/Planning/Templates.antt =====
-- Activity templates, candidates and blockers (src/jobtology_be/planning/candidate_models.py).
-- Texts are numbers, as in the editorial analysis. Integers that the source refuses when they are
-- not positive start at 0 here.
use jobtology_be.Common.{ℕ, ◌≡◌, ◌<◌, Bool, List, Option, leb, arith, Result, ok, raise_if, ◌>>◌}
use jobtology_be.Editorial.{is_empty}

pub data KrwCost : Type 0 where
  known_krw : ℕ → KrwCost
  unknown_krw : KrwCost

pub record ActivityTemplate : Type 0 where
  pub action_id : ℕ
  pub revision : ℕ
  pub title : ℕ
  pub estimated_hours : ℕ
  pub outcome_requirement_keys : List ℕ
  pub prerequisite_action_ids : List ℕ
  pub completion_criteria : List ℕ
  pub support_refs : List ℕ
  pub cost : KrwCost
  pub is_foundational : Bool

pub data TemplateError : Type 0 where
  invalid_template_id : ℕ → TemplateError
  invalid_template_revision : ℕ → ℕ → TemplateError
  invalid_template_effort : ℕ → ℕ → TemplateError
  missing_completion_criteria : ℕ → TemplateError
  missing_template_support : ℕ → TemplateError

-- `ActivityTemplate.__post_init__`; `blank` says which texts strip to nothing.
pub check_template : (ℕ → Bool) → ActivityTemplate → Result TemplateError (Unit {0})
check_template blank t = do
  raise_if (blank t.action_id) (invalid_template_id t.action_id)
  raise_if (leb t.revision 0) (invalid_template_revision t.action_id t.revision)
  raise_if (leb t.estimated_hours 0) (invalid_template_effort t.action_id t.estimated_hours)
  raise_if (is_empty t.completion_criteria) (missing_completion_criteria t.action_id)
  raise_if (is_empty t.support_refs) (missing_template_support t.action_id)

pub record Candidate : Type 0 where
  pub action_id : ℕ
  pub template_revision : ℕ
  pub title : ℕ
  pub estimated_hours : ℕ
  pub outcome_requirement_keys : List ℕ
  pub prerequisite_action_ids : List ℕ
  pub fulfilled_prerequisite_action_ids : List ℕ
  pub completion_criteria : List ℕ
  pub support_refs : List ℕ
  pub cost : KrwCost

pub data CandidateBlocker : Type 0 where
  insufficient_analysis : ℕ → CandidateBlocker
  needs_input : ℕ → ℕ → List ℕ → CandidateBlocker
  no_activities : ℕ → ℕ → List ℕ → CandidateBlocker

pub record CandidateSet : Type 0 where
  pub analysis_id : ℕ
  pub profile_version : ℕ
  pub occupation_id : ℕ
  pub basis_version : ℕ
  pub corpus_release_id : Option ℕ
  pub is_fixture : Bool
  pub reference_at : ℕ
  pub candidates : List Candidate
  pub blockers : List CandidateBlocker

-- An accepted template has positive effort.
pub check_template-effort :
    (blank : ℕ → Bool) (t : ActivityTemplate)
    → check_template blank t ≡ ok tt
    → 0 < t.estimated_hours
unfolding check_template
check_template-effort blank t h = ground arith
