-- ===== src/Planning/Generator.antt =====
-- `CandidateGenerator` as a whole: its construction, `build` and `_build_ready`
-- (src/jobtology_be/planning/candidates.py).
pub mod Blockers
pub mod Ready
use jobtology_be.Common.{
  ℕ, Bool, true, false, not, ◌&&◌, List, [], ◌∷◌, ◌++◌, map, elem, keep, any, sort_by, leb, Result,
  ok, raise, Outcome, done, failed, diverge, then_do,
}
use jobtology_be.Editorial.{
  SatisfactionStatus, satisfied, partial, unmet, needs_input, AnalysisStatus, ready,
  insufficient_data, RequirementEvaluation, EditorialAnalysis, is_empty,
}
use jobtology_be.Planning.Templates.{
  ActivityTemplate, Candidate, CandidateBlocker, CandidateSet, insufficient_analysis, no_activities,
}
use jobtology_be.Planning.Templates
use jobtology_be.Planning.Catalog.{Catalog, Error, catalog}
use jobtology_be.Planning.Cycles.{validate_dependencies}
use jobtology_be.Planning.Expand.{Expansion, validate_outcomes, expand}

abbrev pub is_unmet : SatisfactionStatus → Bool
is_unmet unmet = true
is_unmet partial = true
is_unmet _ = false

abbrev pub waits_for_input : SatisfactionStatus → Bool
waits_for_input needs_input = true
waits_for_input _ = false

-- `sorted(analysis.requirements, key=lambda item: item.requirement_key)`
pub by_key : List RequirementEvaluation → List RequirementEvaluation
by_key = sort_by (λ a b. leb a.requirement_key b.requirement_key)

pub unmet_of : List RequirementEvaluation → List RequirementEvaluation
unfolding by_key
unmet_of es = keep (λ e. is_unmet e.status) (by_key es)

-- A root teaches an unmet requirement.
pub teaches_one : List RequirementEvaluation → ActivityTemplate → Bool
teaches_one wanted t =
    not (is_empty t.outcome_requirement_keys)
    && any (λ e. elem e.requirement_key t.outcome_requirement_keys) wanted

pub roots_of : List RequirementEvaluation → Catalog → List ActivityTemplate
unfolding teaches_one
roots_of wanted cat = keep (teaches_one wanted) (sort_by (λ a b. leb a.action_id b.action_id) cat)

-- `roots_by_requirement[key]` is empty.
pub has_no_root : List ActivityTemplate → RequirementEvaluation → Bool
has_no_root roots e = is_empty (keep (λ t. elem e.requirement_key t.outcome_requirement_keys) roots)

pub input_blockers : List RequirementEvaluation → List CandidateBlocker
unfolding by_key
input_blockers es =
    map (λ e. Templates.needs_input e.requirement_key e.label e.support_refs)
      (keep (λ e. waits_for_input e.status) (by_key es))

pub activity_blockers : List RequirementEvaluation → List ActivityTemplate → List CandidateBlocker
unfolding has_no_root
activity_blockers wanted roots =
    map (λ e. no_activities e.requirement_key e.label e.support_refs)
      (keep (has_no_root roots) wanted)

-- `_candidate_set`
pub candidate_set : EditorialAnalysis → List Candidate → List CandidateBlocker → CandidateSet
candidate_set a candidates blockers = record {
  analysis_id = a.analysis_id;
  profile_version = a.profile_version;
  occupation_id = a.occupation_id;
  basis_version = a.basis_version;
  corpus_release_id = a.corpus_release_id;
  is_fixture = a.is_fixture;
  reference_at = a.reference_at;
  candidates = candidates;
  blockers = blockers;
}

-- What raises, before what recurs.
abbrev pub or_fail : {A B : Type 0} → Result Error A → (A → Outcome Error B) → Outcome Error B
or_fail (ok a) f = f a
or_fail (raise e) f = failed e

-- `_build_ready`, on the templates' catalog.
unfoldable pub build_ready : List ActivityTemplate → EditorialAnalysis → Outcome Error CandidateSet
unfolding candidate_set roots_of unmet_of input_blockers activity_blockers
build_ready templates a = or_fail (catalog templates) (λ cat.
    or_fail (validate_outcomes a.requirements cat) (λ _.
      let wanted = unmet_of a.requirements in
      let roots = roots_of wanted cat in
      then_do (expand a.requirements cat roots) (λ s. done (
        candidate_set a s.candidates
          (input_blockers a.requirements ++ activity_blockers wanted roots)))))

-- `build`
pub build : List ActivityTemplate → EditorialAnalysis → Outcome Error CandidateSet
unfolding build_ready
build templates a = elim a.analysis_status [
  | insufficient_data ↦ done (candidate_set a [] (insufficient_analysis a.analysis_id ∷ []))
  | ready ↦ build_ready templates a
]

-- `__post_init__`: the templates of a generator that exists.
unfoldable pub generator : List ActivityTemplate → Outcome Error (List ActivityTemplate)
unfolding validate_dependencies
generator templates =
    or_fail (catalog templates) (λ cat. then_do (validate_dependencies cat) (λ _. done templates))
