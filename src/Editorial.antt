-- ===== src/Editorial.antt =====
-- The editorial gap analysis: data of src/jobtology_be/modules/analyses/editorial_models.py and of
-- src/jobtology_be/contracts.py, and the analyzer of src/jobtology_be/modules/analyses/editorial.py.
-- Identifiers, labels and codes are only compared and sorted: each stands as a number, its rank in
-- the order of the texts. A frozenset is a list of which only the members count. A credit is a
-- float from 0 to 1: it stands as a number of hundredths, 100 for full credit.
pub mod Baseline
pub mod Reviewed
pub mod Verdicts
pub mod Credit
pub mod Scores
mod Examples
use jobtology_be.Common.{
  ℕ, ◌+◌, ◌≡◌, Bool, true, false, not, ◌&&◌, ◌||◌, Option, none, some, List, [], ◌∷◌, map, length,
  keep, all, elem, subset, ◌==◌, ltb, if◌then◌else◌, Result, ok, raise, max,
}

pub data RequirementNecessity : Type 0 where
  required preferred : RequirementNecessity

pub data SatisfactionStatus : Type 0 where
  satisfied partial unmet needs_input : SatisfactionStatus

pub data ReleaseState : Type 0 where
  published unpublished revoked fixture : ReleaseState

pub data AnalysisStatus : Type 0 where
  ready insufficient_data : AnalysisStatus

pub data UnavailableReason : Type 0 where
  empty_baseline no_requirements : UnavailableReason

-- `resolution` of a capability.
pub data Resolution : Type 0 where
  resolved unresolved ambiguous : Resolution

abbrev pub full_credit : ℕ
full_credit = 100

pub record NormalizedCapability : Type 0 where
  pub raw_text : ℕ
  pub entity_id : Option ℕ
  pub experience_codes : List ℕ
  pub resolution : Resolution
  pub credit : ℕ

pub record NormalizedProfile : Type 0 where
  pub user_id : ℕ
  pub profile_version : ℕ
  pub capabilities : List NormalizedCapability

-- A timestamp: whether it carries a timezone, and its instant in microseconds.
pub record Timestamp : Type 0 where
  pub is_aware : Bool
  pub instant : ℕ

pub record EditorialReleaseMetadata : Type 0 where
  pub release_id : Option ℕ
  pub state : ReleaseState
  pub reviewed_at : Option Timestamp

pub record EditorialRequirement : Type 0 where
  pub requirement_key : ℕ
  pub label : ℕ
  pub necessity : RequirementNecessity
  pub entity_id : ℕ
  pub required_experience_codes : List ℕ
  pub support_refs : List ℕ

pub record EditorialBaseline : Type 0 where
  pub occupation_id : ℕ
  pub basis_version : ℕ
  pub release : EditorialReleaseMetadata
  pub is_fixture : Bool
  pub requirements : List EditorialRequirement

pub record EditorialAnalysisRequest : Type 0 where
  pub analysis_id : ℕ
  pub occupation_id : ℕ
  pub basis_version : ℕ
  pub reference_at : ℕ

pub record InputCompleteness : Type 0 where
  pub entities_complete : Bool
  pub experience_complete_entity_ids : List ℕ

-- `provenance` holds at most the one word SELF_REPORTED: whether it does.
pub record RequirementEvaluation : Type 0 where
  pub requirement_key : ℕ
  pub label : ℕ
  pub necessity : RequirementNecessity
  pub status : SatisfactionStatus
  pub self_reported : Bool
  pub support_refs : List ℕ
  pub credit : ℕ

-- `score` is the fraction `matched_count / total_count` and `weighted_score` the fraction
-- `credit_sum / total_count` of hundredths; a reason makes both unavailable.
pub record Coverage : Type 0 where
  pub reason : Option UnavailableReason
  pub matched_count : ℕ
  pub total_count : ℕ
  pub credit_sum : ℕ

pub record EditorialAnalysis : Type 0 where
  pub analysis_id : ℕ
  pub profile_version : ℕ
  pub occupation_id : ℕ
  pub basis_version : ℕ
  pub corpus_release_id : Option ℕ
  pub is_fixture : Bool
  pub reference_at : ℕ
  pub analysis_status : AnalysisStatus
  pub requirements : List RequirementEvaluation
  pub required_coverage : Coverage
  pub preferred_coverage : Coverage

pub record BaselineMismatch : Type 0 where
  pub expected_occupation_id : ℕ
  pub expected_basis_version : ℕ
  pub actual_occupation_id : ℕ
  pub actual_basis_version : ℕ

abbrev pub is_resolved : Resolution → Bool
is_resolved resolved = true
is_resolved _ = false

abbrev pub is_entity : Option ℕ → ℕ → Bool
is_entity none e = false
is_entity (some x) e = x == e

abbrev pub same_necessity : RequirementNecessity → RequirementNecessity → Bool
same_necessity required required = true
same_necessity preferred preferred = true
same_necessity _ _ = false

abbrev pub is_satisfied : SatisfactionStatus → Bool
is_satisfied satisfied = true
is_satisfied _ = false

-- `experience_is_complete_for`
pub experience_is_complete_for : InputCompleteness → ℕ → Bool
experience_is_complete_for c entity_id = elem entity_id c.experience_complete_entity_ids

-- The comprehension `matches` of `_evaluate_requirement`.
pub matches : EditorialRequirement → NormalizedCapability → Bool
matches r c = is_resolved c.resolution && is_entity c.entity_id r.entity_id

-- The comprehension `eligible`: one record must support all the experience codes.
pub is_eligible : EditorialRequirement → NormalizedCapability → Bool
is_eligible r c = subset r.required_experience_codes c.experience_codes

-- `max(capability.credit for capability in eligible)`; the code asks it of a nonempty tuple only.
pub best_credit : List NormalizedCapability → ℕ
best_credit [] = 0
best_credit (c ∷ cs) = max c.credit (best_credit cs)

-- `SATISFIED if credit == 1 else PARTIAL if credit > 0 else UNMET`
pub status_of_credit : ℕ → SatisfactionStatus
status_of_credit credit =
    if credit == full_credit then satisfied else if ltb 0 credit then partial else unmet

-- `_evaluation`
pub evaluation : EditorialRequirement → SatisfactionStatus → Bool → ℕ → RequirementEvaluation
evaluation r status provenance credit = record {
  requirement_key = r.requirement_key;
  label = r.label;
  necessity = r.necessity;
  status = status;
  self_reported = provenance;
  support_refs = r.support_refs;
  credit = credit;
}

-- The two early returns of `_evaluate_requirement`, on the records that were found.
pub judge :
    EditorialRequirement
    → InputCompleteness
    → List NormalizedCapability
    → List NormalizedCapability
    → RequirementEvaluation
unfolding best_credit status_of_credit evaluation experience_is_complete_for
judge r c [] eligible = evaluation r (if c.entities_complete then unmet else needs_input) false 0
judge r c (m ∷ ms) [] =
    evaluation r (if experience_is_complete_for c r.entity_id then unmet else needs_input) true 0
judge r c (m ∷ ms) (e ∷ es) =
    evaluation r (status_of_credit (best_credit (e ∷ es))) true (best_credit (e ∷ es))

pub evaluate_requirement :
    EditorialRequirement → NormalizedProfile → InputCompleteness → RequirementEvaluation
unfolding judge matches is_eligible
evaluate_requirement r profile c =
    let found = keep (matches r) profile.capabilities in
    judge r c found (keep (is_eligible r) found)

pub count_satisfied : List RequirementEvaluation → ℕ
count_satisfied xs = length (keep (λ e. is_satisfied e.status) xs)

pub sum_credit : List RequirementEvaluation → ℕ
sum_credit [] = 0
sum_credit (e ∷ es) = e.credit + sum_credit es

abbrev pub unavailable : UnavailableReason → Coverage
unavailable why = record { reason = some why; matched_count = 0; total_count = 0; credit_sum = 0 }

pub scored : List RequirementEvaluation → Coverage
unfolding count_satisfied sum_credit
scored [] = unavailable no_requirements
scored (e ∷ es) = record {
  reason = none;
  matched_count = count_satisfied (e ∷ es);
  total_count = length (e ∷ es);
  credit_sum = sum_credit (e ∷ es);
}

-- `_coverage`
pub coverage : List RequirementEvaluation → RequirementNecessity → Bool → Coverage
unfolding scored
coverage evaluations necessity baseline_empty =
    if baseline_empty
    then unavailable empty_baseline
    else scored (keep (λ e. same_necessity e.necessity necessity) evaluations)

abbrev pub is_empty {ℓ} : {A : Type ℓ} → List A → Bool
is_empty [] = true
is_empty (_ ∷ _) = false

-- `EditorialGapAnalyzer.evaluate`
unfoldable pub evaluate :
    EditorialBaseline
    → NormalizedProfile
    → EditorialAnalysisRequest
    → InputCompleteness
    → Result BaselineMismatch EditorialAnalysis
unfolding evaluate_requirement coverage
evaluate baseline profile request completeness =
    let evaluations =
      map (λ r. evaluate_requirement r profile completeness) baseline.requirements in
    let baseline_empty = is_empty baseline.requirements in
    if not (request.occupation_id == baseline.occupation_id)
      || not (request.basis_version == baseline.basis_version)
    then raise (record {
      expected_occupation_id = baseline.occupation_id;
      expected_basis_version = baseline.basis_version;
      actual_occupation_id = request.occupation_id;
      actual_basis_version = request.basis_version;
    })
    else ok (record {
      analysis_id = request.analysis_id;
      profile_version = profile.profile_version;
      occupation_id = request.occupation_id;
      basis_version = request.basis_version;
      corpus_release_id = baseline.release.release_id;
      is_fixture = baseline.is_fixture;
      reference_at = request.reference_at;
      analysis_status = if baseline_empty then insufficient_data else ready;
      requirements = evaluations;
      required_coverage = coverage evaluations required baseline_empty;
      preferred_coverage = coverage evaluations preferred baseline_empty;
    })
