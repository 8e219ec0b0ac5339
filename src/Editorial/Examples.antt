-- ===== src/Editorial/Examples.antt =====
-- Runs of the editorial analysis on small data, and its theorems at them.
use jobtology_be.Common.{
  ℕ, ◌≡◌, ◌↔◌, ◌⊎◌, ◌≤◌, Bool, true, false, none, some, List, [], ◌∷◌, All, Any, IsNodup, arith, ok,
}
use jobtology_be.Editorial.{
  required, preferred, ready, satisfied, needs_input, published, resolved, NormalizedCapability,
  NormalizedProfile, EditorialRequirement, EditorialBaseline, EditorialAnalysisRequest,
  InputCompleteness, EditorialAnalysis, experience_is_complete_for, evaluate_requirement,
}
use jobtology_be.Editorial.Baseline.{check_baseline, keys_of}
use jobtology_be.Editorial.Reviewed.{IsReviewed, IsFixture, check_baseline_iff}
use jobtology_be.Editorial.Verdicts.{Supports, SupportsFully, Names, satisfied_iff}
use jobtology_be.Editorial.Credit.{credit_is_best, needs_input_iff}

-- A language with two experience codes, and a tool with none.
abbrev language : EditorialRequirement
language = record {
  requirement_key = 1;
  label = 11;
  necessity = required;
  entity_id = 101;
  required_experience_codes = 7 ∷ 8 ∷ [];
  support_refs = 501 ∷ [];
}

abbrev tool : EditorialRequirement
tool = record {
  requirement_key = 2;
  label = 12;
  necessity = preferred;
  entity_id = 102;
  required_experience_codes = [];
  support_refs = 502 ∷ [];
}

abbrev known : List ℕ → ℕ → NormalizedCapability
known codes credit = record {
  raw_text = 900;
  entity_id = some 101;
  experience_codes = codes;
  resolution = resolved;
  credit = credit;
}

-- Three records of the language: no single one has both codes and full credit but the last.
abbrev profile : NormalizedProfile
profile = record {
  user_id = 1;
  profile_version = 3;
  capabilities = known (7 ∷ []) 100 ∷ known (7 ∷ 8 ∷ []) 60 ∷ known (8 ∷ 7 ∷ []) 100 ∷ [];
}

abbrev complete : InputCompleteness
complete = record { entities_complete = false; experience_complete_entity_ids = 101 ∷ [] }

abbrev baseline : EditorialBaseline
baseline = record {
  occupation_id = 40;
  basis_version = 41;
  release = record {
    release_id = some 42;
    state = published;
    reviewed_at = some (record { is_aware = true; instant = 43 });
  };
  is_fixture = false;
  requirements = language ∷ tool ∷ [];
}

abbrev request : EditorialAnalysisRequest
request = record { analysis_id = 50; occupation_id = 40; basis_version = 41; reference_at = 60 }

abbrev analysis : EditorialAnalysis
analysis = record {
  analysis_id = 50;
  profile_version = 3;
  occupation_id = 40;
  basis_version = 41;
  corpus_release_id = some 42;
  is_fixture = false;
  reference_at = 60;
  analysis_status = ready;
  requirements =
      record {
        requirement_key = 1;
        label = 11;
        necessity = required;
        status = satisfied;
        self_reported = true;
        support_refs = 501 ∷ [];
        credit = 100;
      }
      ∷ record {
        requirement_key = 2;
        label = 12;
        necessity = preferred;
        status = needs_input;
        self_reported = false;
        support_refs = 502 ∷ [];
        credit = 0;
      }
      ∷ [];
  required_coverage = record {
    reason = none;
    matched_count = 1;
    total_count = 1;
    credit_sum = 100;
  };
  preferred_coverage = record { reason = none; matched_count = 0; total_count = 1; credit_sum = 0 };
}

satisfied_iff_example :
    ((evaluate_requirement language profile complete).status ≡ satisfied)
    ↔ Any (SupportsFully language) profile.capabilities
satisfied_iff_example = satisfied_iff language profile complete (omega arith)

credit_is_best_example :
    let credit = (evaluate_requirement language profile complete).credit in
    All (λ k. Supports language k → k.credit ≤ credit) profile.capabilities
    × ((credit ≡ 0) ⊎ Any (λ k. Supports language k × (k.credit ≡ credit)) profile.capabilities)
credit_is_best_example = credit_is_best language profile complete

needs_input_iff_example : ((evaluate_requirement tool profile complete).status ≡ needs_input) ↔ (
    (¬ Any (Supports tool) profile.capabilities)
    × (((¬ Any (Names tool) profile.capabilities) × (complete.entities_complete ≡ false))
        ⊎ ((¬ ¬ Any (Names tool) profile.capabilities)
            × (experience_is_complete_for complete tool.entity_id ≡ false))))
needs_input_iff_example = needs_input_iff tool profile complete

abbrev blank : ℕ → Bool
blank _ = false

check_baseline_iff_example :
    (check_baseline blank baseline ≡ ok tt)
    ↔ (IsNodup (keys_of baseline) × (IsReviewed blank baseline ⊎ IsFixture baseline))
check_baseline_iff_example = check_baseline_iff blank baseline
