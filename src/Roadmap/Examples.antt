-- ===== src/Roadmap/Examples.antt =====
-- A step that is completed and taken back, and the theorems on mutations at it.
use jobtology_be.Common.{
  ℕ, ◌≡◌, refl, none, some, List, [], ◌∷◌, sorted, sort_by, insert_by, Result, ok, raise,
}
use jobtology_be.Roadmap.Outcomes.{
  RoadmapOutcome, CanonicalCompletionOutcome, canonical_completion_outcomes, sorted_set,
  provenance_of,
}
use jobtology_be.Roadmap.{
  active, todo, in_progress, completed, active_lifecycle, revoked, step_completed,
  step_completion_reversed, UserCapability, Store, StepStateMutation, MutationError,
  persistence_conflict, profile_conflict, RoadmapSnapshot, mutate_step_state,
}
use jobtology_be.Roadmap.Grouping.{IsGrouping, canonical_completion_outcomes-IsGrouping}
use jobtology_be.Roadmap.Reversal.{in_force, reopening, mutate_step_state-reversal}
use jobtology_be.Roadmap.Transitions.{mutate_step_state_stale}

-- The recompute work is counted.
abbrev enqueue : ℕ → ℕ → ℕ → ℕ → List ℕ → Result MutationError (List ℕ)
enqueue user version event goal work = ok (event ∷ work)

abbrev own_capability : UserCapability
own_capability = record {
  user_id = 1;
  outcome = none;
  lifecycle = active_lifecycle;
  granted_by_step = none;
  source_completion_event_id = none;
}

abbrev before : Store (List ℕ)
before = record {
  profiles = record { user_id = 1; version = 3 } ∷ [];
  roadmaps = record { id = 5; user_id = 1; goal_id = 6; state = active; version = 2 } ∷ [];
  steps =
      record {
        id = 7;
        roadmap_id = 5;
        state = todo;
        outcomes =
            record {
              requirement_key = 10;
              entity_id = 20;
              raw_text = 30;
              experience_codes = 1 ∷ [];
            }
            ∷ [];
      }
      ∷ [];
  events = [];
  capabilities = own_capability ∷ [];
  inheritances = [];
  work = [];
}

abbrev completing : StepStateMutation
completing = record {
  user_id = 1;
  roadmap_id = 5;
  step_id = 7;
  expected_roadmap_version = 2;
  expected_profile_version = 3;
  state = completed;
}

abbrev granted_outcome : CanonicalCompletionOutcome
granted_outcome = record {
  entity_id = 20;
  raw_text = 30;
  requirement_keys = 10 ∷ [];
  experience_codes = 1 ∷ [];
  provenance = record { requirement_key = 10; raw_text = 30; experience_codes = 1 ∷ [] } ∷ [];
}

abbrev granted_capability : UserCapability
granted_capability = record {
  user_id = 1;
  outcome = some granted_outcome;
  lifecycle = active_lifecycle;
  granted_by_step = some 7;
  source_completion_event_id = some 100;
}

abbrev after : Store (List ℕ)
after = record {
  profiles = record { user_id = 1; version = 4 } ∷ [];
  roadmaps = record { id = 5; user_id = 1; goal_id = 6; state = active; version = 3 } ∷ [];
  steps =
      record {
        id = 7;
        roadmap_id = 5;
        state = completed;
        outcomes =
            record {
              requirement_key = 10;
              entity_id = 20;
              raw_text = 30;
              experience_codes = 1 ∷ [];
            }
            ∷ [];
      }
      ∷ [];
  events =
      record { id = 100; user_id = 1; aggregate_id = 7; version = 4; kind = step_completed } ∷ [];
  capabilities = granted_capability ∷ own_capability ∷ [];
  inheritances = (7, 100) ∷ [];
  work = 100 ∷ [];
}

abbrev reversed : Store (List ℕ)
reversed = record {
  profiles = record { user_id = 1; version = 5 } ∷ [];
  roadmaps = record { id = 5; user_id = 1; goal_id = 6; state = active; version = 4 } ∷ [];
  steps =
      record {
        id = 7;
        roadmap_id = 5;
        state = todo;
        outcomes =
            record {
              requirement_key = 10;
              entity_id = 20;
              raw_text = 30;
              experience_codes = 1 ∷ [];
            }
            ∷ [];
      }
      ∷ [];
  events =
      record {
        id = 101;
        user_id = 1;
        aggregate_id = 7;
        version = 5;
        kind = step_completion_reversed;
      }
      ∷ record { id = 100; user_id = 1; aggregate_id = 7; version = 4; kind = step_completed }
      ∷ [];
  capabilities = record granted_capability { lifecycle = revoked } ∷ own_capability ∷ [];
  inheritances = (7, 100) ∷ [];
  work = 101 ∷ 100 ∷ [];
}

abbrev snapshot : ℕ → RoadmapSnapshot
snapshot version = record { roadmap_id = 5; version = version; state = active }

completing_run : mutate_step_state enqueue 100 completing before ≡ ok (after, snapshot 3)
unfolding mutate_step_state canonical_completion_outcomes sorted_set provenance_of sorted sort_by
    insert_by
completing_run = refl

reversing_run :
    mutate_step_state enqueue 101 (reopening completing todo 3 4) after ≡ ok (reversed, snapshot 4)
unfolding mutate_step_state
reversing_run = refl

mutate_step_state-reversal_example : in_force reversed.capabilities ≡ in_force before.capabilities
mutate_step_state-reversal_example =
    mutate_step_state-reversal enqueue 100 101 completing todo 3 4 before after reversed
      (snapshot 3) (snapshot 4) refl (refl, tt) completing_run reversing_run

mutate_step_state_stale_example :
    mutate_step_state enqueue 102 (record completing { state = in_progress }) after
    ≡ raise (persistence_conflict profile_conflict)
mutate_step_state_stale_example =
    mutate_step_state_stale enqueue 100 102 completing (record completing { state = in_progress })
      before after (snapshot 3) ((λ i. i), tt) completing_run refl refl

-- Two outcomes of one entity.
abbrev two_outcomes : List RoadmapOutcome
two_outcomes =
    record { requirement_key = 11; entity_id = 20; raw_text = 31; experience_codes = 2 ∷ 1 ∷ [] }
    ∷ record { requirement_key = 10; entity_id = 20; raw_text = 30; experience_codes = 1 ∷ [] }
    ∷ []

canonical_completion_outcomes-IsGrouping_example :
    (cs : List CanonicalCompletionOutcome) × (canonical_completion_outcomes two_outcomes ≡ ok cs)
    × IsGrouping two_outcomes cs
canonical_completion_outcomes-IsGrouping_example =
    canonical_completion_outcomes-IsGrouping two_outcomes
