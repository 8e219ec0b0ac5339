-- ===== src/NextActions/Examples.antt =====
-- The next actions of a small roadmap.
use jobtology_be.Common.{ℕ, ◌≡◌, refl, true, none, List, [], ◌∷◌, map}
use jobtology_be.NextActions.{
  StepState, todo, in_progress, completed, RoadmapStepCandidate, NextActionRequest,
  select_next_actions,
}
use jobtology_be.NextActions.Selected.{IsSelected, select_next_actions-IsSelected}

abbrev step : ℕ → StepState → List ℕ → RoadmapStepCandidate
step i state prerequisites = record {
  roadmap_id = 1;
  roadmap_version = 3;
  step_id = i;
  title = 90;
  state = state;
  roadmap_position = i;
  due_at = none;
  expires_at = none;
  source_is_valid = true;
  prerequisite_step_ids = prerequisites;
  support_refs = [];
}

-- Step 14 waits for step 13, which is not completed.
abbrev request : NextActionRequest
request = record {
  reference_at = 1000;
  urgency_window = 500;
  rule_version = 1;
  roadmap = record { roadmap_id = 1; roadmap_version = 3; is_active = true };
  completed_step_ids = 11 ∷ [];
  deadline_actions =
      record {
        action_id = 7;
        title = 91;
        due_at = 1500;
        source_is_valid = true;
        prerequisite_step_ids = [];
        support_refs = [];
      }
      ∷ [];
  roadmap_steps =
      step 14 todo (13 ∷ [])
      ∷ step 13 todo (11 ∷ [])
      ∷ step 12 in_progress []
      ∷ step 11 completed []
      ∷ [];
}

request_run :
    map (λ r. r.navigation_target_id) (select_next_actions request).recommendations
    ≡ 7 ∷ 12 ∷ 13 ∷ []
unfolding select_next_actions
request_run = refl

select_next_actions-IsSelected_example : IsSelected request (select_next_actions request)
select_next_actions-IsSelected_example = select_next_actions-IsSelected request
