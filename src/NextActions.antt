-- ===== src/NextActions.antt =====
-- The dashboard's next actions (src/jobtology_be/modules/dashboard/next_actions.py). Aware timestamps
-- are instants in UTC; the lengths that the contracts ask of texts are left out.
pub mod Described
pub mod Selected
mod Examples
use jobtology_be.Common.{
  ℕ, ◌+◌, Bool, true, false, ◌&&◌, ◌||◌, Option, none, some, List, [], ◌∷◌, ◌++◌, map, keep, subset,
  is_some, get_or, not, ltb, leb, ◌==◌, if◌then◌else◌, sort_by,
}

pub record RoadmapCandidate : Type 0 where
  pub roadmap_id : ℕ
  pub roadmap_version : ℕ
  pub is_active : Bool

pub record DeadlineActionCandidate : Type 0 where
  pub action_id : ℕ
  pub title : ℕ
  pub due_at : ℕ
  pub source_is_valid : Bool
  pub prerequisite_step_ids : List ℕ
  pub support_refs : List ℕ

pub data StepState : Type 0 where
  todo : StepState
  in_progress : StepState
  completed : StepState

pub record RoadmapStepCandidate : Type 0 where
  pub roadmap_id : ℕ
  pub roadmap_version : ℕ
  pub step_id : ℕ
  pub title : ℕ
  pub state : StepState
  pub roadmap_position : ℕ
  pub due_at : Option ℕ
  pub expires_at : Option ℕ
  pub source_is_valid : Bool
  pub prerequisite_step_ids : List ℕ
  pub support_refs : List ℕ

pub record NextActionRequest : Type 0 where
  pub reference_at : ℕ
  pub urgency_window : ℕ
  pub rule_version : ℕ
  pub roadmap : RoadmapCandidate
  pub completed_step_ids : List ℕ
  pub deadline_actions : List DeadlineActionCandidate
  pub roadmap_steps : List RoadmapStepCandidate

pub data Kind : Type 0 where
  continue_step : Kind
  start_step : Kind
  review_deadline : Kind

pub data ReasonCode : Type 0 where
  urgent_deadline : ReasonCode
  in_progress_step : ReasonCode
  next_roadmap_step : ReasonCode

pub data NavigationTarget : Type 0 where
  deadline_action : NavigationTarget
  roadmap_step : NavigationTarget

pub record NextActionRecommendation : Type 0 where
  pub kind : Kind
  pub roadmap_id : Option ℕ
  pub roadmap_version : Option ℕ
  pub step_id : Option ℕ
  pub title : ℕ
  pub reason_code : ReasonCode
  pub due_at : Option ℕ
  pub blocked_by : List ℕ
  pub support_refs : List ℕ
  pub navigation_target : NavigationTarget
  pub navigation_target_id : ℕ

pub record NextActionSelection : Type 0 where
  pub rule_version : ℕ
  pub reference_at : ℕ
  pub recommendations : List NextActionRecommendation

-- `_is_urgent_deadline`
abbrev pub is_urgent_deadline : NextActionRequest → DeadlineActionCandidate → Bool
is_urgent_deadline request action =
    action.source_is_valid
    && subset action.prerequisite_step_ids request.completed_step_ids
    && ltb request.reference_at action.due_at
    && leb action.due_at (request.reference_at + request.urgency_window)

abbrev pub is_current : NextActionRequest → Option ℕ → Bool
is_current request none = true
is_current request (some t) = ltb request.reference_at t

-- `_is_eligible_step`
abbrev pub is_eligible_step : NextActionRequest → RoadmapStepCandidate → Bool
is_eligible_step request step =
    (step.roadmap_id == request.roadmap.roadmap_id)
    && (step.roadmap_version == request.roadmap.roadmap_version)
    && step.source_is_valid
    && is_current request step.expires_at
    && subset step.prerequisite_step_ids request.completed_step_ids

-- The order of the key `(due_at, action_id)`.
unfoldable pub by_due : DeadlineActionCandidate → DeadlineActionCandidate → Bool
by_due a b = ltb a.due_at b.due_at || ((a.due_at == b.due_at) && leb a.action_id b.action_id)

-- `step.due_at is None`, as Python orders it.
abbrev pub undated : Option ℕ → ℕ
undated none = 1
undated (some t) = 0

-- The order of `_step_sort_key`.
unfoldable pub by_key : ℕ → RoadmapStepCandidate → RoadmapStepCandidate → Bool
by_key reference_at a b =
    ltb a.roadmap_position b.roadmap_position
    || ((a.roadmap_position == b.roadmap_position)
        && (ltb (undated a.due_at) (undated b.due_at)
            || ((undated a.due_at == undated b.due_at)
                && (ltb (get_or a.due_at reference_at) (get_or b.due_at reference_at)
                    || ((get_or a.due_at reference_at == get_or b.due_at reference_at)
                        && leb a.step_id b.step_id)))))

-- The `match` on the state of a step.
abbrev pub file_step :
    StepState
    → RoadmapStepCandidate
    → List RoadmapStepCandidate × List RoadmapStepCandidate
    → List RoadmapStepCandidate × List RoadmapStepCandidate
file_step in_progress step rest = (step ∷ rest.0, rest.1)
file_step todo step rest = (rest.0, step ∷ rest.1)
file_step completed step rest = rest

-- The loop of `_eligible_roadmap_steps`: the steps in progress and those to do, as they come.
unfoldable pub collect :
    NextActionRequest
    → List RoadmapStepCandidate
    → List RoadmapStepCandidate × List RoadmapStepCandidate
collect request [] = ([], [])
collect request (step ∷ steps) =
    let rest = collect request steps in
    if not (is_eligible_step request step) then rest else file_step step.state step rest

unfoldable pub eligible_roadmap_steps :
    NextActionRequest → List RoadmapStepCandidate × List RoadmapStepCandidate
unfolding collect sort_by by_key
eligible_roadmap_steps request = if not request.roadmap.is_active then ([], []) else (
  sort_by (by_key request.reference_at) (collect request request.roadmap_steps).0,
  sort_by (by_key request.reference_at) (collect request request.roadmap_steps).1,
)

abbrev pub recommend_deadline : DeadlineActionCandidate → NextActionRecommendation
recommend_deadline action = record {
  kind = review_deadline;
  roadmap_id = none;
  roadmap_version = none;
  step_id = none;
  title = action.title;
  reason_code = urgent_deadline;
  due_at = some action.due_at;
  blocked_by = [];
  support_refs = action.support_refs;
  navigation_target = deadline_action;
  navigation_target_id = action.action_id;
}

abbrev pub recommend_step : Kind → ReasonCode → RoadmapStepCandidate → NextActionRecommendation
recommend_step kind reason_code step = record {
  kind = kind;
  roadmap_id = some step.roadmap_id;
  roadmap_version = some step.roadmap_version;
  step_id = some step.step_id;
  title = step.title;
  reason_code = reason_code;
  due_at = step.due_at;
  blocked_by = [];
  support_refs = step.support_refs;
  navigation_target = roadmap_step;
  navigation_target_id = step.step_id;
}

unfoldable pub select_next_actions : NextActionRequest → NextActionSelection
unfolding eligible_roadmap_steps sort_by by_due
select_next_actions request =
    let urgent = sort_by by_due (keep (is_urgent_deadline request) request.deadline_actions) in
    let steps = eligible_roadmap_steps request in
    record {
      rule_version = request.rule_version;
      reference_at = request.reference_at;
      recommendations =
          map recommend_deadline urgent
          ++ map (recommend_step continue_step in_progress_step) steps.0
          ++ map (recommend_step start_step next_roadmap_step) steps.1;
    }
