-- ===== src/NextActions/Selected.antt =====
-- What the dashboard recommends (src/jobtology_be/modules/dashboard/next_actions.py).
use jobtology_be.Common.{
  ℕ, ◌≡◌, refl, ◌↔◌, inl, inr, Bool, true, false, ◌&&◌, none, some, List, [], ◌∷◌, ◌++◌, map, keep,
  Bool-cases, arith, sort_by, IsTotal, IsSelection, sort_by-IsSelection, none-IsSelection,
  if◌then◌else◌,
}
use jobtology_be.NextActions.{
  DeadlineActionCandidate, StepState, todo, in_progress, completed, RoadmapStepCandidate,
  NextActionRequest, NextActionRecommendation, NextActionSelection, Kind, ReasonCode, continue_step,
  start_step, review_deadline, urgent_deadline, in_progress_step, next_roadmap_step,
  deadline_action, roadmap_step, is_urgent_deadline, is_eligible_step, by_due, by_key, file_step,
  collect, eligible_roadmap_steps, select_next_actions,
}
use jobtology_be.NextActions.Described.{
  IsUrgent, IsEligible, DueBefore, StepBefore, is_in_progress, is_todo, is_in_progress↔, is_todo↔,
  is_urgent_deadline_lem, is_eligible_in_lem, by_due-DueBefore, by_key-StepBefore,
}

by_due-IsTotal : IsTotal by_due
unfolding by_due
by_due-IsTotal x y e = ground arith

by_key-IsTotal : (reference_at : ℕ) → IsTotal (by_key reference_at)
unfolding by_key
by_key-IsTotal reference_at x y e = ground arith

-- The tests that the two lists of steps pass.
abbrev continues : NextActionRequest → RoadmapStepCandidate → Bool
continues request step = is_eligible_step request step && is_in_progress step.state

abbrev starts : NextActionRequest → RoadmapStepCandidate → Bool
starts request step = is_eligible_step request step && is_todo step.state

file_step_lem :
    (st : StepState) (step : RoadmapStepCandidate) (xs ys : List RoadmapStepCandidate)
    → file_step st step (xs, ys)
      ≡ (if is_in_progress st then step ∷ xs else xs, if is_todo st then step ∷ ys else ys)
file_step_lem todo step xs ys = refl
file_step_lem in_progress step xs ys = refl
file_step_lem completed step xs ys = refl

collect-keep :
    (request : NextActionRequest) (steps : List RoadmapStepCandidate)
    → collect request steps ≡ (keep (continues request) steps, keep (starts request) steps)
unfolding collect
collect-keep request [] = refl
collect-keep request (step ∷ steps) =
    let rest = collect-keep request steps in
    elim (Bool-cases (is_eligible_step request step)) [
      | inr e ↦ rw (e, collect) rest
      | inl e ↦
          rw (e, collect, rest)
            (file_step_lem step.state step (keep (continues request) steps)
              (keep (starts request) steps))
    ]

-- What is recommended of an urgent deadline.
abbrev pub deadline_review : DeadlineActionCandidate → NextActionRecommendation
deadline_review a = record {
  kind = review_deadline;
  roadmap_id = none;
  roadmap_version = none;
  step_id = none;
  title = a.title;
  reason_code = urgent_deadline;
  due_at = some a.due_at;
  blocked_by = [];
  support_refs = a.support_refs;
  navigation_target = deadline_action;
  navigation_target_id = a.action_id;
}

-- What is recommended of a step, to be continued or started, and why.
abbrev pub step_action : Kind → ReasonCode → RoadmapStepCandidate → NextActionRecommendation
step_action kind reason s = record {
  kind = kind;
  roadmap_id = some s.roadmap_id;
  roadmap_version = some s.roadmap_version;
  step_id = some s.step_id;
  title = s.title;
  reason_code = reason;
  due_at = s.due_at;
  blocked_by = [];
  support_refs = s.support_refs;
  navigation_target = roadmap_step;
  navigation_target_id = s.step_id;
}

-- What a selection is: reviews of the urgent deadlines by their dates, then the eligible steps in
-- progress, to be continued, then the eligible steps to do, to be started, these two by position and
-- date.
pub record IsSelected (request : NextActionRequest) (selection : NextActionSelection) : Type 0 where
  pub rule_kept : selection.rule_version ≡ request.rule_version
  pub reference_kept : selection.reference_at ≡ request.reference_at
  pub urgent : List DeadlineActionCandidate
  pub continued : List RoadmapStepCandidate
  pub started : List RoadmapStepCandidate
  pub made :
      selection.recommendations
      ≡ map deadline_review urgent
        ++ map (step_action continue_step in_progress_step) continued
        ++ map (step_action start_step next_roadmap_step) started
  pub urgent_selected : IsSelection DueBefore (IsUrgent request) request.deadline_actions urgent
  pub continued_selected :
      IsSelection StepBefore (IsEligible request in_progress) request.roadmap_steps continued
  pub started_selected :
      IsSelection StepBefore (IsEligible request todo) request.roadmap_steps started

sort_by-IsUrgent :
    (request : NextActionRequest)
    → IsSelection DueBefore
        (IsUrgent request)
        request.deadline_actions
        (sort_by by_due (keep (is_urgent_deadline request) request.deadline_actions))
sort_by-IsUrgent request =
    sort_by-IsSelection by_due by_due-IsTotal (is_urgent_deadline request) DueBefore
      (IsUrgent request) by_due-DueBefore (is_urgent_deadline_lem request) request.deadline_actions

module _ (request : NextActionRequest) (active : request.roadmap.is_active ≡ true) where
  sort_by-IsEligible :
      (state : StepState) (is_state : StepState → Bool)
      → ((st : StepState) → (is_state st ≡ true) ↔ (st ≡ state))
      → IsSelection StepBefore (IsEligible request state) request.roadmap_steps (
          sort_by
            (by_key request.reference_at)
            (keep (λ s. is_eligible_step request s && is_state s.state) request.roadmap_steps))
  sort_by-IsEligible state is_state means =
      sort_by-IsSelection (by_key request.reference_at) (by_key-IsTotal request.reference_at)
        (λ s. is_eligible_step request s && is_state s.state) StepBefore (IsEligible request state)
        (by_key-StepBefore request.reference_at)
        (λ s. is_eligible_in_lem request state (is_state s.state) s active (means s.state))
        request.roadmap_steps

none-IsEligible :
    (request : NextActionRequest) (state : StepState)
    → request.roadmap.is_active ≡ false
    → IsSelection StepBefore (IsEligible request state) request.roadmap_steps []
none-IsEligible request state idle =
    none-IsSelection StepBefore (IsEligible request state) (λ s h. cc (idle, h.active))
      request.roadmap_steps

-- The recommendations are exactly reviews of the urgent deadlines (valid, their prerequisites
-- completed, due after the reference and within the window) in the order of their dates and
-- identifiers, then the steps in progress, to be continued, then the steps to do, to be started. Of
-- the steps they are exactly the eligible ones (of this version of the roadmap, which is active,
-- valid, not expired, their prerequisites completed), by position, date with the undated last, and
-- identifier. Each candidate stands as often as in the request.
pub select_next_actions-IsSelected :
    (request : NextActionRequest) → IsSelected request (select_next_actions request)
unfolding select_next_actions
select_next_actions-IsSelected request =
    let le = by_key request.reference_at in
    elim (Bool-cases request.roadmap.is_active) [
      | inl e ↦ record {
        rule_kept = refl;
        reference_kept = refl;
        urgent = sort_by by_due (keep (is_urgent_deadline request) request.deadline_actions);
        continued = sort_by le (keep (continues request) request.roadmap_steps);
        started = sort_by le (keep (starts request) request.roadmap_steps);
        made = rw (e, eligible_roadmap_steps, collect-keep request request.roadmap_steps) refl;
        urgent_selected = sort_by-IsUrgent request;
        continued_selected =
            sort_by-IsEligible request e in_progress is_in_progress is_in_progress↔;
        started_selected = sort_by-IsEligible request e todo is_todo is_todo↔;
      }
      | inr e ↦ record {
        rule_kept = refl;
        reference_kept = refl;
        urgent = sort_by by_due (keep (is_urgent_deadline request) request.deadline_actions);
        continued = [];
        started = [];
        made = rw (e, eligible_roadmap_steps) refl;
        urgent_selected = sort_by-IsUrgent request;
        continued_selected = none-IsEligible request in_progress e;
        started_selected = none-IsEligible request todo e;
      }
    ]
