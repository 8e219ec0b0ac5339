-- ===== src/NextActions/Described.antt =====
-- Which deadlines and steps the dashboard recommends, and in which order, described without its code
-- (src/jobtology_be/modules/dashboard/next_actions.py), and that its tests decide it.
use jobtology_be.Common.{
  ℕ, ◌+◌, ◌≤◌, ◌<◌, ◌≡◌, refl, ◌↔◌, ◌⊎◌, inl, inr, Bool, true, false, ◌&&◌, ◌||◌, Option, none,
  some, List, [], ◌∷◌, ◌==◌, All, In, elem→In, In→elem, subset, ltb, leb, get_or, Bool-cases, arith,
}
use jobtology_be.NextActions.{
  DeadlineActionCandidate, StepState, todo, in_progress, completed, RoadmapStepCandidate,
  NextActionRequest, is_urgent_deadline, is_current, is_eligible_step, by_due, undated, by_key,
}

-- A deadline that is urgent: its source is valid, its prerequisites are completed, and it is due after
-- the reference and within the window.
pub record IsUrgent (request : NextActionRequest) (a : DeadlineActionCandidate) : Type 0 where
  pub valid : a.source_is_valid ≡ true
  pub prerequisites : All (λ i. In i request.completed_step_ids) a.prerequisite_step_ids
  pub due_later : request.reference_at < a.due_at
  pub due_soon : a.due_at ≤ request.reference_at + request.urgency_window

-- An expiry is none, or later than the reference.
abbrev pub NotExpired : ℕ → Option ℕ → Type 0
NotExpired reference_at none = Unit
NotExpired reference_at (some t) = reference_at < t

-- A step that is eligible, in a state: the roadmap is active, the step belongs to this version of it,
-- its source is valid, it has not expired, and its prerequisites are completed.
pub record IsEligible (request : NextActionRequest) (state : StepState) (s : RoadmapStepCandidate)
    : Type 0 where
  pub active : request.roadmap.is_active ≡ true
  pub same_roadmap : s.roadmap_id ≡ request.roadmap.roadmap_id
  pub same_version : s.roadmap_version ≡ request.roadmap.roadmap_version
  pub valid : s.source_is_valid ≡ true
  pub not_expired : NotExpired request.reference_at s.expires_at
  pub prerequisites : All (λ i. In i request.completed_step_ids) s.prerequisite_step_ids
  pub in_state : s.state ≡ state

-- Deadlines by their dates, then by their identifiers.
abbrev pub DueBefore : DeadlineActionCandidate → DeadlineActionCandidate → Type 0
DueBefore a b = (a.due_at < b.due_at) ⊎ ((a.due_at ≡ b.due_at) × (a.action_id ≤ b.action_id))

-- Dates in order, those without a date last; where they do not differ, the rest decides.
abbrev pub DateThen : Option ℕ → Option ℕ → Type 0 → Type 0
DateThen (some s) (some t) Rest = (s < t) ⊎ ((s ≡ t) × Rest)
DateThen (some s) none Rest = Unit
DateThen none (some t) Rest = ⊥
DateThen none none Rest = Rest

-- Steps by their positions, then by their dates, then by their identifiers.
abbrev pub StepBefore : RoadmapStepCandidate → RoadmapStepCandidate → Type 0
StepBefore a b =
    (a.roadmap_position < b.roadmap_position)
    ⊎ ((a.roadmap_position ≡ b.roadmap_position)
        × DateThen a.due_at b.due_at (a.step_id ≤ b.step_id))

-- The tests of a step's state.
abbrev pub is_in_progress : StepState → Bool
is_in_progress in_progress = true
is_in_progress _ = false

abbrev pub is_todo : StepState → Bool
is_todo todo = true
is_todo _ = false

subset↔All : (xs ys : List ℕ) → (subset xs ys ≡ true) ↔ All (λ x. In x ys) xs
subset↔All [] ys = ((λ e. tt), λ h. refl)
subset↔All (x ∷ xs) ys =
    let rest = subset↔All xs ys in
    (
      (λ e. (elem→In x ys (ground (arith, e)), rest.0 (ground (arith, e)))),
      λ h. let first = In→elem x ys h.0 in let others = rest.1 h.1 in ground (arith, first, others),
    )

is_current↔NotExpired :
    (request : NextActionRequest) (t : Option ℕ)
    → (is_current request t ≡ true) ↔ NotExpired request.reference_at t
is_current↔NotExpired request none = ((λ e. tt), λ h. refl)
is_current↔NotExpired request (some t) = ((λ e. ground (arith, e)), λ h. ground (arith, h))

pub is_urgent_deadline_lem :
    (request : NextActionRequest) (a : DeadlineActionCandidate)
    → (is_urgent_deadline request a ≡ true) ↔ IsUrgent request a
is_urgent_deadline_lem request a =
    let held = subset↔All a.prerequisite_step_ids request.completed_step_ids in
    (
      (λ e. record {
        valid = ground (arith, e);
        prerequisites = held.0 (ground (arith, e));
        due_later = ground (arith, e);
        due_soon = ground (arith, e);
      }),
      λ h.
          let all_held = held.1 h.prerequisites in
          ground (arith, h.valid, all_held, h.due_later, h.due_soon),
    )

-- A step is eligible and passes a test of its state.
abbrev pub is_eligible_in : NextActionRequest → Bool → RoadmapStepCandidate → Bool
is_eligible_in request of_state s = is_eligible_step request s && of_state

pub is_eligible_in_lem :
    (request : NextActionRequest) (state : StepState) (of_state : Bool) (s : RoadmapStepCandidate)
    → request.roadmap.is_active ≡ true
    → (of_state ≡ true) ↔ (s.state ≡ state)
    → (is_eligible_in request of_state s ≡ true) ↔ IsEligible request state s
is_eligible_in_lem request state of_state s active same =
    let held = subset↔All s.prerequisite_step_ids request.completed_step_ids in
    let current = is_current↔NotExpired request s.expires_at in
    (
      (λ e. record {
        active = active;
        same_roadmap = ground (arith, e);
        same_version = ground (arith, e);
        valid = ground (arith, e);
        not_expired = current.0 (ground (arith, e));
        prerequisites = held.0 (ground (arith, e));
        in_state = same.0 (ground (arith, e));
      }),
      λ h.
          let all_held = held.1 h.prerequisites in
          let not_over = current.1 h.not_expired in
          let there = same.1 h.in_state in
          ground (arith, h.same_roadmap, h.same_version, h.valid, all_held, not_over, there),
    )

pub is_in_progress↔ : (st : StepState) → (is_in_progress st ≡ true) ↔ (st ≡ in_progress)
is_in_progress↔ todo = ((λ e. cc e), λ e. cc e)
is_in_progress↔ in_progress = ((λ e. refl), λ e. refl)
is_in_progress↔ completed = ((λ e. cc e), λ e. cc e)

pub is_todo↔ : (st : StepState) → (is_todo st ≡ true) ↔ (st ≡ todo)
is_todo↔ todo = ((λ e. refl), λ e. refl)
is_todo↔ in_progress = ((λ e. cc e), λ e. cc e)
is_todo↔ completed = ((λ e. cc e), λ e. cc e)

pub by_due-DueBefore : (a b : DeadlineActionCandidate) → by_due a b ≡ true → DueBefore a b
unfolding by_due
by_due-DueBefore a b h = elim (Bool-cases (ltb a.due_at b.due_at)) [
  | inl e ↦ inl (ground (arith, e))
  | inr e ↦ inr (ground (arith, e, h), ground (arith, e, h))
]

-- The part of the key after the position.
abbrev date_then : ℕ → Option ℕ → Option ℕ → Bool → Bool
date_then reference_at u v rest =
    ltb (undated u) (undated v)
    || ((undated u == undated v)
        && (ltb (get_or u reference_at) (get_or v reference_at)
            || ((get_or u reference_at == get_or v reference_at) && rest)))

date_then-DateThen :
    (reference_at : ℕ) (u v : Option ℕ) (rest : Bool) (Rest : Type 0)
    → (rest ≡ true → Rest)
    → date_then reference_at u v rest ≡ true
    → DateThen u v Rest
date_then-DateThen reference_at (some s) (some t) rest Rest means h = elim (Bool-cases (ltb s t)) [
  | inl e ↦ inl (ground (arith, e))
  | inr e ↦ inr (ground (arith, e, h), means (ground (arith, e, h)))
]
date_then-DateThen reference_at (some s) none rest Rest means h = tt
date_then-DateThen reference_at none (some t) rest Rest means h = cc h
date_then-DateThen reference_at none none rest Rest means h = means (ground (arith, h))

pub by_key-StepBefore :
    (reference_at : ℕ) (a b : RoadmapStepCandidate)
    → by_key reference_at a b ≡ true
    → StepBefore a b
unfolding by_key
by_key-StepBefore reference_at a b h =
    elim (Bool-cases (ltb a.roadmap_position b.roadmap_position)) [
      | inl e ↦ inl (ground (arith, e))
      | inr e ↦ inr (
        ground (arith, e, h),
        date_then-DateThen reference_at a.due_at b.due_at (leb a.step_id b.step_id)
            (a.step_id ≤ b.step_id) (λ l. ground (arith, l)) (ground (arith, e, h)),
      )
    ]
