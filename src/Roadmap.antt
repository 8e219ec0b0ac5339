-- ===== src/Roadmap.antt =====
-- Steps of a roadmap and what their completion grants
-- (src/jobtology_be/infrastructure/persistence/roadmap_steps.py and completion_outcomes.py). A transaction
-- that raises returns no store. The IDs that `uuid4` draws are arguments.
pub mod Outcomes
pub mod Mutated
pub mod Grouping
pub mod Reversal
pub mod Transitions
mod Examples
use jobtology_be.Common.{
  ℕ, suc, ◌+◌, ◌≡◌, Bool, true, false, not, ◌&&◌, ◌||◌, Option, none, some, List, [], ◌∷◌, ◌++◌,
  map, keep, any, find_first, is_some, ◌==◌, if◌then◌else◌, Result, ok, raise, raise_if, ◌>>=◌,
  ◌>>◌,
}
use jobtology_be.Roadmap.Outcomes.{
  RoadmapOutcome, CanonicalCompletionOutcome, IndexError, canonical_completion_outcomes,
}

pub data RoadmapState : Type 0 where
  draft active archived : RoadmapState

pub data StepState : Type 0 where
  todo in_progress completed : StepState

pub data Lifecycle : Type 0 where
  active_lifecycle revoked : Lifecycle

pub data EventKind : Type 0 where
  step_completed step_state_updated step_completion_reversed : EventKind

pub record Profile : Type 0 where
  pub user_id : ℕ
  pub version : ℕ

pub record Roadmap : Type 0 where
  pub id : ℕ
  pub user_id : ℕ
  pub goal_id : ℕ
  pub state : RoadmapState
  pub version : ℕ

pub record RoadmapStep : Type 0 where
  pub id : ℕ
  pub roadmap_id : ℕ
  pub state : StepState
  pub outcomes : List RoadmapOutcome

pub record StateEvent : Type 0 where
  pub id : ℕ
  pub user_id : ℕ
  pub aggregate_id : ℕ
  pub version : ℕ
  pub kind : EventKind

pub record UserCapability : Type 0 where
  pub user_id : ℕ
  pub outcome : Option CanonicalCompletionOutcome
  pub lifecycle : Lifecycle
  pub granted_by_step : Option ℕ
  pub source_completion_event_id : Option ℕ

-- The tables that the transaction writes; `work` are those of the recompute outbox.
pub record Store (W : Type 0) : Type 0 where
  pub profiles : List Profile
  pub roadmaps : List Roadmap
  pub steps : List RoadmapStep
  pub events : List StateEvent
  pub capabilities : List UserCapability
  pub inheritances : List (ℕ × ℕ)
  pub work : W

pub record StepStateMutation : Type 0 where
  pub user_id : ℕ
  pub roadmap_id : ℕ
  pub step_id : ℕ
  pub expected_roadmap_version : ℕ
  pub expected_profile_version : ℕ
  pub state : StepState

pub data Conflict : Type 0 where
  profile_conflict active_roadmap_conflict step_transition_conflict completion_lineage_conflict :
      Conflict

pub data MutationError : Type 0 where
  persistence_conflict : Conflict → MutationError
  missing_step integrity_error index_error : MutationError

pub record RoadmapSnapshot : Type 0 where
  pub roadmap_id : ℕ
  pub version : ℕ
  pub state : RoadmapState

abbrev pub owns_version : ℕ → ℕ → Profile → Bool
owns_version user version p = p.user_id == user && p.version == version

-- `_bump_profile`
abbrev pub bump_profiles : ℕ → ℕ → List Profile → List Profile
bump_profiles user version ps =
    map (λ p. if owns_version user version p then record p { version = p.version + 1 } else p) ps

abbrev pub bump_profile : ℕ → ℕ → List Profile → Result MutationError (List Profile)
bump_profile user version ps = do
  raise_if (not (any (owns_version user version) ps)) (persistence_conflict profile_conflict)
  ok (bump_profiles user version ps)

abbrev pub is_active : Roadmap → Bool
is_active r = elim r.state [ draft ↦ false | active ↦ true | archived ↦ false ]

abbrev pub find_roadmap : StepStateMutation → List Roadmap → Option Roadmap
find_roadmap q rs =
    find_first
      (λ r.
        r.id == q.roadmap_id && r.user_id == q.user_id && r.version == q.expected_roadmap_version)
      rs

abbrev pub active_roadmap : Option Roadmap → Result MutationError Roadmap
active_roadmap none = raise (persistence_conflict active_roadmap_conflict)
active_roadmap (some r) =
    if is_active r then ok r else raise (persistence_conflict active_roadmap_conflict)

abbrev pub is_step : StepStateMutation → RoadmapStep → Bool
is_step q s = s.id == q.step_id && s.roadmap_id == q.roadmap_id

abbrev pub present_step : Option RoadmapStep → Result MutationError RoadmapStep
present_step none = raise missing_step
present_step (some s) = ok s

-- `valid_transition`
abbrev pub valid_transition : StepState → StepState → Bool
valid_transition todo todo = false
valid_transition todo in_progress = true
valid_transition todo completed = true
valid_transition in_progress todo = true
valid_transition in_progress in_progress = false
valid_transition in_progress completed = true
valid_transition completed todo = true
valid_transition completed in_progress = true
valid_transition completed completed = false

abbrev pub is_completed : StepState → Bool
is_completed todo = false
is_completed in_progress = false
is_completed completed = true

abbrev pub set_step : StepStateMutation → List RoadmapStep → List RoadmapStep
set_step q ss = map (λ s. if is_step q s then record s { state = q.state } else s) ss

abbrev pub bump_roadmap : ℕ → List Roadmap → List Roadmap
bump_roadmap roadmap rs =
    map (λ r. if r.id == roadmap then record r { version = r.version + 1 } else r) rs

-- The event's kind.
abbrev pub event_kind : StepState → StepState → EventKind
event_kind old new =
    if is_completed old
    then step_completion_reversed
    else if is_completed new
    then step_completed
    else step_state_updated

-- `original_completion_event_id` of the step.
abbrev pub completion_event : ℕ → List (ℕ × ℕ) → Option ℕ
completion_event step [] = none
completion_event step (x ∷ xs) =
    let rest = completion_event step xs in if x.0 == step then some x.1 else rest

abbrev pub is_granted_by : ℕ → UserCapability → Bool
is_granted_by event c = elim c.source_completion_event_id [ none ↦ false | some e ↦ e == event ]

abbrev pub revoke : ℕ → List UserCapability → List UserCapability
revoke event cs =
    map (λ c. if is_granted_by event c then record c { lifecycle = revoked } else c) cs

-- The capabilities of a completion that is taken back are revoked.
abbrev pub revoke_completion :
    Option ℕ → List UserCapability → Result MutationError (List UserCapability)
revoke_completion none cs = raise (persistence_conflict completion_lineage_conflict)
revoke_completion (some e) cs = ok (revoke e cs)

abbrev pub reverse :
    ℕ → StepState → List (ℕ × ℕ) → List UserCapability → Result MutationError (List UserCapability)
reverse step old inheritances cs =
    if is_completed old then revoke_completion (completion_event step inheritances) cs else ok cs

-- `_append_event`: the ID is the primary key, and an aggregate has one event for a version.
abbrev pub append_event : StateEvent → List StateEvent → Result MutationError (List StateEvent)
append_event e es = do
  raise_if
      (any (λ x. x.id == e.id || (x.aggregate_id == e.aggregate_id && x.version == e.version)) es)
      integrity_error
  ok (e ∷ es)

-- The insertion into `step_completion_inheritances`, which replaces the event of the step.
abbrev pub inherit : ℕ → ℕ → List (ℕ × ℕ) → List (ℕ × ℕ)
inherit step event [] = (step, event) ∷ []
inherit step event (x ∷ xs) =
    let rest = inherit step event xs in if x.0 == step then (step, event) ∷ xs else x ∷ rest

-- A capability of the event for the same entity is there.
abbrev pub grants_entity : ℕ → ℕ → UserCapability → Bool
grants_entity event entity c =
    is_granted_by event c && elim c.outcome [ none ↦ false | some o ↦ o.entity_id == entity ]

-- The insertion of a capability, which does nothing on a conflict.
abbrev pub grant :
    ℕ → ℕ → ℕ → CanonicalCompletionOutcome → List UserCapability → List UserCapability
grant user step event o cs =
    if any (grants_entity event o.entity_id) cs
    then cs
    else record {
      user_id = user;
      outcome = some o;
      lifecycle = active_lifecycle;
      granted_by_step = some step;
      source_completion_event_id = some event;
    }
      ∷ cs

abbrev pub grant_all :
    ℕ → ℕ → ℕ → List CanonicalCompletionOutcome → List UserCapability → List UserCapability
grant_all user step event [] cs = cs
grant_all user step event (o ∷ os) cs = grant_all user step event os (grant user step event o cs)

abbrev pub canonical :
    Result IndexError (List CanonicalCompletionOutcome)
    → Result MutationError (List CanonicalCompletionOutcome)
canonical (ok os) = ok os
canonical (raise e) = raise index_error

-- What a step that becomes completed leaves: the lineage, and the capabilities.
abbrev pub complete :
    StepStateMutation
    → ℕ
    → List RoadmapOutcome
    → List (ℕ × ℕ)
    → List UserCapability
    → Result MutationError (List (ℕ × ℕ) × List UserCapability)
complete q event outcomes inheritances cs =
    if is_completed q.state
    then (canonical (canonical_completion_outcomes outcomes) >>= (λ os.
        ok (inherit q.step_id event inheritances, grant_all q.user_id q.step_id event os cs)))
    else ok (inheritances, cs)

-- `mutate_step_state`, with `event` for the ID that is drawn and `enqueue_for_goal` for the insertion
-- of the recompute work, which only reads and writes its own tables.
unfoldable pub mutate_step_state :
    {W : Type 0}
    → (ℕ → ℕ → ℕ → ℕ → W → Result MutationError W)
    → ℕ
    → StepStateMutation
    → Store W
    → Result MutationError (Store W × RoadmapSnapshot)
mutate_step_state enqueue_for_goal event q s = do
  profiles ← bump_profile q.user_id q.expected_profile_version s.profiles
  roadmap ← active_roadmap (find_roadmap q s.roadmaps)
  step ← present_step (find_first (is_step q) s.steps)
  raise_if (not (valid_transition step.state q.state))
      (persistence_conflict step_transition_conflict)
  left ← reverse q.step_id step.state s.inheritances s.capabilities
  events ←
      append_event
        (record {
          id = event;
          user_id = q.user_id;
          aggregate_id = q.step_id;
          version = q.expected_profile_version + 1;
          kind = event_kind step.state q.state;
        })
        s.events
  granted ← complete q event step.outcomes s.inheritances left
  work ← enqueue_for_goal q.user_id (q.expected_profile_version + 1) event roadmap.goal_id s.work
  ok (
    record {
      profiles = profiles;
      roadmaps = bump_roadmap q.roadmap_id s.roadmaps;
      steps = set_step q s.steps;
      events = events;
      capabilities = granted.1;
      inheritances = granted.0;
      work = work;
    },
    record { roadmap_id = q.roadmap_id; version = q.expected_roadmap_version + 1; state = active },
  )
