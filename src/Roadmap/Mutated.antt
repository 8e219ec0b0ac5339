-- ===== src/Roadmap/Mutated.antt =====
-- What a step mutation that does not raise has found and written (`mutate_step_state` of
-- src/jobtology_be/infrastructure/persistence/roadmap_steps.py).
use jobtology_be.Common.{
  ℕ, ◌+◌, ◌≡◌, refl, sym, ap, ◌∙◌, subst, inl, inr, Bool, true, false, not, ◌||◌, ◌&&◌, Option,
  none, some, List, ◌∷◌, any, find_first, ◌==◌, Bool-cases, Result, ok, raise_if, raise_if-ok,
  bind-ok, seq-ok, ok-inj,
}
use jobtology_be.Roadmap.{
  Roadmap, RoadmapStep, StateEvent, UserCapability, Store, StepStateMutation, MutationError,
  persistence_conflict, profile_conflict, step_transition_conflict, integrity_error,
  RoadmapSnapshot, owns_version, bump_profiles, bump_profile, is_active, find_roadmap,
  active_roadmap, is_step, present_step, valid_transition, set_step, bump_roadmap, event_kind,
  reverse, append_event, complete, mutate_step_state,
}

-- The event of a mutation.
abbrev pub event_of : ℕ → StepStateMutation → RoadmapStep → StateEvent
event_of event q step = record {
  id = event;
  user_id = q.user_id;
  aggregate_id = q.step_id;
  version = q.expected_profile_version + 1;
  kind = event_kind step.state q.state;
}

abbrev pub is_taken : StateEvent → StateEvent → Bool
is_taken e x = x.id == e.id || (x.aggregate_id == e.aggregate_id && x.version == e.version)

pub record Mutated {W : Type 0} (enqueue : ℕ → ℕ → ℕ → ℕ → W → Result MutationError W) (event : ℕ)
    (q : StepStateMutation) (s : Store W) (t : Store W) : Type 0 where
  pub owned : any (owns_version q.user_id q.expected_profile_version) s.profiles ≡ true
  pub roadmap : Roadmap
  pub found_roadmap : find_roadmap q s.roadmaps ≡ some roadmap
  pub roadmap_active : is_active roadmap ≡ true
  pub step : RoadmapStep
  pub found_step : find_first (is_step q) s.steps ≡ some step
  pub allowed : valid_transition step.state q.state ≡ true
  pub left : List UserCapability
  pub reversed : reverse q.step_id step.state s.inheritances s.capabilities ≡ ok left
  pub new_event : any (is_taken (event_of event q step)) s.events ≡ false
  pub granted : List (ℕ × ℕ) × List UserCapability
  pub completes : complete q event step.outcomes s.inheritances left ≡ ok granted
  pub enqueued :
      enqueue q.user_id (q.expected_profile_version + 1) event roadmap.goal_id s.work ≡ ok t.work
  pub profiles_after : t.profiles ≡ bump_profiles q.user_id q.expected_profile_version s.profiles
  pub roadmaps_after : t.roadmaps ≡ bump_roadmap q.roadmap_id s.roadmaps
  pub steps_after : t.steps ≡ set_step q s.steps
  pub events_after : t.events ≡ event_of event q step ∷ s.events
  pub capabilities_after : t.capabilities ≡ granted.1
  pub inheritances_after : t.inheritances ≡ granted.0

active_roadmap-ok :
    (o : Option Roadmap) (r : Roadmap)
    → active_roadmap o ≡ ok r
    → (o ≡ some r) × (is_active r ≡ true)
active_roadmap-ok none r e = absurd (cc e)
active_roadmap-ok (some x) r e = elim (Bool-cases (is_active x)) [
  | inl a ↦
      let same = ok-inj x r (rw a at e) in (ap some same, subst (λ y. is_active y ≡ true) same a)
  | inr a ↦ absurd (cc (rw a at e))
]

present_step-ok : (o : Option RoadmapStep) (x : RoadmapStep) → present_step o ≡ ok x → o ≡ some x
present_step-ok none x e = absurd (cc e)
present_step-ok (some y) x e = ap some (ok-inj y x e)

not-false : (b : Bool) → not b ≡ false → b ≡ true
not-false true e = refl
not-false false e = absurd (cc e)

pub mutate_step_state-Mutated :
    {W : Type 0} (enqueue : ℕ → ℕ → ℕ → ℕ → W → Result MutationError W) (event : ℕ)
    (q : StepStateMutation) (s t : Store W) (r : RoadmapSnapshot)
    → mutate_step_state enqueue event q s ≡ ok (t, r)
    → Mutated enqueue event q s t
unfolding mutate_step_state
mutate_step_state-Mutated enqueue event q s t r e =
    let (ps, eps, e1) =
      bind-ok (bump_profile q.user_id q.expected_profile_version s.profiles) _ (t, r) e in
    let (owned, eps') =
      seq-ok
        (raise_if (not (any (owns_version q.user_id q.expected_profile_version) s.profiles))
          (persistence_conflict profile_conflict))
        _ ps eps in
    let (rm, erm, e2) = bind-ok (active_roadmap (find_roadmap q s.roadmaps)) _ (t, r) e1 in
    let found_rm = active_roadmap-ok (find_roadmap q s.roadmaps) rm erm in
    let (st, est, e3) = bind-ok (present_step (find_first (is_step q) s.steps)) _ (t, r) e2 in
    let (tr, e4) =
      seq-ok
        (raise_if (not (valid_transition st.state q.state))
          (persistence_conflict step_transition_conflict))
        _ (t, r) e3 in
    let (left, eleft, e5) =
      bind-ok (reverse q.step_id st.state s.inheritances s.capabilities) _ (t, r) e4 in
    let (evs, eevs, e6) = bind-ok (append_event (event_of event q st) s.events) _ (t, r) e5 in
    let (fresh, eevs') =
      seq-ok (raise_if (any (is_taken (event_of event q st)) s.events) integrity_error) _ evs
        eevs in
    let (gr, egr, e7) = bind-ok (complete q event st.outcomes s.inheritances left) _ (t, r) e6 in
    let (wk, ewk, e8) =
      bind-ok (enqueue q.user_id (q.expected_profile_version + 1) event rm.goal_id s.work) _ (t, r)
        e7 in
    let same = ap (λ (x : Store _ × RoadmapSnapshot). x.0) (ok-inj _ (t, r) e8) in
    record {
      owned =
          not-false (any (owns_version q.user_id q.expected_profile_version) s.profiles)
            (raise_if-ok _ (persistence_conflict profile_conflict) owned);
      roadmap = rm;
      found_roadmap = found_rm.0;
      roadmap_active = found_rm.1;
      step = st;
      found_step = present_step-ok (find_first (is_step q) s.steps) st est;
      allowed =
          not-false (valid_transition st.state q.state)
            (raise_if-ok _ (persistence_conflict step_transition_conflict) tr);
      left = left;
      reversed = eleft;
      new_event = raise_if-ok _ integrity_error fresh;
      granted = gr;
      completes = egr;
      enqueued = ewk ∙ ap (λ (x : Store _). ok x.work) same;
      profiles_after = sym (ap (λ (x : Store _). x.profiles) same) ∙ sym (ok-inj _ ps eps');
      roadmaps_after = sym (ap (λ (x : Store _). x.roadmaps) same);
      steps_after = sym (ap (λ (x : Store _). x.steps) same);
      events_after = sym (ap (λ (x : Store _). x.events) same) ∙ sym (ok-inj _ evs eevs');
      capabilities_after = sym (ap (λ (x : Store _). x.capabilities) same);
      inheritances_after = sym (ap (λ (x : Store _). x.inheritances) same);
    }
