-- ===== src/Roadmap/Reversal.antt =====
-- A completion that is taken back leaves the capabilities in force as they were (`mutate_step_state` of
-- src/jobtology_be/infrastructure/persistence/roadmap_steps.py).
use jobtology_be.Common.{
  ℕ, ◌≡◌, refl, sym, ap, ◌∙◌, subst, inl, inr, Bool, true, false, some, List, [], ◌∷◌, keep, any,
  find_first, ◌==◌, ==_refl, All, Bool-cases, Result, ok, bind-ok, ok-inj, ◌>>=◌,
}
use mathlib.Core.Option.{some-injective}
use jobtology_be.Roadmap.Outcomes.{CanonicalCompletionOutcome, canonical_completion_outcomes}
use jobtology_be.Roadmap.{
  StepState, todo, in_progress, completed, active_lifecycle, revoked, RoadmapStep, UserCapability,
  Store, StepStateMutation, MutationError, RoadmapSnapshot, is_step, valid_transition, is_completed,
  set_step, completion_event, is_granted_by, revoke, revoke_completion, inherit, grants_entity,
  grant, grant_all, canonical, mutate_step_state,
}
use jobtology_be.Roadmap.Mutated.{Mutated, mutate_step_state-Mutated}

abbrev pub is_in_force : UserCapability → Bool
is_in_force c = elim c.lifecycle [ active_lifecycle ↦ true | revoked ↦ false ]

abbrev pub in_force : List UserCapability → List UserCapability
in_force = keep is_in_force

grant-revoke :
    (user step event : ℕ) (o : CanonicalCompletionOutcome) (cs : List UserCapability)
    → in_force (revoke event (grant user step event o cs)) ≡ in_force (revoke event cs)
grant-revoke user step event o cs = elim (Bool-cases (any (grants_entity event o.entity_id) cs)) [
  | inl e ↦ rw e refl
  | inr e ↦ rw (e, ==_refl event) refl
]

grant_all-revoke :
    (user step event : ℕ) (os : List CanonicalCompletionOutcome) (cs : List UserCapability)
    → in_force (revoke event (grant_all user step event os cs)) ≡ in_force (revoke event cs)
grant_all-revoke user step event [] cs = refl
grant_all-revoke user step event (o ∷ os) cs =
    grant_all-revoke user step event os (grant user step event o cs)
    ∙ grant-revoke user step event o cs

revoke-fresh :
    (event : ℕ) (cs : List UserCapability)
    → All (λ c. is_granted_by event c ≡ false) cs
    → revoke event cs ≡ cs
revoke-fresh event [] h = refl
revoke-fresh event (c ∷ cs) h = rw h.0 (ap (λ ds. c ∷ ds) (revoke-fresh event cs h.1))

completion_event-inherit :
    (step event : ℕ) (xs : List (ℕ × ℕ))
    → completion_event step (inherit step event xs) ≡ some event
completion_event-inherit step event [] = rw (==_refl step) refl
completion_event-inherit step event (x ∷ xs) = elim (Bool-cases (x.0 == step)) [
  | inl e ↦ rw (e, ==_refl step) refl
  | inr e ↦ rw (e, e) (completion_event-inherit step event xs)
]

find-set_step :
    (q : StepStateMutation) (ss : List RoadmapStep) (x : RoadmapStep)
    → find_first (is_step q) (set_step q ss) ≡ some x
    → x.state ≡ q.state
find-set_step q [] x e = absurd (cc e)
find-set_step q (s ∷ ss) x e = elim (Bool-cases (is_step q s)) [
  | inl t ↦
      sym (ap (λ y. y.state) (some-injective (record s { state = q.state }) x (rw (t, t) at e)))
  | inr t ↦ find-set_step q ss x (rw (t, t) at e)
]

to_completed : (old : StepState) → valid_transition old completed ≡ true → is_completed old ≡ false
to_completed todo e = refl
to_completed in_progress e = refl
to_completed completed e = absurd (cc e)

from_completed :
    (new : StepState) → valid_transition completed new ≡ true → is_completed new ≡ false
from_completed todo e = refl
from_completed in_progress e = refl
from_completed completed e = absurd (cc e)

-- The completing mutation: the lineage names its event, and a revocation of it leaves what was there.
module _ {W : Type 0} (enqueue : ℕ → ℕ → ℕ → ℕ → W → Result MutationError W) (event : ℕ)
    (q : StepStateMutation) (s t : Store W) (m : Mutated enqueue event q s t)
    (done : q.state ≡ completed) where
  left_as_it_was : m.left ≡ s.capabilities
  left_as_it_was =
      let open_before =
        to_completed (m.step.state)
          (subst (λ z. valid_transition m.step.state z ≡ true) done m.allowed) in
      sym (ok-inj s.capabilities m.left (rw open_before at m.reversed))

  granting :
      (os : List CanonicalCompletionOutcome) × (m.granted
        ≡ (inherit q.step_id event s.inheritances, grant_all q.user_id q.step_id event os m.left))
  granting =
      let now : is_completed q.state ≡ true = ap is_completed done in
      let bound : (canonical (canonical_completion_outcomes m.step.outcomes) >>= (λ os.
        ok (inherit q.step_id event s.inheritances, grant_all q.user_id q.step_id event os m.left)))
          ≡ ok m.granted =
        rw now at m.completes in
      let (os, eos, rest) =
        bind-ok (canonical (canonical_completion_outcomes m.step.outcomes)) _ m.granted bound in
      (os, sym (ok-inj _ m.granted rest))

  lineage : completion_event q.step_id t.inheritances ≡ some event
  lineage =
      subst (λ z. completion_event q.step_id z ≡ some event)
        (sym (
          m.inheritances_after ∙ ap (λ (g : List (ℕ × ℕ) × List UserCapability). g.0) (granting.1)))
        (completion_event-inherit q.step_id event s.inheritances)

  revoked_again :
      All (λ c. is_granted_by event c ≡ false) s.capabilities
      → in_force (revoke event t.capabilities) ≡ in_force s.capabilities
  revoked_again fresh =
      let granted =
        m.capabilities_after ∙ ap (λ (g : List (ℕ × ℕ) × List UserCapability). g.1) (granting.1) in
      ap (λ cs. in_force (revoke event cs)) granted
      ∙ grant_all-revoke q.user_id q.step_id event (granting.0) m.left
      ∙ ap (λ cs. in_force (revoke event cs)) left_as_it_was
      ∙ ap in_force (revoke-fresh event s.capabilities fresh)

abbrev pub reopening : StepStateMutation → StepState → ℕ → ℕ → StepStateMutation
reopening q new roadmap_version profile_version = record q {
  state = new;
  expected_roadmap_version = roadmap_version;
  expected_profile_version = profile_version;
}

-- A step is completed under an event that has granted nothing before, and then set to another state:
-- if neither call raises, the capabilities in force are those from before.
pub mutate_step_state-reversal :
    {W : Type 0} (enqueue : ℕ → ℕ → ℕ → ℕ → W → Result MutationError W) (event event' : ℕ)
    (q : StepStateMutation) (new : StepState) (roadmap_version profile_version : ℕ)
    (s t u : Store W) (r r' : RoadmapSnapshot)
    → q.state ≡ completed
    → All (λ c. is_granted_by event c ≡ false) s.capabilities
    → mutate_step_state enqueue event q s ≡ ok (t, r)
    → mutate_step_state enqueue event' (reopening q new roadmap_version profile_version) t
      ≡ ok (u, r')
    → in_force u.capabilities ≡ in_force s.capabilities
mutate_step_state-reversal enqueue event event' q new rv pv s t u r r' done fresh first second =
    let m = mutate_step_state-Mutated enqueue event q s t r first in
    let q' = reopening q new rv pv in
    let n = mutate_step_state-Mutated enqueue event' q' t u r' second in
    let was : n.step.state ≡ completed =
      find-set_step q s.steps n.step
        (subst (λ ss. find_first (is_step q) ss ≡ some n.step) m.steps_after n.found_step)
      ∙ done in
    let now : is_completed n.step.state ≡ true = ap is_completed was in
    let not_now = from_completed new (subst (λ z. valid_transition z new ≡ true) was n.allowed) in
    let lost : revoke_completion (completion_event q.step_id t.inheritances) t.capabilities
        ≡ ok n.left =
      rw now at n.reversed in
    let lost' : revoke_completion (some event) t.capabilities ≡ ok n.left =
      subst (λ o. revoke_completion o t.capabilities ≡ ok n.left)
        (lineage enqueue event q s t m done) lost in
    let left : revoke event t.capabilities ≡ n.left =
      ok-inj (revoke event t.capabilities) n.left lost' in
    let kept : n.granted ≡ (t.inheritances, n.left) =
      sym (ok-inj (t.inheritances, n.left) n.granted (rw not_now at n.completes)) in
    ap in_force
      (n.capabilities_after ∙ ap (λ (g : List (ℕ × ℕ) × List UserCapability). g.1) kept ∙ sym left)
    ∙ revoked_again enqueue event q s t m done fresh
