-- ===== src/Roadmap/Transitions.antt =====
-- Step mutations and the versions that they expect (`mutate_step_state` and `_bump_profile` of
-- src/jobtology_be/infrastructure/persistence/roadmap_steps.py).
use jobtology_be.Common.{
  ℕ, ◌+◌, ◌≡◌, refl, sym, subst, inl, inr, true, false, List, [], ◌∷◌, map, any, ◌==◌, ==_iff, In,
  IsNodup, arith, Bool-cases, Result, ok, raise,
}
use jobtology_be.Roadmap.{
  Profile, Store, StepStateMutation, MutationError, persistence_conflict, profile_conflict,
  RoadmapSnapshot, owns_version, bump_profiles, mutate_step_state,
}
use jobtology_be.Roadmap.Mutated.{mutate_step_state-Mutated}

abbrev pub users_of : List Profile → List ℕ
users_of ps = map (λ p. p.user_id) ps

module _ (user version : ℕ) where
  none_owned :
      (ps : List Profile)
      → ¬ In user (users_of ps)
      → any (owns_version user version) (bump_profiles user version ps) ≡ false
  none_owned [] h = refl
  none_owned (p ∷ ps) h = elim (Bool-cases (p.user_id == user)) [
    | inl e ↦ absurd (h (inl (sym ((==_iff p.user_id user).0 e))))
    | inr e ↦
        let other : owns_version user version p ≡ false = rw e refl in
        rw (other, other) (none_owned ps (λ i. h (inr i)))
  ]

  -- With one profile for each user, the version is gone once it is bumped.
  bumped_once :
      (ps : List Profile)
      → IsNodup (users_of ps)
      → any (owns_version user version) ps ≡ true
      → any (owns_version user version) (bump_profiles user version ps) ≡ false
  bumped_once [] n h = absurd (cc h)
  bumped_once (p ∷ ps) n h = elim (Bool-cases (owns_version user version p)) [
    | inl e ↦
        let same : p.user_id ≡ user = ground (arith, e) in
        let held : p.version ≡ version = ground (arith, e) in
        let gone : owns_version user version (record p { version = p.version + 1 }) ≡ false =
          ground (arith, held) in
        rw (e, gone) (none_owned ps (λ i. n.0 (subst (λ k. In k (users_of ps)) (sym same) i)))
    | inr e ↦ rw (e, e) (bumped_once ps n.1 (rw e at h))
  ]

-- Where each user has one profile: after a mutation that did not raise, every mutation of the same
-- user that expects the same profile version is refused as a conflict, whatever it changes.
pub mutate_step_state_stale :
    {W : Type 0} (enqueue : ℕ → ℕ → ℕ → ℕ → W → Result MutationError W) (event event' : ℕ)
    (q q' : StepStateMutation) (s t : Store W) (r : RoadmapSnapshot)
    → IsNodup (users_of s.profiles)
    → mutate_step_state enqueue event q s ≡ ok (t, r)
    → q'.user_id ≡ q.user_id
    → q'.expected_profile_version ≡ q.expected_profile_version
    → mutate_step_state enqueue event' q' t ≡ raise (persistence_conflict profile_conflict)
unfolding mutate_step_state
mutate_step_state_stale enqueue event event' q q' s t r n first u v =
    let m = mutate_step_state-Mutated enqueue event q s t r first in
    let gone = bumped_once q.user_id q.expected_profile_version s.profiles n m.owned in
    let here : any (owns_version q'.user_id q'.expected_profile_version) t.profiles ≡ false =
      rw (u, v, m.profiles_after) gone in
    rw here refl
