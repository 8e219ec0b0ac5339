-- ===== src/Recompute/Worker/Rows.antt =====
-- What the tests of a worker's transactions (src/jobtology_be/infrastructure/persistence/worker.py)
-- say of the rows.
use jobtology_be.Common.{
  ℕ, ◌<◌, ◌≡◌, refl, ap, ◌≢◌, inl, inr, true, false, ◌&&◌, ◌||◌, not, Option, none, some, ◌==◌,
  Bool-cases, Option-cases, ok, ltb→lt, seq-ok, raise_if, raise_if-ok, is_some, arith,
}
use jobtology_be.Recompute.{
  JobKind, recompute, other_kind, is_recompute, JobState, ready, leased, completed, failed_job,
  is_leased, OutboxJob, RequestState, pending, running, ready_request, failed_request, is_running,
  RecomputeRequest, RecomputeContext, Store, write, RecomputeWorkItem, same, later, conflict,
  analysis_work_item, proposal_work_item,
}
use jobtology_be.Recompute.Worker.{
  lease_row, holds_lease, matches_request, context_of, RouteProposalPersist, RecomputeArtifacts,
  check_artifacts, proposal_differs,
}
use jobtology_be.Recompute.Worker.Fencing.{lease_row-at}

-- A job is the item's own recompute job, leased with the item's token until after `t`.
pub record OwnsLease (item : RecomputeWorkItem) (t : ℕ) (j : OutboxJob) : Type 0 where
  pub of_recompute : j.kind ≡ recompute
  pub of_request : j.recompute_request_id ≡ some item.request_id
  pub in_state : j.state ≡ leased
  pub own_token : j.lease_token ≡ some item.lease.lease_token
  pub alive : (u : ℕ) × (j.lease_until ≡ some u) × (t < u)

is_recompute-true : (k : JobKind) → is_recompute k ≡ true → k ≡ recompute
is_recompute-true recompute e = refl
is_recompute-true (other_kind k) e = cc e

is_leased-true : (st : JobState) → is_leased st ≡ true → st ≡ leased
is_leased-true ready e = cc e
is_leased-true leased e = refl
is_leased-true completed e = cc e
is_leased-true failed_job e = cc e

is_running-true : (st : RequestState) → is_running st ≡ true → st ≡ running
is_running-true pending e = cc e
is_running-true running e = refl
is_running-true ready_request e = cc e
is_running-true failed_request e = cc e

pub same-true : (o : Option ℕ) (n : ℕ) → same o n ≡ true → o ≡ some n
same-true none n e = cc e
same-true (some m) n e = ap some (ground (arith, e))

later-true : (o : Option ℕ) (t : ℕ) → later o t ≡ true → (u : ℕ) × (o ≡ some u) × (t < u)
later-true none t e = cc e
later-true (some u) t e = (u, refl, ltb→lt t u e)

pub write-at : {A : Type 0} (k : ℕ) (a : A) (table : ℕ → Option A) → write k a table k ≡ some a
write-at k a table = ground arith

pub write-other :
    {A : Type 0} (k : ℕ) (a : A) (table : ℕ → Option A) (i : ℕ)
    → i ≢ k
    → write k a table i ≡ table i
write-other k a table i ne = ground (arith, ne)

lease_row-own :
    (item : RecomputeWorkItem) (s : Store) (j : OutboxJob)
    → lease_row item s ≡ some j
    → (is_recompute j.kind && same j.recompute_request_id item.request_id) ≡ true
unfolding lease_row
lease_row-own item s j e =
    let at = lease_row-at item s j e in
    elim (Bool-cases (is_recompute j.kind && same j.recompute_request_id item.request_id)) [
      | inl h ↦ h
      | inr h ↦ absurd (cc (rw (at, lease_row, h) at e))
    ]

pub holds_lease-OwnsLease :
    (item : RecomputeWorkItem) (s : Store) (t : ℕ) (j : OutboxJob)
    → lease_row item s ≡ some j
    → holds_lease item t j ≡ true
    → OwnsLease item t j
unfolding holds_lease
holds_lease-OwnsLease item s t j at h =
    let own = lease_row-own item s j at in
    record {
      of_recompute = is_recompute-true j.kind (ground (arith, own));
      of_request = same-true j.recompute_request_id item.request_id (ground (arith, own));
      in_state = is_leased-true j.state (ground (arith, h));
      own_token = same-true j.lease_token item.lease.lease_token (ground (arith, h));
      alive = later-true j.lease_until t (ground (arith, h));
    }

pub matches_request-own :
    (item : RecomputeWorkItem) (q : RecomputeRequest)
    → matches_request item q ≡ true
    → (q.state ≡ running) × (q.user_id ≡ item.user_id) × (q.profile_version ≡ item.profile_version)
unfolding matches_request
matches_request-own item q h =
    (is_running-true q.state (ground (arith, h)), ground (arith, h), ground (arith, h))

pub context_of-some :
    (item : RecomputeWorkItem) (s : Store)
    → is_some (context_of item s) ≡ true
    → (c : RecomputeContext) × (s.contexts item.request_id ≡ some c)
unfolding context_of
context_of-some item s e = elim (Option-cases (s.contexts item.request_id)) [
  | inl n ↦ absurd (cc (rw (n, context_of) at e))
  | inr h ↦ h
]

pub check_artifacts-own :
    (item : RecomputeWorkItem) (artifacts : RecomputeArtifacts)
    → check_artifacts item artifacts ≡ ok tt
    → (artifacts.analysis.analysis.user_id ≡ item.user_id)
      × (artifacts.analysis.analysis.profile_version ≡ item.profile_version)
unfolding check_artifacts
check_artifacts-own item artifacts e =
    let a = artifacts.analysis.analysis in
    let differs =
      not (a.user_id == item.user_id) || not (a.profile_version == item.profile_version) in
    let (first, _) =
      seq-ok (raise_if differs (conflict analysis_work_item))
        (raise_if (proposal_differs item artifacts) (conflict proposal_work_item)) tt e in
    let none_differs : differs ≡ false = raise_if-ok differs (conflict analysis_work_item) first in
    (ground (arith, none_differs), ground (arith, none_differs))

pub check_artifacts-proposal :
    (item : RecomputeWorkItem) (artifacts : RecomputeArtifacts)
    → check_artifacts item artifacts ≡ ok tt
    → (p : RouteProposalPersist) → artifacts.proposal ≡ some p
    → (p.proposal.user_id ≡ item.user_id)
      × (p.proposal.profile_version ≡ item.profile_version)
      × (p.proposal.analysis_id ≡ artifacts.analysis.analysis_id)
unfolding check_artifacts
check_artifacts-proposal item artifacts e p f =
    let a = artifacts.analysis.analysis in
    let (_, second) =
      seq-ok
        (raise_if
          (not (a.user_id == item.user_id) || not (a.profile_version == item.profile_version))
          (conflict analysis_work_item))
        (raise_if (proposal_differs item artifacts) (conflict proposal_work_item)) tt e in
    let same = raise_if-ok (proposal_differs item artifacts) (conflict proposal_work_item) second in
    let here : (not (p.proposal.user_id == item.user_id)
          || not (p.proposal.profile_version == item.profile_version)
          || not (p.proposal.analysis_id == artifacts.analysis.analysis_id))
        ≡ false =
      rw f at same in
    (ground (arith, here), ground (arith, here), ground (arith, here))
