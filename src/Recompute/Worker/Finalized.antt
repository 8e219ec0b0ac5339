-- ===== src/Recompute/Worker/Finalized.antt =====
-- What `finalize_recompute` (src/jobtology_be/infrastructure/persistence/worker.py) finds and leaves,
-- described by the rows of the tables.
use jobtology_be.Common.{
  ℕ, ◌≡◌, refl, ap, ◌≢◌, inl, inr, true, false, Option, none, some, ◌==◌, Bool-cases, Option-cases,
  ok, is_some, ◌∙◌, arith,
}
use jobtology_be.Recompute.{
  completed, OutboxJob, running, ready_request, RecomputeRequest, RecomputeContext, Profile, Store,
  RecomputeWorkItem,
}
use jobtology_be.Recompute.Worker.{
  RouteProposalPersist, RecomputeArtifacts, RecomputeFinalization, finished, finalized, point_to,
  finalize_recompute,
}
use jobtology_be.Recompute.Worker.Fencing.{lease_row-at, finalize_recompute-HasEnded}
use jobtology_be.Recompute.Worker.Proposals.{Stored, finalize_recompute-Stored}
use jobtology_be.Recompute.Worker.Rows.{
  OwnsLease, same-true, write-at, write-other, holds_lease-OwnsLease, matches_request-own,
  context_of-some, check_artifacts-own, check_artifacts-proposal,
}

abbrev pub named_proposal : Option RouteProposalPersist → Option ℕ
named_proposal none = none
named_proposal (some p) = some p.proposal_id

-- What a finalization has found in the rows, and the rows that it leaves.
pub record IsFinalized (item : RecomputeWorkItem) (artifacts : RecomputeArtifacts) (now clock : ℕ)
    (s s' : Store) : Type 0 where
  pub known_owner : s.users item.user_id ≡ true
  pub job : OutboxJob
  pub job_at : s.jobs item.lease.job_id ≡ some job
  pub owned_now : OwnsLease item now job
  pub owned_at_end : OwnsLease item clock job
  pub request : RecomputeRequest
  pub request_at : s.requests item.request_id ≡ some request
  pub was_running : request.state ≡ running
  pub own_request : request.user_id ≡ item.user_id
  pub own_version : request.profile_version ≡ item.profile_version
  pub has_context : (c : RecomputeContext) × (s.contexts item.request_id ≡ some c)
  pub own_goal : s.goals artifacts.analysis.analysis.goal_id ≡ some item.user_id
  pub own_analysis : artifacts.analysis.analysis.user_id ≡ item.user_id
  pub analysis_version : artifacts.analysis.analysis.profile_version ≡ item.profile_version
  pub is_new : s.analyses artifacts.analysis.analysis_id ≡ none
  pub job_after :
      s'.jobs item.lease.job_id
      ≡ some (record job { state = completed; lease_token = none; lease_until = none })
  pub other_jobs : (k : ℕ) → k ≢ item.lease.job_id → s'.jobs k ≡ s.jobs k
  pub request_after :
      s'.requests item.request_id
      ≡ some (record request {
        state = ready_request;
        resulting_analysis_id = some artifacts.analysis.analysis_id;
        proposal_id = named_proposal artifacts.proposal;
        auto_roadmap_pending = is_some artifacts.proposal;
        updated_at = now;
      })
  pub other_requests : (k : ℕ) → k ≢ item.request_id → s'.requests k ≡ s.requests k
  pub analysis_after : s'.analyses artifacts.analysis.analysis_id ≡ some artifacts.analysis.analysis
  pub other_analyses : (k : ℕ) → k ≢ artifacts.analysis.analysis_id → s'.analyses k ≡ s.analyses k
  pub pointer_moved :
      (p : Profile)
      → s.profiles item.user_id ≡ some p
      → p.version ≡ item.profile_version
      → s'.profiles item.user_id
        ≡ some (record {
          version = p.version;
          latest_analysis_id = some artifacts.analysis.analysis_id;
        })
  pub pointer_kept :
      (p : Profile)
      → s.profiles item.user_id ≡ some p
      → p.version ≢ item.profile_version
      → s'.profiles item.user_id ≡ some p
  pub own_proposal :
      (p : RouteProposalPersist)
      → artifacts.proposal ≡ some p
      → (p.proposal.user_id ≡ item.user_id)
        × (p.proposal.profile_version ≡ item.profile_version)
        × (p.proposal.analysis_id ≡ artifacts.analysis.analysis_id)
  pub proposal_stored :
      Stored artifacts.proposal s.route_proposals s.calculation_traces s'.route_proposals
        s'.calculation_traces
  pub other_profiles : (k : ℕ) → k ≢ item.user_id → s'.profiles k ≡ s.profiles k

finalized_lem :
    (artifacts : RecomputeArtifacts) (now : ℕ) (q : RecomputeRequest)
    → finalized artifacts now q ≡ record q {
      state = ready_request;
      resulting_analysis_id = some artifacts.analysis.analysis_id;
      proposal_id = named_proposal artifacts.proposal;
      auto_roadmap_pending = is_some artifacts.proposal;
      updated_at = now;
    }
finalized_lem artifacts now q = elim (Option-cases artifacts.proposal) [
  | inl n ↦ rw n refl
  | inr (p, f) ↦ rw f refl
]

module _ (item : RecomputeWorkItem) (id : ℕ) (s : Store) where
  point_to-moved :
      (p : Profile)
      → s.profiles item.user_id ≡ some p
      → p.version ≡ item.profile_version
      → (point_to item id s).profiles item.user_id
        ≡ some (record { version = p.version; latest_analysis_id = some id })
  unfolding point_to
  point_to-moved p at e =
      let same_version : (p.version == item.profile_version) ≡ true = ground (arith, e) in
      rw (at, point_to, same_version)
        (write-at item.user_id (record p { latest_analysis_id = some id }) s.profiles)

  point_to-kept :
      (p : Profile)
      → s.profiles item.user_id ≡ some p
      → p.version ≢ item.profile_version
      → (point_to item id s).profiles item.user_id ≡ some p
  unfolding point_to
  point_to-kept p at ne =
      let other_version : (p.version == item.profile_version) ≡ false = ground (arith, ne) in
      rw (at, point_to, other_version) at

  point_to-other : (k : ℕ) → k ≢ item.user_id → (point_to item id s).profiles k ≡ s.profiles k
  unfolding point_to
  point_to-other k ne = elim (Option-cases (s.profiles item.user_id)) [
    | inl n ↦ rw (n, point_to) refl
    | inr (p, f) ↦ elim (Bool-cases (p.version == item.profile_version)) [
      | inl h ↦
          rw (f, point_to, h)
            (write-other item.user_id (record p { latest_analysis_id = some id }) s.profiles k ne)
      | inr h ↦ rw (f, point_to, h) refl
    ]
  ]

-- A finalization that does not raise has found the account, the goal, and an analysis of the
-- item's account and version, with the proposal, if any, of the same and of that analysis; the
-- item's own recompute job, leased with its token until after both instants; the request,
-- running for that account and version, and its context. It leaves the job completed with no
-- lease, the request ready with the analysis and the proposal, and new rows, under keys that
-- were free, for the analysis, the proposal and its trace. The profile's pointer moves to the
-- analysis if the profile still has the item's version, and stays otherwise. All other jobs,
-- requests, analyses, proposals, traces and profiles are unchanged.
pub finalize_recompute-IsFinalized :
    (item : RecomputeWorkItem) (artifacts : RecomputeArtifacts) (now clock : ℕ) (s : Store)
    (r : RecomputeFinalization × Store)
    → finalize_recompute item artifacts now clock s ≡ ok r
    → IsFinalized item artifacts now clock s r.1
finalize_recompute-IsFinalized item artifacts now clock s r e =
    let f = finalize_recompute-HasEnded item artifacts now clock s r e in
    let id = artifacts.analysis.analysis_id in
    let user = item.user_id in
    let own = check_artifacts-own item artifacts f.checked in
    let m = matches_request-own item f.request f.matched in
    let readied = finalized artifacts now f.request in
    record {
      known_owner = f.known_owner;
      job = f.job;
      job_at = lease_row-at item s f.job f.job_at;
      owned_now = holds_lease-OwnsLease item s now f.job f.job_at f.held_now;
      owned_at_end = holds_lease-OwnsLease item s clock f.job f.job_at f.held_at_end;
      request = f.request;
      request_at = f.request_at;
      was_running = m.0;
      own_request = m.1;
      own_version = m.2;
      has_context = context_of-some item s f.has_context;
      own_goal = same-true (s.goals artifacts.analysis.analysis.goal_id) user f.own_goal;
      own_analysis = own.0;
      analysis_version = own.1;
      is_new = f.is_new;
      job_after = rw f.jobs_after (write-at item.lease.job_id (finished f.job) s.jobs);
      other_jobs =
          λ k ne. rw f.jobs_after (write-other item.lease.job_id (finished f.job) s.jobs k ne);
      request_after =
          rw f.requests_after (write-at item.request_id readied s.requests)
          ∙ ap some (finalized_lem artifacts now f.request);
      other_requests =
          λ k ne. rw f.requests_after (write-other item.request_id readied s.requests k ne);
      analysis_after = rw f.analyses_after (write-at id artifacts.analysis.analysis s.analyses);
      other_analyses =
          λ k ne. rw f.analyses_after (write-other id artifacts.analysis.analysis s.analyses k ne);
      pointer_moved = λ p at v. rw f.profiles_after (point_to-moved item id s p at v);
      pointer_kept = λ p at ne. rw f.profiles_after (point_to-kept item id s p at ne);
      own_proposal = check_artifacts-proposal item artifacts f.checked;
      proposal_stored = finalize_recompute-Stored item artifacts now clock s r e;
      other_profiles = λ k ne. rw f.profiles_after (point_to-other item id s k ne);
    }
