-- ===== src/Recompute/Worker/Steps.antt =====
-- What the steps of a worker's transactions have found where they do not raise
-- (src/jobtology_be/infrastructure/persistence/worker.py).
use jobtology_be.Common.{
  ℕ, ◌≡◌, refl, sym, ap, ◌∙◌, subst, inl, inr, Bool, true, false, not, Option, none, some, ◌==◌,
  Bool-cases, Option-cases, ok, raise, is_some, ◌>>=◌, bind-ok, ok-inj,
}
use jobtology_be.Recompute.{
  OutboxJob, RecomputeRequest, missing_record, recompute_request, is_running, Store, write,
  RecomputeWorkItem,
}
use jobtology_be.Recompute.Worker.{
  lease_row, holds_lease, matches_request, context_of, RecomputeArtifacts, RecomputeFinalization,
  check_lease, check_request, insert, insert_analysis, insert_proposal, update_request, finalized,
  point_to, finished, complete_job, close_work, record_results,
}

pub not-false : (b : Bool) → not b ≡ false → b ≡ true
not-false true e = refl
not-false false e = absurd (cc e)

pub check_lease-ok :
    (item : RecomputeWorkItem) (now : ℕ) (s : Store)
    → check_lease item now s ≡ ok tt
    → (j : OutboxJob) × (lease_row item s ≡ some j) × (holds_lease item now j ≡ true)
unfolding check_lease
check_lease-ok item now s e = elim (Option-cases (lease_row item s)) [
  | inl n ↦ absurd (cc (rw (n, check_lease) at e))
  | inr (j, f) ↦ elim (Bool-cases (holds_lease item now j)) [
    | inl h ↦ (j, f, h)
    | inr h ↦ absurd (cc (rw (f, check_lease, h) at e))
  ]
]

pub check_request-ok :
    (item : RecomputeWorkItem) (s : Store)
    → check_request item s ≡ ok tt
    → (q : RecomputeRequest) × (s.requests item.request_id ≡ some q)
      × (matches_request item q ≡ true)
unfolding check_request
check_request-ok item s e = elim (Option-cases (s.requests item.request_id)) [
  | inl n ↦ absurd (cc (rw (n, check_request) at e))
  | inr (q, f) ↦ elim (Bool-cases (matches_request item q)) [
    | inl h ↦ (q, f, h)
    | inr h ↦ absurd (cc (rw (f, check_request, h) at e))
  ]
]

pub check_request-context :
    (item : RecomputeWorkItem) (s : Store)
    → check_request item s ≡ ok tt
    → is_some (context_of item s) ≡ true
unfolding check_request
check_request-context item s e = elim (Option-cases (s.requests item.request_id)) [
  | inl n ↦ absurd (cc (rw (n, check_request) at e))
  | inr (q, f) ↦ elim (Bool-cases (is_some (context_of item s))) [
    | inl h ↦ h
    | inr h ↦ absurd (cc (refused q f h))
  ]
]
  where
    refused :
        (q : RecomputeRequest)
        → s.requests item.request_id ≡ some q
        → is_some (context_of item s) ≡ false
        → check_request item s ≡ raise (missing_record recompute_request)
    refused q f h = elim (Bool-cases (matches_request item q)) [
      | inl m ↦ rw (f, check_request, m, h) refl
      | inr m ↦ rw (f, check_request, m) refl
    ]

pub insert-ok :
    {A : Type 0} (k : ℕ) (a : A) (table : ℕ → Option A) (table' : ℕ → Option A)
    → insert k a table ≡ ok table'
    → (table k ≡ none) × (table' ≡ write k a table)
unfolding insert
insert-ok k a table table' e = elim (Option-cases (table k)) [
  | inl n ↦ (n, sym (ok-inj (write k a table) table' (rw (n, insert) at e)))
  | inr (b, f) ↦ absurd (cc (rw (f, insert) at e))
]

pub update_request-ok :
    (item : RecomputeWorkItem) (f : RecomputeRequest → RecomputeRequest) (s s' : Store)
    → update_request item f s ≡ ok s'
    → (q : RecomputeRequest) × (s.requests item.request_id ≡ some q)
      × (s' ≡ record s { requests = write item.request_id (f q) s.requests })
unfolding update_request
update_request-ok item f s s' e = elim (Option-cases (s.requests item.request_id)) [
  | inl n ↦ absurd (cc (rw (n, update_request) at e))
  | inr (q, g) ↦ elim (Bool-cases (is_running q.state)) [
    | inl h ↦ (
      q,
      g,
      sym (
          ok-inj (record s { requests = write item.request_id (f q) s.requests }) s'
            (rw (g, update_request, h) at e)),
    )
    | inr h ↦ absurd (cc (rw (g, update_request, h) at e))
  ]
]

pub complete_job-ok :
    (item : RecomputeWorkItem) (clock : ℕ) (s s' : Store)
    → complete_job item clock s ≡ ok s'
    → (j : OutboxJob) × (lease_row item s ≡ some j)
      × (holds_lease item clock j ≡ true)
      × (s' ≡ record s { jobs = write item.lease.job_id (finished j) s.jobs })
unfolding complete_job
complete_job-ok item clock s s' e = elim (Option-cases (lease_row item s)) [
  | inl n ↦ absurd (cc (rw (n, complete_job) at e))
  | inr (j, f) ↦ elim (Bool-cases (holds_lease item clock j)) [
    | inl h ↦ (
      j,
      f,
      h,
      sym (
          ok-inj (record s { jobs = write item.lease.job_id (finished j) s.jobs }) s'
            (rw (f, complete_job, h) at e)),
    )
    | inr h ↦ absurd (cc (rw (f, complete_job, h) at e))
  ]
]

pub insert_analysis-ok :
    (artifacts : RecomputeArtifacts) (s s' : Store)
    → insert_analysis artifacts s ≡ ok s'
    → (s.analyses artifacts.analysis.analysis_id ≡ none)
      × (s' ≡ record s {
        analyses = write artifacts.analysis.analysis_id artifacts.analysis.analysis s.analyses;
      })
unfolding insert_analysis
insert_analysis-ok artifacts s s' e =
    let a = artifacts.analysis in
    let (rows, f, g) =
      bind-ok (insert a.analysis_id a.analysis s.analyses)
        (λ rows. ok (record s { analyses = rows })) s' e in
    let (n, w) = insert-ok a.analysis_id a.analysis s.analyses rows f in
    (
      n,
      sym (ok-inj (record s { analyses = rows }) s' g)
          ∙ ap (λ rows. record s { analyses = rows }) w,
    )

-- Only the tables of proposals and traces have changed.
abbrev ProposalsOnly : Store → Store → Type 0
ProposalsOnly s s' =
    s'
    ≡ record s { calculation_traces = s'.calculation_traces; route_proposals = s'.route_proposals }

insert_proposal-ok :
    (artifacts : RecomputeArtifacts) (s s' : Store)
    → insert_proposal artifacts s ≡ ok s'
    → ProposalsOnly s s'
unfolding insert_proposal
insert_proposal-ok artifacts s s' e = elim (Option-cases artifacts.proposal) [
  | inl n ↦ subst (ProposalsOnly s) (ok-inj s s' (rw (n, insert_proposal) at e)) refl
  | inr (p, f) ↦
      let (traces, _, g) =
        bind-ok (insert p.proposal.trace_id p.trace_outputs s.calculation_traces)
          (λ traces. insert p.proposal_id p.proposal s.route_proposals >>= λ rows.
            ok (record s { calculation_traces = traces; route_proposals = rows }))
          s' (rw (f, insert_proposal) at e) in
      let (rows, _, h) =
        bind-ok (insert p.proposal_id p.proposal s.route_proposals)
          (λ rows. ok (record s { calculation_traces = traces; route_proposals = rows })) s' g in
      subst (ProposalsOnly s)
        (ok-inj (record s { calculation_traces = traces; route_proposals = rows }) s' h) refl
]

pub point_to_lem :
    (item : RecomputeWorkItem) (a : ℕ) (s : Store)
    → point_to item a s ≡ record s { profiles = (point_to item a s).profiles }
unfolding point_to
point_to_lem item a s = elim (Option-cases (s.profiles item.user_id)) [
  | inl n ↦ rw (n, point_to) refl
  | inr (p, f) ↦ elim (Bool-cases (p.version == item.profile_version)) [
    | inl h ↦ rw (f, point_to, h) refl
    | inr h ↦ rw (f, point_to, h) refl
  ]
]

-- The writes of a finalization, by their tables.
pub record Written (item : RecomputeWorkItem) (artifacts : RecomputeArtifacts) (now clock : ℕ)
    (s s' : Store) : Type 0 where
  pub job : OutboxJob
  pub job_at : lease_row item s ≡ some job
  pub held_at_end : holds_lease item clock job ≡ true
  pub request : RecomputeRequest
  pub request_at : s.requests item.request_id ≡ some request
  pub is_new : s.analyses artifacts.analysis.analysis_id ≡ none
  pub jobs_after : s'.jobs ≡ write item.lease.job_id (finished job) s.jobs
  pub requests_after :
      s'.requests ≡ write item.request_id (finalized artifacts now request) s.requests
  pub analyses_after :
      s'.analyses ≡ write artifacts.analysis.analysis_id artifacts.analysis.analysis s.analyses
  pub profiles_after : s'.profiles ≡ (point_to item artifacts.analysis.analysis_id s).profiles

pub lease_row-jobs :
    (item : RecomputeWorkItem) (s s' : Store)
    → s.jobs ≡ s'.jobs
    → lease_row item s ≡ lease_row item s'
unfolding lease_row
lease_row-jobs item s s' e = ap (λ f. lease_row item (record s { jobs = f })) e

point_to-profiles :
    (item : RecomputeWorkItem) (a : ℕ) (s s' : Store)
    → s.profiles ≡ s'.profiles
    → (point_to item a s).profiles ≡ (point_to item a s').profiles
unfolding point_to
point_to-profiles item a s s' e = elim (Option-cases (s.profiles item.user_id)) [
  | inl n ↦
      let n' : s'.profiles item.user_id ≡ none = subst (λ f. f item.user_id ≡ none) e n in
      rw (n, n', point_to) e
  | inr (p, f) ↦
      let f' : s'.profiles item.user_id ≡ some p = subst (λ g. g item.user_id ≡ some p) e f in
      elim (Bool-cases (p.version == item.profile_version)) [
        | inl h ↦
            rw (f, f', point_to, h)
              (ap (write item.user_id (record p { latest_analysis_id = some a })) e)
        | inr h ↦ rw (f, f', point_to, h) e
      ]
]

Written-tables :
    (item : RecomputeWorkItem) (artifacts : RecomputeArtifacts) (now clock : ℕ)
    (s s₁ s₂ s₃ s₄ : Store) (q : RecomputeRequest) (j : OutboxJob)
    → let id = artifacts.analysis.analysis_id in
      s.analyses id ≡ none
      → s₂.requests item.request_id ≡ some q
      → lease_row item (point_to item id s₃) ≡ some j
      → holds_lease item clock j ≡ true
      → s₁ ≡ record s { analyses = write id artifacts.analysis.analysis s.analyses }
      → ProposalsOnly s₁ s₂
      → s₃ ≡ record s₂ { requests = write item.request_id (finalized artifacts now q) s₂.requests }
      → s₄ ≡ record (point_to item id s₃) {
        jobs = write item.lease.job_id (finished j) (point_to item id s₃).jobs;
      }
      → Written item artifacts now clock s s₄
Written-tables item artifacts now clock s s₁ s₂ s₃ s₄ q j n a b h p₁ p₂ p₃ p₄ =
    let id = artifacts.analysis.analysis_id in
    let p = point_to_lem item id s₃ in
    let jobs_kept : (point_to item id s₃).jobs ≡ s.jobs =
      ap (λ x. x.jobs) p ∙ ap (λ x. x.jobs) p₃ ∙ ap (λ x. x.jobs) p₂ ∙ ap (λ x. x.jobs) p₁ in
    let requests_kept : s₂.requests ≡ s.requests =
      ap (λ x. x.requests) p₂ ∙ ap (λ x. x.requests) p₁ in
    record {
      job = j;
      job_at = sym (lease_row-jobs item (point_to item id s₃) s jobs_kept) ∙ b;
      held_at_end = h;
      request = q;
      request_at = subst (λ f. f item.request_id ≡ some q) requests_kept a;
      is_new = n;
      jobs_after = ap (λ x. x.jobs) p₄ ∙ ap (write item.lease.job_id (finished j)) jobs_kept;
      requests_after =
          ap (λ x. x.requests) p₄
          ∙ ap (λ x. x.requests) p
          ∙ ap (λ x. x.requests) p₃
          ∙ ap (write item.request_id (finalized artifacts now q)) requests_kept;
      analyses_after =
          ap (λ x. x.analyses) p₄
          ∙ ap (λ x. x.analyses) p
          ∙ ap (λ x. x.analyses) p₃
          ∙ ap (λ x. x.analyses) p₂
          ∙ ap (λ x. x.analyses) p₁;
      profiles_after =
          ap (λ x. x.profiles) p₄
          ∙ point_to-profiles item id s₃ s
              (ap (λ x. x.profiles) p₃ ∙ ap (λ x. x.profiles) p₂ ∙ ap (λ x. x.profiles) p₁);
    }

pub record_results-ok :
    (item : RecomputeWorkItem) (artifacts : RecomputeArtifacts) (now clock : ℕ) (s : Store)
    (r : RecomputeFinalization × Store)
    → record_results item artifacts now clock s ≡ ok r
    → Written item artifacts now clock s r.1
unfolding record_results close_work
record_results-ok item artifacts now clock s r e =
    let id = artifacts.analysis.analysis_id in
    let last = close_work item artifacts clock in
    let third = λ (x : Store). update_request item (finalized artifacts now) x >>= last in
    let (s₁, w₁, e₁) =
      bind-ok (insert_analysis artifacts s) (λ s₁. insert_proposal artifacts s₁ >>= third) r e in
    let (s₂, w₂, e₂) = bind-ok (insert_proposal artifacts s₁) third r e₁ in
    let (s₃, w₃, e₃) = bind-ok (update_request item (finalized artifacts now) s₂) last r e₂ in
    let (s₄, w₄, e₄) = bind-ok (complete_job item clock (point_to item id s₃)) _ r e₃ in
    let (n, p₁) = insert_analysis-ok artifacts s s₁ w₁ in
    let p₂ = insert_proposal-ok artifacts s₁ s₂ w₂ in
    let (q, a, p₃) = update_request-ok item (finalized artifacts now) s₂ s₃ w₃ in
    let (j, b, h, p₄) = complete_job-ok item clock (point_to item id s₃) s₄ w₄ in
    subst (Written item artifacts now clock s) (ap (λ x. x.1) (ok-inj (_, s₄) r e₄))
      (Written-tables item artifacts now clock s s₁ s₂ s₃ s₄ q j n a b h p₁ p₂ p₃ p₄)
