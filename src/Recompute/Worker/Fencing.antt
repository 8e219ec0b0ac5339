-- ===== src/Recompute/Worker/Fencing.antt =====
-- A worker's transactions are fenced by its lease
-- (src/jobtology_be/infrastructure/persistence/worker.py).
use jobtology_be.Common.{
  ℕ, ◌≡◌, refl, sym, ◌∙◌, subst, inl, inr, true, false, ◌&&◌, not, none, some, ◌==◌, Bool-cases,
  Option-cases, ok, raise, ◌>>◌, is_some, seq-ok, raise_if-ok, ==_iff,
}
use mathlib.Core.Option.{some-injective}
use jobtology_be.Recompute.{
  recompute_context, deleted_account, is_recompute, OutboxJob, RecomputeRequest, Store, write,
  conflict, RecomputeWorkItem, same, goal, missing_record,
}
use jobtology_be.Recompute.Worker.{
  lease_row, holds_lease, matches_request, context_of, load_recompute_context, RecomputeArtifacts,
  RecomputeFinalization, check_artifacts, check_lease, check_request, finalized, point_to, finished,
  check_owner, check_goal, record_results, finalize_recompute,
}
use jobtology_be.Recompute.Worker.Steps.{
  not-false, check_lease-ok, check_request-ok, check_request-context, record_results-ok,
}

-- What a finalization has found and what it leaves, by its tests and writes.
pub record HasEnded (item : RecomputeWorkItem) (artifacts : RecomputeArtifacts) (now clock : ℕ)
    (s s' : Store) : Type 0 where
  pub job : OutboxJob
  pub job_at : lease_row item s ≡ some job
  pub held_now : holds_lease item now job ≡ true
  pub held_at_end : holds_lease item clock job ≡ true
  pub request : RecomputeRequest
  pub request_at : s.requests item.request_id ≡ some request
  pub matched : matches_request item request ≡ true
  pub own_goal : same (s.goals artifacts.analysis.analysis.goal_id) item.user_id ≡ true
  pub known_owner : s.users item.user_id ≡ true
  pub has_context : is_some (context_of item s) ≡ true
  pub checked : check_artifacts item artifacts ≡ ok tt
  pub is_new : s.analyses artifacts.analysis.analysis_id ≡ none
  pub jobs_after : s'.jobs ≡ write item.lease.job_id (finished job) s.jobs
  pub requests_after :
      s'.requests ≡ write item.request_id (finalized artifacts now request) s.requests
  pub analyses_after :
      s'.analyses ≡ write artifacts.analysis.analysis_id artifacts.analysis.analysis s.analyses
  pub profiles_after : s'.profiles ≡ (point_to item artifacts.analysis.analysis_id s).profiles

pub finalize_recompute-HasEnded :
    (item : RecomputeWorkItem) (artifacts : RecomputeArtifacts) (now clock : ℕ) (s : Store)
    (r : RecomputeFinalization × Store)
    → finalize_recompute item artifacts now clock s ≡ ok r
    → HasEnded item artifacts now clock s r.1
unfolding finalize_recompute
finalize_recompute-HasEnded item artifacts now clock s r e =
    let last = record_results item artifacts now clock s in
    let rows =
      check_lease item now s >> (check_request item s >> (check_goal item artifacts s >> last)) in
    let (checked, e₁) = seq-ok (check_artifacts item artifacts) (check_owner item s >> rows) r e in
    let (known, e₂) = seq-ok (check_owner item s) rows r e₁ in
    let (leased, e₃) =
      seq-ok (check_lease item now s)
        (check_request item s >> (check_goal item artifacts s >> last)) r e₂ in
    let (requested, e₄) =
      seq-ok (check_request item s) (check_goal item artifacts s >> last) r e₃ in
    let (owned, e₅) = seq-ok (check_goal item artifacts s) last r e₄ in
    let (j, at, held) = check_lease-ok item now s leased in
    let (q, q_at, matched) = check_request-ok item s requested in
    let w = record_results-ok item artifacts now clock s r e₅ in
    let own =
      raise_if-ok (not (same (s.goals artifacts.analysis.analysis.goal_id) item.user_id))
        (missing_record goal) owned in
    record {
      job = w.job;
      job_at = w.job_at;
      held_now =
          subst (λ x. holds_lease item now x ≡ true) (some-injective j w.job (sym at ∙ w.job_at))
            held;
      held_at_end = w.held_at_end;
      request = w.request;
      request_at = w.request_at;
      matched =
          subst (λ x. matches_request item x ≡ true)
            (some-injective q w.request (sym q_at ∙ w.request_at)) matched;
      own_goal = not-false (same (s.goals artifacts.analysis.analysis.goal_id) item.user_id) own;
      known_owner =
          not-false (s.users item.user_id)
            (raise_if-ok (not (s.users item.user_id)) (conflict deleted_account) known);
      has_context = check_request-context item s requested;
      checked = checked;
      is_new = w.is_new;
      jobs_after = w.jobs_after;
      requests_after = w.requests_after;
      analyses_after = w.analyses_after;
      profiles_after = w.profiles_after;
    }

pub lease_row-at :
    (item : RecomputeWorkItem) (s : Store) (j : OutboxJob)
    → lease_row item s ≡ some j
    → s.jobs item.lease.job_id ≡ some j
unfolding lease_row
lease_row-at item s j e = elim (Option-cases (s.jobs item.lease.job_id)) [
  | inl n ↦ absurd (cc (rw (n, lease_row) at e))
  | inr (k, f) ↦
      elim (Bool-cases (is_recompute k.kind && same k.recompute_request_id item.request_id)) [
        | inl h ↦ f ∙ (rw (f, lease_row, h) at e)
        | inr h ↦ absurd (cc (rw (f, lease_row, h) at e))
      ]
]

-- The job that a finalization leaves is no lease of anyone.
HasEnded-lease :
    (item : RecomputeWorkItem) (artifacts : RecomputeArtifacts) (now clock : ℕ) (s s' : Store)
    (j : OutboxJob) (later_clock : ℕ)
    → HasEnded item artifacts now clock s s'
    → lease_row item s' ≡ some j
    → holds_lease item later_clock j ≡ false
unfolding holds_lease
HasEnded-lease item artifacts now clock s s' j later_clock f e =
    let id = item.lease.job_id in
    let here : write id (finished f.job) s.jobs id ≡ some j =
      subst (λ g. g id ≡ some j) f.jobs_after (lease_row-at item s' j e) in
    let self : (id == id) ≡ true = (==_iff id id).1 refl in
    let same_job = some-injective (finished f.job) j (rw self at here) in
    subst (λ x. holds_lease item later_clock x ≡ false) same_job refl

-- After a finalization, no second one with the same work item ends well, whatever it made and whenever
-- it runs, and the item's context cannot be loaded any more.
pub finalize_recompute_once :
    (item : RecomputeWorkItem) (artifacts : RecomputeArtifacts) (now clock : ℕ) (s : Store)
    (r : RecomputeFinalization × Store)
    → finalize_recompute item artifacts now clock s ≡ ok r
    → ((artifacts' : RecomputeArtifacts) (now' clock' : ℕ) (r' : RecomputeFinalization × Store)
        → ¬ (finalize_recompute item artifacts' now' clock' r.1 ≡ ok r'))
      × ((clock' : ℕ) → load_recompute_context item clock' r.1 ≡ raise (conflict recompute_context))
unfolding load_recompute_context
finalize_recompute_once item artifacts now clock s r e =
    let f = finalize_recompute-HasEnded item artifacts now clock s r e in
    (
      λ artifacts' now' clock' r' e'.
          let g = finalize_recompute-HasEnded item artifacts' now' clock' r.1 r' e' in
          let free = HasEnded-lease item artifacts now clock s r.1 g.job now' f g.job_at in
          let held = g.held_now in cc (free, held),
      λ clock'. elim (Option-cases (lease_row item r.1)) [
        | inl n ↦ rw (n, load_recompute_context) refl
        | inr (j, at) ↦
            let free = HasEnded-lease item artifacts now clock s r.1 j clock' f at in
            elim (Option-cases (r.1.requests item.request_id)) [
              | inl m ↦ rw (at, load_recompute_context, m) refl
              | inr (q, b) ↦ elim (Option-cases (context_of item r.1)) [
                | inl m ↦ rw (at, load_recompute_context, b, m) refl
                | inr (p, c) ↦ rw (at, load_recompute_context, b, c, free) refl
              ]
            ]
      ],
    )
