-- ===== src/Recompute/Examples.antt =====
-- The claim and the finalization of one job.
use jobtology_be.Common.{
  ℕ, ◌*◌, ◌/◌, ◌≡◌, refl, sym, subst, inl, inr, true, false, Option, none, some, [], ◌∷◌, Result,
  ok, raise, ◌==◌,
}
use jobtology_be.Quota.{WindowUnit, duration, AnalysisBudgetPolicy}
use jobtology_be.Recompute.{
  recompute, ready, leased, OutboxJob, pending, running, RecomputeRequest, Store, write, conflict,
  recompute_context, is_live, StoreError, RecomputeWorkItem,
}
use jobtology_be.Recompute.Claim.{claim_recompute_work}
use jobtology_be.Recompute.Claim.Live.{IsExclusive, write-cases}
use jobtology_be.Recompute.Claim.Exclusive.{Kept, claim_recompute_work-IsExclusive}
use jobtology_be.Recompute.Worker.{
  RecomputeArtifacts, RecomputeFinalization, finalize_recompute, load_recompute_context,
}
use jobtology_be.Recompute.Worker.Fencing.{finalize_recompute_once}
use jobtology_be.Recompute.Worker.Finalized.{IsFinalized, finalize_recompute-IsFinalized}

abbrev trunc : WindowUnit → ℕ → ℕ
trunc unit now = now / duration unit * duration unit

abbrev policy : AnalysisBudgetPolicy
policy = record { requests_per_hour = 10; executions_per_hour = 30; executions_per_minute = 2 }

abbrev token_of : ℕ → ℕ
token_of job = 900

abbrev open_job : OutboxJob
open_job = record {
  kind = recompute;
  payload = 70;
  recompute_request_id = some 10;
  dedupe_key = 71;
  state = ready;
  attempt_count = 0;
  available_at = 100;
  lease_until = none;
  lease_token = none;
}

abbrev open_request : RecomputeRequest
open_request = record {
  user_id = 5;
  profile_version = 2;
  trigger_event_id = 72;
  state = pending;
  resulting_analysis_id = none;
  proposal_id = none;
  auto_roadmap_pending = false;
  error_code = none;
  failure_details = none;
  updated_at = 100;
}

abbrev nothing : {A : Type 0} → ℕ → Option A
nothing k = none

abbrev open_store : Store
open_store = record {
  users = λ u. u == 5;
  profiles = write 5 (record { version = 2; latest_analysis_id = none }) nothing;
  job_ids = 1 ∷ [];
  jobs = write 1 open_job nothing;
  requests = write 10 open_request nothing;
  contexts = write 10 (record { payload = 73; source = none }) nothing;
  goals = write 20 5 nothing;
  analyses = nothing;
  route_proposals = nothing;
  calculation_traces = nothing;
  counters = λ u s. none;
}

open_store-IsExclusive : IsExclusive 200 open_store
open_store-IsExclusive = record {
  one_request = λ i r q i' r' q' l l' e. elim (write-cases 1 open_job nothing i l.job l.at) [
    | inl (p, a) ↦ absurd (cc (subst (λ x. is_live 200 x ≡ true) (sym a) l.live))
    | inr (p, a) ↦ absurd (cc a)
  ];
  listed = λ i j e. elim (write-cases 1 open_job nothing i j e) [
    | inl (p, a) ↦ inl p
    | inr (p, a) ↦ absurd (cc a)
  ];
}

claim_recompute_work-IsExclusive_example :
    Kept 200 (claim_recompute_work trunc policy token_of 200 (λ j. false) 1 none open_store)
claim_recompute_work-IsExclusive_example =
    claim_recompute_work-IsExclusive trunc policy token_of 200 (λ j. false) 1 none open_store
      open_store-IsExclusive

abbrev item : RecomputeWorkItem
item = record {
  request_id = 10;
  user_id = 5;
  profile_version = 2;
  lease = record { job_id = 1; lease_token = 900; kind = recompute; payload = 70 };
}

-- The store in which the worker holds the lease.
abbrev leased_store : Store
leased_store = record open_store {
  jobs =
      write 1
        (record open_job {
          state = leased;
          lease_token = some 900;
          lease_until = some 300000200;
          attempt_count = 1;
        })
        nothing;
  requests = write 10 (record open_request { state = running; updated_at = 200 }) nothing;
}

abbrev artifacts : RecomputeArtifacts
artifacts = record {
  analysis = record {
    analysis_id = 30;
    analysis = record { user_id = 5; goal_id = 20; profile_version = 2; contents = 74 };
  };
  proposal = some (record {
    proposal_id = 40;
    trace_outputs = 75;
    proposal = record {
      user_id = 5;
      analysis_id = 30;
      profile_version = 2;
      trace_id = 41;
      contents = 76;
    };
  });
}

-- The result of the finalization.
abbrev result_of : Result StoreError (RecomputeFinalization × Store) → RecomputeFinalization × Store
result_of (ok r) = r
result_of (raise e) = (
  record { request_id = 0; analysis_id = 0; proposal_id = none; updated_latest_analysis = false },
  leased_store,
)

abbrev ending : RecomputeFinalization × Store
ending = result_of (finalize_recompute item artifacts 300 301 leased_store)

ending_run : finalize_recompute item artifacts 300 301 leased_store ≡ ok ending
unfolding finalize_recompute
ending_run = refl

finalize_recompute-IsFinalized_example : IsFinalized item artifacts 300 301 leased_store ending.1
finalize_recompute-IsFinalized_example =
    finalize_recompute-IsFinalized item artifacts 300 301 leased_store ending ending_run

finalize_recompute_once_example :
    ((artifacts' : RecomputeArtifacts) (now' clock' : ℕ) (r' : RecomputeFinalization × Store)
      → ¬ (finalize_recompute item artifacts' now' clock' ending.1 ≡ ok r'))
    × ((clock' : ℕ)
        → load_recompute_context item clock' ending.1 ≡ raise (conflict recompute_context))
finalize_recompute_once_example =
    finalize_recompute_once item artifacts 300 301 leased_store ending ending_run
