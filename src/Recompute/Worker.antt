-- ===== src/Recompute/Worker.antt =====
-- The transactions of a worker that holds a lease: `load_recompute_context`, `finalize_recompute`
-- and `fail_recompute` (src/jobtology_be/infrastructure/persistence/worker.py). `now` is the
-- worker's clock and `clock` the database's at the last statement.
pub mod Steps
pub mod Fencing
pub mod Rows
pub mod Proposals
pub mod Finalized
use jobtology_be.Common.{
  ℕ, Bool, true, false, ◌&&◌, ◌||◌, not, Option, none, some, ltb, ◌==◌, if◌then◌else◌, is_some,
  Result, ok, raise, ◌>>=◌, ◌>>◌, raise_if,
}
use jobtology_be.Recompute.{
  JobKind, is_recompute, JobState, completed, is_leased, OutboxJob, RequestState, ready_request,
  failed_request, is_running, ErrorCode, worker_error, RecomputeRequest, RecomputeContext, Profile,
  Analysis, RouteProposal, Store, write, Resource, outbox_lease, recompute_request,
  recompute_context, analysis_work_item, proposal_work_item, deleted_account, goal, StoreError,
  conflict, missing_record, duplicate_key, OutboxLease, RecomputeWorkItem, same, later, is_live,
}

-- The job of a work item, if it is still the job of the item's request.
pub lease_row : RecomputeWorkItem → Store → Option OutboxJob
lease_row item s = elim (s.jobs item.lease.job_id) [
  | none ↦ none
  | some j ↦
      if is_recompute j.kind && same j.recompute_request_id item.request_id then some j else none
]

-- The lease is live and is the item's.
pub holds_lease : RecomputeWorkItem → ℕ → OutboxJob → Bool
holds_lease item now j = is_live now j && same j.lease_token item.lease.lease_token

-- The request runs, for the item's account and version, and has a context.
pub matches_request : RecomputeWorkItem → RecomputeRequest → Bool
matches_request item q =
    is_running q.state && (q.user_id == item.user_id) && (q.profile_version == item.profile_version)

pub context_of : RecomputeWorkItem → Store → Option ℕ
context_of item s = elim (s.contexts item.request_id) [ none ↦ none | some c ↦ some c.payload ]

-- `load_recompute_context`
unfoldable pub load_recompute_context : RecomputeWorkItem → ℕ → Store → Result StoreError ℕ
unfolding lease_row holds_lease matches_request context_of
load_recompute_context item clock s = elim (lease_row item s) [
  | none ↦ raise (conflict recompute_context)
  | some j ↦ elim (s.requests item.request_id) [
    | none ↦ raise (conflict recompute_context)
    | some q ↦ elim (context_of item s) [
      | none ↦ raise (conflict recompute_context)
      | some payload ↦
          if holds_lease item clock j && matches_request item q
          then ok payload
          else raise (conflict recompute_context)
    ]
  ]
]

-- What a worker made.
pub record AnalysisPersist : Type 0 where
  pub analysis_id : ℕ
  pub analysis : Analysis

pub record RouteProposalPersist : Type 0 where
  pub proposal_id : ℕ
  pub trace_outputs : ℕ
  pub proposal : RouteProposal

pub record RecomputeArtifacts : Type 0 where
  pub analysis : AnalysisPersist
  pub proposal : Option RouteProposalPersist

pub record RecomputeFinalization : Type 0 where
  pub request_id : ℕ
  pub analysis_id : ℕ
  pub proposal_id : Option ℕ
  pub updated_latest_analysis : Bool

abbrev pub proposal_differs : RecomputeWorkItem → RecomputeArtifacts → Bool
proposal_differs item artifacts = elim artifacts.proposal [
  | none ↦ false
  | some p ↦
      not (p.proposal.user_id == item.user_id)
      || not (p.proposal.profile_version == item.profile_version)
      || not (p.proposal.analysis_id == artifacts.analysis.analysis_id)
]

pub check_artifacts : RecomputeWorkItem → RecomputeArtifacts → Result StoreError Unit
check_artifacts item artifacts =
    let a = artifacts.analysis.analysis in
    raise_if (not (a.user_id == item.user_id) || not (a.profile_version == item.profile_version))
      (conflict analysis_work_item)
    >> raise_if (proposal_differs item artifacts) (conflict proposal_work_item)

-- The checks on the locked rows that both endings make.
pub check_lease : RecomputeWorkItem → ℕ → Store → Result StoreError Unit
unfolding lease_row holds_lease
check_lease item now s = elim (lease_row item s) [
  | none ↦ raise (conflict outbox_lease)
  | some j ↦ raise_if (not (holds_lease item now j)) (conflict outbox_lease)
]

pub check_request : RecomputeWorkItem → Store → Result StoreError Unit
unfolding matches_request context_of
check_request item s = elim (s.requests item.request_id) [
  | none ↦ raise (missing_record recompute_request)
  | some q ↦
      raise_if (not (matches_request item q && is_some (context_of item s)))
        (missing_record recompute_request)
]

pub insert : {A : Type 0} → ℕ → A → (ℕ → Option A) → Result StoreError (ℕ → Option A)
insert k a table = if is_some (table k) then raise duplicate_key else ok (write k a table)

pub insert_analysis : RecomputeArtifacts → Store → Result StoreError Store
unfolding insert
insert_analysis artifacts s =
    insert artifacts.analysis.analysis_id artifacts.analysis.analysis s.analyses >>= λ rows.
    ok (record s { analyses = rows })

pub insert_proposal : RecomputeArtifacts → Store → Result StoreError Store
unfolding insert
insert_proposal artifacts s = elim artifacts.proposal [
  | none ↦ ok s
  | some p ↦ insert p.proposal.trace_id p.trace_outputs s.calculation_traces >>= λ traces.
      insert p.proposal_id p.proposal s.route_proposals >>= λ rows.
      ok (record s { calculation_traces = traces; route_proposals = rows })
]

-- `UPDATE recompute_requests … WHERE id = … AND state = 'RUNNING'`
pub update_request :
    RecomputeWorkItem → (RecomputeRequest → RecomputeRequest) → Store → Result StoreError Store
update_request item f s = elim (s.requests item.request_id) [
  | none ↦ raise (conflict recompute_request)
  | some q ↦
      if is_running q.state
      then ok (record s { requests = write item.request_id (f q) s.requests })
      else raise (conflict recompute_request)
]

abbrev proposal_id_of : RecomputeArtifacts → Option ℕ
proposal_id_of artifacts = elim artifacts.proposal [ none ↦ none | some p ↦ some p.proposal_id ]

abbrev pub finalized : RecomputeArtifacts → ℕ → RecomputeRequest → RecomputeRequest
finalized artifacts now q = record q {
  state = ready_request;
  resulting_analysis_id = some artifacts.analysis.analysis_id;
  proposal_id = proposal_id_of artifacts;
  auto_roadmap_pending = is_some artifacts.proposal;
  updated_at = now;
}

-- The pointer moves only for the version that the work is of.
abbrev is_current : RecomputeWorkItem → Store → Bool
is_current item s = elim (s.profiles item.user_id) [
  | none ↦ false
  | some p ↦ p.version == item.profile_version
]

pub point_to : RecomputeWorkItem → ℕ → Store → Store
point_to item analysis_id s = elim (s.profiles item.user_id) [
  | none ↦ s
  | some p ↦
      if p.version == item.profile_version
      then record s {
        profiles =
            write item.user_id (record p { latest_analysis_id = some analysis_id }) s.profiles;
      }
      else s
]

abbrev pub finished : OutboxJob → OutboxJob
finished j = record j { state = completed; lease_token = none; lease_until = none }

pub complete_job : RecomputeWorkItem → ℕ → Store → Result StoreError Store
unfolding lease_row holds_lease
complete_job item clock s = elim (lease_row item s) [
  | none ↦ raise (conflict outbox_lease)
  | some j ↦
      if holds_lease item clock j
      then ok (record s { jobs = write item.lease.job_id (finished j) s.jobs })
      else raise (conflict outbox_lease)
]

abbrev pub check_owner : RecomputeWorkItem → Store → Result StoreError Unit
check_owner item s = raise_if (not (s.users item.user_id)) (conflict deleted_account)

abbrev pub check_goal : RecomputeWorkItem → RecomputeArtifacts → Store → Result StoreError Unit
check_goal item artifacts s =
    raise_if (not (same (s.goals artifacts.analysis.analysis.goal_id) item.user_id))
      (missing_record goal)

-- The last statement of `finalize_recompute`, and its result.
unfoldable pub close_work :
    RecomputeWorkItem
    → RecomputeArtifacts
    → ℕ
    → Store
    → Result StoreError (RecomputeFinalization × Store)
unfolding complete_job point_to
close_work item artifacts clock s =
    let result : RecomputeFinalization = record {
      request_id = item.request_id;
      analysis_id = artifacts.analysis.analysis_id;
      proposal_id = proposal_id_of artifacts;
      updated_latest_analysis = is_current item s;
    } in
    complete_job item clock (point_to item artifacts.analysis.analysis_id s) >>= λ s'.
    ok (result, s')

-- The statements that write, in their order.
unfoldable pub record_results :
    RecomputeWorkItem
    → RecomputeArtifacts
    → ℕ
    → ℕ
    → Store
    → Result StoreError (RecomputeFinalization × Store)
unfolding insert_analysis insert_proposal update_request close_work
record_results item artifacts now clock s = insert_analysis artifacts s >>= λ s₁.
    insert_proposal artifacts s₁ >>= λ s₂.
    update_request item (finalized artifacts now) s₂ >>= λ s₃. close_work item artifacts clock s₃

-- `finalize_recompute`
unfoldable pub finalize_recompute :
    RecomputeWorkItem
    → RecomputeArtifacts
    → ℕ
    → ℕ
    → Store
    → Result StoreError (RecomputeFinalization × Store)
unfolding check_artifacts check_lease check_request record_results
finalize_recompute item artifacts now clock s =
    check_artifacts item artifacts
    >> (check_owner item s
        >> (check_lease item now s
            >> (check_request item s
                >> (check_goal item artifacts s >> record_results item artifacts now clock s))))

abbrev pub failed_with : ℕ → Option ℕ → ℕ → RecomputeRequest → RecomputeRequest
failed_with error_code details now q = record q {
  state = failed_request;
  error_code = some (worker_error error_code);
  failure_details = details;
  updated_at = now;
}

-- The job and the request are both gone.
abbrev pub is_erased : RecomputeWorkItem → Store → Bool
is_erased item s =
    not (is_some (lease_row item s))
    && not (is_some (s.jobs item.lease.job_id))
    && not (is_some (s.requests item.request_id))

-- `fail_recompute`: silent for an erased account or goal.
unfoldable pub fail_recompute :
    RecomputeWorkItem → ℕ → Option ℕ → ℕ → ℕ → Store → Result StoreError Store
unfolding check_lease check_request update_request complete_job lease_row
fail_recompute item error_code details now clock s =
    if not (s.users item.user_id) || is_erased item s
    then ok s
    else check_lease item now s
      >> (check_request item s
          >> (update_request item (failed_with error_code details now) s >>= λ s₁.
              complete_job item clock s₁))
