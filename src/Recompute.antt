-- ===== src/Recompute.antt =====
-- The records of the recompute work (the tables `outbox_jobs`, `recompute_requests`,
-- `recompute_contexts`, `profiles`, `users`, `goals`, `analyses`, `route_proposals` and
-- `calculation_traces` of src/jobtology_be/infrastructure/persistence/schema.py) and what the
-- transactions of the children read of them. A table is a function from its key to the row; a
-- transaction that raises leaves the store as it was, so it returns no store. Identifiers and JSON
-- texts are numbers, instants are numbers of microseconds.
pub mod Claim
pub mod Worker
mod Examples
use jobtology_be.Common.{
  ℕ, Bool, true, false, ◌&&◌, ◌||◌, not, Option, none, some, List, [], ◌∷◌, ltb, leb, ◌==◌,
  if◌then◌else◌, any, elem,
}
use jobtology_be.Quota.{Counters}

pub data JobKind : Type 0 where
  recompute : JobKind
  other_kind : ℕ → JobKind

abbrev pub is_recompute : JobKind → Bool
is_recompute recompute = true
is_recompute (other_kind k) = false

pub data JobState : Type 0 where
  ready : JobState
  leased : JobState
  completed : JobState
  failed_job : JobState

abbrev pub is_ready : JobState → Bool
is_ready ready = true
is_ready _ = false

abbrev pub is_leased : JobState → Bool
is_leased leased = true
is_leased _ = false

-- A row of `outbox_jobs`.
pub record OutboxJob : Type 0 where
  pub kind : JobKind
  pub payload : ℕ
  pub recompute_request_id : Option ℕ
  pub dedupe_key : ℕ
  pub state : JobState
  pub attempt_count : ℕ
  pub available_at : ℕ
  pub lease_until : Option ℕ
  pub lease_token : Option ℕ

pub data RequestState : Type 0 where
  pending : RequestState
  running : RequestState
  ready_request : RequestState
  failed_request : RequestState

abbrev pub is_running : RequestState → Bool
is_running running = true
is_running _ = false

-- `state IN ('PENDING', 'RUNNING')`
abbrev pub is_open : RequestState → Bool
is_open pending = true
is_open running = true
is_open _ = false

pub data ErrorCode : Type 0 where
  missing_recompute_context : ErrorCode
  stale_profile : ErrorCode
  worker_error : ℕ → ErrorCode

-- A row of `recompute_requests`.
pub record RecomputeRequest : Type 0 where
  pub user_id : ℕ
  pub profile_version : ℕ
  pub trigger_event_id : ℕ
  pub state : RequestState
  pub resulting_analysis_id : Option ℕ
  pub proposal_id : Option ℕ
  pub auto_roadmap_pending : Bool
  pub error_code : Option ErrorCode
  pub failure_details : Option ℕ
  pub updated_at : ℕ

-- A row of `recompute_contexts`; `source` is the payload's `snapshot_selection.source`.
pub record RecomputeContext : Type 0 where
  pub payload : ℕ
  pub source : Option ℕ

pub record Profile : Type 0 where
  pub version : ℕ
  pub latest_analysis_id : Option ℕ

pub record Analysis : Type 0 where
  pub user_id : ℕ
  pub goal_id : ℕ
  pub profile_version : ℕ
  pub contents : ℕ

pub record RouteProposal : Type 0 where
  pub user_id : ℕ
  pub analysis_id : ℕ
  pub profile_version : ℕ
  pub trace_id : ℕ
  pub contents : ℕ

-- `job_ids` lists the keys of `jobs` for the queries that read the whole table.
pub record Store : Type 0 where
  pub users : ℕ → Bool
  pub profiles : ℕ → Option Profile
  pub job_ids : List ℕ
  pub jobs : ℕ → Option OutboxJob
  pub requests : ℕ → Option RecomputeRequest
  pub contexts : ℕ → Option RecomputeContext
  pub goals : ℕ → Option ℕ
  pub analyses : ℕ → Option Analysis
  pub route_proposals : ℕ → Option RouteProposal
  pub calculation_traces : ℕ → Option ℕ
  pub counters : Counters

-- Writing a row under its key.
abbrev pub write : {A : Type 0} → ℕ → A → (ℕ → Option A) → ℕ → Option A
write k a table k' = if k' == k then some a else table k'

pub data Resource : Type 0 where
  outbox_lease : Resource
  recompute_request : Resource
  recompute_context : Resource
  recompute_dedupe : Resource
  analysis_work_item : Resource
  proposal_work_item : Resource
  deleted_account : Resource
  goal : Resource

-- `duplicate_key` is the database's refusal of a second row under one key.
pub data StoreError : Type 0 where
  conflict : Resource → StoreError
  missing_record : Resource → StoreError
  duplicate_key : StoreError

pub record OutboxLease : Type 0 where
  pub job_id : ℕ
  pub lease_token : ℕ
  pub kind : JobKind
  pub payload : ℕ

pub record RecomputeWorkItem : Type 0 where
  pub request_id : ℕ
  pub user_id : ℕ
  pub profile_version : ℕ
  pub lease : OutboxLease

-- An unset column compares as false, as `NULL` does in a `WHERE`.
abbrev pub same : Option ℕ → ℕ → Bool
same none n = false
same (some m) n = m == n

abbrev pub later : Option ℕ → ℕ → Bool
later none now = false
later (some t) now = ltb now t

abbrev pub earlier : Option ℕ → ℕ → Bool
earlier none now = false
earlier (some t) now = ltb t now

-- A job that a worker holds a live lease of.
abbrev pub is_live : ℕ → OutboxJob → Bool
is_live now j = is_leased j.state && later j.lease_until now
