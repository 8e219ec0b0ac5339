-- ===== src/Recompute/Claim.antt =====
-- `claim_recompute_work` (src/jobtology_be/infrastructure/persistence/outbox.py). The statements of
-- one claim read one instant of the database's clock (`now`). What other transactions hold locked is
-- a parameter, since the queries skip it, and so is `uuid4`, one token for each job.
pub mod Live
pub mod Exclusive
use jobtology_be.Common.{
  ℕ, ◌+◌, ◌-◌, ◌*◌, Bool, true, false, ◌&&◌, ◌||◌, not, Option, none, some, List, [], ◌∷◌, ◌++◌,
  map, ltb, leb, ◌==◌, if◌then◌else◌, any, elem, keep, sort_by, sorted, is_some, Result, ok, raise,
  ◌>>=◌, raise_if,
}
use jobtology_be.Quota.{
  WindowUnit, AnalysisBudgetPolicy, Counters, AnalysisBudgetExceeded, reserve_execution, second,
}
use jobtology_be.Recompute.{
  JobKind, recompute, is_recompute, JobState, ready, leased, completed, is_ready, is_leased,
  OutboxJob, RequestState, running, failed_request, is_running, is_open, stale_profile,
  RecomputeRequest, RecomputeContext, Profile, Store, write, Resource, outbox_lease,
  recompute_request, StoreError, conflict, OutboxLease, RecomputeWorkItem, same, earlier, is_live,
}

-- `RECOMPUTE_LEASE_FOR`
abbrev pub recompute_lease_for : ℕ
recompute_lease_for = 300 * second

-- `STALE_RECOMPUTE_BATCH_LIMIT`
abbrev pub stale_recompute_batch_limit : ℕ
stale_recompute_batch_limit = 1000

-- `LIMIT`
unfoldable pub limit_to : {A : Type 0} → ℕ → List A → List A
limit_to n [] = []
limit_to n (x ∷ xs) = if n == 0 then [] else x ∷ limit_to (n - 1) xs

-- A row of the joined tables: the job, its request, the request's context and the owner's profile.
pub record ClaimRow : Type 0 where
  pub job_id : ℕ
  pub job : OutboxJob
  pub request_id : ℕ
  pub request : RecomputeRequest
  pub context : RecomputeContext
  pub profile : Profile

abbrev with_request : Store → ℕ → OutboxJob → ℕ → List ClaimRow
with_request s i j r = elim (s.requests r) [
  | none ↦ []
  | some q ↦ elim (s.contexts r) [
    | none ↦ []
    | some c ↦ elim (s.profiles q.user_id) [
      | none ↦ []
      | some p ↦
          record { job_id = i; job = j; request_id = r; request = q; context = c; profile = p } ∷ []
    ]
  ]
]

pub joined : Store → ℕ → List ClaimRow
joined s i = elim (s.jobs i) [
  | none ↦ []
  | some j ↦ elim j.recompute_request_id [ none ↦ [] | some r ↦ with_request s i j r ]
]

pub joined_rows : Store → List ℕ → List ClaimRow
unfolding joined
joined_rows s [] = []
joined_rows s (i ∷ is) = joined s i ++ joined_rows s is

abbrev eligible : Option (List ℕ) → Option ℕ → Bool
eligible none source = true
eligible (some sources) none = false
eligible (some sources) (some source) = elem source sources

-- `claim_conditions`
abbrev pub claimable : ℕ → Option (List ℕ) → ClaimRow → Bool
claimable now sources row =
    is_recompute row.job.kind
    && is_open row.request.state
    && ((is_ready row.job.state && leb row.job.available_at now)
        || (is_leased row.job.state && earlier row.job.lease_until now))
    && eligible sources row.context.source

abbrev by_job_id : ClaimRow → ClaimRow → Bool
by_job_id a b = leb a.job_id b.job_id

-- `ORDER BY available_at, id`
abbrev pub by_available_at : ClaimRow → ClaimRow → Bool
by_available_at a b =
    ltb a.job.available_at b.job.available_at
    || ((a.job.available_at == b.job.available_at) && leb a.job_id b.job_id)

-- The work of older versions of a profile.
pub stale_rows : (ℕ → Bool) → ℕ → Option (List ℕ) → Store → List ClaimRow
unfolding joined_rows limit_to sort_by
stale_rows locked now sources s = limit_to stale_recompute_batch_limit (
    sort_by by_job_id (
      keep
        (λ row.
          claimable now sources row
          && ltb row.request.profile_version row.profile.version
          && not (locked row.job_id))
        (joined_rows s s.job_ids)))

abbrev pub retire_job : OutboxJob → OutboxJob
retire_job j = record j { state = completed; lease_token = none; lease_until = none }

abbrev pub retire_request : ℕ → RecomputeRequest → RecomputeRequest
retire_request now q = record q {
  state = failed_request;
  error_code = some stale_profile;
  updated_at = now;
}

-- `UPDATE … WHERE id IN (…)`
unfoldable pub update_in : {A : Type 0} → List ℕ → (A → A) → (ℕ → Option A) → ℕ → Option A
update_in ids f table k =
    if elem k ids then elim (table k) [ none ↦ none | some a ↦ some (f a) ] else table k

pub retire_stale : ℕ → List ClaimRow → Store → Store
unfolding update_in
retire_stale now rows s = record s {
  jobs = update_in (map (λ row. row.job_id) rows) retire_job s.jobs;
  requests = update_in (map (λ row. row.request_id) rows) (retire_request now) s.requests;
}

-- The work to claim: of the newest versions, of owners who are there.
pub claim_rows : (ℕ → Bool) → ℕ → Option (List ℕ) → ℕ → Store → List ClaimRow
unfolding joined_rows limit_to sort_by
claim_rows locked now sources limit s = limit_to limit (
    sort_by by_available_at (
      keep
        (λ row.
          claimable now sources row
          && (row.request.profile_version == row.profile.version)
          && s.users row.request.user_id
          && not (locked row.job_id))
        (joined_rows s s.job_ids)))

-- A job that holds a live lease of another request of the same account, whose request runs.
abbrev pub runs_beside : ℕ → Store → ℕ → ℕ → ℕ → Bool
runs_beside now s user_id request_id i = elim (s.jobs i) [
  | none ↦ false
  | some j ↦ is_live now j && elim j.recompute_request_id [
    | none ↦ false
    | some r ↦ elim (s.requests r) [
      | none ↦ false
      | some q ↦ (q.user_id == user_id) && not (r == request_id) && is_running q.state
    ]
  ]
]

pub already_running : ℕ → Store → ℕ → ℕ → Bool
already_running now s user_id request_id = any (runs_beside now s user_id request_id) s.job_ids

-- `UPDATE outbox_jobs … WHERE id = …` to be tried again later.
abbrev pub waiting : ℕ → OutboxJob → OutboxJob
waiting at j = record j { state = ready; lease_token = none; lease_until = none; available_at = at }

pub put_back : ℕ → ℕ → Store → Store
put_back i at s = elim (s.jobs i) [
  | none ↦ s
  | some j ↦ record s { jobs = write i (waiting at j) s.jobs }
]

-- The two updates of a claim, each of which must meet its row.
abbrev pub lease_of : ℕ → ℕ → OutboxJob → OutboxJob
lease_of now token j = record j {
  state = leased;
  lease_token = some token;
  lease_until = some (now + recompute_lease_for);
  attempt_count = j.attempt_count + 1;
}

pub lease_job : ℕ → ℕ → ClaimRow → Store → Result StoreError Store
lease_job now token row s = elim (s.jobs row.job_id) [
  | none ↦ raise (conflict outbox_lease)
  | some j ↦
      if same j.recompute_request_id row.request_id && is_recompute j.kind
      then ok (record s { jobs = write row.job_id (lease_of now token j) s.jobs })
      else raise (conflict outbox_lease)
]

abbrev pub started : ℕ → RecomputeRequest → RecomputeRequest
started now q = record q { state = running; updated_at = now }

pub start_request : ℕ → ClaimRow → Store → Result StoreError Store
start_request now row s = elim (s.requests row.request_id) [
  | none ↦ raise (conflict recompute_request)
  | some q ↦
      if (q.user_id == row.request.user_id)
        && (q.profile_version == row.request.profile_version)
        && is_open q.state
      then ok (record s { requests = write row.request_id (started now q) s.requests })
      else raise (conflict recompute_request)
]

abbrev pub work_item : ℕ → ClaimRow → RecomputeWorkItem
work_item token row = record {
  request_id = row.request_id;
  user_id = row.request.user_id;
  profile_version = row.request.profile_version;
  lease = record {
    job_id = row.job_id;
    lease_token = token;
    kind = row.job.kind;
    payload = row.job.payload;
  };
}

module _ (date_trunc : WindowUnit → ℕ → ℕ) (policy : AnalysisBudgetPolicy) (uuid4 : ℕ → ℕ)
    (now : ℕ) where
  -- The end of a round, from what the budget says.
  pub lease_or_defer :
      ClaimRow
      → Store
      → Result AnalysisBudgetExceeded Counters
      → Result StoreError (List RecomputeWorkItem × Store)
  unfolding put_back lease_job start_request
  lease_or_defer row s (raise retry_after_seconds) =
      ok ([], put_back row.job_id (now + retry_after_seconds * second) s)
  lease_or_defer row s (ok counters) =
      lease_job now (uuid4 row.job_id) row (record s { counters = counters }) >>= λ s₁.
      start_request now row s₁ >>= λ s₂. ok (work_item (uuid4 row.job_id) row ∷ [], s₂)

  -- One round of the loop: the work item, if the job was leased, and the store.
  unfoldable pub claim_row : ClaimRow → Store → Result StoreError (List RecomputeWorkItem × Store)
  unfolding already_running put_back lease_or_defer reserve_execution
  claim_row row s =
      if already_running now s row.request.user_id row.request_id
      then ok ([], put_back row.job_id (now + 5 * second) s)
      else lease_or_defer row s
          (reserve_execution date_trunc row.request.user_id policy now s.counters)

  unfoldable pub claim_each :
      List ClaimRow → Store → Result StoreError (List RecomputeWorkItem × Store)
  unfolding claim_row
  claim_each [] s = ok ([], s)
  claim_each (row ∷ rows) s = do
    here ← claim_row row s
    rest ← claim_each rows here.1
    ok (here.0 ++ rest.0, rest.1)

  unfoldable pub claim_recompute_work :
      (ℕ → Bool) → ℕ → Option (List ℕ) → Store → Result StoreError (List RecomputeWorkItem × Store)
  unfolding stale_rows retire_stale claim_rows claim_each
  claim_recompute_work locked limit sources s =
      let s' = retire_stale now (stale_rows locked now sources s) s in
      claim_each (claim_rows locked now sources limit s') s'
