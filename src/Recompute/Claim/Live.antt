-- ===== src/Recompute/Claim/Live.antt =====
-- What makes a lease live in the claim of work (`claim_recompute_work` of
-- src/jobtology_be/infrastructure/persistence/outbox.py).
use jobtology_be.Common.{
  ℕ, ◌≡◌, refl, sym, ap, ◌∙◌, subst, ◌⊎◌, inl, inr, ◌≢◌, Bool, true, false, ◌&&◌, Option, some,
  List, [], ◌∷◌, ◌==◌, any, elem, In, arith, Bool-cases, Option-cases, ==_iff, Result, ok, raise,
  ◌>>=◌,
}
use mathlib.Core.Option.{some-injective}
use jobtology_be.Quota.{Counters}
use jobtology_be.Recompute.{
  is_recompute, OutboxJob, RecomputeRequest, is_running, is_open, Store, write, StoreError, same,
  is_live,
}
use jobtology_be.Recompute.Claim.{
  ClaimRow, update_in, runs_beside, already_running, waiting, put_back, lease_of, lease_job,
  started, start_request,
}

-- A job that holds a live lease, with its running request.
pub record IsLive (now : ℕ) (s : Store) (i r : ℕ) (q : RecomputeRequest) : Type 0 where
  pub job : OutboxJob
  pub at : s.jobs i ≡ some job
  pub live : is_live now job ≡ true
  pub of_request : job.recompute_request_id ≡ some r
  pub request_at : s.requests r ≡ some q
  pub runs : is_running q.state ≡ true

-- Two live leases of one account are of one request, and the listed keys are all keys.
pub record IsExclusive (now : ℕ) (s : Store) : Type 0 where
  pub one_request :
      (i r : ℕ) (q : RecomputeRequest) (i' r' : ℕ) (q' : RecomputeRequest)
      → IsLive now s i r q
      → IsLive now s i' r' q'
      → q.user_id ≡ q'.user_id
      → r ≡ r'
  pub listed : (i : ℕ) (j : OutboxJob) → s.jobs i ≡ some j → In i s.job_ids

pub write-cases :
    {A : Type 0} (k : ℕ) (a : A) (table : ℕ → Option A) (k' : ℕ) (b : A)
    → write k a table k' ≡ some b
    → ((k' ≡ k) × (a ≡ b)) ⊎ ((k' ≢ k) × (table k' ≡ some b))
write-cases k a table k' b e = elim (Bool-cases (k' == k)) [
  | inl p ↦ inl ((==_iff k' k).0 p, some-injective a b (rw p at e))
  | inr p ↦ inr (λ q. ground arith, rw p at e)
]

pub update_in-cases :
    {A : Type 0} (ids : List ℕ) (f : A → A) (table : ℕ → Option A) (k : ℕ) (b : A)
    → update_in ids f table k ≡ some b
    → ((a : A) × (table k ≡ some a) × (f a ≡ b)) ⊎ (table k ≡ some b)
unfolding update_in
update_in-cases ids f table k b e = elim (Bool-cases (elem k ids)) [
  | inl p ↦ elim (Option-cases (table k)) [
    | inl q ↦ inr (absurd (cc (rw (p, q, update_in) at e)))
    | inr (a, q) ↦ inl (a, q, some-injective (f a) b (rw (p, q, update_in) at e))
  ]
  | inr p ↦ inr (rw (p, update_in) at e)
]

any-In : (p : ℕ → Bool) (i : ℕ) (xs : List ℕ) → In i xs → any p xs ≡ false → p i ≡ false
any-In p i [] h none_passes = absurd h
any-In p i (x ∷ xs) (inl e) none_passes = elim (Bool-cases (p x)) [
  | inl t ↦ absurd (cc (rw t at none_passes))
  | inr f ↦ subst (λ y. p y ≡ false) (sym e) f
]
any-In p i (x ∷ xs) (inr h) none_passes = elim (Bool-cases (p x)) [
  | inl t ↦ absurd (cc (rw t at none_passes))
  | inr f ↦ any-In p i xs h (rw f at none_passes)
]

pub put_back_lem :
    (i at : ℕ) (s : Store) (j : OutboxJob)
    → s.jobs i ≡ some j
    → put_back i at s ≡ record s { jobs = write i (waiting at j) s.jobs }
unfolding put_back
put_back_lem i at s j e = rw (e, put_back) refl

-- Putting a job back makes no job live.
pub put_back-IsLive :
    (now i at : ℕ) (s : Store) (i' r : ℕ) (q : RecomputeRequest)
    → IsLive now (put_back i at s) i' r q
    → IsLive now s i' r q
unfolding put_back
put_back-IsLive now i at s i' r q l = elim (Option-cases (s.jobs i)) [
  | inl e ↦ subst (λ s'. IsLive now s' i' r q) (rw (e, put_back) refl) l
  | inr (j, e) ↦
      let l' = subst (λ s'. IsLive now s' i' r q) (put_back_lem i at s j e) l in
      elim (write-cases i (waiting at j) s.jobs i' l'.job l'.at) [
        | inl (p, a) ↦ absurd (cc (subst (λ x. is_live now x ≡ true) (sym a) l'.live))
        | inr (p, a) ↦ record {
          job = l'.job;
          at = a;
          live = l'.live;
          of_request = l'.of_request;
          request_at = l'.request_at;
          runs = l'.runs;
        }
      ]
]

-- The account's other live jobs are of the request that is to run.
pub not_running :
    (now : ℕ) (s : Store) (u r i' r' : ℕ) (q : RecomputeRequest)
    → ((i : ℕ) (j : OutboxJob) → s.jobs i ≡ some j → In i s.job_ids)
    → already_running now s u r ≡ false
    → IsLive now s i' r' q
    → q.user_id ≡ u
    → r' ≡ r
unfolding already_running
not_running now s u r i' r' q listed free l same_user = elim (Bool-cases (r' == r)) [
  | inl e ↦ (==_iff r' r).0 e
  | inr e ↦
      let beside : runs_beside now s u r i' ≡ true =
        rw (l.at, l.of_request, l.request_at, runs_beside)
          (rw (l.live, same_user, l.runs, e) (ground arith)) in
      let alone = any-In (runs_beside now s u r) i' s.job_ids (listed i' l.job l.at) free in
      absurd (cc (beside, alone))
]

-- What the two updates of a claim leave, with what their `WHERE` has checked.
pub record IsClaimed (now token : ℕ) (row : ClaimRow) (s s' : Store) : Type 0 where
  pub job : OutboxJob
  pub request : RecomputeRequest
  pub job_at : s.jobs row.job_id ≡ some job
  pub of_request : same job.recompute_request_id row.request_id ≡ true
  pub same_user : (request.user_id == row.request.user_id) ≡ true
  pub job_ids_kept : s'.job_ids ≡ s.job_ids
  pub jobs_written : s'.jobs ≡ write row.job_id (lease_of now token job) s.jobs
  pub requests_written : s'.requests ≡ write row.request_id (started now request) s.requests

abbrev pub Claimed : ℕ → ℕ → ClaimRow → Store → Result StoreError Store → Type 0
Claimed now token row s (ok s') = IsClaimed now token row s s'
Claimed now token row s (raise e) = Unit

started-Claimed :
    (now token : ℕ) (row : ClaimRow) (s : Store) (c : Counters) (j : OutboxJob)
    → s.jobs row.job_id ≡ some j
    → same j.recompute_request_id row.request_id ≡ true
    → Claimed now token row s (
        start_request now row
          (record s { counters = c; jobs = write row.job_id (lease_of now token j) s.jobs }))
unfolding start_request
started-Claimed now token row s c j at own = elim (Option-cases (s.requests row.request_id)) [
  | inl e ↦ rw (e, start_request) tt
  | inr (q, e) ↦ elim (Bool-cases (q.user_id == row.request.user_id)) [
    | inr f ↦ rw (e, start_request, f) tt
    | inl f ↦
        elim (Bool-cases ((q.profile_version == row.request.profile_version) && is_open q.state)) [
          | inr g ↦ rw (e, start_request, f, g) tt
          | inl g ↦
              rw (e, start_request, f, g)
                (record {
                  job = j;
                  request = q;
                  job_at = at;
                  of_request = own;
                  same_user = f;
                  job_ids_kept = refl;
                  jobs_written = refl;
                  requests_written = refl;
                })
        ]
  ]
]

pub leased-Claimed :
    (now token : ℕ) (row : ClaimRow) (s : Store) (c : Counters)
    → Claimed now token row s
        (lease_job now token row (record s { counters = c }) >>= λ s₁. start_request now row s₁)
unfolding lease_job
leased-Claimed now token row s c = elim (Option-cases (s.jobs row.job_id)) [
  | inl e ↦ rw (e, lease_job) tt
  | inr (j, e) ↦ elim (Bool-cases (same j.recompute_request_id row.request_id)) [
    | inr f ↦ rw (e, lease_job, f) tt
    | inl f ↦ elim (Bool-cases (is_recompute j.kind)) [
      | inr g ↦ rw (e, lease_job, f, g) tt
      | inl g ↦ rw (e, lease_job, f, g) (started-Claimed now token row s c j e f)
    ]
  ]
]

-- A job that is live after a claim is of the claimed request, or it was live before.
pub IsClaimed-IsLive :
    (now token : ℕ) (row : ClaimRow) (s s' : Store) (i r : ℕ) (q : RecomputeRequest)
    → IsClaimed now token row s s'
    → IsLive now s' i r q
    → ((r ≡ row.request_id) × (q.user_id ≡ row.request.user_id)) ⊎ IsLive now s i r q
IsClaimed-IsLive now token row s s' i r q c l =
    let at : write row.job_id (lease_of now token c.job) s.jobs i ≡ some l.job =
      subst (λ f. f i ≡ some l.job) c.jobs_written l.at in
    let request_at : write row.request_id (started now c.request) s.requests r ≡ some q =
      subst (λ f. f r ≡ some q) c.requests_written l.request_at in
    elim (write-cases row.request_id (started now c.request) s.requests r q request_at) [
      | inl (p, a) ↦ inl (
        p,
        ap (λ x. x.user_id) (sym a) ∙ (==_iff c.request.user_id row.request.user_id).0 c.same_user,
      )
      | inr (p, a) ↦ elim (write-cases row.job_id (lease_of now token c.job) s.jobs i l.job at) [
        | inr (o, b) ↦ inr (record {
          job = l.job;
          at = b;
          live = l.live;
          of_request = l.of_request;
          request_at = a;
          runs = l.runs;
        })
        | inl (o, b) ↦
            let own : same (some r) row.request_id ≡ true =
              subst (λ x. same x row.request_id ≡ true)
                (ap (λ x. x.recompute_request_id) b ∙ l.of_request) c.of_request in
            absurd (p ((==_iff r row.request_id).0 own))
      ]
    ]
