-- ===== src/Recompute/Claim/Exclusive.antt =====
-- An account's recompute work runs one request at a time (`claim_recompute_work` of
-- src/jobtology_be/infrastructure/persistence/outbox.py).
use jobtology_be.Common.{
  ℕ, ◌+◌, ◌*◌, ◌≡◌, refl, sym, ◌∙◌, subst, inl, inr, Bool, true, false, Option, some, List, [], ◌∷◌,
  ◌++◌, map, In, Bool-cases, Option-cases, Result-cases, Result, ok, raise, ◌>>=◌,
}
use jobtology_be.Quota.{
  WindowUnit, AnalysisBudgetPolicy, Counters, AnalysisBudgetExceeded, reserve_execution, second,
}
use jobtology_be.Recompute.{
  OutboxJob, RecomputeRequest, is_running, Store, write, StoreError, RecomputeWorkItem, is_live,
}
use jobtology_be.Recompute.Claim.{
  ClaimRow, retire_job, retire_request, retire_stale, already_running, waiting, put_back, lease_of,
  lease_job, start_request, lease_or_defer, stale_rows, claim_rows, work_item, claim_row,
  claim_each, claim_recompute_work,
}
use jobtology_be.Recompute.Claim.Live.{
  IsLive, IsExclusive, write-cases, update_in-cases, put_back_lem, put_back-IsLive, not_running,
  IsClaimed, Claimed, leased-Claimed, IsClaimed-IsLive,
}

-- A write under a key that has a row leaves the listed keys complete.
write-listed :
    (k : ℕ) (a : OutboxJob) (s : Store) (i : ℕ) (j b : OutboxJob)
    → ((i : ℕ) (j : OutboxJob) → s.jobs i ≡ some j → In i s.job_ids)
    → s.jobs k ≡ some b
    → write k a s.jobs i ≡ some j
    → In i s.job_ids
write-listed k a s i j b listed at e = elim (write-cases k a s.jobs i j e) [
  | inl (p, q) ↦ subst (λ x. In x s.job_ids) (sym p) (listed k b at)
  | inr (p, q) ↦ listed i j q
]

IsClaimed-IsExclusive :
    (now token : ℕ) (row : ClaimRow) (s s' : Store)
    → IsExclusive now s
    → already_running now s row.request.user_id row.request_id ≡ false
    → IsClaimed now token row s s'
    → IsExclusive now s'
IsClaimed-IsExclusive now token row s s' x free c =
    let alone = λ (i r : ℕ) (q : RecomputeRequest).
      not_running now s row.request.user_id row.request_id i r q x.listed free in
    record {
      one_request = λ i r q i' r' q' l l' e. elim (IsClaimed-IsLive now token row s s' i r q c l) [
        | inl (a, b) ↦ elim (IsClaimed-IsLive now token row s s' i' r' q' c l') [
          | inl (a', b') ↦ a ∙ sym a'
          | inr k' ↦ a ∙ sym (alone i' r' q' k' (sym e ∙ b))
        ]
        | inr k ↦ elim (IsClaimed-IsLive now token row s s' i' r' q' c l') [
          | inl (a', b') ↦ alone i r q k (e ∙ b') ∙ sym a'
          | inr k' ↦ x.one_request i r q i' r' q' k k' e
        ]
      ];
      listed = λ i j e.
          subst (λ is. In i is) (sym c.job_ids_kept)
            (write-listed row.job_id (lease_of now token c.job) s i j c.job x.listed c.job_at
              (subst (λ f. f i ≡ some j) c.jobs_written e));
    }

put_back-IsExclusive :
    (now i at : ℕ) (s : Store) → IsExclusive now s → IsExclusive now (put_back i at s)
unfolding put_back
put_back-IsExclusive now i at s x = elim (Option-cases (s.jobs i)) [
  | inl e ↦ subst (IsExclusive now) (sym (rw (e, put_back) refl)) x
  | inr (j, e) ↦ record {
    one_request = λ k r q k' r' q' l l' same_user.
        x.one_request k r q k' r' q' (put_back-IsLive now i at s k r q l)
          (put_back-IsLive now i at s k' r' q' l') same_user;
    listed = λ k j' a.
        let e' = put_back_lem i at s j e in
        subst (λ s'. In k s'.job_ids) (sym e')
          (write-listed i (waiting at j) s k j' j x.listed e
            (subst (λ s'. s'.jobs k ≡ some j') e' a));
  }
]

retire_stale-IsLive :
    (now : ℕ) (rows : List ClaimRow) (s : Store) (i r : ℕ) (q : RecomputeRequest)
    → IsLive now (retire_stale now rows s) i r q
    → IsLive now s i r q
unfolding retire_stale
retire_stale-IsLive now rows s i r q l =
    elim (update_in-cases (map (λ row. row.job_id) rows) retire_job s.jobs i l.job l.at) [
      | inl (j, e, a) ↦ absurd (cc (subst (λ x. is_live now x ≡ true) (sym a) l.live))
      | inr e ↦
          elim (update_in-cases (map (λ row. row.request_id) rows) (retire_request now) s.requests r
            q l.request_at) [
              | inl (p, f, a) ↦ absurd (cc (subst (λ x. is_running x.state ≡ true) (sym a) l.runs))
              | inr f ↦ record {
                job = l.job;
                at = e;
                live = l.live;
                of_request = l.of_request;
                request_at = f;
                runs = l.runs;
              }
            ]
    ]

retire_stale-IsExclusive :
    (now : ℕ) (rows : List ClaimRow) (s : Store)
    → IsExclusive now s
    → IsExclusive now (retire_stale now rows s)
unfolding retire_stale
retire_stale-IsExclusive now rows s x = record {
  one_request = λ k r q k' r' q' l l' same_user.
      x.one_request k r q k' r' q' (retire_stale-IsLive now rows s k r q l)
        (retire_stale-IsLive now rows s k' r' q' l') same_user;
  listed = λ k j e. elim (update_in-cases (map (λ row. row.job_id) rows) retire_job s.jobs k j e) [
    | inl (j', a, b) ↦ x.listed k j' a
    | inr a ↦ x.listed k j a
  ];
}

-- What a claim that does not raise leaves.
abbrev pub Kept : ℕ → Result StoreError (List RecomputeWorkItem × Store) → Type 0
Kept now (ok r) = IsExclusive now r.1
Kept now (raise e) = Unit

Claimed-Kept :
    (now token : ℕ) (row : ClaimRow) (s : Store) (items : List RecomputeWorkItem)
    (m : Result StoreError Store) (f : Store → Result StoreError Store)
    → IsExclusive now s
    → already_running now s row.request.user_id row.request_id ≡ false
    → Claimed now token row s (m >>= f)
    → Kept now (m >>= λ s₁. f s₁ >>= λ s₂. ok (items, s₂))
Claimed-Kept now token row s items (raise e) f x free c = tt
Claimed-Kept now token row s items (ok s₁) f x free c = kept (f s₁) c
  where
    kept :
        (n : Result StoreError Store)
        → Claimed now token row s n
        → Kept now (n >>= λ s₂. ok (items, s₂))
    kept (raise e) c = tt
    kept (ok s₂) c = IsClaimed-IsExclusive now token row s s₂ x free c

module _ (date_trunc : WindowUnit → ℕ → ℕ) (policy : AnalysisBudgetPolicy) (uuid4 : ℕ → ℕ)
    (now : ℕ) where
  lease_or_defer-Kept :
      (row : ClaimRow) (s : Store) (budget : Result AnalysisBudgetExceeded Counters)
      → IsExclusive now s
      → already_running now s row.request.user_id row.request_id ≡ false
      → Kept now (lease_or_defer date_trunc policy uuid4 now row s budget)
  unfolding lease_or_defer
  lease_or_defer-Kept row s (raise seconds) x free =
      put_back-IsExclusive now row.job_id (now + seconds * second) s x
  lease_or_defer-Kept row s (ok counters) x free =
      Claimed-Kept now (uuid4 row.job_id) row s (work_item (uuid4 row.job_id) row ∷ [])
        (lease_job now (uuid4 row.job_id) row (record s { counters = counters }))
        (λ s₁. start_request now row s₁) x free
        (leased-Claimed now (uuid4 row.job_id) row s counters)

  Kept-map :
      (items : List RecomputeWorkItem) (m : Result StoreError (List RecomputeWorkItem × Store))
      → Kept now m
      → Kept now (m >>= λ rest. ok (items ++ rest.0, rest.1))
  Kept-map items (ok r) k = k
  Kept-map items (raise e) k = tt

  claim_row-Kept :
      (row : ClaimRow) (s : Store)
      → IsExclusive now s
      → Kept now (claim_row date_trunc policy uuid4 now row s)
  unfolding claim_row
  claim_row-Kept row s x =
      elim (Bool-cases (already_running now s row.request.user_id row.request_id)) [
        | inl e ↦ rw (e, claim_row) (put_back-IsExclusive now row.job_id (now + 5 * second) s x)
        | inr e ↦
            rw (e, claim_row)
              (lease_or_defer-Kept row s
                (reserve_execution date_trunc row.request.user_id policy now s.counters) x e)
      ]

  claim_each-Kept :
      (rows : List ClaimRow) (s : Store)
      → IsExclusive now s
      → Kept now (claim_each date_trunc policy uuid4 now rows s)
  unfolding claim_each
  claim_each-Kept [] s x = x
  claim_each-Kept (row ∷ rows) s x =
      elim (Result-cases (claim_row date_trunc policy uuid4 now row s)) [
        | inl (e, raised) ↦ rw (raised, claim_each) tt
        | inr (here, found) ↦
            let y : IsExclusive now here.1 = subst (Kept now) found (claim_row-Kept row s x) in
            rw (found, claim_each)
              (Kept-map here.0 (claim_each date_trunc policy uuid4 now rows here.1)
                (claim_each-Kept rows here.1 y))
      ]

  -- In every store where at most one request of each account holds live leases, this is so after a
  -- claim too, whatever rows are locked and whatever the limit, the sources and the budgets are.
  pub claim_recompute_work-IsExclusive :
      (locked : ℕ → Bool) (limit : ℕ) (sources : Option (List ℕ)) (s : Store)
      → IsExclusive now s
      → Kept now (claim_recompute_work date_trunc policy uuid4 now locked limit sources s)
  unfolding claim_recompute_work
  claim_recompute_work-IsExclusive locked limit sources s x =
      let s' = retire_stale now (stale_rows locked now sources s) s in
      claim_each-Kept (claim_rows locked now sources limit s') s'
        (retire_stale-IsExclusive now (stale_rows locked now sources s) s x)
