-- ===== src/Idempotency/Replay.antt =====
-- A request runs once, and later ones are answered by its response
-- (src/jobtology_be/infrastructure/persistence/idempotency.py).
use jobtology_be.Common.{
  ℕ, ◌≡◌, refl, sym, ap, ◌∙◌, subst, inl, inr, ◌<◌, Bool, true, false, none, some, ◌==◌, Bool-cases,
  Option-cases, ==_iff, arith, Result, ok, raise, ok-inj,
}
use mathlib.Core.Option.{none-ne-some}
use jobtology_be.Idempotency.{
  Row, Table, IdempotencyAcquire, IdempotencyError, conflict, in_progress, is_expired, prune,
  delete_expired, open_row, write_row, answer, answered, insert_or_answer, acquire_idempotency,
  complete_idempotency,
}

-- A row that has not expired at either clock is still there for the insertion.
row_kept :
    (reached : ℕ → Bool) (db_now now k : ℕ) (table : Table) (row : Row)
    → table k ≡ some row
    → is_expired db_now (some row) ≡ false
    → is_expired now (some row) ≡ false
    → delete_expired k now (prune reached db_now table) k ≡ some row
unfolding prune delete_expired
row_kept reached db_now now k table row at a b =
    let self : (k == k) ≡ true = (==_iff k k).1 refl in
    elim (Bool-cases (reached k)) [
      | inl e ↦ rw (delete_expired, self, prune, e, at, a, b) refl
      | inr e ↦ rw (delete_expired, self, prune, e, at, b) refl
    ]

-- What an acquisition does with a row that has not expired.
acquire-row :
    (reached : ℕ → Bool) (db_now now : ℕ) (request : IdempotencyAcquire) (table : Table) (row : Row)
    → table request.identity ≡ some row
    → is_expired db_now (some row) ≡ false
    → is_expired now (some row) ≡ false
    → acquire_idempotency reached db_now now request table
      ≡ answered
          (answer request row)
          (delete_expired request.identity now (prune reached db_now table))
unfolding acquire_idempotency insert_or_answer
acquire-row reached db_now now request table row at a b =
    let kept = row_kept reached db_now now request.identity table row at a b in
    rw (acquire_idempotency, insert_or_answer, kept) refl

not_new :
    (r : Result IdempotencyError (ℕ × ℕ)) (table table' : Table)
    → ¬ (answered r table ≡ ok (none, table'))
not_new (raise e) table table' h = cc h
not_new (ok r) table table' h =
    none-ne-some r (sym (ap (λ x. x.0) (ok-inj (some r, table) (none, table') h)))

-- A request that is to be run has its row, with no response yet.
acquire-open_row :
    (reached : ℕ → Bool) (db_now now : ℕ) (request : IdempotencyAcquire) (table table' : Table)
    → acquire_idempotency reached db_now now request table ≡ ok (none, table')
    → table' request.identity ≡ some (open_row request)
unfolding acquire_idempotency insert_or_answer
acquire-open_row reached db_now now request table table' e =
    let k = request.identity in
    let cleared = delete_expired k now (prune reached db_now table) in
    let self : (k == k) ≡ true = (==_iff k k).1 refl in
    elim (Option-cases (cleared k)) [
      | inl n ↦
          let p =
            ok-inj (none, write_row k (open_row request) cleared) (none, table')
              (rw (acquire_idempotency, insert_or_answer, n) at e) in
          subst (λ t. t k ≡ some (open_row request)) (ap (λ x. x.1) p) (rw self refl)
      | inr (row, f) ↦ absurd (
          not_new (answer request row) cleared table'
            (rw (acquire_idempotency, insert_or_answer, f) at e))
    ]

-- The row of a request that runs keeps every other request with its key away, at whatever instants.
open_row-raises :
    (reached : ℕ → Bool) (db_now now : ℕ) (request request' : IdempotencyAcquire) (table : Table)
    → request'.identity ≡ request.identity
    → table request.identity ≡ some (open_row request)
    → (e : IdempotencyError) × (acquire_idempotency reached db_now now request' table ≡ raise e)
open_row-raises reached db_now now request request' table same at =
    let here = subst (λ k. table k ≡ some (open_row request)) (sym same) at in
    let cleared = delete_expired request'.identity now (prune reached db_now table) in
    let found = acquire-row reached db_now now request' table (open_row request) here refl refl in
    elim (Bool-cases (request.request_hash == request'.request_hash)) [
      | inl e ↦ (in_progress, found ∙ rw e refl)
      | inr e ↦ (conflict, found ∙ rw e refl)
    ]

-- A completed row answers its own request until it expires.
completed-replays :
    (reached : ℕ → Bool) (db_now now : ℕ) (request : IdempotencyAcquire) (response : ℕ × ℕ)
    (table : Table)
    → table request.identity ≡ some (record (open_row request) { response = some response })
    → db_now < request.expires_at
    → now < request.expires_at
    → (table' : Table) × (acquire_idempotency reached db_now now request table
        ≡ ok (some response, table'))
completed-replays reached db_now now request response table at h h' =
    let row : Row = record (open_row request) { response = some response } in
    let cleared = delete_expired request.identity now (prune reached db_now table) in
    let found = acquire-row reached db_now now request table row at (ground arith) (ground arith) in
    let self : (request.request_hash == request.request_hash) ≡ true =
      (==_iff request.request_hash request.request_hash).1 refl in
    (cleared, found ∙ rw self refl)

-- Once a request is to be run: until it is completed, every acquisition of its key is refused, at
-- whatever instants; it can be completed; and after that, until the record expires at both clocks, the
-- request is answered by the response, without another run.
pub acquire_idempotency_once :
    (reached : ℕ → Bool) (db_now now : ℕ) (request : IdempotencyAcquire) (table table' : Table)
    → acquire_idempotency reached db_now now request table ≡ ok (none, table')
    → ((reached' : ℕ → Bool) (db_now' now' : ℕ) (request' : IdempotencyAcquire)
        → request'.identity ≡ request.identity
        → (e : IdempotencyError) × (acquire_idempotency reached' db_now' now' request' table'
            ≡ raise e))
      × ((response : ℕ × ℕ)
          → (done : Table) × (complete_idempotency request response table' ≡ ok done)
            × ((reached' : ℕ → Bool) (db_now' now' : ℕ)
                → db_now' < request.expires_at
                → now' < request.expires_at
                → (table₃ : Table) × (acquire_idempotency reached' db_now' now' request done
                    ≡ ok (some response, table₃))))
unfolding complete_idempotency
acquire_idempotency_once reached db_now now request table table' e =
    let at = acquire-open_row reached db_now now request table table' e in
    let self : (request.identity == request.identity) ≡ true =
      (==_iff request.identity request.identity).1 refl in
    let own : (request.request_hash == request.request_hash) ≡ true =
      (==_iff request.request_hash request.request_hash).1 refl in
    (
      λ reached' db_now' now' request' same.
          open_row-raises reached' db_now' now' request request' table' same at,
      λ response.
          let row : Row = record (open_row request) { response = some response } in
          let done : Table = write_row request.identity row table' in
          (
            done,
            rw (at, complete_idempotency, own) refl,
            λ reached' db_now' now' h h'.
                completed-replays reached' db_now' now' request response done (rw self refl) h h',
          ),
    )
