-- ===== src/Idempotency.antt =====
-- The records of idempotent requests (src/jobtology_be/infrastructure/persistence/idempotency.py). The
-- key of a record, the tuple of account, method, path and key, is one number, and so are a hash and a
-- response. `db_now` is the database's clock, `now` the server's.
pub mod Replay
mod Examples
use jobtology_be.Common.{
  ℕ, Bool, true, false, ◌&&◌, Option, none, some, leb, ◌==◌, if◌then◌else◌, not, is_some, Result,
  ok, raise,
}

-- A row of `idempotency_records`; the response comes with its status.
pub record Row : Type 0 where
  pub request_hash : ℕ
  pub response : Option (ℕ × ℕ)
  pub expires_at : ℕ

abbrev pub Table : Type 0
Table = ℕ → Option Row

pub record IdempotencyAcquire : Type 0 where
  pub identity : ℕ
  pub request_hash : ℕ
  pub expires_at : ℕ

pub data IdempotencyError : Type 0 where
  conflict : IdempotencyError
  in_progress : IdempotencyError
  missing_record : IdempotencyError

-- `response_status IS NOT NULL AND expires_at <= …`
abbrev pub is_expired : ℕ → Option Row → Bool
is_expired now none = false
is_expired now (some row) = is_some row.response && leb row.expires_at now

-- `prune_idempotency_records`; the batch's limit and the locked rows decide which keys it reaches.
unfoldable pub prune : (ℕ → Bool) → ℕ → Table → Table
prune reached db_now table k = if reached k && is_expired db_now (table k) then none else table k

unfoldable pub delete_expired : ℕ → ℕ → Table → Table
delete_expired k now table k' = if (k' == k) && is_expired now (table k') then none else table k'

abbrev pub open_row : IdempotencyAcquire → Row
open_row request = record {
  request_hash = request.request_hash;
  response = none;
  expires_at = request.expires_at;
}

abbrev pub write_row : ℕ → Row → Table → Table
write_row k row table k' = if k' == k then some row else table k'

-- What an existing row answers.
abbrev pub answer : IdempotencyAcquire → Row → Result IdempotencyError (ℕ × ℕ)
answer request row =
    if row.request_hash == request.request_hash
    then elim row.response [ none ↦ raise in_progress | some r ↦ ok r ]
    else raise conflict

abbrev pub answered :
    Result IdempotencyError (ℕ × ℕ) → Table → Result IdempotencyError (Option (ℕ × ℕ) × Table)
answered (raise e) table = raise e
answered (ok r) table = ok (some r, table)

-- The insertion, or the answer of the row that is there.
pub insert_or_answer : IdempotencyAcquire → Table → Result IdempotencyError (Option (ℕ × ℕ) × Table)
insert_or_answer request table = elim (table request.identity) [
  | none ↦ ok (none, write_row request.identity (open_row request) table)
  | some row ↦ answered (answer request row) table
]

-- `acquire_idempotency`: no response says that the request is to be run.
unfoldable pub acquire_idempotency :
    (ℕ → Bool)
    → ℕ
    → ℕ
    → IdempotencyAcquire
    → Table
    → Result IdempotencyError (Option (ℕ × ℕ) × Table)
unfolding prune delete_expired insert_or_answer
acquire_idempotency reached db_now now request table =
    insert_or_answer request (delete_expired request.identity now (prune reached db_now table))

-- `complete_idempotency`
unfoldable pub complete_idempotency :
    IdempotencyAcquire → ℕ × ℕ → Table → Result IdempotencyError Table
complete_idempotency request response table = elim (table request.identity) [
  | none ↦ raise missing_record
  | some row ↦
      if row.request_hash == request.request_hash
      then ok (write_row request.identity (record row { response = some response }) table)
      else raise missing_record
]
