-- ===== src/Idempotency/Examples.antt =====
-- One request with its record.
use jobtology_be.Common.{ℕ, ◌≡◌, ◌<◌, refl, Bool, true, Option, none, some, Result, ok, raise}
use jobtology_be.Idempotency.{
  Table, IdempotencyAcquire, IdempotencyError, write_row, acquire_idempotency, complete_idempotency,
}
use jobtology_be.Idempotency.Replay.{acquire_idempotency_once}

abbrev request : IdempotencyAcquire
request = record { identity = 4; request_hash = 80; expires_at = 900 }

-- The key has an expired record, of another request.
abbrev old_table : Table
old_table =
    write_row 4 (record { request_hash = 81; response = some (200, 82); expires_at = 100 })
      (λ k. none)

abbrev everywhere : ℕ → Bool
everywhere k = true

abbrev table_of : Result IdempotencyError (Option (ℕ × ℕ) × Table) → Table
table_of (ok r) = r.1
table_of (raise e) = old_table

abbrev new_table : Table
new_table = table_of (acquire_idempotency everywhere 150 150 request old_table)

new_table_run : acquire_idempotency everywhere 150 150 request old_table ≡ ok (none, new_table)
unfolding acquire_idempotency
new_table_run = refl

acquire_idempotency_once_example :
    ((reached' : ℕ → Bool) (db_now' now' : ℕ) (request' : IdempotencyAcquire)
      → request'.identity ≡ 4
      → (e : IdempotencyError) × (acquire_idempotency reached' db_now' now' request' new_table
          ≡ raise e))
    × ((response : ℕ × ℕ)
        → (done : Table) × (complete_idempotency request response new_table ≡ ok done)
          × ((reached' : ℕ → Bool) (db_now' now' : ℕ)
              → db_now' < 900
              → now' < 900
              → (table₃ : Table) × (acquire_idempotency reached' db_now' now' request done
                  ≡ ok (some response, table₃))))
acquire_idempotency_once_example =
    acquire_idempotency_once everywhere 150 150 request old_table new_table new_table_run
