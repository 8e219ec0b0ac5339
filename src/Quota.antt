-- ===== src/Quota.antt =====
-- The quotas of an account: the budgets of new analyses and of solver runs
-- (src/jobtology_be/infrastructure/persistence/compute_budget.py) and the chat quota
-- (src/jobtology_be/infrastructure/persistence/rate_limit.py). Both keep one counter per account
-- and scope, in fixed windows. Instants are numbers of microseconds.
pub mod Windows
mod Examples
use jobtology_be.Common.{
  ℕ, ◌+◌, ◌-◌, ◌*◌, ◌/◌, max, min, Bool, ◌&&◌, ◌||◌, Option, none, some, ltb, leb, ◌==◌,
  if◌then◌else◌, Result, ok, raise, ◌>>=◌, ◌>>◌, raise_if, is_some, List, [], ◌∷◌,
}

-- A row of `account_rate_limits`, without its key.
pub record Counter : Type 0 where
  pub window_started_at : ℕ
  pub request_count : ℕ

-- The scopes of a counter, as numbers.
abbrev pub Scope : Type 0
Scope = ℕ

abbrev pub chat : Scope
chat = 0

abbrev pub analysis_request_hour : Scope
analysis_request_hour = 1

abbrev pub analysis_compute_hour : Scope
analysis_compute_hour = 2

abbrev pub analysis_compute_minute : Scope
analysis_compute_minute = 3

-- `account_rate_limits`: at most one row for an account and a scope.
abbrev pub Counters : Type 0
Counters = ℕ → Scope → Option Counter

unfoldable pub put : ℕ → Scope → Counter → Counters → Counters
put u s c counters = λ u' s'. if (u' == u) && (s' == s) then some c else counters u' s'

-- The units of a window; the source refuses any other text.
pub data WindowUnit : Type 0 where
  minute : WindowUnit
  hour : WindowUnit

abbrev pub second : ℕ
second = 1000000

abbrev pub duration : WindowUnit → ℕ
duration minute = 60 * second
duration hour = 3600 * second

-- `max(1, ceil((window_started_at + duration - now).total_seconds()))`; an end in the past makes
-- it 1 in the source as here.
unfoldable pub retry_after : ℕ → ℕ → ℕ → ℕ
retry_after started length now = max 1 ((started + length - now + (second - 1)) / second)

-- What `ON CONFLICT DO UPDATE` leaves of a row, where its `WHERE` lets it.
abbrev pub budget_conflict : ℕ → ℕ → Counter → Option Counter
budget_conflict limit bucket c =
    if (ltb c.window_started_at bucket) || (ltb c.request_count limit)
    then some (record {
      window_started_at = max c.window_started_at bucket;
      request_count = if ltb c.window_started_at bucket then 1 else c.request_count + 1;
    })
    else none

-- The row that the statement returns, if it writes one.
unfoldable pub budget_row : ℕ → ℕ → Option Counter → Option Counter
budget_row limit bucket none = some (record { window_started_at = bucket; request_count = 1 })
budget_row limit bucket (some c) = budget_conflict limit bucket c

abbrev pub AnalysisBudgetExceeded : Type 0
AnalysisBudgetExceeded = ℕ

pub record AnalysisBudgetPolicy : Type 0 where
  pub requests_per_hour : ℕ
  pub executions_per_hour : ℕ
  pub executions_per_minute : ℕ

pub record RateLimitDecision : Type 0 where
  pub allowed : Bool
  pub retry_after_seconds : ℕ

-- The row that the chat quota's statement leaves.
unfoldable pub chat_row : ℕ → ℕ → Option Counter → Counter
chat_row limit bucket none = record { window_started_at = bucket; request_count = 1 }
chat_row limit bucket (some c) = record {
  window_started_at = max c.window_started_at bucket;
  request_count = if ltb c.window_started_at bucket then 1 else min c.request_count limit + 1;
}

-- PostgreSQL's `date_trunc` is a parameter.
module _ (date_trunc : WindowUnit → ℕ → ℕ) where
  -- `reserve_budget` at an instant of the database's clock. The error carries the seconds to wait.
  unfoldable pub reserve_budget :
      ℕ → Scope → ℕ → WindowUnit → ℕ → Counters → Result AnalysisBudgetExceeded Counters
  unfolding budget_row
  reserve_budget u s limit unit now counters =
      elim (budget_row limit (date_trunc unit now) (counters u s)) [
        | some c ↦ ok (put u s c counters)
        | none ↦ elim (counters u s) [
          | some c ↦ raise (retry_after c.window_started_at (duration unit) now)
          | none ↦ raise 1
        ]
      ]

  pub reserve_request :
      ℕ → AnalysisBudgetPolicy → ℕ → Counters → Result AnalysisBudgetExceeded Counters
  unfolding reserve_budget
  reserve_request u policy now counters =
      reserve_budget u analysis_request_hour policy.requests_per_hour hour now counters

  unfoldable pub reserve_execution :
      ℕ → AnalysisBudgetPolicy → ℕ → Counters → Result AnalysisBudgetExceeded Counters
  unfolding reserve_budget
  reserve_execution u policy now counters =
      reserve_budget u analysis_compute_hour policy.executions_per_hour hour now counters
      >>= λ counters'.
          reserve_budget u analysis_compute_minute policy.executions_per_minute minute now counters'

  -- `PostgresAccountRateLimiter.consume`, where the database answers. The decision reads the clock
  -- again (`checked`).
  unfoldable pub consume : ℕ → ℕ → ℕ → ℕ → Counters → RateLimitDecision × Counters
  unfolding chat_row
  consume limit u now checked counters =
      let row = chat_row limit (date_trunc minute now) (counters u chat) in
      let decision : RateLimitDecision = record {
        allowed = leb row.request_count limit;
        retry_after_seconds = retry_after row.window_started_at (duration minute) checked;
      } in
      (decision, put u chat row counters)
