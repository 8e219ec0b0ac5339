-- ===== src/Quota/Examples.antt =====
-- The quotas' theorems at concrete calls.
use jobtology_be.Common.{ℕ, ◌*◌, ◌/◌, ◌≤◌, ◌≡◌, refl, none, List, [], ◌∷◌, arith}
use jobtology_be.Quota.{
  Scope, analysis_compute_minute, Counters, WindowUnit, minute, duration, reserve_budget, consume,
  put,
}
use jobtology_be.Quota.Windows.{
  Call, grants, grants_bounded, Message, allowed_count, allowed_count_bounded,
}

abbrev trunc : WindowUnit → ℕ → ℕ
trunc unit now = now / duration unit * duration unit

abbrev no_counters : Counters
no_counters u s = none

abbrev two_a_window : Scope → ℕ
two_a_window s = 2

abbrev at : ℕ → Call
at now = record { user_id = 7; scope = analysis_compute_minute; unit = minute; now = now }

-- Three calls in one minute, one that waited since the minute before, and one of the next minute.
abbrev calls : List Call
calls = at 60000001 ∷ at 60000002 ∷ at 59999999 ∷ at 60000003 ∷ at 120000000 ∷ []

calls_run : grants trunc two_a_window 7 analysis_compute_minute 60000000 calls no_counters ≡ 2
unfolding grants reserve_budget put
calls_run = refl

grants_bounded_example :
    grants trunc two_a_window 7 analysis_compute_minute 60000000 calls no_counters ≤ 2
grants_bounded_example =
    grants_bounded trunc two_a_window 7 analysis_compute_minute 60000000 calls no_counters
      (omega arith) refl

abbrev message : ℕ → Message
message now = record { user_id = 7; now = now; checked = now }

abbrev messages : List Message
messages = message 60000001 ∷ message 60000002 ∷ message 60000003 ∷ message 60000004 ∷ []

messages_run : allowed_count trunc 2 7 60000000 messages no_counters ≡ 2
unfolding allowed_count consume put
messages_run = refl

allowed_count_bounded_example : allowed_count trunc 2 7 60000000 messages no_counters ≤ 2
allowed_count_bounded_example =
    allowed_count_bounded trunc 2 7 60000000 messages no_counters (omega arith) refl
