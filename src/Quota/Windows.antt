-- ===== src/Quota/Windows.antt =====
-- How many calls a quota (compute_budget.py and rate_limit.py of
-- src/jobtology_be/infrastructure/persistence) grants in one window.
use jobtology_be.Common.{
  ℕ, ◌+◌, ◌-◌, ◌≤◌, ◌≡◌, refl, subst, ◌⊎◌, inl, inr, true, false, ◌&&◌, Option, none, some, List,
  [], ◌∷◌, ltb, leb, ◌==◌, if◌then◌else◌, arith, Bool-cases, Option-cases, ==_iff, ok, raise,
}
use jobtology_be.Quota.{
  Counter, Scope, chat, Counters, put, WindowUnit, minute, duration, retry_after, budget_row,
  reserve_budget, chat_row, consume, RateLimitDecision,
}

-- What a window may still grant, from the row of its counter; the windows before the row's one are
-- closed.
abbrev room : ℕ → ℕ → Option Counter → ℕ
room w limit none = limit
room w limit (some c) =
    if ltb w c.window_started_at
    then 0
    else if w == c.window_started_at
    then limit - c.request_count
    else limit

-- The window of a row is the one that is counted.
abbrev pub hit : ℕ → Option Counter → ℕ
hit w none = 0
hit w (some c) = if c.window_started_at == w then 1 else 0

budget_row-room :
    (limit b w : ℕ) (o : Option Counter) (c : Counter)
    → 1 ≤ limit
    → budget_row limit b o ≡ some c
    → hit w (some c) + room w limit (some c) ≤ room w limit o
unfolding budget_row
budget_row-room limit b w none c h e = ground arith
budget_row-room limit b w (some d) c h e = ground arith

chat_row-room :
    (limit b w : ℕ) (o : Option Counter)
    → 1 ≤ limit
    → let c = chat_row limit b o in
      (if leb c.request_count limit then hit w (some c) else 0) + room w limit (some c)
      ≤ room w limit o
unfolding chat_row
chat_row-room limit b w none h = ground arith
chat_row-room limit b w (some d) h = ground arith

-- Two keys are the same or the test says no.
key_cases :
    (u s u' s' : ℕ)
    → ((u' ≡ u) × (s' ≡ s) × (((u' == u) && (s' == s)) ≡ true)) ⊎ (((u' == u) && (s' == s)) ≡ false)
key_cases u s u' s' = elim (Bool-cases (u' == u)) [
  | inl e ↦ elim (Bool-cases (s' == s)) [
    | inl f ↦ inl ((==_iff u' u).0 e, (==_iff s' s).0 f, rw (e, f) refl)
    | inr f ↦ inr (rw (e, f) refl)
  ]
  | inr e ↦ inr (rw e refl)
]

-- A call of `reserve_budget`: the account, the scope, the unit and the instant.
pub record Call : Type 0 where
  pub user_id : ℕ
  pub scope : Scope
  pub unit : WindowUnit
  pub now : ℕ

-- Of a sequence of calls, with one limit for each scope, how many the counter of an account and a
-- scope grants in a window. A refused call changes no counter.
module _ (date_trunc : WindowUnit → ℕ → ℕ) (limit_of : Scope → ℕ) (u : ℕ) (s : Scope) (w : ℕ) where
  abbrev granted : Call → Counters → ℕ
  granted c counters = if (u == c.user_id) && (s == c.scope) then hit w (counters u s) else 0

  unfoldable pub grants : List Call → Counters → ℕ
  grants [] counters = 0
  grants (c ∷ cs) counters =
      elim (reserve_budget date_trunc c.user_id c.scope (limit_of c.scope) c.unit c.now counters) [
        | raise e ↦ grants cs counters
        | ok counters' ↦ granted c counters' + grants cs counters'
      ]

-- A call is refused, or it writes the row that it may.
reserve_cases :
    (date_trunc : WindowUnit → ℕ → ℕ) (u : ℕ) (s : Scope) (limit : ℕ) (unit : WindowUnit) (now : ℕ)
    (counters : Counters)
    → ((e : ℕ) × (reserve_budget date_trunc u s limit unit now counters ≡ raise e))
      ⊎ ((c : Counter) × (budget_row limit (date_trunc unit now) (counters u s) ≡ some c)
          × (reserve_budget date_trunc u s limit unit now counters ≡ ok (put u s c counters)))
unfolding reserve_budget
reserve_cases date_trunc u s limit unit now counters =
    elim (Option-cases (budget_row limit (date_trunc unit now) (counters u s))) [
      | inl e ↦ elim (Option-cases (counters u s)) [
        | inl none_here ↦ inl (1, rw (e, none_here, reserve_budget) refl)
        | inr (c, some_here) ↦ inl (
          retry_after c.window_started_at (duration unit) now,
          rw (e, some_here, reserve_budget) refl,
        )
      ]
      | inr (c, e) ↦ inr (c, e, rw (e, reserve_budget) refl)
    ]

-- What one written row leaves to grant.
granted-room :
    (date_trunc : WindowUnit → ℕ → ℕ) (limit_of : Scope → ℕ) (u : ℕ) (s : Scope) (w : ℕ) (c : Call)
    (row : Counter) (counters : Counters)
    → 1 ≤ limit_of s
    → budget_row (limit_of c.scope) (date_trunc c.unit c.now) (counters c.user_id c.scope)
      ≡ some row
    → let counters' = put c.user_id c.scope row counters in
      granted date_trunc limit_of u s w c counters' + room w (limit_of s) (counters' u s)
      ≤ room w (limit_of s) (counters u s)
unfolding put
granted-room date_trunc limit_of u s w c row counters h e = elim (key_cases c.user_id c.scope u s) [
  | inl (p, q, same) ↦
      rw (same, p, q)
        (budget_row-room (limit_of c.scope) (date_trunc c.unit c.now) w (counters c.user_id c.scope)
          row (subst (λ x. 1 ≤ limit_of x) q h) e)
  | inr other ↦ rw other (omega arith)
]

grants-room :
    (date_trunc : WindowUnit → ℕ → ℕ) (limit_of : Scope → ℕ) (u : ℕ) (s : Scope) (w : ℕ)
    (cs : List Call) (counters : Counters)
    → 1 ≤ limit_of s
    → grants date_trunc limit_of u s w cs counters ≤ room w (limit_of s) (counters u s)
unfolding grants
grants-room date_trunc limit_of u s w [] counters h = omega arith
grants-room date_trunc limit_of u s w (c ∷ cs) counters h =
    elim (reserve_cases date_trunc c.user_id c.scope (limit_of c.scope) c.unit c.now counters) [
      | inl (e, refused) ↦
          rw (refused, grants) (grants-room date_trunc limit_of u s w cs counters h)
      | inr (row, e, written) ↦
          let counters' = put c.user_id c.scope row counters in
          rw (written, grants)
            (omega (
              arith,
              granted-room date_trunc limit_of u s w c row counters h e,
              grants-room date_trunc limit_of u s w cs counters' h,
            ))
    ]

-- Whatever calls come, at whatever instants and in whatever order: of a scope with a positive limit,
-- an account with no counter yet is granted at most the limit in each window.
pub grants_bounded :
    (date_trunc : WindowUnit → ℕ → ℕ) (limit_of : Scope → ℕ) (u : ℕ) (s : Scope) (w : ℕ)
    (cs : List Call) (counters : Counters)
    → 1 ≤ limit_of s
    → counters u s ≡ none
    → grants date_trunc limit_of u s w cs counters ≤ limit_of s
grants_bounded date_trunc limit_of u s w cs counters h new =
    subst (λ o. grants date_trunc limit_of u s w cs counters ≤ room w (limit_of s) o) new
      (grants-room date_trunc limit_of u s w cs counters h)

-- A chat message: the account, and the instants of the two readings of the clock.
pub record Message : Type 0 where
  pub user_id : ℕ
  pub now : ℕ
  pub checked : ℕ

-- Of a sequence of messages, how many of an account the quota allows in a window.
module _ (date_trunc : WindowUnit → ℕ → ℕ) (limit : ℕ) (u : ℕ) (w : ℕ) where
  abbrev allowed_here : Message → RateLimitDecision × Counters → ℕ
  allowed_here m r = if (u == m.user_id) && r.0.allowed then hit w (r.1 u chat) else 0

  unfoldable pub allowed_count : List Message → Counters → ℕ
  allowed_count [] counters = 0
  allowed_count (m ∷ ms) counters =
      let r = consume date_trunc limit m.user_id m.now m.checked counters in
      allowed_here m r + allowed_count ms r.1

allowed-room :
    (date_trunc : WindowUnit → ℕ → ℕ) (limit u w : ℕ) (m : Message) (counters : Counters)
    → 1 ≤ limit
    → let r = consume date_trunc limit m.user_id m.now m.checked counters in
      allowed_here date_trunc limit u w m r + room w limit (r.1 u chat)
      ≤ room w limit (counters u chat)
unfolding consume put
allowed-room date_trunc limit u w m counters h = elim (Bool-cases (u == m.user_id)) [
  | inl e ↦
      let same = (==_iff u m.user_id).0 e in
      rw (e, same) (chat_row-room limit (date_trunc minute m.now) w (counters m.user_id chat) h)
  | inr e ↦ rw e (omega arith)
]

allowed_count-room :
    (date_trunc : WindowUnit → ℕ → ℕ) (limit u w : ℕ) (ms : List Message) (counters : Counters)
    → 1 ≤ limit
    → allowed_count date_trunc limit u w ms counters ≤ room w limit (counters u chat)
unfolding allowed_count
allowed_count-room date_trunc limit u w [] counters h = omega arith
allowed_count-room date_trunc limit u w (m ∷ ms) counters h =
    let r = consume date_trunc limit m.user_id m.now m.checked counters in
    omega (
      arith,
      allowed-room date_trunc limit u w m counters h,
      allowed_count-room date_trunc limit u w ms r.1 h,
    )

-- Whatever messages come, at whatever instants and in whatever order: with a positive limit, an
-- account with no counter yet is allowed at most the limit in each window, of all its sessions.
pub allowed_count_bounded :
    (date_trunc : WindowUnit → ℕ → ℕ) (limit u w : ℕ) (ms : List Message) (counters : Counters)
    → 1 ≤ limit
    → counters u chat ≡ none
    → allowed_count date_trunc limit u w ms counters ≤ limit
allowed_count_bounded date_trunc limit u w ms counters h new =
    subst (λ o. allowed_count date_trunc limit u w ms counters ≤ room w limit o) new
      (allowed_count-room date_trunc limit u w ms counters h)
