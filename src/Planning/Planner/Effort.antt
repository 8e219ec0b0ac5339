-- ===== src/Planning/Planner/Effort.antt =====
-- The hours of a full route are within the capacity, and its shares within its hours
-- (`_full_capacity_possible` of src/jobtology_be/planning/cp_sat_planner.py).
use jobtology_be.Common.{
  ℕ, ◌*◌, ◌≤◌, ◌≡◌, refl, sym, ap, subst, inl, inr, Bool, true, List, [], ◌∷◌, map, keep, keep-In,
  keep-passes, elem, elem→In, In→elem, ltb, ◌==◌, All, All-map, All-In, In, IsNodup, length,
  length-le_of_nodup, bit, total, total-cong, total_one, arith, Bool-cases,
}
use jobtology_be.Planning.Templates.{Candidate}
use jobtology_be.Planning.Problem.{PlanningProblem}
use jobtology_be.Planning.Route.{
  slots_of, week_of_slot, capped_hours, Values, total_hours, Satisfies,
}
use jobtology_be.Planning.Hint.{Slot}
use jobtology_be.Planning.Route.Priorities.{total-mul}
use jobtology_be.Planning.Hint.Sublists.{Sub, Sub-later}
use jobtology_be.Planning.Hint.Feasible.{every}
use jobtology_be.Planning.Hint.Capacity.{in_week, within_capped}
use jobtology_be.Planning.Hint.Earliest.{exchange}

keep-IsNodup : (f : ℕ → Bool) (xs : List ℕ) → IsNodup xs → IsNodup (keep f xs)
keep-IsNodup f [] n = tt
keep-IsNodup f (x ∷ xs) n = elim (Bool-cases (f x)) [
  | inl e ↦ rw e ((λ i. n.0 (keep-In f x xs i)), keep-IsNodup f xs n.1)
  | inr e ↦ rw e (keep-IsNodup f xs n.1)
]

pub In-keep : (f : ℕ → Bool) (k : ℕ) (xs : List ℕ) → In k xs → f k ≡ true → In k (keep f xs)
In-keep f k [] i e = absurd i
In-keep f k (x ∷ xs) (inl same) e =
    let passes : f x ≡ true = subst (λ z. f z ≡ true) same e in rw passes (inl same)
In-keep f k (x ∷ xs) (inr i) e = elim (Bool-cases (f x)) [
  | inl t ↦ rw t (inr (In-keep f k xs i e))
  | inr t ↦ rw t (In-keep f k xs i e)
]

keep-In_passes : (f : ℕ → Bool) (k : ℕ) (xs : List ℕ) → In k (keep f xs) → f k ≡ true
keep-In_passes f k xs i = All-In (λ z. f z ≡ true) (keep f xs) (keep-passes f xs) k i

count-keep : (f : ℕ → Bool) (xs : List ℕ) → total (λ k. bit (f k)) xs ≡ length (keep f xs)
count-keep f [] = refl
count-keep f (x ∷ xs) = elim (Bool-cases (f x)) [
  | inl e ↦ rw e (omega (arith, count-keep f xs))
  | inr e ↦ rw e (omega (arith, count-keep f xs))
]

-- The keys of a set that stand in a list are no more than the list's that stand in the set.
pub common_le :
    (required outcomes : List ℕ)
    → IsNodup required
    → total (λ k. bit (elem k outcomes)) required ≤ length (keep (λ k. elem k required) outcomes)
common_le required outcomes n =
    let inside = keep (λ k. elem k outcomes) required in
    omega (
      arith,
      count-keep (λ k. elem k outcomes) required,
      length-le_of_nodup inside (keep (λ k. elem k required) outcomes)
          (keep-IsNodup (λ k. elem k outcomes) required n)
          (λ k i.
            In-keep (λ z. elem z required) k outcomes
              (elem→In k outcomes (keep-In_passes (λ z. elem z outcomes) k required i))
              (In→elem k required (keep-In (λ z. elem z outcomes) k required i))),
    )

module _ (p : PlanningProblem) (cs : List Candidate) (v : Values) where
  abbrev users_of : Slot → ℕ
  users_of e = total (λ c. bit (v.assigned c.action_id e.0)) cs

  -- Slots in use.
  abbrev in_use : List Slot → List Slot
  in_use = keep (λ e. ltb 0 (users_of e))

  in_use-Sub : (es : List Slot) → Sub (in_use es) es
  in_use-Sub [] = tt
  in_use-Sub (e ∷ es) = elim (Bool-cases (ltb 0 (users_of e))) [
    | inl t ↦ rw t (inl (refl, in_use-Sub es))
    | inr t ↦ rw t (Sub-later e (in_use es) es (in_use-Sub es))
  ]

  -- With at most one user for each slot, a sum over the slots in use is one over the users.
  sum_in_use :
      (f : Slot → ℕ) (es : List Slot)
      → All (λ e. users_of e ≤ 1) es
      → total f (in_use es) ≡ total (λ e. f e * users_of e) es
  sum_in_use f [] h = refl
  sum_in_use f (e ∷ es) h = elim (Bool-cases (ltb 0 (users_of e))) [
    | inl t ↦
        let one : users_of e ≡ 1 = let le = h.0 in ground (arith, t, le) in
        rw t (omega (arith, ap (λ z. f e * z) one, sum_in_use f es h.1))
    | inr t ↦
        let none_at : users_of e ≡ 0 = ground (arith, t) in
        rw t (omega (arith, ap (λ z. f e * z) none_at, sum_in_use f es h.1))
  ]

  pub hours_within :
      (require : Bool)
      → Satisfies p cs require v
      → total_hours cs v
        ≤ capped_hours p.constraints.available_hours_per_week (map week_of_slot (slots_of p))
  unfolding total_hours
  hours_within require s =
      let single = every (λ e. users_of e ≤ 1) (slots_of p) (λ e. s.one_at_a_time e.0) in
      let hours =
        total-cong (λ c. c.estimated_hours * bit (v.selected c.action_id))
          (λ c. total (λ e. bit (v.assigned c.action_id e.0)) (slots_of p)) cs
          (All-map
            (λ c.
              total (λ e. bit (v.assigned c.action_id e.0)) (slots_of p)
              ≡ c.estimated_hours * bit (v.selected c.action_id))
            (λ c.
              c.estimated_hours * bit (v.selected c.action_id)
              ≡ total (λ e. bit (v.assigned c.action_id e.0)) (slots_of p))
            cs (λ c e. sym e) s.hours_assigned) in
      let swapped =
        exchange (λ (c : Candidate) (e : Slot). bit (v.assigned c.action_id e.0)) cs (slots_of p) in
      let once =
        total-cong users_of (λ e. 1 * users_of e) (slots_of p)
          (every (λ e. users_of e ≡ 1 * users_of e) (slots_of p) (λ e. omega arith)) in
      let used = in_use (slots_of p) in
      omega (
        arith,
        hours,
        swapped,
        once,
        sum_in_use (λ e. 1) (slots_of p) single,
        total_one used,
        within_capped p.constraints.available_hours_per_week used (slots_of p)
            (in_use-Sub (slots_of p)) (weekly s single),
      )
    where
      weekly :
          Satisfies p cs require v
          → All (λ e. users_of e ≤ 1) (slots_of p)
          → (w : ℕ) → in_week w (in_use (slots_of p)) ≤ p.constraints.available_hours_per_week
      weekly s' single w =
          let by_slot = sum_in_use (λ e. bit (week_of_slot e == w)) (slots_of p) single in
          let swapped =
            exchange
              (λ (c : Candidate) (e : Slot).
                bit (week_of_slot e == w) * bit (v.assigned c.action_id e.0))
              cs (slots_of p) in
          let inside =
            total-cong (λ e. bit (week_of_slot e == w) * users_of e)
              (λ e. total (λ c. bit (week_of_slot e == w) * bit (v.assigned c.action_id e.0)) cs)
              (slots_of p)
              (every _ (slots_of p) (λ e. sym (
                total-mul (bit (week_of_slot e == w)) (λ c. bit (v.assigned c.action_id e.0))
                  cs))) in
          omega (arith, by_slot, swapped, inside, s'.within_week w)
