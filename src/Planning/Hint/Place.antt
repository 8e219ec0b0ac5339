-- ===== src/Planning/Hint/Place.antt =====
-- A round of the list schedule keeps what holds of it (`_add_schedule_hint` of
-- src/jobtology_be/planning/cp_sat_model.py).
use jobtology_be.Common.{
  ℕ, ◌+◌, ◌≤◌, ◌≡◌, refl, sym, subst, inl, inr, true, false, ◌||◌, Option, none, some, List, [],
  ◌∷◌, ◌++◌, map, keep, elem, is_some, ltb, leb, ◌==◌, ==_iff, All, All-map, keep-passes, IsNodup,
  length, bit, total, arith, Bool-cases,
}
use mathlib.Core.Option.{some-injective}
use jobtology_be.Planning.Templates.{Candidate}
use jobtology_be.Planning.Problem.{PlanningProblem, known_cost}
use jobtology_be.Planning.Route.{is_available, availability_of, slots_of, week_of_slot, is_unknown}
use jobtology_be.Planning.Hint.{
  Slot, Schedule, find, after_slots, earliest, is_ready, too_costly, is_open, choose_for,
  allocate_slots, place,
}
use jobtology_be.Planning.Hint.Sublists.{Sub, Sub-All, Sub-keep, index}
use jobtology_be.Planning.Hint.Choose.{choose-Sub, choose-All, choose-week}
use jobtology_be.Planning.Hint.Invariant.{
  Allocations, Member, ids_of, cost_of_lem, Before, IsEntry, IsValid, ready_prerequisites,
}

elem-append : (i : ℕ) (xs ys : List ℕ) → elem i (xs ++ ys) ≡ (elem i xs || elem i ys)
elem-append i [] ys = refl
elem-append i (x ∷ xs) ys = ground (arith, elem-append i xs ys)

-- Indices that are not used are not among the used ones.
fresh_elem :
    (i : ℕ) (used : List ℕ) (xs : List Slot)
    → All (λ e. elem e.0 used ≡ false) xs
    → bit (elem i (map index xs)) + bit (elem i used) ≤ bit (elem i (map index xs) || elem i used)
fresh_elem i used [] h = omega arith
fresh_elem i used (x ∷ xs) h = elim (Bool-cases (i == x.0)) [
  | inl e ↦
      let absent : elem i used ≡ false =
        subst (λ k. elem k used ≡ false) (sym ((==_iff i x.0).0 e)) h.0 in
      rw (e, absent) (omega arith)
  | inr e ↦ rw e (fresh_elem i used xs h.1)
]

find_other :
    (a b : ℕ) (xs : List Slot) (older : Allocations)
    → ¬ (b ≡ a)
    → find a older ≡ none
    → find a ((b, xs) ∷ older) ≡ none
find_other a b xs older ne h = elim (Bool-cases (b == a)) [
  | inl e ↦ absurd (ne ((==_iff b a).0 e))
  | inr e ↦ rw e h
]

affordable :
    (o : Option ℕ) (spent : ℕ) (c : Candidate)
    → too_costly o spent c.cost ≡ false
    → (is_some o ≡ true → is_unknown c.cost ≡ false)
      × ((cap : ℕ) → o ≡ some cap → spent + known_cost c.cost ≤ cap)
affordable none spent c h = (λ e. absurd (cc e), λ cap e. absurd (cc e))
affordable (some n) spent c h = elim (Bool-cases (is_unknown c.cost)) [
  | inl u ↦ absurd (cc (rw u at h))
  | inr u ↦
      let within : spent + known_cost c.cost ≤ n =
        let over : ltb n (spent + known_cost c.cost) ≡ false = rw u at h in ground (arith, over) in
      (λ e. u, λ cap e. subst (λ k. spent + known_cost c.cost ≤ k) (some-injective n cap e) within)
]

-- The slots that a round chooses.
module _ (p : PlanningProblem) (s : Schedule) (c : Candidate) where
  chosen-picked :
      Sub (choose_for p s c) (slots_of p)
      × All (λ e. earliest s.allocations c ≤ e.0) (choose_for p s c)
  unfolding choose_for
  chosen-picked =
      let behind = λ (e : Slot). leb (earliest s.allocations c) e.0 in
      let late = keep behind (slots_of p) in
      let sub =
        choose-Sub (is_open p s c) p.constraints.available_hours_per_week c.estimated_hours 0
          s.weekly late in
      (
        Sub-keep behind (choose_for p s c) (slots_of p) sub,
        All-map (λ e. behind e ≡ true) (λ e. earliest s.allocations c ≤ e.0) (choose_for p s c)
            (λ e h. ground (arith, h))
            (Sub-All (λ e. behind e ≡ true) (choose_for p s c) late sub
              (keep-passes behind (slots_of p))),
      )

  chosen_open : All (λ e. is_open p s c e ≡ true) (choose_for p s c)
  unfolding choose_for
  chosen_open =
      choose-All (is_open p s c) p.constraints.available_hours_per_week c.estimated_hours 0 s.weekly
        (keep (λ e. leb (earliest s.allocations c) e.0) (slots_of p))

  chosen_within :
      (w : ℕ)
      → s.weekly w ≤ p.constraints.available_hours_per_week
      → total (λ e. bit (week_of_slot e == w)) (choose_for p s c) + s.weekly w
        ≤ p.constraints.available_hours_per_week
  unfolding choose_for
  chosen_within w h =
      choose-week (is_open p s c) p.constraints.available_hours_per_week c.estimated_hours 0
        s.weekly (keep (λ e. leb (earliest s.allocations c) e.0) (slots_of p)) w h

module _ (p : PlanningProblem) (cs : List Candidate) (s : Schedule) (c : Candidate) where
  -- The entry that a round adds.
  new-IsEntry :
      Member c cs
      → is_ready s.allocations c ≡ true
      → too_costly p.constraints.max_out_of_pocket_krw s.spent c.cost ≡ false
      → length (choose_for p s c) ≡ c.estimated_hours
      → IsEntry p cs c.action_id (choose_for p s c) s.allocations
  new-IsEntry m ready cheap full = record {
    owner = c;
    owned = m;
    named = refl;
    picked = (chosen-picked p s c).0;
    available =
        All-map (λ e. is_open p s c e ≡ true)
          (λ e. is_available e.1 (availability_of p c.action_id) ≡ true) (choose_for p s c)
          (λ e h. ground (arith, h)) (chosen_open p s c);
    hours = full;
    cost_known = (affordable p.constraints.max_out_of_pocket_krw s.spent c cheap).0;
    behind =
        All-map
          (λ q.
            (ys : List Slot) × (find q s.allocations ≡ some ys)
            × (after_slots ys ≤ earliest s.allocations c))
          (Before p cs s.allocations (choose_for p s c)) c.prerequisite_action_ids
          (λ q h. (
            h.0,
            h.1,
            All-map (λ e. earliest s.allocations c ≤ e.0) (λ e. after_slots h.0 ≤ e.0)
                (choose_for p s c) (λ e k. let bound = h.2 in omega (arith, bound, k))
                (chosen-picked p s c).1,
          ))
          (ready_prerequisites s.allocations (earliest s.allocations c) c.prerequisite_action_ids
            ready (omega arith));
  }

  allocate_slots-IsValid :
      IsNodup (ids_of cs)
      → Member c cs
      → find c.action_id s.allocations ≡ none
      → is_ready s.allocations c ≡ true
      → too_costly p.constraints.max_out_of_pocket_krw s.spent c.cost ≡ false
      → length (choose_for p s c) ≡ c.estimated_hours
      → IsValid p cs s
      → IsValid p cs (allocate_slots c (choose_for p s c) s)
  allocate_slots-IsValid n m new ready cheap full v = record {
    entries = (new-IsEntry m ready cheap full, new, v.entries);
    apart = λ i. rw (elem-append i (map index (choose_for p s c)) s.used) (
        omega (
          arith,
          v.apart i,
          fresh_elem i s.used (choose_for p s c) (
              All-map (λ e. is_open p s c e ≡ true) (λ e. elem e.0 s.used ≡ false)
                (choose_for p s c) (λ e h. ground (arith, h)) (chosen_open p s c)),
        ));
    weeks = λ w. omega (arith, v.weeks w);
    within = λ w. chosen_within p s c w (v.within w);
    money = omega (arith, v.money, cost_of_lem c cs n m);
    capped = (affordable p.constraints.max_out_of_pocket_krw s.spent c cheap).1;
  }

  pub place-IsValid :
      IsNodup (ids_of cs)
      → Member c cs
      → find c.action_id s.allocations ≡ none
      → is_ready s.allocations c ≡ true
      → IsValid p cs s
      → IsValid p cs (place p c s)
  unfolding place
  place-IsValid n m new ready v =
      elim (Bool-cases (too_costly p.constraints.max_out_of_pocket_krw s.spent c.cost)) [
        | inl t ↦ rw t v
        | inr cheap ↦ elim (Bool-cases (length (choose_for p s c) == c.estimated_hours)) [
          | inl full ↦
              rw (cheap, full)
                (allocate_slots-IsValid n m new ready cheap
                  ((==_iff (length (choose_for p s c)) c.estimated_hours).0 full) v)
          | inr full ↦ rw (cheap, full) v
        ]
      ]

  -- Only the candidate of the round can become allocated.
  pub place-find :
      (a : ℕ)
      → ¬ (c.action_id ≡ a)
      → find a s.allocations ≡ none
      → find a ((place p c s).allocations) ≡ none
  unfolding place
  place-find a ne h =
      elim (Bool-cases (too_costly p.constraints.max_out_of_pocket_krw s.spent c.cost)) [
        | inl t ↦ rw t h
        | inr cheap ↦ elim (Bool-cases (length (choose_for p s c) == c.estimated_hours)) [
          | inl full ↦
              rw (cheap, full) (find_other a c.action_id (choose_for p s c) s.allocations ne h)
          | inr full ↦ rw (cheap, full) h
        ]
      ]
