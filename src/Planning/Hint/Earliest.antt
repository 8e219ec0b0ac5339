-- ===== src/Planning/Hint/Earliest.antt =====
-- As many hours as are assigned have to elapse first: the redundant bound of `_add_objective`
-- (src/jobtology_be/planning/cp_sat_model.py), of a valid list schedule.
use jobtology_be.Common.{
  ℕ, suc, ◌+◌, ◌-◌, ◌*◌, ◌≤◌, ◌<◌, ◌≡◌, refl, sym, ap, ◌∙◌, inl, inr, Bool, true, List, [], ◌∷◌,
  map, ltb, elem, ◌==◌, ==_iff, if◌then◌else◌, All, All-map, IsNodup, length, bit, total,
  total-cong, total-le, total-add, total_zero, total_one, maximum, maximum-le, enumerate, arith,
  Bool-cases,
}
use jobtology_be.Planning.Templates.{Candidate}
use jobtology_be.Planning.Calendar.{PlanningSlot}
use jobtology_be.Planning.Problem.{PlanningProblem}
use jobtology_be.Planning.Route.{
  slots_of, from_start, completion, route_completion, total_hours, end_before,
}
use jobtology_be.Planning.Hint.{Slot, Schedule, hinted}
use jobtology_be.Planning.Hint.Sublists.{index}
use jobtology_be.Planning.Hint.Timed.{Timed}
use jobtology_be.Planning.Hint.Invariant.{ids_of, IsValid}
use jobtology_be.Planning.Hint.Valid.{
  slots_for, is_selected, is_assigned, Decided, decided, hours_of,
}
use jobtology_be.Planning.Hint.Feasible.{every, one_at_a_time_of}

pub exchange :
    {A B : Type 0} (f : A → B → ℕ) (xs : List A) (ys : List B)
    → total (λ x. total (f x) ys) xs ≡ total (λ y. total (λ x. f x y) xs) ys
exchange f [] ys = sym (total_zero ys)
exchange f (x ∷ xs) ys =
    omega (arith, exchange f xs ys, total-add (f x) (λ y. total (λ z. f z y) xs) ys)

le-maximum : {A : Type 0} (xs : List A) → All (λ x. (f : A → ℕ) → f x ≤ maximum f xs) xs
le-maximum [] = tt
le-maximum (x ∷ xs) = (
  (λ f. omega arith),
  All-map (λ y. (f : _ → ℕ) → f y ≤ maximum f xs) (λ y. (f : _ → ℕ) → f y ≤ maximum f (x ∷ xs)) xs
      (λ y h f. omega (arith, h f)) (le-maximum xs),
)

-- One of the candidates that count has at least the value.
reached :
    (m : ℕ) (f : Candidate → Bool) (g : Candidate → ℕ) (cs : List Candidate)
    → All (λ c. f c ≡ true → m ≤ g c) cs
    → 1 ≤ total (λ c. bit (f c)) cs
    → m ≤ maximum g cs
reached m f g [] h k = absurd (omega (arith, k))
reached m f g (c ∷ cs) h k = elim (Bool-cases (f c)) [
  | inl e ↦ omega (arith, h.0 e)
  | inr e ↦
      let k' : 1 ≤ 0 + total (λ d. bit (f d)) cs = rw e at k in
      omega (arith, reached m f g cs h.1 (omega (arith, k')))
]

module _ (target : ℕ) (used : ℕ → Bool) (bound : ℕ) where
  abbrev Bounded : Slot → Type 0
  Bounded e = used e.0 ≡ true → e.1.ends_at ≤ bound

  abbrev count : List Slot → ℕ
  count es = total (λ e. bit (used e.0)) es

  some_used :
      (t i : ℕ) (ss : List PlanningSlot)
      → Timed t target ss
      → All Bounded (enumerate i ss)
      → 1 ≤ count (enumerate i ss)
      → t ≤ bound
  some_used t i [] c h k = absurd (omega (arith, k))
  some_used t i (s ∷ ss) c h k =
      let first = c.0 in
      let lasts = c.1 in
      elim (Bool-cases (used i)) [
        | inl e ↦ omega (arith, first, lasts, h.0 e)
        | inr e ↦
            let k' : 1 ≤ 0 + count (enumerate (suc i) ss) = rw e at k in
            omega (arith, first, lasts, some_used s.ends_at (suc i) ss c.3 h.1 (omega (arith, k')))
      ]

  -- The n-th slot ends by the bound, where n slots are used.
  nth_slot :
      (t i n : ℕ) (ss : List PlanningSlot)
      → Timed t target ss
      → All Bounded (enumerate i ss)
      → n ≤ count (enumerate i ss)
      → All (λ e. e.0 < i + n → e.1.ends_at ≤ bound) (enumerate i ss)
  nth_slot t i n [] c h k = tt
  nth_slot t i n (s ∷ ss) c h k = elim (Bool-cases (used i)) [
    | inl e ↦
        let k' : n ≤ 1 + count (enumerate (suc i) ss) = rw e at k in
        (
          (λ lt. h.0 e),
          All-map (λ u. u.0 < suc i + (n - 1) → u.1.ends_at ≤ bound)
              (λ u. u.0 < i + n → u.1.ends_at ≤ bound) (enumerate (suc i) ss)
              (λ u f lt. f (omega (arith, lt)))
              (nth_slot s.ends_at (suc i) (n - 1) ss c.3 h.1 (omega (arith, k'))),
        )
    | inr e ↦
        let k' : n ≤ 0 + count (enumerate (suc i) ss) = rw e at k in
        (
          (λ lt. some_used s.ends_at (suc i) ss c.3 h.1 (omega (arith, k', lt))),
          All-map (λ u. u.0 < suc i + n → u.1.ends_at ≤ bound)
              (λ u. u.0 < i + n → u.1.ends_at ≤ bound) (enumerate (suc i) ss)
              (λ u f lt. f (omega (arith, lt)))
              (nth_slot s.ends_at (suc i) n ss c.3 h.1 (omega (arith, k'))),
        )
  ]

module _ (p : PlanningProblem) (cs : List Candidate) (s : Schedule) (n : IsNodup (ids_of cs))
    (positive : All (λ c. 1 ≤ c.estimated_hours) cs) (v : IsValid p cs s) where
  abbrev users : ℕ → ℕ
  users i = total (λ c. bit (elem i (map index (slots_for p cs s c)))) cs

  total_hours-users : total_hours cs (hinted s) ≡ total (λ e. users e.0) (slots_of p)
  unfolding total_hours hinted
  total_hours-users =
      let needed = λ (c : Candidate). c.estimated_hours * bit (is_selected p cs s c) in
      let assigned = λ (c : Candidate). total (λ e. bit (is_assigned p cs s c e)) (slots_of p) in
      total-cong needed assigned cs (
        All-map (Decided p cs s n positive v) (λ c. needed c ≡ assigned c) cs
          (λ c d. sym (hours_of p cs s n positive v c d)) (decided p cs s n positive v))
      ∙ exchange (λ c e. bit (is_assigned p cs s c e)) cs (slots_of p)

  length-enumerate : (i : ℕ) (ss : List PlanningSlot) → length (enumerate i ss) ≡ length ss
  length-enumerate i [] = refl
  length-enumerate i (t ∷ ts) = ap suc (length-enumerate (suc i) ts)

  pub hours_in_calendar_of : total_hours cs (hinted s) ≤ length p.calendar
  hours_in_calendar_of =
      let each =
        total-le (λ e. users e.0) (λ e. 1) (slots_of p)
          (every (λ e. users e.0 ≤ 1) (slots_of p)
            (λ e. one_at_a_time_of p cs s n positive v e.0)) in
      omega (arith, total_hours-users, each, total_one (slots_of p), length-enumerate 0 p.calendar)

  -- An assigned slot ends by the completion of the route.
  assigned_ends :
      All
        (λ e.
          ltb 0 (users e.0) ≡ true → from_start p e.1.ends_at ≤ route_completion p cs (hinted s))
        (slots_of p)
  unfolding route_completion completion hinted
  assigned_ends =
      let done_by =
        λ (c : Candidate) (e : Slot). from_start p e.1.ends_at * bit (is_assigned p cs s c e) in
      let completed = λ (c : Candidate). maximum (done_by c) (slots_of p) in
      All-map (λ e. (f : Slot → ℕ) → f e ≤ maximum f (slots_of p))
        (λ e. ltb 0 (users e.0) ≡ true → from_start p e.1.ends_at ≤ maximum completed cs)
        (slots_of p)
        (λ e h some_users.
          reached (from_start p e.1.ends_at) (λ c. is_assigned p cs s c e) completed cs
            (every (λ c. is_assigned p cs s c e ≡ true → from_start p e.1.ends_at ≤ completed c) cs
              (λ c assigned.
                let at_least = h (done_by c) in
                let whole : from_start p e.1.ends_at * 1 ≤ completed c = rw assigned at at_least in
                omega (arith, whole)))
            (ground (arith, some_users)))
        (le-maximum (slots_of p))

  hours_used :
      total (λ e. users e.0) (slots_of p) ≤ total (λ e. bit (ltb 0 (users e.0))) (slots_of p)
  hours_used =
      total-le (λ e. users e.0) (λ e. bit (ltb 0 (users e.0))) (slots_of p)
        (every (λ e. users e.0 ≤ bit (ltb 0 (users e.0))) (slots_of p)
          (λ e. at_most_bit (users e.0) (one_at_a_time_of p cs s n positive v e.0)))
    where
      at_most_bit : (k : ℕ) → k ≤ 1 → k ≤ bit (ltb 0 k)
      at_most_bit k h = elim (Bool-cases (ltb 0 k)) [
        | inl e ↦ rw e h
        | inr e ↦ rw e (ground (arith, e))
      ]

  pub earliest_of :
      Timed p.planning_started_at.instant p.constraints.target_by p.calendar
      → end_before p (total_hours cs (hinted s)) ≤ route_completion p cs (hinted s)
  earliest_of timed =
      let hours = total_hours cs (hinted s) in
      let whole = route_completion p cs (hinted s) in
      let start = p.planning_started_at.instant in
      let ends =
        All-map (λ e. ltb 0 (users e.0) ≡ true → from_start p e.1.ends_at ≤ whole)
          (λ e. ltb 0 (users e.0) ≡ true → e.1.ends_at ≤ whole + start) (slots_of p)
          (λ e h u. omega (arith, h u)) assigned_ends in
      let nth =
        nth_slot p.constraints.target_by (λ i. ltb 0 (users i)) (whole + start) start 0 hours
          p.calendar timed ends (omega (arith, total_hours-users, hours_used)) in
      maximum-le (λ e. if e.0 + 1 == hours then from_start p e.1.ends_at else 0) whole (slots_of p)
        (All-map (λ e. e.0 < 0 + hours → e.1.ends_at ≤ whole + start)
          (λ e. (if e.0 + 1 == hours then from_start p e.1.ends_at else 0) ≤ whole) (slots_of p)
          (λ e h. last_hour e h) nth)
    where
      last_hour :
          (e : Slot)
          → (e.0 < 0 + total_hours cs (hinted s)
              → e.1.ends_at ≤ route_completion p cs (hinted s) + p.planning_started_at.instant)
          → (if e.0 + 1 == total_hours cs (hinted s) then from_start p e.1.ends_at else 0)
            ≤ route_completion p cs (hinted s)
      last_hour e h = elim (Bool-cases (e.0 + 1 == total_hours cs (hinted s))) [
        | inl t ↦
            let same = (==_iff (e.0 + 1) (total_hours cs (hinted s))).0 t in
            rw t (omega (arith, h (omega (arith, same))))
        | inr t ↦ rw t (omega arith)
      ]
