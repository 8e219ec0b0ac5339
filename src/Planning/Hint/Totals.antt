-- ===== src/Planning/Hint/Totals.antt =====
-- Sums over candidates and sums over their allocations (`_add_schedule_hint` of
-- src/jobtology_be/planning/cp_sat_model.py).
use jobtology_be.Common.{
  ℕ, ◌+◌, ◌≤◌, ◌<◌, ◌≡◌, refl, sym, ap, subst, inl, inr, Bool, true, List, [], ◌∷◌, map, keep, elem,
  ◌==◌, ==_iff, if◌then◌else◌, All, All-map, All-both, IsNodup, total, total-le, total-add, arith,
  Bool-cases,
}
use jobtology_be.Planning.Templates.{Candidate}
use jobtology_be.Planning.Hint.{Slot, chosen_for}
use jobtology_be.Planning.Hint.Order.{not-In-All}
use jobtology_be.Planning.Hint.Sublists.{Sub, Rising, index, not-elem_below, Sub-All}
use jobtology_be.Planning.Hint.Invariant.{Allocations, ids_of}

none_of :
    (a : ℕ) (f : Candidate → ℕ) (cs : List Candidate)
    → All (λ d. ¬ (a ≡ d.action_id)) cs
    → total (λ c. if a == c.action_id then f c else 0) cs ≡ 0
none_of a f [] h = refl
none_of a f (c ∷ cs) h = elim (Bool-cases (a == c.action_id)) [
  | inl e ↦ absurd (h.0 ((==_iff a c.action_id).0 e))
  | inr e ↦ rw e (omega (arith, none_of a f cs h.1))
]

-- At most one candidate has an action ID.
at_most_one :
    (a n : ℕ) (f : Candidate → ℕ) (cs : List Candidate)
    → IsNodup (ids_of cs)
    → All (λ c. a ≡ c.action_id → f c ≤ n) cs
    → total (λ c. if a == c.action_id then f c else 0) cs ≤ n
at_most_one a n f [] u h = omega arith
at_most_one a n f (c ∷ cs) u h = elim (Bool-cases (a == c.action_id)) [
  | inl e ↦
      let same = (==_iff a c.action_id).0 e in
      let others =
        subst (λ k. All (λ d. ¬ (k ≡ d.action_id)) cs) (sym same) (not-In-All c.action_id cs u.0) in
      rw e (omega (arith, h.0 same, none_of a f cs others))
  | inr e ↦ rw e (omega (arith, at_most_one a n f cs u.1 h.1))
]

nothing_chosen :
    (g : Candidate → List Slot → ℕ) (cs : List Candidate)
    → ((c : Candidate) → g c [] ≡ 0)
    → total (λ c. g c []) cs ≡ 0
nothing_chosen g [] h = refl
nothing_chosen g (c ∷ cs) h = omega (arith, h c, nothing_chosen g cs h)

-- What each candidate makes of its slots adds up to no more than what the allocations are worth.
pub total-chosen_for :
    (g : Candidate → List Slot → ℕ) (worth : ℕ × List Slot → ℕ) (cs : List Candidate)
    (xs : Allocations)
    → IsNodup (ids_of cs)
    → ((c : Candidate) → g c [] ≡ 0)
    → All (λ x. All (λ c. x.0 ≡ c.action_id → g c x.1 ≤ worth x) cs) xs
    → total (λ c. g c (chosen_for c.action_id xs)) cs ≤ total worth xs
total-chosen_for g worth cs [] u z h = omega (arith, nothing_chosen g cs z)
total-chosen_for g worth cs (x ∷ xs) u z h =
    let own = λ (c : Candidate). if x.0 == c.action_id then g c x.1 else 0 in
    let rest = λ (c : Candidate). g c (chosen_for c.action_id xs) in
    let each =
      total-le (λ c. g c (chosen_for c.action_id (x ∷ xs))) (λ c. own c + rest c) cs
        (everywhere cs) in
    omega (
      arith,
      each,
      total-add own rest cs,
      at_most_one x.0 (worth x) (λ c. g c x.1) cs u h.0,
      total-chosen_for g worth cs xs u z h.1,
    )
  where
    everywhere :
        (ds : List Candidate)
        → All
            (λ c.
              g c (chosen_for c.action_id (x ∷ xs))
              ≤ (if x.0 == c.action_id then g c x.1 else 0) + g c (chosen_for c.action_id xs))
            ds
    everywhere [] = tt
    everywhere (d ∷ ds) = (
      elim (Bool-cases (x.0 == d.action_id)) [
        | inl e ↦ rw e (omega arith)
        | inr e ↦ rw e (omega arith)
      ],
      everywhere ds,
    )

-- A sum over some of the slots is at most the sum over all.
pub total-Sub_le : (f : Slot → ℕ) (xs es : List Slot) → Sub xs es → total f xs ≤ total f es
total-Sub_le f [] es s = omega arith
total-Sub_le f (x ∷ xs) [] s = absurd s
total-Sub_le f (x ∷ xs) (e ∷ es) (inl (q, s)) = omega (arith, ap f q, total-Sub_le f xs es s)
total-Sub_le f (x ∷ xs) (e ∷ es) (inr s) = omega (arith, total-Sub_le f (x ∷ xs) es s)

-- Slots that pass a test are slots of those that pass it.
pub keep-Sub :
    (f : Slot → Bool) (xs es : List Slot)
    → Sub xs es
    → All (λ e. f e ≡ true) xs
    → Sub xs (keep f es)
keep-Sub f [] es s h = tt
keep-Sub f (x ∷ xs) [] s h = absurd s
keep-Sub f (x ∷ xs) (e ∷ es) (inl (q, s)) h =
    let passes : f e ≡ true = subst (λ y. f y ≡ true) q h.0 in
    rw passes (inl (q, keep-Sub f xs es s h.1))
keep-Sub f (x ∷ xs) (e ∷ es) (inr s) h = elim (Bool-cases (f e)) [
  | inl t ↦ rw t (inr (keep-Sub f (x ∷ xs) es s h))
  | inr t ↦ rw t (keep-Sub f (x ∷ xs) es s h)
]

-- A slot of the calendar whose index was picked has what the picked slots have.
pub elem-Sub :
    (P : Slot → Type 0) (xs es : List Slot)
    → Rising es
    → Sub xs es
    → All P xs
    → All (λ e. elem e.0 (map index xs) ≡ true → P e) es
elem-Sub P [] es r s h = nowhere es
  where
    nowhere : (us : List Slot) → All (λ e. elem e.0 [] ≡ true → P e) us
    nowhere [] = tt
    nowhere (u ∷ us) = ((λ e. absurd (cc e)), nowhere us)
elem-Sub P (x ∷ xs) [] r s h = tt
elem-Sub P (x ∷ xs) (e ∷ es) r (inl (q, s)) h = (
  λ _. subst P q h.0,
  All-map (λ u. (e.0 < u.0) × (elem u.0 (map index xs) ≡ true → P u))
      (λ u. elem u.0 (map index (x ∷ xs)) ≡ true → P u) es (λ u k i. k.1 (later u k.0 i))
      (All-both (λ u. e.0 < u.0) (λ u. elem u.0 (map index xs) ≡ true → P u) es r.0
        (elem-Sub P xs es r.1 s h.1)),
)
  where
    later :
        (u : Slot)
        → e.0 < u.0
        → elem u.0 (map index (x ∷ xs)) ≡ true
        → elem u.0 (map index xs) ≡ true
    later u lt i = let same = ap index q in ground (arith, lt, i, same)
elem-Sub P (x ∷ xs) (e ∷ es) r (inr s) h = (
  λ i.
      let below = not-elem_below e.0 (x ∷ xs) (Sub-All (λ y. e.0 < y.0) (x ∷ xs) es s r.0) in
      absurd (cc (below, i)),
  elem-Sub P (x ∷ xs) es r.1 s h,
)
