-- ===== src/Planning/Hint/Invariant.antt =====
-- What holds of a list schedule in every round (`_add_schedule_hint` of
-- src/jobtology_be/planning/cp_sat_model.py).
use jobtology_be.Common.{
  ℕ, ◌≤◌, ◌≡◌, refl, sym, ap, ◌∙◌, subst, inl, inr, true, false, none, some, List, [], ◌∷◌, map,
  all, elem, is_some, ◌==◌, ==_iff, if◌then◌else◌, All, Any, In, IsNodup, length, bit, total,
  maximum, arith, Bool-cases, Option-cases, max,
}
use mathlib.Core.Option.{some-injective}
use jobtology_be.Planning.Templates.{Candidate}
use jobtology_be.Planning.Problem.{PlanningProblem, known_cost}
use jobtology_be.Planning.Route.{is_available, availability_of, slots_of, week_of_slot, is_unknown}
use jobtology_be.Planning.Hint.{Slot, Schedule, find, chosen_for, after_slots}
use jobtology_be.Planning.Hint.Sublists.{Sub, index}

abbrev pub Allocations : Type 0
Allocations = List (ℕ × List Slot)

abbrev pub Member : Candidate → List Candidate → Type 0
Member c cs = Any (λ x. x ≡ c) cs

abbrev pub ids_of : List Candidate → List ℕ
ids_of = map (λ c. c.action_id)

-- The cost of the candidate with an action ID.
abbrev pub cost_of : List Candidate → ℕ → ℕ
cost_of [] a = 0
cost_of (c ∷ cs) a = let rest = cost_of cs a in if c.action_id == a then known_cost c.cost else rest

pub Member-In : (c : Candidate) (cs : List Candidate) → Member c cs → In c.action_id (ids_of cs)
Member-In c [] m = absurd m
Member-In c (x ∷ xs) (inl e) = inl (ap (λ y. y.action_id) (sym e))
Member-In c (x ∷ xs) (inr m) = inr (Member-In c xs m)

-- Two candidates of the list with one action ID are one.
pub same_candidate :
    (c d : Candidate) (cs : List Candidate)
    → IsNodup (ids_of cs)
    → Member c cs
    → Member d cs
    → c.action_id ≡ d.action_id
    → c ≡ d
same_candidate c d [] n m k e = absurd m
same_candidate c d (x ∷ xs) n (inl p) (inl q) e = sym p ∙ q
same_candidate c d (x ∷ xs) n (inl p) (inr k) e =
    absurd (
      n.0
        (subst (λ a. In a (ids_of xs)) (sym e ∙ ap (λ y. y.action_id) (sym p)) (Member-In d xs k)))
same_candidate c d (x ∷ xs) n (inr m) (inl q) e =
    absurd
      (n.0 (subst (λ a. In a (ids_of xs)) (e ∙ ap (λ y. y.action_id) (sym q)) (Member-In c xs m)))
same_candidate c d (x ∷ xs) n (inr m) (inr k) e = same_candidate c d xs n.1 m k e

pub cost_of_lem :
    (c : Candidate) (cs : List Candidate)
    → IsNodup (ids_of cs)
    → Member c cs
    → cost_of cs c.action_id ≡ known_cost c.cost
cost_of_lem c [] n m = absurd m
cost_of_lem c (x ∷ xs) n m = elim (Bool-cases (x.action_id == c.action_id)) [
  | inl e ↦
      let same =
        same_candidate x c (x ∷ xs) n (inl refl) m ((==_iff x.action_id c.action_id).0 e) in
      rw e (ap (λ y. known_cost y.cost) same)
  | inr e ↦ elim m [
    | inl p ↦ absurd (cc ((==_iff x.action_id c.action_id).1 (ap (λ y. y.action_id) p), e))
    | inr k ↦ rw e (cost_of_lem c xs n.1 k)
  ]
]

module _ (p : PlanningProblem) (cs : List Candidate) where
  -- The action was allocated before, in slots that end before the given ones begin.
  abbrev pub Before : Allocations → List Slot → ℕ → Type 0
  Before older xs q =
      (ys : List Slot) × (find q older ≡ some ys) × All (λ e. after_slots ys ≤ e.0) xs

  -- What is said of an entry, for whichever candidate has its action ID.
  pub record IsEntry (a : ℕ) (xs : List Slot) (older : Allocations) : Type 0 where
    pub owner : Candidate
    pub owned : Member owner cs
    pub named : owner.action_id ≡ a
    pub picked : Sub xs (slots_of p)
    pub available : All (λ e. is_available e.1 (availability_of p a) ≡ true) xs
    pub hours : length xs ≡ owner.estimated_hours
    pub cost_known :
        is_some p.constraints.max_out_of_pocket_krw ≡ true → is_unknown owner.cost ≡ false
    pub behind : All (Before older xs) owner.prerequisite_action_ids

  abbrev pub Entries : Allocations → Type 0
  Entries [] = Unit
  Entries (x ∷ older) = IsEntry x.0 x.1 older × (find x.0 older ≡ none) × Entries older

  pub record IsValid (s : Schedule) : Type 0 where
    pub entries : Entries s.allocations
    pub apart :
        (i : ℕ) → total (λ x. bit (elem i (map index x.1))) s.allocations ≤ bit (elem i s.used)
    pub weeks :
        (w : ℕ) → s.weekly w ≡ total (λ x. total (λ e. bit (week_of_slot e == w)) x.1) s.allocations
    pub within : (w : ℕ) → s.weekly w ≤ p.constraints.available_hours_per_week
    pub money : s.spent ≡ total (λ x. cost_of cs x.0) s.allocations
    pub capped : (cap : ℕ) → p.constraints.max_out_of_pocket_krw ≡ some cap → s.spent ≤ cap

pub find-chosen_for :
    (a : ℕ) (xs : Allocations) (ys : List Slot) → find a xs ≡ some ys → chosen_for a xs ≡ ys
find-chosen_for a [] ys e = absurd (cc e)
find-chosen_for a (x ∷ xs) ys e = elim (Bool-cases (x.0 == a)) [
  | inl t ↦ rw t (some-injective x.1 ys (rw t at e))
  | inr f ↦ rw f (find-chosen_for a xs ys (rw f at e))
]

pub find-chosen_for-none : (a : ℕ) (xs : Allocations) → find a xs ≡ none → chosen_for a xs ≡ []
find-chosen_for-none a [] e = refl
find-chosen_for-none a (x ∷ xs) e = elim (Bool-cases (x.0 == a)) [
  | inl t ↦ absurd (cc (rw t at e))
  | inr f ↦ rw f (find-chosen_for-none a xs (rw f at e))
]

-- A ready candidate's prerequisites are allocated, and the earliest slot is behind them all.
pub ready_prerequisites :
    (xs : Allocations) (n : ℕ) (qs : List ℕ)
    → all (λ k. is_some (find k xs)) qs ≡ true
    → maximum (λ k. after_slots (chosen_for k xs)) qs ≤ n
    → All (λ q. (ys : List Slot) × (find q xs ≡ some ys) × (after_slots ys ≤ n)) qs
ready_prerequisites xs n [] r h = tt
ready_prerequisites xs n (q ∷ qs) r h = elim (Option-cases (find q xs)) [
  | inl e ↦ absurd (cc (rw e at r))
  | inr (ys, e) ↦
      let here = find-chosen_for q xs ys e in
      let bound : max (after_slots ys) (maximum (λ k. after_slots (chosen_for k xs)) qs) ≤ n =
        rw here at h in
      (
        (ys, e, omega (arith, bound)),
        ready_prerequisites xs n qs (rw e at r) (omega (arith, bound)),
      )
]
