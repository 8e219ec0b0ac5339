-- ===== src/Planning/Planner/Shares.antt =====
-- `_full_capacity_possible` (src/jobtology_be/planning/cp_sat_planner.py) is true wherever a full route
-- exists: its sum of cheapest shares is a lower bound of the effort.
use native.Mathlib.Nat.{mul-le-mul_left, mul-le-mul_right, le_of_mul-le-mul_left, mul-div_cancel}
use jobtology_be.Common.{
  ℕ, ◌+◌, ◌*◌, ◌/◌, ◌≤◌, ◌≡◌, refl, sym, ap, subst, inl, inr, Bool, true, false, ◌&&◌, List, [],
  ◌∷◌, map, keep, any, elem, elem→In, In→elem, le→leb, All, All-map, All-In, Any, In, In-All,
  IsNodup, length, bit, total, total-le, total-cong, arith, Bool-cases, max,
}
use jobtology_be.Planning.Templates.{Candidate}
use jobtology_be.Planning.Problem.{PlanningProblem}
use jobtology_be.Planning.Route.{
  slots_of, week_of_slot, capped_hours, Values, covered, total_hours, Satisfies,
}
use jobtology_be.Planning.Route.Priorities.{total-mul}
use jobtology_be.Planning.Hint.Earliest.{exchange}
use jobtology_be.Planning.Planner.{share, cheapest_share, sum_shares, full_capacity_possible}
use jobtology_be.Planning.Planner.Capacity.{
  AtMost, weaken_AtMost, least_share-AtMost, sum_shares-AtMost, length_of, multiple,
  multiple_positive, multiple_parts,
}
use jobtology_be.Planning.Planner.Effort.{In-keep, common_le, hours_within}

le-total : {A : Type 0} (xs : List A) → All (λ x. (f : A → ℕ) → f x ≤ total f xs) xs
le-total [] = tt
le-total (x ∷ xs) = (
  (λ f. omega arith),
  All-map (λ y. (f : _ → ℕ) → f y ≤ total f xs) (λ y. (f : _ → ℕ) → f y ≤ total f (x ∷ xs)) xs
      (λ y h f. omega (arith, h f)) (le-total xs),
)

total_none : {A : Type 0} (f : A → ℕ) (xs : List A) → total (λ x. bit false * f x) xs ≡ 0
total_none f [] = refl
total_none f (x ∷ xs) = omega (arith, total_none f xs)

module _ (required : List ℕ) (cs : List Candidate) (v : Values) where
  abbrev scale : ℕ
  scale = multiple required cs

  -- How many parts of the whole a required outcome of the candidate is.
  abbrev parts : Candidate → ℕ
  parts c = scale / max 1 (length_of required c)

  abbrev serves : ℕ → Candidate → Bool
  serves k c = elem k c.outcome_requirement_keys && v.selected c.action_id

  abbrev worth : ℕ → ℕ
  worth k = total (λ c. bit (serves k c) * (c.estimated_hours * parts c)) cs

  whole_parts : All (λ c. parts c * max 1 (length_of required c) ≡ scale) cs
  whole_parts =
      All-map (λ c. (q : ℕ) × (q * max 1 (length_of required c) ≡ scale))
        (λ c. parts c * max 1 (length_of required c) ≡ scale) cs
        (λ c h.
          let size = max 1 (length_of required c) in
          let exact : parts c ≡ h.0 =
            subst (λ z. z / size ≡ h.0) h.1 (mul-div_cancel h.0 (omega arith)) in
          rw exact h.1)
        (multiple_parts required cs)

  one_key :
      (k : ℕ) (c : Candidate)
      → In k required
      → elem k c.outcome_requirement_keys ≡ true
      → 1 ≤ length_of required c
  one_key k c i e = nonempty (keep (λ z. elem z required) c.outcome_requirement_keys) (
      In-keep (λ z. elem z required) k c.outcome_requirement_keys
        (elem→In k c.outcome_requirement_keys e) (In→elem k required i))
    where
      nonempty : (xs : List ℕ) → In k xs → 1 ≤ length xs
      nonempty [] h = absurd h
      nonempty (x ∷ xs) h = omega arith

  shares_positive :
      (k : ℕ)
      → In k required
      → (ds : List Candidate)
      → All (λ b. 1 ≤ b.1) (map (share required) (keep (λ c. elem k c.outcome_requirement_keys) ds))
  shares_positive k i [] = tt
  shares_positive k i (d ∷ ds) = elim (Bool-cases (elem k d.outcome_requirement_keys)) [
    | inl e ↦ rw e (one_key k d i e, shares_positive k i ds)
    | inr e ↦ rw e (shares_positive k i ds)
  ]

  -- The share of a candidate is its hours' part.
  share-AtMost :
      (k : ℕ) (c : Candidate)
      → In k required
      → elem k c.outcome_requirement_keys ≡ true
      → parts c * max 1 (length_of required c) ≡ scale
      → AtMost scale (share required c) (c.estimated_hours * parts c)
  share-AtMost k c i e exact =
      let some_key : max 1 (length_of required c) ≡ length_of required c =
        omega (arith, one_key k c i e) in
      let whole : parts c * length_of required c ≡ scale =
        subst (λ z. parts c * z ≡ scale) some_key exact in
      omega (arith, ap (λ z. c.estimated_hours * z) whole)

  serving_share :
      (k n : ℕ)
      → In k required
      → (ds : List Candidate) → All (λ c. parts c * max 1 (length_of required c) ≡ scale) ds
      → All (λ c. serves k c ≡ true → c.estimated_hours * parts c ≤ n) ds
      → any (serves k) ds ≡ true
      → Any
          (λ b. AtMost scale b n)
          (map (share required) (keep (λ c. elem k c.outcome_requirement_keys) ds))
  serving_share k n i [] w h e = absurd (cc e)
  serving_share k n i (d ∷ ds) w h e = elim (Bool-cases (elem k d.outcome_requirement_keys)) [
    | inl out ↦ elim (Bool-cases (v.selected d.action_id)) [
      | inl sel ↦ rw out (
          inl (
            weaken_AtMost scale (share required d) (d.estimated_hours * parts d) n
              (h.0 (let both : serves k d ≡ true = rw (out, sel) refl in both))
              (share-AtMost k d i out w.0)))
      | inr sel ↦ rw out (inr (serving_share k n i ds w.1 h.1 (rw (out, sel) at e)))
    ]
    | inr out ↦ rw out (serving_share k n i ds w.1 h.1 (rw out at e))
  ]

  -- The parts that a candidate gives are at most those of its hours, if it is selected.
  given_parts :
      IsNodup required
      → All
          (λ c.
            total (λ k. bit (serves k c) * (c.estimated_hours * parts c)) required
            ≤ scale * (c.estimated_hours * bit (v.selected c.action_id)))
          cs
  given_parts n = All-map _ _ cs given whole_parts
    where
      given :
          (c : Candidate)
          → parts c * max 1 (length_of required c) ≡ scale
          → total (λ k. bit (serves k c) * (c.estimated_hours * parts c)) required
            ≤ scale * (c.estimated_hours * bit (v.selected c.action_id))
      given c exact = elim (Bool-cases (v.selected c.action_id)) [
        | inl sel ↦
            let each =
              total-cong (λ k. bit (serves k c) * (c.estimated_hours * parts c))
                (λ k. (c.estimated_hours * parts c) * bit (elem k c.outcome_requirement_keys))
                required (every_key sel required) in
            let counted =
              total-mul (c.estimated_hours * parts c) (λ k. bit (elem k c.outcome_requirement_keys))
                required in
            let few : total (λ k. bit (elem k c.outcome_requirement_keys)) required
                ≤ max 1 (length_of required c) =
              omega (arith, common_le required c.outcome_requirement_keys n) in
            let scaled = mul-le-mul_left (c.estimated_hours * parts c) few in
            let exact_hours = ap (λ z. c.estimated_hours * z) exact in
            let bound : total (λ k. bit (serves k c) * (c.estimated_hours * parts c)) required
                ≤ scale * (c.estimated_hours * 1) =
              omega (arith, each, counted, scaled, exact_hours) in
            subst
              (λ t.
                total (λ k. bit (serves k c) * (c.estimated_hours * parts c)) required
                ≤ scale * (c.estimated_hours * bit t))
              (sym sel) bound
        | inr sel ↦
            let each =
              total-cong (λ k. bit (serves k c) * (c.estimated_hours * parts c))
                (λ k. bit false * (c.estimated_hours * parts c)) required (no_key sel required) in
            omega (arith, each, total_none (λ (k : ℕ). c.estimated_hours * parts c) required)
      ]
        where
          every_key :
              v.selected c.action_id ≡ true
              → (ks : List ℕ)
              → All
                  (λ k.
                    bit (serves k c) * (c.estimated_hours * parts c)
                    ≡ (c.estimated_hours * parts c) * bit (elem k c.outcome_requirement_keys))
                  ks
          every_key sel [] = tt
          every_key sel (k ∷ ks) = (
            elim (Bool-cases (elem k c.outcome_requirement_keys)) [
              | inl e ↦ rw (e, sel) (omega arith)
              | inr e ↦ rw e (omega arith)
            ],
            every_key sel ks,
          )

          no_key :
              v.selected c.action_id ≡ false
              → (ks : List ℕ)
              → All
                  (λ k.
                    bit (serves k c) * (c.estimated_hours * parts c)
                    ≡ bit false * (c.estimated_hours * parts c))
                  ks
          no_key sel [] = tt
          no_key sel (k ∷ ks) = (
            elim (Bool-cases (elem k c.outcome_requirement_keys)) [
              | inl e ↦ rw (e, sel) refl
              | inr e ↦ rw e refl
            ],
            no_key sel ks,
          )

  worth_le :
      IsNodup required
      → total worth required
        ≤ scale * total (λ c. c.estimated_hours * bit (v.selected c.action_id)) cs
  worth_le n = omega (
    arith,
    exchange (λ k c. bit (serves k c) * (c.estimated_hours * parts c)) required cs,
    total-le (λ c. total (λ k. bit (serves k c) * (c.estimated_hours * parts c)) required)
        (λ c. scale * (c.estimated_hours * bit (v.selected c.action_id))) cs (given_parts n),
    total-mul scale (λ c. c.estimated_hours * bit (v.selected c.action_id)) cs,
  )

-- If some values keep the constraints of the full model, with distinct required requirements, the
-- effort bound lets the search run.
pub full_capacity_possible-true :
    (p : PlanningProblem) (cs : List Candidate) (v : Values)
    → IsNodup p.required_requirement_keys
    → Satisfies p cs true v
    → full_capacity_possible p cs ≡ true
unfolding full_capacity_possible total_hours covered
full_capacity_possible-true p cs v n s =
    let required = p.required_requirement_keys in
    let capacity =
      capped_hours p.constraints.available_hours_per_week (map week_of_slot (slots_of p)) in
    let all_shares = sum_shares (cheapest_share p cs capacity) required in
    let each =
      In-All
        (λ k. AtMost (scale required cs v) (cheapest_share p cs capacity k) (worth required cs v k))
        required
        (λ k i.
          least_share-AtMost (scale required cs v) (capacity + 1, 1)
            (map (share required) (keep (λ c. elem k c.outcome_requirement_keys) cs))
            (worth required cs v k) (shares_positive required cs v k i cs)
            (serving_share required cs v k (worth required cs v k) i cs (whole_parts required cs v)
              (All-map (λ c. (f : Candidate → ℕ) → f c ≤ total f cs)
                (λ c.
                  serves required cs v k c ≡ true
                  → c.estimated_hours * parts required cs v c ≤ worth required cs v k)
                cs
                (λ c le e.
                  let part = le (λ d.
                    bit (serves required cs v k d) * (d.estimated_hours * parts required cs v d)) in
                  let whole : 1 * (c.estimated_hours * parts required cs v c)
                      ≤ worth required cs v k =
                    rw e at part in
                  omega (arith, whole))
                (le-total cs))
              (All-In (λ j. covered cs v j ≡ true) required (s.covers_required refl) k i))) in
    let summed =
      sum_shares-AtMost (scale required cs v) (cheapest_share p cs capacity) (worth required cs v)
        required each in
    let within = mul-le-mul_left (scale required cs v) (hours_within p cs v true s) in
    let bound = mul-le-mul_right (all_shares.1) (
      let le : total (worth required cs v) required ≤ scale required cs v * capacity =
        omega (arith, worth_le required cs v n, within) in
      le) in
    le→leb (all_shares.0 * 1) (capacity * all_shares.1) (
      le_of_mul-le-mul_left {k = scale required cs v} (omega (arith, summed, bound))
        (multiple_positive required cs))
