-- ===== src/Editorial/Credit.antt =====
-- The credit of a verdict, and when a verdict waits for the person's input
-- (`_evaluate_requirement` of src/jobtology_be/modules/analyses/editorial.py).
use jobtology_be.Common.{
  ℕ, ◌≤◌, ◌≡◌, refl, ◌≢◌, ◌↔◌, ◌⊎◌, inl, inr, Bool, true, false, List, [], ◌∷◌, keep, All, All-map,
  Any, Any-map, Any-keep, keep-Any, keep-keep, All-keep, subst, eq_cases,
}
use jobtology_be.Editorial.{
  needs_input, NormalizedProfile, EditorialRequirement, InputCompleteness,
  experience_is_complete_for, matches, is_eligible, best_credit, evaluate_requirement,
}
use jobtology_be.Editorial.Verdicts.{
  Supports, Names, chosen, chosen→Supports, Supports→chosen, matches→Names, Names→matches,
  best_credit-attained, best_credit-ge, supporting, supporting_nil, judge-credit, judge-needs_input,
}

credit_lem :
    (r : EditorialRequirement) (p : NormalizedProfile) (c : InputCompleteness)
    → (evaluate_requirement r p c).credit ≡ best_credit (keep (chosen r) p.capabilities)
unfolding evaluate_requirement supporting
credit_lem r p c =
    rw (judge-credit r c (keep (matches r) p.capabilities) (supporting r p) (supporting_nil r p))
      (unfold chosen in rw (keep-keep (is_eligible r) (matches r) p.capabilities))

-- The credit of a requirement is the best credit of a single supporting record: every supporting
-- record has at most it, and one has it unless it is zero. So duplicates add nothing, and no record
-- counts with the experience codes of another.
pub credit_is_best :
    (r : EditorialRequirement) (p : NormalizedProfile) (c : InputCompleteness)
    → let credit = (evaluate_requirement r p c).credit in
      All (λ k. Supports r k → k.credit ≤ credit) p.capabilities
      × ((credit ≡ 0) ⊎ Any (λ k. Supports r k × (k.credit ≡ credit)) p.capabilities)
credit_is_best r p c = rw (credit_lem r p c) (bound, attained (eq_cases best 0))
  where
    best : ℕ
    best = best_credit (keep (chosen r) p.capabilities)

    bound : All (λ k. Supports r k → k.credit ≤ best) p.capabilities
    bound =
        All-map _ _ p.capabilities (λ k f s. f (Supports→chosen r k s))
          (All-keep (λ k. k.credit ≤ best) (chosen r) p.capabilities
            (best_credit-ge (keep (chosen r) p.capabilities)))

    attained :
        (best ≡ 0) ⊎ (best ≢ 0)
        → (best ≡ 0) ⊎ Any (λ k. Supports r k × (k.credit ≡ best)) p.capabilities
    attained (inl z) = inl z
    attained (inr nz) = inr (
        Any-map _ _ p.capabilities (λ k q. (chosen→Supports r k q.0, q.1))
          (Any-keep (λ k. k.credit ≡ best) (chosen r) p.capabilities
            (best_credit-attained best (keep (chosen r) p.capabilities) refl nz)))

keep_nil_iff :
    {A : Type 0} (p : A → Bool) (P : A → Type 0) (xs : List A)
    → ((x : A) → p x ≡ true → P x)
    → ((x : A) → P x → p x ≡ true)
    → (keep p xs ≡ []) ↔ (¬ Any P xs)
keep_nil_iff {A} p P xs to from = (empty, none_left)
  where
    empty : keep p xs ≡ [] → ¬ Any P xs
    empty e a = subst (Any P) e (keep-Any P p xs (Any-map _ _ xs (λ x q. (from x q, q)) a))

    first : (ys : List A) → (¬ Any (λ x. Unit {0}) ys) → ys ≡ []
    first [] h = refl
    first (y ∷ ys) h = absurd (h (inl tt))

    none_left : (¬ Any P xs) → keep p xs ≡ []
    none_left h =
        first (keep p xs)
          (λ a. h (Any-map _ _ xs (λ x q. to x q.0) (Any-keep (λ x. Unit {0}) p xs a)))

-- Nothing was found, and what was asked is incomplete.
abbrev Incomplete : Type 0 → Type 0 → Type 0 → Type 0 → Type 0
Incomplete Unsupported Unnamed E X = Unsupported × ((Unnamed × E) ⊎ ((¬ Unnamed) × X))

Incomplete_map :
    {U N U' N' E X : Type 0} → U ↔ U' → N ↔ N' → Incomplete U N E X ↔ Incomplete U' N' E X
Incomplete_map u n = (to u n, to (u.1, u.0) (n.1, n.0))
  where
    to : {U N U' N' E X : Type 0} → U ↔ U' → N ↔ N' → Incomplete U N E X → Incomplete U' N' E X
    to u n (a, inl (b, e)) = (u.0 a, inl (n.0 b, e))
    to u n (a, inr (b, x)) = (u.0 a, inr ((λ q. b (n.1 q)), x))

-- The verdict waits for input exactly when no record supports the requirement and what was asked
-- of the person is incomplete: the list of entities, if no record names the entity, and else the
-- experience of that entity.
pub needs_input_iff :
    (r : EditorialRequirement) (p : NormalizedProfile) (c : InputCompleteness)
    → ((evaluate_requirement r p c).status ≡ needs_input) ↔ (
        (¬ Any (Supports r) p.capabilities)
        × (((¬ Any (Names r) p.capabilities) × (c.entities_complete ≡ false))
            ⊎ ((¬ ¬ Any (Names r) p.capabilities)
                × (experience_is_complete_for c r.entity_id ≡ false))))
unfolding evaluate_requirement supporting chosen
needs_input_iff r p c =
    let verdict =
      judge-needs_input r c (keep (matches r) p.capabilities) (supporting r p)
        (supporting_nil r p) in
    let named =
      keep_nil_iff (matches r) (Names r) p.capabilities (matches→Names r) (Names→matches r) in
    let supported =
      keep_nil_iff (chosen r) (Supports r) p.capabilities (chosen→Supports r) (Supports→chosen r) in
    let same = keep-keep (is_eligible r) (matches r) p.capabilities in
    let change = Incomplete_map (rw same supported) named in
    ((λ h. change.0 (verdict.0 h)), (λ h. verdict.1 (change.1 h)))
