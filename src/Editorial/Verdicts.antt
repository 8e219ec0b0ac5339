-- ===== src/Editorial/Verdicts.antt =====
-- What the verdict on one requirement says about the profile's records
-- (`_evaluate_requirement` of src/jobtology_be/modules/analyses/editorial.py).
use jobtology_be.Common.{
  ℕ, ◌≤◌, ◌≡◌, refl, ◌≢◌, ◌↔◌, ◌⊎◌, inl, inr, Bool, true, false, ◌&&◌, some, List, [], ◌∷◌, keep,
  elem, subset, All, All-map, Any, Any-map, Any-keep, keep-Any, keep-All, keep-keep, keep-nil, In,
  elem→In, In→elem, arith, Bool-cases, eq_cases,
}
use jobtology_be.Editorial.{
  satisfied, needs_input, resolved, full_credit, NormalizedCapability, NormalizedProfile,
  EditorialRequirement, InputCompleteness, experience_is_complete_for, matches, is_eligible,
  best_credit, judge, evaluate_requirement,
}

-- A record that establishes a requirement: resolved to its entity, with all its experience codes.
pub record Supports (r : EditorialRequirement) (c : NormalizedCapability) : Type 0 where
  pub is_resolved : c.resolution ≡ resolved
  pub names_entity : c.entity_id ≡ some r.entity_id
  pub has_codes : All (λ code. In code c.experience_codes) r.required_experience_codes

pub All-subset : (xs ys : List ℕ) → subset xs ys ≡ true → All (λ x. In x ys) xs
All-subset [] ys h = tt
All-subset (x ∷ xs) ys h = elim (Bool-cases (elem x ys)) [
  | inl e ↦ (elem→In x ys e, All-subset xs ys (rw e at h))
  | inr e ↦ absurd (ground (arith, e, h))
]

pub subset-All : (xs ys : List ℕ) → All (λ x. In x ys) xs → subset xs ys ≡ true
subset-All [] ys h = refl
subset-All (x ∷ xs) ys h = rw (In→elem x ys h.0) (subset-All xs ys h.1)

unfoldable pub chosen : EditorialRequirement → NormalizedCapability → Bool
chosen r c = matches r c && is_eligible r c

pub chosen→Supports :
    (r : EditorialRequirement) (c : NormalizedCapability) → chosen r c ≡ true → Supports r c
unfolding chosen matches is_eligible
chosen→Supports r c h = record {
  is_resolved = ground arith;
  names_entity = ground arith;
  has_codes = All-subset r.required_experience_codes c.experience_codes (ground arith);
}

pub Supports→chosen :
    (r : EditorialRequirement) (c : NormalizedCapability) → Supports r c → chosen r c ≡ true
unfolding chosen matches is_eligible
Supports→chosen r c s =
    ground (arith, s, subset-All r.required_experience_codes c.experience_codes s.has_codes)

-- A record that supports the requirement with full credit.
abbrev pub SupportsFully : EditorialRequirement → NormalizedCapability → Type 0
SupportsFully r c = Supports r c × (c.credit ≡ full_credit)

-- A record that names the requirement's entity, whatever its codes.
pub record Names (r : EditorialRequirement) (c : NormalizedCapability) : Type 0 where
  pub is_resolved : c.resolution ≡ resolved
  pub names_entity : c.entity_id ≡ some r.entity_id

pub matches→Names :
    (r : EditorialRequirement) (c : NormalizedCapability) → matches r c ≡ true → Names r c
unfolding matches
matches→Names r c h = ground arith

pub Names→matches :
    (r : EditorialRequirement) (c : NormalizedCapability) → Names r c → matches r c ≡ true
unfolding matches
Names→matches r c n = ground arith

pub best_credit-attained :
    (n : ℕ) (xs : List NormalizedCapability)
    → best_credit xs ≡ n
    → n ≢ 0
    → Any (λ c. c.credit ≡ n) xs
unfolding best_credit
best_credit-attained n [] h ne = absurd (ne (omega arith))
best_credit-attained n (x ∷ xs) h ne = elim (eq_cases x.credit n) [
  | inl e ↦ inl e
  | inr other ↦ inr (best_credit-attained n xs (omega arith) ne)
]

best_credit-le :
    (n : ℕ) (xs : List NormalizedCapability) → All (λ c. c.credit ≤ n) xs → best_credit xs ≤ n
unfolding best_credit
best_credit-le n [] h = omega arith
best_credit-le n (x ∷ xs) h = omega (arith, best_credit-le n xs h.1)

pub best_credit-ge : (xs : List NormalizedCapability) → All (λ c. c.credit ≤ best_credit xs) xs
unfolding best_credit
best_credit-ge [] = tt
best_credit-ge (x ∷ xs) = (
  omega arith,
  All-map (λ c. c.credit ≤ best_credit xs) _ xs (λ c h. omega arith) (best_credit-ge xs),
)

best_credit-full :
    (n : ℕ) (xs : List NormalizedCapability) → Any (λ c. c.credit ≡ n) xs → n ≤ best_credit xs
unfolding best_credit
best_credit-full n [] h = absurd h
best_credit-full n (x ∷ xs) (inl e) = omega arith
best_credit-full n (x ∷ xs) (inr h) = omega (arith, best_credit-full n xs h)

-- The records that the verdict rests on.
unfoldable pub supporting : EditorialRequirement → NormalizedProfile → List NormalizedCapability
supporting r p = keep (is_eligible r) (keep (matches r) p.capabilities)

module _ (r : EditorialRequirement) (c : InputCompleteness) where
  judge-satisfied :
      (ms es : List NormalizedCapability)
      → (ms ≡ [] → es ≡ [])
      → ((judge r c ms es).status ≡ satisfied) ↔ (best_credit es ≡ full_credit)
  unfolding judge
  judge-satisfied [] [] h = ground arith
  judge-satisfied [] (e ∷ es) h = absurd (cc (h refl))
  judge-satisfied (m ∷ ms) [] h = ground arith
  judge-satisfied (m ∷ ms) (e ∷ es) h = ground arith

  pub judge-credit :
      (ms es : List NormalizedCapability)
      → (ms ≡ [] → es ≡ [])
      → (judge r c ms es).credit ≡ best_credit es
  unfolding judge
  judge-credit [] [] h = refl
  judge-credit [] (e ∷ es) h = absurd (cc (h refl))
  judge-credit (m ∷ ms) [] h = refl
  judge-credit (m ∷ ms) (e ∷ es) h = refl

  -- When the answer to one requirement waits for the person.
  pub judge-needs_input :
      (ms es : List NormalizedCapability)
      → (ms ≡ [] → es ≡ [])
      → ((judge r c ms es).status ≡ needs_input) ↔ (
          (es ≡ [])
          × (((ms ≡ []) × (c.entities_complete ≡ false))
              ⊎ ((ms ≢ []) × (experience_is_complete_for c r.entity_id ≡ false))))
  unfolding judge
  judge-needs_input [] [] h = (λ e. (refl, inl (refl, ground arith)), λ e. ground arith)
  judge-needs_input [] (e ∷ es) h = absurd (cc (h refl))
  judge-needs_input (m ∷ ms) [] h =
      (λ e. (refl, inr ((λ n. cc n), ground arith)), λ e. ground arith)
  judge-needs_input (m ∷ ms) (e ∷ es) h = (λ e. absurd (ground arith), λ e. absurd (cc e.0))

pub supporting_nil :
    (r : EditorialRequirement) (p : NormalizedProfile)
    → keep (matches r) p.capabilities ≡ []
    → supporting r p ≡ []
unfolding supporting
supporting_nil r p h = keep-nil (is_eligible r) (keep (matches r) p.capabilities) h

-- A requirement is satisfied exactly when one record of the profile is resolved to its entity, has
-- all its experience codes and has full credit, where no credit is above full credit.
pub satisfied_iff :
    (r : EditorialRequirement) (p : NormalizedProfile) (c : InputCompleteness)
    → All (λ k. k.credit ≤ full_credit) p.capabilities
    → ((evaluate_requirement r p c).status ≡ satisfied) ↔ Any (SupportsFully r) p.capabilities
unfolding evaluate_requirement supporting
satisfied_iff r p c capped = (to, from)
  where
    es : List NormalizedCapability
    es = supporting r p

    same : es ≡ keep (chosen r) p.capabilities
    same = unfold chosen in keep-keep (is_eligible r) (matches r) p.capabilities

    verdict :
        ((judge r c (keep (matches r) p.capabilities) es).status ≡ satisfied)
        ↔ (best_credit es ≡ full_credit)
    verdict = judge-satisfied r c (keep (matches r) p.capabilities) es (supporting_nil r p)

    to : (evaluate_requirement r p c).status ≡ satisfied → Any (SupportsFully r) p.capabilities
    to h =
        let full =
          best_credit-attained full_credit (keep (chosen r) p.capabilities)
            (rw (← same) (verdict.0 h)) (omega arith) in
        Any-map _ _ p.capabilities (λ k q. (chosen→Supports r k q.0, q.1))
          (Any-keep (λ k. k.credit ≡ full_credit) (chosen r) p.capabilities full)

    from : Any (SupportsFully r) p.capabilities → (evaluate_requirement r p c).status ≡ satisfied
    from h =
        let found =
          keep-Any (λ k. k.credit ≡ full_credit) (chosen r) p.capabilities
            (Any-map _ _ p.capabilities (λ k q. (Supports→chosen r k q.0, q.1)) h) in
        let low = best_credit-full full_credit (keep (chosen r) p.capabilities) found in
        let high =
          best_credit-le full_credit (keep (chosen r) p.capabilities)
            (keep-All (λ k. k.credit ≤ full_credit) (chosen r) p.capabilities capped) in
        verdict.1 (rw same (omega arith))
