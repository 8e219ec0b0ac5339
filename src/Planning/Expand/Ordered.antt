-- ===== src/Planning/Expand/Ordered.antt =====
-- Candidates in an order in which each stands behind its open prerequisites, and stands once
-- (the list that `_expand` of src/jobtology_be/planning/candidates.py returns).
use jobtology_be.Common.{ℕ, ◌≡◌, ◌⊎◌, inl, inr, List, [], ◌∷◌, ◌++◌, map, In, All, In-All}
use jobtology_be.Planning.Templates.{Candidate}

abbrev pub action_ids : List Candidate → List ℕ
action_ids = map (λ c. c.action_id)

-- In order behind the actions `seen`: every prerequisite stands before, and no action twice.
abbrev pub Ordered : List ℕ → List Candidate → Type 0
Ordered seen [] = Unit
Ordered seen (c ∷ cs) =
    All (λ p. In p seen) c.prerequisite_action_ids
    × (¬ In c.action_id seen)
    × Ordered (c.action_id ∷ seen) cs

behind : (x a : ℕ) (seen rest : List ℕ) → In x seen ⊎ In x (a ∷ rest) → In x (a ∷ seen) ⊎ In x rest
behind x a seen rest (inl i) = inl (inr i)
behind x a seen rest (inr (inl e)) = inl (inl e)
behind x a seen rest (inr (inr i)) = inr i

-- A candidate whose prerequisites all stand before may come last.
pub Ordered-snoc :
    (seen : List ℕ) (cs : List Candidate) (c : Candidate)
    → Ordered seen cs
    → ((p : ℕ) → In p c.prerequisite_action_ids → In p seen ⊎ In p (action_ids cs))
    → (¬ In c.action_id seen)
    → (¬ In c.action_id (action_ids cs))
    → Ordered seen (cs ++ (c ∷ []))
Ordered-snoc seen [] c o f n m = (
  In-All (λ p. In p seen) c.prerequisite_action_ids
      (λ p i. elim (f p i) [ inl j ↦ j | inr k ↦ absurd k ]),
  n,
  tt,
)
Ordered-snoc seen (d ∷ ds) c o f n m = (
  o.0,
  o.1,
  Ordered-snoc (d.action_id ∷ seen) ds c o.2
      (λ p i. behind p d.action_id seen (action_ids ds) (f p i))
      (λ i. elim i [ inl e ↦ m (inl e) | inr j ↦ n j ]) (λ i. m (inr i)),
)

pub action_ids-snoc :
    (x : ℕ) (cs : List Candidate) (c : Candidate)
    → In x (action_ids (cs ++ (c ∷ [])))
    → (x ≡ c.action_id) ⊎ In x (action_ids cs)
action_ids-snoc x [] c (inl e) = inl e
action_ids-snoc x [] c (inr i) = absurd i
action_ids-snoc x (d ∷ ds) c (inl e) = inr (inl e)
action_ids-snoc x (d ∷ ds) c (inr i) = elim (action_ids-snoc x ds c i) [
  | inl e ↦ inl e
  | inr j ↦ inr (inr j)
]

pub action_ids-snoc_last :
    (cs : List Candidate) (c : Candidate) → In c.action_id (action_ids (cs ++ (c ∷ [])))
action_ids-snoc_last [] c = inl (λ i. c.action_id)
action_ids-snoc_last (d ∷ ds) c = inr (action_ids-snoc_last ds c)

pub action_ids-snoc_old :
    (x : ℕ) (cs : List Candidate) (c : Candidate)
    → In x (action_ids cs)
    → In x (action_ids (cs ++ (c ∷ [])))
action_ids-snoc_old x [] c i = absurd i
action_ids-snoc_old x (d ∷ ds) c (inl e) = inl e
action_ids-snoc_old x (d ∷ ds) c (inr i) = inr (action_ids-snoc_old x ds c i)
