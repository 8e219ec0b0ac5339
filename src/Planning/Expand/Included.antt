-- ===== src/Planning/Expand/Included.antt =====
-- What the recursion `include` of `_expand` (src/jobtology_be/planning/candidates.py) does on a
-- catalog with no cycle: it ends, and keeps the candidates in order.
use jobtology_be.Common.{
  ℕ, ◌≡◌, refl, ◌⊎◌, inl, inr, some, List, [], ◌∷◌, In, All, Outcome, done, failed, diverge,
  then_do, for_each,
}
use jobtology_be.Editorial.{RequirementEvaluation}
use jobtology_be.Planning.Templates.{ActivityTemplate, Candidate}
use jobtology_be.Planning.Catalog.{Catalog, Error, get}
use jobtology_be.Planning.Graph.{Requires}
use jobtology_be.Planning.Expand.{Expansion, candidate_of}
use jobtology_be.Planning.Expand.Ordered.{action_ids, Ordered}

-- A candidate is the one of the catalog's template with its action ID.
abbrev pub Made : List RequirementEvaluation → Catalog → Candidate → Type 0
Made es cat c =
    (t : ActivityTemplate) × (get c.action_id cat ≡ some t) × (c ≡ candidate_of es cat t)

pub record IsBuilt (es : List RequirementEvaluation) (cat : Catalog) (s : Expansion) : Type 0 where
  pub listed : (x : ℕ) → In x s.included → In x (action_ids s.candidates)
  pub counted : (x : ℕ) → In x (action_ids s.candidates) → In x s.included
  pub ordered : Ordered [] s.candidates
  pub made : All (Made es cat) s.candidates

-- `x` is one of the actions `Asked`, or one that such an action needs.
abbrev pub Reached : Catalog → (ℕ → Type 0) → ℕ → Type 0
Reached cat Asked x = (p : ℕ) × Asked p × ((x ≡ p) ⊎ Requires cat p x)

-- What a call has done: it ended, included what was asked and nothing that is not needed.
abbrev pub Adds :
    List RequirementEvaluation
    → Catalog
    → (ℕ → Type 0)
    → Expansion
    → Outcome Error Expansion
    → Type 0
Adds es cat Asked s (done s') =
    IsBuilt es cat s'
    × ((x : ℕ) → Asked x → In x s'.included)
    × ((x : ℕ) → In x s.included → In x s'.included)
    × ((x : ℕ) → In x s'.included → In x s.included ⊎ Reached cat Asked x)
Adds es cat Asked s (failed e) = ⊥
Adds es cat Asked s diverge = ⊥

Adds-join :
    (es : List RequirementEvaluation) (cat : Catalog) (p : ℕ) (ps : List ℕ) (s s' : Expansion)
    → Adds es cat (λ x. x ≡ p) s (done s')
    → (o : Outcome Error Expansion) → Adds es cat (λ x. In x ps) s' o
    → Adds es cat (λ x. In x (p ∷ ps)) s o
Adds-join es cat p ps s s' h (done s'') k = (
  k.0,
  (λ x i. elim i [ inl e ↦ k.2 x (h.1 x e) | inr j ↦ k.1 x j ]),
  (λ x i. k.2 x (h.2 x i)),
  λ x i. late x (k.3 x i),
)
  where
    early :
        (x : ℕ)
        → In x s.included ⊎ Reached cat (λ y. y ≡ p) x
        → In x s.included ⊎ Reached cat (λ y. In y (p ∷ ps)) x
    early x (inl i) = inl i
    early x (inr (q, e, r)) = inr (q, inl e, r)

    late :
        (x : ℕ)
        → In x s'.included ⊎ Reached cat (λ y. In y ps) x
        → In x s.included ⊎ Reached cat (λ y. In y (p ∷ ps)) x
    late x (inl i) = early x (h.3 x i)
    late x (inr (q, i, r)) = inr (q, inr i, r)
Adds-join es cat p ps s s' h (failed f) k = k
Adds-join es cat p ps s s' h diverge k = k

Adds-then :
    (es : List RequirementEvaluation) (cat : Catalog) (p : ℕ) (ps : List ℕ) (s : Expansion)
    (next : Expansion → Outcome Error Expansion)
    → (o : Outcome Error Expansion) → Adds es cat (λ x. x ≡ p) s o
    → ((s' : Expansion)
        → Adds es cat (λ x. x ≡ p) s (done s')
        → Adds es cat (λ x. In x ps) s' (next s'))
    → Adds es cat (λ x. In x (p ∷ ps)) s (then_do o next)
Adds-then es cat p ps s next (done s') h k = Adds-join es cat p ps s s' h (next s') (k s' h)
Adds-then es cat p ps s next (failed f) h k = h
Adds-then es cat p ps s next diverge h k = h

pub for_each-Adds :
    (es : List RequirementEvaluation) (cat : Catalog)
    (call : ℕ → Expansion → Outcome Error Expansion) (ps : List ℕ) (s : Expansion)
    → ((p : ℕ)
        → In p ps
        → (s' : Expansion) → IsBuilt es cat s'
        → Adds es cat (λ x. x ≡ p) s' (call p s'))
    → IsBuilt es cat s
    → Adds es cat (λ x. In x ps) s (for_each call ps s)
unfolding for_each
for_each-Adds es cat call [] s good b = (b, (λ x i. absurd i), (λ x i. i), λ x i. inl i)
for_each-Adds es cat call (p ∷ ps) s good b =
    Adds-then es cat p ps s (λ s'. for_each call ps s') (call p s) (good p (inl refl) s b)
      (λ s' h. for_each-Adds es cat call ps s' (λ q i. good q (inr i)) h.0)
