-- ===== src/Planning/Graph.antt =====
-- The prerequisite graph of a catalog, and orders that show it has no cycle: what the depth-first
-- search of `_validate_dependencies` (src/jobtology_be/planning/candidates.py) is about.
use jobtology_be.Common.{ℕ, ◌≡◌, subst, inl, inr, some, List, [], ◌∷◌, In}
use jobtology_be.Planning.Templates.{ActivityTemplate}
use jobtology_be.Planning.Catalog.{Catalog, get}

-- `p` is a prerequisite of the catalog's template `a`.
abbrev pub Needs : Catalog → ℕ → ℕ → Type 0
Needs cat a p = (t : ActivityTemplate) × (get a cat ≡ some t) × In p t.prerequisite_action_ids

-- `b` is reached from `a` by one prerequisite or more.
pub data Requires (cat : Catalog) : ℕ → ℕ → Type 0 where
  direct : {a b : ℕ} → Needs cat a b → Requires cat a b
  step : {a b c : ℕ} → Needs cat a b → Requires cat b c → Requires cat a c

pub extend : (cat : Catalog) {a b c : ℕ} → Requires cat a b → Needs cat b c → Requires cat a c
extend cat (direct n) m = step n (direct m)
extend cat (step n r) m = step n (extend cat r m)

-- A list in which each action stands before all that it needs.
abbrev pub Topo : Catalog → List ℕ → Type 0
Topo cat [] = Unit
Topo cat (v ∷ rest) = ((p : ℕ) → Needs cat v p → In p rest) × Topo cat rest

pub Topo-needs :
    (cat : Catalog) (order : List ℕ) (a p : ℕ)
    → Topo cat order
    → In a order
    → Needs cat a p
    → In p order
Topo-needs cat [] a p t i n = absurd i
Topo-needs cat (v ∷ rest) a p t (inl e) n = inr (t.0 p (subst (λ k. Needs cat k p) e n))
Topo-needs cat (v ∷ rest) a p t (inr i) n = inr (Topo-needs cat rest a p t.1 i n)

Topo-requires :
    (cat : Catalog) (order : List ℕ) {a b : ℕ}
    → Topo cat order
    → In a order
    → Requires cat a b
    → In b order
Topo-requires cat order t i (direct n) = Topo-needs cat order _ _ t i n
Topo-requires cat order t i (step n r) =
    Topo-requires cat order t (Topo-needs cat order _ _ t i n) r

-- What a topological order names lies on no cycle.
pub Topo-acyclic :
    (cat : Catalog) (order : List ℕ) (a : ℕ) → Topo cat order → In a order → ¬ Requires cat a a
Topo-acyclic cat [] a t i r = absurd i
Topo-acyclic cat (v ∷ rest) a t (inr i) r = Topo-acyclic cat rest a t.1 i r
Topo-acyclic cat (v ∷ rest) a t (inl e) r =
    Topo-acyclic cat rest a t.1 (back r (λ p n. t.0 p (subst (λ k. Needs cat k p) e n))) r
  where
    back : {c : ℕ} → Requires cat a c → ((p : ℕ) → Needs cat a p → In p rest) → In c rest
    back (direct n) first = first _ n
    back (step n s) first = Topo-requires cat rest t.1 (first _ n) s
