-- ===== src/Planning/Expand/Ends.antt =====
-- The recursion `include` of `_expand` (src/jobtology_be/planning/candidates.py) ends on a catalog
-- with no cycle: the actions on its path are distinct members of the catalog, and each needs the
-- next.
use jobtology_be.Common.{
  ℕ, zero, suc, ◌+◌, ◌<◌, ◌≡◌, refl, ◌∙◌, ◌⊎◌, inl, inr, some, List, [], ◌∷◌, ◌++◌, elem, In,
  elem→In, not-elem→In, keep-In, IsNodup, length-le_of_nodup, All, All-In, All-append, sorted,
  sorted-In, length, arith, Bool-cases, Outcome, done, failed, diverge, then_do, for_each, subst,
  sym, not,
}
use jobtology_be.Editorial.{RequirementEvaluation}
use jobtology_be.Planning.Templates.{ActivityTemplate}
use jobtology_be.Planning.Catalog.{Catalog, Error, ids, get, get-In, get-some, get-All, IsClosed}
use jobtology_be.Planning.Graph.{Needs, Requires, direct, step, extend}
use jobtology_be.Planning.Expand.{
  Expansion, fulfilled_of, open_of, candidate_of, append, include_template, include, expand,
}
use jobtology_be.Planning.Expand.Ordered.{
  action_ids, Ordered-snoc, action_ids-snoc, action_ids-snoc_last, action_ids-snoc_old,
}
use jobtology_be.Planning.Expand.Included.{Made, IsBuilt, Reached, Adds, for_each-Adds}

-- No action of the catalog needs itself.
abbrev pub IsAcyclic : Catalog → Type 0
IsAcyclic cat = (a : ℕ) → In a (ids cat) → ¬ Requires cat a a

-- The path of calls `v` that leads to `a`.
record IsTrail (cat : Catalog) (v : List ℕ) (a : ℕ) : Type 0 where
  known : In a (ids cat)
  distinct : IsNodup v
  members : (x : ℕ) → In x v → In x (ids cat)
  leads : (x : ℕ) → In x v → Requires cat x a

open_of-In :
    (es : List RequirementEvaluation) (cat : Catalog) (t : ActivityTemplate) (p : ℕ)
    → In p (open_of es cat t)
    → In p t.prerequisite_action_ids
unfolding open_of
open_of-In es cat t p i =
    sorted-In p t.prerequisite_action_ids
      (keep-In (λ q. not (elem q (fulfilled_of es cat t))) p (sorted t.prerequisite_action_ids) i)

module _ (es : List RequirementEvaluation) (cat : Catalog) (closed : IsClosed cat)
    (acyclic : IsAcyclic cat) where
  IsTrail-new : (v : List ℕ) (a : ℕ) → IsTrail cat v a → ¬ In a v
  IsTrail-new v a h i = acyclic a h.known (h.leads a i)

  IsTrail-extend :
      (v : List ℕ) (a p : ℕ) (t : ActivityTemplate)
      → IsTrail cat v a
      → get a cat ≡ some t
      → In p t.prerequisite_action_ids
      → IsTrail cat (a ∷ v) p
  IsTrail-extend v a p t h found i = record {
    known =
        All-In (λ q. In q (ids cat)) t.prerequisite_action_ids
          (get-All (λ u. All (λ q. In q (ids cat)) u.prerequisite_action_ids) a cat closed found) p
          i;
    distinct = (IsTrail-new v a h, h.distinct);
    members = member;
    leads = lead;
  }
    where
      needs : Needs cat a p
      needs = (t, found, i)

      member : (x : ℕ) → In x (a ∷ v) → In x (ids cat)
      member x (inl s) = subst (λ k. In k (ids cat)) (sym s) h.known
      member x (inr j) = h.members x j

      lead : (x : ℕ) → In x (a ∷ v) → Requires cat x p
      lead x (inl s) = direct (subst (λ k. Needs cat k p) (sym s) needs)
      lead x (inr j) = extend cat (h.leads x j) needs

  -- Appending the candidate of `a` behind its open prerequisites.
  append-Adds :
      (a : ℕ) (t : ActivityTemplate) (s : Expansion)
      → get a cat ≡ some t
      → In a (ids cat)
      → (¬ In a s.included)
      → (o : Outcome Error Expansion) → Adds es cat (λ x. In x (open_of es cat t)) s o
      → Adds es cat (λ x. x ≡ a) s (then_do o (append a (candidate_of es cat t)))
  unfolding append candidate_of
  append-Adds a t s found known new (failed e) h = h
  append-Adds a t s found known new diverge h = h
  append-Adds a t s found known new (done s') h = (
    record {
      listed = listed;
      counted = counted;
      ordered =
          Ordered-snoc [] s'.candidates (candidate_of es cat t) h.0.ordered
            (λ p i. inr (h.0.listed p (h.1 p i))) (λ i. i)
            (λ i. fresh (subst (λ k. In k s'.included) same (h.0.counted t.action_id i)));
      made =
          All-append (Made es cat) s'.candidates (candidate_of es cat t ∷ []) h.0.made
            ((t, subst (λ k. get k cat ≡ some t) (sym same) found, refl), tt);
    },
    (λ x e. inl e),
    (λ x i. inr (h.2 x i)),
    reached,
  )
    where
      same : t.action_id ≡ a
      same = (get-some a cat found).0

      reaches : (x : ℕ) → Reached cat (λ y. In y (open_of es cat t)) x → Requires cat a x
      reaches x (p, i, inl e) =
          direct (t, found, open_of-In es cat t x (subst (λ k. In k (open_of es cat t)) (sym e) i))
      reaches x (p, i, inr r) = step (t, found, open_of-In es cat t p i) r

      fresh : ¬ In a s'.included
      fresh i = elim (h.3 a i) [ inl j ↦ new j | inr r ↦ acyclic a known (reaches a r) ]

      listed :
          (x : ℕ)
          → In x (a ∷ s'.included)
          → In x (action_ids (s'.candidates ++ (candidate_of es cat t ∷ [])))
      listed x (inl e) =
          subst (λ k. In k (action_ids (s'.candidates ++ (candidate_of es cat t ∷ []))))
            (same ∙ sym e) (action_ids-snoc_last s'.candidates (candidate_of es cat t))
      listed x (inr i) =
          action_ids-snoc_old x s'.candidates (candidate_of es cat t) (h.0.listed x i)

      counted :
          (x : ℕ)
          → In x (action_ids (s'.candidates ++ (candidate_of es cat t ∷ [])))
          → In x (a ∷ s'.included)
      counted x i = elim (action_ids-snoc x s'.candidates (candidate_of es cat t) i) [
        | inl e ↦ inl (e ∙ same)
        | inr j ↦ inr (h.0.counted x j)
      ]

      reached : (x : ℕ) → In x (a ∷ s'.included) → In x s.included ⊎ Reached cat (λ y. y ≡ a) x
      reached x (inl e) = inr (a, refl, inl e)
      reached x (inr i) = elim (h.3 x i) [
        | inl j ↦ inl j
        | inr r ↦ inr (a, refl, inr (reaches x r))
      ]

  include-Adds :
      (fuel : ℕ) (v : List ℕ) (a : ℕ) (s : Expansion)
      → length (ids cat) < fuel + length v
      → IsTrail cat v a
      → IsBuilt es cat s
      → Adds es cat (λ x. x ≡ a) s (include es cat fuel a s)
  unfolding include include_template
  include-Adds zero v a s lt h b =
      absurd (omega (arith, length-le_of_nodup v (ids cat) h.distinct h.members))
  include-Adds (suc fuel) v a s lt h b = elim (Bool-cases (elem a s.included)) [
    | inl e ↦ rw e (
      b,
      (λ x same. subst (λ k. In k s.included) (sym same) (elem→In a s.included e)),
      (λ x i. i),
      λ x i. inl i,
    )
    | inr e ↦
        let (t, found) = get-In a cat h.known in
        rw (e, found)
          (append-Adds a t s found h.known (not-elem→In a s.included e)
            (for_each (include es cat fuel) (open_of es cat t) s)
            (for_each-Adds es cat (include es cat fuel) (open_of es cat t) s
              (λ p i s' b'.
                include-Adds fuel (a ∷ v) p s' (omega arith)
                  (IsTrail-extend v a p t h found (open_of-In es cat t p i)) b')
              b))
  ]

  -- The expansion ends, includes every root, and is in order.
  pub expand-Adds :
      (roots : List ActivityTemplate)
      → All (λ t. In t.action_id (ids cat)) roots
      → Adds es cat
          (λ x. In x (ids roots))
          (record { included = []; candidates = [] })
          (expand es cat roots)
  unfolding expand
  expand-Adds roots known =
      for_each-Adds es cat (include es cat (suc (length (ids cat)))) (ids roots)
        (record { included = []; candidates = [] })
        (λ p i s b. include-Adds (suc (length (ids cat))) [] p s (omega arith) (start p i) b)
        (record { listed = λ x i. i; counted = λ x i. i; ordered = tt; made = tt })
    where
      root_known :
          (ts : List ActivityTemplate)
          → All (λ t. In t.action_id (ids cat)) ts
          → (p : ℕ) → In p (ids ts)
          → In p (ids cat)
      root_known [] k p i = absurd i
      root_known (t ∷ ts) k p (inl e) = subst (λ q. In q (ids cat)) (sym e) k.0
      root_known (t ∷ ts) k p (inr i) = root_known ts k.1 p i

      start : (p : ℕ) → In p (ids roots) → IsTrail cat [] p
      start p i = record {
        known = root_known roots known p i;
        distinct = tt;
        members = λ x j. absurd j;
        leads = λ x j. absurd j;
      }
