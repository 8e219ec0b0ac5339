-- ===== src/Planning/Cycles/Decides.antt =====
-- How `_validate_dependencies` (src/jobtology_be/planning/candidates.py) ends on any catalog.
use jobtology_be.Common.{
  ℕ, ◌≡◌, refl, ◌⊎◌, inl, inr, List, [], ◌∷◌, In, In-sorted, sorted, ap, subst, Any, arith,
  Bool-cases, Result, ok, raise, Outcome, done, failed, diverge, is_some, ◌>>◌,
}
use jobtology_be.Planning.Templates.{ActivityTemplate}
use jobtology_be.Planning.Catalog.{
  Catalog, Error, prerequisite_cycle, missing_prerequisite_template, ids, get, get-In,
  check_prerequisites, check_present_in, check_present, check_present-ok, IsClosed,
}
use jobtology_be.Planning.Graph.{Requires, Topo, Topo-acyclic}
use jobtology_be.Planning.Cycles.{Marks, if_present, check_acyclic, validate_dependencies}
use jobtology_be.Planning.Cycles.Search.{Ends, check_acyclic-Ends}

-- `p` is named as a prerequisite of a template `a`, and is no template's identifier.
abbrev pub Missing : Catalog → ℕ → ℕ → Type 0
Missing cat a p =
    Any (λ t. (t.action_id ≡ a) × In p t.prerequisite_action_ids) cat × (¬ In p (ids cat))

check_prerequisites-raise :
    (cat : Catalog) (a : ℕ) (ps : List ℕ) {e : Error}
    → check_prerequisites cat a ps ≡ raise e
    → (p : ℕ) × (e ≡ missing_prerequisite_template a p) × In p ps × (¬ In p (ids cat))
unfolding check_prerequisites
check_prerequisites-raise cat a [] h = absurd (cc h)
check_prerequisites-raise cat a (p ∷ ps) {e} h = elim (Bool-cases (is_some (get p cat))) [
  | inl found ↦
      let (q, same, i, n) =
        check_prerequisites-raise cat a ps {e = e} (rw (found, check_prerequisites) at h) in
      (q, same, inr i, n)
  | inr lost ↦ (p, ground arith, inl refl, λ i. let (t, g) = get-In p cat i in ground arith)
]

check_present_in-raise :
    (cat : Catalog) (ts : List ActivityTemplate) {e : Error}
    → check_present_in cat ts ≡ raise e
    → (a : ℕ) × (p : ℕ) × (e ≡ missing_prerequisite_template a p)
      × Any (λ t. (t.action_id ≡ a) × In p t.prerequisite_action_ids) ts
      × (¬ In p (ids cat))
unfolding check_present_in
check_present_in-raise cat [] h = absurd (cc h)
check_present_in-raise cat (t ∷ ts) {e} h =
    go (check_prerequisites cat t.action_id t.prerequisite_action_ids) refl
      (λ k. check_present_in-raise cat ts {e = e} k) h
  where
    Found : List ActivityTemplate → Type 0
    Found us =
        (a : ℕ) × (p : ℕ) × (e ≡ missing_prerequisite_template a p)
        × Any (λ t. (t.action_id ≡ a) × In p t.prerequisite_action_ids) us
        × (¬ In p (ids cat))

    go :
        (r : Result Error (Unit {0}))
        → check_prerequisites cat t.action_id t.prerequisite_action_ids ≡ r
        → (check_present_in cat ts ≡ raise e → Found ts)
        → (r >> check_present_in cat ts) ≡ raise e
        → Found (t ∷ ts)
    go (ok x) q later k = let (a, p, s, i, n) = later k in (a, p, s, inr i, n)
    go (raise f) q later k =
        let (p, s, i, n) =
          check_prerequisites-raise cat t.action_id t.prerequisite_action_ids {e = f} q in
        let s2 : e ≡ missing_prerequisite_template t.action_id p = cc (k, s) in
        (t.action_id, p, s2, inl (refl, i), n)

-- The three ways to end.
abbrev Ways : Catalog → Outcome Error Marks → Type 0
Ways cat o =
    ((m : Marks) × (o ≡ done m) × IsClosed cat × ((a : ℕ) → In a (ids cat) → ¬ Requires cat a a))
    ⊎ ((a : ℕ) × (p : ℕ) × (o ≡ failed (missing_prerequisite_template a p)) × Missing cat a p)
    ⊎ ((c : ℕ) × (o ≡ failed (prerequisite_cycle c)) × Requires cat c c)

abbrev Searched : Catalog → Outcome Error Marks → Type 0
Searched cat = Ends cat (λ x. In x (sorted (ids cat))) (record { visiting = []; visited = [] })

Ways-of_search :
    (cat : Catalog) → IsClosed cat → (o : Outcome Error Marks) → Searched cat o → Ways cat o
Ways-of_search cat closed (done m) h =
    inl
      (m, refl, closed, (λ a i. Topo-acyclic cat m.visited a h.1 (h.2 a (In-sorted a (ids cat) i))))
Ways-of_search cat closed (failed e) (c, same, r) = inr (inr (c, ap failed same, r))
Ways-of_search cat closed diverge h = absurd h

Ways-of_present :
    (cat : Catalog) (r : Result Error (Unit {0}))
    → check_present cat ≡ r
    → Ways cat (if_present r (check_acyclic cat))
unfolding if_present check_present
Ways-of_present cat (ok x) q =
    let closed = check_present-ok cat q in
    Ways-of_search cat closed (check_acyclic cat) (check_acyclic-Ends cat closed)
Ways-of_present cat (raise e) q =
    let (a, p, same, i, n) = check_present_in-raise cat cat {e = e} q in
    inr (inl (a, p, ap failed same, (i, n)))

-- The validation ends on every catalog, in one of three ways: it accepts, every prerequisite is a
-- template and no action needs itself, directly or through others; it reports a prerequisite that
-- is missing; or it reports a cycle with an action that needs itself.
pub validate_dependencies_decides :
    (cat : Catalog)
    → let o = validate_dependencies cat in
      ((m : Marks) × (o ≡ done m) × IsClosed cat × ((a : ℕ) → In a (ids cat) → ¬ Requires cat a a))
      ⊎ ((a : ℕ) × (p : ℕ) × (o ≡ failed (missing_prerequisite_template a p)) × Missing cat a p)
      ⊎ ((c : ℕ) × (o ≡ failed (prerequisite_cycle c)) × Requires cat c c)
unfolding validate_dependencies
validate_dependencies_decides cat = Ways-of_present cat (check_present cat) refl

-- The order in which an accepted catalog was visited: topological, and of all its actions.
pub validate_dependencies-order :
    (cat : Catalog) {m : Marks}
    → validate_dependencies cat ≡ done m
    → IsClosed cat × Topo cat m.visited × ((a : ℕ) → In a (ids cat) → In a m.visited)
unfolding validate_dependencies
validate_dependencies-order cat {m} h = go (check_present cat) refl h
  where
    found :
        IsClosed cat
        → (o : Outcome Error Marks) → Searched cat o
        → o ≡ done m
        → IsClosed cat × Topo cat m.visited × ((a : ℕ) → In a (ids cat) → In a m.visited)
    found closed (done n) k e =
        let same : n ≡ m = cc e in
        (
          closed,
          subst (λ (x : Marks). Topo cat x.visited) same k.1,
          λ a i. subst (λ (x : Marks). In a x.visited) same (k.2 a (In-sorted a (ids cat) i)),
        )
    found closed (failed f) k e = absurd (cc e)
    found closed diverge k e = absurd k

    go :
        (r : Result Error (Unit {0}))
        → check_present cat ≡ r
        → if_present r (check_acyclic cat) ≡ done m
        → IsClosed cat × Topo cat m.visited × ((a : ℕ) → In a (ids cat) → In a m.visited)
    go (ok x) q e =
        found (check_present-ok cat q) (check_acyclic cat)
          (check_acyclic-Ends cat (check_present-ok cat q)) e
    go (raise f) q e = absurd (cc e)
