-- ===== src/Planning/Cycles/Search.antt =====
-- The search of Planning/Cycles.antt finds a cycle exactly when there is one, and its fuel is
-- enough: the actions being visited are distinct members of the catalog.
use jobtology_be.Common.{
  ℕ, zero, suc, ◌+◌, ◌<◌, ◌≡◌, refl, inl, inr, some, List, [], ◌∷◌, elem, In, elem→In, not-elem→In,
  IsNodup, length-le_of_nodup, All, All-In, sorted, In-sorted, sorted-In, remove_head, length,
  arith, Bool-cases, Outcome, done, failed, diverge, then_do, for_each, subst, sym, ap, ◌∙◌,
}
use jobtology_be.Planning.Templates.{ActivityTemplate}
use jobtology_be.Planning.Catalog.{
  Catalog, Error, prerequisite_cycle, ids, get, get-In, get-All, IsClosed,
}
use jobtology_be.Planning.Graph.{Needs, Requires, direct, extend, Topo}
use jobtology_be.Planning.Cycles.{Marks, leave, visit, check_acyclic}

-- What a call that began with the marks `m` has done, by how it ended: it has visited `a` and all
-- that it needs, in a topological order, or it has found an action that needs itself.
abbrev pub Ends : Catalog → (ℕ → Type 0) → Marks → Outcome Error Marks → Type 0
Ends cat Seen m (done m') =
    (m'.visiting ≡ m.visiting)
    × Topo cat m'.visited
    × ((x : ℕ) → Seen x → In x m'.visited)
    × ((x : ℕ) → In x m.visited → In x m'.visited)
Ends cat Seen m (failed e) = (c : ℕ) × (e ≡ prerequisite_cycle c) × Requires cat c c
Ends cat Seen m diverge = ⊥

-- The marks that a visit of `a` may begin with: every action on the path needs `a`.
record IsPath (cat : Catalog) (a : ℕ) (m : Marks) : Type 0 where
  known : In a (ids cat)
  distinct : IsNodup m.visiting
  members : (x : ℕ) → In x m.visiting → In x (ids cat)
  leads : (x : ℕ) → In x m.visiting → Requires cat x a
  ordered : Topo cat m.visited

-- A call that does what `visit` should, on every path as long as `v`.
abbrev Visits : Catalog → List ℕ → (ℕ → Marks → Outcome Error Marks) → Type 0
Visits cat v call =
    (a : ℕ) (m : Marks) → m.visiting ≡ v → IsPath cat a m → Ends cat (λ x. x ≡ a) m (call a m)

Ends-join :
    (cat : Catalog) (p : ℕ) (ps : List ℕ) (m m' : Marks)
    → Ends cat (λ x. x ≡ p) m (done m')
    → (o : Outcome Error Marks) → Ends cat (λ x. In x ps) m' o
    → Ends cat (λ x. In x (p ∷ ps)) m o
Ends-join cat p ps m m' h (done m'') k = (
  k.0 ∙ h.0,
  k.1,
  (λ x i. elim i [ inl e ↦ k.3 x (h.2 x e) | inr j ↦ k.2 x j ]),
  λ x i. k.3 x (h.3 x i),
)
Ends-join cat p ps m m' h (failed f) k = k
Ends-join cat p ps m m' h diverge k = k

Ends-then :
    (cat : Catalog) (p : ℕ) (ps : List ℕ) (m : Marks) (next : Marks → Outcome Error Marks)
    → (o : Outcome Error Marks) → Ends cat (λ x. x ≡ p) m o
    → ((m' : Marks) → Ends cat (λ x. x ≡ p) m (done m') → Ends cat (λ x. In x ps) m' (next m'))
    → Ends cat (λ x. In x (p ∷ ps)) m (then_do o next)
Ends-then cat p ps m next (done m') h k = Ends-join cat p ps m m' h (next m') (k m' h)
Ends-then cat p ps m next (failed f) h k = h
Ends-then cat p ps m next diverge h k = h

for_each-Ends :
    (cat : Catalog) (v : List ℕ) (call : ℕ → Marks → Outcome Error Marks)
    → Visits cat v call
    → (ps : List ℕ) (m : Marks) → m.visiting ≡ v
    → Topo cat m.visited
    → ((p : ℕ) → In p ps → (m' : Marks) → m'.visiting ≡ v → Topo cat m'.visited → IsPath cat p m')
    → Ends cat (λ x. In x ps) m (for_each call ps m)
unfolding for_each
for_each-Ends cat v call good [] m e t path = (refl, t, (λ x i. absurd i), λ x i. i)
for_each-Ends cat v call good (p ∷ ps) m e t path =
    Ends-then cat p ps m (λ m'. for_each call ps m') (call p m)
      (good p m e (path p (inl refl) m e t))
      (λ m' h. for_each-Ends cat v call good ps m' (h.0 ∙ e) h.1 (λ q i. path q (inr i)))

-- From the path to `a` to the path to a prerequisite of `a`.
IsPath-extend :
    (cat : Catalog) (a p : ℕ) (m m' : Marks) (t : ActivityTemplate)
    → IsClosed cat
    → IsPath cat a m
    → (¬ In a m.visiting)
    → get a cat ≡ some t
    → In p (sorted t.prerequisite_action_ids)
    → m'.visiting ≡ a ∷ m.visiting
    → Topo cat m'.visited
    → IsPath cat p m'
IsPath-extend cat a p m m' t closed h new found i e topo =
    let needs : Needs cat a p = (t, found, sorted-In p t.prerequisite_action_ids i) in
    record {
      known =
          All-In (λ q. In q (ids cat)) t.prerequisite_action_ids
            (get-All (λ u. All (λ q. In q (ids cat)) u.prerequisite_action_ids) a cat closed found)
            p (sorted-In p t.prerequisite_action_ids i);
      distinct = subst IsNodup (sym e) (new, h.distinct);
      members = λ x j. member x (subst (In x) e j);
      leads = λ x j. lead x (subst (In x) e j) needs;
      ordered = topo;
    }
  where
    member : (x : ℕ) → In x (a ∷ m.visiting) → In x (ids cat)
    member x (inl s) = subst (λ k. In k (ids cat)) (sym s) h.known
    member x (inr j) = h.members x j

    lead : (x : ℕ) → In x (a ∷ m.visiting) → Needs cat a p → Requires cat x p
    lead x (inl s) n = direct (subst (λ k. Needs cat k p) (sym s) n)
    lead x (inr j) n = extend cat (h.leads x j) n

-- Leaving `a` after all its prerequisites keeps the order topological.
Ends-leave :
    (cat : Catalog) (a : ℕ) (m : Marks) (t : ActivityTemplate)
    → get a cat ≡ some t
    → (o : Outcome Error Marks)
    → Ends cat
        (λ x. In x (sorted t.prerequisite_action_ids))
        (record m { visiting = a ∷ m.visiting })
        o
    → Ends cat (λ x. x ≡ a) m (then_do o (leave a))
unfolding leave
Ends-leave cat a m t found (done m') h = (
  rw h.0 (remove_head a m.visiting),
  ((λ p n. h.2 p (In-sorted p t.prerequisite_action_ids (prereq p n))), h.1),
  (λ x e. inl e),
  λ x i. inr (h.3 x i),
)
  where
    prereq : (p : ℕ) → Needs cat a p → In p t.prerequisite_action_ids
    prereq p (u, e, i) =
        let same : u ≡ t = cc (e, found) in subst (λ k. In p k.prerequisite_action_ids) same i
Ends-leave cat a m t found (failed f) h = h
Ends-leave cat a m t found diverge h = h

-- The fuel left for a longer path.
fuel_left :
    (n fuel : ℕ) (v : List ℕ) (a : ℕ) (m : Marks)
    → n < suc fuel + length v
    → m.visiting ≡ a ∷ v
    → n < fuel + length m.visiting
fuel_left n fuel v a m lt e = omega (arith, ap length e)

-- With fuel for the actions that are not on the path yet, a visit does what it should.
visit-Ends :
    (cat : Catalog)
    → IsClosed cat
    → (fuel : ℕ) (a : ℕ) (m : Marks) → length (ids cat) < fuel + length m.visiting
    → IsPath cat a m
    → Ends cat (λ x. x ≡ a) m (visit cat fuel a m)
unfolding visit
visit-Ends cat closed zero a m lt h =
    absurd (omega (arith, length-le_of_nodup m.visiting (ids cat) h.distinct h.members))
visit-Ends cat closed (suc fuel) a m lt h = elim (Bool-cases (elem a m.visiting)) [
  | inl e ↦ rw e (a, refl, h.leads a (elem→In a m.visiting e))
  | inr e ↦ elim (Bool-cases (elem a m.visited)) [
    | inl f ↦
        rw (e, f)
          (
            refl,
            h.ordered,
            (λ x s. subst (λ k. In k m.visited) (sym s) (elem→In a m.visited f)),
            λ x i. i,
          )
    | inr f ↦
        let (t, found) = get-In a cat h.known in
        let m1 : Marks = record m { visiting = a ∷ m.visiting } in
        let new = not-elem→In a m.visiting e in
        rw (e, f, found)
          (Ends-leave cat a m t found
            (for_each (visit cat fuel) (sorted t.prerequisite_action_ids) m1)
            (for_each-Ends cat (a ∷ m.visiting) (visit cat fuel)
              (λ b m2 e2 path.
                visit-Ends cat closed fuel b m2
                  (fuel_left (length (ids cat)) fuel m.visiting a m2 lt e2) path)
              (sorted t.prerequisite_action_ids) m1 refl h.ordered
              (λ p i m2 e2 topo. IsPath-extend cat a p m m2 t closed h new found i e2 topo)))
  ]
]

pub check_acyclic-Ends :
    (cat : Catalog)
    → IsClosed cat
    → Ends cat
        (λ x. In x (sorted (ids cat)))
        (record { visiting = []; visited = [] })
        (check_acyclic cat)
unfolding check_acyclic
check_acyclic-Ends cat closed =
    for_each-Ends cat [] (visit cat (suc (length (ids cat))))
      (λ a m e path. visit-Ends cat closed (suc (length (ids cat))) a m (omega arith) path)
      (sorted (ids cat)) (record { visiting = []; visited = [] }) refl tt
      (λ p i m e topo. start p m (sorted-In p (ids cat) i) e topo)
  where
    start :
        (p : ℕ) (m : Marks) → In p (ids cat) → m.visiting ≡ [] → Topo cat m.visited → IsPath cat p m
    start p m i e topo = record {
      known = i;
      distinct = subst IsNodup (sym e) tt;
      members = λ x j. absurd (subst (In x) e j);
      leads = λ x j. absurd (subst (In x) e j);
      ordered = topo;
    }
