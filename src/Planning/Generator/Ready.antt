-- ===== src/Planning/Generator/Ready.antt =====
-- `build` for a generator that exists and an analysis that is ready
-- (src/jobtology_be/planning/candidates.py).
use jobtology_be.Common.{
  ◌≡◌, refl, ◌⊎◌, true, List, [], ◌++◌, In, IsNodup, All, All-map, Any, Result, ok, raise, Outcome,
  done, failed, diverge, subst, then_do,
}
use jobtology_be.Editorial.{RequirementEvaluation, EditorialAnalysis}
use jobtology_be.Planning.Templates.{ActivityTemplate, CandidateSet}
use jobtology_be.Planning.Catalog.{Catalog, Error, ids, catalog, catalog-ok, IsClosed}
use jobtology_be.Planning.Graph.{Topo-acyclic}
use jobtology_be.Planning.Cycles.{Marks, validate_dependencies}
use jobtology_be.Planning.Cycles.Decides.{validate_dependencies-order}
use jobtology_be.Planning.Expand.{Expansion, validate_outcomes, expand}
use jobtology_be.Planning.Expand.Ordered.{Ordered}
use jobtology_be.Planning.Expand.Included.{Made, Adds}
use jobtology_be.Planning.Expand.Ends.{IsAcyclic, expand-Adds}
use jobtology_be.Planning.Generator.{
  is_unmet, unmet_of, roots_of, activity_blockers, input_blockers, or_fail, candidate_set,
  build_ready, generator,
}
use jobtology_be.Planning.Generator.Blockers.{
  Teaches, blocker_of, wanted_answered, roots_found, unmet_of-All,
}

-- What the construction of a generator has checked.
pub record IsAccepted (ts : List ActivityTemplate) : Type 0 where
  pub same_catalog : catalog ts ≡ ok ts
  pub distinct : IsNodup (ids ts)
  pub closed : IsClosed ts
  pub acyclic : IsAcyclic ts

abbrev Accepts : List ActivityTemplate → Result Error Catalog → Type 0
Accepts ts r = or_fail r (λ cat. then_do (validate_dependencies cat) (λ _. done ts)) ≡ done ts

IsAcyclic-of :
    (cat : Catalog) (o : Outcome Error Marks)
    → validate_dependencies cat ≡ o
    → (ts : List ActivityTemplate) → then_do o (λ _. done ts) ≡ done ts
    → IsClosed cat × IsAcyclic cat
IsAcyclic-of cat (done m) e ts h =
    let found = validate_dependencies-order cat {m = m} e in
    (found.0, λ a i. Topo-acyclic cat m.visited a found.1 (found.2 a i))
IsAcyclic-of cat (failed x) e ts h = absurd (cc h)
IsAcyclic-of cat diverge e ts h = absurd (cc h)

IsAccepted-of :
    (ts : List ActivityTemplate) (r : Result Error Catalog)
    → catalog ts ≡ r
    → Accepts ts r
    → IsAccepted ts
IsAccepted-of ts (ok cat) e h =
    let kept = catalog-ok ts {cat = cat} e in
    let checked = IsAcyclic-of cat (validate_dependencies cat) refl ts h in
    record {
      same_catalog = subst (λ c. catalog ts ≡ ok c) kept.0 e;
      distinct = subst (λ c. IsNodup (ids c)) kept.0 kept.1;
      closed = subst IsClosed kept.0 checked.0;
      acyclic = subst IsAcyclic kept.0 checked.1;
    }
IsAccepted-of ts (raise x) e h = absurd (cc h)

pub generator-IsAccepted : (ts : List ActivityTemplate) → generator ts ≡ done ts → IsAccepted ts
unfolding generator
generator-IsAccepted ts h = IsAccepted-of ts (catalog ts) refl h

-- What a requirement that is not met has to show for it: a candidate that works towards it, or a
-- blocker that says that there is none.
abbrev pub IsAnswered : CandidateSet → RequirementEvaluation → Type 0
IsAnswered s e = Any (Teaches e) s.candidates ⊎ Any (λ b. b ≡ blocker_of e) s.blockers

-- What `_build_ready` returns.
pub record IsComplete (ts : List ActivityTemplate) (a : EditorialAnalysis) (s : CandidateSet)
    : Type 0 where
  pub ordered : Ordered [] s.candidates
  pub made : All (Made a.requirements ts) s.candidates
  pub answered : All (λ e. is_unmet e.status ≡ true → IsAnswered s e) a.requirements

module _ (ts : List ActivityTemplate) (a : EditorialAnalysis) (g : IsAccepted ts) where
  ready_of :
      (o : Outcome Error Expansion)
      → Adds a.requirements ts
          (λ x. In x (ids (roots_of (unmet_of a.requirements) ts)))
          (record { included = []; candidates = [] })
          o
      → let blockers =
          input_blockers a.requirements
          ++ activity_blockers (unmet_of a.requirements) (roots_of (unmet_of a.requirements) ts) in
        (s : CandidateSet) × (then_do o (λ x. done (candidate_set a x.candidates blockers))
          ≡ done s)
        × IsComplete ts a s
  unfolding candidate_set
  ready_of (done x) h = (
    candidate_set a x.candidates _,
    refl,
    record {
      ordered = h.0.ordered;
      made = h.0.made;
      answered = unmet_of-All _ a.requirements (
          wanted_answered a.requirements ts (unmet_of a.requirements)
            (roots_of (unmet_of a.requirements) ts) x.candidates
            (All-map _ _ _ (λ t k. k.0)
              (roots_found a.requirements ts (unmet_of a.requirements) g.distinct))
            h.0.made (λ y i. h.0.listed y (h.1 y i)) (input_blockers a.requirements));
    },
  )
  ready_of (failed e) h = absurd h
  ready_of diverge h = absurd h

-- For a generator that was constructed and an analysis whose keys cover the templates' outcomes,
-- the generator returns candidates: each is made from the template with its action ID, stands once
-- and behind all its open prerequisites, and every requirement that is unmet or partly met has a
-- candidate that works towards it or a blocker that reports that there is none.
pub build_ready-IsComplete :
    (ts : List ActivityTemplate) (a : EditorialAnalysis)
    → generator ts ≡ done ts
    → validate_outcomes a.requirements ts ≡ ok tt
    → (s : CandidateSet) × (build_ready ts a ≡ done s) × IsComplete ts a s
unfolding build_ready
build_ready-IsComplete ts a h checked =
    let g = generator-IsAccepted ts h in
    let roots = roots_of (unmet_of a.requirements) ts in
    rw (g.same_catalog, checked)
      (ready_of ts a g (expand a.requirements ts roots) (
        expand-Adds a.requirements ts g.closed g.acyclic roots (
          All-map _ _ roots (λ t k. k.1)
            (roots_found a.requirements ts (unmet_of a.requirements) g.distinct))))
