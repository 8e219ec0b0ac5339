-- ===== src/Planning/Hint/Run.antt =====
-- The list schedule ends, in a valid schedule (`_add_schedule_hint` of
-- src/jobtology_be/planning/cp_sat_model.py).
use jobtology_be.Common.{
  ℕ, zero, suc, ◌≤◌, ◌≡◌, refl, sym, ap, subst, inl, inr, true, none, some, List, [], ◌∷◌, All,
  All-both, All-map, IsNodup, length, sort_by, sort_by-All, arith, Bool-cases, Option-cases, ok,
  raise_if, raise_if-ok, seq-ok, done,
}
use mathlib.Core.Option.{some-injective}
use jobtology_be.Planning.Templates.{Candidate}
use jobtology_be.Planning.Problem.{candidates_not_unique, PlanningProblem, repeats}
use jobtology_be.Planning.Route.{check_each, validate_candidates}
use jobtology_be.Planning.Hint.{
  Schedule, find, is_ready, take_ready, place, run, by_priority, empty_schedule, list_schedule,
}
use jobtology_be.Planning.Hint.Invariant.{Allocations, Member, ids_of, IsValid}
use jobtology_be.Planning.Hint.Order.{
  not-In-All, All-not-In, sort_by-apart, length-sort_by, repeats-IsNodup,
}
use jobtology_be.Planning.Hint.Place.{place-IsValid, place-find}

-- What the choice of the next candidate does to the pending ones.
record Took (prior : Allocations) (pending : List Candidate) (c : Candidate) (rest : List Candidate)
    : Type 1 where
  ready : is_ready prior c ≡ true
  shorter : length pending ≡ suc (length rest)
  split : (P : Candidate → Type 0) → All P pending → P c × All P rest
  apart :
      IsNodup (ids_of pending)
      → IsNodup (ids_of rest) × All (λ d. ¬ (c.action_id ≡ d.action_id)) rest

take_ready-Took :
    (prior : Allocations) (pending : List Candidate) (r : Candidate × List Candidate)
    → take_ready prior pending ≡ some r
    → Took prior pending r.0 r.1
take_ready-Took prior [] r h = absurd (cc h)
take_ready-Took prior (c ∷ cs) r h = elim (Bool-cases (is_ready prior c)) [
  | inl e ↦
      let same = some-injective (c, cs) r (rw e at h) in
      subst (λ q. Took prior (c ∷ cs) q.0 q.1) same
        (record {
          ready = e;
          shorter = refl;
          split = λ P k. k;
          apart = λ n. (n.1, not-In-All c.action_id cs n.0);
        })
  | inr e ↦ elim (Option-cases (take_ready prior cs)) [
    | inl none_ready ↦ absurd (cc (rw (e, none_ready) at h))
    | inr (q, found) ↦
        let same = some-injective (q.0, c ∷ q.1) r (rw (e, found) at h) in
        let t = take_ready-Took prior cs q found in
        subst (λ z. Took prior (c ∷ cs) z.0 z.1) same
          (record {
            ready = t.ready;
            shorter = ap suc t.shorter;
            split = λ P k. ((t.split P k.1).0, (k.0, (t.split P k.1).1));
            apart = λ n.
                let both =
                  t.split (λ d. ¬ (c.action_id ≡ d.action_id)) (not-In-All c.action_id cs n.0) in
                (
                  (All-not-In c.action_id q.1 both.1, (t.apart n.1).0),
                  ((λ x. both.0 (sym x)), (t.apart n.1).1),
                );
          })
  ]
]

module _ (p : PlanningProblem) (cs : List Candidate) (n : IsNodup (ids_of cs)) where
  abbrev IsPending : Schedule → Candidate → Type 0
  IsPending s c = Member c cs × (find c.action_id s.allocations ≡ none)

  still-IsPending :
      (s : Schedule) (c : Candidate) (rest : List Candidate)
      → All (λ d. ¬ (c.action_id ≡ d.action_id)) rest
      → All (IsPending s) rest
      → All (IsPending (place p c s)) rest
  still-IsPending s c rest ne h =
      All-map (λ d. (¬ (c.action_id ≡ d.action_id)) × IsPending s d) (IsPending (place p c s)) rest
        (λ d k. (k.1.0, place-find p cs s c d.action_id k.0 k.1.1))
        (All-both (λ d. ¬ (c.action_id ≡ d.action_id)) (IsPending s) rest ne h)

  -- With a round for each pending candidate the loop ends, in a valid schedule.
  pub run_done :
      (fuel : ℕ) (pending : List Candidate) (s : Schedule)
      → length pending ≤ fuel
      → IsNodup (ids_of pending)
      → All (IsPending s) pending
      → IsValid p cs s
      → (s' : Schedule) × (run p fuel pending s ≡ done s') × IsValid p cs s'
  unfolding run
  run_done fuel [] s f u h v = (s, refl, v)
  run_done zero (c ∷ rest) s f u h v = absurd (omega (arith, f))
  run_done (suc fuel) (c ∷ rest) s f u h v =
      elim (Option-cases (take_ready s.allocations (c ∷ rest))) [
        | inl e ↦ rw (e, run) (s, refl, v)
        | inr (r, e) ↦
            let t = take_ready-Took s.allocations (c ∷ rest) r e in
            let both = t.split (IsPending s) h in
            let apart = t.apart u in
            let shorter = t.shorter in
            rw (e, run)
              (run_done fuel r.1 (place p r.0 s) (omega (arith, f, shorter)) apart.0
                (still-IsPending s r.0 r.1 apart.1 both.1)
                (place-IsValid p cs s r.0 n both.0.0 both.0.1 t.ready v))
      ]

pub validate_candidates-apart :
    (cs : List Candidate) → validate_candidates cs ≡ ok tt → IsNodup (ids_of cs)
unfolding validate_candidates
validate_candidates-apart cs h =
    let unique =
      seq-ok (raise_if (repeats (ids_of cs)) candidates_not_unique) (check_each (ids_of cs) cs) tt
        h in
    repeats-IsNodup (ids_of cs) (raise_if-ok (repeats (ids_of cs)) candidates_not_unique unique.0)

members :
    (cs : List Candidate)
    → All (λ c. Member c cs × (find c.action_id (empty_schedule.allocations) ≡ none)) cs
members [] = tt
members (c ∷ cs) = (
  (inl refl, refl),
  All-map (λ d. Member d cs × (find d.action_id (empty_schedule.allocations) ≡ none))
      (λ d. Member d (c ∷ cs) × (find d.action_id (empty_schedule.allocations) ≡ none)) cs
      (λ d h. (inr h.0, refl)) (members cs),
)

-- Of candidates that are accepted the list schedule ends, in a valid schedule.
pub list_schedule_ends :
    (p : PlanningProblem) (cs : List Candidate)
    → validate_candidates cs ≡ ok tt
    → (s : Schedule) × (list_schedule p cs ≡ done s) × IsValid p cs s
unfolding list_schedule
list_schedule_ends p cs h =
    let le = by_priority p.foundational_priority_action_ids in
    let apart = validate_candidates-apart cs h in
    run_done p cs apart (length cs) (sort_by le cs) empty_schedule
      (let same = length-sort_by le cs in omega (arith, same)) (sort_by-apart le cs apart)
      (sort_by-All (λ c. Member c cs × (find c.action_id (empty_schedule.allocations) ≡ none)) le cs
        (members cs))
      (record {
        entries = tt;
        apart = λ i. omega arith;
        weeks = λ w. refl;
        within = λ w. omega arith;
        money = refl;
        capped = λ cap e. omega arith;
      })
