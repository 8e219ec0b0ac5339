-- ===== src/Recompute/Worker/Proposals.antt =====
-- The proposal and the trace that `finalize_recompute`
-- (src/jobtology_be/infrastructure/persistence/worker.py) stores.
use jobtology_be.Common.{
  ℕ, ◌≡◌, ◌≢◌, sym, ap, ◌∙◌, subst, inl, inr, Option, none, some, Option-cases, ok, ◌>>=◌, bind-ok,
  ok-inj, seq-ok, ◌>>◌,
}
use jobtology_be.Recompute.{RouteProposal, Store, RecomputeWorkItem}
use jobtology_be.Recompute.Worker.{
  RouteProposalPersist, RecomputeArtifacts, RecomputeFinalization, check_artifacts, check_owner,
  check_lease, check_request, check_goal, insert, insert_analysis, insert_proposal, update_request,
  finalized, point_to, complete_job, close_work, record_results, finalize_recompute,
}
use jobtology_be.Recompute.Worker.Steps.{
  insert-ok, update_request-ok, complete_job-ok, insert_analysis-ok, point_to_lem,
}
use jobtology_be.Recompute.Worker.Rows.{write-at, write-other}

-- A table has one more row, under a key that was free.
pub record HasAdded {A : Type 0} (k : ℕ) (a : A) (table table' : ℕ → Option A) : Type 0 where
  pub was_free : table k ≡ none
  pub added : table' k ≡ some a
  pub others : (i : ℕ) → i ≢ k → table' i ≡ table i

-- What becomes of the tables of proposals and of traces: a row more in each, or nothing.
abbrev pub Stored :
    Option RouteProposalPersist
    → (ℕ → Option RouteProposal)
    → (ℕ → Option ℕ)
    → (ℕ → Option RouteProposal)
    → (ℕ → Option ℕ)
    → Type 0
Stored none proposals traces proposals' traces' = (proposals' ≡ proposals) × (traces' ≡ traces)
Stored (some p) proposals traces proposals' traces' =
    HasAdded p.proposal_id p.proposal proposals proposals'
    × HasAdded p.proposal.trace_id p.trace_outputs traces traces'

insert-HasAdded :
    {A : Type 0} (k : ℕ) (a : A) (table table' : ℕ → Option A)
    → insert k a table ≡ ok table'
    → HasAdded k a table table'
insert-HasAdded {A} k a table table' e =
    let (free, same) = insert-ok k a table table' e in
    subst (HasAdded k a table) (sym same)
      (record { was_free = free; added = write-at k a table; others = write-other k a table })

insert_proposal-Stored :
    (artifacts : RecomputeArtifacts) (s s' : Store)
    → insert_proposal artifacts s ≡ ok s'
    → Stored artifacts.proposal s.route_proposals s.calculation_traces s'.route_proposals
        s'.calculation_traces
unfolding insert_proposal
insert_proposal-Stored artifacts s s' e = elim (Option-cases artifacts.proposal) [
  | inl n ↦
      let same = ok-inj s s' (rw (n, insert_proposal) at e) in
      subst
        (λ o.
          Stored o s.route_proposals s.calculation_traces s'.route_proposals s'.calculation_traces)
        (sym n) (ap (λ x. x.route_proposals) (sym same), ap (λ x. x.calculation_traces) (sym same))
  | inr (p, f) ↦
      let (traces, t, g) =
        bind-ok (insert p.proposal.trace_id p.trace_outputs s.calculation_traces)
          (λ traces. insert p.proposal_id p.proposal s.route_proposals >>= λ rows.
            ok (record s { calculation_traces = traces; route_proposals = rows }))
          s' (rw (f, insert_proposal) at e) in
      let (rows, r, h) =
        bind-ok (insert p.proposal_id p.proposal s.route_proposals)
          (λ rows. ok (record s { calculation_traces = traces; route_proposals = rows })) s' g in
      let same = ok-inj (record s { calculation_traces = traces; route_proposals = rows }) s' h in
      let both : Stored (some p) s.route_proposals s.calculation_traces s'.route_proposals
          s'.calculation_traces =
        subst
          (λ x.
            Stored (some p) s.route_proposals s.calculation_traces x.route_proposals
              x.calculation_traces)
          same
          (
            insert-HasAdded p.proposal_id p.proposal s.route_proposals rows r,
            insert-HasAdded p.proposal.trace_id p.trace_outputs s.calculation_traces traces t,
          ) in
      subst
        (λ o.
          Stored o s.route_proposals s.calculation_traces s'.route_proposals s'.calculation_traces)
        (sym f) both
]

record_results-Stored :
    (item : RecomputeWorkItem) (artifacts : RecomputeArtifacts) (now clock : ℕ) (s : Store)
    (r : RecomputeFinalization × Store)
    → record_results item artifacts now clock s ≡ ok r
    → Stored artifacts.proposal s.route_proposals s.calculation_traces r.1.route_proposals
        r.1.calculation_traces
unfolding record_results close_work
record_results-Stored item artifacts now clock s r e =
    let id = artifacts.analysis.analysis_id in
    let last = close_work item artifacts clock in
    let third = λ (x : Store). update_request item (finalized artifacts now) x >>= last in
    let (s₁, w₁, e₁) =
      bind-ok (insert_analysis artifacts s) (λ s₁. insert_proposal artifacts s₁ >>= third) r e in
    let (s₂, w₂, e₂) = bind-ok (insert_proposal artifacts s₁) third r e₁ in
    let (s₃, w₃, e₃) = bind-ok (update_request item (finalized artifacts now) s₂) last r e₂ in
    let (s₄, w₄, e₄) = bind-ok (complete_job item clock (point_to item id s₃)) _ r e₃ in
    let p₁ = (insert_analysis-ok artifacts s s₁ w₁).1 in
    let p₃ = (update_request-ok item (finalized artifacts now) s₂ s₃ w₃).2 in
    let p₄ = (complete_job-ok item clock (point_to item id s₃) s₄ w₄).3 in
    let p = point_to_lem item id s₃ in
    let stored = insert_proposal-Stored artifacts s₁ s₂ w₂ in
    let end = ap (λ x. x.1) (ok-inj (_, s₄) r e₄) in
    let rows : s₂.route_proposals ≡ r.1.route_proposals = sym (
      sym (ap (λ x. x.route_proposals) end)
      ∙ ap (λ x. x.route_proposals) p₄
      ∙ ap (λ x. x.route_proposals) p
      ∙ ap (λ x. x.route_proposals) p₃) in
    let traces : s₂.calculation_traces ≡ r.1.calculation_traces = sym (
      sym (ap (λ x. x.calculation_traces) end)
      ∙ ap (λ x. x.calculation_traces) p₄
      ∙ ap (λ x. x.calculation_traces) p
      ∙ ap (λ x. x.calculation_traces) p₃) in
    let before =
      subst
        (λ t.
          Stored artifacts.proposal t s₁.calculation_traces s₂.route_proposals
            s₂.calculation_traces)
        (ap (λ x. x.route_proposals) p₁) stored in
    let before' =
      subst
        (λ t.
          Stored artifacts.proposal s.route_proposals t s₂.route_proposals s₂.calculation_traces)
        (ap (λ x. x.calculation_traces) p₁) before in
    subst
      (λ t.
        Stored artifacts.proposal s.route_proposals s.calculation_traces t r.1.calculation_traces)
      rows
      (subst
        (λ t. Stored artifacts.proposal s.route_proposals s.calculation_traces s₂.route_proposals t)
        traces before')

pub finalize_recompute-Stored :
    (item : RecomputeWorkItem) (artifacts : RecomputeArtifacts) (now clock : ℕ) (s : Store)
    (r : RecomputeFinalization × Store)
    → finalize_recompute item artifacts now clock s ≡ ok r
    → Stored artifacts.proposal s.route_proposals s.calculation_traces r.1.route_proposals
        r.1.calculation_traces
unfolding finalize_recompute
finalize_recompute-Stored item artifacts now clock s r e =
    let last = record_results item artifacts now clock s in
    let asked = check_request item s >> (check_goal item artifacts s >> last) in
    let held = check_lease item now s >> asked in
    let e₁ = (seq-ok (check_artifacts item artifacts) (check_owner item s >> held) r e).1 in
    let e₂ = (seq-ok (check_owner item s) held r e₁).1 in
    let e₃ = (seq-ok (check_lease item now s) asked r e₂).1 in
    let e₄ = (seq-ok (check_request item s) (check_goal item artifacts s >> last) r e₃).1 in
    let e₅ = (seq-ok (check_goal item artifacts s) last r e₄).1 in
    record_results-Stored item artifacts now clock s r e₅
