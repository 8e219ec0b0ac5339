-- ===== src/Planning/Generator/Blockers.antt =====
-- What `_build_ready` (src/jobtology_be/planning/candidates.py) says of each unmet requirement.
use jobtology_be.Common.{
  ℕ, ◌≡◌, ◌∙◌, ap, All-both, sym, subst, ◌⊎◌, inl, inr, Bool, true, false, some, List, [], ◌∷◌,
  ◌++◌, elem, elem→In, In, IsNodup, All, All-map, All-keep, keep-All, Any, Any-map, Any-pick,
  Any-images, Any-append_right, keep, keep_self, sort_by, sort_by-All, sort_by-All_inv, leb,
  Bool-cases,
}
use jobtology_be.Editorial.{RequirementEvaluation, is_empty}
use jobtology_be.Planning.Templates.{ActivityTemplate, Candidate, CandidateBlocker, no_activities}
use jobtology_be.Planning.Catalog.{Catalog, ids, get, get_self, ids_self}
use jobtology_be.Planning.Expand.{candidate_of}
use jobtology_be.Planning.Expand.Ordered.{action_ids}
use jobtology_be.Planning.Expand.Included.{Made}
use jobtology_be.Planning.Generator.{
  is_unmet, unmet_of, roots_of, teaches_one, has_no_root, activity_blockers,
}

-- A candidate works towards a requirement.
abbrev pub Teaches : RequirementEvaluation → Candidate → Type 0
Teaches e c = In e.requirement_key c.outcome_requirement_keys

-- The blocker that reports a requirement with no activity.
abbrev pub blocker_of : RequirementEvaluation → CandidateBlocker
blocker_of e = no_activities e.requirement_key e.label e.support_refs

empty_keep :
    {A : Type 0} (p : A → Bool) (xs : List A)
    → is_empty (keep p xs) ≡ false
    → Any (λ x. p x ≡ true) xs
empty_keep p [] h = absurd (cc h)
empty_keep p (x ∷ xs) h = elim (Bool-cases (p x)) [
  | inl e ↦ inl e
  | inr e ↦ inr (empty_keep p xs (rw e at h))
]

-- The candidate of an action ID that is included.
candidate_with :
    (es : List RequirementEvaluation) (cat : Catalog) (x : ℕ) (cs : List Candidate)
    → In x (action_ids cs)
    → All (Made es cat) cs
    → Any (λ c. (c.action_id ≡ x) × Made es cat c) cs
candidate_with es cat x [] i m = absurd i
candidate_with es cat x (c ∷ cs) (inl e) m = inl (sym e, m.0)
candidate_with es cat x (c ∷ cs) (inr i) m = inr (candidate_with es cat x cs i m.1)

module _ (es : List RequirementEvaluation) (cat : Catalog) where
  same_outcomes :
      (t : ActivityTemplate) (c : Candidate)
      → get t.action_id cat ≡ some t
      → (c.action_id ≡ t.action_id) × Made es cat c
      → c.outcome_requirement_keys ≡ t.outcome_requirement_keys
  unfolding candidate_of
  same_outcomes t c found (same, (u, got, made)) =
      let one : u ≡ t = cc (same, got, found) in
      ap (λ (d : Candidate). d.outcome_requirement_keys) made
      ∙ ap (λ (v : ActivityTemplate). v.outcome_requirement_keys) one

  -- A root that teaches a requirement becomes a candidate that does.
  root_candidate :
      (e : RequirementEvaluation) (roots : List ActivityTemplate) (cs : List Candidate)
      → has_no_root roots e ≡ false
      → All (λ t. get t.action_id cat ≡ some t) roots
      → All (Made es cat) cs
      → ((x : ℕ) → In x (ids roots) → In x (action_ids cs))
      → Any (Teaches e) cs
  unfolding has_no_root
  root_candidate e roots cs some_root found made all_in =
      let (t, teaches, both) =
        Any-pick (λ t. elem e.requirement_key t.outcome_requirement_keys ≡ true)
          (λ t. (get t.action_id cat ≡ some t) × In t.action_id (ids roots)) roots
          (empty_keep (λ t. elem e.requirement_key t.outcome_requirement_keys) roots some_root)
          (All-both (λ t. get t.action_id cat ≡ some t) (λ t. In t.action_id (ids roots)) roots
            found (ids_self roots)) in
      Any-map (λ c. (c.action_id ≡ t.action_id) × Made es cat c) (Teaches e) cs
        (λ c m.
          subst (In e.requirement_key) (sym (same_outcomes t c both.0 m))
            (elem→In e.requirement_key t.outcome_requirement_keys teaches))
        (candidate_with es cat t.action_id cs (all_in t.action_id both.1) made)

  -- Every wanted requirement has a candidate or a blocker.
  pub wanted_answered :
      (wanted : List RequirementEvaluation) (roots : List ActivityTemplate) (cs : List Candidate)
      → All (λ t. get t.action_id cat ≡ some t) roots
      → All (Made es cat) cs
      → ((x : ℕ) → In x (ids roots) → In x (action_ids cs))
      → (blockers : List CandidateBlocker)
      → All
          (λ e.
            Any (Teaches e) cs
            ⊎ Any (λ b. b ≡ blocker_of e) (blockers ++ activity_blockers wanted roots))
          wanted
  unfolding activity_blockers
  wanted_answered wanted roots cs found made all_in blockers =
      All-map (λ e. has_no_root roots e ≡ true → Any (λ x. x ≡ e) (keep (has_no_root roots) wanted))
        _ wanted
        (λ e reported. elim (Bool-cases (has_no_root roots e)) [
          | inl lost ↦ inr (
              Any-append_right (λ b. b ≡ blocker_of e) blockers _
                (Any-images (λ x. x ≡ e) (λ b. b ≡ blocker_of e) blocker_of
                  (keep (has_no_root roots) wanted) (λ x same. ap blocker_of same) (reported lost)))
          | inr kept ↦ inl (root_candidate e roots cs kept found made all_in)
        ])
        (keep_self (has_no_root roots) wanted)

  pub roots_found :
      (wanted : List RequirementEvaluation)
      → IsNodup (ids cat)
      → All (λ t. (get t.action_id cat ≡ some t) × In t.action_id (ids cat)) (roots_of wanted cat)
  unfolding roots_of
  roots_found wanted distinct =
      keep-All _ (teaches_one wanted) (sort_by (λ a b. leb a.action_id b.action_id) cat) (
        sort_by-All _ (λ a b. leb a.action_id b.action_id) cat
          (All-both _ _ cat (get_self cat distinct) (ids_self cat)))

-- From the wanted requirements, sorted, back to those of the analysis.
pub unmet_of-All :
    (P : RequirementEvaluation → Type 0) (es : List RequirementEvaluation)
    → All P (unmet_of es)
    → All (λ e. is_unmet e.status ≡ true → P e) es
unfolding unmet_of
unmet_of-All P es h =
    sort_by-All_inv (λ e. is_unmet e.status ≡ true → P e)
      (λ a b. leb a.requirement_key b.requirement_key) es
      (All-keep P (λ e. is_unmet e.status)
        (sort_by (λ a b. leb a.requirement_key b.requirement_key) es) h)
