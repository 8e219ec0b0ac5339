-- ===== src/Planning/Hint/Chosen.antt =====
-- What a finished list schedule says of each candidate (`_add_schedule_hint` of
-- src/jobtology_be/planning/cp_sat_model.py).
use jobtology_be.Common.{
  ℕ, ◌≤◌, ◌≡◌, refl, sym, ap, ◌∙◌, subst, ◌⊎◌, inl, inr, true, false, none, some, List, [], ◌∷◌,
  is_some, leb, any, not, elem, ◌==◌, ==_iff, All, All-map, IsNodup, length, raise_if, raise_if-ok,
  seq-ok, ok, arith, Bool-cases, Option-cases,
}
use mathlib.Core.Option.{some-injective}
use jobtology_be.Planning.Templates.{Candidate}
use jobtology_be.Planning.Problem.{
  candidates_not_unique, effort_not_positive, prerequisite_not_included, PlanningProblem, repeats,
}
use jobtology_be.Planning.Route.{
  check_candidate, check_each, validate_candidates, is_available, availability_of, slots_of,
  is_unknown,
}
use jobtology_be.Planning.Hint.{Slot, find, chosen_for, after_slots}
use jobtology_be.Planning.Hint.Sublists.{Sub}
use jobtology_be.Planning.Hint.Invariant.{
  Allocations, Member, ids_of, same_candidate, IsEntry, Entries, find-chosen_for,
  find-chosen_for-none,
}

check_each-positive :
    (ids : List ℕ) (cs : List Candidate)
    → check_each ids cs ≡ ok tt
    → All (λ c. 1 ≤ c.estimated_hours) cs
check_each-positive ids [] h = tt
check_each-positive ids (c ∷ cs) h =
    let both = seq-ok (check_candidate ids c) (check_each ids cs) tt h in
    let first =
      seq-ok (raise_if (leb c.estimated_hours 0) effort_not_positive)
        (raise_if (any (λ p. not (elem p ids)) c.prerequisite_action_ids) prerequisite_not_included)
        tt both.0 in
    let positive = raise_if-ok (leb c.estimated_hours 0) effort_not_positive first.0 in
    (ground (arith, positive), check_each-positive ids cs both.1)

pub validate_candidates-positive :
    (cs : List Candidate) → validate_candidates cs ≡ ok tt → All (λ c. 1 ≤ c.estimated_hours) cs
unfolding validate_candidates
validate_candidates-positive cs h =
    let unique =
      seq-ok (raise_if (repeats (ids_of cs)) candidates_not_unique) (check_each (ids_of cs) cs) tt
        h in
    check_each-positive (ids_of cs) cs unique.1

Member-All :
    (P : Candidate → Type 0) (cs : List Candidate) → All P cs → (c : Candidate) → Member c cs → P c
Member-All P [] h c m = absurd m
Member-All P (x ∷ xs) h c (inl e) = subst P e h.0
Member-All P (x ∷ xs) h c (inr m) = Member-All P xs h.1 c m

pub each-Member : (cs : List Candidate) → All (λ c. Member c cs) cs
each-Member [] = tt
each-Member (c ∷ cs) = (
  inl refl,
  All-map (λ d. Member d cs) (λ d. Member d (c ∷ cs)) cs (λ d m. inr m) (each-Member cs),
)

module _ (p : PlanningProblem) (cs : List Candidate) (n : IsNodup (ids_of cs)) where
  -- Every allocation of the one list is one of the other.
  abbrev Within : Allocations → Allocations → Type 0
  Within older xs = (q : ℕ) (ys : List Slot) → find q older ≡ some ys → find q xs ≡ some ys

  grow :
      (a : ℕ) (ys : List Slot) (older xs : Allocations)
      → Within older xs
      → IsEntry p cs a ys older
      → IsEntry p cs a ys xs
  grow a ys older xs w e = record {
    owner = e.owner;
    owned = e.owned;
    named = e.named;
    picked = e.picked;
    available = e.available;
    hours = e.hours;
    cost_known = e.cost_known;
    behind =
        All-map
          (λ q. (zs : List Slot) × (find q older ≡ some zs) × All (λ u. after_slots zs ≤ u.0) ys)
          (λ q. (zs : List Slot) × (find q xs ≡ some zs) × All (λ u. after_slots zs ≤ u.0) ys)
          e.owner.prerequisite_action_ids (λ q h. (h.0, w q h.0 h.1, h.2)) e.behind;
  }

  Within-next :
      (x : ℕ × List Slot) (older : Allocations) → find x.0 older ≡ none → Within older (x ∷ older)
  Within-next x older new q ys h = elim (Bool-cases (x.0 == q)) [
    | inl e ↦ absurd (cc (subst (λ k. find k older ≡ none) ((==_iff x.0 q).0 e) new, h))
    | inr e ↦ rw e h
  ]

  -- The entry of an action that is allocated.
  IsEntry-at :
      (xs : Allocations) (a : ℕ) (ys : List Slot)
      → Entries p cs xs
      → find a xs ≡ some ys
      → IsEntry p cs a ys xs
  IsEntry-at [] a ys h e = absurd (cc e)
  IsEntry-at (x ∷ xs) a ys h e = elim (Bool-cases (x.0 == a)) [
    | inl t ↦
        let same = some-injective x.1 ys (rw t at e) in
        let key = (==_iff x.0 a).0 t in
        subst (λ k. IsEntry p cs k ys (x ∷ xs)) key
          (subst (λ zs. IsEntry p cs x.0 zs (x ∷ xs)) same
            (grow x.0 x.1 xs (x ∷ xs) (Within-next x xs h.1) h.0))
    | inr t ↦ grow a ys xs (x ∷ xs) (Within-next x xs h.1) (IsEntry-at xs a ys h.2 (rw t at e))
  ]

  -- A prerequisite has slots, which end before a given slot begins.
  abbrev pub Behind : Allocations → List Slot → ℕ → Type 0
  Behind xs ys q =
      (1 ≤ length (chosen_for q xs)) × All (λ e. after_slots (chosen_for q xs) ≤ e.0) ys

  pub record IsChosen (c : Candidate) (xs : Allocations) (ys : List Slot) : Type 0 where
    pub picked : Sub ys (slots_of p)
    pub available : All (λ e. is_available e.1 (availability_of p c.action_id) ≡ true) ys
    pub hours : length ys ≡ c.estimated_hours
    pub cost_known : is_some p.constraints.max_out_of_pocket_krw ≡ true → is_unknown c.cost ≡ false
    pub behind : All (Behind xs ys) c.prerequisite_action_ids

  module _ (positive : All (λ c. 1 ≤ c.estimated_hours) cs) (xs : Allocations)
      (h : Entries p cs xs) where
    has_slots : (q : ℕ) (zs : List Slot) → find q xs ≡ some zs → 1 ≤ length (chosen_for q xs)
    has_slots q zs e =
        let entry = IsEntry-at xs q zs h e in
        let hours = entry.hours in
        let some_hours =
          Member-All (λ c. 1 ≤ c.estimated_hours) cs positive entry.owner entry.owned in
        rw (find-chosen_for q xs zs e) (omega (arith, hours, some_hours))

    Behind-of :
        (ys : List Slot) (q : ℕ)
        → ((zs : List Slot) × (find q xs ≡ some zs) × All (λ u. after_slots zs ≤ u.0) ys)
        → Behind xs ys q
    Behind-of ys q b = (
      has_slots q b.0 b.1,
      subst (λ zs. All (λ u. after_slots zs ≤ u.0) ys) (sym (find-chosen_for q xs b.0 b.1)) b.2,
    )

    IsChosen-of :
        (c : Candidate) (ys : List Slot)
        → Member c cs
        → find c.action_id xs ≡ some ys
        → IsChosen c xs ys
    IsChosen-of c ys m e =
        let entry = IsEntry-at xs c.action_id ys h e in
        let same = same_candidate entry.owner c cs n entry.owned m entry.named in
        record {
          picked = entry.picked;
          available = entry.available;
          hours = entry.hours ∙ ap (λ d. d.estimated_hours) same;
          cost_known = λ k. subst (λ d. is_unknown d.cost ≡ false) same (entry.cost_known k);
          behind =
              subst (λ d. All (Behind xs ys) d.prerequisite_action_ids) same
                (All-map
                  (λ q.
                    (zs : List Slot) × (find q xs ≡ some zs) × All (λ u. after_slots zs ≤ u.0) ys)
                  (Behind xs ys) entry.owner.prerequisite_action_ids (Behind-of ys) entry.behind);
        }

    -- A candidate has no slots or is chosen.
    abbrev pub IsDecided : Candidate → Type 0
    IsDecided c =
        (find c.action_id xs ≡ none) × (chosen_for c.action_id xs ≡ [])
        ⊎ is_some (find c.action_id xs) ≡ true
          × (1 ≤ length (chosen_for c.action_id xs))
          × IsChosen c xs (chosen_for c.action_id xs)

    decided : (c : Candidate) → Member c cs → IsDecided c
    decided c m = elim (Option-cases (find c.action_id xs)) [
      | inl e ↦ inl (e, find-chosen_for-none c.action_id xs e)
      | inr (ys, e) ↦
          let same = find-chosen_for c.action_id xs ys e in
          inr (
            ap is_some e,
            has_slots c.action_id ys e,
            subst (λ zs. IsChosen c xs zs) (sym same) (IsChosen-of c ys m e),
          )
    ]

    pub all-IsDecided : All IsDecided cs
    all-IsDecided = All-map (λ c. Member c cs) IsDecided cs decided (each-Member cs)
