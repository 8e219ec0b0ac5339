-- ===== src/Planning/Hint/Order.antt =====
-- Candidates in order: what sorting keeps of their action IDs (`_add_schedule_hint` of
-- src/jobtology_be/planning/cp_sat_model.py).
use jobtology_be.Common.{
  ℕ, suc, ◌≡◌, refl, sym, ap, ◌∙◌, inl, inr, Bool, false, List, [], ◌∷◌, elem, All, In, not-elem→In,
  IsNodup, length, insert_by, sort_by, sort_by-All, Bool-cases,
}
use jobtology_be.Planning.Templates.{Candidate}
use jobtology_be.Planning.Problem.{repeats}
use jobtology_be.Planning.Hint.Invariant.{ids_of}

pub not-In-All :
    (a : ℕ) (cs : List Candidate) → ¬ In a (ids_of cs) → All (λ d. ¬ (a ≡ d.action_id)) cs
not-In-All a [] h = tt
not-In-All a (c ∷ cs) h = ((λ e. h (inl e)), not-In-All a cs (λ i. h (inr i)))

pub All-not-In :
    (a : ℕ) (cs : List Candidate) → All (λ d. ¬ (a ≡ d.action_id)) cs → ¬ In a (ids_of cs)
All-not-In a [] h i = absurd i
All-not-In a (c ∷ cs) h (inl e) = h.0 e
All-not-In a (c ∷ cs) h (inr i) = All-not-In a cs h.1 i

-- Sorting candidates keeps their action IDs apart.
insert_by-new :
    (le : Candidate → Candidate → Bool) (a : ℕ) (x : Candidate) (ys : List Candidate)
    → ¬ (a ≡ x.action_id)
    → ¬ In a (ids_of ys)
    → ¬ In a (ids_of (insert_by le x ys))
unfolding insert_by
insert_by-new le a x [] ne h (inl e) = ne e
insert_by-new le a x [] ne h (inr i) = absurd i
insert_by-new le a x (y ∷ ys) ne h i = elim (Bool-cases (le x y)) [
  | inl e ↦
      let at_front : In a (x.action_id ∷ y.action_id ∷ ids_of ys) = rw (e, insert_by) at i in
      (elim at_front [ inl same ↦ ne same | inr later ↦ h later ])
  | inr e ↦
      let behind : In a (y.action_id ∷ ids_of (insert_by le x ys)) = rw (e, insert_by) at i in
      (elim behind [
        | inl same ↦ h (inl same)
        | inr later ↦ insert_by-new le a x ys ne (λ k. h (inr k)) later
      ])
]

insert_by-apart :
    (le : Candidate → Candidate → Bool) (c : Candidate) (cs : List Candidate)
    → ¬ In c.action_id (ids_of cs)
    → IsNodup (ids_of cs)
    → IsNodup (ids_of (insert_by le c cs))
unfolding insert_by
insert_by-apart le c [] h n = (h, n)
insert_by-apart le c (d ∷ ds) h n = elim (Bool-cases (le c d)) [
  | inl e ↦ rw (e, insert_by) (h, n)
  | inr e ↦
      rw (e, insert_by)
        (
          insert_by-new le d.action_id c ds (λ same. h (inl (sym same))) n.0,
          insert_by-apart le c ds (λ i. h (inr i)) n.1,
        )
]

pub sort_by-apart :
    (le : Candidate → Candidate → Bool) (cs : List Candidate)
    → IsNodup (ids_of cs)
    → IsNodup (ids_of (sort_by le cs))
unfolding sort_by
sort_by-apart le [] n = tt
sort_by-apart le (c ∷ cs) n =
    let others =
      sort_by-All (λ d. ¬ (c.action_id ≡ d.action_id)) le cs (not-In-All c.action_id cs n.0) in
    insert_by-apart le c (sort_by le cs) (All-not-In c.action_id (sort_by le cs) others)
      (sort_by-apart le cs n.1)

length-insert_by :
    (le : Candidate → Candidate → Bool) (c : Candidate) (cs : List Candidate)
    → length (insert_by le c cs) ≡ suc (length cs)
unfolding insert_by
length-insert_by le c [] = refl
length-insert_by le c (d ∷ ds) = elim (Bool-cases (le c d)) [
  | inl e ↦ rw (e, insert_by) refl
  | inr e ↦ rw (e, insert_by) (ap suc (length-insert_by le c ds))
]

pub length-sort_by :
    (le : Candidate → Candidate → Bool) (cs : List Candidate) → length (sort_by le cs) ≡ length cs
unfolding sort_by
length-sort_by le [] = refl
length-sort_by le (c ∷ cs) = length-insert_by le c (sort_by le cs) ∙ ap suc (length-sort_by le cs)

pub repeats-IsNodup : (xs : List ℕ) → repeats xs ≡ false → IsNodup xs
repeats-IsNodup [] h = tt
repeats-IsNodup (x ∷ xs) h = elim (Bool-cases (elem x xs)) [
  | inl e ↦ absurd (cc (rw e at h))
  | inr e ↦ (not-elem→In x xs e, repeats-IsNodup xs (rw e at h))
]
