-- ===== src/Editorial/Reviewed.antt =====
-- Which baselines `EditorialBaseline.__post_init__` accepts
-- (src/jobtology_be/modules/analyses/editorial_models.py).
use jobtology_be.Common.{
  ℕ, ◌≤◌, ◌<◌, ◌≡◌, refl, ◌↔◌, ◌⊎◌, inl, inr, Bool, true, false, none, some, List, [], ◌∷◌, In, All,
  All-map, In-All, IsNodup, ltb, arith, Bool-cases, ok, eq_cases, subst, ◌≢◌, Option-cases,
}
use jobtology_be.Editorial.{
  ReleaseState, published, unpublished, revoked, fixture, Timestamp, EditorialRequirement,
  EditorialBaseline, is_empty,
}
use jobtology_be.Editorial.Baseline.{
  keys_of, count, duplicate_in, check_evidence, check_release, check_baseline,
}

-- What an accepted baseline rests on: a published release with an identity, a timezone-aware review
-- and evidence for every requirement, or a fixture that is labelled as one.
pub record IsReviewed (blank : ℕ → Bool) (b : EditorialBaseline) : Type 0 where
  pub state : b.release.state ≡ published
  pub labelled : b.is_fixture ≡ false
  pub identity : (i : ℕ) × (b.release.release_id ≡ some i) × (blank i ≡ false)
  pub reviewed : (t : Timestamp) × (b.release.reviewed_at ≡ some t) × (t.is_aware ≡ true)
  pub evidence : All (λ r. r.support_refs ≢ []) b.requirements

pub record IsFixture (b : EditorialBaseline) : Type 0 where
  pub state : b.release.state ≡ fixture
  pub labelled : b.is_fixture ≡ true

count-pos : (k : ℕ) (xs : List ℕ) → In k xs → 0 < count k xs
unfolding count
count-pos k [] h = absurd h
count-pos k (x ∷ xs) (inl e) = ground arith
count-pos k (x ∷ xs) (inr h) = ground (arith, count-pos k xs h)

count-zero : (k : ℕ) (xs : List ℕ) → (¬ In k xs) → count k xs ≡ 0
unfolding count
count-zero k [] h = refl
count-zero k (x ∷ xs) h = elim (eq_cases k x) [
  | inl e ↦ absurd (h (inl e))
  | inr ne ↦ ground (arith, count-zero k xs (λ i. h (inr i)))
]

IsNodup→count : (xs : List ℕ) → IsNodup xs → (k : ℕ) → count k xs ≤ 1
unfolding count
IsNodup→count [] h k = omega arith
IsNodup→count (x ∷ xs) h k = elim (eq_cases k x) [
  | inl e ↦ ground (arith, count-zero k xs (λ i. h.0 (subst (λ y. In y xs) e i)))
  | inr ne ↦ ground (arith, IsNodup→count xs h.1 k)
]

count→IsNodup : (xs : List ℕ) → All (λ k. count k xs ≤ 1) xs → IsNodup xs
unfolding count
count→IsNodup [] h = tt
count→IsNodup (x ∷ xs) h = (
  (λ i. ground (arith, count-pos x xs i, h.0)),
  count→IsNodup xs
      (All-map (λ k. count k (x ∷ xs) ≤ 1) (λ k. count k xs ≤ 1) xs (λ k a. ground (arith, a)) h.1),
)

duplicate_in-none :
    (keys ks : List ℕ) → (duplicate_in keys ks ≡ none) ↔ All (λ k. count k keys ≤ 1) ks
unfolding duplicate_in
duplicate_in-none keys [] = ((λ e. tt), λ h. refl)
duplicate_in-none keys (k ∷ ks) = elim (Bool-cases (ltb 1 (count k keys))) [
  | inl e ↦ rw (e, duplicate_in) ((λ n. absurd (cc n)), λ h. absurd (ground (arith, h.0, e)))
  | inr e ↦
      rw (e, duplicate_in)
        (
          (λ n. (ground (arith, e), (duplicate_in-none keys ks).0 n)),
          λ h. (duplicate_in-none keys ks).1 h.1,
        )
]

duplicate_in-IsNodup : (keys : List ℕ) → (duplicate_in keys keys ≡ none) ↔ IsNodup keys
duplicate_in-IsNodup keys = (
  (λ e. count→IsNodup keys ((duplicate_in-none keys keys).0 e)),
  λ h. (duplicate_in-none keys keys).1 (In-All _ keys (λ k i. IsNodup→count keys h k)),
)

is_empty-cases :
    {A : Type 0} (xs : List A)
    → ((xs ≡ []) × (is_empty xs ≡ true)) ⊎ ((xs ≢ []) × (is_empty xs ≡ false))
is_empty-cases [] = inl (refl, refl)
is_empty-cases (x ∷ xs) = inr ((λ e. cc e), refl)

check_evidence_iff :
    (rs : List EditorialRequirement)
    → (check_evidence rs ≡ ok tt) ↔ All (λ r. r.support_refs ≢ []) rs
unfolding check_evidence
check_evidence_iff [] = ((λ e. tt), λ h. refl)
check_evidence_iff (r ∷ rs) = elim (is_empty-cases r.support_refs) [
  | inl none_left ↦ rw none_left.1 ((λ e. absurd (cc e)), λ h. absurd (h.0 none_left.0))
  | inr some_left ↦
      rw some_left.1
        ((λ e. (some_left.0, (check_evidence_iff rs).0 e)), λ h. (check_evidence_iff rs).1 h.1)
]

check_release-ok :
    (blank : ℕ → Bool) (b : EditorialBaseline) (s : ReleaseState)
    → b.release.state ≡ s
    → check_release blank s b ≡ ok tt
    → IsReviewed blank b ⊎ IsFixture b
unfolding check_release
check_release-ok blank b published e h = inl (record {
  state = e;
  labelled = ground arith;
  identity = ground arith;
  reviewed = ground arith;
  evidence = (check_evidence_iff b.requirements).0 (ground arith);
})
check_release-ok blank b fixture e h = inr (record { state = e; labelled = ground arith })
check_release-ok blank b unpublished e h = absurd (cc h)
check_release-ok blank b revoked e h = absurd (cc h)

IsReviewed-ok :
    (blank : ℕ → Bool) (b : EditorialBaseline)
    → IsReviewed blank b
    → check_release blank b.release.state b ≡ ok tt
unfolding check_release
IsReviewed-ok blank b h =
    let (i, i_eq, i_ok) = h.identity in
    let (t, t_eq, t_ok) = h.reviewed in
    rw (h.state, h.labelled, i_eq, t_eq, i_ok, t_ok)
      ((check_evidence_iff b.requirements).1 h.evidence)

IsFixture-ok :
    (blank : ℕ → Bool) (b : EditorialBaseline)
    → IsFixture b
    → check_release blank b.release.state b ≡ ok tt
unfolding check_release
IsFixture-ok blank b h = rw (h.state, h.labelled)

check_release_iff :
    (blank : ℕ → Bool) (b : EditorialBaseline)
    → (check_release blank b.release.state b ≡ ok tt) ↔ (IsReviewed blank b ⊎ IsFixture b)
check_release_iff blank b = (check_release-ok blank b b.release.state refl, back)
  where
    back : IsReviewed blank b ⊎ IsFixture b → check_release blank b.release.state b ≡ ok tt
    back (inl h) = IsReviewed-ok blank b h
    back (inr h) = IsFixture-ok blank b h

-- A baseline is accepted exactly when its requirement keys are distinct and it is a reviewed
-- release or a labelled fixture.
pub check_baseline_iff :
    (blank : ℕ → Bool) (b : EditorialBaseline)
    → (check_baseline blank b ≡ ok tt) ↔ (IsNodup (keys_of b) × (IsReviewed blank b ⊎ IsFixture b))
unfolding check_baseline
check_baseline_iff blank b = elim (Option-cases (duplicate_in (keys_of b) (keys_of b))) [
  | inl e ↦ rw e (
    (λ h. ((duplicate_in-IsNodup (keys_of b)).0 e, (check_release_iff blank b).0 h)),
    λ h. (check_release_iff blank b).1 h.1,
  )
  | inr (k, e) ↦
      rw e ((λ h. absurd (cc h)), λ h. absurd (cc (e, (duplicate_in-IsNodup (keys_of b)).1 h.0)))
]
