-- ===== src/Roadmap/Grouping.antt =====
-- The outcomes of a completed step, grouped by their entities (`canonical_completion_outcomes` of
-- src/jobtology_be/infrastructure/persistence/completion_outcomes.py).
use jobtology_be.Common.{
  ℕ, ◌≡◌, refl, sym, subst, inl, inr, Bool, true, List, [], ◌∷◌, map, keep, ◌==◌, ==_iff, ==_refl,
  distinct, In-distinct, distinct-In, distinct-IsNodup, sorted-IsNodup, insert_by, sort_by,
  sort_by-All, sort_by-All_inv, sorted, sorted-In, In-sorted, All, All-map, All-both, Any, Any-map,
  In, In-All, IsNodup, All-keep, Bool-cases, ok,
}
use jobtology_be.Roadmap.Outcomes.{
  RoadmapOutcome, CanonicalCompletionOutcome, sorted_set, by_outcome, provenance_of, outcomes_for,
  first_text, canonical_outcome, canonical_outcomes, canonical_completion_outcomes,
}

insert_by_text :
    (o : RoadmapOutcome) (os : List RoadmapOutcome)
    → (t : ℕ) × (first_text (map provenance_of (insert_by by_outcome o os)) ≡ ok t)
unfolding insert_by
insert_by_text o [] = ((provenance_of o).raw_text, refl)
insert_by_text o (x ∷ xs) = elim (Bool-cases (by_outcome o x)) [
  | inl e ↦ ((provenance_of o).raw_text, rw (e, insert_by) refl)
  | inr e ↦ ((provenance_of x).raw_text, rw (e, insert_by) refl)
]

some_text :
    (os : List RoadmapOutcome)
    → Any (λ o. Unit {0}) os
    → (t : ℕ) × (first_text (map provenance_of (sort_by by_outcome os)) ≡ ok t)
unfolding sort_by
some_text [] i = absurd i
some_text (o ∷ os) i = insert_by_text o (sort_by by_outcome os)

some_outcome :
    (os : List RoadmapOutcome) (e : ℕ)
    → In e (map (λ o. o.entity_id) os)
    → Any (λ o. Unit {0}) (outcomes_for e os)
some_outcome [] e i = absurd i
some_outcome (o ∷ os) e (inl same) = rw ((==_iff o.entity_id e).1 (sym same)) (inl tt)
some_outcome (o ∷ os) e (inr i) = elim (Bool-cases (o.entity_id == e)) [
  | inl t ↦ rw t (inl tt)
  | inr t ↦ rw t (some_outcome os e i)
]

-- The keys of an outcome's group.
abbrev keys_for : List RoadmapOutcome → ℕ → List ℕ
keys_for os e =
    map (λ p. p.requirement_key) (map provenance_of (sort_by by_outcome (outcomes_for e os)))

pub record IsOutcome (os : List RoadmapOutcome) (e : ℕ) (c : CanonicalCompletionOutcome)
    : Type 0 where
  pub entity : c.entity_id ≡ e
  pub keys : c.requirement_keys ≡ keys_for os e

canonical_outcome-IsOutcome :
    (os : List RoadmapOutcome) (e : ℕ)
    → In e (map (λ o. o.entity_id) os)
    → (c : CanonicalCompletionOutcome) × (canonical_outcome os e ≡ ok c) × IsOutcome os e c
unfolding canonical_outcome
canonical_outcome-IsOutcome os e i =
    let text = some_text (outcomes_for e os) (some_outcome os e i) in
    rw (canonical_outcome, text.1) (_, refl, record { entity = refl; keys = refl })

abbrev Outcomes : List RoadmapOutcome → List ℕ → List CanonicalCompletionOutcome → Type 0
Outcomes os [] [] = Unit
Outcomes os [] (c ∷ cs) = ⊥
Outcomes os (e ∷ es) [] = ⊥
Outcomes os (e ∷ es) (c ∷ cs) = IsOutcome os e c × Outcomes os es cs

canonical_outcomes-Outcomes :
    (os : List RoadmapOutcome) (es : List ℕ)
    → All (λ e. In e (map (λ o. o.entity_id) os)) es
    → (cs : List CanonicalCompletionOutcome) × (canonical_outcomes os es ≡ ok cs)
      × Outcomes os es cs
unfolding canonical_outcomes
canonical_outcomes-Outcomes os [] h = ([], refl, tt)
canonical_outcomes-Outcomes os (e ∷ es) h =
    let first = canonical_outcome-IsOutcome os e h.0 in
    let rest = canonical_outcomes-Outcomes os es h.1 in
    rw (canonical_outcomes, first.1, rest.1) (first.0 ∷ rest.0, refl, (first.2, rest.2))

own_keys :
    (xs : List RoadmapOutcome)
    → All (λ o. In o.requirement_key (map (λ p. p.requirement_key) (map provenance_of xs))) xs
unfolding provenance_of
own_keys [] = tt
own_keys (x ∷ xs) =
    let keys = map (λ p. p.requirement_key) (map provenance_of xs) in
    (
      inl refl,
      All-map (λ o. In o.requirement_key keys)
          (λ o. In o.requirement_key (x.requirement_key ∷ keys)) xs (λ o i. inr i) (own_keys xs),
    )

-- Each outcome of an entity has its key in the group, and each key there is one of such an outcome.
keys_complete :
    (os : List RoadmapOutcome) (e : ℕ)
    → All (λ o. (o.entity_id == e) ≡ true → In o.requirement_key (keys_for os e)) os
keys_complete os e =
    All-keep (λ o. In o.requirement_key (keys_for os e)) (λ o. o.entity_id == e) os
      (sort_by-All_inv (λ o. In o.requirement_key (keys_for os e)) by_outcome (outcomes_for e os)
        (own_keys (sort_by by_outcome (outcomes_for e os))))

abbrev pub HasKey : List RoadmapOutcome → ℕ → ℕ → Type 0
HasKey os e k = Any (λ o. (o.entity_id ≡ e) × (o.requirement_key ≡ k)) os

self_keys :
    (os : List RoadmapOutcome) (e : ℕ)
    → All (λ o. (o.entity_id == e) ≡ true → HasKey os e o.requirement_key) os
self_keys [] e = tt
self_keys (o ∷ os) e = (
  (λ t. inl ((==_iff o.entity_id e).0 t, refl)),
  All-map (λ x. (x.entity_id == e) ≡ true → HasKey os e x.requirement_key)
      (λ x. (x.entity_id == e) ≡ true → HasKey (o ∷ os) e x.requirement_key) os (λ x f t. inr (f t))
      (self_keys os e),
)

keep-held :
    (P : RoadmapOutcome → Type 0) (f : RoadmapOutcome → Bool) (xs : List RoadmapOutcome)
    → All (λ x. f x ≡ true → P x) xs
    → All P (keep f xs)
keep-held P f [] h = tt
keep-held P f (x ∷ xs) h = elim (Bool-cases (f x)) [
  | inl t ↦ rw t (h.0 t, keep-held P f xs h.1)
  | inr t ↦ rw t (keep-held P f xs h.1)
]

keys_sound : (os : List RoadmapOutcome) (e : ℕ) → All (HasKey os e) (keys_for os e)
unfolding provenance_of
keys_sound os e = mapped (sort_by by_outcome (outcomes_for e os)) (
    sort_by-All (λ o. HasKey os e o.requirement_key) by_outcome (outcomes_for e os)
      (keep-held (λ o. HasKey os e o.requirement_key) (λ o. o.entity_id == e) os (self_keys os e)))
  where
    mapped :
        (xs : List RoadmapOutcome)
        → All (λ o. HasKey os e o.requirement_key) xs
        → All (HasKey os e) (map (λ p. p.requirement_key) (map provenance_of xs))
    mapped [] h = tt
    mapped (x ∷ xs) h = (h.0, mapped xs h.1)

for_all :
    (P : ℕ → RoadmapOutcome → Type 0) (xs : List RoadmapOutcome)
    → ((e : ℕ) → All (P e) xs)
    → All (λ x. (e : ℕ) → P e x) xs
for_all P [] h = tt
for_all P (x ∷ xs) h = ((λ e. (h e).0), for_all P xs (λ e. (h e).1))

-- The groups: each entity once; every outcome has its key in the group of its entity; and no other
-- key is there.
pub record IsGrouping (os : List RoadmapOutcome) (cs : List CanonicalCompletionOutcome)
    : Type 0 where
  pub once : IsNodup (map (λ c. c.entity_id) cs)
  pub complete :
      All
        (λ o. Any (λ c. (c.entity_id ≡ o.entity_id) × In o.requirement_key c.requirement_keys) cs)
        os
  pub sound : All (λ c. All (HasKey os c.entity_id) c.requirement_keys) cs

module _ (os : List RoadmapOutcome) where
  Outcomes-entities :
      (es : List ℕ) (cs : List CanonicalCompletionOutcome)
      → Outcomes os es cs
      → map (λ c. c.entity_id) cs ≡ es
  Outcomes-entities [] [] h = refl
  Outcomes-entities [] (c ∷ cs) h = absurd h
  Outcomes-entities (e ∷ es) [] h = absurd h
  Outcomes-entities (e ∷ es) (c ∷ cs) h =
      let first = h.0 in
      let same = first.entity in let rest = Outcomes-entities es cs h.1 in rw (same, rest) refl

  Outcomes-found :
      (es : List ℕ) (cs : List CanonicalCompletionOutcome) (e : ℕ)
      → Outcomes os es cs
      → In e es
      → Any (λ c. IsOutcome os e c) cs
  Outcomes-found [] cs e h i = absurd i
  Outcomes-found (x ∷ es) [] e h i = absurd h
  Outcomes-found (x ∷ es) (c ∷ cs) e h (inl same) =
      inl (subst (λ k. IsOutcome os k c) (sym same) h.0)
  Outcomes-found (x ∷ es) (c ∷ cs) e h (inr i) = inr (Outcomes-found es cs e h.1 i)

  Outcomes-sound :
      (es : List ℕ) (cs : List CanonicalCompletionOutcome)
      → Outcomes os es cs
      → All (λ c. All (HasKey os c.entity_id) c.requirement_keys) cs
  Outcomes-sound [] [] h = tt
  Outcomes-sound [] (c ∷ cs) h = absurd h
  Outcomes-sound (e ∷ es) [] h = absurd h
  Outcomes-sound (e ∷ es) (c ∷ cs) h =
      let first = h.0 in
      let same = first.entity in
      let keys = first.keys in (rw (keys, same) (keys_sound os e), Outcomes-sound es cs h.1)

  entity_in : (xs : List RoadmapOutcome) → All (λ o. In o.entity_id (map (λ y. y.entity_id) xs)) xs
  entity_in [] = tt
  entity_in (x ∷ xs) = (
    inl refl,
    All-map (λ o. In o.entity_id (map (λ y. y.entity_id) xs))
        (λ o. In o.entity_id (x.entity_id ∷ map (λ y. y.entity_id) xs)) xs (λ o i. inr i)
        (entity_in xs),
  )

-- The grouping of the outcomes of a step ends without an error, in groups: each entity stands once;
-- every outcome has its key in the group of its entity; and no other key is there.
pub canonical_completion_outcomes-IsGrouping :
    (os : List RoadmapOutcome)
    → (cs : List CanonicalCompletionOutcome) × (canonical_completion_outcomes os ≡ ok cs)
      × IsGrouping os cs
unfolding canonical_completion_outcomes sorted_set
canonical_completion_outcomes-IsGrouping os =
    let ids = map (λ o. o.entity_id) os in
    let es = sorted (distinct ids) in
    let made =
      canonical_outcomes-Outcomes os es
        (In-All (λ e. In e ids) es (λ e i. distinct-In e ids (sorted-In e (distinct ids) i))) in
    (
      made.0,
      made.1,
      record {
        once =
            subst IsNodup (sym (Outcomes-entities os es made.0 made.2))
              (sorted-IsNodup (distinct ids) (distinct-IsNodup ids));
        complete =
            All-map
              (λ o.
                In o.entity_id ids
                × ((e : ℕ) → (o.entity_id == e) ≡ true → In o.requirement_key (keys_for os e)))
              (λ o.
                Any (λ c. (c.entity_id ≡ o.entity_id) × In o.requirement_key c.requirement_keys)
                  made.0)
              os
              (λ o h.
                let key = h.1 o.entity_id (==_refl o.entity_id) in
                Any-map (IsOutcome os o.entity_id)
                  (λ c. (c.entity_id ≡ o.entity_id) × In o.requirement_key c.requirement_keys)
                  made.0
                  (λ c f.
                    let keys = f.keys in
                    (f.entity, subst (λ ks. In o.requirement_key ks) (sym keys) key))
                  (Outcomes-found os es made.0 o.entity_id made.2
                    (In-sorted o.entity_id (distinct ids) (In-distinct o.entity_id ids h.0))))
              (All-both (λ o. In o.entity_id ids)
                (λ o. (e : ℕ) → (o.entity_id == e) ≡ true → In o.requirement_key (keys_for os e)) os
                (entity_in os os)
                (for_all (λ e o. (o.entity_id == e) ≡ true → In o.requirement_key (keys_for os e))
                  os (keys_complete os)));
        sound = Outcomes-sound os es made.0 made.2;
      },
    )
