-- ===== src/Roadmap/Outcomes.antt =====
-- `canonical_completion_outcomes` (src/jobtology_be/infrastructure/persistence/completion_outcomes.py): the
-- outcomes of a step, grouped by their entities.
use jobtology_be.Common.{
  ℕ, Bool, true, false, ◌&&◌, ◌||◌, List, [], ◌∷◌, ◌++◌, map, keep, ltb, ◌==◌, distinct, sort_by,
  sorted, Result, ok, raise, ◌>>=◌,
}

pub record RoadmapOutcome : Type 0 where
  pub requirement_key : ℕ
  pub entity_id : ℕ
  pub raw_text : ℕ
  pub experience_codes : List ℕ

pub record RequirementOutcomeProvenance : Type 0 where
  pub requirement_key : ℕ
  pub raw_text : ℕ
  pub experience_codes : List ℕ

pub record CanonicalCompletionOutcome : Type 0 where
  pub entity_id : ℕ
  pub raw_text : ℕ
  pub requirement_keys : List ℕ
  pub experience_codes : List ℕ
  pub provenance : List RequirementOutcomeProvenance

-- What `provenance[0]` raises on an empty tuple.
pub data IndexError : Type 0 where
  no_provenance : IndexError

-- `tuple(sorted(set(codes)))`
unfoldable pub sorted_set : List ℕ → List ℕ
unfolding sorted
sorted_set codes = sorted (distinct codes)

-- The order of tuples.
abbrev pub tuple_le : List ℕ → List ℕ → Bool
tuple_le [] ys = true
tuple_le (x ∷ xs) [] = false
tuple_le (x ∷ xs) (y ∷ ys) = ltb x y || (x == y && tuple_le xs ys)

-- The key `(requirement_key, raw_text, codes)`.
unfoldable pub by_outcome : RoadmapOutcome → RoadmapOutcome → Bool
unfolding sorted_set
by_outcome a b =
    ltb a.requirement_key b.requirement_key
    || (a.requirement_key == b.requirement_key
        && (ltb a.raw_text b.raw_text
            || (a.raw_text == b.raw_text
                && tuple_le (sorted_set a.experience_codes) (sorted_set b.experience_codes))))

unfoldable pub provenance_of : RoadmapOutcome → RequirementOutcomeProvenance
unfolding sorted_set
provenance_of o = record {
  requirement_key = o.requirement_key;
  raw_text = o.raw_text;
  experience_codes = sorted_set o.experience_codes;
}

-- `by_entity_id[entity_id]`
abbrev pub outcomes_for : ℕ → List RoadmapOutcome → List RoadmapOutcome
outcomes_for entity os = keep (λ o. o.entity_id == entity) os

abbrev pub all_codes : List RequirementOutcomeProvenance → List ℕ
all_codes [] = []
all_codes (p ∷ ps) = p.experience_codes ++ all_codes ps

abbrev pub first_text : List RequirementOutcomeProvenance → Result IndexError ℕ
first_text [] = raise no_provenance
first_text (p ∷ ps) = ok p.raw_text

-- The outcome of an entity.
unfoldable pub canonical_outcome :
    List RoadmapOutcome → ℕ → Result IndexError CanonicalCompletionOutcome
unfolding provenance_of by_outcome sort_by sorted_set
canonical_outcome os entity = do
  text ← first_text (map provenance_of (sort_by by_outcome (outcomes_for entity os)))
  ok (record {
    entity_id = entity;
    raw_text = text;
    requirement_keys =
        map (λ p. p.requirement_key)
          (map provenance_of (sort_by by_outcome (outcomes_for entity os)));
    experience_codes =
        sorted_set (all_codes (map provenance_of (sort_by by_outcome (outcomes_for entity os))));
    provenance = map provenance_of (sort_by by_outcome (outcomes_for entity os));
  })

unfoldable pub canonical_outcomes :
    List RoadmapOutcome → List ℕ → Result IndexError (List CanonicalCompletionOutcome)
unfolding canonical_outcome
canonical_outcomes os [] = ok []
canonical_outcomes os (e ∷ es) = do
  c ← canonical_outcome os e
  cs ← canonical_outcomes os es
  ok (c ∷ cs)

unfoldable pub canonical_completion_outcomes :
    List RoadmapOutcome → Result IndexError (List CanonicalCompletionOutcome)
unfolding canonical_outcomes sorted_set
canonical_completion_outcomes os = canonical_outcomes os (sorted_set (map (λ o. o.entity_id) os))
