-- ===== src/Editorial/Baseline.antt =====
-- The checks that `EditorialBaseline.__post_init__` makes
-- (src/jobtology_be/modules/analyses/editorial_models.py).
use jobtology_be.Common.{
  ℕ, suc, Bool, true, Option, none, some, List, [], ◌∷◌, map, ltb, ◌==◌, if◌then◌else◌, Result, ok,
  raise, raise_if, ◌>>◌, not,
}
use jobtology_be.Editorial.{
  ReleaseState, published, unpublished, revoked, fixture, Timestamp, EditorialRequirement,
  EditorialBaseline, is_empty,
}

pub data Error : Type 0 where
  duplicate_requirement_key : ℕ → Error
  missing_requirement_evidence : ℕ → Error
  unusable_release : ReleaseState → Error
  invalid_fixture_label : Bool → ReleaseState → Error
  missing_published_release_id : Error
  missing_reviewed_at : Error
  naive_reviewed_at : Timestamp → Error

abbrev pub keys_of : EditorialBaseline → List ℕ
keys_of b = map (λ r. r.requirement_key) b.requirements

-- `requirement_keys.count(key)`
unfoldable pub count : ℕ → List ℕ → ℕ
count k [] = 0
count k (x ∷ xs) = let rest = count k xs in if k == x then suc rest else rest

-- `next((key for key in keys if keys.count(key) > 1), None)`
unfoldable pub duplicate_in : List ℕ → List ℕ → Option ℕ
unfolding count
duplicate_in keys [] = none
duplicate_in keys (k ∷ ks) =
    let rest = duplicate_in keys ks in if ltb 1 (count k keys) then some k else rest

-- The loop over a published release's requirements.
unfoldable pub check_evidence : List EditorialRequirement → Result Error (Unit {0})
check_evidence [] = ok tt
check_evidence (r ∷ rs) =
    let rest = check_evidence rs in
    if is_empty r.support_refs then raise (missing_requirement_evidence r.requirement_key) else rest

-- `release_id is None or not release_id.strip()`, where `blank` says which texts strip to nothing.
abbrev pub lacks_id : (ℕ → Bool) → Option ℕ → Bool
lacks_id blank none = true
lacks_id blank (some i) = blank i

unfoldable pub check_reviewed_at : Option Timestamp → Result Error (Unit {0})
check_reviewed_at none = raise missing_reviewed_at
check_reviewed_at (some t) = raise_if (not t.is_aware) (naive_reviewed_at t)

-- The `match` on the release state.
unfoldable pub check_release :
    (ℕ → Bool) → ReleaseState → EditorialBaseline → Result Error (Unit {0})
unfolding check_reviewed_at check_evidence
check_release blank published b = do
  raise_if b.is_fixture (invalid_fixture_label b.is_fixture published)
  raise_if (lacks_id blank b.release.release_id) missing_published_release_id
  check_reviewed_at b.release.reviewed_at
  check_evidence b.requirements
check_release blank fixture b =
    raise_if (not b.is_fixture) (invalid_fixture_label b.is_fixture fixture)
check_release blank unpublished b = raise (unusable_release unpublished)
check_release blank revoked b = raise (unusable_release revoked)

abbrev pub reject_duplicate : Option ℕ → Result Error (Unit {0})
reject_duplicate none = ok tt
reject_duplicate (some k) = raise (duplicate_requirement_key k)

-- `EditorialBaseline.__post_init__`
unfoldable pub check_baseline : (ℕ → Bool) → EditorialBaseline → Result Error (Unit {0})
unfolding duplicate_in check_release
check_baseline blank b = do
  reject_duplicate (duplicate_in (keys_of b) (keys_of b))
  check_release blank b.release.state b
