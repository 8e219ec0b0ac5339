-- ===== src/Planning/Cycles.antt =====
-- The depth-first search of `_validate_dependencies` (src/jobtology_be/planning/candidates.py).
-- Python's recursion takes fuel here; `Search` shows that the fuel given is enough.
pub mod Search
pub mod Decides
use jobtology_be.Common.{
  ℕ, zero, suc, Bool, true, false, Option, none, some, List, [], ◌∷◌, elem, remove, sorted, length,
  if◌then◌else◌, Result, ok, raise, Outcome, done, failed, diverge, then_do, for_each,
}
use jobtology_be.Planning.Templates.{ActivityTemplate}
use jobtology_be.Planning.Catalog.{
  Catalog, Error, prerequisite_cycle, key_error, ids, get, check_present,
}

-- The two sets that the search keeps.
pub record Marks : Type 0 where
  pub visiting : List ℕ
  pub visited : List ℕ

-- `catalog[action_id].prerequisite_action_ids`, sorted, and each visited.
visit_prerequisites :
    (ℕ → Marks → Outcome Error Marks) → ℕ → Option ActivityTemplate → Marks → Outcome Error Marks
unfolding for_each
visit_prerequisites call a none m = failed (key_error a)
visit_prerequisites call a (some t) m = for_each call (sorted t.prerequisite_action_ids) m

-- `visiting.remove(action_id)` and `visited.add(action_id)`.
leave : ℕ → Marks → Outcome Error Marks
leave a m = done (record { visiting = remove a m.visiting; visited = a ∷ m.visited })

pub visit : Catalog → ℕ → ℕ → Marks → Outcome Error Marks
unfolding visit_prerequisites leave
visit cat zero a m = diverge
visit cat (suc fuel) a m =
    let rest =
      then_do
        (visit_prerequisites (visit cat fuel) a (get a cat)
          (record m { visiting = a ∷ m.visiting }))
        (leave a) in
    if elem a m.visiting
    then failed (prerequisite_cycle a)
    else if elem a m.visited
    then done m
    else rest

-- The second loop of `_validate_dependencies`.
pub check_acyclic : Catalog → Outcome Error Marks
unfolding visit
check_acyclic cat =
    for_each (visit cat (suc (length (ids cat)))) (sorted (ids cat))
      (record { visiting = []; visited = [] })

-- The search starts when the first loop has raised nothing.
unfoldable pub if_present : Result Error (Unit {0}) → Outcome Error Marks → Outcome Error Marks
if_present (raise e) search = failed e
if_present (ok _) search = search

-- `_validate_dependencies`, on the catalog of `__post_init__`.
unfoldable pub validate_dependencies : Catalog → Outcome Error Marks
unfolding check_acyclic if_present
validate_dependencies cat = if_present (check_present cat) (check_acyclic cat)
