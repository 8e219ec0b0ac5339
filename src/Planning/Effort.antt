-- ===== src/Planning/Effort.antt =====
-- The effort that remains of a partly learned activity (src/jobtology_be/planning/effort.py and
-- `_remaining_effort` of src/jobtology_be/product_roles/planning.py). A credit is a number of
-- hundredths. Python's arithmetic of floats, which rounds, is a parameter; the value of a finite float
-- is a signed fraction, and rounding it up is written out.
pub mod Rounding
pub mod Outcomes
pub mod Bounds
use jobtology_be.Common.{
  ℕ, zero, suc, ◌+◌, ◌-◌, ◌*◌, ◌/◌, Bool, true, false, not, ◌&&◌, ◌||◌, Option, none, some, List,
  [], ◌∷◌, ◌++◌, any, sorted, ltb, ◌==◌, if◌then◌else◌, min, max, Result, ok, raise, ◌>>=◌,
}
use jobtology_be.Editorial.{SatisfactionStatus, partial, RequirementEvaluation, full_credit}
use jobtology_be.Planning.Templates.{ActivityTemplate}
use jobtology_be.Planning.Expand.{evaluation_of}

-- The parts of a decision's text that vary.
pub record Decision : Type 0 where
  pub action_id : ℕ
  pub base_hours : ℕ
  pub least_outcome_credit : ℕ
  pub remaining_hours : ℕ

-- The fields of `RuntimePlanningCatalog` that `_remaining_effort` changes; a policy version is the
-- one it came with, or the method's name if some effort was adjusted.
pub data PolicyVersion : Type 0 where
  given : ℕ → PolicyVersion
  modeled_competency_credit : PolicyVersion

pub record RuntimePlanningCatalog : Type 0 where
  pub templates : List ActivityTemplate
  pub policy_version : Option PolicyVersion
  pub decisions : List Decision

-- A requirement key with no evaluation: Python's KeyError.
pub data EffortError : Type 0 where
  unknown_requirement : ℕ → EffortError

-- `tuple(evaluations[key] for key in …)`
pub outcomes_of :
    List RequirementEvaluation → List ℕ → Result EffortError (List RequirementEvaluation)
outcomes_of es [] = ok []
outcomes_of es (k ∷ ks) = elim (evaluation_of k es) [
  | none ↦ raise (unknown_requirement k)
  | some e ↦ outcomes_of es ks >>= λ rest. ok (e ∷ rest)
]

-- `min((item.credit for item in outcomes), default=0.0)`
pub least_credit : List RequirementEvaluation → ℕ
least_credit [] = 0
least_credit (e ∷ []) = e.credit
least_credit (e ∷ f ∷ es) = min e.credit (least_credit (f ∷ es))

abbrev pub is_partial : SatisfactionStatus → Bool
is_partial partial = true
is_partial _ = false

abbrev new_policy : Option PolicyVersion → List Decision → Option PolicyVersion
new_policy (some v) decisions = some v
new_policy none [] = none
new_policy none (d ∷ ds) = some modeled_competency_credit

-- The value of a finite float: the fraction `numerator / (less_denominator + 1)` with a sign.
pub record Float : Type 0 where
  pub is_negative : Bool
  pub numerator : ℕ
  pub less_denominator : ℕ

-- The arithmetic of floats: the float of a whole number, the one nearest to a number of hundredths,
-- and the difference and the product of two floats, as Python rounds them.
pub record FloatArithmetic : Type 0 where
  pub float : ℕ → Float
  pub of_hundredths : ℕ → Float
  pub sub : Float → Float → Float
  pub mul : Float → Float → Float

-- Whole numbers with a sign.
pub data ℤ : Type 0 where
  pos : ℕ → ℤ
  negsuc : ℕ → ℤ

abbrev pub negated : ℕ → ℤ
negated zero = pos 0
negated (suc n) = negsuc n

-- `math.ceil`
unfoldable pub ceil : Float → ℤ
ceil x =
    if x.is_negative
    then negated (x.numerator / suc x.less_denominator)
    else pos ((x.numerator + x.less_denominator) / suc x.less_denominator)

-- `max(0, n)`
abbrev pub max_zero : ℤ → ℕ
max_zero (pos n) = n
max_zero (negsuc n) = 0

module _ (floats : FloatArithmetic) where
  -- `base_hours * (1 - credit)`
  abbrev pub open_share : ℕ → ℕ → Float
  open_share base_hours credit =
      floats.mul (floats.float base_hours)
        (floats.sub (floats.float 1) (floats.of_hundredths credit))

  -- `remaining_learning_hours`
  pub remaining_learning_hours : ℕ → ℕ → ℕ
  unfolding ceil
  remaining_learning_hours base_hours credit = max_zero (ceil (open_share base_hours credit))

  -- The hours of one template, from its outcomes.
  pub adjusted_hours : ActivityTemplate → List RequirementEvaluation → ℕ
  unfolding remaining_learning_hours least_credit
  adjusted_hours t outcomes =
      if any (λ e. is_partial e.status) outcomes
      then max 1 (remaining_learning_hours t.estimated_hours (least_credit outcomes))
      else t.estimated_hours

  -- One round of the loop: the new template, and a decision if its hours changed.
  pub adjust : ActivityTemplate → List RequirementEvaluation → ActivityTemplate × List Decision
  unfolding adjusted_hours
  adjust t outcomes =
      let hours = adjusted_hours t outcomes in
      let decision : Decision = record {
        action_id = t.action_id;
        base_hours = t.estimated_hours;
        least_outcome_credit = least_credit outcomes;
        remaining_hours = hours;
      } in
      (
        record t { estimated_hours = hours },
        if hours == t.estimated_hours then [] else decision ∷ [],
      )

  unfoldable pub adjust_all :
      List RequirementEvaluation
      → List ActivityTemplate
      → Result EffortError (List ActivityTemplate × List Decision)
  unfolding adjust outcomes_of
  adjust_all es [] = ok ([], [])
  adjust_all es (t ∷ ts) = do
    outcomes ← outcomes_of es (sorted t.outcome_requirement_keys)
    rest ← adjust_all es ts
    ok ((adjust t outcomes).0 ∷ rest.0, (adjust t outcomes).1 ++ rest.1)

  -- `_remaining_effort`; with no analysis the catalog stays as it is.
  pub remaining_effort :
      RuntimePlanningCatalog
      → Option (List RequirementEvaluation)
      → Result EffortError RuntimePlanningCatalog
  unfolding adjust_all
  remaining_effort c none = ok c
  remaining_effort c (some es) = do
    changed ← adjust_all es c.templates
    ok (record {
      templates = changed.0;
      policy_version = new_policy c.policy_version changed.1;
      decisions = c.decisions ++ changed.1;
    })
