-- ===== src/Planning/Effort/Rounding.antt =====
-- Rounding up to a whole number from one on (`max(1, max(0, ceil(x)))` of
-- src/jobtology_be/planning/effort.py and src/jobtology_be/product_roles/planning.py).
use native.Mathlib.Nat.{lt-div-mul-add, div-lt_iff_lt-mul}
use jobtology_be.Common.{
  ℕ, zero, suc, ◌+◌, ◌*◌, ◌/◌, ◌≤◌, ◌<◌, ◌≡◌, refl, ◌↔◌, ◌⊎◌, inl, inr, Bool, true, false, max,
  arith,
}
use jobtology_be.Planning.Effort.{Float, negated, ceil, max_zero}

-- The value of a float is at most a whole number.
abbrev pub AtMost : Float → ℕ → Type 0
AtMost x n = (x.is_negative ≡ true) ⊎ (x.numerator ≤ n * suc x.less_denominator)

-- `h` is the least whole number from one on that the value does not exceed.
pub record IsRoundedUp (x : Float) (h : ℕ) : Type 0 where
  pub some_hours : 1 ≤ h
  pub enough : AtMost x h
  pub least : (n : ℕ) → 1 ≤ n → AtMost x n → h ≤ n

negated-zero : (n : ℕ) → max_zero (negated n) ≡ 0
negated-zero zero = refl
negated-zero (suc n) = refl

div_at_most : (m d n : ℕ) → ((m + d) / suc d < suc n) ↔ (m + d < suc n * suc d)
div_at_most m d n = div-lt_iff_lt-mul (omega arith)

above_max : (m d q : ℕ) → m + d < q * suc d + suc d → m ≤ max 1 q * suc d
above_max m d zero h = omega (arith, h)
above_max m d (suc q) h = let e : max 1 (suc q) ≡ suc q = omega arith in rw e (omega (arith, h))

abbrev float_of : Bool → ℕ → ℕ → Float
float_of b m d = record { is_negative = b; numerator = m; less_denominator = d }

ceil-float_of :
    (b : Bool) (m d : ℕ) → IsRoundedUp (float_of b m d) (max 1 (max_zero (ceil (float_of b m d))))
unfolding ceil
ceil-float_of true m d = rw (negated-zero (m / suc d)) (record {
  some_hours = omega arith;
  enough = inl refl;
  least = λ n one_or_more le. omega (arith, one_or_more);
})
ceil-float_of false m d =
    let q = (m + d) / suc d in
    let positive : 0 < suc d = omega arith in
    let above : m + d < q * suc d + suc d = lt-div-mul-add positive in
    record {
      some_hours = omega arith;
      enough = inr (above_max m d q above);
      least = λ n one_or_more le. elim le [
        | inl negative ↦ absurd (cc negative)
        | inr le' ↦
            let below = (div_at_most m d n).1 (omega (arith, le')) in
            omega (arith, below, one_or_more)
      ];
    }

pub ceil-IsRoundedUp : (x : Float) → IsRoundedUp x (max 1 (max_zero (ceil x)))
ceil-IsRoundedUp x = ceil-float_of x.is_negative x.numerator x.less_denominator
