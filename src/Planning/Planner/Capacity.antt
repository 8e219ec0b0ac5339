-- ===== src/Planning/Planner/Capacity.antt =====
-- The effort bound never rejects a problem with a full route (`_full_capacity_possible` of
-- src/jobtology_be/planning/cp_sat_planner.py).
use native.Mathlib.Nat.{mul-le-mul_right, mul-le-mul, le_of_mul-le-mul_left}
use jobtology_be.Common.{
  ℕ, ◌+◌, ◌*◌, ◌≤◌, ◌≡◌, sym, ap, subst, inl, inr, List, [], ◌∷◌, keep, elem, if◌then◌else◌, All,
  All-map, length, total, arith, Bool-cases, ◌⊎◌, Any, leb→le, max,
}
use jobtology_be.Planning.Templates.{Candidate}
use jobtology_be.Planning.Planner.{
  Fraction, add_fractions, fraction_le, least, least_share, sum_shares,
}

-- The fraction is at most so many of the parts into which each whole is divided.
abbrev pub AtMost : ℕ → Fraction → ℕ → Type 0
AtMost scale a n = a.0 * scale ≤ n * a.1

add-AtMost :
    (scale : ℕ) (a b : Fraction) (n m : ℕ)
    → AtMost scale a n
    → AtMost scale b m
    → AtMost scale (add_fractions a b) (n + m)
add-AtMost scale a b n m h k = omega (arith, mul-le-mul_right b.1 h, mul-le-mul_right a.1 k)

pub weaken_AtMost :
    (scale : ℕ) (a : Fraction) (n m : ℕ) → n ≤ m → AtMost scale a n → AtMost scale a m
weaken_AtMost scale a n m h k = omega (arith, k, mul-le-mul_right a.1 h)

-- A fraction below another one is at most what the other is.
below_AtMost :
    (scale : ℕ) (a b : Fraction) (n : ℕ)
    → 1 ≤ b.1
    → a.0 * b.1 ≤ b.0 * a.1
    → AtMost scale b n
    → AtMost scale a n
below_AtMost scale a b n pos le h =
    le_of_mul-le-mul_left {k = b.1}
      (omega (arith, mul-le-mul_right scale le, mul-le-mul_right a.1 h)) (omega (arith, pos))

least-AtMost :
    (scale : ℕ) (a : Fraction) (bs : List Fraction) (n : ℕ)
    → 1 ≤ a.1
    → All (λ b. 1 ≤ b.1) bs
    → (AtMost scale a n) ⊎ (Any (λ b. AtMost scale b n) bs)
    → AtMost scale (least a bs) n
least-AtMost scale a [] n pa pb (inl h) = h
least-AtMost scale a [] n pa pb (inr h) = absurd h
least-AtMost scale a (b ∷ bs) n pa pb h = elim (Bool-cases (fraction_le a b)) [
  | inl e ↦
      let le : a.0 * b.1 ≤ b.0 * a.1 = leb→le (a.0 * b.1) (b.0 * a.1) e in
      subst (λ t. AtMost scale (least (if t then a else b) bs) n) (sym e)
        (least-AtMost scale a bs n pa pb.1 (elim h [
          | inl k ↦ inl k
          | inr k ↦ elim k [
            | inl here ↦ inl (below_AtMost scale a b n pb.0 le here)
            | inr later ↦ inr later
          ]
        ]))
  | inr e ↦
      let le : b.0 * a.1 ≤ a.0 * b.1 = ground (arith, e) in
      subst (λ t. AtMost scale (least (if t then a else b) bs) n) (sym e)
        (least-AtMost scale b bs n pb.0 pb.1 (elim h [
          | inl k ↦ inl (below_AtMost scale b a n pa le k)
          | inr k ↦ elim k [ inl here ↦ inl here | inr later ↦ inr later ]
        ]))
]

pub least_share-AtMost :
    (scale : ℕ) (fallback : Fraction) (bs : List Fraction) (n : ℕ)
    → All (λ b. 1 ≤ b.1) bs
    → Any (λ b. AtMost scale b n) bs
    → AtMost scale (least_share fallback bs) n
least_share-AtMost scale fallback [] n p h = absurd h
least_share-AtMost scale fallback (b ∷ bs) n p h = least-AtMost scale b bs n p.0 p.1 h

-- The sum of shares is at most the sum of what they are at most.
pub sum_shares-AtMost :
    (scale : ℕ) (f : ℕ → Fraction) (g : ℕ → ℕ) (ks : List ℕ)
    → All (λ k. AtMost scale (f k) (g k)) ks
    → AtMost scale (sum_shares f ks) (total g ks)
sum_shares-AtMost scale f g [] h = omega arith
sum_shares-AtMost scale f g (k ∷ ks) h =
    add-AtMost scale (f k) (sum_shares f ks) (g k) (total g ks) h.0
      (sum_shares-AtMost scale f g ks h.1)

-- A common multiple: each length divides it.
abbrev pub length_of : List ℕ → Candidate → ℕ
length_of required c = length (keep (λ k. elem k required) c.outcome_requirement_keys)

abbrev pub multiple : List ℕ → List Candidate → ℕ
multiple required [] = 1
multiple required (c ∷ cs) = max 1 (length_of required c) * multiple required cs

pub multiple_positive : (required : List ℕ) (cs : List Candidate) → 1 ≤ multiple required cs
multiple_positive required [] = omega arith
multiple_positive required (c ∷ cs) =
    let one : 1 ≤ max 1 (length_of required c) = omega arith in
    omega (arith, mul-le-mul one (multiple_positive required cs))

pub multiple_parts :
    (required : List ℕ) (cs : List Candidate)
    → All (λ c. (q : ℕ) × (q * max 1 (length_of required c) ≡ multiple required cs)) cs
multiple_parts required [] = tt
multiple_parts required (c ∷ cs) =
    let first = max 1 (length_of required c) in
    (
      (multiple required cs, omega arith),
      All-map (λ d. (q : ℕ) × (q * max 1 (length_of required d) ≡ multiple required cs))
          (λ d. (q : ℕ) × (q * max 1 (length_of required d) ≡ first * multiple required cs)) cs
          (λ d h. (first * h.0, let e = h.1 in omega (arith, ap (λ z. first * z) e)))
          (multiple_parts required cs),
    )
