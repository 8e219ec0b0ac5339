-- ===== src/Common/Sums.antt =====
-- Sums over lists, lists with their indices, and distinct values.
use Prim.Native.Nat.{ℕ, suc, ◌+◌, ◌≤◌, max}
use mathlib.Core.Path.{◌≡◌, refl}
use mathlib.Core.Bool.{Bool, true, false}
use mathlib.Core.List.{List, [], ◌∷◌, ◌++◌}
use native.Mathlib.Omega.{arith}
use jobtology_be.Common.Tests.{◌==◌, if◌then◌else◌}
use jobtology_be.Common.Lists.{All, elem, length}

-- The value of a Boolean variable.
abbrev pub bit : Bool → ℕ
bit true = 1
bit false = 0

module _ {A : Type 0} where
  -- `sum(f(x) for x in xs)`
  abbrev pub total : (A → ℕ) → List A → ℕ
  total f [] = 0
  total f (x ∷ xs) = f x + total f xs

  -- `max((f(x) for x in xs), default=0)`
  abbrev pub maximum : (A → ℕ) → List A → ℕ
  maximum f [] = 0
  maximum f (x ∷ xs) = max (f x) (maximum f xs)

  -- `enumerate(xs)`, from an index on.
  abbrev pub enumerate : ℕ → List A → List (ℕ × A)
  enumerate i [] = []
  enumerate i (x ∷ xs) = (i, x) ∷ enumerate (suc i) xs

  pub total-le : (f g : A → ℕ) (xs : List A) → All (λ x. f x ≤ g x) xs → total f xs ≤ total g xs
  total-le f g [] h = omega arith
  total-le f g (x ∷ xs) h = omega (arith, h.0, total-le f g xs h.1)

  pub total-cong : (f g : A → ℕ) (xs : List A) → All (λ x. f x ≡ g x) xs → total f xs ≡ total g xs
  total-cong f g [] h = refl
  total-cong f g (x ∷ xs) h = omega (arith, h.0, total-cong f g xs h.1)

  pub total-add : (f g : A → ℕ) (xs : List A) → total (λ x. f x + g x) xs ≡ total f xs + total g xs
  total-add f g [] = refl
  total-add f g (x ∷ xs) = omega (arith, total-add f g xs)

  pub total-append : (f : A → ℕ) (xs ys : List A) → total f (xs ++ ys) ≡ total f xs + total f ys
  total-append f [] ys = omega arith
  total-append f (x ∷ xs) ys = omega (arith, total-append f xs ys)

  pub total_zero : (xs : List A) → total (λ x. 0) xs ≡ 0
  total_zero [] = refl
  total_zero (x ∷ xs) = omega (arith, total_zero xs)

  pub total_one : (xs : List A) → total (λ x. 1) xs ≡ length xs
  total_one [] = refl
  total_one (x ∷ xs) = omega (arith, total_one xs)

  pub maximum-le : (f : A → ℕ) (n : ℕ) (xs : List A) → All (λ x. f x ≤ n) xs → maximum f xs ≤ n
  maximum-le f n [] h = omega arith
  maximum-le f n (x ∷ xs) h = omega (arith, h.0, maximum-le f n xs h.1)

-- `set(xs)`: each value once.
abbrev pub distinct : List ℕ → List ℕ
distinct [] = []
distinct (x ∷ xs) = let rest = distinct xs in if elem x xs then rest else x ∷ rest

-- How often a value stands in a list.
abbrev pub occurrences : ℕ → List ℕ → ℕ
occurrences k xs = total (λ x. bit (x == k)) xs
