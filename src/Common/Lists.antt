-- ===== src/Common/Lists.antt =====
-- Lists over the native numbers: lengths, membership of identifiers, filters, predicates.
use Prim.Native.Nat.{ℕ, suc, ◌+◌, ◌≤◌}
use mathlib.Core.Path.{◌≡◌, refl, ap, sym, subst}
use mathlib.Core.Logic.{◌⊎◌, inl, inr, ◌≢◌}
use mathlib.Core.Bool.{Bool, true, false, ◌&&◌, ◌||◌}
use mathlib.Core.Option.{Option, none, some}
use mathlib.Core.List.{List, [], ◌∷◌, ◌++◌, map}
use native.Mathlib.Omega.{arith}
use jobtology_be.Common.Tests.{◌==◌, if◌then◌else◌, eq_cases}

module _ {ℓ} {A : Type ℓ} where
  abbrev pub length : List A → ℕ
  length [] = 0
  length (x ∷ xs) = suc (length xs)

  pub length-append : (xs ys : List A) → length (xs ++ ys) ≡ length xs + length ys
  length-append [] ys = omega arith
  length-append (x ∷ xs) ys = omega (arith, length-append xs ys)

  -- `(x for x in xs if p(x))`
  abbrev pub keep : (A → Bool) → List A → List A
  keep p [] = []
  keep p (x ∷ xs) = let rest = keep p xs in if p x then x ∷ rest else rest

  -- `any(p(x) for x in xs)`
  abbrev pub any : (A → Bool) → List A → Bool
  any p [] = false
  any p (x ∷ xs) = p x || any p xs

  -- `all(p(x) for x in xs)`
  abbrev pub all : (A → Bool) → List A → Bool
  all p [] = true
  all p (x ∷ xs) = p x && all p xs

  -- `next((x for x in xs if p(x)), None)`
  abbrev pub find_first : (A → Bool) → List A → Option A
  find_first p [] = none
  find_first p (x ∷ xs) = let rest = find_first p xs in if p x then some x else rest

  pub length-keep : (p : A → Bool) (xs : List A) → length (keep p xs) ≤ length xs
  length-keep p [] = omega arith
  length-keep p (x ∷ xs) = ground (arith, length-keep p xs)

pub length-map {ℓ κ} :
    {A : Type ℓ} {B : Type κ} (f : A → B) (xs : List A) → length (map f xs) ≡ length xs
length-map f [] = refl
length-map f (x ∷ xs) = ap suc (length-map f xs)

-- A predicate of every element.
abbrev pub All {ℓ κ} : {A : Type ℓ} → (A → Type κ) → List A → Type κ
All P [] = Unit
All P (x ∷ xs) = P x × All P xs

-- An element with a property stands in the list.
abbrev pub Any : {A : Type 0} → (A → Type 0) → List A → Type 0
Any P [] = ⊥
Any P (x ∷ xs) = P x ⊎ Any P xs

-- `x` stands in the list.
abbrev pub In : ℕ → List ℕ → Type 0
In x [] = ⊥
In x (y ∷ ys) = (x ≡ y) ⊎ In x ys

-- `x in xs`
abbrev pub elem : ℕ → List ℕ → Bool
elem x [] = false
elem x (y ∷ ys) = x == y || elem x ys

-- `set(xs) <= set(ys)`
abbrev pub subset : List ℕ → List ℕ → Bool
subset xs ys = all (λ x. elem x ys) xs

-- `xs.remove(x)` of a set or a list: the first occurrence goes.
abbrev pub remove : ℕ → List ℕ → List ℕ
remove x [] = []
remove x (y ∷ ys) = let rest = remove x ys in if x == y then ys else y ∷ rest

pub elem→In : (x : ℕ) (xs : List ℕ) → elem x xs ≡ true → In x xs
elem→In x [] h = cc
elem→In x (y ∷ ys) h = elim (eq_cases x y) [
  | inl e ↦ inl e
  | inr ne ↦ inr (elem→In x ys (ground arith))
]

pub In→elem : (x : ℕ) (xs : List ℕ) → In x xs → elem x xs ≡ true
In→elem x [] h = absurd h
In→elem x (y ∷ ys) (inl e) = ground arith
In→elem x (y ∷ ys) (inr h) = ground (arith, In→elem x ys h)

pub not-elem→In : (x : ℕ) (xs : List ℕ) → elem x xs ≡ false → ¬ In x xs
not-elem→In x xs h i = let e = In→elem x xs i in cc

pub remove_head : (x : ℕ) (xs : List ℕ) → remove x (x ∷ xs) ≡ xs
remove_head x xs = ground arith

pub All-In : (P : ℕ → Type 0) (xs : List ℕ) → All P xs → (x : ℕ) → In x xs → P x
All-In P [] h x i = absurd i
All-In P (y ∷ ys) h x (inl e) = subst P (sym e) h.0
All-In P (y ∷ ys) h x (inr i) = All-In P ys h.1 x i

pub In-All : (P : ℕ → Type 0) (xs : List ℕ) → ((x : ℕ) → In x xs → P x) → All P xs
In-All P [] f = tt
In-All P (y ∷ ys) f = (f y (inl refl), In-All P ys (λ x i. f x (inr i)))

pub All-map {ℓ} :
    {A : Type ℓ} (P Q : A → Type 0) (xs : List A) → ((x : A) → P x → Q x) → All P xs → All Q xs
All-map P Q [] f h = tt
All-map P Q (x ∷ xs) f h = (f x h.0, All-map P Q xs f h.1)

pub All-both {ℓ} :
    {A : Type ℓ} (P Q : A → Type 0) (xs : List A) → All P xs → All Q xs → All (λ x. P x × Q x) xs
All-both P Q [] h k = tt
All-both P Q (x ∷ xs) h k = ((h.0, k.0), All-both P Q xs h.1 k.1)

pub All-append {ℓ} :
    {A : Type ℓ} (P : A → Type 0) (xs ys : List A) → All P xs → All P ys → All P (xs ++ ys)
All-append P [] ys hx hy = hy
All-append P (x ∷ xs) ys hx hy = (hx.0, All-append P xs ys hx.1 hy)

pub In-append_left : (x : ℕ) (xs ys : List ℕ) → In x xs → In x (xs ++ ys)
In-append_left x [] ys h = absurd h
In-append_left x (y ∷ xs) ys (inl e) = inl e
In-append_left x (y ∷ xs) ys (inr h) = inr (In-append_left x xs ys h)

pub In-append_right : (x : ℕ) (xs ys : List ℕ) → In x ys → In x (xs ++ ys)
In-append_right x [] ys h = h
In-append_right x (y ∷ xs) ys h = inr (In-append_right x xs ys h)

pub In-append : (x : ℕ) (xs ys : List ℕ) → In x (xs ++ ys) → In x xs ⊎ In x ys
In-append x [] ys h = inr h
In-append x (y ∷ xs) ys (inl e) = inl (inl e)
In-append x (y ∷ xs) ys (inr h) = elim (In-append x xs ys h) [ inl a ↦ inl (inr a) | inr b ↦ inr b ]

-- No value stands twice.
abbrev pub IsNodup : List ℕ → Type 0
IsNodup [] = Unit
IsNodup (x ∷ xs) = (¬ In x xs) × IsNodup xs

In-remove : (x y : ℕ) (ys : List ℕ) → x ≢ y → In x ys → In x (remove y ys)
In-remove x y [] ne h = h
In-remove x y (z ∷ ys) ne (inl e) = elim (eq_cases y z) [
  | inl same ↦ absurd (ne (subst (λ k. x ≡ k) (sym same) e))
  | inr other ↦ ground arith
]
In-remove x y (z ∷ ys) ne (inr h) = elim (eq_cases y z) [
  | inl same ↦ ground arith
  | inr other ↦ ground (arith, In-remove x y ys ne h)
]

length-remove : (x : ℕ) (xs : List ℕ) → In x xs → length xs ≡ suc (length (remove x xs))
length-remove x [] h = absurd h
length-remove x (y ∷ ys) (inl e) = ground arith
length-remove x (y ∷ ys) (inr h) = ground (arith, length-remove x ys h)

-- The pigeonhole principle: distinct values of `ys` are no more than `ys` has.
pub length-le_of_nodup :
    (xs ys : List ℕ) → IsNodup xs → ((x : ℕ) → In x xs → In x ys) → length xs ≤ length ys
length-le_of_nodup [] ys n f = omega arith
length-le_of_nodup (x ∷ xs) ys n f =
    let shorter =
      length-le_of_nodup xs (remove x ys) n.1
        (λ z i. In-remove z x ys (λ e. n.0 (subst (λ k. In k xs) e i)) (f z (inr i))) in
    let one = length-remove x ys (f x (inl refl)) in omega arith
