-- ===== src/Common/Keep.antt =====
-- What a filtered list says of the list, and the list of the filtered one.
use Prim.Native.Nat.{ℕ}
use mathlib.Core.Path.{◌≡◌, refl}
use mathlib.Core.Logic.{◌⊎◌, inl, inr}
use mathlib.Core.Bool.{Bool, true, ◌&&◌}
use mathlib.Core.List.{List, [], ◌∷◌, ◌++◌, map}
use jobtology_be.Common.Tests.{Bool-cases}
use jobtology_be.Common.Lists.{All, Any, In, keep, any}

module _ {A : Type 0} where
  pub keep-keep : (p q : A → Bool) (xs : List A) → keep p (keep q xs) ≡ keep (λ x. q x && p x) xs
  keep-keep p q [] = refl
  keep-keep p q (x ∷ xs) = elim (Bool-cases (q x)) [
    | inl e ↦ rw (e, keep-keep p q xs)
    | inr e ↦ rw (e, keep-keep p q xs)
  ]

  pub Any-keep :
      (P : A → Type 0) (p : A → Bool) (xs : List A)
      → Any P (keep p xs)
      → Any (λ x. (p x ≡ true) × P x) xs
  Any-keep P p [] h = h
  Any-keep P p (x ∷ xs) h = elim (Bool-cases (p x)) [
    | inl e ↦ (elim (let t : P x ⊎ Any P (keep p xs) = rw e at h in t) [
      | inl a ↦ inl (e, a)
      | inr b ↦ inr (Any-keep P p xs b)
    ])
    | inr e ↦ inr (Any-keep P p xs (rw e at h))
  ]

  pub keep-Any :
      (P : A → Type 0) (p : A → Bool) (xs : List A)
      → Any (λ x. (p x ≡ true) × P x) xs
      → Any P (keep p xs)
  keep-Any P p [] h = h
  keep-Any P p (x ∷ xs) (inl h) = rw h.0 (inl h.1)
  keep-Any P p (x ∷ xs) (inr h) = elim (Bool-cases (p x)) [
    | inl e ↦ rw e (inr (keep-Any P p xs h))
    | inr e ↦ rw e (keep-Any P p xs h)
  ]

  pub Any-map : (P Q : A → Type 0) (xs : List A) → ((x : A) → P x → Q x) → Any P xs → Any Q xs
  Any-map P Q [] f h = h
  Any-map P Q (x ∷ xs) f (inl h) = inl (f x h)
  Any-map P Q (x ∷ xs) f (inr h) = inr (Any-map P Q xs f h)

  pub All-keep :
      (P : A → Type 0) (p : A → Bool) (xs : List A)
      → All P (keep p xs)
      → All (λ x. p x ≡ true → P x) xs
  All-keep P p [] h = tt
  All-keep P p (x ∷ xs) h = elim (Bool-cases (p x)) [
    | inl e ↦ (let t : P x × All P (keep p xs) = rw e at h in ((λ _. t.0), All-keep P p xs t.1))
    | inr e ↦ ((λ y. absurd (cc (e, y))), All-keep P p xs (rw e at h))
  ]

  pub keep-passes : (p : A → Bool) (xs : List A) → All (λ x. p x ≡ true) (keep p xs)
  keep-passes p [] = tt
  keep-passes p (x ∷ xs) = elim (Bool-cases (p x)) [
    | inl e ↦ rw e (e, keep-passes p xs)
    | inr e ↦ rw e (keep-passes p xs)
  ]

  pub keep-All : (P : A → Type 0) (p : A → Bool) (xs : List A) → All P xs → All P (keep p xs)
  keep-All P p [] h = tt
  keep-All P p (x ∷ xs) h = elim (Bool-cases (p x)) [
    | inl e ↦ rw e (h.0, keep-All P p xs h.1)
    | inr e ↦ rw e (keep-All P p xs h.1)
  ]

pub keep-nil : {A : Type 0} (p : A → Bool) (xs : List A) → xs ≡ [] → keep p xs ≡ []
keep-nil p [] h = refl
keep-nil p (x ∷ xs) h = absurd (cc h)

pub keep-In : (p : ℕ → Bool) (x : ℕ) (xs : List ℕ) → In x (keep p xs) → In x xs
keep-In p x [] h = h
keep-In p x (y ∷ ys) h = elim (Bool-cases (p y)) [
  | inl e ↦ (elim (let t : (x ≡ y) ⊎ In x (keep p ys) = rw e at h in t) [
    | inl same ↦ inl same
    | inr later ↦ inr (keep-In p x ys later)
  ])
  | inr e ↦ inr (keep-In p x ys (rw e at h))
]

module _ {A : Type 0} where
  pub Any-append_right : (P : A → Type 0) (xs ys : List A) → Any P ys → Any P (xs ++ ys)
  Any-append_right P [] ys h = h
  Any-append_right P (x ∷ xs) ys h = inr (Any-append_right P xs ys h)

  -- An element with two properties, one of them every element's.
  pub Any-pick : (P Q : A → Type 0) (xs : List A) → Any P xs → All Q xs → (x : A) × P x × Q x
  Any-pick P Q [] h k = absurd h
  Any-pick P Q (x ∷ xs) (inl p) k = (x, p, k.0)
  Any-pick P Q (x ∷ xs) (inr h) k = Any-pick P Q xs h k.1

  keep-more :
      (P : A → Type 0) (p : A → Bool) (x : A) (xs : List A)
      → Any P (keep p xs)
      → Any P (keep p (x ∷ xs))
  keep-more P p x xs h = elim (Bool-cases (p x)) [ inl e ↦ rw e (inr h) | inr e ↦ rw e h ]

  keep-self_in :
      (p : A → Bool) (zs xs : List A)
      → ((x : A) → Any (λ y. y ≡ x) (keep p xs) → Any (λ y. y ≡ x) zs)
      → All (λ x. p x ≡ true → Any (λ y. y ≡ x) zs) xs
  keep-self_in p zs [] f = tt
  keep-self_in p zs (x ∷ xs) f = (
    (λ q. f x (rw q (inl refl))),
    keep-self_in p zs xs (λ y h. f y (keep-more (λ z. z ≡ y) p x xs h)),
  )

  -- An element that passes the test stands in the filtered list.
  pub keep_self :
      (p : A → Bool) (xs : List A) → All (λ x. p x ≡ true → Any (λ y. y ≡ x) (keep p xs)) xs
  keep_self p xs = keep-self_in p (keep p xs) xs (λ x h. h)

  -- Some element passes the test that `any` makes.
  pub Any-any : (p : A → Bool) (xs : List A) → any p xs ≡ true → Any (λ x. p x ≡ true) xs
  Any-any p [] h = absurd (cc h)
  Any-any p (x ∷ xs) h = elim (Bool-cases (p x)) [
    | inl e ↦ inl e
    | inr e ↦ inr (Any-any p xs (rw e at h))
  ]

pub Any-images :
    {A B : Type 0} (P : A → Type 0) (Q : B → Type 0) (f : A → B) (xs : List A)
    → ((x : A) → P x → Q (f x))
    → Any P xs
    → Any Q (map f xs)
Any-images P Q f [] h a = absurd a
Any-images P Q f (x ∷ xs) h (inl p) = inl (h x p)
Any-images P Q f (x ∷ xs) h (inr a) = inr (Any-images P Q f xs h a)
