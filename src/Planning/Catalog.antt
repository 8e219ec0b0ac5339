-- ===== src/Planning/Catalog.antt =====
-- The catalog of a `CandidateGenerator` (`_catalog` and the first loop of `_validate_dependencies`
-- of src/jobtology_be/planning/candidates.py). A dict is the list of its values in insertion
-- order, each found by its action ID.
use jobtology_be.Common.{
  ℕ, ◌≡◌, refl, ◌∙◌, inl, inr, true, Option, none, some, List, [], ◌∷◌, ◌++◌, map, In, In-append,
  All, All-map, IsNodup, ◌==◌, if◌then◌else◌, arith, Result, ok, raise, ◌>>◌, is_some, eq_cases,
  Option-cases, Bool-cases, subst, sym,
}
use mathlib.Core.List.{map-append, append_assoc, append-nil}
use jobtology_be.Planning.Templates.{ActivityTemplate}

pub data Error : Type 0 where
  duplicate_template_revision : ℕ → ℕ → Error
  ambiguous_template_revision : ℕ → Error
  missing_prerequisite_template : ℕ → ℕ → Error
  prerequisite_cycle : ℕ → Error
  unknown_outcome_requirement : ℕ → ℕ → Error
  -- Python's own error for a missing key.
  key_error : ℕ → Error

abbrev pub Catalog : Type 0
Catalog = List ActivityTemplate

abbrev pub ids : Catalog → List ℕ
ids = map (λ t. t.action_id)

-- `catalog.get(action_id)`
unfoldable pub get : ℕ → Catalog → Option ActivityTemplate
get a [] = none
get a (t ∷ ts) = let rest = get a ts in if t.action_id == a then some t else rest

-- The loop of `_catalog` from the catalog so far.
catalog_from : Catalog → List ActivityTemplate → Result Error Catalog
catalog_from acc [] = ok acc
catalog_from acc (t ∷ ts) =
    let rest = catalog_from (acc ++ (t ∷ [])) ts in
    elim (get t.action_id acc) [
      | none ↦ rest
      | some existing ↦ raise (
          if existing.revision == t.revision
          then duplicate_template_revision t.action_id t.revision
          else ambiguous_template_revision t.action_id)
    ]

-- `_catalog`
unfoldable pub catalog : List ActivityTemplate → Result Error Catalog
unfolding catalog_from get
catalog = catalog_from []

-- The inner loop over one template's prerequisites.
unfoldable pub check_prerequisites : Catalog → ℕ → List ℕ → Result Error (Unit {0})
check_prerequisites cat a [] = ok tt
check_prerequisites cat a (p ∷ ps) =
    let rest = check_prerequisites cat a ps in
    if is_some (get p cat) then rest else raise (missing_prerequisite_template a p)

unfoldable pub check_present_in : Catalog → List ActivityTemplate → Result Error (Unit {0})
unfolding check_prerequisites
check_present_in cat [] = ok tt
check_present_in cat (t ∷ ts) =
    check_prerequisites cat t.action_id t.prerequisite_action_ids >> check_present_in cat ts

-- The first loop of `_validate_dependencies`: every prerequisite is in the catalog.
unfoldable pub check_present : Catalog → Result Error (Unit {0})
unfolding check_present_in
check_present cat = check_present_in cat cat

pub get-In :
    (a : ℕ) (cat : Catalog) → In a (ids cat) → (t : ActivityTemplate) × (get a cat ≡ some t)
unfolding get
get-In a [] h = absurd h
get-In a (t ∷ ts) h = elim (eq_cases t.action_id a) [
  | inl e ↦ (t, ground arith)
  | inr ne ↦ elim h [
    | inl same ↦ absurd (ne (sym same))
    | inr later ↦ let (u, found) = get-In a ts later in (u, ground arith)
  ]
]

-- What is found has the identifier that was asked for, and stands in the catalog.
pub get-some :
    (a : ℕ) (cat : Catalog) {t : ActivityTemplate}
    → get a cat ≡ some t
    → (t.action_id ≡ a) × In a (ids cat)
unfolding get
get-some a [] h = absurd (cc h)
get-some a (u ∷ us) {t} h = elim (eq_cases u.action_id a) [
  | inl e ↦ (ground arith, inl (sym e))
  | inr ne ↦ let found = get-some a us {t = t} (ground arith) in (found.0, inr found.1)
]

pub get-All :
    (P : ActivityTemplate → Type 0) (a : ℕ) (cat : Catalog) {t : ActivityTemplate}
    → All P cat
    → get a cat ≡ some t
    → P t
unfolding get
get-All P a [] h e = absurd (cc e)
get-All P a (u ∷ us) {t} h e = elim (eq_cases u.action_id a) [
  | inl same ↦ subst P (ground arith) h.0
  | inr ne ↦ get-All P a us h.1 (ground arith)
]

pub is_some-In : (a : ℕ) (cat : Catalog) → is_some (get a cat) ≡ true → In a (ids cat)
is_some-In a cat h = elim (Option-cases (get a cat)) [
  | inl e ↦ absurd (ground (arith, e))
  | inr (t, e) ↦ (get-some a cat e).1
]

-- Every prerequisite of every template is the identifier of a template.
abbrev pub IsClosed : Catalog → Type 0
IsClosed cat = All (λ t. All (λ p. In p (ids cat)) t.prerequisite_action_ids) cat

check_prerequisites-ok :
    (cat : Catalog) (a : ℕ) (ps : List ℕ)
    → check_prerequisites cat a ps ≡ ok tt
    → All (λ p. In p (ids cat)) ps
unfolding check_prerequisites
check_prerequisites-ok cat a [] h = tt
check_prerequisites-ok cat a (p ∷ ps) h = elim (Bool-cases (is_some (get p cat))) [
  | inl e ↦ (is_some-In p cat e, check_prerequisites-ok cat a ps (ground arith))
  | inr e ↦ absurd (ground arith)
]

check_present_in-ok :
    (cat : Catalog) (ts : List ActivityTemplate)
    → check_present_in cat ts ≡ ok tt
    → All (λ t. All (λ p. In p (ids cat)) t.prerequisite_action_ids) ts
unfolding check_present_in
check_present_in-ok cat [] h = tt
check_present_in-ok cat (t ∷ ts) h = (
  check_prerequisites-ok cat t.action_id t.prerequisite_action_ids (ground arith),
  check_present_in-ok cat ts (ground arith),
)

pub check_present-ok : (cat : Catalog) → check_present cat ≡ ok tt → IsClosed cat
unfolding check_present
check_present-ok cat h = check_present_in-ok cat cat h

IsNodup-snoc : (xs : List ℕ) (x : ℕ) → IsNodup xs → (¬ In x xs) → IsNodup (xs ++ (x ∷ []))
IsNodup-snoc [] x n h = ((λ i. i), tt)
IsNodup-snoc (y ∷ ys) x n h = (
  (λ i. elim (In-append y ys (x ∷ []) i) [
    | inl j ↦ n.0 j
    | inr j ↦ elim j [ inl e ↦ h (inl (sym e)) | inr k ↦ k ]
  ]),
  IsNodup-snoc ys x n.1 (λ i. h (inr i)),
)

ids-append : (xs ys : Catalog) → ids (xs ++ ys) ≡ ids xs ++ ids ys
ids-append xs ys = map-append (λ t. t.action_id) xs ys

catalog_from-ok :
    (acc : Catalog) (ts : List ActivityTemplate) {cat : Catalog}
    → IsNodup (ids acc)
    → catalog_from acc ts ≡ ok cat
    → (cat ≡ acc ++ ts) × IsNodup (ids cat)
unfolding catalog_from
catalog_from-ok acc [] {cat} n h =
    let same : acc ≡ cat = cc h in
    (sym same ∙ sym (append-nil acc), subst (λ c. IsNodup (ids c)) same n)
catalog_from-ok acc (t ∷ ts) {cat} n h = elim (Option-cases (get t.action_id acc)) [
  | inl new ↦
      let later =
        catalog_from-ok (acc ++ (t ∷ [])) ts {cat = cat}
          (subst IsNodup (sym (ids-append acc (t ∷ []))) (
            IsNodup-snoc (ids acc) t.action_id n
              (λ i. let (u, found) = get-In t.action_id acc i in cc (new, found))))
          (rw (new, catalog_from) at h) in
      (later.0 ∙ append_assoc acc (t ∷ []) ts, later.1)
  | inr (u, old) ↦ absurd (cc (rw (old, catalog_from) at h))
]

-- `_catalog` keeps the templates as they are, and accepts none whose action IDs repeat.
pub catalog-ok :
    (ts : List ActivityTemplate) {cat : Catalog}
    → catalog ts ≡ ok cat
    → (cat ≡ ts) × IsNodup (ids cat)
unfolding catalog
catalog-ok ts h = catalog_from-ok [] ts tt h

-- Where no action ID repeats, each template is the one found under its action ID.
pub get_self : (cat : Catalog) → IsNodup (ids cat) → All (λ t. get t.action_id cat ≡ some t) cat
unfolding get
get_self [] n = tt
get_self (t ∷ ts) n = (
  ground arith,
  All-map (λ u. (get u.action_id ts ≡ some u)) _ ts
      (λ u e. elim (eq_cases t.action_id u.action_id) [
        | inl same ↦
            absurd (n.0 (subst (λ k. In k (ids ts)) (sym same) (get-some u.action_id ts e).1))
        | inr ne ↦ ground arith
      ])
      (get_self ts n.1),
)

pub ids_self : (cat : Catalog) → All (λ t. In t.action_id (ids cat)) cat
ids_self [] = tt
ids_self (t ∷ ts) =
    (inl refl, All-map (λ u. In u.action_id (ids ts)) _ ts (λ u i. inr i) (ids_self ts))
