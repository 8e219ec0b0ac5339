-- ===== src/Planning/Hint/Choose.antt =====
-- The slots that a round of the list schedule chooses (`_add_schedule_hint` of
-- src/jobtology_be/planning/cp_sat_model.py).
use jobtology_be.Common.{
  ℕ, ◌+◌, ◌≤◌, ◌≡◌, refl, inl, inr, Bool, true, false, not, ◌||◌, List, [], ◌∷◌, leb, ◌==◌, All,
  bit, total, arith, Bool-cases,
}
use jobtology_be.Planning.Route.{week_of_slot}
use jobtology_be.Planning.Hint.{Slot, choose}
use jobtology_be.Planning.Hint.Sublists.{Sub, Sub-later}

module _ (usable : Slot → Bool) (limit hours : ℕ) where
  abbrev blocked : (ℕ → ℕ) → Slot → Bool
  blocked taken e = not (usable e) || leb limit (taken (week_of_slot e))

  abbrev taken_with : (ℕ → ℕ) → Slot → ℕ → ℕ
  taken_with taken e w = bit (week_of_slot e == w) + taken w

  usable_of : (taken : ℕ → ℕ) (e : Slot) → blocked taken e ≡ false → usable e ≡ true
  usable_of taken e h = ground arith

  free_of :
      (taken : ℕ → ℕ) (e : Slot) → blocked taken e ≡ false → taken (week_of_slot e) + 1 ≤ limit
  free_of taken e h = elim (Bool-cases (usable e)) [
    | inl u ↦
        let full : leb limit (taken (week_of_slot e)) ≡ false = rw u at h in ground (arith, full)
    | inr u ↦ absurd (cc (rw u at h))
  ]

  -- The chosen slots are slots of the list, in its order, and each may be used.
  pub choose-Sub :
      (count : ℕ) (taken : ℕ → ℕ) (es : List Slot)
      → Sub (choose usable limit hours count taken es) es
  unfolding choose
  choose-Sub count taken [] = tt
  choose-Sub count taken (e ∷ es) = elim (Bool-cases (blocked taken e)) [
    | inl b ↦
        rw b (Sub-later e (choose usable limit hours count taken es) es (choose-Sub count taken es))
    | inr b ↦ elim (Bool-cases (count + 1 == hours)) [
      | inl last ↦ rw (b, last) (inl (refl, tt))
      | inr more ↦ rw (b, more) (inl (refl, choose-Sub (count + 1) (taken_with taken e) es))
    ]
  ]

  pub choose-All :
      (count : ℕ) (taken : ℕ → ℕ) (es : List Slot)
      → All (λ e. usable e ≡ true) (choose usable limit hours count taken es)
  unfolding choose
  choose-All count taken [] = tt
  choose-All count taken (e ∷ es) = elim (Bool-cases (blocked taken e)) [
    | inl b ↦ rw b (choose-All count taken es)
    | inr b ↦ elim (Bool-cases (count + 1 == hours)) [
      | inl last ↦ rw (b, last) (usable_of taken e b, tt)
      | inr more ↦
          rw (b, more) (usable_of taken e b, choose-All (count + 1) (taken_with taken e) es)
    ]
  ]

  -- No week gets more than the limit, with what is taken before.
  pub choose-week :
      (count : ℕ) (taken : ℕ → ℕ) (es : List Slot) (w : ℕ)
      → taken w ≤ limit
      → total (λ e. bit (week_of_slot e == w)) (choose usable limit hours count taken es) + taken w
        ≤ limit
  unfolding choose
  choose-week count taken [] w h = omega arith
  choose-week count taken (e ∷ es) w h = elim (Bool-cases (blocked taken e)) [
    | inl b ↦ rw b (choose-week count taken es w h)
    | inr b ↦
        let one_more : taken_with taken e w ≤ limit = ground (arith, free_of taken e b) in
        elim (Bool-cases (count + 1 == hours)) [
          | inl last ↦ rw (b, last) (omega (arith, one_more))
          | inr more ↦
              rw (b, more)
                (omega (arith, choose-week (count + 1) (taken_with taken e) es w one_more))
        ]
  ]
