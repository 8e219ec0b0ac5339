-- ===== src/Common/Results.antt =====
-- The result of code that may raise, and of code whose recursion runs on fuel.
use Prim.Native.Nat.{ℕ}
use mathlib.Core.Path.{◌≡◌, refl}
use mathlib.Core.Logic.{◌⊎◌, inl, inr}
use mathlib.Core.Bool.{Bool, true, false}
use mathlib.Core.List.{List, [], ◌∷◌}

-- `raise e` ends the call; the caller's own handler is a match on the result.
pub data Result (E A : Type 0) : Type 0 where
  ok : A → Result E A
  raise : E → Result E A

module _ {E : Type 0} where
  infixl 5 ◌>>=◌ ◌>>◌
  abbrev pub ◌>>=◌ : {A B : Type 0} → Result E A → (A → Result E B) → Result E B
  ok a >>= f = f a
  raise e >>= f = raise e

  abbrev pub ◌>>◌ : {B : Type 0} → Result E (Unit {0}) → Result E B → Result E B
  m >> k = m >>= λ _. k

  abbrev pub raise_if : Bool → E → Result E (Unit {0})
  raise_if true e = raise e
  raise_if false e = ok tt

  pub Result-cases :
      {A : Type 0} (m : Result E A) → ((e : E) × (m ≡ raise e)) ⊎ ((a : A) × (m ≡ ok a))
  Result-cases (ok a) = inr (a, refl)
  Result-cases (raise e) = inl (e, refl)

  pub ok-inj : {A : Type 0} (a b : A) → ◌≡◌ {A = Result E A} (ok a) (ok b) → a ≡ b
  ok-inj a b e = cc e

  -- A chain that ends well has passed each link.
  pub bind-ok :
      {A B : Type 0} (m : Result E A) (f : A → Result E B) (b : B)
      → (m >>= f) ≡ ok b
      → (a : A) × (m ≡ ok a) × (f a ≡ ok b)
  bind-ok (ok a) f b e = (a, refl, e)
  bind-ok (raise x) f b e = absurd (cc e)

  pub seq-ok :
      {B : Type 0} (m : Result E (Unit {0})) (k : Result E B) (b : B)
      → (m >> k) ≡ ok b
      → (m ≡ ok tt) × (k ≡ ok b)
  seq-ok (ok u) k b e = (refl, e)
  seq-ok (raise x) k b e = absurd (cc e)

  pub raise_if-ok : (b : Bool) (x : E) → raise_if b x ≡ ok tt → b ≡ false
  raise_if-ok true x e = absurd (cc e)
  raise_if-ok false x e = refl

-- A recursion that Python makes with no bound: `diverge` says that the fuel ran out.
pub data Outcome (E A : Type 0) : Type 0 where
  done : A → Outcome E A
  failed : E → Outcome E A
  diverge : Outcome E A

pub done-inj : {E A : Type 0} (a b : A) → ◌≡◌ {A = Outcome E A} (done a) (done b) → a ≡ b
done-inj a b e = cc e

abbrev pub then_do : {E A B : Type 0} → Outcome E A → (A → Outcome E B) → Outcome E B
then_do (done a) f = f a
then_do (failed e) f = failed e
then_do diverge f = diverge

-- `for x in xs:` with a call that changes the state.
unfoldable pub for_each : {E S : Type 0} → (ℕ → S → Outcome E S) → List ℕ → S → Outcome E S
for_each call [] s = done s
for_each call (x ∷ xs) s = then_do (call x s) (λ s'. for_each call xs s')
