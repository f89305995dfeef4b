-- ===== src/Prelude/Exec.antt =====
-- Code that changes a state and may throw. What was written before the throw stays written, so the
-- state comes back beside the exception too.
use mathlib.Core.Path.{◌≡◌, refl}
use mathlib.Core.Logic.{◌⊎◌, inl, inr}

-- Either the value that the code returns or the exception that it throws.
pub data Result {ℓ κ} (X : Type ℓ) (A : Type κ) : Type (ℓ ⊔ κ) where
  ok : A → Result X A
  throw : X → Result X A

abbrev pub Exec {ℓ κ μ} : Type ℓ → Type κ → Type μ → Type (ℓ ⊔ κ ⊔ μ)
Exec X S A = S → Result X A × S

module _ {ℓ κ μ} {X : Type ℓ} {S : Type κ} {A : Type μ} where
  abbrev pub pure : A → Exec X S A
  pure a s = (ok a, s)

  abbrev pub raise : X → Exec X S A
  raise x s = (throw x, s)

module _ {ℓ κ μ ν} {X : Type ℓ} {S : Type κ} {A : Type μ} {B : Type ν} where
  abbrev pub continue : Result X A → S → (A → Exec X S B) → Result X B × S
  continue (ok a) s f = f a s
  continue (throw x) s f = (throw x, s)

  infixl 10 ◌>>=◌
  abbrev pub ◌>>=◌ : Exec X S A → (A → Exec X S B) → Exec X S B
  ◌>>=◌ m f s = let (r, s') = m s in continue r s' f

  infixl 10 ◌>>◌
  abbrev pub ◌>>◌ : Exec X S A → Exec X S B → Exec X S B
  m >> n = m >>= λ _. n

-- The value of a result that did not throw.
pub Result-cases {ℓ κ} :
    {X : Type ℓ} {A : Type κ} (r : Result X A) → ((a : A) × (r ≡ ok a)) ⊎ ((x : X) × (r ≡ throw x))
Result-cases (ok a) = inl (a, refl)
Result-cases (throw x) = inr (x, refl)
