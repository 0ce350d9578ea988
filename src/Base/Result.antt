-- ===== src/Base/Result.antt =====
-- A Go pair `(value, err)`: the value where `err` is nil, the error otherwise.
use mathlib.Core.Path.{◌≡◌, refl}
use mathlib.Core.Logic.{◌⊎◌, inl, inr}

pub data Result {ℓ κ} (E : Type κ) (A : Type ℓ) : Type (ℓ ⊔ κ) where
  ok : A → Result E A
  err : E → Result E A

module _ {ℓ κ ι} {E : Type κ} {A : Type ℓ} {B : Type ι} where
  infixl 5 ◌>>=◌
  abbrev pub ◌>>=◌ : Result E A → (A → Result E B) → Result E B
  ok a >>= f = f a
  err e >>= f = err e

  -- `if err != nil { return fmt.Errorf("…: %w", err) }`
  pub >>=-eq-ok :
      (f : A → Result E B) (r : Result E A) {value : B}
      → (r >>= f) ≡ ok value
      → (x : A) × (f x ≡ ok value) × (r ≡ ok x)
  >>=-eq-ok f (ok x) e = (x, e, refl)
  >>=-eq-ok f (err _) e = cc

module _ {ℓ κ ι} {E : Type κ} {F : Type ι} {A : Type ℓ} where
  abbrev pub map_err : (E → F) → Result E A → Result F A
  map_err f (ok a) = ok a
  map_err f (err e) = err (f e)

pub Result-cases {ℓ κ} :
    {E : Type κ} {A : Type ℓ} (r : Result E A) → ((a : A) × (r ≡ ok a)) ⊎ ((e : E) × (r ≡ err e))
Result-cases (ok a) = inl (a, refl)
Result-cases (err e) = inr (e, refl)
