-- ===== src/Prelude/Results.antt =====
-- Go's pair of a value and an error, and the step from one fallible call to the next.
use mathlib.Core.Path.{◌≡◌, refl}
use mathlib.Core.Logic.{◌⊎◌, inl, inr}

pub data Result {ℓ} (A : Type ℓ) : Type ℓ where
  ok : A → Result A
  err : Result A

infixl 5 ◌>>=◌
abbrev pub ◌>>=◌ {ℓ κ} : {A : Type ℓ} {B : Type κ} → Result A → (A → Result B) → Result B
ok a >>= f = f a
err >>= f = err

-- `v, _ := f()`: the value on success, and the zero value beside an error.
abbrev pub value_or {ℓ} : {A : Type ℓ} → A → Result A → A
value_or z (ok a) = a
value_or z err = z

pub Result-cases {ℓ} : {A : Type ℓ} (r : Result A) → (r ≡ err) ⊎ ((a : A) × (r ≡ ok a))
Result-cases (ok a) = inr (a, refl)
Result-cases err = inl refl
