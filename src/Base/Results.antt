-- ===== src/Base/Results.antt =====
-- A fallible result, Go's pair of a value and an error.
use mathlib.Core.Path.{◌≡◌, refl}
use mathlib.Core.Logic.{◌⊎◌, inl, inr}

pub data Result {ℓ κ} (E : Type ℓ) (A : Type κ) : Type (ℓ ⊔ κ) where
  ok : A → Result E A
  err : E → Result E A

pub Result-cases {ℓ κ} :
    {E : Type ℓ} {A : Type κ} (r : Result E A) → ((a : A) × (r ≡ ok a)) ⊎ ((e : E) × (r ≡ err e))
Result-cases (ok a) = inl (a, refl)
Result-cases (err e) = inr (e, refl)

-- What follows an error check.
infixl 5 ◌>>=◌
abbrev pub ◌>>=◌ {ℓ κ μ} :
    {E : Type ℓ} {A : Type κ} {B : Type μ} → Result E A → (A → Result E B) → Result E B
err failure >>= next = err failure
ok found >>= next = next found

-- A call that moves a state of type `S` whether it fails or not.
abbrev pub Call : Type 0 → Type 0 → Type 0 → Type 0
Call S E A = S → Result E A × S

pub ok≢err {ℓ} : {E A : Type 0} {e : E} {a : A} {B : Type ℓ} → ok a ≡ err e → B
ok≢err h = absurd cc
