-- ===== src/Prelude/Raising.antt =====
-- What a Python call that may raise yields: a value, or the text (the code) of the exception.
use Prim.Native.String.{String}
use mathlib.Core.Path.{◌≡◌, refl}
use mathlib.Core.Logic.{◌⊎◌, inl, inr}

pub data Outcome {ℓ} (A : Type ℓ) : Type ℓ where
  ok : A → Outcome A
  raised : String → Outcome A

pub Outcome-cases {ℓ} :
    {A : Type ℓ} (o : Outcome A) → ((text : String) × (o ≡ raised text)) ⊎ ((a : A) × (o ≡ ok a))
Outcome-cases (ok a) = inr (a, refl)
Outcome-cases (raised text) = inl (text, refl)

pub raised≢ok {ℓ} : {A : Type ℓ} (text : String) (a : A) → Path (Outcome A) (raised text) (ok a) → ⊥
raised≢ok text a h = cc
