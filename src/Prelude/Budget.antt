-- ===== src/Prelude/Budget.antt =====
-- A computation that draws on an analysis budget: its value, and how many times it calls
-- `budget.spend()` on the way. A budget can only stop the computation by raising, so the value is the
-- outcome under every budget that grants that many calls.
use Prim.Native.Nat.{ℕ, ◌+◌}

pub record Cost {ℓ} (A : Type ℓ) : Type ℓ where
  pub value : A
  pub spent : ℕ

abbrev pub pure {ℓ} : {A : Type ℓ} → A → Cost A
pure a = record { value = a; spent = 0 }

-- budget.spend()
abbrev pub spend : Cost (Unit {0})
spend = record { value = tt; spent = 1 }

infixl 5 ◌>>=◌ ◌>>◌
abbrev pub ◌>>=◌ {ℓ κ} : {A : Type ℓ} {B : Type κ} → Cost A → (A → Cost B) → Cost B
m >>= f = let r = f m.value in record { value = r.value; spent = m.spent + r.spent }

abbrev pub ◌>>◌ {ℓ} : {B : Type ℓ} → Cost (Unit {0}) → Cost B → Cost B
m >> k = m >>= λ _. k
