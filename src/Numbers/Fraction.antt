-- ===== src/Numbers/Fraction.antt =====
-- Python's Fraction as a quotient of an integer by a positive number, not reduced: comparisons
-- multiply crosswise, so they see the value alone. The parse of a Rational text is Python's.
use collective_phase_control.Prelude.{ℕ, Bool}
use collective_phase_control.Numbers.Int.{ℤ, pos, ◌*ℤ◌, lt_ℤ, eq_ℤ}

pub record Fraction : Type 0 where
  pub num : ℤ
  pub den : ℕ

abbrev pub of_ℕ : ℕ → Fraction
of_ℕ n = record { num = pos n; den = 1 }

-- a < b
unfoldable pub lt_fraction : Fraction → Fraction → Bool
lt_fraction a b = lt_ℤ (a.num *ℤ pos b.den) (b.num *ℤ pos a.den)

-- a == b
unfoldable pub eq_fraction : Fraction → Fraction → Bool
eq_fraction a b = eq_ℤ (a.num *ℤ pos b.den) (b.num *ℤ pos a.den)
