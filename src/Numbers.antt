-- ===== src/Numbers.antt =====
-- Exact numbers: signed integers over the native numbers, and Python's Fraction.
pub mod Int
pub mod Fraction
