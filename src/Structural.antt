-- ===== src/Structural.antt =====
-- v6/structural_analysis.py: the transformations that the analyses read, and their flows. One child
-- module follows for each analysis.
pub mod Closure
pub mod Siphons
pub mod Cuts
pub mod Raf
pub mod Tests
use collective_phase_control.Prelude.{Bool, String, List, [], ◌∷◌, if◌then◌else◌}
use collective_phase_control.Ids.Dict.{Dict}
use collective_phase_control.Numbers.Fraction.{Fraction, of_ℕ, lt_fraction}

-- TransformationSpec of v6/models.py, the fields that the analyses read; a catalyst clause is its
-- `all_of`. A TransformationAttestation is read through its `spec` alone.
pub record Transformation : Type 0 where
  pub transformation_id : String
  pub inputs : Dict Fraction
  pub outputs : Dict Fraction
  pub catalyst_clauses : List (List String)
  pub inhibitors : List String
  pub uncatalyzed : Bool
  pub required_evidence : List String
  pub required_authority : List String

-- {coordinate for coordinate, value in d.items() if Fraction(value) > 0}
unfoldable pub positive_keys : Dict Fraction → List String
unfolding lt_fraction
positive_keys [] = []
positive_keys ((coordinate, value) ∷ d) =
    let rest = positive_keys d in if lt_fraction (of_ℕ 0) value then coordinate ∷ rest else rest

-- _flows, its two components
unfoldable pub flow_inputs : Transformation → List String
unfolding positive_keys
flow_inputs t = positive_keys t.inputs

unfoldable pub flow_outputs : Transformation → List String
unfolding positive_keys
flow_outputs t = positive_keys t.outputs
