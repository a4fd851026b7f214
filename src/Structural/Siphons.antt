-- ===== src/Structural/Siphons.antt =====
-- v6/structural_analysis.py: enumerate_minimal_siphons and unfed_siphons.
pub mod Enumerated
pub mod Unfed
use collective_phase_control.Prelude.{
  ℕ, suc, ◌-◌, String, Bool, true, false, not, ◌&&◌, ◌||◌, Option, none, some, List, [], ◌∷◌, map,
  any, all, length, ltb, if◌then◌else◌, Cost, pure, ◌>>=◌,
}
use collective_phase_control.Ids.{intersects, to_set, sorted, sorted_tuples}
use collective_phase_control.Ids.Dict.{Dict, get, values}
use collective_phase_control.Numbers.Fraction.{Fraction, of_ℕ, lt_fraction}
use collective_phase_control.Enumeration.{candidates, collect, EnumerationResult}
use collective_phase_control.Structural.{Transformation, flow_inputs, flow_outputs}

-- not (outputs & candidate) or bool(inputs & candidate), for every transformation
unfoldable pub is_siphon : Dict Transformation → List String → Bool
is_siphon transformations candidate =
    all (λ t. not (intersects (flow_outputs t) candidate) || intersects (flow_inputs t) candidate)
      (values transformations)

unfoldable pub enumerate_minimal_siphons :
    Dict Transformation → List String → ℕ → Cost EnumerationResult
unfolding is_siphon
enumerate_minimal_siphons transformations coordinates maximum_coordinates =
    let ordered = sorted (to_set coordinates) in
    if ltb maximum_coordinates (length ordered)
    then pure (record { values = []; exhaustive = false })
    else do
      minimal ←
          collect (λ candidate. pure (is_siphon transformations candidate)) []
            (candidates 1 (suc (length ordered) - 1) ordered)
      pure (record { values = map sorted minimal; exhaustive = true })

-- initial_markings.get(item, Fraction(0)) > 0
unfoldable pub is_marked : Dict Fraction → String → Bool
unfolding lt_fraction
is_marked initial_markings item = elim (get item initial_markings) [
  | none ↦ false
  | some value ↦ lt_fraction (of_ℕ 0) value
]

unfoldable pub is_unfed : Dict Fraction → List String → List String → Bool
unfolding is_marked
is_unfed initial_markings supplied siphon =
    not (any (is_marked initial_markings) siphon) && not (intersects siphon (to_set supplied))

unfoldable pub unfed_loop : Dict Fraction → List String → List (List String) → List (List String)
unfolding is_unfed
unfed_loop initial_markings supplied [] = []
unfed_loop initial_markings supplied (siphon ∷ siphons) =
    let result = unfed_loop initial_markings supplied siphons in
    if is_unfed initial_markings supplied (to_set siphon)
    then sorted (to_set siphon) ∷ result
    else result

unfoldable pub unfed_siphons : List (List String) → Dict Fraction → List String → List (List String)
unfolding unfed_loop
unfed_siphons siphons initial_markings supplied =
    sorted_tuples (unfed_loop initial_markings supplied siphons)
