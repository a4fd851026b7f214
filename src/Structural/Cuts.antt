-- ===== src/Structural/Cuts.antt =====
-- v6/structural_analysis.py: enumerate_minimal_cut_sets and enumerate_minimal_enablement_sets.
pub mod Enabled
pub mod Enablement
pub mod Cut
use collective_phase_control.Prelude.{
  ℕ, suc, ◌-◌, String, Bool, true, false, not, Option, none, some, List, [], ◌∷◌, map, length, ltb,
  if◌then◌else◌, Cost, pure, ◌>>=◌,
}
use collective_phase_control.Ids.{subset, diff, to_set, sorted}
use collective_phase_control.Ids.Dict.{Dict, keys}
use collective_phase_control.Enumeration.{candidates, collect, EnumerationResult}
use collective_phase_control.Structural.{Transformation}
use collective_phase_control.Structural.Closure.{structural_closure}

module _ (initial_states targets : List String) (transformations : Dict Transformation) where
  -- target_set.issubset(structural_closure(...))
  unfoldable pub reaches : Option (List String) → Cost Bool
  reaches allowed = do
    reached ← structural_closure transformations initial_states allowed
    pure (subset (to_set targets) reached)

  -- the test of a candidate cut
  unfoldable pub cuts : List String → Cost Bool
  unfolding reaches
  cuts candidate = do
    enabled ← reaches (some (diff (sorted (keys transformations)) candidate))
    pure (not enabled)

  unfoldable pub cut_search : List String → Cost EnumerationResult
  unfolding cuts
  cut_search ordered = do
    minimal ← collect cuts [] (candidates 1 (suc (length ordered) - 1) ordered)
    pure (record { values = map sorted minimal; exhaustive = true })

  unfoldable pub enumerate_minimal_cut_sets : ℕ → Cost EnumerationResult
  unfolding cut_search
  enumerate_minimal_cut_sets maximum_transformations =
      if ltb maximum_transformations (length (sorted (keys transformations)))
      then pure (record { values = []; exhaustive = false })
      else do
        reachable ← reaches none
        elim reachable [
          | true ↦ cut_search (sorted (keys transformations))
          | false ↦ pure (record { values = [] ∷ []; exhaustive = true })
        ]

  unfoldable pub enumerate_minimal_enablement_sets : ℕ → Cost EnumerationResult
  unfolding reaches
  enumerate_minimal_enablement_sets maximum_transformations =
      let ordered = sorted (keys transformations) in
      if ltb maximum_transformations (length ordered)
      then pure (record { values = []; exhaustive = false })
      else do
        minimal ←
            collect (λ candidate. reaches (some candidate)) []
              (candidates 0 (suc (length ordered) - 0) ordered)
        pure (record { values = map sorted minimal; exhaustive = true })
