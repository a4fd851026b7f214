-- ===== src/Structural/Closure.antt =====
-- v6/structural_analysis.py: structural_closure and _raf_closure, the states that transformations
-- produce from given ones. `while changed` takes fuel: one round more
-- than there are transformations, as each round but the last makes one fire for the first time.
pub mod Round
pub mod Loop
pub mod Correct
use collective_phase_control.Prelude.{
  ℕ, zero, suc, ◌+◌, String, Bool, true, false, not, ◌&&◌, ◌||◌, Option, none, some, List, [], ◌∷◌,
  length, ltb, if◌then◌else◌, Cost, pure, spend, ◌>>=◌, ◌>>◌,
}
use collective_phase_control.Ids.{subset, inter, union, to_set, sorted}
use collective_phase_control.Ids.Dict.{Dict, get, keys}
use collective_phase_control.Structural.{Transformation, flow_inputs, flow_outputs}

-- the variables of the loops
pub record Sweep : Type 0 where
  pub available : List String
  pub changed : Bool

-- the body of `for identifier in sorted(allowed)` behind the lookup
unfoldable pub fire : Transformation → Sweep → Sweep
fire t s =
    if subset (flow_inputs t) s.available && not (subset (flow_outputs t) s.available)
    then record { available = union s.available (flow_outputs t); changed = true }
    else s

-- `transformations[identifier]`: callers pass identifiers that are keys, so nothing is skipped
unfoldable pub visit : Option Transformation → Sweep → Sweep
unfolding fire
visit none s = s
visit (some t) s = fire t s

module _ (transformations : Dict Transformation) where
  unfoldable pub sweep : List String → Sweep → Cost Sweep
  unfolding visit
  sweep [] s = pure s
  sweep (identifier ∷ rest) s = do spend; sweep rest (visit (get identifier transformations) s)

  unfoldable pub closure_loop : ℕ → List String → List String → Cost (List String)
  unfolding sweep
  closure_loop zero ids available = pure available
  closure_loop (suc fuel) ids available = do
    s ← sweep ids (record { available = available; changed = false })
    elim s.changed [ true ↦ closure_loop fuel ids s.available | false ↦ pure s.available ]

  unfoldable pub allowed_ids : Option (List String) → List String
  allowed_ids none = sorted (to_set (keys transformations))
  allowed_ids (some allowed) = sorted (inter (to_set allowed) (keys transformations))

  unfoldable pub structural_closure : List String → Option (List String) → Cost (List String)
  unfolding closure_loop allowed_ids
  structural_closure initial_states allowed =
      let ids = allowed_ids allowed in closure_loop (length ids + 1) ids (to_set initial_states)
