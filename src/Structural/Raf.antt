-- ===== src/Structural/Raf.antt =====
-- v6/structural_analysis.py: _raf_closure, _is_generalized_raf and exact_generalized_generative_raf.
-- `while changed` and `while remaining` take fuel: one round more than there are identifiers,
-- as each round but the last fires or places one for the first time.
pub mod Closed
pub mod Support
pub mod Maximal
pub mod Layers
use collective_phase_control.Prelude.{
  ℕ, zero, suc, ◌+◌, ◌-◌, String, Bool, true, false, not, ◌&&◌, ◌||◌, Option, none, some, List, [],
  ◌∷◌, ◌++◌, map, any, all, filter, length, ltb, if◌then◌else◌, Cost, pure, spend, ◌>>=◌, ◌>>◌,
}
use collective_phase_control.Ids.{
  elem, subset, intersects, union, diff, to_set, sorted, sorted_tuples,
}
use collective_phase_control.Ids.Dict.{Dict, get, keys}
use collective_phase_control.Enumeration.{candidates}
use collective_phase_control.Structural.{Transformation, flow_inputs, flow_outputs}
use collective_phase_control.Structural.Closure.{Sweep}

-- the body of the loop of _raf_closure: `changed` compares the sizes before and after
unfoldable pub raf_fire : Transformation → Sweep → Sweep
raf_fire t s =
    if subset (flow_inputs t) s.available
    then (let after = union s.available (flow_outputs t) in
        record {
          available = after;
          changed = s.changed || ltb (length s.available) (length after);
        })
    else s

unfoldable pub raf_visit : Option Transformation → Sweep → Sweep
unfolding raf_fire
raf_visit none s = s
raf_visit (some t) s = raf_fire t s

-- what a transformation needs besides its flows: the tests of _is_generalized_raf, and those of a
-- generative layer
unfoldable pub is_supported : List String → List String → List String → Transformation → Bool
is_supported evidence authority available t =
    subset (flow_inputs t) available
    && not (intersects t.inhibitors available)
    && subset t.required_evidence evidence
    && subset t.required_authority authority
    && (t.uncatalyzed || any (λ clause. subset clause available) t.catalyst_clauses)

-- `transformations[identifier]`, with identifiers that are keys
unfoldable pub is_found_supported :
    List String → List String → List String → Option Transformation → Bool
unfolding is_supported
is_found_supported evidence authority available none = false
is_found_supported evidence authority available (some t) =
    is_supported evidence authority available t

unfoldable pub is_supported_id :
    Dict Transformation → List String → List String → List String → String → Bool
unfolding is_found_supported
is_supported_id transformations evidence authority available identifier =
    is_found_supported evidence authority available (get identifier transformations)

unfoldable pub is_empty : List String → Bool
is_empty [] = true
is_empty (x ∷ xs) = false

-- the generative part of RafAnalysis, with the loop's variables
pub record Generation : Type 0 where
  pub layers : List (List String)
  pub available : List String
  pub remaining : List String

pub record RafAnalysis : Type 0 where
  pub maximal_rafs : List (List String)
  pub full_set_is_raf : Bool
  pub generalized_closure : List String
  pub generative_layers : List (List String)
  pub generative_closure : List String
  pub exhaustive : Bool

module _ (transformations : Dict Transformation) where
  unfoldable pub raf_sweep : List String → Sweep → Cost Sweep
  unfolding raf_visit
  raf_sweep [] s = pure s
  raf_sweep (identifier ∷ rest) s = do
    spend
    raf_sweep rest (raf_visit (get identifier transformations) s)

  unfoldable pub raf_loop : ℕ → List String → List String → Cost (List String)
  unfolding raf_sweep
  raf_loop zero ids closure = pure closure
  raf_loop (suc fuel) ids closure = do
    s ← raf_sweep ids (record { available = closure; changed = false })
    elim s.changed [ true ↦ raf_loop fuel ids s.available | false ↦ pure s.available ]

  unfoldable pub raf_closure : List String → List String → Cost (List String)
  unfolding raf_loop
  raf_closure food identifiers =
      raf_loop (length identifiers + 1) (sorted identifiers) (to_set food)

  unfoldable pub is_generalized_raf : List String → List String → List String → List String → Bool
  unfolding is_supported_id is_empty
  is_generalized_raf identifiers closure evidence authority =
      not (is_empty identifiers)
      && all (is_supported_id transformations evidence authority closure) identifiers

  module _ (food evidence authority : List String) where
    -- is the candidate a RAF under its own closure
    unfoldable pub raf_test : List String → Cost Bool
    unfolding is_generalized_raf
    raf_test candidate = do
      spend
      closure ← raf_closure food candidate
      pure (is_generalized_raf candidate closure evidence authority)

    -- the loops over sizes and subsets: the candidates that are RAFs, in order
    unfoldable pub valid_rafs : List (List String) → Cost (List (List String))
    unfolding raf_test
    valid_rafs [] = pure []
    valid_rafs (candidate ∷ rest) = do
      valid ← raf_test candidate
      others ← valid_rafs rest
      pure (if valid then candidate ∷ others else others)

    -- for identifier in sorted(remaining): the identifiers of one layer
    unfoldable pub layer_of : List String → List String → Cost (List String)
    unfolding is_supported_id
    layer_of available [] = pure []
    layer_of available (identifier ∷ rest) = do
      spend
      layer ← layer_of available rest
      pure (
          if is_supported_id transformations evidence authority available identifier
          then identifier ∷ layer
          else layer)

    unfoldable pub produced : List String → List String
    produced [] = []
    produced (identifier ∷ layer) =
        elim (get identifier transformations) [ none ↦ [] | some t ↦ flow_outputs t ]
        ++ produced layer

    -- generative_available.update(produced), remaining.difference_update(layer), layers.append
    unfoldable pub advance : List String → Generation → Generation
    unfolding produced
    advance layer s = record {
      layers = s.layers ++ layer ∷ [];
      available = union s.available (produced layer);
      remaining = diff s.remaining layer;
    }

    unfoldable pub generate : ℕ → Generation → Cost Generation
    unfolding layer_of advance is_empty
    generate zero s = pure s
    generate (suc fuel) s = elim (is_empty s.remaining) [
      | true ↦ pure s
      | false ↦ do
        layer ← layer_of s.available (sorted s.remaining)
        elim (is_empty layer) [ true ↦ pure s | false ↦ generate fuel (advance layer s) ]
    ]

    -- [candidate for candidate in valid if not any(candidate < other for other in valid)]
    unfoldable pub maximal_of : List (List String) → List (List String) → List (List String)
    maximal_of valid [] = []
    maximal_of valid (c ∷ cs) =
        let rest = maximal_of valid cs in
        if any (λ other. subset c other && not (subset other c)) valid then rest else c ∷ rest

    unfoldable pub exact_generalized_generative_raf : ℕ → Cost RafAnalysis
    unfolding valid_rafs generate maximal_of
    exact_generalized_generative_raf maximum_transformations =
        let identifiers = sorted (keys transformations) in
        let food_set = to_set food in
        if ltb maximum_transformations (length identifiers)
        then pure (record {
          maximal_rafs = [];
          full_set_is_raf = false;
          generalized_closure = sorted food_set;
          generative_layers = [];
          generative_closure = sorted food_set;
          exhaustive = false;
        })
        else do
          valid ← valid_rafs (candidates 1 (suc (length identifiers) - 1) identifiers)
          let is_valid = any (λ c. subset c identifiers && subset identifiers c) valid
          generation ←
              generate (length identifiers + 1)
                (record { layers = []; available = food_set; remaining = identifiers })
          pure (record {
            maximal_rafs = sorted_tuples (map sorted (maximal_of valid valid));
            full_set_is_raf = is_valid;
            generalized_closure =
                sorted (if is_valid then (raf_closure food identifiers).value else food_set);
            generative_layers = generation.layers;
            generative_closure = sorted generation.available;
            exhaustive = true;
          })
