-- ===== src/Enumeration.antt =====
-- The search that v6/structural_analysis.py makes three times over (siphons, cut sets, enablement
-- sets): subsets of a sorted tuple in order of size, keeping those that pass a test and contain no
-- kept one. itertools.combinations is modelled by its documented order.
pub mod Subsets
pub mod Minimal
pub mod Smallest
pub mod Sets
use collective_phase_control.Prelude.{
  ℕ, zero, suc, String, Bool, true, false, List, [], ◌∷◌, ◌++◌, map, any, if◌then◌else◌, Cost, pure,
  spend, ◌>>=◌, ◌>>◌,
}
use collective_phase_control.Ids.{subset}

-- itertools.combinations(xs, size)
unfoldable pub combinations : ℕ → List String → List (List String)
combinations zero xs = [] ∷ []
combinations (suc size) [] = []
combinations (suc size) (x ∷ xs) =
    map (λ c. x ∷ c) (combinations size xs) ++ combinations (suc size) xs

-- for size in range(size, size + sizes): for values in combinations(xs, size)
unfoldable pub candidates : ℕ → ℕ → List String → List (List String)
unfolding combinations
candidates size zero xs = []
candidates size (suc sizes) xs = combinations size xs ++ candidates (suc size) sizes xs

-- the body of the loop: spend, skip a candidate that contains a kept one, test the others
unfoldable pub collect :
    (List String → Cost Bool) → List (List String) → List (List String) → Cost (List (List String))
collect test minimal [] = pure minimal
collect test minimal (candidate ∷ rest) = do
  spend
  elim (any (λ existing. subset existing candidate) minimal) [
    | true ↦ collect test minimal rest
    | false ↦ do
      passes ← test candidate
      collect test (if passes then minimal ++ candidate ∷ [] else minimal) rest
  ]

-- EnumerationResult
pub record EnumerationResult : Type 0 where
  pub values : List (List String)
  pub exhaustive : Bool
