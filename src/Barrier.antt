-- ===== src/Barrier.antt =====
-- barrier.py: the vector of blockers for each coordinate, and dominance between two vectors.
pub mod Decide
pub mod Order
pub mod Reports
pub mod Tests
use Prim.Native.String.{◌++◌ as ◌++ₛ◌}
use collective_phase_control.Prelude.{
  String, Bool, true, false, not, ◌&&◌, ◌||◌, Option, none, some, List, [], ◌∷◌, map, ◌==◌,
  if◌then◌else◌,
}
use collective_phase_control.Ids.{elem, subset, union, to_set, sorted}
use collective_phase_control.Ids.Dict.{Dict, get}

abbrev pub barrier_coordinates : List String
barrier_coordinates =
    "integrity" ∷ "provenance" ∷ "schema_interoperability" ∷ "observability" ∷ "evidence"
    ∷ "verifier" ∷ "independence" ∷ "collective_integration" ∷ "authority" ∷ "hazard" ∷ "resource"
    ∷ "lifecycle" ∷ "rollback" ∷ "productivity" ∷ "maintenance" ∷ "transfer" ∷ "source_disagreement"
    ∷ []

abbrev pub blocker_coordinate : Dict String
blocker_coordinate =
    ("schema", "schema_interoperability")
    ∷ ("output_contract", "observability")
    ∷ ("evidence", "evidence")
    ∷ ("verifier", "verifier")
    ∷ ("self_issued", "independence")
    ∷ ("duplicate", "provenance")
    ∷ ("authority", "authority")
    ∷ ("hazard", "hazard")
    ∷ ("resource", "resource")
    ∷ ("lifecycle", "lifecycle")
    ∷ ("stale", "lifecycle")
    ∷ ("protected_floor", "integrity")
    ∷ []

-- one coordinate of a vector; `is_blocking` is severity == "blocking", `is_known` is
-- known_or_unknown == "known"
pub record Coordinate : Type 0 where
  pub blocker_ids : List String
  pub is_blocking : Bool
  pub is_known : Bool
  pub required_resolution : List String
  pub source_refs : List String

-- the entries of the documents that build_barrier_vector reads
pub record Blocked : Type 0 where
  pub transformation_id : String
  pub blockers : List String

pub record DetectorResult : Type 0 where
  pub blocking : Bool
  pub detector : String
  pub blocker_ids : List String
  pub source_refs : List String

-- a deadlock with its states, or a seed with its unmet states
pub record Gap : Type 0 where
  pub id : String
  pub states : List String

pub record Collective : Type 0 where
  pub is_true : Bool
  pub reasons : List String

-- the locals `mapping` and `refs`
pub record Marks : Type 0 where
  pub mapping : Dict (List String)
  pub refs : Dict (List String)

-- {coordinate: set() for coordinate in BARRIER_COORDINATES}
unfoldable pub empty_sets : List String → Dict (List String)
empty_sets [] = []
empty_sets (c ∷ cs) = (c, []) ∷ empty_sets cs

-- d[coordinate].update(items), for a coordinate that is a key
unfoldable pub extend : String → List String → Dict (List String) → Dict (List String)
extend c items [] = []
extend c items ((k, s) ∷ d) =
    let rest = extend c items d in if c == k then (k, union s items) ∷ d else (k, s) ∷ rest

-- mapping[coordinate].update(ids) and refs[coordinate].update(sources)
unfoldable pub mark : String → List String → List String → Marks → Marks
unfolding extend
mark c ids sources s = record { mapping = extend c ids s.mapping; refs = extend c sources s.refs }

-- mapping[coordinate]
abbrev pub set_at : String → Dict (List String) → List String
set_at c [] = []
set_at c ((k, s) ∷ d) = let rest = set_at c d in if c == k then s else rest

unfoldable pub add_detectors : List DetectorResult → Marks → Marks
unfolding mark
add_detectors [] s = s
add_detectors (r ∷ rs) s = add_detectors rs (
    if r.blocking
    then mark (if r.detector == "duplicate_mass" then "provenance" else "integrity") r.blocker_ids
        r.source_refs s
    else s)

unfoldable pub add_gaps : List Gap → Marks → Marks
unfolding mark
add_gaps [] s = s
add_gaps (g ∷ gs) s = add_gaps gs (mark "productivity" (g.id ∷ []) g.states s)

-- the blocker of a status that is not the good one
unfoldable pub add_status : String → String → String → String → String → Marks → Marks
unfolding mark
add_status coordinate status good missing invalid s =
    if status == "unknown"
    then mark coordinate (missing ∷ []) [] s
    else if not (status == good)
    then mark coordinate (invalid ∷ []) [] s
    else s

unfoldable pub add_collective : Collective → Marks → Marks
unfolding mark
add_collective collective s =
    if not collective.is_true
    then mark "collective_integration" collective.reasons []
        (mark "independence" collective.reasons [] s)
    else s

-- the entry of a coordinate
unfoldable pub coordinate_of : String → Marks → Coordinate
coordinate_of c s =
    let blockers = sorted (to_set (set_at c s.mapping)) in
    let is_free = subset blockers [] in
    record {
      blocker_ids = blockers;
      is_blocking = not is_free;
      is_known = not (is_free && elem c ("transfer" ∷ "source_disagreement" ∷ []));
      required_resolution = map (λ b. ◌++ₛ◌ "resolve:" b) blockers;
      source_refs = sorted (to_set (set_at c s.refs));
    }

unfoldable pub coordinates_of : List String → Marks → Dict Coordinate
unfolding coordinate_of
coordinates_of [] s = []
coordinates_of (c ∷ cs) s = (c, coordinate_of c s) ∷ coordinates_of cs s

-- `contains key text` is `key in text`, Python's test for a part of a text
module _ (contains : String → String → Bool) where
  -- next((value for key, value in BLOCKER_COORDINATE.items() if key in text), "integrity")
  unfoldable pub coordinate_for : Dict String → String → String
  coordinate_for [] text = "integrity"
  coordinate_for ((key, value) ∷ d) text =
      let rest = coordinate_for d text in if contains key text then value else rest

  unfoldable pub add_blockers : String → List String → Marks → Marks
  unfolding coordinate_for mark
  add_blockers transformation_id [] s = s
  add_blockers transformation_id (text ∷ texts) s = add_blockers transformation_id texts (
      mark (coordinate_for blocker_coordinate text) (◌++ₛ◌ transformation_id (◌++ₛ◌ ":" text) ∷ [])
        (transformation_id ∷ []) s)

  unfoldable pub add_blocked : List Blocked → Marks → Marks
  unfolding add_blockers
  add_blocked [] s = s
  add_blocked (b ∷ bs) s = add_blocked bs (add_blockers b.transformation_id b.blockers s)

  -- `mapping` and `refs` at the end of the loops and tests of build_barrier_vector
  unfoldable pub marks :
      List Blocked
      → List DetectorResult
      → List Gap
      → List Gap
      → String
      → String
      → Collective
      → Marks
  unfolding empty_sets add_blocked add_detectors add_gaps add_status add_collective
  marks blocked detectors deadlocks seeds productivity maintenance collective =
      let s : Marks = record {
        mapping = empty_sets barrier_coordinates;
        refs = empty_sets barrier_coordinates;
      } in
      let s =
        add_gaps seeds (add_gaps deadlocks (add_detectors detectors (add_blocked blocked s))) in
      let s =
        add_status "productivity" productivity "productive_organization_candidate"
          "productive_witness_missing" "productive_witness_invalid" s in
      let s =
        add_status "maintenance" maintenance "maintained_organization_candidate"
          "maintenance_witness_missing" "maintenance_witness_invalid" s in
      add_collective collective s

  -- the value of "coordinates" in what build_barrier_vector returns
  unfoldable pub build_barrier_vector :
      List Blocked
      → List DetectorResult
      → List Gap
      → List Gap
      → String
      → String
      → Collective
      → Dict Coordinate
  unfolding marks coordinates_of
  build_barrier_vector blocked detectors deadlocks seeds productivity maintenance collective =
      coordinates_of barrier_coordinates
        (marks blocked detectors deadlocks seeds productivity maintenance collective)

-- coordinates.get(coordinate, {}).get("blocker_ids", [])
unfoldable pub blockers_at : String → Dict Coordinate → List String
blockers_at c v = elim (get c v) [ none ↦ [] | some entry ↦ entry.blocker_ids ]

-- coordinates.get(coordinate, {}).get("known_or_unknown") == "known"
unfoldable pub is_known_at : String → Dict Coordinate → Bool
is_known_at c v = elim (get c v) [ none ↦ false | some entry ↦ entry.is_known ]

-- left == right, for sets
abbrev pub same_set : List String → List String → Bool
same_set left right = subset left right && subset right left

-- the loop of dominates
unfoldable pub dominates_loop : Dict Coordinate → Dict Coordinate → List String → Bool → Bool
unfolding blockers_at is_known_at
dominates_loop candidate baseline [] strictly_smaller = strictly_smaller
dominates_loop candidate baseline (c ∷ cs) strictly_smaller =
    let left = blockers_at c candidate in
    let right = blockers_at c baseline in
    let rest =
      dominates_loop candidate baseline cs
        (strictly_smaller || (subset left right && not (subset right left))) in
    if not (is_known_at c candidate) && not (same_set left right)
    then false
    else if not (subset left right)
    then false
    else rest

-- dominates; none stands for a "coordinates" that is not a dict
unfoldable pub dominates : Option (Dict Coordinate) → Option (Dict Coordinate) → Bool
unfolding dominates_loop
dominates (some candidate) (some baseline) =
    dominates_loop candidate baseline barrier_coordinates false
dominates candidate baseline = false
