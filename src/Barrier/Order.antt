-- ===== src/Barrier/Order.antt =====
-- Dominance as an order, on the vectors that build_barrier_vector makes.
use mathlib.Core.Bool.{false≢true}
use mathlib.Core.List.Memᴰ
use collective_phase_control.Prelude.{
  String, ◌≡◌, refl, sym, ◌∙◌, inl, inr, Bool, true, false, not, ◌&&◌, some, List, [], ◌∷◌, Memᴰ,
  arith, Bool-cases, eq_iff, ◌==◌,
}
use collective_phase_control.Ids.{elem, subset}
use collective_phase_control.Ids.Laws.{subset_intro, subset_elim}
use collective_phase_control.Ids.Dict.{Dict, get}
use collective_phase_control.Barrier.{
  Coordinate, Blocked, DetectorResult, Gap, Collective, Marks, barrier_coordinates, blockers_at,
  is_known_at, coordinate_of, coordinates_of, marks, build_barrier_vector, dominates,
}
use collective_phase_control.Barrier.Decide.{Within, dominates_iff}

-- a coordinate is unknown exactly when it has no blocker and is one of the two open ones
abbrev pub IsCoherent : Dict Coordinate → Type 0
IsCoherent v =
    (c : String)
    → Memᴰ c barrier_coordinates
    → is_known_at c v
      ≡ not (subset (blockers_at c v) [] && elem c ("transfer" ∷ "source_disagreement" ∷ []))

pub get-coordinates_of :
    (c : String) (cs : List String) (s : Marks)
    → Memᴰ c cs
    → get c (coordinates_of cs s) ≡ some (coordinate_of c s)
unfolding coordinates_of
get-coordinates_of c [] s m = absurd (Memᴰ.not-nil m)
get-coordinates_of c (d ∷ cs) s m = elim (Bool-cases (c == d)) [
  | inl here ↦ rw (here, (eq_iff c d).0 here) refl
  | inr away ↦ elim (Memᴰ.cases_cons m) [
    | inl same ↦ absurd (false≢true (sym away ∙ (eq_iff c d).1 same))
    | inr later ↦ rw away (get-coordinates_of c cs s later)
  ]
]

coordinates_of-IsCoherent : (s : Marks) → IsCoherent (coordinates_of barrier_coordinates s)
unfolding is_known_at blockers_at coordinate_of
coordinates_of-IsCoherent s c m =
    rw (is_known_at, blockers_at, get-coordinates_of c barrier_coordinates s m) refl

-- build_barrier_vector makes coherent vectors: a coordinate is unknown exactly when it has no blocker
-- and is one of "transfer" and "source_disagreement".
pub build_barrier_vector-IsCoherent :
    (contains : String → String → Bool) (blocked : List Blocked) (detectors : List DetectorResult)
    (deadlocks seeds : List Gap) (productivity maintenance : String) (collective : Collective)
    → IsCoherent (
        build_barrier_vector contains blocked detectors deadlocks seeds productivity maintenance
          collective)
unfolding build_barrier_vector
build_barrier_vector-IsCoherent contains blocked detectors deadlocks seeds productivity maintenance
      collective =
    coordinates_of-IsCoherent
      (marks contains blocked detectors deadlocks seeds productivity maintenance collective)

-- No vector dominates one that dominates it; in particular none dominates itself.
pub dominates-asymmetric :
    (a b : Dict Coordinate)
    → dominates (some a) (some b) ≡ true
    → dominates (some b) (some a) ≡ false
dominates-asymmetric a b h = elim (Bool-cases (dominates (some b) (some a))) [
  | inl back ↦
      let (c, m, apart) = ((dominates_iff a b).0 h).smaller in
      absurd (apart (((dominates_iff b a).0 back).within c m))
  | inr apart ↦ apart
]

-- Dominance is transitive where the first two vectors are coherent.
pub dominates-transitive :
    (a b c : Dict Coordinate)
    → IsCoherent a
    → IsCoherent b
    → dominates (some a) (some b) ≡ true
    → dominates (some b) (some c) ≡ true
    → dominates (some a) (some c) ≡ true
dominates-transitive a b c coherent fine h k =
    let d = (dominates_iff a b).0 h in
    let e = (dominates_iff b c).0 k in
    let (q, m, apart) = d.smaller in
    (dominates_iff a c).1 (record {
      within = λ p n x l. e.within p n x (d.within p n x l);
      certain = λ p n unknown x l.
          d.certain p n unknown x
            (e.certain p n (still_unknown p n unknown (d.certain p n unknown)) x l);
      smaller = (q, m, λ w. apart (λ x l. w x (e.within q m x l)));
    })
  where
    still_unknown :
        (p : String)
        → Memᴰ p barrier_coordinates
        → is_known_at p a ≡ false
        → Within b a p
        → is_known_at p b ≡ false
    still_unknown p n unknown inside =
        let empty = subset_intro (blockers_at p b) [] (λ x l.
          subset_elim (blockers_at p a) [] (ground (arith, coherent p n, unknown)) x
            (inside x l)) in
        ground (arith, coherent p n, fine p n, unknown, empty)
