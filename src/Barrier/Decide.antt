-- ===== src/Barrier/Decide.antt =====
-- What dominates decides.
use mathlib.Core.Bool.{false≢true}
use collective_phase_control.Prelude.{
  String, ◌≡◌, refl, sym, ◌∙◌, ◌↔◌, inl, inr, Bool, true, false, not, ◌&&◌, ◌||◌, some, List, [],
  ◌∷◌, Memᴰ, arith, all, any, Bool-cases, all_intro, all_elim, any_intro, any_elim, and_iff,
}
use collective_phase_control.Ids.{subset}
use collective_phase_control.Ids.Laws.{subset_intro, subset_elim}
use collective_phase_control.Ids.Dict.{Dict}
use collective_phase_control.Barrier.{
  Coordinate, barrier_coordinates, blockers_at, is_known_at, dominates_loop, dominates,
}

-- every blocker of the one is a blocker of the other, at a coordinate
abbrev pub Within : Dict Coordinate → Dict Coordinate → String → Type 0
Within a b c = (x : String) → Memᴰ x (blockers_at c a) → Memᴰ x (blockers_at c b)

-- At every coordinate the candidate has no blocker that the baseline lacks, and the same blockers
-- where it is not known; at some coordinate it lacks one.
pub record Dominates (a b : Dict Coordinate) : Type 0 where
  pub within : (c : String) → Memᴰ c barrier_coordinates → Within a b c
  pub certain : (c : String) → Memᴰ c barrier_coordinates → is_known_at c a ≡ false → Within b a c
  pub smaller : (c : String) × Memᴰ c barrier_coordinates × (¬ Within b a c)

abbrev is_fine : Dict Coordinate → Dict Coordinate → String → Bool
is_fine a b c =
    subset (blockers_at c a) (blockers_at c b)
    && (is_known_at c a || subset (blockers_at c b) (blockers_at c a))

abbrev is_proper : Dict Coordinate → Dict Coordinate → String → Bool
is_proper a b c =
    subset (blockers_at c a) (blockers_at c b) && not (subset (blockers_at c b) (blockers_at c a))

dominates_loop_lem :
    (a b : Dict Coordinate) (cs : List String) (strictly_smaller : Bool)
    → dominates_loop a b cs strictly_smaller
      ≡ (all (is_fine a b) cs && (strictly_smaller || any (is_proper a b) cs))
unfolding dominates_loop
dominates_loop_lem a b [] s = ground arith
dominates_loop_lem a b (c ∷ cs) s = ground (arith, dominates_loop_lem a b cs (s || is_proper a b c))

subset_iff_Within :
    (a b : Dict Coordinate) (c : String)
    → (subset (blockers_at c a) (blockers_at c b) ≡ true) ↔ Within a b c
subset_iff_Within a b c = (
  subset_elim (blockers_at c a) (blockers_at c b),
  subset_intro (blockers_at c a) (blockers_at c b),
)

proper_apart : (within back : Bool) → (within && not back) ≡ true → back ≡ false
proper_apart true false h = refl
proper_apart true true h = cc
proper_apart false back h = cc

-- dominates holds of two vectors exactly when the candidate has no blocker that the baseline lacks,
-- differs from it only at coordinates where it is known, and lacks some blocker.
pub dominates_iff : (a b : Dict Coordinate) → (dominates (some a) (some b) ≡ true) ↔ Dominates a b
unfolding dominates
dominates_iff a b = (
  λ h.
      let (fine, proper) =
        (and_iff (all (is_fine a b) barrier_coordinates)
            (any (is_proper a b) barrier_coordinates)).0
          (sym (dominates_loop_lem a b barrier_coordinates false) ∙ h) in
      let (c, m, p) = any_elim (is_proper a b) barrier_coordinates proper in
      record {
        within = λ d n.
            (subset_iff_Within a b d).0
              (ground (arith, all_elim (is_fine a b) d barrier_coordinates fine n));
        certain = λ d n unknown.
            (subset_iff_Within b a d).0
              (ground (arith, unknown, all_elim (is_fine a b) d barrier_coordinates fine n));
        smaller = (
          c,
          m,
          λ w. false≢true (
              sym (
                proper_apart (subset (blockers_at c a) (blockers_at c b))
                  (subset (blockers_at c b) (blockers_at c a)) p)
              ∙ (subset_iff_Within b a c).1 w),
        );
      },
  λ d.
      let (c, m, p) = d.smaller in
      dominates_loop_lem a b barrier_coordinates false
      ∙ (and_iff (all (is_fine a b) barrier_coordinates)
            (any (is_proper a b) barrier_coordinates)).1
          (
            all_intro (is_fine a b) barrier_coordinates (λ k n.
                elim (Bool-cases (is_known_at k a)) [
                  | inl known ↦ ground (arith, known, (subset_iff_Within a b k).1 (d.within k n))
                  | inr unknown ↦ ground (
                    arith,
                    (subset_iff_Within a b k).1 (d.within k n),
                    (subset_iff_Within b a k).1 (d.certain k n unknown),
                  )
                ]),
            any_intro (is_proper a b) c barrier_coordinates m
                (elim (Bool-cases (subset (blockers_at c b) (blockers_at c a))) [
                  | inl same ↦ absurd (p ((subset_iff_Within b a c).0 same))
                  | inr apart ↦ ground (arith, apart, (subset_iff_Within a b c).1 (d.within c m))
                ]),
          ),
)
