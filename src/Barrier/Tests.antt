-- ===== src/Barrier/Tests.antt =====
-- Three vectors of build_barrier_vector, and runs of dominates on them.
use collective_phase_control.Prelude.{Memᴰ, ◌≡◌, refl, true, false, some, List, [], ◌∷◌, ◌==◌}
use collective_phase_control.Ids.{sorted, to_set}
use collective_phase_control.Ids.Dict.{Dict}
use collective_phase_control.Barrier.{
  blockers_at, coordinate_for, Coordinate, Blocked, Gap, Collective, build_barrier_vector,
  dominates,
}
use collective_phase_control.Barrier.Decide.{Dominates, dominates_iff}
use collective_phase_control.Barrier.Reports.{build_reports_blockers}
use collective_phase_control.Barrier.Order.{
  IsCoherent, build_barrier_vector-IsCoherent, dominates-asymmetric, dominates-transitive,
}

abbrev good : Collective
good = record { is_true = true; reasons = [] }

abbrev vector : List Blocked → List Gap → Dict Coordinate
vector blocked gaps =
    build_barrier_vector (λ key text. key == text) blocked [] gaps []
      "productive_organization_candidate" "maintained_organization_candidate" good

abbrev blocked_cook : List Blocked
blocked_cook = record { transformation_id = "cook"; blockers = "evidence" ∷ "stale" ∷ [] } ∷ []

abbrev gap : List Gap
gap = record { id = "ring"; states = "a" ∷ [] } ∷ []

better : dominates (some (vector [] [])) (some (vector blocked_cook [])) ≡ true
unfolding dominates build_barrier_vector sorted to_set
better = refl

best : dominates (some (vector blocked_cook [])) (some (vector blocked_cook gap)) ≡ true
unfolding dominates build_barrier_vector sorted to_set
best = refl

coherent : (blocked : List Blocked) (gaps : List Gap) → IsCoherent (vector blocked gaps)
coherent blocked gaps =
    build_barrier_vector-IsCoherent (λ key text. key == text) blocked [] gaps []
      "productive_organization_candidate" "maintained_organization_candidate" good

dominates_iff_example : Dominates (vector [] []) (vector blocked_cook [])
dominates_iff_example = (dominates_iff (vector [] []) (vector blocked_cook [])).0 better

dominates-asymmetric_example :
    dominates (some (vector blocked_cook [])) (some (vector [] [])) ≡ false
dominates-asymmetric_example = dominates-asymmetric (vector [] []) (vector blocked_cook []) better

dominates-transitive_example :
    dominates (some (vector [] [])) (some (vector blocked_cook gap)) ≡ true
dominates-transitive_example =
    dominates-transitive (vector [] []) (vector blocked_cook []) (vector blocked_cook gap)
      (coherent [] []) (coherent blocked_cook []) better best

build_reports_blockers_example :
    Memᴰ "cook:stale" (blockers_at "lifecycle" (vector blocked_cook gap))
unfolding coordinate_for
build_reports_blockers_example =
    build_reports_blockers (λ key text. key == text) blocked_cook [] gap []
      "productive_organization_candidate" "maintained_organization_candidate" good
      (record { transformation_id = "cook"; blockers = "evidence" ∷ "stale" ∷ [] }) "stale"
      (Memᴰ.head refl) (Memᴰ.tail (Memᴰ.head refl))
