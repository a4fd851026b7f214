-- ===== src/Structural/Tests.antt =====
-- A network of four transformations on which the analyses of v6/structural_analysis.py run, and their
-- theorems at it. `cook` makes "b" from the food "a", `bake` makes "c" from "b" with "b" for a
-- catalyst, `loop` makes "d" from "d" alone, and `melt` makes "a" from "c".
use mathlib.Core.Bool.{true≢false}
use mathlib.Core.List.Memᴰ
use collective_phase_control.Prelude.{
  ◌+◌, ◌≤◌, ◌<◌, all_elim, String, ◌≡◌, refl, sym, ◌∙◌, ◌↔◌, true, false, none, some, List, [], ◌∷◌,
  Memᴰ, arith, length, ◌⊎◌, inl, inr, Bool-cases, ◌==◌, eq_iff, subst,
}
use collective_phase_control.Ids.{sorted_tuples, elem, sorted, to_set, subset}
use collective_phase_control.Ids.Laws.{elem_iff}
use collective_phase_control.Ids.Unique.{IsUnique}
use collective_phase_control.Ids.Dict.{Dict, keys, values, get, value_of_get}
use collective_phase_control.Numbers.Int.{◌*ℤ◌}
use collective_phase_control.Numbers.Fraction.{Fraction, of_ℕ}
use collective_phase_control.Enumeration.{collect, candidates}
use collective_phase_control.Enumeration.Sets.{AreMinimal}
use collective_phase_control.Structural.{Transformation, flow_inputs, flow_outputs}
use collective_phase_control.Structural.Closure.Loop.{Ended}
use collective_phase_control.Structural.Closure.{structural_closure, allowed_ids}
use collective_phase_control.Structural.Closure.Correct.{
  Producible, structural_closure_correct, structural_closure_ends,
}
use collective_phase_control.Structural.Siphons.{
  is_marked, enumerate_minimal_siphons, is_siphon, unfed_siphons,
}
use collective_phase_control.Structural.Siphons.Enumerated.{
  IsNonemptySiphon, enumerate_minimal_siphons_correct,
}
use collective_phase_control.Structural.Siphons.Unfed.{
  IsFed, unfed_siphons_sound, unfed_siphons_decide,
}
use collective_phase_control.Structural.Cuts.{
  enumerate_minimal_cut_sets, enumerate_minimal_enablement_sets,
}
use collective_phase_control.Structural.Cuts.Enablement.{
  IsEnabling, enumerate_minimal_enablement_sets_correct,
}
use collective_phase_control.Structural.Cuts.Cut.{IsCut, enumerate_minimal_cut_sets_correct}
use collective_phase_control.Structural.Raf.{
  raf_closure, raf_test, exact_generalized_generative_raf, is_supported_id,
}
use collective_phase_control.Structural.Raf.Closed.{raf_closure_correct}
use collective_phase_control.Structural.Raf.Maximal.{
  IsRaf, AreMaximalRafs, maximal_rafs_correct, full_set_is_raf_correct,
}
use collective_phase_control.Structural.Raf.Layers.{
  generative_layers-AreStrict, generative_layers_complete, AreStrict,
}

abbrev plain : String → String → String → Transformation
plain name input output = record {
  transformation_id = name;
  inputs = (input, of_ℕ 1) ∷ [];
  outputs = (output, of_ℕ 1) ∷ [];
  catalyst_clauses = ("b" ∷ []) ∷ [];
  inhibitors = [];
  uncatalyzed = true;
  required_evidence = [];
  required_authority = [];
}

abbrev network : Dict Transformation
network =
    ("cook", plain "cook" "a" "b")
    ∷ ("bake", record (plain "bake" "b" "c") { uncatalyzed = false })
    ∷ ("loop", plain "loop" "d" "d")
    ∷ ("melt", plain "melt" "c" "a")
    ∷ []

abbrev coordinates : List String
coordinates = "a" ∷ "b" ∷ "c" ∷ "d" ∷ []

abbrev food : List String
food = "a" ∷ []

network-IsUnique : IsUnique (keys network)
network-IsUnique = (refl, (refl, (refl, (refl, tt))))

closed : elem "c" (structural_closure network food none).value ≡ true
unfolding structural_closure sorted to_set flow_inputs ◌*ℤ◌ flow_outputs
closed = refl

not_closed : elem "d" (structural_closure network food none).value ≡ false
unfolding structural_closure sorted to_set flow_inputs ◌*ℤ◌ flow_outputs
not_closed = refl

few : length (sorted (keys network)) ≤ 4
unfolding sorted
few = omega arith

few_coordinates : length (sorted (to_set coordinates)) ≤ 4
unfolding sorted to_set
few_coordinates = omega arith

structural_closure_correct_example : Producible network (allowed_ids network none) food "c"
structural_closure_correct_example =
    (structural_closure_correct network food none "c").0
      ((elem_iff "c" (structural_closure network food none).value).0 closed)

structural_closure_ends_example :
    Ended network
      (length (allowed_ids network none) + 1)
      (allowed_ids network none)
      (to_set food)
      (structural_closure network food none).value
      (structural_closure network food none).spent
structural_closure_ends_example = structural_closure_ends network food none

enumerate_minimal_siphons_correct_example :
    ((enumerate_minimal_siphons network coordinates 4).value.exhaustive ≡ true)
    × AreMinimal
        (IsNonemptySiphon network)
        coordinates
        (enumerate_minimal_siphons network coordinates 4).value.values
enumerate_minimal_siphons_correct_example =
    enumerate_minimal_siphons_correct network coordinates 4 few_coordinates

siphons_of_network :
    (enumerate_minimal_siphons network coordinates 4).value.values
    ≡ ("d" ∷ []) ∷ ("a" ∷ "b" ∷ "c" ∷ []) ∷ []
unfolding enumerate_minimal_siphons sorted to_set flow_inputs ◌*ℤ◌ flow_outputs collect candidates
siphons_of_network = refl

many_coordinates : 3 < length (sorted (to_set coordinates))
unfolding sorted to_set
many_coordinates = omega arith

abbrev markings : Dict Fraction
markings = ("a", of_ℕ 2) ∷ []

covered : (t : Transformation) → Memᴰ t (values network) → subset (flow_inputs t) coordinates ≡ true
unfolding flow_inputs ◌*ℤ◌
covered t m = all_elim (λ t. subset (flow_inputs t) coordinates) t (values network) refl m

fed : (x : String) → Memᴰ x coordinates → Memᴰ x food ↔ IsFed markings [] x
unfolding is_marked ◌*ℤ◌
fed x m = (
  λ k. inl (rw (Memᴰ.eq_of_singleton k) refl),
  λ f. elim f [
    | inl marked ↦ elim (Bool-cases (x == "a")) [
      | inl same ↦ Memᴰ.head ((eq_iff x "a").0 same)
      | inr other ↦ cc (rw (is_marked, other) at marked)
    ]
    | inr nothing ↦ absurd (Memᴰ.not-nil nothing)
  ],
)

abbrev unfed_of_network : List (List String)
unfed_of_network =
    unfed_siphons (enumerate_minimal_siphons network coordinates 4).value.values markings []

d-unfed : unfed_of_network ≡ ("d" ∷ []) ∷ []
unfolding unfed_siphons is_marked sorted_tuples to_set ◌*ℤ◌ sorted
d-unfed = rw siphons_of_network refl

unfed_siphons_sound_example :
    ((x : String) × Memᴰ x ("d" ∷ []))
    × ((x : String)
        → Memᴰ x ("d" ∷ [])
        → Memᴰ x coordinates × (¬ Memᴰ x (structural_closure network food none).value))
unfed_siphons_sound_example =
    unfed_siphons_sound network coordinates markings [] food 4 network-IsUnique covered
      few_coordinates fed ("d" ∷ []) (rw d-unfed (Memᴰ.head refl))

d-coordinate : Memᴰ "d" coordinates
d-coordinate = (elem_iff "d" coordinates).0 refl

d-unreached : ¬ Memᴰ "d" (structural_closure network food none).value
d-unreached m =
    true≢false (sym ((elem_iff "d" (structural_closure network food none).value).1 m) ∙ not_closed)

unfed_siphons_decide_example :
    (unfed_of_network ≡ [])
    ↔ ((x : String) → Memᴰ x coordinates → Memᴰ x (structural_closure network food none).value)
unfed_siphons_decide_example =
    unfed_siphons_decide network coordinates markings [] food 4 network-IsUnique covered
      few_coordinates fed

d-siphon : is_siphon network ("d" ∷ []) ≡ true
unfolding is_siphon flow_inputs ◌*ℤ◌ flow_outputs
d-siphon = refl

d-empty : (y : String) → Memᴰ y ("d" ∷ []) → ¬ Memᴰ y food
d-empty y m n =
    true≢false (sym ((elem_iff "d" food).1 (subst (λ z. Memᴰ z food) (Memᴰ.eq_of_singleton m) n)))

enumerate_minimal_enablement_sets_correct_example :
    ((enumerate_minimal_enablement_sets food ("c" ∷ []) network 4).value.exhaustive ≡ true)
    × AreMinimal
        (IsEnabling food ("c" ∷ []) network)
        (keys network)
        (enumerate_minimal_enablement_sets food ("c" ∷ []) network 4).value.values
enumerate_minimal_enablement_sets_correct_example =
    enumerate_minimal_enablement_sets_correct food ("c" ∷ []) network 4 network-IsUnique few

enumerate_minimal_cut_sets_correct_example :
    AreMinimal
      (IsCut food ("c" ∷ []) network)
      (keys network)
      (enumerate_minimal_cut_sets food ("c" ∷ []) network 4).value.values
enumerate_minimal_cut_sets_correct_example =
    enumerate_minimal_cut_sets_correct food ("c" ∷ []) network 4 network-IsUnique few

minimal_cuts :
    (enumerate_minimal_cut_sets food ("c" ∷ []) network 4).value.values
    ≡ ("bake" ∷ []) ∷ ("cook" ∷ []) ∷ []
unfolding enumerate_minimal_cut_sets sorted to_set flow_inputs ◌*ℤ◌ flow_outputs structural_closure
    collect candidates
minimal_cuts = refl

enablers :
    (enumerate_minimal_enablement_sets food ("c" ∷ []) network 4).value.values
    ≡ ("bake" ∷ "cook" ∷ []) ∷ []
unfolding enumerate_minimal_enablement_sets sorted to_set flow_inputs ◌*ℤ◌ flow_outputs
    structural_closure collect candidates
enablers = refl

bake-IsCut : IsCut food ("c" ∷ []) network ("bake" ∷ [])
bake-IsCut =
    (enumerate_minimal_cut_sets_correct_example.sound ("bake" ∷ [])
      (rw minimal_cuts (Memᴰ.head refl))).1

both-IsEnabling : IsEnabling food ("c" ∷ []) network ("bake" ∷ "cook" ∷ [])
both-IsEnabling =
    (enumerate_minimal_enablement_sets_correct_example.1.sound ("bake" ∷ "cook" ∷ [])
      (rw enablers (Memᴰ.head refl))).1

raf_closure_correct_example :
    Memᴰ "c" (raf_closure network food ("bake" ∷ "cook" ∷ [])).value
    ↔ Producible network ("bake" ∷ "cook" ∷ []) food "c"
raf_closure_correct_example = raf_closure_correct network food ("bake" ∷ "cook" ∷ []) "c"

pair_test : (raf_test network food [] [] ("bake" ∷ "cook" ∷ [])).value ≡ true
unfolding raf_test raf_closure sorted to_set flow_inputs ◌*ℤ◌ flow_outputs
pair_test = refl

maximal_rafs_correct_example :
    AreMaximalRafs network food [] []
      (exact_generalized_generative_raf network food [] [] 4).value.maximal_rafs
maximal_rafs_correct_example = maximal_rafs_correct network food [] [] network-IsUnique 4 few

full_set_is_raf_correct_example :
    ((exact_generalized_generative_raf network food [] [] 4).value.full_set_is_raf ≡ true)
    ↔ IsRaf network food [] [] (keys network)
full_set_is_raf_correct_example = full_set_is_raf_correct network food [] [] network-IsUnique 4 few

generative_layers-AreStrict_example :
    AreStrict network food [] []
      (to_set food)
      (exact_generalized_generative_raf network food [] [] 4).value.generative_layers
generative_layers-AreStrict_example = generative_layers-AreStrict network food [] [] 4 few

generated :
    (exact_generalized_generative_raf network food [] [] 4).value.generative_layers
    ≡ ("cook" ∷ []) ∷ ("bake" ∷ []) ∷ ("melt" ∷ []) ∷ []
unfolding exact_generalized_generative_raf sorted to_set flow_inputs ◌*ℤ◌ flow_outputs
generated = refl

abbrev generative : List String
generative = (exact_generalized_generative_raf network food [] [] 4).value.generative_closure

c-generative : elem "c" generative ≡ true
unfolding exact_generalized_generative_raf sorted to_set flow_inputs ◌*ℤ◌ flow_outputs
c-generative = refl

generative_layers_complete_example :
    ((layer : List String) × Memᴰ layer
        (exact_generalized_generative_raf network food [] [] 4).value.generative_layers
      × Memᴰ "loop" layer)
    ⊎ (is_supported_id network [] [] generative "loop" ≡ false)
generative_layers_complete_example =
    generative_layers_complete network food [] [] 4 few "loop"
      ((elem_iff "loop" (keys network)).0 refl)

abbrev chain : Dict Transformation
chain =
    ("cook", plain "cook" "a" "b")
    ∷ ("bake", record (plain "bake" "b" "c") { uncatalyzed = false })
    ∷ []

few_chain : length (sorted (keys chain)) ≤ 4
unfolding sorted
few_chain = omega arith

chain_layers :
    (exact_generalized_generative_raf chain food [] [] 4).value.generative_layers
    ≡ ("cook" ∷ []) ∷ ("bake" ∷ []) ∷ []
unfolding exact_generalized_generative_raf sorted to_set flow_inputs ◌*ℤ◌ flow_outputs
chain_layers = refl

uninhibited : (i : String) (t : Transformation) → get i chain ≡ some t → t.inhibitors ≡ []
uninhibited i t e = elim (Memᴰ.cases_cons (value_of_get i t chain e)) [
  | inl cook ↦ rw cook refl
  | inr later ↦ rw (Memᴰ.eq_of_singleton later) refl
]

chain_placed :
    (i : String)
    → Memᴰ i (keys chain)
    → (layer : List String) × Memᴰ layer
        (exact_generalized_generative_raf chain food [] [] 4).value.generative_layers
      × Memᴰ i layer
chain_placed i m = rw chain_layers (elim (Memᴰ.cases_cons m) [
  | inl e ↦ ("cook" ∷ [], Memᴰ.head refl, Memᴰ.head e)
  | inr n ↦ ("bake" ∷ [], Memᴰ.tail (Memᴰ.head refl), n)
])
