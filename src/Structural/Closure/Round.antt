-- ===== src/Structural/Closure/Round.antt =====
-- One round over the identifiers: what it keeps, what it adds, and why it changes nothing.
use mathlib.Core.Bool.{false≢true}
use mathlib.Core.List.Memᴰ
use collective_phase_control.Prelude.{
  String, ◌≡◌, refl, sym, ◌∙◌, ◌⊎◌, inl, inr, ⊎_elim, true, false, not, ◌&&◌, Option, none, some,
  List, [], ◌∷◌, Memᴰ, arith, length, Bool-cases, and_iff,
}
use collective_phase_control.Ids.{subset}
use collective_phase_control.Ids.Laws.{Memᴰ-union, subset_intro, subset_elim}
use collective_phase_control.Ids.Dict.{Dict, get}
use collective_phase_control.Structural.{Transformation, flow_inputs, flow_outputs}
use collective_phase_control.Structural.Closure.{Sweep, fire, visit, sweep}

-- every member of `a` is a member of `b`
abbrev pub Within : List String → List String → Type 0
Within a b = (x : String) → Memᴰ x a → Memᴰ x b

-- `P` holds of what fires: the rules of the transformations that `ids` names
abbrev pub Respects : Dict Transformation → List String → (String → Type 0) → Type 0
Respects ts ids P =
    (identifier : String) (t : Transformation)
    → Memᴰ identifier ids
    → get identifier ts ≡ some t
    → ((x : String) → Memᴰ x (flow_inputs t) → P x)
    → (x : String) → Memᴰ x (flow_outputs t)
    → P x

-- what the transformation of an identifier needs, and may add
abbrev pub inputs_of : Option Transformation → List String
inputs_of none = []
inputs_of (some t) = flow_inputs t

abbrev pub outputs_of : Option Transformation → List String
outputs_of none = []
outputs_of (some t) = flow_outputs t

fire_grows : (t : Transformation) (s : Sweep) → Within s.available (fire t s).available
unfolding fire
fire_grows t s x m = ground (arith, Memᴰ-union x s.available (flow_outputs t))

visit_grows : (o : Option Transformation) (s : Sweep) → Within s.available (visit o s).available
unfolding visit
visit_grows none s x m = m
visit_grows (some t) s x m = fire_grows t s x m

-- A visit leaves the state alone, or adds outputs that were not all there.
visit_cases :
    (o : Option Transformation) (s : Sweep)
    → ((visit o s ≡ s)
        × (subset (inputs_of o) s.available ≡ true → subset (outputs_of o) s.available ≡ true))
      ⊎ ((subset (outputs_of o) s.available ≡ false)
          × ((visit o s).changed ≡ true)
          × (subset (outputs_of o) (visit o s).available ≡ true))
unfolding visit
visit_cases none s = inl (refl, λ _. refl)
visit_cases (some t) s = elim (Bool-cases (subset (flow_outputs t) s.available)) [
  | inl all_there ↦ inl (rw (all_there, fire) (ground arith), λ _. all_there)
  | inr missing ↦ elim (Bool-cases (subset (flow_inputs t) s.available)) [
    | inl fed ↦ inr (
      missing,
      rw (fed, missing),
      rw (fed, missing)
          (subset_intro _ _ (λ x m. (Memᴰ-union x s.available (flow_outputs t)).1 (inr m))),
    )
    | inr unfed ↦ inl (rw unfed, λ h. cc)
  ]
]

module _ (ts : Dict Transformation) where
  pub sweep_grows :
      (ids : List String) (s : Sweep) → Within s.available (sweep ts ids s).value.available
  unfolding sweep
  sweep_grows [] s x m = m
  sweep_grows (i ∷ ids) s x m =
      sweep_grows ids (visit (get i ts) s) x (visit_grows (get i ts) s x m)

  pub spent-sweep : (ids : List String) (s : Sweep) → (sweep ts ids s).spent ≡ length ids
  unfolding sweep
  spent-sweep [] s = refl
  spent-sweep (i ∷ ids) s = omega (arith, spent-sweep ids (visit (get i ts) s))

  -- `changed` is never reset within a round
  pub sweep_changed :
      (ids : List String) (s : Sweep) → s.changed ≡ true → (sweep ts ids s).value.changed ≡ true
  unfolding sweep
  sweep_changed [] s h = h
  sweep_changed (i ∷ ids) s h = elim (visit_cases (get i ts) s) [
    | inl (same, _) ↦ sweep_changed ids _ (rw same h)
    | inr (_, fired, _) ↦ sweep_changed ids _ fired
  ]

  visit_sound :
      (P : String → Type 0) (o : Option Transformation) (s : Sweep)
      → ((t : Transformation)
          → o ≡ some t
          → ((x : String) → Memᴰ x (flow_inputs t) → P x)
          → (x : String) → Memᴰ x (flow_outputs t)
          → P x)
      → ((x : String) → Memᴰ x s.available → P x)
      → (x : String) → Memᴰ x (visit o s).available
      → P x
  unfolding visit
  visit_sound P none s rule h x m = h x m
  visit_sound P (some t) s rule h x m =
      elim (Bool-cases
        (subset (flow_inputs t) s.available && not (subset (flow_outputs t) s.available))) [
          | inl fires ↦
              let inputs = (and_iff _ _).0 fires in
              ⊎_elim (h x) (rule t refl (λ y n. h y (subset_elim _ _ (inputs.0) y n)) x)
                ((Memᴰ-union x s.available (flow_outputs t)).0 (rw fires at m))
          | inr rests ↦ h x (rw rests at m)
        ]

  -- A property that the start has and the rules keep holds of all that a round makes available.
  pub sweep_sound :
      (P : String → Type 0) (ids : List String) (s : Sweep)
      → Respects ts ids P
      → ((x : String) → Memᴰ x s.available → P x)
      → (x : String) → Memᴰ x (sweep ts ids s).value.available
      → P x
  unfolding sweep
  sweep_sound P [] s r h x m = h x m
  sweep_sound P (i ∷ ids) s r h x m =
      sweep_sound P ids (visit (get i ts) s) (λ j t n. r j t (Memᴰ.tail n))
        (visit_sound P (get i ts) s (λ t e. r i t (Memᴰ.head refl) e) h) x m

  -- A round that reports no change found every transformation it could fire already fired.
  pub sweep_settled :
      (ids : List String) (s : Sweep)
      → (sweep ts ids s).value.changed ≡ false
      → ((sweep ts ids s).value ≡ s)
        × ((i : String)
            → Memᴰ i ids
            → subset (inputs_of (get i ts)) s.available ≡ true
            → subset (outputs_of (get i ts)) s.available ≡ true)
  unfolding sweep
  sweep_settled [] s h = (refl, λ i m. absurd (Memᴰ.not-nil m))
  sweep_settled (j ∷ ids) s h = elim (visit_cases (get j ts) s) [
    | inl (same, settled) ↦
        let (kept, rest) = sweep_settled ids s (rw same at h) in
        (rw same kept, λ i m. elim (Memᴰ.cases_cons m) [ inl e ↦ rw e settled | inr n ↦ rest i n ])
    | inr (_, fired, _) ↦ absurd (false≢true (sym h ∙ sweep_changed ids _ fired))
  ]

  -- A round that reports a change fired a transformation whose outputs were not all there.
  pub sweep_progress :
      (ids : List String) (s : Sweep)
      → s.changed ≡ false
      → (sweep ts ids s).value.changed ≡ true
      → (i : String) × Memᴰ i ids
        × (subset (outputs_of (get i ts)) s.available ≡ false)
        × (subset (outputs_of (get i ts)) (sweep ts ids s).value.available ≡ true)
  unfolding sweep
  sweep_progress [] s h c = absurd (false≢true (sym h ∙ c))
  sweep_progress (j ∷ ids) s h c = elim (visit_cases (get j ts) s) [
    | inl (same, settled) ↦
        let (i, m, before, after) = sweep_progress ids s h (rw same at c) in
        (i, Memᴰ.tail m, before, rw same after)
    | inr (missing, _, there) ↦ (
      j,
      Memᴰ.head refl,
      missing,
      subset_intro _ _ (λ x m. sweep_grows ids (visit (get j ts) s) x (subset_elim _ _ there x m)),
    )
  ]
