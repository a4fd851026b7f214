-- ===== src/Structural/Raf/Layers.antt =====
-- The loop behind the generative layers, and the layers and closure that it ends with.
use mathlib.Core.List.Memᴰ
use collective_phase_control.Prelude.{
  ℕ, zero, suc, ◌+◌, ◌≤◌, ◌<◌, String, ◌≡◌, refl, subst, ◌⊎◌, inl, inr, ⊎_elim, Bool, true, false,
  not, some, List, [], ◌∷◌, ◌++◌, Memᴰ, Memᴰ-filter, arith, length, filter, Bool-cases, Bool-ext,
  Option-cases, ltb,
}
use collective_phase_control.Ids.{elem, union, to_set, sorted}
use collective_phase_control.Ids.Laws.{elem_iff, Memᴰ-union, Memᴰ-diff, Memᴰ-to_set, Memᴰ-sorted}
use collective_phase_control.Ids.Unique.{length-filter-lt}
use collective_phase_control.Ids.Dict.{Dict, get, keys}
use collective_phase_control.Structural.{Transformation, flow_outputs}
use collective_phase_control.Structural.Closure.Correct.{Producible, given, produced as derived}
use collective_phase_control.Structural.Raf.{
  Generation, is_supported_id, is_empty, layer_of, produced, advance, generate,
  exact_generalized_generative_raf,
}
use collective_phase_control.Structural.Raf.Maximal.{IsRaf}
use collective_phase_control.Structural.Raf.Support.{Supported-mono, is_supported_id_iff}

not-Memᴰ_of_empty : (l : List String) → is_empty l ≡ true → (i : String) → ¬ Memᴰ i l
unfolding is_empty
not-Memᴰ_of_empty [] h i m = Memᴰ.not-nil m
not-Memᴰ_of_empty (x ∷ l) h i m = cc

member_of_not_empty : (l : List String) → is_empty l ≡ false → (i : String) × Memᴰ i l
unfolding is_empty
member_of_not_empty [] h = cc
member_of_not_empty (x ∷ l) h = (x, Memᴰ.head refl)

module _ (ts : Dict Transformation) (food evidence authority : List String) where
  abbrev supports : List String → String → Bool
  supports = is_supported_id ts evidence authority

  layer_of-eq-filter :
      (a ids : List String)
      → (layer_of ts food evidence authority a ids).value ≡ filter (supports a) ids
  unfolding layer_of
  layer_of-eq-filter a [] = refl
  layer_of-eq-filter a (i ∷ ids) = rw (layer_of-eq-filter a ids)

  -- what is available behind some layers
  abbrev pub after : List String → List (List String) → List String
  after a [] = a
  after a (layer ∷ layers) = after (union a (produced ts food evidence authority layer)) layers

  -- every transformation of a layer is supported by what the layers before it made available
  abbrev pub AreStrict : List String → List (List String) → Type 0
  AreStrict a [] = Unit
  AreStrict a (layer ∷ layers) =
      ((i : String) → Memᴰ i layer → supports a i ≡ true)
      × AreStrict (union a (produced ts food evidence authority layer)) layers

  after-append :
      (a : List String) (layers : List (List String)) (l : List String)
      → after a (layers ++ l ∷ []) ≡ union (after a layers) (produced ts food evidence authority l)
  after-append a [] l = refl
  after-append a (k ∷ layers) l =
      after-append (union a (produced ts food evidence authority k)) layers l

  AreStrict-append :
      (a : List String) (layers : List (List String)) (l : List String)
      → AreStrict a layers
      → ((i : String) → Memᴰ i l → supports (after a layers) i ≡ true)
      → AreStrict a (layers ++ l ∷ [])
  AreStrict-append a [] l h k = (k, tt)
  AreStrict-append a (m ∷ layers) l h k =
      (h.0, AreStrict-append (union a (produced ts food evidence authority m)) layers l h.1 k)

  abbrev ids : List String
  ids = keys ts

  record Inv (s : Generation) : Type 0 where
    strict : AreStrict (to_set food) s.layers
    available_eq : s.available ≡ after (to_set food) s.layers
    derivable : (x : String) → Memᴰ x s.available → Producible ts ids food x
    known : (i : String) → Memᴰ i s.remaining → Memᴰ i ids
    placed :
        (i : String)
        → Memᴰ i ids
        → Memᴰ i s.remaining ⊎ ((layer : List String) × Memᴰ layer s.layers × Memᴰ i layer)
    backed :
        (layer : List String) (i : String)
        → Memᴰ layer s.layers
        → Memᴰ i layer
        → (a : List String) × ((x : String) → Memᴰ x a → Producible ts ids food x)
          × (supports a i ≡ true)

  produced_sound :
      (P : String → Type 0) (layer : List String)
      → ((i : String) (t : Transformation)
          → Memᴰ i layer
          → get i ts ≡ some t
          → (x : String) → Memᴰ x (flow_outputs t)
          → P x)
      → (x : String) → Memᴰ x (produced ts food evidence authority layer)
      → P x
  unfolding produced
  produced_sound P [] h x m = absurd (Memᴰ.not-nil m)
  produced_sound P (i ∷ layer) h x m = elim (Option-cases (get i ts)) [
    | inl e ↦ produced_sound P layer (λ j t n. h j t (Memᴰ.tail n)) x (rw e at m)
    | inr (t, e) ↦ elim (Memᴰ.append_cases (flow_outputs t) (rw e at m)) [
      | inl now ↦ h i t (Memᴰ.head refl) e x now
      | inr later ↦ produced_sound P layer (λ j t n. h j t (Memᴰ.tail n)) x later
    ]
  ]

  Inv-advance :
      (s : Generation) (layer : List String)
      → Inv s
      → ((i : String) → Memᴰ i layer → Memᴰ i s.remaining × (supports s.available i ≡ true))
      → Inv (advance ts food evidence authority layer s)
  unfolding advance
  Inv-advance s layer h good = record {
    strict =
        AreStrict-append (to_set food) s.layers layer h.strict
          (λ i m. rw (← h.available_eq) (good i m).1);
    available_eq = rw (after-append (to_set food) s.layers layer, ← h.available_eq);
    derivable = λ x m.
        ⊎_elim (h.derivable x)
          (produced_sound (Producible ts ids food) layer
            (λ i t n e y o.
              let (r, sup) = good i n in
              let (u, k, supp) =
                (is_supported_id_iff evidence authority s.available (λ z. Memᴰ z s.available)
                    (λ z. (λ q. q, λ q. q)) ts i).0
                  sup in
              let same : t ≡ u = cc in
              derived i t (h.known i r) e (λ z q. h.derivable z (supp.fed z (rw same at q))) o)
            x)
          ((Memᴰ-union x s.available _).0 m);
    known = λ i m. h.known i ((Memᴰ-diff i s.remaining layer).0 m).0;
    placed = λ i m.
        ⊎_elim
          (λ waiting. elim (Bool-cases (elem i layer)) [
            | inl now ↦
                inr (layer, Memᴰ.append_right s.layers (Memᴰ.head refl), (elem_iff i layer).0 now)
            | inr later ↦ inl ((Memᴰ-diff i s.remaining layer).1 (waiting, later))
          ])
          (λ (l, n, k). inr (l, Memᴰ.append_left _ n, k)) (h.placed i m);
    backed = λ l i m n.
        ⊎_elim (λ old. h.backed l i old n)
          (λ new. (
            s.available,
            h.derivable,
            (good i (subst (λ z. Memᴰ i z) (Memᴰ.eq_of_singleton new) n)).1,
          ))
          (Memᴰ.append_cases s.layers m);
  }

  supports-sorted : (a : List String) (i : String) → supports (sorted a) i ≡ supports a i
  supports-sorted a i =
      let same = λ (x : String). (Memᴰ-sorted x a) in
      let one = is_supported_id_iff evidence authority (sorted a) (λ x. Memᴰ x a) same ts i in
      let two =
        is_supported_id_iff evidence authority a (λ x. Memᴰ x a) (λ x. (λ q. q, λ q. q)) ts i in
      Bool-ext _ _ (λ h. two.1 (one.0 h)) (λ h. one.1 (two.0 h))

  abbrev this_layer : Generation → List String
  this_layer s = filter (supports s.available) (sorted s.remaining)

  -- the two ways through `while remaining`
  generate_cases :
      (fuel : ℕ) (s : Generation)
      → (((i : String) → Memᴰ i s.remaining → supports s.available i ≡ false)
          × ((generate ts food evidence authority (suc fuel) s).value ≡ s))
        ⊎ (((i : String) × Memᴰ i (this_layer s))
            × ((generate ts food evidence authority (suc fuel) s).value
                ≡ (generate ts food evidence authority fuel
                    (advance ts food evidence authority (this_layer s) s)).value))
  unfolding generate
  generate_cases fuel s = elim (Bool-cases (is_empty s.remaining)) [
    | inl none_left ↦
        inl (λ i m. absurd (not-Memᴰ_of_empty s.remaining none_left i m), ground (arith, none_left))
    | inr some_left ↦ elim (Bool-cases (is_empty (this_layer s))) [
      | inl stuck ↦ inl (
        λ i m. unsupported i m stuck,
        ground (arith, some_left, stuck, layer_of-eq-filter s.available (sorted s.remaining)),
      )
      | inr going ↦ inr (
        member_of_not_empty (this_layer s) going,
        ground (arith, some_left, going, layer_of-eq-filter s.available (sorted s.remaining)),
      )
    ]
  ]
    where
      unsupported :
          (i : String)
          → Memᴰ i s.remaining
          → is_empty (this_layer s) ≡ true
          → supports s.available i ≡ false
      unsupported i m stuck = elim (Bool-cases (supports s.available i)) [
        | inl good ↦ absurd (
            not-Memᴰ_of_empty (this_layer s) stuck i (
              (Memᴰ-filter (supports s.available) i (sorted s.remaining)).1
                ((Memᴰ-sorted i s.remaining).1 m, good)))
        | inr bad ↦ bad
      ]

  this_layer_good :
      (s : Generation) (i : String)
      → Memᴰ i (this_layer s)
      → Memᴰ i s.remaining × (supports s.available i ≡ true)
  this_layer_good s i m =
      let (n, good) = (Memᴰ-filter (supports s.available) i (sorted s.remaining)).0 m in
      ((Memᴰ-sorted i s.remaining).0 n, good)

  fewer_remain :
      (s : Generation) (i : String)
      → Memᴰ i (this_layer s)
      → length (advance ts food evidence authority (this_layer s) s).remaining < length s.remaining
  unfolding advance
  fewer_remain s i m =
      length-filter-lt (λ x. not (elem x (this_layer s))) i s.remaining (this_layer_good s i m).0
        (rw ((elem_iff i (this_layer s)).1 m))

  -- The loop ends by its tests within the fuel: what is left then is not supported.
  generate_ends :
      (fuel : ℕ) (s : Generation)
      → length s.remaining < fuel
      → Inv s
      → Inv (generate ts food evidence authority fuel s).value
        × ((i : String)
            → Memᴰ i (generate ts food evidence authority fuel s).value.remaining
            → supports (generate ts food evidence authority fuel s).value.available i ≡ false)
  generate_ends zero s h v = absurd (omega arith)
  generate_ends (suc fuel) s h v = elim (generate_cases fuel s) [
    | inl (stuck, e) ↦ rw e (v, stuck)
    | inr ((i, m), e) ↦ rw e (
        generate_ends fuel (advance ts food evidence authority (this_layer s) s)
          (omega (arith, fewer_remain s i m)) (Inv-advance s (this_layer s) v (this_layer_good s)))
  ]

  abbrev start : Generation
  start = record { layers = []; available = to_set food; remaining = sorted (keys ts) }

  Inv-start : Inv start
  Inv-start = record {
    strict = tt;
    available_eq = refl;
    derivable = λ x m. given ((Memᴰ-to_set x food).0 m);
    known = λ i. (Memᴰ-sorted i (keys ts)).0;
    placed = λ i m. inl ((Memᴰ-sorted i (keys ts)).1 m);
    backed = λ layer i m. absurd (Memᴰ.not-nil m);
  }

  abbrev generation : Generation
  generation = (generate ts food evidence authority (length (sorted (keys ts)) + 1) start).value

  generation_ends :
      Inv generation
      × ((i : String) → Memᴰ i generation.remaining → supports generation.available i ≡ false)
  generation_ends = generate_ends (length (sorted (keys ts)) + 1) start (omega arith) Inv-start

  -- Within the bound on the number of transformations the layers are strict: every transformation
  -- of a layer is supported by the food together with the outputs of the layers before it.
  pub generative_layers-AreStrict :
      (maximum : ℕ)
      → length (sorted (keys ts)) ≤ maximum
      → AreStrict
          (to_set food)
          (exact_generalized_generative_raf ts food evidence authority
            maximum).value.generative_layers
  unfolding exact_generalized_generative_raf
  generative_layers-AreStrict maximum h =
      let below : ltb maximum (length (sorted (keys ts))) ≡ false = ground arith in
      rw below generation_ends.0.strict

  -- The generative closure holds only states that the transformations derive from the food.
  pub generative_closure_sound :
      (maximum : ℕ)
      → length (sorted (keys ts)) ≤ maximum
      → (x : String)
      → Memᴰ x
          (exact_generalized_generative_raf ts food evidence authority
            maximum).value.generative_closure
      → Producible ts (keys ts) food x
  unfolding exact_generalized_generative_raf
  generative_closure_sound maximum h x m =
      let below : ltb maximum (length (sorted (keys ts))) ≡ false = ground arith in
      generation_ends.0.derivable x ((Memᴰ-sorted x generation.available).0 (rw below at m))

  -- Every transformation stands in a layer, or is not supported by the generative closure: the loop
  -- stops only when it can go no further.
  pub generative_layers_complete :
      (maximum : ℕ)
      → length (sorted (keys ts)) ≤ maximum
      → (i : String) → Memᴰ i (keys ts)
      → let r = (exact_generalized_generative_raf ts food evidence authority maximum).value in
        ((layer : List String) × Memᴰ layer r.generative_layers × Memᴰ i layer)
        ⊎ (is_supported_id ts evidence authority r.generative_closure i ≡ false)
  unfolding exact_generalized_generative_raf
  generative_layers_complete maximum h i m =
      let below : ltb maximum (length (sorted (keys ts))) ≡ false = ground arith in
      rw below (
        ⊎_elim
          (λ waiting.
            inr (rw (supports-sorted generation.available i) (generation_ends.1 i waiting)))
          inl (generation_ends.0.placed i m))

  -- Within the bound on the number of transformations, where all transformations (at least one) stand
  -- in layers and none has an inhibitor, the full set is a generalized RAF.
  pub generative_full-IsRaf :
      (maximum : ℕ)
      → length (sorted (keys ts)) ≤ maximum
      → ((i : String) × Memᴰ i (keys ts))
      → ((i : String) (t : Transformation) → get i ts ≡ some t → t.inhibitors ≡ [])
      → ((i : String)
          → Memᴰ i (keys ts)
          → (layer : List String) × Memᴰ layer
              (exact_generalized_generative_raf ts food evidence authority
                maximum).value.generative_layers
            × Memᴰ i layer)
      → IsRaf ts food evidence authority (keys ts)
  unfolding exact_generalized_generative_raf
  generative_full-IsRaf maximum h some_id calm placed = record {
    member = some_id;
    supported = λ i m.
        let below : ltb maximum (length (sorted (keys ts))) ≡ false = ground arith in
        let (layer, n, k) = placed i m in
        let (a, reach, good) = generation_ends.0.backed layer i (rw below at n) k in
        let (t, e, s) =
          (is_supported_id_iff evidence authority a (λ z. Memᴰ z a) (λ z. (λ q. q, λ q. q)) ts i).0
            good in
        (
          t,
          e,
          Supported-mono evidence authority (λ z. Memᴰ z a) (Producible ts (keys ts) food) t reach
              (λ x q. absurd (Memᴰ.not-nil (subst (λ l. Memᴰ x l) (calm i t e) q))) s,
        );
  }
