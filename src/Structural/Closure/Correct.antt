-- ===== src/Structural/Closure/Correct.antt =====
-- What transformations derive, and the result of structural_closure.
use collective_phase_control.Prelude.{
  ◌+◌, String, ◌≡◌, ◌↔◌, Option, some, List, Memᴰ, arith, length, true, sym, subst,
}
use collective_phase_control.Ids.{to_set, subset}
use collective_phase_control.Ids.Laws.{Memᴰ-to_set, subset_intro, subset_elim}
use collective_phase_control.Ids.Dict.{Dict, get}
use collective_phase_control.Structural.{Transformation, flow_inputs, flow_outputs}
use collective_phase_control.Structural.Closure.{closure_loop, allowed_ids, structural_closure}
use collective_phase_control.Structural.Closure.Round.{Within, inputs_of, outputs_of}
use collective_phase_control.Structural.Closure.Loop.{
  pending-le-length, IsClosed, closure_loop-IsClosed, closure_loop_grows, closure_loop_sound, Ended,
  closure_loop_ends,
}

-- The states that can be derived from `initial` by the transformations that `ids` names: given, or
-- an output of a transformation all of whose inputs can be derived.
pub data Producible (ts : Dict Transformation) (ids initial : List String) : String → Type 0 where
  given : {x : String} → Memᴰ x initial → Producible ts ids initial x
  produced :
      {x : String} (i : String) (t : Transformation)
      → Memᴰ i ids
      → get i ts ≡ some t
      → ((y : String) → Memᴰ y (flow_inputs t) → Producible ts ids initial y)
      → Memᴰ x (flow_outputs t)
      → Producible ts ids initial x

module _ (ts : Dict Transformation) where
  -- a set that is closed and holds the start holds what can be derived
  pub Producible-within :
      (ids initial a : List String)
      → IsClosed ts ids a
      → Within initial a
      → {x : String} → Producible ts ids initial x
      → Memᴰ x a
  Producible-within ids initial a c w (given m) = w _ m
  Producible-within ids initial a c w (produced i t m e h n) =
      subset_elim (flow_outputs t) a
        (closes t e (subset_intro _ _ (λ y k. Producible-within ids initial a c w (h y k)))) _ n
    where
      closes :
          (t : Transformation)
          → get i ts ≡ some t
          → subset (flow_inputs t) a ≡ true
          → subset (flow_outputs t) a ≡ true
      closes t e f =
          subst (λ o. subset (outputs_of o) a ≡ true) e
            (c i m (subst (λ o. subset (inputs_of o) a ≡ true) (sym e) f))

  -- With fuel above the number of identifiers the loop yields exactly what can be derived.
  pub closure_loop_correct :
      (ids initial : List String) (x : String)
      → Memᴰ x (closure_loop ts (length ids + 1) ids (to_set initial)).value
        ↔ Producible ts ids initial x
  closure_loop_correct ids initial x = (
    closure_loop_sound ts (Producible ts ids initial) (length ids + 1) ids (to_set initial)
        (λ i t m e h y n. produced i t m e h n) (λ y m. given ((Memᴰ-to_set y initial).0 m)) x,
    λ p.
        Producible-within ids initial _
          (closure_loop-IsClosed ts (length ids + 1) ids (to_set initial)
            (omega (arith, pending-le-length ts ids (to_set initial))))
          (λ y m.
            closure_loop_grows ts (length ids + 1) ids (to_set initial) y
              ((Memᴰ-to_set y initial).1 m))
          p,
  )

  -- A state is in the result of structural_closure exactly when it can be derived from the initial
  -- states by the allowed transformations; the loop has ended within the fuel it is given.
  pub structural_closure_correct :
      (initial : List String) (allowed : Option (List String)) (x : String)
      → Memᴰ x (structural_closure ts initial allowed).value
        ↔ Producible ts (allowed_ids ts allowed) initial x
  unfolding structural_closure
  structural_closure_correct initial allowed x =
      closure_loop_correct (allowed_ids ts allowed) initial x

  -- The `while` loop of structural_closure ends: without fuel it runs from the initial states to the
  -- result in some number of rounds, at most one more than there are allowed transformations, and
  -- each round calls budget.spend() once for each of these.
  pub structural_closure_ends :
      (initial : List String) (allowed : Option (List String))
      → let ids = allowed_ids ts allowed in
        let closure = structural_closure ts initial allowed in
        Ended ts (length ids + 1) ids (to_set initial) closure.value closure.spent
  unfolding structural_closure
  structural_closure_ends initial allowed =
      let ids = allowed_ids ts allowed in
      closure_loop_ends ts (length ids + 1) ids (to_set initial)
        (omega (arith, pending-le-length ts ids (to_set initial)))

-- More initial states and more transformations derive no less.
pub Producible-mono :
    (ts : Dict Transformation) (ids js a b : List String)
    → Within ids js
    → Within a b
    → {x : String} → Producible ts ids a x
    → Producible ts js b x
Producible-mono ts ids js a b w v (given m) = given (v _ m)
Producible-mono ts ids js a b w v (produced i t m e h n) =
    produced i t (w i m) e (λ y k. Producible-mono ts ids js a b w v (h y k)) n
