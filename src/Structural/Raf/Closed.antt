-- ===== src/Structural/Raf/Closed.antt =====
-- _raf_closure, which detects changes by size, beside structural_closure, which does by inclusion.
use collective_phase_control.Prelude.{
  ℕ, zero, suc, ◌+◌, String, ◌≡◌, refl, ◌↔◌, inl, inr, true, false, Option, none, some, List, [],
  ◌∷◌, Memᴰ, arith, length, Bool-cases, pure, ◌>>=◌,
}
use collective_phase_control.Ids.{subset, to_set, sorted, insert_sorted}
use collective_phase_control.Ids.Laws.{Memᴰ-sorted}
use collective_phase_control.Ids.Unique.{union_absorb, length-lt-union}
use collective_phase_control.Ids.Dict.{Dict, get}
use collective_phase_control.Structural.{Transformation, flow_outputs}
use collective_phase_control.Structural.Closure.{Sweep, fire, visit, sweep, closure_loop}
use collective_phase_control.Structural.Closure.Correct.{
  Producible, Producible-mono, closure_loop_correct,
}
use collective_phase_control.Structural.Raf.{raf_fire, raf_visit, raf_sweep, raf_loop, raf_closure}

raf_fire-eq-fire : (t : Transformation) (s : Sweep) → raf_fire t s ≡ fire t s
unfolding raf_fire fire
raf_fire-eq-fire t s = elim (Bool-cases (subset (flow_outputs t) s.available)) [
  | inl old ↦ ground (arith, old, union_absorb s.available (flow_outputs t) old)
  | inr new ↦ ground (arith, new, length-lt-union s.available (flow_outputs t) new)
]

raf_visit-eq-visit : (o : Option Transformation) (s : Sweep) → raf_visit o s ≡ visit o s
unfolding raf_visit visit
raf_visit-eq-visit none s = refl
raf_visit-eq-visit (some t) s = raf_fire-eq-fire t s

module _ (ts : Dict Transformation) where
  raf_sweep-eq-sweep : (ids : List String) (s : Sweep) → raf_sweep ts ids s ≡ sweep ts ids s
  unfolding raf_sweep sweep
  raf_sweep-eq-sweep [] s = refl
  raf_sweep-eq-sweep (i ∷ ids) s =
      rw (raf_visit-eq-visit (get i ts) s, raf_sweep-eq-sweep ids (visit (get i ts) s))

  -- The two loops have the same result at the same cost, whatever the fuel.
  pub raf_loop-eq-closure_loop :
      (fuel : ℕ) (ids closure : List String)
      → raf_loop ts fuel ids closure ≡ closure_loop ts fuel ids closure
  unfolding raf_loop closure_loop
  raf_loop-eq-closure_loop zero ids closure = refl
  raf_loop-eq-closure_loop (suc fuel) ids closure = λ i.
      raf_sweep-eq-sweep ids (record { available = closure; changed = false }) i >>= λ s.
      elim s.changed [
        | true ↦ raf_loop-eq-closure_loop fuel ids s.available i
        | false ↦ pure s.available
      ]

length-insert_sorted :
    (x : String) (xs : List String) → length (insert_sorted x xs) ≡ suc (length xs)
unfolding insert_sorted
length-insert_sorted x [] = refl
length-insert_sorted x (y ∷ ys) = ground (arith, length-insert_sorted x ys)

pub length-sorted : (xs : List String) → length (sorted xs) ≡ length xs
unfolding sorted
length-sorted [] = refl
length-sorted (x ∷ xs) = omega (arith, length-insert_sorted x (sorted xs), length-sorted xs)

-- A state is in _raf_closure exactly when it can be derived from the food by the candidate's
-- transformations.
pub raf_closure_correct :
    (ts : Dict Transformation) (food ids : List String) (x : String)
    → Memᴰ x (raf_closure ts food ids).value ↔ Producible ts ids food x
unfolding raf_closure
raf_closure_correct ts food ids x =
    let loop = closure_loop_correct ts (sorted ids) food x in
    rw
      (
        ← length-sorted ids,
        raf_loop-eq-closure_loop ts (length (sorted ids) + 1) (sorted ids) (to_set food),
      )
      (
        λ m.
            Producible-mono ts (sorted ids) ids food food (λ i. (Memᴰ-sorted i ids).0) (λ y n. n)
              (loop.0 m),
        λ p. loop.1 (
            Producible-mono ts ids (sorted ids) food food (λ i. (Memᴰ-sorted i ids).1) (λ y n. n)
              p),
      )
