-- ===== src/Structural/Closure/Loop.antt =====
-- The rounds end: each round that changes something settles one more identifier, so one round more
-- than there are identifiers leaves a set that no transformation can extend.
use mathlib.Core.List.Memᴰ
use collective_phase_control.Prelude.{
  ℕ, zero, suc, ◌+◌, ◌*◌, ◌≤◌, ◌<◌, String, ◌≡◌, refl, ap, inl, inr, true, false, List, [], ◌∷◌,
  Memᴰ, arith, length, if◌then◌else◌, Bool-cases,
}
use collective_phase_control.Ids.{subset}
use collective_phase_control.Ids.Laws.{subset_intro, subset_elim}
use collective_phase_control.Ids.Dict.{Dict, get}
use collective_phase_control.Structural.{Transformation}
use collective_phase_control.Structural.Closure.{Sweep, sweep, closure_loop}
use collective_phase_control.Structural.Closure.Round.{
  Within, Respects, inputs_of, outputs_of, sweep_grows, spent-sweep, sweep_sound, sweep_settled,
  sweep_progress,
}

module _ (ts : Dict Transformation) where
  -- how many identifiers have an output that is not available
  abbrev pub pending : List String → List String → ℕ
  pending [] a = 0
  pending (i ∷ ids) a = (if subset (outputs_of (get i ts)) a then 0 else 1) + pending ids a

  pub pending-le-length : (ids : List String) (a : List String) → pending ids a ≤ length ids
  pending-le-length [] a = omega arith
  pending-le-length (i ∷ ids) a = ground (arith, pending-le-length ids a)

  subset_mono : (xs a b : List String) → Within a b → subset xs a ≡ true → subset xs b ≡ true
  subset_mono xs a b w h = subset_intro xs b (λ x m. w x (subset_elim xs a h x m))

  pending_mono :
      (ids : List String) (a b : List String) → Within a b → pending ids b ≤ pending ids a
  pending_mono [] a b w = omega arith
  pending_mono (i ∷ ids) a b w =
      ground (arith, pending_mono ids a b w, subset_mono (outputs_of (get i ts)) a b w)

  pending_falls :
      (ids : List String) (a b : List String) (i : String)
      → Within a b
      → Memᴰ i ids
      → subset (outputs_of (get i ts)) a ≡ false
      → subset (outputs_of (get i ts)) b ≡ true
      → pending ids b < pending ids a
  pending_falls [] a b i w m h k = absurd (Memᴰ.not-nil m)
  pending_falls (j ∷ ids) a b i w m h k = elim (Memᴰ.cases_cons m) [
    | inl e ↦
        let same = ap (λ z. outputs_of (get z ts)) e in
        ground (arith, pending_mono ids a b w, ap (λ z. subset z a) same, ap (λ z. subset z b) same)
    | inr n ↦
        ground (arith, pending_falls ids a b i w n h k, subset_mono (outputs_of (get j ts)) a b w)
  ]

  abbrev pub start : List String → Sweep
  start a = record { available = a; changed = false }

  -- nothing that `ids` names can fire in `a` and add to it
  abbrev pub IsClosed : List String → List String → Type 0
  IsClosed ids a =
      (i : String)
      → Memᴰ i ids
      → subset (inputs_of (get i ts)) a ≡ true
      → subset (outputs_of (get i ts)) a ≡ true

  round_falls :
      (ids a : List String)
      → (sweep ts ids (start a)).value.changed ≡ true
      → pending ids (sweep ts ids (start a)).value.available < pending ids a
  round_falls ids a h =
      let (i, m, before, after) = sweep_progress ts ids (start a) refl h in
      pending_falls ids a _ i (sweep_grows ts ids (start a)) m before after

  loop_more :
      (fuel : ℕ) (ids a : List String)
      → (sweep ts ids (start a)).value.changed ≡ true
      → (closure_loop ts (suc fuel) ids a).value
        ≡ (closure_loop ts fuel ids (sweep ts ids (start a)).value.available).value
  unfolding closure_loop
  loop_more fuel ids a h = ground (arith, h)

  loop_done :
      (fuel : ℕ) (ids a : List String)
      → (sweep ts ids (start a)).value.changed ≡ false
      → (closure_loop ts (suc fuel) ids a).value ≡ (sweep ts ids (start a)).value.available
  unfolding closure_loop
  loop_done fuel ids a h = ground (arith, h)

  -- With more fuel than identifiers pending, the loop ends by its test, in a closed set.
  pub closure_loop-IsClosed :
      (fuel : ℕ) (ids a : List String)
      → pending ids a < fuel
      → IsClosed ids (closure_loop ts fuel ids a).value
  closure_loop-IsClosed zero ids a h = absurd (omega arith)
  closure_loop-IsClosed (suc fuel) ids a h =
      elim (Bool-cases (sweep ts ids (start a)).value.changed) [
        | inl more ↦
            rw (loop_more fuel ids a more)
              (closure_loop-IsClosed fuel ids _ (omega (arith, round_falls ids a more)))
        | inr done ↦
            let (same, settled) = sweep_settled ts ids (start a) done in
            rw (loop_done fuel ids a done, same) settled
      ]

  pub closure_loop_grows :
      (fuel : ℕ) (ids a : List String) → Within a (closure_loop ts fuel ids a).value
  unfolding closure_loop
  closure_loop_grows zero ids a x m = m
  closure_loop_grows (suc fuel) ids a x m =
      elim (Bool-cases (sweep ts ids (start a)).value.changed) [
        | inl more ↦
            rw (loop_more fuel ids a more)
              (closure_loop_grows fuel ids _ x (sweep_grows ts ids (start a) x m))
        | inr done ↦ rw (loop_done fuel ids a done) (sweep_grows ts ids (start a) x m)
      ]

  pub closure_loop_sound :
      (P : String → Type 0) (fuel : ℕ) (ids a : List String)
      → Respects ts ids P
      → ((x : String) → Memᴰ x a → P x)
      → (x : String) → Memᴰ x (closure_loop ts fuel ids a).value
      → P x
  unfolding closure_loop
  closure_loop_sound P zero ids a r h x m = h x m
  closure_loop_sound P (suc fuel) ids a r h x m =
      elim (Bool-cases (sweep ts ids (start a)).value.changed) [
        | inl more ↦
            closure_loop_sound P fuel ids _ r (sweep_sound ts P ids (start a) r h) x
              (rw (loop_more fuel ids a more) at m)
        | inr done ↦ sweep_sound ts P ids (start a) r h x (rw (loop_done fuel ids a done) at m)
      ]

  -- `while changed` without fuel, from what is available to what is left, in so many rounds: a round
  -- that changes nothing is the last.
  pub data Loops (ids : List String) : List String → ℕ → List String → Type 0 where
    ends :
        {a : List String}
        → (sweep ts ids (start a)).value.changed ≡ false
        → Loops ids a 1 (sweep ts ids (start a)).value.available
    goes_on :
        {a b : List String} {rounds : ℕ}
        → (sweep ts ids (start a)).value.changed ≡ true
        → Loops ids (sweep ts ids (start a)).value.available rounds b
        → Loops ids a (suc rounds) b

  -- the loop ends within the fuel, and each round spends once for each identifier
  pub record Ended (fuel : ℕ) (ids a b : List String) (spent : ℕ) : Type 0 where
    pub rounds : ℕ
    pub loops : Loops ids a rounds b
    pub few : rounds ≤ fuel
    pub cost : spent ≡ rounds * length ids

  spent_more :
      (fuel : ℕ) (ids a : List String)
      → (sweep ts ids (start a)).value.changed ≡ true
      → (closure_loop ts (suc fuel) ids a).spent
        ≡ length ids + (closure_loop ts fuel ids (sweep ts ids (start a)).value.available).spent
  unfolding closure_loop
  spent_more fuel ids a h = rw (h) (grind (arith, spent-sweep ts ids (start a)))

  spent_done :
      (fuel : ℕ) (ids a : List String)
      → (sweep ts ids (start a)).value.changed ≡ false
      → (closure_loop ts (suc fuel) ids a).spent ≡ length ids
  unfolding closure_loop
  spent_done fuel ids a h = rw (h) (grind (arith, spent-sweep ts ids (start a)))

  pub closure_loop_ends :
      (fuel : ℕ) (ids a : List String)
      → pending ids a < fuel
      → Ended fuel ids a (closure_loop ts fuel ids a).value (closure_loop ts fuel ids a).spent
  closure_loop_ends zero ids a h = absurd (omega arith)
  closure_loop_ends (suc fuel) ids a h = elim (Bool-cases (sweep ts ids (start a)).value.changed) [
    | inl more ↦
        let rest =
          closure_loop_ends fuel ids (sweep ts ids (start a)).value.available
            (omega (arith, round_falls ids a more)) in
        record {
          rounds = suc rest.rounds;
          loops = rw (loop_more fuel ids a more) (goes_on more rest.loops);
          few = omega (arith, rest.few);
          cost = omega (arith, spent_more fuel ids a more, rest.cost);
        }
    | inr done ↦ record {
      rounds = 1;
      loops = rw (loop_done fuel ids a done) (ends done);
      few = omega arith;
      cost = omega (arith, spent_done fuel ids a done);
    }
  ]
