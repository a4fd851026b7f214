-- ===== src/Structural/Cuts/Enablement.antt =====
-- What an enabling set is, and the values of enumerate_minimal_enablement_sets.
use collective_phase_control.Prelude.{
  ℕ, ◌≤◌, String, ◌≡◌, refl, Bool, true, false, some, List, Memᴰ, arith, length, ltb, Cost,
}
use collective_phase_control.Ids.{sorted}
use collective_phase_control.Ids.Laws.{Memᴰ-sorted}
use collective_phase_control.Ids.Unique.{IsUnique, sorted-IsUnique}
use collective_phase_control.Ids.Dict.{Dict, keys}
use collective_phase_control.Enumeration.Sets.{AreMinimal, AreMinimal-over, search_AreMinimal}
use collective_phase_control.Structural.{Transformation}
use collective_phase_control.Structural.Closure.{allowed_ids}
use collective_phase_control.Structural.Cuts.{reaches, enumerate_minimal_enablement_sets}
use collective_phase_control.Structural.Cuts.Enabled.{
  Enables, Enables-mono, reaches_iff, Memᴰ-allowed,
}

module _ (initial targets : List String) (ts : Dict Transformation) where
  -- with the allowed set `s` the targets are derived
  abbrev pub IsEnabling : List String → Type 0
  IsEnabling s = Enables initial targets ts (allowed_ids ts (some s))

  pub IsEnabling-mono :
      (v w : List String) → ((x : String) → Memᴰ x v → Memᴰ x w) → IsEnabling v → IsEnabling w
  IsEnabling-mono v w e =
      Enables-mono initial targets ts _ _
        λ i m. let (a, k) = (Memᴰ-allowed ts v i).0 m in (Memᴰ-allowed ts w i).1 (e i a, k)

  abbrev enabling_test : List String → Cost Bool
  enabling_test c = reaches initial targets ts (some c)

  -- For distinct identifiers, within the bound on the number of transformations, the enumeration says
  -- that it is exhaustive, and its values are the minimal sets of transformations from which the
  -- targets are derived.
  pub enumerate_minimal_enablement_sets_correct :
      (maximum : ℕ)
      → IsUnique (keys ts)
      → length (sorted (keys ts)) ≤ maximum
      → ((enumerate_minimal_enablement_sets initial targets ts maximum).value.exhaustive ≡ true)
        × AreMinimal IsEnabling
            (keys ts)
            (enumerate_minimal_enablement_sets initial targets ts maximum).value.values
  unfolding enumerate_minimal_enablement_sets
  enumerate_minimal_enablement_sets_correct maximum u h =
      let below : ltb maximum (length (sorted (keys ts))) ≡ false = ground arith in
      rw below (
        refl,
        AreMinimal-over IsEnabling (sorted (keys ts)) (keys ts) _
            (λ x. ((Memᴰ-sorted x (keys ts)).0, (Memᴰ-sorted x (keys ts)).1))
            (search_AreMinimal enabling_test IsEnabling 0 (sorted (keys ts))
              (sorted-IsUnique (keys ts) u) (λ v w e. IsEnabling-mono v w (λ x. (e x).0))
              (λ v _ _. (reaches_iff initial targets ts (some v)).0)
              (λ v. (reaches_iff initial targets ts (some v)).1)
              (λ v w e good. (reaches_iff initial targets ts (some w)).1 (
                IsEnabling-mono v w (λ x. (e x).0)
                  ((reaches_iff initial targets ts (some v)).0 good)))
              (λ w _ _. omega arith)),
      )
