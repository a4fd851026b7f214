-- ===== src/Structural/Cuts/Enabled.antt =====
-- When allowed transformations derive all targets, and that `reaches` decides it.
use collective_phase_control.Prelude.{String, ◌≡◌, ◌↔◌, true, Option, none, some, List, Memᴰ}
use collective_phase_control.Ids.{to_set}
use collective_phase_control.Ids.Laws.{
  subset_intro, subset_elim, Memᴰ-to_set, Memᴰ-sorted, Memᴰ-inter,
}
use collective_phase_control.Ids.Dict.{Dict, keys}
use collective_phase_control.Structural.{Transformation}
use collective_phase_control.Structural.Closure.{allowed_ids}
use collective_phase_control.Structural.Closure.Correct.{
  Producible, Producible-mono, structural_closure_correct,
}
use collective_phase_control.Structural.Cuts.{reaches}

module _ (initial targets : List String) (ts : Dict Transformation) where
  -- the transformations that `ids` names derive every target from the initial states
  abbrev pub Enables : List String → Type 0
  Enables ids = (x : String) → Memᴰ x targets → Producible ts ids initial x

  pub Enables-mono :
      (ids js : List String) → ((i : String) → Memᴰ i ids → Memᴰ i js) → Enables ids → Enables js
  Enables-mono ids js w h x m = Producible-mono ts ids js initial initial w (λ y n. n) (h x m)

  pub reaches_iff :
      (allowed : Option (List String))
      → ((reaches initial targets ts allowed).value ≡ true) ↔ Enables (allowed_ids ts allowed)
  unfolding reaches
  reaches_iff allowed = (
    λ h x m.
        (structural_closure_correct ts initial allowed x).0
          (subset_elim (to_set targets) _ h x ((Memᴰ-to_set x targets).1 m)),
    λ h. subset_intro (to_set targets) _ (λ x m.
        (structural_closure_correct ts initial allowed x).1 (h x ((Memᴰ-to_set x targets).0 m))),
  )

-- the identifiers that structural_closure goes through
pub Memᴰ-allowed :
    (ts : Dict Transformation) (allowed : List String) (i : String)
    → Memᴰ i (allowed_ids ts (some allowed)) ↔ (Memᴰ i allowed × Memᴰ i (keys ts))
unfolding allowed_ids
Memᴰ-allowed ts allowed i = (
  λ m.
      let (a, k) = (Memᴰ-inter i (to_set allowed) (keys ts)).0 ((Memᴰ-sorted i _).0 m) in
      ((Memᴰ-to_set i allowed).0 a, k),
  λ r.
      (Memᴰ-sorted i _).1
        ((Memᴰ-inter i (to_set allowed) (keys ts)).1 ((Memᴰ-to_set i allowed).1 r.0, r.1)),
)

pub Memᴰ-all_allowed :
    (ts : Dict Transformation) (i : String) → Memᴰ i (allowed_ids ts none) ↔ Memᴰ i (keys ts)
unfolding allowed_ids
Memᴰ-all_allowed ts i = (
  λ m. (Memᴰ-to_set i (keys ts)).0 ((Memᴰ-sorted i _).0 m),
  λ m. (Memᴰ-sorted i _).1 ((Memᴰ-to_set i (keys ts)).1 m),
)
