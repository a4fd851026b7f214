-- ===== src/Structural/Siphons/Unfed.antt =====
-- unfed_siphons against structural_closure: siphons that start empty and states out of reach.
use mathlib.Core.Bool.{false≢true}
use mathlib.Core.List.Memᴰ
use collective_phase_control.Prelude.{
  ℕ, ◌≤◌, String, ◌≡◌, refl, sym, subst, ◌∙◌, ◌↔◌, ◌⊎◌, inl, inr, ⊎_elim, true, false, not, none,
  some, List, [], ◌∷◌, Memᴰ, arith, any, length, filter, Memᴰ-filter, Bool-cases, any_elim,
  any-false, ◌==◌, eq_iff,
}
use collective_phase_control.Ids.{elem, subset, intersects, to_set, sorted}
use collective_phase_control.Ids.Laws.{
  elem_iff, intersects_iff, subset_intro, subset_elim, Memᴰ-to_set, Memᴰ-sorted, Memᴰ-sorted_tuples,
}
use collective_phase_control.Ids.Unique.{IsUnique}
use collective_phase_control.Ids.Dict.{Dict, get, keys, values, value_of_get}
use collective_phase_control.Numbers.Fraction.{Fraction}
use collective_phase_control.Enumeration.Sets.{AreMinimal}
use collective_phase_control.Structural.{Transformation, flow_inputs, flow_outputs}
use collective_phase_control.Structural.Closure.{structural_closure, allowed_ids}
use collective_phase_control.Structural.Closure.Correct.{
  Producible, given, produced, structural_closure_correct,
}
use collective_phase_control.Structural.Siphons.{
  is_marked, is_unfed, unfed_loop, unfed_siphons, enumerate_minimal_siphons,
}
use collective_phase_control.Structural.Siphons.Enumerated.{
  IsSiphon, IsNonemptySiphon, enumerate_minimal_siphons_correct,
}

-- A siphon with no initial member never gets one.
pub siphon_stays_empty :
    (ts : Dict Transformation) (ids initial s : List String)
    → IsSiphon ts s
    → ((y : String) → Memᴰ y s → ¬ Memᴰ y initial)
    → {x : String} → Producible ts ids initial x
    → ¬ Memᴰ x s
siphon_stays_empty ts ids initial s siphon empty (given m) n = empty _ n m
siphon_stays_empty ts ids initial s siphon empty (produced i t m e h o) n =
    let (y, k, l) = siphon t (value_of_get i t ts e) (_, o, n) in
    siphon_stays_empty ts ids initial s siphon empty (h y k) l

module _ (markings : Dict Fraction) (supplied : List String) where
  -- a coordinate that is marked or supplied
  abbrev pub IsFed : String → Type 0
  IsFed x = (is_marked markings x ≡ true) ⊎ Memᴰ x supplied

  is_unfed_elim :
      (s : List String) → is_unfed markings supplied s ≡ true → (x : String) → Memᴰ x s → ¬ IsFed x
  unfolding is_unfed
  is_unfed_elim s h x m =
      ⊎_elim
        (λ marked.
          false≢true (sym (any-false (is_marked markings) x s (ground (arith, h)) m) ∙ marked))
        (λ n. false≢true (
          sym (any-false (λ y. elem y (to_set supplied)) x s (ground (arith, h)) m)
          ∙ (elem_iff x (to_set supplied)).1 ((Memᴰ-to_set x supplied).1 n)))

  is_unfed_intro :
      (s : List String)
      → ((x : String) → Memᴰ x s → ¬ IsFed x)
      → is_unfed markings supplied s ≡ true
  unfolding is_unfed
  is_unfed_intro s h = elim (Bool-cases (any (is_marked markings) s)) [
    | inl marked ↦ let (x, m, e) = any_elim _ s marked in absurd (h x m (inl e))
    | inr unmarked ↦ elim (Bool-cases (intersects s (to_set supplied))) [
      | inl met ↦
          let (x, m, n) = (intersects_iff s (to_set supplied)).0 met in
          absurd (h x m (inr ((Memᴰ-to_set x supplied).0 n)))
      | inr apart ↦ rw (unmarked, apart)
    ]
  ]

  unfed_loop_elim :
      (vs : List (List String)) (u : List String)
      → Memᴰ u (unfed_loop markings supplied vs)
      → (v : List String) × Memᴰ v vs
        × ((x : String) → Memᴰ x u ↔ Memᴰ x v)
        × ((x : String) → Memᴰ x v → ¬ IsFed x)
  unfolding unfed_loop
  unfed_loop_elim [] u m = absurd (Memᴰ.not-nil m)
  unfed_loop_elim (v ∷ vs) u m = elim (Bool-cases (is_unfed markings supplied (to_set v))) [
    | inl unfed ↦ elim (Memᴰ.cases_cons (rw unfed at m)) [
      | inl e ↦ (
        v,
        Memᴰ.head refl,
        λ x. rw e (
          λ k. (Memᴰ-to_set x v).0 ((Memᴰ-sorted x (to_set v)).0 k),
          λ k. (Memᴰ-sorted x (to_set v)).1 ((Memᴰ-to_set x v).1 k),
        ),
        λ x k. is_unfed_elim (to_set v) unfed x ((Memᴰ-to_set x v).1 k),
      )
      | inr n ↦ let (w, k, f, g) = unfed_loop_elim vs u n in (w, Memᴰ.tail k, f, g)
    ]
    | inr fed ↦ let (w, k, f, g) = unfed_loop_elim vs u (rw fed at m) in (w, Memᴰ.tail k, f, g)
  ]

  unfed_loop_intro :
      (vs : List (List String)) (v : List String)
      → Memᴰ v vs
      → ((x : String) → Memᴰ x v → ¬ IsFed x)
      → Memᴰ (sorted (to_set v)) (unfed_loop markings supplied vs)
  unfolding unfed_loop
  unfed_loop_intro [] v m h = absurd (Memᴰ.not-nil m)
  unfed_loop_intro (w ∷ vs) v m h = elim (Memᴰ.cases_cons m) [
    | inl e ↦
        let unfed = is_unfed_intro (to_set v) (λ x k. h x ((Memᴰ-to_set x v).0 k)) in
        rw (← e, unfed) (Memᴰ.head refl)
    | inr n ↦ elim (Bool-cases (is_unfed markings supplied (to_set w))) [
      | inl unfed ↦ rw unfed (Memᴰ.tail (unfed_loop_intro vs v n h))
      | inr fed ↦ rw fed (unfed_loop_intro vs v n h)
    ]
  ]

get_of_value {ℓ} :
    {V : Type ℓ} (v : V) (d : Dict V)
    → IsUnique (keys d)
    → Memᴰ v (values d)
    → (k : String) × Memᴰ k (keys d) × (get k d ≡ some v)
get_of_value v [] u m = absurd (Memᴰ.not-nil m)
get_of_value v ((j, w) ∷ d) u m = elim (Memᴰ.cases_cons m) [
  | inl e ↦ (j, Memᴰ.head refl, rw ((eq_iff j j).1 refl, e))
  | inr n ↦
      let (k, l, e) = get_of_value v d u.1 n in
      (
        k,
        Memᴰ.tail l,
        elim (Bool-cases (k == j)) [
          | inl same ↦ absurd (
              false≢true (
                sym u.0
                ∙ (elem_iff j (keys d)).1 (subst (λ z. Memᴰ z (keys d)) ((eq_iff k j).0 same) l)))
          | inr other ↦ rw other e
        ],
      )
]

module _ (ts : Dict Transformation) (coordinates : List String) (markings : Dict Fraction)
    (supplied initial : List String) (maximum : ℕ) (unique_ids : IsUnique (keys ts))
    (covered : (t : Transformation)
      → Memᴰ t (values ts)
      → subset (flow_inputs t) coordinates ≡ true)
    (bounded : length (sorted (to_set coordinates)) ≤ maximum)
    (fed : (x : String) → Memᴰ x coordinates → Memᴰ x initial ↔ IsFed markings supplied x) where
  abbrev reached : List String
  reached = (structural_closure ts initial none).value

  abbrev unfed : List (List String)
  unfed =
      unfed_siphons (enumerate_minimal_siphons ts coordinates maximum).value.values markings
        supplied

  abbrev unreached : List String
  unreached = filter (λ x. not (elem x reached)) coordinates

  minimal_siphons :
      AreMinimal
        (IsNonemptySiphon ts)
        coordinates
        (enumerate_minimal_siphons ts coordinates maximum).value.values
  minimal_siphons = (enumerate_minimal_siphons_correct ts coordinates maximum bounded).1

  all_allowed : (i : String) → Memᴰ i (keys ts) → Memᴰ i (allowed_ids ts none)
  unfolding allowed_ids
  all_allowed i m = (Memᴰ-sorted i (to_set (keys ts))).1 ((Memᴰ-to_set i (keys ts)).1 m)

  reached_step :
      (t : Transformation)
      → Memᴰ t (values ts)
      → ((y : String) → Memᴰ y (flow_inputs t) → Memᴰ y reached)
      → (x : String) → Memᴰ x (flow_outputs t)
      → Memᴰ x reached
  reached_step t m h x o =
      let (k, l, e) = get_of_value t ts unique_ids m in
      (structural_closure_correct ts initial none x).1 (
        produced k t (all_allowed k l) e
          (λ y n. (structural_closure_correct ts initial none y).0 (h y n)) o)

  Memᴰ-unreached : (x : String) → Memᴰ x unreached → Memᴰ x coordinates × (elem x reached ≡ false)
  Memᴰ-unreached x m = ground (arith, (Memᴰ-filter (λ y. not (elem y reached)) x coordinates).0 m)

  unreached-IsSiphon : IsSiphon ts unreached
  unreached-IsSiphon t m (x, o, n) = elim (Bool-cases (intersects (flow_inputs t) unreached)) [
    | inl met ↦ (intersects_iff (flow_inputs t) unreached).0 met
    | inr apart ↦ absurd (
        false≢true (
          sym (Memᴰ-unreached x n).1
          ∙ (elem_iff x reached).1 (reached_step t m (λ y i. available y i apart) x o)))
  ]
    where
      available :
          (y : String)
          → Memᴰ y (flow_inputs t)
          → intersects (flow_inputs t) unreached ≡ false
          → Memᴰ y reached
      available y i apart = elim (Bool-cases (elem y reached)) [
        | inl there ↦ (elem_iff y reached).0 there
        | inr gone ↦ absurd (
            false≢true (
              sym (any-false (λ z. elem z unreached) y (flow_inputs t) apart i)
              ∙ (elem_iff y unreached).1 (
                  (Memᴰ-filter (λ z. not (elem z reached)) y coordinates).1
                    (subset_elim (flow_inputs t) coordinates (covered t m) y i, rw gone))))
      ]

  -- Let the identifiers be distinct, the transformations read only coordinates, the coordinates be
  -- within the bound, and the initial states be those coordinates that are marked or supplied. Then
  -- an unfed siphon has a member, and each of its members is a coordinate that structural_closure
  -- does not reach.
  pub unfed_siphons_sound :
      (u : List String)
      → Memᴰ u unfed
      → ((x : String) × Memᴰ x u)
        × ((x : String) → Memᴰ x u → Memᴰ x coordinates × (¬ Memᴰ x reached))
  unfolding unfed_siphons
  unfed_siphons_sound u m =
      let vs = (enumerate_minimal_siphons ts coordinates maximum).value.values in
      let (v, k, same, starved) =
        unfed_loop_elim markings supplied vs u ((Memᴰ-sorted_tuples u _).0 m) in
      let (inside, (some_member, siphon)) = minimal_siphons.sound v k in
      let within = subset_elim v coordinates inside in
      (
        (some_member.0, (same some_member.0).1 some_member.1),
        λ x n. (
          within x ((same x).0 n),
          λ r.
              siphon_stays_empty ts (allowed_ids ts none) initial v siphon
                (λ y l i. starved y l ((fed y (within y l)).0 i))
                ((structural_closure_correct ts initial none x).0 r) ((same x).0 n),
        ),
      )

  -- Let the identifiers be distinct, the transformations read only coordinates, the coordinates be
  -- within the bound, and the initial states be those coordinates that are marked or supplied. If
  -- structural_closure does not reach some coordinate then unfed_siphons is not empty.
  pub unfed_siphons_complete :
      (x : String) → Memᴰ x coordinates → ¬ Memᴰ x reached → (u : List String) × Memᴰ u unfed
  unfolding unfed_siphons
  unfed_siphons_complete x m away =
      let vs = (enumerate_minimal_siphons ts coordinates maximum).value.values in
      let member = (Memᴰ-filter (λ z. not (elem z reached)) x coordinates).1 (m, missing) in
      let inside = subset_intro unreached coordinates (λ y l. (Memᴰ-unreached y l).0) in
      let (v, k, part) =
        minimal_siphons.complete unreached inside ((x, member), unreached-IsSiphon) in
      (
        sorted (to_set v),
        (Memᴰ-sorted_tuples _ _).1 (
            unfed_loop_intro markings supplied vs v k
              (λ y l f. starved y (subset_elim v unreached part y l) f)),
      )
    where
      missing : not (elem x reached) ≡ true
      missing = elim (Bool-cases (elem x reached)) [
        | inl there ↦ absurd (away ((elem_iff x reached).0 there))
        | inr gone ↦ rw gone
      ]

      starved : (y : String) → Memᴰ y unreached → ¬ IsFed markings supplied y
      starved y l f =
          let (c, gone) = Memᴰ-unreached y l in
          false≢true (
            sym gone
            ∙ (elem_iff y reached).1
                ((structural_closure_correct ts initial none y).1 (given ((fed y c).1 f))))

  -- Let the identifiers be distinct, the transformations read only coordinates, the coordinates be
  -- within the bound, and the initial states be those coordinates that are marked or supplied. Then
  -- there is no unfed siphon exactly when structural_closure reaches every coordinate.
  pub unfed_siphons_decide : (unfed ≡ []) ↔ ((x : String) → Memᴰ x coordinates → Memᴰ x reached)
  unfed_siphons_decide = (
    λ none_unfed x m. elim (Bool-cases (elem x reached)) [
      | inl there ↦ (elem_iff x reached).0 there
      | inr gone ↦
          let (u, k) =
            unfed_siphons_complete x m (λ r. false≢true (sym gone ∙ (elem_iff x reached).1 r)) in
          absurd (Memᴰ.not-nil (subst (λ z. Memᴰ u z) none_unfed k))
    ],
    λ all_reached. no_member unfed (λ u m. absurd (contradiction u m all_reached)),
  )
    where
      no_member : (vs : List (List String)) → ((u : List String) → Memᴰ u vs → ⊥) → vs ≡ []
      no_member [] h = refl
      no_member (v ∷ vs) h = absurd (h v (Memᴰ.head refl))

      contradiction :
          (u : List String)
          → Memᴰ u unfed
          → ((x : String) → Memᴰ x coordinates → Memᴰ x reached)
          → ⊥
      contradiction u m all_reached =
          let ((x, n), h) = unfed_siphons_sound u m in (h x n).1 (all_reached x (h x n).0)
