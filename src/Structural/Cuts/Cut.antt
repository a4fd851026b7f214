-- ===== src/Structural/Cuts/Cut.antt =====
-- What a cut is, the values of enumerate_minimal_cut_sets, and cuts against enabling sets.
use mathlib.Core.Bool.{false≢true}
use mathlib.Core.List.Memᴰ
use collective_phase_control.Prelude.{
  ℕ, ◌≤◌, String, ◌≡◌, refl, sym, ◌∙◌, ◌⊎◌, inl, inr, true, false, none, some, List, [], ◌∷◌, Memᴰ,
  arith, length, filter, ltb, Bool-cases,
}
use collective_phase_control.Ids.{elem, subset, sorted, diff, intersects}
use collective_phase_control.Ids.Laws.{Memᴰ-sorted, Memᴰ-diff, elem_iff, intersects_iff}
use collective_phase_control.Ids.Unique.{IsUnique, sorted-IsUnique}
use collective_phase_control.Ids.Dict.{Dict, keys}
use collective_phase_control.Enumeration.Smallest.{Memᴰ-selection}
use collective_phase_control.Enumeration.Sets.{AreMinimal, AreMinimal-over, search_AreMinimal}
use collective_phase_control.Structural.{Transformation}
use collective_phase_control.Structural.Closure.{allowed_ids}
use collective_phase_control.Structural.Cuts.{reaches, cuts, cut_search, enumerate_minimal_cut_sets}
use collective_phase_control.Structural.Cuts.Enabled.{
  Enables, Enables-mono, reaches_iff, Memᴰ-allowed, Memᴰ-all_allowed,
}
use collective_phase_control.Structural.Cuts.Enablement.{IsEnabling}

empty_or {ℓ} : {A : Type ℓ} (l : List A) → (1 ≤ length l) ⊎ ((x : A) → ¬ Memᴰ x l)
empty_or [] = inr (λ x m. Memᴰ.not-nil m)
empty_or (y ∷ l) = inl (omega arith)

module _ (initial targets : List String) (ts : Dict Transformation) where
  -- the identifiers left when those of `s` are taken away
  abbrev pub without : List String → List String
  without s = allowed_ids ts (some (diff (sorted (keys ts)) s))

  -- with the transformations of `s` taken away some target is not derived
  abbrev pub IsCut : List String → Type 0
  IsCut s = ¬ Enables initial targets ts (without s)

  Memᴰ-without :
      (s : List String) (i : String) → Memᴰ i (keys ts) → elem i s ≡ false → Memᴰ i (without s)
  Memᴰ-without s i m h =
      (Memᴰ-allowed ts (diff (sorted (keys ts)) s) i).1
        ((Memᴰ-diff i (sorted (keys ts)) s).1 ((Memᴰ-sorted i (keys ts)).1 m, h), m)

  without_elim :
      (s : List String) (i : String) → Memᴰ i (without s) → Memᴰ i (keys ts) × (elem i s ≡ false)
  without_elim s i m =
      let (d, k) = (Memᴰ-allowed ts (diff (sorted (keys ts)) s) i).0 m in
      (k, ((Memᴰ-diff i (sorted (keys ts)) s).0 d).1)

  not_elem_of :
      (v w : List String) (i : String) → (Memᴰ i w → Memᴰ i v) → elem i v ≡ false → elem i w ≡ false
  not_elem_of v w i f h = elim (Bool-cases (elem i w)) [
    | inl there ↦ absurd (false≢true (sym h ∙ (elem_iff i v).1 (f ((elem_iff i w).0 there))))
    | inr gone ↦ gone
  ]

  -- what contains a cut is a cut
  pub IsCut-mono : (v w : List String) → ((x : String) → Memᴰ x v → Memᴰ x w) → IsCut v → IsCut w
  IsCut-mono v w f cut enabled = cut (
      Enables-mono initial targets ts (without w) (without v)
        (λ i m. let (k, h) = without_elim w i m in Memᴰ-without v i k (not_elem_of w v i (f i) h))
        enabled)

  cuts_iff_to : (s : List String) → (cuts initial targets ts s).value ≡ true → IsCut s
  unfolding cuts
  cuts_iff_to s h enabled =
      let good = (reaches_iff initial targets ts (some (diff (sorted (keys ts)) s))).1 enabled in cc

  cuts_of : (s : List String) → IsCut s → (cuts initial targets ts s).value ≡ true
  unfolding cuts
  cuts_of s cut =
      elim (Bool-cases (reaches initial targets ts (some (diff (sorted (keys ts)) s))).value) [
        | inl good ↦ absurd (cut ((reaches_iff initial targets ts _).0 good))
        | inr bad ↦ rw bad
      ]

  all_IsCut : ¬ Enables initial targets ts (allowed_ids ts none) → IsCut []
  all_IsCut h enabled = h (
      Enables-mono initial targets ts (without []) (allowed_ids ts none)
        (λ i m. (Memᴰ-all_allowed ts i).1 (without_elim [] i m).0) enabled)

  -- Where all transformations together reach the targets, a cut names one of them.
  cut_nonempty :
      Enables initial targets ts (allowed_ids ts none)
      → (w : List String) → subset w (sorted (keys ts)) ≡ true
      → IsCut w
      → 1 ≤ length (filter (λ x. elem x w) (sorted (keys ts)))
  cut_nonempty enabled w s cut = elim (empty_or (filter (λ x. elem x w) (sorted (keys ts)))) [
    | inl some_left ↦ some_left
    | inr nothing ↦ absurd (
        cut (
          Enables-mono initial targets ts (allowed_ids ts none) (without w)
            (λ i m. Memᴰ-without w i ((Memᴰ-all_allowed ts i).0 m) (free i nothing)) enabled))
  ]
    where
      free :
          (i : String)
          → ((x : String) → ¬ Memᴰ x (filter (λ y. elem y w) (sorted (keys ts))))
          → elem i w ≡ false
      free i nothing = elim (Bool-cases (elem i w)) [
        | inl there ↦
            absurd
              (nothing i ((Memᴰ-selection (sorted (keys ts)) w s i).1 ((elem_iff i w).0 there)))
        | inr gone ↦ gone
      ]

  no-IsCut_needed : IsCut [] → AreMinimal IsCut (keys ts) ([] ∷ [])
  no-IsCut_needed cut = record {
    sound = λ v m. rw (Memᴰ.eq_of_singleton m) (refl, cut);
    minimal = λ v w m s p. rw (Memᴰ.eq_of_singleton m);
    complete = λ w s p. ([], Memᴰ.head refl, refl);
  }

  searched_cuts :
      IsUnique (keys ts)
      → Enables initial targets ts (allowed_ids ts none)
      → AreMinimal IsCut (keys ts) (cut_search initial targets ts (sorted (keys ts))).value.values
  unfolding cut_search
  searched_cuts u enabled =
      AreMinimal-over IsCut (sorted (keys ts)) (keys ts) _
        (λ x. ((Memᴰ-sorted x (keys ts)).0, (Memᴰ-sorted x (keys ts)).1))
        (search_AreMinimal (cuts initial targets ts) IsCut 1 (sorted (keys ts))
          (sorted-IsUnique (keys ts) u) (λ v w e. IsCut-mono v w (λ x. (e x).0))
          (λ v _ _. cuts_iff_to v) cuts_of
          (λ v w e good. cuts_of w (IsCut-mono v w (λ x. (e x).0) (cuts_iff_to v good)))
          (cut_nonempty enabled))

  -- For distinct identifiers, within the bound on the number of transformations, the values of
  -- enumerate_minimal_cut_sets are the minimal sets of transformations without which some target is not derived, also where the
  -- targets are out of reach from the start.
  pub enumerate_minimal_cut_sets_correct :
      (maximum : ℕ)
      → IsUnique (keys ts)
      → length (sorted (keys ts)) ≤ maximum
      → AreMinimal IsCut
          (keys ts)
          (enumerate_minimal_cut_sets initial targets ts maximum).value.values
  unfolding enumerate_minimal_cut_sets
  enumerate_minimal_cut_sets_correct maximum u h =
      let below : ltb maximum (length (sorted (keys ts))) ≡ false = ground arith in
      elim (Bool-cases (reaches initial targets ts none).value) [
        | inl good ↦
            rw (below, good) (searched_cuts u ((reaches_iff initial targets ts none).0 good))
        | inr bad ↦
            rw (below, bad)
              (no-IsCut_needed
                (all_IsCut (λ e. false≢true (sym bad ∙ (reaches_iff initial targets ts none).1 e))))
      ]

  -- Every cut meets every enabling set: a cut that misses one leaves it in place.
  pub cut_meets_enabling :
      (c e : List String) → IsCut c → IsEnabling initial targets ts e → intersects c e ≡ true
  cut_meets_enabling c e cut enabling = elim (Bool-cases (intersects c e)) [
    | inl met ↦ met
    | inr apart ↦ absurd (
        cut (
          Enables-mono initial targets ts (allowed_ids ts (some e)) (without c)
            (λ i m. let (a, k) = (Memᴰ-allowed ts e i).0 m in Memᴰ-without c i k (free i a apart))
            enabling))
  ]
    where
      free : (i : String) → Memᴰ i e → intersects c e ≡ false → elem i c ≡ false
      free i a apart = elim (Bool-cases (elem i c)) [
        | inl there ↦
            absurd (false≢true (sym apart ∙ (intersects_iff c e).1 (i, (elem_iff i c).0 there, a)))
        | inr gone ↦ gone
      ]
