-- ===== src/Structural/Raf/Maximal.antt =====
-- What a generalized RAF is, and the candidates that the enumeration keeps.
use mathlib.Core.Bool.{false≢true}
use mathlib.Core.List.Memᴰ
use native.Mathlib.Decide.{dec_lt}
use collective_phase_control.Prelude.{
  ℕ, zero, suc, ◌+◌, ◌-◌, ◌≤◌, ◌<◌, String, ◌≡◌, refl, sym, ◌∙◌, ◌↔◌, inl, inr, Bool, true, false,
  not, ◌&&◌, some, List, [], ◌∷◌, map, Memᴰ, arith, length, any, filter, ltb, Bool-cases, any_intro,
  any_elim, all_intro, all_elim, and_iff, Memᴰ-filter, any-false,
}
use collective_phase_control.Ids.{elem, subset, sorted, sorted_tuples}
use collective_phase_control.Ids.Laws.{
  subset_intro, subset_elim, subset_trans, subset_refl, Memᴰ-sorted, Memᴰ-sorted_tuples,
}
use collective_phase_control.Ids.Unique.{
  IsUnique, sorted-IsUnique, subset_flip, length-le_of_inside,
}
use collective_phase_control.Ids.Dict.{Dict, get, keys}
use collective_phase_control.Enumeration.{candidates}
use collective_phase_control.Enumeration.Subsets.{candidates-IsPick, Memᴰ-map, Memᴰ-map_elim}
use collective_phase_control.Enumeration.Smallest.{selection_mem, Memᴰ-selection}
use collective_phase_control.Enumeration.Sets.{SameMembers, nonempty_length}
use collective_phase_control.Structural.{Transformation}
use collective_phase_control.Structural.Closure.Correct.{Producible, Producible-mono}
use collective_phase_control.Structural.Raf.{
  is_supported_id, raf_closure, raf_test, valid_rafs, maximal_of, exact_generalized_generative_raf,
}
use collective_phase_control.Structural.Raf.Closed.{raf_closure_correct}
use collective_phase_control.Structural.Raf.Support.{Supported, Supported-mono, is_supported_id_iff}

module _ (ts : Dict Transformation) (food evidence authority : List String) where
  -- A generalized RAF: a nonempty set of transformations each of which is supported by the states
  -- that the set itself derives from the food.
  pub record IsRaf (s : List String) : Type 0 where
    pub member : (i : String) × Memᴰ i s
    pub supported :
        (i : String)
        → Memᴰ i s
        → (t : Transformation) × (get i ts ≡ some t)
          × Supported evidence authority (Producible ts s food) t

  IsRaf-of : (s : List String) → (raf_test ts food evidence authority s).value ≡ true → IsRaf s
  unfolding raf_test
  IsRaf-of [] h = absurd (false≢true h)
  IsRaf-of (j ∷ s) h = record {
    member = (j, Memᴰ.head refl);
    supported = λ i m.
        (is_supported_id_iff evidence authority (raf_closure ts food (j ∷ s)).value
            (Producible ts (j ∷ s) food) (raf_closure_correct ts food (j ∷ s)) ts i).0
          (all_elim (is_supported_id ts evidence authority (raf_closure ts food (j ∷ s)).value) i
            (j ∷ s) h m);
  }

  raf_test_of : (s : List String) → IsRaf s → (raf_test ts food evidence authority s).value ≡ true
  unfolding raf_test
  raf_test_of [] h = absurd (Memᴰ.not-nil h.member.1)
  raf_test_of (j ∷ s) h =
      all_intro (is_supported_id ts evidence authority (raf_closure ts food (j ∷ s)).value) (j ∷ s)
        λ i m.
          (is_supported_id_iff evidence authority (raf_closure ts food (j ∷ s)).value
              (Producible ts (j ∷ s) food) (raf_closure_correct ts food (j ∷ s)) ts i).1
            (h.supported i m)

  -- The test of the enumeration decides whether a set of transformations is a generalized RAF.
  pub raf_test_iff :
      (s : List String) → ((raf_test ts food evidence authority s).value ≡ true) ↔ IsRaf s
  raf_test_iff s = (IsRaf-of s, raf_test_of s)

  pub IsRaf-same : (v w : List String) → SameMembers v w → IsRaf v → IsRaf w
  IsRaf-same v w e h = record {
    member = (h.member.0, (e h.member.0).0 h.member.1);
    supported = λ i m.
        let (t, k, s) = h.supported i ((e i).1 m) in
        (
          t,
          k,
          Supported-mono evidence authority (Producible ts v food) (Producible ts w food) t
              (λ x. Producible-mono ts v w food food (λ y. (e y).0) (λ y n. n))
              (λ x n p.
                s.uninhibited x n (Producible-mono ts w v food food (λ y. (e y).1) (λ y n. n) p))
              s,
        );
  }

  valid_rafs-eq-filter :
      (cs : List (List String))
      → (valid_rafs ts food evidence authority cs).value
        ≡ filter (λ c. (raf_test ts food evidence authority c).value) cs
  unfolding valid_rafs
  valid_rafs-eq-filter [] = refl
  valid_rafs-eq-filter (d ∷ cs) = rw (valid_rafs-eq-filter cs)

  -- `c` is a proper part of a valid candidate
  abbrev is_proper_part : List (List String) → List String → Bool
  is_proper_part valid c = any (λ other. subset c other && not (subset other c)) valid

  maximal_of-eq-filter :
      (valid cs : List (List String))
      → maximal_of ts food evidence authority valid cs
        ≡ filter (λ c. not (is_proper_part valid c)) cs
  unfolding maximal_of
  maximal_of-eq-filter valid [] = refl
  maximal_of-eq-filter valid (c ∷ cs) = elim (Bool-cases (is_proper_part valid c)) [
    | inl part ↦ rw (part, maximal_of-eq-filter valid cs)
    | inr top ↦ rw (top, maximal_of-eq-filter valid cs)
  ]

  abbrev AreBounded : List (List String) → ℕ → Type 0
  AreBounded valid n = (c : List String) → Memᴰ c valid → IsUnique c × (length c ≤ n)

  longer :
      (c o : List String)
      → IsUnique c
      → (subset c o && not (subset o c)) ≡ true
      → length c < length o
  longer c o u h = elim (dec_lt (length c) (length o)) [
    | yes l ↦ l
    | no g ↦
        absurd (
          false≢true
            (sym (ground (arith, h)) ∙ subset_flip c o u (ground (arith, h)) (omega arith)))
  ]

  -- Going up from a candidate through larger valid ones ends at a maximal one.
  climb :
      (fuel n : ℕ) (valid : List (List String)) (c : List String)
      → AreBounded valid n
      → n ≤ length c + fuel
      → Memᴰ c valid
      → (m : List String) × Memᴰ m valid × (is_proper_part valid m ≡ false) × (subset c m ≡ true)
  climb zero n valid c b h k = elim (Bool-cases (is_proper_part valid c)) [
    | inr top ↦ (c, k, top, subset_refl c)
    | inl part ↦
        let (o, l, p) = any_elim (λ o. subset c o && not (subset o c)) valid part in
        absurd (omega (arith, longer c o (b c k).0 p, (b o l).1))
  ]
  climb (suc fuel) n valid c b h k = elim (Bool-cases (is_proper_part valid c)) [
    | inr top ↦ (c, k, top, subset_refl c)
    | inl part ↦
        let (o, l, p) = any_elim (λ o. subset c o && not (subset o c)) valid part in
        let (m, q, t, s) = climb fuel n valid o b (omega (arith, longer c o (b c k).0 p)) l in
        (m, q, t, subset_trans c o m (((and_iff (subset c o) (not (subset o c))).0 p).0) s)
  ]

  abbrev identifiers : List String
  identifiers = sorted (keys ts)

  abbrev all_candidates : List (List String)
  all_candidates = candidates 1 (suc (length identifiers) - 1) identifiers

  abbrev valid : List (List String)
  valid = (valid_rafs ts food evidence authority all_candidates).value

  Memᴰ-valid : (c : List String) → Memᴰ c valid ↔ (Memᴰ c all_candidates × IsRaf c)
  Memᴰ-valid c = rw (valid_rafs-eq-filter all_candidates) (
    λ m. let (k, good) = (Memᴰ-filter _ c all_candidates).0 m in (k, (raf_test_iff c).0 good),
    λ (k, raf). (Memᴰ-filter _ c all_candidates).1 (k, (raf_test_iff c).1 raf),
  )

  -- The kept candidates: RAFs, no RAF over the identifiers properly contains one, and every RAF
  -- over the identifiers lies in one.
  pub record AreMaximalRafs (vs : List (List String)) : Type 0 where
    pub sound : (v : List String) → Memᴰ v vs → (subset v (keys ts) ≡ true) × IsRaf v
    pub maximal :
        (v w : List String)
        → Memᴰ v vs
        → subset w (keys ts) ≡ true
        → IsRaf w
        → subset v w ≡ true
        → subset w v ≡ true
    pub complete :
        (w : List String)
        → subset w (keys ts) ≡ true
        → IsRaf w
        → (v : List String) × Memᴰ v vs × (subset w v ≡ true)

  module _ (unique_ids : IsUnique (keys ts)) where
    valid_bounded : AreBounded valid (length identifiers)
    valid_bounded c m =
        let (_, _, p) = candidates-IsPick 1 _ identifiers c ((Memᴰ-valid c).0 m).0 in
        let u = p.unique (sorted-IsUnique (keys ts) unique_ids) in
        (u, length-le_of_inside c identifiers u p.inside)

    -- a RAF over the identifiers, in their order, is a valid candidate
    raf_selection :
        (w : List String)
        → subset w identifiers ≡ true
        → IsRaf w
        → Memᴰ (filter (λ x. elem x w) identifiers) valid
    raf_selection w s raf =
        let (i, m) = raf.member in
        (Memᴰ-valid (filter (λ x. elem x w) identifiers)).1 (
          selection_mem 1 identifiers w
              (nonempty_length _ i ((Memᴰ-selection identifiers w s i).1 m)),
          IsRaf-same w _ (λ x. let (f, g) = Memᴰ-selection identifiers w s x in (g, f)) raf,
        )

    Memᴰ-maximal :
        (c : List String)
        → Memᴰ c (maximal_of ts food evidence authority valid valid)
          ↔ (Memᴰ c valid × (is_proper_part valid c ≡ false))
    Memᴰ-maximal c =
        rw (maximal_of-eq-filter valid valid)
          (ground (arith, Memᴰ-filter (λ d. not (is_proper_part valid d)) c valid))

    maximal_AreMaximalRafs :
        AreMaximalRafs
          (sorted_tuples (map sorted (maximal_of ts food evidence authority valid valid)))
    maximal_AreMaximalRafs = record {
      sound = λ v m.
          let (c, n, e) = from_values v m in
          let (k, _) = (Memᴰ-maximal c).0 n in
          let (_, raf) = (Memᴰ-valid c).0 k in
          rw e (
            subset_intro (sorted c) (keys ts) (λ x l. in_keys c k x ((Memᴰ-sorted x c).0 l)),
            IsRaf-same c (sorted c) (same_sorted c) raf,
          );
      maximal = λ v w m s raf part.
          let (c, n, e) = from_values v m in
          let (k, top) = (Memᴰ-maximal c).0 n in
          let w_in =
            subset_intro w identifiers
              (λ x l. (Memᴰ-sorted x (keys ts)).1 (subset_elim w (keys ts) s x l)) in
          let same = Memᴰ-selection identifiers w w_in in
          let c_in = subset_intro c (filter (λ x. elem x w) identifiers) (λ x l.
            (same x).1 (subset_elim (sorted c) w (rw e at part) x ((Memᴰ-sorted x c).1 l))) in
          let not_proper =
            any-false (λ o. subset c o && not (subset o c)) _ valid top
              (raf_selection w w_in raf) in
          rw e (
            subset_intro w (sorted c) (λ x l.
              (Memᴰ-sorted x c).1
                (subset_elim _ c (flipped c _ c_in not_proper) x ((same x).1 l))));
      complete = λ w s raf.
          let w_in =
            subset_intro w identifiers
              (λ x l. (Memᴰ-sorted x (keys ts)).1 (subset_elim w (keys ts) s x l)) in
          let (c, k, top, part) =
            climb (length identifiers) (length identifiers) valid
              (filter (λ x. elem x w) identifiers) valid_bounded (omega arith)
              (raf_selection w w_in raf) in
          (
            sorted c,
            (Memᴰ-sorted_tuples (sorted c) _).1 (Memᴰ-map sorted c _ ((Memᴰ-maximal c).1 (k, top))),
            subset_intro w (sorted c) (λ x l.
                (Memᴰ-sorted x c).1
                  (subset_elim _ c part x ((Memᴰ-selection identifiers w w_in x).1 l))),
          );
    }
      where
        from_values :
            (v : List String)
            → Memᴰ v
                (sorted_tuples (map sorted (maximal_of ts food evidence authority valid valid)))
            → (c : List String) × Memᴰ c (maximal_of ts food evidence authority valid valid)
              × (v ≡ sorted c)
        from_values v m = Memᴰ-map_elim sorted v _ ((Memᴰ-sorted_tuples v _).0 m)

        in_keys : (c : List String) → Memᴰ c valid → (x : String) → Memᴰ x c → Memᴰ x (keys ts)
        in_keys c k x l =
            let (_, _, p) = candidates-IsPick 1 _ identifiers c ((Memᴰ-valid c).0 k).0 in
            (Memᴰ-sorted x (keys ts)).0 (p.inside x l)

        same_sorted : (c : List String) → SameMembers c (sorted c)
        same_sorted c x = ((Memᴰ-sorted x c).1, (Memᴰ-sorted x c).0)

        flipped :
            (c o : List String)
            → subset c o ≡ true
            → (subset c o && not (subset o c)) ≡ false
            → subset o c ≡ true
        flipped c o h k = ground (arith, h, k)

    -- For distinct identifiers, within the bound on the number of transformations, maximal_rafs holds
    -- the maximal generalized RAFs: RAFs over the identifiers, none properly inside another RAF, and one around every RAF.
    pub maximal_rafs_correct :
        (maximum : ℕ)
        → length (sorted (keys ts)) ≤ maximum
        → AreMaximalRafs
            (exact_generalized_generative_raf ts food evidence authority maximum).value.maximal_rafs
    unfolding exact_generalized_generative_raf
    maximal_rafs_correct maximum h =
        let below : ltb maximum (length identifiers) ≡ false = ground arith in
        rw below maximal_AreMaximalRafs

    -- For distinct identifiers, within the bound on the number of transformations, full_set_is_raf
    -- says whether the set of all transformations is a generalized RAF.
    pub full_set_is_raf_correct :
        (maximum : ℕ)
        → length (sorted (keys ts)) ≤ maximum
        → ((exact_generalized_generative_raf ts food evidence authority
              maximum).value.full_set_is_raf
            ≡ true)
          ↔ IsRaf (keys ts)
    unfolding exact_generalized_generative_raf
    full_set_is_raf_correct maximum h =
        let below : ltb maximum (length identifiers) ≡ false = ground arith in
        rw below (
          λ found.
              let (c, k, e) =
                any_elim (λ c. subset c identifiers && subset identifiers c) valid found in
              let (f, g) = (and_iff (subset c identifiers) (subset identifiers c)).0 e in
              IsRaf-same c (keys ts)
                (λ x. (
                  λ m. (Memᴰ-sorted x (keys ts)).0 (subset_elim c identifiers f x m),
                  λ m. subset_elim identifiers c g x ((Memᴰ-sorted x (keys ts)).1 m),
                ))
                ((Memᴰ-valid c).0 k).1,
          λ raf.
              let full =
                IsRaf-same (keys ts) identifiers
                  (λ x. ((Memᴰ-sorted x (keys ts)).1, (Memᴰ-sorted x (keys ts)).0)) raf in
              let same = Memᴰ-selection identifiers identifiers (subset_refl identifiers) in
              any_intro (λ c. subset c identifiers && subset identifiers c) _ valid
                (raf_selection identifiers (subset_refl identifiers) full)
                ((and_iff _ _).1 (
                  subset_intro _ identifiers (λ x. (same x).0),
                  subset_intro identifiers _ (λ x. (same x).1),
                )),
        )
