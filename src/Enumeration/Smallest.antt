-- ===== src/Enumeration/Smallest.antt =====
-- Candidates by size come in a growing order, and the search over them keeps the smallest subsets
-- that pass.
use mathlib.Core.List.Memᴰ
use collective_phase_control.Prelude.{
  ℕ, zero, suc, ◌-◌, ◌≤◌, String, ◌≡◌, refl, inl, inr, ⊎_elim, Bool, true, List, [], ◌∷◌, ◌++◌,
  Memᴰ, arith, length, filter, Cost, Memᴰ-filter,
}
use collective_phase_control.Ids.{elem, subset}
use collective_phase_control.Ids.Laws.{elem_iff, subset_intro, subset_elim}
use collective_phase_control.Ids.Unique.{IsUnique, subset_flip}
use collective_phase_control.Enumeration.{combinations, candidates, collect}
use collective_phase_control.Enumeration.Subsets.{
  IsPick, combinations-IsPick, candidates-IsPick, filter-combinations, candidates_of_size,
}
use collective_phase_control.Enumeration.Minimal.{
  IsGrowing, collect_sound, collect-Covers, collect-minimal,
}

abbrev Family : Type 0
Family = List (List String)

-- a later pick that is no shorter is no proper part
flip_picks :
    (xs : List String) (k m : ℕ) (c w : List String)
    → IsUnique xs
    → k ≤ m
    → IsPick k xs c
    → IsPick m xs w
    → subset w c ≡ true
    → subset c w ≡ true
flip_picks xs k m c w u h p q s =
    subset_flip w c (q.unique u) s (omega (arith, p.size_eq, q.size_eq))

IsGrowing-append :
    (cs ds : Family)
    → IsGrowing cs
    → IsGrowing ds
    → ((c w : List String) → Memᴰ c cs → Memᴰ w ds → subset w c ≡ true → subset c w ≡ true)
    → IsGrowing (cs ++ ds)
IsGrowing-append [] ds g h x = h
IsGrowing-append (c ∷ cs) ds g h x = (
  λ w m. ⊎_elim (g.0 w) (x c w (Memᴰ.head refl)) (Memᴰ.append_cases cs m),
  IsGrowing-append cs ds g.1 h (λ a w m. x a w (Memᴰ.tail m)),
)

-- picks of one size are in a growing order however they are listed
IsGrowing-same :
    (xs : List String) (k : ℕ) (cs : Family)
    → IsUnique xs
    → ((c : List String) → Memᴰ c cs → IsPick k xs c)
    → IsGrowing cs
IsGrowing-same xs k [] u h = tt
IsGrowing-same xs k (c ∷ cs) u h = (
  λ w m. flip_picks xs k k c w u (omega arith) (h c (Memᴰ.head refl)) (h w (Memᴰ.tail m)),
  IsGrowing-same xs k cs u (λ w m. h w (Memᴰ.tail m)),
)

pub candidates-IsGrowing :
    (size sizes : ℕ) (xs : List String) → IsUnique xs → IsGrowing (candidates size sizes xs)
unfolding candidates
candidates-IsGrowing size zero xs u = tt
candidates-IsGrowing size (suc sizes) xs u =
    IsGrowing-append (combinations size xs) (candidates (suc size) sizes xs)
      (IsGrowing-same xs size _ u (combinations-IsPick size xs))
      (candidates-IsGrowing (suc size) sizes xs u)
      λ c w m n.
        let (k, h, q) = candidates-IsPick (suc size) sizes xs w n in
        flip_picks xs size k c w u (omega arith) (combinations-IsPick size xs c m) q

length-filter-le : (p : String → Bool) (xs : List String) → length (filter p xs) ≤ length xs
length-filter-le p [] = omega arith
length-filter-le p (x ∷ xs) = ground (arith, length-filter-le p xs)

-- The members of a set that stand in `xs`, in the order of `xs`, are a candidate.
pub selection_mem :
    (size : ℕ) (xs s : List String)
    → size ≤ length (filter (λ x. elem x s) xs)
    → Memᴰ (filter (λ x. elem x s) xs) (candidates size (suc (length xs) - size) xs)
selection_mem size xs s h =
    candidates_of_size (length (filter (λ x. elem x s) xs)) size (suc (length xs) - size) xs _
      (filter-combinations (λ x. elem x s) xs) h
      (omega (arith, length-filter-le (λ x. elem x s) xs))

pub Memᴰ-selection :
    (xs s : List String)
    → subset s xs ≡ true
    → (x : String)
    → (Memᴰ x (filter (λ y. elem y s) xs) → Memᴰ x s)
      × (Memᴰ x s → Memᴰ x (filter (λ y. elem y s) xs))
Memᴰ-selection xs s h x = (
  λ m. (elem_iff x s).0 (((Memᴰ-filter (λ y. elem y s) x xs).0 m).1),
  λ m. (Memᴰ-filter (λ y. elem y s) x xs).1 (subset_elim s xs h x m, (elem_iff x s).1 m),
)

-- What a search over the candidates of `size` and more shows about a test that sees a set only
-- through its members.
pub record IsSmallest (test : List String → Cost Bool) (xs : List String) (size : ℕ) (kept : Family)
    : Type 0 where
  -- each kept set lies in `xs`, is not below the first size, and passes
  pub sound :
      (v : List String)
      → Memᴰ v kept
      → (subset v xs ≡ true) × (size ≤ length v) × ((test v).value ≡ true)
  -- no proper part of a kept set passes
  pub minimal :
      (v w : List String)
      → Memᴰ v kept
      → subset w v ≡ true
      → size ≤ length (filter (λ x. elem x w) xs)
      → (test w).value ≡ true
      → subset v w ≡ true
  -- every set in `xs` that passes contains a kept set
  pub complete :
      (w : List String)
      → subset w xs ≡ true
      → size ≤ length (filter (λ x. elem x w) xs)
      → (test w).value ≡ true
      → (v : List String) × Memᴰ v kept × (subset v w ≡ true)

abbrev pub IsExtensional : (List String → Cost Bool) → Type 0
IsExtensional test =
    (v w : List String)
    → ((x : String) → (Memᴰ x v → Memᴰ x w) × (Memᴰ x w → Memᴰ x v))
    → (test v).value ≡ true
    → (test w).value ≡ true

module _ (test : List String → Cost Bool) (xs : List String) (size : ℕ) where
  abbrev kept_by_search : Family
  kept_by_search = (collect test [] (candidates size (suc (length xs) - size) xs)).value

  pick_within :
      (v : List String)
      → Memᴰ v (candidates size (suc (length xs) - size) xs)
      → (subset v xs ≡ true) × (size ≤ length v)
  pick_within v m =
      let (k, h, p) = candidates-IsPick size (suc (length xs) - size) xs v m in
      (subset_intro v xs p.inside, omega (arith, p.size_eq))

  kept_sound :
      (v : List String)
      → Memᴰ v kept_by_search
      → Memᴰ v (candidates size (suc (length xs) - size) xs) × ((test v).value ≡ true)
  kept_sound v m = elim (collect_sound test [] _ v m) [
    | inl n ↦ absurd (Memᴰ.not-nil n)
    | inr r ↦ r
  ]

  selection_passes :
      IsExtensional test
      → (w : List String) → subset w xs ≡ true
      → (test w).value ≡ true
      → (test (filter (λ x. elem x w) xs)).value ≡ true
  selection_passes ext w s good = ext w _ (λ x. let (f, g) = Memᴰ-selection xs w s x in (g, f)) good

  pub search_IsSmallest : IsUnique xs → IsExtensional test → IsSmallest test xs size kept_by_search
  search_IsSmallest u ext = record {
    sound = λ v m.
        let (n, good) = kept_sound v m in
        let (inside, big) = pick_within v n in (inside, big, good);
    minimal = λ v w m s z good.
        let (n, _) = kept_sound v m in
        let (inside, _) = pick_within v n in
        let w_in = subset_intro w xs (λ x k. subset_elim v xs inside x (subset_elim w v s x k)) in
        let part =
          collect-minimal test _ (candidates-IsGrowing size _ xs u) v (filter (λ x. elem x w) xs) m
            (selection_mem size xs w z) (selection_passes ext w w_in good)
            (subset_intro _ v (λ x k. subset_elim w v s x ((Memᴰ-selection xs w w_in x).0 k))) in
        subset_intro v w (λ x k. (Memᴰ-selection xs w w_in x).0 (subset_elim v _ part x k));
    complete = λ w s z good.
        let (v, m, h) =
          collect-Covers test [] _ _ (selection_mem size xs w z) (selection_passes ext w s good) in
        (v, m, subset_intro v w (λ x k. (Memᴰ-selection xs w s x).0 (subset_elim v _ h x k)));
  }
