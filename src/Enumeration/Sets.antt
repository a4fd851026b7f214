-- ===== src/Enumeration/Sets.antt =====
-- The outcome of the search in terms of a property of sets, for the three analyses to use.
use mathlib.Core.List.Memᴰ
use collective_phase_control.Prelude.{
  ℕ, suc, ◌-◌, ◌≤◌, String, ◌≡◌, refl, Bool, true, List, [], ◌∷◌, map, Memᴰ, arith, length, filter,
  Cost,
}
use collective_phase_control.Ids.{elem, subset, sorted, to_set}
use collective_phase_control.Ids.Laws.{subset_intro, subset_elim, Memᴰ-sorted, Memᴰ-to_set}
use collective_phase_control.Ids.Unique.{IsUnique}
use collective_phase_control.Enumeration.{candidates, collect}
use collective_phase_control.Enumeration.Subsets.{Memᴰ-map, Memᴰ-map_elim}
use collective_phase_control.Enumeration.Smallest.{IsSmallest, search_IsSmallest}

-- two lists have the same members
abbrev pub SameMembers : List String → List String → Type 0
SameMembers v w = (x : String) → (Memᴰ x v → Memᴰ x w) × (Memᴰ x w → Memᴰ x v)

-- `vs` are the minimal sets over `xs` that have the property `P`: each lies in `xs` and has it, no
-- proper part of one has it, and every set over `xs` that has it contains one of them.
pub record AreMinimal (P : List String → Type 0) (xs : List String) (vs : List (List String))
    : Type 0 where
  pub sound : (v : List String) → Memᴰ v vs → (subset v xs ≡ true) × P v
  pub minimal : (v w : List String) → Memᴰ v vs → subset w v ≡ true → P w → subset v w ≡ true
  pub complete :
      (w : List String)
      → subset w xs ≡ true
      → P w
      → (v : List String) × Memᴰ v vs × (subset v w ≡ true)

-- only the members of `xs` matter
pub AreMinimal-over :
    (P : List String → Type 0) (xs ys : List String) (vs : List (List String))
    → SameMembers xs ys
    → AreMinimal P xs vs
    → AreMinimal P ys vs
AreMinimal-over P xs ys vs e h = record {
  sound = λ v m.
      let (inside, p) = h.sound v m in
      (subset_intro v ys (λ x n. (e x).0 (subset_elim v xs inside x n)), p);
  minimal = h.minimal;
  complete = λ w s. h.complete w (subset_intro w xs (λ x n. (e x).1 (subset_elim w ys s x n)));
}

pub sorted_set-SameMembers : (xs : List String) → SameMembers (sorted (to_set xs)) xs
sorted_set-SameMembers xs x = (
  λ m. (Memᴰ-to_set x xs).0 ((Memᴰ-sorted x (to_set xs)).0 m),
  λ m. (Memᴰ-sorted x (to_set xs)).1 ((Memᴰ-to_set x xs).1 m),
)

pub nonempty_length : (v : List String) (x : String) → Memᴰ x v → 1 ≤ length v
nonempty_length [] x m = absurd (Memᴰ.not-nil m)
nonempty_length (y ∷ v) x m = omega arith

pub length-member : (v : List String) → 1 ≤ length v → (x : String) × Memᴰ x v
length-member [] h = absurd (omega arith)
length-member (y ∷ v) h = (y, Memᴰ.head refl)

sorted-SameMembers : (v : List String) → SameMembers v (sorted v)
sorted-SameMembers v x = ((Memᴰ-sorted x v).1, (Memᴰ-sorted x v).0)

module _ (test : List String → Cost Bool) (P : List String → Type 0) (size : ℕ) (xs : List String)
    (unique : IsUnique xs) (same : (v w : List String) → SameMembers v w → P v → P w)
    -- the test decides the property of sets over `xs` that are not below the first size
    (decides : (v : List String)
      → subset v xs ≡ true
      → size ≤ length v
      → (test v).value ≡ true
      → P v)
    (passes : (v : List String) → P v → (test v).value ≡ true)
    (ext : (v w : List String) → SameMembers v w → (test v).value ≡ true → (test w).value ≡ true)
    (large : (w : List String)
      → subset w xs ≡ true
      → P w
      → size ≤ length (filter (λ x. elem x w) xs)) where
  AreMinimal-of_smallest :
      (kept : List (List String)) → IsSmallest test xs size kept → AreMinimal P xs (map sorted kept)
  AreMinimal-of_smallest kept h = record {
    sound = λ v m.
        let (k, n, e) = Memᴰ-map_elim sorted v kept m in
        let (inside, big, good) = h.sound k n in
        rw e (
          subset_intro (sorted k) xs (λ y l. subset_elim k xs inside y ((Memᴰ-sorted y k).0 l)),
          same k (sorted k) (sorted-SameMembers k) (decides k inside big good),
        );
    minimal = λ v w m s p.
        let (k, n, e) = Memᴰ-map_elim sorted v kept m in
        let (inside, _, _) = h.sound k n in
        let in_k = λ (y : String) (l : Memᴰ y w).
          (Memᴰ-sorted y k).0 (subset_elim w (sorted k) (rw e at s) y l) in
        let w_in_k = subset_intro w k in_k in
        let w_in = subset_intro w xs (λ y l. subset_elim k xs inside y (in_k y l)) in
        let part = h.minimal k w n w_in_k (large w w_in p) (passes w p) in
        rw e (subset_intro (sorted k) w (λ y l. subset_elim k w part y ((Memᴰ-sorted y k).0 l)));
    complete = λ w s p.
        let (k, n, part) = h.complete w s (large w s p) (passes w p) in
        (
          sorted k,
          Memᴰ-map sorted k kept n,
          subset_intro (sorted k) w (λ y l. subset_elim k w part y ((Memᴰ-sorted y k).0 l)),
        );
  }

  pub search_AreMinimal :
      AreMinimal P xs
        (map sorted (collect test [] (candidates size (suc (length xs) - size) xs)).value)
  search_AreMinimal = AreMinimal-of_smallest _ (search_IsSmallest test xs size unique ext)
