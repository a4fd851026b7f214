-- ===== src/Ids/Laws.antt =====
-- Membership in the sets of `Ids`, operation by operation.
use mathlib.Core.List.Memᴰ
use collective_phase_control.Prelude.{
  subst, refl, String, ◌≡◌, ◌↔◌, ◌⊎◌, inl, inr, ⊎_elim, true, false, not, List, [], ◌∷◌, arith,
  Memᴰ, Memᴰ-cons, Memᴰ-filter, eq_iff, Bool-cases, all_intro, all_elim, any_intro, any_elim,
}
use collective_phase_control.Ids.{
  elem, subset, intersects, inter, diff, add, union, to_set, insert_sorted, sorted, insert_tuple,
  sorted_tuples,
}

pub elem_iff : (x : String) (xs : List String) → (elem x xs ≡ true) ↔ Memᴰ x xs
elem_iff x [] = (λ h. cc, λ m. absurd (Memᴰ.not-nil m))
elem_iff x (y ∷ ys) = ground (arith, eq_iff x y, elem_iff x ys, Memᴰ-cons x y ys)

pub subset_intro :
    (xs ys : List String) → ((x : String) → Memᴰ x xs → Memᴰ x ys) → subset xs ys ≡ true
subset_intro xs ys h = all_intro _ xs (λ x m. (elem_iff x ys).1 (h x m))

pub subset_elim : (xs ys : List String) → subset xs ys ≡ true → (x : String) → Memᴰ x xs → Memᴰ x ys
subset_elim xs ys h x m = (elem_iff x ys).0 (all_elim _ x xs h m)

pub subset_trans :
    (xs ys zs : List String) → subset xs ys ≡ true → subset ys zs ≡ true → subset xs zs ≡ true
subset_trans xs ys zs h k =
    subset_intro xs zs (λ x m. subset_elim ys zs k x (subset_elim xs ys h x m))

pub subset_refl : (xs : List String) → subset xs xs ≡ true
subset_refl xs = subset_intro xs xs (λ x m. m)

pub intersects_iff :
    (xs ys : List String) → (intersects xs ys ≡ true) ↔ ((x : String) × Memᴰ x xs × Memᴰ x ys)
intersects_iff xs ys = (
  λ h. let (x, m, e) = any_elim _ xs h in (x, m, (elem_iff x ys).0 e),
  λ r. any_intro _ r.0 xs r.1 ((elem_iff r.0 ys).1 r.2),
)

pub Memᴰ-inter : (x : String) (xs ys : List String) → Memᴰ x (inter xs ys) ↔ (Memᴰ x xs × Memᴰ x ys)
Memᴰ-inter x xs ys = ground (arith, Memᴰ-filter (λ y. elem y ys) x xs, elem_iff x ys)

pub Memᴰ-diff :
    (x : String) (xs ys : List String) → Memᴰ x (diff xs ys) ↔ (Memᴰ x xs × (elem x ys ≡ false))
Memᴰ-diff x xs ys = ground (arith, Memᴰ-filter (λ y. not (elem y ys)) x xs)

pub Memᴰ-add : (x a : String) (xs : List String) → Memᴰ x (add a xs) ↔ ((x ≡ a) ⊎ Memᴰ x xs)
Memᴰ-add x a xs = elim (Bool-cases (elem a xs)) [
  | inl old ↦ rw old (inr, ⊎_elim (λ e. rw e ((elem_iff a xs).0 old)) (λ m. m))
  | inr new ↦ rw new (Memᴰ-cons x a xs)
]

pub Memᴰ-union : (x : String) (ys xs : List String) → Memᴰ x (union ys xs) ↔ (Memᴰ x ys ⊎ Memᴰ x xs)
unfolding union
Memᴰ-union x ys [] = (inl, ⊎_elim (λ m. m) (λ m. absurd (Memᴰ.not-nil m)))
Memᴰ-union x ys (a ∷ xs) =
    ground (arith, Memᴰ-add x a (union ys xs), Memᴰ-union x ys xs, Memᴰ-cons x a xs)

pub Memᴰ-to_set : (x : String) (xs : List String) → Memᴰ x (to_set xs) ↔ Memᴰ x xs
unfolding to_set
Memᴰ-to_set x xs = (
  λ m. ⊎_elim (λ n. absurd (Memᴰ.not-nil n)) (λ n. n) ((Memᴰ-union x [] xs).0 m),
  λ m. (Memᴰ-union x [] xs).1 (inr m),
)

pub Memᴰ-insert_sorted :
    (x a : String) (xs : List String) → Memᴰ x (insert_sorted a xs) ↔ ((x ≡ a) ⊎ Memᴰ x xs)
unfolding insert_sorted
Memᴰ-insert_sorted x a [] = Memᴰ-cons x a []
Memᴰ-insert_sorted x a (y ∷ ys) = ground (
  arith,
  Memᴰ-insert_sorted x a ys,
  Memᴰ-cons x a (y ∷ ys),
  Memᴰ-cons x y ys,
  Memᴰ-cons x y (insert_sorted a ys),
)

pub Memᴰ-sorted : (x : String) (xs : List String) → Memᴰ x (sorted xs) ↔ Memᴰ x xs
unfolding sorted
Memᴰ-sorted x [] = (λ m. m, λ m. m)
Memᴰ-sorted x (a ∷ xs) =
    ground (arith, Memᴰ-insert_sorted x a (sorted xs), Memᴰ-sorted x xs, Memᴰ-cons x a xs)

-- A membership test sees a set only through its members.
pub elem-sorted : (x : String) (xs : List String) → elem x (sorted xs) ≡ elem x xs
elem-sorted x xs = ground (arith, elem_iff x (sorted xs), elem_iff x xs, Memᴰ-sorted x xs)

Memᴰ-insert_tuple :
    (x a : List String) (xs : List (List String))
    → Memᴰ x (insert_tuple a xs) ↔ ((x ≡ a) ⊎ Memᴰ x xs)
unfolding insert_tuple
Memᴰ-insert_tuple x a [] = Memᴰ-cons x a []
Memᴰ-insert_tuple x a (y ∷ ys) = ground (
  arith,
  Memᴰ-insert_tuple x a ys,
  Memᴰ-cons x a (y ∷ ys),
  Memᴰ-cons x y ys,
  Memᴰ-cons x y (insert_tuple a ys),
)

pub Memᴰ-sorted_tuples :
    (x : List String) (xs : List (List String)) → Memᴰ x (sorted_tuples xs) ↔ Memᴰ x xs
unfolding sorted_tuples
Memᴰ-sorted_tuples x [] = (λ m. m, λ m. m)
Memᴰ-sorted_tuples x (a ∷ xs) =
    ground
      (arith, Memᴰ-insert_tuple x a (sorted_tuples xs), Memᴰ-sorted_tuples x xs, Memᴰ-cons x a xs)

-- sorted(set(xs)) is empty only for an empty list
pub sorted_set-nil : (xs : List String) → sorted (to_set xs) ≡ [] → xs ≡ []
sorted_set-nil [] h = refl
sorted_set-nil (x ∷ xs) h = absurd (
    Memᴰ.not-nil (
      subst (λ ys. Memᴰ x ys) h
        ((Memᴰ-sorted x (to_set (x ∷ xs))).1 ((Memᴰ-to_set x (x ∷ xs)).1 (Memᴰ.head refl)))))
