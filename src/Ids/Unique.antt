-- ===== src/Ids/Unique.antt =====
-- Lists without repetition: which operations of `Ids` give them, and the count of their elements.
use mathlib.Core.List.Memᴰ
use mathlib.Core.Bool.{false≢true}
use collective_phase_control.Prelude.{
  ◌≤◌, ◌<◌, String, ◌≡◌, refl, inl, inr, Bool, true, false, List, [], ◌∷◌, arith, filter, Memᴰ,
  Memᴰ-filter, ◌==◌, eq_iff, Bool-cases, length, not, and_iff, ◌||◌, ◌∙◌, ap, sym, subst,
}
use collective_phase_control.Ids.{is_repeated, elem, subset, union, to_set, insert_sorted, sorted}
use collective_phase_control.Ids.Laws.{
  elem_iff, subset_elim, subset_intro, elem-sorted, Memᴰ-to_set,
}

-- every element stands once
abbrev pub IsUnique : List String → Type 0
IsUnique [] = Unit
IsUnique (x ∷ xs) = (elem x xs ≡ false) × IsUnique xs

pub union-IsUnique : (ys xs : List String) → IsUnique ys → IsUnique (union ys xs)
unfolding union
union-IsUnique ys [] h = h
union-IsUnique ys (x ∷ xs) h = elim (Bool-cases (elem x (union ys xs))) [
  | inl old ↦ rw old (union-IsUnique ys xs h)
  | inr new ↦ rw new (new, union-IsUnique ys xs h)
]

pub to_set-IsUnique : (xs : List String) → IsUnique (to_set xs)
unfolding to_set
to_set-IsUnique xs = union-IsUnique [] xs tt

elem-insert_sorted :
    (z x : String) (xs : List String) → elem z (insert_sorted x xs) ≡ (z == x || elem z xs)
unfolding insert_sorted
elem-insert_sorted z x [] = refl
elem-insert_sorted z x (y ∷ ys) = ground (arith, elem-insert_sorted z x ys)

insert_sorted-IsUnique :
    (x : String) (xs : List String)
    → elem x xs ≡ false
    → IsUnique xs
    → IsUnique (insert_sorted x xs)
unfolding insert_sorted
insert_sorted-IsUnique x [] h u = (refl, tt)
insert_sorted-IsUnique x (y ∷ ys) h u =
    ground (arith, elem-insert_sorted y x ys, insert_sorted-IsUnique x ys, eq_iff x y, eq_iff y x)

pub sorted-IsUnique : (xs : List String) → IsUnique xs → IsUnique (sorted xs)
unfolding sorted
sorted-IsUnique [] u = tt
sorted-IsUnique (x ∷ xs) u =
    insert_sorted-IsUnique x (sorted xs) (elem-sorted x xs ∙ u.0) (sorted-IsUnique xs u.1)

length-filter-le : (p : String → Bool) (xs : List String) → length (filter p xs) ≤ length xs
length-filter-le p [] = omega arith
length-filter-le p (x ∷ xs) = ground (arith, length-filter-le p xs)

-- a test that refuses an element shortens the list
pub length-filter-lt :
    (p : String → Bool) (x : String) (xs : List String)
    → Memᴰ x xs
    → p x ≡ false
    → length (filter p xs) < length xs
length-filter-lt p x [] m h = absurd (Memᴰ.not-nil m)
length-filter-lt p x (y ∷ xs) m h = elim (Memᴰ.cases_cons m) [
  | inl e ↦ ground (arith, ap p e, length-filter-le p xs)
  | inr r ↦ ground (arith, length-filter-lt p x xs r h)
]

distinct_of_unique :
    (x : String) (w : List String)
    → elem x w ≡ false
    → (z : String) → Memᴰ z w
    → not (z == x) ≡ true
distinct_of_unique x w u z n = elim (Bool-cases (z == x)) [
  | inl same ↦
      absurd (false≢true (sym u ∙ (elem_iff x w).1 (subst (λ a. Memᴰ a w) ((eq_iff z x).0 same) n)))
  | inr other ↦ rw other
]

-- A list without repetition is no longer than a list that it is contained in.
pub length-le_of_inside :
    (w c : List String) → IsUnique w → ((x : String) → Memᴰ x w → Memᴰ x c) → length w ≤ length c
length-le_of_inside [] c u h = omega arith
length-le_of_inside (x ∷ w) c u h =
    let p = λ (z : String). not (z == x) in
    let shorter =
      length-le_of_inside w (filter p c) u.1
        (λ z n. (Memᴰ-filter p z c).1 (h z (Memᴰ.tail n), distinct_of_unique x w u.0 z n)) in
    let dropped = length-filter-lt p x c (h x (Memᴰ.head refl)) (ground (arith, eq_iff x x)) in
    omega arith

-- It is shorter if it misses an element of that list.
pub length-lt_of_missing :
    (w c : List String) (y : String)
    → IsUnique w
    → ((x : String) → Memᴰ x w → Memᴰ x c)
    → Memᴰ y c
    → elem y w ≡ false
    → length w < length c
length-lt_of_missing w c y u h m e =
    length-le_of_inside (y ∷ w) c (e, u)
      λ x n. elim (Memᴰ.cases_cons n) [ inl same ↦ rw same m | inr k ↦ h x k ]

-- Between lists without repetition, inclusion in one no longer is inclusion both ways.
pub subset_flip :
    (w c : List String) → IsUnique w → subset w c ≡ true → length c ≤ length w → subset c w ≡ true
subset_flip w c u h n = subset_intro c w λ y m. (elem_iff y w).0 (elim (Bool-cases (elem y w)) [
  | inl there ↦ there
  | inr gone ↦ absurd (omega (arith, length-lt_of_missing w c y u (subset_elim w c h) m gone))
])

-- An update by what is there already changes nothing.
pub union_absorb : (ys xs : List String) → subset xs ys ≡ true → union ys xs ≡ ys
unfolding union
union_absorb ys [] h = refl
union_absorb ys (x ∷ xs) h =
    let (here, rest) = (and_iff (elem x ys) (subset xs ys)).0 h in
    rw (union_absorb ys xs rest, here)

length-le-union : (ys xs : List String) → length ys ≤ length (union ys xs)
unfolding union
length-le-union ys [] = omega arith
length-le-union ys (x ∷ xs) = ground (arith, length-le-union ys xs)

-- An update by something new makes a set larger.
pub length-lt-union :
    (ys xs : List String) → subset xs ys ≡ false → length ys < length (union ys xs)
unfolding union
length-lt-union ys [] h = cc
length-lt-union ys (x ∷ xs) h = elim (Bool-cases (subset xs ys)) [
  | inr more ↦ ground (arith, length-lt-union ys xs more)
  | inl old ↦
      let new : elem x ys ≡ false = ground (arith, h, old) in
      rw (union_absorb ys xs old, new) (omega arith)
]

length-to_set-le : (xs : List String) → length (to_set xs) ≤ length xs
unfolding to_set
length-to_set-le [] = omega arith
length-to_set-le (x ∷ xs) = ground (arith, length-to_set-le xs)

-- a list that is as long as its set repeats nothing
pub IsUnique-of_length : (xs : List String) → length (to_set xs) ≡ length xs → IsUnique xs
unfolding to_set
IsUnique-of_length [] h = tt
IsUnique-of_length (x ∷ xs) h = elim (Bool-cases (elem x (to_set xs))) [
  | inl old ↦ absurd (too_short old)
  | inr new ↦ (fresh new, IsUnique-of_length xs (ground (arith, new, h)))
]
  where
    too_short : elem x (to_set xs) ≡ true → ⊥
    too_short old = ground (arith, old, h, length-to_set-le xs)

    fresh : elem x (to_set xs) ≡ false → elem x xs ≡ false
    fresh new = elim (Bool-cases (elem x xs)) [
      | inl met ↦ absurd (
          false≢true
            (sym new ∙ (elem_iff x (to_set xs)).1 ((Memᴰ-to_set x xs).1 ((elem_iff x xs).0 met))))
      | inr apart ↦ apart
    ]

pub unrepeated : (xs : List String) → is_repeated xs ≡ false → IsUnique xs
unrepeated xs h = IsUnique-of_length xs (ground (arith, h))

pub length-to_set : (xs : List String) → IsUnique xs → length (to_set xs) ≡ length xs
unfolding to_set
length-to_set [] u = refl
length-to_set (x ∷ xs) u = elim (Bool-cases (elem x (to_set xs))) [
  | inl old ↦ absurd (
      false≢true
        (sym u.0 ∙ (elem_iff x xs).1 ((Memᴰ-to_set x xs).0 ((elem_iff x (to_set xs)).0 old))))
  | inr new ↦ ground (arith, new, length-to_set xs u.1)
]

pub not_repeated : (xs : List String) → IsUnique xs → is_repeated xs ≡ false
not_repeated xs u = ground (arith, length-to_set xs u)
