-- ===== src/Ids.antt =====
-- Python's sets of identifiers (str) as lists of texts, with the tests and the operations that the
-- source uses on them, and sorted(set(...)). `Ids/Laws.antt` and `Ids/Unique.antt` have the laws.
pub mod Laws
pub mod Unique
pub mod Dict
use Prim.Native.String.{compare}
use text.Mathlib.Text.{is_le}
use collective_phase_control.Prelude.{
  length, nat_eq, String, Bool, true, false, not, ◌||◌, List, [], ◌∷◌, ◌++◌, any, all, filter, ◌==◌,
  if◌then◌else◌,
}

-- x in s
abbrev pub elem : String → List String → Bool
elem x [] = false
elem x (y ∷ ys) = x == y || elem x ys

-- s.issubset(t), s <= t
abbrev pub subset : List String → List String → Bool
subset xs ys = all (λ x. elem x ys) xs

-- bool(s & t)
abbrev pub intersects : List String → List String → Bool
intersects xs ys = any (λ x. elem x ys) xs

-- s & t
abbrev pub inter : List String → List String → List String
inter xs ys = filter (λ x. elem x ys) xs

-- s - t
abbrev pub diff : List String → List String → List String
diff xs ys = filter (λ x. not (elem x ys)) xs

-- s.add(x)
abbrev pub add : String → List String → List String
add x xs = if elem x xs then xs else x ∷ xs

-- t | s, t.update(s)
unfoldable pub union : List String → List String → List String
union ys [] = ys
union ys (x ∷ xs) = add x (union ys xs)

-- set(xs)
unfoldable pub to_set : List String → List String
unfolding union
to_set xs = union [] xs

-- a stable insertion, for sorted(...)
unfoldable pub insert_sorted : String → List String → List String
insert_sorted x [] = x ∷ []
insert_sorted x (y ∷ ys) =
    let rest = insert_sorted x ys in if is_le (compare x y) then x ∷ y ∷ ys else y ∷ rest

unfoldable pub sorted : List String → List String
unfolding insert_sorted
sorted [] = []
sorted (x ∷ xs) = insert_sorted x (sorted xs)

-- the order of tuples of identifiers
unfoldable pub tuple_le : List String → List String → Bool
tuple_le [] ys = true
tuple_le (x ∷ xs) [] = false
tuple_le (x ∷ xs) (y ∷ ys) =
    let rest = tuple_le xs ys in if x == y then rest else is_le (compare x y)

unfoldable pub insert_tuple : List String → List (List String) → List (List String)
unfolding tuple_le
insert_tuple v [] = v ∷ []
insert_tuple v (w ∷ vs) =
    let rest = insert_tuple v vs in if tuple_le v w then v ∷ w ∷ vs else w ∷ rest

-- sorted(...) of tuples
unfoldable pub sorted_tuples : List (List String) → List (List String)
unfolding insert_tuple
sorted_tuples [] = []
sorted_tuples (v ∷ vs) = insert_tuple v (sorted_tuples vs)

-- len(xs) != len(set(xs))
abbrev pub is_repeated : List String → Bool
is_repeated xs = not (nat_eq (length (to_set xs)) (length xs))
