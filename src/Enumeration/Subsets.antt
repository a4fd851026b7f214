-- ===== src/Enumeration/Subsets.antt =====
-- combinations: the sublists of each length, all of them, without repetition inside.
use mathlib.Core.List.Memᴰ
use collective_phase_control.Prelude.{
  ℕ, zero, suc, ◌+◌, ◌≤◌, ◌<◌, String, ◌≡◌, refl, ap, sym, ◌∙◌, inl, inr, Bool, true, false, List,
  [], ◌∷◌, map, Memᴰ, arith, length, filter, Bool-cases,
}
use native.Mathlib.Decide.{ℕ_discrete}
use collective_phase_control.Ids.{elem}
use collective_phase_control.Ids.Laws.{elem_iff}
use collective_phase_control.Ids.Unique.{IsUnique}
use collective_phase_control.Enumeration.{combinations, candidates}

pub Memᴰ-map {ℓ κ} :
    {A : Type ℓ} {B : Type κ} (f : A → B) (x : A) (xs : List A) → Memᴰ x xs → Memᴰ (f x) (map f xs)
Memᴰ-map f x [] m = absurd (Memᴰ.not-nil m)
Memᴰ-map f x (y ∷ xs) m = elim (Memᴰ.cases_cons m) [
  | inl e ↦ Memᴰ.head (ap f e)
  | inr r ↦ Memᴰ.tail (Memᴰ-map f x xs r)
]

pub Memᴰ-map_elim {ℓ κ} :
    {A : Type ℓ} {B : Type κ} (f : A → B) (b : B) (xs : List A)
    → Memᴰ b (map f xs)
    → (a : A) × Memᴰ a xs × (b ≡ f a)
Memᴰ-map_elim f b [] m = absurd (Memᴰ.not-nil m)
Memᴰ-map_elim f b (y ∷ xs) m = elim (Memᴰ.cases_cons m) [
  | inl e ↦ (y, Memᴰ.head refl, e)
  | inr r ↦ let (a, n, e) = Memᴰ-map_elim f b xs r in (a, Memᴰ.tail n, e)
]

-- what a combination of the given size is
pub record IsPick (size : ℕ) (xs c : List String) : Type 0 where
  pub size_eq : length c ≡ size
  pub inside : (x : String) → Memᴰ x c → Memᴰ x xs
  pub unique : IsUnique xs → IsUnique c

not-elem :
    (x : String) (xs c : List String)
    → elem x xs ≡ false
    → ((y : String) → Memᴰ y c → Memᴰ y xs)
    → elem x c ≡ false
not-elem x xs c h w = elim (Bool-cases (elem x c)) [
  | inl there ↦ h' (sym ((elem_iff x xs).1 (w x ((elem_iff x c).0 there))) ∙ h)
  | inr gone ↦ gone
]
  where
    h' : true ≡ false → elem x c ≡ false
    h' e = cc

IsPick-cons :
    (size : ℕ) (x : String) (xs c : List String)
    → IsPick size xs c
    → IsPick (suc size) (x ∷ xs) (x ∷ c)
IsPick-cons size x xs c p = record {
  size_eq = ap suc p.size_eq;
  inside =
      λ y m. elim (Memᴰ.cases_cons m) [ inl e ↦ Memᴰ.head e | inr n ↦ Memᴰ.tail (p.inside y n) ];
  unique = λ u. (not-elem x xs c u.0 p.inside, p.unique u.1);
}

pub combinations-IsPick :
    (size : ℕ) (xs c : List String) → Memᴰ c (combinations size xs) → IsPick size xs c
unfolding combinations
combinations-IsPick zero xs c m =
    let e = Memᴰ.eq_of_singleton m in
    rw e (record { size_eq = refl; inside = λ y n. absurd (Memᴰ.not-nil n); unique = λ u. tt })
combinations-IsPick (suc size) [] c m = absurd (Memᴰ.not-nil m)
combinations-IsPick (suc size) (x ∷ xs) c m =
    elim (Memᴰ.append_cases (map (λ d. x ∷ d) (combinations size xs)) m) [
      | inl with_x ↦
          let (d, n, e) = Memᴰ-map_elim (λ d. x ∷ d) c (combinations size xs) with_x in
          rw e (IsPick-cons size x xs d (combinations-IsPick size xs d n))
      | inr without_x ↦
          let p = combinations-IsPick (suc size) xs c without_x in
          record {
            size_eq = p.size_eq;
            inside = λ y n. Memᴰ.tail (p.inside y n);
            unique = λ u. p.unique u.1;
          }
    ]

-- Every selection by a test is a combination of its size.
pub filter-combinations :
    (p : String → Bool) (xs : List String)
    → Memᴰ (filter p xs) (combinations (length (filter p xs)) xs)
unfolding combinations
filter-combinations p [] = Memᴰ.head refl
filter-combinations p (x ∷ xs) = elim (Bool-cases (p x)) [
  | inl kept ↦ rw kept (Memᴰ.append_left _ (Memᴰ-map _ _ _ (filter-combinations p xs)))
  | inr dropped ↦ rw dropped (skip x xs (filter p xs) (filter-combinations p xs))
]
  where
    skip :
        (x : String) (xs c : List String)
        → Memᴰ c (combinations (length c) xs)
        → Memᴰ c (combinations (length c) (x ∷ xs))
    skip x xs [] m = Memᴰ.head refl
    skip x xs (y ∷ c) m = Memᴰ.append_right _ m

pub candidates-IsPick :
    (size sizes : ℕ) (xs c : List String)
    → Memᴰ c (candidates size sizes xs)
    → (k : ℕ) × (size ≤ k) × IsPick k xs c
unfolding candidates
candidates-IsPick size zero xs c m = absurd (Memᴰ.not-nil m)
candidates-IsPick size (suc sizes) xs c m = elim (Memᴰ.append_cases (combinations size xs) m) [
  | inl now ↦ (size, omega arith, combinations-IsPick size xs c now)
  | inr later ↦ let (k, h, p) = candidates-IsPick (suc size) sizes xs c later in (k, omega arith, p)
]

pub candidates_of_size :
    (k size sizes : ℕ) (xs c : List String)
    → Memᴰ c (combinations k xs)
    → size ≤ k
    → k < size + sizes
    → Memᴰ c (candidates size sizes xs)
unfolding candidates
candidates_of_size k size zero xs c m h l = absurd (omega arith)
candidates_of_size k size (suc sizes) xs c m h l = elim (ℕ_discrete size k) [
  | yes e ↦ Memᴰ.append_left {s = combinations size xs} _ (rw e m)
  | no ne ↦
      Memᴰ.append_right (combinations size xs)
        (candidates_of_size k (suc size) sizes xs c m (omega arith) (omega arith))
]
