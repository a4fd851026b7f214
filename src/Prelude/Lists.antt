-- ===== src/Prelude/Lists.antt =====
-- Lists measured by native numbers, and Boolean quantifiers over a list.
use Prim.Native.Nat.{ℕ, suc, ◌+◌}
use mathlib.Core.Path.{◌≡◌, refl, sym, ap, ◌∙◌}
use mathlib.Core.Logic.{◌↔◌, ◌⊎◌, inl, inr, ⊎_elim}
use mathlib.Core.Bool.{Bool, true, false, ◌&&◌, ◌||◌, false≢true}
use mathlib.Core.List.{List, [], ◌∷◌, ◌++◌, Memᴰ}
use mathlib.Core.List.Memᴰ
use native.Mathlib.Omega.{arith}
use collective_phase_control.Prelude.Tests.{if◌then◌else◌, Bool-cases, and_iff}

module _ {ℓ} {A : Type ℓ} where
  abbrev pub length : List A → ℕ
  length [] = 0
  length (x ∷ xs) = suc (length xs)

  -- Python's any(p(x) for x in xs) and all(p(x) for x in xs)
  abbrev pub any : (A → Bool) → List A → Bool
  any p [] = false
  any p (x ∷ xs) = p x || any p xs

  abbrev pub all : (A → Bool) → List A → Bool
  all p [] = true
  all p (x ∷ xs) = p x && all p xs

  -- [x for x in xs if p(x)]
  abbrev pub filter : (A → Bool) → List A → List A
  filter p [] = []
  filter p (x ∷ xs) = let rest = filter p xs in if p x then x ∷ rest else rest

  pub length-append : (xs ys : List A) → length (xs ++ ys) ≡ length xs + length ys
  length-append [] ys = omega arith
  length-append (x ∷ xs) ys = omega (arith, length-append xs ys)

  pub Memᴰ-cons : (a x : A) (xs : List A) → Memᴰ a (x ∷ xs) ↔ ((a ≡ x) ⊎ Memᴰ a xs)
  Memᴰ-cons a x xs = (Memᴰ.cases_cons, ⊎_elim Memᴰ.head Memᴰ.tail)

  pub Memᴰ-append : (a : A) (xs ys : List A) → Memᴰ a (xs ++ ys) ↔ (Memᴰ a xs ⊎ Memᴰ a ys)
  Memᴰ-append a xs ys = (Memᴰ.append_cases xs, ⊎_elim (Memᴰ.append_left _) (Memᴰ.append_right xs))

  pub not-Memᴰ-nil : (a : A) → ¬ Memᴰ a []
  not-Memᴰ-nil a = Memᴰ.not-nil

  pub any_intro : (p : A → Bool) (x : A) (xs : List A) → Memᴰ x xs → p x ≡ true → any p xs ≡ true
  any_intro p x [] m h = absurd (Memᴰ.not-nil m)
  any_intro p x (y ∷ xs) m h = elim (Memᴰ.cases_cons m) [
    | inl e ↦ ground (arith, ap p e)
    | inr r ↦ ground (arith, any_intro p x xs r h)
  ]

  pub any_elim : (p : A → Bool) (xs : List A) → any p xs ≡ true → (x : A) × Memᴰ x xs × (p x ≡ true)
  any_elim p [] h = cc
  any_elim p (y ∷ xs) h = elim (Bool-cases (p y)) [
    | inl here ↦ (y, Memᴰ.head refl, here)
    | inr away ↦ let (x, m, e) = any_elim p xs (rw (away) at h) in (x, Memᴰ.tail m, e)
  ]

  pub all_intro :
      (p : A → Bool) (xs : List A) → ((x : A) → Memᴰ x xs → p x ≡ true) → all p xs ≡ true
  all_intro p [] h = refl
  all_intro p (y ∷ xs) h =
      ground (arith, h y (Memᴰ.head refl), all_intro p xs (λ x m. h x (Memᴰ.tail m)))

  pub all_elim : (p : A → Bool) (x : A) (xs : List A) → all p xs ≡ true → Memᴰ x xs → p x ≡ true
  all_elim p x [] h m = absurd (Memᴰ.not-nil m)
  all_elim p x (y ∷ xs) h m = elim (Memᴰ.cases_cons m) [
    | inl e ↦ ground (arith, ap p e)
    | inr r ↦ all_elim p x xs (((and_iff (p y) (all p xs)).0 h).1) r
  ]

  pub any-false : (p : A → Bool) (x : A) (xs : List A) → any p xs ≡ false → Memᴰ x xs → p x ≡ false
  any-false p x xs h m = elim (Bool-cases (p x)) [
    | inl e ↦ absurd (false≢true (sym h ∙ any_intro p x xs m e))
    | inr e ↦ e
  ]

  pub Memᴰ-filter :
      (p : A → Bool) (x : A) (xs : List A) → Memᴰ x (filter p xs) ↔ (Memᴰ x xs × (p x ≡ true))
  Memᴰ-filter p x [] = (λ m. absurd (Memᴰ.not-nil m), λ r. absurd (Memᴰ.not-nil r.0))
  Memᴰ-filter p x (y ∷ xs) = elim (Bool-cases (p y)) [
    | inl here ↦ ground (
      arith,
      here,
      Memᴰ-cons x y xs,
      Memᴰ-cons x y (filter p xs),
      Memᴰ-filter p x xs,
      λ (e : x ≡ y). ap p e,
    )
    | inr away ↦ ground (arith, away, Memᴰ-cons x y xs, Memᴰ-filter p x xs, λ (e : x ≡ y). ap p e)
  ]
