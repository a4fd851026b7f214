-- ===== src/Prelude/Reasons.antt =====
-- `if test: reasons.append(text)`, and when a list of reasons is empty.
use mathlib.Core.Path.{◌≡◌, refl}
use mathlib.Core.Bool.{Bool, true, false}
use mathlib.Core.List.{List, [], ◌∷◌, ◌++◌}

module _ {ℓ} {A : Type ℓ} where
  -- one reason if the test holds
  abbrev pub when : Bool → A → List A
  when true text = text ∷ []
  when false text = []

  -- not xs
  abbrev pub is_nil : List A → Bool
  is_nil [] = true
  is_nil (x ∷ xs) = false

  pub when-nil : (test : Bool) (text : A) → when test text ≡ [] → test ≡ false
  when-nil true text h = cc
  when-nil false text h = refl

  pub append-nil : (xs ys : List A) → xs ++ ys ≡ [] → (xs ≡ []) × (ys ≡ [])
  append-nil [] ys h = (refl, h)
  append-nil (x ∷ xs) ys h = cc

  pub nil_of_is_nil : (xs : List A) → is_nil xs ≡ true → xs ≡ []
  nil_of_is_nil [] h = refl
  nil_of_is_nil (x ∷ xs) h = cc

  -- a reason that is not given is a test that failed, and the others are not given either
  pub none_given :
      (test : Bool) (text : A) (rest : List A)
      → when test text ++ rest ≡ []
      → (test ≡ false) × (rest ≡ [])
  none_given test text rest h =
      let (a, b) = append-nil (when test text) rest h in (when-nil test text a, b)
