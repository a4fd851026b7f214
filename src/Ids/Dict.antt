-- ===== src/Ids/Dict.antt =====
-- Python's `dict` with identifiers for keys, as an association list in insertion order.
use collective_phase_control.Prelude.{
  String, Option, none, some, List, [], ◌∷◌, ◌==◌, if◌then◌else◌, ◌≡◌, refl, arith, eq_iff, Memᴰ,
  Bool-cases, inl, inr, length, suc, ap,
}

abbrev pub Dict {ℓ} : Type ℓ → Type ℓ
Dict V = List (String × V)

module _ {ℓ} {V : Type ℓ} where
  -- d.get(k)
  abbrev pub get : String → Dict V → Option V
  get k [] = none
  get k ((j, v) ∷ d) = let rest = get k d in if k == j then some v else rest

  -- set(d), list(d)
  abbrev pub keys : Dict V → List String
  keys [] = []
  keys ((j, v) ∷ d) = j ∷ keys d

  -- d.values()
  abbrev pub values : Dict V → List V
  values [] = []
  values ((j, v) ∷ d) = v ∷ values d

  -- d[k] = v: an old key keeps its place
  unfoldable pub put : String → V → Dict V → Dict V
  put k v [] = (k, v) ∷ []
  put k v ((j, w) ∷ d) = let rest = put k v d in if k == j then (j, v) ∷ d else (j, w) ∷ rest

  pub get-put :
      (k j : String) (v : V) (d : Dict V) → get j (put k v d) ≡ (if j == k then some v else get j d)
  unfolding put
  get-put k j v [] = refl
  get-put k j v ((i, w) ∷ d) = ground (arith, eq_iff k i, eq_iff j i, eq_iff j k, get-put k j v d)

pub value_of_get {ℓ} :
    {V : Type ℓ} (k : String) (v : V) (d : Dict V) → get k d ≡ some v → Memᴰ v (values d)
value_of_get k v [] h = cc
value_of_get k v ((j, w) ∷ d) h = elim (Bool-cases (k == j)) [
  | inl here ↦ Memᴰ.head (cc (rw here at h))
  | inr there ↦ Memᴰ.tail (value_of_get k v d (rw there at h))
]

-- a new key makes a dictionary one longer, an old one leaves its length
pub length-put {ℓ} :
    {V : Type ℓ} (k : String) (v : V) (d : Dict V)
    → get k d ≡ none
    → length (put k v d) ≡ suc (length d)
unfolding put
length-put k v [] h = refl
length-put k v ((j, w) ∷ d) h = elim (Bool-cases (k == j)) [
  | inl same ↦ absurd (none_ne (rw same at h))
  | inr other ↦ rw other (ap suc (length-put k v d (rw other at h)))
]
  where
    none_ne : some w ≡ none → ⊥
    none_ne e = cc
