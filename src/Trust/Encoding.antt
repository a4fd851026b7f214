-- ===== src/Trust/Encoding.antt =====
-- dsse_pae of v6/trust.py: the bytes that a signature covers.
use collective_phase_control.Prelude.{
  ℕ, zero, suc, ◌+◌, ◌-◌, ◌*◌, ◌/◌, ◌%◌, ◌≤◌, ◌<◌, ◌≡◌, refl, sym, ap, ◌∙◌, List, [], ◌∷◌, ◌++◌,
  arith, length, ltb, Bool-cases, inl, inr, if◌then◌else◌,
}
use collective_phase_control.Trust.{Bytes}

-- str(n).encode("ascii"): decimal digits, the least one last; n + 1 rounds are enough
unfoldable pub digits : ℕ → ℕ → Bytes
digits zero n = []
digits (suc fuel) n =
    let rest = digits fuel (n / 10) in
    if ltb n 10 then (48 + n) ∷ [] else rest ++ (48 + n % 10) ∷ []

unfoldable pub decimal : ℕ → Bytes
unfolding digits
decimal n = digits (suc n) n

-- b"DSSEv1 "
abbrev pub pae_prefix : Bytes
pae_prefix = 68 ∷ 83 ∷ 83 ∷ 69 ∷ 118 ∷ 49 ∷ 32 ∷ []

unfoldable pub dsse_pae : Bytes → Bytes → Bytes
unfolding decimal
dsse_pae type_bytes payload =
    pae_prefix
    ++ (decimal (length type_bytes)
        ++ 32 ∷ (type_bytes ++ 32 ∷ (decimal (length payload) ++ 32 ∷ payload)))

-- the number that decimal digits stand for, read from the front onto `acc`
read_digits : ℕ → Bytes → ℕ
read_digits acc [] = acc
read_digits acc (d ∷ ds) = read_digits (acc * 10 + (d - 48)) ds

read_digits-append :
    (acc d : ℕ) (ds : Bytes) → read_digits acc (ds ++ d ∷ []) ≡ read_digits acc ds * 10 + (d - 48)
unfolding read_digits
read_digits-append acc d [] = refl
read_digits-append acc d (c ∷ ds) = read_digits-append (acc * 10 + (c - 48)) d ds

read_digits-digits : (fuel n : ℕ) → n < fuel → read_digits 0 (digits fuel n) ≡ n
unfolding digits read_digits
read_digits-digits zero n h = ground arith
read_digits-digits (suc fuel) n h = elim (Bool-cases (ltb n 10)) [
  | inl small ↦ rw small (omega arith)
  | inr large ↦
      let whole = read_digits-append 0 (48 + n % 10) (digits fuel (n / 10)) in
      let big : 10 ≤ n = ground (arith, large) in
      let front = read_digits-digits fuel (n / 10) (omega (arith, big)) in
      rw (large, whole, front) (omega arith)
]

abbrev AreDigits : Bytes → Type 0
AreDigits [] = Unit
AreDigits (d ∷ ds) = (48 ≤ d) × AreDigits ds

AreDigits-append : (ds : Bytes) (d : ℕ) → AreDigits ds → 48 ≤ d → AreDigits (ds ++ d ∷ [])
AreDigits-append [] d h k = (k, tt)
AreDigits-append (c ∷ ds) d h k = (h.0, AreDigits-append ds d h.1 k)

digits-AreDigits : (fuel n : ℕ) → AreDigits (digits fuel n)
unfolding digits
digits-AreDigits zero n = tt
digits-AreDigits (suc fuel) n = elim (Bool-cases (ltb n 10)) [
  | inl small ↦ rw small (omega arith, tt)
  | inr large ↦ rw large (
      AreDigits-append (digits fuel (n / 10)) (48 + n % 10) (digits-AreDigits fuel (n / 10))
        (omega arith))
]

cons_parts {ℓ} : {A : Type ℓ} {x y : A} {xs ys : List A} → x ∷ xs ≡ y ∷ ys → (x ≡ y) × (xs ≡ ys)
cons_parts e = (cc, cc)

append-[] {ℓ} : {A : Type ℓ} (xs : List A) → xs ++ [] ≡ xs
append-[] [] = refl
append-[] (x ∷ xs) = ap (λ ys. x ∷ ys) (append-[] xs)

-- up to the first space two texts of digits agree
cut_at_space :
    (xs ys us vs : Bytes)
    → AreDigits xs
    → AreDigits ys
    → xs ++ 32 ∷ us ≡ ys ++ 32 ∷ vs
    → (xs ≡ ys) × (us ≡ vs)
cut_at_space [] [] us vs h k e = (refl, (cons_parts e).1)
cut_at_space [] (y ∷ ys) us vs h k e = absurd (omega (arith, k.0, (cons_parts e).0))
cut_at_space (x ∷ xs) [] us vs h k e = absurd (omega (arith, h.0, (cons_parts e).0))
cut_at_space (x ∷ xs) (y ∷ ys) us vs h k e =
    let (head, tail) = cons_parts e in
    let (front, back) = cut_at_space xs ys us vs h.1 k.1 tail in (rw (head, front) refl, back)

cut_at_length :
    (xs ys us vs : Bytes) → length xs ≡ length ys → xs ++ us ≡ ys ++ vs → (xs ≡ ys) × (us ≡ vs)
cut_at_length [] [] us vs h e = (refl, e)
cut_at_length [] (y ∷ ys) us vs h e = absurd (omega (arith, h))
cut_at_length (x ∷ xs) [] us vs h e = absurd (omega (arith, h))
cut_at_length (x ∷ xs) (y ∷ ys) us vs h e =
    let (head, tail) = cons_parts e in
    let (front, back) = cut_at_length xs ys us vs (omega (arith, h)) tail in
    (rw (head, front) refl, back)

decimal-injective : (m n : ℕ) → decimal m ≡ decimal n → m ≡ n
unfolding decimal
decimal-injective m n h =
    sym (read_digits-digits (suc m) m (omega arith))
    ∙ (ap (λ ds. read_digits 0 ds) h ∙ read_digits-digits (suc n) n (omega arith))

decimal-AreDigits : (n : ℕ) → AreDigits (decimal n)
unfolding decimal
decimal-AreDigits n = digits-AreDigits (suc n) n

-- a length in front, a space, and as many bytes: the bytes can be read back
cut_field :
    (xs ys us vs : Bytes)
    → decimal (length xs) ++ 32 ∷ (xs ++ us) ≡ decimal (length ys) ++ 32 ∷ (ys ++ vs)
    → (xs ≡ ys) × (us ≡ vs)
cut_field xs ys us vs e =
    let (size, rest) =
      cut_at_space (decimal (length xs)) (decimal (length ys)) (xs ++ us) (ys ++ vs)
        (decimal-AreDigits (length xs)) (decimal-AreDigits (length ys)) e in
    cut_at_length xs ys us vs (decimal-injective (length xs) (length ys) size) rest

-- Two statements with the same signed bytes have the same payload type and the same payload.
pub dsse_pae-injective :
    (type_bytes other_type payload other_payload : Bytes)
    → dsse_pae type_bytes payload ≡ dsse_pae other_type other_payload
    → (type_bytes ≡ other_type) × (payload ≡ other_payload)
unfolding dsse_pae
dsse_pae-injective t u p q e =
    let (_, body) = cut_at_length pae_prefix pae_prefix _ _ refl e in
    let (types, rest) =
      cut_field t u (32 ∷ (decimal (length p) ++ 32 ∷ p)) (32 ∷ (decimal (length q) ++ 32 ∷ q))
        body in
    let (_, tail) = cons_parts rest in
    let (payloads, _) = cut_field p q [] [] (rw (append-[] p, append-[] q) tail) in
    (types, payloads)
