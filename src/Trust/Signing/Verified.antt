-- ===== src/Trust/Signing/Verified.antt =====
-- What sign_document of v6/trust.py makes is accepted by verify_envelope.
use collective_phase_control.Prelude.{
  ℕ, zero, suc, ◌+◌, ◌-◌, ◌*◌, ◌/◌, ◌%◌, ◌^◌, ◌≤◌, ◌<◌, ◌≡◌, refl, ap, subst, ◌∙◌, inl, inr, true,
  false, [], ◌∷◌, ◌++◌, arith, length, length-append, leb, ltb, nat_eq, Bool-cases,
}
use collective_phase_control.Trust.{Bytes}
use collective_phase_control.Trust.Keys.{
  Crypto, ec_key, from_bytes, take, drop, verify_with, p256_order,
}
use collective_phase_control.Trust.Signing.{ecdsa_private, Signing, to_bytes, min, signature_bytes}

length-to_bytes : (count n : ℕ) → length (to_bytes count n) ≡ count
unfolding to_bytes
length-to_bytes zero n = refl
length-to_bytes (suc count) n =
    let rest = length-to_bytes count (n / 256) in
    let sum = length-append (to_bytes count (n / 256)) (n % 256 ∷ []) in omega (arith, rest, sum)

from_bytes-snoc :
    (acc : ℕ) (xs : Bytes) (b : ℕ) → from_bytes acc (xs ++ b ∷ []) ≡ from_bytes acc xs * 256 + b
unfolding from_bytes
from_bytes-snoc acc [] b = refl
from_bytes-snoc acc (x ∷ xs) b = from_bytes-snoc (acc * 256 + x) xs b

-- a number of at most so many bytes is read as it was written
from_bytes-to_bytes : (count n : ℕ) → n < 256 ^ count → from_bytes 0 (to_bytes count n) ≡ n
unfolding to_bytes from_bytes
from_bytes-to_bytes zero n h = omega (arith, h)
from_bytes-to_bytes (suc count) n h =
    let power : 256 ^ suc count ≡ 256 * 256 ^ count = omega arith in
    let small : n / 256 < 256 ^ count = omega (arith, h, power) in
    let rest = from_bytes-to_bytes count (n / 256) small in
    let whole = from_bytes-snoc 0 (to_bytes count (n / 256)) (n % 256) in omega (arith, rest, whole)

take-append : (xs ys : Bytes) → take (length xs) (xs ++ ys) ≡ xs
unfolding take
take-append [] ys = refl
take-append (x ∷ xs) ys = ap (λ zs. x ∷ zs) (take-append xs ys)

drop-append : (xs ys : Bytes) → drop (length xs) (xs ++ ys) ≡ ys
unfolding drop
drop-append [] ys = refl
drop-append (x ∷ xs) ys = drop-append xs ys

-- the lower form is positive, below the order and at most its half
min_low :
    (s : ℕ)
    → 0 < s
    → s < p256_order
    → (0 < min s (p256_order - s)) × (min s (p256_order - s) ≤ p256_order / 2)
min_low s positive below = ground (arith, positive, below)

order_fits : (n : ℕ) → n < p256_order → n < 256 ^ 32
order_fits n h = omega (arith, h)

module _ (crypto : Crypto) (signing : Signing) where
  -- the two halves of an ECDSA signature in the form of _signature_bytes are read as they were written
  halves :
      (r s : ℕ)
      → r < p256_order
      → s < p256_order
      → (from_bytes 0 (take 32 (to_bytes 32 r ++ to_bytes 32 s)) ≡ r)
        × (from_bytes 0 (drop 32 (to_bytes 32 r ++ to_bytes 32 s)) ≡ s)
        × (length (to_bytes 32 r ++ to_bytes 32 s) ≡ 64)
  halves r s below_r below_s =
      let size = length-to_bytes 32 r in
      let front =
        subst (λ n. take n (to_bytes 32 r ++ to_bytes 32 s) ≡ to_bytes 32 r) size
          (take-append (to_bytes 32 r) (to_bytes 32 s)) in
      let back =
        subst (λ n. drop n (to_bytes 32 r ++ to_bytes 32 s) ≡ to_bytes 32 s) size
          (drop-append (to_bytes 32 r) (to_bytes 32 s)) in
      let total = length-append (to_bytes 32 r) (to_bytes 32 s) in
      let other = length-to_bytes 32 s in
      (
        ap (from_bytes 0) front ∙ from_bytes-to_bytes 32 r (order_fits r below_r),
        ap (from_bytes 0) back ∙ from_bytes-to_bytes 32 s (order_fits s below_s),
        omega (arith, total, size, other),
      )

  accepted_halves :
      (spki message signature : Bytes) (r s : ℕ)
      → from_bytes 0 (take 32 signature) ≡ r
      → from_bytes 0 (drop 32 signature) ≡ s
      → length signature ≡ 64
      → 0 < r
      → r < p256_order
      → 0 < s
      → s ≤ p256_order / 2
      → crypto.ecdsa_verify spki r s message ≡ true
      → verify_with crypto (ec_key spki) message signature ≡ true
  unfolding verify_with
  accepted_halves spki message signature r s front back size r_positive r_below s_positive s_low
        valid =
      let a : leb r 0 ≡ false = ground (arith, r_positive) in
      let b : leb p256_order r ≡ false = ground (arith, r_below) in
      let c : leb s 0 ≡ false = ground (arith, s_positive) in
      let d : ltb (p256_order / 2) s ≡ false = ground (arith, s_low) in
      let e : nat_eq (length signature) 64 ≡ true = ground (arith, size) in
      rw (verify_with, e, front, back, a, b, c, d, valid) refl

  -- what is known of a private key and the SubjectPublicKeyInfo of its public key, for a message: the
  -- signature is in range and valid, and so is the one with the negated second part
  pub record IsEcdsaPair (spki key message : Bytes) : Type 0 where
    pub r_positive : 0 < (signing.ecdsa_sign key message).0
    pub r_below : (signing.ecdsa_sign key message).0 < p256_order
    pub s_positive : 0 < (signing.ecdsa_sign key message).1
    pub s_below : (signing.ecdsa_sign key message).1 < p256_order
    pub valid :
        crypto.ecdsa_verify spki
          (signing.ecdsa_sign key message).0
          (signing.ecdsa_sign key message).1
          message
        ≡ true
    pub negated_valid :
        crypto.ecdsa_verify spki
          (signing.ecdsa_sign key message).0
          (p256_order - (signing.ecdsa_sign key message).1)
          message
        ≡ true

  either_valid :
      (spki message : Bytes) (r s t : ℕ)
      → crypto.ecdsa_verify spki r s message ≡ true
      → crypto.ecdsa_verify spki r t message ≡ true
      → crypto.ecdsa_verify spki r (min s t) message ≡ true
  either_valid spki message r s t a b = elim (Bool-cases (leb s t)) [
    | inl le ↦ rw (le) a
    | inr gt ↦ rw (gt) b
  ]

  -- A signature that _signature_bytes makes with an ECDSA key is accepted by _verify_signature.
  pub ecdsa_signature_verifies :
      (spki key message : Bytes)
      → IsEcdsaPair spki key message
      → verify_with crypto
          (ec_key spki)
          message
          (signature_bytes signing (ecdsa_private key) message)
        ≡ true
  unfolding signature_bytes
  ecdsa_signature_verifies spki key message pair =
      let r = (signing.ecdsa_sign key message).0 in
      let s = (signing.ecdsa_sign key message).1 in
      let low = min s (p256_order - s) in
      let (low_positive, low_half) = min_low s pair.s_positive pair.s_below in
      let low_below : low < p256_order = omega (arith, low_half) in
      let (front, back, size) = halves r low pair.r_below low_below in
      accepted_halves spki message (to_bytes 32 r ++ to_bytes 32 low) r low front back size
        pair.r_positive pair.r_below low_positive low_half
        (either_valid spki message r s (p256_order - s) pair.valid pair.negated_valid)
