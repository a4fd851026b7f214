-- ===== src/Trust/Keys.antt =====
-- v6/trust.py: _public_key, public_key_fingerprint and _verify_signature. The cryptography package
-- and base64 are parameters.
use collective_phase_control.Prelude.{
  ℕ, zero, suc, ◌+◌, ◌*◌, ◌/◌, String, ◌≡◌, Bool, true, false, not, ◌||◌, Option, none, some, [],
  ◌∷◌, Outcome, ok, raised, arith, length, nat_eq, leb, ltb, if◌then◌else◌,
}
use collective_phase_control.Trust.{Bytes, Algorithm, ed25519, ecdsa_p256_sha256, Principal}

-- load_der_public_key's key: is it an EC key over P-256, and its SubjectPublicKeyInfo
pub record DerKey : Type 0 where
  pub is_p256 : Bool
  pub spki : Bytes

pub data PublicKey : Type 0 where
  ed25519_key : Bytes → PublicKey
  ec_key : Bytes → PublicKey

-- what the code uses of base64, cryptography and the digest of bytes
pub record Crypto : Type 0 where
  -- base64.b64decode(text, validate=True), none where it raises
  pub b64decode : String → Option Bytes
  -- serialization.load_der_public_key, none where it raises ValueError, the one
  -- exception that it is taken to raise
  pub load_der : Bytes → Option DerKey
  -- key.verify(signature, message) of an Ed25519 key: does it return
  pub ed25519_verify : Bytes → Bytes → Bytes → Bool
  -- key.verify(encode_dss_signature(r, s), message, ECDSA(SHA256)) of an EC key: does it return
  pub ecdsa_verify : Bytes → ℕ → ℕ → Bytes → Bool
  -- the SubjectPublicKeyInfo of a raw Ed25519 key
  pub ed25519_spki : Bytes → Bytes
  pub digest_bytes : Bytes → String

abbrev pub p256_order : ℕ
p256_order = 115792089210356248762697446949407573529996955224135760342422259061068512044369

-- int.from_bytes(bytes, "big")
unfoldable pub from_bytes : ℕ → Bytes → ℕ
from_bytes acc [] = acc
from_bytes acc (b ∷ bs) = from_bytes (acc * 256 + b) bs

-- bytes[:n] and bytes[n:]
unfoldable pub take : ℕ → Bytes → Bytes
take zero bs = []
take (suc n) [] = []
take (suc n) (b ∷ bs) = b ∷ take n bs

unfoldable pub drop : ℕ → Bytes → Bytes
drop zero bs = bs
drop (suc n) [] = []
drop (suc n) (b ∷ bs) = drop n bs

module _ (crypto : Crypto) where
  -- the branch of _public_key for each algorithm
  unfoldable pub key_of : Algorithm → Bytes → Outcome PublicKey
  key_of ed25519 encoded =
      if nat_eq (length encoded) 32
      then ok (ed25519_key encoded)
      else raised "ed25519_public_key_length_invalid"
  key_of ecdsa_p256_sha256 encoded = elim (crypto.load_der encoded) [
    | none ↦ raised "ecdsa_public_key_der_invalid"
    | some key ↦
        if key.is_p256 then ok (ec_key key.spki) else raised "ecdsa_public_key_curve_invalid"
  ]

  unfoldable pub public_key : Principal → Outcome PublicKey
  unfolding key_of
  public_key principal = elim (crypto.b64decode principal.public_key_base64) [
    | none ↦ raised "public_key_base64_invalid"
    | some encoded ↦ key_of principal.algorithm encoded
  ]

  abbrev pub spki_of : PublicKey → Bytes
  spki_of (ed25519_key raw) = crypto.ed25519_spki raw
  spki_of (ec_key spki) = spki

  unfoldable pub public_key_fingerprint : Principal → Outcome String
  unfolding public_key
  public_key_fingerprint principal = elim (public_key principal) [
    | ok key ↦ ok (crypto.digest_bytes (spki_of key))
    | raised text ↦ raised text
  ]

  -- _verify_signature behind _public_key: does it return without raising
  unfoldable pub verify_with : PublicKey → Bytes → Bytes → Bool
  verify_with (ed25519_key raw) message signature = crypto.ed25519_verify raw signature message
  verify_with (ec_key spki) message signature =
      let r = from_bytes 0 (take 32 signature) in
      let s = from_bytes 0 (drop 32 signature) in
      if not (nat_eq (length signature) 64)
      then false
      else if leb r 0 || leb p256_order r || leb s 0 || ltb (p256_order / 2) s
      then false
      else crypto.ecdsa_verify spki r s message

  unfoldable pub verify_signature : Principal → Bytes → Bytes → Bool
  unfolding verify_with
  verify_signature principal message signature = elim (public_key principal) [
    | ok key ↦ verify_with key message signature
    | raised text ↦ false
  ]

  -- An ECDSA signature and the one with the negated second part, which the curve's equation accepts
  -- just as well, are not both accepted.
  pub verify_with_low_s :
      (spki message signature negated : Bytes)
      → from_bytes 0 (drop 32 negated) + from_bytes 0 (drop 32 signature) ≡ p256_order
      → verify_with (ec_key spki) message signature ≡ true
      → verify_with (ec_key spki) message negated ≡ false
  unfolding verify_with
  verify_with_low_s spki message signature negated h valid = ground (arith, h, valid)
