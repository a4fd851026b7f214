-- ===== src/Trust/Signing.antt =====
-- build_protected_header, _signature_bytes and sign_document of v6/trust.py, which make statements.
pub mod Verified
pub mod Accepted
pub mod Entitled
use collective_phase_control.Prelude.{
  ℕ, zero, suc, ◌-◌, ◌/◌, ◌%◌, String, Option, none, some, List, [], ◌∷◌, ◌++◌, leb, if◌then◌else◌,
}
use collective_phase_control.Trust.{Bytes, Principal, Document, ProtectedHeader, DsseEnvelope}
use collective_phase_control.Trust.Encoding.{dsse_pae}
use collective_phase_control.Trust.Keys.{p256_order}
use collective_phase_control.Trust.Envelope.{Codec}

-- a private key, by its library's handle
pub data PrivateKey : Type 0 where
  ed25519_private : Bytes → PrivateKey
  ecdsa_private : Bytes → PrivateKey

-- what the code uses of the cryptography library and of base64 to sign
pub record Signing : Type 0 where
  pub ed25519_sign : Bytes → Bytes → Bytes
  -- decode_dss_signature of private_key.sign(message, ECDSA(SHA256))
  pub ecdsa_sign : Bytes → Bytes → ℕ × ℕ
  pub b64encode : Bytes → String
  -- canonical_bytes of the SignedPayload of a header and a document
  pub payload_bytes : ProtectedHeader → Document → Bytes
  -- PAYLOAD_TYPE
  pub payload_type : Bytes

-- n.to_bytes(count, "big")
unfoldable pub to_bytes : ℕ → ℕ → Bytes
to_bytes zero n = []
to_bytes (suc count) n = to_bytes count (n / 256) ++ n % 256 ∷ []

abbrev pub min : ℕ → ℕ → ℕ
min m n = if leb m n then m else n

unfoldable pub build_protected_header :
    Codec
    → Document
    → Principal
    → String
    → String
    → List String
    → ℕ
    → ℕ
    → Option String
    → ProtectedHeader
build_protected_header codec document principal role source_system scope signing_time
      policy_sequence receipt_digest =
    record {
      schema_name = document.kind;
      schema_digest = codec.schema_digest document.kind;
      payload_digest = document.digest;
      key_id = principal.key_id;
      principal_id = principal.principal_id;
      role = role;
      source_system = source_system;
      scope = scope;
      tenant_id = document.tenant_id;
      workspace_id = document.workspace_id;
      signing_time = signing_time;
      policy_sequence = policy_sequence;
      trusted_time_receipt_digest = receipt_digest;
    }

module _ (signing : Signing) where
  -- the ECDSA signature is put in the form with the lower second part
  unfoldable pub signature_bytes : PrivateKey → Bytes → Bytes
  signature_bytes (ed25519_private key) message = signing.ed25519_sign key message
  signature_bytes (ecdsa_private key) message =
      let (r, s) = signing.ecdsa_sign key message in
      to_bytes 32 r ++ to_bytes 32 (min s (p256_order - s))

  unfoldable pub sign_document : Document → PrivateKey → ProtectedHeader → DsseEnvelope
  unfolding signature_bytes
  sign_document document key protected =
      let payload = signing.payload_bytes protected document in
      record {
        payload_type = signing.payload_type;
        payload = signing.b64encode payload;
        signatures =
            signing.b64encode (signature_bytes key (dsse_pae signing.payload_type payload)) ∷ [];
      }
