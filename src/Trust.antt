-- ===== src/Trust.antt =====
-- v6/trust.py: pinned principals, signed statements, quorum decisions, and policies that follow one
-- another. The documents are those of v6/models.py, the fields that the code reads.
pub mod Encoding
pub mod Keys
pub mod Policy
pub mod Envelope
pub mod Quorum
pub mod Update
pub mod Signing
pub mod Tests
use collective_phase_control.Prelude.{ℕ, String, Bool, Option, List}

abbrev pub Bytes : Type 0
Bytes = List ℕ

pub data Algorithm : Type 0 where
  ed25519 ecdsa_p256_sha256 : Algorithm

pub data RevocationMode : Type 0 where
  prospective retroactive : RevocationMode

-- Principal; instants are numbers, which the code only compares
pub record Principal : Type 0 where
  pub principal_id : String
  pub key_id : String
  pub algorithm : Algorithm
  pub public_key_base64 : String
  pub roles : List String
  pub source_systems : List String
  pub allowed_kinds : List String
  pub scope : List String
  pub infrastructure_domain : String
  pub correlation_domain : String
  pub valid_from : ℕ
  pub valid_until : ℕ
  pub revoked_at : Option ℕ
  pub compromised_at : Option ℕ
  pub revocation_mode : RevocationMode

pub record QuorumRule : Type 0 where
  pub decision_type : String
  pub required_roles : List String
  pub distinct_infrastructure : Bool
  pub distinct_correlation : Bool

pub record TrustPolicySpec : Type 0 where
  pub policy_sequence : ℕ
  pub prior_policy_digest : Option String
  pub root_key_id : String
  pub principals : List Principal
  pub quorum_rules : List QuorumRule

pub record TrustedTimeSpec : Type 0 where
  pub authority_principal_id : String
  pub issued_at : ℕ
  pub valid_until : ℕ
  pub nonce : String

-- TrustPolicyDocument and TrustedTimeReceipt, with the digest of the document
pub record TrustPolicyDocument : Type 0 where
  pub digest : String
  pub spec : TrustPolicySpec

pub record TrustedTimeReceipt : Type 0 where
  pub digest : String
  pub spec : TrustedTimeSpec

-- the class of a parsed document; the code tells two of them apart from the others
pub data Subject : Type 0 where
  trust_policy : TrustPolicySpec → Subject
  trusted_time : TrustedTimeSpec → Subject
  other_kind : Subject

-- Document, with its digest (document_digest) and the part of its metadata that the code compares
pub record Document : Type 0 where
  pub digest : String
  pub kind : String
  pub tenant_id : String
  pub workspace_id : String
  pub subject : Subject

pub record ProtectedHeader : Type 0 where
  pub schema_name : String
  pub schema_digest : String
  pub payload_digest : String
  pub key_id : String
  pub principal_id : String
  pub role : String
  pub source_system : String
  pub scope : List String
  pub tenant_id : String
  pub workspace_id : String
  pub signing_time : ℕ
  pub policy_sequence : ℕ
  pub trusted_time_receipt_digest : Option String

-- DsseEnvelope, its payload type as the bytes of its UTF-8 encoding; a signature is its `sig`
pub record DsseEnvelope : Type 0 where
  pub payload_type : Bytes
  pub payload : String
  pub signatures : List String

pub record VerificationResult : Type 0 where
  pub valid : Bool
  pub code : String
  pub reasons : List String
  pub document_digest : Option String
  pub principal_id : Option String
  pub role : Option String
  pub protected : Option ProtectedHeader
