-- ===== src/Trust/Envelope.antt =====
-- verify_envelope of v6/trust.py: what makes a signed statement verified.
pub mod Sound
use collective_phase_control.Prelude.{
  ℕ, String, Bool, true, false, not, ◌&&◌, ◌||◌, Option, none, some, List, [], ◌∷◌, ◌++◌, any, ltb,
  nat_eq, ◌==◌, if◌then◌else◌, Outcome, ok, raised, when, is_nil,
}
use collective_phase_control.Ids.{elem, subset, to_set, sorted}
use collective_phase_control.Trust.{
  Bytes, Principal, TrustPolicySpec, TrustedTimeSpec, TrustedTimeReceipt, Subject, trust_policy,
  trusted_time, other_kind, Document, ProtectedHeader, DsseEnvelope, VerificationResult,
}
use collective_phase_control.Trust.Encoding.{dsse_pae}
use collective_phase_control.Trust.Keys.{Crypto, verify_signature}
use collective_phase_control.Trust.Policy.{principal_of, time_status, validate_policy}

-- what the code uses of JSON, pydantic and the schemas: loads_bounded with SignedPayload and
-- parse_document, schema_digest, and the canonical bytes of an envelope
pub record Codec : Type 0 where
  -- the text of the exception of base64.b64decode
  pub base64_error : String → String
  pub read_payload : Bytes → Outcome (ProtectedHeader × Document)
  pub schema_digest : String → String
  pub envelope_bytes : DsseEnvelope → Bytes

abbrev pub is_none {ℓ} : {A : Type ℓ} → Option A → Bool
is_none none = true
is_none (some a) = false

-- an optional digest is this one
abbrev pub is_digest : String → Option String → Bool
is_digest digest none = false
is_digest digest (some d) = digest == d

-- the time that the statement is judged by, if there is one
unfoldable pub authoritative_time : Option TrustedTimeReceipt → Subject → ℕ → Option ℕ
authoritative_time (some receipt) subject signing_time = some receipt.spec.issued_at
authoritative_time none (trusted_time spec) signing_time = some spec.issued_at
authoritative_time none (trust_policy spec) signing_time =
    if nat_eq spec.policy_sequence 0 then some signing_time else none
authoritative_time none other_kind signing_time = none

unfoldable pub receipt_reasons : Option TrustedTimeReceipt → Subject → ProtectedHeader → List String
receipt_reasons (some receipt) subject protected =
    when (not (is_digest receipt.digest protected.trusted_time_receipt_digest))
      "trusted_time_receipt_binding_mismatch"
    ++ when (ltb receipt.spec.valid_until receipt.spec.issued_at)
        "trusted_time_receipt_expired_at_issue"
receipt_reasons none (trusted_time spec) protected =
    when (not (spec.authority_principal_id == protected.principal_id))
      "trusted_time_authority_principal_mismatch"
    ++ when (ltb spec.valid_until spec.issued_at) "trusted_time_receipt_expired_at_issue"
receipt_reasons none (trust_policy spec) protected =
    when (not (nat_eq spec.policy_sequence 0)) "authoritative_time_receipt_required"
receipt_reasons none other_kind protected = "authoritative_time_receipt_required" ∷ []

unfoldable pub time_reasons : Principal → ℕ → Option ℕ → List String
time_reasons principal signing_time none = []
time_reasons principal signing_time (some at) = time_status principal signing_time at

module _ (crypto : Crypto) (codec : Codec) where
  -- the header against the document and the policy
  unfoldable pub binding_reasons : TrustPolicySpec → ProtectedHeader → Document → List String
  binding_reasons policy protected document =
      when (is_none (principal_of policy protected.key_id protected.principal_id))
        "pinned_principal_unknown_or_ambiguous"
      ++ (when (not (protected.schema_name == document.kind)) "schema_kind_mismatch"
          ++ (when (not (protected.schema_digest == codec.schema_digest document.kind))
                "schema_digest_mismatch"
              ++ (when (not (protected.payload_digest == document.digest)) "payload_digest_mismatch"
                  ++ (when (not (protected.tenant_id == document.tenant_id))
                        "tenant_binding_mismatch"
                      ++ (when (not (protected.workspace_id == document.workspace_id))
                            "workspace_binding_mismatch"
                          ++ when (ltb policy.policy_sequence protected.policy_sequence)
                              "policy_sequence_from_future")))))

  -- the loop over the signatures: a signature that does not decode is not valid
  unfoldable pub is_signed_by : Principal → Bytes → String → Bool
  is_signed_by principal message sig = elim (crypto.b64decode sig) [
    | none ↦ false
    | some signature ↦ verify_signature crypto principal message signature
  ]

  -- the checks of a pinned principal
  unfoldable pub principal_checks :
      Option Principal → ProtectedHeader → Document → Option ℕ → Bytes → List String → List String
  unfolding time_reasons is_signed_by
  principal_checks none protected document at message signatures = []
  principal_checks (some principal) protected document at message signatures =
      when (not (elem protected.role principal.roles)) "role_not_authorized"
      ++ (when (not (elem protected.source_system principal.source_systems))
            "source_system_not_authorized"
          ++ (when (not (elem document.kind principal.allowed_kinds)) "document_kind_not_authorized"
              ++ (when (not (subset protected.scope principal.scope)) "scope_not_authorized"
                  ++ (time_reasons principal protected.signing_time at
                      ++ when (not (any (is_signed_by principal message) signatures))
                          "signature_invalid"))))

  -- all reasons against a statement whose payload is read
  unfoldable pub statement_reasons :
      DsseEnvelope
      → Bytes
      → TrustPolicySpec
      → Option TrustedTimeReceipt
      → ProtectedHeader
      → Document
      → List String
  unfolding binding_reasons receipt_reasons authoritative_time principal_checks
  statement_reasons envelope payload_bytes policy receipt protected document =
      validate_policy crypto policy
      ++ (binding_reasons policy protected document
          ++ (receipt_reasons receipt document.subject protected
              ++ principal_checks (principal_of policy protected.key_id protected.principal_id)
                  protected document
                  (authoritative_time receipt document.subject protected.signing_time)
                  (dsse_pae envelope.payload_type payload_bytes) envelope.signatures))

  -- base64 and the parts of a payload
  unfoldable pub open_payload : DsseEnvelope → Outcome (Bytes × ProtectedHeader × Document)
  open_payload envelope = elim (crypto.b64decode envelope.payload) [
    | none ↦ raised (codec.base64_error envelope.payload)
    | some payload_bytes ↦ elim (codec.read_payload payload_bytes) [
      | ok (protected, document) ↦ ok (payload_bytes, protected, document)
      | raised text ↦ raised text
    ]
  ]

  -- a result that carries reasons alone
  abbrev pub rejection : String → List String → VerificationResult
  rejection code reasons = record {
    valid = false;
    code = code;
    reasons = reasons;
    document_digest = none;
    principal_id = none;
    role = none;
    protected = none;
  }

  unfoldable pub statement_result : List String → ProtectedHeader → Document → VerificationResult
  statement_result reasons protected document = record {
    valid = is_nil reasons;
    code = if is_nil reasons then "verified" else "statement_not_verified";
    reasons = reasons;
    document_digest = some document.digest;
    principal_id = some protected.principal_id;
    role = some protected.role;
    protected = some protected;
  }

  unfoldable pub verify_envelope :
      DsseEnvelope
      → TrustPolicySpec
      → Option TrustedTimeReceipt
      → VerificationResult × Option Document
  unfolding open_payload statement_reasons statement_result
  verify_envelope envelope policy receipt = elim (open_payload envelope) [
    | raised text ↦ (rejection "signed_payload_invalid" (text ∷ []), none)
    | ok (payload_bytes, protected, document) ↦ (
      statement_result
          (sorted
            (to_set (statement_reasons envelope payload_bytes policy receipt protected document)))
          protected document,
      some document,
    )
  ]
