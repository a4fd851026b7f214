-- ===== src/Trust/Update.antt =====
-- v6/trust.py: inspect_genesis, verify_policy_update and verify_trusted_time_advance, by which the
-- trust of a workspace starts and goes on.
pub mod Chain
use collective_phase_control.Prelude.{
  ℕ, suc, String, Bool, true, false, not, Option, none, some, List, [], ◌∷◌, ◌++◌, leb, nat_eq,
  ◌==◌, if◌then◌else◌, Outcome, ok, raised, when, is_nil,
}
use collective_phase_control.Ids.{to_set, sorted}
use collective_phase_control.Trust.{
  Principal, TrustPolicySpec, TrustPolicyDocument, TrustedTimeSpec, TrustedTimeReceipt, Subject,
  trust_policy, trusted_time, other_kind, Document, DsseEnvelope, VerificationResult,
}
use collective_phase_control.Trust.Keys.{Crypto, public_key_fingerprint}
use collective_phase_control.Trust.Policy.{validate_policy}
use collective_phase_control.Trust.Envelope.{
  Codec, is_digest, rejection, open_payload, verify_envelope,
}
use collective_phase_control.Trust.Quorum.{evaluate_quorum}

-- next((item for item in principals if item.key_id == root_key_id), None)
unfoldable pub root_of_policy : String → List Principal → Option Principal
root_of_policy root_key_id [] = none
root_of_policy root_key_id (p ∷ ps) =
    let rest = root_of_policy root_key_id ps in if p.key_id == root_key_id then some p else rest

-- the policy of a document that is a first one
unfoldable pub genesis_policy : Subject → Option TrustPolicySpec
genesis_policy (trust_policy spec) = if nat_eq spec.policy_sequence 0 then some spec else none
genesis_policy (trusted_time spec) = none
genesis_policy other_kind = none

-- the receipt of a document that is one
unfoldable pub receipt_of : Option Document → Option TrustedTimeReceipt
receipt_of none = none
receipt_of (some document) = elim document.subject [
  | trusted_time spec ↦ some (record { digest = document.digest; spec = spec })
  | trust_policy spec ↦ none
  | other_kind ↦ none
]

abbrev pub summary : String → String → List String → Option String → VerificationResult
summary good bad reasons document_digest = record {
  valid = is_nil reasons;
  code = if is_nil reasons then good else bad;
  reasons = reasons;
  document_digest = document_digest;
  principal_id = none;
  role = none;
  protected = none;
}

module _ (crypto : Crypto) (codec : Codec) where
  -- public_key_fingerprint(root) raises on a root whose key is not well formed
  unfoldable pub fingerprint_reasons : Option Principal → String → Outcome (List String)
  fingerprint_reasons none expected = ok ("genesis_root_spki_fingerprint_mismatch" ∷ [])
  fingerprint_reasons (some root) expected = elim (public_key_fingerprint crypto root) [
    | raised text ↦ raised text
    | ok fingerprint ↦
        ok (when (not (fingerprint == expected)) "genesis_root_spki_fingerprint_mismatch")
  ]

  unfoldable pub inspect_first :
      DsseEnvelope
      → List String
      → Document
      → String
      → Option TrustPolicySpec
      → Outcome VerificationResult
  unfolding fingerprint_reasons root_of_policy
  inspect_first envelope reasons document expected none =
      ok (rejection crypto codec "genesis_invalid" (reasons ++ "genesis_policy_required" ∷ []))
  inspect_first envelope reasons document expected (some policy) =
      elim (fingerprint_reasons (root_of_policy policy.root_key_id policy.principals) expected) [
        | raised text ↦ raised text
        | ok root_reasons ↦ ok (
            summary "genesis_verified" "genesis_invalid"
              (sorted (
                to_set (
                  reasons
                  ++ (root_reasons
                      ++ (verify_envelope crypto codec envelope policy none).0.reasons))))
              (some document.digest))
      ]

  unfoldable pub inspect_genesis : DsseEnvelope → String → String → Outcome VerificationResult
  unfolding inspect_first genesis_policy
  inspect_genesis envelope expected_root expected_envelope =
      let reasons =
        when (not (crypto.digest_bytes (codec.envelope_bytes envelope) == expected_envelope))
          "genesis_envelope_fingerprint_mismatch" in
      elim (open_payload crypto codec envelope) [
        | raised text ↦ ok (rejection crypto codec "genesis_invalid" (text ∷ []))
        | ok (payload_bytes, protected, document) ↦
            inspect_first envelope reasons document expected_root (genesis_policy document.subject)
      ]

  unfoldable pub update_reasons :
      TrustPolicyDocument
      → TrustPolicyDocument
      → List DsseEnvelope
      → TrustedTimeReceipt
      → List String
  update_reasons prior candidate statements receipt =
      let quorum =
        evaluate_quorum crypto codec "trust_update" candidate.digest statements prior.spec
          receipt in
      validate_policy crypto candidate.spec
      ++ (when (not (nat_eq candidate.spec.policy_sequence (suc prior.spec.policy_sequence)))
            "trust_policy_sequence_not_monotonic"
          ++ (when (not (is_digest prior.digest candidate.spec.prior_policy_digest))
                "trust_policy_predecessor_mismatch"
              ++ (if quorum.valid then [] else quorum.reasons)))

  unfoldable pub verify_policy_update :
      TrustPolicyDocument
      → TrustPolicyDocument
      → List DsseEnvelope
      → TrustedTimeReceipt
      → VerificationResult
  unfolding update_reasons
  verify_policy_update prior candidate statements receipt =
      summary "trust_policy_update_verified" "trust_policy_update_rejected"
        (sorted (to_set (update_reasons prior candidate statements receipt)))
        (some candidate.digest)

  unfoldable pub advance_reasons :
      TrustedTimeReceipt → TrustedTimeReceipt → List String → List String → List String
  advance_reasons previous candidate preliminary bound =
      preliminary
      ++ (bound
          ++ (when (leb candidate.spec.issued_at previous.spec.issued_at)
                "trusted_time_not_monotonic"
              ++ when (candidate.spec.nonce == previous.spec.nonce) "trusted_time_nonce_reused"))

  unfoldable pub advanced :
      TrustedTimeReceipt
      → VerificationResult
      → List String
      → VerificationResult × Option TrustedTimeReceipt
  advanced candidate bound reasons = (
    record (summary "trusted_time_advanced" "trusted_time_advance_rejected" reasons
        (some candidate.digest)) {
          principal_id = bound.principal_id;
          role = bound.role;
          protected = bound.protected;
        },
    if is_nil reasons then some candidate else none,
  )

  unfoldable pub verify_trusted_time_advance :
      TrustedTimeReceipt
      → DsseEnvelope
      → TrustPolicySpec
      → VerificationResult × Option TrustedTimeReceipt
  unfolding receipt_of advance_reasons advanced
  verify_trusted_time_advance previous envelope policy =
      let preliminary = verify_envelope crypto codec envelope policy none in
      elim (receipt_of preliminary.1) [
        | none ↦ (
          rejection crypto codec "trusted_time_advance_rejected" (
              sorted
                (to_set (preliminary.0.reasons ++ "trusted_time_receipt_subject_required" ∷ []))),
          none,
        )
        | some candidate ↦
            let bound = (verify_envelope crypto codec envelope policy (some candidate)).0 in
            advanced candidate bound (
              sorted
                (to_set (advance_reasons previous candidate preliminary.0.reasons bound.reasons)))
      ]
