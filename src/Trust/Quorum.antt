-- ===== src/Trust/Quorum.antt =====
-- evaluate_quorum of v6/trust.py: verified statements of distinct principals in the roles of a rule.
pub mod Sound
use collective_phase_control.Prelude.{
  String, Bool, true, false, not, ◌&&◌, ◌||◌, Option, none, some, List, [], ◌∷◌, ◌++◌, map, nat_eq,
  length, ◌==◌, if◌then◌else◌, Outcome, ok, raised, when, is_nil,
}
use collective_phase_control.Ids.{subset, is_repeated, to_set, sorted}
use collective_phase_control.Trust.{
  Principal, QuorumRule, TrustPolicySpec, TrustedTimeReceipt, ProtectedHeader, DsseEnvelope,
  VerificationResult,
}
use collective_phase_control.Trust.Keys.{Crypto}
use collective_phase_control.Trust.Policy.{principal_of}
use collective_phase_control.Trust.Envelope.{Codec, rejection, verify_envelope}

-- a member of `results` with that of `principals`: the result's role, which is its header's
pub record Signer : Type 0 where
  pub role : String
  pub principal : Principal

-- next((item for item in quorum_rules if item.decision_type == decision_type), None)
unfoldable pub rule_for : String → List QuorumRule → Option QuorumRule
rule_for decision_type [] = none
rule_for decision_type (rule ∷ rules) =
    let rest = rule_for decision_type rules in
    if rule.decision_type == decision_type then some rule else rest

-- the body of the loop for a valid result: another subject ends the evaluation with its digest
unfoldable pub admit :
    TrustPolicySpec → String → ProtectedHeader → Outcome (List Signer) → Outcome (List Signer)
admit policy subject_digest protected rest =
    if not (protected.payload_digest == subject_digest)
    then raised protected.payload_digest
    else elim (principal_of policy protected.key_id protected.principal_id) [
      | none ↦ rest
      | some principal ↦ elim rest [
        | ok signers ↦ ok (record { role = protected.role; principal = principal } ∷ signers)
        | raised digest ↦ raised digest
      ]
    ]

-- result.valid and result.protected is not None
unfoldable pub header_of : VerificationResult → Option ProtectedHeader
header_of result = if result.valid then result.protected else none

-- the checks behind the loop
unfoldable pub quorum_reasons : QuorumRule → List Signer → List String
quorum_reasons rule signers =
    let roles = map (λ s. s.role) signers in
    when
      (not (subset roles rule.required_roles && subset rule.required_roles roles)
        || not (nat_eq (length roles) (length rule.required_roles)))
      "required_quorum_roles_not_satisfied"
    ++ (when (is_repeated (map (λ s. s.principal.principal_id) signers))
          "quorum_principal_id_collision"
        ++ (when (is_repeated (map (λ s. s.principal.key_id) signers)) "quorum_key_id_collision"
            ++ (when
                  (rule.distinct_infrastructure
                    && is_repeated (map (λ s. s.principal.infrastructure_domain) signers))
                  "quorum_infrastructure_collision"
                ++ when
                    (rule.distinct_correlation
                      && is_repeated (map (λ s. s.principal.correlation_domain) signers))
                    "quorum_correlation_collision")))

abbrev pub quorum_result : String → List String → VerificationResult
quorum_result subject_digest reasons = record {
  valid = is_nil reasons;
  code = if is_nil reasons then "quorum_satisfied" else "quorum_not_satisfied";
  reasons = reasons;
  document_digest = some subject_digest;
  principal_id = none;
  role = none;
  protected = none;
}

module _ (crypto : Crypto) (codec : Codec) where
  -- for envelope in envelopes
  unfoldable pub signers_of :
      String → List DsseEnvelope → TrustPolicySpec → TrustedTimeReceipt → Outcome (List Signer)
  unfolding admit header_of
  signers_of subject_digest [] policy receipt = ok []
  signers_of subject_digest (envelope ∷ envelopes) policy receipt =
      let rest = signers_of subject_digest envelopes policy receipt in
      elim (header_of (verify_envelope crypto codec envelope policy (some receipt)).0) [
        | none ↦ rest
        | some protected ↦ admit policy subject_digest protected rest
      ]

  unfoldable pub evaluate_quorum :
      String
      → String
      → List DsseEnvelope
      → TrustPolicySpec
      → TrustedTimeReceipt
      → VerificationResult
  unfolding rule_for signers_of quorum_reasons
  evaluate_quorum decision_type subject_digest envelopes policy receipt =
      elim (rule_for decision_type policy.quorum_rules) [
        | none ↦ rejection crypto codec "quorum_rule_missing" (decision_type ∷ [])
        | some rule ↦ elim (signers_of subject_digest envelopes policy receipt) [
          | raised digest ↦ rejection crypto codec "quorum_subject_mismatch" (digest ∷ [])
          | ok signers ↦
              quorum_result subject_digest (sorted (to_set (quorum_reasons rule signers)))
        ]
      ]
