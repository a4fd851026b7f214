-- ===== src/Runner/Receipt.antt =====
-- validate_receipt of v6/runner.py, the conformance of a runner's receipt with its job.
pub mod Sound
pub mod Conformant
use collective_phase_control.Prelude.{
  ℕ, ◌+◌, String, Bool, true, false, not, ◌&&◌, ◌||◌, Option, none, some, List, [], ◌∷◌, ◌++◌, ltb,
  nat_eq, length, ◌==◌, if◌then◌else◌, when, is_nil, any,
}
use collective_phase_control.Ids.{elem, subset, to_set, sorted}
use collective_phase_control.Ids.Dict.{Dict, get}
use collective_phase_control.Runner.{
  OutcomeName, success, partial, failure, timeout, same_outcome, IsolationPolicy, runner_attested,
  no_isolation, same_policy, OutcomeSelector, CapabilitySpec, CapabilityDocument,
  ExecutionPolicySpec, ExecutionPolicy, RunnerJobSpec, RunnerJob, RunnerReceiptSpec, RunnerReceipt,
  RunnerConformance,
}

-- what the code does with JSON values and schemas
pub record Json (J : Type 0) : Type 0 where
  -- isinstance(value, dict)
  pub is_dict : J → Bool
  -- isinstance(value, str)
  pub as_text : J → Option String
  -- parse_document(value).kind, none where it raises ValueError
  pub document_kind : J → Option String
  -- resolve_pointer(value, pointer), none where it raises ValueError
  pub resolve_pointer : J → String → Option J
  pub schema_digest : String → String

abbrev pub is_missing {ℓ} : {A : Type ℓ} → Option A → Bool
is_missing none = true
is_missing (some a) = false

-- artifact_lengths.get(digest) == n
abbrev pub has_length : Option ℕ → ℕ → Bool
has_length none n = false
has_length (some m) n = nat_eq m n

-- artifact_lengths.get(digest, 0)
abbrev pub or_zero : Option ℕ → ℕ
or_zero none = 0
or_zero (some n) = n

-- sum(artifact_lengths.get(item, 0) for item in items)
unfoldable pub total_length : Dict ℕ → List String → ℕ
total_length lengths [] = 0
total_length lengths (item ∷ items) = or_zero (get item lengths) + total_length lengths items

-- (job_id, attempt) in prior_attempts
abbrev pub is_prior : String → ℕ → List (String × ℕ) → Bool
is_prior job_id attempt [] = false
is_prior job_id attempt ((j, n) ∷ prior) =
    (job_id == j && nat_eq attempt n) || is_prior job_id attempt prior

unfoldable pub expected_materials : CapabilityDocument → RunnerJob → List String
expected_materials capability job = to_set (
    capability.spec.material_digests
    ++ (job.spec.input_digests
        ++ job.spec.capability_statement_digest ∷ job.spec.execution_policy_statement_digest ∷ []))

unfoldable pub output_artifacts : RunnerReceipt → List String
output_artifacts receipt =
    to_set (receipt.spec.stdout_digest ∷ receipt.spec.stderr_digest ∷ receipt.spec.output_digests)

-- the job, the attempt and the times that the receipt names
unfoldable pub lease_reasons : RunnerJob → RunnerReceipt → ℕ → List (String × ℕ) → List String
lease_reasons job receipt received_at prior_attempts =
    when (not (receipt.spec.job_id == job.spec.job_id)) "runner_job_id_mismatch"
    ++ (when (not (nat_eq receipt.spec.attempt job.spec.attempt)) "runner_attempt_mismatch"
        ++ (when (not (receipt.spec.lease_id == job.spec.lease_id)) "runner_lease_id_mismatch"
            ++ (when (ltb job.spec.lease_expires_at received_at) "runner_lease_expired"
                ++ (when (ltb received_at receipt.spec.completed_at)
                      "runner_receipt_completed_in_future"
                    ++ (when (ltb receipt.spec.started_at job.created_at)
                          "runner_start_before_job_creation"
                        ++ (when (ltb job.spec.lease_expires_at receipt.spec.completed_at)
                              "runner_completion_after_lease_expiry"
                            ++ when (is_prior job.spec.job_id job.spec.attempt prior_attempts)
                                "runner_attempt_replay"))))))

-- the runner and its image
unfoldable pub image_reasons :
    RunnerJob → RunnerReceipt → CapabilityDocument → ExecutionPolicy → String → List String
image_reasons job receipt capability policy expected_runner_principal_id =
    when (not (receipt.spec.runner_principal_id == expected_runner_principal_id))
      "runner_principal_unrecognized"
    ++ (when (not (receipt.spec.image_digest == job.spec.image_digest))
          "runner_image_digest_mismatch"
        ++ (when (not (capability.spec.image_digest == job.spec.image_digest))
              "runner_capability_image_mismatch"
            ++ when (not (elem job.spec.image_digest policy.spec.allowed_image_digests))
                "runner_image_not_allowed_by_execution_policy"))

-- what was read and written
unfoldable pub artifact_reasons :
    RunnerJob
    → RunnerReceipt
    → CapabilityDocument
    → ExecutionPolicy
    → List String
    → Dict ℕ
    → List String
artifact_reasons job receipt capability policy available lengths =
    let materials = expected_materials capability job in
    when
      (not (
        subset receipt.spec.material_digests materials
        && subset materials receipt.spec.material_digests))
      "runner_material_closure_mismatch"
    ++ (when (not (subset materials available && subset (output_artifacts receipt) available))
          "runner_artifact_digest_missing"
        ++ (when
              (not (
                has_length (get receipt.spec.stdout_digest lengths)
                  receipt.spec.stdout_captured_bytes))
              "runner_stdout_length_mismatch"
            ++ (when
                  (not (
                    has_length (get receipt.spec.stderr_digest lengths)
                      receipt.spec.stderr_captured_bytes))
                  "runner_stderr_length_mismatch"
                ++ when
                    (ltb policy.spec.maximum_output_bytes
                      (total_length lengths (output_artifacts receipt)))
                    "runner_output_policy_exceeded")))

-- the limits of the job against the policy, and of the receipt against the job
unfoldable pub limit_reasons : RunnerJob → RunnerReceipt → ExecutionPolicy → List String
limit_reasons job receipt policy =
    when (ltb policy.spec.timeout_seconds job.spec.timeout_seconds) "runner_timeout_policy_exceeded"
    ++ (when (ltb policy.spec.stdout_limit job.spec.stdout_limit) "runner_stdout_policy_exceeded"
        ++ (when (ltb policy.spec.stderr_limit job.spec.stderr_limit)
              "runner_stderr_policy_exceeded"
            ++ (when (not (same_policy job.spec.network_policy policy.spec.network_policy))
                  "runner_network_policy_mismatch"
                ++ (when
                      (not (same_policy job.spec.filesystem_policy policy.spec.filesystem_policy))
                      "runner_filesystem_policy_mismatch"
                    ++ (when (ltb job.spec.stdout_limit receipt.spec.stdout_captured_bytes)
                          "runner_stdout_limit_exceeded"
                        ++ when (ltb job.spec.stderr_limit receipt.spec.stderr_captured_bytes)
                            "runner_stderr_limit_exceeded")))))

unfoldable pub cleanup_reasons : RunnerJob → RunnerReceipt → List String
cleanup_reasons job receipt =
    when (not receipt.spec.cleanup_complete) "runner_cleanup_incomplete"
    ++ (when
          (same_policy job.spec.network_policy runner_attested
            && is_missing receipt.spec.isolation_profile_digest)
          "runner_network_isolation_attestation_missing"
        ++ when
            (same_policy job.spec.filesystem_policy runner_attested
              && is_missing receipt.spec.isolation_profile_digest)
            "runner_filesystem_isolation_attestation_missing")

-- return_code_outcomes.get(code, "failure")
abbrev pub or_failure : Option OutcomeName → OutcomeName
or_failure none = failure
or_failure (some outcome) = outcome

module _ {J : Type 0} (json : Json J) where
  -- the digests that bind receipt, job, capability and policy
  unfoldable pub digest_reasons :
      String → RunnerJob → RunnerReceipt → CapabilityDocument → ExecutionPolicy → List String
  digest_reasons job_digest job receipt capability policy =
      when (not (receipt.spec.job_digest == job_digest)) "runner_job_digest_mismatch"
      ++ (when (not (job.spec.capability_digest == capability.digest))
            "runner_capability_digest_mismatch"
          ++ (when (not (job.spec.execution_policy_digest == policy.digest))
                "runner_execution_policy_digest_mismatch"
              ++ (when (not (capability.spec.execution_policy_digest == policy.digest))
                    "capability_execution_policy_digest_mismatch"
                  ++ when
                      (not (
                        capability.spec.output_schema_digest
                        == json.schema_digest capability.spec.output_schema_name))
                      "runner_output_schema_digest_mismatch")))

  -- the document of an outcome that is no failure: a reason makes it one
  unfoldable pub document_reasons : CapabilitySpec → RunnerReceiptSpec → Option J → List String
  document_reasons capability receipt none = "runner_output_schema_document_missing" ∷ []
  document_reasons capability receipt (some output) =
      if not (nat_eq (length receipt.output_digests) 1)
      then "runner_output_schema_document_missing" ∷ []
      else if not (json.is_dict output)
      then "runner_output_schema_document_invalid" ∷ []
      else elim (json.document_kind output) [
        | none ↦ "runner_output_schema_document_invalid" ∷ []
        | some kind ↦
            when (not (kind == capability.output_schema_name)) "runner_output_kind_mismatch"
      ]

  -- what the selector makes of the document
  unfoldable pub selected_outcome : OutcomeSelector → J → List String × OutcomeName
  selected_outcome selector output = elim (json.resolve_pointer output selector.json_pointer) [
    | none ↦ ("runner_output_selector_invalid" ∷ [], failure)
    | some value ↦ elim (json.as_text value) [
      | none ↦ ("runner_output_selector_unrecognized" ∷ [], failure)
      | some text ↦ elim (get text selector.values) [
        | none ↦ ("runner_output_selector_unrecognized" ∷ [], failure)
        | some outcome ↦ ([], outcome)
      ]
    ]
  ]

  -- `if selector is not None and classified_outcome != "failure"`
  unfoldable pub selector_outcome :
      Option OutcomeSelector → Option J → OutcomeName → List String × OutcomeName
  selector_outcome none output outcome = ([], outcome)
  selector_outcome (some selector) output failure = ([], failure)
  selector_outcome (some selector) none outcome =
      ("runner_output_selector_document_missing" ∷ [], failure)
  selector_outcome (some selector) (some output) outcome = selected_outcome selector output

  -- the outcome of a run that ended with a return code
  unfoldable pub returned_outcome :
      CapabilitySpec → RunnerReceiptSpec → Option J → OutcomeName → List String × OutcomeName
  unfolding document_reasons
  returned_outcome capability receipt output failure = ([], failure)
  returned_outcome capability receipt output outcome =
      let against = document_reasons capability receipt output in
      if is_nil against
      then selector_outcome capability.output_selector output outcome
      else (against, failure)

  unfoldable pub classified_outcome :
      CapabilitySpec → RunnerReceiptSpec → Option J → List String × OutcomeName
  classified_outcome capability receipt output =
      if receipt.timeout then ([], timeout) else elim receipt.return_code [
        | none ↦ ([], failure)
        | some code ↦
            returned_outcome capability receipt output
              (or_failure (get code capability.return_code_outcomes))
      ]

  unfoldable pub outcome_reasons : CapabilityDocument → RunnerReceipt → Option J → List String
  outcome_reasons capability receipt output =
      let classified = classified_outcome capability.spec receipt.spec output in
      classified.0
      ++ when (not (same_outcome receipt.spec.claimed_outcome classified.1)) "runner_outcome_forged"

  unfoldable pub conformance_reasons :
      String
      → RunnerJob
      → RunnerReceipt
      → CapabilityDocument
      → ExecutionPolicy
      → ℕ
      → String
      → List (String × ℕ)
      → List String
      → Dict ℕ
      → Option J
      → List String
  conformance_reasons job_digest job receipt capability policy received_at principal_id
        prior_attempts available lengths output =
      digest_reasons job_digest job receipt capability policy
      ++ (lease_reasons job receipt received_at prior_attempts
          ++ (image_reasons job receipt capability policy principal_id
              ++ (artifact_reasons job receipt capability policy available lengths
                  ++ (limit_reasons job receipt policy
                      ++ (cleanup_reasons job receipt
                          ++ outcome_reasons capability receipt output)))))

  unfoldable pub validate_receipt :
      String
      → RunnerJob
      → RunnerReceipt
      → CapabilityDocument
      → ExecutionPolicy
      → ℕ
      → String
      → List (String × ℕ)
      → List String
      → Dict ℕ
      → Option J
      → RunnerConformance
  unfolding conformance_reasons
  validate_receipt job_digest job receipt capability policy received_at principal_id prior_attempts
        available lengths output =
      let reasons =
        conformance_reasons job_digest job receipt capability policy received_at principal_id
          prior_attempts available lengths output in
      record {
        accepted = is_nil reasons;
        code = if is_nil reasons then "runner_receipt_conformant" else "runner_receipt_rejected";
        reasons = sorted (to_set reasons);
      }
