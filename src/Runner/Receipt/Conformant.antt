-- ===== src/Runner/Receipt/Conformant.antt =====
-- What a receipt that validate_receipt of v6/runner.py accepts has been checked for, in all.
use collective_phase_control.Prelude.{
  ℕ, String, ◌≡◌, sym, true, false, not, ◌&&◌, Option, List, [], arith, ◌==◌, when-nil, none_given,
  append-nil, nil_of_is_nil,
}
use collective_phase_control.Ids.Dict.{Dict}
use collective_phase_control.Runner.{
  same_outcome, same_policy, runner_attested, CapabilityDocument, ExecutionPolicy, RunnerJob,
  RunnerReceipt,
}
use collective_phase_control.Runner.Receipt.{
  Json, is_missing, cleanup_reasons, digest_reasons, classified_outcome, outcome_reasons,
  lease_reasons, image_reasons, artifact_reasons, limit_reasons, conformance_reasons,
  validate_receipt,
}
use collective_phase_control.Runner.Receipt.Sound.{
  same_text, same_outcome_elim, attested, IsInLease, lease_sound, IsRunBy, image_sound,
  HasArtifacts, artifact_sound, IsLimited, limit_sound,
}

module _ {J : Type 0} (json : Json J) where
  -- the receipt is of this job, which is of this capability, which is under this policy
  pub record IsBoundTo (job_digest : String) (job : RunnerJob) (receipt : RunnerReceipt)
      (capability : CapabilityDocument) (policy : ExecutionPolicy) : Type 0 where
    pub of_job : receipt.spec.job_digest ≡ job_digest
    pub of_capability : job.spec.capability_digest ≡ capability.digest
    pub of_policy : job.spec.execution_policy_digest ≡ policy.digest
    pub under_policy : capability.spec.execution_policy_digest ≡ policy.digest
    pub of_schema :
        capability.spec.output_schema_digest ≡ json.schema_digest capability.spec.output_schema_name

  digest_sound :
      (job_digest : String) (job : RunnerJob) (receipt : RunnerReceipt)
      (capability : CapabilityDocument) (policy : ExecutionPolicy)
      → digest_reasons json job_digest job receipt capability policy ≡ []
      → IsBoundTo job_digest job receipt capability policy
  unfolding digest_reasons
  digest_sound job_digest job receipt capability policy h =
      let (of_job, h) = none_given (not (receipt.spec.job_digest == job_digest)) _ _ h in
      let (of_capability, h) =
        none_given (not (job.spec.capability_digest == capability.digest)) _ _ h in
      let (of_policy, h) =
        none_given (not (job.spec.execution_policy_digest == policy.digest)) _ _ h in
      let (under, h) =
        none_given (not (capability.spec.execution_policy_digest == policy.digest)) _ _ h in
      let schema =
        when-nil
          (not (
            capability.spec.output_schema_digest
            == json.schema_digest capability.spec.output_schema_name))
          _ h in
      record {
        of_job = same_text _ _ of_job;
        of_capability = same_text _ _ of_capability;
        of_policy = same_text _ _ of_policy;
        under_policy = same_text _ _ under;
        of_schema = same_text _ _ schema;
      }

  -- the run was cleaned up, its isolation attested where that is asked for, and its outcome is what
  -- its return code and output say
  pub record IsReported (job : RunnerJob) (receipt : RunnerReceipt)
      (capability : CapabilityDocument) (output : Option J) : Type 0 where
    pub cleaned : receipt.spec.cleanup_complete ≡ true
    pub network :
        job.spec.network_policy ≡ runner_attested
        → is_missing receipt.spec.isolation_profile_digest ≡ false
    pub filesystem :
        job.spec.filesystem_policy ≡ runner_attested
        → is_missing receipt.spec.isolation_profile_digest ≡ false
    pub outcome :
        classified_outcome json capability.spec receipt.spec output
        ≡ ([], receipt.spec.claimed_outcome)

  cleanup_sound :
      (job : RunnerJob) (receipt : RunnerReceipt)
      → cleanup_reasons job receipt ≡ []
      → (receipt.spec.cleanup_complete ≡ true)
        × (job.spec.network_policy ≡ runner_attested
            → is_missing receipt.spec.isolation_profile_digest ≡ false)
        × (job.spec.filesystem_policy ≡ runner_attested
            → is_missing receipt.spec.isolation_profile_digest ≡ false)
  unfolding cleanup_reasons
  cleanup_sound job receipt h =
      let (cleaned, h) = none_given (not receipt.spec.cleanup_complete) _ _ h in
      let (network, h) =
        none_given
          (same_policy job.spec.network_policy runner_attested
            && is_missing receipt.spec.isolation_profile_digest)
          _ _ h in
      let filesystem =
        when-nil
          (same_policy job.spec.filesystem_policy runner_attested
            && is_missing receipt.spec.isolation_profile_digest)
          _ h in
      (ground (arith, cleaned), attested _ _ network, attested _ _ filesystem)

  outcome_sound :
      (receipt : RunnerReceipt) (capability : CapabilityDocument) (output : Option J)
      → outcome_reasons json capability receipt output ≡ []
      → classified_outcome json capability.spec receipt.spec output
        ≡ ([], receipt.spec.claimed_outcome)
  unfolding outcome_reasons
  outcome_sound receipt capability output h =
      let classified = classified_outcome json capability.spec receipt.spec output in
      let (free, h) = append-nil classified.0 _ h in
      let right = when-nil (not (same_outcome receipt.spec.claimed_outcome classified.1)) _ h in
      let same = same_outcome_elim _ _ right in λ i. (free i, sym same i)

  pub record IsConformant (job_digest : String) (job : RunnerJob) (receipt : RunnerReceipt)
      (capability : CapabilityDocument) (policy : ExecutionPolicy) (received_at : ℕ)
      (principal_id : String) (prior : List (String × ℕ)) (available : List String)
      (lengths : Dict ℕ) (output : Option J) : Type 0 where
    pub bound : IsBoundTo job_digest job receipt capability policy
    pub in_lease : IsInLease job receipt received_at prior
    pub run : IsRunBy job receipt capability policy principal_id
    pub artifacts : HasArtifacts job receipt capability policy available lengths
    pub limited : IsLimited job receipt policy
    pub reported : IsReported job receipt capability output

  -- An accepted receipt is bound by digests to the job, the capability and the policy; it names the
  -- job's attempt and lease, was received in the lease and is the attempt's first; it comes from the
  -- expected runner with an allowed image; it read exactly the expected materials, all of it is
  -- available and its output is within the policy's bounds; the run was cleaned up and isolated as
  -- asked, and the claimed outcome is the one that its return code and output have.
  pub validate_receipt_sound :
      (job_digest : String) (job : RunnerJob) (receipt : RunnerReceipt)
      (capability : CapabilityDocument) (policy : ExecutionPolicy) (received_at : ℕ)
      (principal_id : String) (prior : List (String × ℕ)) (available : List String)
      (lengths : Dict ℕ) (output : Option J)
      → (validate_receipt json job_digest job receipt capability policy received_at principal_id
          prior available lengths output).accepted
        ≡ true
      → IsConformant job_digest job receipt capability policy received_at principal_id prior
          available lengths output
  unfolding validate_receipt conformance_reasons
  validate_receipt_sound job_digest job receipt capability policy received_at principal_id prior
        available lengths output h =
      let n = nil_of_is_nil _ h in
      let (digests, n) =
        append-nil (digest_reasons json job_digest job receipt capability policy) _ n in
      let (lease, n) = append-nil (lease_reasons job receipt received_at prior) _ n in
      let (image, n) = append-nil (image_reasons job receipt capability policy principal_id) _ n in
      let (artifacts, n) =
        append-nil (artifact_reasons job receipt capability policy available lengths) _ n in
      let (limits, n) = append-nil (limit_reasons job receipt policy) _ n in
      let (cleanup, outcome) = append-nil (cleanup_reasons job receipt) _ n in
      let (cleaned, network, filesystem) = cleanup_sound job receipt cleanup in
      record {
        bound = digest_sound job_digest job receipt capability policy digests;
        in_lease = lease_sound job receipt received_at prior lease;
        run = image_sound job receipt capability policy principal_id image;
        artifacts = artifact_sound job receipt capability policy available lengths artifacts;
        limited = limit_sound job receipt policy limits;
        reported = record {
          cleaned = cleaned;
          network = network;
          filesystem = filesystem;
          outcome = outcome_sound receipt capability output outcome;
        };
      }
