-- ===== src/Runner/Receipt/Sound.antt =====
-- What a conformant receipt has been checked for, group by group of the checks of validate_receipt.
use collective_phase_control.Prelude.{
  ℕ, ◌≤◌, String, ◌≡◌, refl, ap, ◌↔◌, Bool, true, false, not, ◌&&◌, Option, none, some, List, [],
  Memᴰ, arith, ltb, nat_eq, ◌==◌, eq_iff, when-nil, none_given,
}
use collective_phase_control.Ids.{elem, subset}
use collective_phase_control.Ids.Laws.{subset_elim, elem_iff}
use collective_phase_control.Ids.Dict.{Dict, get}
use collective_phase_control.Runner.{
  OutcomeName, success, partial, failure, timeout, same_outcome, IsolationPolicy, runner_attested,
  same_policy, no_isolation, CapabilityDocument, ExecutionPolicy, RunnerJob, RunnerReceipt,
}
use collective_phase_control.Runner.Receipt.{
  is_missing, has_length, total_length, is_prior, expected_materials, output_artifacts,
  lease_reasons, image_reasons, artifact_reasons, limit_reasons,
}

pub same_text : (x y : String) → not (x == y) ≡ false → x ≡ y
same_text x y h = (eq_iff x y).0 (ground (arith, h))

pub same_outcome_elim : (o p : OutcomeName) → not (same_outcome o p) ≡ false → o ≡ p
same_outcome_elim success success h = refl
same_outcome_elim partial partial h = refl
same_outcome_elim failure failure h = refl
same_outcome_elim timeout timeout h = refl
same_outcome_elim success partial h = cc
same_outcome_elim success failure h = cc
same_outcome_elim success timeout h = cc
same_outcome_elim partial success h = cc
same_outcome_elim partial failure h = cc
same_outcome_elim partial timeout h = cc
same_outcome_elim failure success h = cc
same_outcome_elim failure partial h = cc
same_outcome_elim failure timeout h = cc
same_outcome_elim timeout success h = cc
same_outcome_elim timeout partial h = cc
same_outcome_elim timeout failure h = cc

same_policy_elim : (p q : IsolationPolicy) → not (same_policy p q) ≡ false → p ≡ q
same_policy_elim runner_attested runner_attested h = refl
same_policy_elim no_isolation no_isolation h = refl
same_policy_elim runner_attested no_isolation h = cc
same_policy_elim no_isolation runner_attested h = cc

has_length_elim : (o : Option ℕ) (n : ℕ) → not (has_length o n) ≡ false → o ≡ some n
has_length_elim none n h = cc
has_length_elim (some m) n h = ap some (ground (arith, h))

-- a runner that has to attest its isolation has done so
pub attested :
    (p : IsolationPolicy) (o : Option String)
    → same_policy p runner_attested && is_missing o ≡ false
    → p ≡ runner_attested
    → is_missing o ≡ false
attested runner_attested o h same = h
attested no_isolation o h same = cc

pub record IsInLease (job : RunnerJob) (receipt : RunnerReceipt) (received_at : ℕ)
    (prior : List (String × ℕ)) : Type 0 where
  pub same_job : receipt.spec.job_id ≡ job.spec.job_id
  pub same_attempt : receipt.spec.attempt ≡ job.spec.attempt
  pub same_lease : receipt.spec.lease_id ≡ job.spec.lease_id
  pub received_in_lease : received_at ≤ job.spec.lease_expires_at
  pub completed_before : receipt.spec.completed_at ≤ received_at
  pub started_after : job.created_at ≤ receipt.spec.started_at
  pub first_completion : is_prior job.spec.job_id job.spec.attempt prior ≡ false

pub lease_sound :
    (job : RunnerJob) (receipt : RunnerReceipt) (received_at : ℕ) (prior : List (String × ℕ))
    → lease_reasons job receipt received_at prior ≡ []
    → IsInLease job receipt received_at prior
unfolding lease_reasons
lease_sound job receipt received_at prior h =
    let (same_job, h) = none_given (not (receipt.spec.job_id == job.spec.job_id)) _ _ h in
    let (same_attempt, h) = none_given (not (nat_eq receipt.spec.attempt job.spec.attempt)) _ _ h in
    let (same_lease, h) = none_given (not (receipt.spec.lease_id == job.spec.lease_id)) _ _ h in
    let (in_lease, h) = none_given (ltb job.spec.lease_expires_at received_at) _ _ h in
    let (before, h) = none_given (ltb received_at receipt.spec.completed_at) _ _ h in
    let (after, h) = none_given (ltb receipt.spec.started_at job.created_at) _ _ h in
    let (ended, h) = none_given (ltb job.spec.lease_expires_at receipt.spec.completed_at) _ _ h in
    record {
      same_job = same_text receipt.spec.job_id job.spec.job_id same_job;
      same_attempt = ground (arith, same_attempt);
      same_lease = same_text receipt.spec.lease_id job.spec.lease_id same_lease;
      received_in_lease = ground (arith, in_lease);
      completed_before = ground (arith, before);
      started_after = ground (arith, after);
      first_completion = when-nil (is_prior job.spec.job_id job.spec.attempt prior) _ h;
    }

pub record IsRunBy (job : RunnerJob) (receipt : RunnerReceipt) (capability : CapabilityDocument)
    (policy : ExecutionPolicy) (principal_id : String) : Type 0 where
  pub runner : receipt.spec.runner_principal_id ≡ principal_id
  pub image : receipt.spec.image_digest ≡ job.spec.image_digest
  pub capability_image : capability.spec.image_digest ≡ job.spec.image_digest
  pub allowed : Memᴰ job.spec.image_digest policy.spec.allowed_image_digests

pub image_sound :
    (job : RunnerJob) (receipt : RunnerReceipt) (capability : CapabilityDocument)
    (policy : ExecutionPolicy) (principal_id : String)
    → image_reasons job receipt capability policy principal_id ≡ []
    → IsRunBy job receipt capability policy principal_id
unfolding image_reasons
image_sound job receipt capability policy principal_id h =
    let (runner, h) = none_given (not (receipt.spec.runner_principal_id == principal_id)) _ _ h in
    let (image, h) = none_given (not (receipt.spec.image_digest == job.spec.image_digest)) _ _ h in
    let (own, h) = none_given (not (capability.spec.image_digest == job.spec.image_digest)) _ _ h in
    let allowed =
      when-nil (not (elem job.spec.image_digest policy.spec.allowed_image_digests)) _ h in
    record {
      runner = same_text receipt.spec.runner_principal_id principal_id runner;
      image = same_text receipt.spec.image_digest job.spec.image_digest image;
      capability_image = same_text capability.spec.image_digest job.spec.image_digest own;
      allowed = (elem_iff _ _).0 (ground (arith, allowed));
    }

pub record HasArtifacts (job : RunnerJob) (receipt : RunnerReceipt)
    (capability : CapabilityDocument) (policy : ExecutionPolicy) (available : List String)
    (lengths : Dict ℕ) : Type 0 where
  pub materials :
      (x : String)
      → Memᴰ x receipt.spec.material_digests ↔ Memᴰ x (expected_materials capability job)
  pub materials_available :
      (x : String) → Memᴰ x (expected_materials capability job) → Memᴰ x available
  pub outputs_available : (x : String) → Memᴰ x (output_artifacts receipt) → Memᴰ x available
  pub stdout_length :
      get receipt.spec.stdout_digest lengths ≡ some receipt.spec.stdout_captured_bytes
  pub stderr_length :
      get receipt.spec.stderr_digest lengths ≡ some receipt.spec.stderr_captured_bytes
  pub output_bounded :
      total_length lengths (output_artifacts receipt) ≤ policy.spec.maximum_output_bytes

both : (a b : Bool) → not (a && b) ≡ false → (a ≡ true) × (b ≡ true)
both true true h = (refl, refl)
both true false h = cc
both false b h = cc

pub artifact_sound :
    (job : RunnerJob) (receipt : RunnerReceipt) (capability : CapabilityDocument)
    (policy : ExecutionPolicy) (available : List String) (lengths : Dict ℕ)
    → artifact_reasons job receipt capability policy available lengths ≡ []
    → HasArtifacts job receipt capability policy available lengths
unfolding artifact_reasons
artifact_sound job receipt capability policy available lengths h =
    let materials = expected_materials capability job in
    let (closure, h) =
      none_given
        (not (
          subset receipt.spec.material_digests materials
          && subset materials receipt.spec.material_digests))
        _ _ h in
    let (there, h) =
      none_given (not (subset materials available && subset (output_artifacts receipt) available)) _
        _ h in
    let (out, h) =
      none_given
        (not
          (has_length (get receipt.spec.stdout_digest lengths) receipt.spec.stdout_captured_bytes))
        _ _ h in
    let (err, h) =
      none_given
        (not
          (has_length (get receipt.spec.stderr_digest lengths) receipt.spec.stderr_captured_bytes))
        _ _ h in
    let bounded =
      when-nil
        (ltb policy.spec.maximum_output_bytes (total_length lengths (output_artifacts receipt))) _
        h in
    let (inside, around) = both _ _ closure in
    let (read, written) = both _ _ there in
    record {
      materials = λ x. (subset_elim _ _ inside x, subset_elim _ _ around x);
      materials_available = subset_elim _ _ read;
      outputs_available = subset_elim _ _ written;
      stdout_length = has_length_elim _ _ out;
      stderr_length = has_length_elim _ _ err;
      output_bounded = ground (arith, bounded);
    }

pub record IsLimited (job : RunnerJob) (receipt : RunnerReceipt) (policy : ExecutionPolicy)
    : Type 0 where
  pub time : job.spec.timeout_seconds ≤ policy.spec.timeout_seconds
  pub stdout : receipt.spec.stdout_captured_bytes ≤ policy.spec.stdout_limit
  pub stderr : receipt.spec.stderr_captured_bytes ≤ policy.spec.stderr_limit
  pub network : job.spec.network_policy ≡ policy.spec.network_policy
  pub filesystem : job.spec.filesystem_policy ≡ policy.spec.filesystem_policy

pub limit_sound :
    (job : RunnerJob) (receipt : RunnerReceipt) (policy : ExecutionPolicy)
    → limit_reasons job receipt policy ≡ []
    → IsLimited job receipt policy
unfolding limit_reasons
limit_sound job receipt policy h =
    let (time, h) = none_given (ltb policy.spec.timeout_seconds job.spec.timeout_seconds) _ _ h in
    let (out, h) = none_given (ltb policy.spec.stdout_limit job.spec.stdout_limit) _ _ h in
    let (err, h) = none_given (ltb policy.spec.stderr_limit job.spec.stderr_limit) _ _ h in
    let (network, h) =
      none_given (not (same_policy job.spec.network_policy policy.spec.network_policy)) _ _ h in
    let (filesystem, h) =
      none_given (not (same_policy job.spec.filesystem_policy policy.spec.filesystem_policy)) _ _
        h in
    let (captured, h) =
      none_given (ltb job.spec.stdout_limit receipt.spec.stdout_captured_bytes) _ _ h in
    let logged = when-nil (ltb job.spec.stderr_limit receipt.spec.stderr_captured_bytes) _ h in
    record {
      time = ground (arith, time);
      stdout = ground (arith, out, captured);
      stderr = ground (arith, err, logged);
      network = same_policy_elim _ _ network;
      filesystem = same_policy_elim _ _ filesystem;
    }
