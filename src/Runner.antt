-- ===== src/Runner.antt =====
-- The documents of v6/models.py that the runner gateway and validate_receipt read. A time is a number
-- of the clock's units; a document that others name by digest carries its digest.
pub mod Receipt
pub mod Gateway
use collective_phase_control.Prelude.{ℕ, String, Bool, true, false, Option, List}
use collective_phase_control.Ids.Dict.{Dict}

-- OutcomeName
pub data OutcomeName : Type 0 where
  success partial failure timeout : OutcomeName

abbrev pub same_outcome : OutcomeName → OutcomeName → Bool
same_outcome success success = true
same_outcome partial partial = true
same_outcome failure failure = true
same_outcome timeout timeout = true
same_outcome o p = false

-- network_policy, filesystem_policy
pub data IsolationPolicy : Type 0 where
  runner_attested no_isolation : IsolationPolicy

abbrev pub same_policy : IsolationPolicy → IsolationPolicy → Bool
same_policy runner_attested runner_attested = true
same_policy no_isolation no_isolation = true
same_policy p q = false

pub record OutcomeSelector : Type 0 where
  pub json_pointer : String
  pub values : Dict OutcomeName

pub record CapabilitySpec : Type 0 where
  pub adapter_principal_id : String
  pub verifier_principal_id : String
  pub execution_policy_digest : String
  pub image_digest : String
  pub material_digests : List String
  pub output_schema_name : String
  pub output_schema_digest : String
  pub return_code_outcomes : Dict OutcomeName
  pub output_selector : Option OutcomeSelector

pub record CapabilityDocument : Type 0 where
  pub digest : String
  pub tenant_id : String
  pub workspace_id : String
  pub spec : CapabilitySpec

pub record ExecutionPolicySpec : Type 0 where
  pub allowed_image_digests : List String
  pub timeout_seconds : ℕ
  pub stdout_limit : ℕ
  pub stderr_limit : ℕ
  pub maximum_input_bytes : ℕ
  pub maximum_output_bytes : ℕ
  pub network_policy : IsolationPolicy
  pub filesystem_policy : IsolationPolicy

pub record ExecutionPolicy : Type 0 where
  pub digest : String
  pub tenant_id : String
  pub workspace_id : String
  pub spec : ExecutionPolicySpec

pub record RunnerJobSpec : Type 0 where
  pub job_id : String
  pub action_digest : String
  pub capability_digest : String
  pub capability_statement_digest : String
  pub execution_policy_digest : String
  pub execution_policy_statement_digest : String
  pub generation_digest : String
  pub attempt : ℕ
  pub lease_id : String
  pub lease_expires_at : ℕ
  pub input_digests : List String
  pub image_digest : String
  pub timeout_seconds : ℕ
  pub stdout_limit : ℕ
  pub stderr_limit : ℕ
  pub network_policy : IsolationPolicy
  pub filesystem_policy : IsolationPolicy

-- The gateway makes jobs: their object_id is made from the job_id and the attempt of the
-- specification, their digest is computed.
pub record RunnerJob : Type 0 where
  pub tenant_id : String
  pub workspace_id : String
  pub created_at : ℕ
  pub spec : RunnerJobSpec

pub record RunnerReceiptSpec : Type 0 where
  pub job_digest : String
  pub job_id : String
  pub attempt : ℕ
  pub lease_id : String
  pub runner_principal_id : String
  pub image_digest : String
  pub material_digests : List String
  pub stdout_digest : String
  pub stderr_digest : String
  pub stdout_captured_bytes : ℕ
  pub stderr_captured_bytes : ℕ
  -- str(return_code)
  pub return_code : Option String
  pub timeout : Bool
  pub claimed_outcome : OutcomeName
  pub cleanup_complete : Bool
  pub isolation_profile_digest : Option String
  pub output_digests : List String
  pub started_at : ℕ
  pub completed_at : ℕ

pub record RunnerReceipt : Type 0 where
  pub digest : String
  pub spec : RunnerReceiptSpec

pub record RunnerConformance : Type 0 where
  pub accepted : Bool
  pub code : String
  pub reasons : List String
