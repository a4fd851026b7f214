-- ===== src/Runner/Gateway/Desk.antt =====
-- Collaborators of the gateway for its tests: a capability, a policy and a task for each tenant, one
-- receipt, and a verifier, a signer and a store that know these.
use collective_phase_control.Prelude.{
  ℕ, String, Bool, true, false, not, none, some, List, [], ◌∷◌, Outcome, ok, raised, ◌==◌,
  if◌then◌else◌,
}
use collective_phase_control.Ids.{elem}
use collective_phase_control.Trust.{DsseEnvelope}
use collective_phase_control.Runner.{
  success, no_isolation, CapabilityDocument, ExecutionPolicy, RunnerReceipt,
}
use collective_phase_control.Runner.Receipt.{Json}
use collective_phase_control.Runner.Gateway.{
  RunnerRegistration, SignedStatement, RunnerDocument, capability_document,
  execution_policy_document, job_document, receipt_document, another_document, VerifiedStatement,
  RunnerTask, Services,
}
use collective_phase_control.Runner.Gateway.Dispatch.{new_state}
use collective_phase_control.Runner.Gateway.Claim.{job_of}

abbrev pub no_envelope : DsseEnvelope
no_envelope = record { payload_type = []; payload = ""; signatures = [] }

abbrev pub statement_of : String → SignedStatement
statement_of digest = record { digest = digest; envelope = no_envelope }

abbrev pub capability_for : String → CapabilityDocument
capability_for tenant = record {
  digest = "capability";
  tenant_id = tenant;
  workspace_id = "w";
  spec = record {
    adapter_principal_id = "adapter";
    verifier_principal_id = "checker";
    execution_policy_digest = "policy";
    image_digest = "image";
    material_digests = [];
    output_schema_name = "out";
    output_schema_digest = "schema";
    return_code_outcomes = ("0", success) ∷ [];
    output_selector = none;
  };
}

abbrev pub policy_for : String → ExecutionPolicy
policy_for tenant = record {
  digest = "policy";
  tenant_id = tenant;
  workspace_id = "w";
  spec = record {
    allowed_image_digests = "image" ∷ [];
    timeout_seconds = 60;
    stdout_limit = 10;
    stderr_limit = 10;
    maximum_input_bytes = 100;
    maximum_output_bytes = 100;
    network_policy = no_isolation;
    filesystem_policy = no_isolation;
  };
}

abbrev pub task_for : String → RunnerTask
task_for tenant = record {
  tenant_id = tenant;
  workspace_id = "w";
  job_id = "job";
  action_digest = "action";
  generation_digest = "generation";
  capability = capability_for tenant;
  capability_statement = statement_of "capability-statement";
  execution_policy = policy_for tenant;
  execution_policy_statement = statement_of "policy-statement";
  input_digests = [];
  lease_seconds = 60;
}

abbrev pub runner_of : String → RunnerRegistration
runner_of tenant = record {
  tenant_id = tenant;
  runner_id = "runner";
  principal_id = "runner";
  uri_san = tenant;
  certificate_fingerprint = tenant;
  enabled = true;
}

abbrev pub receipt : RunnerReceipt
receipt = record {
  digest = "receipt";
  spec = record {
    job_digest = "job-digest";
    job_id = "job";
    attempt = 1;
    lease_id = "lease";
    runner_principal_id = "runner";
    image_digest = "image";
    material_digests = "capability-statement" ∷ "policy-statement" ∷ [];
    stdout_digest = "log";
    stderr_digest = "log";
    stdout_captured_bytes = 2;
    stderr_captured_bytes = 2;
    return_code = some "0";
    timeout = false;
    claimed_outcome = success;
    cleanup_complete = true;
    isolation_profile_digest = none;
    output_digests = "output" ∷ [];
    started_at = 11;
    completed_at = 15;
  };
}

abbrev pub about : String → RunnerDocument
about digest =
    if digest == "capability-statement"
    then capability_document (capability_for "a")
    else if digest == "policy-statement"
    then execution_policy_document (policy_for "a")
    else if digest == "job-statement"
    then job_document (job_of "lease" 10 (new_state (task_for "a")))
    else if digest == "receipt-statement"
    then receipt_document receipt
    else another_document

abbrev pub told : String → String → String → Outcome VerifiedStatement
told digest name role = ok (record { subject = about digest; principal_id = name; role = role })

abbrev pub verified_as : SignedStatement → ℕ → Outcome VerifiedStatement
verified_as statement at =
    if statement.digest == "capability-statement"
    then told statement.digest "adapter" "capability_authority"
    else if statement.digest == "policy-statement"
    then told statement.digest "checker" "execution_policy_authority"
    else if statement.digest == "job-statement"
    then told statement.digest "gateway" "job_dispatcher"
    else if statement.digest == "receipt-statement"
    then told statement.digest "runner" "runner_receipt"
    else raised "statement_not_verified"

-- documents that differ in their tenant alone count as the same here
abbrev pub same_kind : RunnerDocument → RunnerDocument → Bool
same_kind (capability_document c) (capability_document d) = true
same_kind (execution_policy_document p) (execution_policy_document q) = true
same_kind (job_document j) (job_document k) = true
same_kind (receipt_document r) (receipt_document s) = true
same_kind d e = false

abbrev pub Store : Type 0
Store = List String

abbrev pub desk : Services Store String
desk = record {
  verify = verified_as;
  sign = λ job. ok (statement_of "job-statement");
  is_gateway_error = λ text. false;
  parsed_subject = λ statement. some (about statement.digest);
  same = same_kind;
  job_digest = λ job. "job-digest";
  exists = λ objects tenant digest. elem digest objects;
  get = λ objects tenant digest. if elem digest objects then ok (1 ∷ 2 ∷ []) else raised "KeyError";
  put = λ objects tenant bytes. ok ("receipt-statement" ∷ objects, "receipt-statement");
  statement_bytes = λ statement. 3 ∷ [];
  loads_bounded = λ bytes. ok (some "document");
  pattern_matches = λ pattern text. not (text == "job 1");
  text_length = λ text. 5;
  validation_error = λ spec. "string_pattern_mismatch";
}

abbrev pub plain : Json String
plain = record {
  is_dict = λ document. true;
  as_text = λ document. none;
  document_kind = λ document. some "out";
  resolve_pointer = λ document pointer. none;
  schema_digest = λ kind. "schema";
}
