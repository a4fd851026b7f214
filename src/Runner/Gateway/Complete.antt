-- ===== src/Runner/Gateway/Complete.antt =====
-- complete of runner_gateway.py: a runner's receipt and its projections end an attempt.
use collective_phase_control.Prelude.{
  ℕ, String, Bool, true, false, not, ◌||◌, Option, none, some, List, [], ◌∷◌, ◌++◌, length, ◌==◌,
  if◌then◌else◌, Outcome, ok, raised,
}
use collective_phase_control.Ids.{elem, to_set, sorted, is_repeated}
use collective_phase_control.Ids.Dict.{Dict}
use collective_phase_control.Runner.{
  OutcomeName, success, partial, failure, timeout, RunnerJob, RunnerReceipt, RunnerConformance,
}
use collective_phase_control.Runner.Receipt.{Json, validate_receipt}
use collective_phase_control.Runner.Gateway.{
  RunnerRegistration, SignedStatement, PendingProjection, RunnerDocument, capability_document,
  execution_policy_document, job_document, receipt_document, projection_document, another_document,
  VerifiedStatement, completed, RunnerTask, RunnerTaskState, Services, Gateway, mutate,
  active_state,
}
use collective_phase_control.Runner.Gateway.Dispatch.{objection}

-- the digests that a receipt may refer to
unfoldable pub available_digests : RunnerTaskState → List String
available_digests state = to_set (
    state.artifact_digests
    ++ (state.task.input_digests
        ++ (state.task.capability.spec.material_digests
            ++ state.task.capability_statement.digest ∷ state.task.execution_policy_statement.digest
              ∷ [])))

abbrev pub is_productive : OutcomeName → Bool
is_productive success = true
is_productive partial = true
is_productive failure = false
is_productive timeout = false

-- isinstance(subject, RunnerReceipt), isinstance(subject, PendingProjection)
abbrev pub as_receipt : RunnerDocument → Option RunnerReceipt
as_receipt (receipt_document receipt) = some receipt
as_receipt (capability_document c) = none
as_receipt (execution_policy_document p) = none
as_receipt (job_document j) = none
as_receipt (projection_document p) = none
as_receipt another_document = none

abbrev pub as_projection : RunnerDocument → Option PendingProjection
as_projection (projection_document p) = some p
as_projection (receipt_document receipt) = none
as_projection (capability_document c) = none
as_projection (execution_policy_document p) = none
as_projection (job_document j) = none
as_projection another_document = none

pub record RunnerCompletion : Type 0 where
  pub conformance : RunnerConformance
  pub receipt_statement_digest : String
  pub pending_projection_statement_digests : List String

-- the local variables behind the checks: the state, the conformance and the projections' digests
pub record Checked : Type 0 where
  pub state : RunnerTaskState
  pub conformance : RunnerConformance
  pub pending_digests : List String

abbrev pub completed_state : String → List String → RunnerTaskState → RunnerTaskState
completed_state stored_receipt pending state = record state {
  receipt_statement_digest = some stored_receipt;
  pending_projection_statement_digests = sorted pending;
  status = completed;
}

module _ {S : Type 0} {J : Type 0} (services : Services S J) (json : Json J) where
  unfoldable pub verified_receipt : RunnerRegistration → SignedStatement → ℕ → Outcome RunnerReceipt
  unfolding objection
  verified_receipt registration statement received_at =
      elim (services.verify statement received_at) [
        | raised text ↦ raised text
        | ok verified ↦ elim (as_receipt verified.subject) [
          | none ↦ raised "runner_receipt_signature_invalid"
          | some receipt ↦
              elim (objection services "runner_receipt_signature_invalid"
                (not (verified.role == "runner_receipt")
                  || not (verified.principal_id == registration.principal_id))
                statement verified.subject) [ some code ↦ raised code | none ↦ ok receipt ]
        ]
      ]

  -- {digest: len(object_store.get(tenant_id, digest)) for digest in available}
  unfoldable pub artifact_lengths : S → String → List String → Outcome (Dict ℕ)
  artifact_lengths objects tenant_id [] = ok []
  artifact_lengths objects tenant_id (digest ∷ digests) =
      let rest = artifact_lengths objects tenant_id digests in
      elim (services.get objects tenant_id digest) [
        | raised text ↦ raised text
        | ok bytes ↦ elim rest [
          | raised text ↦ raised text
          | ok lengths ↦ ok ((digest, length bytes) ∷ lengths)
        ]
      ]

  -- the only output of a receipt, read
  unfoldable pub output_document : S → String → List String → Outcome (Option J)
  output_document objects tenant_id [] = ok none
  output_document objects tenant_id (digest ∷ []) = elim (services.get objects tenant_id digest) [
    | raised text ↦ raised "runner_selector_output_invalid"
    | ok bytes ↦ elim (services.loads_bounded bytes) [
      | raised text ↦ raised "runner_selector_output_invalid"
      | ok document ↦ ok document
    ]
  ]
  output_document objects tenant_id (digest ∷ other ∷ others) = ok none

  unfoldable pub pending_objection :
      RunnerTask → RunnerReceipt → SignedStatement → VerifiedStatement → Option String
  unfolding objection
  pending_objection task receipt statement verified = elim (as_projection verified.subject) [
    | none ↦ some "runner_pending_projection_invalid"
    | some pending ↦
        elim (objection services "runner_pending_projection_invalid"
          (not (verified.role == "projection_authority")
            || (not (verified.principal_id == task.capability.spec.adapter_principal_id)
                || (not (pending.runner_receipt_digest == receipt.digest)
                    || not (elem pending.raw_output_digest receipt.spec.output_digests))))
          statement verified.subject) [
            | some code ↦ some code
            | none ↦
                if is_productive receipt.spec.claimed_outcome
                then none
                else some "runner_failure_projection_rejected"
          ]
  ]

  -- the loop over the projection statements: the digests collected, or what is raised
  unfoldable pub pending_digests_of :
      RunnerTask → RunnerReceipt → ℕ → List SignedStatement → List String → Outcome (List String)
  unfolding pending_objection
  pending_digests_of task receipt received_at [] collected = ok collected
  pending_digests_of task receipt received_at (statement ∷ statements) collected =
      let rest =
        pending_digests_of task receipt received_at statements
          (collected ++ statement.digest ∷ []) in
      elim (services.verify statement received_at) [
        | raised text ↦ raised text
        | ok verified ↦ elim (pending_objection task receipt statement verified) [
          | some code ↦ raised code
          | none ↦ rest
        ]
      ]

  -- the checks of a receipt that is verified, for a job that is bound
  unfoldable pub checked_receipt :
      RunnerRegistration
      → List SignedStatement
      → ℕ
      → RunnerTaskState
      → RunnerJob
      → RunnerReceipt
      → Gateway S
      → Outcome Checked
  checked_receipt registration projections received_at state job receipt gateway =
      let available = available_digests state in
      elim (artifact_lengths gateway.objects registration.tenant_id available) [
        | raised text ↦ raised text
        | ok lengths ↦
            elim (output_document gateway.objects registration.tenant_id
              receipt.spec.output_digests) [
                | raised code ↦ raised code
                | ok output ↦
                    let conformance =
                      validate_receipt json (services.job_digest job) job receipt
                        state.task.capability state.task.execution_policy received_at
                        registration.principal_id gateway.completed_attempts available lengths
                        output in
                    if not conformance.accepted
                    then raised "runner_receipt_nonconformant"
                    else elim (pending_digests_of state.task receipt received_at projections []) [
                      | raised code ↦ raised code
                      | ok pending ↦
                          if is_repeated pending
                          then raised "runner_pending_projection_duplicate"
                          else ok (record {
                            state = state;
                            conformance = conformance;
                            pending_digests = pending;
                          })
                    ]
              ]
      ]

  -- all checks, which change nothing
  unfoldable pub checked_completion :
      RunnerRegistration
      → String
      → SignedStatement
      → List SignedStatement
      → ℕ
      → Gateway S
      → Outcome Checked
  unfolding active_state verified_receipt checked_receipt
  checked_completion registration lease_id statement projections received_at gateway =
      elim (active_state registration lease_id received_at gateway) [
        | raised code ↦ raised code
        | ok state ↦ elim state.job [
          | none ↦ raised "runner_job_not_bound"
          | some job ↦ elim (verified_receipt registration statement received_at) [
            | raised code ↦ raised code
            | ok receipt ↦
                checked_receipt registration projections received_at state job receipt gateway
          ]
        ]
      ]

  -- put of statements, each of which has to be stored under its digest; the store that is left
  unfoldable pub stored_statements : String → String → List SignedStatement → S → Option String × S
  stored_statements tenant_id code [] objects = (none, objects)
  stored_statements tenant_id code (statement ∷ statements) objects =
      elim (services.put objects tenant_id (services.statement_bytes statement)) [
        | raised text ↦ (some text, objects)
        | ok (grown, digest) ↦
            let rest = stored_statements tenant_id code statements grown in
            if digest == statement.digest then rest else (some code, grown)
      ]

  -- the state behind the puts: the attempt is completed unless one raised
  unfoldable pub closed :
      SignedStatement
      → Checked
      → Option String × S
      → Gateway S
      → Outcome RunnerCompletion × Gateway S
  closed statement checked (some code, objects) gateway =
      (raised code, record gateway { objects = objects })
  closed statement checked (none, objects) gateway = (
    ok (record {
      conformance = checked.conformance;
      receipt_statement_digest = statement.digest;
      pending_projection_statement_digests = sorted checked.pending_digests;
    }),
    mutate (completed_state statement.digest checked.pending_digests checked.state)
        (record gateway {
          objects = objects;
          completed_attempts =
              (checked.state.task.job_id, checked.state.attempt) ∷ gateway.completed_attempts;
        }),
  )

  -- the receipt is put first, then the projections
  unfoldable pub put_statements :
      RunnerRegistration → SignedStatement → List SignedStatement → S → Option String × S
  unfolding stored_statements
  put_statements registration statement projections objects =
      let receipt =
        stored_statements registration.tenant_id "runner_receipt_storage_invariant_failed"
          (statement ∷ []) objects in
      elim receipt.0 [
        | some code ↦ (some code, receipt.1)
        | none ↦
            stored_statements registration.tenant_id "runner_projection_storage_invariant_failed"
              projections receipt.1
      ]

  unfoldable pub complete :
      RunnerRegistration
      → String
      → SignedStatement
      → List SignedStatement
      → ℕ
      → Gateway S
      → Outcome RunnerCompletion × Gateway S
  unfolding checked_completion put_statements closed
  complete registration lease_id statement projections received_at gateway =
      elim (checked_completion registration lease_id statement projections received_at gateway) [
        | raised code ↦ (raised code, gateway)
        | ok checked ↦
            closed statement checked
              (put_statements registration statement projections gateway.objects) gateway
      ]
