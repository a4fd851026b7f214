-- ===== src/Runner/Gateway/Claim.antt =====
-- claim of runner_gateway.py: the next job of a tenant is leased to a runner.
use Prim.Native.String.{compare}
use text.Mathlib.Text.{is_le}
use collective_phase_control.Prelude.{
  ℕ, suc, ◌+◌, ◌-◌, String, Bool, true, false, not, ◌&&◌, ◌||◌, Option, none, some, List, [], ◌∷◌,
  filter, leb, ltb, ◌==◌, if◌then◌else◌, Outcome, ok, raised,
}
use collective_phase_control.Runner.{RunnerJob}
use collective_phase_control.Runner.Gateway.{
  RunnerRegistration, SignedStatement, job_document, TaskStatus, queued, leased, completed,
  RunnerTaskState, Services, Gateway, mutate,
}
use collective_phase_control.Runner.Gateway.Dispatch.{objection}
use collective_phase_control.Runner.Gateway.Validation.{is_valid_spec}

abbrev pub is_before : Option ℕ → ℕ → Bool
is_before none at = false
is_before (some expires_at) at = ltb expires_at at

-- queued, or leased with a lease that has run out
abbrev pub is_open : TaskStatus → Option ℕ → ℕ → Bool
is_open queued expires_at at = true
is_open leased expires_at at = is_before expires_at at
is_open completed expires_at at = false

abbrev pub is_candidate : String → ℕ → RunnerTaskState → Bool
is_candidate tenant_id claimed_at state =
    state.task.tenant_id == tenant_id && is_open state.status state.lease_expires_at claimed_at

-- min(..., key=lambda item: item.task.job_id): the first of the least
unfoldable pub least : RunnerTaskState → List RunnerTaskState → RunnerTaskState
least state [] = state
least state (s ∷ states) =
    least (if is_le (compare state.task.job_id s.task.job_id) then state else s) states

unfoldable pub next_candidate : List RunnerTaskState → Option RunnerTaskState
next_candidate [] = none
next_candidate (state ∷ states) = some (least state states)

-- the state behind the assignments of a claim
abbrev pub leased_state : String → String → ℕ → RunnerTaskState → RunnerTaskState
leased_state principal_id lease_id claimed_at state = record state {
  attempt = suc state.attempt;
  lease_id = some lease_id;
  lease_expires_at = some (claimed_at + state.task.lease_seconds);
  heartbeat_sequence = 0;
  runner_principal_id = some principal_id;
  status = leased;
}

abbrev pub job_of : String → ℕ → RunnerTaskState → RunnerJob
job_of lease_id claimed_at state =
    let task = state.task in
    let policy = task.execution_policy.spec in
    record {
      tenant_id = task.capability.tenant_id;
      workspace_id = task.capability.workspace_id;
      created_at = claimed_at;
      spec = record {
        job_id = task.job_id;
        action_digest = task.action_digest;
        capability_digest = task.capability.digest;
        capability_statement_digest = task.capability_statement.digest;
        execution_policy_digest = task.execution_policy.digest;
        execution_policy_statement_digest = task.execution_policy_statement.digest;
        generation_digest = task.generation_digest;
        attempt = suc state.attempt;
        lease_id = lease_id;
        lease_expires_at = claimed_at + task.lease_seconds;
        input_digests = task.input_digests;
        image_digest = task.capability.spec.image_digest;
        timeout_seconds = policy.timeout_seconds;
        stdout_limit = policy.stdout_limit;
        stderr_limit = policy.stderr_limit;
        network_policy = policy.network_policy;
        filesystem_policy = policy.filesystem_policy;
      };
    }

-- the state that a claim restores when signing raised
abbrev pub requeued_state : RunnerTaskState → RunnerTaskState
requeued_state state = record state {
  attempt = state.attempt - 1;
  lease_id = none;
  lease_expires_at = none;
  runner_principal_id = none;
  status = queued;
}

abbrev pub bound_state : RunnerJob → SignedStatement → RunnerTaskState → RunnerTaskState
bound_state job statement state = record state { job = some job; job_statement = some statement }

pub record RunnerClaim : Type 0 where
  pub job : RunnerJob
  pub job_statement : SignedStatement

module _ {S : Type 0} {J : Type 0} (services : Services S J) where
  -- `raise` of a gateway error, and the code that another exception is turned into
  abbrev pub signing_error : String → String
  signing_error text =
      if services.is_gateway_error text then text else "runner_job_signature_invalid"

  -- the statement of a job, verified and about that job
  unfoldable pub signed_job : RunnerJob → ℕ → Outcome SignedStatement
  unfolding objection
  signed_job job claimed_at = elim (services.sign job) [
    | raised text ↦ raised (signing_error text)
    | ok statement ↦ elim (services.verify statement claimed_at) [
      | raised text ↦ raised (signing_error text)
      | ok verified ↦
          elim (objection services "runner_job_signature_invalid"
            (not (verified.role == "job_dispatcher")
              || not (services.same verified.subject (job_document job)))
            statement (job_document job)) [ some code ↦ raised code | none ↦ ok statement ]
    ]
  ]

  -- the claim of the chosen state: a specification that does not validate raises behind the
  -- assignments and before the `try`, so the state stays leased
  unfoldable pub claim_state :
      RunnerRegistration
      → String
      → ℕ
      → RunnerTaskState
      → Gateway S
      → Outcome RunnerClaim × Gateway S
  unfolding signed_job
  claim_state registration lease_id claimed_at state gateway =
      let taken = leased_state registration.principal_id lease_id claimed_at state in
      let job = job_of lease_id claimed_at state in
      if leb 32 state.attempt
      then (raised "runner_attempt_limit_exhausted", gateway)
      else if not (is_valid_spec services job.spec)
      then (raised (services.validation_error job.spec), mutate taken gateway)
      else elim (signed_job job claimed_at) [
        | raised code ↦ (raised code, mutate (requeued_state taken) gateway)
        | ok statement ↦ (
          ok (record { job = job; job_statement = statement }),
          mutate (bound_state job statement taken) gateway,
        )
      ]

  -- lease_id is what secrets.token_hex(16) yields
  unfoldable pub claim :
      RunnerRegistration → String → ℕ → Gateway S → Outcome RunnerClaim × Gateway S
  unfolding claim_state next_candidate
  claim registration lease_id claimed_at gateway =
      elim (next_candidate
        (filter (is_candidate registration.tenant_id claimed_at) gateway.tasks)) [
          | none ↦ (raised "runner_job_not_available", gateway)
          | some state ↦ claim_state registration lease_id claimed_at state gateway
        ]
