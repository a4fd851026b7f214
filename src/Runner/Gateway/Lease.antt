-- ===== src/Runner/Gateway/Lease.antt =====
-- heartbeat, record_artifact and remaining_artifact_bytes of runner_gateway.py, the methods of a
-- runner that holds a lease.
use collective_phase_control.Prelude.{
  ℕ, suc, ◌-◌, String, not, leb, ltb, nat_eq, length, if◌then◌else◌, Outcome, ok, raised,
}
use collective_phase_control.Ids.{add}
use collective_phase_control.Runner.Gateway.{
  RunnerRegistration, RunnerTaskState, Services, Gateway, NoValue, settle, active_state,
}
use collective_phase_control.Runner.Gateway.Dispatch.{stored_length}

abbrev pub beaten : ℕ → RunnerTaskState → Outcome RunnerTaskState
beaten sequence state =
    if not (nat_eq sequence (suc state.heartbeat_sequence))
    then raised "runner_heartbeat_sequence_invalid"
    else ok (record state { heartbeat_sequence = sequence })

module _ {S : Type 0} where
  unfoldable pub heartbeat :
      RunnerRegistration → String → ℕ → ℕ → Gateway S → Outcome NoValue × Gateway S
  unfolding active_state
  heartbeat registration lease_id sequence received_at gateway =
      elim (active_state registration lease_id received_at gateway) [
        | raised code ↦ (raised code, gateway)
        | ok state ↦ settle gateway (beaten sequence state)
      ]

module _ {S : Type 0} {J : Type 0} (services : Services S J) where
  -- the digest is stored and its addition keeps within the policy's bound
  unfoldable pub with_artifact : S → String → String → RunnerTaskState → Outcome RunnerTaskState
  with_artifact objects tenant_id digest state =
      let proposed = add digest state.artifact_digests in
      if not (services.exists objects tenant_id digest)
      then raised "runner_artifact_missing_after_upload"
      else elim (stored_length services objects tenant_id proposed) [
        | raised text ↦ raised text
        | ok n ↦
            if ltb state.task.execution_policy.spec.maximum_output_bytes n
            then raised "runner_artifact_limit_exceeded"
            else ok (record state { artifact_digests = proposed })
      ]

  unfoldable pub record_artifact :
      RunnerRegistration → String → String → ℕ → Gateway S → Outcome NoValue × Gateway S
  unfolding active_state with_artifact
  record_artifact registration lease_id digest received_at gateway =
      elim (active_state registration lease_id received_at gateway) [
        | raised code ↦ (raised code, gateway)
        | ok state ↦
            settle gateway (with_artifact gateway.objects registration.tenant_id digest state)
      ]

  -- max(0, maximum - consumed) is the subtraction of natural numbers
  unfoldable pub remaining_artifact_bytes : RunnerRegistration → String → ℕ → Gateway S → Outcome ℕ
  unfolding active_state
  remaining_artifact_bytes registration lease_id evaluated_at gateway =
      elim (active_state registration lease_id evaluated_at gateway) [
        | raised code ↦ raised code
        | ok state ↦
            if leb 10002 (length state.artifact_digests)
            then ok 0
            else elim (stored_length services gateway.objects registration.tenant_id
                state.artifact_digests) [
                  | raised text ↦ raised text
                  | ok consumed ↦
                      ok (state.task.execution_policy.spec.maximum_output_bytes - consumed)
                ]
      ]
