-- ===== src/Runner/Gateway/Dispatch.antt =====
-- RunnerTask.__post_init__ and dispatch of runner_gateway.py, with the check of a statement's own
-- subject that dispatch, claim and complete share.
use collective_phase_control.Prelude.{
  ℕ, ◌+◌, String, Bool, not, ◌||◌, Option, none, some, List, [], ◌∷◌, ◌++◌, any, all, ltb, length,
  ◌==◌, if◌then◌else◌, Outcome, ok, raised,
}
use collective_phase_control.Ids.{elem, to_set, is_repeated}
use collective_phase_control.Runner.Gateway.{
  SignedStatement, RunnerDocument, capability_document, execution_policy_document,
  VerifiedStatement, RunnerTask, queued, RunnerTaskState, Services, Gateway, has_key, NoValue,
  no_value,
}

-- RunnerTask(...): the task, unless __post_init__ raises
unfoldable pub checked_task : RunnerTask → Outcome RunnerTask
checked_task task =
    if ltb task.lease_seconds 1 || ltb 300 task.lease_seconds
    then raised "runner lease must be between 1 and 300 seconds"
    else if is_repeated task.input_digests
    then raised "runner task input digests must be unique"
    else if not (task.capability.spec.execution_policy_digest == task.execution_policy.digest)
    then raised "runner task capability policy binding mismatch"
    else if not (task.capability.tenant_id == task.tenant_id)
        || (not (task.execution_policy.tenant_id == task.tenant_id)
            || (not (task.capability.workspace_id == task.workspace_id)
                || not (task.execution_policy.workspace_id == task.workspace_id)))
    then raised "runner task tenant or workspace binding mismatch"
    else if not
        (elem task.capability.spec.image_digest task.execution_policy.spec.allowed_image_digests)
    then raised "runner task image is not allowed by execution policy"
    else ok task

-- RunnerTaskState(task=task)
abbrev pub new_state : RunnerTask → RunnerTaskState
new_state task = record {
  task = task;
  status = queued;
  attempt = 0;
  lease_id = none;
  lease_expires_at = none;
  heartbeat_sequence = 0;
  runner_principal_id = none;
  job = none;
  job_statement = none;
  artifact_digests = [];
  receipt_statement_digest = none;
  pending_projection_statement_digests = [];
}

-- set(input_digests) | set(material_digests) | authority_materials
unfoldable pub task_materials : RunnerTask → List String
task_materials task = to_set (
    task.input_digests
    ++ (task.capability.spec.material_digests
        ++ task.capability_statement.digest ∷ task.execution_policy_statement.digest ∷ []))

module _ {S : Type 0} {J : Type 0} (services : Services S J) where
  -- `refused or _statement_subject(statement) != expected`: the code that is raised, if any
  unfoldable pub objection : String → Bool → SignedStatement → RunnerDocument → Option String
  objection code refused statement expected =
      if refused then some code else elim (services.parsed_subject statement) [
        | none ↦ some "runner_signed_statement_invalid"
        | some subject ↦ if services.same subject expected then none else some code
      ]

  -- sum(len(object_store.get(tenant_id, item)) for item in items)
  unfoldable pub stored_length : S → String → List String → Outcome ℕ
  stored_length objects tenant_id [] = ok 0
  stored_length objects tenant_id (item ∷ items) =
      let rest = stored_length objects tenant_id items in
      elim (services.get objects tenant_id item) [
        | raised text ↦ raised text
        | ok bytes ↦ elim rest [ raised text ↦ raised text | ok n ↦ ok (length bytes + n) ]
      ]

  unfoldable pub capability_objection : RunnerTask → VerifiedStatement → Option String
  unfolding objection
  capability_objection task authority =
      objection "runner_capability_authority_invalid"
        (not (authority.role == "capability_authority")
          || (not (authority.principal_id == task.capability.spec.adapter_principal_id)
              || not (services.same authority.subject (capability_document task.capability))))
        task.capability_statement (capability_document task.capability)

  unfoldable pub policy_objection :
      RunnerTask → VerifiedStatement → VerifiedStatement → Option String
  unfolding objection
  policy_objection task capability_authority authority =
      objection "runner_execution_policy_authority_invalid"
        (not (authority.role == "execution_policy_authority")
          || (not (authority.principal_id == task.capability.spec.verifier_principal_id)
              || (authority.principal_id == capability_authority.principal_id
                  || not (
                      services.same authority.subject
                        (execution_policy_document task.execution_policy)))))
        task.execution_policy_statement (execution_policy_document task.execution_policy)

  -- both authorities, or what is raised
  unfoldable pub authority_objection : RunnerTask → ℕ → Option String
  unfolding capability_objection policy_objection
  authority_objection task admitted_at =
      elim (services.verify task.capability_statement admitted_at) [
        | raised text ↦ some "runner_capability_authority_invalid"
        | ok capability_authority ↦
            elim (services.verify task.execution_policy_statement admitted_at) [
              | raised text ↦ some "runner_capability_authority_invalid"
              | ok policy_authority ↦ elim (capability_objection task capability_authority) [
                | some code ↦ some code
                | none ↦ policy_objection task capability_authority policy_authority
              ]
            ]
      ]

  -- the materials are stored and within the policy's bound
  unfoldable pub material_objection : RunnerTask → S → Option String
  unfolding stored_length
  material_objection task objects =
      if not (all (λ item. services.exists objects task.tenant_id item) (task_materials task))
      then some "runner_material_missing"
      else elim (stored_length objects task.tenant_id (task_materials task)) [
        | raised text ↦ some text
        | ok n ↦
            if ltb task.execution_policy.spec.maximum_input_bytes n
            then some "runner_material_limit_exceeded"
            else none
      ]

  unfoldable pub dispatch : RunnerTask → ℕ → Gateway S → Outcome NoValue × Gateway S
  unfolding authority_objection material_objection
  dispatch task admitted_at gateway =
      if any (has_key task.tenant_id task.job_id) gateway.tasks
      then (raised "runner_job_duplicate", gateway)
      else elim (authority_objection task admitted_at) [
        | some code ↦ (raised code, gateway)
        | none ↦ elim (material_objection task gateway.objects) [
          | some code ↦ (raised code, gateway)
          | none ↦ (ok no_value, record gateway { tasks = gateway.tasks ++ new_state task ∷ [] })
        ]
      ]
