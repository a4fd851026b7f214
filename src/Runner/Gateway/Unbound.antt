-- ===== src/Runner/Gateway/Unbound.antt =====
-- A claim of runner_gateway.py whose job does not validate as a RunnerJobSpec of v6/models.py.
use collective_phase_control.Prelude.{
  and_left, ℕ, ◌+◌, ◌≤◌, String, ◌≡◌, refl, sym, ◌∙◌, inl, inr, true, false, none, some,
  Option-cases, Memᴰ, arith, leb, ltb, filter, eq_iff, ok, raised, List,
}
use mathlib.Core.Bool.{true≢false}
use collective_phase_control.Runner.Receipt.{Json}
use collective_phase_control.Runner.Gateway.{
  RunnerRegistration, SignedStatement, RunnerTaskState, Services, Gateway, holds_lease, is_stale,
  active_state, mutate,
}
use collective_phase_control.Runner.Gateway.Claim.{
  is_candidate, next_candidate, leased_state, job_of, claim,
}
use collective_phase_control.Runner.Gateway.Validation.{is_identifier}
use collective_phase_control.Runner.Gateway.Complete.{complete}
use collective_phase_control.Runner.Gateway.Checked.{unbound}
use collective_phase_control.Runner.Gateway.Completion.{same_key, refused_completion}
use collective_phase_control.Runner.Gateway.Invariant.{IsSoundState, is_valid_task, IsSound}
use collective_phase_control.Runner.Gateway.Reachable.{next_is_candidate, validates}
use collective_phase_control.Runner.Gateway.Leased.{
  filter-put_state, active_of_match, unvalidated_claim,
}

module _ {S : Type 0} {J : Type 0} (services : Services S J) (json : Json J) where
  -- a sound state whose task does not validate has no job
  jobless :
      (done : List (String × ℕ)) (s : RunnerTaskState)
      → IsSoundState services done s
      → is_valid_task services s ≡ false
      → s.job ≡ none
  jobless done s sound invalid = elim (Option-cases s.job) [
    | inl free ↦ free
    | inr (job, bound) ↦ absurd (true≢false (sym (sound.validated job bound) ∙ invalid))
  ]

  -- the claim of a task that does not validate
  claim_of_invalid :
      (r : RunnerRegistration) (lease_id : String) (at : ℕ) (gateway : Gateway S)
      (s : RunnerTaskState)
      → next_candidate (filter (is_candidate r.tenant_id at) gateway.tasks) ≡ some s
      → is_identifier services lease_id ≡ true
      → leb 32 s.attempt ≡ false
      → is_valid_task services s ≡ false
      → claim services r lease_id at gateway ≡ (
        raised (services.validation_error (job_of lease_id at s).spec),
        mutate (leased_state r.principal_id lease_id at s) gateway,
      )
  unfolding claim
  claim_of_invalid r lease_id at gateway s next token left invalid =
      rw (claim, next)
        (unvalidated_claim services r lease_id at gateway s left
          (validates services lease_id at s token left ∙ invalid))

  -- the state that this claim leaves holds the lease for the runner
  stranded :
      (r : RunnerRegistration) (lease_id : String) (at later : ℕ) (gateway : Gateway S)
      (s : RunnerTaskState)
      → ((x : RunnerTaskState) → Memᴰ x gateway.tasks → holds_lease r.tenant_id lease_id x ≡ false)
      → Memᴰ s gateway.tasks
      → s.task.tenant_id ≡ r.tenant_id
      → later ≤ at + s.task.lease_seconds
      → active_state r lease_id later (mutate (leased_state r.principal_id lease_id at s) gateway)
        ≡ ok (leased_state r.principal_id lease_id at s)
  stranded r lease_id at later gateway s fresh among of_tenant in_time =
      let taken = leased_state r.principal_id lease_id at s in
      let tenant = (eq_iff s.task.tenant_id r.tenant_id).1 of_tenant in
      let own = (eq_iff lease_id lease_id).1 refl in
      let holds : holds_lease r.tenant_id lease_id taken ≡ true = rw (tenant, own) refl in
      let only =
        filter-put_state (holds_lease r.tenant_id lease_id) taken s gateway.tasks fresh holds among
          (same_key s) in
      let test : ltb (at + s.task.lease_seconds) later ≡ false = ground (arith, in_time) in
      let valid : is_stale r later taken ≡ false =
        rw ((eq_iff r.principal_id r.principal_id).1 refl, test) refl in
      active_of_match r lease_id later (mutate taken gateway) taken only valid

  -- In a sound state, let the task that a claim chooses have attempts left and fields that do not
  -- validate as those of a job, and let the lease identifier be an identifier that no task of the
  -- tenant had. Then the claim raises the validation's error, the task is leased to the runner up to
  -- the claim's time and its lease_seconds, and until then complete, with any statements, raises
  -- runner_job_not_bound under that lease and changes nothing.
  pub invalid_task_strands :
      (r : RunnerRegistration) (lease_id : String) (at later : ℕ) (gateway : Gateway S)
      (s : RunnerTaskState) (statement : SignedStatement) (projections : List SignedStatement)
      → IsSound services gateway
      → ((x : RunnerTaskState) → Memᴰ x gateway.tasks → holds_lease r.tenant_id lease_id x ≡ false)
      → next_candidate (filter (is_candidate r.tenant_id at) gateway.tasks) ≡ some s
      → is_identifier services lease_id ≡ true
      → leb 32 s.attempt ≡ false
      → is_valid_task services s ≡ false
      → later ≤ at + s.task.lease_seconds
      → let after = (claim services r lease_id at gateway).1 in
        ((claim services r lease_id at gateway).0
          ≡ raised (services.validation_error (job_of lease_id at s).spec))
        × (active_state r lease_id later after ≡ ok (leased_state r.principal_id lease_id at s))
        × (complete services json r lease_id statement projections later after
            ≡ (raised "runner_job_not_bound", after))
  invalid_task_strands r lease_id at later gateway s statement projections sound fresh next token
        left invalid in_time =
      let taken = leased_state r.principal_id lease_id at s in
      let (among, candidate) = next_is_candidate r.tenant_id at gateway.tasks s next in
      let tenant = (eq_iff s.task.tenant_id r.tenant_id).0 (and_left _ _ candidate) in
      let made = claim_of_invalid r lease_id at gateway s next token left invalid in
      let active = stranded r lease_id at later gateway s fresh among tenant in_time in
      let free = jobless gateway.completed_attempts s (sound s among) invalid in
      let checks =
        unbound services json r lease_id statement projections later (mutate taken gateway) taken
          active free in
      rw (made) (
        refl,
        active,
        refused_completion services json r lease_id statement projections later
            (mutate taken gateway) "runner_job_not_bound" checks,
      )
