-- ===== src/Runner/Gateway/Completion.antt =====
-- What a completion of runner_gateway.py rests on, and that an attempt is completed once.
use mathlib.Core.List.Memᴰ
use collective_phase_control.Prelude.{
  ℕ, String, ◌≡◌, refl, sym, ap, subst, ◌∙◌, inl, inr, true, false, Option, none, some, List, [],
  ◌∷◌, Memᴰ, Memᴰ-cons, Memᴰ-filter, not-Memᴰ-nil, arith, eq_iff, Bool-cases, ok, raised,
  Outcome-cases, some-injective,
}
use collective_phase_control.Ids.Dict.{Dict}
use collective_phase_control.Runner.{RunnerJob, RunnerReceipt}
use collective_phase_control.Runner.Receipt.{Json, is_prior}
use collective_phase_control.Runner.Receipt.Conformant.{IsConformant, validate_receipt_sound}
use collective_phase_control.Runner.Gateway.{
  RunnerRegistration, SignedStatement, leased, completed, RunnerTaskState, Services, Gateway,
  has_key, put_state, holds_lease, active_state,
}
use collective_phase_control.Runner.Gateway.Complete.{
  RunnerCompletion, Checked, available_digests, checked_completion, completed_state, closed,
  complete,
}
use collective_phase_control.Runner.Gateway.Active.{IsActive, active_state_elim}
use collective_phase_control.Runner.Gateway.Checked.{IsReceived, IsChecked, checked_completion_elim}
use collective_phase_control.Runner.Gateway.Invariant.{IsSoundState, IsSound}

-- a state that is put in place of another with its key is there
pub put_state-member :
    (s t : RunnerTaskState) (states : List RunnerTaskState)
    → Memᴰ t states
    → has_key s.task.tenant_id s.task.job_id t ≡ true
    → Memᴰ s (put_state s states)
unfolding put_state
put_state-member s t [] m h = absurd (Memᴰ.not-nil m)
put_state-member s t (u ∷ states) m h =
    elim (Bool-cases (has_key s.task.tenant_id s.task.job_id u)) [
      | inl same ↦ rw (same) (Memᴰ.head refl)
      | inr other ↦
          let earlier = put_state-member s t states in
          rw (other) (
            ground (
              arith,
              other,
              h,
              m,
              earlier,
              Memᴰ-cons t u states,
              Memᴰ-cons s u (put_state s states),
              λ (e : t ≡ u). ap (has_key s.task.tenant_id s.task.job_id) e,
            ))
    ]

pub same_key : (s : RunnerTaskState) → has_key s.task.tenant_id s.task.job_id s ≡ true
same_key s = ground (
  arith,
  (eq_iff s.task.tenant_id s.task.tenant_id).1 refl,
  (eq_iff s.task.job_id s.task.job_id).1 refl,
)

module _ {S : Type 0} {J : Type 0} (services : Services S J) (json : Json J) where
  -- what a completion rests on and what it leaves behind
  pub record IsCompletion (registration : RunnerRegistration) (lease_id : String)
      (statement : SignedStatement) (at : ℕ) (before after : Gateway S) : Type 0 where
    pub state : RunnerTaskState
    pub among : Memᴰ state before.tasks
    pub active : IsActive registration lease_id at state
    pub job : RunnerJob
    pub bound : state.job ≡ some job
    pub receipt : RunnerReceipt
    pub received : IsReceived services json registration statement at receipt
    pub lengths : Dict ℕ
    pub output : Option J
    pub conformant :
        IsConformant json
          (services.job_digest job)
          job
          receipt
          state.task.capability
          state.task.execution_policy
          at
          registration.principal_id
          before.completed_attempts
          (available_digests state)
          lengths
          output
    pub first : is_prior state.task.job_id state.attempt before.completed_attempts ≡ false
    pub recorded :
        after.completed_attempts ≡ (state.task.job_id, state.attempt) ∷ before.completed_attempts
    pub pending : List String
    pub mutated :
        after.tasks ≡ put_state (completed_state statement.digest pending state) before.tasks

  -- a completion is the first of its attempt, since its job is the task's
  pub first_of :
      (job : RunnerJob) (s : RunnerTaskState) (done : List (String × ℕ))
      → s.status ≡ leased
      → s.job ≡ some job
      → IsSoundState services done s
      → is_prior job.spec.job_id job.spec.attempt done ≡ false
      → is_prior s.task.job_id s.attempt done ≡ false
  first_of job s done status bound sound h = elim (sound.lease status) [
    | inl free ↦ cc (sym free.no_job ∙ bound)
    | inr held ↦
        let same : held.job ≡ job = some-injective (sym held.bound ∙ bound) in
        let id = ap (λ j. j.spec.job_id) (sym same) ∙ held.same_task in
        let attempt = ap (λ j. j.spec.attempt) (sym same) ∙ held.same_attempt in
        subst (λ n. is_prior s.task.job_id n done ≡ false) attempt
          (subst (λ i. is_prior i job.spec.attempt done ≡ false) id h)
  ]

  closed_elim :
      (registration : RunnerRegistration) (lease_id : String) (statement : SignedStatement)
      (projections : List SignedStatement) (at : ℕ) (gateway : Gateway S)
      (answer : RunnerCompletion) (c : Checked) (stored : Option String × S)
      → IsSound services gateway
      → IsChecked services json registration lease_id statement projections at gateway c
      → (closed services json statement c stored gateway).0 ≡ ok answer
      → IsCompletion registration lease_id statement at gateway
          (closed services json statement c stored gateway).1
  unfolding closed
  closed_elim registration lease_id statement projections at gateway answer c (some code, objects)
        sound k h =
      cc
  closed_elim registration lease_id statement projections at gateway answer c (none, objects) sound
        k h =
      let conformant = validate_receipt_sound json _ _ _ _ _ _ _ _ _ _ _ k.checked.accepted in
      record {
        state = c.state;
        among = k.among;
        active = k.active;
        job = k.job;
        bound = k.bound;
        receipt = k.receipt;
        received = k.received;
        lengths = k.checked.lengths;
        output = k.checked.output;
        conformant = conformant;
        first =
            first_of k.job c.state gateway.completed_attempts k.active.is_open k.bound
              (sound c.state k.among) conformant.in_lease.first_completion;
        recorded = refl;
        pending = c.pending_digests;
        mutated = refl;
      }

  -- From a sound state, a completion is of a task that the runner holds an unexpired lease of; a
  -- receipt that the runner signed conforms with the task's job; the attempt was not completed
  -- before, and it is recorded as completed.
  pub complete_sound :
      (registration : RunnerRegistration) (lease_id : String) (statement : SignedStatement)
      (projections : List SignedStatement) (at : ℕ) (gateway : Gateway S)
      (answer : RunnerCompletion)
      → IsSound services gateway
      → (complete services json registration lease_id statement projections at gateway).0
        ≡ ok answer
      → IsCompletion registration lease_id statement at gateway
          (complete services json registration lease_id statement projections at gateway).1
  unfolding complete
  complete_sound registration lease_id statement projections at gateway answer sound h =
      elim (Outcome-cases
        (checked_completion services json registration lease_id statement projections at gateway)) [
          | inl (code, e) ↦ cc (rw (complete, e) at h)
          | inr (c, e) ↦
              rw (complete, e)
                (closed_elim registration lease_id statement projections at gateway answer c _ sound
                  (checked_completion_elim services json registration lease_id statement projections
                    at gateway c e)
                  (rw (complete, e) at h))
        ]

  pub refused_completion :
      (registration : RunnerRegistration) (lease_id : String) (statement : SignedStatement)
      (projections : List SignedStatement) (at : ℕ) (gateway : Gateway S) (code : String)
      → checked_completion services json registration lease_id statement projections at gateway
        ≡ raised code
      → complete services json registration lease_id statement projections at gateway
        ≡ (raised code, gateway)
  unfolding complete
  refused_completion registration lease_id statement projections at gateway code e =
      rw (complete, e) refl

  -- A lease that was completed is not active any more, at no time and for no runner of the tenant.
  pub completed_lease :
      (registration other : RunnerRegistration) (lease_id : String) (statement : SignedStatement)
      (at later : ℕ) (before after : Gateway S)
      → IsCompletion registration lease_id statement at before after
      → other.tenant_id ≡ registration.tenant_id
      → (x : RunnerTaskState) → active_state other lease_id later after ≡ ok x
      → ⊥
  completed_lease registration other lease_id statement at later before after k same x h =
      let (_, active, only) = active_state_elim other lease_id later after x h in
      let ended = completed_state statement.digest k.pending k.state in
      let there : Memᴰ ended after.tasks =
        rw (k.mutated) (put_state-member ended k.state before.tasks k.among (same_key k.state)) in
      let tenant =
        (eq_iff k.state.task.tenant_id other.tenant_id).1 (k.active.of_tenant ∙ sym same) in
      let holds : holds_lease other.tenant_id lease_id ended ≡ true =
        rw (tenant, k.active.of_lease) ((eq_iff lease_id lease_id).1 refl) in
      let found : Memᴰ ended (x ∷ []) =
        rw (sym only) (
          (Memᴰ-filter (holds_lease other.tenant_id lease_id) ended after.tasks).1
            (there, holds)) in
      let equal : ended ≡ x = ground (arith, Memᴰ-cons ended x [], found, not-Memᴰ-nil ended) in
      let clash : completed ≡ leased = ap (λ s. s.status) equal ∙ active.is_open in cc
