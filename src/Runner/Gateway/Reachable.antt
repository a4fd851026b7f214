-- ===== src/Runner/Gateway/Reachable.antt =====
-- The reachable states of the gateway of runner_gateway.py and the invariant that they have.
use mathlib.Core.List.Memᴰ
use mathlib.Core.Bool.{true≢false}
use collective_phase_control.Prelude.{
  ℕ, suc, sym, ◌∙◌, String, ◌≡◌, refl, subst, inl, inr, true, false, Option, none, some,
  Option-cases, List, [], ◌∷◌, Memᴰ, Memᴰ-filter, arith, leb, filter, eq_iff, Bool-cases,
  Outcome-cases, some-injective,
}
use collective_phase_control.Runner.Receipt.{Json}
use collective_phase_control.Runner.Gateway.{
  RunnerRegistration, SignedStatement, RunnerTask, RunnerTaskState, Services, Gateway, register,
}
use collective_phase_control.Runner.Gateway.Dispatch.{dispatch}
use collective_phase_control.Runner.Gateway.Claim.{
  is_candidate, least, next_candidate, leased_state, job_of, requeued_state, bound_state,
  signed_job, claim_state, claim,
}
use collective_phase_control.Runner.Gateway.Validation.{
  is_identifier, is_valid_lease_part, is_valid_task_part, is_valid_spec,
}
use collective_phase_control.Runner.Gateway.Lease.{heartbeat, record_artifact}
use collective_phase_control.Runner.Gateway.Complete.{
  Checked, checked_completion, completed_state, closed, complete,
}
use collective_phase_control.Runner.Gateway.Checked.{checked_completion_elim}
use collective_phase_control.Runner.Gateway.Invariant.{
  IsSoundState, is_valid_task, still_sound, IsSound, IsSound-mutate, IsSound-register,
  IsSound-heartbeat, IsSound-record_artifact, IsSound-dispatch,
}
use text.Mathlib.Text.{is_le}
use Prim.Native.String.{compare}

pub Memᴰ-least :
    (s : RunnerTaskState) (states : List RunnerTaskState) → Memᴰ (least s states) (s ∷ states)
unfolding least
Memᴰ-least s [] = Memᴰ.head refl
Memᴰ-least s (t ∷ states) = elim (Bool-cases (is_le (compare s.task.job_id t.task.job_id))) [
  | inl before ↦ rw (before) (past (least s states) (Memᴰ-least s states))
  | inr after ↦ rw (after) (Memᴰ.tail (Memᴰ-least t states))
]
  where
    past : (x : RunnerTaskState) → Memᴰ x (s ∷ states) → Memᴰ x (s ∷ t ∷ states)
    past x (Memᴰ.head e) = Memᴰ.head e
    past x (Memᴰ.tail m) = Memᴰ.tail (Memᴰ.tail m)

next_among :
    (states : List RunnerTaskState) (s : RunnerTaskState)
    → next_candidate states ≡ some s
    → Memᴰ s states
unfolding next_candidate
next_among [] s h = cc
next_among (t ∷ states) s h =
    subst (λ x. Memᴰ x (t ∷ states)) (some-injective h) (Memᴰ-least t states)

-- the chosen state is one of the candidates
pub next_is_candidate :
    (tenant_id : String) (at : ℕ) (tasks : List RunnerTaskState) (s : RunnerTaskState)
    → next_candidate (filter (is_candidate tenant_id at) tasks) ≡ some s
    → Memᴰ s tasks × (is_candidate tenant_id at s ≡ true)
next_is_candidate tenant_id at tasks s h =
    (Memᴰ-filter (is_candidate tenant_id at) s tasks).0 (next_among _ s h)

module _ {S : Type 0} {J : Type 0} (services : Services S J) where
  requeued_sound :
      (done : List (String × ℕ)) (principal_id lease_id : String) (at : ℕ) (s : RunnerTaskState)
      → IsSoundState services done s
      → IsSoundState services done (requeued_state (leased_state principal_id lease_id at s))
  unfolding is_valid_task_part
  requeued_sound done principal_id lease_id at s old = record {
    lease = λ l. cc;
    limit = omega (arith, old.limit);
    recorded = λ c. cc;
    validated = old.validated;
  }

  -- a claim whose job does not validate leaves a lease without a job: had there been a job before,
  -- the task would validate
  unvalidated_sound :
      (done : List (String × ℕ)) (principal_id lease_id : String) (at : ℕ) (s : RunnerTaskState)
      → IsSoundState services done s
      → leb 32 s.attempt ≡ false
      → is_valid_task services s ≡ false
      → IsSoundState services done (leased_state principal_id lease_id at s)
  unfolding is_valid_task_part
  unvalidated_sound done principal_id lease_id at s old below invalid = record {
    lease = λ l. elim (Option-cases s.job) [
      | inl free ↦ inl (record { no_job = free; invalid = invalid })
      | inr (job, bound) ↦ absurd (true≢false (sym (old.validated job bound) ∙ invalid))
    ];
    limit = ground (arith, below);
    recorded = λ c. cc;
    validated = old.validated;
  }

  bound_sound :
      (done : List (String × ℕ)) (principal_id lease_id : String) (at : ℕ)
      (statement : SignedStatement) (s : RunnerTaskState)
      → leb 32 s.attempt ≡ false
      → is_valid_task services s ≡ true
      → IsSoundState services done
          (bound_state (job_of lease_id at s) statement (leased_state principal_id lease_id at s))
  unfolding is_valid_task_part
  bound_sound done principal_id lease_id at statement s below valid = record {
    lease = λ l. inr (record {
      job = job_of lease_id at s;
      bound = refl;
      lease = refl;
      expires = refl;
      same_attempt = refl;
      same_task = refl;
    });
    limit = ground (arith, below);
    recorded = λ c. cc;
    validated = λ job e. valid;
  }

  completed_sound :
      (done : List (String × ℕ)) (digest : String) (pending : List String) (s : RunnerTaskState)
      → IsSoundState services done s
      → IsSoundState services ((s.task.job_id, s.attempt) ∷ done) (completed_state digest pending s)
  completed_sound done digest pending s old = record {
    lease = λ l. cc;
    limit = old.limit;
    recorded = λ c. ground (arith, (eq_iff s.task.job_id s.task.job_id).1 refl);
    validated = old.validated;
  }

  -- under a lease identifier that is one, and with attempts left, the job validates where the task does
  pub validates :
      (lease_id : String) (at : ℕ) (s : RunnerTaskState)
      → is_identifier services lease_id ≡ true
      → leb 32 s.attempt ≡ false
      → is_valid_spec services (job_of lease_id at s).spec ≡ is_valid_task services s
  unfolding is_valid_spec is_valid_lease_part is_valid_task_part
  validates lease_id at s token below =
      let few : leb (suc s.attempt) 32 ≡ true = ground (arith, below) in
      let some_attempt : leb 1 (suc s.attempt) ≡ true = ground arith in
      rw (token, few, some_attempt) refl

  IsSound-claim_state :
      (r : RunnerRegistration) (lease_id : String) (at : ℕ) (s : RunnerTaskState)
      (gateway : Gateway S)
      → is_identifier services lease_id ≡ true
      → IsSoundState services gateway.completed_attempts s
      → IsSound services gateway
      → IsSound services (claim_state services r lease_id at s gateway).1
  unfolding claim_state
  IsSound-claim_state r lease_id at s gateway token old sound =
      let done = gateway.completed_attempts in
      elim (Bool-cases (leb 32 s.attempt)) [
        | inl spent ↦ rw (claim_state, spent) sound
        | inr left ↦
            let same = validates lease_id at s token left in
            elim (Bool-cases (is_valid_spec services (job_of lease_id at s).spec)) [
              | inr invalid ↦
                  rw (claim_state, left, invalid)
                    (IsSound-mutate services _ gateway sound (
                      unvalidated_sound done r.principal_id lease_id at s old left
                        (sym same ∙ invalid)))
              | inl valid ↦ elim (Outcome-cases (signed_job services (job_of lease_id at s) at)) [
                | inl (code, e) ↦
                    rw (claim_state, left, valid, e)
                      (IsSound-mutate services _ gateway sound
                        (requeued_sound done r.principal_id lease_id at s old))
                | inr (statement, e) ↦
                    rw (claim_state, left, valid, e)
                      (IsSound-mutate services _ gateway sound (
                        bound_sound done r.principal_id lease_id at statement s left
                          (sym same ∙ valid)))
              ]
            ]
      ]

  IsSound-claim :
      (r : RunnerRegistration) (lease_id : String) (at : ℕ) (gateway : Gateway S)
      → is_identifier services lease_id ≡ true
      → IsSound services gateway
      → IsSound services (claim services r lease_id at gateway).1
  unfolding claim
  IsSound-claim r lease_id at gateway token sound =
      elim (Option-cases (next_candidate (filter (is_candidate r.tenant_id at) gateway.tasks))) [
        | inl e ↦ rw (claim, e) sound
        | inr (s, e) ↦
            let among = (next_is_candidate r.tenant_id at gateway.tasks s e).0 in
            rw (claim, e) (IsSound-claim_state r lease_id at s gateway token (sound s among) sound)
      ]

module _ {S : Type 0} {J : Type 0} (services : Services S J) (json : Json J) where
  IsSound-closed :
      (statement : SignedStatement) (checked : Checked) (stored : Option String × S)
      (gateway : Gateway S)
      → IsSoundState services gateway.completed_attempts checked.state
      → IsSound services gateway
      → IsSound services (closed services json statement checked stored gateway).1
  unfolding closed
  IsSound-closed statement checked (some code, objects) gateway limit sound = sound
  IsSound-closed statement checked (none, objects) gateway limit sound =
      let done = (checked.state.task.job_id, checked.state.attempt) ∷ gateway.completed_attempts in
      IsSound-mutate services
        (completed_state statement.digest checked.pending_digests checked.state)
        (record gateway { objects = objects; completed_attempts = done })
        (λ s m.
          still_sound services gateway.completed_attempts checked.state.task.job_id
            checked.state.attempt s (sound s m))
        (completed_sound services gateway.completed_attempts statement.digest
          checked.pending_digests checked.state limit)

  IsSound-complete :
      (r : RunnerRegistration) (lease_id : String) (statement : SignedStatement)
      (projections : List SignedStatement) (at : ℕ) (gateway : Gateway S)
      → IsSound services gateway
      → IsSound services (complete services json r lease_id statement projections at gateway).1
  unfolding complete
  IsSound-complete r lease_id statement projections at gateway sound =
      elim (Outcome-cases
        (checked_completion services json r lease_id statement projections at gateway)) [
          | inl (code, e) ↦ rw (complete, e) sound
          | inr (c, e) ↦
              let checked =
                checked_completion_elim services json r lease_id statement projections at gateway c
                  e in
              rw (complete, e)
                (IsSound-closed statement c _ gateway (sound c.state checked.among) sound)
        ]

  -- the states that the methods lead to from a gateway without registrations and tasks
  pub data Reachable : Gateway S → Type 0 where
    opened :
        (objects : S)
        → Reachable
            (record { registrations = []; tasks = []; completed_attempts = []; objects = objects })
    registered : (r : RunnerRegistration) {g : Gateway S} → Reachable g → Reachable (register r g).1
    dispatched :
        (task : RunnerTask) (at : ℕ) {g : Gateway S}
        → Reachable g
        → Reachable (dispatch services task at g).1
    claimed :
        (r : RunnerRegistration) (lease_id : String) (at : ℕ) {g : Gateway S}
        → is_identifier services lease_id ≡ true
        → Reachable g
        → Reachable (claim services r lease_id at g).1
    beaten :
        (r : RunnerRegistration) (lease_id : String) (sequence at : ℕ) {g : Gateway S}
        → Reachable g
        → Reachable (heartbeat r lease_id sequence at g).1
    recorded :
        (r : RunnerRegistration) (lease_id digest : String) (at : ℕ) {g : Gateway S}
        → Reachable g
        → Reachable (record_artifact services r lease_id digest at g).1
    ended :
        (r : RunnerRegistration) (lease_id : String) (statement : SignedStatement)
        (projections : List SignedStatement) (at : ℕ) {g : Gateway S}
        → Reachable g
        → Reachable (complete services json r lease_id statement projections at g).1

  -- In every state that the gateway's methods lead to, whatever the verifier, the signer and the
  -- store do, where the identifiers of leases are identifiers: a leased task is bound to a job with
  -- its lease, expiry, attempt and identifier, or it has no job and its fields do not validate as
  -- those of a job; only a task whose fields validate has a job; no task has more than 32 attempts;
  -- and the attempt of a completed task is recorded as completed.
  pub Reachable-IsSound : (gateway : Gateway S) → Reachable gateway → IsSound services gateway
  Reachable-IsSound _ (opened objects) = λ s m. absurd (Memᴰ.not-nil m)
  Reachable-IsSound _ (registered r {g = g} before) =
      IsSound-register services r g (Reachable-IsSound g before)
  Reachable-IsSound _ (dispatched task at {g = g} before) =
      IsSound-dispatch services task at g (Reachable-IsSound g before)
  Reachable-IsSound _ (claimed r lease_id at {g = g} token before) =
      IsSound-claim services r lease_id at g token (Reachable-IsSound g before)
  Reachable-IsSound _ (beaten r lease_id sequence at {g = g} before) =
      IsSound-heartbeat services r lease_id sequence at g (Reachable-IsSound g before)
  Reachable-IsSound _ (recorded r lease_id digest at {g = g} before) =
      IsSound-record_artifact services r lease_id digest at g (Reachable-IsSound g before)
  Reachable-IsSound _ (ended r lease_id statement projections at {g = g} before) =
      IsSound-complete r lease_id statement projections at g (Reachable-IsSound g before)
