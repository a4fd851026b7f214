-- ===== src/Runner/Gateway/Invariant.antt =====
-- The invariant of the gateway's state, which every method keeps, and the reachable states.
use collective_phase_control.Prelude.{
  ℕ, suc, ◌≤◌, String, ◌≡◌, refl, sym, subst, ◌⊎◌, inl, inr, Bool, true, false, not, ◌&&◌, ◌||◌,
  none, some, Option-cases, List, [], ◌∷◌, ◌++◌, Memᴰ, Memᴰ-append, arith, ltb, nat_eq, ◌==◌,
  Bool-cases, Outcome, ok, raised, Outcome-cases, any, not-Memᴰ-nil,
}
use collective_phase_control.Ids.{add}
use collective_phase_control.Runner.{RunnerJob}
use collective_phase_control.Runner.Receipt.{is_prior}
use collective_phase_control.Runner.Gateway.{
  RunnerRegistration, RunnerTask, leased, completed, RunnerTaskState, Services, Gateway, mutate,
  settle, active_state, register, has_key,
}
use collective_phase_control.Runner.Gateway.Dispatch.{
  stored_length, new_state, authority_objection, material_objection, dispatch,
}
use collective_phase_control.Runner.Gateway.Claim.{job_of}
use collective_phase_control.Runner.Gateway.Validation.{is_valid_task_part}
use collective_phase_control.Runner.Gateway.Lease.{
  beaten, heartbeat, with_artifact, record_artifact,
}
use collective_phase_control.Runner.Gateway.Active.{Memᴰ-put_state, active_state_elim}

-- a leased state: its job carries the lease, the attempt and the task
pub record IsLeased (s : RunnerTaskState) : Type 0 where
  pub job : RunnerJob
  pub bound : s.job ≡ some job
  pub lease : s.lease_id ≡ some job.spec.lease_id
  pub expires : s.lease_expires_at ≡ some job.spec.lease_expires_at
  pub same_attempt : job.spec.attempt ≡ s.attempt
  pub same_task : job.spec.job_id ≡ s.task.job_id

module _ {S : Type 0} {J : Type 0} (services : Services S J) where
  -- do the fields that the task gives validate: the lease plays no part in that
  abbrev pub is_valid_task : RunnerTaskState → Bool
  is_valid_task s = is_valid_task_part services (job_of "" 0 s).spec

  -- a leased state without a job: its task does not validate
  pub record IsUnbound (s : RunnerTaskState) : Type 0 where
    pub no_job : s.job ≡ none
    pub invalid : is_valid_task s ≡ false

  pub record IsSoundState (completed_attempts : List (String × ℕ)) (s : RunnerTaskState)
      : Type 0 where
    pub lease : s.status ≡ leased → IsUnbound s ⊎ IsLeased s
    pub limit : s.attempt ≤ 32
    pub recorded : s.status ≡ completed → is_prior s.task.job_id s.attempt completed_attempts ≡ true
    pub validated : (job : RunnerJob) → s.job ≡ some job → is_valid_task s ≡ true

module _ {S : Type 0} {J : Type 0} (services : Services S J) where
  -- attempts that are completed stay completed
  pub still_sound :
      (done : List (String × ℕ)) (job_id : String) (attempt : ℕ) (s : RunnerTaskState)
      → IsSoundState services done s
      → IsSoundState services ((job_id, attempt) ∷ done) s
  still_sound done job_id attempt s sound = record {
    lease = sound.lease;
    limit = sound.limit;
    recorded = λ c. ground (arith, sound.recorded c);
    validated = sound.validated;
  }

  -- a mutation of the heartbeats or of the artifacts
  touched_sound :
      (done : List (String × ℕ)) (s : RunnerTaskState) (sequence : ℕ) (artifacts : List String)
      → IsSoundState services done s
      → IsSoundState services done
          (record s { heartbeat_sequence = sequence; artifact_digests = artifacts })
  touched_sound done s sequence artifacts sound = record {
    lease = λ l. elim (sound.lease l) [
      | inl u ↦ inl (record { no_job = u.no_job; invalid = u.invalid })
      | inr b ↦ inr (record {
        job = b.job;
        bound = b.bound;
        lease = b.lease;
        expires = b.expires;
        same_attempt = b.same_attempt;
        same_task = b.same_task;
      })
    ];
    limit = sound.limit;
    recorded = sound.recorded;
    validated = sound.validated;
  }

  beaten_sound :
      (done : List (String × ℕ)) (sequence : ℕ) (s t : RunnerTaskState)
      → IsSoundState services done s
      → beaten sequence s ≡ ok t
      → IsSoundState services done t
  beaten_sound done sequence s t sound h =
      elim (Bool-cases (not (nat_eq sequence (suc s.heartbeat_sequence)))) [
        | inl wrong ↦ cc (rw (wrong) at h)
        | inr right ↦
            let same : record s { heartbeat_sequence = sequence } ≡ t = cc (rw (right) at h) in
            subst (IsSoundState services done) same
              (touched_sound done s sequence s.artifact_digests sound)
      ]

  abbrev pub IsSound : Gateway S → Type 0
  IsSound gateway =
      (s : RunnerTaskState)
      → Memᴰ s gateway.tasks
      → IsSoundState services gateway.completed_attempts s

  pub IsSound-mutate :
      (s : RunnerTaskState) (gateway : Gateway S)
      → IsSound gateway
      → IsSoundState services gateway.completed_attempts s
      → IsSound (mutate s gateway)
  IsSound-mutate s gateway sound good x m = elim (Memᴰ-put_state x s gateway.tasks m) [
    | inl same ↦ subst (IsSoundState services gateway.completed_attempts) (sym same) good
    | inr old ↦ sound x old
  ]

  -- a method that settles one state of the gateway
  IsSound-settle :
      (gateway : Gateway S) (outcome : Outcome RunnerTaskState)
      → IsSound gateway
      → ((s : RunnerTaskState)
          → outcome ≡ ok s
          → IsSoundState services gateway.completed_attempts s)
      → IsSound (settle gateway outcome).1
  IsSound-settle gateway (ok s) sound good = IsSound-mutate s gateway sound (good s refl)
  IsSound-settle gateway (raised code) sound good = sound

  pub IsSound-register :
      (r : RunnerRegistration) (gateway : Gateway S)
      → IsSound gateway
      → IsSound (register r gateway).1
  unfolding register
  IsSound-register r gateway sound =
      elim (Bool-cases (
        any (λ x. x.tenant_id == r.tenant_id && x.runner_id == r.runner_id)
          gateway.registrations)) [
            | inl known ↦ rw (register, known) sound
            | inr new ↦
                elim (Bool-cases (
                  any
                    (λ x.
                      x.certificate_fingerprint == r.certificate_fingerprint
                      || x.uri_san == r.uri_san)
                    gateway.registrations)) [
                      | inl bound ↦ rw (register, new, bound) sound
                      | inr free ↦ rw (register, new, free) sound
                    ]
          ]

  pub IsSound-heartbeat :
      (r : RunnerRegistration) (lease_id : String) (sequence at : ℕ) (gateway : Gateway S)
      → IsSound gateway
      → IsSound (heartbeat r lease_id sequence at gateway).1
  unfolding heartbeat
  IsSound-heartbeat r lease_id sequence at gateway sound =
      elim (Outcome-cases (active_state r lease_id at gateway)) [
        | inl (code, e) ↦ rw (heartbeat, e) sound
        | inr (s, e) ↦
            let m = (active_state_elim r lease_id at gateway s e).0 in
            rw (heartbeat, e)
              (IsSound-settle gateway (beaten sequence s) sound
                (λ t. beaten_sound gateway.completed_attempts sequence s t (sound s m)))
      ]

  with_artifact_sound :
      (done : List (String × ℕ)) (objects : S) (tenant_id digest : String) (s t : RunnerTaskState)
      → IsSoundState services done s
      → with_artifact services objects tenant_id digest s ≡ ok t
      → IsSoundState services done t
  unfolding with_artifact
  with_artifact_sound done objects tenant_id digest s t sound h =
      let proposed = add digest s.artifact_digests in
      elim (Bool-cases (not (services.exists objects tenant_id digest))) [
        | inl missing ↦ cc (rw (with_artifact, missing) at h)
        | inr stored ↦ elim (Outcome-cases (stored_length services objects tenant_id proposed)) [
          | inl (text, e) ↦ cc (rw (with_artifact, stored, e) at h)
          | inr (n, e) ↦
              elim (Bool-cases (ltb s.task.execution_policy.spec.maximum_output_bytes n)) [
                | inl large ↦ cc (rw (with_artifact, stored, e, large) at h)
                | inr fits ↦
                    let same : record s { artifact_digests = proposed } ≡ t =
                      cc (rw (with_artifact, stored, e, fits) at h) in
                    subst (IsSoundState services done) same
                      (touched_sound done s s.heartbeat_sequence proposed sound)
              ]
        ]
      ]

  pub IsSound-record_artifact :
      (r : RunnerRegistration) (lease_id digest : String) (at : ℕ) (gateway : Gateway S)
      → IsSound gateway
      → IsSound (record_artifact services r lease_id digest at gateway).1
  unfolding record_artifact
  IsSound-record_artifact r lease_id digest at gateway sound =
      elim (Outcome-cases (active_state r lease_id at gateway)) [
        | inl (code, e) ↦ rw (record_artifact, e) sound
        | inr (s, e) ↦
            let m = (active_state_elim r lease_id at gateway s e).0 in
            rw (record_artifact, e)
              (IsSound-settle gateway (with_artifact services gateway.objects r.tenant_id digest s)
                sound
                (λ t.
                  with_artifact_sound gateway.completed_attempts gateway.objects r.tenant_id digest
                    s t (sound s m)))
      ]

  pub IsSound-dispatch :
      (task : RunnerTask) (at : ℕ) (gateway : Gateway S)
      → IsSound gateway
      → IsSound (dispatch services task at gateway).1
  unfolding dispatch
  IsSound-dispatch task at gateway sound =
      elim (Bool-cases (any (has_key task.tenant_id task.job_id) gateway.tasks)) [
        | inl known ↦ rw (dispatch, known) sound
        | inr new ↦ elim (Option-cases (authority_objection services task at)) [
          | inr (code, e) ↦ rw (dispatch, new, e) sound
          | inl e ↦ elim (Option-cases (material_objection services task gateway.objects)) [
            | inr (code, f) ↦ rw (dispatch, new, e, f) sound
            | inl f ↦ rw (dispatch, new, e, f) (with_new gateway sound)
          ]
        ]
      ]
    where
      new_sound : (done : List (String × ℕ)) → IsSoundState services done (new_state task)
      new_sound done = record {
        lease = λ l. cc;
        limit = omega arith;
        recorded = λ c. cc;
        validated = λ j e. cc;
      }

      with_new :
          (g : Gateway S)
          → IsSound g
          → IsSound (record g { tasks = g.tasks ++ new_state task ∷ [] })
      with_new g good x m = elim ((Memᴰ-append x g.tasks (new_state task ∷ [])).0 m) [
        | inl old ↦ good x old
        | inr (Memᴰ.head e) ↦
            subst (IsSoundState services g.completed_attempts) (sym e)
              (new_sound g.completed_attempts)
        | inr (Memᴰ.tail none_left) ↦ absurd (not-Memᴰ-nil x none_left)
      ]
