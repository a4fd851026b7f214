-- ===== src/Runner/Gateway/Checked.antt =====
-- What the checks of complete, in runner_gateway.py, have established when none of them raises.
use collective_phase_control.Prelude.{
  ℕ, String, ◌≡◌, refl, sym, ap, subst, ◌∙◌, inl, inr, Bool, true, false, not, ◌||◌, Option, none,
  some, Option-cases, List, [], Memᴰ, ◌==◌, eq_iff, Bool-cases, ok, raised, Outcome-cases,
  raised≢ok,
}
use collective_phase_control.Ids.{is_repeated}
use collective_phase_control.Ids.Unique.{IsUnique, unrepeated}
use collective_phase_control.Ids.Dict.{Dict}
use collective_phase_control.Runner.{RunnerJob, RunnerReceipt}
use collective_phase_control.Runner.Receipt.{Json, validate_receipt}
use collective_phase_control.Runner.Gateway.{
  RunnerRegistration, SignedStatement, RunnerDocument, VerifiedStatement, RunnerTaskState, Services,
  Gateway, active_state,
}
use collective_phase_control.Runner.Gateway.Dispatch.{objection}
use collective_phase_control.Runner.Gateway.Complete.{
  available_digests, as_receipt, Checked, verified_receipt, artifact_lengths, output_document,
  pending_digests_of, checked_receipt, checked_completion,
}
use collective_phase_control.Runner.Gateway.Active.{IsActive, active_state_elim}

module _ {S : Type 0} {J : Type 0} (services : Services S J) (json : Json J) where
  pub record IsCheckedReceipt (registration : RunnerRegistration)
      (projections : List SignedStatement) (at : ℕ) (state : RunnerTaskState) (job : RunnerJob)
      (receipt : RunnerReceipt) (gateway : Gateway S) (c : Checked) : Type 0 where
    pub same_state : c.state ≡ state
    pub lengths : Dict ℕ
    pub output : Option J
    pub measured :
        artifact_lengths services json gateway.objects registration.tenant_id
          (available_digests state)
        ≡ ok lengths
    pub read :
        output_document services json gateway.objects registration.tenant_id
          receipt.spec.output_digests
        ≡ ok output
    pub accepted :
        (validate_receipt json
          (services.job_digest job)
          job
          receipt
          state.task.capability
          state.task.execution_policy
          at
          registration.principal_id
          gateway.completed_attempts
          (available_digests state)
          lengths
          output).accepted
        ≡ true
    pub projected :
        pending_digests_of services json state.task receipt at projections [] ≡ ok c.pending_digests
    pub distinct : IsUnique c.pending_digests

  checked_receipt_elim :
      (registration : RunnerRegistration) (projections : List SignedStatement) (at : ℕ)
      (state : RunnerTaskState) (job : RunnerJob) (receipt : RunnerReceipt) (gateway : Gateway S)
      (c : Checked)
      → checked_receipt services json registration projections at state job receipt gateway ≡ ok c
      → IsCheckedReceipt registration projections at state job receipt gateway c
  unfolding checked_receipt
  checked_receipt_elim registration projections at state job receipt gateway c h =
      let available = available_digests state in
      elim (Outcome-cases
        (artifact_lengths services json gateway.objects registration.tenant_id available)) [
          | inl (text, e) ↦ cc (rw (checked_receipt, e) at h)
          | inr (lengths, e) ↦
              elim (Outcome-cases (
                output_document services json gateway.objects registration.tenant_id
                  receipt.spec.output_digests)) [
                    | inl (text, f) ↦ cc (rw (checked_receipt, e, f) at h)
                    | inr (output, f) ↦
                        let conformance =
                          validate_receipt json (services.job_digest job) job receipt
                            state.task.capability state.task.execution_policy at
                            registration.principal_id gateway.completed_attempts available lengths
                            output in
                        elim (Bool-cases conformance.accepted) [
                          | inr refused ↦ cc (rw (checked_receipt, e, f, refused) at h)
                          | inl accepted ↦
                              elim (Outcome-cases (
                                pending_digests_of services json state.task receipt at projections
                                  [])) [
                                    | inl (code, p) ↦
                                        cc (rw (checked_receipt, e, f, accepted, p) at h)
                                    | inr (pending, p) ↦ elim (Bool-cases (is_repeated pending)) [
                                      | inl twice ↦
                                          cc (rw (checked_receipt, e, f, accepted, p, twice) at h)
                                      | inr once ↦
                                          let same : record {
                                            state = state;
                                            conformance = conformance;
                                            pending_digests = pending;
                                          }
                                              ≡ c =
                                            cc (
                                              rw (checked_receipt, e, f, accepted, p, once) at h) in
                                          record {
                                            same_state = sym (ap (λ x. x.state) same);
                                            lengths = lengths;
                                            output = output;
                                            measured = e;
                                            read = f;
                                            accepted = accepted;
                                            projected = p ∙ ap (λ x. ok x.pending_digests) same;
                                            distinct =
                                                rw (sym (ap (λ x. x.pending_digests) same))
                                                  (unrepeated pending once);
                                          }
                                    ]
                                  ]
                        ]
                  ]
        ]

  -- a receipt that the gateway received, signed by the runner
  pub record IsReceived (registration : RunnerRegistration) (statement : SignedStatement) (at : ℕ)
      (receipt : RunnerReceipt) : Type 0 where
    pub verified : VerifiedStatement
    pub signed : services.verify statement at ≡ ok verified
    pub about : as_receipt verified.subject ≡ some receipt
    pub in_role : verified.role ≡ "runner_receipt"
    pub by_runner : verified.principal_id ≡ registration.principal_id

  unrefused :
      (code : String) (refused : Bool) (statement : SignedStatement) (expected : RunnerDocument)
      → objection services code refused statement expected ≡ none
      → refused ≡ false
  unfolding objection
  unrefused code true statement expected h = cc
  unrefused code false statement expected h = refl

  verified_receipt_elim :
      (registration : RunnerRegistration) (statement : SignedStatement) (at : ℕ)
      (receipt : RunnerReceipt)
      → verified_receipt services json registration statement at ≡ ok receipt
      → IsReceived registration statement at receipt
  unfolding verified_receipt
  verified_receipt_elim registration statement at receipt h =
      elim (Outcome-cases (services.verify statement at)) [
        | inl (text, e) ↦ cc (rw (verified_receipt, e) at h)
        | inr (verified, e) ↦ elim (Option-cases (as_receipt verified.subject)) [
          | inl f ↦ cc (rw (verified_receipt, e, f) at h)
          | inr (found, f) ↦
              let refused =
                not (verified.role == "runner_receipt")
                || not (verified.principal_id == registration.principal_id) in
              elim (Option-cases (
                objection services "runner_receipt_signature_invalid" refused statement
                  verified.subject)) [
                    | inr (code, g) ↦ cc (rw (verified_receipt, e, f, g) at h)
                    | inl g ↦
                        let same : found ≡ receipt = cc (rw (verified_receipt, e, f, g) at h) in
                        let (role, by) = neither _ _ (
                          unrefused "runner_receipt_signature_invalid" refused statement
                            verified.subject g) in
                        record {
                          verified = verified;
                          signed = e;
                          about = f ∙ ap some same;
                          in_role = (eq_iff _ _).0 role;
                          by_runner = (eq_iff _ _).0 by;
                        }
                  ]
        ]
      ]
    where
      neither : (a b : Bool) → not a || not b ≡ false → (a ≡ true) × (b ≡ true)
      neither true true h = (refl, refl)
      neither true false h = cc
      neither false b h = cc

  -- all that complete has checked before it stores anything
  pub record IsChecked (registration : RunnerRegistration) (lease_id : String)
      (statement : SignedStatement) (projections : List SignedStatement) (at : ℕ)
      (gateway : Gateway S) (c : Checked) : Type 0 where
    pub among : Memᴰ c.state gateway.tasks
    pub active : IsActive registration lease_id at c.state
    pub found : active_state registration lease_id at gateway ≡ ok c.state
    pub job : RunnerJob
    pub bound : c.state.job ≡ some job
    pub receipt : RunnerReceipt
    pub received : IsReceived registration statement at receipt
    pub checked : IsCheckedReceipt registration projections at c.state job receipt gateway c

  assemble :
      (registration : RunnerRegistration) (lease_id : String) (statement : SignedStatement)
      (projections : List SignedStatement) (at : ℕ) (gateway : Gateway S) (c : Checked)
      (state : RunnerTaskState) (job : RunnerJob) (receipt : RunnerReceipt)
      → active_state registration lease_id at gateway ≡ ok state
      → state.job ≡ some job
      → verified_receipt services json registration statement at ≡ ok receipt
      → checked_receipt services json registration projections at state job receipt gateway ≡ ok c
      → IsChecked registration lease_id statement projections at gateway c
  assemble registration lease_id statement projections at gateway c state job receipt e f g k =
      let checked =
        checked_receipt_elim registration projections at state job receipt gateway c k in
      let (among, active, _) = active_state_elim registration lease_id at gateway state e in
      let back = sym checked.same_state in
      record {
        among = subst (λ s. Memᴰ s gateway.tasks) back among;
        active = subst (IsActive registration lease_id at) back active;
        found = e ∙ ap ok back;
        job = job;
        bound = ap (λ s. s.job) checked.same_state ∙ f;
        receipt = receipt;
        received = verified_receipt_elim registration statement at receipt g;
        checked =
            subst (λ s. IsCheckedReceipt registration projections at s job receipt gateway c) back
              checked;
      }

  -- the result of the checks in each case
  checks_of_receipt :
      (registration : RunnerRegistration) (lease_id : String) (statement : SignedStatement)
      (projections : List SignedStatement) (at : ℕ) (gateway : Gateway S) (state : RunnerTaskState)
      (job : RunnerJob) (receipt : RunnerReceipt)
      → active_state registration lease_id at gateway ≡ ok state
      → state.job ≡ some job
      → verified_receipt services json registration statement at ≡ ok receipt
      → checked_completion services json registration lease_id statement projections at gateway
        ≡ checked_receipt services json registration projections at state job receipt gateway
  unfolding checked_completion
  checks_of_receipt registration lease_id statement projections at gateway state job receipt e f k =
      simp (checked_completion, e, f, k) refl

  unverified :
      (registration : RunnerRegistration) (lease_id : String) (statement : SignedStatement)
      (projections : List SignedStatement) (at : ℕ) (gateway : Gateway S) (state : RunnerTaskState)
      (job : RunnerJob) (code : String)
      → active_state registration lease_id at gateway ≡ ok state
      → state.job ≡ some job
      → verified_receipt services json registration statement at ≡ raised code
      → checked_completion services json registration lease_id statement projections at gateway
        ≡ raised code
  unfolding checked_completion
  unverified registration lease_id statement projections at gateway state job code e f k =
      rw (checked_completion, e, f, k) refl

  pub unbound :
      (registration : RunnerRegistration) (lease_id : String) (statement : SignedStatement)
      (projections : List SignedStatement) (at : ℕ) (gateway : Gateway S) (state : RunnerTaskState)
      → active_state registration lease_id at gateway ≡ ok state
      → state.job ≡ none
      → checked_completion services json registration lease_id statement projections at gateway
        ≡ raised "runner_job_not_bound"
  unfolding checked_completion
  unbound registration lease_id statement projections at gateway state e f =
      rw (checked_completion, e, f) refl

  pub inactive :
      (registration : RunnerRegistration) (lease_id : String) (statement : SignedStatement)
      (projections : List SignedStatement) (at : ℕ) (gateway : Gateway S) (code : String)
      → active_state registration lease_id at gateway ≡ raised code
      → checked_completion services json registration lease_id statement projections at gateway
        ≡ raised code
  unfolding checked_completion
  inactive registration lease_id statement projections at gateway code e =
      rw (checked_completion, e) refl

  pub checked_completion_elim :
      (registration : RunnerRegistration) (lease_id : String) (statement : SignedStatement)
      (projections : List SignedStatement) (at : ℕ) (gateway : Gateway S) (c : Checked)
      → checked_completion services json registration lease_id statement projections at gateway
        ≡ ok c
      → IsChecked registration lease_id statement projections at gateway c
  checked_completion_elim registration lease_id statement projections at gateway c h =
      elim (Outcome-cases (active_state registration lease_id at gateway)) [
        | inl (code, e) ↦ absurd (
            raised≢ok _ _
              (sym (inactive registration lease_id statement projections at gateway code e) ∙ h))
        | inr (state, e) ↦ elim (Option-cases state.job) [
          | inl f ↦ absurd (
              raised≢ok _ _ (
                sym (unbound registration lease_id statement projections at gateway state e f) ∙ h))
          | inr (job, f) ↦
              elim (Outcome-cases (verified_receipt services json registration statement at)) [
                | inl (code, k) ↦ absurd (
                    raised≢ok _ _ (
                      sym (
                        unverified registration lease_id statement projections at gateway state job
                          code e f k)
                      ∙ h))
                | inr (receipt, k) ↦
                    assemble registration lease_id statement projections at gateway c state job
                      receipt e f k
                      (sym (
                          checks_of_receipt registration lease_id statement projections at gateway
                            state job receipt e f k)
                        ∙ h)
              ]
        ]
      ]
