-- ===== src/Runner/Gateway/Once.antt =====
-- An attempt is completed at most once: the lease that completed it is spent, and an attempt that is
-- recorded as completed is refused, by complete of runner_gateway.py.
use collective_phase_control.Prelude.{
  ℕ, String, ◌≡◌, sym, ap, ◌∙◌, inl, inr, true, List, Outcome, ok, raised, Outcome-cases,
}
use mathlib.Core.Bool.{true≢false}
use collective_phase_control.Runner.Receipt.{Json, is_prior}
use collective_phase_control.Runner.Receipt.Conformant.{validate_receipt_sound}
use collective_phase_control.Runner.Gateway.{
  RunnerRegistration, SignedStatement, RunnerTaskState, Services, Gateway, active_state,
}
use collective_phase_control.Runner.Gateway.Complete.{
  RunnerCompletion, checked_completion, complete,
}
use collective_phase_control.Runner.Gateway.Checked.{checked_completion_elim, inactive}
use collective_phase_control.Runner.Gateway.Invariant.{IsSound}
use collective_phase_control.Runner.Gateway.Completion.{
  first_of, refused_completion, completed_lease, complete_sound,
}

module _ {S : Type 0} {J : Type 0} (services : Services S J) (json : Json J) where
  -- From a sound state, when a lease has been used for a completion, every later completion under it,
  -- with any statements, at any time and by any runner of the tenant, raises and changes nothing.
  pub complete_once :
      (registration other : RunnerRegistration) (lease_id : String)
      (statement again : SignedStatement) (projections others : List SignedStatement) (at later : ℕ)
      (gateway : Gateway S) (answer : RunnerCompletion)
      → IsSound services gateway
      → (complete services json registration lease_id statement projections at gateway).0
        ≡ ok answer
      → other.tenant_id ≡ registration.tenant_id
      → let after =
          (complete services json registration lease_id statement projections at gateway).1 in
        (code : String) × (complete services json other lease_id again others later after
          ≡ (raised code, after))
  complete_once registration other lease_id statement again projections others at later gateway
        answer sound h same =
      let after =
        (complete services json registration lease_id statement projections at gateway).1 in
      let done =
        complete_sound services json registration lease_id statement projections at gateway answer
          sound h in
      elim (Outcome-cases (active_state other lease_id later after)) [
        | inl (code, e) ↦ (
          code,
          refused_completion services json other lease_id again others later after code
              (inactive services json other lease_id again others later after code e),
        )
        | inr (x, e) ↦ absurd (
            completed_lease services json registration other lease_id statement at later gateway
              after done same x e)
      ]

  -- In a sound state, where the job identifier and the attempt of a leased task stand among the
  -- completed attempts, whichever tenant completed them, complete raises and changes nothing.
  pub replay_refused :
      (registration : RunnerRegistration) (lease_id : String) (statement : SignedStatement)
      (projections : List SignedStatement) (at : ℕ) (gateway : Gateway S) (s : RunnerTaskState)
      → IsSound services gateway
      → active_state registration lease_id at gateway ≡ ok s
      → is_prior s.task.job_id s.attempt gateway.completed_attempts ≡ true
      → (code : String) × (complete services json registration lease_id statement projections at
            gateway
          ≡ (raised code, gateway))
  replay_refused registration lease_id statement projections at gateway s sound active replayed =
      elim (Outcome-cases
        (checked_completion services json registration lease_id statement projections at gateway)) [
          | inl (code, e) ↦ (
            code,
            refused_completion services json registration lease_id statement projections at gateway
                code e,
          )
          | inr (c, e) ↦
              let k =
                checked_completion_elim services json registration lease_id statement projections at
                  gateway c e in
              let conformant =
                validate_receipt_sound json _ _ _ _ _ _ _ _ _ _ _ k.checked.accepted in
              let same : s ≡ c.state = ok_injective s c.state (sym active ∙ k.found) in
              let first =
                first_of services json k.job c.state gateway.completed_attempts k.active.is_open
                  k.bound (sound c.state k.among) conformant.in_lease.first_completion in
              let told =
                ap (λ t. is_prior t.task.job_id t.attempt gateway.completed_attempts) (sym same) in
              absurd (true≢false (sym replayed ∙ sym told ∙ first))
        ]
    where
      ok_injective : (a b : RunnerTaskState) → Path (Outcome RunnerTaskState) (ok a) (ok b) → a ≡ b
      ok_injective a b h = cc
