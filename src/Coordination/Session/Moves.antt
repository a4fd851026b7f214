-- ===== src/Coordination/Session/Moves.antt =====
-- What each kind of event demands and does, in a session that has no blocker behind it.
use collective_phase_control.Prelude.{
  ℕ, ◌+◌, ◌≤◌, String, ◌≡◌, true, false, not, Option, none, some, List, [], ◌∷◌, arith, any, length,
  ltb, eq_iff, Option-cases, inl, inr,
}
use collective_phase_control.Ids.{elem}
use collective_phase_control.Ids.Dict.{Dict, get, put, values}
use collective_phase_control.Coordination.{
  CoordinationPlan, VerificationStatus, TerminationReason, CoordinationEvent, Phase, verify,
  integrate, terminated, commit_closed,
}
use collective_phase_control.Coordination.Session.{
  Session, check_event, on_commit, on_reveal, on_exposure, on_verification, by_plan_principal,
  on_close_commit, on_integration, on_terminate, proposal_commitment_digest, is_later, is_unsigned,
  count_at, is_passed, is_no_reveal,
}

-- a session with no blocker
abbrev pub IsClear : Session → Type 0
IsClear s = s.blockers ≡ []

module _ (digest_of : List (String × String) → String) (plan : CoordinationPlan) where
  pub check_event_clear :
      (signers : Option (Dict (List String))) (at : ℕ) (e : CoordinationEvent) (s : Session)
      → IsClear (check_event digest_of plan signers at e s)
      → (check_event digest_of plan signers at e s
          ≡ record s { previous_time = some e.occurred_at })
        × (is_later e.occurred_at s.previous_time ≡ false)
        × (ltb at e.occurred_at ≡ false)
        × (elem e.actor_principal_id plan.participant_principals ≡ true)
        × (is_unsigned signers e.digest e.actor_principal_id ≡ false)
  unfolding check_event
  check_event_clear signers at e s h = ground (arith, h)

  -- A commitment that leaves no blocker is in time, the first for its proposal and by its actor, and
  -- is recorded under the proposal.
  pub on_commit-IsClear :
      (e : CoordinationEvent) (p c : String) (s : Session)
      → IsClear (on_commit digest_of plan e p c s)
      → IsClear s
        × (ltb plan.commit_deadline e.occurred_at ≡ false)
        × (get p s.commitments ≡ none)
        × (elem e.actor_principal_id s.committed_actors ≡ false)
        × (on_commit digest_of plan e p c s ≡ record s {
          commitments = put p (e.actor_principal_id, c) s.commitments;
          committed_actors = e.actor_principal_id ∷ s.committed_actors;
        })
  unfolding on_commit
  on_commit-IsClear e p c s h = ground (arith, h)

  -- A reveal that leaves no blocker is in time, of a proposal this actor committed, with the digest
  -- that the artifact hashes to, and is recorded.
  pub on_reveal-IsClear :
      (e : CoordinationEvent) (p c a : String) (s : Session)
      → IsClear (on_reveal digest_of plan e p c a s)
      → IsClear s
        × (ltb plan.reveal_deadline e.occurred_at ≡ false)
        × (get p s.commitments
            ≡ some (
              e.actor_principal_id,
              proposal_commitment_digest digest_of plan.session_id p e.actor_principal_id a,
            ))
        × (on_reveal digest_of plan e p c a s ≡ record s { reveals = put p a s.reveals })
  unfolding on_reveal
  on_reveal-IsClear e p c a s h = elim (Option-cases (get p s.commitments)) [
    | inl missing ↦ absurd (none_blocks missing)
    | inr ((actor, committed), found) ↦ ground (
      arith,
      h,
      found,
      eq_iff actor e.actor_principal_id,
      eq_iff (proposal_commitment_digest digest_of plan.session_id p e.actor_principal_id a)
          committed,
    )
  ]
    where
      none_blocks : get p s.commitments ≡ none → ⊥
      none_blocks missing = ground (arith, h, missing)

  pub on_exposure-IsClear :
      (e : CoordinationEvent) (recipient : String) (s : Session)
      → IsClear (on_exposure digest_of plan e recipient s)
      → IsClear s
        × (elem recipient plan.participant_principals ≡ true)
        × (on_exposure digest_of plan e recipient s
            ≡ record s { exposure_count = s.exposure_count + 1 })
  unfolding on_exposure
  on_exposure-IsClear e recipient s h = ground (arith, h)

  -- A verification that leaves no blocker is by a verifier with capacity left, of a revealed artifact.
  pub on_verification-IsClear :
      (e : CoordinationEvent) (a : String) (v : VerificationStatus) (s : Session)
      → IsClear (on_verification digest_of plan e a v s)
      → IsClear s
        × (elem e.actor_principal_id plan.verifier_principals ≡ true)
        × (count_at e.actor_principal_id s.verifier_load + 1
            ≤ count_at e.actor_principal_id plan.verifier_capacity)
        × (elem a (values s.reveals) ≡ true)
        × (on_verification digest_of plan e a v s ≡ record s {
          verifier_load =
              put e.actor_principal_id
                (count_at e.actor_principal_id s.verifier_load + 1)
                s.verifier_load;
          verified = put a v s.verified;
          state = verify;
        })
  unfolding on_verification
  on_verification-IsClear e a v s h = ground (arith, h)

  pub by_plan_principal-IsClear :
      (e : CoordinationEvent) (text : String) (next : Phase) (s : Session)
      → IsClear (by_plan_principal digest_of plan e text next s)
      → IsClear s
        × (e.actor_principal_id ≡ plan.plan_principal_id)
        × (by_plan_principal digest_of plan e text next s ≡ record s { state = next })
  unfolding by_plan_principal
  by_plan_principal-IsClear e text next s h =
      ground (arith, h, eq_iff e.actor_principal_id plan.plan_principal_id)

  pub on_close_commit-IsClear :
      (e : CoordinationEvent) (s : Session)
      → IsClear (on_close_commit digest_of plan e s)
      → IsClear s
        × (e.actor_principal_id ≡ plan.plan_principal_id)
        × (plan.required_proposal_count ≤ length s.commitments)
        × (on_close_commit digest_of plan e s ≡ record s { state = commit_closed })
  unfolding on_close_commit
  on_close_commit-IsClear e s h =
      ground (arith, h, eq_iff e.actor_principal_id plan.plan_principal_id)

  pub on_integration-IsClear :
      (e : CoordinationEvent) (s : Session)
      → IsClear (on_integration digest_of plan e s)
      → IsClear s
        × (e.actor_principal_id ≡ plan.integration_principal_id)
        × (is_no_reveal s.reveals ≡ false)
        × (any (λ item. not (is_passed (get item s.verified))) (values s.reveals) ≡ false)
        × (on_integration digest_of plan e s ≡ record s { state = integrate })
  unfolding on_integration
  on_integration-IsClear e s h =
      ground (arith, h, eq_iff e.actor_principal_id plan.integration_principal_id)

  pub on_terminate-IsClear :
      (e : CoordinationEvent) (reason : TerminationReason) (s : Session)
      → IsClear (on_terminate digest_of plan e reason s)
      → IsClear s
        × (e.actor_principal_id ≡ plan.integration_principal_id)
        × (on_terminate digest_of plan e reason s ≡ record s { state = terminated })
  unfolding on_terminate
  on_terminate-IsClear e reason s h =
      ground (arith, h, eq_iff e.actor_principal_id plan.integration_principal_id)
