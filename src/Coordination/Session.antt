-- ===== src/Coordination/Session.antt =====
-- validate_coordination: the variables of its loop, the body of the loop, and the checks behind it.
-- A blocker is the text that the code formats.
pub mod Moves
pub mod Invariant
pub mod Satisfied
pub mod Binding
use Prim.Native.String.{◌++◌ as ◌++ₛ◌}
use collective_phase_control.Prelude.{
  ℕ, ◌+◌, String, Bool, true, false, not, ◌&&◌, ◌||◌, Option, none, some, List, [], ◌∷◌, ◌++◌, any,
  length, ltb, ◌==◌, map, filter, if◌then◌else◌,
}
use collective_phase_control.Ids.{elem, add, to_set, sorted}
use collective_phase_control.Ids.Dict.{Dict, get, put, values}
use collective_phase_control.Coordination.{
  CoordinationPlan, VerificationStatus, passed, failed, TerminationReason, all_verified,
  explicit_failure, capacity_blocked, deadline, EventType, open_commit, commit, close_commit,
  open_reveal, reveal, exposure, verification, integration, terminate, CoordinationEvent, Phase,
  created, commit_open, commit_closed, reveal_open, verify, integrate, terminated,
}
use collective_phase_control.Coordination.Chain.{ordered_events}

-- f"{code}{id}"
label : String → String → String
label code id = ◌++ₛ◌ code id

-- the variables of the loop
pub record Session : Type 0 where
  pub blockers : List String
  pub commitments : Dict (String × String)
  pub reveals : Dict String
  pub verified : Dict VerificationStatus
  pub verifier_load : Dict ℕ
  pub committed_actors : List String
  pub state : Phase
  pub exposure_count : ℕ
  pub previous_time : Option ℕ

-- if test: blockers.append(text); the latest stands first, as only sorted(set(blockers)) is read
unfoldable pub block : Bool → String → Session → Session
block test text s = record s { blockers = if test then text ∷ s.blockers else s.blockers }

-- d.get(k, 0); the keys of verifier_load and verifier_capacity are the verifiers
abbrev pub count_at : String → Dict ℕ → ℕ
count_at k [] = 0
count_at k ((j, n) ∷ d) = let rest = count_at k d in if k == j then n else rest

-- signer_principals.get(digest, frozenset())
abbrev pub signers_of : String → Dict (List String) → List String
signers_of k [] = []
signers_of k ((j, s) ∷ d) = let rest = signers_of k d in if k == j then s else rest

-- signer_principals is not None and principal not in signer_principals.get(digest, frozenset())
abbrev pub is_unsigned : Option (Dict (List String)) → String → String → Bool
is_unsigned none digest principal = false
is_unsigned (some signers) digest principal = not (elem principal (signers_of digest signers))

abbrev pub is_present : Option (String × String) → Bool
is_present none = false
is_present (some c) = true

abbrev pub is_passed : Option VerificationStatus → Bool
is_passed none = false
is_passed (some passed) = true
is_passed (some failed) = false

abbrev pub is_all_verified : TerminationReason → Bool
is_all_verified all_verified = true
is_all_verified explicit_failure = false
is_all_verified capacity_blocked = false
is_all_verified deadline = false

abbrev pub is_later : ℕ → Option ℕ → Bool
is_later at none = false
is_later at (some previous) = ltb at previous

abbrev pub is_terminated : Phase → Bool
is_terminated terminated = true
is_terminated created = false
is_terminated commit_open = false
is_terminated commit_closed = false
is_terminated reveal_open = false
is_terminated verify = false
is_terminated integrate = false

abbrev pub is_no_reveal : Dict String → Bool
is_no_reveal [] = true
is_no_reveal (r ∷ rs) = false

-- {principal: 0 for principal in verifiers}
unfoldable pub zero_load : List String → Dict ℕ
zero_load [] = []
zero_load (p ∷ ps) = (p, 0) ∷ zero_load ps

unfoldable pub is_no_text : List String → Bool
is_no_text [] = true
is_no_text (t ∷ ts) = false

-- ProfileStatus
pub data ProfileStatus : Type 0 where
  satisfied violated unknown unknown_due_to_budget : ProfileStatus

-- DimensionResult without its `detail`, a summary text
pub record DimensionResult : Type 0 where
  pub status : ProfileStatus
  pub blockers : List String
  pub evidence_digests : List String

-- `digest_of` is digest_bytes(canonical_bytes(...)) of an object with text members
module _ (digest_of : List (String × String) → String) where
  unfoldable pub proposal_commitment_digest : String → String → String → String → String
  proposal_commitment_digest session_id proposal_id actor_principal_id artifact_digest = digest_of (
      ("domain", "CPCF-COORDINATION-COMMITMENT-v0.6")
      ∷ ("session_id", session_id)
      ∷ ("proposal_id", proposal_id)
      ∷ ("actor_principal_id", actor_principal_id)
      ∷ ("artifact_digest", artifact_digest)
      ∷ [])

  module _ (plan : CoordinationPlan) where
    -- the checks of every event: order in time, not from the future, a registered and verified actor
    unfoldable pub check_event :
        Option (Dict (List String)) → ℕ → CoordinationEvent → Session → Session
    unfolding block label
    check_event signers at e s =
        let s =
          block (is_later e.occurred_at s.previous_time)
            (label "coordination_event_time_reversed:" e.event_id) s in
        let s = record s { previous_time = some e.occurred_at } in
        let s =
          block (ltb at e.occurred_at) (label "coordination_event_from_future:" e.event_id) s in
        let s =
          block (not (elem e.actor_principal_id plan.participant_principals))
            (label "coordination_actor_not_registered:" e.event_id) s in
        block (is_unsigned signers e.digest e.actor_principal_id)
          (label "coordination_event_signer_mismatch:" e.event_id) s

    unfoldable pub on_commit : CoordinationEvent → String → String → Session → Session
    unfolding block label
    on_commit e proposal_id commitment s =
        let s =
          block (ltb plan.commit_deadline e.occurred_at) (label "commit_after_deadline:" e.event_id)
            s in
        let s =
          block (is_present (get proposal_id s.commitments))
            (label "duplicate_proposal_commitment:" proposal_id) s in
        let s =
          block (elem e.actor_principal_id s.committed_actors)
            (label "participant_committed_more_than_once:" e.actor_principal_id) s in
        record s {
          commitments = put proposal_id (e.actor_principal_id, commitment) s.commitments;
          committed_actors = add e.actor_principal_id s.committed_actors;
        }

    -- the commitment is there and by this actor
    unfoldable pub on_committed_reveal :
        CoordinationEvent → String → String → String → Option (String × String) → Session → Session
    unfolding block label proposal_commitment_digest
    on_committed_reveal e proposal_id commitment artifact_digest none s =
        block true (label "reveal_without_actor_commitment:" proposal_id) s
    on_committed_reveal e proposal_id commitment artifact_digest (some (actor, committed)) s =
        let expected =
          proposal_commitment_digest plan.session_id proposal_id e.actor_principal_id
            artifact_digest in
        if not (actor == e.actor_principal_id)
        then block true (label "reveal_without_actor_commitment:" proposal_id) s
        else if not (commitment == committed) || not (expected == committed)
        then block true (label "commitment_reveal_digest_mismatch:" proposal_id) s
        else record s { reveals = put proposal_id artifact_digest s.reveals }

    unfoldable pub on_reveal : CoordinationEvent → String → String → String → Session → Session
    unfolding on_committed_reveal
    on_reveal e proposal_id commitment artifact_digest s =
        let s =
          block (ltb plan.reveal_deadline e.occurred_at) (label "reveal_after_deadline:" e.event_id)
            s in
        on_committed_reveal e proposal_id commitment artifact_digest (get proposal_id s.commitments)
          s

    unfoldable pub on_exposure : CoordinationEvent → String → Session → Session
    unfolding block label
    on_exposure e recipient s =
        block (not (elem recipient plan.participant_principals))
          (label "exposure_recipient_not_registered:" e.event_id)
          (record s { exposure_count = s.exposure_count + 1 })

    unfoldable pub on_verifier : CoordinationEvent → Session → Session
    unfolding block label
    on_verifier e s =
        let load = count_at e.actor_principal_id s.verifier_load + 1 in
        if not (elem e.actor_principal_id plan.verifier_principals)
        then block true (label "verification_actor_not_registered:" e.event_id) s
        else block (ltb (count_at e.actor_principal_id plan.verifier_capacity) load)
            (label "verification_capacity_exceeded:" e.actor_principal_id)
            (record s { verifier_load = put e.actor_principal_id load s.verifier_load })

    unfoldable pub on_verification :
        CoordinationEvent → String → VerificationStatus → Session → Session
    unfolding on_verifier
    on_verification e artifact_digest status s =
        let s = on_verifier e (record s { state = verify }) in
        if not (elem artifact_digest (values s.reveals))
        then block true (label "verification_artifact_not_revealed:" e.event_id) s
        else record s { verified = put artifact_digest status s.verified }

    -- open_commit, close_commit and open_reveal want the plan's principal, and move on
    unfoldable pub by_plan_principal : CoordinationEvent → String → Phase → Session → Session
    unfolding block
    by_plan_principal e text next s =
        record (block (not (e.actor_principal_id == plan.plan_principal_id)) text s) {
          state = next;
        }

    unfoldable pub on_close_commit : CoordinationEvent → Session → Session
    unfolding by_plan_principal
    on_close_commit e s =
        block (ltb (length s.commitments) plan.required_proposal_count)
          "required_proposal_count_not_committed"
          (by_plan_principal e "commit_close_requires_plan_principal" commit_closed s)

    unfoldable pub on_integration : CoordinationEvent → Session → Session
    unfolding block
    on_integration e s =
        let s =
          block (not (e.actor_principal_id == plan.integration_principal_id))
            "integration_actor_mismatch" s in
        let s =
          block
            (is_no_reveal s.reveals
              || any (λ item. not (is_passed (get item s.verified))) (values s.reveals))
            "integration_before_all_reveals_verified" s in
        record s { state = integrate }

    unfoldable pub on_terminate : CoordinationEvent → TerminationReason → Session → Session
    unfolding block
    on_terminate e reason s =
        let s =
          block (not (e.actor_principal_id == plan.integration_principal_id))
            "termination_actor_mismatch" s in
        let s =
          block
            (is_all_verified reason
              && any (λ value. not (is_passed (some value))) (values s.verified))
            "all_verified_termination_inconsistent" s in
        record s { state = terminated }

    -- the code's names, for the texts of its blockers
    phase_name : Phase → String
    phase_name created = "CREATED"
    phase_name commit_open = "COMMIT_OPEN"
    phase_name commit_closed = "COMMIT_CLOSED"
    phase_name reveal_open = "REVEAL_OPEN"
    phase_name verify = "VERIFY"
    phase_name integrate = "INTEGRATE"
    phase_name terminated = "TERMINATED"

    kind_name : EventType → String
    kind_name open_commit = "open_commit"
    kind_name (commit p c) = "commit"
    kind_name close_commit = "close_commit"
    kind_name open_reveal = "open_reveal"
    kind_name (reveal p c a) = "reveal"
    kind_name (exposure r a) = "exposure"
    kind_name (verification a v) = "verification"
    kind_name (integration a) = "integration"
    kind_name (terminate r) = "terminate"

    -- the chain of `if kind == ... and state == ...`
    unfoldable pub transition : CoordinationEvent → EventType → Phase → Session → Session
    unfolding by_plan_principal on_commit on_close_commit on_reveal on_exposure on_verification
        on_integration on_terminate block label phase_name kind_name
    transition e open_commit created s =
        by_plan_principal e "commit_open_requires_plan_principal" commit_open s
    transition e (commit p c) commit_open s = on_commit e p c s
    transition e close_commit commit_open s = on_close_commit e s
    transition e open_reveal commit_closed s =
        by_plan_principal e "reveal_open_requires_plan_principal" reveal_open s
    transition e (reveal p c a) reveal_open s = on_reveal e p c a s
    transition e (exposure r a) commit_open s = on_exposure e r s
    transition e (exposure r a) reveal_open s = on_exposure e r s
    transition e (exposure r a) verify s = on_exposure e r s
    transition e (verification a v) reveal_open s = on_verification e a v s
    transition e (verification a v) verify s = on_verification e a v s
    transition e (integration a) verify s = on_integration e s
    transition e (terminate r) integrate s = on_terminate e r s
    transition e kind phase s =
        block true
          (label (label (label "invalid_coordination_transition:" (phase_name phase)) ":")
            (kind_name kind))
          s

    module _ (signers : Option (Dict (List String))) (at : ℕ) where
      unfoldable pub step : Session → CoordinationEvent → Session
      unfolding check_event transition
      step s e = let s' = check_event signers at e s in transition e e.event_type s'.state s'

      -- for event in ordered
      unfoldable pub run : Session → List CoordinationEvent → Session
      run s [] = s
      run s (e ∷ events) = run (step s e) events

      -- the loop's variables at its start, with the blockers found so far
      unfoldable pub start : List String → Session
      start blockers = record {
        blockers = blockers;
        commitments = [];
        reveals = [];
        verified = [];
        verifier_load = zero_load (to_set plan.verifier_principals);
        committed_actors = [];
        state = created;
        exposure_count = 0;
        previous_time = none;
      }

      -- the three checks behind the loop
      unfoldable pub finish : Session → Session
      unfolding block
      finish s =
          let s =
            block (ltb plan.maximum_exposures s.exposure_count)
              "coordination_exposure_limit_exceeded" s in
          let s = block (not (is_terminated s.state)) "coordination_not_terminated" s in
          block (ltb plan.termination_deadline at && not (is_terminated s.state))
            "coordination_termination_deadline_missed" s

      -- validate_coordination for its one plan and the events of the plan's session
      unfoldable pub validate_session : List CoordinationEvent → DimensionResult
      unfolding start run finish step
      validate_session events =
          let chain = ordered_events events in
          let plan_check =
            if is_unsigned signers plan.digest plan.plan_principal_id
            then "coordination_plan_signer_mismatch" ∷ chain.blockers
            else chain.blockers in
          let s = finish (run (start plan_check) chain.ordered) in
          record {
            status = if is_no_text s.blockers then satisfied else violated;
            blockers = sorted (to_set s.blockers);
            evidence_digests = plan.digest ∷ map (λ e. e.digest) chain.ordered;
          }

  unfoldable pub validate_coordination :
      List CoordinationPlan
      → List CoordinationEvent
      → ℕ
      → Option (Dict (List String))
      → DimensionResult
  unfolding validate_session
  validate_coordination (plan ∷ []) events at signers =
      validate_session plan signers at (filter (λ e. e.session_id == plan.session_id) events)
  validate_coordination plans events at signers = record {
    status = unknown;
    blockers = "exactly_one_signed_coordination_plan_required" ∷ [];
    evidence_digests = [];
  }
