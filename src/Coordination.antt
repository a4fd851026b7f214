-- ===== src/Coordination.antt =====
-- v6/coordination.py: the finite coordination session (commit, reveal, verify, integrate,
-- terminate), and in v6/models.py the plan and event documents that it reads.
pub mod Chain
pub mod Session
pub mod Plan
pub mod Tests
use collective_phase_control.Prelude.{ℕ, String, Bool, Option, List}
use collective_phase_control.Ids.Dict.{Dict}

-- CoordinationPlanSpec; instants are numbers, which the code only compares. `digest` is what
-- document_digest yields for the document.
pub record CoordinationPlan : Type 0 where
  pub digest : String
  pub session_id : String
  pub plan_principal_id : String
  pub integration_principal_id : String
  pub participant_principals : List String
  pub verifier_principals : List String
  pub verifier_capacity : Dict ℕ
  pub required_proposal_count : ℕ
  pub commit_deadline : ℕ
  pub reveal_deadline : ℕ
  pub termination_deadline : ℕ
  pub maximum_exposures : ℕ

pub data VerificationStatus : Type 0 where
  passed failed : VerificationStatus

pub data TerminationReason : Type 0 where
  all_verified explicit_failure capacity_blocked deadline : TerminationReason

-- event_type with the fields that event_fields_match_type requires of it
pub data EventType : Type 0 where
  open_commit : EventType
  commit : (proposal_id commitment_digest : String) → EventType
  close_commit : EventType
  open_reveal : EventType
  reveal : (proposal_id commitment_digest artifact_digest : String) → EventType
  exposure : (recipient_principal_id artifact_digest : String) → EventType
  verification : (artifact_digest : String) → VerificationStatus → EventType
  integration : (artifact_digest : String) → EventType
  terminate : TerminationReason → EventType

-- CoordinationEventSpec, with the digest of its document
pub record CoordinationEvent : Type 0 where
  pub digest : String
  pub session_id : String
  pub event_id : String
  pub event_type : EventType
  pub actor_principal_id : String
  pub occurred_at : ℕ
  pub prior_event_digest : Option String

-- the local `state` of validate_coordination
pub data Phase : Type 0 where
  created commit_open commit_closed reveal_open verify integrate terminated : Phase
