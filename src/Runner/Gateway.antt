-- ===== src/Runner/Gateway.antt =====
-- The runner gateway, packages/cpcf-api/src/cpcf_api/runner_gateway.py: its records, the state of
-- InMemoryRunnerGateway, register, authenticate, idempotent and _active_state. The lock makes each
-- method one step from a state to a state; a method that raises yields the state it leaves behind.
pub mod Dispatch
pub mod Validation
pub mod Claim
pub mod Lease
pub mod Complete
pub mod Active
pub mod Invariant
pub mod Checked
pub mod Reachable
pub mod Completion
pub mod Once
pub mod Claims
pub mod Replay
pub mod Leased
pub mod Unbound
pub mod Desk
pub mod Tests
use collective_phase_control.Prelude.{
  ℕ, ◌+◌, String, Bool, true, false, not, ◌&&◌, ◌||◌, Option, none, some, List, [], ◌∷◌, ◌++◌, any,
  all, filter, ltb, ◌==◌, if◌then◌else◌, Outcome, ok, raised,
}
use collective_phase_control.Trust.{Bytes, DsseEnvelope}
use collective_phase_control.Runner.{
  CapabilityDocument, ExecutionPolicy, RunnerJob, RunnerJobSpec, RunnerReceipt,
}

pub record CertificateIdentity : Type 0 where
  pub tenant_id : String
  pub runner_id : String
  pub uri_san : String
  pub fingerprint : String

pub record RunnerRegistration : Type 0 where
  pub tenant_id : String
  pub runner_id : String
  pub principal_id : String
  pub uri_san : String
  pub certificate_fingerprint : String
  pub enabled : Bool

pub record SignedStatement : Type 0 where
  pub digest : String
  pub envelope : DsseEnvelope

pub record PendingProjection : Type 0 where
  pub runner_receipt_digest : String
  pub raw_output_digest : String

-- what a statement may be about, as isinstance tells it
pub data RunnerDocument : Type 0 where
  capability_document : CapabilityDocument → RunnerDocument
  execution_policy_document : ExecutionPolicy → RunnerDocument
  job_document : RunnerJob → RunnerDocument
  receipt_document : RunnerReceipt → RunnerDocument
  projection_document : PendingProjection → RunnerDocument
  another_document : RunnerDocument

pub record VerifiedStatement : Type 0 where
  pub subject : RunnerDocument
  pub principal_id : String
  pub role : String

pub record RunnerTask : Type 0 where
  pub tenant_id : String
  pub workspace_id : String
  pub job_id : String
  pub action_digest : String
  pub generation_digest : String
  pub capability : CapabilityDocument
  pub capability_statement : SignedStatement
  pub execution_policy : ExecutionPolicy
  pub execution_policy_statement : SignedStatement
  pub input_digests : List String
  pub lease_seconds : ℕ

pub data TaskStatus : Type 0 where
  queued leased completed : TaskStatus

abbrev pub is_leased : TaskStatus → Bool
is_leased queued = false
is_leased leased = true
is_leased completed = false

pub record RunnerTaskState : Type 0 where
  pub task : RunnerTask
  pub status : TaskStatus
  pub attempt : ℕ
  pub lease_id : Option String
  pub lease_expires_at : Option ℕ
  pub heartbeat_sequence : ℕ
  pub runner_principal_id : Option String
  pub job : Option RunnerJob
  pub job_statement : Option SignedStatement
  pub artifact_digests : List String
  pub receipt_statement_digest : Option String
  pub pending_projection_statement_digests : List String

-- The collaborators: the verifier and the signer of statements, an object store with states S, and
-- the reading of documents, with J for JSON values.
pub record Services (S : Type 0) (J : Type 0) : Type 0 where
  -- verifier.verify(statement, evaluated_at=...)
  pub verify : SignedStatement → ℕ → Outcome VerifiedStatement
  -- signer.sign(job)
  pub sign : RunnerJob → Outcome SignedStatement
  -- is the text of a raised exception the code of a RunnerGatewayError
  pub is_gateway_error : String → Bool
  -- the subject of a statement's payload, none where it does not parse
  pub parsed_subject : SignedStatement → Option RunnerDocument
  -- == of documents
  pub same : RunnerDocument → RunnerDocument → Bool
  pub job_digest : RunnerJob → String
  pub exists : S → String → String → Bool
  pub get : S → String → String → Outcome Bytes
  pub put : S → String → Bytes → Outcome (S × String)
  -- canonical_bytes(statement.model_dump(...))
  pub statement_bytes : SignedStatement → Bytes
  -- none for a JSON null
  pub loads_bounded : Bytes → Outcome (Option J)
  -- pydantic: does the pattern match, len, and the text of the ValidationError of a specification
  pub pattern_matches : String → String → Bool
  pub text_length : String → ℕ
  pub validation_error : RunnerJobSpec → String

-- The dictionaries of the gateway: the keys of registrations and tasks are fields of their values.
pub record Gateway (S : Type 0) : Type 0 where
  pub registrations : List RunnerRegistration
  pub tasks : List RunnerTaskState
  pub completed_attempts : List (String × ℕ)
  pub objects : S

abbrev pub is_some_text : Option String → String → Bool
is_some_text none t = false
is_some_text (some s) t = s == t

-- is the task's key this one
abbrev pub has_key : String → String → RunnerTaskState → Bool
has_key tenant_id job_id state = state.task.tenant_id == tenant_id && state.task.job_id == job_id

-- a mutation of the state that stands in the dictionary
unfoldable pub put_state : RunnerTaskState → List RunnerTaskState → List RunnerTaskState
put_state state [] = []
put_state state (s ∷ states) =
    let rest = put_state state states in
    if has_key state.task.tenant_id state.task.job_id s then state ∷ states else s ∷ rest

-- registrations.get((tenant_id, runner_id))
unfoldable pub registration_of :
    String → String → List RunnerRegistration → Option RunnerRegistration
registration_of tenant_id runner_id [] = none
registration_of tenant_id runner_id (r ∷ rs) =
    let rest = registration_of tenant_id runner_id rs in
    if r.tenant_id == tenant_id && r.runner_id == runner_id then some r else rest

-- evaluated_at > state.lease_expires_at, or there is no such time
abbrev pub is_expired : ℕ → Option ℕ → Bool
is_expired at none = true
is_expired at (some expires_at) = ltb expires_at at

abbrev pub holds_lease : String → String → RunnerTaskState → Bool
holds_lease tenant_id lease_id state =
    state.task.tenant_id == tenant_id && is_some_text state.lease_id lease_id

abbrev pub is_stale : RunnerRegistration → ℕ → RunnerTaskState → Bool
is_stale registration evaluated_at state =
    not (is_leased state.status)
    || not (is_some_text state.runner_principal_id registration.principal_id)
    || is_expired evaluated_at state.lease_expires_at

-- the one match of a lease, unless it is stale
abbrev pub checked_match : RunnerRegistration → ℕ → List RunnerTaskState → Outcome RunnerTaskState
checked_match registration evaluated_at [] = raised "runner_lease_not_found"
checked_match registration evaluated_at (state ∷ []) =
    if is_stale registration evaluated_at state then raised "runner_lease_stale" else ok state
checked_match registration evaluated_at (state ∷ other ∷ others) = raised "runner_lease_not_found"

-- what a method without a result returns
pub data NoValue : Type 0 where
  no_value : NoValue

module _ {S : Type 0} where
  abbrev pub mutate : RunnerTaskState → Gateway S → Gateway S
  mutate state gateway = record gateway { tasks = put_state state gateway.tasks }

  -- a method whose only effect is a mutation of one state, made when nothing was raised
  abbrev pub settle : Gateway S → Outcome RunnerTaskState → Outcome NoValue × Gateway S
  settle gateway (ok state) = (ok no_value, mutate state gateway)
  settle gateway (raised code) = (raised code, gateway)

  unfoldable pub register : RunnerRegistration → Gateway S → Outcome NoValue × Gateway S
  register registration gateway =
      if any (λ r. r.tenant_id == registration.tenant_id && r.runner_id == registration.runner_id)
        gateway.registrations
      then (raised "runner_registration_duplicate", gateway)
      else if any
          (λ r.
            r.certificate_fingerprint == registration.certificate_fingerprint
            || r.uri_san == registration.uri_san)
          gateway.registrations
      then (raised "runner_certificate_binding_duplicate", gateway)
      else (
        ok no_value,
        record gateway { registrations = gateway.registrations ++ registration ∷ [] },
      )

  unfoldable pub authenticate : CertificateIdentity → Gateway S → Outcome RunnerRegistration
  authenticate identity gateway =
      elim (registration_of identity.tenant_id identity.runner_id gateway.registrations) [
        | none ↦ raised "runner_identity_not_registered"
        | some r ↦
            if not r.enabled
              || not (r.certificate_fingerprint == identity.fingerprint)
              || not (r.uri_san == identity.uri_san)
            then raised "runner_identity_not_registered"
            else ok r
      ]

  unfoldable pub active_state :
      RunnerRegistration → String → ℕ → Gateway S → Outcome RunnerTaskState
  active_state registration lease_id evaluated_at gateway =
      checked_match registration evaluated_at
        (filter (holds_lease registration.tenant_id lease_id) gateway.tasks)

-- The cached answers of `idempotent`, by tenant, principal and key.
pub record CachedAnswer (A : Type 0) : Type 0 where
  pub tenant_id : String
  pub principal_id : String
  pub key : String
  pub request_digest : String
  pub answer : A

module _ {A : Type 0} where
  unfoldable pub cached_answer :
      String → String → String → List (CachedAnswer A) → Option (CachedAnswer A)
  cached_answer tenant_id principal_id key [] = none
  cached_answer tenant_id principal_id key (c ∷ cached) =
      let rest = cached_answer tenant_id principal_id key cached in
      if c.tenant_id == tenant_id && c.principal_id == principal_id && c.key == key
      then some c
      else rest

module _ {A : Type 0} {G : Type 0} where
  -- an operation that raises is not cached
  abbrev pub remember :
      RunnerRegistration
      → String
      → String
      → List (CachedAnswer A)
      → Outcome A × G
      → Outcome A × List (CachedAnswer A) × G
  remember registration key request_digest cached (raised code, state) =
      (raised code, cached, state)
  remember registration key request_digest cached (ok answer, state) = (
    ok answer,
    record {
      tenant_id = registration.tenant_id;
      principal_id = registration.principal_id;
      key = key;
      request_digest = request_digest;
      answer = answer;
    }
        ∷ cached,
    state,
  )

  unfoldable pub idempotent :
      RunnerRegistration
      → String
      → String
      → (G → Outcome A × G)
      → List (CachedAnswer A)
      → G
      → Outcome A × List (CachedAnswer A) × G
  idempotent registration key request_digest operation cached state =
      elim (cached_answer registration.tenant_id registration.principal_id key cached) [
        | some c ↦
            if not (c.request_digest == request_digest)
            then (raised "runner_idempotency_key_reused", cached, state)
            else (ok c.answer, cached, state)
        | none ↦ remember registration key request_digest cached (operation state)
      ]
