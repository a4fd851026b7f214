-- ===== src/Trust/Signing/Entitled.antt =====
-- A statement that sign_document of v6/trust.py makes for a principal that the policy entitles to it is
-- verified by verify_envelope.
use mathlib.Core.List.Memᴰ
use collective_phase_control.Prelude.{
  ℕ, ◌≤◌, ◌<◌, String, ◌≡◌, Bool, ◌&&◌, Option, none, some, List, Memᴰ, ◌==◌,
}
use collective_phase_control.Trust.{
  Principal, Document, trust_policy, trusted_time, TrustPolicySpec, TrustedTimeSpec,
  TrustedTimeReceipt, prospective, retroactive,
}
use collective_phase_control.Trust.Keys.{Crypto}
use collective_phase_control.Trust.Policy.Sound.{IsSoundPolicy}
use collective_phase_control.Trust.Envelope.{Codec}
use collective_phase_control.Trust.Signing.{Signing}

-- the time that a statement is judged by: of a receipt that its header names, of the receipt of time
-- that it is about, or, for a first policy, its own
pub data IsTimed (document : Document) (principal : Principal) (signing_time : ℕ)
    (digest : Option String) : Option TrustedTimeReceipt → ℕ → Type 0 where
  by_receipt :
      (r : TrustedTimeReceipt)
      → digest ≡ some r.digest
      → r.spec.issued_at ≤ r.spec.valid_until
      → IsTimed document principal signing_time digest (some r) r.spec.issued_at
  by_itself :
      (spec : TrustedTimeSpec)
      → document.subject ≡ trusted_time spec
      → spec.authority_principal_id ≡ principal.principal_id
      → spec.issued_at ≤ spec.valid_until
      → IsTimed document principal signing_time digest none spec.issued_at
  by_genesis :
      (spec : TrustPolicySpec)
      → document.subject ≡ trust_policy spec
      → spec.policy_sequence ≡ 0
      → IsTimed document principal signing_time digest none signing_time

-- the key was not revoked for a signature of that time
pub data IsUnrevoked (p : Principal) (signing_time : ℕ) : Type 0 where
  never : p.revoked_at ≡ none → IsUnrevoked p signing_time
  before_revocation :
      (revoked_at : ℕ)
      → p.revoked_at ≡ some revoked_at
      → p.revocation_mode ≡ prospective
      → signing_time < revoked_at
      → IsUnrevoked p signing_time
  before_compromise :
      (revoked_at compromised_at : ℕ)
      → p.revoked_at ≡ some revoked_at
      → p.revocation_mode ≡ retroactive
      → p.compromised_at ≡ some compromised_at
      → signing_time < compromised_at
      → IsUnrevoked p signing_time

pub record IsInForce (p : Principal) (signing_time at : ℕ) : Type 0 where
  pub not_future : signing_time ≤ at
  pub begun : p.valid_from ≤ signing_time
  pub not_over : signing_time ≤ p.valid_until
  pub unrevoked : IsUnrevoked p signing_time

abbrev is_pin : Principal → Principal → Bool
is_pin p q = q.key_id == p.key_id && q.principal_id == p.principal_id

module _ (crypto : Crypto) (codec : Codec) (signing : Signing) where
  -- what a sound policy grants a principal, and the times that the statement names
  pub record IsEntitled (policy : TrustPolicySpec) (receipt : Option TrustedTimeReceipt)
      (document : Document) (principal : Principal) (role source_system : String)
      (scope : List String) (signing_time policy_sequence : ℕ) (receipt_digest : Option String)
      : Type 0 where
    pub sound : IsSoundPolicy crypto policy
    pub member : Memᴰ principal policy.principals
    pub has_role : Memᴰ role principal.roles
    pub has_source : Memᴰ source_system principal.source_systems
    pub has_kind : Memᴰ document.kind principal.allowed_kinds
    pub has_scope : (x : String) → Memᴰ x scope → Memᴰ x principal.scope
    pub not_ahead : policy_sequence ≤ policy.policy_sequence
    pub at : ℕ
    pub timed : IsTimed document principal signing_time receipt_digest receipt at
    pub in_force : IsInForce principal signing_time at
