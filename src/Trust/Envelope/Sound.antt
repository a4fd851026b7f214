-- ===== src/Trust/Envelope/Sound.antt =====
-- What a statement that verify_envelope calls valid has been checked for.
use mathlib.Core.Bool.{false≢true}
use collective_phase_control.Prelude.{
  ℕ, ◌≤◌, String, ◌≡◌, refl, sym, ap, ◌∙◌, inl, inr, true, false, not, ◌&&◌, Option, none, some,
  Option-cases, List, [], ◌∷◌, Memᴰ, Memᴰ-filter, arith, any, any_elim, ltb, nat_eq, ◌==◌, eq_iff,
  and_iff, ok, Outcome-cases, when-nil, none_given, append-nil, nil_of_is_nil,
}
use collective_phase_control.Ids.{elem, subset}
use collective_phase_control.Ids.Laws.{elem_iff, subset_elim, sorted_set-nil}
use collective_phase_control.Trust.{
  Bytes, Principal, TrustPolicySpec, TrustedTimeReceipt, Subject, trust_policy, trusted_time,
  other_kind, Document, ProtectedHeader, DsseEnvelope,
}
use collective_phase_control.Trust.Encoding.{dsse_pae}
use collective_phase_control.Trust.Keys.{Crypto}
use collective_phase_control.Trust.Policy.{only, principal_of, time_status, validate_policy}
use collective_phase_control.Trust.Envelope.{
  Codec, is_none, authoritative_time, receipt_reasons, time_reasons, binding_reasons, is_signed_by,
  principal_checks, statement_reasons, open_payload, statement_result, verify_envelope,
}

only_member : (ps : List Principal) (p : Principal) → only ps ≡ some p → Memᴰ p ps
only_member [] p h = cc
only_member (q ∷ []) p h = Memᴰ.head (cc h)
only_member (q ∷ r ∷ ps) p h = cc

-- the principal found is one of the policy's, with both identifiers
pub principal_of_member :
    (policy : TrustPolicySpec) (key_id principal_id : String) (p : Principal)
    → principal_of policy key_id principal_id ≡ some p
    → Memᴰ p policy.principals × (p.key_id ≡ key_id) × (p.principal_id ≡ principal_id)
unfolding principal_of
principal_of_member policy key_id principal_id p h =
    let (m, e) =
      (Memᴰ-filter (λ q. q.key_id == key_id && q.principal_id == principal_id) p
          policy.principals).0
        (only_member _ p h) in
    let (k, i) = (and_iff (p.key_id == key_id) (p.principal_id == principal_id)).0 e in
    (m, (eq_iff p.key_id key_id).0 k, (eq_iff p.principal_id principal_id).0 i)

module _ (crypto : Crypto) (codec : Codec) where
  -- what is known of the header and the document of a valid statement
  pub record IsBound (policy : TrustPolicySpec) (protected : ProtectedHeader) (document : Document)
      : Type 0 where
    pub kind_bound : protected.schema_name ≡ document.kind
    pub schema_bound : protected.schema_digest ≡ codec.schema_digest document.kind
    pub payload_bound : protected.payload_digest ≡ document.digest
    pub tenant_bound : protected.tenant_id ≡ document.tenant_id
    pub workspace_bound : protected.workspace_id ≡ document.workspace_id
    pub not_ahead : protected.policy_sequence ≤ policy.policy_sequence

  -- what is known of the principal that signed it
  pub record IsAuthorized (envelope : DsseEnvelope) (payload_bytes : Bytes)
      (policy : TrustPolicySpec) (receipt : Option TrustedTimeReceipt) (protected : ProtectedHeader)
      (document : Document) (p : Principal) : Type 0 where
    pub pinned : principal_of policy protected.key_id protected.principal_id ≡ some p
    pub role : Memᴰ protected.role p.roles
    pub source : Memᴰ protected.source_system p.source_systems
    pub kind : Memᴰ document.kind p.allowed_kinds
    pub scope : (x : String) → Memᴰ x protected.scope → Memᴰ x p.scope
    pub at : ℕ
    pub judged_at : authoritative_time receipt document.subject protected.signing_time ≡ some at
    pub timely : time_status p protected.signing_time at ≡ []
    -- a signature of the envelope covers its type and payload under the principal's key
    pub signature : String
    pub among : Memᴰ signature envelope.signatures
    pub signed :
        is_signed_by crypto codec p (dsse_pae envelope.payload_type payload_bytes) signature ≡ true

  -- What a valid statement has been checked for: its payload reads, the policy has no reason against
  -- it, header and document agree, and a pinned principal is authorized and signed it.
  pub record IsVerified (envelope : DsseEnvelope) (policy : TrustPolicySpec)
      (receipt : Option TrustedTimeReceipt) : Type 0 where
    pub payload_bytes : Bytes
    pub protected : ProtectedHeader
    pub document : Document
    pub opened : open_payload crypto codec envelope ≡ ok (payload_bytes, protected, document)
    pub policy_valid : validate_policy crypto policy ≡ []
    pub bound : IsBound policy protected document
    pub receipt_fits : receipt_reasons receipt document.subject protected ≡ []
    pub principal : Principal
    pub authorized : IsAuthorized envelope payload_bytes policy receipt protected document principal
    pub reported :
        (verify_envelope crypto codec envelope policy receipt).0.protected ≡ some protected

  IsBound-of :
      (policy : TrustPolicySpec) (protected : ProtectedHeader) (document : Document)
      → binding_reasons crypto codec policy protected document ≡ []
      → IsBound policy protected document
        × (is_none (principal_of policy protected.key_id protected.principal_id) ≡ false)
  unfolding binding_reasons
  IsBound-of policy protected document h =
      let (known, h) =
        none_given (is_none (principal_of policy protected.key_id protected.principal_id)) _ _ h in
      let (kind, h) = none_given (not (protected.schema_name == document.kind)) _ _ h in
      let (schema, h) =
        none_given (not (protected.schema_digest == codec.schema_digest document.kind)) _ _ h in
      let (payload, h) = none_given (not (protected.payload_digest == document.digest)) _ _ h in
      let (tenant, h) = none_given (not (protected.tenant_id == document.tenant_id)) _ _ h in
      let (workspace, h) =
        none_given (not (protected.workspace_id == document.workspace_id)) _ _ h in
      let ahead = when-nil (ltb policy.policy_sequence protected.policy_sequence) _ h in
      (
        record {
          kind_bound = same protected.schema_name document.kind kind;
          schema_bound = same protected.schema_digest (codec.schema_digest document.kind) schema;
          payload_bound = same protected.payload_digest document.digest payload;
          tenant_bound = same protected.tenant_id document.tenant_id tenant;
          workspace_bound = same protected.workspace_id document.workspace_id workspace;
          not_ahead = ground (arith, ahead);
        },
        known,
      )
    where
      same : (a b : String) → not (a == b) ≡ false → a ≡ b
      same a b h = (eq_iff a b).0 (ground (arith, h))

  in_list : (x : String) (xs : List String) → not (elem x xs) ≡ false → Memᴰ x xs
  in_list x xs h = (elem_iff x xs).0 (ground (arith, h))

  IsAuthorized-of :
      (envelope : DsseEnvelope) (payload_bytes : Bytes) (policy : TrustPolicySpec)
      (receipt : Option TrustedTimeReceipt) (protected : ProtectedHeader) (document : Document)
      (p : Principal) (at : ℕ)
      → principal_of policy protected.key_id protected.principal_id ≡ some p
      → authoritative_time receipt document.subject protected.signing_time ≡ some at
      → principal_checks crypto codec
          (some p)
          protected
          document
          (some at)
          (dsse_pae envelope.payload_type payload_bytes)
          envelope.signatures
        ≡ []
      → IsAuthorized envelope payload_bytes policy receipt protected document p
  unfolding principal_checks time_reasons
  IsAuthorized-of envelope payload_bytes policy receipt protected document p at pinned judged h =
      let message = dsse_pae envelope.payload_type payload_bytes in
      let (role, h) = none_given (not (elem protected.role p.roles)) _ _ h in
      let (source, h) = none_given (not (elem protected.source_system p.source_systems)) _ _ h in
      let (kind, h) = none_given (not (elem document.kind p.allowed_kinds)) _ _ h in
      let (scope, h) = none_given (not (subset protected.scope p.scope)) _ _ h in
      let (timely, h) = append-nil (time_status p protected.signing_time at) _ h in
      let signed =
        when-nil (not (any (is_signed_by crypto codec p message) envelope.signatures)) _ h in
      let (signature, among, valid) =
        any_elim (is_signed_by crypto codec p message) envelope.signatures
          (ground (arith, signed)) in
      record {
        pinned = pinned;
        role = in_list protected.role p.roles role;
        source = in_list protected.source_system p.source_systems source;
        kind = in_list document.kind p.allowed_kinds kind;
        scope = subset_elim protected.scope p.scope (ground (arith, scope));
        at = at;
        judged_at = judged;
        timely = timely;
        signature = signature;
        among = among;
        signed = valid;
      }

  judged :
      (receipt : Option TrustedTimeReceipt) (subject : Subject) (protected : ProtectedHeader)
      → receipt_reasons receipt subject protected ≡ []
      → (at : ℕ) × (authoritative_time receipt subject protected.signing_time ≡ some at)
  unfolding receipt_reasons authoritative_time
  judged (some receipt) subject protected h = (receipt.spec.issued_at, refl)
  judged none (trusted_time spec) protected h = (spec.issued_at, refl)
  judged none (trust_policy spec) protected h =
      let first = when-nil (not (nat_eq spec.policy_sequence 0)) _ h in
      (protected.signing_time, ground (arith, first))
  judged none other_kind protected h = cc

  no_reasons :
      (envelope : DsseEnvelope) (policy : TrustPolicySpec) (receipt : Option TrustedTimeReceipt)
      (payload_bytes : Bytes) (protected : ProtectedHeader) (document : Document)
      → open_payload crypto codec envelope ≡ ok (payload_bytes, protected, document)
      → statement_reasons crypto codec envelope payload_bytes policy receipt protected document ≡ []
      → IsVerified envelope policy receipt
  unfolding statement_reasons verify_envelope statement_result
  no_reasons envelope policy receipt payload_bytes protected document e n =
      let found = principal_of policy protected.key_id protected.principal_id in
      let message = dsse_pae envelope.payload_type payload_bytes in
      let (valid, n) = append-nil (validate_policy crypto policy) _ n in
      let (binding, n) = append-nil (binding_reasons crypto codec policy protected document) _ n in
      let (fits, n) = append-nil (receipt_reasons receipt document.subject protected) _ n in
      let (bound, known) = IsBound-of policy protected document binding in
      let (at, judged_at) = judged receipt document.subject protected fits in
      elim (Option-cases found) [
        | inl missing ↦ absurd (false≢true (sym known ∙ ap is_none missing))
        | inr (p, pinned) ↦ record {
          payload_bytes = payload_bytes;
          protected = protected;
          document = document;
          opened = e;
          policy_valid = valid;
          bound = bound;
          receipt_fits = fits;
          principal = p;
          authorized =
              IsAuthorized-of envelope payload_bytes policy receipt protected document p at pinned
                judged_at (rw (pinned, judged_at) at n);
          reported = rw (verify_envelope, e) refl;
        }
      ]

  -- A statement that verify_envelope calls valid reads, stands under a policy without reasons, is
  -- bound to its document, and is signed by a pinned principal that has the role, the source system,
  -- the kind and the scope, at a time when its key is good.
  pub verify_envelope_sound :
      (envelope : DsseEnvelope) (policy : TrustPolicySpec) (receipt : Option TrustedTimeReceipt)
      → (verify_envelope crypto codec envelope policy receipt).0.valid ≡ true
      → IsVerified envelope policy receipt
  unfolding verify_envelope statement_result
  verify_envelope_sound envelope policy receipt h =
      elim (Outcome-cases (open_payload crypto codec envelope)) [
        | inl (text, e) ↦ cc (rw (verify_envelope, e) at h)
        | inr ((payload_bytes, protected, document), e) ↦
            no_reasons envelope policy receipt payload_bytes protected document e
              (sorted_set-nil _ (nil_of_is_nil _ (rw (verify_envelope, e) at h)))
      ]
