-- ===== src/Trust/Signing/Accepted.antt =====
-- A statement that sign_document of v6/trust.py makes for an unobjected principal is verified by
-- verify_envelope.
use collective_phase_control.Prelude.{
  ℕ, ◌≤◌, String, ◌≡◌, refl, sym, subst, true, false, Option, some, List, [], ◌∷◌, arith, ltb,
  eq_iff, ok,
}
use collective_phase_control.Ids.{elem, subset, sorted, to_set}
use collective_phase_control.Trust.{
  Bytes, Principal, Document, ProtectedHeader, DsseEnvelope, TrustPolicySpec, TrustedTimeReceipt,
}
use collective_phase_control.Trust.Encoding.{dsse_pae}
use collective_phase_control.Trust.Keys.{
  Crypto, PublicKey, public_key, verify_with, verify_signature,
}
use collective_phase_control.Trust.Policy.{principal_of, validate_policy}
use collective_phase_control.Trust.Envelope.{
  Codec, authoritative_time, receipt_reasons, time_reasons, binding_reasons, is_signed_by,
  principal_checks, statement_reasons, open_payload, verify_envelope,
}
use collective_phase_control.Trust.Signing.{
  PrivateKey, Signing, build_protected_header, signature_bytes, sign_document,
}

module _ (crypto : Crypto) (codec : Codec) (signing : Signing) where
  -- what base64 and the canonical form are relied on for: what was written is read back
  pub record IsReadBack (protected : ProtectedHeader) (document : Document) (key : PrivateKey)
      : Type 0 where
    pub payload_decoded :
        crypto.b64decode (signing.b64encode (signing.payload_bytes protected document))
        ≡ some (signing.payload_bytes protected document)
    pub signature_decoded :
        (let signature =
            signature_bytes signing key
              (dsse_pae signing.payload_type (signing.payload_bytes protected document)) in
          crypto.b64decode (signing.b64encode signature) ≡ some signature)
    pub parsed :
        codec.read_payload (signing.payload_bytes protected document) ≡ ok (protected, document)

  -- the public key of the principal accepts what the private key signs
  pub record IsKeyPair (principal : Principal) (key : PrivateKey) : Type 0 where
    pub public : PublicKey
    pub of_principal : public_key crypto principal ≡ ok public
    pub accepts :
        (message : Bytes)
        → verify_with crypto public message (signature_bytes signing key message) ≡ true

  -- no check of the verifier that the policy and the times decide has a reason against the statement
  pub record IsUnobjected (policy : TrustPolicySpec) (receipt : Option TrustedTimeReceipt)
      (document : Document) (principal : Principal) (role source_system : String)
      (scope : List String) (signing_time policy_sequence : ℕ) (protected : ProtectedHeader)
      : Type 0 where
    pub sound : validate_policy crypto policy ≡ []
    pub pinned : principal_of policy principal.key_id principal.principal_id ≡ some principal
    pub has_role : elem role principal.roles ≡ true
    pub has_source : elem source_system principal.source_systems ≡ true
    pub has_kind : elem document.kind principal.allowed_kinds ≡ true
    pub has_scope : subset scope principal.scope ≡ true
    pub not_ahead : policy_sequence ≤ policy.policy_sequence
    pub receipt_fits : receipt_reasons receipt document.subject protected ≡ []
    pub timely :
        time_reasons principal signing_time
          (authoritative_time receipt document.subject signing_time)
        ≡ []

  signed_text :
      (principal : Principal) (key : PrivateKey) (message : Bytes)
      → crypto.b64decode (signing.b64encode (signature_bytes signing key message))
        ≡ some (signature_bytes signing key message)
      → IsKeyPair principal key
      → is_signed_by crypto codec principal message
          (signing.b64encode (signature_bytes signing key message))
        ≡ true
  unfolding is_signed_by verify_signature
  signed_text principal key message decoded pair =
      rw (is_signed_by, decoded, verify_signature, pair.of_principal) (pair.accepts message)

  binding_free :
      (policy : TrustPolicySpec) (document : Document) (principal : Principal)
      (role source_system : String) (scope : List String) (signing_time policy_sequence : ℕ)
      (receipt_digest : Option String)
      → principal_of policy principal.key_id principal.principal_id ≡ some principal
      → policy_sequence ≤ policy.policy_sequence
      → binding_reasons crypto codec policy
          (build_protected_header codec document principal role source_system scope signing_time
            policy_sequence receipt_digest)
          document
        ≡ []
  unfolding binding_reasons build_protected_header
  binding_free policy document principal role source_system scope signing_time policy_sequence
        receipt_digest pinned not_ahead =
      let before : ltb policy.policy_sequence policy_sequence ≡ false = ground (arith, not_ahead) in
      let a = (eq_iff document.kind document.kind).1 refl in
      let b =
        (eq_iff (codec.schema_digest document.kind) (codec.schema_digest document.kind)).1 refl in
      let c = (eq_iff document.digest document.digest).1 refl in
      let d = (eq_iff document.tenant_id document.tenant_id).1 refl in
      let e = (eq_iff document.workspace_id document.workspace_id).1 refl in
      simp (pinned, before, a, b, c, d, e) refl

  checks_free :
      (protected : ProtectedHeader) (document : Document) (principal : Principal) (at : Option ℕ)
      (message : Bytes) (sig : String)
      → elem protected.role principal.roles ≡ true
      → elem protected.source_system principal.source_systems ≡ true
      → elem document.kind principal.allowed_kinds ≡ true
      → subset protected.scope principal.scope ≡ true
      → time_reasons principal protected.signing_time at ≡ []
      → is_signed_by crypto codec principal message sig ≡ true
      → principal_checks crypto codec (some principal) protected document at message (sig ∷ []) ≡ []
  unfolding principal_checks
  checks_free protected document principal at message sig role source kind scope timely signed =
      rw (role, source, kind, scope, timely, signed) refl

  reasons_free :
      (policy : TrustPolicySpec) (receipt : Option TrustedTimeReceipt) (envelope : DsseEnvelope)
      (payload_bytes : Bytes) (protected : ProtectedHeader) (document : Document)
      → validate_policy crypto policy ≡ []
      → binding_reasons crypto codec policy protected document ≡ []
      → receipt_reasons receipt document.subject protected ≡ []
      → principal_checks crypto codec
          (principal_of policy protected.key_id protected.principal_id)
          protected
          document
          (authoritative_time receipt document.subject protected.signing_time)
          (dsse_pae envelope.payload_type payload_bytes)
          envelope.signatures
        ≡ []
      → statement_reasons crypto codec envelope payload_bytes policy receipt protected document ≡ []
  unfolding statement_reasons
  reasons_free policy receipt envelope payload_bytes protected document a b c d =
      rw (statement_reasons, a, b, c, d) refl

  valid_of_free :
      (policy : TrustPolicySpec) (receipt : Option TrustedTimeReceipt) (envelope : DsseEnvelope)
      (payload_bytes : Bytes) (protected : ProtectedHeader) (document : Document)
      → open_payload crypto codec envelope ≡ ok (payload_bytes, protected, document)
      → statement_reasons crypto codec envelope payload_bytes policy receipt protected document ≡ []
      → (verify_envelope crypto codec envelope policy receipt).0.valid ≡ true
  unfolding verify_envelope sorted to_set
  valid_of_free policy receipt envelope payload_bytes protected document opened free =
      rw (verify_envelope, opened, free) refl

  -- A document that is signed with the private key of the pinned public key, and that no check of the
  -- policy and the times objects to, verifies.
  pub unobjected_verified :
      (policy : TrustPolicySpec) (receipt : Option TrustedTimeReceipt) (document : Document)
      (principal : Principal) (key : PrivateKey) (role source_system : String) (scope : List String)
      (signing_time policy_sequence : ℕ) (receipt_digest : Option String)
      → IsReadBack
          (build_protected_header codec document principal role source_system scope signing_time
            policy_sequence receipt_digest)
          document
          key
      → IsKeyPair principal key
      → IsUnobjected policy receipt document principal role source_system scope signing_time
          policy_sequence
          (build_protected_header codec document principal role source_system scope signing_time
            policy_sequence receipt_digest)
      → (verify_envelope crypto codec
          (sign_document signing document key (
            build_protected_header codec document principal role source_system scope signing_time
              policy_sequence receipt_digest))
          policy
          receipt).0.valid
        ≡ true
  unfolding build_protected_header sign_document open_payload
  unobjected_verified policy receipt document principal key role source_system scope signing_time
        policy_sequence receipt_digest read pair unobjected =
      let protected =
        build_protected_header codec document principal role source_system scope signing_time
          policy_sequence receipt_digest in
      let payload = signing.payload_bytes protected document in
      let envelope = sign_document signing document key protected in
      let message = dsse_pae signing.payload_type payload in
      let opened : open_payload crypto codec envelope ≡ ok (payload, protected, document) =
        rw (open_payload, read.payload_decoded, read.parsed) refl in
      let signed = signed_text principal key message read.signature_decoded pair in
      let binding =
        binding_free policy document principal role source_system scope signing_time policy_sequence
          receipt_digest unobjected.pinned unobjected.not_ahead in
      let checks =
        checks_free protected document principal
          (authoritative_time receipt document.subject signing_time) message
          (signing.b64encode (signature_bytes signing key message)) unobjected.has_role
          unobjected.has_source unobjected.has_kind unobjected.has_scope unobjected.timely signed in
      let pinned_checks =
        subst
          (λ p.
            principal_checks crypto codec p protected document
              (authoritative_time receipt document.subject signing_time) message envelope.signatures
            ≡ [])
          (sym unobjected.pinned) checks in
      valid_of_free policy receipt envelope payload protected document opened (
        reasons_free policy receipt envelope payload protected document unobjected.sound binding
          unobjected.receipt_fits pinned_checks)
