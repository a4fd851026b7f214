-- ===== src/Trust/Quorum/Sound.antt =====
-- What a decision that evaluate_quorum calls valid rests on.
use mathlib.Core.Bool.{true≢false}
use mathlib.Core.List.Memᴰ
use collective_phase_control.Prelude.{
  ◌⊎◌, String, ◌≡◌, refl, sym, ap, subst, ◌∙◌, inl, inr, true, false, not, ◌&&◌, ◌||◌, none, some,
  Option-cases, some-injective, List, [], ◌∷◌, map, Memᴰ, arith, length, nat_eq, ◌==◌, eq_iff,
  Bool-cases, Outcome, ok, raised, Outcome-cases, when-nil, none_given, is_nil, nil_of_is_nil,
  if◌then◌else◌,
}
use collective_phase_control.Ids.{subset, is_repeated, to_set, sorted}
use collective_phase_control.Ids.Laws.{subset_elim, sorted_set-nil}
use collective_phase_control.Ids.Unique.{IsUnique, unrepeated}
use collective_phase_control.Trust.{
  Principal, QuorumRule, TrustPolicySpec, TrustedTimeReceipt, DsseEnvelope, VerificationResult,
  ProtectedHeader,
}
use collective_phase_control.Trust.Keys.{Crypto}
use collective_phase_control.Trust.Policy.{principal_of}
use collective_phase_control.Trust.Envelope.{Codec, verify_envelope}
use collective_phase_control.Trust.Envelope.Sound.{IsVerified, verify_envelope_sound}
use collective_phase_control.Trust.Quorum.{
  Signer, rule_for, admit, header_of, quorum_reasons, signers_of, evaluate_quorum,
}

rule_for_member :
    (decision_type : String) (rules : List QuorumRule) (rule : QuorumRule)
    → rule_for decision_type rules ≡ some rule
    → Memᴰ rule rules × (rule.decision_type ≡ decision_type)
unfolding rule_for
rule_for_member decision_type [] rule h = cc
rule_for_member decision_type (r ∷ rules) rule h =
    elim (Bool-cases (r.decision_type == decision_type)) [
      | inl hit ↦
          let same : r ≡ rule = cc (rw hit at h) in
          (
            Memᴰ.head (sym same),
            sym (ap (λ q. q.decision_type) same) ∙ (eq_iff r.decision_type decision_type).0 hit,
          )
      | inr miss ↦
          let (m, e) = rule_for_member decision_type rules rule (rw miss at h) in (Memᴰ.tail m, e)
    ]

-- the roles of the signers are the required ones, as many of them, and no principal or key signed
-- twice; nor one domain, where the rule asks for it
pub record IsSeparated (rule : QuorumRule) (signers : List Signer) : Type 0 where
  pub required : (r : String) → Memᴰ r rule.required_roles → Memᴰ r (map (λ s. s.role) signers)
  pub wanted : (r : String) → Memᴰ r (map (λ s. s.role) signers) → Memᴰ r rule.required_roles
  pub count : length (map (λ s. s.role) signers) ≡ length rule.required_roles
  pub principals : IsUnique (map (λ s. s.principal.principal_id) signers)
  pub keys : IsUnique (map (λ s. s.principal.key_id) signers)
  pub infrastructure :
      rule.distinct_infrastructure ≡ true
      → IsUnique (map (λ s. s.principal.infrastructure_domain) signers)
  pub correlation :
      rule.distinct_correlation ≡ true
      → IsUnique (map (λ s. s.principal.correlation_domain) signers)

IsSeparated-of :
    (rule : QuorumRule) (signers : List Signer)
    → quorum_reasons rule signers ≡ []
    → IsSeparated rule signers
unfolding quorum_reasons
IsSeparated-of rule signers h =
    let roles = map (λ s. s.role) signers in
    let (right, h) =
      none_given
        (not (subset roles rule.required_roles && subset rule.required_roles roles)
          || not (nat_eq (length roles) (length rule.required_roles)))
        _ _ h in
    let (principals, h) =
      none_given (is_repeated (map (λ s. s.principal.principal_id) signers)) _ _ h in
    let (keys, h) = none_given (is_repeated (map (λ s. s.principal.key_id) signers)) _ _ h in
    let (infra, h) =
      none_given
        (rule.distinct_infrastructure
          && is_repeated (map (λ s. s.principal.infrastructure_domain) signers))
        _ _ h in
    let corr =
      when-nil
        (rule.distinct_correlation
          && is_repeated (map (λ s. s.principal.correlation_domain) signers))
        _ h in
    record {
      required = subset_elim rule.required_roles roles (ground (arith, right));
      wanted = subset_elim roles rule.required_roles (ground (arith, right));
      count = ground (arith, right);
      principals = unrepeated (map (λ s. s.principal.principal_id) signers) principals;
      keys = unrepeated (map (λ s. s.principal.key_id) signers) keys;
      infrastructure = λ q.
          unrepeated (map (λ s. s.principal.infrastructure_domain) signers)
            (ground (arith, infra, q));
      correlation = λ q.
          unrepeated (map (λ s. s.principal.correlation_domain) signers) (ground (arith, corr, q));
    }

admit_cases :
    (policy : TrustPolicySpec) (subject_digest : String) (protected : ProtectedHeader)
    (rest : Outcome (List Signer)) (signers : List Signer)
    → admit policy subject_digest protected rest ≡ ok signers
    → ((protected.payload_digest ≡ subject_digest) × (rest ≡ ok signers))
      ⊎ ((protected.payload_digest ≡ subject_digest)
          × (p : Principal) × (principal_of policy protected.key_id protected.principal_id ≡ some p)
          × (tail : List Signer) × (rest ≡ ok tail)
          × (signers ≡ record { role = protected.role; principal = p } ∷ tail))
unfolding admit
admit_cases policy subject_digest protected rest signers h =
    elim (Bool-cases (protected.payload_digest == subject_digest)) [
      | inr other ↦ cc (rw (admit, other) at h)
      | inl about ↦
          let same = (eq_iff protected.payload_digest subject_digest).0 about in
          elim (Option-cases (principal_of policy protected.key_id protected.principal_id)) [
            | inl missing ↦ inl (same, rw (admit, about, missing) at h)
            | inr (p, found) ↦ elim (Outcome-cases rest) [
              | inl (digest, e) ↦ cc (rw (admit, about, found, e) at h)
              | inr (tail, e) ↦
                  inr (same, p, found, tail, e, grown (rw (admit, about, found, e) at h))
            ]
          ]
    ]
  where
    grown : {a b : List Signer} → ok a ≡ ok b → b ≡ a
    grown h = cc

module _ (crypto : Crypto) (codec : Codec) where
  -- a signer stands for a verified statement about the subject, in its role
  pub record IsBacked (subject_digest : String) (envelopes : List DsseEnvelope)
      (policy : TrustPolicySpec) (receipt : TrustedTimeReceipt) (s : Signer) : Type 0 where
    pub envelope : DsseEnvelope
    pub given : Memᴰ envelope envelopes
    pub verified : IsVerified crypto codec envelope policy (some receipt)
    pub about : verified.protected.payload_digest ≡ subject_digest
    pub in_role : verified.protected.role ≡ s.role
    pub by : verified.principal ≡ s.principal

  widen :
      (subject_digest : String) (e : DsseEnvelope) (envelopes : List DsseEnvelope)
      (policy : TrustPolicySpec) (receipt : TrustedTimeReceipt) (s : Signer)
      → IsBacked subject_digest envelopes policy receipt s
      → IsBacked subject_digest (e ∷ envelopes) policy receipt s
  widen subject_digest e envelopes policy receipt s b = record {
    envelope = b.envelope;
    given = Memᴰ.tail b.given;
    verified = b.verified;
    about = b.about;
    in_role = b.in_role;
    by = b.by;
  }

  -- an admitted header gives one more signer
  here-IsBacked :
      (subject_digest : String) (e : DsseEnvelope) (envelopes : List DsseEnvelope)
      (policy : TrustPolicySpec) (receipt : TrustedTimeReceipt) (protected : ProtectedHeader)
      (p : Principal)
      → header_of (verify_envelope crypto codec e policy (some receipt)).0 ≡ some protected
      → protected.payload_digest ≡ subject_digest
      → principal_of policy protected.key_id protected.principal_id ≡ some p
      → IsBacked subject_digest
          (e ∷ envelopes)
          policy
          receipt
          (record { role = protected.role; principal = p })
  unfolding header_of
  here-IsBacked subject_digest e envelopes policy receipt protected p h about found =
      let (valid, shown) =
        header_parts (verify_envelope crypto codec e policy (some receipt)).0 protected h in
      let verified = verify_envelope_sound crypto codec e policy (some receipt) valid in
      let same : verified.protected ≡ protected = some-injective (sym verified.reported ∙ shown) in
      record {
        envelope = e;
        given = Memᴰ.head refl;
        verified = verified;
        about = ap (λ q. q.payload_digest) same ∙ about;
        in_role = ap (λ q. q.role) same;
        by = some-injective (
            sym verified.authorized.pinned
            ∙ (ap (λ q. principal_of policy q.key_id q.principal_id) same ∙ found));
      }
    where
      header_parts :
          (r : VerificationResult) (q : ProtectedHeader)
          → (if r.valid then r.protected else none) ≡ some q
          → (r.valid ≡ true) × (r.protected ≡ some q)
      header_parts r q h = elim (Bool-cases r.valid) [
        | inl valid ↦ (valid, rw valid at h)
        | inr invalid ↦ cc (rw invalid at h)
      ]

  signers-IsBacked :
      (subject_digest : String) (envelopes : List DsseEnvelope) (policy : TrustPolicySpec)
      (receipt : TrustedTimeReceipt) (signers : List Signer)
      → signers_of crypto codec subject_digest envelopes policy receipt ≡ ok signers
      → (s : Signer) → Memᴰ s signers
      → IsBacked subject_digest envelopes policy receipt s
  unfolding signers_of
  signers-IsBacked subject_digest [] policy receipt signers h s m =
      absurd (Memᴰ.not-nil (subst (λ l. Memᴰ s l) (sym (ok_parts h)) m))
    where
      ok_parts : {a b : List Signer} → ok a ≡ ok b → a ≡ b
      ok_parts h = cc
  signers-IsBacked subject_digest (e ∷ envelopes) policy receipt signers h s m =
      elim (Option-cases (header_of (verify_envelope crypto codec e policy (some receipt)).0)) [
        | inl silent ↦ widen subject_digest e envelopes policy receipt s (
            signers-IsBacked subject_digest envelopes policy receipt signers
              (rw (signers_of, silent) at h) s m)
        | inr (protected, said) ↦
            elim (admit_cases policy subject_digest protected
              (signers_of crypto codec subject_digest envelopes policy receipt) signers
              (rw (signers_of, said) at h)) [
                | inl (about, rest) ↦
                    widen subject_digest e envelopes policy receipt s
                      (signers-IsBacked subject_digest envelopes policy receipt signers rest s m)
                | inr (about, p, found, tail, rest, same) ↦
                    elim (Memᴰ.cases_cons (subst (λ l. Memᴰ s l) same m)) [
                      | inl here ↦ rw here (
                          here-IsBacked subject_digest e envelopes policy receipt protected p said
                            about found)
                      | inr later ↦ widen subject_digest e envelopes policy receipt s (
                          signers-IsBacked subject_digest envelopes policy receipt tail rest s
                            later)
                    ]
              ]
      ]

  -- What a valid decision rests on: a rule of the policy for it, and signers that the rule's
  -- separation holds of, each backed by a verified statement about the subject.
  pub record IsQuorum (decision_type subject_digest : String) (envelopes : List DsseEnvelope)
      (policy : TrustPolicySpec) (receipt : TrustedTimeReceipt) : Type 0 where
    pub rule : QuorumRule
    pub declared : Memᴰ rule policy.quorum_rules
    pub for_decision : rule.decision_type ≡ decision_type
    pub signers : List Signer
    pub backed : (s : Signer) → Memᴰ s signers → IsBacked subject_digest envelopes policy receipt s
    pub separated : IsSeparated rule signers

  result_without_rule :
      (decision_type subject_digest : String) (envelopes : List DsseEnvelope)
      (policy : TrustPolicySpec) (receipt : TrustedTimeReceipt)
      → rule_for decision_type policy.quorum_rules ≡ none
      → (evaluate_quorum crypto codec decision_type subject_digest envelopes policy receipt).valid
        ≡ false
  unfolding evaluate_quorum
  result_without_rule decision_type subject_digest envelopes policy receipt missing =
      rw (evaluate_quorum, missing) refl

  result_of_mismatch :
      (decision_type subject_digest : String) (envelopes : List DsseEnvelope)
      (policy : TrustPolicySpec) (receipt : TrustedTimeReceipt) (rule : QuorumRule)
      (digest : String)
      → rule_for decision_type policy.quorum_rules ≡ some rule
      → signers_of crypto codec subject_digest envelopes policy receipt ≡ raised digest
      → (evaluate_quorum crypto codec decision_type subject_digest envelopes policy receipt).valid
        ≡ false
  unfolding evaluate_quorum
  result_of_mismatch decision_type subject_digest envelopes policy receipt rule digest found e =
      rw (evaluate_quorum, found, e) refl

  result_of_signers :
      (decision_type subject_digest : String) (envelopes : List DsseEnvelope)
      (policy : TrustPolicySpec) (receipt : TrustedTimeReceipt) (rule : QuorumRule)
      (signers : List Signer)
      → rule_for decision_type policy.quorum_rules ≡ some rule
      → signers_of crypto codec subject_digest envelopes policy receipt ≡ ok signers
      → (evaluate_quorum crypto codec decision_type subject_digest envelopes policy receipt).valid
        ≡ is_nil (sorted (to_set (quorum_reasons rule signers)))
  unfolding evaluate_quorum
  result_of_signers decision_type subject_digest envelopes policy receipt rule signers found e =
      rw (evaluate_quorum, found, e) refl

  -- A decision that evaluate_quorum calls valid has a rule in the policy, and for each required role
  -- a signer with a verified statement about the subject; as many signers as roles, no two of them
  -- with one principal identifier or key, nor with one domain where the rule asks for it.
  pub evaluate_quorum_sound :
      (decision_type subject_digest : String) (envelopes : List DsseEnvelope)
      (policy : TrustPolicySpec) (receipt : TrustedTimeReceipt)
      → (evaluate_quorum crypto codec decision_type subject_digest envelopes policy receipt).valid
        ≡ true
      → IsQuorum decision_type subject_digest envelopes policy receipt
  evaluate_quorum_sound decision_type subject_digest envelopes policy receipt h =
      elim (Option-cases (rule_for decision_type policy.quorum_rules)) [
        | inl missing ↦ absurd (
            true≢false (
              sym h
              ∙ result_without_rule decision_type subject_digest envelopes policy receipt missing))
        | inr (rule, found) ↦
            elim (Outcome-cases (signers_of crypto codec subject_digest envelopes policy receipt)) [
              | inl (digest, mismatch) ↦ absurd (
                  true≢false (
                    sym h
                    ∙ result_of_mismatch decision_type subject_digest envelopes policy receipt rule
                        digest found mismatch))
              | inr (signers, gathered) ↦
                  let (declared, for_decision) =
                    rule_for_member decision_type policy.quorum_rules rule found in
                  record {
                    rule = rule;
                    declared = declared;
                    for_decision = for_decision;
                    signers = signers;
                    backed =
                        signers-IsBacked subject_digest envelopes policy receipt signers gathered;
                    separated = IsSeparated-of rule signers (
                        sorted_set-nil _ (
                          nil_of_is_nil _ (
                            sym (
                              result_of_signers decision_type subject_digest envelopes policy
                                receipt rule signers found gathered)
                            ∙ h)));
                  }
            ]
      ]
