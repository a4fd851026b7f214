-- ===== src/Trust/Update/Chain.antt =====
-- What an accepted policy update and an accepted advance of trusted time have been checked for.
use mathlib.Core.Bool.{false≢true}
use collective_phase_control.Prelude.{
  ℕ, suc, ◌+◌, ◌<◌, String, ◌≡◌, ◌≢◌, refl, sym, ap, subst, ◌∙◌, inl, inr, Bool, true, false, not,
  Option, none, some, Option-cases, some-injective, List, [], ◌∷◌, arith, leb, nat_eq, ◌==◌, eq_iff,
  Bool-cases, Outcome-cases, when-nil, none_given, append-nil, is_nil, nil_of_is_nil, if◌then◌else◌,
}
use collective_phase_control.Ids.{to_set, sorted}
use collective_phase_control.Ids.Laws.{sorted_set-nil}
use collective_phase_control.Trust.{
  TrustPolicySpec, TrustPolicyDocument, TrustedTimeReceipt, DsseEnvelope,
}
use collective_phase_control.Trust.Keys.{Crypto}
use collective_phase_control.Trust.Policy.{validate_policy}
use collective_phase_control.Trust.Policy.Sound.{IsSoundPolicy, validate_policy-IsSoundPolicy}
use collective_phase_control.Trust.Envelope.{Codec, is_digest, verify_envelope}
use collective_phase_control.Trust.Quorum.{rule_for, signers_of, evaluate_quorum}
use collective_phase_control.Trust.Quorum.Sound.{IsQuorum, evaluate_quorum_sound}
use collective_phase_control.Trust.Update.{
  update_reasons, verify_policy_update, receipt_of, advance_reasons, advanced,
  verify_trusted_time_advance,
}

digest_of_is_digest :
    (digest : String) (o : Option String) → not (is_digest digest o) ≡ false → o ≡ some digest
digest_of_is_digest digest none h = cc
digest_of_is_digest digest (some d) h = ap some (sym ((eq_iff digest d).0 (ground (arith, h))))

module _ (crypto : Crypto) (codec : Codec) where
  -- a decision without reasons is valid
  evaluate_quorum_consistent :
      (decision_type subject_digest : String) (envelopes : List DsseEnvelope)
      (policy : TrustPolicySpec) (receipt : TrustedTimeReceipt)
      → let r =
          evaluate_quorum crypto codec decision_type subject_digest envelopes policy receipt in
        r.valid ≡ is_nil r.reasons
  unfolding evaluate_quorum
  evaluate_quorum_consistent decision_type subject_digest envelopes policy receipt =
      elim (Option-cases (rule_for decision_type policy.quorum_rules)) [
        | inl missing ↦ rw (evaluate_quorum, missing) refl
        | inr (rule, found) ↦
            elim (Outcome-cases (signers_of crypto codec subject_digest envelopes policy receipt)) [
              | inl (digest, e) ↦ rw (evaluate_quorum, found, e) refl
              | inr (signers, e) ↦ rw (evaluate_quorum, found, e) refl
            ]
      ]

  -- What an accepted update is: the next in sequence, naming its predecessor, a policy without
  -- reasons, and decided on by a quorum of the predecessor.
  pub record IsSuccessor (prior candidate : TrustPolicyDocument) (statements : List DsseEnvelope)
      (receipt : TrustedTimeReceipt) : Type 0 where
    pub next : candidate.spec.policy_sequence ≡ suc prior.spec.policy_sequence
    pub predecessor : candidate.spec.prior_policy_digest ≡ some prior.digest
    pub sound : IsSoundPolicy crypto candidate.spec
    pub quorum : IsQuorum crypto codec "trust_update" candidate.digest statements prior.spec receipt

  decided :
      (valid : Bool) (reasons : List String)
      → valid ≡ is_nil reasons
      → (if valid then [] else reasons) ≡ []
      → valid ≡ true
  decided true reasons c h = refl
  decided false [] c h = c
  decided false (r ∷ reasons) c h = cc

  -- A policy update that verify_policy_update accepts is the next in sequence after the prior policy,
  -- names it, has no reason against it, and was decided on by a quorum under the prior policy.
  pub verify_policy_update_sound :
      (prior candidate : TrustPolicyDocument) (statements : List DsseEnvelope)
      (receipt : TrustedTimeReceipt)
      → (verify_policy_update crypto codec prior candidate statements receipt).valid ≡ true
      → IsSuccessor prior candidate statements receipt
  unfolding verify_policy_update update_reasons
  verify_policy_update_sound prior candidate statements receipt h =
      let quorum =
        evaluate_quorum crypto codec "trust_update" candidate.digest statements prior.spec
          receipt in
      let n =
        sorted_set-nil (update_reasons crypto codec prior candidate statements receipt)
          (nil_of_is_nil _ h) in
      let (policy, n) = append-nil (validate_policy crypto candidate.spec) _ n in
      let (next, n) =
        none_given (not (nat_eq candidate.spec.policy_sequence (suc prior.spec.policy_sequence))) _
          _ n in
      let (named, n) =
        none_given (not (is_digest prior.digest candidate.spec.prior_policy_digest)) _ _ n in
      record {
        next = ground (arith, next);
        predecessor = digest_of_is_digest prior.digest candidate.spec.prior_policy_digest named;
        sound = validate_policy-IsSoundPolicy crypto candidate.spec policy;
        quorum =
            evaluate_quorum_sound crypto codec "trust_update" candidate.digest statements prior.spec
              receipt
              (decided quorum.valid quorum.reasons
                (evaluate_quorum_consistent "trust_update" candidate.digest statements prior.spec
                  receipt)
                n);
      }

  -- policies that follow one another by accepted updates
  pub data Succession (first : TrustPolicyDocument) : ℕ → TrustPolicyDocument → Type 0 where
    start : Succession first 0 first
    update :
        {n : ℕ} {prior candidate : TrustPolicyDocument} (statements : List DsseEnvelope)
        (receipt : TrustedTimeReceipt)
        → Succession first n prior
        → (verify_policy_update crypto codec prior candidate statements receipt).valid ≡ true
        → Succession first (suc n) candidate

  -- After n accepted updates the policy's sequence number is n above that of the first.
  pub Succession_sequence :
      (first : TrustPolicyDocument) {n : ℕ} {last : TrustPolicyDocument}
      → Succession first n last
      → last.spec.policy_sequence ≡ n + first.spec.policy_sequence
  Succession_sequence first start = omega arith
  Succession_sequence first (update {prior = p} {candidate = c} statements receipt before valid) =
      let earlier = Succession_sequence first before in
      let s = verify_policy_update_sound p c statements receipt valid in
      omega (arith, earlier, s.next)

  -- What an accepted advance of time is.
  pub record IsAdvance (previous : TrustedTimeReceipt) (envelope : DsseEnvelope)
      (policy : TrustPolicySpec) (receipt : TrustedTimeReceipt) : Type 0 where
    pub later : previous.spec.issued_at < receipt.spec.issued_at
    pub fresh : receipt.spec.nonce ≢ previous.spec.nonce
    pub read : receipt_of (verify_envelope crypto codec envelope policy none).1 ≡ some receipt
    pub unaided : (verify_envelope crypto codec envelope policy none).0.reasons ≡ []
    pub bound : (verify_envelope crypto codec envelope policy (some receipt)).0.reasons ≡ []

  IsAdvance-of :
      (previous : TrustedTimeReceipt) (envelope : DsseEnvelope) (policy : TrustPolicySpec)
      (candidate receipt : TrustedTimeReceipt)
      → receipt_of (verify_envelope crypto codec envelope policy none).1 ≡ some candidate
      → (let preliminary = (verify_envelope crypto codec envelope policy none).0 in
          let bound = (verify_envelope crypto codec envelope policy (some candidate)).0 in
          (if is_nil (
              sorted (
                to_set (
                  advance_reasons crypto codec previous candidate preliminary.reasons
                    bound.reasons)))
            then some candidate
            else none)
          ≡ some receipt)
      → IsAdvance previous envelope policy receipt
  unfolding advance_reasons
  IsAdvance-of previous envelope policy candidate receipt read h =
      let preliminary = (verify_envelope crypto codec envelope policy none).0.reasons in
      let bound = (verify_envelope crypto codec envelope policy (some candidate)).0.reasons in
      let reasons = advance_reasons crypto codec previous candidate preliminary bound in
      elim (Bool-cases (is_nil (sorted (to_set reasons)))) [
        | inr given ↦ cc (rw given at h)
        | inl free ↦
            let same : candidate ≡ receipt = some-injective (rw free at h) in
            let n = sorted_set-nil reasons (nil_of_is_nil _ free) in
            let (unaided, n) = append-nil preliminary _ n in
            let (bound_free, n) = append-nil bound _ n in
            let (later, n) =
              none_given (leb candidate.spec.issued_at previous.spec.issued_at) _ _ n in
            let fresh = when-nil (candidate.spec.nonce == previous.spec.nonce) _ n in
            subst (IsAdvance previous envelope policy) same (record {
              later = ground (arith, later);
              fresh = λ e.
                  false≢true (sym fresh ∙ (eq_iff candidate.spec.nonce previous.spec.nonce).1 e);
              read = read;
              unaided = unaided;
              bound = bound_free;
            })
      ]

  -- An advance of trusted time that verify_trusted_time_advance accepts is to a later instant with
  -- another nonce, and the statement has no reason against it, judged alone and by its own receipt.
  pub verify_trusted_time_advance_sound :
      (previous : TrustedTimeReceipt) (envelope : DsseEnvelope) (policy : TrustPolicySpec)
      (receipt : TrustedTimeReceipt)
      → (verify_trusted_time_advance crypto codec previous envelope policy).1 ≡ some receipt
      → IsAdvance previous envelope policy receipt
  unfolding verify_trusted_time_advance advanced
  verify_trusted_time_advance_sound previous envelope policy receipt h =
      elim (Option-cases (receipt_of (verify_envelope crypto codec envelope policy none).1)) [
        | inl absent ↦ cc (rw (verify_trusted_time_advance, absent) at h)
        | inr (candidate, read) ↦
            IsAdvance-of previous envelope policy candidate receipt read
              (rw (verify_trusted_time_advance, read) at h)
      ]
