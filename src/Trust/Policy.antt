-- ===== src/Trust/Policy.antt =====
-- v6/trust.py: validate_policy, _principal and _time_status.
pub mod Sound
pub mod Complete
use collective_phase_control.Prelude.{
  ℕ, String, Bool, true, false, not, ◌&&◌, ◌||◌, Option, none, some, List, [], ◌∷◌, ◌++◌, map,
  filter, any, leb, ltb, nat_eq, ◌==◌, Outcome, ok, raised, when,
}
use collective_phase_control.Ids.{elem, is_repeated, to_set, sorted}
use collective_phase_control.Trust.{
  Principal, QuorumRule, TrustPolicySpec, RevocationMode, prospective, retroactive,
}
use collective_phase_control.Trust.Keys.{Crypto, public_key_fingerprint}

abbrev pub is_present {ℓ} : {A : Type ℓ} → Option A → Bool
is_present none = false
is_present (some a) = true

-- roots: one principal with the role, and the policy's root key
abbrev pub is_root : Principal → Bool
is_root principal = elem "workspace_root" principal.roles

abbrev pub is_single_root : String → List Principal → Bool
is_single_root root_key_id [] = false
is_single_root root_key_id (root ∷ []) = root.key_id == root_key_id
is_single_root root_key_id (root ∷ other ∷ others) = false

-- the policy's principal with both identifiers, if there is just one
abbrev pub only : List Principal → Option Principal
only [] = none
only (p ∷ []) = some p
only (p ∷ q ∷ ps) = none

unfoldable pub principal_of : TrustPolicySpec → String → String → Option Principal
principal_of policy key_id principal_id =
    only (filter (λ p. p.key_id == key_id && p.principal_id == principal_id) policy.principals)

-- revoked_at and the mode of revocation, for a signing time
unfoldable pub revocation_reasons : Option ℕ → RevocationMode → Option ℕ → ℕ → List String
revocation_reasons none mode compromised_at signed_at = []
revocation_reasons (some revoked_at) prospective compromised_at signed_at =
    when (leb revoked_at signed_at) "signature_after_revocation"
revocation_reasons (some revoked_at) retroactive none signed_at =
    "signature_invalidated_by_retroactive_revocation" ∷ []
revocation_reasons (some revoked_at) retroactive (some cutoff) signed_at =
    when (leb cutoff signed_at) "signature_invalidated_by_retroactive_revocation"

-- _time_status
unfoldable pub time_status : Principal → ℕ → ℕ → List String
unfolding revocation_reasons
time_status principal signed_at authoritative_time =
    when (ltb authoritative_time signed_at) "signature_from_future"
    ++ (when (ltb signed_at principal.valid_from || ltb principal.valid_until signed_at)
          "signing_time_outside_key_validity"
        ++ revocation_reasons principal.revoked_at principal.revocation_mode
            principal.compromised_at signed_at)

module _ (crypto : Crypto) where
  -- the reasons that the loop over the principals finds for one of them
  unfoldable pub principal_reasons : Principal → List String
  principal_reasons principal =
      elim (public_key_fingerprint crypto principal) [
        | ok fingerprint ↦ []
        | raised text ↦ text ∷ []
      ]
      ++ (when (leb principal.valid_until principal.valid_from)
            "principal_validity_interval_invalid"
          ++ when (is_present principal.compromised_at && not (is_present principal.revoked_at))
              "compromise_requires_revocation")

  unfoldable pub all_principal_reasons : List Principal → List String
  unfolding principal_reasons
  all_principal_reasons [] = []
  all_principal_reasons (p ∷ ps) = principal_reasons p ++ all_principal_reasons ps

  unfoldable pub fingerprints : List Principal → List String
  fingerprints [] = []
  fingerprints (p ∷ ps) = elim (public_key_fingerprint crypto p) [
    | ok fingerprint ↦ fingerprint ∷ fingerprints ps
    | raised text ↦ fingerprints ps
  ]

  -- validate_policy before sorted(set(reasons))
  unfoldable pub policy_reasons : TrustPolicySpec → List String
  unfolding all_principal_reasons fingerprints
  policy_reasons policy =
      when (is_repeated (map (λ p. p.principal_id) policy.principals)) "duplicate_principal_id"
      ++ (when (is_repeated (map (λ p. p.key_id) policy.principals)) "duplicate_key_id"
          ++ (all_principal_reasons policy.principals
              ++ (when (is_repeated (fingerprints policy.principals))
                    "public_key_reused_by_multiple_principals"
                  ++ (when
                        (not (is_single_root policy.root_key_id (filter is_root policy.principals)))
                        "exactly_one_matching_workspace_root_required"
                      ++ (when (is_repeated (map (λ r. r.decision_type) policy.quorum_rules))
                            "duplicate_quorum_decision_type"
                          ++ (when
                                (nat_eq policy.policy_sequence 0
                                  && is_present policy.prior_policy_digest)
                                "genesis_policy_cannot_have_predecessor"
                              ++ when
                                  (ltb 0 policy.policy_sequence
                                    && not (is_present policy.prior_policy_digest))
                                  "non_genesis_policy_requires_predecessor"))))))

  unfoldable pub validate_policy : TrustPolicySpec → List String
  unfolding policy_reasons
  validate_policy policy = sorted (to_set (policy_reasons policy))
