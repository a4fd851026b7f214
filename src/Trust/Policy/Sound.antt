-- ===== src/Trust/Policy/Sound.antt =====
-- What a policy that validate_policy accepts is like, and what _principal finds in it.
use mathlib.Core.List.Memᴰ
use collective_phase_control.Prelude.{
  ℕ, ◌<◌, Option, some, leb, ltb, nat_eq, Outcome-cases, String, ◌≡◌, ◌↔◌, refl, inl, inr, true,
  false, not, ◌&&◌, none, List, [], ◌∷◌, map, filter, Memᴰ, arith, eq_iff, ok, when-nil, none_given,
  append-nil,
}
use collective_phase_control.Ids.{is_repeated}
use collective_phase_control.Ids.Laws.{sorted_set-nil}
use collective_phase_control.Ids.Unique.{IsUnique, unrepeated}
use collective_phase_control.Trust.{Principal, TrustPolicySpec}
use collective_phase_control.Trust.Keys.{Crypto, public_key_fingerprint}
use collective_phase_control.Trust.Policy.{
  is_present, is_root, is_single_root, principal_reasons, all_principal_reasons, fingerprints,
  policy_reasons, validate_policy,
}

root_of :
    (root_key_id : String) (roots : List Principal)
    → is_single_root root_key_id roots ≡ true
    → (root : Principal) × (roots ≡ root ∷ []) × (root.key_id ≡ root_key_id)
root_of root_key_id [] h = cc
root_of root_key_id (root ∷ []) h = (root, refl, (eq_iff root.key_id root_key_id).0 h)
root_of root_key_id (root ∷ other ∷ others) h = cc

module _ (crypto : Crypto) where
  -- A policy without reasons: identifiers and keys are not shared, every key is well formed, its
  -- validity an interval, and its compromise comes with a revocation; there is one root, with the
  -- policy's root key; only the first policy has no predecessor.
  pub record IsSoundPolicy (policy : TrustPolicySpec) : Type 0 where
    pub principal_ids : IsUnique (map (λ p. p.principal_id) policy.principals)
    pub key_ids : IsUnique (map (λ p. p.key_id) policy.principals)
    pub keys_unshared : IsUnique (fingerprints crypto policy.principals)
    pub keyed :
        (p : Principal)
        → Memᴰ p policy.principals
        → (fingerprint : String) × (public_key_fingerprint crypto p ≡ ok fingerprint)
    pub interval : (p : Principal) → Memᴰ p policy.principals → p.valid_from < p.valid_until
    pub compromise :
        (p : Principal) → Memᴰ p policy.principals → p.revoked_at ≡ none → p.compromised_at ≡ none
    pub one_root :
        (root : Principal) × (filter is_root policy.principals ≡ root ∷ [])
        × (root.key_id ≡ policy.root_key_id)
    pub decisions : IsUnique (map (λ r. r.decision_type) policy.quorum_rules)
    pub predecessor : (policy.policy_sequence ≡ 0) ↔ (policy.prior_policy_digest ≡ none)

  record IsSoundPrincipal (p : Principal) : Type 0 where
    fingerprint : String
    keyed : public_key_fingerprint crypto p ≡ ok fingerprint
    interval : p.valid_from < p.valid_until
    compromise : p.revoked_at ≡ none → p.compromised_at ≡ none

  unrevoked :
      (compromised revoked : Option ℕ)
      → is_present compromised && not (is_present revoked) ≡ false
      → revoked ≡ none
      → compromised ≡ none
  unrevoked none revoked h e = refl
  unrevoked (some c) none h e = cc
  unrevoked (some c) (some r) h e = cc

  principal_fine : (p : Principal) → principal_reasons crypto p ≡ [] → IsSoundPrincipal p
  unfolding principal_reasons
  principal_fine p h = elim (Outcome-cases (public_key_fingerprint crypto p)) [
    | inl (text, e) ↦ cc (rw (e) at h)
    | inr (fingerprint, e) ↦
        let (interval, rest) = none_given (leb p.valid_until p.valid_from) _ _ (rw e at h) in
        let compromise =
          when-nil (is_present p.compromised_at && not (is_present p.revoked_at)) _ rest in
        record {
          fingerprint = fingerprint;
          keyed = e;
          interval = ground (arith, interval);
          compromise = unrevoked p.compromised_at p.revoked_at compromise;
        }
  ]

  principals_fine :
      (ps : List Principal)
      → all_principal_reasons crypto ps ≡ []
      → (p : Principal) → Memᴰ p ps
      → principal_reasons crypto p ≡ []
  unfolding all_principal_reasons
  principals_fine [] h p m = absurd (Memᴰ.not-nil m)
  principals_fine (q ∷ ps) h p m =
      let (here, later) =
        append-nil (principal_reasons crypto q) (all_principal_reasons crypto ps) h in
      elim (Memᴰ.cases_cons m) [ inl e ↦ rw e here | inr n ↦ principals_fine ps later p n ]

  -- A policy that validate_policy finds no reason against has distinct principals with distinct,
  -- well-formed keys, each valid for some time and compromised only if revoked, one root with the
  -- policy's root key, one rule at most for each decision, and a predecessor exactly if it is not the
  -- first.
  pub validate_policy-IsSoundPolicy :
      (policy : TrustPolicySpec) → validate_policy crypto policy ≡ [] → IsSoundPolicy policy
  unfolding validate_policy policy_reasons
  validate_policy-IsSoundPolicy policy h =
      let (ids, h) = none_given _ _ _ (sorted_set-nil (policy_reasons crypto policy) h) in
      let (key_ids, h) = none_given _ _ _ h in
      let (people, h) = append-nil (all_principal_reasons crypto policy.principals) _ h in
      let (shared, h) = none_given _ _ _ h in
      let (root, h) =
        none_given (not (is_single_root policy.root_key_id (filter is_root policy.principals))) _ _
          h in
      let (rules, h) =
        none_given (is_repeated (map (λ r. r.decision_type) policy.quorum_rules)) _ _ h in
      let (genesis, h) =
        none_given (nat_eq policy.policy_sequence 0 && is_present policy.prior_policy_digest) _ _
          h in
      let later =
        when-nil (ltb 0 policy.policy_sequence && not (is_present policy.prior_policy_digest)) _
          h in
      let fine = principals_fine policy.principals people in
      record {
        principal_ids = unrepeated (map (λ p. p.principal_id) policy.principals) ids;
        key_ids = unrepeated (map (λ p. p.key_id) policy.principals) key_ids;
        keys_unshared = unrepeated (fingerprints crypto policy.principals) shared;
        keyed = λ p m. let f = principal_fine p (fine p m) in (f.fingerprint, f.keyed);
        interval = λ p m. (principal_fine p (fine p m)).interval;
        compromise = λ p m. (principal_fine p (fine p m)).compromise;
        one_root =
            root_of policy.root_key_id (filter is_root policy.principals) (ground (arith, root));
        decisions = unrepeated (map (λ r. r.decision_type) policy.quorum_rules) rules;
        predecessor = ground (arith, genesis, later);
      }
