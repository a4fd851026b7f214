-- ===== src/Trust/Policy/Complete.antt =====
-- A sound policy is one that validate_policy of v6/trust.py accepts.
use collective_phase_control.Prelude.{
  ℕ, ◌<◌, leb, ltb, nat_eq, String, ◌≡◌, ◌↔◌, refl, inl, inr, false, not, ◌&&◌, Option, none, some,
  Bool-cases, List, [], ◌∷◌, map, Memᴰ, arith, eq_iff, ok,
}
use collective_phase_control.Ids.{sorted, to_set}
use collective_phase_control.Ids.Unique.{not_repeated}
use collective_phase_control.Trust.{Principal, TrustPolicySpec}
use collective_phase_control.Trust.Keys.{Crypto, public_key_fingerprint}
use collective_phase_control.Trust.Policy.{
  is_present, principal_reasons, all_principal_reasons, fingerprints, policy_reasons,
  validate_policy,
}
use collective_phase_control.Trust.Policy.Sound.{IsSoundPolicy}

module _ (crypto : Crypto) where
  uncompromised :
      (compromised revoked : Option ℕ)
      → (revoked ≡ none → compromised ≡ none)
      → is_present compromised && not (is_present revoked) ≡ false
  uncompromised none revoked h = refl
  uncompromised (some c) (some r) h = refl
  uncompromised (some c) none h = cc (h refl)

  no_principal_reasons :
      (p : Principal) (fingerprint : String)
      → public_key_fingerprint crypto p ≡ ok fingerprint
      → p.valid_from < p.valid_until
      → (p.revoked_at ≡ none → p.compromised_at ≡ none)
      → principal_reasons crypto p ≡ []
  unfolding principal_reasons
  no_principal_reasons p fingerprint keyed interval compromise =
      let test : leb p.valid_until p.valid_from ≡ false = ground (arith, interval) in
      rw (principal_reasons, keyed, test, uncompromised p.compromised_at p.revoked_at compromise)
        refl

  no_reasons_of_all :
      (ps : List Principal)
      → ((p : Principal) → Memᴰ p ps → principal_reasons crypto p ≡ [])
      → all_principal_reasons crypto ps ≡ []
  unfolding all_principal_reasons
  no_reasons_of_all [] h = refl
  no_reasons_of_all (p ∷ ps) h =
      rw
        (
          all_principal_reasons,
          h p (Memᴰ.head refl),
          no_reasons_of_all ps (λ q m. h q (Memᴰ.tail m)),
        )
        refl

  first_without :
      (n : ℕ) (prior : Option String)
      → (n ≡ 0) ↔ (prior ≡ none)
      → (nat_eq n 0 && is_present prior ≡ false) × (ltb 0 n && not (is_present prior) ≡ false)
  first_without n none (to, from) = let zero_th = from refl in ground (arith, zero_th)
  first_without n (some d) (to, from) = ground (arith, positive n d to)
    where
      positive :
          (n : ℕ) (d : String) → (n ≡ 0 → Path (Option String) (some d) none) → nat_eq n 0 ≡ false
      positive n d to = elim (Bool-cases (nat_eq n 0)) [
        | inl e ↦ cc (to (ground (arith, e)))
        | inr e ↦ e
      ]

  no_policy_reasons :
      (policy : TrustPolicySpec) → IsSoundPolicy crypto policy → policy_reasons crypto policy ≡ []
  unfolding policy_reasons
  no_policy_reasons policy sound =
      let ids = not_repeated (map (λ p. p.principal_id) policy.principals) sound.principal_ids in
      let key_ids = not_repeated (map (λ p. p.key_id) policy.principals) sound.key_ids in
      let keys = not_repeated (fingerprints crypto policy.principals) sound.keys_unshared in
      let rules = not_repeated (map (λ r. r.decision_type) policy.quorum_rules) sound.decisions in
      let people = no_reasons_of_all policy.principals (λ p m.
        let (fingerprint, keyed) = sound.keyed p m in
        no_principal_reasons p fingerprint keyed (sound.interval p m) (sound.compromise p m)) in
      let (root, roots, key) = sound.one_root in
      let single = (eq_iff root.key_id policy.root_key_id).1 key in
      let (genesis, later) =
        first_without policy.policy_sequence policy.prior_policy_digest sound.predecessor in
      rw (policy_reasons, ids, key_ids, people, keys, roots, single, rules, genesis, later) refl

  -- A sound policy has no reason against it.
  pub validate_policy-accepts :
      (policy : TrustPolicySpec) → IsSoundPolicy crypto policy → validate_policy crypto policy ≡ []
  unfolding validate_policy sorted to_set
  validate_policy-accepts policy sound = rw (validate_policy, no_policy_reasons policy sound) refl
