-- ===== src/Trust/Tests.antt =====
-- Two policies, the statements of two principals that put the second in place of the first, and a
-- receipt of trusted time; with a base64 of a few texts and a signature that repeats its key.
use collective_phase_control.Prelude.{
  ℕ, zero, suc, ◌+◌, String, ◌≡◌, refl, true, false, Option, none, some, List, [], ◌∷◌, ◌++◌,
  Outcome, ok, ◌==◌, nat_eq, if◌then◌else◌,
}
use collective_phase_control.Ids.{sorted, to_set}
use collective_phase_control.Trust.{
  Bytes, Principal, ed25519, prospective, TrustPolicyDocument, TrustedTimeSpec, TrustedTimeReceipt,
  trust_policy, trusted_time, Document, ProtectedHeader, DsseEnvelope,
}
use collective_phase_control.Trust.Encoding.{dsse_pae-injective}
use collective_phase_control.Trust.Keys.{
  Crypto, take, verify_signature, public_key_fingerprint, from_bytes, drop, verify_with, ec_key,
  verify_with_low_s, p256_order,
}
use collective_phase_control.Trust.Policy.{validate_policy, principal_of, time_status}
use collective_phase_control.Trust.Policy.Sound.{IsSoundPolicy, validate_policy-IsSoundPolicy}
use collective_phase_control.Trust.Envelope.{Codec, verify_envelope}
use collective_phase_control.Trust.Envelope.Sound.{IsVerified, verify_envelope_sound}
use collective_phase_control.Trust.Quorum.{evaluate_quorum}
use collective_phase_control.Trust.Quorum.Sound.{IsQuorum, evaluate_quorum_sound}
use collective_phase_control.Trust.Update.{verify_policy_update, verify_trusted_time_advance}
use collective_phase_control.Trust.Update.Chain.{
  IsSuccessor, verify_policy_update_sound, start, update, Succession_sequence, IsAdvance,
  verify_trusted_time_advance_sound,
}
use collective_phase_control.Trust.Signing.{Signing, ecdsa_private, signature_bytes}
use collective_phase_control.Trust.Signing.Verified.{IsEcdsaPair, ecdsa_signature_verifies}
use collective_phase_control.Prelude.{◌-◌, arith}

abbrev fill : ℕ → ℕ → Bytes
fill zero b = []
fill (suc n) b = b ∷ fill n b

abbrev first_byte : Bytes → ℕ
first_byte [] = 0
first_byte (b ∷ bs) = b

abbrev decode : String → Option Bytes
decode text =
    if text == "key-root"
    then some (fill 32 1)
    else if text == "key-ann"
    then some (fill 32 2)
    else if text == "key-bob"
    then some (fill 32 3)
    else if text == "from-ann"
    then some (10 ∷ [])
    else if text == "from-bob"
    then some (11 ∷ [])
    else if text == "clock"
    then some (12 ∷ [])
    else none

abbrev toy : Crypto
toy = record {
  b64decode = decode;
  load_der = λ encoded. none;
  ed25519_verify = λ raw signature message. nat_eq (first_byte raw) (first_byte signature);
  ecdsa_verify = λ spki r s message. true;
  ed25519_spki = λ raw. raw;
  digest_bytes = λ bytes.
      if nat_eq (first_byte bytes) 1
      then "f1"
      else if nat_eq (first_byte bytes) 2
      then "f2"
      else "f3";
}

abbrev person : String → String → List String → Principal
person name key roles = record {
  principal_id = name;
  key_id = key;
  algorithm = ed25519;
  public_key_base64 = key;
  roles = roles;
  source_systems = "desk" ∷ [];
  allowed_kinds = "trust-policy" ∷ "trusted-time-receipt" ∷ [];
  scope = "all" ∷ [];
  infrastructure_domain = name;
  correlation_domain = name;
  valid_from = 0;
  valid_until = 100;
  revoked_at = none;
  compromised_at = none;
  revocation_mode = prospective;
}

abbrev first_policy : TrustPolicyDocument
first_policy = record {
  digest = "policy-0";
  spec = record {
    policy_sequence = 0;
    prior_policy_digest = none;
    root_key_id = "key-root";
    principals =
        person "root" "key-root" ("workspace_root" ∷ [])
        ∷ person "ann" "key-ann" ("author" ∷ "clock" ∷ [])
        ∷ person "bob" "key-bob" ("reviewer" ∷ [])
        ∷ [];
    quorum_rules =
        record {
          decision_type = "trust_update";
          required_roles = "author" ∷ "reviewer" ∷ [];
          distinct_infrastructure = true;
          distinct_correlation = true;
        }
        ∷ [];
  };
}

abbrev next_policy : TrustPolicyDocument
next_policy = record {
  digest = "policy-1";
  spec = record first_policy.spec { policy_sequence = 1; prior_policy_digest = some "policy-0" };
}

abbrev clock : TrustedTimeSpec
clock = record { authority_principal_id = "ann"; issued_at = 20; valid_until = 30; nonce = "n2" }

abbrev now : TrustedTimeReceipt
now = record { digest = "time-2"; spec = clock }

abbrev before : TrustedTimeReceipt
before = record {
  digest = "time-1";
  spec = record { authority_principal_id = "ann"; issued_at = 10; valid_until = 30; nonce = "n1" };
}

abbrev header : String → String → String → String → String → String → ProtectedHeader
header kind schema digest key name role = record {
  schema_name = kind;
  schema_digest = schema;
  payload_digest = digest;
  key_id = key;
  principal_id = name;
  role = role;
  source_system = "desk";
  scope = "all" ∷ [];
  tenant_id = "t";
  workspace_id = "w";
  signing_time = 15;
  policy_sequence = 0;
  trusted_time_receipt_digest = some "time-2";
}

abbrev next_document : Document
next_document = record {
  digest = "policy-1";
  kind = "trust-policy";
  tenant_id = "t";
  workspace_id = "w";
  subject = trust_policy next_policy.spec;
}

abbrev clock_document : Document
clock_document = record {
  digest = "time-2";
  kind = "trusted-time-receipt";
  tenant_id = "t";
  workspace_id = "w";
  subject = trusted_time clock;
}

abbrev read : Bytes → Outcome (ProtectedHeader × Document)
read bytes =
    if nat_eq (first_byte bytes) 10
    then ok (header "trust-policy" "s" "policy-1" "key-ann" "ann" "author", next_document)
    else if nat_eq (first_byte bytes) 11
    then ok (header "trust-policy" "s" "policy-1" "key-bob" "bob" "reviewer", next_document)
    else ok (header "trusted-time-receipt" "s" "time-2" "key-ann" "ann" "clock", clock_document)

abbrev reading : Codec
reading = record {
  base64_error = λ text. "Incorrect padding";
  read_payload = read;
  schema_digest = λ kind. "s";
  envelope_bytes = λ envelope. [];
}

abbrev sealed : String → String → DsseEnvelope
sealed payload signature = record {
  payload_type = 116 ∷ [];
  payload = payload;
  signatures = "no base64" ∷ signature ∷ [];
}

abbrev statements : List DsseEnvelope
statements = sealed "from-bob" "key-bob" ∷ sealed "from-ann" "key-ann" ∷ []

policy_fine : validate_policy toy first_policy.spec ≡ []
unfolding validate_policy sorted to_set public_key_fingerprint
policy_fine = refl

validate_policy-IsSoundPolicy_example : IsSoundPolicy toy first_policy.spec
validate_policy-IsSoundPolicy_example =
    validate_policy-IsSoundPolicy toy first_policy.spec policy_fine

ann_verified :
    (verify_envelope toy reading (sealed "from-ann" "key-ann") first_policy.spec (some now)).0.valid
    ≡ true
unfolding verify_envelope verify_signature sorted to_set validate_policy public_key_fingerprint
    principal_of time_status
ann_verified = refl

verify_envelope_sound_example :
    IsVerified toy reading (sealed "from-ann" "key-ann") first_policy.spec (some now)
verify_envelope_sound_example =
    verify_envelope_sound toy reading (sealed "from-ann" "key-ann") first_policy.spec (some now)
      ann_verified

forged :
    (verify_envelope toy reading (sealed "from-ann" "key-bob") first_policy.spec (some now)).0.valid
    ≡ false
unfolding verify_envelope verify_signature sorted to_set validate_policy public_key_fingerprint
    principal_of time_status
forged = refl

decision :
    (evaluate_quorum toy reading "trust_update" "policy-1" statements first_policy.spec now).valid
    ≡ true
unfolding evaluate_quorum verify_envelope verify_signature sorted to_set validate_policy
    public_key_fingerprint principal_of time_status
decision = refl

evaluate_quorum_sound_example :
    IsQuorum toy reading "trust_update" "policy-1" statements first_policy.spec now
evaluate_quorum_sound_example =
    evaluate_quorum_sound toy reading "trust_update" "policy-1" statements first_policy.spec now
      decision

accepted : (verify_policy_update toy reading first_policy next_policy statements now).valid ≡ true
unfolding verify_policy_update evaluate_quorum verify_envelope verify_signature sorted to_set
    validate_policy public_key_fingerprint principal_of time_status
accepted = refl

verify_policy_update_sound_example : IsSuccessor toy reading first_policy next_policy statements now
verify_policy_update_sound_example =
    verify_policy_update_sound toy reading first_policy next_policy statements now accepted

Succession_sequence_example :
    next_policy.spec.policy_sequence ≡ 1 + first_policy.spec.policy_sequence
Succession_sequence_example =
    Succession_sequence toy reading first_policy (update statements now start accepted)

advanced_to_now :
    (verify_trusted_time_advance toy reading before (sealed "clock" "key-ann") first_policy.spec).1
    ≡ some now
unfolding verify_trusted_time_advance verify_envelope verify_signature sorted to_set validate_policy
    public_key_fingerprint principal_of time_status
advanced_to_now = refl

verify_trusted_time_advance_sound_example :
    IsAdvance toy reading before (sealed "clock" "key-ann") first_policy.spec now
verify_trusted_time_advance_sound_example =
    verify_trusted_time_advance_sound toy reading before (sealed "clock" "key-ann")
      first_policy.spec now advanced_to_now

dsse_pae-injective_example : (Path Bytes (1 ∷ 2 ∷ []) (1 ∷ 2 ∷ [])) × Path Bytes (32 ∷ []) (32 ∷ [])
dsse_pae-injective_example = dsse_pae-injective (1 ∷ 2 ∷ []) (1 ∷ 2 ∷ []) (32 ∷ []) (32 ∷ []) refl

abbrev one : Bytes
one =
    0 ∷ 0 ∷ 0 ∷ 0 ∷ 0 ∷ 0 ∷ 0 ∷ 0 ∷ 0 ∷ 0 ∷ 0 ∷ 0 ∷ 0 ∷ 0 ∷ 0 ∷ 0 ∷ 0 ∷ 0 ∷ 0 ∷ 0 ∷ 0 ∷ 0 ∷ 0 ∷ 0
    ∷ 0 ∷ 0 ∷ 0 ∷ 0 ∷ 0 ∷ 0 ∷ 0 ∷ 1 ∷ []

abbrev order_less_one : Bytes
order_less_one =
    255 ∷ 255 ∷ 255 ∷ 255 ∷ 0 ∷ 0 ∷ 0 ∷ 0 ∷ 255 ∷ 255 ∷ 255 ∷ 255 ∷ 255 ∷ 255 ∷ 255 ∷ 255 ∷ 188
    ∷ 230 ∷ 250 ∷ 173 ∷ 167 ∷ 23 ∷ 158 ∷ 132 ∷ 243 ∷ 185 ∷ 202 ∷ 194 ∷ 252 ∷ 99 ∷ 37 ∷ 80 ∷ []

sums_to_order :
    from_bytes 0 (drop 32 (one ++ order_less_one)) + from_bytes 0 (drop 32 (one ++ one))
    ≡ p256_order
unfolding from_bytes drop
sums_to_order = refl

low_accepted : verify_with toy (ec_key []) [] (one ++ one) ≡ true
unfolding verify_with from_bytes take drop
low_accepted = refl

verify_with_low_s_example : verify_with toy (ec_key []) [] (one ++ order_less_one) ≡ false
verify_with_low_s_example =
    verify_with_low_s toy [] [] (one ++ one) (one ++ order_less_one) sums_to_order low_accepted

abbrev pen : Signing
pen = record {
  ed25519_sign = λ key message. key;
  ecdsa_sign = λ key message. (1, p256_order - 1);
  b64encode = λ bytes. if nat_eq (first_byte bytes) 10 then "from-ann" else "key-ann";
  payload_bytes = λ protected document. 10 ∷ [];
  payload_type = 116 ∷ [];
}

abbrev ann : Principal
ann = person "ann" "key-ann" ("author" ∷ "clock" ∷ [])

abbrev ann_header : ProtectedHeader
ann_header = header "trust-policy" "s" "policy-1" "key-ann" "ann" "author"

ecdsa_pair : IsEcdsaPair toy pen [] [] []
ecdsa_pair = record {
  r_positive = omega arith;
  r_below = omega arith;
  s_positive = omega arith;
  s_below = omega arith;
  valid = refl;
  negated_valid = refl;
}

ecdsa_signature_verifies_example :
    verify_with toy (ec_key []) [] (signature_bytes pen (ecdsa_private []) []) ≡ true
ecdsa_signature_verifies_example = ecdsa_signature_verifies toy pen [] [] [] ecdsa_pair
