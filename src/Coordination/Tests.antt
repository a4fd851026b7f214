-- ===== src/Coordination/Tests.antt =====
-- A session on which validate_coordination runs: "lee" plans and integrates, "ann" proposes, "cal"
-- verifies.
use Prim.Native.String.{◌++◌ as ◌++ₛ◌}
use collective_phase_control.Prelude.{
  length, ◌==◌, if◌then◌else◌, ℕ, String, ◌≡◌, refl, Option, none, some, List, [], ◌∷◌,
}
use collective_phase_control.Ids.{to_set, sorted}
use collective_phase_control.Ids.Dict.{put, get}
use collective_phase_control.Coordination.{
  CoordinationPlan, passed, all_verified, EventType, open_commit, commit, close_commit, open_reveal,
  reveal, verification, integration, terminate, CoordinationEvent,
}
use collective_phase_control.Coordination.Chain.{ordered_events, follow}
use collective_phase_control.Coordination.Chain.Ends.{digests, Follows, follow_root_ends}
use collective_phase_control.Coordination.Chain.Whole.{IsWhole, ordered_events-IsWhole}
use collective_phase_control.Ids.Unique.{IsUnique}
use mathlib.Core.List.Memᴰ
use collective_phase_control.Coordination.Session.{
  validate_coordination, proposal_commitment_digest, satisfied, is_no_text, zero_load, run, start,
  step,
}
use collective_phase_control.Coordination.Session.Binding.{reveal_binding}
use collective_phase_control.Coordination.Plan.{
  coordination_plan_integrity, IsSoundPlan, coordination_plan_integrity-IsSoundPlan,
}
use collective_phase_control.Coordination.Session.Satisfied.{session_of}

-- a digest that writes all members out
abbrev written : List (String × String) → String
written [] = ""
written ((k, v) ∷ rest) = ◌++ₛ◌ v (◌++ₛ◌ ";" (written rest))

abbrev plan : CoordinationPlan
plan = record {
  digest = "plan";
  session_id = "s1";
  plan_principal_id = "lee";
  integration_principal_id = "lee";
  participant_principals = "lee" ∷ "ann" ∷ "cal" ∷ [];
  verifier_principals = "cal" ∷ [];
  verifier_capacity = ("cal", 1) ∷ [];
  required_proposal_count = 1;
  commit_deadline = 20;
  reveal_deadline = 40;
  termination_deadline = 60;
  maximum_exposures = 0;
}

abbrev commitment : String
commitment = proposal_commitment_digest written "s1" "p1" "ann" "art"

abbrev event : String → Option String → String → ℕ → EventType → CoordinationEvent
event name prior actor at kind = record {
  digest = name;
  session_id = "s1";
  event_id = name;
  event_type = kind;
  actor_principal_id = actor;
  occurred_at = at;
  prior_event_digest = prior;
}

abbrev events : List CoordinationEvent
events =
    event "e4" (some "e3") "lee" 30 open_reveal
    ∷ event "e1" none "lee" 10 open_commit
    ∷ event "e2" (some "e1") "ann" 15 (commit "p1" commitment)
    ∷ event "e3" (some "e2") "lee" 20 close_commit
    ∷ event "e5" (some "e4") "ann" 35 (reveal "p1" commitment "art")
    ∷ event "e6" (some "e5") "cal" 40 (verification "art" passed)
    ∷ event "e7" (some "e6") "lee" 45 (integration "art")
    ∷ event "e8" (some "e7") "lee" 50 (terminate all_verified)
    ∷ []

-- a digest that distinguishes artifacts alone
abbrev by_artifact : List (String × String) → String
by_artifact [] = ""
by_artifact ((k, v) ∷ rest) =
    let found = by_artifact rest in if k == "artifact_digest" then v else found

by_artifact-distinguishes :
    (p c d a b : String)
    → proposal_commitment_digest by_artifact "s1" p c a
      ≡ proposal_commitment_digest by_artifact "s1" p d b
    → a ≡ b
unfolding proposal_commitment_digest
by_artifact-distinguishes p c d a b h = h

abbrev opened : CoordinationEvent
opened =
    event "e2" (some "e1") "ann" 15
      (commit "p1" (proposal_commitment_digest by_artifact "s1" "p1" "ann" "art"))

abbrev shown : CoordinationEvent
shown =
    event "e5" (some "e4") "ann" 35
      (reveal "p1" (proposal_commitment_digest by_artifact "s1" "p1" "ann" "art") "art")

abbrev session_events : List CoordinationEvent
session_events =
    event "e1" none "lee" 10 open_commit
    ∷ opened
    ∷ event "e3" (some "e2") "lee" 20 close_commit
    ∷ event "e4" (some "e3") "lee" 30 open_reveal
    ∷ shown
    ∷ event "e6" (some "e5") "cal" 40 (verification "art" passed)
    ∷ event "e7" (some "e6") "lee" 45 (integration "art")
    ∷ event "e8" (some "e7") "lee" 50 (terminate all_verified)
    ∷ []

session_good :
    (validate_coordination by_artifact (plan ∷ []) session_events 55 none).status ≡ satisfied
unfolding validate_coordination ordered_events proposal_commitment_digest to_set sorted is_no_text
    put zero_load
session_good = refl

art-revealed : get "p1" (session_of by_artifact plan none 55 session_events).reveals ≡ some "art"
unfolding run start ordered_events proposal_commitment_digest to_set sorted put zero_load step
art-revealed = refl

reveal_binding_example : Path String "art" "art"
reveal_binding_example =
    reveal_binding by_artifact plan none 55 session_events session_events by_artifact-distinguishes
      session_good session_good "p1" "art" "art" refl art-revealed art-revealed

events-IsUnique : IsUnique (digests events)
events-IsUnique = (refl, (refl, (refl, (refl, (refl, (refl, (refl, (refl, tt))))))))

abbrev root : CoordinationEvent
root = event "e1" none "lee" 10 open_commit

follow_root_ends_example : Follows events root (follow (length events) events root)
follow_root_ends_example =
    follow_root_ends events events-IsUnique root (Memᴰ.tail (Memᴰ.head refl)) refl

no_chain_blockers : (ordered_events events).blockers ≡ []
unfolding ordered_events to_set proposal_commitment_digest
no_chain_blockers = refl

ordered_events-IsWhole_example : IsWhole events events-IsUnique (ordered_events events)
ordered_events-IsWhole_example = ordered_events-IsWhole events events-IsUnique no_chain_blockers

accepted : coordination_plan_integrity plan ≡ none
unfolding coordination_plan_integrity to_set
accepted = refl

coordination_plan_integrity-IsSoundPlan_example : IsSoundPlan plan
coordination_plan_integrity-IsSoundPlan_example =
    coordination_plan_integrity-IsSoundPlan plan accepted
