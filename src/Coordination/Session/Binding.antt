-- ===== src/Coordination/Session/Binding.antt =====
-- What the commitments of a session bind: two sessions of one plan side by side.
use collective_phase_control.Prelude.{ℕ, String, ◌≡◌, sym, ◌∙◌, Option, List, [], ◌∷◌, some}
use collective_phase_control.Ids.Dict.{Dict, get}
use collective_phase_control.Coordination.{CoordinationPlan, CoordinationEvent}
use collective_phase_control.Coordination.Session.{
  validate_coordination, satisfied, proposal_commitment_digest,
}
use collective_phase_control.Coordination.Session.Satisfied.{
  session_of, validate_coordination_sound,
}

-- Where the commitments of different artifacts differ, a commitment binds: if two lists of events
-- are satisfied sessions of a plan and hold the same commitment for a proposal, then they reveal the
-- same artifact for it, if both reveal one.
pub reveal_binding :
    (digest_of : List (String × String) → String) (plan : CoordinationPlan)
    (signers : Option (Dict (List String))) (at : ℕ) (events others : List CoordinationEvent)
    → ((p c d a b : String)
        → proposal_commitment_digest digest_of plan.session_id p c a
          ≡ proposal_commitment_digest digest_of plan.session_id p d b
        → a ≡ b)
    → (validate_coordination digest_of (plan ∷ []) events at signers).status ≡ satisfied
    → (validate_coordination digest_of (plan ∷ []) others at signers).status ≡ satisfied
    → (p a b : String)
    → get p (session_of digest_of plan signers at events).commitments
      ≡ get p (session_of digest_of plan signers at others).commitments
    → get p (session_of digest_of plan signers at events).reveals ≡ some a
    → get p (session_of digest_of plan signers at others).reveals ≡ some b
    → a ≡ b
reveal_binding digest_of plan signers at events others collision_free good fine p a b same revealed
      shown =
    let first = validate_coordination_sound digest_of plan events at signers good in
    let second = validate_coordination_sound digest_of plan others at signers fine in
    let (actor, committed) = first.sound.backed p a revealed in
    let (other, promised) = second.sound.backed p b shown in
    collision_free p actor other a b (commitment_of (sym committed ∙ (same ∙ promised)))
  where
    commitment_of :
        {x y c d : String} → Path (Option (String × String)) (some (x, c)) (some (y, d)) → c ≡ d
    commitment_of h = cc
