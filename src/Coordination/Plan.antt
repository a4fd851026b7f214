-- ===== src/Coordination/Plan.antt =====
-- v6/models.py: coordination_plan_integrity, the checks of a plan document.
use mathlib.Core.Bool.{false≢true}
use mathlib.Core.List.Memᴰ
use collective_phase_control.Prelude.{
  ℕ, ◌≤◌, ◌<◌, String, ◌≡◌, refl, sym, ◌∙◌, inl, inr, true, not, ◌&&◌, Option, none, some, [], ◌∷◌,
  Memᴰ, arith, length, ltb, ◌==◌, eq_iff, if◌then◌else◌, Bool-cases,
}
use collective_phase_control.Ids.{is_repeated, elem, subset, to_set}
use collective_phase_control.Ids.Laws.{elem_iff, subset_elim, Memᴰ-to_set}
use collective_phase_control.Ids.Unique.{IsUnique, IsUnique-of_length}
use collective_phase_control.Ids.Dict.{Dict, get, keys}
use collective_phase_control.Coordination.{CoordinationPlan}

-- the text of the ValueError that coordination_plan_integrity raises, if any
unfoldable pub coordination_plan_integrity : CoordinationPlan → Option String
coordination_plan_integrity plan =
    let participants = to_set plan.participant_principals in
    let verifiers = to_set plan.verifier_principals in
    if is_repeated plan.participant_principals
    then some "coordination participants must be unique"
    else if is_repeated plan.verifier_principals
    then some "coordination verifiers must be unique"
    else if not (
        subset (keys plan.verifier_capacity) verifiers
        && subset verifiers (keys plan.verifier_capacity))
    then some "coordination verifier capacity domain must match verifiers"
    else if not (elem plan.plan_principal_id participants)
    then some "coordination plan principal must be a participant"
    else if not (elem plan.integration_principal_id participants)
    then some "coordination integration principal must be a participant"
    else if ltb (length participants) plan.required_proposal_count
    then some "coordination proposal count exceeds participant count"
    else if not (
        ltb plan.commit_deadline plan.reveal_deadline
        && ltb plan.reveal_deadline plan.termination_deadline)
    then some "coordination deadlines must be strictly ordered"
    else none

get_of_key : (v : String) (d : Dict ℕ) → Memᴰ v (keys d) → (n : ℕ) × (get v d ≡ some n)
get_of_key v [] m = absurd (Memᴰ.not-nil m)
get_of_key v ((k, n) ∷ d) m = elim (Bool-cases (v == k)) [
  | inl here ↦ (n, rw here refl)
  | inr away ↦ elim (Memᴰ.cases_cons m) [
    | inl same ↦ absurd (false≢true (sym away ∙ (eq_iff v k).1 same))
    | inr later ↦ let (c, e) = get_of_key v d later in (c, rw away e)
  ]
]

-- What a plan that passes the checks is like.
pub record IsSoundPlan (plan : CoordinationPlan) : Type 0 where
  pub participants_once : IsUnique plan.participant_principals
  pub verifiers_once : IsUnique plan.verifier_principals
  -- verifier_capacity[principal] and verifier_load[principal] raise no KeyError
  pub capacity :
      (v : String)
      → Memᴰ v plan.verifier_principals
      → (n : ℕ) × (get v plan.verifier_capacity ≡ some n)
  pub planner : Memᴰ plan.plan_principal_id plan.participant_principals
  pub integrator : Memᴰ plan.integration_principal_id plan.participant_principals
  pub enough_participants : plan.required_proposal_count ≤ length plan.participant_principals
  pub commit_first : plan.commit_deadline < plan.reveal_deadline
  pub reveal_next : plan.reveal_deadline < plan.termination_deadline

checks :
    (plan : CoordinationPlan)
    → coordination_plan_integrity plan ≡ none
    → (length (to_set plan.participant_principals) ≡ length plan.participant_principals)
      × (length (to_set plan.verifier_principals) ≡ length plan.verifier_principals)
      × (subset (to_set plan.verifier_principals) (keys plan.verifier_capacity) ≡ true)
      × (elem plan.plan_principal_id (to_set plan.participant_principals) ≡ true)
      × (elem plan.integration_principal_id (to_set plan.participant_principals) ≡ true)
      × (plan.required_proposal_count ≤ length (to_set plan.participant_principals))
      × (plan.commit_deadline < plan.reveal_deadline)
      × (plan.reveal_deadline < plan.termination_deadline)
unfolding coordination_plan_integrity
checks plan h = ground (arith, h)

-- A plan that coordination_plan_integrity accepts has distinct participants and verifiers, a capacity
-- for every verifier, planning and integrating principals among its participants, no more required
-- proposals than participants, and deadlines in order.
pub coordination_plan_integrity-IsSoundPlan :
    (plan : CoordinationPlan) → coordination_plan_integrity plan ≡ none → IsSoundPlan plan
coordination_plan_integrity-IsSoundPlan plan h =
    let (once, verifiers, covered, planner, integrator, enough, first, next) = checks plan h in
    let of_set = λ (x : String). λ (e : elem x (to_set plan.participant_principals) ≡ true).
      (Memᴰ-to_set x plan.participant_principals).0
        ((elem_iff x (to_set plan.participant_principals)).0 e) in
    record {
      participants_once = IsUnique-of_length plan.participant_principals once;
      verifiers_once = IsUnique-of_length plan.verifier_principals verifiers;
      capacity = λ v m. get_of_key v plan.verifier_capacity (
          subset_elim (to_set plan.verifier_principals) (keys plan.verifier_capacity) covered v
            ((Memᴰ-to_set v plan.verifier_principals).1 m));
      planner = of_set plan.plan_principal_id planner;
      integrator = of_set plan.integration_principal_id integrator;
      enough_participants = omega (arith, once, enough);
      commit_first = first;
      reveal_next = next;
    }
