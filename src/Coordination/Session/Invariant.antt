-- ===== src/Coordination/Session/Invariant.antt =====
-- What holds of a session as long as no blocker was found.
use mathlib.Core.Bool.{false≢true}
use collective_phase_control.Prelude.{
  ℕ, suc, ◌+◌, ◌≤◌, String, ◌≡◌, refl, sym, ap, ◌∙◌, Bool, true, false, not, none, some, List, [],
  ◌∷◌, arith, any-false, length, ◌==◌, eq_iff, if◌then◌else◌, Bool-cases, inl, inr,
}
use collective_phase_control.Ids.Unique.{IsUnique}
use collective_phase_control.Ids.Dict.{Dict, get, put, values, get-put, length-put, value_of_get}
use collective_phase_control.Coordination.{
  CoordinationPlan, VerificationStatus, TerminationReason, EventType, open_commit, commit,
  close_commit, open_reveal, reveal, exposure, verification, integration, terminate,
  CoordinationEvent, Phase, created, commit_open, commit_closed, reveal_open, verify, integrate,
  terminated,
}
use collective_phase_control.Coordination.Session.{
  Session, transition, on_commit, on_reveal, on_exposure, on_verification, by_plan_principal,
  on_close_commit, on_integration, on_terminate, proposal_commitment_digest, count_at, is_passed,
  is_no_reveal,
}
use collective_phase_control.Coordination.Session.Moves.{
  IsClear, on_commit-IsClear, on_reveal-IsClear, on_exposure-IsClear, on_verification-IsClear,
  by_plan_principal-IsClear, on_close_commit-IsClear, on_integration-IsClear, on_terminate-IsClear,
}

-- the phases behind close_commit, and those behind integration
abbrev pub is_past_commit : Phase → Bool
is_past_commit created = false
is_past_commit commit_open = false
is_past_commit commit_closed = true
is_past_commit reveal_open = true
is_past_commit verify = true
is_past_commit integrate = true
is_past_commit terminated = true

abbrev pub is_integrated : Phase → Bool
is_integrated created = false
is_integrated commit_open = false
is_integrated commit_closed = false
is_integrated reveal_open = false
is_integrated verify = false
is_integrated integrate = true
is_integrated terminated = true

count_at-put :
    (j k : String) (n : ℕ) (d : Dict ℕ)
    → count_at j (put k n d) ≡ (if j == k then n else count_at j d)
unfolding put
count_at-put j k n [] = refl
count_at-put j k n ((i, m) ∷ d) =
    ground (arith, eq_iff k i, eq_iff j i, eq_iff j k, count_at-put j k n d)

module _ (digest_of : List (String × String) → String) (plan : CoordinationPlan) where
  pub record Inv (s : Session) : Type 0 where
    -- each reveal opens a commitment: the recorded digest is that of the revealed artifact
    pub backed :
        (p a : String)
        → get p s.reveals ≡ some a
        → (actor : String) × (get p s.commitments
            ≡ some (actor, proposal_commitment_digest digest_of plan.session_id p actor a))
    -- one proposal for each committed participant, and no participant twice
    pub one_each : length s.commitments ≡ length s.committed_actors
    pub once : IsUnique s.committed_actors
    -- no verifier worked past its capacity
    pub within : (v : String) → count_at v s.verifier_load ≤ count_at v plan.verifier_capacity
    -- enough proposals once the commit phase is closed
    pub enough : is_past_commit s.state ≡ true → plan.required_proposal_count ≤ length s.commitments
    -- once integrated, something was revealed and every revealed artifact passed
    pub some_reveal : is_integrated s.state ≡ true → is_no_reveal s.reveals ≡ false
    pub all_passed :
        is_integrated s.state ≡ true
        → (p a : String) → get p s.reveals ≡ some a
        → is_passed (get a s.verified) ≡ true

  Inv-commit :
      (e : CoordinationEvent) (p c : String) (s : Session)
      → s.state ≡ commit_open
      → IsClear (on_commit digest_of plan e p c s)
      → Inv s
      → Inv (on_commit digest_of plan e p c s)
  Inv-commit e p c s here h v =
      let (_, _, fresh, new_actor, effect) = on_commit-IsClear digest_of plan e p c s h in
      rw effect (record {
        backed = λ q a r.
            let (actor, committed) = v.backed q a r in
            (
              actor,
              get-put p q (e.actor_principal_id, c) s.commitments ∙ elim (Bool-cases (q == p)) [
                | inl same ↦ absurd (not_fresh q fresh ((eq_iff q p).0 same) committed)
                | inr other ↦ rw (other) committed
              ],
            );
        one_each = length-put p (e.actor_principal_id, c) s.commitments fresh ∙ ap suc v.one_each;
        once = (new_actor, v.once);
        within = v.within;
        enough = λ q. absurd (false≢true (ap is_past_commit (sym here) ∙ q));
        some_reveal = v.some_reveal;
        all_passed = v.all_passed;
      })
    where
      not_fresh :
          (q : String) {w : String × String}
          → get p s.commitments ≡ none
          → q ≡ p
          → get q s.commitments ≡ some w
          → ⊥
      not_fresh q fresh same found = cc (ap (λ z. get z s.commitments) same)

  Inv-reveal :
      (e : CoordinationEvent) (p c a : String) (s : Session)
      → s.state ≡ reveal_open
      → IsClear (on_reveal digest_of plan e p c a s)
      → Inv s
      → Inv (on_reveal digest_of plan e p c a s)
  Inv-reveal e p c a s here h v =
      let (_, _, committed, effect) = on_reveal-IsClear digest_of plan e p c a s h in
      rw effect (record {
        backed = λ q b r. elim (Bool-cases (q == p)) [
          | inl same ↦
              let at_p = (eq_iff q p).0 same in
              let artifact : a ≡ b = ground (arith, get-put p q a s.reveals, same, r) in
              (e.actor_principal_id, rw (at_p, ← artifact) committed)
          | inr other ↦ v.backed q b (sym (get-put p q a s.reveals ∙ rw other) ∙ r)
        ];
        one_each = v.one_each;
        once = v.once;
        within = v.within;
        enough = v.enough;
        some_reveal = λ q. absurd (false≢true (ap is_integrated (sym here) ∙ q));
        all_passed = λ q. absurd (false≢true (ap is_integrated (sym here) ∙ q));
      })

  Inv-verification :
      (e : CoordinationEvent) (a : String) (v : VerificationStatus) (s : Session)
      → IsClear (on_verification digest_of plan e a v s)
      → is_past_commit s.state ≡ true
      → Inv s
      → Inv (on_verification digest_of plan e a v s)
  Inv-verification e a v s h past i =
      let (_, _, room, _, effect) = on_verification-IsClear digest_of plan e a v s h in
      rw effect (record {
        backed = i.backed;
        one_each = i.one_each;
        once = i.once;
        within = λ w. ground (
          arith,
          room,
          i.within w,
          eq_iff w e.actor_principal_id,
          count_at-put w e.actor_principal_id (count_at e.actor_principal_id s.verifier_load + 1)
              s.verifier_load,
        );
        enough = λ _. i.enough past;
        some_reveal = λ q. cc;
        all_passed = λ q. cc;
      })

  -- a move that changes the phase alone, to one that is not integrated
  Inv-phase :
      (s : Session) (next : Phase)
      → (is_past_commit next ≡ true → plan.required_proposal_count ≤ length s.commitments)
      → is_integrated next ≡ false
      → Inv s
      → Inv (record s { state = next })
  Inv-phase s next enough early i = record {
    backed = i.backed;
    one_each = i.one_each;
    once = i.once;
    within = i.within;
    enough = enough;
    some_reveal = λ q. absurd (false≢true (sym early ∙ q));
    all_passed = λ q. absurd (false≢true (sym early ∙ q));
  }

  Inv-integration :
      (e : CoordinationEvent) (s : Session)
      → IsClear (on_integration digest_of plan e s)
      → is_past_commit s.state ≡ true
      → Inv s
      → Inv (on_integration digest_of plan e s)
  Inv-integration e s h past i =
      let (_, _, revealed, unpassed, effect) = on_integration-IsClear digest_of plan e s h in
      rw effect (record {
        backed = i.backed;
        one_each = i.one_each;
        once = i.once;
        within = i.within;
        enough = λ _. i.enough past;
        some_reveal = λ _. revealed;
        all_passed = λ _ p a r.
            let failed_none =
              any-false (λ item. not (is_passed (get item s.verified))) a (values s.reveals)
                unpassed (value_of_get p a s.reveals r) in
            ground (arith, failed_none);
      })

  Inv-terminate :
      (e : CoordinationEvent) (reason : TerminationReason) (s : Session)
      → s.state ≡ integrate
      → IsClear (on_terminate digest_of plan e reason s)
      → Inv s
      → Inv (on_terminate digest_of plan e reason s)
  Inv-terminate e reason s here h i =
      let (_, _, effect) = on_terminate-IsClear digest_of plan e reason s h in
      rw effect (record {
        backed = i.backed;
        one_each = i.one_each;
        once = i.once;
        within = i.within;
        enough = λ _. i.enough (ap is_past_commit here);
        some_reveal = λ _. i.some_reveal (ap is_integrated here);
        all_passed = λ _. i.all_passed (ap is_integrated here);
      })

  Inv-exposure :
      (e : CoordinationEvent) (r : String) (s : Session)
      → IsClear (on_exposure digest_of plan e r s)
      → Inv s
      → Inv (on_exposure digest_of plan e r s)
  Inv-exposure e r s h i =
      let (_, _, effect) = on_exposure-IsClear digest_of plan e r s h in
      rw effect (record {
        backed = i.backed;
        one_each = i.one_each;
        once = i.once;
        within = i.within;
        enough = i.enough;
        some_reveal = i.some_reveal;
        all_passed = i.all_passed;
      })

  by_plan-Inv :
      (e : CoordinationEvent) (text : String) (next : Phase) (s : Session)
      → IsClear (by_plan_principal digest_of plan e text next s)
      → (is_past_commit next ≡ true → is_past_commit s.state ≡ true)
      → is_integrated next ≡ false
      → Inv s
      → Inv (by_plan_principal digest_of plan e text next s)
  by_plan-Inv e text next s h past early i =
      let (_, _, effect) = by_plan_principal-IsClear digest_of plan e text next s h in
      rw effect (Inv-phase s next (λ q. i.enough (past q)) early i)

  Inv-close_commit :
      (e : CoordinationEvent) (s : Session)
      → IsClear (on_close_commit digest_of plan e s)
      → Inv s
      → Inv (on_close_commit digest_of plan e s)
  Inv-close_commit e s h i =
      let (_, _, many, effect) = on_close_commit-IsClear digest_of plan e s h in
      rw effect (Inv-phase s commit_closed (λ _. many) refl i)

  -- Every transition that leaves no blocker keeps the invariant.
  pub transition-Inv :
      (e : CoordinationEvent) (kind : EventType) (phase : Phase) (s : Session)
      → s.state ≡ phase
      → IsClear (transition digest_of plan e kind phase s)
      → Inv s
      → Inv (transition digest_of plan e kind phase s)
  unfolding transition
  transition-Inv e open_commit created s here h i = by_plan-Inv e _ commit_open s h (λ q. cc) refl i
  transition-Inv e (commit p c) commit_open s here h i = Inv-commit e p c s here h i
  transition-Inv e close_commit commit_open s here h i = Inv-close_commit e s h i
  transition-Inv e open_reveal commit_closed s here h i =
      by_plan-Inv e _ reveal_open s h (λ q. ap is_past_commit here) refl i
  transition-Inv e (reveal p c a) reveal_open s here h i = Inv-reveal e p c a s here h i
  transition-Inv e (exposure r a) commit_open s here h i = Inv-exposure e r s h i
  transition-Inv e (exposure r a) reveal_open s here h i = Inv-exposure e r s h i
  transition-Inv e (exposure r a) verify s here h i = Inv-exposure e r s h i
  transition-Inv e (verification a v) reveal_open s here h i =
      Inv-verification e a v s h (ap is_past_commit here) i
  transition-Inv e (verification a v) verify s here h i =
      Inv-verification e a v s h (ap is_past_commit here) i
  transition-Inv e (integration a) verify s here h i =
      Inv-integration e s h (ap is_past_commit here) i
  transition-Inv e (terminate r) integrate s here h i = Inv-terminate e r s here h i
  transition-Inv e kind phase s here h i = cc
