-- ===== src/Coordination/Session/Satisfied.antt =====
-- What a session that validate_coordination calls satisfied has gone through.
use mathlib.Core.List.Memᴰ
use collective_phase_control.Prelude.{
  ℕ, ◌≤◌, String, ◌≡◌, refl, subst, inl, inr, true, false, Option, List, [], ◌∷◌, Memᴰ, arith,
  filter, ◌==◌, if◌then◌else◌,
}
use collective_phase_control.Ids.{elem, to_set}
use collective_phase_control.Ids.Dict.{Dict}
use collective_phase_control.Coordination.{
  CoordinationPlan, EventType, open_commit, commit, close_commit, open_reveal, reveal, exposure,
  verification, integration, terminate, CoordinationEvent, Phase, created, commit_open,
  commit_closed, reveal_open, verify, integrate, terminated,
}
use collective_phase_control.Coordination.Chain.{ordered_events}
use collective_phase_control.Coordination.Session.{
  Session, transition, check_event, step, run, start, zero_load, finish, validate_session,
  validate_coordination, satisfied, violated, count_at, is_later, is_unsigned, is_no_text,
}
use collective_phase_control.Coordination.Session.Moves.{
  IsClear, check_event_clear, on_commit-IsClear, on_reveal-IsClear, on_exposure-IsClear,
  on_verification-IsClear, by_plan_principal-IsClear, on_close_commit-IsClear,
  on_integration-IsClear, on_terminate-IsClear,
}
use collective_phase_control.Coordination.Session.Invariant.{Inv, transition-Inv}

module _ (digest_of : List (String × String) → String) (plan : CoordinationPlan) where
  transition-IsClear :
      (e : CoordinationEvent) (kind : EventType) (phase : Phase) (s : Session)
      → IsClear (transition digest_of plan e kind phase s)
      → IsClear s
  unfolding transition
  transition-IsClear e open_commit created s h =
      (by_plan_principal-IsClear digest_of plan e _ commit_open s h).0
  transition-IsClear e (commit p c) commit_open s h = (on_commit-IsClear digest_of plan e p c s h).0
  transition-IsClear e close_commit commit_open s h =
      (on_close_commit-IsClear digest_of plan e s h).0
  transition-IsClear e open_reveal commit_closed s h =
      (by_plan_principal-IsClear digest_of plan e _ reveal_open s h).0
  transition-IsClear e (reveal p c a) reveal_open s h =
      (on_reveal-IsClear digest_of plan e p c a s h).0
  transition-IsClear e (exposure r a) commit_open s h =
      (on_exposure-IsClear digest_of plan e r s h).0
  transition-IsClear e (exposure r a) reveal_open s h =
      (on_exposure-IsClear digest_of plan e r s h).0
  transition-IsClear e (exposure r a) verify s h = (on_exposure-IsClear digest_of plan e r s h).0
  transition-IsClear e (verification a v) reveal_open s h =
      (on_verification-IsClear digest_of plan e a v s h).0
  transition-IsClear e (verification a v) verify s h =
      (on_verification-IsClear digest_of plan e a v s h).0
  transition-IsClear e (integration a) verify s h = (on_integration-IsClear digest_of plan e s h).0
  transition-IsClear e (terminate r) integrate s h = (on_terminate-IsClear digest_of plan e r s h).0
  transition-IsClear e kind phase s h = cc

  module _ (signers : Option (Dict (List String))) (at : ℕ) where
    abbrev checked : Session → CoordinationEvent → Session
    checked s e = check_event digest_of plan signers at e s

    -- the event took place by `at`, and its actor is registered and signed it
    pub record IsAdmitted (e : CoordinationEvent) : Type 0 where
      pub happened : e.occurred_at ≤ at
      pub registered : elem e.actor_principal_id plan.participant_principals ≡ true
      pub signed : is_unsigned signers e.digest e.actor_principal_id ≡ false

    step-IsClear :
        (s : Session) (e : CoordinationEvent)
        → IsClear (step digest_of plan signers at s e)
        → IsClear (checked s e)
          × IsClear s
          × IsAdmitted e
          × (is_later e.occurred_at s.previous_time ≡ false)
    unfolding step
    step-IsClear s e h =
        let clear = transition-IsClear e e.event_type (checked s e).state (checked s e) h in
        let (effect, in_order, past, actor, sign) =
          check_event_clear digest_of plan signers at e s clear in
        (
          clear,
          (subst IsClear effect clear),
          record { happened = ground (arith, past); registered = actor; signed = sign },
          in_order,
        )

    step-Inv :
        (s : Session) (e : CoordinationEvent)
        → IsClear (step digest_of plan signers at s e)
        → Inv digest_of plan s
        → Inv digest_of plan (step digest_of plan signers at s e)
    step-Inv s e h i =
        let (clear, _, _, _) = step-IsClear s e h in
        let effect = (check_event_clear digest_of plan signers at e s clear).0 in
        unfold step in
        transition-Inv digest_of plan e e.event_type (checked s e).state (checked s e) refl
          (unfold step in h)
          (rw effect (record {
            backed = i.backed;
            one_each = i.one_each;
            once = i.once;
            within = i.within;
            enough = i.enough;
            some_reveal = i.some_reveal;
            all_passed = i.all_passed;
          }))

    run-IsClear :
        (s : Session) (events : List CoordinationEvent)
        → IsClear (run digest_of plan signers at s events)
        → IsClear s
    unfolding run
    run-IsClear s [] h = h
    run-IsClear s (e ∷ events) h =
        (step-IsClear s e (run-IsClear (step digest_of plan signers at s e) events h)).1

    run-Inv :
        (s : Session) (events : List CoordinationEvent)
        → IsClear (run digest_of plan signers at s events)
        → Inv digest_of plan s
        → Inv digest_of plan (run digest_of plan signers at s events)
    unfolding run
    run-Inv s [] h i = i
    run-Inv s (e ∷ events) h i =
        run-Inv (step digest_of plan signers at s e) events h
          (step-Inv s e (run-IsClear _ events h) i)

    run-IsAdmitted :
        (s : Session) (events : List CoordinationEvent)
        → IsClear (run digest_of plan signers at s events)
        → (e : CoordinationEvent) → Memᴰ e events
        → IsAdmitted e
    unfolding run
    run-IsAdmitted s [] h e m = absurd (Memᴰ.not-nil m)
    run-IsAdmitted s (d ∷ events) h e m = elim (Memᴰ.cases_cons m) [
      | inl here ↦
          rw here (step-IsClear s d (run-IsClear (step digest_of plan signers at s d) events h)).2
      | inr later ↦ run-IsAdmitted (step digest_of plan signers at s d) events h e later
    ]

    zero_count : (v : String) (ps : List String) → count_at v (zero_load ps) ≡ 0
    unfolding zero_load
    zero_count v [] = refl
    zero_count v (p ∷ ps) = ground (arith, zero_count v ps)

    start-Inv : (bs : List String) → Inv digest_of plan (start digest_of plan signers at bs)
    unfolding start
    start-Inv bs = record {
      backed = λ p a h. cc;
      one_each = refl;
      once = tt;
      within = λ v. omega (arith, zero_count v (to_set plan.verifier_principals));
      enough = λ q. cc;
      some_reveal = λ q. cc;
      all_passed = λ q. cc;
    }

    abbrev pub events_of : List CoordinationEvent → List CoordinationEvent
    events_of events = filter (λ e. e.session_id == plan.session_id) events

    -- the session behind the loop of validate_coordination
    abbrev pub session_of : List CoordinationEvent → Session
    session_of events =
        let chain = ordered_events (events_of events) in
        run digest_of plan signers at
          (start digest_of plan signers at (
            if is_unsigned signers plan.digest plan.plan_principal_id
            then "coordination_plan_signer_mismatch" ∷ chain.blockers
            else chain.blockers))
          chain.ordered

    -- What a satisfied session has been through: its chain of events is sound, each event is
    -- admitted, it ended terminated within the exposure limit, and the invariant holds of it.
    pub record IsSatisfied (events : List CoordinationEvent) : Type 0 where
      pub chained : (ordered_events (events_of events)).blockers ≡ []
      pub plan_signed : is_unsigned signers plan.digest plan.plan_principal_id ≡ false
      pub admitted :
          (e : CoordinationEvent)
          → Memᴰ e (ordered_events (events_of events)).ordered
          → IsAdmitted e
      pub ended : (session_of events).state ≡ terminated
      pub exposed : (session_of events).exposure_count ≤ plan.maximum_exposures
      pub sound : Inv digest_of plan (session_of events)

    finish-IsClear :
        (s : Session)
        → IsClear (finish digest_of plan signers at s)
        → IsClear s × (s.state ≡ terminated) × (s.exposure_count ≤ plan.maximum_exposures)
    unfolding finish
    finish-IsClear s h = ground (arith, h)

    start_clear :
        (bs : List String)
        → IsClear (
            start digest_of plan signers at (
              if is_unsigned signers plan.digest plan.plan_principal_id
              then "coordination_plan_signer_mismatch" ∷ bs
              else bs))
        → (bs ≡ []) × (is_unsigned signers plan.digest plan.plan_principal_id ≡ false)
    unfolding start
    start_clear bs h = ground (arith, h)

    satisfied_clear :
        (bs : List String) → (if is_no_text bs then satisfied else violated) ≡ satisfied → bs ≡ []
    unfolding is_no_text
    satisfied_clear [] h = refl
    satisfied_clear (b ∷ bs) h = cc

    session_clear :
        (events : List CoordinationEvent)
        → IsClear (finish digest_of plan signers at (session_of events))
        → IsSatisfied events
    session_clear events h =
        let (clear, ended, exposed) = finish-IsClear (session_of events) h in
        let chain = ordered_events (events_of events) in
        let begun = run-IsClear _ chain.ordered clear in
        let (chained, plan_signed) = start_clear chain.blockers begun in
        record {
          chained = chained;
          plan_signed = plan_signed;
          admitted = run-IsAdmitted _ chain.ordered clear;
          ended = ended;
          exposed = exposed;
          sound = run-Inv _ chain.ordered clear (start-Inv _);
        }

pub validate_coordination_sound :
    (digest_of : List (String × String) → String) (plan : CoordinationPlan)
    (events : List CoordinationEvent) (at : ℕ) (signers : Option (Dict (List String)))
    → (validate_coordination digest_of (plan ∷ []) events at signers).status ≡ satisfied
    → IsSatisfied digest_of plan signers at events
unfolding validate_coordination validate_session
validate_coordination_sound digest_of plan events at signers h =
    session_clear digest_of plan signers at events (satisfied_clear digest_of plan signers at _ h)
