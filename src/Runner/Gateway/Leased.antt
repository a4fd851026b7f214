-- ===== src/Runner/Gateway/Leased.antt =====
-- A claim of runner_gateway.py that succeeds gives the runner an active lease.
use collective_phase_control.Prelude.{
  and_left, ℕ, ◌+◌, ◌≤◌, String, ◌≡◌, refl, sym, ap, subst, ◌∙◌, inl, inr, Bool, true, false, some,
  Option-cases, List, [], ◌∷◌, Memᴰ, Memᴰ-cons, not-Memᴰ-nil, arith, leb, ltb, filter, eq_iff,
  Bool-cases, Outcome, ok, raised, Outcome-cases, raised≢ok,
}
use collective_phase_control.Runner.Gateway.{
  RunnerRegistration, SignedStatement, RunnerTaskState, Services, Gateway, has_key, put_state,
  holds_lease, is_stale, active_state, mutate,
}
use collective_phase_control.Runner.Gateway.Claim.{
  RunnerClaim, is_candidate, next_candidate, leased_state, job_of, bound_state, signed_job,
  claim_state, claim,
}
use collective_phase_control.Runner.Gateway.Validation.{is_valid_spec}
use collective_phase_control.Runner.Gateway.Completion.{same_key}
use collective_phase_control.Runner.Gateway.Reachable.{next_is_candidate}

filter_none :
    (p : RunnerTaskState → Bool) (states : List RunnerTaskState)
    → ((x : RunnerTaskState) → Memᴰ x states → p x ≡ false)
    → filter p states ≡ []
filter_none p [] h = refl
filter_none p (x ∷ states) h =
    rw (h x (Memᴰ.head refl)) (filter_none p states (λ y m. h y (Memᴰ.tail m)))

-- a state that is put alone passes a test that none passed before
pub filter-put_state :
    (p : RunnerTaskState → Bool) (s t : RunnerTaskState) (states : List RunnerTaskState)
    → ((x : RunnerTaskState) → Memᴰ x states → p x ≡ false)
    → p s ≡ true
    → Memᴰ t states
    → has_key s.task.tenant_id s.task.job_id t ≡ true
    → filter p (put_state s states) ≡ s ∷ []
unfolding put_state
filter-put_state p s t [] h passes m key = absurd (not-Memᴰ-nil t m)
filter-put_state p s t (u ∷ states) h passes m key =
    let none_behind = filter_none p states (λ y k. h y (Memᴰ.tail k)) in
    let u_fails = h u (Memᴰ.head refl) in
    elim (Bool-cases (has_key s.task.tenant_id s.task.job_id u)) [
      | inl same ↦ rw (same, passes, none_behind) refl
      | inr other ↦
          let behind : Memᴰ t states = ground (
            arith,
            key,
            other,
            m,
            Memᴰ-cons t u states,
            λ (e : t ≡ u). ap (has_key s.task.tenant_id s.task.job_id) e,
          ) in
          rw (other, u_fails)
            (filter-put_state p s t states (λ y k. h y (Memᴰ.tail k)) passes behind key)
    ]

module _ {S : Type 0} where
  pub active_of_match :
      (r : RunnerRegistration) (lease_id : String) (at : ℕ) (gateway : Gateway S)
      (s : RunnerTaskState)
      → filter (holds_lease r.tenant_id lease_id) gateway.tasks ≡ s ∷ []
      → is_stale r at s ≡ false
      → active_state r lease_id at gateway ≡ ok s
  unfolding active_state
  active_of_match r lease_id at gateway s only fresh = rw (active_state, only, fresh) refl

-- what a claim yields, and the state that it puts
pub record IsClaimed (r : RunnerRegistration) (lease_id : String) (at : ℕ)
    (tasks after : List RunnerTaskState) (c : RunnerClaim) : Type 0 where
  pub state : RunnerTaskState
  pub among : Memᴰ state tasks
  pub of_tenant : state.task.tenant_id ≡ r.tenant_id
  pub made : c.job ≡ job_of lease_id at state
  pub statement : SignedStatement
  pub put :
      after
      ≡ put_state
          (bound_state
            (job_of lease_id at state)
            statement
            (leased_state r.principal_id lease_id at state))
          tasks

module _ {S : Type 0} {J : Type 0} (services : Services S J) where
  spent_claim :
      (r : RunnerRegistration) (lease_id : String) (at : ℕ) (gateway : Gateway S)
      (s : RunnerTaskState)
      → leb 32 s.attempt ≡ true
      → (claim_state services r lease_id at s gateway).0 ≡ raised "runner_attempt_limit_exhausted"
  unfolding claim_state
  spent_claim r lease_id at gateway s spent = rw (claim_state, spent) refl

  pub unvalidated_claim :
      (r : RunnerRegistration) (lease_id : String) (at : ℕ) (gateway : Gateway S)
      (s : RunnerTaskState)
      → leb 32 s.attempt ≡ false
      → is_valid_spec services (job_of lease_id at s).spec ≡ false
      → claim_state services r lease_id at s gateway ≡ (
        raised (services.validation_error (job_of lease_id at s).spec),
        mutate (leased_state r.principal_id lease_id at s) gateway,
      )
  unfolding claim_state
  unvalidated_claim r lease_id at gateway s left invalid = rw (claim_state, left, invalid) refl

  unsigned_claim :
      (r : RunnerRegistration) (lease_id : String) (at : ℕ) (gateway : Gateway S)
      (s : RunnerTaskState) (code : String)
      → leb 32 s.attempt ≡ false
      → is_valid_spec services (job_of lease_id at s).spec ≡ true
      → signed_job services (job_of lease_id at s) at ≡ raised code
      → (claim_state services r lease_id at s gateway).0 ≡ raised code
  unfolding claim_state
  unsigned_claim r lease_id at gateway s code left valid e = rw (claim_state, left, valid, e) refl

  signed_claim :
      (r : RunnerRegistration) (lease_id : String) (at : ℕ) (gateway : Gateway S)
      (s : RunnerTaskState) (statement : SignedStatement)
      → leb 32 s.attempt ≡ false
      → is_valid_spec services (job_of lease_id at s).spec ≡ true
      → signed_job services (job_of lease_id at s) at ≡ ok statement
      → claim_state services r lease_id at s gateway ≡ (
        ok (record { job = job_of lease_id at s; job_statement = statement }),
        mutate
            (bound_state
              (job_of lease_id at s)
              statement
              (leased_state r.principal_id lease_id at s))
            gateway,
      )
  unfolding claim_state
  signed_claim r lease_id at gateway s statement left valid e =
      rw (claim_state, left, valid, e) refl

  claim_state_elim :
      (r : RunnerRegistration) (lease_id : String) (at : ℕ) (gateway : Gateway S)
      (s : RunnerTaskState) (c : RunnerClaim)
      → Memᴰ s gateway.tasks
      → s.task.tenant_id ≡ r.tenant_id
      → (claim_state services r lease_id at s gateway).0 ≡ ok c
      → IsClaimed r lease_id at gateway.tasks
          (claim_state services r lease_id at s gateway).1.tasks
          c
  claim_state_elim r lease_id at gateway s c m tenant h = elim (Bool-cases (leb 32 s.attempt)) [
    | inl spent ↦ absurd (raised≢ok _ _ (sym (spent_claim r lease_id at gateway s spent) ∙ h))
    | inr left ↦ elim (Bool-cases (is_valid_spec services (job_of lease_id at s).spec)) [
      | inr invalid ↦ absurd (
          raised≢ok _ _
            (sym (ap (λ p. p.0) (unvalidated_claim r lease_id at gateway s left invalid)) ∙ h))
      | inl valid ↦ elim (Outcome-cases (signed_job services (job_of lease_id at s) at)) [
        | inl (code, e) ↦
            absurd
              (raised≢ok _ _ (sym (unsigned_claim r lease_id at gateway s code left valid e) ∙ h))
        | inr (statement, e) ↦
            claimed_with statement (signed_claim r lease_id at gateway s statement left valid e)
      ]
    ]
  ]
    where
      ok_injective : (a b : RunnerClaim) → Path (Outcome RunnerClaim) (ok a) (ok b) → a ≡ b
      ok_injective a b k = cc

      claimed_with :
          (statement : SignedStatement)
          → claim_state services r lease_id at s gateway ≡ (
            ok (record { job = job_of lease_id at s; job_statement = statement }),
            mutate
                (bound_state
                  (job_of lease_id at s)
                  statement
                  (leased_state r.principal_id lease_id at s))
                gateway,
          )
          → IsClaimed r lease_id at gateway.tasks
              (claim_state services r lease_id at s gateway).1.tasks
              c
      claimed_with statement made =
          let same = ok_injective _ _ (sym (ap (λ p. p.0) made) ∙ h) in
          record {
            state = s;
            among = m;
            of_tenant = tenant;
            made = sym (ap (λ x. x.job) same);
            statement = statement;
            put = ap (λ p. p.1.tasks) made;
          }

  claim_elim :
      (r : RunnerRegistration) (lease_id : String) (at : ℕ) (gateway : Gateway S) (c : RunnerClaim)
      → (claim services r lease_id at gateway).0 ≡ ok c
      → IsClaimed r lease_id at gateway.tasks (claim services r lease_id at gateway).1.tasks c
  unfolding claim
  claim_elim r lease_id at gateway c h =
      elim (Option-cases (next_candidate (filter (is_candidate r.tenant_id at) gateway.tasks))) [
        | inl e ↦ cc (rw (claim, e) at h)
        | inr (s, e) ↦
            let (among, candidate) = next_is_candidate r.tenant_id at gateway.tasks s e in
            rw (claim, e)
              (claim_state_elim r lease_id at gateway s c among
                ((eq_iff s.task.tenant_id r.tenant_id).0 (and_left _ _ candidate))
                (rw (claim, e) at h))
      ]

  -- After a claim under a lease identifier that no task of the tenant had, the lease is active for
  -- the runner up to the expiry in the job, in a state that is bound to that job.
  pub claim_gives_lease :
      (r : RunnerRegistration) (lease_id : String) (at later : ℕ) (gateway : Gateway S)
      (c : RunnerClaim)
      → ((x : RunnerTaskState) → Memᴰ x gateway.tasks → holds_lease r.tenant_id lease_id x ≡ false)
      → (claim services r lease_id at gateway).0 ≡ ok c
      → later ≤ c.job.spec.lease_expires_at
      → (s : RunnerTaskState) × (active_state r lease_id later
            (claim services r lease_id at gateway).1
          ≡ ok s)
        × (s.job ≡ some c.job)
  claim_gives_lease r lease_id at later gateway c fresh h in_time =
      let k = claim_elim r lease_id at gateway c h in
      let after = (claim services r lease_id at gateway).1 in
      let s =
        bound_state (job_of lease_id at k.state) k.statement
          (leased_state r.principal_id lease_id at k.state) in
      let tenant = (eq_iff k.state.task.tenant_id r.tenant_id).1 k.of_tenant in
      let own = (eq_iff lease_id lease_id).1 refl in
      let holds : holds_lease r.tenant_id lease_id s ≡ true = rw (tenant, own) refl in
      let only =
        filter-put_state (holds_lease r.tenant_id lease_id) s k.state gateway.tasks fresh holds
          k.among (same_key k.state) in
      let until : later ≤ at + k.state.task.lease_seconds =
        subst (λ j. later ≤ j.spec.lease_expires_at) k.made in_time in
      let test : ltb (at + k.state.task.lease_seconds) later ≡ false = ground (arith, until) in
      let valid : is_stale r later s ≡ false =
        rw ((eq_iff r.principal_id r.principal_id).1 refl, test) refl in
      (
        s,
        active_of_match r lease_id later after s
            (ap (filter (holds_lease r.tenant_id lease_id)) k.put ∙ only) valid,
        ap some (sym k.made),
      )
