-- ===== src/Runner/Gateway/Claims.antt =====
-- What a claim of runner_gateway.py leads to: an active lease of the claimed task, and a task without
-- attempts left that keeps every claim of its tenant from the tasks behind it.
use Prim.Native.String.{compare}
use text.Mathlib.Text.{is_le}
use collective_phase_control.Prelude.{
  and_left, ℕ, ◌≤◌, ◌<◌, String, ◌≡◌, refl, sym, ap, ◌∙◌, ◌⊎◌, inl, inr, true, false, some, List,
  [], ◌∷◌, Memᴰ, Memᴰ-cons, Memᴰ-filter, not-Memᴰ-nil, arith, leb, ltb, filter, eq_iff, Bool-cases,
  raised,
}
use collective_phase_control.Runner.Gateway.{
  RunnerRegistration, leased, RunnerTaskState, Services, Gateway,
}
use collective_phase_control.Runner.Gateway.Claim.{
  is_candidate, least, next_candidate, claim_state, claim,
}

-- t comes behind s in the order of job identifiers
pub record IsBehind (s t : RunnerTaskState) : Type 0 where
  pub le : is_le (compare s.task.job_id t.task.job_id) ≡ true
  pub not_ge : is_le (compare t.task.job_id s.task.job_id) ≡ false

-- the least element is found, wherever it stands
least_found :
    (s t : RunnerTaskState) (states : List RunnerTaskState)
    → Memᴰ s (t ∷ states)
    → ((x : RunnerTaskState) → Memᴰ x (t ∷ states) → (x ≡ s) ⊎ IsBehind s x)
    → least t states ≡ s
unfolding least
least_found s t [] m h = elim ((Memᴰ-cons s t []).0 m) [
  | inl e ↦ sym e
  | inr none_left ↦ absurd (not-Memᴰ-nil s none_left)
]
least_found s t (u ∷ states) m h = elim (h t (Memᴰ.head refl)) [
  | inl t_least ↦ elim (h u (Memᴰ.tail (Memᴰ.head refl))) [
    | inl u_least ↦ elim (Bool-cases (is_le (compare t.task.job_id u.task.job_id))) [
      | inl before ↦ rw (before) (least_found s t states (Memᴰ.head (sym t_least)) (without_second))
      | inr after ↦
          rw (after) (least_found s u states (Memᴰ.head (sym u_least)) (λ x k. h x (Memᴰ.tail k)))
    ]
    | inr u_behind ↦
        let before : is_le (compare t.task.job_id u.task.job_id) ≡ true =
          ap (λ x. is_le (compare x.task.job_id u.task.job_id)) t_least ∙ u_behind.le in
        rw (before) (least_found s t states (Memᴰ.head (sym t_least)) (without_second))
  ]
  | inr t_behind ↦ elim (Bool-cases (is_le (compare t.task.job_id u.task.job_id))) [
    | inl before ↦ rw (before) (least_found s t states (kept t_behind before) (without_second))
    | inr after ↦ rw (after) (least_found s u states (dropped t_behind) (λ x k. h x (Memᴰ.tail k)))
  ]
]
  where
    without_second : (x : RunnerTaskState) → Memᴰ x (t ∷ states) → (x ≡ s) ⊎ IsBehind s x
    without_second x (Memᴰ.head e) = h x (Memᴰ.head e)
    without_second x (Memᴰ.tail k) = h x (Memᴰ.tail (Memᴰ.tail k))

    differs : IsBehind s t → s ≡ t → ⊥
    differs b e =
        let same = ap (λ x. is_le (compare x.task.job_id t.task.job_id)) e in
        let other = ap (λ x. is_le (compare t.task.job_id x.task.job_id)) e in
        cc (sym same ∙ b.le, sym other ∙ b.not_ge)

    dropped : IsBehind s t → Memᴰ s (u ∷ states)
    dropped b = elim ((Memᴰ-cons s t (u ∷ states)).0 m) [ inl e ↦ absurd (differs b e) | inr k ↦ k ]

    kept : IsBehind s t → is_le (compare t.task.job_id u.task.job_id) ≡ true → Memᴰ s (t ∷ states)
    kept b before = elim ((Memᴰ-cons s u states).0 (dropped b)) [
      | inl e ↦
          absurd
            (cc (sym (ap (λ x. is_le (compare t.task.job_id x.task.job_id)) e) ∙ b.not_ge, before))
      | inr k ↦ Memᴰ.tail k
    ]

module _ {S : Type 0} {J : Type 0} (services : Services S J) where
  claim_of_next :
      (r : RunnerRegistration) (lease_id : String) (at : ℕ) (gateway : Gateway S)
      (s : RunnerTaskState)
      → next_candidate (filter (is_candidate r.tenant_id at) gateway.tasks) ≡ some s
      → 32 ≤ s.attempt
      → claim services r lease_id at gateway ≡ (raised "runner_attempt_limit_exhausted", gateway)
  unfolding claim claim_state
  claim_of_next r lease_id at gateway s next spent =
      let test : leb 32 s.attempt ≡ true = ground (arith, spent) in
      rw (claim, next, claim_state, test) refl

  next_of_least :
      (r : RunnerRegistration) (at : ℕ) (tasks : List RunnerTaskState) (s : RunnerTaskState)
      → Memᴰ s (filter (is_candidate r.tenant_id at) tasks)
      → ((x : RunnerTaskState)
          → Memᴰ x (filter (is_candidate r.tenant_id at) tasks)
          → (x ≡ s) ⊎ IsBehind s x)
      → next_candidate (filter (is_candidate r.tenant_id at) tasks) ≡ some s
  unfolding next_candidate
  next_of_least r at tasks s m h = go (filter (is_candidate r.tenant_id at) tasks) m h
    where
      go :
          (states : List RunnerTaskState)
          → Memᴰ s states
          → ((x : RunnerTaskState) → Memᴰ x states → (x ≡ s) ⊎ IsBehind s x)
          → next_candidate states ≡ some s
      go [] m h = absurd (not-Memᴰ-nil s m)
      go (t ∷ states) m h = ap some (least_found s t states m h)

  -- A task that has had 32 attempts, and whose lease has run out, is never claimed again, and where
  -- its identifier is the least among the tasks of its tenant, no task of the tenant is: from then
  -- on each claim, at any time, raises runner_attempt_limit_exhausted and changes nothing.
  pub exhausted_task_blocks :
      (r : RunnerRegistration) (lease_id : String) (at expired_at : ℕ) (gateway : Gateway S)
      (s : RunnerTaskState)
      → Memᴰ s gateway.tasks
      → s.task.tenant_id ≡ r.tenant_id
      → s.status ≡ leased
      → s.lease_expires_at ≡ some expired_at
      → 32 ≤ s.attempt
      → ((x : RunnerTaskState)
          → Memᴰ x gateway.tasks
          → x.task.tenant_id ≡ r.tenant_id
          → (x ≡ s) ⊎ IsBehind s x)
      → expired_at < at
      → claim services r lease_id at gateway ≡ (raised "runner_attempt_limit_exhausted", gateway)
  exhausted_task_blocks r lease_id at expired_at gateway s m tenant status expiry spent least late =
      let same = (eq_iff s.task.tenant_id r.tenant_id).1 tenant in
      let ended : ltb expired_at at ≡ true = ground (arith, late) in
      let candidate : is_candidate r.tenant_id at s ≡ true =
        rw (same, status, expiry, ended) refl in
      let among = (Memᴰ-filter (is_candidate r.tenant_id at) s gateway.tasks).1 (m, candidate) in
      claim_of_next r lease_id at gateway s
        (next_of_least r at gateway.tasks s among (λ x k.
          let (known, open_for) = (Memᴰ-filter (is_candidate r.tenant_id at) x gateway.tasks).0 k in
          least x known ((eq_iff x.task.tenant_id r.tenant_id).0 (and_left _ _ open_for))))
        spent
