-- ===== src/Runner/Gateway/Active.antt =====
-- What _active_state finds, and which states stand in the dictionary after a mutation.
use collective_phase_control.Prelude.{
  ℕ, ◌≤◌, String, ◌≡◌, refl, sym, ap, ◌∙◌, ◌⊎◌, inl, inr, Bool, true, false, not, ◌&&◌, ◌||◌,
  Option, none, some, List, [], ◌∷◌, Memᴰ, arith, filter, Memᴰ-filter, Memᴰ-cons, eq_iff,
  Bool-cases, ok,
}
use collective_phase_control.Runner.Gateway.{
  RunnerRegistration, leased, queued, completed, TaskStatus, is_leased, RunnerTaskState, Gateway,
  is_some_text, has_key, put_state, is_expired, holds_lease, is_stale, checked_match, active_state,
}

pub Memᴰ-put_state :
    (x s : RunnerTaskState) (states : List RunnerTaskState)
    → Memᴰ x (put_state s states)
    → (x ≡ s) ⊎ Memᴰ x states
unfolding put_state
Memᴰ-put_state x s [] m = inr m
Memᴰ-put_state x s (t ∷ states) m = elim (Bool-cases (has_key s.task.tenant_id s.task.job_id t)) [
  | inl same ↦
      let held : Memᴰ x (s ∷ states) = rw (same) at m in
      ground (arith, Memᴰ-cons x s states, Memᴰ-cons x t states, held)
  | inr other ↦
      let held : Memᴰ x (t ∷ put_state s states) = rw (other) at m in
      ground (
        arith,
        Memᴰ-cons x t (put_state s states),
        Memᴰ-cons x t states,
        Memᴰ-put_state x s states,
        held,
      )
]

pub some_text : (o : Option String) (t : String) → is_some_text o t ≡ true → o ≡ some t
some_text none t h = cc
some_text (some s) t h = ap some ((eq_iff s t).0 h)

leased_of : (status : TaskStatus) → is_leased status ≡ true → status ≡ leased
leased_of queued h = cc
leased_of leased h = refl
leased_of completed h = cc

expiry_of : (at : ℕ) (o : Option ℕ) → is_expired at o ≡ false → (e : ℕ) × (o ≡ some e) × (at ≤ e)
expiry_of at none h = cc
expiry_of at (some e) h = (e, refl, ground (arith, h))

-- an active state is leased by this principal under this lease, which has not run out
pub record IsActive (registration : RunnerRegistration) (lease_id : String) (at : ℕ)
    (s : RunnerTaskState) : Type 0 where
  pub of_tenant : s.task.tenant_id ≡ registration.tenant_id
  pub of_lease : s.lease_id ≡ some lease_id
  pub is_open : s.status ≡ leased
  pub by : s.runner_principal_id ≡ some registration.principal_id
  pub expires_at : ℕ
  pub expiry : s.lease_expires_at ≡ some expires_at
  pub in_time : at ≤ expires_at

fresh_parts :
    (registration : RunnerRegistration) (at : ℕ) (s : RunnerTaskState)
    → is_stale registration at s ≡ false
    → (is_leased s.status ≡ true)
      × (is_some_text s.runner_principal_id registration.principal_id ≡ true)
      × (is_expired at s.lease_expires_at ≡ false)
fresh_parts registration at s h = three _ _ _ h
  where
    three : (a b c : Bool) → not a || not b || c ≡ false → (a ≡ true) × (b ≡ true) × (c ≡ false)
    three true true false h = (refl, refl, refl)
    three true true true h = cc
    three true false c h = cc
    three false b c h = cc

match_elim :
    (registration : RunnerRegistration) (at : ℕ) (matches : List RunnerTaskState)
    (s : RunnerTaskState)
    → checked_match registration at matches ≡ ok s
    → (matches ≡ s ∷ []) × (is_stale registration at s ≡ false)
match_elim registration at [] s h = cc
match_elim registration at (t ∷ []) s h = elim (Bool-cases (is_stale registration at t)) [
  | inl stale ↦ cc (rw (stale) at h)
  | inr fresh ↦
      let same : t ≡ s = cc (rw (fresh) at h) in
      (ap (λ x. x ∷ []) same, ap (is_stale registration at) (sym same) ∙ fresh)
]
match_elim registration at (t ∷ u ∷ us) s h = cc

module _ {S : Type 0} where
  pub active_state_elim :
      (registration : RunnerRegistration) (lease_id : String) (at : ℕ) (gateway : Gateway S)
      (s : RunnerTaskState)
      → active_state registration lease_id at gateway ≡ ok s
      → Memᴰ s gateway.tasks
        × IsActive registration lease_id at s
        × (filter (holds_lease registration.tenant_id lease_id) gateway.tasks ≡ s ∷ [])
  unfolding active_state
  active_state_elim registration lease_id at gateway s h =
      let (only, fresh) = match_elim registration at _ s h in
      let held : Memᴰ s (filter (holds_lease registration.tenant_id lease_id) gateway.tasks) =
        rw (only) (Memᴰ.head refl) in
      let (among, holds) =
        (Memᴰ-filter (holds_lease registration.tenant_id lease_id) s gateway.tasks).0 held in
      let (of_tenant, of_lease) = two _ _ holds in
      let (running, by, in_time) = fresh_parts registration at s fresh in
      let (e, expiry, before) = expiry_of at _ in_time in
      (
        among,
        record {
          of_tenant = (eq_iff _ _).0 of_tenant;
          of_lease = some_text _ _ of_lease;
          is_open = leased_of _ running;
          by = some_text _ _ by;
          expires_at = e;
          expiry = expiry;
          in_time = before;
        },
        only,
      )
    where
      two : (a b : Bool) → a && b ≡ true → (a ≡ true) × (b ≡ true)
      two true true h = (refl, refl)
      two true false h = cc
      two false b h = cc
