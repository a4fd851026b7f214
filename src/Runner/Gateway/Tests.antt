-- ===== src/Runner/Gateway/Tests.antt =====
-- Two tenants, each with a task "job" and a runner; the claims, the first tenant's completion, and the
-- second tenant's, which is refused for the first's; and a task whose attempts are used up.
use mathlib.Core.List.Memᴰ
use collective_phase_control.Prelude.{
  Memᴰ-cons, not-Memᴰ-nil, filter, false, String, ◌≡◌, refl, sym, subst, inl, inr, true, false,
  some, List, [], ◌∷◌, Memᴰ, arith, ok, raised, ◌⊎◌,
}
use collective_phase_control.Ids.{to_set, sorted}
use collective_phase_control.Runner.Receipt.{
  is_prior, validate_receipt, digest_reasons, lease_reasons, image_reasons, artifact_reasons,
  expected_materials, output_artifacts, total_length, limit_reasons, cleanup_reasons,
  classified_outcome, outcome_reasons, returned_outcome, selector_outcome,
}
use collective_phase_control.Runner.Gateway.{
  RunnerTaskState, Gateway, put_state, active_state, holds_lease, CachedAnswer, cached_answer,
  idempotent,
}
use collective_phase_control.Runner.Gateway.Dispatch.{new_state, dispatch, task_materials}
use collective_phase_control.Runner.Gateway.Claim.{
  claim, next_candidate, is_candidate, leased_state, bound_state, least, RunnerClaim, job_of,
}
use collective_phase_control.Runner.Gateway.Lease.{record_artifact}
use collective_phase_control.Runner.Gateway.Complete.{
  complete, artifact_lengths, available_digests, output_document, pending_digests_of,
  RunnerCompletion,
}
use collective_phase_control.Runner.Receipt.Conformant.{IsConformant, validate_receipt_sound}
use collective_phase_control.Runner.Gateway.Completion.{IsCompletion, complete_sound}
use collective_phase_control.Runner.Gateway.Once.{complete_once, replay_refused}
use collective_phase_control.Runner.Gateway.Claims.{IsBehind, exhausted_task_blocks}
use collective_phase_control.Runner.Gateway.Replay.{idempotent_replay, request, no_more}
use collective_phase_control.Runner.Gateway.Leased.{claim_gives_lease}
use collective_phase_control.Runner.Gateway.Unbound.{invalid_task_strands}
use collective_phase_control.Runner.Gateway.Validation.{
  is_valid_spec, is_valid_lease_part, is_valid_task_part,
}
use collective_phase_control.Runner.Gateway.Invariant.{IsSound, is_valid_task}
use collective_phase_control.Runner.Gateway.Reachable.{
  Reachable, opened, dispatched, claimed, recorded, ended, Reachable-IsSound,
}
use collective_phase_control.Runner.Gateway.Desk.{
  statement_of, capability_for, policy_for, task_for, runner_of, receipt, Store, desk, plain,
}

abbrev empty : Gateway Store
empty = record {
  registrations = [];
  tasks = [];
  completed_attempts = [];
  objects = "capability-statement" ∷ "policy-statement" ∷ "log" ∷ "output" ∷ [];
}

abbrev queue : Gateway Store
queue = (dispatch desk (task_for "b") 1 (dispatch desk (task_for "a") 1 empty).1).1

abbrev first_leased : Gateway Store
first_leased = (claim desk (runner_of "a") "lease" 10 queue).1

abbrev both_leased : Gateway Store
both_leased = (claim desk (runner_of "b") "lease" 10 first_leased).1

abbrev uploaded : Gateway Store
uploaded =
    (record_artifact desk (runner_of "b") "lease" "output" 12
      (record_artifact desk (runner_of "b") "lease" "log" 12
        (record_artifact desk (runner_of "a") "lease" "output" 12
          (record_artifact desk (runner_of "a") "lease" "log" 12 both_leased).1).1).1).1

abbrev reached : Reachable desk plain uploaded
reached = recorded (runner_of "b") "lease" "output" 12 (
    recorded (runner_of "b") "lease" "log" 12 (
      recorded (runner_of "a") "lease" "output" 12 (
        recorded (runner_of "a") "lease" "log" 12 (
          claimed (runner_of "b") "lease" 10 refl (
            claimed (runner_of "a") "lease" 10 refl (
              dispatched (task_for "b") 1 (dispatched (task_for "a") 1 (opened empty.objects))))))))

Reachable-IsSound_example : IsSound desk uploaded
Reachable-IsSound_example = Reachable-IsSound desk plain uploaded reached

abbrev first_claim : RunnerClaim
first_claim = record {
  job = job_of "lease" 10 (new_state (task_for "a"));
  job_statement = statement_of "job-statement";
}

claimed_first : (claim desk (runner_of "a") "lease" 10 queue).0 ≡ ok first_claim
unfolding claim is_valid_spec is_valid_lease_part is_valid_task_part dispatch task_materials to_set
    least
claimed_first = refl

abbrev answer : RunnerCompletion
answer = record {
  conformance = record { accepted = true; code = "runner_receipt_conformant"; reasons = [] };
  receipt_statement_digest = "receipt-statement";
  pending_projection_statement_digests = [];
}

completed_first :
    (complete desk plain
      (runner_of "a")
      "lease"
      (statement_of "receipt-statement")
      []
      20
      uploaded).0
    ≡ ok answer
unfolding claim is_valid_spec is_valid_lease_part is_valid_task_part dispatch task_materials to_set
    least complete record_artifact put_state artifact_lengths available_digests output_document
    validate_receipt digest_reasons lease_reasons image_reasons artifact_reasons expected_materials
    output_artifacts sorted total_length limit_reasons cleanup_reasons classified_outcome
    outcome_reasons returned_outcome selector_outcome pending_digests_of
completed_first = refl

-- the other tenant's completion of its own attempt, behind the first
replayed :
    (complete desk plain
      (runner_of "b")
      "lease"
      (statement_of "receipt-statement")
      []
      20
      (complete desk plain
        (runner_of "a")
        "lease"
        (statement_of "receipt-statement")
        []
        20
        uploaded).1).0
    ≡ raised "runner_receipt_nonconformant"
unfolding claim is_valid_spec is_valid_lease_part is_valid_task_part dispatch task_materials to_set
    least complete record_artifact put_state artifact_lengths available_digests output_document
    validate_receipt digest_reasons lease_reasons image_reasons artifact_reasons expected_materials
    output_artifacts sorted total_length limit_reasons cleanup_reasons classified_outcome
    outcome_reasons returned_outcome selector_outcome pending_digests_of
replayed = refl

complete_sound_example :
    IsCompletion desk plain
      (runner_of "a")
      "lease"
      (statement_of "receipt-statement")
      20
      uploaded
      (complete desk plain
        (runner_of "a")
        "lease"
        (statement_of "receipt-statement")
        []
        20
        uploaded).1
complete_sound_example =
    complete_sound desk plain (runner_of "a") "lease" (statement_of "receipt-statement") [] 20
      uploaded answer (Reachable-IsSound desk plain uploaded reached) completed_first

abbrev ended_first : Gateway Store
ended_first =
    (complete desk plain (runner_of "a") "lease" (statement_of "receipt-statement") [] 20
      uploaded).1

complete_once_example :
    (code : String) × (complete desk plain
        (runner_of "a")
        "lease"
        (statement_of "receipt-statement")
        []
        25
        ended_first
      ≡ (raised code, ended_first))
complete_once_example =
    complete_once desk plain (runner_of "a") (runner_of "a") "lease"
      (statement_of "receipt-statement") (statement_of "receipt-statement") [] [] 20 25 uploaded
      answer (Reachable-IsSound desk plain uploaded reached) completed_first refl

abbrev second_state : RunnerTaskState
second_state =
    record (bound_state (job_of "lease" 10 (new_state (task_for "b")))
      (statement_of "job-statement")
      (leased_state "runner" "lease" 10 (new_state (task_for "b")))) {
        artifact_digests = "output" ∷ "log" ∷ [];
      }

second_active : active_state (runner_of "b") "lease" 20 ended_first ≡ ok second_state
unfolding claim is_valid_spec is_valid_lease_part is_valid_task_part dispatch task_materials to_set
    least complete record_artifact put_state artifact_lengths available_digests output_document
    validate_receipt digest_reasons lease_reasons image_reasons artifact_reasons expected_materials
    output_artifacts sorted total_length limit_reasons cleanup_reasons classified_outcome
    outcome_reasons returned_outcome selector_outcome pending_digests_of
second_active = refl

second_prior : is_prior "job" 1 ended_first.completed_attempts ≡ true
unfolding claim is_valid_spec is_valid_lease_part is_valid_task_part dispatch task_materials to_set
    least complete record_artifact put_state artifact_lengths available_digests output_document
    validate_receipt digest_reasons lease_reasons image_reasons artifact_reasons expected_materials
    output_artifacts sorted total_length limit_reasons cleanup_reasons classified_outcome
    outcome_reasons returned_outcome selector_outcome pending_digests_of
second_prior = refl

replay_refused_example :
    (code : String) × (complete desk plain
        (runner_of "b")
        "lease"
        (statement_of "receipt-statement")
        []
        20
        ended_first
      ≡ (raised code, ended_first))
replay_refused_example =
    replay_refused desk plain (runner_of "b") "lease" (statement_of "receipt-statement") [] 20
      ended_first second_state
      (Reachable-IsSound desk plain ended_first
        (ended (runner_of "a") "lease" (statement_of "receipt-statement") [] 20 reached))
      second_active second_prior

-- a task whose 32nd lease has run out, before one that was never claimed
abbrev spent_state : RunnerTaskState
spent_state = record (leased_state "runner" "lease" 10 (new_state (task_for "a"))) { attempt = 32 }

abbrev waiting_state : RunnerTaskState
waiting_state = new_state (record (task_for "a") { job_id = "later" })

abbrev spent : Gateway Store
spent = record empty { tasks = waiting_state ∷ spent_state ∷ [] }

spent_first :
    (x : RunnerTaskState)
    → Memᴰ x spent.tasks
    → x.task.tenant_id ≡ "a"
    → (x ≡ spent_state) ⊎ IsBehind spent_state x
spent_first x (Memᴰ.head e) same =
    inr (subst (IsBehind spent_state) (sym e) (record { le = refl; not_ge = refl }))
spent_first x (Memᴰ.tail (Memᴰ.head e)) same = inl e
spent_first x (Memᴰ.tail (Memᴰ.tail m)) same = absurd (Memᴰ.not-nil m)

exhausted_task_blocks_example :
    claim desk (runner_of "a") "other-lease" 100 spent
    ≡ (raised "runner_attempt_limit_exhausted", spent)
exhausted_task_blocks_example =
    exhausted_task_blocks desk (runner_of "a") "other-lease" 100 70 spent spent_state
      (Memᴰ.tail (Memᴰ.head refl)) refl refl refl (omega arith) spent_first (omega arith)

abbrev waiting : Gateway Store
waiting = record empty { tasks = new_state (task_for "a") ∷ [] }

claimed_waiting : (claim desk (runner_of "a") "lease" 10 waiting).0 ≡ ok first_claim
unfolding claim is_valid_spec is_valid_lease_part is_valid_task_part least to_set
claimed_waiting = refl

unleased : (x : RunnerTaskState) → Memᴰ x waiting.tasks → holds_lease "a" "lease" x ≡ false
unleased x (Memᴰ.head e) = subst (λ y. holds_lease "a" "lease" y ≡ false) (sym e) refl
unleased x (Memᴰ.tail m) = absurd (Memᴰ.not-nil m)

claim_gives_lease_example :
    (s : RunnerTaskState) × (active_state
        (runner_of "a")
        "lease"
        30
        (claim desk (runner_of "a") "lease" 10 waiting).1
      ≡ ok s)
    × (s.job ≡ some first_claim.job)
claim_gives_lease_example =
    claim_gives_lease desk (runner_of "a") "lease" 10 30 waiting first_claim unleased
      claimed_waiting (omega arith)

abbrev no_answers : List (CachedAnswer RunnerClaim)
no_answers = []

claimed_by_key :
    (idempotent
      (runner_of "a")
      "key"
      "request"
      (claim desk (runner_of "a") "lease" 10)
      no_answers
      waiting).0
    ≡ ok first_claim
unfolding idempotent claim is_valid_spec is_valid_lease_part is_valid_task_part least cached_answer
    to_set
claimed_by_key = refl

abbrev kept_answers : List (CachedAnswer RunnerClaim)
kept_answers =
    (idempotent (runner_of "a") "key" "request" (claim desk (runner_of "a") "lease" 10) no_answers
      waiting).1

-- another runner's request with the same key in between
abbrev later_answers : List (CachedAnswer RunnerClaim)
later_answers =
    (idempotent (runner_of "b") "key" "other" (claim desk (runner_of "b") "lease" 10) kept_answers
      queue).1

idempotent_replay_example :
    idempotent
      (runner_of "a")
      "key"
      "request"
      (claim desk (runner_of "a") "lease-2" 12)
      later_answers
      spent
    ≡ (ok first_claim, later_answers, spent)
idempotent_replay_example =
    idempotent_replay (runner_of "a") "key" "request" (claim desk (runner_of "a") "lease" 10)
      (claim desk (runner_of "a") "lease-2" 12) no_answers later_answers waiting spent first_claim
      claimed_by_key
      (request (runner_of "b") "key" "other" (claim desk (runner_of "b") "lease" 10) queue no_more)

conformant :
    (validate_receipt plain "job-digest" first_claim.job receipt
      (capability_for "a")
      (policy_for "a")
      20
      "runner"
      []
      ("log" ∷ "output" ∷ "capability-statement" ∷ "policy-statement" ∷ [])
      (("log", 2) ∷ ("output", 2) ∷ [])
      (some "document")).accepted
    ≡ true
unfolding validate_receipt digest_reasons lease_reasons image_reasons artifact_reasons
    expected_materials output_artifacts total_length limit_reasons cleanup_reasons
    classified_outcome outcome_reasons returned_outcome selector_outcome to_set
conformant = refl

validate_receipt_sound_example :
    IsConformant plain "job-digest" first_claim.job receipt
      (capability_for "a")
      (policy_for "a")
      20
      "runner"
      []
      ("log" ∷ "output" ∷ "capability-statement" ∷ "policy-statement" ∷ [])
      (("log", 2) ∷ ("output", 2) ∷ [])
      (some "document")
validate_receipt_sound_example =
    validate_receipt_sound plain "job-digest" first_claim.job receipt (capability_for "a")
      (policy_for "a") 20 "runner" []
      ("log" ∷ "output" ∷ "capability-statement" ∷ "policy-statement" ∷ [])
      (("log", 2) ∷ ("output", 2) ∷ []) (some "document") conformant

-- a dispatched task whose job identifier has a space
abbrev odd_state : RunnerTaskState
odd_state = new_state (record (task_for "a") { job_id = "job 1" })

abbrev odd : Gateway Store
odd = (dispatch desk odd_state.task 5 empty).1

odd_tasks : odd.tasks ≡ odd_state ∷ []
unfolding dispatch task_materials to_set
odd_tasks = refl

odd-IsSound : IsSound desk odd
odd-IsSound = Reachable-IsSound desk plain odd (dispatched odd_state.task 5 (opened empty.objects))

odd_unleased : (x : RunnerTaskState) → Memᴰ x odd.tasks → holds_lease "a" "lease" x ≡ false
odd_unleased x m =
    let alone = Memᴰ-cons x odd_state [] in
    let here : x ≡ odd_state = ground (arith, alone, subst (Memᴰ x) odd_tasks m, not-Memᴰ-nil x) in
    subst (λ y. holds_lease "a" "lease" y ≡ false) (sym here) refl

odd_next : next_candidate (filter (is_candidate "a" 10) odd.tasks) ≡ some odd_state
unfolding next_candidate least
odd_next = rw (odd_tasks) refl

odd_invalid : is_valid_task desk odd_state ≡ false
unfolding is_valid_task_part
odd_invalid = refl

invalid_task_strands_example :
    ((claim desk (runner_of "a") "lease" 10 odd).0 ≡ raised "string_pattern_mismatch")
    × (active_state (runner_of "a") "lease" 30 (claim desk (runner_of "a") "lease" 10 odd).1
        ≡ ok (leased_state "runner" "lease" 10 odd_state))
    × (complete desk plain
          (runner_of "a")
          "lease"
          (statement_of "receipt-statement")
          []
          30
          (claim desk (runner_of "a") "lease" 10 odd).1
        ≡ (raised "runner_job_not_bound", (claim desk (runner_of "a") "lease" 10 odd).1))
invalid_task_strands_example =
    invalid_task_strands desk plain (runner_of "a") "lease" 10 30 odd odd_state
      (statement_of "receipt-statement") [] odd-IsSound odd_unleased odd_next refl refl odd_invalid
      (omega arith)
