-- ===== src/Runner/Gateway/Replay.antt =====
-- idempotent of runner_gateway.py: an answer is given again to the same request, and to no other.
use collective_phase_control.Prelude.{
  String, ◌≡◌, refl, sym, ◌∙◌, inl, inr, Bool, true, false, not, ◌&&◌, none, some, Option-cases,
  List, arith, ◌==◌, eq_iff, Bool-cases, Outcome, ok, raised,
}
use collective_phase_control.Runner.Gateway.{
  RunnerRegistration, CachedAnswer, cached_answer, remember, idempotent,
}

module _ {A : Type 0} where
  -- the answer of a request is cached for its tenant, principal and key
  abbrev IsCached : RunnerRegistration → String → String → List (CachedAnswer A) → A → Type 0
  IsCached r key digest cached answer =
      (c : CachedAnswer A) × (cached_answer r.tenant_id r.principal_id key cached ≡ some c)
      × (c.request_digest ≡ digest)
      × (c.answer ≡ answer)

module _ {A : Type 0} {G : Type 0} where
  cached_again :
      (r : RunnerRegistration) (key digest : String) (operation : G → Outcome A × G)
      (cached : List (CachedAnswer A)) (state : G) (answer : A)
      → IsCached r key digest cached answer
      → idempotent r key digest operation cached state ≡ (ok answer, cached, state)
  unfolding idempotent
  cached_again r key digest operation cached state answer (c, found, same, given) =
      let test : not (c.request_digest == digest) ≡ false =
        ground (arith, (eq_iff c.request_digest digest).1 same) in
      rw (idempotent, found, test) (λ i. (ok (given i), cached, state))

  remembered :
      (r : RunnerRegistration) (key digest : String) (cached : List (CachedAnswer A))
      (result : Outcome A × G) (answer : A)
      → (remember r key digest cached result).0 ≡ ok answer
      → IsCached r key digest (remember r key digest cached result).1 answer
  unfolding cached_answer
  remembered r key digest cached (raised code, state) answer h = cc
  remembered r key digest cached (ok a, state) answer h =
      let entry : CachedAnswer A = record {
        tenant_id = r.tenant_id;
        principal_id = r.principal_id;
        key = key;
        request_digest = digest;
        answer = a;
      } in
      (
        entry,
        rw
            (
              (eq_iff r.tenant_id r.tenant_id).1 refl,
              (eq_iff r.principal_id r.principal_id).1 refl,
              (eq_iff key key).1 refl,
            )
            refl,
        refl,
        cc,
      )

  answered :
      (r : RunnerRegistration) (key digest : String) (operation : G → Outcome A × G)
      (cached : List (CachedAnswer A)) (state : G) (answer : A)
      → (idempotent r key digest operation cached state).0 ≡ ok answer
      → IsCached r key digest (idempotent r key digest operation cached state).1 answer
  unfolding idempotent
  answered r key digest operation cached state answer h =
      elim (Option-cases (cached_answer r.tenant_id r.principal_id key cached)) [
        | inl e ↦
            rw (idempotent, e)
              (remembered r key digest cached (operation state) answer (rw (idempotent, e) at h))
        | inr (c, e) ↦ elim (Bool-cases (not (c.request_digest == digest))) [
          | inl other ↦ cc (rw (idempotent, e, other) at h)
          | inr same ↦
              let given : c.answer ≡ answer = cc (rw (idempotent, e, same) at h) in
              rw (idempotent, e, same)
                ((c, e, (eq_iff c.request_digest digest).0 (ground (arith, same)), given))
        ]
      ]

  -- an entry for another key, or one that was not there, hides no answer
  kept_behind :
      (r other : RunnerRegistration) (key other_key digest other_digest : String)
      (cached : List (CachedAnswer A)) (answer : A) (result : Outcome A × G)
      → IsCached r key digest cached answer
      → cached_answer other.tenant_id other.principal_id other_key cached ≡ none
      → IsCached r key digest (remember other other_key other_digest cached result).1 answer
  unfolding cached_answer
  kept_behind r other key other_key digest other_digest cached answer (raised code, state) k new = k
  kept_behind r other key other_key digest other_digest cached answer (ok a, state)
        (c, found, same, given) new =
      elim (Bool-cases (
        other.tenant_id == r.tenant_id
        && other.principal_id == r.principal_id
        && other_key == key)) [
          | inr differs ↦ (c, rw (differs) found, same, given)
          | inl equal ↦
              let (t, p, k) =
                three (other.tenant_id == r.tenant_id) (other.principal_id == r.principal_id)
                  (other_key == key) equal in
              let shared : cached_answer other.tenant_id other.principal_id other_key cached
                  ≡ cached_answer r.tenant_id r.principal_id key cached =
                λ i.
                  cached_answer ((eq_iff other.tenant_id r.tenant_id).0 t i)
                    ((eq_iff other.principal_id r.principal_id).0 p i)
                    ((eq_iff other_key key).0 k i) cached in
              cc (sym new ∙ (shared ∙ found))
        ]
    where
      three : (a b c : Bool) → a && b && c ≡ true → (a ≡ true) × (b ≡ true) × (c ≡ true)
      three true true true h = (refl, refl, refl)
      three true true false h = cc
      three true false c h = cc
      three false b c h = cc

  kept_by_request :
      (r other : RunnerRegistration) (key other_key digest other_digest : String)
      (operation : G → Outcome A × G) (cached : List (CachedAnswer A)) (state : G) (answer : A)
      → IsCached r key digest cached answer
      → IsCached r key digest
          (idempotent other other_key other_digest operation cached state).1
          answer
  unfolding idempotent
  kept_by_request r other key other_key digest other_digest operation cached state answer k =
      elim (Option-cases (cached_answer other.tenant_id other.principal_id other_key cached)) [
        | inl new ↦
            rw (idempotent, new)
              (kept_behind r other key other_key digest other_digest cached answer (operation state)
                k new)
        | inr (c, e) ↦ elim (Bool-cases (not (c.request_digest == other_digest))) [
          | inl reused ↦ rw (idempotent, e, reused) k
          | inr same ↦ rw (idempotent, e, same) k
        ]
      ]

module _ {A : Type 0} (G : Type 0) where
  -- the answers that are cached behind any number of further requests, of any runners, keys, digests
  -- and operations, each in a state of its own
  pub data Requests (cached : List (CachedAnswer A)) : List (CachedAnswer A) → Type 0 where
    no_more : Requests cached cached
    request :
        (r : RunnerRegistration) (key digest : String) (operation : G → Outcome A × G) (state : G)
        {kept : List (CachedAnswer A)}
        → Requests cached kept
        → Requests cached (idempotent r key digest operation kept state).1

module _ {A : Type 0} {G : Type 0} where
  kept_by-Requests :
      (r : RunnerRegistration) (key digest : String) (cached kept : List (CachedAnswer A))
      (answer : A)
      → IsCached r key digest cached answer
      → Requests G cached kept
      → IsCached r key digest kept answer
  kept_by-Requests r key digest cached _ answer k no_more = k
  kept_by-Requests r key digest cached _ answer k
        (request other other_key other_digest operation state {kept = before} rest) =
      kept_by_request r other key other_key digest other_digest operation before state answer
        (kept_by-Requests r key digest cached before answer k rest)

  -- When a request has been answered, then behind any number of other requests, of any runners, keys,
  -- digests and operations, a request of the same tenant, principal, key and digest has the same
  -- answer, in every state and whatever its operation is, and changes nothing.
  pub idempotent_replay :
      (r : RunnerRegistration) (key digest : String) (operation again : G → Outcome A × G)
      (cached kept : List (CachedAnswer A)) (state later : G) (answer : A)
      → (idempotent r key digest operation cached state).0 ≡ ok answer
      → Requests G (idempotent r key digest operation cached state).1 kept
      → idempotent r key digest again kept later ≡ (ok answer, kept, later)
  idempotent_replay r key digest operation again cached kept state later answer h between =
      cached_again r key digest again kept later answer (
        kept_by-Requests r key digest (idempotent r key digest operation cached state).1 kept answer
          (answered r key digest operation cached state answer h) between)
