-- ===== src/Coordination/Chain/Ends.antt =====
-- The loop of _ordered_events with and without fuel.
use mathlib.Core.Bool.{false≢true}
use mathlib.Core.List.Memᴰ
use Prim.Native.String.{◌++◌ as ◌++ₛ◌}
use collective_phase_control.Prelude.{
  ℕ, zero, suc, ◌+◌, ◌≤◌, String, ◌≡◌, refl, sym, ap, subst, ◌∙◌, true, false, Option, none, some,
  List, [], ◌∷◌, map, Memᴰ, arith, length, eq_iff, Memᴰ-filter, Bool-cases, inl, inr, ◌↔◌,
}
use collective_phase_control.Ids.{elem}
use collective_phase_control.Ids.Laws.{elem_iff}
use collective_phase_control.Ids.Unique.{IsUnique, length-le_of_inside}
use collective_phase_control.Enumeration.Subsets.{Memᴰ-map}
use collective_phase_control.Coordination.{CoordinationEvent}
use collective_phase_control.Coordination.Chain.{Chain, same_prior, by_prior, then_chain, follow}

abbrev pub digests : List CoordinationEvent → List String
digests events = map (λ e. e.digest) events

-- The loop without fuel: from an event with no child it stops, at one with two it reports a fork,
-- from one with a single child it goes on.
pub data Follows (events : List CoordinationEvent) : CoordinationEvent → Chain → Type 0 where
  stops :
      {current : CoordinationEvent}
      → by_prior events (some current.digest) ≡ []
      → Follows events current (record { ordered = current ∷ []; blockers = [] })
  forks :
      {current child other : CoordinationEvent} {others : List CoordinationEvent}
      → by_prior events (some current.digest) ≡ child ∷ other ∷ others
      → Follows events current (record {
        ordered = current ∷ [];
        blockers = ◌++ₛ◌ "coordination_event_chain_fork:" current.event_id ∷ [];
      })
  goes_on :
      {current child : CoordinationEvent} {chain : Chain}
      → by_prior events (some current.digest) ≡ child ∷ []
      → Follows events child chain
      → Follows events current (then_chain current chain)

pub same_prior_iff : (p q : Option String) → (same_prior p q ≡ true) ↔ (p ≡ q)
same_prior_iff none none = (λ h. refl, λ e. refl)
same_prior_iff none (some d) = (λ h. cc, λ e. cc)
same_prior_iff (some c) none = (λ h. cc, λ e. cc)
same_prior_iff (some c) (some d) = (λ h. ap some ((eq_iff c d).0 h), λ e. (eq_iff c d).1 (inner e))
  where
    inner : {a b : String} → Path (Option String) (some a) (some b) → a ≡ b
    inner e = cc

pub Memᴰ-by_prior :
    (events : List CoordinationEvent) (p : Option String) (e : CoordinationEvent)
    → Memᴰ e (by_prior events p)
    → Memᴰ e events × (e.prior_event_digest ≡ p)
unfolding by_prior
Memᴰ-by_prior events p e m =
    let (n, h) = (Memᴰ-filter (λ d. same_prior d.prior_event_digest p) e events).0 m in
    (n, (same_prior_iff e.prior_event_digest p).0 h)

-- events with distinct digests are determined by them
pub event_of_digest :
    (events : List CoordinationEvent)
    → IsUnique (digests events)
    → (e d : CoordinationEvent) → Memᴰ e events
    → Memᴰ d events
    → e.digest ≡ d.digest
    → e ≡ d
event_of_digest [] u e d m n h = absurd (Memᴰ.not-nil m)
event_of_digest (c ∷ events) u e d m n h = elim (Memᴰ.cases_cons m) [
  | inl at ↦ elim (Memᴰ.cases_cons n) [
    | inl there ↦ at ∙ sym there
    | inr later ↦ absurd (clash d later (sym h ∙ ap (λ z. z.digest) at))
  ]
  | inr past ↦ elim (Memᴰ.cases_cons n) [
    | inl there ↦ absurd (clash e past (h ∙ ap (λ z. z.digest) there))
    | inr later ↦ event_of_digest events u.1 e d past later h
  ]
]
  where
    clash : (x : CoordinationEvent) → Memᴰ x events → x.digest ≡ c.digest → ⊥
    clash x k same = false≢true (
        sym u.0
        ∙ (elem_iff c.digest (digests events)).1
            (subst (λ z. Memᴰ z (digests events)) same (Memᴰ-map (λ z. z.digest) x events k)))

pub length-digests : (events : List CoordinationEvent) → length (digests events) ≡ length events
length-digests [] = refl
length-digests (e ∷ events) = ap suc (length-digests events)

module _ (events : List CoordinationEvent) (unique : IsUnique (digests events)) where
  -- the digests behind the current event are distinct ones of events, and hold what comes before
  record IsPath (behind : List String) (current : CoordinationEvent) : Type 0 where
    distinct : IsUnique (current.digest ∷ behind)
    known : (d : String) → Memᴰ d (current.digest ∷ behind) → Memᴰ d (digests events)
    back :
        (e : CoordinationEvent) (d : String)
        → Memᴰ e events
        → Memᴰ e.digest (current.digest ∷ behind)
        → e.prior_event_digest ≡ some d
        → Memᴰ d behind
    here : Memᴰ current events

  IsPath-child :
      (behind : List String) (current child : CoordinationEvent)
      → IsPath behind current
      → Memᴰ child events
      → child.prior_event_digest ≡ some current.digest
      → IsPath (current.digest ∷ behind) child
  IsPath-child behind current child path m prior = record {
    distinct = (fresh, path.distinct);
    known = λ d n. elim (Memᴰ.cases_cons n) [
      | inl at ↦ rw at (Memᴰ-map (λ z. z.digest) child events m)
      | inr later ↦ path.known d later
    ];
    back = λ e d n k p. elim (Memᴰ.cases_cons k) [
      | inl at ↦ Memᴰ.head (
          prior_of d (
            sym p
            ∙ (ap (λ z. z.prior_event_digest) (event_of_digest events unique e child n m at)
                ∙ prior)))
      | inr later ↦ Memᴰ.tail (path.back e d n later p)
    ];
    here = m;
  }
    where
      prior_of :
          (d : String) → Path (Option String) (some d) (some current.digest) → d ≡ current.digest
      prior_of d h = cc

      fresh : elem child.digest (current.digest ∷ behind) ≡ false
      fresh = elim (Bool-cases (elem child.digest (current.digest ∷ behind))) [
        | inl met ↦
            let again =
              path.back child current.digest m
                ((elem_iff child.digest (current.digest ∷ behind)).0 met) prior in
            absurd (false≢true (sym path.distinct.0 ∙ (elem_iff current.digest behind).1 again))
        | inr new ↦ new
      ]

  bounded :
      (behind : List String) (current : CoordinationEvent)
      → IsPath behind current
      → suc (length behind) ≤ length events
  bounded behind current path =
      let inside =
        length-le_of_inside (current.digest ∷ behind) (digests events) path.distinct path.known in
      ground (arith, inside, length-digests events)

  -- one round of the loop, by the children that the current event has
  round :
      (fuel : ℕ) (behind : List String) (current : CoordinationEvent)
      → IsPath behind current
      → ((child : CoordinationEvent)
          → IsPath (current.digest ∷ behind) child
          → Follows events child (follow fuel events child))
      → (children : List CoordinationEvent) → by_prior events (some current.digest) ≡ children
      → Follows events current (follow (suc fuel) events current)
  unfolding follow
  round fuel behind current path ih [] e = rw (follow, e) (stops e)
  round fuel behind current path ih (child ∷ []) e =
      let (m, prior) = Memᴰ-by_prior events (some current.digest) child (rw e (Memᴰ.head refl)) in
      rw (follow, e) (goes_on e (ih child (IsPath-child behind current child path m prior)))
  round fuel behind current path ih (child ∷ other ∷ others) e = rw (follow, e) (forks e)

  follow_ends :
      (fuel : ℕ) (behind : List String) (current : CoordinationEvent)
      → length events ≤ fuel + length behind
      → IsPath behind current
      → Follows events current (follow fuel events current)
  follow_ends zero behind current h path = absurd (omega (arith, bounded behind current path))
  follow_ends (suc fuel) behind current h path =
      round fuel behind current path
        (λ child next. follow_ends fuel (current.digest ∷ behind) child (omega arith) next)
        (by_prior events (some current.digest)) refl

  -- Where no two events share a digest, the fuel that _ordered_events gives its loop is enough: from
  -- an event with no prior the loop does what it does without fuel.
  pub follow_root_ends :
      (root : CoordinationEvent)
      → Memᴰ root events
      → root.prior_event_digest ≡ none
      → Follows events root (follow (length events) events root)
  follow_root_ends root m first = follow_ends (length events) [] root (omega arith) (record {
    distinct = (refl, tt);
    known = λ d n. rw (Memᴰ.eq_of_singleton n) (Memᴰ-map (λ z. z.digest) root events m);
    back = λ e d n k p. absurd (
        not_first d (
          sym first
          ∙ (ap (λ z. z.prior_event_digest)
                (event_of_digest events unique root e m n (sym (Memᴰ.eq_of_singleton k)))
              ∙ p)));
    here = m;
  })
    where
      not_first : (d : String) → Path (Option String) none (some d) → ⊥
      not_first d h = cc
