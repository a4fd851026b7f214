-- ===== src/Coordination/Chain/Whole.antt =====
-- The events in a chain that _ordered_events returns without a blocker, and their order.
use mathlib.Core.List.Memᴰ
use collective_phase_control.Prelude.{
  String, ◌≡◌, refl, false, Option, none, some, List, [], ◌∷◌, ◌++◌, Memᴰ, arith, length,
  Bool-cases, inl, inr, ◌↔◌, if◌then◌else◌, nat_eq,
}
use collective_phase_control.Ids.{elem, to_set}
use collective_phase_control.Ids.Laws.{elem_iff, Memᴰ-to_set}
use collective_phase_control.Ids.Unique.{IsUnique, to_set-IsUnique, length-lt_of_missing}
use collective_phase_control.Enumeration.Subsets.{Memᴰ-map, Memᴰ-map_elim}
use collective_phase_control.Coordination.{CoordinationEvent}
use collective_phase_control.Coordination.Chain.{
  Chain, by_prior, duplicate_ids, then_chain, follow, close_chain, ordered_events,
}
use collective_phase_control.Coordination.Chain.Ends.{
  digests, Follows, stops, forks, goes_on, Memᴰ-by_prior, event_of_digest, follow_root_ends,
  length-digests,
}

-- each event names the one before it, the first the given prior
abbrev pub AreLinked : Option String → List CoordinationEvent → Type 0
AreLinked prior [] = Unit
AreLinked prior (e ∷ events) = (e.prior_event_digest ≡ prior) × AreLinked (some e.digest) events

only_child :
    (events : List CoordinationEvent) (prior : Option String) {child : CoordinationEvent}
    → by_prior events prior ≡ child ∷ []
    → Memᴰ child events × (child.prior_event_digest ≡ prior)
only_child events prior {child = c} h = Memᴰ-by_prior events prior c (rw h (Memᴰ.head refl))

Follows-inside :
    (events : List CoordinationEvent) {current : CoordinationEvent} {chain : Chain}
    → Memᴰ current events
    → Follows events current chain
    → (e : CoordinationEvent) → Memᴰ e chain.ordered
    → Memᴰ e events
unfolding then_chain
Follows-inside events m (stops h) e n = rw (Memᴰ.eq_of_singleton n) m
Follows-inside events m (forks h) e n = rw (Memᴰ.eq_of_singleton n) m
Follows-inside events m (goes_on h later) e n = elim (Memᴰ.cases_cons n) [
  | inl here ↦ rw here m
  | inr there ↦ Follows-inside events (only_child events _ h).0 later e there
]

Follows-AreLinked :
    (events : List CoordinationEvent) (prior : Option String) {current : CoordinationEvent}
    {chain : Chain}
    → current.prior_event_digest ≡ prior
    → Follows events current chain
    → AreLinked prior chain.ordered
unfolding then_chain
Follows-AreLinked events prior at (stops h) = (at, tt)
Follows-AreLinked events prior at (forks h) = (at, tt)
Follows-AreLinked events prior at (goes_on {current = c} h later) =
    (at, Follows-AreLinked events (some c.digest) (only_child events _ h).1 later)

append-empty : (xs ys : List String) → xs ++ ys ≡ [] → ys ≡ []
append-empty [] ys h = h
append-empty (x ∷ xs) ys h = cc

not_empty : (xs : List String) (y : String) → ¬ (xs ++ y ∷ [] ≡ [])
not_empty [] y h = cc
not_empty (x ∷ xs) y h = cc

module _ (events : List CoordinationEvent) (unique : IsUnique (digests events)) where
  -- as many distinct digests as events: none is missing
  all_seen :
      (seen : List CoordinationEvent)
      → ((e : CoordinationEvent) → Memᴰ e seen → Memᴰ e events)
      → length (to_set (digests seen)) ≡ length events
      → (e : CoordinationEvent) → Memᴰ e events
      → Memᴰ e seen
  all_seen seen inside same e m = elim (Bool-cases (elem e.digest (to_set (digests seen)))) [
    | inl there ↦
        let digest_seen =
          (Memᴰ-to_set e.digest (digests seen)).0
            ((elem_iff e.digest (to_set (digests seen))).0 there) in
        let (d, n, h) = Memᴰ-map_elim (λ z. z.digest) e.digest seen digest_seen in
        rw (event_of_digest events unique e d m (inside d n) h) n
    | inr gone ↦ absurd (short gone)
  ]
    where
      short : elem e.digest (to_set (digests seen)) ≡ false → ⊥
      short gone =
          let less =
            length-lt_of_missing (to_set (digests seen)) (digests events) e.digest
              (to_set-IsUnique (digests seen)) known (Memᴰ-map (λ z. z.digest) e events m) gone in
          omega (arith, less, same, length-digests events)
        where
          known : (x : String) → Memᴰ x (to_set (digests seen)) → Memᴰ x (digests events)
          known x n =
              let (d, k, h) =
                Memᴰ-map_elim (λ z. z.digest) x seen ((Memᴰ-to_set x (digests seen)).0 n) in
              rw h (Memᴰ-map (λ z. z.digest) d events (inside d k))

  -- What _ordered_events returns without a blocker: all the events and nothing else, each behind
  -- the one that its prior digest names.
  pub record IsWhole (chain : Chain) : Type 0 where
    pub complete : (e : CoordinationEvent) → Memᴰ e events ↔ Memᴰ e chain.ordered
    pub linked : AreLinked none chain.ordered

  close_chain-IsWhole :
      (root : CoordinationEvent)
      → Memᴰ root (by_prior events none)
      → (close_chain events (duplicate_ids [] events) (follow (length events) events root)).blockers
        ≡ []
      → IsWhole (close_chain events (duplicate_ids [] events) (follow (length events) events root))
  unfolding close_chain
  close_chain-IsWhole root m h =
      let (here, first) = Memᴰ-by_prior events none root m in
      let way = follow_root_ends events unique root here first in
      let walked = (follow (length events) events root).ordered in
      let inside = Follows-inside events here way in
      record {
        complete = λ e. (
          all_seen walked inside (counted walked (follow (length events) events root).blockers h) e,
          inside e,
        );
        linked = Follows-AreLinked events none first way;
      }
    where
      counted :
          (seen : List CoordinationEvent) (found : List String)
          → duplicate_ids [] events
              ++ (found
                  ++ (if nat_eq (length (to_set (digests seen))) (length events)
                      then []
                      else "coordination_event_chain_disconnected" ∷ []))
            ≡ []
          → length (to_set (digests seen)) ≡ length events
      counted seen found h =
          ground (arith, append-empty found _ (append-empty (duplicate_ids [] events) _ h))

  -- Where no two events share a digest, a chain without blockers holds all the events and nothing
  -- else, each behind the one that its prior digest names.
  pub ordered_events-IsWhole :
      (ordered_events events).blockers ≡ [] → IsWhole (ordered_events events)
  unfolding ordered_events
  ordered_events-IsWhole h = by_roots (by_prior events none) refl h
    where
      by_roots :
          (roots : List CoordinationEvent)
          → by_prior events none ≡ roots
          → (ordered_events events).blockers ≡ []
          → IsWhole (ordered_events events)
      by_roots [] e h = absurd (not_empty (duplicate_ids [] events) _ (rw (ordered_events, e) at h))
      by_roots (root ∷ []) e h =
          rw (ordered_events, e)
            (close_chain-IsWhole root (rw e (Memᴰ.head refl)) (rw (ordered_events, e) at h))
      by_roots (root ∷ other ∷ others) e h =
          absurd (not_empty (duplicate_ids [] events) _ (rw (ordered_events, e) at h))
