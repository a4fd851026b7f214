-- ===== src/Coordination/Chain.antt =====
-- _ordered_events: the chain of events by prior digest. `while True` takes fuel, one round for each
-- event: an event has one prior digest, so the code comes to it at most once.
pub mod Ends
pub mod Whole
use Prim.Native.String.{◌++◌ as ◌++ₛ◌}
use collective_phase_control.Prelude.{
  ℕ, zero, suc, String, Bool, true, false, Option, none, some, List, [], ◌∷◌, ◌++◌, map, length,
  nat_eq, ◌==◌, filter, if◌then◌else◌,
}
use collective_phase_control.Ids.{elem, add, to_set}
use collective_phase_control.Coordination.{CoordinationEvent}

-- what _ordered_events returns
pub record Chain : Type 0 where
  pub ordered : List CoordinationEvent
  pub blockers : List String

abbrev pub same_prior : Option String → Option String → Bool
same_prior none none = true
same_prior none (some d) = false
same_prior (some c) none = false
same_prior (some c) (some d) = c == d

-- by_prior.get(prior, []): the events with this prior digest, in order
unfoldable pub by_prior : List CoordinationEvent → Option String → List CoordinationEvent
by_prior events prior = filter (λ e. same_prior e.prior_event_digest prior) events

-- the first loop: event identifiers that came before
unfoldable pub duplicate_ids : List String → List CoordinationEvent → List String
duplicate_ids event_ids [] = []
duplicate_ids event_ids (e ∷ events) =
    let rest = duplicate_ids (add e.event_id event_ids) events in
    if elem e.event_id event_ids
    then ◌++ₛ◌ "duplicate_coordination_event_id:" e.event_id ∷ rest
    else rest

-- ordered.append(current)
unfoldable pub then_chain : CoordinationEvent → Chain → Chain
then_chain current chain = record chain { ordered = current ∷ chain.ordered }

unfoldable pub follow : ℕ → List CoordinationEvent → CoordinationEvent → Chain
unfolding by_prior then_chain
follow zero events current = record { ordered = []; blockers = [] }
follow (suc fuel) events current = elim (by_prior events (some current.digest)) [
  | [] ↦ record { ordered = current ∷ []; blockers = [] }
  | child ∷ others ↦ elim others [
    | [] ↦ then_chain current (follow fuel events child)
    | _ ∷ _ ↦ record {
      ordered = current ∷ [];
      blockers = ◌++ₛ◌ "coordination_event_chain_fork:" current.event_id ∷ [];
    }
  ]
]

-- behind the loop: were all events seen
unfoldable pub close_chain : List CoordinationEvent → List String → Chain → Chain
close_chain events found chain = record {
  ordered = chain.ordered;
  blockers =
      found
      ++ (chain.blockers
          ++ (if nat_eq (length (to_set (map (λ e. e.digest) chain.ordered))) (length events)
              then []
              else "coordination_event_chain_disconnected" ∷ []));
}

unfoldable pub ordered_events : List CoordinationEvent → Chain
unfolding duplicate_ids follow close_chain
ordered_events events =
    let found = duplicate_ids [] events in
    elim (by_prior events none) [
      | [] ↦ record {
        ordered = [];
        blockers = found ++ "coordination_event_chain_root_not_unique" ∷ [];
      }
      | root ∷ others ↦ elim others [
        | [] ↦ close_chain events found (follow (length events) events root)
        | _ ∷ _ ↦ record {
          ordered = [];
          blockers = found ++ "coordination_event_chain_root_not_unique" ∷ [];
        }
      ]
    ]
