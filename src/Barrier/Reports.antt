-- ===== src/Barrier/Reports.antt =====
-- The blockers of transformations in the vector that build_barrier_vector makes.
use mathlib.Core.Bool.{false≢true}
use mathlib.Core.List.Memᴰ
use Prim.Native.String.{◌++◌ as ◌++ₛ◌}
use collective_phase_control.Prelude.{
  String, ◌≡◌, refl, sym, ap, subst, ◌∙◌, inl, inr, Bool, List, [], ◌∷◌, Memᴰ, arith, Bool-cases,
  eq_iff, ◌==◌, if◌then◌else◌, all_elim,
}
use collective_phase_control.Ids.{elem, to_set}
use collective_phase_control.Ids.Laws.{elem_iff, Memᴰ-union, Memᴰ-to_set, Memᴰ-sorted}
use collective_phase_control.Ids.Dict.{Dict, keys, values}
use collective_phase_control.Barrier.{
  Blocked, DetectorResult, Gap, Collective, Marks, barrier_coordinates, blocker_coordinate,
  empty_sets, extend, mark, set_at, add_detectors, add_gaps, add_status, add_collective,
  coordinate_of, coordinate_for, add_blockers, add_blocked, marks, build_barrier_vector,
  blockers_at,
}
use collective_phase_control.Barrier.Order.{get-coordinates_of}

keys-extend :
    (k : String) (items : List String) (d : Dict (List String)) → keys (extend k items d) ≡ keys d
unfolding extend
keys-extend k items [] = refl
keys-extend k items ((j, s) ∷ d) = elim (Bool-cases (k == j)) [
  | inl here ↦ rw here refl
  | inr away ↦ rw away (ap (λ ks. j ∷ ks) (keys-extend k items d))
]

set_at-extend :
    (c k x : String) (items : List String) (d : Dict (List String))
    → Memᴰ x (set_at c d)
    → Memᴰ x (set_at c (extend k items d))
unfolding extend
set_at-extend c k x items [] m = m
set_at-extend c k x items ((j, s) ∷ d) m =
    ground (arith, m, eq_iff c j, set_at-extend c k x items d, (Memᴰ-union x s items).1)

set_at-extend_added :
    (c x : String) (items : List String) (d : Dict (List String))
    → Memᴰ c (keys d)
    → Memᴰ x items
    → Memᴰ x (set_at c (extend c items d))
unfolding extend
set_at-extend_added c x items [] k m = absurd (Memᴰ.not-nil k)
set_at-extend_added c x items ((j, s) ∷ d) k m = elim (Bool-cases (c == j)) [
  | inl here ↦ rw (here, here) ((Memᴰ-union x s items).1 (inr m))
  | inr away ↦ elim (Memᴰ.cases_cons k) [
    | inl same ↦ absurd (false≢true (sym away ∙ (eq_iff c j).1 same))
    | inr later ↦ rw (away, away) (set_at-extend_added c x items d later m)
  ]
]

-- no coordinate is lost on the way, and no mark
record Keeps (s t : Marks) : Type 0 where
  same_keys : keys t.mapping ≡ keys s.mapping
  marked : (c x : String) → Memᴰ x (set_at c s.mapping) → Memᴰ x (set_at c t.mapping)

Keeps-refl : (s : Marks) → Keeps s s
Keeps-refl s = record { same_keys = refl; marked = λ c x m. m }

Keeps-trans : (s t u : Marks) → Keeps s t → Keeps t u → Keeps s u
Keeps-trans s t u f g = record {
  same_keys = g.same_keys ∙ f.same_keys;
  marked = λ c x m. g.marked c x (f.marked c x m);
}

mark-Keeps : (k : String) (ids sources : List String) (s : Marks) → Keeps s (mark k ids sources s)
unfolding mark
mark-Keeps k ids sources s = record {
  same_keys = keys-extend k ids s.mapping;
  marked = λ c x m. set_at-extend c k x ids s.mapping m;
}

add_detectors-Keeps : (rs : List DetectorResult) (s : Marks) → Keeps s (add_detectors rs s)
unfolding add_detectors
add_detectors-Keeps [] s = Keeps-refl s
add_detectors-Keeps (r ∷ rs) s = elim (Bool-cases r.blocking) [
  | inl blocking ↦ rw blocking (
      Keeps-trans s _ _ (mark-Keeps _ r.blocker_ids r.source_refs s) (
        add_detectors-Keeps rs (
          mark (if r.detector == "duplicate_mass" then "provenance" else "integrity") r.blocker_ids
            r.source_refs s)))
  | inr silent ↦ rw silent (add_detectors-Keeps rs s)
]

add_gaps-Keeps : (gs : List Gap) (s : Marks) → Keeps s (add_gaps gs s)
unfolding add_gaps
add_gaps-Keeps [] s = Keeps-refl s
add_gaps-Keeps (g ∷ gs) s =
    Keeps-trans s _ _ (mark-Keeps "productivity" (g.id ∷ []) g.states s)
      (add_gaps-Keeps gs (mark "productivity" (g.id ∷ []) g.states s))

add_status-Keeps :
    (coordinate status good missing invalid : String) (s : Marks)
    → Keeps s (add_status coordinate status good missing invalid s)
unfolding add_status
add_status-Keeps coordinate status good missing invalid s =
    elim (Bool-cases (status == "unknown")) [
      | inl unknown ↦ rw unknown (mark-Keeps coordinate (missing ∷ []) [] s)
      | inr known ↦ elim (Bool-cases (status == good)) [
        | inl well ↦ rw (known, well) (Keeps-refl s)
        | inr ill ↦ rw (known, ill) (mark-Keeps coordinate (invalid ∷ []) [] s)
      ]
    ]

add_collective-Keeps : (collective : Collective) (s : Marks) → Keeps s (add_collective collective s)
unfolding add_collective
add_collective-Keeps collective s = elim (Bool-cases collective.is_true) [
  | inl well ↦ rw well (Keeps-refl s)
  | inr ill ↦ rw ill (
      Keeps-trans s _ _ (mark-Keeps "independence" collective.reasons [] s) (
        mark-Keeps "collective_integration" collective.reasons []
          (mark "independence" collective.reasons [] s)))
]

module _ (contains : String → String → Bool) where
  add_blockers-Keeps :
      (id : String) (texts : List String) (s : Marks) → Keeps s (add_blockers contains id texts s)
  unfolding add_blockers
  add_blockers-Keeps id [] s = Keeps-refl s
  add_blockers-Keeps id (text ∷ texts) s =
      Keeps-trans s _ _
        (mark-Keeps (coordinate_for contains blocker_coordinate text)
          (◌++ₛ◌ id (◌++ₛ◌ ":" text) ∷ []) (id ∷ []) s)
        (add_blockers-Keeps id texts (
          mark (coordinate_for contains blocker_coordinate text) (◌++ₛ◌ id (◌++ₛ◌ ":" text) ∷ [])
            (id ∷ []) s))

  add_blocked-Keeps : (bs : List Blocked) (s : Marks) → Keeps s (add_blocked contains bs s)
  unfolding add_blocked
  add_blocked-Keeps [] s = Keeps-refl s
  add_blocked-Keeps (b ∷ bs) s =
      Keeps-trans s _ _ (add_blockers-Keeps b.transformation_id b.blockers s)
        (add_blocked-Keeps bs (add_blockers contains b.transformation_id b.blockers s))

  coordinate_for_known :
      (d : Dict String) (text : String)
      → ((v : String) → Memᴰ v (values d) → Memᴰ v barrier_coordinates)
      → Memᴰ (coordinate_for contains d text) barrier_coordinates
  unfolding coordinate_for
  coordinate_for_known [] text h = Memᴰ.head refl
  coordinate_for_known ((k, v) ∷ d) text h = elim (Bool-cases (contains k text)) [
    | inl met ↦ rw met (h v (Memᴰ.head refl))
    | inr away ↦ rw away (coordinate_for_known d text (λ w m. h w (Memᴰ.tail m)))
  ]

  -- the coordinate that a blocker is filed under
  abbrev pub filed : String → String
  filed text = coordinate_for contains blocker_coordinate text

  filed_known : (text : String) → Memᴰ (filed text) barrier_coordinates
  filed_known text = coordinate_for_known blocker_coordinate text λ v m.
      (elem_iff v barrier_coordinates).0
        (all_elim (λ w. elem w barrier_coordinates) v (values blocker_coordinate) refl m)

  add_blockers_marks :
      (id text : String) (texts : List String) (s : Marks)
      → keys s.mapping ≡ barrier_coordinates
      → Memᴰ text texts
      → Memᴰ
          (◌++ₛ◌ id (◌++ₛ◌ ":" text))
          (set_at (filed text) (add_blockers contains id texts s).mapping)
  unfolding add_blockers mark
  add_blockers_marks id text [] s h m = absurd (Memᴰ.not-nil m)
  add_blockers_marks id text (t ∷ texts) s h m =
      let next = mark (filed t) (◌++ₛ◌ id (◌++ₛ◌ ":" t) ∷ []) (id ∷ []) s in
      elim (Memᴰ.cases_cons m) [
        | inl here ↦
            (add_blockers-Keeps id texts next).marked (filed text) (◌++ₛ◌ id (◌++ₛ◌ ":" text)) (
              rw here (
                set_at-extend_added (filed t) (◌++ₛ◌ id (◌++ₛ◌ ":" t)) (◌++ₛ◌ id (◌++ₛ◌ ":" t) ∷ [])
                  s.mapping (subst (λ ks. Memᴰ (filed t) ks) (sym h) (filed_known t))
                  (Memᴰ.head refl)))
        | inr later ↦
            add_blockers_marks id text texts next
              ((mark-Keeps (filed t) (◌++ₛ◌ id (◌++ₛ◌ ":" t) ∷ []) (id ∷ []) s).same_keys ∙ h) later
      ]

  add_blocked_marks :
      (b : Blocked) (text : String) (bs : List Blocked) (s : Marks)
      → keys s.mapping ≡ barrier_coordinates
      → Memᴰ b bs
      → Memᴰ text b.blockers
      → Memᴰ
          (◌++ₛ◌ b.transformation_id (◌++ₛ◌ ":" text))
          (set_at (filed text) (add_blocked contains bs s).mapping)
  unfolding add_blocked
  add_blocked_marks b text [] s h m n = absurd (Memᴰ.not-nil m)
  add_blocked_marks b text (d ∷ bs) s h m n =
      let next = add_blockers contains d.transformation_id d.blockers s in
      elim (Memᴰ.cases_cons m) [
        | inl here ↦
            (add_blocked-Keeps bs next).marked (filed text) _
              (rw here (add_blockers_marks d.transformation_id text d.blockers s h (rw here at n)))
        | inr later ↦
            add_blocked_marks b text bs next
              ((add_blockers-Keeps d.transformation_id d.blockers s).same_keys ∙ h) later n
      ]

  -- the marks of the blocked transformations stay through the later loops and tests
  marks_kept :
      (blocked : List Blocked) (detectors : List DetectorResult) (deadlocks seeds : List Gap)
      (productivity maintenance : String) (collective : Collective) (c x : String)
      → Memᴰ x (
          set_at c
            (add_blocked contains blocked (record {
              mapping = empty_sets barrier_coordinates;
              refs = empty_sets barrier_coordinates;
            })).mapping)
      → Memᴰ x (
          set_at c
            (marks contains blocked detectors deadlocks seeds productivity maintenance
              collective).mapping)
  unfolding marks
  marks_kept blocked detectors deadlocks seeds productivity maintenance collective c x m =
      let from_blocked = add_blocked contains blocked (record {
        mapping = empty_sets barrier_coordinates;
        refs = empty_sets barrier_coordinates;
      }) in
      let detected = add_detectors detectors from_blocked in
      let with_deadlocks = add_gaps deadlocks detected in
      let with_seeds = add_gaps seeds with_deadlocks in
      let productive =
        add_status "productivity" productivity "productive_organization_candidate"
          "productive_witness_missing" "productive_witness_invalid" with_seeds in
      let maintained =
        add_status "maintenance" maintenance "maintained_organization_candidate"
          "maintenance_witness_missing" "maintenance_witness_invalid" productive in
      (add_collective-Keeps collective maintained).marked c x (
        (add_status-Keeps "maintenance" maintenance "maintained_organization_candidate"
            "maintenance_witness_missing" "maintenance_witness_invalid" productive).marked
          c x
          ((add_status-Keeps "productivity" productivity "productive_organization_candidate"
              "productive_witness_missing" "productive_witness_invalid" with_seeds).marked
            c x
            ((add_gaps-Keeps seeds with_deadlocks).marked c x (
              (add_gaps-Keeps deadlocks detected).marked c x
                ((add_detectors-Keeps detectors from_blocked).marked c x m)))))

  -- Each blocker of a blocked transformation stands in the vector, with the transformation's
  -- identifier, at the coordinate that its text is filed under.
  pub build_reports_blockers :
      (blocked : List Blocked) (detectors : List DetectorResult) (deadlocks seeds : List Gap)
      (productivity maintenance : String) (collective : Collective) (b : Blocked) (text : String)
      → Memᴰ b blocked
      → Memᴰ text b.blockers
      → Memᴰ (◌++ₛ◌ b.transformation_id (◌++ₛ◌ ":" text)) (
          blockers_at (filed text) (
            build_barrier_vector contains blocked detectors deadlocks seeds productivity maintenance
              collective))
  unfolding build_barrier_vector blockers_at coordinate_of marks
  build_reports_blockers blocked detectors deadlocks seeds productivity maintenance collective b
        text m n =
      let all_marks =
        marks contains blocked detectors deadlocks seeds productivity maintenance collective in
      rw
        (
          blockers_at,
          get-coordinates_of (filed text) barrier_coordinates all_marks (filed_known text),
        )
        ((Memᴰ-sorted _ (to_set (set_at (filed text) all_marks.mapping))).1 (
          (Memᴰ-to_set _ (set_at (filed text) all_marks.mapping)).1 (
            marks_kept blocked detectors deadlocks seeds productivity maintenance collective
              (filed text) _ (add_blocked_marks b text blocked _ refl m n))))
