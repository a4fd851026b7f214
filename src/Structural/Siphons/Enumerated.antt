-- ===== src/Structural/Siphons/Enumerated.antt =====
-- What a siphon is, and the values of enumerate_minimal_siphons.
use collective_phase_control.Prelude.{
  ℕ, ◌≤◌, ◌<◌, String, ◌≡◌, refl, inl, inr, true, false, List, [], Memᴰ, arith, length, Bool-cases,
  all_intro, all_elim, pure, ltb,
}
use collective_phase_control.Ids.{intersects, to_set, sorted}
use collective_phase_control.Ids.Laws.{intersects_iff}
use collective_phase_control.Ids.Unique.{sorted-IsUnique, to_set-IsUnique}
use collective_phase_control.Ids.Dict.{Dict, values}
use collective_phase_control.Enumeration.Smallest.{Memᴰ-selection}
use collective_phase_control.Enumeration.Sets.{
  SameMembers, AreMinimal, AreMinimal-over, sorted_set-SameMembers, search_AreMinimal,
  nonempty_length, length-member,
}
use collective_phase_control.Structural.{Transformation, flow_inputs, flow_outputs}
use collective_phase_control.Structural.Siphons.{is_siphon, enumerate_minimal_siphons}

-- two sets meet
abbrev pub Meets : List String → List String → Type 0
Meets xs ys = (x : String) × Memᴰ x xs × Memᴰ x ys

-- whatever produces a member consumes a member
abbrev pub IsSiphon : Dict Transformation → List String → Type 0
IsSiphon ts s =
    (t : Transformation) → Memᴰ t (values ts) → Meets (flow_outputs t) s → Meets (flow_inputs t) s

pub is_siphon_iff_to :
    (ts : Dict Transformation) (s : List String) → is_siphon ts s ≡ true → IsSiphon ts s
unfolding is_siphon
is_siphon_iff_to ts s h t m o =
    (intersects_iff (flow_inputs t) s).0
      (ground (arith, all_elim _ t (values ts) h m, (intersects_iff (flow_outputs t) s).1 o))

pub is_siphon_of :
    (ts : Dict Transformation) (s : List String) → IsSiphon ts s → is_siphon ts s ≡ true
unfolding is_siphon
is_siphon_of ts s h = all_intro _ (values ts) λ t m.
    elim (Bool-cases (intersects (flow_outputs t) s)) [
      | inl met ↦ ground (
        arith,
        met,
        (intersects_iff (flow_inputs t) s).1 (h t m ((intersects_iff (flow_outputs t) s).0 met)),
      )
      | inr apart ↦ ground (arith, apart)
    ]

pub IsSiphon-same :
    (ts : Dict Transformation) (v w : List String) → SameMembers v w → IsSiphon ts v → IsSiphon ts w
IsSiphon-same ts v w e h t m (x, o, n) =
    let (y, i, k) = h t m (x, o, (e x).1 n) in (y, i, (e y).0 k)

abbrev pub IsNonemptySiphon : Dict Transformation → List String → Type 0
IsNonemptySiphon ts s = ((x : String) × Memᴰ x s) × IsSiphon ts s

-- Within the coordinate bound the enumeration says that it is exhaustive, and its values are the
-- minimal sets among the nonempty siphons over the coordinates.
pub enumerate_minimal_siphons_correct :
    (ts : Dict Transformation) (coordinates : List String) (maximum : ℕ)
    → length (sorted (to_set coordinates)) ≤ maximum
    → ((enumerate_minimal_siphons ts coordinates maximum).value.exhaustive ≡ true)
      × AreMinimal
          (IsNonemptySiphon ts)
          coordinates
          (enumerate_minimal_siphons ts coordinates maximum).value.values
unfolding enumerate_minimal_siphons
enumerate_minimal_siphons_correct ts coordinates maximum h =
    let ordered = sorted (to_set coordinates) in
    let below : ltb maximum (length ordered) ≡ false = ground arith in
    rw below (
      refl,
      AreMinimal-over (IsNonemptySiphon ts) ordered coordinates _
          (sorted_set-SameMembers coordinates)
          (search_AreMinimal (λ c. pure (is_siphon ts c)) (IsNonemptySiphon ts) 1 ordered
            (sorted-IsUnique (to_set coordinates) (to_set-IsUnique coordinates))
            (λ v w e ((x, m), s). ((x, (e x).0 m), IsSiphon-same ts v w e s))
            (λ v _ big good. (length-member v big, is_siphon_iff_to ts v good))
            (λ v p. is_siphon_of ts v p.1)
            (λ v w e good. is_siphon_of ts w (IsSiphon-same ts v w e (is_siphon_iff_to ts v good)))
            (λ w s ((x, m), _). nonempty_length _ x ((Memᴰ-selection ordered w s x).1 m))),
    )

-- Past the coordinate bound nothing is enumerated, nothing is spent, and the result says that it is
-- not exhaustive.
pub enumerate_minimal_siphons_bounded :
    (ts : Dict Transformation) (coordinates : List String) (maximum : ℕ)
    → maximum < length (sorted (to_set coordinates))
    → enumerate_minimal_siphons ts coordinates maximum
      ≡ record { value = record { values = []; exhaustive = false }; spent = 0 }
unfolding enumerate_minimal_siphons
enumerate_minimal_siphons_bounded ts coordinates maximum h =
    let above : ltb maximum (length (sorted (to_set coordinates))) ≡ true = ground arith in rw above
