-- ===== src/Structural/Raf/Support.antt =====
-- What it is for a transformation to be supported by a set of available states, and that
-- is_supported decides it.
use mathlib.Core.Bool.{false≢true}
use collective_phase_control.Prelude.{
  String, ◌≡◌, refl, sym, ◌∙◌, ◌↔◌, ◌⊎◌, inl, inr, ⊎_elim, true, false, ◌||◌, Option, none, some,
  List, Memᴰ, arith, any, Bool-cases, any_intro, any_elim, any-false,
}
use collective_phase_control.Ids.{elem, subset, intersects}
use collective_phase_control.Ids.Laws.{elem_iff, subset_intro, subset_elim, intersects_iff}
use collective_phase_control.Ids.Dict.{Dict, get}
use collective_phase_control.Structural.{Transformation, flow_inputs}
use collective_phase_control.Structural.Raf.{is_supported, is_found_supported, is_supported_id}

-- inputs available, no inhibitor available, evidence and authority at hand, and uncatalyzed or one
-- catalyst clause available as a whole
pub record Supported (evidence authority : List String) (Avail : String → Type 0)
    (t : Transformation) : Type 0 where
  pub fed : (x : String) → Memᴰ x (flow_inputs t) → Avail x
  pub uninhibited : (x : String) → Memᴰ x t.inhibitors → ¬ Avail x
  pub evidenced : (x : String) → Memᴰ x t.required_evidence → Memᴰ x evidence
  pub authorized : (x : String) → Memᴰ x t.required_authority → Memᴰ x authority
  pub catalyzed :
      (t.uncatalyzed ≡ true)
      ⊎ ((clause : List String) × Memᴰ clause t.catalyst_clauses
          × ((x : String) → Memᴰ x clause → Avail x))

module _ (evidence authority : List String) where
  -- more states support as much where nothing inhibits
  pub Supported-mono :
      (A B : String → Type 0) (t : Transformation)
      → ((x : String) → A x → B x)
      → ((x : String) → Memᴰ x t.inhibitors → ¬ B x)
      → Supported evidence authority A t
      → Supported evidence authority B t
  Supported-mono A B t f n h = record {
    fed = λ x m. f x (h.fed x m);
    uninhibited = n;
    evidenced = h.evidenced;
    authorized = h.authorized;
    catalyzed = ⊎_elim inl (λ (c, m, g). inr (c, m, λ x k. f x (g x k))) h.catalyzed;
  }

module _ (evidence authority available : List String) (Avail : String → Type 0)
    (same : (x : String) → Memᴰ x available ↔ Avail x) where
  pub Supported-of :
      (t : Transformation)
      → is_supported evidence authority available t ≡ true
      → Supported evidence authority Avail t
  unfolding is_supported
  Supported-of t h = record {
    fed = λ x m. (same x).0 (subset_elim (flow_inputs t) available (ground (arith, h)) x m);
    uninhibited = λ x m a. false≢true (
        sym (any-false (λ y. elem y available) x t.inhibitors (ground (arith, h)) m)
        ∙ (elem_iff x available).1 ((same x).1 a));
    evidenced = subset_elim t.required_evidence evidence (ground (arith, h));
    authorized = subset_elim t.required_authority authority (ground (arith, h));
    catalyzed = elim (Bool-cases t.uncatalyzed) [
      | inl free ↦ inl free
      | inr bound ↦
          let (clause, m, c) =
            any_elim (λ c. subset c available) t.catalyst_clauses (ground (arith, h, bound)) in
          inr (clause, m, λ x k. (same x).0 (subset_elim clause available c x k))
    ];
  }

  is_supported_of :
      (t : Transformation)
      → Supported evidence authority Avail t
      → is_supported evidence authority available t ≡ true
  unfolding is_supported
  is_supported_of t h = ground (arith, inputs, calm, proofs, rights, catalyst)
    where
      inputs : subset (flow_inputs t) available ≡ true
      inputs = subset_intro (flow_inputs t) available (λ x m. (same x).1 (h.fed x m))

      calm : intersects t.inhibitors available ≡ false
      calm = elim (Bool-cases (intersects t.inhibitors available)) [
        | inl met ↦
            let (x, m, a) = (intersects_iff t.inhibitors available).0 met in
            absurd (h.uninhibited x m ((same x).0 a))
        | inr apart ↦ apart
      ]

      proofs : subset t.required_evidence evidence ≡ true
      proofs = subset_intro t.required_evidence evidence h.evidenced

      rights : subset t.required_authority authority ≡ true
      rights = subset_intro t.required_authority authority h.authorized

      catalyst : (t.uncatalyzed || any (λ c. subset c available) t.catalyst_clauses) ≡ true
      catalyst = elim h.catalyzed [
        | inl free ↦ rw free
        | inr (clause, m, g) ↦
            let found =
              any_intro (λ c. subset c available) clause t.catalyst_clauses m
                (subset_intro clause available (λ x k. (same x).1 (g x k))) in
            ground (arith, found)
      ]

  is_found_supported_iff :
      (o : Option Transformation)
      → (is_found_supported evidence authority available o ≡ true)
        ↔ ((t : Transformation) × (o ≡ some t) × Supported evidence authority Avail t)
  unfolding is_found_supported
  is_found_supported_iff none = (λ h. cc, λ (t, k, _). cc)
  is_found_supported_iff (some t) = (
    λ h. (t, refl, Supported-of t h),
    λ (u, k, s). let same_t : u ≡ t = cc in is_supported_of t (rw same_t at s),
  )

  -- is_supported_id holds exactly of the identifiers whose transformation is supported
  pub is_supported_id_iff :
      (ts : Dict Transformation) (i : String)
      → (is_supported_id ts evidence authority available i ≡ true)
        ↔ ((t : Transformation) × (get i ts ≡ some t) × Supported evidence authority Avail t)
  unfolding is_supported_id
  is_supported_id_iff ts i = is_found_supported_iff (get i ts)
