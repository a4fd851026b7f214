-- ===== src/Enumeration/Minimal.antt =====
-- The loop `collect`: what it keeps passes the test, every candidate that passes contains a kept
-- one, and a kept one contains no smaller candidate that passes.
use mathlib.Core.Bool.{false≢true}
use mathlib.Core.List.Memᴰ
use collective_phase_control.Prelude.{
  String, ◌≡◌, refl, sym, ◌∙◌, ◌⊎◌, inl, inr, ⊎_elim, Bool, true, false, List, [], ◌∷◌, ◌++◌, Memᴰ,
  arith, Bool-cases, any, any_intro, any_elim, Cost,
}
use collective_phase_control.Ids.{subset}
use collective_phase_control.Ids.Laws.{subset_trans, subset_refl}
use collective_phase_control.Enumeration.{collect}

abbrev Family : Type 0
Family = List (List String)

-- no later candidate is a proper part of an earlier one
abbrev pub IsGrowing : Family → Type 0
IsGrowing [] = Unit
IsGrowing (c ∷ cs) =
    ((w : List String) → Memᴰ w cs → subset w c ≡ true → subset c w ≡ true) × IsGrowing cs

module _ (test : List String → Cost Bool) where
  abbrev pub Passes : List String → Type 0
  Passes c = (test c).value ≡ true

  abbrev contained : Family → List String → Bool
  contained kept c = any (λ e. subset e c) kept

  -- the three ways through the body of the loop
  collect_cases :
      (kept : Family) (c : List String) (rest : Family)
      → ((contained kept c ≡ true)
          × ((collect test kept (c ∷ rest)).value ≡ (collect test kept rest).value))
        ⊎ ((contained kept c ≡ false)
            × ((test c).value ≡ false)
            × ((collect test kept (c ∷ rest)).value ≡ (collect test kept rest).value))
        ⊎ ((contained kept c ≡ false)
            × Passes c
            × ((collect test kept (c ∷ rest)).value ≡ (collect test (kept ++ c ∷ []) rest).value))
  unfolding collect
  collect_cases kept c rest = elim (Bool-cases (contained kept c)) [
    | inl old ↦ inl (old, ground (arith, old))
    | inr new ↦ elim (Bool-cases (test c).value) [
      | inl good ↦ inr (inr (new, good, ground (arith, new, good)))
      | inr bad ↦ inr (inl (new, bad, ground (arith, new, bad)))
    ]
  ]

  pub collect_keeps :
      (kept cs : Family) (v : List String) → Memᴰ v kept → Memᴰ v (collect test kept cs).value
  unfolding collect
  collect_keeps kept [] v m = m
  collect_keeps kept (c ∷ cs) v m = elim (collect_cases kept c cs) [
    | inl (_, e) ↦ rw e (collect_keeps kept cs v m)
    | inr (inl (_, _, e)) ↦ rw e (collect_keeps kept cs v m)
    | inr (inr (_, _, e)) ↦ rw e (collect_keeps (kept ++ c ∷ []) cs v (Memᴰ.append_left _ m))
  ]

  pub collect_sound :
      (kept cs : Family) (v : List String)
      → Memᴰ v (collect test kept cs).value
      → Memᴰ v kept ⊎ Memᴰ v cs × Passes v
  unfolding collect
  collect_sound kept [] v m = inl m
  collect_sound kept (c ∷ cs) v m = elim (collect_cases kept c cs) [
    | inl (_, e) ↦ later (collect_sound kept cs v (rw e at m))
    | inr (inl (_, _, e)) ↦ later (collect_sound kept cs v (rw e at m))
    | inr (inr (_, good, e)) ↦ elim (collect_sound (kept ++ c ∷ []) cs v (rw e at m)) [
      | inl k ↦ elim (Memᴰ.append_cases kept k) [
        | inl old ↦ inl old
        | inr new ↦ let same = Memᴰ.eq_of_singleton new in inr (Memᴰ.head same, rw same good)
      ]
      | inr (n, p) ↦ inr (Memᴰ.tail n, p)
    ]
  ]
    where
      later : Memᴰ v kept ⊎ Memᴰ v cs × Passes v → Memᴰ v kept ⊎ Memᴰ v (c ∷ cs) × Passes v
      later = ⊎_elim inl (λ r. inr (Memᴰ.tail r.0, r.1))

  abbrev pub Covers : Family → List String → Type 0
  Covers kept c = (v : List String) × Memᴰ v kept × (subset v c ≡ true)

  pub collect-Covers :
      (kept cs : Family) (c : List String)
      → Memᴰ c cs
      → Passes c
      → Covers (collect test kept cs).value c
  collect-Covers kept [] c m p = absurd (Memᴰ.not-nil m)
  collect-Covers kept (d ∷ cs) c m p = elim (Memᴰ.cases_cons m) [
    | inl here ↦ rw here (elim (collect_cases kept d cs) [
      | inl (old, e) ↦
          let (v, n, s) = any_elim _ kept old in (v, rw e (collect_keeps kept cs v n), s)
      | inr (inl (_, bad, _)) ↦ absurd (false≢true (sym bad ∙ (rw here at p)))
      | inr (inr (_, _, e)) ↦ (
        d,
        rw e (collect_keeps (kept ++ d ∷ []) cs d (Memᴰ.append_right kept (Memᴰ.head refl))),
        subset_refl d,
      )
    ])
    | inr there ↦ elim (collect_cases kept d cs) [
      | inl (_, e) ↦ rw e (collect-Covers kept cs c there p)
      | inr (inl (_, _, e)) ↦ rw e (collect-Covers kept cs c there p)
      | inr (inr (_, _, e)) ↦ rw e (collect-Covers (kept ++ d ∷ []) cs c there p)
    ]
  ]

  -- `past` are the candidates behind, `kept` what was kept of them, `cs` those ahead
  record Inv (past : List String → Type 0) (kept cs : Family) : Type 0 where
    covers : (w : List String) → past w → Passes w → Covers kept w
    minimal :
        (v w : List String)
        → Memᴰ v kept
        → past w
        → Passes w
        → subset w v ≡ true
        → subset v w ≡ true
    ahead : (v w : List String) → Memᴰ v kept → Memᴰ w cs → subset w v ≡ true → subset v w ≡ true

  abbrev Past : (List String → Type 0) → List String → List String → Type 0
  Past past c w = past w ⊎ (w ≡ c)

  Inv-skip :
      (past : List String → Type 0) (kept : Family) (c : List String) (cs : Family)
      → Inv past kept (c ∷ cs)
      → (Passes c → Covers kept c)
      → Inv (Past past c) kept cs
  Inv-skip past kept c cs h covered = record {
    covers = λ w. ⊎_elim (h.covers w) (λ e p. rw e (covered (rw e at p)));
    minimal =
        λ v w m b p s. ⊎_elim (λ q. h.minimal v w m q p s) (λ e. h.ahead v w m (Memᴰ.head e) s) b;
    ahead = λ v w m n. h.ahead v w m (Memᴰ.tail n);
  }

  Inv-keep :
      (past : List String → Type 0) (kept : Family) (c : List String) (cs : Family)
      → Inv past kept (c ∷ cs)
      → contained kept c ≡ false
      → IsGrowing (c ∷ cs)
      → Inv (Past past c) (kept ++ c ∷ []) cs
  Inv-keep past kept c cs h new g = record {
    covers = λ w.
        ⊎_elim (λ q p. let (v, n, s) = h.covers w q p in (v, Memᴰ.append_left _ n, s))
          (λ e p. (c, Memᴰ.append_right kept (Memᴰ.head refl), rw e (subset_refl c)));
    minimal = λ v w m b p s.
        ⊎_elim
          (λ old. ⊎_elim (λ q. h.minimal v w old q p s) (λ e. h.ahead v w old (Memᴰ.head e) s) b)
          (λ last.
            let same = Memᴰ.eq_of_singleton last in
            ⊎_elim
              (λ q.
                let (a, n, t) = h.covers w q p in
                absurd (
                  false≢true
                    (sym new ∙ any_intro _ a kept n (subset_trans a w c t (rw same at s)))))
              (λ e. rw (same, e) (subset_refl c)) b)
          (Memᴰ.append_cases kept m);
    ahead = λ v w m n s.
        ⊎_elim (λ old. h.ahead v w old (Memᴰ.tail n) s)
          (λ last. let same = Memᴰ.eq_of_singleton last in rw same (g.0 w n (rw same at s)))
          (Memᴰ.append_cases kept m);
  }

  collect_minimal :
      (past : List String → Type 0) (kept cs : Family)
      → Inv past kept cs
      → IsGrowing cs
      → (v w : List String) → Memᴰ v (collect test kept cs).value
      → past w ⊎ Memᴰ w cs
      → Passes w
      → subset w v ≡ true
      → subset v w ≡ true
  unfolding collect
  collect_minimal past kept [] h g v w m b p s =
      ⊎_elim (λ q. h.minimal v w m q p s) (λ n. absurd (Memᴰ.not-nil n)) b
  collect_minimal past kept (c ∷ cs) h g v w m b p s = elim (collect_cases kept c cs) [
    | inl (old, e) ↦
        collect_minimal (Past past c) kept cs (Inv-skip past kept c cs h (λ _. any_elim _ kept old))
          g.1 v w (rw e at m) step p s
    | inr (inl (_, bad, e)) ↦
        collect_minimal (Past past c) kept cs
          (Inv-skip past kept c cs h (λ good. absurd (false≢true (sym bad ∙ good)))) g.1 v w
          (rw e at m) step p s
    | inr (inr (new, _, e)) ↦
        collect_minimal (Past past c) (kept ++ c ∷ []) cs (Inv-keep past kept c cs h new g) g.1 v w
          (rw e at m) step p s
  ]
    where
      step : Past past c w ⊎ Memᴰ w cs
      step = ⊎_elim (λ q. inl (inl q)) (λ n. ⊎_elim (λ e. inl (inr e)) inr (Memᴰ.cases_cons n)) b

  -- With the candidates in a growing order, what is kept contains no smaller one that passes.
  pub collect-minimal :
      (cs : Family)
      → IsGrowing cs
      → (v w : List String) → Memᴰ v (collect test [] cs).value
      → Memᴰ w cs
      → Passes w
      → subset w v ≡ true
      → subset v w ≡ true
  collect-minimal cs g v w m n =
      collect_minimal (λ _. ⊥) [] cs
        (record {
          covers = λ w q. absurd q;
          minimal = λ v w m. absurd (Memᴰ.not-nil m);
          ahead = λ v w m. absurd (Memᴰ.not-nil m);
        })
        g v w m (inr n)
