-- ===== src/SlotIndex/Gap.antt =====
-- The loop of `remove_at`, which closes the gap that an emptied cell leaves in the probe runs.
use key_value_db.Base.{
  ℕ, zero, suc, ◌-◌, ◌≤◌, ◌<◌, ◌≡◌, refl, sym, ap, ◌∙◌, ◌≢◌, ◌⊎◌, inl, inr, Bool, true, false, some,
  arith, ◌==◌, ==_iff, Bool-cases,
}
use native.Mathlib.Nat.{mod-lt}
use mathlib.Core.Bool.{true≢false}
use key_value_db.SlotIndex.{Config, Cells, home, next, store, stays, close_gap}
use key_value_db.SlotIndex.Cyclic.{
  Follows, step_Follows, passes, passes-end, passes-stays, passes-moved, stays_step, stays_self,
  home-lt, Away, Away-step, Away-end, Phase, Phase-ahead, Phase-kept, Phase-moved, Phase-before,
}
use key_value_db.SlotIndex.Tally.{tally, Weighs, store_self, tally_move}
use key_value_db.SlotIndex.Probe.{Reach}

-- Each probe run is unbroken but for the hole i, and the cells that i cuts off lie beyond j.
abbrev pub Gap : Config → (ℕ → ℕ) → ℕ → ℕ → Type 0
Gap c ids i j =
    (m k : ℕ)
    → m < c.cap
    → k < c.cap
    → ids m ≢ 0
    → passes (home c (ids m)) k m ≡ true
    → (ids k ≢ 0) ⊎ ((k ≡ i) × (stays c i j m ≡ false))

-- The table after: unbroken, with the same entries, and nothing new below the first hole.
pub record Closed (c : Config) (ids offs : ℕ → ℕ) (i0 : ℕ) (t : Cells) : Type 0 where
  pub reach : Reach c t.0
  pub same : (w : ℕ → ℕ → ℕ) → Weighs w → tally w t.0 t.1 c.cap ≡ tally w ids offs c.cap
  pub below :
      (P : ℕ → Bool)
      → P 0 ≡ true
      → ((m : ℕ) → m < i0 → P (ids m) ≡ true)
      → (m : ℕ) → m < i0
      → P (t.0 m) ≡ true

module _ (c : Config) where
  open c use {cap}

  Gap-Reach :
      (ids : ℕ → ℕ) (i j0 j : ℕ)
      → Follows cap j0 j
      → j < cap
      → i < cap
      → i ≢ j
      → ids j ≡ 0
      → Gap c ids i j0
      → Reach c ids
  Gap-Reach ids i j0 j f jl il apart z gap m k ml kl mu p =
      let h = home c (ids m) in
      let hl = home-lt c (ids m) (omega arith) in
      elim (gap m k ml kl mu p) [
        | inl u ↦ u
        | inr (e, s) ↦
            let cut =
              passes-end c h i j0 j m f hl il ml (λ q. mu (ap ids q ∙ z)) apart (rw (← e) p) s in
            absurd (elim (gap m j ml jl mu cut) [ inl u ↦ u z | inr (q, _) ↦ apart (sym q) ])
      ]

  Gap-kept :
      (ids : ℕ → ℕ) (i j0 j : ℕ)
      → Follows cap j0 j
      → j < cap
      → i < cap
      → i ≢ j
      → stays c i j (home c (ids j)) ≡ true
      → Gap c ids i j0
      → Gap c ids i j
  Gap-kept ids i j0 j f jl il apart st gap m k ml kl mu p = elim (gap m k ml kl mu p) [
    | inl u ↦ inl u
    | inr (e, s) ↦ elim (Bool-cases (m == j)) [
      | inl b ↦
          let q : m ≡ j = (==_iff m j).0 b in
          let no = passes-stays c (home c (ids j)) i j (home-lt c (ids j) (omega arith)) il jl st in
          absurd (true≢false (sym p ∙ (rw (e, q) no)))
      | inr b ↦ inr (e, stays_step c i j0 j m f il ml (ground arith) apart s)
    ]
  ]

  module _ (ids : ℕ → ℕ) (i j : ℕ) (apart : i ≢ j) where
    moved : ℕ → ℕ
    moved = store (store ids i (ids j)) j 0

    moved_cases :
        (m : ℕ)
        → ((m ≡ j) × (moved m ≡ 0))
          ⊎ ((m ≡ i) × (moved m ≡ ids j))
          ⊎ ((m ≢ j) × (m ≢ i) × (moved m ≡ ids m))
    unfolding moved
    moved_cases m = ground arith

    moved_used :
        (m k : ℕ)
        → ids j ≢ 0
        → (ids k ≢ 0) ⊎ (k ≡ i)
        → (moved k ≢ 0) ⊎ ((k ≡ j) × (stays c j j m ≡ false))
    moved_used m k ju h = elim (moved_cases k) [
      | inl (e, _) ↦ inr (e, stays_self c j m)
      | inr (inl (_, v)) ↦ inl (λ z. ju (sym v ∙ z))
      | inr (inr (_, ne, v)) ↦ inl λ z. elim h [ inl u ↦ u (sym v ∙ z) | inr e ↦ ne e ]
    ]

    Gap-moved :
        (j0 : ℕ)
        → j < cap
        → i < cap
        → ids j ≢ 0
        → stays c i j (home c (ids j)) ≡ false
        → Gap c ids i j0
        → Gap c moved j j
    Gap-moved j0 jl il ju st gap m k ml kl mu p =
        let hl = home-lt c (ids j) (omega arith) in
        elim (moved_cases m) [
          | inl (_, v) ↦ absurd (mu v)
          | inr (inl (e, v)) ↦
              let path : passes (home c (ids j)) k i ≡ true = rw (← e, ← v) p in
              let (q, ne, _) = passes-moved c (home c (ids j)) i j k hl il jl kl apart st path in
              moved_used m k ju
                (elim (gap j k jl kl ju q) [ inl u ↦ inl u | inr (e', _) ↦ absurd (ne e') ])
          | inr (inr (_, _, v)) ↦
              let rest = gap m k ml kl (λ z. mu (v ∙ z)) (rw (← v) p) in
              moved_used m k ju (elim rest [ inl u ↦ inl u | inr (e', _) ↦ inr e' ])
        ]

    moved_below :
        (i0 e : ℕ)
        → Phase i0 e i j
        → (P : ℕ → Bool) → P 0 ≡ true
        → ((m : ℕ) → m < i0 → P (ids m) ≡ true)
        → (m : ℕ) → m < i0
        → P (moved m) ≡ true
    moved_below i0 e phase P p0 before m l = elim (moved_cases m) [
      | inl (_, v) ↦ rw (v) p0
      | inr (inl (q, v)) ↦ rw (v) (before j (Phase-before i0 e i j phase (omega arith)))
      | inr (inr (_, _, v)) ↦ rw (v) (before m l)
    ]

  hole_apart :
      (i0 e i j0 j : ℕ) → Follows cap j0 j → e < cap → i0 < cap → i < cap → Phase i0 e i j0 → i ≢ j
  hole_apart i0 e i j0 j f el i0l il phase = elim (Bool-cases (j == e)) [
    | inl b ↦ rw ((==_iff j e).0 b) (λ q. (Phase-ahead i0 e i j0 phase).0 (sym q))
    | inr b ↦ (Phase-kept cap i0 e i j0 j f el i0l il (ground arith) phase).0
  ]

  -- The loop ends within the rounds it takes to the free cell e.
  pub close_gap_lem :
      (i0 e d n : ℕ) (ids offs : ℕ → ℕ) (i j0 : ℕ)
      → e < cap
      → i0 < cap
      → i < cap
      → j0 < cap
      → ids e ≡ 0
      → ids i ≡ 0
      → Gap c ids i j0
      → Phase i0 e i j0
      → Away cap d j0 e
      → d ≤ n
      → d < cap
      → (t : Cells) × (close_gap c n ids offs i j0 ≡ some t) × Closed c ids offs i0 t
  unfolding close_gap moved
  close_gap_lem i0 e d zero ids offs i j0 el i0l il j0l z hole gap phase away dn dc = absurd (
      (Phase-ahead i0 e i j0 phase).1 (
        sym (
          Away-end cap j0 e j0l el
            (elim away [ inl a ↦ inl (omega arith) | inr a ↦ inr (omega arith) ]))))
  close_gap_lem i0 e d (suc n) ids offs i j0 el i0l il j0l z hole gap phase away dn dc =
      let j = next c j0 in
      let jl : j < cap = mod-lt _ (omega arith) in
      let f = step_Follows cap j0 j0l in
      elim (Bool-cases (ids j == 0)) [
        | inl b ↦
            let free : ids j ≡ 0 = (==_iff (ids j) 0).0 b in
            let apart : i ≢ j = hole_apart i0 e i j0 j f el i0l il phase in
            rw (close_gap, b)
              (
                (ids, offs),
                refl,
                record {
                  reach = Gap-Reach ids i j0 j f jl il apart free gap;
                  same = λ w _. refl;
                  below = λ P _ h. h;
                },
              )
        | inr b ↦
            let ju : ids j ≢ 0 = ground arith in
            let ne : j ≢ e = λ q. ju (ap ids q ∙ z) in
            let ne0 : j0 ≢ e = λ q. (Phase-ahead i0 e i j0 phase).1 (sym q) in
            let (apart, kept) = Phase-kept cap i0 e i j0 j f el i0l il ne phase in
            let (_, away') = Away-step cap d j0 j e f el ne0 away dc in
            elim (Bool-cases (stays c i j (home c (ids j)))) [
              | inl s ↦
                  rw (close_gap, b, s)
                    (close_gap_lem i0 e (d - 1) n ids offs i j el i0l il jl z hole
                      (Gap-kept ids i j0 j f jl il apart s gap) kept away' (omega arith)
                      (omega arith))
              | inr s ↦
                  let (t, run, closed) =
                    close_gap_lem i0 e (d - 1) n (moved ids i j apart) (store offs i (offs j)) j j
                      el i0l jl jl
                      (ground (arith, moved_cases ids i j apart e, Phase-ahead i0 e i j kept))
                      (store_self (store ids i (ids j)) j 0)
                      (Gap-moved ids i j apart j0 jl il ju s gap)
                      (Phase-moved cap i0 e i j0 j f el i0l il ne phase) away' (omega arith)
                      (omega arith) in
                  rw (close_gap, b, s)
                    (
                      t,
                      run,
                      record {
                        reach = closed.reach;
                        same = λ w wz.
                            closed.same w wz ∙ tally_move w ids offs cap i j wz il jl hole ju;
                        below = λ P p0 h.
                            closed.below P p0 (moved_below ids i j apart i0 e kept P p0 h);
                      },
                    )
            ]
      ]
