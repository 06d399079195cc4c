-- ===== src/SlotIndex/Probe.antt =====
-- The probe loops of `find` and `put` on a table with no broken probe run.
use key_value_db.Base.{
  ℕ, zero, suc, ◌-◌, ◌<◌, ◌≡◌, refl, sym, ap, ◌∙◌, ◌≢◌, ◌⊎◌, inl, inr, true, false, Option, none,
  some, arith, ◌==◌, ==_iff, Bool-cases,
}
use native.Mathlib.Nat.{mod-lt}
use mathlib.Core.Option.{none-ne-some}
use mathlib.Core.Bool.{true≢false}
use key_value_db.SlotIndex.{Config, Stop, held, broke, home, next, find_from, probe}
use key_value_db.SlotIndex.Cyclic.{
  step_Follows, passes, passes_step, passes_next, passes_start, passes_self, home-lt, Away,
  Away-start, Away-step,
}

-- Each cell that is passed on the way from an id's home to its cell is in use.
abbrev pub Reach : Config → (ℕ → ℕ) → Type 0
Reach c ids =
    (m k : ℕ) → m < c.cap → k < c.cap → ids m ≢ 0 → passes (home c (ids m)) k m ≡ true → ids k ≢ 0

-- `id` has no cell
abbrev pub Absent : Config → (ℕ → ℕ) → ℕ → Type 0
Absent c ids id = (m : ℕ) → m < c.cap → ids m ≢ id

-- what a probe came to: the id's cell, or none
abbrev pub Found : Config → (ℕ → ℕ) → ℕ → Option ℕ → Type 0
Found c ids id r = (k : ℕ) × (k < c.cap) × (r ≡ some k) × (ids k ≡ id)

module _ (c : Config) (ids : ℕ → ℕ) where
  open c use {cap}

  pub find_from_cases :
      (id n i : ℕ)
      → i < cap
      → Found c ids id (find_from c ids id n i) ⊎ (find_from c ids id n i ≡ none)
  unfolding find_from
  find_from_cases id zero i l = inr refl
  find_from_cases id (suc n) i l = elim (Bool-cases (ids i == id)) [
    | inl e ↦ inl (i, l, rw (e) refl, (==_iff (ids i) id).0 e)
    | inr e ↦ elim (Bool-cases (ids i == 0)) [
      | inl z ↦ inr (rw (e, z) refl)
      | inr z ↦ rw (e, z) (find_from_cases id n (next c i) (mod-lt _ (omega arith)))
    ]
  ]

  find_from_reaches :
      (id m d n i : ℕ)
      → Reach c ids
      → id ≢ 0
      → m < cap
      → ids m ≡ id
      → i < cap
      → (i ≡ m) ⊎ (passes (home c id) i m ≡ true)
      → Away cap d i m
      → d < n
      → d < cap
      → Found c ids id (find_from c ids id n i)
  unfolding find_from
  find_from_reaches id m d zero i reach nz ml here il on away dn dc = absurd (omega arith)
  find_from_reaches id m d (suc n) i reach nz ml here il on away dn dc =
      elim (Bool-cases (ids i == id)) [
        | inl e ↦ (i, il, rw (e) refl, (==_iff (ids i) id).0 e)
        | inr e ↦
            let other : ids i ≢ id = ground arith in
            let apart : i ≢ m = λ p. other (ap ids p ∙ here) in
            let way : passes (home c id) i m ≡ true = ground arith in
            let used : ids i ≢ 0 = reach m i ml il (λ z. nz (sym here ∙ z)) (rw (here) way) in
            let busy : (ids i == 0) ≡ false = ground arith in
            let f = step_Follows cap i il in
            let (pos, away') = Away-step cap d i (next c i) m f ml apart away dc in
            let rest =
              find_from_reaches id m (d - 1) n (next c i) reach nz ml here (mod-lt _ (omega arith))
                (passes_step c (home c id) i (next c i) m f ml (home-lt c id (omega arith)) way)
                away' (omega arith) (omega arith) in
            rw (e, busy) rest
      ]

  -- The probe of an id that the table holds.
  pub find_from-Found :
      (id m : ℕ)
      → Reach c ids
      → id ≢ 0
      → m < cap
      → ids m ≡ id
      → Found c ids id (find_from c ids id cap (home c id))
  find_from-Found id m reach nz ml here =
      let h = home-lt c id (omega arith) in
      let (d, dl, away) = Away-start cap (home c id) m h ml in
      find_from_reaches id m d cap (home c id) reach nz ml here h (passes_start c (home c id) m)
        away dl dl

  -- `put`'s loop ends where `find`'s does.
  pub probe_held : (id n i k : ℕ) → find_from c ids id n i ≡ some k → probe c ids id n i ≡ held k
  unfolding find_from probe
  probe_held id zero i k e = absurd (none-ne-some k e)
  probe_held id (suc n) i k e = ground (arith, probe_held id n (next c i) k)

  -- A vacant cell for an absent id, with the cells up to it in use.
  abbrev pub Vacant : ℕ → Stop → Type 0
  Vacant id r =
      (k : ℕ) × (k < cap)
      × (r ≡ broke k)
      × (ids k ≡ 0)
      × ((m : ℕ) → m < cap → passes (home c id) m k ≡ true → ids m ≢ 0)

  probe-Vacant_on :
      (id e d n i : ℕ)
      → Absent c ids id
      → e < cap
      → ids e ≡ 0
      → i < cap
      → ((m : ℕ) → m < cap → passes (home c id) m i ≡ true → ids m ≢ 0)
      → Away cap d i e
      → d < n
      → d < cap
      → Vacant id (probe c ids id n i)
  unfolding probe
  probe-Vacant_on id e d zero i gone el z il on away dn dc = absurd (omega arith)
  probe-Vacant_on id e d (suc n) i gone el z il on away dn dc =
      let other : (ids i == id) ≡ false = ground (arith, gone i il) in
      elim (Bool-cases (ids i == 0)) [
        | inl b ↦ (i, il, rw (other, b) refl, (==_iff (ids i) 0).0 b, on)
        | inr b ↦
            let used : ids i ≢ 0 = ground arith in
            let apart : i ≢ e = λ p. used (ap ids p ∙ z) in
            let f = step_Follows cap i il in
            let away' = Away-step cap d i (next c i) e f el apart away dc in
            rw (other, b)
              (probe-Vacant_on id e (d - 1) n (next c i) gone el z (mod-lt _ (omega arith))
                (λ m ml p.
                  elim (passes_next c (home c id) i (next c i) m f ml (home-lt c id (omega arith))
                    p) [ inl q ↦ rw (q) used | inr q ↦ on m ml q ])
                away'.1 (omega arith) (omega arith))
      ]

  pub probe-Absent :
      (id e : ℕ)
      → Absent c ids id
      → e < cap
      → ids e ≡ 0
      → Vacant id (probe c ids id cap (home c id))
  probe-Absent id e gone el z =
      let h = home-lt c id (omega arith) in
      let (d, dl, away) = Away-start cap (home c id) e h el in
      probe-Vacant_on id e d cap (home c id) gone el z h
        (λ m ml p. absurd (true≢false (sym p ∙ passes_self c (home c id) m))) away dl dl
