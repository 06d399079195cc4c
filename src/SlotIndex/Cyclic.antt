-- ===== src/SlotIndex/Cyclic.antt =====
-- Cells in probing order: the cell after a cell, the cells a probe passes on its way from a home to a
-- cell, and what `remove_at`'s test on the cyclic range (i, j] says about them.
use key_value_db.Base.{
  ℕ, ◌+◌, ◌-◌, ◌%◌, ◌≤◌, ◌<◌, ◌≡◌, ◌≢◌, ◌⊎◌, inl, inr, Bool, true, false, ◌&&◌, ◌||◌, arith, ltb,
  leb, if◌then◌else◌, ltb→lt, ltb→le, Bool-cases,
}
use native.Mathlib.Nat.{mod-eq_of_lt, mod_self, mod-lt}
use key_value_db.SlotIndex.{Config, stays, home}

-- `j` follows `j0`
abbrev pub Follows : ℕ → ℕ → ℕ → Type 0
Follows cap j0 j = ((j0 + 1 < cap) × (j ≡ j0 + 1)) ⊎ ((j0 + 1 ≡ cap) × (j ≡ 0))

pub step_Follows : (cap i : ℕ) → i < cap → Follows cap i ((i + 1) % cap)
step_Follows cap i h = elim (Bool-cases (ltb (i + 1) cap)) [
  | inl e ↦ let l = ltb→lt (i + 1) cap e in inl (l, mod-eq_of_lt l)
  | inr e ↦
      let full : i + 1 ≡ cap = omega (arith, ltb→le (i + 1) cap e) in
      inr (full, rw (full) (mod_self cap))
]

-- k is passed on the way from h to m
unfoldable pub passes : ℕ → ℕ → ℕ → Bool
passes h k m = if leb h m then leb h k && ltb k m else leb h k || ltb k m

module _ (c : Config) where
  open c use {cap}

  pub passes-end :
      (h i j0 j m : ℕ)
      → Follows cap j0 j
      → h < cap
      → i < cap
      → m < cap
      → m ≢ j
      → i ≢ j
      → passes h i m ≡ true
      → stays c i j0 m ≡ false
      → passes h j m ≡ true
  unfolding passes stays
  passes-end h i j0 j m f hc ic mc mj ij p s = ground arith

  pub passes-stays :
      (h i j : ℕ) → h < cap → i < cap → j < cap → stays c i j h ≡ true → passes h i j ≡ false
  unfolding passes stays
  passes-stays h i j hc ic jc s = ground arith

  pub stays_step :
      (i j0 j m : ℕ)
      → Follows cap j0 j
      → i < cap
      → m < cap
      → m ≢ j
      → i ≢ j
      → stays c i j0 m ≡ false
      → stays c i j m ≡ false
  unfolding stays
  stays_step i j0 j m f ic mc mj ij s = ground arith

  pub passes-moved :
      (h i j k : ℕ)
      → h < cap
      → i < cap
      → j < cap
      → k < cap
      → i ≢ j
      → stays c i j h ≡ false
      → passes h k i ≡ true
      → (passes h k j ≡ true) × (k ≢ i) × (k ≢ j)
  unfolding passes stays
  passes-moved h i j k hc ic jc kc ij s p = ground arith

  pub stays_self : (j m : ℕ) → stays c j j m ≡ false
  unfolding stays
  stays_self j m = ground arith

  pub home-lt : (id : ℕ) → 0 < cap → home c id < cap
  unfolding home
  home-lt id h = mod-lt _ h

  pub passes_step :
      (h i0 i m : ℕ)
      → Follows cap i0 i
      → m < cap
      → h < cap
      → passes h i0 m ≡ true
      → (i ≡ m) ⊎ (passes h i m ≡ true)
  unfolding passes
  passes_step h i0 i m f mc hc p = ground arith

  pub passes_next :
      (h i0 i m : ℕ)
      → Follows cap i0 i
      → m < cap
      → h < cap
      → passes h m i ≡ true
      → (m ≡ i0) ⊎ (passes h m i0 ≡ true)
  unfolding passes
  passes_next h i0 i m f mc hc p = ground arith

  pub passes_start : (h m : ℕ) → (h ≡ m) ⊎ (passes h h m ≡ true)
  unfolding passes
  passes_start h m = ground arith

  pub passes_self : (h k : ℕ) → passes h k h ≡ false
  unfolding passes
  passes_self h k = ground arith

  pub passes_apart : (h k m : ℕ) → passes h k m ≡ true → k ≢ m
  unfolding passes
  passes_apart h k m p = ground arith

-- d cells on from i lies e
abbrev pub Away : ℕ → ℕ → ℕ → ℕ → Type 0
Away cap d i e = (i + d ≡ e) ⊎ (i + d ≡ e + cap)

pub Away-start : (cap i e : ℕ) → i < cap → e < cap → (d : ℕ) × (d < cap) × Away cap d i e
Away-start cap i e ic ec = elim (Bool-cases (leb i e)) [
  | inl b ↦ (e - i, ground arith, inl (ground arith))
  | inr b ↦ (e + cap - i, ground arith, inr (ground arith))
]

pub Away-step :
    (cap d i0 i e : ℕ)
    → Follows cap i0 i
    → e < cap
    → i0 ≢ e
    → Away cap d i0 e
    → d < cap
    → (0 < d) × Away cap (d - 1) i e
Away-step cap d i0 i e f ec ne a l = ground arith

pub Away-end : (cap i e : ℕ) → i < cap → e < cap → Away cap 0 i e → i ≡ e
Away-end cap i e ic ec a = ground arith

-- The loop of `remove_at` that began at i0 has its hole at i and is at cell j: e, which is free, lies
-- ahead of j and before i0.
abbrev pub Phase : ℕ → ℕ → ℕ → ℕ → Type 0
Phase i0 e i j =
    ((i0 ≤ i) × (i ≤ j) × ((j < e) ⊎ (e < i0)))
    ⊎ ((j < i0) × (j < e) × (e < i0) × ((i ≤ j) ⊎ (i0 ≤ i)))

pub Phase-ahead : (i0 e i j : ℕ) → Phase i0 e i j → (e ≢ i) × (e ≢ j)
Phase-ahead i0 e i j p = ground arith

pub Phase-kept :
    (cap i0 e i j0 j : ℕ)
    → Follows cap j0 j
    → e < cap
    → i0 < cap
    → i < cap
    → j ≢ e
    → Phase i0 e i j0
    → (i ≢ j) × Phase i0 e i j
Phase-kept cap i0 e i j0 j f ec ic il ne p = ground arith

pub Phase-moved :
    (cap i0 e i j0 j : ℕ)
    → Follows cap j0 j
    → e < cap
    → i0 < cap
    → i < cap
    → j ≢ e
    → Phase i0 e i j0
    → Phase i0 e j j
Phase-moved cap i0 e i j0 j f ec ic il ne p = ground arith

-- A cell that moves to a hole before i0 comes from before i0.
pub Phase-before : (i0 e i j : ℕ) → Phase i0 e i j → i < i0 → j < i0
Phase-before i0 e i j p l = ground arith
