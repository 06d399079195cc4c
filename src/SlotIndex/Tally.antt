-- ===== src/SlotIndex/Tally.antt =====
-- What a table holds, as sums over its cells: of a weight of each cell's id and offset.
use key_value_db.Base.{
  ℕ, zero, suc, ◌+◌, ◌≤◌, ◌<◌, ◌≡◌, refl, sym, ap, ap₂, ◌∙◌, ◌≢◌, inl, inr, arith, ltb, ◌==◌,
  ltb→lt, ltb→le, ==_iff, Bool-cases,
}
use key_value_db.SlotIndex.{store}

unfoldable pub tally : (ℕ → ℕ → ℕ) → (ids offs : ℕ → ℕ) → ℕ → ℕ
tally w ids offs zero = 0
tally w ids offs (suc n) = w (ids n) (offs n) + tally w ids offs n

-- the weight counts no free cell
abbrev pub Weighs : (ℕ → ℕ → ℕ) → Type 0
Weighs w = (o : ℕ) → w 0 o ≡ 0

pub store_self : (a : ℕ → ℕ) (i v : ℕ) → store a i v i ≡ v
store_self a i v = ground arith

pub store_other : (a : ℕ → ℕ) (i v j : ℕ) → i ≢ j → store a i v j ≡ a j
store_other a i v j h = ground arith

pub tally_same :
    (w : ℕ → ℕ → ℕ) (ids offs ids' offs' : ℕ → ℕ) (n : ℕ)
    → ((m : ℕ) → m < n → ids' m ≡ ids m)
    → ((m : ℕ) → m < n → offs' m ≡ offs m)
    → tally w ids' offs' n ≡ tally w ids offs n
unfolding tally
tally_same w ids offs ids' offs' zero hi ho = refl
tally_same w ids offs ids' offs' (suc n) hi ho =
    ap₂ (λ (a b : ℕ). a + b) (ap₂ w (hi n (omega arith)) (ho n (omega arith)))
      (tally_same w ids offs ids' offs' n (λ m l. hi m (omega arith)) (λ m l. ho m (omega arith)))

-- One changed cell changes the sum by that cell's weight.
pub tally_change :
    (w : ℕ → ℕ → ℕ) (ids offs ids' offs' : ℕ → ℕ) (n i : ℕ)
    → i < n
    → ((m : ℕ) → i ≢ m → ids' m ≡ ids m)
    → ((m : ℕ) → i ≢ m → offs' m ≡ offs m)
    → tally w ids' offs' n + w (ids i) (offs i) ≡ tally w ids offs n + w (ids' i) (offs' i)
unfolding tally
tally_change w ids offs ids' offs' zero i h hi ho = absurd (omega arith)
tally_change w ids offs ids' offs' (suc n) i h hi ho = elim (Bool-cases (i == n)) [
  | inl e ↦
      let same : i ≡ n = (==_iff i n).0 e in
      let rest =
        tally_same w ids offs ids' offs' n (λ m l. hi m (λ e'. omega arith))
          (λ m l. ho m (λ e'. omega arith)) in
      rw (same) (omega (arith, rest))
  | inr e ↦
      let apart : i ≢ n = ground arith in
      let rest = tally_change w ids offs ids' offs' n i (omega arith) hi ho in
      rw (hi n apart, ho n apart) (omega (arith, rest))
]

-- A cell moves into a hole.
pub tally_move :
    (w : ℕ → ℕ → ℕ) (ids offs : ℕ → ℕ) (n i j : ℕ)
    → Weighs w
    → i < n
    → j < n
    → ids i ≡ 0
    → ids j ≢ 0
    → tally w (store (store ids i (ids j)) j 0) (store offs i (offs j)) n ≡ tally w ids offs n
tally_move w ids offs n i j z il jl hole full =
    let apart : i ≢ j = λ e. full (ap ids (sym e) ∙ hole) in
    let ids₁ = store ids i (ids j) in
    let offs₁ = store offs i (offs j) in
    let first =
      tally_change w ids offs ids₁ offs₁ n i il (store_other ids i (ids j))
        (store_other offs i (offs j)) in
    let second =
      tally_change w ids₁ offs₁ (store ids₁ j 0) offs₁ n j jl (store_other ids₁ j 0)
        (λ m ne. refl) in
    let freed : w (ids i) (offs i) ≡ 0 = rw (hole) (z (offs i)) in
    let filled : w (ids₁ i) (offs₁ i) ≡ w (ids j) (offs j) =
      ap₂ w (store_self ids i (ids j)) (store_self offs i (offs j)) in
    let read : w (ids₁ j) (offs₁ j) ≡ w (ids j) (offs j) =
      ap₂ w (store_other ids i (ids j) j apart) (store_other offs i (offs j) j apart) in
    let left : w (store ids₁ j 0 j) (offs₁ j) ≡ 0 = rw (store_self ids₁ j 0) (z (offs₁ j)) in
    omega (arith, first, second, freed, filled, read, left)

-- A cell's weight is part of the sum.
pub tally-le :
    (w : ℕ → ℕ → ℕ) (ids offs : ℕ → ℕ) (n i : ℕ) → i < n → w (ids i) (offs i) ≤ tally w ids offs n
unfolding tally
tally-le w ids offs zero i h = absurd (omega arith)
tally-le w ids offs (suc n) i h = elim (Bool-cases (i == n)) [
  | inl e ↦ let same : i ≡ n = (==_iff i n).0 e in rw (same) (omega arith)
  | inr e ↦ let apart : i ≢ n = ground arith in omega (arith, tally-le w ids offs n i (omega arith))
]

-- Two cells' weights are.
pub tally-le_two :
    (w : ℕ → ℕ → ℕ) (ids offs : ℕ → ℕ) (n i j : ℕ)
    → i < n
    → j < n
    → i ≢ j
    → w (ids i) (offs i) + w (ids j) (offs j) ≤ tally w ids offs n
unfolding tally
tally-le_two w ids offs zero i j h h' ne = absurd (omega arith)
tally-le_two w ids offs (suc n) i j h h' ne = elim (Bool-cases (i == n)) [
  | inl e ↦
      let same : i ≡ n = (==_iff i n).0 e in
      rw (same) (omega (arith, tally-le w ids offs n j (omega arith)))
  | inr e ↦
      let apart : i ≢ n = ground arith in
      elim (Bool-cases (j == n)) [
        | inl e' ↦
            let same : j ≡ n = (==_iff j n).0 e' in
            rw (same) (omega (arith, tally-le w ids offs n i (omega arith)))
        | inr e' ↦
            let apart' : j ≢ n = ground arith in
            omega (arith, tally-le_two w ids offs n i j (omega arith) (omega arith) ne)
      ]
]

-- A sum above 0 has a cell of weight above 0.
pub tally_witness :
    (w : ℕ → ℕ → ℕ) (ids offs : ℕ → ℕ) (n : ℕ)
    → 0 < tally w ids offs n
    → (i : ℕ) × (i < n) × (0 < w (ids i) (offs i))
unfolding tally
tally_witness w ids offs zero h = absurd (omega arith)
tally_witness w ids offs (suc n) h = elim (Bool-cases (ltb 0 (w (ids n) (offs n)))) [
  | inl e ↦ (n, omega arith, ltb→lt 0 _ e)
  | inr e ↦
      let (i, l, p) = tally_witness w ids offs n (omega (arith, ltb→le 0 _ e)) in
      (i, omega arith, p)
]

-- Cells of weight at most 1, whose sum is below their number, have one of weight 0.
pub tally_room :
    (w : ℕ → ℕ → ℕ) (ids offs : ℕ → ℕ) (n : ℕ)
    → tally w ids offs n < n
    → (i : ℕ) × (i < n) × (w (ids i) (offs i) ≡ 0)
unfolding tally
tally_room w ids offs zero h = absurd (omega arith)
tally_room w ids offs (suc n) h = elim (Bool-cases (w (ids n) (offs n) == 0)) [
  | inl e ↦ (n, omega arith, (==_iff (w (ids n) (offs n)) 0).0 e)
  | inr e ↦
      let nz : w (ids n) (offs n) ≢ 0 = ground arith in
      let (i, l, p) = tally_room w ids offs n (omega arith) in (i, omega arith, p)
]

pub tally_mono :
    (w w' : ℕ → ℕ → ℕ) (ids offs : ℕ → ℕ) (n : ℕ)
    → ((id o : ℕ) → w id o ≤ w' id o)
    → tally w ids offs n ≤ tally w' ids offs n
unfolding tally
tally_mono w w' ids offs zero h = omega arith
tally_mono w w' ids offs (suc n) h = omega (arith, h (ids n) (offs n), tally_mono w w' ids offs n h)

pub tally_zero :
    (w : ℕ → ℕ → ℕ) (ids offs : ℕ → ℕ) (n : ℕ)
    → ((m : ℕ) → m < n → w (ids m) (offs m) ≡ 0)
    → tally w ids offs n ≡ 0
unfolding tally
tally_zero w ids offs zero h = refl
tally_zero w ids offs (suc n) h =
    omega (arith, h n (omega arith), tally_zero w ids offs n (λ m l. h m (omega arith)))
