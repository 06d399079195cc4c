-- ===== src/SlotIndex/Weight.antt =====
-- The weights that count a table's cells: those of an id, of an entry, in use, and of a bucket.
use key_value_db.Base.{
  ℕ, ◌+◌, ◌%◌, ◌≤◌, ◌<◌, ◌≡◌, refl, sym, ap, ◌∙◌, ◌≢◌, ◌⊎◌, inl, inr, ◌&&◌, Option, none, some,
  arith, ◌==◌, if◌then◌else◌, ==_iff, Bool-cases,
}
use key_value_db.SlotIndex.{Config, Index, find, home}
use key_value_db.SlotIndex.Cyclic.{home-lt}
use key_value_db.SlotIndex.Tally.{tally, Weighs, tally-le, tally-le_two, tally_witness}
use key_value_db.SlotIndex.Probe.{Reach, Absent, find_from-Found, find_from_cases}

unfoldable pub of_id : ℕ → ℕ → ℕ → ℕ
of_id x id o = if id == 0 then 0 else if id == x then 1 else 0

unfoldable pub of_entry : ℕ → ℕ → ℕ → ℕ → ℕ
of_entry x off id o = if id == 0 then 0 else if id == x && (o == off) then 1 else 0

unfoldable pub in_use : ℕ → ℕ → ℕ
in_use id o = if id == 0 then 0 else 1

unfoldable pub in_bucket : ℕ → ℕ → ℕ → ℕ → ℕ
in_bucket n b id o = if id == 0 then 0 else if id % n == b then 1 else 0

pub of_id-Weighs : (x : ℕ) → Weighs (of_id x)
unfolding of_id
of_id-Weighs x o = refl

pub of_entry-Weighs : (x off : ℕ) → Weighs (of_entry x off)
unfolding of_entry
of_entry-Weighs x off o = refl

pub in_use-Weighs : Weighs in_use
unfolding in_use
in_use-Weighs o = refl

pub in_bucket-Weighs : (n b : ℕ) → Weighs (in_bucket n b)
unfolding in_bucket
in_bucket-Weighs n b o = refl

pub of_id_self : (x o : ℕ) → x ≢ 0 → of_id x x o ≡ 1
unfolding of_id
of_id_self x o h = ground arith

pub of_id_pos : (x id o : ℕ) → 0 < of_id x id o → id ≡ x
unfolding of_id
of_id_pos x id o h = ground arith

pub of_id_other : (x id o : ℕ) → id ≢ x → of_id x id o ≡ 0
unfolding of_id
of_id_other x id o h = ground arith

pub of_entry_other : (x off id o : ℕ) → id ≢ x → of_entry x off id o ≡ 0
unfolding of_entry
of_entry_other x off id o h = ground arith

pub of_entry_self : (x o : ℕ) → x ≢ 0 → of_entry x o x o ≡ 1
unfolding of_entry
of_entry_self x o h = ground arith

pub of_entry_pos : (x off id o : ℕ) → 0 < of_entry x off id o → (id ≡ x) × (o ≡ off)
unfolding of_entry
of_entry_pos x off id o h = ground arith

pub in_use_self : (id o : ℕ) → id ≢ 0 → in_use id o ≡ 1
unfolding in_use
in_use_self id o h = ground arith

pub in_use_free : (id o : ℕ) → in_use id o ≡ 0 → id ≡ 0
unfolding in_use
in_use_free id o h = ground arith

pub in_bucket_self : (n b id o : ℕ) → id ≢ 0 → id % n ≡ b → in_bucket n b id o ≡ 1
unfolding in_bucket
in_bucket_self n b id o h e = ground arith

pub in_bucket_other : (n b id o : ℕ) → id % n ≢ b → in_bucket n b id o ≡ 0
unfolding in_bucket
in_bucket_other n b id o e = ground arith

pub in_bucket_pos : (n b id o : ℕ) → 0 < in_bucket n b id o → (id ≢ 0) × (id % n ≡ b)
unfolding in_bucket
in_bucket_pos n b id o h = ground arith

pub in_bucket-le : (n b id o : ℕ) → in_bucket n b id o ≤ in_use id o
unfolding in_bucket in_use
in_bucket-le n b id o = ground arith

module _ (c : Config) (g : Index) where
  open c use {cap}

  -- how much the table holds by a weight
  abbrev pub total : (ℕ → ℕ → ℕ) → ℕ
  total w = tally w g.ids g.offs cap

-- the offset that the table names for an id
abbrev pub offset_at : Index → Option ℕ → Option ℕ
offset_at g none = none
offset_at g (some i) = some (g.offs i)

unfoldable pub offset_of : Config → Index → ℕ → Option ℕ
offset_of c g id = offset_at g (find c g id)

-- No probe run is broken and no id has two cells.
pub record IsMap (c : Config) (g : Index) : Type 0 where
  pub reach : Reach c g.ids
  pub once : (x : ℕ) → total c g (of_id x) ≤ 1

module _ (c : Config) (g : Index) (mp : IsMap c g) where
  open c use {cap}
  open mp use {reach, once}

  pub cell_unique : (x i j : ℕ) → x ≢ 0 → i < cap → j < cap → g.ids i ≡ x → g.ids j ≡ x → i ≡ j
  cell_unique x i j nz il jl ei ej = elim (Bool-cases (i == j)) [
    | inl b ↦ (==_iff i j).0 b
    | inr b ↦
        let apart : i ≢ j = ground arith in
        let two = tally-le_two (of_id x) g.ids g.offs cap i j il jl apart in
        let wi : of_id x (g.ids i) (g.offs i) ≡ 1 = rw (ei) (of_id_self x (g.offs i) nz) in
        let wj : of_id x (g.ids j) (g.offs j) ≡ 1 = rw (ej) (of_id_self x (g.offs j) nz) in
        absurd (omega (arith, two, wi, wj, once x))
  ]

  pub offset_of_cell :
      (x k : ℕ)
      → x ≢ 0
      → k < cap
      → g.ids k ≡ x
      → (find c g x ≡ some k) × (offset_of c g x ≡ some (g.offs k))
  unfolding offset_of find
  offset_of_cell x k nz kl e =
      let (k', l, r, e') = find_from-Found c g.ids x k reach nz kl e in
      let same : k' ≡ k = cell_unique x k' k nz l kl e' e in (r ∙ ap some same, rw (r, same) refl)

  pub offset_of_absent :
      (x : ℕ)
      → x ≢ 0
      → 0 < cap
      → total c g (of_id x) ≡ 0
      → (find c g x ≡ none) × (offset_of c g x ≡ none)
  unfolding offset_of find
  offset_of_absent x nz pos z = elim (find_from_cases c g.ids x cap (home c x) (home-lt c x pos)) [
    | inl (k, l, r, e) ↦
        let one : of_id x (g.ids k) (g.offs k) ≡ 1 = rw (e) (of_id_self x (g.offs k) nz) in
        absurd (omega (arith, tally-le (of_id x) g.ids g.offs cap k l, one))
    | inr r ↦ (r, rw (r) refl)
  ]

  -- An id has a cell, or the table holds nothing of it.
  pub find_cases :
      (x : ℕ)
      → x ≢ 0
      → 0 < cap
      → ((k : ℕ) × (k < cap)
          × (g.ids k ≡ x)
          × (find c g x ≡ some k)
          × (offset_of c g x ≡ some (g.offs k)))
        ⊎ ((find c g x ≡ none) × (offset_of c g x ≡ none) × (total c g (of_id x) ≡ 0))
  find_cases x nz pos = elim (Bool-cases (total c g (of_id x) == 0)) [
    | inl b ↦
        let z = (==_iff (total c g (of_id x)) 0).0 b in
        let (f, o) = offset_of_absent x nz pos z in inr (f, o, z)
    | inr b ↦
        let (k, l, p) = tally_witness (of_id x) g.ids g.offs cap (ground arith) in
        let e = of_id_pos x (g.ids k) (g.offs k) p in
        let (f, o) = offset_of_cell x k nz l e in inl (k, l, e, f, o)
  ]

  pub offset_of_entry : (x o : ℕ) → x ≢ 0 → 0 < total c g (of_entry x o) → offset_of c g x ≡ some o
  offset_of_entry x o nz pos =
      let (k, l, p) = tally_witness (of_entry x o) g.ids g.offs cap pos in
      let (e, eo) = of_entry_pos x o (g.ids k) (g.offs k) p in
      (offset_of_cell x k nz l e).1 ∙ ap some eo

  pub entry_of_cell :
      (x k : ℕ) → x ≢ 0 → k < cap → g.ids k ≡ x → 0 < total c g (of_entry x (g.offs k))
  entry_of_cell x k nz l e =
      let one : of_entry x (g.offs k) (g.ids k) (g.offs k) ≡ 1 =
        rw (e) (of_entry_self x (g.offs k) nz) in
      omega (arith, tally-le (of_entry x (g.offs k)) g.ids g.offs cap k l, one)

pub Absent-of_id :
    (c : Config) (g : Index) (x : ℕ) → x ≢ 0 → total c g (of_id x) ≡ 0 → Absent c g.ids x
Absent-of_id c g x nz z m ml e =
    let one : of_id x (g.ids m) (g.offs m) ≡ 1 = rw (e) (of_id_self x (g.offs m) nz) in
    omega (arith, tally-le (of_id x) g.ids g.offs c.cap m ml, one, z)

-- What one operation does to the entries: (a, ao) leaves and (b, bo) comes, 0 for none.
abbrev pub Change : Config → Index → Index → ℕ → ℕ → ℕ → ℕ → Type 0
Change c g g' a ao b bo = (w : ℕ → ℕ → ℕ) → Weighs w → total c g' w + w a ao ≡ total c g w + w b bo

-- The other ids' offsets stay.
pub Change-offset_of :
    (c : Config) (g g' : Index) (a ao b bo x : ℕ)
    → IsMap c g
    → IsMap c g'
    → Change c g g' a ao b bo
    → 0 < c.cap
    → x ≢ 0
    → a ≢ x
    → b ≢ x
    → offset_of c g' x ≡ offset_of c g x
Change-offset_of c g g' a ao b bo x mp mp' ch pos nz xa xb = elim (find_cases c g mp x nz pos) [
  | inl (k, l, e, _, o) ↦
      let ent = of_entry x (g.offs k) in
      let same = ch ent (of_entry-Weighs x (g.offs k)) in
      let more = entry_of_cell c g mp x k nz l e in
      let wa = of_entry_other x (g.offs k) a ao xa in
      let wb = of_entry_other x (g.offs k) b bo xb in
      offset_of_entry c g' mp' x (g.offs k) nz (omega (arith, same, more, wa, wb)) ∙ sym o
  | inr (_, o, z) ↦
      let same = ch (of_id x) (of_id-Weighs x) in
      let wa = of_id_other x a ao xa in
      let wb = of_id_other x b bo xb in
      (offset_of_absent c g' mp' x nz pos (omega (arith, same, z, wa, wb))).1 ∙ sym o
]
