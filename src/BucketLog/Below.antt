-- ===== src/BucketLog/Below.antt =====
-- The slots of a log that start below an offset: what a retry of the lookup looks at.
use key_value_db.Base.{
  ℕ, zero, suc, ◌+◌, ◌≤◌, ◌<◌, ◌≡◌, refl, ap, ◌∙◌, inl, inr, true, false, ◌&&◌, Option, none, some,
  List, [], ◌∷◌, arith, ltb, ◌==◌, if◌then◌else◌, Option-cases, take, drop, drop-drop,
}
use key_value_db.BucketLog.{Geometry, slot_at}
use key_value_db.BucketLog.Parse.{slot_at-bounds}
use key_value_db.BucketLog.Walk.{At, Log, newest, is_for, parse, Slot-cases}

-- the last slot of this id below `limit`, intact or not
abbrev pub last_below : ℕ → ℕ → Log → Option At
last_below id limit [] = none
last_below id limit (a ∷ xs) = elim (last_below id limit xs) [
  | some b ↦ some b
  | none ↦ if a.sv.id == id && ltb a.off limit then some a else none
]

-- the last intact slot of this id below `limit`
abbrev pub newest_below : ℕ → ℕ → Log → Option At
newest_below id limit [] = none
newest_below id limit (a ∷ xs) = elim (newest_below id limit xs) [
  | some b ↦ some b
  | none ↦ if is_for a id && ltb a.off limit then some a else none
]

-- each slot stands in the sector, at an offset above the ones before it
abbrev pub Placed : Geometry → List ℕ → ℕ → Log → Type 0
Placed g buf lo [] = Unit {0}
Placed g buf lo (a ∷ xs) =
    (lo ≤ a.off)
    × (a.off < g.peb_size)
    × (slot_at g a.off (drop a.off buf) ≡ some (a.sv, a.intact))
    × (a.bytes ≡ take a.sv.total_size (drop a.off buf))
    × Placed g buf (suc a.off) xs

pub below-none :
    (id limit : ℕ) (xs : Log) → last_below id limit xs ≡ none → newest_below id limit xs ≡ none
below-none id limit [] h = refl
below-none id limit (a ∷ xs) h = ground (arith, below-none id limit xs)

pub below-intact :
    (id limit : ℕ) (xs : Log) (a : At)
    → last_below id limit xs ≡ some a
    → a.intact ≡ true
    → newest_below id limit xs ≡ some a
below-intact id limit [] a h i = ground arith
below-intact id limit (b ∷ xs) a h i = elim (Option-cases (last_below id limit xs)) [
  | inl e ↦ ground (arith, below-none id limit xs e)
  | inr (c, e) ↦ ground (arith, below-intact id limit xs c e)
]

module _ (g : Geometry) (buf : List ℕ) where
  pub Placed-lower : (lo lo' : ℕ) (xs : Log) → lo' ≤ lo → Placed g buf lo xs → Placed g buf lo' xs
  Placed-lower lo lo' [] h p = tt
  Placed-lower lo lo' (a ∷ xs) h p = (omega (arith, p.0), p.1, p.2, p.3, p.4)

  -- what is known of a slot that the lookup finds
  pub last_below-Placed :
      (id limit lo : ℕ) (xs : Log) (a : At)
      → Placed g buf lo xs
      → last_below id limit xs ≡ some a
      → (lo ≤ a.off)
        × (a.off < limit)
        × (slot_at g a.off (drop a.off buf) ≡ some (a.sv, a.intact))
        × (a.bytes ≡ take a.sv.total_size (drop a.off buf))
  last_below-Placed id limit lo [] a p h = ground arith
  last_below-Placed id limit lo (b ∷ xs) a p h = elim (Option-cases (last_below id limit xs)) [
    | inr (c, e) ↦
        let same : c ≡ a = ground arith in
        let f = last_below-Placed id limit (suc b.off) xs c p.4 e in
        rw (← same) (omega (arith, f.0, p.0), f.1, f.2, f.3)
    | inl e ↦ let same : b ≡ a = ground arith in rw (← same) (p.0, ground arith, p.2, p.3)
  ]

  -- nothing stands below the first slot
  below-first : (id limit : ℕ) (xs : Log) → Placed g buf limit xs → newest_below id limit xs ≡ none
  below-first id limit [] p = refl
  below-first id limit (a ∷ xs) p =
      let ih =
        below-first id limit xs (Placed-lower (suc a.off) limit xs (omega (arith, p.0)) p.4) in
      let out : ltb a.off limit ≡ false = ground (arith, p.0) in rw (ih, out) (ground arith)

  pub below-rotten :
      (id limit lo : ℕ) (xs : Log) (a : At)
      → Placed g buf lo xs
      → last_below id limit xs ≡ some a
      → a.intact ≡ false
      → newest_below id limit xs ≡ newest_below id a.off xs
  below-rotten id limit lo [] a p h r = refl
  below-rotten id limit lo (b ∷ xs) a p h r = elim (Option-cases (last_below id limit xs)) [
    | inr (c, e) ↦
        let same : c ≡ a = ground arith in
        let f = last_below-Placed id limit (suc b.off) xs a p.4 (e ∙ ap some same) in
        let below : ltb b.off limit ≡ true = ground (arith, f.0, f.1) in
        let before : ltb b.off a.off ≡ true = ground (arith, f.0) in
        ground (arith, below-rotten id limit (suc b.off) xs a p.4 (e ∙ ap some same) r)
    | inl e ↦
        let same : b ≡ a = ground arith in
        let rot : b.intact ≡ false = ap (λ c. c.intact) same ∙ r in
        let first = below-first id b.off xs (Placed-lower (suc b.off) b.off xs (omega arith) p.4) in
        let here : newest_below id limit (b ∷ xs) ≡ newest_below id b.off (b ∷ xs) =
          rw (below-none id limit xs e, first, rot) refl in
        here ∙ ap (λ c. newest_below id c.off (b ∷ xs)) same
  ]

  pub below-all :
      (id lo : ℕ) (xs : Log) → Placed g buf lo xs → newest_below id g.peb_size xs ≡ newest xs id
  below-all id lo [] p = refl
  below-all id lo (a ∷ xs) p =
      let inside : ltb a.off g.peb_size ≡ true = ground (arith, p.1) in
      elim (Option-cases (newest xs id)) [
        | inl e ↦ rw (below-all id (suc a.off) xs p.4, e, inside) (ground arith)
        | inr (c, e) ↦ rw (below-all id (suc a.off) xs p.4, e) refl
      ]

  pub parse-Placed : (k off : ℕ) → Placed g buf off (parse g k off (drop off buf))
  unfolding parse
  parse-Placed zero off = tt
  parse-Placed (suc k) off = elim (Slot-cases g off (drop off buf)) [
    | inl e ↦ rw (e, parse) tt
    | inr (sv, intact, e) ↦
        let b = slot_at-bounds g off (drop off buf) sv intact e in
        rw (e, parse, drop-drop sv.total_size off buf)
          (
            omega arith,
            omega arith,
            e,
            refl,
            Placed-lower (off + sv.total_size) (suc off)
                (parse g k (off + sv.total_size) (drop (off + sv.total_size) buf)) (omega arith)
                (parse-Placed k (off + sv.total_size)),
          )
  ]
