-- ===== src/BucketLog/Walk.antt =====
-- The log of a bucket as the list of its slots: what the loops of the walk compute, and that
-- `peb_size` rounds are enough for each of them.
use key_value_db.Base.{
  ℕ, zero, suc, ◌+◌, ◌≤◌, ◌<◌, ◌≡◌, refl, sym, ap, ◌⊎◌, inl, inr, Bool, true, false, not, ◌&&◌,
  ◌||◌, Option, none, some, List, [], ◌∷◌, ◌++◌, arith, ◌==◌, if◌then◌else◌, Bool-cases,
  Option-cases, take, drop, drop-drop,
}
use key_value_db.BucketLog.{
  Geometry, Slot, slot_overhead, is_tombstone, slot_at, slot_walk_at, superseded_from,
}
use key_value_db.BucketLog.Parse.{slot_at-bounds}

-- a slot of the log, with its offset, whether its CRC verifies, and its bytes
pub record At : Type 0 where
  pub off : ℕ
  pub sv : Slot
  pub intact : Bool
  pub bytes : List ℕ

abbrev pub Log : Type 0
Log = List At

abbrev pub is_for : At → ℕ → Bool
is_for a id = a.intact && a.sv.id == id

-- an intact slot of this id among these
abbrev pub later : Log → ℕ → Bool
later [] id = false
later (a ∷ xs) id = is_for a id || later xs id

-- the last intact slot of this id
abbrev pub newest : Log → ℕ → Option At
newest [] id = none
newest (a ∷ xs) id = elim (newest xs id) [
  | some b ↦ some b
  | none ↦ if is_for a id then some a else none
]

abbrev pub payload_of : Option At → Option (List ℕ)
payload_of none = none
payload_of (some a) =
    if is_tombstone a.sv.flags then none else some (take a.sv.val_len (drop 12 a.bytes))

-- what an id is bound to: the payload of its newest intact slot, unless that is a tombstone
abbrev pub live : Log → ℕ → Option (List ℕ)
live xs id = payload_of (newest xs id)

-- the slots that compaction keeps
abbrev pub keep : Log → Log
keep [] = []
keep (a ∷ xs) =
    if a.intact && not (is_tombstone a.sv.flags) && not (later xs a.sv.id)
    then a ∷ keep xs
    else keep xs

abbrev pub bytes_of : Log → List ℕ
bytes_of [] = []
bytes_of (a ∷ xs) = a.bytes ++ bytes_of xs

module _ (g : Geometry) where
  -- the slots from offset `off` on, where the image reads `bs`
  unfoldable pub parse : ℕ → ℕ → List ℕ → Log
  parse zero off bs = []
  parse (suc k) off bs = elim (slot_at g off bs) [
    | none ↦ []
    | some (sv, intact) ↦
        record { off = off; sv = sv; intact = intact; bytes = take sv.total_size bs }
        ∷ parse k (off + sv.total_size) (drop sv.total_size bs)
  ]

  pub slot_at-end :
      (off : ℕ) (bs : List ℕ) → g.peb_size < off + slot_overhead → slot_at g off bs ≡ none
  unfolding slot_at
  slot_at-end off bs h = ground arith

  pub Slot-cases :
      (off : ℕ) (bs : List ℕ)
      → (slot_at g off bs ≡ none)
        ⊎ ((sv : Slot) × (intact : Bool) × (slot_at g off bs ≡ some (sv, intact)))
  Slot-cases off bs = split (slot_at g off bs) refl
    where
      split :
          (o : Option (Slot × Bool))
          → slot_at g off bs ≡ o
          → (slot_at g off bs ≡ none)
            ⊎ ((sv : Slot) × (intact : Bool) × (slot_at g off bs ≡ some (sv, intact)))
      split none e = inl e
      split (some (sv, intact)) e = inr (sv, intact, e)

  -- Any fuel that covers the rest of the erase block gives the same log.
  pub parse-fuel :
      (k k' off : ℕ) (bs : List ℕ)
      → g.peb_size ≤ off + k
      → g.peb_size ≤ off + k'
      → parse k off bs ≡ parse k' off bs
  unfolding parse
  parse-fuel zero zero off bs h h' = refl
  parse-fuel zero (suc k') off bs h h' = rw (slot_at-end off bs (omega arith), parse)
  parse-fuel (suc k) zero off bs h h' = rw (slot_at-end off bs (omega arith), parse)
  parse-fuel (suc k) (suc k') off bs h h' = elim (Slot-cases off bs) [
    | inl e ↦ rw (e, parse)
    | inr (sv, intact, e) ↦
        let b = slot_at-bounds g off bs sv intact e in
        rw (e, parse)
          (ap
            (λ l. record { off = off; sv = sv; intact = intact; bytes = take sv.total_size bs } ∷ l)
            (parse-fuel k k' (off + sv.total_size) (drop sv.total_size bs) (omega arith)
              (omega arith)))
  ]

  -- slot_superseded asks whether the log behind the slot has an intact slot of the same id.
  pub superseded-later :
      (k : ℕ) (buf : List ℕ) (scan id : ℕ)
      → superseded_from g k buf scan id ≡ later (parse k scan (drop scan buf)) id
  unfolding superseded_from slot_walk_at parse
  superseded-later zero buf scan id = refl
  superseded-later (suc k) buf scan id = elim (Slot-cases scan (drop scan buf)) [
    | inl e ↦ rw (e, superseded_from, parse)
    | inr (sv, intact, e) ↦
        rw (e, superseded_from, parse, superseded-later k buf (scan + sv.total_size) id)
          (ap (λ bs. (intact && sv.id == id) || later (parse k (scan + sv.total_size) bs) id)
            (sym (drop-drop sv.total_size scan buf)))
  ]

  pub later-newest : (xs : Log) (id : ℕ) → later xs id ≡ false → newest xs id ≡ none
  later-newest [] id h = refl
  later-newest (a ∷ xs) id h = ground (arith, later-newest xs id)

  pub newest-later : (xs : Log) (id : ℕ) → later xs id ≡ true → (a : At) × (newest xs id ≡ some a)
  newest-later [] id h = absurd (cc)
  newest-later (a ∷ xs) id h = elim (Option-cases (newest xs id)) [
    | inr (b, e) ↦ (b, rw e)
    | inl e ↦ (a, rw e (ground (arith, newest-later xs id)))
  ]

abbrev not_dead : Option At → Option At
not_dead none = none
not_dead (some a) = if is_tombstone a.sv.flags then none else some a

pub none-later : (g : Geometry) (xs : Log) (id : ℕ) → newest xs id ≡ none → later xs id ≡ false
none-later g xs id h = elim (Bool-cases (later xs id)) [
  | inr e ↦ e
  | inl e ↦ let (a, f) = newest-later g xs id e in absurd (cc)
]

newest-keep : (g : Geometry) (xs : Log) (id : ℕ) → newest (keep xs) id ≡ not_dead (newest xs id)
newest-keep g [] id = refl
newest-keep g (a ∷ xs) id = elim (Option-cases (newest xs id)) [
  | inl e ↦
      rw e (ground (arith, newest-keep g xs id, later-newest g xs a.sv.id, none-later g xs id e))
  | inr (b, e) ↦ rw e (ground (arith, newest-keep g xs id, later-newest g xs a.sv.id))
]

-- The slots that compaction keeps say the same of every id.
pub live-keep : (g : Geometry) (xs : Log) (id : ℕ) → live (keep xs) id ≡ live xs id
live-keep g xs id = ground (arith, newest-keep g xs id)
