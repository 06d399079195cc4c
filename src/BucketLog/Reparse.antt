-- ===== src/BucketLog/Reparse.antt =====
-- Reading a bucket back after compaction: the packed slots parse as the slots that were kept.
use key_value_db.Base.{
  ℕ, zero, suc, ◌+◌, ◌≤◌, ◌≡◌, refl, ap, ◌∙◌, inl, inr, Bool, not, ◌&&◌, Option, none, some, List,
  [], ◌∷◌, ◌++◌, arith, ltb, Bool-cases, length, take, drop, replicate, length-take, length-drop,
  take-append_self, drop-append_self, of_le,
}
use mathlib.Core.List.{append_assoc}
use key_value_db.BucketLog.{Geometry, Slot, slot_overhead, is_tombstone, slot_at, erased}
use key_value_db.BucketLog.Parse.{slot_at-bounds, slot_at-moved}
use key_value_db.BucketLog.Walk.{
  At, Log, later, newest, payload_of, live, keep, bytes_of, parse, Slot-cases,
}

-- the log with its slots one behind the other from `off` on
abbrev pub relocate : ℕ → Log → Log
relocate off [] = []
relocate off (a ∷ xs) =
    record { off = off; sv = a.sv; intact = a.intact; bytes = a.bytes }
    ∷ relocate (off + a.sv.total_size) xs

-- a slot without its offset
abbrev strip : Option At → Option (Slot × List ℕ)
strip none = none
strip (some a) = some (a.sv, a.bytes)

newest-relocate :
    (off : ℕ) (xs : Log) (id : ℕ) → strip (newest (relocate off xs) id) ≡ strip (newest xs id)
newest-relocate off [] id = refl
newest-relocate off (a ∷ xs) id = ground (arith, newest-relocate (off + a.sv.total_size) xs id)

payload_of-strip : (o p : Option At) → strip o ≡ strip p → payload_of o ≡ payload_of p
payload_of-strip o p h = ground arith

pub live-relocate : (off : ℕ) (xs : Log) (id : ℕ) → live (relocate off xs) id ≡ live xs id
live-relocate off xs id =
    payload_of-strip (newest (relocate off xs) id) (newest xs id) (newest-relocate off xs id)

module _ (g : Geometry) where
  -- Nothing is parsed where no slot begins.
  pub parse-none :
      (k off : ℕ) (bs : List ℕ) → ((n : ℕ) → slot_at g n bs ≡ none) → parse g k off bs ≡ []
  unfolding parse
  parse-none zero off bs h = refl
  parse-none (suc k) off bs h = rw (h off, parse)

  pub slot_at-erased : (n off : ℕ) → slot_at g off (replicate n erased) ≡ none
  unfolding slot_at of_le
  slot_at-erased zero off = elim (Bool-cases (ltb g.peb_size (off + slot_overhead))) [
    | inl e ↦ rw e refl
    | inr e ↦ rw e refl
  ]
  slot_at-erased (suc n) off = elim (Bool-cases (ltb g.peb_size (off + slot_overhead))) [
    | inl e ↦ rw e refl
    | inr e ↦ rw e refl
  ]

  -- the first slot of a packed log, in front of the rest
  kept_first :
      (k' off off' : ℕ) (bs rest tail : List ℕ) (sv : Slot) (intact : Bool) (xs : Log)
      → slot_at g off bs ≡ some (sv, intact)
      → sv.total_size ≤ length bs
      → off' ≤ off
      → g.peb_size ≤ off' + k'
      → ((j : ℕ)
          → g.peb_size ≤ off' + sv.total_size + j
          → parse g j (off' + sv.total_size) (rest ++ tail) ≡ xs)
      → parse g k' off' ((take sv.total_size bs ++ rest) ++ tail)
        ≡ record { off = off'; sv = sv; intact = intact; bytes = take sv.total_size bs } ∷ xs
  unfolding parse
  kept_first zero off off' bs rest tail sv intact xs e l le h f =
      let b = slot_at-bounds g off bs sv intact e in absurd (omega arith)
  kept_first (suc k) off off' bs rest tail sv intact xs e l le h f =
      let b = slot_at-bounds g off bs sv intact e in
      let size : sv.total_size ≡ length (take sv.total_size bs) =
        omega (arith, length-take sv.total_size bs) in
      ap (λ l. parse g (suc k) off' l) (append_assoc (take sv.total_size bs) rest tail)
      ∙ rw
          (
            slot_at-moved g off off' bs (rest ++ tail) sv intact e l le,
            parse,
            take-append_self (take sv.total_size bs) (rest ++ tail) sv.total_size size,
            drop-append_self (take sv.total_size bs) (rest ++ tail) sv.total_size size,
            f k (omega arith),
          )
          refl

  -- The bytes of the kept slots, packed from a lower offset on, parse as those slots.
  pub parse-bytes_of :
      (k k' off off' : ℕ) (bs tail : List ℕ)
      → off + length bs ≡ g.peb_size
      → off' ≤ off
      → g.peb_size ≤ off' + k'
      → ((n : ℕ) → slot_at g n tail ≡ none)
      → parse g k' off' (bytes_of (keep (parse g k off bs)) ++ tail)
        ≡ relocate off' (keep (parse g k off bs))
  unfolding parse
  parse-bytes_of zero k' off off' bs tail l le h' t = parse-none k' off' tail t
  parse-bytes_of (suc k) k' off off' bs tail l le h' t = elim (Slot-cases g off bs) [
    | inl e ↦ rw (e, parse) (parse-none k' off' tail t)
    | inr (sv, intact, e) ↦
        let b = slot_at-bounds g off bs sv intact e in
        let rest = parse g k (off + sv.total_size) (drop sv.total_size bs) in
        let l' : off + sv.total_size + length (drop sv.total_size bs) ≡ g.peb_size =
          omega (arith, length-drop sv.total_size bs) in
        elim (Bool-cases (intact && not (is_tombstone sv.flags) && not (later rest sv.id))) [
          | inr drops ↦
              rw (e, parse, drops)
                (parse-bytes_of k k' (off + sv.total_size) off' (drop sv.total_size bs) tail l'
                  (omega arith) h' t)
          | inl keeps ↦
              rw (e, parse, keeps)
                (kept_first k' off off' bs (bytes_of (keep rest)) tail sv intact
                  (relocate (off' + sv.total_size) (keep rest)) e (omega arith) le h'
                  (λ j p.
                    parse-bytes_of k j (off + sv.total_size) (off' + sv.total_size)
                      (drop sv.total_size bs) tail l' (omega arith) p t))
        ]
  ]
